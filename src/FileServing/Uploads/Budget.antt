-- ===== src/FileServing/Uploads/Budget.antt =====
-- handlers/files.py, the upload: the quota of a token's storage, and what is let through.
use astrbot_plugin_webchat_g.Prelude.{ℕ, ◌≤◌, ◌<◌, ◌≡◌, max, String, true, text_key, number_key}
use astrbot_plugin_webchat_g.Storage.Files.{total_size_for_token, contains}
use astrbot_plugin_webchat_g.FileLifecycle.{Files}
use astrbot_plugin_webchat_g.FileServing.{is_file_id}
use astrbot_plugin_webchat_g.FileServing.Uploads.{
  Limits, UploadReply, refused, invalid_payload, payload_too_large, client_disconnected,
  invalid_session_id, unsupported_mime, internal_error, storage_unavailable, storage_quota_exceeded,
  uploaded, bytes_of,
}

module _ (l : Limits) (m : String) (s : Files) where
  -- What the token of a name may have stored after an upload.
  abbrev pub budget : ℕ
  budget = max (total_size_for_token m s.rows) (bytes_of l.per_token_storage_mb)

  abbrev pub IsWithinBudget : Files → Type 0
  IsWithinBudget s' = total_size_for_token m s'.rows ≤ budget

  -- What is let through: not empty, no larger than the limit, of an allowed type, under a well-formed
  -- identifier.
  abbrev pub IsSound : UploadReply → Type 0
  IsSound (uploaded id mime size) =
      (0 < size)
      × (size ≤ bytes_of l.max_file_size_mb)
      × (contains l.allowed_mime mime ≡ true)
      × (is_file_id id ≡ true)
  IsSound (refused verdict) = Unit
  IsSound invalid_payload = Unit
  IsSound payload_too_large = Unit
  IsSound client_disconnected = Unit
  IsSound invalid_session_id = Unit
  IsSound unsupported_mime = Unit
  IsSound internal_error = Unit
  IsSound storage_unavailable = Unit
  IsSound storage_quota_exceeded = Unit

  abbrev pub IsRight : UploadReply × Files → Type 0
  IsRight out = IsSound out.0 × IsWithinBudget out.1
