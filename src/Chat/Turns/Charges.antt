-- ===== src/Chat/Turns/Charges.antt =====
-- handlers/chat.py: what a turn costs, and what it leaves.
use astrbot_plugin_webchat_g.Prelude.{
  ℕ, ◌+◌, ◌≡◌, String, Bool, true, false, ◌&&◌, ◌||◌, ◌==◌, if◌then◌else◌, text_key, number_key,
  leb, length,
}
use astrbot_plugin_webchat_g.Usage.{get_today_usage, upsert_usage}
use astrbot_plugin_webchat_g.Quota.{QuotaReservation, new_reservation, close}
use astrbot_plugin_webchat_g.Chat.Requests.{PreparedChatRequest}
use astrbot_plugin_webchat_g.Chat.Turns.{
  World, Answers, ChatReply, concurrent_request, quota_exceeded, internal_error, llm_error,
  bridge_disabled, image_prompt_empty, client_closed, image_error, persist_failed, replied,
  pictured, no_response,
}

-- The answer is a reply, as a text or as an image.
abbrev pub is_reply : ChatReply → Bool
is_reply (replied text n) = true
is_reply (pictured id n) = true
is_reply no_response = false
is_reply concurrent_request = false
is_reply quota_exceeded = false
is_reply internal_error = false
is_reply (llm_error e) = false
is_reply bridge_disabled = false
is_reply image_prompt_empty = false
is_reply client_closed = false
is_reply (image_error e) = false
is_reply persist_failed = false

-- The turn was cancelled, without a response.
abbrev pub is_cancelled : ChatReply → Bool
is_cancelled (replied text n) = false
is_cancelled (pictured id n) = false
is_cancelled no_response = true
is_cancelled concurrent_request = false
is_cancelled quota_exceeded = false
is_cancelled internal_error = false
is_cancelled (llm_error e) = false
is_cancelled bridge_disabled = false
is_cancelled image_prompt_empty = false
is_cancelled client_closed = false
is_cancelled (image_error e) = false
is_cancelled persist_failed = false

abbrev pub is_charged : ChatReply → Bool
is_charged reply = is_reply reply || is_cancelled reply

abbrev pub pairs_after : World → ChatReply → ℕ
pairs_after w reply = if is_reply reply then length w.pairs + 1 else length w.pairs

-- The reservation is kept or given back, and a reply is recorded.
abbrev IsSettledTurn : QuotaReservation → World → ChatReply × World → Type 0
IsSettledTurn r w out =
    (out.1.usage ≡ (if is_charged out.0 then w.usage else (close r w.usage).1))
    × (length out.1.pairs ≡ pairs_after w out.0)

module _ (a : Answers) where
  module _ (p : PreparedChatRequest) (day : ℕ) (w : World) where
    -- The usage of every name and day after the turn, the count of recorded replies, and the quota.
    abbrev pub IsCharged : ChatReply × World → String → ℕ → Type 0
    IsCharged out m d =
        (get_today_usage m d out.1.usage ≡ (
          if is_charged out.0 && (p.token.name == m && day == d)
          then get_today_usage m d w.usage + 1
          else get_today_usage m d w.usage))
        × (length out.1.pairs ≡ pairs_after w out.0)
        × (is_charged out.0 && leb p.token.daily_quota (get_today_usage p.token.name day w.usage)
            ≡ false)

    abbrev used_before : ℕ
    used_before = get_today_usage p.token.name day w.usage

    abbrev opened : QuotaReservation
    opened = new_reservation p.token.name day (used_before + 1) p.token.daily_quota

    abbrev reserved : World
    reserved = record w { usage = upsert_usage p.token.name day w.usage }
