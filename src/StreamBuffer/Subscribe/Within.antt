-- ===== src/StreamBuffer/Subscribe/Within.antt =====
-- The methods of the buffer, and its caps.
use astrbot_plugin_webchat_g.Prelude.{
  ℕ, ◌≡◌, String, Bool, some, List, [], ◌∷◌, text_key, number_key, arith, Option-cases, inl, inr,
}
use astrbot_plugin_webchat_g.Dict.{
  get, put, put-IsDistinct, remove-IsDistinct, length-remove-le, length-put_old,
}
use astrbot_plugin_webchat_g.StreamBuffer.Types.{Entry, Buffer, Reason, manual, ttl_expired}
use astrbot_plugin_webchat_g.StreamBuffer.{
  evict_locked, do_evict, evict, evict_each, expired_ids, sweep_once,
}
use astrbot_plugin_webchat_g.StreamBuffer.Caps.{IsCapped, create-IsCapped}
use astrbot_plugin_webchat_g.StreamBuffer.Writes.{appended, closed, append_chunk_cases, close_cases}
use astrbot_plugin_webchat_g.StreamBuffer.Subscribe.{
  Op, creates, appends, closes, evicts, sweeps, apply,
}

-- The caps hold after every method.
evict_locked-IsCapped : (sid : String) (b : Buffer) → IsCapped b → IsCapped (evict_locked sid b)
unfolding evict_locked
evict_locked-IsCapped sid b v = elim (Option-cases (get sid b.entries)) [
  | inl gone ↦ rw (gone, evict_locked) v
  | inr (x, at) ↦
      rw (at, evict_locked)
        (record {
          positive = v.positive;
          bounded = omega (arith, length-remove-le sid b.entries, v.bounded);
          distinct = remove-IsDistinct sid b.entries v.distinct;
        })
]

evict_each-IsCapped :
    (sids : List String) (reason : Reason) (b : Buffer)
    → IsCapped b
    → IsCapped (evict_each sids reason b).1
unfolding evict_each do_evict
evict_each-IsCapped [] reason b v = v
evict_each-IsCapped (sid ∷ sids) reason b v = elim (Option-cases (get sid b.entries)) [
  | inl gone ↦ rw gone (evict_each-IsCapped sids reason b v)
  | inr (x, at) ↦
      rw at (evict_each-IsCapped sids reason (evict_locked sid b) (evict_locked-IsCapped sid b v))
]

-- A write to a stream that is there.
rewritten-IsCapped :
    (sid : String) (b : Buffer) (x y : Entry) (k : ℕ → Bool) (n : ℕ)
    → get sid b.entries ≡ some x
    → IsCapped b
    → IsCapped (record b { entries = put sid y b.entries; is_set = k; next_event = n })
rewritten-IsCapped sid b x y k n at v = record {
  positive = v.positive;
  bounded = omega (arith, length-put_old sid y x b.entries at, v.bounded);
  distinct = put-IsDistinct sid y b.entries v.distinct;
}

-- Every method of the buffer keeps the table within its caps.
pub apply-IsCapped : (o : Op) (b : Buffer) → IsCapped b → IsCapped (apply o b)
unfolding apply evict sweep_once appended closed
apply-IsCapped (creates sid token session now) b v = create-IsCapped sid token session now b v
apply-IsCapped (appends sid seq text) b v = elim (append_chunk_cases sid b seq text) [
  | inl (gone, same) ↦ rw same v
  | inr (inl (x, at, late, same)) ↦ rw same v
  | inr (inr (x, at, open_, e)) ↦ rw (e, appended) (rewritten-IsCapped sid b x _ _ _ at v)
]
apply-IsCapped (closes sid state final now) b v = elim (close_cases sid b state final now) [
  | inl (refused, e) ↦ rw (e, apply) v
  | inr (inl (fine, gone, e)) ↦ rw (e, apply) v
  | inr (inr (x, fine, at, e)) ↦ rw (e, apply) (rewritten-IsCapped sid b x _ _ _ at v)
]
apply-IsCapped (evicts sid) b v = unfold evict_each in evict_each-IsCapped (sid ∷ []) manual b v
apply-IsCapped (sweeps now) b v =
    evict_each-IsCapped (expired_ids now b.grace_seconds b.entries) ttl_expired b v
