-- ===== src/Registry/Driving.antt =====
-- core/stream_registry.py, the drivers and `fetch`: what one token can reach of another's streams.
use astrbot_plugin_webchat_g.Prelude.{
  ℕ, ◌≡◌, refl, String, Bool, false, not, Option, none, some, List, [], ◌∷◌, ◌==◌, ◌||◌, ◌&&◌,
  if◌then◌else◌, text_key, number_key, arith, nat_beq_iff, Bool-cases, Option-cases, inl, inr,
}
use astrbot_plugin_webchat_g.Prelude.Int.{negsuc}
use astrbot_plugin_webchat_g.Dict.{Dict, get}
use astrbot_plugin_webchat_g.StreamBuffer.{fetch_since, newer}
use astrbot_plugin_webchat_g.StreamBuffer.Types.{Buffer, Entry, StreamBufferEntry}
use astrbot_plugin_webchat_g.Registry.Types.{Drivers}
use astrbot_plugin_webchat_g.Registry.{cancel_task, cancel, cancel_each, cancel_all_drivers, fetch}

-- The token owns the stream with the given entry.
abbrev pub owns : String → Option (String × ℕ) → Bool
owns token none = false
owns token (some (owner, task)) = owner == token

-- The task is the one of the entry, and the token owns it.
abbrev pub drives_for : String → ℕ → Option (String × ℕ) → Bool
drives_for token t none = false
drives_for token t (some (owner, task)) = owner == token && task == t

-- `cancel` says yes exactly where the token owns the stream, so that a stream of another token
-- looks like none; and it cancels only the stream's own task, if that is not done.
pub cancel_lem :
    (sid token : String) (d : Drivers) (t : ℕ)
    → ((cancel sid token d).0 ≡ owns token (get sid d.table))
      × ((cancel sid token d).1.is_cancelled t
          ≡ (drives_for token t (get sid d.table) && not (d.is_done t) || d.is_cancelled t))
      × ((cancel sid token d).1.table ≡ d.table)
unfolding cancel
cancel_lem sid token d t = elim (Option-cases (get sid d.table)) [
  | inl gone ↦ rw (gone, cancel) (refl, refl, refl)
  | inr ((owner, task), at) ↦
      rw (at, cancel)
        (
          ground (arith, nat_beq_iff task t),
          ground (arith, nat_beq_iff task t),
          ground (arith, nat_beq_iff task t),
        )
]

-- The task drives a stream of the table.
abbrev pub drives_some : ℕ → Dict String (String × ℕ) → Bool
drives_some t [] = false
drives_some t ((sid, (token, task)) ∷ m) = task == t || drives_some t m

abbrev pub is_listed : ℕ → List ℕ → Bool
is_listed t [] = false
is_listed t (s ∷ ts) = s == t || is_listed t ts

cancel_each_lem :
    (m : Dict String (String × ℕ)) (d : Drivers) (t : ℕ)
    → ((cancel_each m d).1.is_cancelled t
        ≡ (drives_some t m && not (d.is_done t) || d.is_cancelled t))
      × (is_listed t (cancel_each m d).0 ≡ (drives_some t m && not (d.is_done t)))
      × ((cancel_each m d).1.is_done ≡ d.is_done)
unfolding cancel_each
cancel_each_lem [] d t = (refl, refl, refl)
cancel_each_lem ((sid, (token, task)) ∷ m) d t = elim (Bool-cases (d.is_done task)) [
  | inl over ↦ rw over (
    ground (arith, nat_beq_iff task t, cancel_each_lem m d t),
    ground (arith, nat_beq_iff task t, cancel_each_lem m d t),
    ground (arith, cancel_each_lem m d t),
  )
  | inr busy ↦
      let rest = cancel_each_lem m (cancel_task task d) t in
      rw busy (
        ground (arith, nat_beq_iff task t, rest),
        ground (arith, nat_beq_iff task t, rest),
        ground (arith, rest),
      )
]

-- `cancel_all_drivers` cancels every registered task that is not done and no other task, and the
-- list that it returns holds just these.
pub cancel_all_drivers_lem :
    (d : Drivers) (t : ℕ)
    → ((cancel_all_drivers d).1.is_cancelled t
        ≡ (drives_some t d.table && not (d.is_done t) || d.is_cancelled t))
      × (is_listed t (cancel_all_drivers d).0 ≡ (drives_some t d.table && not (d.is_done t)))
unfolding cancel_all_drivers
cancel_all_drivers_lem d t = let all_ = cancel_each_lem d.table d t in (all_.0, all_.1)

-- All of an entry, as its token sees it.
abbrev pub seen_by : String → String → Option Entry → Option StreamBufferEntry
seen_by sid token none = none
seen_by sid token (some e) =
    if e.token_name == token
    then some (record {
      stream_id = sid;
      token_name = e.token_name;
      session_id = e.session_id;
      started_at = e.started_at;
      state = e.state;
      chunks = e.chunks;
      final = e.final;
      closed_at = e.closed_at;
    })
    else none

every_seq : (cs : List (ℕ × String)) → newer (negsuc 0) cs ≡ cs
unfolding newer
every_seq [] = refl
every_seq (c ∷ cs) = ground (arith, every_seq cs)

-- `fetch` gives the owner of a stream all its chunks; to any other token a stream that exists looks
-- like one that does not.
pub fetch_lem :
    (sid token : String) (b : Buffer) → fetch sid token b ≡ seen_by sid token (get sid b.entries)
unfolding fetch fetch_since
fetch_lem sid token b = elim (Option-cases (get sid b.entries)) [
  | inl gone ↦ rw (gone, fetch, fetch_since) refl
  | inr (e, at) ↦ rw (at, fetch, fetch_since) (ground (arith, every_seq e.chunks))
]
