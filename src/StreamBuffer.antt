-- ===== src/StreamBuffer.antt =====
-- core/stream_buffer.py, `InMemoryBuffer`: the buffer of the streams in flight. Every method body
-- under `_lock` is one function on the state, since nothing in it suspends; the clock's readings
-- are arguments, in seconds.
pub mod Types
pub mod Evict
pub mod Writes
pub mod Rounds
pub mod Caps
pub mod Subscribe
use astrbot_plugin_webchat_g.Prelude.{
  ℕ, zero, suc, max, select, ◌+◌, ◌-◌, String, Bool, true, false, not, Option, none, some, List, [],
  ◌∷◌, ◌++◌, map, ◌&&◌, ◌==◌, if◌then◌else◌, leb, ltb, length, text_key, number_key, is_some,
}
use astrbot_plugin_webchat_g.Prelude.Int.{ℤ, pos, ltb_ℤ}
use astrbot_plugin_webchat_g.Dict.{Dict, get, put, remove}
use astrbot_plugin_webchat_g.StreamBuffer.Types.{
  StreamState, pending, streaming, is_terminal, Final, Entry, StreamBufferEntry, Buffer, Reason,
  per_token_cap, global_cap, ttl_expired, manual, Outcome, created, reused, buffer_full,
}

-- `Event.set()`; the event `k` is set from here on.
unfoldable pub set_event : ℕ → Buffer → Buffer
set_event k b = record b { is_set = λ j. if k == j then true else b.is_set j }

-- `_evict_locked`
unfoldable pub evict_locked : String → Buffer → Buffer
unfolding set_event
evict_locked sid b = elim (get sid b.entries) [
  | none ↦ b
  | some e ↦ set_event e.new_chunk (record b { entries = remove sid b.entries })
]

-- The closed streams of a token, oldest first.
unfoldable pub owned_closed : String → Dict String Entry → List String
owned_closed token [] = []
owned_closed token ((sid, e) ∷ m) =
    let rest = owned_closed token m in
    if e.token_name == token && is_terminal e.state then sid ∷ rest else rest

unfoldable pub owned_total : String → Dict String Entry → ℕ
owned_total token [] = 0
owned_total token ((sid, e) ∷ m) = (if e.token_name == token then 1 else 0) + owned_total token m

-- The first `while` of `create`, over the victims that are left.
unfoldable pub evict_owned : List String → ℕ → Buffer → List String × Buffer
evict_owned [] total b = ([], b)
evict_owned (victim ∷ victims) total b =
    let more = evict_owned victims (total - 1) (evict_locked victim b) in
    if leb b.max_per_token total then (victim ∷ more.0, more.1) else ([], b)

unfoldable pub oldest_closed : Dict String Entry → Option String
oldest_closed [] = none
oldest_closed ((sid, e) ∷ m) =
    let rest = oldest_closed m in if is_terminal e.state then some sid else rest

-- The second `while`: whether it raised `BufferFullError`, the victims, and the state that it left.
-- The fuel is the number of entries; each round but the last removes one.
unfoldable pub evict_global : ℕ → Buffer → Bool × List String × Buffer
evict_global zero b = (leb b.max_global (length b.entries), [], b)
evict_global (suc fuel) b =
    if leb b.max_global (length b.entries)
    then elim (oldest_closed b.entries) [
      | none ↦ (true, [], b)
      | some victim ↦
          let (raised, more, b') = evict_global fuel (evict_locked victim b) in
          (raised, victim ∷ more, b')
    ]
    else (false, [], b)

-- `_InMemoryEntry(...)`, with its own event.
abbrev pub pending_entry : String → String → ℕ → ℕ → Entry
pending_entry token session now event = record {
  token_name = token;
  session_id = session;
  started_at = now;
  state = pending;
  chunks = [];
  final = none;
  closed_at = none;
  new_chunk = event;
  terminal = false;
}

unfoldable pub insert_entry : String → String → String → ℕ → Buffer → Buffer
insert_entry sid token session now b = record b {
  entries = put sid (pending_entry token session now b.next_event) b.entries;
  next_event = b.next_event + 1;
}

-- `create`: what it did, the evictions that it audits, and the state. An error skips the audits.
unfoldable pub create :
    String → String → String → ℕ → Buffer → Outcome × List (String × Reason) × Buffer
create sid token session now b =
    if is_some (get sid b.entries)
    then (reused, [], b)
    else let (owned, b1) =
        evict_owned (owned_closed token b.entries) (owned_total token b.entries) b in
      let (raised, others, b2) = evict_global (length b1.entries) b1 in
      if raised then (buffer_full, [], b2) else (
        created,
        map (λ v. (v, per_token_cap)) owned ++ map (λ v. (v, global_cap)) others,
        insert_entry sid token session now b2,
      )

abbrev pub with_chunk : ℕ → String → ℕ → Entry → Entry
with_chunk seq text event e = record e {
  chunks = e.chunks ++ (seq, text) ∷ [];
  state = streaming;
  new_chunk = event;
}

unfoldable pub append_chunk : String → ℕ → String → Buffer → Buffer
unfolding set_event
append_chunk sid seq text b = elim (get sid b.entries) [
  | none ↦ b
  | some e ↦
      if is_terminal e.state
      then b
      else set_event e.new_chunk (record b {
        entries = put sid (with_chunk seq text b.next_event e) b.entries;
        next_event = b.next_event + 1;
      })
]

abbrev pub closed_with : StreamState → Final → ℕ → Entry → Entry
closed_with state final now e = record e {
  state = state;
  final = some final;
  closed_at = some now;
  terminal = true;
}

-- `close`; `none` is the `ValueError` for a state that is not terminal.
unfoldable pub close : String → StreamState → Final → ℕ → Buffer → Option Buffer
unfolding set_event
close sid state final now b =
    if is_terminal state
    then elim (get sid b.entries) [
      | none ↦ some b
      | some e ↦ some (
          set_event e.new_chunk
            (record b { entries = put sid (closed_with state final now e) b.entries }))
    ]
    else none

-- The chunks with a sequence number above the cursor.
unfoldable pub newer : ℤ → List (ℕ × String) → List (ℕ × String)
newer after = select (λ c. ltb_ℤ after (pos c.0))

-- `snapshot` and `fetch_since`; a negative cursor means everything.
unfoldable pub fetch_since : String → ℤ → Buffer → Option StreamBufferEntry
unfolding newer
fetch_since sid after b = elim (get sid b.entries) [
  | none ↦ none
  | some e ↦ some (record {
    stream_id = sid;
    token_name = e.token_name;
    session_id = e.session_id;
    started_at = e.started_at;
    state = e.state;
    chunks = if ltb_ℤ after (pos 0) then e.chunks else newer after e.chunks;
    final = e.final;
    closed_at = e.closed_at;
  })
]

-- `_do_evict`, and `evict`, with the eviction that is audited.
unfoldable pub do_evict : String → Reason → Buffer → List (String × Reason) × Buffer
do_evict sid reason b =
    if is_some (get sid b.entries) then ((sid, reason) ∷ [], evict_locked sid b) else ([], b)

unfoldable pub evict : String → Buffer → List (String × Reason) × Buffer
evict sid b = do_evict sid manual b

-- `entry.closed_at is not None and entry.closed_at < now - grace_seconds`
unfoldable pub is_expired : ℕ → ℕ → Entry → Bool
is_expired now grace e = elim e.closed_at [ none ↦ false | some t ↦ ltb (t + grace) now ]

unfoldable pub expired_ids : ℕ → ℕ → Dict String Entry → List String
unfolding is_expired
expired_ids now grace [] = []
expired_ids now grace ((sid, e) ∷ m) =
    let rest = expired_ids now grace m in if is_expired now grace e then sid ∷ rest else rest

unfoldable pub evict_each : List String → Reason → Buffer → List (String × Reason) × Buffer
evict_each [] reason b = ([], b)
evict_each (sid ∷ sids) reason b =
    let (audits, b1) = do_evict sid reason b in
    let (more, b2) = evict_each sids reason b1 in (audits ++ more, b2)

-- `_sweep_once`, with no other task between the collection and the evictions.
unfoldable pub sweep_once : ℕ → Buffer → List (String × Reason) × Buffer
sweep_once now b = evict_each (expired_ids now b.grace_seconds b.entries) ttl_expired b

unfoldable pub list_active_for_token : String → Dict String Entry → List String
list_active_for_token token [] = []
list_active_for_token token ((sid, e) ∷ m) =
    let rest = list_active_for_token token m in if e.token_name == token then sid ∷ rest else rest

unfoldable pub count : Buffer → ℕ
count b = length b.entries

-- The constructor; the caps and the grace period are at least 1.
unfoldable pub init : ℕ → ℕ → ℕ → Buffer
init grace per_token global = record {
  grace_seconds = max 1 grace;
  max_per_token = max 1 per_token;
  max_global = max 1 global;
  entries = [];
  is_set = λ _. false;
  next_event = 0;
}
