-- ===== src/LogBuffer.antt =====
-- core/log_buffer.py, `LogBuffer`: the ring of log records and its cursored reads. The critical
-- sections under `_lock` are functions on the ring.
pub mod Paging
pub mod Rotation
use astrbot_plugin_webchat_g.Prelude.{
  ℕ, ◌+◌, ◌-◌, max, min, String, Bool, true, false, not, Option, none, some, List, [], ◌∷◌, ◌++◌,
  ◌&&◌, if◌then◌else◌, ltb, leb, nat_beq, length,
}

pub record LogEntry : Type 0 where
  pub id : ℕ
  pub ts : ℕ
  pub level : String
  pub logger : String
  pub message : String
  pub exc : Option String

-- `_entries`, a `deque(maxlen=capacity)`, with the next number of `itertools.count`.
pub record Ring : Type 0 where
  pub capacity : ℕ
  pub entries : List LogEntry
  pub next_id : ℕ

unfoldable pub init : ℕ → Ring
init capacity = record { capacity = max 1 capacity; entries = []; next_id = 1 }

abbrev pub drop_oldest : List LogEntry → List LogEntry
drop_oldest [] = []
drop_oldest (e ∷ es) = es

-- `append`: a full deque drops its oldest entry.
unfoldable pub append : LogEntry → Ring → Ring
append e r = record r {
  entries =
      if ltb (length r.entries) r.capacity
      then r.entries ++ e ∷ []
      else drop_oldest r.entries ++ e ∷ [];
}

unfoldable pub next_id : Ring → ℕ × Ring
next_id r = (r.next_id, record r { next_id = r.next_id + 1 })

-- The end of `emit`, on the texts that it has cut to their caps; logging runs one `emit` of a
-- handler at a time.
unfoldable pub emit : ℕ → String → String → String → Option String → Ring → Ring
unfolding next_id append
emit ts level logger message exc r =
    let (id, r') = next_id r in
    append
      (record { id = id; ts = ts; level = level; logger = logger; message = message; exc = exc }) r'

-- What the filters read of a record: the number of its level's name, and whether the lower-case
-- message holds the lower-case needle; `none` is a filter that is not given or is
-- empty.
pub record Filter : Type 0 where
  pub level_no : String → ℕ
  pub contains : String → String → Bool
  pub level : Option String
  pub grep : Option String

unfoldable pub passes : Filter → LogEntry → Bool
passes f e =
    let threshold : ℕ = elim f.level [ none ↦ 0 | some l ↦ f.level_no l ] in
    not (ltb 0 threshold && ltb (f.level_no e.level) threshold)
    && elim f.grep [ none ↦ true | some needle ↦ f.contains needle e.message ]

-- The loop of `snapshot`, with the number of entries that may still be given, and the highest
-- number that it has seen.
unfoldable pub scan : Filter → ℕ → ℕ → ℕ → List LogEntry → List LogEntry × ℕ
scan f since room seen [] = ([], seen)
scan f since room seen (e ∷ es) =
    let highest : ℕ = if ltb seen e.id then e.id else seen in
    let skipped = scan f since room highest es in
    let (rest, cursor) = scan f since (room - 1) highest es in
    if leb e.id since
    then skipped
    else if passes f e
    then if leb room 1 then (e ∷ [], e.id) else (e ∷ rest, cursor)
    else skipped

unfoldable pub snapshot : Filter → ℕ → ℕ → Ring → List LogEntry × ℕ
snapshot f since limit r = scan f since (max 1 (min limit r.capacity)) since r.entries
