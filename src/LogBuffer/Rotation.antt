-- ===== src/LogBuffer/Rotation.antt =====
-- core/log_buffer.py, `append` and `emit`: the ring over a run.
use astrbot_plugin_webchat_g.Prelude.{
  ℕ, ◌+◌, ◌≤◌, ◌<◌, ◌≡◌, String, Option, List, [], ◌∷◌, ◌++◌, ltb, length, length-append, arith,
  All, All-map, Bool-cases, inl, inr,
}
use astrbot_plugin_webchat_g.LogBuffer.{
  LogEntry, Ring, Filter, init, drop_oldest, append, next_id, emit,
}
use astrbot_plugin_webchat_g.LogBuffer.Paging.{
  IsIncreasing, IsIncreasing-weaken, pending, drain, drain_lem,
}

-- The ring within its capacity, with numbers that grow and that are below the next one.
pub record IsOrdered (r : Ring) : Type 0 where
  pub positive : 1 ≤ r.capacity
  pub bounded : length r.entries ≤ r.capacity
  pub increasing : IsIncreasing 0 r.entries
  pub below : All (λ e. e.id < r.next_id) r.entries
  pub counting : 1 ≤ r.next_id

pub init-IsOrdered : (capacity : ℕ) → IsOrdered (init capacity)
unfolding init
init-IsOrdered capacity = record {
  positive = omega arith;
  bounded = omega arith;
  increasing = tt;
  below = tt;
  counting = omega arith;
}

IsIncreasing-snoc :
    (n : ℕ) (es : List LogEntry) (e : LogEntry)
    → IsIncreasing n es
    → n < e.id
    → All (λ d. d.id < e.id) es
    → IsIncreasing n (es ++ e ∷ [])
IsIncreasing-snoc n [] e i above below = (above, tt)
IsIncreasing-snoc n (d ∷ es) e i above below =
    (i.0, IsIncreasing-snoc d.id es e i.1 below.0 below.1)

All-snoc :
    (n : ℕ) (es : List LogEntry) (e : LogEntry)
    → All (λ d. d.id < n) es
    → e.id < n
    → All (λ d. d.id < n) (es ++ e ∷ [])
All-snoc n [] e h k = (k, tt)
All-snoc n (d ∷ es) e h k = (h.0, All-snoc n es e h.1 k)

grown : (n : ℕ) (es : List LogEntry) → All (λ d. d.id < n) es → All (λ d. d.id < n + 1) es
grown n es = All-map (λ d. d.id < n) (λ d. d.id < n + 1) (λ d h. omega (arith, h)) es

drop_oldest-IsIncreasing :
    (es : List LogEntry) → IsIncreasing 0 es → IsIncreasing 0 (drop_oldest es)
drop_oldest-IsIncreasing [] i = tt
drop_oldest-IsIncreasing (e ∷ es) i = IsIncreasing-weaken 0 e.id es (omega arith) i.1

drop_oldest-All :
    (n : ℕ) (es : List LogEntry) → All (λ d. d.id < n) es → All (λ d. d.id < n) (drop_oldest es)
drop_oldest-All n [] h = tt
drop_oldest-All n (e ∷ es) h = h.1

length-drop_oldest : (es : List LogEntry) → 1 ≤ length es → length (drop_oldest es) + 1 ≡ length es
length-drop_oldest [] h = absurd (ground (arith, h))
length-drop_oldest (e ∷ es) h = omega arith

module _ (ts : ℕ) (level logger message : String) (exc : Option String) (r : Ring) where
  abbrev new_entry : LogEntry
  new_entry = record {
    id = r.next_id;
    ts = ts;
    level = level;
    logger = logger;
    message = message;
    exc = exc;
  }

  -- A record that is emitted keeps the ring ordered and within its capacity.
  pub emit-IsOrdered : IsOrdered r → IsOrdered (emit ts level logger message exc r)
  unfolding emit append next_id
  emit-IsOrdered o =
      let kept = drop_oldest-All r.next_id r.entries o.below in
      elim (Bool-cases (ltb (length r.entries) r.capacity)) [
        | inl room ↦ rw room (record {
          positive = o.positive;
          bounded = ground (arith, length-append r.entries (new_entry ∷ []));
          increasing = IsIncreasing-snoc 0 r.entries new_entry o.increasing o.counting o.below;
          below =
              All-snoc (r.next_id + 1) r.entries new_entry (grown r.next_id r.entries o.below)
                (omega arith);
          counting = omega arith;
        })
        | inr full ↦ rw full (record {
          positive = o.positive;
          bounded = omega (
            arith,
            length-append (drop_oldest r.entries) (new_entry ∷ []),
            length-drop_oldest r.entries (ground (arith, o.positive)),
            o.bounded,
          );
          increasing =
              IsIncreasing-snoc 0 (drop_oldest r.entries) new_entry
                (drop_oldest-IsIncreasing r.entries o.increasing) o.counting kept;
          below =
              All-snoc (r.next_id + 1) (drop_oldest r.entries) new_entry
                (grown r.next_id (drop_oldest r.entries) kept) (omega arith);
          counting = omega arith;
        })
      ]

-- A record of the plugin: its time, level, logger and texts.
pub record Record : Type 0 where
  pub created : ℕ
  pub levelname : String
  pub name : String
  pub message : String
  pub exc : Option String

unfoldable pub emit_each : List Record → Ring → Ring
emit_each [] r = r
emit_each (m ∷ ms) r = emit_each ms (emit m.created m.levelname m.name m.message m.exc r)

emit_each-IsOrdered : (ms : List Record) (r : Ring) → IsOrdered r → IsOrdered (emit_each ms r)
unfolding emit_each
emit_each-IsOrdered [] r o = o
emit_each-IsOrdered (m ∷ ms) r o =
    emit_each-IsOrdered ms (emit m.created m.levelname m.name m.message m.exc r)
      (emit-IsOrdered m.created m.levelname m.name m.message m.exc r o)

-- After any run of records through a new ring, its entries are within the capacity that it was
-- made with, and a client that asks again from its cursor gets all that is pending for its filter,
-- in order and each entry once, in no more reads than there are entries pending.
pub emitted_lem :
    (capacity : ℕ) (ms : List Record) (f : Filter) (limit n since : ℕ)
    → length (pending f since (emit_each ms (init capacity)).entries) ≤ n
    → (length (emit_each ms (init capacity)).entries ≤ (emit_each ms (init capacity)).capacity)
      × (drain f (emit_each ms (init capacity)) limit n since
          ≡ pending f since (emit_each ms (init capacity)).entries)
emitted_lem capacity ms f limit n since enough =
    let o = emit_each-IsOrdered ms (init capacity) (init-IsOrdered capacity) in
    (o.bounded, drain_lem f (emit_each ms (init capacity)) limit n since o.increasing enough)
