-- ===== src/Tests/Buffer.antt =====
-- Runs of the stream buffer.
use astrbot_plugin_webchat_g.Prelude.{
  ◌≡◌, refl, false, some, List, [], ◌∷◌, arith, text_key, length,
}
use astrbot_plugin_webchat_g.Prelude.Int.{negsuc}
use astrbot_plugin_webchat_g.Dict.{get, put, remove}
use astrbot_plugin_webchat_g.StreamBuffer
use astrbot_plugin_webchat_g.StreamBuffer.Types.{Buffer}
use astrbot_plugin_webchat_g.StreamBuffer.{
  create, pending_entry, closed_with, append_chunk, close, init, insert_entry, evict_owned,
  evict_global, owned_closed, owned_total, oldest_closed, evict_locked,
}
use astrbot_plugin_webchat_g.StreamBuffer.Evict.{AreInFlight}
use astrbot_plugin_webchat_g.StreamBuffer.Caps.{IsCapped, create_keeps, create_full}
use astrbot_plugin_webchat_g.StreamBuffer.Subscribe.{
  Event, buffer_op, turn, appends, iter_subscribe, resume, read_entry, apply, step, run,
}
use astrbot_plugin_webchat_g.StreamBuffer.Subscribe.Wakeup.{IsUpToDate, no_lost_wakeup}

-- A buffer for two streams at most, one to a token, that holds one stream of token "t".
abbrev one : Buffer
one = record {
  grace_seconds = 30;
  max_per_token = 1;
  max_global = 2;
  entries = ("x", pending_entry "t" "s" 10 0) ∷ [];
  is_set = λ _. false;
  next_event = 1;
}

-- Both places are taken by streams in flight.
abbrev two : Buffer
two = record one {
  entries = ("x", pending_entry "t" "s" 10 0) ∷ ("y", pending_entry "u" "s" 11 1) ∷ [];
  next_event = 2;
}

one-IsCapped : IsCapped one
unfolding get
one-IsCapped = record { positive = omega arith; bounded = omega arith; distinct = (refl, tt) }

two-IsCapped : IsCapped two
unfolding get
two-IsCapped = record {
  positive = omega arith;
  bounded = omega arith;
  distinct = (refl, (refl, tt));
}

program : Unit {0}
unfolding create append_chunk close insert_entry evict_owned evict_global owned_closed owned_total
    oldest_closed evict_locked get put remove
program = tt

create_keeps_example :
    get "x" (create "z" "t" "s" 12 one).2.entries ≡ some (pending_entry "t" "s" 10 0)
unfolding get
create_keeps_example =
    create_keeps "z" "t" "s" 12 one one-IsCapped "x" (pending_entry "t" "s" 10 0) refl refl

create_full_example :
    ((create "z" "v" "s" 12 two).2 ≡ two)
    × (length two.entries ≡ two.max_global)
    × AreInFlight two.entries
unfolding program
create_full_example = create_full "z" "v" "s" 12 two two-IsCapped refl

-- The subscriber reads one chunk and goes to sleep.
abbrev listening : List Event
listening = buffer_op (appends "x" 0 "hi") ∷ turn ∷ turn ∷ turn ∷ []

no_lost_wakeup_example :
    IsUpToDate
      (run listening (one, iter_subscribe "x" (negsuc 0))).0
      (run listening (one, iter_subscribe "x" (negsuc 0))).1.stream_id
      1
      (run listening (one, iter_subscribe "x" (negsuc 0))).1.last_seq
unfolding program run step apply resume read_entry iter_subscribe StreamBuffer.newer
    StreamBuffer.set_event
no_lost_wakeup_example = no_lost_wakeup listening one "x" (negsuc 0) 1 one-IsCapped refl refl
