-- ===== src/Tests/Delivery.antt =====
-- A run of the subscriber of one stream, from its first chunk to its end.
use astrbot_plugin_webchat_g.Prelude.{◌≡◌, refl, true, false, List, [], ◌∷◌, ◌++◌, arith, text_key}
use astrbot_plugin_webchat_g.Prelude.Int.{negsuc}
use astrbot_plugin_webchat_g.Dict.{get, put}
use astrbot_plugin_webchat_g.StreamBuffer
use astrbot_plugin_webchat_g.StreamBuffer.Types.{Buffer, Entry, is_terminal, closed_ok, reply}
use astrbot_plugin_webchat_g.StreamBuffer.{
  pending_entry, with_chunk, closed_with, append_chunk, close,
}
use astrbot_plugin_webchat_g.StreamBuffer.Caps.{IsCapped}
use astrbot_plugin_webchat_g.StreamBuffer.Subscribe.{
  closes, iter_subscribe, resume, read_entry, apply,
}
use astrbot_plugin_webchat_g.StreamBuffer.Subscribe.Delivery.{
  Move, drives, others, turns, move, moves, taken, reached,
}
use astrbot_plugin_webchat_g.StreamBuffer.Subscribe.Delivery.Once.{
  outcome, delivers_in_order, delivers_all,
}

abbrev pub before : Buffer
before = record {
  grace_seconds = 30;
  max_per_token = 1;
  max_global = 2;
  entries = ("x", pending_entry "t" "s" 10 0) ∷ [];
  is_set = λ _. false;
  next_event = 1;
}

before-IsCapped : IsCapped before
unfolding get
before-IsCapped = record { positive = omega arith; bounded = omega arith; distinct = (refl, tt) }

-- The subscriber delivers a chunk; another one comes, and the end, before its next turn.
abbrev story : List Move
story =
    drives "a"
    ∷ turns
    ∷ turns
    ∷ drives "b"
    ∷ others (closes "x" closed_ok (reply 1 2 false) 20)
    ∷ turns
    ∷ turns
    ∷ turns
    ∷ turns
    ∷ turns
    ∷ []

abbrev last : Entry
last =
    closed_with closed_ok (reply 1 2 false) 20
      (with_chunk 1 "b" 2 (with_chunk 0 "a" 1 (pending_entry "t" "s" 10 0)))

program : Unit {0}
unfolding outcome moves move append_chunk close iter_subscribe resume read_entry apply get put
    StreamBuffer.newer StreamBuffer.set_event
program = tt

delivers_in_order_example :
    taken
        (outcome (negsuc 0) "x" story before).1.stage
        (outcome (negsuc 0) "x" story before).1.delivered
      ++ StreamBuffer.newer
          (reached
            (outcome (negsuc 0) "x" story before).1.stage
            (outcome (negsuc 0) "x" story before).1.last_seq)
          last.chunks
    ≡ StreamBuffer.newer (negsuc 0) last.chunks
unfolding program
delivers_in_order_example =
    delivers_in_order (negsuc 0) "x" story before (pending_entry "t" "s" 10 0) last before-IsCapped
      refl tt refl (tt, (tt, (tt, (tt, (tt, (tt, (tt, (tt, (tt, (tt, tt)))))))))) refl

delivers_all_example :
    ((outcome (negsuc 0) "x" story before).1.delivered ≡ StreamBuffer.newer (negsuc 0) last.chunks)
    × (is_terminal last.state ≡ true)
unfolding program
delivers_all_example =
    delivers_all (negsuc 0) "x" story before (pending_entry "t" "s" 10 0) last before-IsCapped refl
      tt refl (tt, (tt, (tt, (tt, (tt, (tt, (tt, (tt, (tt, (tt, tt)))))))))) refl refl
