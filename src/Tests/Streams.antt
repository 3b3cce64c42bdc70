-- ===== src/Tests/Streams.antt =====
-- Runs of the stream registry.
use astrbot_plugin_webchat_g.Prelude.{
  ◌≡◌, refl, ◌≢◌, String, true, false, Option, none, some, [], ◌∷◌, is_some, arith, text_key,
  number_key,
}
use astrbot_plugin_webchat_g.Dict.{get, put, remove}
use astrbot_plugin_webchat_g.Ratelimit
use astrbot_plugin_webchat_g.Ratelimit.{Limiter, busy}
use astrbot_plugin_webchat_g.Ratelimit.Keys.{session_key}
use astrbot_plugin_webchat_g.Ratelimit.Invariant.{IsValid}
use astrbot_plugin_webchat_g.Ratelimit.Schedule
use astrbot_plugin_webchat_g.Ratelimit.Exclusion.{start-IsExclusive, run-IsExclusive}
use astrbot_plugin_webchat_g.StreamBuffer
use astrbot_plugin_webchat_g.StreamBuffer.{pending_entry, closed_with}
use astrbot_plugin_webchat_g.StreamBuffer.Types.{Buffer, closed_ok, reply, Final}
use astrbot_plugin_webchat_g.StreamBuffer.Caps.{IsCapped}
use astrbot_plugin_webchat_g.Registry.StreamId.{is_stream_id, matches_from, is_allowed}
use astrbot_plugin_webchat_g.Registry.Types.{
  StreamHandle, Drivers, World, answered, failed, cancelled, stream_completed, ok, ChatPair,
  FileRow, Services,
}
use astrbot_plugin_webchat_g.Registry.{
  new_handle, open_stream, open_locked, audited_handle, close, close_unused, close_steps,
  buffer_closed, released, forgotten, unregister_driver, cancel, cancel_each, cancel_all_drivers,
  fetch, append,
}
use astrbot_plugin_webchat_g.Registry.Closing.{IsOrderly, close_releases}
use astrbot_plugin_webchat_g.Registry.Ends.{tolerated, close_swallows}
use astrbot_plugin_webchat_g.Registry.Numbering.{append_each}
use astrbot_plugin_webchat_g.Registry.Opening.{LeavesStreams, open_refuses, open_grants, open_leaks}
use astrbot_plugin_webchat_g.Registry.Terminal.{
  close_failed, close_reservation, own_rows, release_attached_files, fail_stream,
}
use astrbot_plugin_webchat_g.Registry.Failing.{close_failed_reaches}

abbrev file_of : String → FileRow
file_of id = record {
  file_id = id;
  token_name = id;
  session_id = "s";
  mime = "image/png";
  size_bytes = 1;
  storage_key = id;
  committed = false;
  uploaded_at = 5;
  committed_at = none;
  filename = "";
}

-- The persistence raises, the event is cancelled, and the storage knows one file of each token.
abbrev faulty : Services (Unit {0})
faulty = record {
  record_chat_pair = λ h pair w. (failed, w);
  emit_stream_ended = λ h status w. (cancelled, w);
  write_audit = λ event h w. (cancelled, w);
  refund_daily_usage = λ name day w. (failed, w);
  get_file = λ id w. (answered (some (file_of id)), w);
  release_files_safely = λ rows w. (answered 1, w);
}

abbrev sound : Services (Unit {0})
sound = record faulty {
  record_chat_pair = λ h pair w. (answered tt, w);
  emit_stream_ended = λ h status w. (answered tt, w);
  write_audit = λ event h w. (failed, w);
}

abbrev sid : String
sid = "t:1-ab"

abbrev pair : Option ChatPair
pair = some (record { user_text = "q"; assistant_text = "a"; is_incomplete = false })

abbrev end_ : Final
end_ = reply 4 5 false

-- The stream holds the lock of its session.
abbrev held : Limiter
held = (Schedule.run Schedule.start (Schedule.open_stream (session_key "t" "s") sid ∷ [])).limiter

abbrev buffer : Buffer
buffer = record {
  grace_seconds = 30;
  max_per_token = 1;
  max_global = 2;
  entries = (sid, pending_entry "t" "s" 10 0) ∷ [];
  is_set = λ _. false;
  next_event = 1;
}

abbrev drivers : Drivers
drivers = record { table = (sid, ("t", 7)) ∷ []; is_done = λ _. false; is_cancelled = λ _. false }

abbrev world : World (Unit {0})
world = record { limiter = held; buffer = buffer; drivers = drivers; rest = tt }

-- No stream is in flight.
abbrev idle : World (Unit {0})
idle = record world { limiter = Schedule.start.limiter; buffer = record buffer { entries = [] } }

abbrev handle : StreamHandle
handle = new_handle sid "t" "s" 10 ("t" ∷ "u" ∷ [])

abbrev reserved : StreamHandle
reserved = record handle {
  reservation = some (record { name = "t"; day = 3; count = 1; remaining = 4; settled = false });
}

program : Unit {0}
unfolding open_stream open_locked audited_handle close close_unused close_steps buffer_closed
    released forgotten unregister_driver cancel cancel_each cancel_all_drivers fetch append get put
    remove is_stream_id matches_from is_allowed session_key busy Schedule.run Schedule.step
    append_each Ratelimit.init Ratelimit.acquire_with_id Ratelimit.lookup_lock Ratelimit.release
    Ratelimit.free_lock StreamBuffer.close StreamBuffer.append_chunk StreamBuffer.set_event
    StreamBuffer.create StreamBuffer.insert_entry StreamBuffer.evict_owned StreamBuffer.evict_global
    StreamBuffer.owned_closed StreamBuffer.owned_total StreamBuffer.oldest_closed
    StreamBuffer.fetch_since StreamBuffer.newer close_failed close_reservation own_rows
    release_attached_files fail_stream tolerated
program = tt

world-IsValid : IsValid world.limiter
world-IsValid =
    (run-IsExclusive Schedule.start (Schedule.open_stream (session_key "t" "s") sid ∷ [])
      start-IsExclusive).valid

idle-IsValid : IsValid idle.limiter
idle-IsValid = start-IsExclusive.valid

world-IsCapped : IsCapped world.buffer
unfolding get
world-IsCapped = record { positive = omega arith; bounded = omega arith; distinct = (refl, tt) }

idle-IsCapped : IsCapped idle.buffer
unfolding get
idle-IsCapped = record { positive = omega arith; bounded = omega arith; distinct = tt }

faulty-IsOrderly : IsOrderly faulty handle
faulty-IsOrderly = record {
  persist_keeps = λ p w x. x;
  emit_keeps = λ s w x. x;
  audit_keeps = λ e w x. x;
}

faulty-LeavesStreams : LeavesStreams faulty
faulty-LeavesStreams = record { limiter_same = λ e h w. refl; buffer_same = λ e h w. refl }

sound-LeavesStreams : LeavesStreams sound
sound-LeavesStreams = record { limiter_same = λ e h w. refl; buffer_same = λ e h w. refl }

close_releases_example :
    ((close faulty handle pair ok closed_ok end_ stream_completed 20 false world).1.used ≡ true)
    × (get
          (session_key "t" "s")
          (close faulty handle pair ok closed_ok end_ stream_completed 20 false
            world).2.limiter.holders
        ≢ some sid)
close_releases_example =
    close_releases faulty handle pair ok closed_ok end_ stream_completed 20 false world
      faulty-IsOrderly refl

close_swallows_example :
    close (tolerated sound) handle pair ok closed_ok end_ stream_completed 20 false world
    ≡ close sound handle pair ok closed_ok end_ stream_completed 20 false world
close_swallows_example =
    close_swallows sound handle pair ok closed_ok end_ stream_completed 20 false world

open_refuses_example :
    (busy (session_key "t" "s") (open_stream sound "t:2-cd" "t" "s" [] 11 false world).1.limiter
      ≡ busy (session_key "t" "s") world.limiter)
    × ((open_stream sound "t:2-cd" "t" "s" [] 11 false world).1.buffer ≡ world.buffer)
unfolding program
open_refuses_example =
    open_refuses sound "t:2-cd" "t" "s" [] 11 false world (session_key "t" "s") world-IsValid
      world-IsCapped refl

open_grants_example :
    (busy (session_key "t" "s") idle.limiter ≡ false)
    × (busy (session_key "t" "s") (open_stream sound sid "t" "s" [] 11 false idle).1.limiter ≡ true)
    × (get (session_key "t" "s") (open_stream sound sid "t" "s" [] 11 false idle).1.limiter.holders
        ≡ some sid)
    × (is_some (get sid (open_stream sound sid "t" "s" [] 11 false idle).1.buffer.entries) ≡ true)
    × (new_handle sid "t" "s" 11 [] ≡ new_handle sid "t" "s" 11 [])
unfolding program
open_grants_example =
    open_grants sound sid "t" "s" [] 11 false idle (session_key "t" "s")
      (new_handle sid "t" "s" 11 []) idle-IsValid idle-IsCapped sound-LeavesStreams refl

open_leaks_example :
    (busy (session_key "t" "s") (open_stream faulty sid "t" "s" [] 11 false idle).1.limiter ≡ true)
    × (get (session_key "t" "s") (open_stream faulty sid "t" "s" [] 11 false idle).1.limiter.holders
        ≡ some sid)
    × (is_some (get sid (open_stream faulty sid "t" "s" [] 11 false idle).1.buffer.entries) ≡ true)
unfolding program
open_leaks_example =
    open_leaks faulty sid "t" "s" [] 11 idle idle-IsValid idle-IsCapped faulty-LeavesStreams refl

close_failed_reaches_example : (close_failed faulty reserved "x" 20 false world).1.used ≡ false
unfolding program
close_failed_reaches_example = close_failed_reaches faulty reserved "x" 20 false world refl
