-- ===== src/Tests/Guard.antt =====
-- Runs of the guard of addresses.
use astrbot_plugin_webchat_g.Prelude.{◌≡◌, refl, true, false, some, List, [], ◌∷◌, ◌++◌, text_key}
use astrbot_plugin_webchat_g.Dict.{get, put, remove}
use astrbot_plugin_webchat_g.IpFailures.{record_ip_failure, is_ip_blocked, decrement_ip_failure}
use astrbot_plugin_webchat_g.IpGuard.{IpGuard, normalize_ip, is_blocked, record_failure, reset}
use astrbot_plugin_webchat_g.IpGuard.Budget.{
  Event, failure, success, apply, replay, first_failure_passes,
}

abbrev guard : IpGuard
guard = record { max_fails = 2; block_seconds = 60 }

-- One guess, one success, two more guesses: blocked at the last one, for a minute.
abbrev attack : List Event
attack = failure "10.0.0.1" 100 ∷ success "10.0.0.1" ∷ failure "10.0.0.1" 105 ∷ []

attack_blocks :
    is_blocked guard "10.0.0.1" 110 (replay guard [] (attack ++ failure "10.0.0.1" 107 ∷ []))
    ≡ (true, 57)
unfolding is_blocked replay apply record_failure reset normalize_ip is_ip_blocked record_ip_failure
    decrement_ip_failure get put remove
attack_blocks = refl

an_address : normalize_ip "10.0.0.1" ≡ some "10.0.0.1"
unfolding normalize_ip
an_address = refl

an_unknown_address : normalize_ip "unknown" ≡ some "__unknown__"
unfolding normalize_ip
an_unknown_address = refl

abbrev strict : IpGuard
strict = record { max_fails = 1; block_seconds = 60 }

first_failure_passes_example :
    is_blocked strict "10.0.0.1" 101 (record_failure strict "10.0.0.1" 100 []).1 ≡ (false, 0)
unfolding get
first_failure_passes_example =
    first_failure_passes strict [] "10.0.0.1" "10.0.0.1" 100 101 an_address refl
