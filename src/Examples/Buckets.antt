-- ===== src/Examples/Buckets.antt =====
-- A bucket of two tokens among two keys, in whole numbers as floats.
use nexus_trade_engine.Prelude.{
  ◌≤◌, String, ◌≡◌, [], ◌∷◌, ◌++◌, ◌⊎◌, if◌then◌else◌, string_eq, length, Dict, lookup, erase,
}
use nexus_trade_engine.Prelude.Int.{ℤ, pos, ◌-ℤ◌, leb_ℤ}
use nexus_trade_engine.RateLimit.{Clock, Bucket, Backend, refilled, update}
use nexus_trade_engine.RateLimit.Eviction.{update-evicts}
use nexus_trade_engine.Examples.Limits.{whole}

abbrev seconds : Clock
seconds = record {
  floats = whole;
  of_int = λ a. a;
  truncate = λ a. a;
  one = pos 1;
  min_retry_after_sec = pos 1;
  max_retry_after_sec = pos 86_400;
}

abbrev backend : Backend seconds
backend = record {
  state = ("user:a", (pos 0, pos 5)) ∷ ("user:b", (pos 1, pos 6)) ∷ [];
  max_keys = 2;
}

update-evicts_example :
    let (answer, b') = update seconds "user:c" (pos 2) (pos 1) (pos 9) backend in
    let tokens = refilled seconds (pos 2) (pos 1) (pos 9) (lookup "user:c" backend.state) in
    (answer.0 ≡ leb_ℤ (pos 1) tokens)
    × ((left : ℤ) × (dropped : Dict String (Bucket seconds)) × (left
          ≡ (if answer.0 then tokens -ℤ pos 1 else tokens))
        × (erase "user:c" backend.state ++ ("user:c", (left, pos 9)) ∷ [] ≡ dropped ++ b'.state)
        × ((dropped ≡ []) ⊎ (length b'.state ≡ 2))
        × (length b'.state ≤ b'.max_keys)
        × (b'.max_keys ≡ 2))
update-evicts_example = update-evicts seconds "user:c" (pos 2) (pos 1) (pos 9) backend
