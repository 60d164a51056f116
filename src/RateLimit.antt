-- ===== src/RateLimit.antt =====
-- engine/api/rate_limit.py, the process-local token buckets: a bucket per key, with bounded memory.
-- An update holds the backend's lock, so it is one step. Times and tokens are floats; the number of
-- keys that is kept is not negative.
pub mod Eviction
use nexus_trade_engine.Prelude.{
  ℕ, String, Option, none, some, Bool, true, false, List, [], ◌∷◌, ◌++◌, if◌then◌else◌, string_eq,
  ltb, length, Dict, lookup, erase,
}
use nexus_trade_engine.Prelude.Int.{ℤ, pos}
use nexus_trade_engine.Prelude.Floats.{Floats}

-- Floats with their truncation to an integer, one, and the bounds of a retry.
pub record Clock : Type 1 where
  pub floats : Floats
  pub open floats use *
  pub of_int : ℤ → Float
  pub truncate : Float → ℤ
  pub one : Float
  pub min_retry_after_sec : Float
  pub max_retry_after_sec : Float

module _ (clock : Clock) where
  open clock use {
    Float, zero, one, add, sub, mul, div, lt, le, of_int, truncate, min_retry_after_sec,
    max_retry_after_sec,
  }

  -- The tokens and the time of the last update.
  abbrev pub Bucket : Type 0
  Bucket = Float × Float

  -- `InMemoryBucketBackend`; the dict is ordered from the oldest update to the latest.
  pub record Backend : Type 0 where
    pub state : Dict String Bucket
    pub max_keys : ℕ

  -- Python's `max` and `min`, which return the first of two that compare equal.
  abbrev larger : Float → Float → Float
  larger a b = if lt a b then b else a

  abbrev smaller : Float → Float → Float
  smaller a b = if lt b a then b else a

  abbrev or_full : ℤ → Float → Option Bucket → Bucket
  or_full capacity now none = (of_int capacity, now)
  or_full capacity now (some bucket) = bucket

  -- The tokens after the refill, before one is taken.
  pub refilled : ℤ → Float → Float → Option Bucket → Float
  refilled capacity refill_per_sec now existing =
      let (tokens, last) = or_full capacity now existing in
      let elapsed = larger zero (sub now last) in
      smaller (of_int capacity) (add tokens (mul elapsed refill_per_sec))

  -- `_evict_if_needed`: the oldest go while there are too many.
  pub evict : ℕ → Dict String Bucket → Dict String Bucket
  evict max_keys [] = []
  evict max_keys (entry ∷ state) =
      let rest = evict max_keys state in
      if ltb max_keys (length (entry ∷ state)) then rest else entry ∷ state

  -- The bucket is stored as the latest, and the oldest are evicted.
  pub stored : String → Bucket → Backend → Backend
  unfolding evict
  stored key bucket b = record b {
    state = evict b.max_keys (erase key b.state ++ (key, bucket) ∷ []);
  }

  retry_after : Float → Float → Float
  retry_after refill_per_sec tokens =
      if lt zero refill_per_sec
      then smaller (larger min_retry_after_sec (div (sub one tokens) refill_per_sec))
          max_retry_after_sec
      else max_retry_after_sec

  -- The answer is whether a token was taken, how many are left, and when to try again.
  pub update : String → ℤ → Float → Float → Backend → (Bool × ℤ × Float) × Backend
  unfolding refilled stored retry_after
  update key capacity refill_per_sec now b =
      let tokens = refilled capacity refill_per_sec now (lookup key b.state) in
      if le one tokens
      then ((true, truncate (sub tokens one), zero), stored key (sub tokens one, now) b)
      else ((false, pos 0, retry_after refill_per_sec tokens), stored key (tokens, now) b)
