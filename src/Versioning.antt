-- ===== src/Versioning.antt =====
-- engine/core/strategy_versioning.py: deployments of a strategy and their status. The registry is
-- the in-memory one. An operation holds the strategy's lock, so it is one step of the registry; what
-- is read before the lock is taken is an argument of its own (`at_entry`). The clock and the
-- identifier that uuid4 draws are arguments; epochs count whole ticks of the clock.
pub mod Laws
pub mod Siblings
pub mod Invariant
pub mod Updates
pub mod Rollback
pub mod Keeps
pub mod Saving
pub mod Deploy
pub mod Active
pub mod Reach
use nexus_trade_engine.Prelude.{
  ℕ, ◌+◌, ◌*◌, String, Option, none, some, Bool, true, false, not, ◌&&◌, List, [], ◌∷◌, ◌++◌, keep,
  Outcome, ok, err, ◌>>=◌, ◌>>◌, raise_if, if◌then◌else◌, ◌==◌, string_eq, ltb, length, Dict,
  lookup, insert,
}

pub data VersionStatus : Type 0 where
  draft active retired : VersionStatus

pub record StrategyVersion : Type 0 where
  pub id : String
  pub strategy_id : String
  pub version_number : ℕ
  pub code_hash : String
  pub config_hash : String
  pub status : VersionStatus
  pub created_at_epoch : ℕ
  pub last_activated_at_epoch : Option ℕ

-- The exceptions that the operations raise.
pub data VersionError : Type 0 where
  empty_code invalid_config : VersionError
  code_too_large : ℕ → VersionError
  version_not_found is_retired is_active no_candidate : String → VersionError

abbrev pub max_code_size_bytes : ℕ
max_code_size_bytes = 5 * 1024 * 1024

-- `InMemoryStrategyRegistry`
pub record StrategyRegistry : Type 0 where
  pub by_id : Dict String StrategyVersion
  pub by_strategy : Dict String (List String)

unfoldable pub new : StrategyRegistry
new = record { by_id = []; by_strategy = [] }

unfoldable pub get : String → StrategyRegistry → Option StrategyVersion
get version_id r = lookup version_id r.by_id

-- `_by_strategy.get(strategy_id, ())`
unfoldable pub ids : String → StrategyRegistry → List String
ids strategy_id r = elim (lookup strategy_id r.by_strategy) [ none ↦ [] | some listed ↦ listed ]

unfoldable pub save : StrategyVersion → StrategyRegistry → StrategyRegistry
unfolding get ids
save v r = record {
  by_id = insert v.id v r.by_id;
  by_strategy = elim (get v.id r) [
    | none ↦ insert v.strategy_id (ids v.strategy_id r ++ v.id ∷ []) r.by_strategy
    | some stored ↦ r.by_strategy
  ];
}

-- `[self._by_id[i] for i in listed if i in self._by_id]`
unfoldable pub stored_versions : StrategyRegistry → List String → List StrategyVersion
unfolding get
stored_versions r [] = []
stored_versions r (i ∷ listed) =
    let rest = stored_versions r listed in elim (get i r) [ none ↦ rest | some v ↦ v ∷ rest ]

unfoldable pub list_for_strategy : String → StrategyRegistry → List StrategyVersion
unfolding ids stored_versions
list_for_strategy strategy_id r = stored_versions r (ids strategy_id r)

abbrev pub has_hashes : String → String → StrategyVersion → Bool
has_hashes code_hash config_hash v = v.code_hash == code_hash && v.config_hash == config_hash

-- `next((v for v in versions if test(v)), None)`
unfoldable pub first_version :
    (StrategyVersion → Bool) → List StrategyVersion → Option StrategyVersion
first_version test [] = none
first_version test (v ∷ vs) = if test v then some v else first_version test vs

unfoldable pub find_by_hashes : String → String → String → StrategyRegistry → Option StrategyVersion
unfolding list_for_strategy first_version
find_by_hashes strategy_id code_hash config_hash r =
    first_version (has_hashes code_hash config_hash) (list_for_strategy strategy_id r)

-- `max((v.version_number for v in versions), default=0)`
unfoldable pub max_version_number : List StrategyVersion → ℕ
max_version_number [] = 0
max_version_number (v ∷ vs) =
    let rest = max_version_number vs in if ltb v.version_number rest then rest else v.version_number

-- The record that `deploy` creates.
unfoldable pub new_version :
    ℕ → String → String → String → String → StrategyRegistry → StrategyVersion
unfolding list_for_strategy max_version_number
new_version now uuid strategy_id code_hash config_hash r = record {
  id = uuid;
  strategy_id = strategy_id;
  version_number = max_version_number (list_for_strategy strategy_id r) + 1;
  code_hash = code_hash;
  config_hash = config_hash;
  status = draft;
  created_at_epoch = now;
  last_activated_at_epoch = none;
}

-- An operation returns the version it is about and the registry, or raises.
abbrev Result : Type 0
Result = Outcome VersionError (StrategyVersion × StrategyRegistry)

-- The body of `deploy` under the lock.
unfoldable pub register :
    ℕ → String → String → String → String → StrategyRegistry → StrategyVersion × StrategyRegistry
unfolding find_by_hashes list_for_strategy new_version save
register now uuid strategy_id code_hash config_hash r =
    let v = new_version now uuid strategy_id code_hash config_hash r in
    elim (find_by_hashes strategy_id code_hash config_hash r) [
      | some existing ↦ (existing, r)
      | none ↦ (v, save v r)
    ]

-- The bytes of the code, hashing and `json.dumps` encoded as UTF-8, which raises on a config that
-- is not serializable.
module _ {Config : Type 0} (sha256 : List ℕ → String) (dumps : Config → Option (List ℕ)) where
  unfoldable pub canonical_config_hash : Config → Outcome VersionError String
  canonical_config_hash config = elim (dumps config) [
    | none ↦ err invalid_config
    | some payload ↦ ok (sha256 payload)
  ]

  unfoldable pub deploy : ℕ → String → String → List ℕ → Config → StrategyRegistry → Result
  unfolding canonical_config_hash register
  deploy now uuid strategy_id code config r = do
    raise_if (not (ltb 0 (length code))) empty_code
    raise_if (ltb max_code_size_bytes (length code)) (code_too_large (length code))
    config_hash ← canonical_config_hash config
    ok (register now uuid strategy_id (sha256 code) config_hash r)

abbrev pub with_status : VersionStatus → StrategyVersion → StrategyVersion
with_status status v = record v { status = status }

-- `replace(v, status=VersionStatus.ACTIVE, last_activated_at_epoch=time.time())`
abbrev pub activated : ℕ → StrategyVersion → StrategyVersion
activated now v = record v { status = active; last_activated_at_epoch = some now }

abbrev pub status_active : VersionStatus → Bool
status_active active = true
status_active draft = false
status_active retired = false

abbrev pub status_retired : VersionStatus → Bool
status_retired retired = true
status_retired draft = false
status_retired active = false

abbrev pub found : String → Option StrategyVersion → Outcome VersionError StrategyVersion
found version_id none = err (version_not_found version_id)
found version_id (some v) = ok v

-- The siblings that `activate` retires.
abbrev pub is_superseded : String → StrategyVersion → Bool
is_superseded current sibling = not (sibling.id == current) && status_active sibling.status

-- The loop of `activate` over the siblings.
unfoldable pub retire_siblings : String → List StrategyVersion → StrategyRegistry → StrategyRegistry
unfolding save
retire_siblings current [] r = r
retire_siblings current (sibling ∷ siblings) r =
    retire_siblings current siblings
      (if is_superseded current sibling then save (with_status retired sibling) r else r)

unfoldable pub activate : ℕ → String → StrategyRegistry → StrategyRegistry → Result
unfolding get list_for_strategy retire_siblings save
activate now version_id at_entry r = do
  target ← found version_id (get version_id at_entry)
  current ← found version_id (get version_id r)
  raise_if (status_retired current.status) (is_retired version_id)
  let siblings = list_for_strategy current.strategy_id r
  let updated = activated now current
  ok (updated, save updated (retire_siblings current.id siblings r))

-- `v.last_activated_at_epoch or 0.0`
abbrev pub activation : StrategyVersion → ℕ
activation v = elim v.last_activated_at_epoch [ none ↦ 0 | some epoch ↦ epoch ]

abbrev pub was_activated : StrategyVersion → Bool
was_activated v = elim v.last_activated_at_epoch [ none ↦ false | some epoch ↦ true ]

abbrev is_other : Option StrategyVersion → StrategyVersion → Bool
is_other none v = true
is_other (some current_active) v = not (v.id == current_active.id)

-- What the comprehension of `rollback` keeps.
abbrev pub is_previous : Option StrategyVersion → StrategyVersion → Bool
is_previous current_active v =
    status_retired v.status && was_activated v && is_other current_active v

-- `max(versions, key=…)` of a list with a first version: the earliest among the largest.
pub latest : StrategyVersion → List StrategyVersion → StrategyVersion
latest best [] = best
latest best (v ∷ vs) = latest (if ltb (activation best) (activation v) then v else best) vs

abbrev pub status_of_active : StrategyVersion → Bool
status_of_active v = status_active v.status

pub save_retired : Option StrategyVersion → StrategyRegistry → StrategyRegistry
unfolding save
save_retired none r = r
save_retired (some v) r = save (with_status retired v) r

-- The end of `rollback`, from the versions that were live before.
pub promote_latest :
    ℕ → String → Option StrategyVersion → List StrategyVersion → StrategyRegistry → Result
unfolding latest save_retired save
promote_latest now strategy_id current_active [] r = err (no_candidate strategy_id)
promote_latest now strategy_id current_active (v ∷ vs) r =
    let promoted = activated now (latest v vs) in
    ok (promoted, save promoted (save_retired current_active r))

pub rollback : ℕ → String → StrategyRegistry → Result
unfolding list_for_strategy first_version promote_latest
rollback now strategy_id r =
    let siblings = list_for_strategy strategy_id r in
    let current_active = first_version status_of_active siblings in
    promote_latest now strategy_id current_active (keep (is_previous current_active) siblings) r

pub retire : String → Bool → StrategyRegistry → StrategyRegistry → Result
unfolding get save
retire version_id allow_retire_active at_entry r = do
  target ← found version_id (get version_id at_entry)
  current ← found version_id (get version_id r)
  raise_if (status_active current.status && not allow_retire_active) (is_active version_id)
  let updated = with_status retired current
  ok (updated, save updated r)

unfoldable pub get_active : String → StrategyRegistry → Option StrategyVersion
unfolding list_for_strategy first_version
get_active strategy_id r = first_version status_of_active (list_for_strategy strategy_id r)
