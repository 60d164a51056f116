-- ===== src/Examples/Versions.antt =====
-- Versions of a strategy: two deployments, an activation, another, and the way back.
use nexus_trade_engine.Prelude.{
  ℕ, ◌<◌, ◌≤◌, String, ◌≡◌, ◌≢◌, refl, Option, none, some, true, false, List, [], ◌∷◌, ok, arith,
  string_eq, nat_eq, ◌==◌, if◌then◌else◌,
}
use nexus_trade_engine.Versioning.{
  StrategyVersion, StrategyRegistry, VersionStatus, draft, active, retired, new, get, ids, save,
  deploy, register, new_version, find_by_hashes, first_version, list_for_strategy, stored_versions,
  max_version_number, canonical_config_hash, activate, retire_siblings, rollback, activated,
  activation, get_active,
}
use nexus_trade_engine.Versioning.Invariant.{IsValid}
use nexus_trade_engine.Versioning.Updates.{Amends, promoted, activate-Amends}
use nexus_trade_engine.Versioning.Rollback.{WasLive, rollback-Amends}
use nexus_trade_engine.Versioning.Reach.{
  Reached, deploys, activates, start, after, Reached-IsValid, rollback-activate,
}

-- Stand-ins for the hash and for the encoding of a config.
abbrev digest : List ℕ → String
digest [] = "hash of nothing"
digest (byte ∷ bytes) = if byte == 1 then "hash of one" else "hash of more"

abbrev encode : List ℕ → Option (List ℕ)
encode config = some config

abbrev version : String → ℕ → String → VersionStatus → Option ℕ → StrategyVersion
version id number code_hash status last = record {
  id = id;
  strategy_id = "momentum";
  version_number = number;
  code_hash = code_hash;
  config_hash = "hash of nothing";
  status = status;
  created_at_epoch = number;
  last_activated_at_epoch = last;
}

abbrev first : VersionStatus → Option ℕ → StrategyVersion
first = version "id-1" 1 "hash of one"

abbrev second : VersionStatus → Option ℕ → StrategyVersion
second = version "id-2" 2 "hash of more"

abbrev one_version : StrategyVersion → StrategyRegistry
one_version v = record { by_id = ("id-1", v) ∷ []; by_strategy = ("momentum", "id-1" ∷ []) ∷ [] }

abbrev two_versions : StrategyVersion → StrategyVersion → StrategyRegistry
two_versions v w = record {
  by_id = ("id-1", v) ∷ ("id-2", w) ∷ [];
  by_strategy = ("momentum", "id-1" ∷ "id-2" ∷ []) ∷ [];
}

-- The first version serves live, the second is a draft.
abbrev serving : StrategyRegistry
serving = two_versions (first active (some 3)) (second draft none)

-- The second took its place.
abbrev replaced : StrategyRegistry
replaced = two_versions (first retired (some 3)) (second active (some 4))

first_deployed :
    deploy digest encode 1 "id-1" "momentum" (1 ∷ []) [] new
    ≡ ok (first draft none, one_version (first draft none))
unfolding deploy canonical_config_hash register new_version find_by_hashes first_version
    list_for_strategy stored_versions max_version_number save get ids new
first_deployed = refl

second_deployed :
    deploy digest encode 2 "id-2" "momentum" (2 ∷ []) [] (one_version (first draft none))
    ≡ ok (second draft none, two_versions (first draft none) (second draft none))
unfolding deploy canonical_config_hash register new_version find_by_hashes first_version
    list_for_strategy stored_versions max_version_number save get ids
second_deployed = refl

first_activated :
    activate 3 "id-1" serving (two_versions (first draft none) (second draft none))
    ≡ ok (first active (some 3), serving)
unfolding activate list_for_strategy stored_versions retire_siblings save get ids
first_activated = refl

second_activated : activate 4 "id-2" serving serving ≡ ok (second active (some 4), replaced)
unfolding activate list_for_strategy stored_versions retire_siblings save get ids
second_activated = refl

one_version-Reached : Reached digest encode (one_version (first draft none))
unfolding new get
one_version-Reached =
    after _ _ start (deploys 1 "id-1" "momentum" (1 ∷ []) [] _ refl first_deployed)

serving-Reached : Reached digest encode serving
unfolding new get
serving-Reached =
    after _ _
      (after _ _ (after _ _ start (deploys 1 "id-1" "momentum" (1 ∷ []) [] _ refl first_deployed))
        (deploys 2 "id-2" "momentum" (2 ∷ []) [] _ refl second_deployed))
      (activates 3 "id-1" serving _ first_activated)

replaced-Reached : Reached digest encode replaced
replaced-Reached = after _ _ serving-Reached (activates 4 "id-2" serving _ second_activated)

Reached-IsValid_example : IsValid replaced
Reached-IsValid_example = Reached-IsValid digest encode replaced replaced-Reached

serving-IsValid : IsValid serving
serving-IsValid = Reached-IsValid digest encode serving serving-Reached

replaced-IsValid : IsValid replaced
replaced-IsValid = Reached-IsValid digest encode replaced replaced-Reached

other_ids : (first active (some 3)).id ≢ (second active (some 4)).id
other_ids e = let h : false ≡ true = (string_eq.same_iff "id-1" "id-2").1 e in cc

none_retired : (u : StrategyVersion) → WasLive serving "momentum" u → activation u < 3
unfolding get
none_retired u (stored, own, status, was) = ground (arith, stored, status)

rollback-activate_example :
    (r'' : StrategyRegistry) × (rollback 9 "momentum" replaced ≡ ok (first active (some 9), r''))
unfolding get_active list_for_strategy stored_versions first_version get ids
rollback-activate_example =
    rollback-activate serving replaced serving 4 9 "id-2" (first active (some 3))
      (second active (some 4)) serving-IsValid refl refl other_ids none_retired second_activated

first-WasLive : WasLive replaced "momentum" (first retired (some 3))
unfolding get
first-WasLive = (refl, refl, refl, refl)

rollback-Amends_example :
    (previous : StrategyVersion) × (r' : StrategyRegistry) × (rollback 9 "momentum" replaced
      ≡ ok (activated 9 previous, r'))
    × WasLive replaced "momentum" previous
    × ((w : StrategyVersion) → WasLive replaced "momentum" w → activation w ≤ activation previous)
    × Amends (promoted 9 "momentum" previous.id) replaced r'
rollback-Amends_example =
    rollback-Amends replaced replaced-IsValid "momentum" 9 (first retired (some 3)) first-WasLive

activate-Amends_example :
    (r' : StrategyRegistry) × (activate 4 "id-2" serving serving ≡ ok (second active (some 4), r'))
    × Amends (promoted 4 "momentum" "id-2") serving r'
unfolding get
activate-Amends_example =
    activate-Amends serving serving-IsValid 4 serving "id-2" (second draft none) (second draft none)
      refl refl (λ e. cc)
