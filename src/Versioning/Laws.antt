-- ===== src/Versioning/Laws.antt =====
-- The registry through its two readings: the version under an identifier, and the identifiers of a
-- strategy.
use nexus_trade_engine.Prelude.{
  String, ◌≡◌, ◌⊎◌, inl, inr, refl, ap, none, some, Bool, true, false, List, [], ◌∷◌, ◌++◌, arith,
  if◌then◌else◌, ◌==◌, string_eq, lookup-insert, In, Option-cases,
}
use nexus_trade_engine.Versioning.{
  StrategyVersion, StrategyRegistry, get, ids, save, stored_versions, first_version,
}

pub get-save :
    (k : String) (v : StrategyVersion) (r : StrategyRegistry)
    → get k (save v r) ≡ (if v.id == k then some v else get k r)
unfolding get save
get-save k v r = lookup-insert v.id k v r.by_id

pub get-save_self : (v : StrategyVersion) (r : StrategyRegistry) → get v.id (save v r) ≡ some v
get-save_self v r = ground (arith, get-save v.id v r, string_eq.same_iff v.id v.id)

-- Saving a version whose identifier is known leaves the lists of identifiers.
pub ids-save_known :
    (s : String) (v w : StrategyVersion) (r : StrategyRegistry)
    → get v.id r ≡ some w
    → ids s (save v r) ≡ ids s r
unfolding ids save
ids-save_known s v w r h = rw h refl

pub ids-save_new :
    (s : String) (v : StrategyVersion) (r : StrategyRegistry)
    → get v.id r ≡ none
    → ids s (save v r) ≡ (if v.strategy_id == s then ids s r ++ v.id ∷ [] else ids s r)
unfolding ids save
ids-save_new s v r h = ground (
  arith,
  lookup-insert v.strategy_id s (ids v.strategy_id r ++ v.id ∷ []) r.by_strategy,
  string_eq.same_iff v.strategy_id s,
)

-- The version with an identifier of the list is listed.
pub stored_versions-In :
    (r : StrategyRegistry) (listed : List String) (k : String) (v : StrategyVersion)
    → In listed k
    → get k r ≡ some v
    → In (stored_versions r listed) v
unfolding stored_versions
stored_versions-In r [] k v h e = absurd h
stored_versions-In r (i ∷ listed) k v (inl h) e =
    let e' : get i r ≡ some v = rw h e in rw (e', stored_versions) (inl refl)
stored_versions-In r (i ∷ listed) k v (inr h) e = elim (Option-cases (get i r)) [
  | inl missing ↦ rw (missing, stored_versions) (stored_versions-In r listed k v h e)
  | inr (w, stored) ↦ rw (stored, stored_versions) (inr (stored_versions-In r listed k v h e))
]

-- The two ways in which a version is listed.
stored_versions-cons :
    (r : StrategyRegistry) (i : String) (listed : List String) (v : StrategyVersion)
    → In (stored_versions r (i ∷ listed)) v
    → (get i r ≡ some v) ⊎ In (stored_versions r listed) v
unfolding stored_versions
stored_versions-cons r i listed v = elim (Option-cases (get i r)) [
  | inl missing ↦ rw (missing, stored_versions) (λ h. inr h)
  | inr (w, stored) ↦
      rw (stored, stored_versions)
        (λ h. elim h [ inl here ↦ inl (ap some here) | inr later ↦ inr later ])
]

-- A listed version is stored under one of the identifiers.
pub stored_versions-get :
    (r : StrategyRegistry) (listed : List String) (v : StrategyVersion)
    → In (stored_versions r listed) v
    → (k : String) × In listed k × (get k r ≡ some v)
unfolding stored_versions
stored_versions-get r [] v h = absurd h
stored_versions-get r (i ∷ listed) v h = elim (stored_versions-cons r i listed v h) [
  | inl stored ↦ (i, inl refl, stored)
  | inr later ↦
      let (k, listed_k, stored) = stored_versions-get r listed v later in (k, inr listed_k, stored)
]

pub first_version-In :
    (test : StrategyVersion → Bool) (vs : List StrategyVersion) (v : StrategyVersion)
    → first_version test vs ≡ some v
    → In vs v × (test v ≡ true)
unfolding first_version
first_version-In test [] v h = cc
first_version-In test (w ∷ vs) v h = ground (arith, first_version-In test vs v)

pub first_version-none :
    (test : StrategyVersion → Bool) (vs : List StrategyVersion) (v : StrategyVersion)
    → first_version test vs ≡ none
    → In vs v
    → test v ≡ false
unfolding first_version
first_version-none test [] v h l = absurd l
first_version-none test (w ∷ vs) v h l = ground (arith, first_version-none test vs v)
