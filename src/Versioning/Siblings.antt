-- ===== src/Versioning/Siblings.antt =====
-- The loop of `activate` that retires the siblings, read at each identifier.
use nexus_trade_engine.Prelude.{
  String, ◌≡◌, inl, inr, refl, ap, sym, subst, Option, none, some, true, false, List, [], ◌∷◌,
  arith, if◌then◌else◌, ◌==◌, string_eq, In, All, Bool-cases, Option-cases, All-implies, All-In,
}
use nexus_trade_engine.Versioning.{
  StrategyVersion, StrategyRegistry, retired, get, ids, save, list_for_strategy, with_status,
  is_superseded, retire_siblings,
}
use nexus_trade_engine.Versioning.Laws.{get-save, ids-save_known}
use nexus_trade_engine.Versioning.Invariant.{IsValid, get-listed, listed-get}

abbrev pub amended :
    (StrategyVersion → StrategyVersion) → Option StrategyVersion → Option StrategyVersion
amended f none = none
amended f (some v) = some (f v)

-- The last sibling with the identifier `k` that the loop retires.
abbrev last_superseded : String → List StrategyVersion → String → Option StrategyVersion
last_superseded current [] k = none
last_superseded current (v ∷ vs) k = elim (last_superseded current vs k) [
  | some w ↦ some w
  | none ↦ if is_superseded current v then (if v.id == k then some v else none) else none
]

get-retire_siblings :
    (current k : String) (vs : List StrategyVersion) (r : StrategyRegistry)
    → get k (retire_siblings current vs r) ≡ elim (last_superseded current vs k) [
      | none ↦ get k r
      | some v ↦ some (with_status retired v)
    ]
unfolding retire_siblings
get-retire_siblings current k [] r = refl
get-retire_siblings current k (v ∷ vs) r = ground (
  arith,
  get-retire_siblings current k vs r,
  get-retire_siblings current k vs (save (with_status retired v) r),
  get-save k (with_status retired v) r,
)

last_superseded-some :
    (current k : String) (vs : List StrategyVersion) (w : StrategyVersion)
    → last_superseded current vs k ≡ some w
    → In vs w × (w.id ≡ k) × (is_superseded current w ≡ true)
last_superseded-some current k [] w h = cc
last_superseded-some current k (v ∷ vs) w h =
    ground (arith, last_superseded-some current k vs w, string_eq.same_iff v.id k)

last_superseded-none :
    (current : String) (vs : List StrategyVersion) (v : StrategyVersion)
    → last_superseded current vs v.id ≡ none
    → In vs v
    → is_superseded current v ≡ false
last_superseded-none current [] v h l = absurd l
last_superseded-none current (w ∷ vs) v h (inl e) = ground (arith, string_eq.same_iff v.id v.id)
last_superseded-none current (w ∷ vs) v h (inr l) =
    ground (arith, last_superseded-none current vs v)

-- An active sibling retires.
abbrev pub superseded : String → String → StrategyVersion → StrategyVersion
superseded s current v =
    if v.strategy_id == s then (if is_superseded current v then with_status retired v else v) else v

module _ (r : StrategyRegistry) (valid : IsValid r) (s current : String) where
  abbrev siblings : List StrategyVersion
  siblings = list_for_strategy s r

  -- A stored version that the loop passes over is not one of those that it should retire.
  superseded-none :
      (v : StrategyVersion)
      → get v.id r ≡ some v
      → last_superseded current siblings v.id ≡ none
      → superseded s current v ≡ v
  superseded-none v stored h = elim (Bool-cases (v.strategy_id == s)) [
    | inl own ↦
        let among : In siblings v =
          subst (λ t. In (list_for_strategy t r) v) ((string_eq.same_iff v.strategy_id s).0 own)
            (get-listed r valid v.id v stored) in
        ground (arith, last_superseded-none current siblings v h among)
    | inr other ↦ rw other refl
  ]

  -- One that it retires is stored, and is one of those.
  superseded-some :
      (k : String) (w : StrategyVersion)
      → last_superseded current siblings k ≡ some w
      → (get k r ≡ some w) × (superseded s current w ≡ with_status retired w)
  superseded-some k w h =
      let (among, at_k, test) = last_superseded-some current k siblings w h in
      let (stored, own) = listed-get r valid s w among in
      (
        subst (λ i. get i r ≡ some w) at_k stored,
        ground (arith, test, string_eq.same_iff w.strategy_id s),
      )

  get-retire_stored :
      (k : String) (o : Option StrategyVersion)
      → get k r ≡ o
      → last_superseded current siblings k ≡ none
      → get k (retire_siblings current siblings r) ≡ amended (superseded s current) o
  get-retire_stored k none h e = ground (arith, get-retire_siblings current k siblings r)
  get-retire_stored k (some v) h e =
      let at_k : v.id ≡ k = valid.keyed k v h in
      let stored : get v.id r ≡ some v = subst (λ i. get i r ≡ some v) (sym at_k) h in
      let e' = subst (λ i. last_superseded current siblings i ≡ none) (sym at_k) e in
      rw (get-retire_siblings current k siblings r, e, h)
        (ap some (sym (superseded-none v stored e')))

  -- The loop over the strategy's versions retires each active one but the current.
  pub get-retire_all :
      (k : String)
      → get k (retire_siblings current siblings r) ≡ amended (superseded s current) (get k r)
  get-retire_all k = elim (Option-cases (last_superseded current siblings k)) [
    | inl e ↦ get-retire_stored k (get k r) refl e
    | inr (w, e) ↦
        let (stored, changed) = superseded-some k w e in
        rw (stored, get-retire_siblings current k siblings r, e) (ap some (sym changed))
  ]

-- The registry holds a version under this one's identifier.
abbrev IsKnown : StrategyRegistry → StrategyVersion → Type 0
IsKnown r v = (w : StrategyVersion) × (get v.id r ≡ some w)

save-IsKnown : (u v : StrategyVersion) (r : StrategyRegistry) → IsKnown r v → IsKnown (save u r) v
save-IsKnown u v r h = elim (Bool-cases (u.id == v.id)) [
  | inl e ↦ (u, rw (get-save v.id u r, e) refl)
  | inr e ↦ (h.0, rw (get-save v.id u r, e) h.1)
]

-- The loop leaves the lists of identifiers.
ids-retire_siblings :
    (s current : String) (vs : List StrategyVersion) (r : StrategyRegistry)
    → All (IsKnown r) vs
    → ids s (retire_siblings current vs r) ≡ ids s r
unfolding retire_siblings
ids-retire_siblings s current [] r h = refl
ids-retire_siblings s current (v ∷ vs) r h = elim (Bool-cases (is_superseded current v)) [
  | inl e ↦
      let u : StrategyVersion = with_status retired v in
      let known : All (IsKnown (save u r)) vs =
        All-implies (IsKnown r) (IsKnown (save u r)) vs (λ x. save-IsKnown u x r) h.1 in
      rw (e, ids-retire_siblings s current vs (save u r) known) (ids-save_known s u h.0.0 r h.0.1)
  | inr e ↦ rw e (ids-retire_siblings s current vs r h.1)
]

pub ids-retire_all :
    (r : StrategyRegistry)
    → IsValid r
    → (s t current : String) → ids s (retire_siblings current (list_for_strategy t r) r) ≡ ids s r
ids-retire_all r valid s t current = ids-retire_siblings s current (list_for_strategy t r) r (
    All-implies _ (IsKnown r) (list_for_strategy t r) (λ v h. (v, (listed-get r valid t v h).0))
      (All-In (list_for_strategy t r)))
