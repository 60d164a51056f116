-- ===== src/Versioning/Rollback.antt =====
-- Which version `rollback` promotes, and what becomes of the registry.
use nexus_trade_engine.Prelude.{
  ℕ, ◌≤◌, String, ◌≡◌, ◌≢◌, inl, inr, refl, ap, sym, subst, ◌∙◌, Option, none, some, true, List, [],
  ◌∷◌, arith, In, ◌==◌, string_eq, Bool-cases, ==_ne, keep, In-keep, keep-In, err, List-cases, ok,
}
use nexus_trade_engine.Versioning.{
  StrategyVersion, StrategyRegistry, active, retired, get, save, list_for_strategy, with_status,
  activated, activation, status_of_active, first_version, latest, save_retired, was_activated,
  is_previous, promote_latest, rollback, no_candidate,
}
use nexus_trade_engine.Versioning.Laws.{first_version-In, first_version-none}
use nexus_trade_engine.Versioning.Siblings.{superseded}
use nexus_trade_engine.Versioning.Invariant.{IsValid, get-listed, listed-get}
use nexus_trade_engine.Versioning.Updates.{
  Amends, promoted, promote-Amends, save-Amends, amended-fixed, amended_id,
}

-- The choice is one of the list, and none was activated later.
latest-In : (best : StrategyVersion) (vs : List StrategyVersion) → In (best ∷ vs) (latest best vs)
unfolding latest
latest-In best [] = inl refl
latest-In best (v ∷ vs) = ground (arith, latest-In best vs, latest-In v vs)

latest-best :
    (best : StrategyVersion) (vs : List StrategyVersion)
    → activation best ≤ activation (latest best vs)
unfolding latest
latest-best best [] = omega arith
latest-best best (v ∷ vs) = ground (arith, latest-best best vs, latest-best v vs)

latest-max :
    (best v : StrategyVersion) (vs : List StrategyVersion)
    → In (best ∷ vs) v
    → activation v ≤ activation (latest best vs)
unfolding latest
latest-max best v vs (inl e) =
    subst (λ x. activation x ≤ activation (latest best vs)) e (latest-best best vs)
latest-max best v [] (inr h) = absurd h
latest-max best v (w ∷ vs) (inr (inl e)) =
    subst (λ x. activation x ≤ activation (latest best (w ∷ vs))) e
      (ground (arith, latest-best best vs, latest-best w vs))
latest-max best v (w ∷ vs) (inr (inr h)) =
    ground (arith, latest-max best v vs (inr h), latest-max w v vs (inr h))

-- `v` is a version of the strategy that served live and is retired.
abbrev pub WasLive : StrategyRegistry → String → StrategyVersion → Type 0
WasLive r s v =
    (get v.id r ≡ some v) × (v.strategy_id ≡ s) × (v.status ≡ retired) × (was_activated v ≡ true)

module _ (r : StrategyRegistry) (valid : IsValid r) (s : String) where
  abbrev siblings : List StrategyVersion
  siblings = list_for_strategy s r

  abbrev current_active : Option StrategyVersion
  current_active = first_version status_of_active siblings

  abbrev candidates : List StrategyVersion
  candidates = keep (is_previous current_active) siblings

  own-listed : (v : StrategyVersion) → get v.id r ≡ some v → v.strategy_id ≡ s → In siblings v
  own-listed v stored own =
      subst (λ t. In (list_for_strategy t r) v) own (get-listed r valid v.id v stored)

  candidate-WasLive : (v : StrategyVersion) → In candidates v → WasLive r s v
  candidate-WasLive v h =
      let (among, test) = In-keep (is_previous current_active) v siblings h in
      let (stored, own) = listed-get r valid s v among in
      (stored, own, ground (arith, test), ground (arith, test))

  current-lem :
      (c : StrategyVersion)
      → current_active ≡ some c
      → (get c.id r ≡ some c) × (c.strategy_id ≡ s) × (c.status ≡ active)
  current-lem c e =
      let (among, test) = first_version-In status_of_active siblings c e in
      let (stored, own) = listed-get r valid s c among in (stored, own, ground (arith, test))

  current_distinct : (c v : StrategyVersion) → current_active ≡ some c → WasLive r s v → v.id ≢ c.id
  current_distinct c v e (stored, own, status, live) same =
      let (stored_c, own_c, status_c) = current-lem c e in
      let there : get v.id r ≡ some c = subst (λ i. get i r ≡ some c) (sym same) stored_c in
      let both : v ≡ c = cc in
      let clash : v.status ≡ active =
        subst (λ (x : StrategyVersion). x.status ≡ active) (sym both) status_c in
      cc

  retired-other :
      (v : StrategyVersion) (o : Option StrategyVersion)
      → current_active ≡ o
      → WasLive r s v
      → is_previous o v ≡ true
  retired-other v none e (stored, own, status, live) = ground (arith, status, live)
  retired-other v (some c) e (stored, own, status, live) =
      ground
        (arith, status, live, ==_ne v.id c.id (current_distinct c v e (stored, own, status, live)))

  WasLive-candidate : (v : StrategyVersion) → WasLive r s v → In candidates v
  WasLive-candidate v (stored, own, status, live) =
      keep-In (is_previous current_active) v siblings (own-listed v stored own)
        (retired-other v current_active refl (stored, own, status, live))

  -- Where the strategy has no active version, none is to be retired.
  superseded_idle :
      (k : String) (v : StrategyVersion)
      → current_active ≡ none
      → get v.id r ≡ some v
      → superseded s k v ≡ v
  superseded_idle k v e stored = elim (Bool-cases (v.strategy_id == s)) [
    | inl own ↦ ground (
      arith,
      first_version-none status_of_active siblings v e
          (own-listed v stored ((string_eq.same_iff v.strategy_id s).0 own)),
    )
    | inr other ↦ rw other refl
  ]

  -- A stored version other than the active one is not to be retired.
  superseded-other :
      (k : String) (c v : StrategyVersion)
      → current_active ≡ some c
      → get v.id r ≡ some v
      → v.id ≢ c.id
      → v ≡ superseded s k v
  superseded-other k c v e stored ne =
      let (stored_c, own_c, status_c) = current-lem c e in
      ground (
        arith,
        string_eq.same_iff v.strategy_id s,
        λ (own : v.strategy_id ≡ s) (live : v.status ≡ active).
            ne (valid.one_active v.id c.id v c stored stored_c (own ∙ sym own_c) live status_c),
      )

  -- The version that was active and is not promoted retires.
  save_retired-Amends :
      (previous : StrategyVersion) (o : Option StrategyVersion)
      → current_active ≡ o
      → WasLive r s previous
      → Amends (superseded s previous.id) r (save_retired o r)
  unfolding save_retired
  save_retired-Amends previous none e live = record {
    lists = λ t. refl;
    reads = λ k. sym (
        amended-fixed (superseded s previous.id) r k (get k r) valid refl
          (λ v. superseded_idle previous.id v e));
  }
  save_retired-Amends previous (some c) e live =
      let (stored_c, own_c, status_c) = current-lem c e in
      let at_c : superseded s previous.id c ≡ with_status retired c = ground (
        arith,
        status_c,
        string_eq.same_iff c.strategy_id s,
        own_c,
        string_eq.same_iff c.id previous.id,
        λ (same : c.id ≡ previous.id). current_distinct c previous e live (sym same),
      ) in
      subst (λ (x : StrategyVersion). Amends (superseded s previous.id) r (save x r)) at_c
        (save-Amends (superseded s previous.id) (λ v. v) r r c valid stored_c (λ t. refl)
          (λ k. sym (amended_id (get k r))) (ap (λ (x : StrategyVersion). x.id) at_c)
          (λ v. superseded-other previous.id c v e))

  promote_own-Amends :
      (now : ℕ) (previous : StrategyVersion) (r' : StrategyRegistry)
      → WasLive r s previous
      → Amends (superseded s previous.id) r r'
      → Amends (promoted now s previous.id) r (save (activated now previous) r')
  promote_own-Amends now previous r' (stored, own, status, live) amends =
      let here : Amends (superseded previous.strategy_id previous.id) r r' =
        subst (λ t. Amends (superseded t previous.id) r r') (sym own) amends in
      subst (λ t. Amends (promoted now t previous.id) r (save (activated now previous) r')) own
        (promote-Amends r valid now previous r' stored here.lists here.reads)

  -- What `rollback` does from a list of the candidates.
  promote_latest-Amends :
      (now : ℕ) (vs : List StrategyVersion)
      → ((v : StrategyVersion) → In vs v → WasLive r s v)
      → ((v : StrategyVersion) → WasLive r s v → In vs v)
      → (v : StrategyVersion) → WasLive r s v
      → (previous : StrategyVersion) × (r' : StrategyRegistry) × (promote_latest now s
            current_active vs r
          ≡ ok (activated now previous, r'))
        × WasLive r s previous
        × ((w : StrategyVersion) → WasLive r s w → activation w ≤ activation previous)
        × Amends (promoted now s previous.id) r r'
  unfolding promote_latest
  promote_latest-Amends now [] sound complete v live = absurd (complete v live)
  promote_latest-Amends now (c ∷ cs) sound complete v live =
      let previous : StrategyVersion = latest c cs in
      let chosen : WasLive r s previous = sound previous (latest-In c cs) in
      let rest : StrategyRegistry = save_retired current_active r in
      let amends : Amends (superseded s previous.id) r rest =
        save_retired-Amends previous current_active refl chosen in
      (
        previous,
        save (activated now previous) rest,
        refl,
        chosen,
        (λ w h. latest-max c w cs (complete w h)),
        promote_own-Amends now previous rest chosen amends,
      )

  -- Where a version of the strategy served live and is retired, rolling back succeeds: the one that
  -- went live last goes live again, the active one retires, and all else is as it was.
  pub rollback-Amends :
      (now : ℕ) (v : StrategyVersion)
      → WasLive r s v
      → (previous : StrategyVersion) × (r' : StrategyRegistry) × (rollback now s r
          ≡ ok (activated now previous, r'))
        × WasLive r s previous
        × ((w : StrategyVersion) → WasLive r s w → activation w ≤ activation previous)
        × Amends (promoted now s previous.id) r r'
  unfolding rollback
  rollback-Amends now v live =
      promote_latest-Amends now candidates candidate-WasLive WasLive-candidate v live

  -- Where none did, it raises.
  rollback_refused :
      (now : ℕ)
      → ((v : StrategyVersion) → ¬ WasLive r s v)
      → rollback now s r ≡ err (no_candidate s)
  unfolding rollback promote_latest
  rollback_refused now none_live = elim (List-cases candidates) [
    | inl e ↦ rw e refl
    | inr (c, cs, e) ↦ absurd (none_live c (candidate-WasLive c (rw e (inl refl))))
  ]

  -- A rollback that does not raise had a version to go back to.
  pub rollback-some :
      (now : ℕ) (v : StrategyVersion) (r' : StrategyRegistry)
      → rollback now s r ≡ ok (v, r')
      → (w : StrategyVersion) × WasLive r s w
  unfolding rollback promote_latest
  rollback-some now v r' = elim (List-cases candidates) [
    | inl e ↦ rw e λ h. cc
    | inr (c, cs, e) ↦ λ h. (c, candidate-WasLive c (rw e (inl refl)))
  ]
