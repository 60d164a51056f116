-- ===== src/Versioning/Updates.antt =====
-- What activating, rolling back and retiring do to the registry: each rewrites the stored versions
-- one by one and leaves the lists of identifiers.
use nexus_trade_engine.Prelude.{
  ℕ, String, ◌≡◌, ◌≢◌, ◌⊎◌, inl, inr, refl, ap, sym, subst, ◌∙◌, Option, none, some, Bool, true,
  false, not, arith, ◌==◌, string_eq, if◌then◌else◌, ◌&&◌, Bool-cases, ==_ne, ok,
}
use nexus_trade_engine.Versioning.{
  StrategyVersion, StrategyRegistry, active, retired, get, ids, save, list_for_strategy,
  with_status, activated, status_active, status_retired, retire_siblings, activate, retire,
}
use nexus_trade_engine.Versioning.Laws.{get-save, ids-save_known}
use nexus_trade_engine.Versioning.Siblings.{amended, superseded, get-retire_all, ids-retire_all}
use nexus_trade_engine.Versioning.Invariant.{IsValid}

-- The registry `r'` is `r` with every stored version rewritten by `f`.
pub record Amends (f : StrategyVersion → StrategyVersion) (r r' : StrategyRegistry) : Type 0 where
  pub lists : (s : String) → ids s r' ≡ ids s r
  pub reads : (k : String) → get k r' ≡ amended f (get k r)

-- One version goes live, the active ones of its strategy retire.
abbrev pub promoted : ℕ → String → String → StrategyVersion → StrategyVersion
promoted now s k v = if v.id == k then activated now v else superseded s k v

amended-others :
    (f g : StrategyVersion → StrategyVersion) (r : StrategyRegistry) (u k : String)
    (o : Option StrategyVersion)
    → IsValid r
    → get k r ≡ o
    → (u == k) ≡ false
    → ((v : StrategyVersion) → get v.id r ≡ some v → v.id ≢ u → g v ≡ f v)
    → amended g o ≡ amended f o
amended-others f g r u k none valid stored other same = refl
amended-others f g r u k (some v) valid stored other same =
    let at_k : v.id ≡ k = valid.keyed k v stored in
    let ne : v.id ≢ u = λ e. ground (arith, e, at_k, other, string_eq.same_iff u k) in
    ap some (same v (subst (λ i. get i r ≡ some v) (sym at_k) stored) ne)

pub amended-fixed :
    (f : StrategyVersion → StrategyVersion) (r : StrategyRegistry) (k : String)
    (o : Option StrategyVersion)
    → IsValid r
    → get k r ≡ o
    → ((v : StrategyVersion) → get v.id r ≡ some v → f v ≡ v)
    → amended f o ≡ o
amended-fixed f r k none valid stored fixed = refl
amended-fixed f r k (some v) valid stored fixed =
    ap some (fixed v (subst (λ i. get i r ≡ some v) (sym (valid.keyed k v stored)) stored))

pub amended_id : (o : Option StrategyVersion) → amended (λ v. v) o ≡ o
amended_id none = refl
amended_id (some v) = refl

-- The version with this identifier retires.
abbrev pub retired_at : String → StrategyVersion → StrategyVersion
retired_at k v = if v.id == k then with_status retired v else v

-- Saving a rewritten version, after the others were rewritten.
pub save-Amends :
    (f g : StrategyVersion → StrategyVersion) (r r' : StrategyRegistry) (u : StrategyVersion)
    → IsValid r
    → get u.id r ≡ some u
    → ((s : String) → ids s r' ≡ ids s r)
    → ((k : String) → get k r' ≡ amended g (get k r))
    → (f u).id ≡ u.id
    → ((v : StrategyVersion) → get v.id r ≡ some v → v.id ≢ u.id → g v ≡ f v)
    → Amends f r (save (f u) r')
save-Amends f g r r' u valid stored lists reads at_u others = record {
  lists = λ s. ids-save_known s (f u) (g u) r' (rw (at_u, reads u.id, stored) refl) ∙ lists s;
  reads = λ k. elim (Bool-cases (u.id == k)) [
    | inl e ↦
        let stored_k : get k r ≡ some u =
          subst (λ i. get i r ≡ some u) ((string_eq.same_iff u.id k).0 e) stored in
        let hit : ((f u).id == k) ≡ true = rw at_u e in rw (get-save k (f u) r', hit, stored_k) refl
    | inr e ↦
        let miss : ((f u).id == k) ≡ false = rw at_u e in
        rw (get-save k (f u) r', miss, reads k)
          (amended-others f g r u.id k (get k r) valid refl e others)
  ];
}

module _ (r : StrategyRegistry) (valid : IsValid r) where
  -- Promoting a stored version once the other active ones of its strategy are retired.
  pub promote-Amends :
      (now : ℕ) (u : StrategyVersion) (r' : StrategyRegistry)
      → get u.id r ≡ some u
      → ((s : String) → ids s r' ≡ ids s r)
      → ((k : String) → get k r' ≡ amended (superseded u.strategy_id u.id) (get k r))
      → Amends (promoted now u.strategy_id u.id) r (save (activated now u) r')
  promote-Amends now u r' stored lists reads =
      subst (λ (x : StrategyVersion). Amends (promoted now u.strategy_id u.id) r (save x r')) at_u
        (save-Amends (promoted now u.strategy_id u.id) (superseded u.strategy_id u.id) r r' u valid
          stored lists reads (ap (λ (x : StrategyVersion). x.id) at_u)
          (λ v h ne. rw (==_ne v.id u.id ne) refl))
    where
      at_u : promoted now u.strategy_id u.id u ≡ activated now u
      at_u = ground (arith, string_eq.same_iff u.id u.id)

  -- Activating a version that is not retired succeeds: it goes live now, every active sibling is
  -- retired, and all else is as it was.
  pub activate-Amends :
      (now : ℕ) (at_entry : StrategyRegistry) (version_id : String)
      (target current : StrategyVersion)
      → get version_id at_entry ≡ some target
      → get version_id r ≡ some current
      → current.status ≢ retired
      → (r' : StrategyRegistry) × (activate now version_id at_entry r
          ≡ ok (activated now current, r'))
        × Amends (promoted now current.strategy_id current.id) r r'
  unfolding activate
  activate-Amends now at_entry version_id target current seen stored live = (
    save (activated now current) rest,
    (let open_status : status_retired current.status ≡ false = ground arith in
        rw (seen, stored, open_status) refl),
    promote-Amends now current rest
        (subst (λ i. get i r ≡ some current) (sym (valid.keyed version_id current stored)) stored)
        (λ s. ids-retire_all r valid s current.strategy_id current.id)
        (get-retire_all r valid current.strategy_id current.id),
  )
    where
      rest : StrategyRegistry
      rest = retire_siblings current.id (list_for_strategy current.strategy_id r) r

  -- Retiring a version rewrites its status alone.
  pub retire-Amends :
      (allow : Bool) (at_entry : StrategyRegistry) (version_id : String)
      (target current : StrategyVersion)
      → get version_id at_entry ≡ some target
      → get version_id r ≡ some current
      → (allow ≡ true) ⊎ (current.status ≢ active)
      → (r' : StrategyRegistry) × (retire version_id allow at_entry r
          ≡ ok (with_status retired current, r'))
        × Amends (retired_at current.id) r r'
  unfolding retire
  retire-Amends allow at_entry version_id target current seen stored may = (
    save (with_status retired current) r,
    (let test : (status_active current.status && not allow) ≡ false = ground arith in
        rw (seen, stored, test) refl),
    subst (λ (x : StrategyVersion). Amends f r (save x r)) at_u
        (save-Amends f (λ v. v) r r current valid stored' (λ s. refl)
          (λ k. sym (amended_id (get k r))) (ap (λ (x : StrategyVersion). x.id) at_u)
          (λ v h ne. rw (==_ne v.id current.id ne) refl)),
  )
    where
      stored' : get current.id r ≡ some current
      stored' =
          subst (λ i. get i r ≡ some current) (sym (valid.keyed version_id current stored)) stored

      f : StrategyVersion → StrategyVersion
      f = retired_at current.id

      at_u : f current ≡ with_status retired current
      at_u = ground (arith, string_eq.same_iff current.id current.id)
