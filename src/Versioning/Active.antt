-- ===== src/Versioning/Active.antt =====
-- The active version of a strategy, and every registry that the operations reach.
use nexus_trade_engine.Prelude.{
  ℕ, String, ◌≡◌, ◌≢◌, ◌↔◌, ◌⊎◌, inl, inr, ap, sym, subst, ◌∙◌, Option, none, some, Bool, true,
  arith, In, string_eq, Option-cases, Outcome, ok, >>=-eq-ok, raise_if, ◌&&◌, not,
}
use nexus_trade_engine.Versioning.{
  StrategyVersion, StrategyRegistry, active, retired, get, list_for_strategy, activated, found,
  first_version, status_of_active, status_active, status_retired, is_retired, is_active, get_active,
  activate, rollback, retire,
}
use nexus_trade_engine.Versioning.Laws.{first_version-In, first_version-none}
use nexus_trade_engine.Versioning.Invariant.{IsValid, get-listed, listed-get}
use nexus_trade_engine.Versioning.Updates.{Amends, promoted, activate-Amends, retire-Amends}
use nexus_trade_engine.Versioning.Rollback.{rollback-Amends, rollback-some}
use nexus_trade_engine.Versioning.Keeps.{promoted-IsValid, retired_at-IsValid}

found-some :
    (k : String) (o : Option StrategyVersion) (v : StrategyVersion) → found k o ≡ ok v → o ≡ some v
found-some k none v h = cc
found-some k (some w) v h = cc

-- Every activation that does not raise is the one that `activate-Amends` describes.
activate-eq-ok :
    (now : ℕ) (k : String) (at_entry r r' : StrategyRegistry) (v : StrategyVersion)
    → activate now k at_entry r ≡ ok (v, r')
    → (target : StrategyVersion) × (current : StrategyVersion) × (get k at_entry ≡ some target)
      × (get k r ≡ some current)
      × (current.status ≢ retired)
unfolding activate
activate-eq-ok now k at_entry r r' v h =
    let (target, seen, h1) = >>=-eq-ok (found k (get k at_entry)) _ h in
    let (current, stored, h2) = >>=-eq-ok (found k (get k r)) _ h1 in
    let (checked, open_status, h3) =
      >>=-eq-ok (raise_if (status_retired current.status) (is_retired k)) _ h2 in
    (
      target,
      current,
      found-some k (get k at_entry) target seen,
      found-some k (get k r) current stored,
      λ e. ground (arith, open_status, e),
    )

retire-eq-ok :
    (k : String) (allow : Bool) (at_entry r r' : StrategyRegistry) (v : StrategyVersion)
    → retire k allow at_entry r ≡ ok (v, r')
    → (target : StrategyVersion) × (current : StrategyVersion) × (get k at_entry ≡ some target)
      × (get k r ≡ some current)
      × ((allow ≡ true) ⊎ (current.status ≢ active))
unfolding retire
retire-eq-ok k allow at_entry r r' v h =
    let (target, seen, h1) = >>=-eq-ok (found k (get k at_entry)) _ h in
    let (current, stored, h2) = >>=-eq-ok (found k (get k r)) _ h1 in
    let (checked, may, h3) =
      >>=-eq-ok (raise_if (status_active current.status && not allow) (is_active k)) _ h2 in
    (
      target,
      current,
      found-some k (get k at_entry) target seen,
      found-some k (get k r) current stored,
      ground (arith, may),
    )

-- What a call returns beside the version, when it does not raise.
same_registry :
    {v w : StrategyVersion} {r' r'' : StrategyRegistry} {E : Type 0}
    {o : Outcome E (StrategyVersion × StrategyRegistry)}
    → o ≡ ok (v, r')
    → o ≡ ok (w, r'')
    → r'' ≡ r'
same_registry h e = cc

-- What an activation that does not raise returns and does to the registry.
pub activate-ok :
    (now : ℕ) (k : String) (at_entry r r' : StrategyRegistry) (v : StrategyVersion)
    → IsValid r
    → activate now k at_entry r ≡ ok (v, r')
    → (current : StrategyVersion) × (get current.id r ≡ some current)
      × (v ≡ activated now current)
      × Amends (promoted now current.strategy_id current.id) r r'
activate-ok now k at_entry r r' v valid h =
    let (target, current, seen, stored, live) = activate-eq-ok now k at_entry r r' v h in
    let (r'', e, amends) = activate-Amends r valid now at_entry k target current seen stored live in
    (
      current,
      subst (λ i. get i r ≡ some current) (sym (valid.keyed k current stored)) stored,
      cc,
      subst (Amends (promoted now current.strategy_id current.id) r) (same_registry h e) amends,
    )

module _ (r r' : StrategyRegistry) (v : StrategyVersion) (valid : IsValid r) where
  pub activate-IsValid :
      (now : ℕ) (k : String) (at_entry : StrategyRegistry)
      → activate now k at_entry r ≡ ok (v, r')
      → IsValid r'
  activate-IsValid now k at_entry h =
      let (current, stored, same, amends) = activate-ok now k at_entry r r' v valid h in
      promoted-IsValid r r' valid now current stored amends

  pub retire-IsValid :
      (k : String) (allow : Bool) (at_entry : StrategyRegistry)
      → retire k allow at_entry r ≡ ok (v, r')
      → IsValid r'
  retire-IsValid k allow at_entry h =
      let (target, current, seen, stored, may) = retire-eq-ok k allow at_entry r r' v h in
      let (r'', e, amends) =
        retire-Amends r valid allow at_entry k target current seen stored may in
      subst IsValid (same_registry h e) (retired_at-IsValid r r'' valid current.id amends)

  pub rollback-IsValid : (now : ℕ) (s : String) → rollback now s r ≡ ok (v, r') → IsValid r'
  rollback-IsValid now s h =
      let (w, live) = rollback-some r valid s now v r' h in
      let (previous, r'', e, chosen, latest, amends) = rollback-Amends r valid s now w live in
      let (stored, own, status, was) = chosen in
      let here : Amends (promoted now previous.strategy_id previous.id) r r'' =
        subst (λ t. Amends (promoted now t previous.id) r r'') (sym own) amends in
      subst IsValid (same_registry h e) (promoted-IsValid r r'' valid now previous stored here)

get_active_stored :
    (s : String) (r : StrategyRegistry) (v : StrategyVersion)
    → IsValid r
    → get v.id r ≡ some v
    → v.strategy_id ≡ s
    → v.status ≡ active
    → get_active s r ≡ some v
unfolding get_active
get_active_stored s r v valid stored own live =
    let among : In (list_for_strategy s r) v =
      subst (λ t. In (list_for_strategy t r) v) own (get-listed r valid v.id v stored) in
    elim (Option-cases (first_version status_of_active (list_for_strategy s r))) [
      | inl e ↦
          ground
            (arith, live, first_version-none status_of_active (list_for_strategy s r) v e among)
      | inr (w, e) ↦
          let (among_w, test) = first_version-In status_of_active (list_for_strategy s r) w e in
          let (stored_w, own_w) = listed-get r valid s w among_w in
          let live_w : w.status ≡ active = ground (arith, test) in
          let at_v : w.id ≡ v.id =
            valid.one_active w.id v.id w v stored_w stored (own_w ∙ sym own) live_w live in
          let here : get v.id r ≡ some w = subst (λ i. get i r ≡ some w) at_v stored_w in
          let same : w ≡ v = cc in e ∙ ap some same
    ]

-- The active version of a strategy is the one that is stored, its own and active.
pub get_active_iff :
    (s : String) (r : StrategyRegistry) (v : StrategyVersion)
    → IsValid r
    → (get_active s r ≡ some v)
      ↔ ((get v.id r ≡ some v) × (v.strategy_id ≡ s) × (v.status ≡ active))
unfolding get_active
get_active_iff s r v valid = (
  (λ h.
      let (among, test) = first_version-In status_of_active (list_for_strategy s r) v h in
      let (stored, own) = listed-get r valid s v among in (stored, own, ground (arith, test))),
  (λ (stored, own, live). get_active_stored s r v valid stored own live),
)
