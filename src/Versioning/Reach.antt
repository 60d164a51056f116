-- ===== src/Versioning/Reach.antt =====
-- The registries that the operations reach, and rolling back an activation.
use nexus_trade_engine.Prelude.{
  ℕ, ◌<◌, String, ◌≡◌, ◌≢◌, ◌⊎◌, inl, inr, refl, ap, sym, subst, ◌∙◌, Option, none, some, Bool,
  true, arith, string_eq, List, ok,
}
use nexus_trade_engine.Versioning.{
  StrategyVersion, StrategyRegistry, active, retired, new, get, with_status, activated, activation,
  was_activated, get_active, deploy, activate, rollback, retire,
}
use nexus_trade_engine.Versioning.Siblings.{amended}
use nexus_trade_engine.Versioning.Invariant.{IsValid, new-IsValid}
use nexus_trade_engine.Versioning.Updates.{Amends, promoted}
use nexus_trade_engine.Versioning.Keeps.{amended-some}
use nexus_trade_engine.Versioning.Rollback.{WasLive, rollback-Amends}
use nexus_trade_engine.Versioning.Deploy.{deploy-IsValid}
use nexus_trade_engine.Versioning.Active.{
  get_active_iff, activate-ok, activate-IsValid, retire-IsValid, rollback-IsValid,
}

module _ {Config : Type 0} (sha256 : List ℕ → String) (dumps : Config → Option (List ℕ)) where
  -- A call that does not raise, and the registry it leaves. The identifier that a deployment draws
  -- is not in use, as uuid4 promises; what an operation read before it held the lock is any
  -- registry.
  pub data Step (r r' : StrategyRegistry) : Type 0 where
    deploys :
        (now : ℕ) (uuid strategy_id : String) (code : List ℕ) (config : Config)
        (v : StrategyVersion)
        → get uuid r ≡ none
        → deploy sha256 dumps now uuid strategy_id code config r ≡ ok (v, r')
        → Step r r'
    activates :
        (now : ℕ) (version_id : String) (at_entry : StrategyRegistry) (v : StrategyVersion)
        → activate now version_id at_entry r ≡ ok (v, r')
        → Step r r'
    rolls_back :
        (now : ℕ) (strategy_id : String) (v : StrategyVersion)
        → rollback now strategy_id r ≡ ok (v, r')
        → Step r r'
    retires :
        (version_id : String) (allow : Bool) (at_entry : StrategyRegistry) (v : StrategyVersion)
        → retire version_id allow at_entry r ≡ ok (v, r')
        → Step r r'

  -- The registries that calls reach from the empty one.
  pub data Reached : StrategyRegistry → Type 0 where
    start : Reached new
    after : (r r' : StrategyRegistry) → Reached r → Step r r' → Reached r'

  Step-IsValid : (r r' : StrategyRegistry) → IsValid r → Step r r' → IsValid r'
  Step-IsValid r r' valid (deploys now uuid s code config v fresh h) =
      deploy-IsValid sha256 dumps now uuid s code config r r' v valid fresh h
  Step-IsValid r r' valid (activates now k at_entry v h) =
      activate-IsValid r r' v valid now k at_entry h
  Step-IsValid r r' valid (rolls_back now s v h) = rollback-IsValid r r' v valid now s h
  Step-IsValid r r' valid (retires k allow at_entry v h) =
      retire-IsValid r r' v valid k allow at_entry h

  -- However the calls of the operations follow one another, the registry is valid.
  pub Reached-IsValid : (r : StrategyRegistry) → Reached r → IsValid r
  Reached-IsValid r start = new-IsValid
  Reached-IsValid _ (after r r' before step) = Step-IsValid r r' (Reached-IsValid r before) step

-- A version that is retired after a promotion was so before, or the promotion retired it.
promoted-retired :
    (now : ℕ) (s k : String) (x : StrategyVersion)
    → (promoted now s k x).status ≡ retired
    → (promoted now s k x ≡ x)
      ⊎ ((x.status ≡ active) × (x.strategy_id ≡ s) × (promoted now s k x ≡ with_status retired x))
promoted-retired now s k x status = ground (arith, string_eq.same_iff x.strategy_id s)

-- Two registries before and after a version of the strategy was promoted in the place of `v`.
module _ (r r' : StrategyRegistry) (valid : IsValid r) (valid' : IsValid r') (now : ℕ) (s : String)
    (v w : StrategyVersion) (stored : get v.id r ≡ some v) (own : v.strategy_id ≡ s)
    (live : v.status ≡ active) (other : v.id ≢ w.id)
    (amends : Amends (promoted now s w.id) r r') where
  -- The version that was active is retired.
  superseded-WasLive : was_activated v ≡ true → WasLive r' s (with_status retired v)
  superseded-WasLive was = (
    amends.reads v.id ∙ ap (amended (promoted now s w.id)) stored ∙ ap some change,
    own,
    refl,
    was,
  )
    where
      change : promoted now s w.id v ≡ with_status retired v
      change = ground (
        arith,
        live,
        other,
        own,
        string_eq.same_iff v.id w.id,
        string_eq.same_iff v.strategy_id s,
      )

  -- What is retired now was retired before, or is that version.
  WasLive-before :
      (u : StrategyVersion) → WasLive r' s u → (u ≡ with_status retired v) ⊎ WasLive r s u
  WasLive-before u (stored_u, own_u, status, was) =
      let (x, stored_x, same) =
        amended-some (promoted now s w.id) (get u.id r) u (sym (amends.reads u.id) ∙ stored_u) in
      let status_x : (promoted now s w.id x).status ≡ retired =
        subst (λ (y : StrategyVersion). y.status ≡ retired) (sym same) status in
      elim (promoted-retired now s w.id x status_x) [
        | inl kept ↦
            let x_is_u : x ≡ u = sym kept ∙ same in
            inr (ap (λ _. get u.id r) x_is_u ∙ stored_x ∙ ap some x_is_u, own_u, status, was)
        | inr (live_x, own_x, change) ↦
            let at_v : u.id ≡ v.id =
              valid.one_active u.id v.id x v stored_x stored (own_x ∙ sym own) live_x live in
            let here : get v.id r ≡ some x = subst (λ i. get i r ≡ some x) at_v stored_x in
            let x_is_v : x ≡ v = cc in inl (sym same ∙ change ∙ ap (with_status retired) x_is_v)
      ]

  -- So rolling back brings the version back that was active, when it went live after those that
  -- had been retired.
  rollback-promoted :
      (later : ℕ)
      → was_activated v ≡ true
      → ((u : StrategyVersion) → WasLive r s u → activation u < activation v)
      → (r'' : StrategyRegistry) × (rollback later s r' ≡ ok (activated later v, r''))
  rollback-promoted later was latest =
      let (previous, r'', e, chosen, largest, amends') =
        rollback-Amends r' valid' s later (with_status retired v) (superseded-WasLive was) in
      elim (WasLive-before previous chosen) [
        | inl same ↦ (r'', e ∙ ap (λ (x : StrategyVersion). ok (activated later x, r'')) same)
        | inr old ↦ absurd (
            omega (
              arith,
              latest previous old,
              largest (with_status retired v) (superseded-WasLive was),
            ))
      ]

-- Rolling back an activation makes the version active again that was active before it, when that
-- version went live after every version that had been retired by then.
pub rollback-activate :
    (r r' at_entry : StrategyRegistry) (now later : ℕ) (version_id : String) (v w : StrategyVersion)
    → IsValid r
    → get_active w.strategy_id r ≡ some v
    → was_activated v ≡ true
    → v.id ≢ w.id
    → ((u : StrategyVersion) → WasLive r w.strategy_id u → activation u < activation v)
    → activate now version_id at_entry r ≡ ok (w, r')
    → (r'' : StrategyRegistry) × (rollback later w.strategy_id r' ≡ ok (activated later v, r''))
rollback-activate r r' at_entry now later version_id v w valid current was other latest h =
    let (stored, own, live) = (get_active_iff w.strategy_id r v valid).0 current in
    let (current', stored_w, same, amends) = activate-ok now version_id at_entry r r' w valid h in
    let amends_w : Amends (promoted now w.strategy_id w.id) r r' =
      subst (λ (y : StrategyVersion). Amends (promoted now y.strategy_id y.id) r r') (sym same)
        amends in
    rollback-promoted r r' valid (activate-IsValid r r' w valid now version_id at_entry h) now
      w.strategy_id v w stored own live other amends_w later was latest
