-- ===== src/Versioning/Invariant.antt =====
-- What holds of the registry between operations.
use nexus_trade_engine.Prelude.{String, ◌≡◌, ap, sym, subst, ◌∙◌, some, In}
use nexus_trade_engine.Versioning.{
  StrategyVersion, StrategyRegistry, active, new, get, ids, list_for_strategy,
}
use nexus_trade_engine.Versioning.Laws.{stored_versions-In, stored_versions-get}

-- A version stands under its own identifier, which stands in its strategy's list, and nothing else
-- is listed; within a strategy one version at most is active, and no two versions have one number
-- or the same code and config.
pub record IsValid (r : StrategyRegistry) : Type 0 where
  pub keyed : (k : String) (v : StrategyVersion) → get k r ≡ some v → v.id ≡ k
  pub listed : (k : String) (v : StrategyVersion) → get k r ≡ some v → In (ids v.strategy_id r) k
  pub owned :
      (s k : String)
      → In (ids s r) k
      → (v : StrategyVersion) × (get k r ≡ some v) × (v.strategy_id ≡ s)
  pub one_active :
      (j k : String) (v w : StrategyVersion)
      → get j r ≡ some v
      → get k r ≡ some w
      → v.strategy_id ≡ w.strategy_id
      → v.status ≡ active
      → w.status ≡ active
      → j ≡ k
  pub one_number :
      (j k : String) (v w : StrategyVersion)
      → get j r ≡ some v
      → get k r ≡ some w
      → v.strategy_id ≡ w.strategy_id
      → v.version_number ≡ w.version_number
      → j ≡ k
  pub one_content :
      (j k : String) (v w : StrategyVersion)
      → get j r ≡ some v
      → get k r ≡ some w
      → v.strategy_id ≡ w.strategy_id
      → v.code_hash ≡ w.code_hash
      → v.config_hash ≡ w.config_hash
      → j ≡ k

pub new-IsValid : IsValid new
unfolding new get ids
new-IsValid = record {
  keyed = λ k v h. cc;
  listed = λ k v h. cc;
  owned = λ s k h. absurd h;
  one_active = λ j k v w h. cc;
  one_number = λ j k v w h. cc;
  one_content = λ j k v w h. cc;
}

module _ (r : StrategyRegistry) (valid : IsValid r) where
  -- A stored version is among those listed for its strategy.
  pub get-listed :
      (k : String) (v : StrategyVersion)
      → get k r ≡ some v
      → In (list_for_strategy v.strategy_id r) v
  unfolding list_for_strategy
  get-listed k v h = stored_versions-In r (ids v.strategy_id r) k v (valid.listed k v h) h

  -- A version that is listed for a strategy is its own, and is stored.
  pub listed-get :
      (s : String) (v : StrategyVersion)
      → In (list_for_strategy s r) v
      → (get v.id r ≡ some v) × (v.strategy_id ≡ s)
  unfolding list_for_strategy
  listed-get s v h =
      let (k, listed_k, stored) = stored_versions-get r (ids s r) v h in
      let (w, stored_w, owned_w) = valid.owned s k listed_k in
      let at_id : v.id ≡ k = valid.keyed k v stored in
      let same : w ≡ v = cc in
      (
        subst (λ i. get i r ≡ some v) (sym at_id) stored,
        sym (ap (λ (x : StrategyVersion). x.strategy_id) same) ∙ owned_w,
      )
