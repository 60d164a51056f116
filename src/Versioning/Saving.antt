-- ===== src/Versioning/Saving.antt =====
-- Saving a version that the registry did not hold.
use nexus_trade_engine.Prelude.{
  String, ◌≡◌, ◌≢◌, ◌⊎◌, inl, inr, ap, sym, subst, ◌∙◌, none, some, false, arith, In, ◌==◌, ==_refl,
  ==_ne, string_eq, Bool-cases, [], ◌∷◌, Any-append, Any-split, Any-last,
}
use nexus_trade_engine.Versioning.{
  StrategyVersion, StrategyRegistry, active, get, ids, save, list_for_strategy, has_hashes,
}
use nexus_trade_engine.Versioning.Laws.{get-save, get-save_self, ids-save_new}
use nexus_trade_engine.Versioning.Invariant.{IsValid, get-listed}

module _ (r : StrategyRegistry) (valid : IsValid r) (u : StrategyVersion)
    (fresh : get u.id r ≡ none) where
  saved-cases :
      (k : String) (v : StrategyVersion)
      → get k (save u r) ≡ some v
      → ((u.id ≡ k) × (u ≡ v)) ⊎ (get k r ≡ some v)
  saved-cases k v h = elim (Bool-cases (u.id == k)) [
    | inl e ↦ inl ((string_eq.same_iff u.id k).0 e, ground (arith, get-save k u r, h, e))
    | inr e ↦ inr (ground (arith, get-save k u r, h, e))
  ]

  -- Versions of one strategy that stand in the relation are one.
  abbrev Apart : (StrategyVersion → StrategyVersion → Type 0) → StrategyRegistry → Type 0
  Apart Q t =
      (j k : String) (v w : StrategyVersion)
      → get j t ≡ some v
      → get k t ≡ some w
      → v.strategy_id ≡ w.strategy_id
      → Q v w
      → j ≡ k

  save-Apart :
      (Q : StrategyVersion → StrategyVersion → Type 0)
      → ((v w : StrategyVersion) → Q v w → Q w v)
      → ((k : String) (w : StrategyVersion)
          → get k r ≡ some w
          → w.strategy_id ≡ u.strategy_id
          → ¬ Q w u)
      → Apart Q r
      → Apart Q (save u r)
  save-Apart Q sym_Q apart old j k v w h i own q = elim (saved-cases j v h) [
    | inl (at_j, is_u) ↦ elim (saved-cases k w i) [
      | inl (at_k, is_u') ↦ sym at_j ∙ at_k
      | inr i' ↦ absurd (
          apart k w i' (sym own ∙ sym (ap (λ (x : StrategyVersion). x.strategy_id) is_u))
            (subst (λ x. Q w x) (sym is_u) (sym_Q v w q)))
    ]
    | inr h' ↦ elim (saved-cases k w i) [
      | inl (at_k, is_u') ↦ absurd (
          apart j v h' (own ∙ sym (ap (λ (x : StrategyVersion). x.strategy_id) is_u'))
            (subst (λ x. Q v x) (sym is_u') q))
      | inr i' ↦ old j k v w h' i' own q
    ]
  ]

  get-save_old : (k : String) (v : StrategyVersion) → get k r ≡ some v → get k (save u r) ≡ some v
  get-save_old k v h =
      let ne : u.id ≢ k =
        λ e. let clash : get u.id r ≡ some v = subst (λ i. get i r ≡ some v) (sym e) h in cc in
      rw (get-save k u r, ==_ne u.id k ne) h

  ids-save_old : (s k : String) → In (ids s r) k → In (ids s (save u r)) k
  ids-save_old s k h = elim (Bool-cases (u.strategy_id == s)) [
    | inl e ↦ rw (ids-save_new s u r fresh, e) (Any-append (λ y. y ≡ k) (ids s r) (u.id ∷ []) h)
    | inr e ↦ rw (ids-save_new s u r fresh, e) h
  ]

  save-listed :
      (k : String) (v : StrategyVersion)
      → get k (save u r) ≡ some v
      → In (ids v.strategy_id (save u r)) k
  save-listed k v h = elim (saved-cases k v h) [
    | inl (at_k, is_u) ↦
        subst (λ (x : StrategyVersion). In (ids x.strategy_id (save u r)) k) is_u
          (rw (ids-save_new u.strategy_id u r fresh, ==_refl u.strategy_id)
            (Any-last (λ y. y ≡ k) (ids u.strategy_id r) u.id at_k))
    | inr old ↦ ids-save_old v.strategy_id k (valid.listed k v old)
  ]

  ids-save_split :
      (s k : String) → In (ids s (save u r)) k → In (ids s r) k ⊎ ((u.id ≡ k) × (u.strategy_id ≡ s))
  ids-save_split s k = elim (Bool-cases (u.strategy_id == s)) [
    | inl e ↦
        rw (ids-save_new s u r fresh, e)
          λ h. elim (Any-split (λ y. y ≡ k) (ids s r) (u.id ∷ []) h) [
            | inl old ↦ inl old
            | inr (inl here) ↦ inr (here, (string_eq.same_iff u.strategy_id s).0 e)
            | inr (inr none_left) ↦ absurd none_left
          ]
    | inr e ↦ rw (ids-save_new s u r fresh, e) λ h. inl h
  ]

  save-owned :
      (s k : String)
      → In (ids s (save u r)) k
      → (v : StrategyVersion) × (get k (save u r) ≡ some v) × (v.strategy_id ≡ s)
  save-owned s k h = elim (ids-save_split s k h) [
    | inl old ↦ let (v, stored, own) = valid.owned s k old in (v, get-save_old k v stored, own)
    | inr (at_k, own) ↦ (u, subst (λ i. get i (save u r) ≡ some u) at_k (get-save_self u r), own)
  ]

  -- Saving a new version keeps the registry valid when it is not active and its number and content
  -- are new to its strategy.
  pub save-IsValid :
      u.status ≢ active
      → ((v : StrategyVersion)
          → In (list_for_strategy u.strategy_id r) v
          → (v.version_number ≢ u.version_number)
            × (has_hashes u.code_hash u.config_hash v ≡ false))
      → IsValid (save u r)
  save-IsValid idle differs = record {
    keyed = λ k v h. elim (saved-cases k v h) [
      | inl (at_k, is_u) ↦ sym (ap (λ (x : StrategyVersion). x.id) is_u) ∙ at_k
      | inr old ↦ valid.keyed k v old
    ];
    listed = save-listed;
    owned = save-owned;
    one_active = λ j k v w h i own live live'.
        save-Apart (λ x y. (x.status ≡ active) × (y.status ≡ active)) (λ x y q. (q.1, q.0))
          (λ k w h own q. idle q.1) (λ j k v w h i own q. valid.one_active j k v w h i own q.0 q.1)
          j k v w h i own (live, live');
    one_number =
        save-Apart (λ x y. x.version_number ≡ y.version_number) (λ x y q. sym q)
          (λ k w h own q. (differs w (among k w h own)).0 q) valid.one_number;
    one_content = λ j k v w h i own code config.
        save-Apart (λ x y. (x.code_hash ≡ y.code_hash) × (x.config_hash ≡ y.config_hash))
          (λ x y q. (sym q.0, sym q.1))
          (λ k w h own q. ground (
            arith,
            (differs w (among k w h own)).1,
            q,
            string_eq.same_iff w.code_hash u.code_hash,
            string_eq.same_iff w.config_hash u.config_hash,
          ))
          (λ j k v w h i own q. valid.one_content j k v w h i own q.0 q.1) j k v w h i own
          (code, config);
  }
    where
      among :
          (k : String) (w : StrategyVersion)
          → get k r ≡ some w
          → w.strategy_id ≡ u.strategy_id
          → In (list_for_strategy u.strategy_id r) w
      among k w h own = subst (λ t. In (list_for_strategy t r) w) own (get-listed r valid k w h)
