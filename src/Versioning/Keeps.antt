-- ===== src/Versioning/Keeps.antt =====
-- Activating, rolling back and retiring keep the registry valid.
use nexus_trade_engine.Prelude.{
  ℕ, String, ◌≡◌, ◌≢◌, ◌⊎◌, inl, inr, refl, ap, sym, subst, ◌∙◌, Option, none, some, arith, In,
  string_eq,
}
use nexus_trade_engine.Versioning.{StrategyVersion, StrategyRegistry, active, get, ids}
use nexus_trade_engine.Versioning.Siblings.{amended}
use nexus_trade_engine.Versioning.Invariant.{IsValid}
use nexus_trade_engine.Versioning.Updates.{Amends, promoted, retired_at}

-- What no rewriting touches.
pub record Frame (v w : StrategyVersion) : Type 0 where
  pub id : v.id ≡ w.id
  pub strategy_id : v.strategy_id ≡ w.strategy_id
  pub version_number : v.version_number ≡ w.version_number
  pub code_hash : v.code_hash ≡ w.code_hash
  pub config_hash : v.config_hash ≡ w.config_hash

pub amended-some :
    (f : StrategyVersion → StrategyVersion) (o : Option StrategyVersion) (v : StrategyVersion)
    → amended f o ≡ some v
    → (u : StrategyVersion) × (o ≡ some u) × (f u ≡ v)
amended-some f none v h = cc
amended-some f (some u) v h = (u, refl, cc)

module _ (f : StrategyVersion → StrategyVersion) (r r' : StrategyRegistry) (valid : IsValid r)
    (amends : Amends f r r') (frame : (v : StrategyVersion) → Frame (f v) v) where
  before :
      (k : String) (v : StrategyVersion)
      → get k r' ≡ some v
      → (u : StrategyVersion) × (get k r ≡ some u) × Frame v u × (f u ≡ v)
  before k v h =
      let (u, stored, same) = amended-some f (get k r) v (sym (amends.reads k) ∙ h) in
      (u, stored, subst (λ x. Frame x u) same (frame u), same)

  Amends-IsValid :
      ((j k : String) (v w : StrategyVersion)
        → get j r ≡ some v
        → get k r ≡ some w
        → v.strategy_id ≡ w.strategy_id
        → (f v).status ≡ active
        → (f w).status ≡ active
        → j ≡ k)
      → IsValid r'
  Amends-IsValid one_active = record {
    keyed = λ k v h. let (u, stored, same, e) = before k v h in same.id ∙ valid.keyed k u stored;
    listed = λ k v h.
        let (u, stored, same, e) = before k v h in
        subst (λ l. In l k) (sym (amends.lists v.strategy_id))
          (subst (λ s. In (ids s r) k) (sym same.strategy_id) (valid.listed k u stored));
    owned = λ s k h.
        let (v, stored, own) = valid.owned s k (subst (λ l. In l k) (amends.lists s) h) in
        (f v, amends.reads k ∙ ap (amended f) stored, (frame v).strategy_id ∙ own);
    one_active = λ j k v w h i own live live'.
        let (a, stored_a, same_a, e) = before j v h in
        let (b, stored_b, same_b, e') = before k w i in
        one_active j k a b stored_a stored_b (sym same_a.strategy_id ∙ own ∙ same_b.strategy_id)
          (ap (λ (x : StrategyVersion). x.status) e ∙ live)
          (ap (λ (x : StrategyVersion). x.status) e' ∙ live');
    one_number = λ j k v w h i own number.
        let (a, stored_a, same_a, e) = before j v h in
        let (b, stored_b, same_b, e') = before k w i in
        valid.one_number j k a b stored_a stored_b
          (sym same_a.strategy_id ∙ own ∙ same_b.strategy_id)
          (sym same_a.version_number ∙ number ∙ same_b.version_number);
    one_content = λ j k v w h i own code config.
        let (a, stored_a, same_a, e) = before j v h in
        let (b, stored_b, same_b, e') = before k w i in
        valid.one_content j k a b stored_a stored_b
          (sym same_a.strategy_id ∙ own ∙ same_b.strategy_id)
          (sym same_a.code_hash ∙ code ∙ same_b.code_hash)
          (sym same_a.config_hash ∙ config ∙ same_b.config_hash);
  }

promoted-Frame : (now : ℕ) (s k : String) (v : StrategyVersion) → Frame (promoted now s k v) v
promoted-Frame now s k v = ground arith

-- What is live after a promotion: the promoted version, and those of other strategies.
promoted-live :
    (now : ℕ) (s k : String) (v : StrategyVersion)
    → (promoted now s k v).status ≡ active
    → (v.id ≡ k) ⊎ ((v.strategy_id ≢ s) × (v.status ≡ active))
promoted-live now s k v h =
    ground (arith, string_eq.same_iff v.id k, string_eq.same_iff v.strategy_id s)

retired_at-Frame : (k : String) (v : StrategyVersion) → Frame (retired_at k v) v
retired_at-Frame k v = ground arith

module _ (r r' : StrategyRegistry) (valid : IsValid r) where
  same_version :
      (j : String) (u v : StrategyVersion)
      → get u.id r ≡ some u
      → get j r ≡ some v
      → v.id ≡ u.id
      → v ≡ u
  same_version j u v stored h e =
      let at_j : v.id ≡ j = valid.keyed j v h in
      let here : get u.id r ≡ some v = subst (λ i. get i r ≡ some v) (sym at_j ∙ e) h in cc

  promoted_alone :
      (now : ℕ) (j k : String) (u v w : StrategyVersion)
      → get u.id r ≡ some u
      → get j r ≡ some v
      → get k r ≡ some w
      → v.strategy_id ≡ w.strategy_id
      → (v.id ≡ u.id) ⊎ ((v.strategy_id ≢ u.strategy_id) × (v.status ≡ active))
      → (w.id ≡ u.id) ⊎ ((w.strategy_id ≢ u.strategy_id) × (w.status ≡ active))
      → j ≡ k
  promoted_alone now j k u v w stored h i own (inl e) (inl e') =
      sym (valid.keyed j v h) ∙ e ∙ sym e' ∙ valid.keyed k w i
  promoted_alone now j k u v w stored h i own (inl e) (inr (other, live)) = absurd (
      other (sym own ∙ ap (λ (x : StrategyVersion). x.strategy_id) (same_version j u v stored h e)))
  promoted_alone now j k u v w stored h i own (inr (other, live)) (inl e) =
      absurd
        (other (own ∙ ap (λ (x : StrategyVersion). x.strategy_id) (same_version k u w stored i e)))
  promoted_alone now j k u v w stored h i own (inr (other, live)) (inr (other', live')) =
      valid.one_active j k v w h i own live live'

  -- A promotion leaves one active version of the strategy: the promoted one.
  pub promoted-IsValid :
      (now : ℕ) (u : StrategyVersion)
      → get u.id r ≡ some u
      → Amends (promoted now u.strategy_id u.id) r r'
      → IsValid r'
  promoted-IsValid now u stored amends =
      Amends-IsValid (promoted now u.strategy_id u.id) r r' valid amends
        (promoted-Frame now u.strategy_id u.id)
        λ j k v w h i own live live'.
          promoted_alone now j k u v w stored h i own (promoted-live now u.strategy_id u.id v live)
            (promoted-live now u.strategy_id u.id w live')

  pub retired_at-IsValid : (u : String) → Amends (retired_at u) r r' → IsValid r'
  retired_at-IsValid u amends =
      Amends-IsValid (retired_at u) r r' valid amends (retired_at-Frame u)
        λ j k v w h i own live live'.
          valid.one_active j k v w h i own (ground (arith, live)) (ground (arith, live'))
