-- ===== src/Versioning/Deploy.antt =====
-- Deploying: content that is known is found again, and new content gets a number of its own.
use nexus_trade_engine.Prelude.{
  ℕ, ◌≤◌, ◌<◌, String, ◌≡◌, ◌⊎◌, inl, inr, refl, ap, subst, ◌∙◌, Option, none, some, Bool, true,
  false, arith, In, ==_refl, string_eq, Option-cases, List, [], ◌∷◌, ok, >>=-eq-ok, raise_if, not,
  ltb, length,
}
use nexus_trade_engine.Versioning.{
  StrategyVersion, StrategyRegistry, get, save, list_for_strategy, has_hashes, first_version,
  find_by_hashes, max_version_number, new_version, register, deploy, canonical_config_hash,
  empty_code, code_too_large, max_code_size_bytes,
}
use nexus_trade_engine.Versioning.Laws.{get-save_self, first_version-In, first_version-none}
use nexus_trade_engine.Versioning.Saving.{save-IsValid}
use nexus_trade_engine.Versioning.Invariant.{IsValid, get-listed, listed-get}

max_version_number-ge :
    (vs : List StrategyVersion) (v : StrategyVersion)
    → In vs v
    → v.version_number ≤ max_version_number vs
unfolding max_version_number
max_version_number-ge [] v h = absurd h
max_version_number-ge (w ∷ vs) v (inl e) =
    ground (arith, ap (λ (x : StrategyVersion). x.version_number) e)
max_version_number-ge (w ∷ vs) v (inr h) = ground (arith, max_version_number-ge vs v h)

first_version-cases :
    (test : StrategyVersion → Bool) (vs : List StrategyVersion)
    → ((v : StrategyVersion) × (first_version test vs ≡ some v) × In vs v × (test v ≡ true))
      ⊎ ((first_version test vs ≡ none) × ((v : StrategyVersion) → In vs v → test v ≡ false))
first_version-cases test vs = elim (Option-cases (first_version test vs)) [
  | inl e ↦ inr (e, λ v h. first_version-none test vs v e h)
  | inr (v, e) ↦ inl (v, e, (first_version-In test vs v e).0, (first_version-In test vs v e).1)
]

-- A stored version is found by its content.
find_by_hashes_stored :
    (r : StrategyRegistry) (k : String) (v : StrategyVersion)
    → IsValid r
    → get k r ≡ some v
    → find_by_hashes v.strategy_id v.code_hash v.config_hash r ≡ some v
unfolding find_by_hashes
find_by_hashes_stored r k v valid stored =
    elim (first_version-cases (has_hashes v.code_hash v.config_hash)
      (list_for_strategy v.strategy_id r)) [
        | inl (w, e, among, test) ↦
            let (stored_w, own) = listed-get r valid v.strategy_id w among in
            let code : w.code_hash ≡ v.code_hash =
              ground (arith, test, string_eq.same_iff w.code_hash v.code_hash) in
            let config : w.config_hash ≡ v.config_hash =
              ground (arith, test, string_eq.same_iff w.config_hash v.config_hash) in
            let at_k : w.id ≡ k = valid.one_content w.id k w v stored_w stored own code config in
            let here : get k r ≡ some w = subst (λ i. get i r ≡ some w) at_k stored_w in
            let same : w ≡ v = cc in e ∙ ap some same
        | inr (e, differ) ↦ ground (
          arith,
          differ v (get-listed r valid k v stored),
          string_eq.same_iff v.code_hash v.code_hash,
          string_eq.same_iff v.config_hash v.config_hash,
        )
      ]

module _ (now : ℕ) (uuid strategy_id code_hash config_hash : String) (r : StrategyRegistry)
    (valid : IsValid r) where
  abbrev fresh_version : StrategyVersion
  fresh_version = new_version now uuid strategy_id code_hash config_hash r

  -- Registering either finds the content, and changes nothing, or saves a draft whose number is
  -- above those of the strategy.
  register-cases :
      ((v : StrategyVersion) × (register now uuid strategy_id code_hash config_hash r ≡ (v, r))
        × (get v.id r ≡ some v)
        × (v.strategy_id ≡ strategy_id)
        × (has_hashes code_hash config_hash v ≡ true))
      ⊎ ((register now uuid strategy_id code_hash config_hash r
            ≡ (fresh_version, save fresh_version r))
          × ((v : StrategyVersion)
              → In (list_for_strategy strategy_id r) v
              → (v.version_number < fresh_version.version_number)
                × (has_hashes code_hash config_hash v ≡ false)))
  unfolding register find_by_hashes new_version
  register-cases =
      elim (first_version-cases (has_hashes code_hash config_hash)
        (list_for_strategy strategy_id r)) [
          | inl (v, e, among, test) ↦ inl (
            v,
            rw (e, register, find_by_hashes) refl,
            (listed-get r valid strategy_id v among).0,
            (listed-get r valid strategy_id v among).1,
            test,
          )
          | inr (e, differ) ↦ inr (
            rw (e, register, find_by_hashes) refl,
            λ v h. (
              omega (arith, max_version_number-ge (list_for_strategy strategy_id r) v h),
              differ v h,
            ),
          )
        ]

  register-IsValid :
      get uuid r ≡ none → IsValid (register now uuid strategy_id code_hash config_hash r).1
  unfolding new_version
  register-IsValid fresh = elim register-cases [
    | inl (v, e, stored, own, test) ↦ rw e valid
    | inr (e, above) ↦ rw e (
        save-IsValid r valid fresh_version fresh (λ h. cc)
          (λ v h. (λ same. omega (arith, (above v h).0, same), (above v h).1)))
  ]

-- What registering returns is stored, under the strategy and the hashes that were asked for.
register-stored :
    (now : ℕ) (uuid strategy_id code_hash config_hash : String) (r : StrategyRegistry)
    → IsValid r
    → let (v, r') = register now uuid strategy_id code_hash config_hash r in
      (get v.id r' ≡ some v)
      × (v.strategy_id ≡ strategy_id)
      × (has_hashes code_hash config_hash v ≡ true)
unfolding new_version
register-stored now uuid strategy_id code_hash config_hash r valid =
    elim (register-cases now uuid strategy_id code_hash config_hash r valid) [
      | inl (v, e, stored, own, test) ↦ rw e (stored, own, test)
      | inr (e, above) ↦ rw e (
        get-save_self (new_version now uuid strategy_id code_hash config_hash r) r,
        refl,
        rw (==_refl code_hash) (==_refl config_hash),
      )
    ]

-- Registering content that is stored returns the version and leaves the registry.
register-known :
    (now : ℕ) (uuid strategy_id code_hash config_hash : String) (r : StrategyRegistry)
    (v : StrategyVersion)
    → IsValid r
    → get v.id r ≡ some v
    → v.strategy_id ≡ strategy_id
    → has_hashes code_hash config_hash v ≡ true
    → register now uuid strategy_id code_hash config_hash r ≡ (v, r)
unfolding register
register-known now uuid strategy_id code_hash config_hash r v valid stored own test =
    let code : v.code_hash ≡ code_hash =
      ground (arith, test, string_eq.same_iff v.code_hash code_hash) in
    let config : v.config_hash ≡ config_hash =
      ground (arith, test, string_eq.same_iff v.config_hash config_hash) in
    let found : find_by_hashes strategy_id code_hash config_hash r ≡ some v =
      subst (λ s. find_by_hashes s code_hash config_hash r ≡ some v) own
        (subst (λ h. find_by_hashes v.strategy_id h config_hash r ≡ some v) code
          (subst (λ h. find_by_hashes v.strategy_id v.code_hash h r ≡ some v) config
            (find_by_hashes_stored r v.id v valid stored))) in
    rw (found, register) refl

module _ {Config : Type 0} (sha256 : List ℕ → String) (dumps : Config → Option (List ℕ)) where
  -- What a deployment that does not raise registers.
  deploy-register :
      (now : ℕ) (uuid strategy_id : String) (code : List ℕ) (config : Config)
      (r r' : StrategyRegistry) (v : StrategyVersion)
      → deploy sha256 dumps now uuid strategy_id code config r ≡ ok (v, r')
      → (config_hash : String) × (register now uuid strategy_id (sha256 code) config_hash r
          ≡ (v, r'))
        × ((later : ℕ) (uuid' : String) (t : StrategyRegistry)
            → deploy sha256 dumps later uuid' strategy_id code config t
              ≡ ok (register later uuid' strategy_id (sha256 code) config_hash t))
  unfolding deploy
  deploy-register now uuid strategy_id code config r r' v h =
      let (checked, some_code, h1) =
        >>=-eq-ok (raise_if (not (ltb 0 (length code))) empty_code) _ h in
      let (small, fits, h2) =
        >>=-eq-ok (raise_if (ltb max_code_size_bytes (length code)) (code_too_large (length code)))
          _ h1 in
      let (config_hash, hashed, h3) = >>=-eq-ok (canonical_config_hash sha256 dumps config) _ h2 in
      (config_hash, cc, λ later uuid' t. rw (some_code, fits, hashed) refl)

  -- A deployment that does not raise keeps the registry valid.
  pub deploy-IsValid :
      (now : ℕ) (uuid strategy_id : String) (code : List ℕ) (config : Config)
      (r r' : StrategyRegistry) (v : StrategyVersion)
      → IsValid r
      → get uuid r ≡ none
      → deploy sha256 dumps now uuid strategy_id code config r ≡ ok (v, r')
      → IsValid r'
  deploy-IsValid now uuid strategy_id code config r r' v valid fresh h =
      let (config_hash, e, again) = deploy-register now uuid strategy_id code config r r' v h in
      subst (λ (p : StrategyVersion × StrategyRegistry). IsValid p.1) e
        (register-IsValid now uuid strategy_id (sha256 code) config_hash r valid fresh)

  -- Deploying the same code and config again, at whatever time and with whatever identifier drawn,
  -- returns the version that the first deployment returned and leaves the registry.
  pub deploy_again :
      (now later : ℕ) (uuid uuid' strategy_id : String) (code : List ℕ) (config : Config)
      (r r' : StrategyRegistry) (v : StrategyVersion)
      → IsValid r
      → get uuid r ≡ none
      → deploy sha256 dumps now uuid strategy_id code config r ≡ ok (v, r')
      → deploy sha256 dumps later uuid' strategy_id code config r' ≡ ok (v, r')
  deploy_again now later uuid uuid' strategy_id code config r r' v valid fresh h =
      let (config_hash, e, again) = deploy-register now uuid strategy_id code config r r' v h in
      let valid' : IsValid r' =
        deploy-IsValid now uuid strategy_id code config r r' v valid fresh h in
      let (stored, own, test) =
        subst
          (λ (p : StrategyVersion × StrategyRegistry).
            (get p.0.id p.1 ≡ some p.0)
            × (p.0.strategy_id ≡ strategy_id)
            × (has_hashes (sha256 code) config_hash p.0 ≡ true))
          e (register-stored now uuid strategy_id (sha256 code) config_hash r valid) in
      again later uuid' r'
      ∙ ap ok (
          register-known later uuid' strategy_id (sha256 code) config_hash r' v valid' stored own
            test)
