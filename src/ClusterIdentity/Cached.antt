-- ===== src/ClusterIdentity/Cached.antt =====
-- What the reconciliation of a ClusterIdentity leaves in the cache, and what Fetch then finds
-- (internal/controller/cluster/clusteridentity_controller.go and internal/clusteridentity).
use service_router_operator.Base.{
  String, List, Option, none, some, true, false, ◌≡◌, ◌⊎◌, ◌<◌, ◌≤◌, refl, arith, length, ltb,
  Bool-cases, Option-cases, inl, inr,
}
use service_router_operator.Api.{reason_invalid_spec, reason_singleton_violation, NamespacedName}
use service_router_operator.Api
use service_router_operator.Client.{
  Env, World, Identity, Result, ApiError, ok, err, is_not_found, Result-cases, everything,
}
use service_router_operator.Caches.Identity.{of_cr, fetch, get, set, clear}
use service_router_operator.Caches.Copies.{copy_same}
use service_router_operator.ClusterIdentity.{
  validate_spec, validate_singleton, validate_adopted_regions, accept, reconcile,
  update_status_active, update_status_failed,
}
use service_router_operator.ClusterIdentity.Valid.{IsIdentity, validate_spec-IsIdentity}

-- What the cache holds, if anything, is valid.
abbrev pub CacheValid : Option Identity → Type 0
CacheValid none = Unit
CacheValid (some i) = IsIdentity i

module _ {S : Type 0} (env : Env S) where
  -- The check of the adopted regions changes only the conditions.
  checked_same :
      (cr : Api.ClusterIdentity) (w : World S) (changed : Api.ClusterIdentity)
      → (validate_adopted_regions env cr w).0 ≡ ok changed
      → of_cr changed ≡ of_cr cr
  unfolding validate_adopted_regions of_cr
  checked_same cr w changed h = ground arith

  accept-identity_cache :
      (cr : Api.ClusterIdentity) (w : World S)
      → (accept env cr w).1.identity_cache ≡ some (of_cr cr)
  unfolding accept set update_status_active
  accept-identity_cache cr w = elim (Result-cases (validate_adopted_regions env cr w).0) [
    | inl (changed, e) ↦ rw (accept, e) (ground (arith, checked_same cr w changed e))
    | inr (x, e) ↦ rw (accept, e) (ground arith)
  ]

  rejected :
      (cr : Api.ClusterIdentity) (a b : String) (w : World S)
      → (update_status_failed env cr a b w).1.identity_cache ≡ w.identity_cache
  unfolding update_status_failed
  rejected cr a b w = ground arith

  -- A cached identity is found without the server.
  pub fetch-cached :
      (w : World S) (identity : Identity)
      → w.identity_cache ≡ some identity
      → fetch env w ≡ (ok (some identity), w)
  unfolding fetch get
  fetch-cached w identity e = ground (arith, copy_same identity)

  module _ (req : NamespacedName) (w : World S) (cr : Api.ClusterIdentity) (s₁ : S)
      (found : env.client.cluster_identities.get req w.server ≡ (ok cr, s₁)) where
    -- Of an object that was found: it is cached if it is valid and alone, and otherwise nothing changes.
    found-identity_cache :
        (items : List Api.ClusterIdentity) (s₂ : S)
        → env.client.cluster_identities.list everything s₁ ≡ (ok items, s₂)
        → (validate_spec cr ≡ none
            → ltb 1 (length items) ≡ false
            → (reconcile env req w).1.identity_cache ≡ some (of_cr cr))
          × ((message : String)
              → validate_spec cr ≡ some message
              → (reconcile env req w).1.identity_cache ≡ w.identity_cache)
          × (ltb 1 (length items) ≡ true
              → (reconcile env req w).1.identity_cache ≡ w.identity_cache)
    unfolding reconcile validate_singleton
    found-identity_cache items s₂ listed =
        let w₂ : World S = record w { server = s₂ } in
        (
          (λ h k. ground (arith, accept-identity_cache cr w₂)),
          (λ message h. ground (
            arith,
            rejected cr reason_invalid_spec message w₂,
            λ (m : String). rejected cr reason_singleton_violation m w₂,
          )),
          λ k. ground (arith, λ (m : String). rejected cr reason_singleton_violation m w₂),
        )

    unlisted-identity_cache :
        (e : ApiError) (s₂ : S)
        → env.client.cluster_identities.list everything s₁ ≡ (err e, s₂)
        → (reconcile env req w).1.identity_cache ≡ w.identity_cache
    unfolding reconcile validate_singleton
    unlisted-identity_cache e s₂ listed =
        ground (
          arith,
          λ (m : String). rejected cr reason_singleton_violation m (record w { server = s₂ }),
        )

    -- A ClusterIdentity that is found, valid and the only one is cached by its reconciliation, whether
    -- or not the status can be written: Fetch then finds exactly it, without the server.
    pub fetch-reconcile :
        (items : List Api.ClusterIdentity) (s₂ : S)
        → env.client.cluster_identities.list everything s₁ ≡ (ok items, s₂)
        → length items ≤ 1
        → IsIdentity (of_cr cr)
        → fetch env (reconcile env req w).1 ≡ (ok (some (of_cr cr)), (reconcile env req w).1)
    fetch-reconcile items s₂ listed few good = fetch-cached (reconcile env req w).1 (of_cr cr) (
        (found-identity_cache items s₂ listed).0 ((validate_spec-IsIdentity cr).1 good)
          (ground arith))

    -- A ClusterIdentity that is found but is invalid, or one of several, changes nothing in the cache.
    pub reconcile_rejected :
        (items : List Api.ClusterIdentity) (s₂ : S)
        → env.client.cluster_identities.list everything s₁ ≡ (ok items, s₂)
        → (¬ IsIdentity (of_cr cr)) ⊎ (1 < length items)
        → (reconcile env req w).1.identity_cache ≡ w.identity_cache
    reconcile_rejected items s₂ listed bad =
        let outcome = found-identity_cache items s₂ listed in
        elim bad [
          | inl invalid ↦ elim (Option-cases (validate_spec cr)) [
            | inl e ↦ absurd (invalid ((validate_spec-IsIdentity cr).0 e))
            | inr (message, e) ↦ outcome.1 message e
          ]
          | inr many ↦ outcome.2 (ground arith)
        ]

  missing-identity_cache :
      (req : NamespacedName) (w : World S) (e : ApiError) (s : S)
      → env.client.cluster_identities.get req w.server ≡ (err e, s)
      → is_not_found e ≡ true
      → (reconcile env req w).1.identity_cache ≡ none
  unfolding reconcile clear
  missing-identity_cache req w e s missing gone = ground arith

  failed-identity_cache :
      (req : NamespacedName) (w : World S) (e : ApiError) (s : S)
      → env.client.cluster_identities.get req w.server ≡ (err e, s)
      → is_not_found e ≡ false
      → (reconcile env req w).1.identity_cache ≡ w.identity_cache
  unfolding reconcile
  failed-identity_cache req w e s failed other = ground arith

  -- Every reconciliation of a ClusterIdentity, whatever the server answers, keeps the cache empty or
  -- valid.
  pub reconcile-CacheValid :
      (req : NamespacedName) (w : World S)
      → CacheValid w.identity_cache
      → CacheValid (reconcile env req w).1.identity_cache
  reconcile-CacheValid req w valid = by_found (env.client.cluster_identities.get req w.server) refl
    where
      by_listed :
          (cr : Api.ClusterIdentity) (s₁ : S)
          → env.client.cluster_identities.get req w.server ≡ (ok cr, s₁)
          → (q : Result (List Api.ClusterIdentity) × S)
          → env.client.cluster_identities.list everything s₁ ≡ q
          → CacheValid (reconcile env req w).1.identity_cache
      by_listed cr s₁ found (err e, s₂) listed =
          rw (unlisted-identity_cache req w cr s₁ found e s₂ listed) valid
      by_listed cr s₁ found (ok items, s₂) listed =
          let outcome = found-identity_cache req w cr s₁ found items s₂ listed in
          elim (Bool-cases (ltb 1 (length items))) [
            | inl many ↦ rw (outcome.2 many) valid
            | inr few ↦ elim (Option-cases (validate_spec cr)) [
              | inr (message, bad) ↦ rw (outcome.1 message bad) valid
              | inl good ↦ rw (outcome.0 good few) ((validate_spec-IsIdentity cr).0 good)
            ]
          ]

      by_found :
          (p : Result Api.ClusterIdentity × S)
          → env.client.cluster_identities.get req w.server ≡ p
          → CacheValid (reconcile env req w).1.identity_cache
      by_found (ok cr, s₁) found =
          by_listed cr s₁ found (env.client.cluster_identities.list everything s₁) refl
      by_found (err e, s) failed = elim (Bool-cases (is_not_found e)) [
        | inl gone ↦ rw (missing-identity_cache req w e s failed gone) tt
        | inr other ↦ rw (failed-identity_cache req w e s failed other) valid
      ]
