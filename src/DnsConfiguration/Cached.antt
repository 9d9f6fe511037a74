-- ===== src/DnsConfiguration/Cached.antt =====
-- What the reconciliation of a DNSConfiguration leaves in the cache, and what Fetch then finds
-- (internal/controller/cluster/dnsconfiguration_controller.go and internal/dnsconfiguration).
use service_router_operator.Base.{
  String, List, Option, none, some, true, false, ◌≡◌, ◌⊎◌, ◌<◌, ◌≤◌, refl, arith, length, ltb,
  Bool-cases, Option-cases, inl, inr,
}
use service_router_operator.Api.{NamespacedName}
use service_router_operator.Api
use service_router_operator.Client.{
  Env, World, DnsConfig, Result, ApiError, ok, err, is_not_found, everything,
}
use service_router_operator.Caches.DnsConfiguration.{of_cr, fetch, get, set, clear}
use service_router_operator.Caches.Copies.{copy_controllers_same}
use service_router_operator.DnsConfiguration.{
  validate_spec, validate_singleton, reconcile, update_status_ready, update_status_failed,
}
use service_router_operator.DnsConfiguration.Valid.{IsConfig, validate_spec-IsConfig}

-- What the cache holds, if anything, is valid.
abbrev pub ConfigCacheValid : Option DnsConfig → Type 0
ConfigCacheValid none = Unit
ConfigCacheValid (some i) = IsConfig i

module _ {S : Type 0} (env : Env S) where
  accept-config_cache :
      (cr : Api.DnsConfiguration) (w : World S)
      → (update_status_ready env cr (record w { config_cache = some (of_cr cr) })).1.config_cache
        ≡ some (of_cr cr)
  unfolding update_status_ready
  accept-config_cache cr w = ground arith

  rejected :
      (cr : Api.DnsConfiguration) (a b : String) (w : World S)
      → (update_status_failed env cr a b w).1.config_cache ≡ w.config_cache
  unfolding update_status_failed
  rejected cr a b w = ground arith

  -- A cached configuration is found without the server.
  pub fetch_config-cached :
      (w : World S) (config : DnsConfig)
      → w.config_cache ≡ some config
      → fetch env w ≡ (ok (some config), w)
  unfolding fetch get of_cr
  fetch_config-cached w config e =
      ground (arith, copy_controllers_same config.external_dns_controllers)

  module _ (req : NamespacedName) (w : World S) (cr : Api.DnsConfiguration) (s₁ : S)
      (found : env.client.dns_configurations.get req w.server ≡ (ok cr, s₁)) where
    -- Of an object that was found: it is cached if it is valid and alone, and otherwise nothing changes.
    found-config_cache :
        (items : List Api.DnsConfiguration) (s₂ : S)
        → env.client.dns_configurations.list everything s₁ ≡ (ok items, s₂)
        → (validate_spec cr ≡ none
            → ltb 1 (length items) ≡ false
            → (reconcile env req w).1.config_cache ≡ some (of_cr cr))
          × ((message : String)
              → validate_spec cr ≡ some message
              → (reconcile env req w).1.config_cache ≡ w.config_cache)
          × (ltb 1 (length items) ≡ true → (reconcile env req w).1.config_cache ≡ w.config_cache)
    unfolding reconcile validate_singleton set
    found-config_cache items s₂ listed =
        let w₂ : World S = record w { server = s₂ } in
        (
          (λ h k. ground (arith, accept-config_cache cr w₂)),
          (λ message h. ground (
            arith,
            rejected cr "InvalidSpec" message w₂,
            λ (m : String). rejected cr "SingletonViolation" m w₂,
          )),
          λ k. ground (arith, λ (m : String). rejected cr "SingletonViolation" m w₂),
        )

    unlisted-config_cache :
        (e : ApiError) (s₂ : S)
        → env.client.dns_configurations.list everything s₁ ≡ (err e, s₂)
        → (reconcile env req w).1.config_cache ≡ w.config_cache
    unfolding reconcile validate_singleton
    unlisted-config_cache e s₂ listed =
        ground
          (arith, λ (m : String). rejected cr "SingletonViolation" m (record w { server = s₂ }))

    -- A DNSConfiguration that is found, valid and the only one is cached by its reconciliation, whether
    -- or not the status can be written: Fetch then finds exactly it, without the server.
    pub fetch_config-reconcile :
        (items : List Api.DnsConfiguration) (s₂ : S)
        → env.client.dns_configurations.list everything s₁ ≡ (ok items, s₂)
        → length items ≤ 1
        → IsConfig (of_cr cr)
        → fetch env (reconcile env req w).1 ≡ (ok (some (of_cr cr)), (reconcile env req w).1)
    fetch_config-reconcile items s₂ listed few good =
        fetch_config-cached (reconcile env req w).1 (of_cr cr) (
          (found-config_cache items s₂ listed).0 ((validate_spec-IsConfig cr).1 good)
            (ground arith))

    -- A DNSConfiguration that is found but is invalid, or one of several, changes nothing in the cache.
    pub reconcile_rejected_config :
        (items : List Api.DnsConfiguration) (s₂ : S)
        → env.client.dns_configurations.list everything s₁ ≡ (ok items, s₂)
        → (¬ IsConfig (of_cr cr)) ⊎ (1 < length items)
        → (reconcile env req w).1.config_cache ≡ w.config_cache
    reconcile_rejected_config items s₂ listed bad =
        let outcome = found-config_cache items s₂ listed in
        elim bad [
          | inl invalid ↦ elim (Option-cases (validate_spec cr)) [
            | inl e ↦ absurd (invalid ((validate_spec-IsConfig cr).0 e))
            | inr (message, e) ↦ outcome.1 message e
          ]
          | inr many ↦ outcome.2 (ground arith)
        ]

  missing-config_cache :
      (req : NamespacedName) (w : World S) (e : ApiError) (s : S)
      → env.client.dns_configurations.get req w.server ≡ (err e, s)
      → is_not_found e ≡ true
      → (reconcile env req w).1.config_cache ≡ none
  unfolding reconcile clear
  missing-config_cache req w e s missing gone = ground arith

  failed-config_cache :
      (req : NamespacedName) (w : World S) (e : ApiError) (s : S)
      → env.client.dns_configurations.get req w.server ≡ (err e, s)
      → is_not_found e ≡ false
      → (reconcile env req w).1.config_cache ≡ w.config_cache
  unfolding reconcile
  failed-config_cache req w e s failed other = ground arith

  -- Every reconciliation of a DNSConfiguration, whatever the server answers, keeps the cache empty or
  -- valid.
  pub reconcile-ConfigCacheValid :
      (req : NamespacedName) (w : World S)
      → ConfigCacheValid w.config_cache
      → ConfigCacheValid (reconcile env req w).1.config_cache
  reconcile-ConfigCacheValid req w valid =
      by_found (env.client.dns_configurations.get req w.server) refl
    where
      by_listed :
          (cr : Api.DnsConfiguration) (s₁ : S)
          → env.client.dns_configurations.get req w.server ≡ (ok cr, s₁)
          → (q : Result (List Api.DnsConfiguration) × S)
          → env.client.dns_configurations.list everything s₁ ≡ q
          → ConfigCacheValid (reconcile env req w).1.config_cache
      by_listed cr s₁ found (err e, s₂) listed =
          rw (unlisted-config_cache req w cr s₁ found e s₂ listed) valid
      by_listed cr s₁ found (ok items, s₂) listed =
          let outcome = found-config_cache req w cr s₁ found items s₂ listed in
          elim (Bool-cases (ltb 1 (length items))) [
            | inl many ↦ rw (outcome.2 many) valid
            | inr few ↦ elim (Option-cases (validate_spec cr)) [
              | inr (message, bad) ↦ rw (outcome.1 message bad) valid
              | inl good ↦ rw (outcome.0 good few) ((validate_spec-IsConfig cr).0 good)
            ]
          ]

      by_found :
          (p : Result Api.DnsConfiguration × S)
          → env.client.dns_configurations.get req w.server ≡ p
          → ConfigCacheValid (reconcile env req w).1.config_cache
      by_found (ok cr, s₁) found =
          by_listed cr s₁ found (env.client.dns_configurations.list everything s₁) refl
      by_found (err e, s) failed = elim (Bool-cases (is_not_found e)) [
        | inl gone ↦ rw (missing-config_cache req w e s failed gone) tt
        | inr other ↦ rw (failed-config_cache req w e s failed other) valid
      ]
