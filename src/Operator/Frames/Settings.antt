-- ===== src/Operator/Frames/Settings.antt =====
-- Each of the two controllers of the cluster's settings leaves the other's cache as it is
-- (internal/controller/cluster).
use service_router_operator.Base.{String, ◌≡◌, ap, arith, inl, inr}
use service_router_operator.Api.{NamespacedName, ExternalDnsController}
use service_router_operator.Api
use service_router_operator.Client.{Env, World, Result-cases, everything}
use service_router_operator.Caches
use service_router_operator.ClusterIdentity
use service_router_operator.DnsConfiguration
use service_router_operator.Operator.Frames.{Keeps, fetch_config-Same}

module _ {S : Type 0} (env : Env S) where
  adopted-Same :
      (cr : Api.ClusterIdentity) → Keeps (ClusterIdentity.validate_adopted_regions env cr)
  unfolding ClusterIdentity.validate_adopted_regions
  adopted-Same cr w = ground (arith, fetch_config-Same env w)

  accept-config_cache :
      (cr : Api.ClusterIdentity) (w : World S)
      → (ClusterIdentity.accept env cr w).1.config_cache ≡ w.config_cache
  unfolding ClusterIdentity.accept Caches.Identity.set ClusterIdentity.update_status_active
  accept-config_cache cr w =
      elim (Result-cases (ClusterIdentity.validate_adopted_regions env cr w).0) [
        | inl (changed, e) ↦
            rw (ClusterIdentity.accept, e) (ground (arith, ap (λ p. p.1) (adopted-Same cr w)))
        | inr (x, e) ↦
            rw (ClusterIdentity.accept, e) (ground (arith, ap (λ p. p.1) (adopted-Same cr w)))
      ]

  singleton-Same : Keeps (ClusterIdentity.validate_singleton env)
  unfolding ClusterIdentity.validate_singleton
  singleton-Same w = ground arith

  failed-Same :
      (cr : Api.ClusterIdentity) (reason message : String)
      → Keeps (ClusterIdentity.update_status_failed env cr reason message)
  unfolding ClusterIdentity.update_status_failed
  failed-Same cr reason message w = ground arith

  pub reconcile-config_cache :
      (req : NamespacedName) (w : World S)
      → (ClusterIdentity.reconcile env req w).1.config_cache ≡ w.config_cache
  unfolding ClusterIdentity.reconcile Caches.Identity.clear ClusterIdentity.validate_singleton
      ClusterIdentity.update_status_failed
  reconcile-config_cache req w =
      let s₁ = (env.client.cluster_identities.get req w.server).1 in
      let w₂ : World S = record w {
        server = (env.client.cluster_identities.list everything s₁).1;
      } in
      elim (Result-cases (env.client.cluster_identities.get req w.server).0) [
        | inl (cr, e) ↦ ground (arith, e, accept-config_cache cr w₂)
        | inr (x, e) ↦ ground (arith, e)
      ]

  pub reconcile-identity_cache :
      (req : NamespacedName) (w : World S)
      → (DnsConfiguration.reconcile env req w).1.identity_cache ≡ w.identity_cache
  unfolding DnsConfiguration.reconcile Caches.DnsConfiguration.clear Caches.DnsConfiguration.set
      DnsConfiguration.validate_singleton DnsConfiguration.update_status_failed
      DnsConfiguration.update_status_ready
  reconcile-identity_cache req w = ground arith
