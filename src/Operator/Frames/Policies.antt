-- ===== src/Operator/Frames/Policies.antt =====
-- The policies' controller leaves the caches as they are
-- (internal/controller/routing/dnspolicy_controller.go).
use service_router_operator.Base.{String, Option, none, some, ◌≡◌, refl, ◌∙◌, arith}
use service_router_operator.Api.{NamespacedName, DnsPolicy}
use service_router_operator.Client.{Env, World, Identity, DnsConfig, Result, ok, err}
use service_router_operator.Caches
use service_router_operator.DnsPolicy.{
  update_status_active, update_status_inactive, update_status_pending, update_status_failed, decide,
  with_identity, reconcile,
}
use service_router_operator.Operator.Frames.{Same, Keeps, fetch_identity-Same, fetch_config-Same}

module _ {S : Type 0} (env : Env S) where
  pending-Same :
      (p : DnsPolicy) (reason message : String) → Keeps (update_status_pending env p reason message)
  unfolding update_status_pending
  pending-Same p reason message w = ground arith

  decide-Same : (p : DnsPolicy) (i : Identity) (c : DnsConfig) → Keeps (decide env p i c)
  unfolding decide update_status_active update_status_inactive update_status_failed
  decide-Same p i c w = ground arith

  with_identity-Same : (p : DnsPolicy) (i : Identity) → Keeps (with_identity env p i)
  unfolding with_identity
  with_identity-Same p i w = go (Caches.DnsConfiguration.fetch env w) refl (fetch_config-Same env w)
    where
      go :
          (q : Result (Option DnsConfig) × World S)
          → Caches.DnsConfiguration.fetch env w ≡ q
          → Same w q.1
          → Same w (with_identity env p i w).1
      go (err x, w₁) e s = rw (with_identity, e) (pending-Same p _ _ w₁ ∙ s)
      go (ok none, w₁) e s = rw (with_identity, e) (pending-Same p _ _ w₁ ∙ s)
      go (ok (some c), w₁) e s = rw (with_identity, e) (decide-Same p i c w₁ ∙ s)

  -- With the policy that was found.
  found-Same :
      (req : NamespacedName) (w : World S) (p : DnsPolicy) (s₁ : S)
      → env.client.dns_policies.get req w.server ≡ (ok p, s₁)
      → Same w (reconcile env req w).1
  unfolding reconcile
  found-Same req w p s₁ found = go (Caches.Identity.fetch env w₁) refl (fetch_identity-Same env w₁)
    where
      w₁ : World S
      w₁ = record w { server = s₁ }

      go :
          (q : Result (Option Identity) × World S)
          → Caches.Identity.fetch env w₁ ≡ q
          → Same w q.1
          → Same w (reconcile env req w).1
      go (err x, w₂) e s = rw (reconcile, found, e) (pending-Same p _ _ w₂ ∙ s)
      go (ok none, w₂) e s = rw (reconcile, found, e) (pending-Same p _ _ w₂ ∙ s)
      go (ok (some i), w₂) e s = rw (reconcile, found, e) (with_identity-Same p i w₂ ∙ s)

  pub reconcile_policy-Same : (req : NamespacedName) → Keeps (reconcile env req)
  unfolding reconcile
  reconcile_policy-Same req w = go (env.client.dns_policies.get req w.server) refl
    where
      go :
          (q : Result DnsPolicy × S)
          → env.client.dns_policies.get req w.server ≡ q
          → Same w (reconcile env req w).1
      go (ok p, s₁) e = found-Same req w p s₁ e
      go (err x, s₁) e = rw (reconcile, e) (ground arith)
