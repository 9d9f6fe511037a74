-- ===== src/Operator/Invariant.antt =====
-- What the caches hold in every state that the operator reaches
-- (internal/clusteridentity, internal/dnsconfiguration, internal/controller).
use service_router_operator.Base.{All, All-Among, sym, subst, ap}
use service_router_operator.Api.{NamespacedName}
use service_router_operator.Client.{Env, World}
use service_router_operator.ClusterIdentity.Cached.{CacheValid, reconcile-CacheValid}
use service_router_operator.DnsConfiguration.Cached.{ConfigCacheValid, reconcile-ConfigCacheValid}
use service_router_operator.Setup.ControllerRuntime.{Runtime, Controller}
use service_router_operator.Setup.Controllers.{
  cluster_identity_controller, dns_configuration_controller, dns_policy_controller,
  ingress_dns_controller, service_route_controller, gateway_controller,
}
use service_router_operator.Main.Started.{all_controllers}
use service_router_operator.Operator.{Step, reconciles, others_write, restarts, Reach, start, later}
use service_router_operator.Operator.Frames.{Same}
use service_router_operator.Operator.Frames.Policies.{reconcile_policy-Same}
use service_router_operator.Operator.Frames.Routes.{reconcile_route-Same}
use service_router_operator.Operator.Frames.Gateways.{reconcile_gateway-Same}
use service_router_operator.Operator.Frames.Ingress.{reconcile_ingress-Same}
use service_router_operator.Operator.Frames.Settings.{
  reconcile-config_cache, reconcile-identity_cache,
}

module _ {S : Type 0} where
  -- Both caches are empty or valid.
  abbrev pub Valid : World S → Type 0
  Valid w = CacheValid w.identity_cache × ConfigCacheValid w.config_cache

  Same-Valid : (w w' : World S) → Same w w' → Valid w → Valid w'
  Same-Valid w w' s (i, c) =
      (subst CacheValid (sym (ap (λ p. p.0) s)) i, subst ConfigCacheValid (sym (ap (λ p. p.1) s)) c)

module _ {S P B : Type 0} (rt : Runtime S P B) (env : Env S) where
  -- A controller keeps the caches empty or valid.
  abbrev KeepsValid : Controller S → Type 0
  KeepsValid c = (req : NamespacedName) (w : World S) → Valid w → Valid (c.reconcile req w).1

  Keeps-KeepsValid :
      (c : Controller S)
      → ((req : NamespacedName) (w : World S) → Same w (c.reconcile req w).1)
      → KeepsValid c
  Keeps-KeepsValid c keeps req w = Same-Valid w (c.reconcile req w).1 (keeps req w)

  all_controllers-KeepsValid : All KeepsValid (all_controllers rt env)
  all_controllers-KeepsValid =
      let identities : KeepsValid (cluster_identity_controller env) = λ req w (i, c). (
        reconcile-CacheValid env req w i,
        subst ConfigCacheValid (sym (reconcile-config_cache env req w)) c,
      ) in
      let configurations : KeepsValid (dns_configuration_controller env) = λ req w (i, c). (
        subst CacheValid (sym (reconcile-identity_cache env req w)) i,
        reconcile-ConfigCacheValid env req w c,
      ) in
      let policies = Keeps-KeepsValid (dns_policy_controller env) (reconcile_policy-Same env) in
      let routes = Keeps-KeepsValid (service_route_controller env) (reconcile_route-Same env) in
      let gateways = Keeps-KeepsValid (gateway_controller rt env) (reconcile_gateway-Same env) in
      let records =
        Keeps-KeepsValid (ingress_dns_controller env) (λ req. reconcile_ingress-Same env) in
      (identities, (policies, (routes, (gateways, (records, (configurations, tt))))))

  Step-Valid : {w w' : World S} → Step rt env w w' → Valid w → Valid w'
  Step-Valid (reconciles c req m) valid =
      All-Among KeepsValid m all_controllers-KeepsValid req _ valid
  Step-Valid (others_write s) valid = valid
  Step-Valid restarts valid = (tt, tt)

  -- In every state that the operator reaches, whatever the server answers and others write, and in whatever
  -- order its controllers run: what the caches hold, if anything, passes the validations.
  pub Reach-Valid : {w : World S} → Reach rt env w → Valid w
  Reach-Valid (start s) = (tt, tt)
  Reach-Valid (later r step) = Step-Valid step (Reach-Valid r)
