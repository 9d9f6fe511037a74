-- ===== src/Tests/Istio.antt =====
-- The Istio Gateways on the server in memory (internal/controller/routing/gateway_controller.go).
use mathlib.Core.List.Perm
use service_router_operator.Base.{String, List, [], ◌∷◌, none, some, ◌≡◌, refl, string_eq}
use service_router_operator.Api.{NamespacedName, names_Eq, routing_kind, IstioGateway, TlsMode}
use service_router_operator.Client.{World, ok, istio_gateway_kind}
use service_router_operator.Gateway.Istio.{
  generate_istio_gateway, reconcile_istio_gateway, istio_gateway_needs_update, values_differ,
  servers_differ, host_set, hosts_missing,
}
use service_router_operator.Gateway.Istio.Applied.{Applied, reconcile_istio_gateway-Applied}
use service_router_operator.Gateway.Istio.Steady.{reconcile_istio_gateway_again}
use service_router_operator.Tests.Same.{stored_istio_gateway_Eq}
use service_router_operator.Tests.Memory.{mem_at}
use service_router_operator.Tests.Memory.Lawful.{mem-IsStore}
use service_router_operator.Tests.Fixture.{meta_of, gateway, controller_ref, istio_env}

abbrev istio_gateway : List String → IstioGateway
istio_gateway hosts = record {
  meta = record (meta_of "gw" "istio-system") {
    uid = "";
    generation = 0;
    labels =
        ("app.kubernetes.io/managed-by", "service-router-operator")
        ∷ ("router.io/gateway", "gw")
        ∷ [];
    owner_references = controller_ref gateway.meta (routing_kind "Gateway") ∷ [];
  };
  spec = record {
    selector = ("istio", "istio-in") ∷ [];
    servers =
        record {
          port = record { number = 443; name = "https"; protocol = "HTTPS" };
          hosts = hosts;
          tls = some (record { mode = TlsMode.simple; credential_name = "cert" });
        }
        ∷ [];
  };
}

-- The server keeps an Istio Gateway of one host, and then of two.
abbrev world : List IstioGateway → World (List IstioGateway)
world s = record { server = s; identity_cache = none; config_cache = none }

abbrev before : World (List IstioGateway)
before = world (istio_gateway ("a" ∷ []) ∷ [])

abbrev desired : IstioGateway
desired = istio_gateway ("a" ∷ "b" ∷ [])

abbrev after : World (List IstioGateway)
after = world (desired ∷ istio_gateway ("a" ∷ []) ∷ [])

abbrev key : NamespacedName
key = record { name = "gw"; namespace = "istio-system" }

generates : generate_istio_gateway istio_env gateway ("a" ∷ "b" ∷ []) ≡ ok desired
unfolding generate_istio_gateway
generates = refl

first_run : reconcile_istio_gateway istio_env desired before ≡ (ok tt, after)
unfolding reconcile_istio_gateway istio_gateway_needs_update values_differ servers_differ host_set
    hosts_missing
first_run = refl

abbrev reordered : IstioGateway
reordered = istio_gateway ("b" ∷ "a" ∷ [])

generates_reordered : generate_istio_gateway istio_env gateway ("b" ∷ "a" ∷ []) ≡ ok reordered
unfolding generate_istio_gateway
generates_reordered = refl

second_run : reconcile_istio_gateway istio_env reordered after ≡ (ok tt, after)
unfolding reconcile_istio_gateway istio_gateway_needs_update values_differ servers_differ host_set
    hosts_missing
second_run = refl

reconcile_istio_gateway-Applied_example :
    Applied istio_env
      (mem_at istio_gateway_kind)
      (mem-IsStore istio_gateway_kind)
      desired
      before.server
      after.server
      key
reconcile_istio_gateway-Applied_example =
    reconcile_istio_gateway-Applied istio_env (mem_at istio_gateway_kind)
      (mem-IsStore istio_gateway_kind) gateway ("a" ∷ "b" ∷ []) desired generates refl before after
      key first_run

reconcile_istio_gateway_again_example :
    (mem_at istio_gateway_kind after.server key ≡ mem_at istio_gateway_kind after.server key)
    × Applied istio_env
        (mem_at istio_gateway_kind)
        (mem-IsStore istio_gateway_kind)
        reordered
        before.server
        after.server
        key
reconcile_istio_gateway_again_example =
    reconcile_istio_gateway_again istio_env (mem_at istio_gateway_kind)
      (mem-IsStore istio_gateway_kind) gateway ("a" ∷ "b" ∷ []) ("b" ∷ "a" ∷ []) desired reordered
      before after after (ok tt) key generates generates_reordered refl (Perm.swap "b" "a" [])
      first_run second_run
