-- ===== src/Tests/Gateways.antt =====
-- The Gateways at concrete inputs (internal/controller/routing/gateway_controller.go).
use service_router_operator.Base.{
  String, List, [], ◌∷◌, true, false, some, any, contains, distinct, codes, string_eq, ◌≡◌, ◌↔◌,
  refl,
}
use service_router_operator.Api.{IstioGateway, Server, TlsMode}
use service_router_operator.Client.{ok}
use service_router_operator.Gateway.{collect_hosts, collect_loop}
use service_router_operator.Gateway.Istio.{
  host_set, hosts_missing, istio_gateway_needs_update, values_differ, servers_differ,
}
use service_router_operator.Gateway.Pattern.{match_string, match_from, Matches, postfix_pattern}
use service_router_operator.Gateway.Pattern.Meaning.{match_string_iff}
use service_router_operator.Gateway.Hosts.{gives_host, collect_hosts_lem}
use service_router_operator.Gateway.Istio.Update.{Agrees, needs_update-Agrees}
use service_router_operator.Tests.Fixture.{
  meta_of, mem_env, mem_world, gateway, identity, route, other_route, in_order-IsMapOrder,
}

match_string_iff_example :
    (match_string "external-1" ≡ true) ↔ Matches postfix_pattern (codes "external-1")
match_string_iff_example = match_string_iff "external-1"

pattern_runs : (match_string "external-1" ≡ true) × (match_string "external-" ≡ false)
unfolding match_string match_from
pattern_runs = (refl, refl)

collect_hosts_lem_example :
    (hosts : List String) × (collect_hosts mem_env gateway (some identity) (mem_world [])
      ≡ (ok hosts, mem_world []))
    × (distinct hosts ≡ true)
    × ((host : String)
        → contains host hosts
          ≡ any (gives_host "istio-system" gateway identity host) (route ∷ other_route ∷ []))
collect_hosts_lem_example =
    collect_hosts_lem mem_env gateway identity (mem_world []) [] (route ∷ other_route ∷ [])
      in_order-IsMapOrder refl

one_host :
    (collect_hosts mem_env gateway (some identity) (mem_world [])).0
    ≡ ok ("orders-ns-d-dev-shop.example.com" ∷ [])
unfolding collect_hosts collect_loop
one_host = refl

abbrev server_of : List String → Server
server_of hosts = record {
  port = record { number = 443; name = "https"; protocol = "HTTPS" };
  hosts = hosts;
  tls = some (record { mode = TlsMode.simple; credential_name = "cert" });
}

abbrev istio_gateway : List String → IstioGateway
istio_gateway hosts = record {
  meta = meta_of "gw" "istio-system";
  spec = record { selector = ("istio", "istio-in") ∷ []; servers = server_of hosts ∷ [] };
}

needs_update-Agrees_example :
    (istio_gateway_needs_update (istio_gateway ("b" ∷ "a" ∷ [])) (istio_gateway ("a" ∷ "b" ∷ []))
      ≡ false)
    ↔ Agrees
        (istio_gateway ("b" ∷ "a" ∷ []))
        (istio_gateway ("a" ∷ "b" ∷ []))
        (server_of ("a" ∷ "b" ∷ []))
needs_update-Agrees_example =
    needs_update-Agrees (istio_gateway ("b" ∷ "a" ∷ [])) (istio_gateway ("a" ∷ "b" ∷ []))
      (server_of ("a" ∷ "b" ∷ [])) refl refl

order_of_hosts_is_ignored :
    istio_gateway_needs_update (istio_gateway ("b" ∷ "a" ∷ [])) (istio_gateway ("a" ∷ "b" ∷ []))
    ≡ false
unfolding istio_gateway_needs_update values_differ servers_differ host_set hosts_missing
order_of_hosts_is_ignored = refl
