-- ===== src/Tests/Reached.antt =====
-- A run of the operator on the server in memory (cmd/main.go).
use service_router_operator.Base.{List, []}
use service_router_operator.Api.{key_of, DnsEndpoint}
use service_router_operator.Client.{World}
use service_router_operator.Base.{here}
use service_router_operator.ClusterIdentity.{reconcile}
use service_router_operator.Setup.Controllers.{cluster_identity_controller}
use service_router_operator.Operator.{reconciles, Reach, start, later}
use service_router_operator.Operator.Invariant.{Valid, Reach-Valid}
use service_router_operator.Tests.Runtime.{rt}
use service_router_operator.Tests.Fixture.{identity_cr, mem_env, mem_world}

-- The reconciliation of the cluster's identity, which fills the cache.
abbrev cached : World (List DnsEndpoint)
cached = (reconcile mem_env (key_of identity_cr.meta) (mem_world [])).1

cached_reached : Reach rt mem_env cached
cached_reached =
    later (start [])
      (reconciles (cluster_identity_controller mem_env) (key_of identity_cr.meta) here)

Reach-Valid_example : Valid cached
Reach-Valid_example = Reach-Valid rt mem_env cached_reached
