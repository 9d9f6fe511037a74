-- ===== src/Main/Started.antt =====
-- What runs once `main` has started the manager (cmd/main.go).
use service_router_operator.Base.{Bool, ◌⊎◌, String, List, [], ◌∷◌, ◌≡◌}
use service_router_operator.Api.{NamespacedName}
use service_router_operator.Client.{Env, World, Client, ok}
use service_router_operator.Setup.{Step, ◌then_try◌}
use service_router_operator.Setup.ControllerRuntime.{
  Runtime, IsRuntime, Controller, Sources, Event, ObjectKind,
}
use service_router_operator.Setup.Controllers.{
  cluster_identity_controller, dns_configuration_controller, dns_policy_controller,
  ingress_dns_controller, service_route_controller, gateway_controller,
}
use service_router_operator.Setup.Registered.{Adds}
use service_router_operator.Main.{
  Flags, default_flags, set_flags, CommandLine, given, asks_help, malformed, Exit, returned, exited,
  env_of,
}

-- The controllers of the operator, in the order in which they are registered.
abbrev pub all_controllers : {S P B : Type 0} → Runtime S P B → Env S → List (Controller S)
all_controllers rt env =
    cluster_identity_controller env
    ∷ dns_policy_controller env
    ∷ service_route_controller env
    ∷ gateway_controller rt env
    ∷ ingress_dns_controller env
    ∷ dns_configuration_controller env
    ∷ []

module _ {S P B : Type 0} (rt : Runtime S P B) {gathered : B → Sources S}
    {controllers : P → List (Controller S)} {checks : P → List String}
    {enqueues : Controller S → (k : ObjectKind) → Event k → World S → NamespacedName → Bool}
    (law : IsRuntime rt gathered controllers checks enqueues) (env : Env S) (flags : Flags) where
  -- A step that registers one controller, in the environment that the process has then.
  abbrev AddsOne : (Env S → Step P) → (Env S → Controller S) → Type 0
  AddsOne setup c = (e : Env S) (p p' : P) → setup e p ≡ (ok tt, p') → Adds rt law (c e ∷ []) p p'

  abbrev client_env : Client S → Env S
  client_env client = record env {
    client = client;
    default_router_gateway_namespace = flags.default_router_gateway_namespace;
  }

  -- The controllers `cs` are there, the checks are not yet.
  abbrev Has : (Env S → List (Controller S)) → P → Type 0
  Has cs p = (controllers p ≡ cs (env_of rt env flags p)) × (checks p ≡ [])

  -- The manager was started, by which time it had these controllers and checks.
  abbrev pub Started : P → Type 0
  Started p' =
      (p : P) × (rt.start p ≡ (ok tt, p'))
      × (controllers p ≡ all_controllers rt (env_of rt env flags p))
      × (checks p ≡ "healthz" ∷ "readyz" ∷ [])

  abbrev checks_steps : Step P
  checks_steps =
      rt.add_healthz_check "healthz" then_try rt.add_readyz_check "readyz" then_try rt.start

module _ {S P B : Type 0} (rt : Runtime S P B) {gathered : B → Sources S}
    {controllers : P → List (Controller S)} {checks : P → List String}
    {enqueues : Controller S → (k : ObjectKind) → Event k → World S → NamespacedName → Bool}
    (law : IsRuntime rt gathered controllers checks enqueues) (env : Env S) where
  -- How `main` ends on a command line, once `init` has not panicked.
  abbrev pub Ends : CommandLine → Exit × P → Type 0
  Ends asks_help q = q.0 ≡ exited 0
  Ends malformed q = q.0 ≡ exited 2
  Ends (given settings) q =
      ((q.0 ≡ returned) × Started rt law env (set_flags settings default_flags) q.1)
      ⊎ (q.0 ≡ exited 1)
