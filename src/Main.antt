-- ===== src/Main.antt =====
-- cmd/main.go
pub mod Started
use service_router_operator.Base.{ℕ, String, Bool, true, false, List, [], ◌∷◌}
use service_router_operator.Client.{Env, Result, ok, err}
use service_router_operator.Setup.{
  Step, ◌then_try◌, cluster_identity_setup, dns_configuration_setup, dns_policy_setup,
  gateway_setup, ingress_dns_setup, service_route_setup,
}
use service_router_operator.Setup.ControllerRuntime.{
  Runtime, ManagerOptions, client_go, cluster_group, routing_group, istio_group, external_dns_group,
}

-- The variables of `main` that the command line's flags set.
pub record Flags : Type 0 where
  pub metrics_addr : String
  pub probe_addr : String
  pub default_router_gateway_namespace : String
  pub enable_leader_election : Bool

-- The defaults with which the flags are declared.
abbrev pub default_flags : Flags
default_flags = record {
  metrics_addr = ":8080";
  probe_addr = ":8081";
  default_router_gateway_namespace = "istio-system";
  enable_leader_election = false;
}

-- A flag of the command line and its value; `other` is one of zap's, which `opts.BindFlags` declares.
pub data Setting : Type 0 where
  metrics_bind_address : String → Setting
  health_probe_bind_address : String → Setting
  default_router_gateway_namespace : String → Setting
  leader_elect : Bool → Setting
  other : Setting

-- What a flag does to the variables.
abbrev set_flag : Setting → Flags → Flags
set_flag (metrics_bind_address a) flags = record flags { metrics_addr = a }
set_flag (health_probe_bind_address a) flags = record flags { probe_addr = a }
set_flag (default_router_gateway_namespace n) flags = record flags {
  default_router_gateway_namespace = n;
}
set_flag (leader_elect b) flags = record flags { enable_leader_election = b }
set_flag other flags = flags

-- The variables after the flags, in their order.
unfoldable pub set_flags : List Setting → Flags → Flags
set_flags [] flags = flags
set_flags (s ∷ ss) flags = set_flags ss (set_flag s flags)

-- The command line as `flag.Parse` meets it: flags that are all well formed, or, after some that are,
-- `-h` or `-help`, or one that is not declared or has no value of its type.
pub data CommandLine : Type 0 where
  given : List Setting → CommandLine
  asks_help malformed : CommandLine

-- How the process ends: `main` returns, `os.Exit`, or `utilruntime.Must` panics.
pub data Exit : Type 0 where
  returned panicked : Exit
  exited : ℕ → Exit

abbrev pub options : Flags → ManagerOptions
options flags = record {
  metrics_bind_address = flags.metrics_addr;
  health_probe_bind_address = flags.probe_addr;
  leader_election = flags.enable_leader_election;
  leader_election_id = "3afd9a04.router.io";
}

module _ {S P B : Type 0} (rt : Runtime S P B) where
  unfoldable pub init : Step P
  init =
      rt.add_to_scheme client_go
      then_try rt.add_to_scheme cluster_group
      then_try rt.add_to_scheme routing_group
      then_try rt.add_to_scheme istio_group
      then_try rt.add_to_scheme external_dns_group

  -- What the reconcilers get: the manager's client, and the default namespace of the gateways.
  abbrev pub env_of : Env S → Flags → P → Env S
  env_of env flags p = record env {
    client = rt.get_client p;
    default_router_gateway_namespace = flags.default_router_gateway_namespace;
  }

  -- The calls whose error makes `main` exit with 1, in their order; `GetConfigOrDie` exits itself.
  unfoldable pub main_steps : Env S → Flags → Step P
  main_steps env flags =
      rt.get_config
      then_try rt.new_manager (options flags)
      then_try (λ p. cluster_identity_setup rt (env_of env flags p) p)
      then_try (λ p. dns_policy_setup rt (env_of env flags p) p)
      then_try (λ p. service_route_setup rt (env_of env flags p) p)
      then_try (λ p. gateway_setup rt (env_of env flags p) p)
      then_try (λ p. ingress_dns_setup rt (env_of env flags p) p)
      then_try (λ p. dns_configuration_setup rt (env_of env flags p) p)
      then_try rt.add_healthz_check "healthz"
      then_try rt.add_readyz_check "readyz"
      then_try rt.start

  -- `flag.Parse` ends the process with 0 where help is asked for, and with 2 on a bad flag.
  unfoldable pub main : Env S → CommandLine → P → Exit × P
  unfolding main_steps set_flags
  main env asks_help p = (exited 0, p)
  main env malformed p = (exited 2, p)
  main env (given settings) p =
      let q = main_steps env (set_flags settings default_flags) p in
      (elim q.0 [ ok _ ↦ returned | err _ ↦ exited 1 ], q.1)

  -- The process: `init` runs before `main`.
  unfoldable pub program : Env S → CommandLine → P → Exit × P
  unfolding init main
  program env line p =
      let q = init p in elim q.0 [ ok _ ↦ main env line q.1 | err _ ↦ (panicked, q.1) ]
