-- ===== src/Operator.antt =====
-- The operator as a whole: the reconciliations of its controllers (cmd/main.go, internal/controller), in any
-- order, between the writes of others and restarts of the process. A reconciliation is one step
-- of the caches; of the server, its calls may find any changes of others.
pub mod Frames
pub mod Invariant
use service_router_operator.Base.{none, Among}
use service_router_operator.Api.{NamespacedName}
use service_router_operator.Client.{Env, World}
use service_router_operator.Setup.ControllerRuntime.{Runtime, Controller}
use service_router_operator.Main.Started.{all_controllers}

module _ {S P B : Type 0} (rt : Runtime S P B) (env : Env S) where
  -- A controller takes a request, others write to the server, or the process starts anew.
  pub data Step (w : World S) : World S → Type 0 where
    reconciles :
        (c : Controller S) (req : NamespacedName)
        → Among c (all_controllers rt env)
        → Step w (c.reconcile req w).1
    others_write : (s : S) → Step w (record w { server = s })
    restarts : Step w (record { server = w.server; identity_cache = none; config_cache = none })

  -- From a start of the process on.
  pub data Reach : World S → Type 0 where
    start : (s : S) → Reach (record { server = s; identity_cache = none; config_cache = none })
    later : {w w' : World S} → Reach w → Step w w' → Reach w'
