-- ===== src/Tests/Up.antt =====
-- The server in memory is up: which runs succeed on it.
use Prim.Native.String.{count}
use service_router_operator.Base.{
  Comparable, Bool, all, leb, String, List, [], ◌∷◌, true, ◌≡◌, ◌⊎◌, ◌==◌, inl, inr, refl,
  Option-cases, Bool-cases, string_eq,
}
use service_router_operator.Api.{NamespacedName, names_Eq, key_of, DnsEndpoint}
use service_router_operator.Client.{
  Answers, World, Kind, ok, done, endpoint_kind, without_selected, ApiError, err, is_not_found,
}
use service_router_operator.ServiceRoute.{reconcile}
use service_router_operator.ServiceRoute.Endpoints.{reconcile_dns_endpoints, route_selector}
use service_router_operator.ServiceRoute.Endpoints.Convergence.{Converged}
use service_router_operator.ServiceRoute.Endpoints.Progress.{reconcile_dns_endpoints_succeeds}
use service_router_operator.ServiceRoute.Removed.{IsUp, reconcile_removed}
use service_router_operator.Tests.Same.{stored_endpoint_Eq}
use service_router_operator.Tests.Memory.{missing, mem_get, mem_at, mem_store}
use service_router_operator.Tests.Memory.Lawful.{mem-IsStore}
use service_router_operator.Tests.Routes.{before, wanted, endpoint}
use service_router_operator.Tests.Fixture.{route, mem_env, mem_world, in_order-IsMapOrder}

module _ {T V : Type 0} (kind : Kind T V) ⦃c : Comparable V⦄ where
  mem_get-cases :
      (k : NamespacedName) (s : List T)
      → ((t : T) × (mem_get kind k s ≡ ok t))
        ⊎ ((e : ApiError) × (mem_get kind k s ≡ err e) × (is_not_found e ≡ true))
  mem_get-cases k [] = inr (missing, refl, refl)
  mem_get-cases k (e ∷ es) = elim (Bool-cases (key_of (kind.meta e) == k)) [
    | inl same ↦ inl (e, rw same refl)
    | inr other ↦ rw other (mem_get-cases k es)
  ]

  pub mem-Answers : (accepts : T → Bool) → Answers kind (mem_store kind) (mem_at kind) accepts
  mem-Answers accepts = record {
    gets = mem_get-cases;
    lists = λ o s. (_, refl);
    creates = λ t s _ absent. rw (mem_store, absent) refl;
    patches = λ old new s _ _ kept. rw (mem_store, kept) refl;
    deletes = λ t s present. elim (Option-cases (mem_at kind s (key_of (kind.meta t)))) [
      | inl e ↦ cc (rw e at present)
      | inr (v, e) ↦ rw (mem_store, e) refl
    ];
  }

  mem-IsUp : IsUp (mem_store kind)
  mem-IsUp = record {
    lists = λ o s. (_, refl);
    deletes = λ t s. elim (Option-cases (mem_at kind s (key_of (kind.meta t)))) [
      | inl e ↦ inr (missing, rw (mem_store, e) refl, refl)
      | inr (v, e) ↦ inl (rw (mem_store, e) refl)
    ];
  }

-- The rule of the API server on the values of labels.
abbrev pub labels_fit : List (String × String) → Bool
labels_fit = all (λ kv. leb (count kv.1) 63)

abbrev pub accepts_endpoint : DnsEndpoint → Bool
accepts_endpoint e = labels_fit e.meta.labels

reconcile_dns_endpoints_succeeds_example :
    (w' : World (List DnsEndpoint)) × (reconcile_dns_endpoints mem_env route wanted
        (mem_world before)
      ≡ (ok tt, w'))
    × ((name : String)
        → Converged mem_env
            (mem_at endpoint_kind)
            (mem-IsStore endpoint_kind)
            in_order-IsMapOrder
            route
            wanted
            before
            w'.server
            (record { name = name; namespace = "team" }))
reconcile_dns_endpoints_succeeds_example =
    reconcile_dns_endpoints_succeeds mem_env (mem_at endpoint_kind) (mem-IsStore endpoint_kind)
      (mem-Answers endpoint_kind accepts_endpoint) in_order-IsMapOrder route (endpoint "west" "new")
      (endpoint "north" "new" ∷ []) (mem_world before)
      ((refl, (refl, (refl, λ old e. refl))), ((refl, (refl, (refl, λ old e. refl))), tt))

abbrev gone : NamespacedName
gone = record { name = "gone"; namespace = "team" }

reconcile_removed_example :
    (w' : World (List DnsEndpoint)) × (reconcile mem_env gone (mem_world before) ≡ (ok done, w'))
    × ((k : NamespacedName)
        → (mem_at endpoint_kind) w'.server k
          ≡ without_selected (route_selector "team" gone) k ((mem_at endpoint_kind) before k))
reconcile_removed_example =
    reconcile_removed mem_env (mem-IsUp endpoint_kind) (mem_at endpoint_kind)
      (mem-IsStore endpoint_kind) gone (mem_world before) missing before refl refl
