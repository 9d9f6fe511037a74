-- ===== src/Client/Stores.antt =====
-- What the server keeps of the objects that the operator writes beside its own.
use service_router_operator.Base.{
  true, ◌≡◌, ◌∙◌, sym, subst, any, ◌==◌, All-any, Option-cases, inl, inr, arith, String, List,
  Option, none, some, if◌then◌else◌,
}
use service_router_operator.Api.{
  NamespacedName, names_Eq, key_of, DnsEndpoint, DnsEndpointSpec, IstioGateway, IstioGatewaySpec,
}
use service_router_operator.Client.Monad.{ListOptions, ObjectClient, ok}
use service_router_operator.Client.Laws.{Kind, selects, IsStore}

pub record StoredEndpoint : Type 0 where
  pub labels : List (String × String)
  pub annotations : List (String × String)
  pub spec : DnsEndpointSpec

abbrev pub endpoint_kind : Kind DnsEndpoint StoredEndpoint
endpoint_kind = record {
  meta = λ e. e.meta;
  view = λ e. record { labels = e.meta.labels; annotations = e.meta.annotations; spec = e.spec };
  labels = λ v. v.labels;
}

pub record StoredIstioGateway : Type 0 where
  pub labels : List (String × String)
  pub spec : IstioGatewaySpec

abbrev pub istio_gateway_kind : Kind IstioGateway StoredIstioGateway
istio_gateway_kind = record {
  meta = λ g. g.meta;
  view = λ g. record { labels = g.meta.labels; spec = g.spec };
  labels = λ v. v.labels;
}

-- What is left of an object when those that are selected are deleted.
abbrev pub without_selected :
    ListOptions → NamespacedName → Option StoredEndpoint → Option StoredEndpoint
without_selected o k none = none
without_selected o k (some v) = if selects o k v.labels then none else some v

module _ {S : Type 0} {c : ObjectClient S DnsEndpoint}
    (at : S → NamespacedName → Option StoredEndpoint) (store : IsStore endpoint_kind c at) where
  selected_of_listed :
      (o : ListOptions) (s s' : S) (xs : List DnsEndpoint) (k : NamespacedName) (v : StoredEndpoint)
      → c.list o s ≡ (ok xs, s')
      → any (λ e. key_of e.meta == k) xs ≡ true
      → at s k ≡ some v
      → selects o k v.labels ≡ true
  selected_of_listed o s s' xs k v listed h e =
      let (x, (stored, selected), same) = All-any _ _ xs (store.list_sound o s s' xs listed) h in
      let key_eq = (names_Eq.test_iff (key_of x.meta) k).0 same in
      let both : some (endpoint_kind.view x) ≡ some v =
        sym (subst (λ j. at s j ≡ some (endpoint_kind.view x)) key_eq stored) ∙ e in
      let view_eq : endpoint_kind.view x ≡ v = cc both in
      subst (λ u. selects o k u.labels ≡ true) view_eq
        (subst (λ j. selects o j x.meta.labels ≡ true) key_eq selected)

  -- Without the listed objects, the server keeps what is not selected.
  pub without_listed :
      (o : ListOptions) (s s' : S) (xs : List DnsEndpoint) (k : NamespacedName)
      → c.list o s ≡ (ok xs, s')
      → (if any (λ e. key_of e.meta == k) xs then none else at s k) ≡ without_selected o k (at s k)
  without_listed o s s' xs k listed = elim (Option-cases (at s k)) [
    | inl e ↦ rw e (ground arith)
    | inr (v, e) ↦ rw e (
        ground (
          arith,
          store.list_complete o s s' xs k v listed e,
          λ (h : any (λ e. key_of e.meta == k) xs ≡ true).
              selected_of_listed o s s' xs k v listed h e,
        ))
  ]
