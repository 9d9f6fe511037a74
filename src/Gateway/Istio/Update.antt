-- ===== src/Gateway/Istio/Update.antt =====
-- When an Istio Gateway is updated (internal/controller/routing/gateway_controller.go).
use service_router_operator.Base.{
  String, List, [], ◌∷◌, Option, none, some, true, false, ◌||◌, ◌==◌, ◌≡◌, ◌↔◌, refl, sym, ◌∙◌,
  arith, add, contains, contains-add, distinct, Within, Within-length, All, length, value_at,
  string_eq, nat_eq, beq_refl, Bool-cases, inl, inr, subst, ap,
}
use service_router_operator.Api.{IstioGateway, ServerTlsSettings, TlsMode, ObjectMeta}
use service_router_operator.Api
use service_router_operator.Gateway.Istio.{
  values_differ, host_set, hosts_missing, tls_mode_eq, tls_differs, servers_differ,
  istio_gateway_needs_update,
}

-- The map has the values of the second map at that one's keys.
abbrev pub HasValues : List (String × String) → List (String × String) → Type 0
HasValues m = All (λ kv. value_at kv.0 m ≡ kv.1)

values_differ-HasValues :
    (m kvs : List (String × String)) → (values_differ m kvs ≡ false) ↔ HasValues m kvs
unfolding values_differ
values_differ-HasValues m [] = ground arith
values_differ-HasValues m ((k, v) ∷ kvs) =
    ground (arith, values_differ-HasValues m kvs, string_eq.test_iff (value_at k m) v)

host_set-contains :
    (h : String) (hs hosts : List String)
    → contains h (host_set hs hosts) ≡ (contains h hosts || contains h hs)
unfolding host_set
host_set-contains h [] hosts = ground arith
host_set-contains h (x ∷ hs) hosts =
    ground (arith, host_set-contains h hs (add x hosts), contains-add x h hosts)

hosts_missing-Within :
    (existing hs : List String) → hosts_missing existing hs ≡ false → Within hs existing
unfolding hosts_missing
hosts_missing-Within existing [] e a h = cc
hosts_missing-Within existing (x ∷ hs) e a h = elim (Bool-cases (x == a)) [
  | inl same ↦
      subst (λ b. contains b existing ≡ true) ((string_eq.test_iff x a).0 same) (ground arith)
  | inr other ↦ hosts_missing-Within existing hs (ground arith) a (ground arith)
]

Within-hosts_missing :
    (existing hs : List String) → Within hs existing → hosts_missing existing hs ≡ false
unfolding hosts_missing
Within-hosts_missing existing [] w = refl
Within-hosts_missing existing (x ∷ hs) w =
    ground (arith, w x, beq_refl x, Within-hosts_missing existing hs (λ a h. w a (ground arith)))

-- Two TLS settings agree; a missing one agrees with any.
abbrev pub TlsAgrees : Option ServerTlsSettings → Option ServerTlsSettings → Type 0
TlsAgrees (some a) (some b) = (a.credential_name ≡ b.credential_name) × (a.mode ≡ b.mode)
TlsAgrees _ _ = Unit

tls_mode_eq_iff : (a b : TlsMode) → (tls_mode_eq a b ≡ true) ↔ (a ≡ b)
tls_mode_eq_iff a b = ground arith

tls_differs-TlsAgrees : (a b : Option ServerTlsSettings) → (tls_differs a b ≡ false) ↔ TlsAgrees a b
tls_differs-TlsAgrees none b = ground arith
tls_differs-TlsAgrees (some a) none = ground arith
tls_differs-TlsAgrees (some a) (some b) =
    ground
      (arith, string_eq.test_iff a.credential_name b.credential_name, tls_mode_eq_iff a.mode b.mode)

-- The same hosts, in any order, and TLS settings that agree.
abbrev pub ServerAgrees : Api.Server → Api.Server → Type 0
ServerAgrees a b =
    ((h : String) → contains h a.hosts ≡ contains h b.hosts)
    × (length a.hosts ≡ length b.hosts)
    × TlsAgrees a.tls b.tls

hosts_agree :
    (as' bs : List String)
    → distinct bs ≡ true
    → length as' ≡ length bs
    → hosts_missing (host_set as' []) bs ≡ false
    → (h : String) → contains h as' ≡ contains h bs
hosts_agree as' bs d l m =
    Within-length bs as' d
      (λ a h. sym (host_set-contains a as' []) ∙ hosts_missing-Within (host_set as' []) bs m a h)
      (sym l)

agree_hosts :
    (as' bs : List String)
    → ((h : String) → contains h as' ≡ contains h bs)
    → hosts_missing (host_set as' []) bs ≡ false
agree_hosts as' bs same =
    Within-hosts_missing (host_set as' []) bs (λ a h. host_set-contains a as' [] ∙ same a ∙ h)

servers_differ-ServerAgrees :
    (a b : Api.Server) (more more' : List Api.Server)
    → distinct b.hosts ≡ true
    → (servers_differ (a ∷ more) (b ∷ more') ≡ false) ↔ ServerAgrees a b
unfolding servers_differ
servers_differ-ServerAgrees a b more more' d = (
  (λ e.
      let same_length : length a.hosts ≡ length b.hosts = ground arith in
      (
        hosts_agree a.hosts b.hosts d same_length (ground arith),
        same_length,
        (tls_differs-TlsAgrees a.tls b.tls).0 (ground arith),
      )),
  λ (same, l, tls).
      ground (arith, agree_hosts a.hosts b.hosts same, (tls_differs-TlsAgrees a.tls b.tls).1 tls),
)

-- The existing Istio Gateway agrees with the desired one: its selector has the same number of
-- entries, and the desired values; so do its labels, which may be more; and its one server agrees.
abbrev pub Agrees : IstioGateway → IstioGateway → Api.Server → Type 0
Agrees existing desired b =
    (length existing.spec.selector ≡ length desired.spec.selector)
    × HasValues existing.spec.selector desired.spec.selector
    × HasValues existing.meta.labels desired.meta.labels
    × ((a : Api.Server) × (existing.spec.servers ≡ a ∷ []) × ServerAgrees a b)

-- One server each.
servers_differ_one :
    (existing desired : IstioGateway) (a b : Api.Server)
    → existing.spec.servers ≡ a ∷ []
    → desired.spec.servers ≡ b ∷ []
    → distinct b.hosts ≡ true
    → (servers_differ existing.spec.servers desired.spec.servers ≡ false) ↔ ServerAgrees a b
servers_differ_one existing desired a b e f d = rw (e, f) (servers_differ-ServerAgrees a b [] [] d)

lengths_of_no_update :
    (existing desired : IstioGateway)
    → istio_gateway_needs_update existing desired ≡ false
    → (length existing.spec.selector ≡ length desired.spec.selector)
      × (values_differ existing.spec.selector desired.spec.selector ≡ false)
      × (length existing.spec.servers ≡ length desired.spec.servers)
      × (servers_differ existing.spec.servers desired.spec.servers ≡ false)
      × (values_differ existing.meta.labels desired.meta.labels ≡ false)
unfolding istio_gateway_needs_update
lengths_of_no_update existing desired h =
    (ground arith, ground arith, ground arith, ground arith, ground arith)

no_update_of_parts :
    (existing desired : IstioGateway)
    → length existing.spec.selector ≡ length desired.spec.selector
    → values_differ existing.spec.selector desired.spec.selector ≡ false
    → length existing.spec.servers ≡ length desired.spec.servers
    → servers_differ existing.spec.servers desired.spec.servers ≡ false
    → values_differ existing.meta.labels desired.meta.labels ≡ false
    → istio_gateway_needs_update existing desired ≡ false
unfolding istio_gateway_needs_update
no_update_of_parts existing desired p q r s t = ground arith

one_of_length :
    (servers : List Api.Server) → length servers ≡ 1 → (a : Api.Server) × (servers ≡ a ∷ [])
one_of_length [] h = absurd (omega arith)
one_of_length (a ∷ []) h = (a, refl)
one_of_length (a ∷ b ∷ more) h = absurd (omega arith)

-- For a desired Istio Gateway with one server, whose hosts are distinct: no update is needed exactly
-- if the existing one agrees with it. So every difference in selector, hosts, labels or TLS settings
-- is found, except that TLS settings which the existing server lacks are not.
pub needs_update-Agrees :
    (existing desired : IstioGateway) (b : Api.Server)
    → desired.spec.servers ≡ b ∷ []
    → distinct b.hosts ≡ true
    → (istio_gateway_needs_update existing desired ≡ false) ↔ Agrees existing desired b
needs_update-Agrees existing desired b f d = (to, from)
  where
    to : istio_gateway_needs_update existing desired ≡ false → Agrees existing desired b
    to h =
        let (l, selector, n, servers, labels) = lengths_of_no_update existing desired h in
        let (a, e) = one_of_length existing.spec.servers (n ∙ ap length f) in
        (
          l,
          (values_differ-HasValues existing.spec.selector desired.spec.selector).0 selector,
          (values_differ-HasValues existing.meta.labels desired.meta.labels).0 labels,
          (a, e, (servers_differ_one existing desired a b e f d).0 servers),
        )

    from : Agrees existing desired b → istio_gateway_needs_update existing desired ≡ false
    from (l, selector, labels, (a, e, server)) =
        no_update_of_parts existing desired l
          ((values_differ-HasValues existing.spec.selector desired.spec.selector).1 selector)
          (ap length e ∙ sym (ap length f))
          ((servers_differ_one existing desired a b e f d).1 server)
          ((values_differ-HasValues existing.meta.labels desired.meta.labels).1 labels)
