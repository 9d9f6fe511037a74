-- ===== src/ServiceRoute/Endpoints/Keys.antt =====
-- The texts `namespace/name` under which `reconcileDNSEndpoints` keeps its maps
-- (internal/controller/routing/serviceroute_controller.go).
use text.Mathlib.TextEquality.{IsScalar-prop}
use text.Mathlib.TextLemmas.{append_cancel_left, append-nil}
use mathlib.Core.List.{Perm}
use service_router_operator.Base.{
  String, List, [], ◌∷◌, true, ◌||◌, Option, some, ◌≡◌, sym, ◌∙◌, subst, inl, inr, arith, any, All,
  ◌==◌, Bool-cases, string_eq, concat, assign, lookup, distinct, keys, contains,
  distinct-keys-assign, contains-keys-assign, All-perm,
}
use service_router_operator.Api.{NamespacedName, names_Eq, DnsEndpoint}
use service_router_operator.ServiceRoute.Endpoints.{endpoint_key, endpoint_map}

abbrev pub text_key : NamespacedName → String
text_key k = concat (k.namespace ∷ "/" ∷ k.name ∷ [])

text_key_name : (ns a b : String) → concat (ns ∷ "/" ∷ a ∷ []) ≡ concat (ns ∷ "/" ∷ b ∷ []) → a ≡ b
text_key_name ns a b h =
    let front = append_cancel_left ns (concat ("/" ∷ a ∷ [])) (concat ("/" ∷ b ∷ [])) h in
    let back = append_cancel_left "/" (concat (a ∷ [])) (concat (b ∷ [])) front in
    sym (append-nil a) ∙ (back ∙ append-nil b)

-- In one namespace the text tells the key.
pub text_key_iff :
    (j k : NamespacedName) → j.namespace ≡ k.namespace → (j == k) ≡ (text_key j == text_key k)
text_key_iff j k e = ground (
  arith,
  string_eq.test_iff j.name k.name,
  string_eq.test_iff j.namespace k.namespace,
  string_eq.test_iff (text_key j) (text_key k),
  text_key_name k.namespace j.name k.name,
)

-- An entry of a map: an endpoint of the namespace under its text.
abbrev pub IsEntry : String → String × DnsEndpoint → Type 0
IsEntry ns en = (en.0 ≡ endpoint_key en.1) × (en.1.meta.namespace ≡ ns)

IsEntry-prop : (ns : String) (en : String × DnsEndpoint) → IsProp (IsEntry ns en)
IsEntry-prop ns en = hlevel IsScalar-prop

pub DnsEndpoint-set : IsSet (Option DnsEndpoint)
DnsEndpoint-set = hlevel IsScalar-prop

pub All-IsEntry-perm :
    (ns : String) (m n : List (String × DnsEndpoint))
    → Perm m n
    → All (IsEntry ns) m
    → All (IsEntry ns) n
All-IsEntry-perm ns m n = All-perm (IsEntry ns) (IsEntry-prop ns) m n

All-assign :
    (P : String × DnsEndpoint → Type 0) (t : String) (e : DnsEndpoint)
    (m : List (String × DnsEndpoint))
    → P (t, e)
    → All P m
    → All P (assign t e m)
All-assign P t e [] p h = (p, h)
All-assign P t e ((j, w) ∷ m) p (q, h) = elim (Bool-cases (j == t)) [
  | inl same ↦ rw same (p, h)
  | inr other ↦ rw other (q, All-assign P t e m p h)
]

-- A property of each listed endpoint under its text is one of each entry.
pub All-endpoint_map :
    (P : String × DnsEndpoint → Type 0) (es : List DnsEndpoint) (m : List (String × DnsEndpoint))
    → All (λ e. P (endpoint_key e, e)) es
    → All P m
    → All P (endpoint_map es m)
unfolding endpoint_map
All-endpoint_map P [] m h k = k
All-endpoint_map P (e ∷ es) m (p, h) k =
    All-endpoint_map P es (assign (endpoint_key e) e m) h (All-assign P (endpoint_key e) e m p k)

pub distinct-endpoint_map :
    (es : List DnsEndpoint) (m : List (String × DnsEndpoint))
    → distinct (keys m) ≡ true
    → distinct (keys (endpoint_map es m)) ≡ true
unfolding endpoint_map
distinct-endpoint_map [] m h = h
distinct-endpoint_map (e ∷ es) m h =
    distinct-endpoint_map es (assign (endpoint_key e) e m)
      (distinct-keys-assign (endpoint_key e) e m h)

pub contains-endpoint_map :
    (t : String) (es : List DnsEndpoint) (m : List (String × DnsEndpoint))
    → contains t (keys (endpoint_map es m))
      ≡ (contains t (keys m) || any (λ e. endpoint_key e == t) es)
unfolding endpoint_map
contains-endpoint_map t [] m = ground arith
contains-endpoint_map t (e ∷ es) m = ground (
  arith,
  contains-endpoint_map t es (assign (endpoint_key e) e m),
  contains-keys-assign (endpoint_key e) t e m,
)

pub lookup-All :
    (P : String × DnsEndpoint → Type 0) (t : String) (e : DnsEndpoint)
    (m : List (String × DnsEndpoint))
    → All P m
    → lookup t m ≡ some e
    → P (t, e)
lookup-All P t e [] h k = cc
lookup-All P t e ((j, w) ∷ m) (p, h) k = elim (Bool-cases (j == t)) [
  | inl same ↦
      let found : w ≡ e = ground arith in
      subst (λ x. P (x, e)) ((string_eq.test_iff j t).0 same) (subst (λ x. P (j, x)) found p)
  | inr other ↦ lookup-All P t e m h (ground arith)
]
