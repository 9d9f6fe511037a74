-- ===== src/ServiceRoute/Endpoints/Write.antt =====
-- What the loop that creates and updates the desired endpoints leaves on the server
-- (internal/controller/routing/serviceroute_controller.go).
use service_router_operator.Base.{
  String, List, [], ◌∷◌, true, false, ◌||◌, Option, none, some, ◌≡◌, refl, sym, ◌∙◌, ap, subst, inl,
  inr, arith, All, ◌==◌, if◌then◌else◌, Bool-cases, Option-cases, string_eq, nat_eq, lookup,
  distinct, keys, contains, missing_lookup,
}
use service_router_operator.Api.{
  NamespacedName, names_Eq, key_of, DnsEndpoint, DnsEndpointSpec, Endpoint,
}
use service_router_operator.Client.{
  Env, World, ok, IsStore, StoredEndpoint, endpoint_kind, chain-eq-ok, call-eq,
}
use service_router_operator.ServiceRoute.Endpoints.{
  strings_eq, endpoint_eq, endpoints_eq, deep_equal, endpoint_key, create_or_update,
  create_or_update_loop,
}
use service_router_operator.ServiceRoute.Endpoints.Keys.{
  text_key, text_key_iff, IsEntry, lookup-All,
}

strings_eq-eq : (a b : List String) → strings_eq a b ≡ true → a ≡ b
strings_eq-eq [] [] h = refl
strings_eq-eq [] (t ∷ ts) h = cc
strings_eq-eq (s ∷ ss) [] h = cc
strings_eq-eq (s ∷ ss) (t ∷ ts) h = ground (arith, string_eq.test_iff s t, strings_eq-eq ss ts)

endpoint_eq-eq : (a b : Endpoint) → endpoint_eq a b ≡ true → a ≡ b
endpoint_eq-eq a b h = ground (
  arith,
  string_eq.test_iff a.dns_name b.dns_name,
  string_eq.test_iff a.record_type b.record_type,
  strings_eq-eq a.targets b.targets,
)

endpoints_eq-eq : (a b : List Endpoint) → endpoints_eq a b ≡ true → a ≡ b
endpoints_eq-eq [] [] h = refl
endpoints_eq-eq [] (t ∷ ts) h = cc
endpoints_eq-eq (s ∷ ss) [] h = cc
endpoints_eq-eq (s ∷ ss) (t ∷ ts) h = ground (arith, endpoint_eq-eq s t, endpoints_eq-eq ss ts)

deep_equal-eq : (a b : DnsEndpointSpec) → deep_equal a b ≡ true → a ≡ b
unfolding deep_equal
deep_equal-eq a b h = ground (arith, endpoints_eq-eq a.endpoints b.endpoints)

-- The kept spec.
abbrev pub spec_of : Option StoredEndpoint → Option DnsEndpointSpec
spec_of none = none
spec_of (some v) = some v.spec

abbrev pub updated : DnsEndpoint → DnsEndpoint → DnsEndpoint
updated old d = record {
  meta = record (old.meta) { labels = d.meta.labels; annotations = d.meta.annotations };
  spec = d.spec;
}

here_contains :
    (t : String) (d : DnsEndpoint) (ds : List (String × DnsEndpoint)) (k : NamespacedName)
    → t ≡ endpoint_key d
    → (text_key k == endpoint_key d) ≡ true
    → (t == text_key k || contains (text_key k) (keys ds)) ≡ true
here_contains t d ds k te h =
    ground
      (arith, string_eq.test_iff t (text_key k), string_eq.test_iff (text_key k) (endpoint_key d))

later_contains :
    (t : String) (ds : List (String × DnsEndpoint)) (k : NamespacedName)
    → contains (text_key k) (keys ds) ≡ true
    → (t == text_key k || contains (text_key k) (keys ds)) ≡ true
later_contains t ds k h = ground arith

apart_of_distinct :
    (t : String) (d : DnsEndpoint) (ds : List (String × DnsEndpoint)) (k : NamespacedName)
    → t ≡ endpoint_key d
    → distinct (keys ((t, d) ∷ ds)) ≡ true
    → contains (text_key k) (keys ds) ≡ true
    → (text_key k == endpoint_key d) ≡ false
apart_of_distinct t d ds k te once c = elim (Bool-cases (text_key k == endpoint_key d)) [
  | inr apart ↦ apart
  | inl same ↦
      let tk = (string_eq.test_iff (text_key k) (endpoint_key d)).0 same ∙ sym te in
      let inside : contains t (keys ds) ≡ true = subst (λ x. contains x (keys ds) ≡ true) tk c in
      cc (rw inside at once)
]

module _ {S : Type 0} (env : Env S) (at : S → NamespacedName → Option StoredEndpoint)
    (store : IsStore endpoint_kind env.client.dns_endpoints at) (ns : String)
    (existing : List (String × DnsEndpoint)) (entries : All (IsEntry ns) existing) where
  -- The server keeps the existing endpoint that stands under the key's text.
  abbrev pub Knows : S → NamespacedName → Type 0
  Knows s k =
      (old : DnsEndpoint)
      → lookup (text_key k) existing ≡ some old
      → at s k ≡ some (endpoint_kind.view old)

  -- After one step: the key's spec if it is the desired endpoint's key, and else nothing new.
  abbrev Stepped : DnsEndpoint → S → S → NamespacedName → Type 0
  Stepped d s s' k =
      (((text_key k == endpoint_key d) ≡ true) → spec_of (at s' k) ≡ some d.spec)
      × (((text_key k == endpoint_key d) ≡ false) → at s' k ≡ at s k)

  -- The result of a write at a key under the text of `d`, of an object with its spec.
  written-Stepped :
      (d : DnsEndpoint) (j k : NamespacedName) (v : StoredEndpoint) (s s' : S)
      → (j == k) ≡ (endpoint_key d == text_key k)
      → v.spec ≡ d.spec
      → at s' k ≡ (if j == k then some v else at s k)
      → Stepped d s s' k
  written-Stepped d j k v s s' test same e = ground (
    arith,
    string_eq.test_iff (text_key k) (endpoint_key d),
    string_eq.test_iff (endpoint_key d) (text_key k),
  )

  unchanged-Stepped :
      (t : String) (d old : DnsEndpoint) (s s' : S) (k : NamespacedName)
      → t ≡ endpoint_key d
      → ((text_key k == endpoint_key d) ≡ true → Knows s k)
      → lookup t existing ≡ some old
      → old.spec ≡ d.spec
      → s ≡ s'
      → Stepped d s s' k
  unchanged-Stepped t d old s s' k te knows present same e = (
    (λ here.
        let at_text : text_key k ≡ t =
          (string_eq.test_iff (text_key k) (endpoint_key d)).0 here ∙ sym te in
        let kept = knows here old (ap (λ u. lookup u existing) at_text ∙ present) in
        ap (λ u. spec_of (at u k)) (sym e) ∙ ap spec_of kept ∙ ap some same),
    λ _. ap (λ u. at u k) (sym e),
  )

  -- The base of the patch is what the server keeps.
  base_kept :
      (t : String) (d old : DnsEndpoint) (s : S) (k : NamespacedName)
      → t ≡ endpoint_key d
      → t ≡ endpoint_key old
      → lookup t existing ≡ some old
      → ((text_key k == endpoint_key d) ≡ true → Knows s k)
      → (key_of old.meta == k) ≡ true
      → at s k ≡ some (endpoint_kind.view old)
  base_kept t d old s k te oe present knows here =
      let at_text : text_key k ≡ t =
        sym (ap text_key ((names_Eq.test_iff (key_of old.meta) k).0 here)) ∙ sym oe in
      knows ((string_eq.test_iff (text_key k) (endpoint_key d)).1 (at_text ∙ te)) old
        (ap (λ u. lookup u existing) at_text ∙ present)

  pub create_or_update-Stepped :
      (t : String) (d : DnsEndpoint) (w w' : World S) (k : NamespacedName)
      → IsEntry ns (t, d)
      → k.namespace ≡ ns
      → ((text_key k == endpoint_key d) ≡ true → Knows w.server k)
      → create_or_update env existing t d w ≡ (ok tt, w')
      → Stepped d w.server w'.server k
  unfolding create_or_update
  create_or_update-Stepped t d w w' k (te, dn) kn knows h =
      elim (Option-cases (lookup t existing)) [
        | inl absent ↦
            written-Stepped d (key_of d.meta) k (endpoint_kind.view d) w.server w'.server
              (text_key_iff (key_of d.meta) k (dn ∙ sym kn)) refl
              (store.create_ok d w.server w'.server k (
                call-eq (env.client.dns_endpoints.create d) w (rw (absent, create_or_update) at h)))
        | inr (old, present) ↦ elim (Bool-cases (deep_equal old.spec d.spec)) [
          | inl same ↦
              unchanged-Stepped t d old w.server w'.server k te knows present
                (deep_equal-eq old.spec d.spec same)
                (ap (λ p. p.1.server) (rw (present, same, create_or_update) at h))
          | inr different ↦
              let (oe, on) = lookup-All (IsEntry ns) t old existing entries present in
              written-Stepped d (key_of old.meta) k
                (record { labels = d.meta.labels; annotations = d.meta.annotations; spec = d.spec })
                w.server w'.server
                (text_key_iff (key_of old.meta) k (on ∙ sym kn)
                  ∙ ap (λ u. u == text_key k) (sym oe ∙ te))
                refl
                (store.patch_ok old (updated old d) w.server w'.server k refl
                  (base_kept t d old w.server k te oe present knows)
                  (call-eq (env.client.dns_endpoints.patch old (updated old d)) w
                    (rw (present, different, create_or_update) at h)))
        ]
      ]

  -- After the loop: the spec of the entry under the key's text, or nothing new if there is none.
  abbrev pub Looped : List (String × DnsEndpoint) → S → S → NamespacedName → Type 0
  Looped ds s s' k =
      (lookup (text_key k) ds ≡ none → at s' k ≡ at s k)
      × ((d : DnsEndpoint) → lookup (text_key k) ds ≡ some d → spec_of (at s' k) ≡ some d.spec)

  Looped-cons :
      (t : String) (d : DnsEndpoint) (ds : List (String × DnsEndpoint)) (s s₁ s' : S)
      (k : NamespacedName)
      → t ≡ endpoint_key d
      → distinct (keys ((t, d) ∷ ds)) ≡ true
      → Stepped d s s₁ k
      → Looped ds s₁ s' k
      → Looped ((t, d) ∷ ds) s s' k
  Looped-cons t d ds s s₁ s' k te once stepped looped = elim (Bool-cases (t == text_key k)) [
    | inl here ↦
        let tk = (string_eq.test_iff t (text_key k)).0 here in
        let gone : lookup (text_key k) ds ≡ none =
          missing_lookup (text_key k) ds
            (subst (λ x. contains x (keys ds) ≡ false) tk (ground arith)) in
        let written =
          stepped.0 ((string_eq.test_iff (text_key k) (endpoint_key d)).1 (sym tk ∙ te)) in
        (
          (λ e. cc (rw here at e)),
          λ d' e.
              let same : d ≡ d' = cc (rw here at e) in
              ap spec_of (looped.0 gone) ∙ (written ∙ ap (λ x. some x.spec) same),
        )
    | inr other ↦
        let apart : (text_key k == endpoint_key d) ≡ false = ground (
          arith,
          string_eq.test_iff t (text_key k),
          string_eq.test_iff (text_key k) (endpoint_key d),
        ) in
        rw other ((λ e. looped.0 e ∙ stepped.1 apart), looped.1)
  ]

  pub create_or_update_loop-at :
      (ds : List (String × DnsEndpoint)) (w w' : World S) (k : NamespacedName)
      → All (IsEntry ns) ds
      → distinct (keys ds) ≡ true
      → k.namespace ≡ ns
      → (contains (text_key k) (keys ds) ≡ true → Knows w.server k)
      → create_or_update_loop env existing ds w ≡ (ok tt, w')
      → Looped ds w.server w'.server k
  unfolding create_or_update_loop
  create_or_update_loop-at [] w w' k all_entries once kn knows h =
      (λ _. ap (λ p. at p.1.server k) (sym h), λ d e. cc)
  create_or_update_loop-at ((t, d) ∷ ds) w w' k (entry, more) once kn knows h =
      let (u, w₁, first, rest) =
        chain-eq-ok (create_or_update env existing t d w)
          (λ _. create_or_update_loop env existing ds) h in
      let stepped =
        create_or_update-Stepped t d w w₁ k entry kn
          (λ here. knows (here_contains t d ds k entry.0 here)) first in
      Looped-cons t d ds w.server w₁.server w'.server k entry.0 once stepped (
        create_or_update_loop-at ds w₁ w' k more (ground arith) kn
          (λ c old e.
            stepped.1 (apart_of_distinct t d ds k entry.0 once c)
            ∙ knows (later_contains t ds k c) old e)
          rest)
