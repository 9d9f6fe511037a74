-- ===== src/Client/Laws.antt =====
-- How the monad's calls are taken apart, and what is documented of the API server where nobody else
-- writes: a store of objects under their keys.
use mathlib.Core.List.{Perm}
use service_router_operator.Base.{
  String, List, Bool, true, false, ◌&&◌, Option, none, some, ◌≡◌, ◌⊎◌, inl, inr, refl, ap, ◌∙◌, all,
  any, All, lookup, ◌==◌, string_eq, if◌then◌else◌, Bool-cases,
}
use service_router_operator.Api.{NamespacedName, names_Eq, ObjectMeta, key_of, DnsEndpoint}
use service_router_operator.Client.Monad.{
  Result, ok, err, ApiError, World, M, chain, call, ListOptions, ObjectClient, is_not_found,
  MapOrder, GatewayControllerConfig, finish, is_conflict, ReconcileResult,
}

module _ {S A B : Type 0} where
  pub chain-eq-ok :
      (p : Result A × World S) (f : A → M S B) {b : B} {w' : World S}
      → chain p f ≡ (ok b, w')
      → (a : A) × (w₁ : World S) × (p ≡ (ok a, w₁)) × (f a w₁ ≡ (ok b, w'))
  chain-eq-ok (ok a, w₁) f h = (a, w₁, refl, h)
  chain-eq-ok (err e, w₁) f h = cc

-- A call that succeeds, and a continuation that does.
pub chain-ok :
    {S A B : Type 0} (p : Result A × World S) (f : A → M S B) {a : A} {b : B}
    → p.0 ≡ ok a
    → ((v : World S) → (f a v).0 ≡ ok b)
    → (chain p f).0 ≡ ok b
chain-ok (ok x, w₁) f h k = ap (λ r. (chain (r, w₁) f).0) h ∙ k w₁
chain-ok (err e, w₁) f h k = cc

pub Result-cases :
    {A : Type 0} (r : Result A) → ((a : A) × (r ≡ ok a)) ⊎ ((e : ApiError) × (r ≡ err e))
Result-cases (ok a) = inl (a, refl)
Result-cases (err e) = inr (e, refl)

pub ok-inj : {A : Type 0} {a b : A} → ok a ≡ ok b → a ≡ b
ok-inj {a = a} h = ap (λ r. elim r [ ok x ↦ x | err _ ↦ a ]) h

pub some-inj : {A : Type 0} {a b : A} → some a ≡ some b → a ≡ b
some-inj {a = a} h = ap (λ o. elim o [ some x ↦ x | none ↦ a ]) h

-- A call is the server's operation.
pub call-eq :
    {S A : Type 0} (op : S → Result A × S) {r : Result A} (w : World S) {w' : World S}
    → call op w ≡ (r, w')
    → op w.server ≡ (r, w'.server)
call-eq op w h = ap (λ p. (p.0, p.1.server)) h

-- How a handler ends leaves the server as the update of the status does.
pub finish_server :
    {S : Type 0} (update : M S (Unit {0})) (result : ReconcileResult) (w : World S)
    → (finish update result w).1 ≡ (update w).1
finish_server update result w = elim (Result-cases (update w).0) [
  | inl (_, e) ↦ rw (finish, e) refl
  | inr (x, e) ↦ elim (Bool-cases (is_conflict x)) [
    | inl c ↦ rw (finish, e, c) refl
    | inr c ↦ rw (finish, e, c) refl
  ]
]

-- The labels hold each required pair.
abbrev pub labels_match : List (String × String) → List (String × String) → Bool
labels_match labels = all (λ kv. elim (lookup kv.0 labels) [ none ↦ false | some v ↦ v == kv.1 ])

abbrev in_namespace : Option String → String → Bool
in_namespace none ns = true
in_namespace (some n) ns = n == ns

-- An object under the key, with the labels, is listed.
abbrev pub selects : ListOptions → NamespacedName → List (String × String) → Bool
selects o k labels =
    in_namespace o.in_namespace k.namespace
    && (labels_match labels o.matching_labels
        && all (λ name. elim (lookup name labels) [ none ↦ false | some _ ↦ true ]) o.has_labels)

-- What the server keeps of an object: `V`, seen by `view`, with its labels.
pub record Kind (T V : Type 0) : Type 0 where
  pub meta : T → ObjectMeta
  pub view : T → V
  pub labels : V → List (String × String)

-- The documented behaviour of the API server at one kind, where only this process writes and, which is
-- more than the manager's cached client promises, where each read sees all earlier writes: the server
-- keeps one object under each key, which `Get` finds; `List` returns those that are selected, as they
-- are kept; a write that succeeds changes the one object. A patch is the difference of its two
-- objects, so it leaves the new one only where the server keeps the old one. Any call may still fail.
pub record IsStore {S T V : Type 0} (kind : Kind T V) (c : ObjectClient S T)
    (at : S → NamespacedName → Option V) : Type 0 where
  pub get_same : (j : NamespacedName) (s : S) (k : NamespacedName) → at (c.get j s).1 k ≡ at s k
  pub get_ok :
      (k : NamespacedName) (s s' : S) (t : T)
      → c.get k s ≡ (ok t, s')
      → (key_of (kind.meta t) ≡ k) × (at s k ≡ some (kind.view t))
  pub get_not_found :
      (k : NamespacedName) (s s' : S) (e : ApiError)
      → c.get k s ≡ (err e, s')
      → is_not_found e ≡ true
      → at s k ≡ none
  pub list_same : (o : ListOptions) (s : S) (k : NamespacedName) → at (c.list o s).1 k ≡ at s k
  pub list_sound :
      (o : ListOptions) (s s' : S) (xs : List T)
      → c.list o s ≡ (ok xs, s')
      → All
          (λ t.
            (at s (key_of (kind.meta t)) ≡ some (kind.view t))
            × (selects o (key_of (kind.meta t)) (kind.labels (kind.view t)) ≡ true))
          xs
  pub list_complete :
      (o : ListOptions) (s s' : S) (xs : List T) (k : NamespacedName) (v : V)
      → c.list o s ≡ (ok xs, s')
      → at s k ≡ some v
      → selects o k (kind.labels v) ≡ true
      → any (λ t. key_of (kind.meta t) == k) xs ≡ true
  pub create_ok :
      (t : T) (s s' : S) (k : NamespacedName)
      → c.create t s ≡ (ok tt, s')
      → at s' k ≡ (if key_of (kind.meta t) == k then some (kind.view t) else at s k)
  pub patch_ok :
      (old new : T) (s s' : S) (k : NamespacedName)
      → key_of (kind.meta old) ≡ key_of (kind.meta new)
      → ((key_of (kind.meta new) == k) ≡ true → at s k ≡ some (kind.view old))
      → c.patch old new s ≡ (ok tt, s')
      → at s' k ≡ (if key_of (kind.meta new) == k then some (kind.view new) else at s k)
  pub delete_ok :
      (t : T) (s s' : S) (k : NamespacedName)
      → c.delete t s ≡ (ok tt, s')
      → at s' k ≡ (if key_of (kind.meta t) == k then none else at s k)
  pub delete_not_found :
      (t : T) (s s' : S) (e : ApiError) (k : NamespacedName)
      → c.delete t s ≡ (err e, s')
      → is_not_found e ≡ true
      → (at s (key_of (kind.meta t)) ≡ none) × (at s' k ≡ at s k)

-- `range` visits every entry of a map once, in some order.
pub record IsMapOrder (r : MapOrder) : Type 0 where
  pub hosts : (xs : List String) → Perm (r.hosts xs) xs
  pub namespaces : (xs : List String) → Perm (r.namespaces xs) xs
  pub desired : (xs : List (String × DnsEndpoint)) → Perm (r.desired xs) xs
  pub existing : (xs : List (String × DnsEndpoint)) → Perm (r.existing xs) xs
  pub service_namespaces : (xs : List String) → Perm (r.service_namespaces xs) xs
  pub configs : (xs : List GatewayControllerConfig) → Perm (r.configs xs) xs
