-- ===== src/Base/Perms.antt =====
-- Maps whose entries are visited in another order.
use mathlib.Core.Path.{◌≡◌, refl, sym, ◌∙◌, ap, ap₂, subst}
use mathlib.Core.Bool.{true, false, ◌||◌}
use mathlib.Core.Logic.{∥∥₁_elim}
use mathlib.Core.Option.{Option, none, some}
use mathlib.Core.List.{List, [], ◌∷◌, Perm, Permᴰ, map}
use mathlib.Core.List.Perm
use mathlib.Core.HLevel.{×_prop}
use native.Mathlib.Omega.{arith}
use service_router_operator.Base.Tests.{Comparable, ◌==◌, if◌then◌else◌}
use service_router_operator.Base.Lists.{contains, All}
use service_router_operator.Base.Maps.{lookup, assign}
use service_router_operator.Base.Sets.{distinct, distinct-perm}

module _ {ℓ κ} {A : Type ℓ} (P : A → Type κ) where
  All-Permᴰ : {xs ys : List A} → Permᴰ xs ys → All P xs → All P ys
  All-Permᴰ Permᴰ.nil h = h
  All-Permᴰ (Permᴰ.cons e d) (p, h) = (subst P e p, All-Permᴰ d h)
  All-Permᴰ (Permᴰ.swap e f) (p, (q, h)) = (subst P f q, (subst P e p, h))
  All-Permᴰ (Permᴰ.trans d f) h = All-Permᴰ f (All-Permᴰ d h)

  All-prop : ((x : A) → IsProp (P x)) → (xs : List A) → IsProp (All P xs)
  All-prop prop [] = hlevel
  All-prop prop (x ∷ xs) = ×_prop (prop x) (All-prop prop xs)

  pub All-perm : ((x : A) → IsProp (P x)) → (xs ys : List A) → Perm xs ys → All P xs → All P ys
  All-perm prop xs ys perm h = ∥∥₁_elim perm (All-prop prop ys) (λ d. All-Permᴰ d h)

module _ {ℓ κ} {K : Type ℓ} {V : Type κ} ⦃e : Comparable K⦄ where
  -- The keys of a map.
  abbrev pub keys : List (K × V) → List K
  keys [] = []
  keys ((k, v) ∷ m) = k ∷ keys m

  keys-map : (m : List (K × V)) → keys m ≡ map (λ kv. kv.0) m
  keys-map [] = refl
  keys-map ((k, v) ∷ m) = ap (◌∷◌ k) (keys-map m)

  pub keys-perm : (m n : List (K × V)) → Perm m n → Perm (keys m) (keys n)
  keys-perm m n p = rw (keys-map m, keys-map n) (Perm.map (λ kv. kv.0) p)

  pub contains-keys-assign :
      (k j : K) (v : V) (m : List (K × V))
      → contains j (keys (assign k v m)) ≡ (k == j || contains j (keys m))
  contains-keys-assign k j v [] = refl
  contains-keys-assign k j v ((i, w) ∷ m) =
      ground (arith, e.test_iff k j, e.test_iff i k, e.test_iff i j, contains-keys-assign k j v m)

  pub distinct-keys-assign :
      (k : K) (v : V) (m : List (K × V))
      → distinct (keys m) ≡ true
      → distinct (keys (assign k v m)) ≡ true
  distinct-keys-assign k v [] h = refl
  distinct-keys-assign k v ((j, w) ∷ m) h = ground (
    arith,
    distinct-keys-assign k v m,
    contains-keys-assign k j v m,
    e.test_iff j k,
    e.test_iff k j,
  )

  pub lookup_missing :
      (k : K) (m : List (K × V)) → (lookup k m ≡ none) → contains k (keys m) ≡ false
  lookup_missing k [] h = refl
  lookup_missing k ((j, v) ∷ m) h = ground (arith, lookup_missing k m)

  pub missing_lookup : (k : K) (m : List (K × V)) → contains k (keys m) ≡ false → lookup k m ≡ none
  missing_lookup k [] h = refl
  missing_lookup k ((j, v) ∷ m) h = ground (arith, missing_lookup k m)

  lookup_swap :
      (k : K) (a b : K × V) (l : List (K × V))
      → (b.0 == a.0) ≡ false
      → lookup k (a ∷ b ∷ l) ≡ lookup k (b ∷ a ∷ l)
  lookup_swap k a b l h = ground (arith, e.test_iff a.0 k, e.test_iff b.0 k, e.test_iff b.0 a.0)

  lookup-Permᴰ :
      {m n : List (K × V)} (k : K) → Permᴰ m n → distinct (keys m) ≡ true → lookup k m ≡ lookup k n
  lookup-Permᴰ k Permᴰ.nil d = refl
  lookup-Permᴰ k (Permᴰ.cons {a} {b} {l₁} {l₂} p q) d =
      rw (lookup-Permᴰ k q (ground arith)) (ap (λ x. if x.0 == k then some x.1 else lookup k l₂) p)
  lookup-Permᴰ k (Permᴰ.swap {a} {b} {a'} {b'} {l} p q) d =
      lookup_swap k a b l (ground arith) ∙ ap₂ (λ x y. lookup k (y ∷ x ∷ l)) p q
  lookup-Permᴰ k (Permᴰ.trans {l₁} {l₂} p q) d =
      lookup-Permᴰ k p d
      ∙ lookup-Permᴰ k q (sym (distinct-perm (keys l₁) (keys l₂) (keys-perm l₁ l₂ ∣ p ∣₁)) ∙ d)

  -- A map with distinct keys has the same entries in any order.
  pub lookup-perm :
      IsSet (Option V)
      → (k : K) (m n : List (K × V)) → Perm m n
      → distinct (keys m) ≡ true
      → lookup k m ≡ lookup k n
  lookup-perm set k m n p d = ∥∥₁_elim p (set (lookup k m) (lookup k n)) (λ q. lookup-Permᴰ k q d)
