-- ===== src/Base/Sets.antt =====
-- Lists without repetition: the keys of a map, in any order in which `range` visits them.
use Prim.Native.Nat.{suc, ◌≤◌}
use mathlib.Core.Path.{◌≡◌, refl, sym, ◌∙◌, ap, ap₂, subst}
use mathlib.Core.Bool.{Bool, true, false, not, ◌&&◌, Bool-set}
use mathlib.Core.Logic.{∥∥₁_elim, inl, inr}
use mathlib.Core.List.{List, [], ◌∷◌, Perm, Permᴰ}
use native.Mathlib.Nat.{ℕ_set}
use native.Mathlib.Omega.{arith}
use service_router_operator.Base.Tests.{Comparable, ◌==◌, if◌then◌else◌, Bool-cases}
use service_router_operator.Base.Lists.{length, any, contains}
use service_router_operator.Base.Maps.{add, contains-add}

module _ {ℓ} {A : Type ℓ} where
  any-Permᴰ : (p : A → Bool) {xs ys : List A} → Permᴰ xs ys → any p xs ≡ any p ys
  any-Permᴰ p Permᴰ.nil = refl
  any-Permᴰ p (Permᴰ.cons {a} {b} e d) = ground (arith, any-Permᴰ p d, ap p e)
  any-Permᴰ p (Permᴰ.swap {a} {b} {a'} {b'} e f) = ground (arith, ap p e, ap p f)
  any-Permᴰ p (Permᴰ.trans d f) = any-Permᴰ p d ∙ any-Permᴰ p f

  length-Permᴰ : {xs ys : List A} → Permᴰ xs ys → length xs ≡ length ys
  length-Permᴰ Permᴰ.nil = refl
  length-Permᴰ (Permᴰ.cons e d) = ap suc (length-Permᴰ d)
  length-Permᴰ (Permᴰ.swap e f) = refl
  length-Permᴰ (Permᴰ.trans d f) = length-Permᴰ d ∙ length-Permᴰ f

  pub any-perm : (p : A → Bool) (xs ys : List A) → Perm xs ys → any p xs ≡ any p ys
  any-perm p xs ys h = ∥∥₁_elim h (Bool-set (any p xs) (any p ys)) (any-Permᴰ p)

  pub length-perm : (xs ys : List A) → Perm xs ys → length xs ≡ length ys
  length-perm xs ys h = ∥∥₁_elim h (ℕ_set (length xs) (length ys)) length-Permᴰ

module _ {ℓ} {A : Type ℓ} ⦃e : Comparable A⦄ where
  -- No element stands twice.
  abbrev pub distinct : List A → Bool
  distinct [] = true
  distinct (x ∷ xs) = not (contains x xs) && distinct xs

  pub distinct-add : (a : A) (xs : List A) → distinct xs ≡ true → distinct (add a xs) ≡ true
  distinct-add a [] h = refl
  distinct-add a (x ∷ xs) h =
      ground (arith, distinct-add a xs, contains-add a x xs, e.test_iff a x, e.test_iff x a)

  distinct_swap : (a b : A) (l : List A) → distinct (a ∷ b ∷ l) ≡ distinct (b ∷ a ∷ l)
  distinct_swap a b l = ground (arith, e.test_iff a b, e.test_iff b a)

  distinct-Permᴰ : {xs ys : List A} → Permᴰ xs ys → distinct xs ≡ distinct ys
  distinct-Permᴰ Permᴰ.nil = refl
  distinct-Permᴰ (Permᴰ.cons {a} {b} {l₁} {l₂} p d) =
      rw (p, distinct-Permᴰ d, any-Permᴰ (λ x. x == b) d)
  distinct-Permᴰ (Permᴰ.swap {a} {b} {a'} {b'} {l} p q) =
      ap₂ (λ x y. distinct (x ∷ y ∷ l)) p q ∙ distinct_swap b' a' l
  distinct-Permᴰ (Permᴰ.trans d f) = distinct-Permᴰ d ∙ distinct-Permᴰ f

  pub distinct-perm : (xs ys : List A) → Perm xs ys → distinct xs ≡ distinct ys
  distinct-perm xs ys h = ∥∥₁_elim h (Bool-set (distinct xs) (distinct ys)) distinct-Permᴰ

  -- Every element of the first list stands in the second.
  abbrev pub Within : List A → List A → Type ℓ
  Within xs ys = (a : A) → contains a xs ≡ true → contains a ys ≡ true

  without : A → List A → List A
  without a [] = []
  without a (x ∷ xs) = let rest = without a xs in if x == a then xs else x ∷ rest

  contains-without :
      (a b : A) (xs : List A)
      → (a == b) ≡ false
      → contains a xs ≡ true
      → contains a (without b xs) ≡ true
  unfolding without
  contains-without a b [] n h = cc
  contains-without a b (x ∷ xs) n h =
      ground (arith, contains-without a b xs n, e.test_iff x a, e.test_iff x b, e.test_iff a b)

  length-without :
      (b : A) (xs : List A) → contains b xs ≡ true → length xs ≡ suc (length (without b xs))
  unfolding without
  length-without b [] h = cc
  length-without b (x ∷ xs) h = ground (arith, length-without b xs)

  length-le_of_Within : (xs ys : List A) → distinct xs ≡ true → Within xs ys → length xs ≤ length ys
  length-le_of_Within [] ys d w = omega arith
  length-le_of_Within (x ∷ xs) ys d w =
      let rest =
        length-le_of_Within xs (without x ys) (ground arith)
          (λ a h. contains-without a x ys (other a h) (w a (ground arith))) in
      let here = length-without x ys (w x (ground (arith, e.test_iff x x))) in
      omega (arith, rest, here)
    where
      other : (a : A) → contains a xs ≡ true → (a == x) ≡ false
      other a h = elim (Bool-cases (a == x)) [
        | inr n ↦ n
        | inl same ↦
            ground (arith, e.test_iff a x, ap (λ y. contains y xs) ((e.test_iff a x).0 same))
      ]

  -- A list without repetition that stands in another of its length has all of its elements.
  pub Within-length :
      (xs ys : List A)
      → distinct xs ≡ true
      → Within xs ys
      → length xs ≡ length ys
      → (a : A) → contains a ys ≡ contains a xs
  Within-length xs ys d w l a = elim (Bool-cases (contains a xs)) [
    | inl h ↦ w a h ∙ sym h
    | inr n ↦ elim (Bool-cases (contains a ys)) [
      | inr m ↦ m ∙ sym n
      | inl h ↦
          absurd
            (omega (arith, length-le_of_Within (a ∷ xs) ys (ground arith) (λ b k. larger b k h), l))
    ]
  ]
    where
      larger : (b : A) → contains b (a ∷ xs) ≡ true → contains a ys ≡ true → contains b ys ≡ true
      larger b k h = elim (Bool-cases (contains b xs)) [
        | inl m ↦ w b m
        | inr m ↦ subst (λ c. contains c ys ≡ true) ((e.test_iff a b).0 (ground arith)) h
      ]

module _ {ℓ} {A : Type ℓ} ⦃e : Comparable A⦄ where
  pub perm_singleton : (xs : List A) (a : A) → Perm xs (a ∷ []) → xs ≡ a ∷ []
  perm_singleton [] a p = absurd (omega (arith, length-perm [] (a ∷ []) p))
  perm_singleton (x ∷ []) a p =
      ground (arith, any-perm (λ y. y == a) (x ∷ []) (a ∷ []) p, e.test_iff x a, e.test_iff a a)
  perm_singleton (x ∷ y ∷ xs) a p = absurd (omega (arith, length-perm (x ∷ y ∷ xs) (a ∷ []) p))

  pub perm_nil : (xs : List A) → Perm xs [] → xs ≡ []
  perm_nil [] p = refl
  perm_nil (x ∷ xs) p = absurd (omega (arith, length-perm (x ∷ xs) [] p))
