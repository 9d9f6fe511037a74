-- ===== src/Tests/Memory/Visible.antt =====
-- The objects that the server in memory lists are those it keeps.
use service_router_operator.Base.{
  List, [], ◌∷◌, true, false, not, ◌&&◌, none, some, ◌≡◌, refl, sym, ◌∙◌, subst, inl, inr, arith,
  any, All, select, ◌==◌, if◌then◌else◌, Bool-cases, string_eq,
}
use service_router_operator.Api.{NamespacedName, names_Eq}
use service_router_operator.Client.{ListOptions, Kind, selects}
use service_router_operator.Tests.Memory.{key, mem_at, remove, visible, selected}

module _ {T V : Type 0} (kind : Kind T V) where
  pub mem_at-remove :
      (j k : NamespacedName) (s : List T)
      → mem_at kind (remove kind j s) k ≡ (if j == k then none else mem_at kind s k)
  mem_at-remove j k [] = ground arith
  mem_at-remove j k (e ∷ es) = ground (
    arith,
    mem_at-remove j k es,
    names_Eq.test_iff (key kind e) j,
    names_Eq.test_iff (key kind e) k,
    names_Eq.test_iff j k,
  )

  -- The server keeps the endpoint as it is.
  abbrev pub Kept : List T → T → Type 0
  Kept s e = mem_at kind s (key kind e) ≡ some (kind.view e)

  Kept-remove :
      (e : T) (s xs : List T) → All (Kept s) xs → All (Kept (e ∷ s)) (remove kind (key kind e) xs)
  Kept-remove e s [] h = tt
  Kept-remove e s (x ∷ xs) (p, h) = elim (Bool-cases (key kind x == key kind e)) [
    | inl same ↦ rw same (Kept-remove e s xs h)
    | inr other ↦
        let apart : (key kind e == key kind x) ≡ false = ground (
          arith,
          names_Eq.test_iff (key kind x) (key kind e),
          names_Eq.test_iff (key kind e) (key kind x),
        ) in
        rw other (rw apart p, Kept-remove e s xs h)
  ]

  pub visible-Kept : (s : List T) → All (Kept s) (visible kind s)
  visible-Kept [] = tt
  visible-Kept (e ∷ es) = (
    rw ((names_Eq.test_iff (key kind e) (key kind e)).1 refl) refl,
    Kept-remove e es (visible kind es) (visible-Kept es),
  )

  pub Kept-select :
      (o : ListOptions) (s xs : List T)
      → All (Kept s) xs
      → All (λ t. Kept s t × (selected kind o t ≡ true)) (select (selected kind o) xs)
  Kept-select o s [] h = tt
  Kept-select o s (x ∷ xs) (p, h) = elim (Bool-cases (selected kind o x)) [
    | inl chosen ↦ rw chosen ((p, chosen), Kept-select o s xs h)
    | inr passed ↦ rw passed (Kept-select o s xs h)
  ]

  any-remove :
      (j k : NamespacedName) (xs : List T)
      → any (λ e. key kind e == k) (remove kind j xs)
        ≡ (not (j == k) && any (λ e. key kind e == k) xs)
  any-remove j k [] = ground arith
  any-remove j k (x ∷ xs) = ground (
    arith,
    any-remove j k xs,
    names_Eq.test_iff (key kind x) j,
    names_Eq.test_iff (key kind x) k,
    names_Eq.test_iff j k,
  )

  pub any-visible :
      (k : NamespacedName) (s : List T) (v : V)
      → mem_at kind s k ≡ some v
      → any (λ e. key kind e == k) (visible kind s) ≡ true
  any-visible k [] v h = cc
  any-visible k (e ∷ es) v h =
      ground (arith, any-remove (key kind e) k (visible kind es), any-visible k es v)

  pub any-select :
      (o : ListOptions) (k : NamespacedName) (v : V) (s xs : List T)
      → All (Kept s) xs
      → mem_at kind s k ≡ some v
      → selects o k (kind.labels v) ≡ true
      → any (λ e. key kind e == k) xs ≡ true
      → any (λ e. key kind e == k) (select (selected kind o) xs) ≡ true
  any-select o k v s [] h e c a = cc
  any-select o k v s (x ∷ xs) (p, h) e c a = elim (Bool-cases (selected kind o x)) [
    | inl chosen ↦ rw chosen (ground (arith, any-select o k v s xs h e c))
    | inr passed ↦ elim (Bool-cases (key kind x == k)) [
      | inr other ↦ rw passed (any-select o k v s xs h e c (ground arith))
      | inl same ↦
          let xk = (names_Eq.test_iff (key kind x) k).0 same in
          let both : some (kind.view x) ≡ some v =
            sym (subst (λ j. mem_at kind s j ≡ some (kind.view x)) xk p) ∙ e in
          let view_eq : kind.view x ≡ v = cc both in
          let chosen : selected kind o x ≡ true =
            subst (λ j. selects o j (kind.labels (kind.view x)) ≡ true) (sym xk)
              (subst (λ u. selects o k (kind.labels u) ≡ true) (sym view_eq) c) in
          cc (sym chosen ∙ passed)
    ]
  ]
