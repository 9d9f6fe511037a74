-- ===== src/Tests/Memory/Lawful.antt =====
-- The server in memory has the documented behaviour of an API server.
use service_router_operator.Base.{
  Comparable, List, [], ◌∷◌, true, none, some, ◌≡◌, refl, sym, ◌∙◌, ap, subst, inl, inr, any, All,
  ◌==◌, if◌then◌else◌, Bool-cases, Option-cases, string_eq,
}
use service_router_operator.Api.{NamespacedName, names_Eq}
use service_router_operator.Client.{ApiError, Result, ok, err, ListOptions, IsStore, Kind, selects}
use service_router_operator.Tests.Memory.{key, mem_at, mem_get, visible, selected, mem_store}
use service_router_operator.Tests.Memory.Visible.{
  Kept, mem_at-remove, Kept-select, visible-Kept, any-select, any-visible,
}

module _ {T V : Type 0} (kind : Kind T V) ⦃c : Comparable V⦄ where
  abbrev items : Result (List T) → List T
  items (ok xs) = xs
  items (err e) = []

  mem-list_sound :
      (o : ListOptions) (s s' : List T) (xs : List T)
      → (mem_store kind).list o s ≡ (ok xs, s')
      → All (λ t. Kept kind s t × (selected kind o t ≡ true)) xs
  mem-list_sound o s s' xs h =
      subst (All (λ t. Kept kind s t × (selected kind o t ≡ true))) (ap (λ p. items p.0) h)
        (Kept-select kind o s (visible kind s) (visible-Kept kind s))

  mem-list_complete :
      (o : ListOptions) (s s' : List T) (xs : List T) (k : NamespacedName) (v : V)
      → (mem_store kind).list o s ≡ (ok xs, s')
      → mem_at kind s k ≡ some v
      → selects o k (kind.labels v) ≡ true
      → any (λ t. key kind t == k) xs ≡ true
  mem-list_complete o s s' xs k v h e c =
      subst (λ ts. any (λ t. key kind t == k) ts ≡ true) (ap (λ p. items p.0) h)
        (any-select kind o k v s (visible kind s) (visible-Kept kind s) e c
          (any-visible kind k s v e))

  mem-create_ok :
      (t : T) (s s' : List T) (k : NamespacedName)
      → (mem_store kind).create t s ≡ (ok tt, s')
      → mem_at kind s' k ≡ (if key kind t == k then some (kind.view t) else mem_at kind s k)
  mem-create_ok t s s' k h = elim (Option-cases (mem_at kind s (key kind t))) [
    | inl e ↦ ap (λ p. mem_at kind p.1 k) (sym (rw (e, mem_store) at h))
    | inr (v, e) ↦ cc (ap (λ p. p.0) (rw (e, mem_store) at h))
  ]

  mem-patch_ok :
      (old new : T) (s s' : List T) (k : NamespacedName)
      → key kind old ≡ key kind new
      → ((key kind new == k) ≡ true → mem_at kind s k ≡ some (kind.view old))
      → (mem_store kind).patch old new s ≡ (ok tt, s')
      → mem_at kind s' k ≡ (if key kind new == k then some (kind.view new) else mem_at kind s k)
  mem-patch_ok old new s s' k same_key base h = elim (Option-cases (mem_at kind s (key kind new))) [
    | inl e ↦ cc (ap (λ p. p.0) (rw (e, mem_store) at h))
    | inr (v, e) ↦ elim (Bool-cases (kind.view old == kind.view new)) [
      | inr differ ↦ ap (λ p. mem_at kind p.1 k) (sym (rw (e, differ, mem_store) at h))
      | inl equal ↦
          let left : s ≡ s' = ap (λ p. p.1) (rw (e, equal, mem_store) at h) in
          let kept : mem_at kind s' k ≡ mem_at kind s k = ap (λ t. mem_at kind t k) (sym left) in
          elim (Bool-cases (key kind new == k)) [
            | inl here ↦ rw here (
                kept ∙ (base here ∙ ap some ((c.test_iff (kind.view old) (kind.view new)).0 equal)))
            | inr elsewhere ↦ rw elsewhere kept
          ]
    ]
  ]

  mem-delete_ok :
      (t : T) (s s' : List T) (k : NamespacedName)
      → (mem_store kind).delete t s ≡ (ok tt, s')
      → mem_at kind s' k ≡ (if key kind t == k then none else mem_at kind s k)
  mem-delete_ok t s s' k h = elim (Option-cases (mem_at kind s (key kind t))) [
    | inl e ↦ cc (ap (λ p. p.0) (rw (e, mem_store) at h))
    | inr (v, e) ↦
        ap (λ p. mem_at kind p.1 k) (sym (rw (e, mem_store) at h))
        ∙ mem_at-remove kind (key kind t) k s
  ]

  mem-delete_not_found :
      (t : T) (s s' : List T) (x : ApiError) (k : NamespacedName)
      → (mem_store kind).delete t s ≡ (err x, s')
      → (mem_at kind s (key kind t) ≡ none) × (mem_at kind s' k ≡ mem_at kind s k)
  mem-delete_not_found t s s' x k h = elim (Option-cases (mem_at kind s (key kind t))) [
    | inl e ↦ (e, ap (λ p. mem_at kind p.1 k) (sym (rw (e, mem_store) at h)))
    | inr (v, e) ↦ cc (ap (λ p. p.0) (rw (e, mem_store) at h))
  ]

  mem_get-ok :
      (k : NamespacedName) (s : List T) (t : T)
      → mem_get kind k s ≡ ok t
      → (key kind t ≡ k) × (mem_at kind s k ≡ some (kind.view t))
  mem_get-ok k [] t h = cc
  mem_get-ok k (e ∷ es) t h = elim (Bool-cases (key kind e == k)) [
    | inl same ↦
        let te : e ≡ t = cc (rw same at h) in
        (
          subst (λ x. key kind x ≡ k) te ((names_Eq.test_iff (key kind e) k).0 same),
          rw same (ap (λ x. some (kind.view x)) te),
        )
    | inr other ↦ rw other (mem_get-ok k es t (rw other at h))
  ]

  mem_get-none :
      (k : NamespacedName) (s : List T) (x : ApiError)
      → mem_get kind k s ≡ err x
      → mem_at kind s k ≡ none
  mem_get-none k [] x h = refl
  mem_get-none k (e ∷ es) x h = elim (Bool-cases (key kind e == k)) [
    | inl same ↦ cc (rw same at h)
    | inr other ↦ rw other (mem_get-none k es x (rw other at h))
  ]

  mem-get_ok :
      (k : NamespacedName) (s s' : List T) (t : T)
      → (mem_store kind).get k s ≡ (ok t, s')
      → (key kind t ≡ k) × (mem_at kind s k ≡ some (kind.view t))
  mem-get_ok k s s' t h = mem_get-ok k s t (ap (λ p. p.0) h)

  mem-get_not_found :
      (k : NamespacedName) (s s' : List T) (x : ApiError)
      → (mem_store kind).get k s ≡ (err x, s')
      → mem_at kind s k ≡ none
  mem-get_not_found k s s' x h = mem_get-none k s x (ap (λ p. p.0) h)

  -- The server in memory behaves as documented.
  pub mem-IsStore : IsStore kind (mem_store kind) (mem_at kind)
  mem-IsStore = record {
    get_same = λ j s k. refl;
    get_ok = mem-get_ok;
    get_not_found = λ k s s' e h n. mem-get_not_found k s s' e h;
    list_same = λ o s k. refl;
    list_sound = mem-list_sound;
    list_complete = mem-list_complete;
    create_ok = mem-create_ok;
    patch_ok = mem-patch_ok;
    delete_ok = mem-delete_ok;
    delete_not_found = λ t s s' e k h n. mem-delete_not_found t s s' e k h;
  }
