-- ===== src/Tests/Memory.antt =====
-- A server in memory: the objects of one kind are its state, and every other kind of object is fixed.
mod Visible
pub mod Lawful
use service_router_operator.Base.{
  List, [], ◌∷◌, Bool, Comparable, true, false, not, ◌&&◌, Option, none, some, ◌≡◌, refl, sym, ◌∙◌,
  ap, subst, inl, inr, arith, any, All, select, ◌==◌, if◌then◌else◌, Bool-cases, Option-cases,
  string_eq,
}
use service_router_operator.Api.{NamespacedName, names_Eq, key_of, ObjectMeta}
use service_router_operator.Client.{
  Reason, ApiError, Result, ok, err, ListOptions, ObjectClient, IsStore, Kind, selects,
}

abbrev pub missing : ApiError
missing = record { reason = Reason.not_found; message = "not found" }

abbrev already_exists : ApiError
already_exists = record { reason = Reason.other; message = "already exists" }

module _ {T : Type 0} (meta : T → ObjectMeta) where
  abbrev pub find : NamespacedName → List T → Result T
  find k [] = err missing
  find k (t ∷ ts) = if key_of (meta t) == k then ok t else find k ts

  -- A kind of object of which the server has a fixed list.
  abbrev pub fixed : {S : Type 0} → List T → ObjectClient S T
  fixed ts = record {
    get = λ k s. (find k ts, s);
    list = λ o s. (ok (select (λ t. selects o (key_of (meta t)) (meta t).labels) ts), s);
    create = λ _ s. (ok tt, s);
    patch = λ _ _ s. (ok tt, s);
    delete = λ _ s. (ok tt, s);
    update_status = λ _ s. (ok tt, s);
  }

module _ {T V : Type 0} (kind : Kind T V) where
  abbrev pub key : T → NamespacedName
  key e = key_of (kind.meta e)

  abbrev pub mem_at : List T → NamespacedName → Option V
  mem_at [] k = none
  mem_at (e ∷ es) k = if key e == k then some (kind.view e) else mem_at es k

  abbrev pub mem_get : NamespacedName → List T → Result T
  mem_get k [] = err missing
  mem_get k (e ∷ es) = if key e == k then ok e else mem_get k es

  abbrev pub remove : NamespacedName → List T → List T
  remove k [] = []
  remove k (e ∷ es) = let rest = remove k es in if key e == k then rest else e ∷ rest

  -- The first object under each key.
  abbrev pub visible : List T → List T
  visible [] = []
  visible (e ∷ es) = e ∷ remove (key e) (visible es)

  abbrev pub selected : ListOptions → T → Bool
  selected o e = selects o (key e) (kind.labels (kind.view e))

  -- A patch whose two objects do not differ is empty.
  abbrev pub mem_store : ⦃c : Comparable V⦄ → ObjectClient (List T) T
  mem_store = record {
    get = λ k s. (mem_get k s, s);
    list = λ o s. (ok (select (selected o) (visible s)), s);
    create =
        λ e s. elim (mem_at s (key e)) [ none ↦ (ok tt, e ∷ s) | some _ ↦ (err already_exists, s) ];
    patch = λ old new s. elim (mem_at s (key new)) [
      | none ↦ (err missing, s)
      | some _ ↦ (ok tt, if kind.view old == kind.view new then s else new ∷ s)
    ];
    delete = λ e s. elim (mem_at s (key e)) [
      | none ↦ (err missing, s)
      | some _ ↦ (ok tt, remove (key e) s)
    ];
    update_status = λ _ s. (ok tt, s);
  }
