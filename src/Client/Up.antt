-- ===== src/Client/Up.antt =====
-- What the API server does where it is up, only this process writes and reads see all earlier
-- writes.
use service_router_operator.Base.{Bool, List, Option, none, some, true, is_some, ◌≡◌, ◌⊎◌}
use service_router_operator.Api.{NamespacedName, key_of}
use service_router_operator.Client.Monad.{
  ApiError, ok, err, is_not_found, ListOptions, ObjectClient,
}
use service_router_operator.Client.Laws.{Kind}

-- A server that is up, and its validation: a read finds the object or says that it is not there, and a
-- list succeeds; so do the creation of an object that is not there and that the validation accepts,
-- the patch from the object that is there to one that it accepts, and the deletion of one that is there.
pub record Answers {S T V : Type 0} (kind : Kind T V) (c : ObjectClient S T)
    (at : S → NamespacedName → Option V) (accepts : T → Bool) : Type 0 where
  pub gets :
      (k : NamespacedName) (s : S)
      → ((t : T) × ((c.get k s).0 ≡ ok t))
        ⊎ ((e : ApiError) × ((c.get k s).0 ≡ err e) × (is_not_found e ≡ true))
  pub lists : (o : ListOptions) (s : S) → (xs : List T) × ((c.list o s).0 ≡ ok xs)
  pub creates :
      (t : T) (s : S)
      → accepts t ≡ true
      → at s (key_of (kind.meta t)) ≡ none
      → (c.create t s).0 ≡ ok tt
  pub patches :
      (old new : T) (s : S)
      → accepts new ≡ true
      → key_of (kind.meta old) ≡ key_of (kind.meta new)
      → at s (key_of (kind.meta new)) ≡ some (kind.view old)
      → (c.patch old new s).0 ≡ ok tt
  pub deletes :
      (t : T) (s : S) → is_some (at s (key_of (kind.meta t))) ≡ true → (c.delete t s).0 ≡ ok tt
