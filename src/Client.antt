-- ===== src/Client.antt =====
-- What the operator takes from controller-runtime and the API machinery, as parameters: the typed
-- client, `meta.SetStatusCondition`, `metav1.NewControllerRef`, and the order in which Go's `range`
-- visits a map. Any call of the client may fail and may find that other actors changed the server.
mod Monad
mod Laws
mod Stores
mod Up
pub use Monad.*
pub use Laws.*
pub use Stores.*
pub use Up.*
