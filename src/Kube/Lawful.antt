-- ===== src/Kube/Lawful.antt =====
-- What the proofs rely on about the libraries.
use shop_operator.Base.{String, true, false, ◌≡◌, ◌==◌, any}
use shop_operator.Api.{ObjectMeta}
use shop_operator.Kube.Objects.{Kind, Obj}
use shop_operator.Kube.Prog.{Result, ok, HttpRequest, M}
use shop_operator.Kube.Library.{Library, DeepEqual, create_or_update_doc}
use shop_operator.Kube.Monitor.{Monitor, Safe}

-- `CreateOrUpdate` does nothing that its documentation does not allow: what holds on every path of
-- the documented program holds on every path of the call.
pub record CreatesOrUpdates (lib : Library) : Type 1 where
  pub same : DeepEqual
  pub refines :
      (m : Monitor) (k : Kind) (o : Obj k) (f : Obj k → M (Obj k))
      (post : Result (Obj k) → m.State → Type 0) (g : m.State)
      → Safe m post (create_or_update_doc same k o f) g
      → Safe m post (lib.create_or_update k o f) g

-- The owner is named as the controller, and nothing else changes.
pub record SetsController (lib : Library) : Type 0 where
  pub keeps :
      (k : Kind) (owner object result : ObjectMeta)
      → lib.set_controller_reference k owner object ≡ ok result
      → record result { owner_references = object.owner_references } ≡ object
  pub controls :
      (k : Kind) (owner object result : ObjectMeta)
      → lib.set_controller_reference k owner object ≡ ok result
      → any (λ r. r.uid == owner.uid) result.owner_references ≡ true

-- A finalizer that is added is there, one that is removed is not, and nothing else changes.
pub record KeepsFinalizers (lib : Library) : Type 0 where
  pub contains-add :
      (o : ObjectMeta) (f : String) → lib.contains_finalizer (lib.add_finalizer o f) f ≡ true
  pub contains-remove :
      (o : ObjectMeta) (f : String) → lib.contains_finalizer (lib.remove_finalizer o f) f ≡ false
  pub add_keeps :
      (o : ObjectMeta) (f : String)
      → record (lib.add_finalizer o f) { finalizers = o.finalizers } ≡ o
  pub remove_keeps :
      (o : ObjectMeta) (f : String)
      → record (lib.remove_finalizer o f) { finalizers = o.finalizers } ≡ o

-- A request that was built is the one that was asked for.
pub record BuildsRequests (lib : Library) : Type 0 where
  pub builds : (q q' : HttpRequest) → lib.new_request q ≡ ok q' → q' ≡ q

-- `CreateOrUpdate` is the program of its documentation, and what is the same is not written.
pub record IsDocumented (lib : Library) : Type 0 where
  pub same : DeepEqual
  pub reflexive : (k : Kind) (o : Obj k) → same k o o ≡ true
  pub documented :
      (k : Kind) (o : Obj k) (f : Obj k → M (Obj k))
      → lib.create_or_update k o f ≡ create_or_update_doc same k o f
