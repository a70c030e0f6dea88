-- ===== src/Shop/Reasons.antt =====
-- Why a reconcile of a Shop ends as it does: what the server showed when the Shop is not reported
-- as ready, and where an error comes from.
pub mod Owned
pub mod Monitored
pub mod Databases
pub mod DatabaseStates
pub mod Workloads
pub mod Rounds
pub mod Reconciling
pub mod Settling
use shop_operator.Base.{
  ℕ, String, ◌<>◌, ◌≡◌, ◌≢◌, ◌⊎◌, Bool, true, false, none, some, ◌==◌, leb, ltb,
}
use shop_operator.Api.{Shop, database_light}
use shop_operator.Kube.Objects.{
  Key, GroupVersionKind, Unstructured, StatefulSet, Job, stateful_set, job, shop, custom,
}
use shop_operator.Kube.Prog.{Error, is_not_found, is_no_match, ok, err, get, create, update_status}
use shop_operator.Kube.Journal.{Event, Journal, Happened}
use shop_operator.Kube.Library.{Library}
use shop_operator.Kube.Reconcile.{Requeue}
use shop_operator.Shop.Microservice.{Microservice, shop_microservices}
use shop_operator.Shop.Names.{resource_name, desired_replicas}
use shop_operator.Shop.Names.Injective.{Member}
use shop_operator.Shop.Database.{
  DatabaseState, operator_missing, provisioning, ready, cnpg_cluster, redis_kind,
  cnpg_cluster_ready,
}
use shop_operator.Shop.Workload.{migration_job_name}
use shop_operator.Shop.Controller.{database_ready_requeue, deployment_pending_requeue}
use shop_operator.Shop.Charter.{Absent, HasReadyInstance, Answered, Serves, child_key}
use shop_operator.Shop.Charter.Reconciling.{Reported}

-- The server does not know the kind.
abbrev pub Unknown : GroupVersionKind → Event → Type 0
Unknown g e =
    (f : Error) × (is_no_match f ≡ true)
    × (((k : Key) × (e ≡ (get (custom g) k, err f)))
        ⊎ ((o : Unstructured) × (e ≡ (create (custom g) o, err f))))

-- The kind of the database: Redis for the light type.
abbrev pub database_kind : Bool → GroupVersionKind
database_kind true = redis_kind
database_kind false = cnpg_cluster

module _ (lib : Library) (key : Key) (s : Shop) where
  -- The server showed the database without a ready instance: the StatefulSet of Redis without a
  -- ready replica, or absent, or the Postgres cluster without a ready instance.
  abbrev pub DatabaseDown : Event → Type 0
  DatabaseDown e =
      ((t : StatefulSet) × (t.ready_replicas ≡ 0)
        × (e ≡ (get stateful_set (child_key lib key s (resource_name s <> "-redis")), ok t)))
      ⊎ Absent stateful_set (child_key lib key s (resource_name s <> "-redis")) e
      ⊎ ((c : Unstructured) × (¬ HasReadyInstance lib c)
          × ((e ≡ (
            get (custom cnpg_cluster) (child_key lib key s (resource_name s <> "-db")),
            ok c,
          ))
              ⊎ ((o : Unstructured) × (e ≡ (create (custom cnpg_cluster) o, ok c)))))

  abbrev pub DatabaseReason : DatabaseState → Journal → Type 0
  DatabaseReason operator_missing l =
      Happened (Unknown (database_kind (s.spec.database_type == database_light))) l
  DatabaseReason provisioning l = Happened DatabaseDown l
  DatabaseReason ready l = Unit

  -- The migration Job of the current image was absent, or has not succeeded.
  abbrev pub Pending : Microservice → Event → Type 0
  Pending m e =
      Absent job (child_key lib key s (migration_job_name lib s m)) e
      ⊎ ((j : Job) × (j.succeeded ≡ 0)
          × (e ≡ (get job (child_key lib key s (migration_job_name lib s m)), ok j)))

  -- The server showed the Deployment with another number of ready replicas, or the migration Job as
  -- not done.
  abbrev pub Lacks : Microservice → Journal → Type 0
  Lacks m l =
      ((n : ℕ) × (n ≢ desired_replicas s.spec.availability) × Happened (Serves lib key s m n) l)
      ⊎ Happened (Pending m) l

-- Why a reconcile ends without an error as it does.
abbrev pub Explained : Library → Key → Requeue → Journal → Type 0
Explained lib key q l =
    (q ≡ none) × (Happened (Absent shop key) l ⊎ Happened (Reported true) l)
    ⊎ ((s : Shop) × Happened (Answered lib key s) l
        × Happened (Reported false) l
        × ((q ≡ some database_ready_requeue)
              × ((state : DatabaseState) × (state ≢ ready) × DatabaseReason lib key s state l)
            ⊎ (q ≡ some deployment_pending_requeue)
              × ((m : Microservice) × Member m shop_microservices × Lacks lib key s m l)))
