-- ===== src/Shop/Charter.antt =====
-- What the Shop controller may do to the cluster, and what a status that it writes may claim.
pub mod Owning
pub mod Objects
pub mod Observability
pub mod Storage
pub mod Databases
pub mod Workloads
pub mod Migrations
pub mod Rounds
pub mod Reconciling
use shop_operator.Base.{
  ℕ, String, ◌<>◌, ◌≡◌, ◌≢◌, ◌⊎◌, ◌≤◌, ◌<◌, Bool, true, false, some, All, ◌==◌, [], ◌∷◌,
}
use shop_operator.Api.{Shop, ObjectMeta, database_standard, database_light}
use shop_operator.Kube.Objects.{
  Key, Kind, Obj, meta_of, key_of, Unstructured, StatefulSet, Job, Deployment, shop, wallet,
  discord_channel, secret, config_map, deployment, stateful_set, service, ingress, job, custom,
}
use shop_operator.Kube.Prog.{
  Error, is_not_found, ok, err, Request, get, create, update, update_status, read_random,
}
use shop_operator.Kube.Journal.{Event, Journal, Happened, Rule}
use shop_operator.Kube.Library.{Library}
use shop_operator.Shop.Microservice.{Microservice, shop_microservices}
use shop_operator.Shop.Names.{
  resource_name, service_resource_name, labels_for_component, desired_replicas,
}
use shop_operator.Shop.Database.{cnpg_cluster}
use shop_operator.Shop.Workload.{migration_job_name}

-- The server said that there is no such object.
abbrev pub Absent : Kind → Key → Event → Type 0
Absent k key e = (f : Error) × (is_not_found f ≡ true) × (e ≡ (get k key, err f))

-- A Job carries the name of its Shop in front, every other object `shop-` and that name.
abbrev pub ChildName : Kind → Shop → String → Type 0
ChildName job s name = (suffix : String) × (name ≡ s.metadata.name <> suffix)
ChildName _ s name = (suffix : String) × (name ≡ resource_name s <> suffix)

-- The status of a Postgres cluster counts a ready instance.
abbrev pub HasReadyInstance : Library → Unstructured → Type 0
HasReadyInstance lib c =
    (n : ℕ) × (1 ≤ n) × (lib.nested_int64 c.body ("status" ∷ "readyInstances" ∷ []) ≡ ok (some n))

-- What an object takes over from its Shop.
abbrev pub Conforms : (k : Kind) → Shop → Obj k → Type 0
Conforms wallet s o = (o.spec.shop_ref ≡ s.metadata.name) × (o.spec.address ≡ s.spec.wallet.address)
Conforms discord_channel s o =
    (o.spec.channel_name ≡ s.spec.discord_channel.channel_name)
    × (o.spec.server_id ≡ s.spec.discord_channel.server_id)
Conforms deployment s o =
    (m : Microservice) × (o.metadata.name ≡ service_resource_name s m)
    × (o.replicas ≡ some (desired_replicas s.spec.availability))
    × (o.selector ≡ labels_for_component s m.name)
    × (o.template_labels ≡ o.selector)
Conforms service s o =
    (m : Microservice) × (o.metadata.name ≡ service_resource_name s m)
    × (o.selector ≡ labels_for_component s m.name)
Conforms _ s o = Unit

-- The kinds that are brought back to what they should be. Secrets, Jobs and databases are not.
abbrev pub Converges : Kind → Type 0
Converges wallet = Unit
Converges discord_channel = Unit
Converges config_map = Unit
Converges deployment = Unit
Converges service = Unit
Converges ingress = Unit
Converges (custom g) = g.group ≡ "monitoring.coreos.com"
Converges _ = ⊥

module _ (lib : Library) (key : Key) where
  -- The Shop as the server answered it in this reconcile.
  abbrev pub Answered : Shop → Event → Type 0
  Answered s e = (e ≡ (get shop key, ok s)) ⊎ ((o : Shop) × (e ≡ (update_status shop o, ok s)))

  -- An object in the Shop's namespace, under a name of the Shop's, with the Shop as its controller.
  pub record IsChild (k : Kind) (o : Obj k) (l : Journal) : Type 0 where
    pub owner : Shop
    pub held : Happened (Answered owner) l
    pub namespace : (meta_of k o).namespace ≡ owner.metadata.namespace
    pub name : ChildName k owner (meta_of k o).name
    pub unowned : ObjectMeta
    pub controlled : lib.set_controller_reference shop owner.metadata unowned ≡ ok (meta_of k o)
    pub conforms : Conforms k owner o

  -- Secrets and Jobs are made only where the server had none.
  abbrev pub Fresh : (k : Kind) → Obj k → Journal → Type 0
  Fresh secret o l = Happened (Absent secret (key_of o.metadata)) l
  Fresh job o l = Happened (Absent job (key_of o.metadata)) l
  Fresh _ o l = Unit

  module _ (s : Shop) where
    abbrev pub child_key : String → Key
    child_key name = record { namespace = s.metadata.namespace; name = name }

    -- The server showed the Deployment with as many ready replicas.
    pub data Serves (m : Microservice) (n : ℕ) : Event → Type 0 where
      read :
          (k : Key) (d : Deployment)
          → k ≡ child_key (service_resource_name s m)
          → d.ready_replicas ≡ n
          → Serves m n (get deployment k, ok d)
      made :
          (o d : Deployment)
          → key_of o.metadata ≡ child_key (service_resource_name s m)
          → d.ready_replicas ≡ n
          → Serves m n (create deployment o, ok d)
      changed :
          (o d : Deployment)
          → key_of o.metadata ≡ child_key (service_resource_name s m)
          → d.ready_replicas ≡ n
          → Serves m n (update deployment o, ok d)

    -- The server showed the migration Job of the current image as succeeded.
    abbrev pub Succeeded : Microservice → Event → Type 0
    Succeeded m e =
        (j : Job) × (0 < j.succeeded)
        × (e ≡ (get job (child_key (migration_job_name lib s m)), ok j))

    abbrev pub Migrated : Microservice → Journal → Type 0
    Migrated m l =
        (m.has_migrations ≡ false)
        ⊎ (s.spec.database_type ≢ database_standard)
        ⊎ Happened (Succeeded m) l

    abbrev pub Up : ℕ → Journal → Microservice → Type 0
    Up n l m = Happened (Serves m n) l × Migrated m l

    -- The server showed the database at work: a ready replica of the StatefulSet of Redis, or a
    -- ready instance of the Postgres cluster.
    abbrev pub DatabaseUp : Event → Type 0
    DatabaseUp e =
        (s.spec.database_type ≡ database_light)
          × ((t : StatefulSet) × (1 ≤ t.ready_replicas)
              × (e ≡ (get stateful_set (child_key (resource_name s <> "-redis")), ok t)))
        ⊎ (s.spec.database_type ≢ database_light)
          × ((c : Unstructured) × HasReadyInstance lib c
              × ((e ≡ (get (custom cnpg_cluster) (child_key (resource_name s <> "-db")), ok c))
                  ⊎ ((o : Unstructured) × (e ≡ (create (custom cnpg_cluster) o, ok c)))))

    -- The Shop is called ready only if the database, every Deployment and the migrations are.
    abbrev pub Justified : Bool → Journal → Type 0
    Justified is_ready l =
        (is_ready ≡ false)
        ⊎ (is_ready ≡ true)
          × Happened DatabaseUp l
          × All (Up (desired_replicas s.spec.availability) l) shop_microservices

  -- A status for the Shop that the server answered, with nothing else changed.
  pub record IsTruthful (o : Shop) (l : Journal) : Type 0 where
    pub before : Shop
    pub held : Happened (Answered before) l
    pub metadata : o.metadata ≡ before.metadata
    pub spec : o.spec ≡ before.spec
    pub replicas : o.status.replicas ≡ desired_replicas before.spec.availability
    pub justified : Justified before o.status.ready l

  abbrev pub charter : Rule
  charter (get k q) l = Unit
  charter (create k o) l = IsChild k o l × Fresh k o l
  charter (update k o) l = IsChild k o l × Converges k
  charter (update_status shop o) l = IsTruthful o l
  charter (read_random n) l = n ≡ 24
  charter _ l = ⊥
