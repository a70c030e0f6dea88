-- ===== src/Shop/Database.antt =====
-- The backing database of a Shop: `databaseState`, `reconcileDatabase` and what it calls
-- (internal/controller/shop_controller.go).
use shop_operator.Base.{
  ℕ, String, ◌<>◌, Bool, true, false, Option, some, List, [], ◌∷◌, ◌==◌, leb, if◌then◌else◌,
}
use shop_operator.Api.{Shop, database_light}
use shop_operator.Kube.Json.{Json, text, number, obj}
use shop_operator.Kube.Objects.{
  GroupVersionKind, EnvVar, Unstructured, StatefulSet, custom, stateful_set, shop, named, key_of,
}
use shop_operator.Kube.Prog.{
  is_not_found, is_no_match, Result, ok, err, get, create, M, request, pure, fail, lift, bind,
  ◌>>=◌, ◌>>◌,
}
use shop_operator.Kube.Library.{Library}
use shop_operator.Shop.Microservice.{redis_image}
use shop_operator.Shop.Names.{resource_name}
use shop_operator.Shop.AppEnv.{value, from_secret}
use shop_operator.Shop.Secrets.{ensure_redis_auth_secret}

pub data DatabaseState : Type 0 where
  operator_missing provisioning ready : DatabaseState

-- The environment variables for the app, and the state of the database.
abbrev pub Database : Type 0
Database = List EnvVar × DatabaseState

-- The object with its body set, owned by the Shop.
abbrev pub blank : String → String → Unstructured
blank namespace name = record { metadata = named namespace name; body = obj [] }

unfoldable pub database_state_from : Bool → Unstructured → (Unstructured → Bool) → DatabaseState
database_state_from exists o is_ready =
    if exists then (if is_ready o then ready else provisioning) else operator_missing

abbrev pub at_least_one : Result (Option ℕ) → Bool
at_least_one (ok (some n)) = leb 1 n
at_least_one _ = false

abbrev pub cnpg_cluster : GroupVersionKind
cnpg_cluster = record { group = "postgresql.cnpg.io"; version = "v1"; kind = "Cluster" }

abbrev pub postgres_spec : Json
postgres_spec = obj (("instances", number 1) ∷ ("storage", obj (("size", text "1Gi") ∷ [])) ∷ [])

abbrev pub postgres_env : String → List EnvVar
postgres_env app_secret =
    from_secret "DATABASE_HOST" app_secret "host"
    ∷ from_secret "DATABASE_PORT" app_secret "port"
    ∷ from_secret "DATABASE_NAME" app_secret "dbname"
    ∷ from_secret "DATABASE_USER" app_secret "username"
    ∷ from_secret "DATABASE_PASSWORD" app_secret "password"
    ∷ value "DATABASE_KIND" "postgres"
    ∷ []

abbrev pub has_ready_replica : Result StatefulSet → M Bool
has_ready_replica (ok sts) = pure (leb 1 sts.ready_replicas)
has_ready_replica (err e) = if is_not_found e then pure false else fail e

unfoldable pub stateful_set_ready : String → String → M Bool
stateful_set_ready namespace name =
    bind (request (get stateful_set (record { namespace = namespace; name = name })))
      has_ready_replica

abbrev pub redis_kind : GroupVersionKind
redis_kind = record { group = "redis.redis.opstreelabs.in"; version = "v1beta2"; kind = "Redis" }

abbrev pub redis_env : String → String → List EnvVar
redis_env redis_name auth_secret =
    value "DATABASE_HOST" redis_name
    ∷ value "DATABASE_PORT" "6379"
    ∷ from_secret "DATABASE_PASSWORD" auth_secret "password"
    ∷ value "DATABASE_KIND" "redis"
    ∷ []

unfoldable pub cnpg_cluster_ready : Library → Unstructured → Bool
cnpg_cluster_ready lib o = at_least_one (lib.nested_int64 o.body ("status" ∷ "readyInstances" ∷ []))

module _ (lib : Library) (s : Shop) where
  -- The answer to `Create`: a CRD that is not installed is no error.
  abbrev pub created_or_no_match : Unstructured → Result Unstructured → M (Bool × Unstructured)
  created_or_no_match o (ok made) = pure (true, made)
  created_or_no_match o (err e) = if is_no_match e then pure (false, o) else fail e

  abbrev pub create_custom :
      GroupVersionKind → Unstructured → (Json → Result Json) → M (Bool × Unstructured)
  create_custom g o mutate = lift (mutate o.body) >>= λ body.
      lift (lib.set_controller_reference shop s.metadata o.metadata) >>= λ owned.
      bind (request (create (custom g) (record { metadata = owned; body = body })))
        (created_or_no_match o)

  abbrev pub create_if_absent :
      GroupVersionKind
      → Unstructured
      → (Json → Result Json)
      → Result Unstructured
      → M (Bool × Unstructured)
  create_if_absent g o mutate (ok existing) = pure (true, existing)
  create_if_absent g o mutate (err e) =
      if is_no_match e
      then pure (false, o)
      else if is_not_found e
      then create_custom g o mutate
      else fail e

  -- Whether the object exists after the call, and the object.
  unfoldable pub create_or_ignore_missing_crd :
      GroupVersionKind → Unstructured → (Json → Result Json) → M (Bool × Unstructured)
  create_or_ignore_missing_crd g o mutate =
      bind (request (get (custom g) (key_of o.metadata))) (create_if_absent g o mutate)

  abbrev pub set_postgres_spec : Json → Result Json
  set_postgres_spec body = lib.set_nested_field body postgres_spec ("spec" ∷ [])

  abbrev pub postgres_database : String → Bool × Unstructured → M Database
  postgres_database cluster_name found = pure (
    postgres_env (cluster_name <> "-app"),
    database_state_from found.0 found.1 (cnpg_cluster_ready lib),
  )

  unfoldable pub reconcile_postgres : M Database
  unfolding resource_name create_or_ignore_missing_crd
  reconcile_postgres =
      let cluster_name = resource_name s <> "-db" in
      create_or_ignore_missing_crd cnpg_cluster (blank s.metadata.namespace cluster_name)
        set_postgres_spec
      >>= postgres_database cluster_name

  abbrev pub redis_spec : String → Json
  redis_spec auth_secret = obj (
      (
        "kubernetesConfig",
        obj (
            ("image", text (redis_image lib))
            ∷ ("imagePullPolicy", text "IfNotPresent")
            ∷ ("redisSecret", obj (("name", text auth_secret) ∷ ("key", text "password") ∷ []))
            ∷ []),
      )
      ∷ [])

  -- The state of a Redis that exists, from its StatefulSet.
  abbrev pub redis_state : List EnvVar → String → Bool → M Database
  redis_state env name false = pure (env, operator_missing)
  redis_state env name true = stateful_set_ready s.metadata.namespace name >>= λ up.
      pure (env, if up then ready else provisioning)

  abbrev pub set_redis_spec : String → Json → Result Json
  set_redis_spec auth_secret body = lib.set_nested_field body (redis_spec auth_secret) ("spec" ∷ [])

  -- With the password's Secret in place.
  abbrev pub redis_object : String → String → M Database
  redis_object redis_name auth_secret =
      create_or_ignore_missing_crd redis_kind (blank s.metadata.namespace redis_name)
        (set_redis_spec auth_secret)
      >>= λ found. redis_state (redis_env redis_name auth_secret) redis_name found.0

  unfoldable pub reconcile_redis : M Database
  unfolding resource_name ensure_redis_auth_secret create_or_ignore_missing_crd redis_image
      stateful_set_ready
  reconcile_redis =
      let redis_name = resource_name s <> "-redis" in
      let auth_secret = redis_name <> "-auth" in
      ensure_redis_auth_secret lib s auth_secret >> redis_object redis_name auth_secret

  unfoldable pub reconcile_database : M Database
  unfolding reconcile_postgres reconcile_redis
  reconcile_database =
      if s.spec.database_type == database_light then reconcile_redis else reconcile_postgres
