-- ===== src/Shop/Workload.antt =====
-- `reconcileDeployment`, `shortHash`, `reconcileMigrationJob` and `buildMigrationJob` of
-- internal/controller/shop_controller.go
use Prim.Native.String.{slice}
use shop_operator.Base.{
  ℕ, ◌+◌, ◌/◌, ◌%◌, String, ◌<>◌, Bool, true, false, not, ◌||◌, none, some, List, [], ◌∷◌, ◌==◌,
  ltb, if◌then◌else◌,
}
use shop_operator.Api.{Shop, database_standard}
use shop_operator.Kube.Objects.{
  Deployment, Job, Container, EnvVar, deployment, job, shop, named, empty_container,
}
use shop_operator.Kube.Prog.{
  is_not_found, Result, ok, err, get, create, M, request, pure, fail, lift, bind, ◌>>=◌, ◌>>◌,
}
use shop_operator.Kube.Library.{Library}
use shop_operator.Shop.Microservice.{Microservice, microservice_image, image_pull_policy}
use shop_operator.Shop.Names.{service_resource_name, labels_for_component}
use shop_operator.Shop.AppEnv.{shop_app_env}

abbrev pub http_port_name : String
http_port_name = "http"

-- A template with no container gets an empty one; the first container is then set.
abbrev pub set_first : (Container → Container) → List Container → List Container
set_first f [] = f empty_container ∷ []
set_first f (c ∷ cs) = f c ∷ cs

abbrev hex_digit : ℕ → String
hex_digit d = slice "0123456789abcdef" (d % 16) (d % 16 + 1)

-- `hex.EncodeToString`
unfoldable pub encode_hex : List ℕ → String
encode_hex [] = ""
encode_hex (b ∷ bs) = hex_digit (b / 16) <> hex_digit b <> encode_hex bs

module _ (lib : Library) where
  -- The first eight characters of the digest.
  unfoldable pub short_hash : String → String
  unfolding encode_hex
  short_hash s = slice (encode_hex (lib.sum256 s)) 0 8

  module _ (s : Shop) where
    abbrev pub app_container : Microservice → List EnvVar → Container → Container
    app_container m env c = record c {
      name = m.name;
      image = microservice_image lib m;
      image_pull_policy = image_pull_policy lib;
      ports = record { name = http_port_name; container_port = m.port; protocol = "TCP" } ∷ [];
      env = env;
    }

    abbrev pub app_deployment : Microservice → ℕ → List EnvVar → Deployment → Deployment
    app_deployment m replicas env d =
        let labels = labels_for_component s m.name in
        record d {
          metadata = record d.metadata { labels = labels };
          replicas = some replicas;
          selector = labels;
          template_labels = labels;
          containers = set_first (app_container m env) d.containers;
        }

    -- The function that `CreateOrUpdate` applies to the Deployment.
    unfoldable pub mutate_deployment :
        Microservice → ℕ → List EnvVar → String → Deployment → M Deployment
    unfolding microservice_image image_pull_policy labels_for_component shop_app_env
    mutate_deployment m replicas db_env auth_secret_name d =
        shop_app_env lib s m db_env auth_secret_name >>= λ env.
        lift
          (lib.set_controller_reference shop s.metadata (app_deployment m replicas env d).metadata)
        >>= λ owned. pure (record (app_deployment m replicas env d) { metadata = owned })

    abbrev pub blank_deployment : Microservice → Deployment
    blank_deployment m = record {
      metadata = named s.metadata.namespace (service_resource_name s m);
      replicas = none;
      selector = [];
      template_labels = [];
      containers = [];
      ready_replicas = 0;
    }

    unfoldable pub reconcile_deployment : Microservice → ℕ → List EnvVar → String → M Deployment
    unfolding service_resource_name mutate_deployment
    reconcile_deployment m replicas db_env auth_secret_name =
        lib.create_or_update deployment (blank_deployment m)
          (mutate_deployment m replicas db_env auth_secret_name)

    abbrev pub migration_job : Microservice → String → String → List EnvVar → Job
    migration_job svc name image env = record {
      metadata = record (named s.metadata.namespace name) {
        labels = labels_for_component s (svc.name <> "-migrate");
      };
      backoff_limit = 3;
      ttl_seconds_after_finished = 600;
      restart_policy = "Never";
      containers =
          record {
            name = "migrate";
            image = image;
            image_pull_policy = "";
            command =
                "node" ∷ "node_modules/typeorm/cli.js" ∷ "migration:run" ∷ "-d"
                ∷ "dist/database/data-source.js" ∷ [];
            ports = [];
            env = env;
          }
          ∷ [];
      succeeded = 0;
    }

    unfoldable pub build_migration_job :
        Microservice → String → String → List EnvVar → String → M Job
    unfolding labels_for_component shop_app_env
    build_migration_job svc name image db_env auth_secret_name =
        shop_app_env lib s svc db_env auth_secret_name >>= λ env.
        pure (migration_job svc name image env)

    unfoldable pub migration_job_name : Microservice → String
    unfolding short_hash microservice_image
    migration_job_name svc =
        s.metadata.name <> "-" <> svc.name <> "-migrate-" <> short_hash (microservice_image lib svc)

    abbrev pub own_and_create : Job → M Bool
    own_and_create j = lift (lib.set_controller_reference shop s.metadata j.metadata) >>= λ owned.
        request (create job (record j { metadata = owned })) >> pure false

    abbrev pub job_or_create : Microservice → List EnvVar → String → Result Job → M Bool
    job_or_create svc db_env auth_secret_name (ok j) = pure (ltb 0 j.succeeded)
    job_or_create svc db_env auth_secret_name (err e) =
        if is_not_found e
        then build_migration_job svc (migration_job_name svc) (microservice_image lib svc) db_env
            auth_secret_name
          >>= own_and_create
        else fail e

    -- Whether the migrations are done.
    unfoldable pub reconcile_migration_job : Microservice → List EnvVar → String → M Bool
    unfolding build_migration_job migration_job_name
    reconcile_migration_job svc db_env auth_secret_name =
        if not svc.has_migrations || not (s.spec.database_type == database_standard)
        then pure true
        else bind
            (request (
              get job (record { namespace = s.metadata.namespace; name = migration_job_name svc })))
            (job_or_create svc db_env auth_secret_name)
