-- ===== src/Shop/Controller.antt =====
-- `Reconcile` of internal/controller/shop_controller.go
use shop_operator.Base.{
  ℕ, String, Bool, true, false, ◌&&◌, not, none, some, List, [], ◌∷◌, eqb, if◌then◌else◌,
}
use shop_operator.Api.{Shop}
use shop_operator.Kube.Objects.{Key, shop}
use shop_operator.Kube.Prog.{Result, ok, err, get, M, request, pure, bind, ◌>>=◌, ◌>>◌}
use shop_operator.Kube.Reconcile.{Requeue, ignore_not_found}
use shop_operator.Kube.Library.{Library}
use shop_operator.Shop.Microservice.{Microservice, shop_microservices}
use shop_operator.Shop.Names.{desired_replicas}
use shop_operator.Shop.Secrets.{ensure_auth_secret}
use shop_operator.Shop.Database.{DatabaseState, Database, ready, reconcile_database}
use shop_operator.Shop.Workload.{reconcile_deployment, reconcile_migration_job}
use shop_operator.Shop.Network.{reconcile_service, reconcile_ingress}
use shop_operator.Shop.Children.{reconcile_wallet, reconcile_discord_channel}
use shop_operator.Shop.Monitoring.{
  reconcile_service_monitor, reconcile_prometheus_rule, reconcile_alertmanager_config,
}
use shop_operator.Shop.Dashboard.{reconcile_grafana_dashboard}
use shop_operator.Shop.Status.{write_status}

abbrev pub is_ready : DatabaseState → Bool
is_ready ready = true
is_ready _ = false

-- `databaseReadyRequeue` and `deploymentPendingRequeue`, in seconds
abbrev pub database_ready_requeue : ℕ
database_ready_requeue = 30

abbrev pub deployment_pending_requeue : ℕ
deployment_pending_requeue = 15

module _ (lib : Library) (s : Shop) where
  -- The steps before the database.
  unfoldable pub reconcile_attachments : M (Unit {0})
  unfolding reconcile_wallet reconcile_discord_channel reconcile_service_monitor
      reconcile_grafana_dashboard reconcile_prometheus_rule reconcile_alertmanager_config
  reconcile_attachments =
      reconcile_wallet lib s
      >> reconcile_discord_channel lib s
      >> reconcile_service_monitor lib s
      >> reconcile_grafana_dashboard lib s
      >> reconcile_prometheus_rule lib s
      >> reconcile_alertmanager_config lib s

  -- Whether a microservice's migrations leave the Shop ready: with the database ready the job is
  -- looked at, before that only whether there are migrations.
  unfoldable pub migrate : Microservice → Database → String → M Bool
  unfolding reconcile_migration_job
  migrate m db auth_secret_name =
      if is_ready db.1
      then reconcile_migration_job lib s m db.0 auth_secret_name
      else pure (not m.has_migrations)

  -- One round of the loop over the microservices: whether this one is ready.
  unfoldable pub reconcile_microservice : Microservice → ℕ → Database → String → M Bool
  unfolding migrate reconcile_deployment reconcile_service
  reconcile_microservice m replicas db auth_secret_name = do
    migrated ← migrate m db auth_secret_name
    d ← reconcile_deployment lib s m replicas db.0 auth_secret_name
    reconcile_service lib s m
    pure (migrated && eqb d.ready_replicas replicas)

  -- The loop, with `allReady`.
  unfoldable pub reconcile_microservices : List Microservice → ℕ → Database → String → Bool → M Bool
  unfolding reconcile_microservice
  reconcile_microservices [] replicas db auth_secret_name all_ready = pure all_ready
  reconcile_microservices (m ∷ ms) replicas db auth_secret_name all_ready =
      reconcile_microservice m replicas db auth_secret_name >>= λ here.
      reconcile_microservices ms replicas db auth_secret_name (all_ready && here)

  -- The last switch of `Reconcile`.
  unfoldable pub requeue : DatabaseState → Bool → Requeue
  requeue db all_ready =
      if not (is_ready db)
      then some database_ready_requeue
      else if not all_ready
      then some deployment_pending_requeue
      else none

  -- From the loop's result on.
  unfoldable pub conclude : ℕ → DatabaseState → Bool → M Requeue
  unfolding write_status reconcile_ingress requeue
  conclude replicas db all_ready = write_status lib s replicas all_ready db >>= λ written.
      reconcile_ingress lib written >> pure (requeue db all_ready)

  -- The steps from the loop on.
  unfoldable pub serve : ℕ → Database → String → M Requeue
  unfolding reconcile_microservices conclude
  serve replicas db auth_secret_name =
      reconcile_microservices shop_microservices replicas db auth_secret_name (is_ready db.1)
      >>= conclude replicas db.1

  abbrev pub with_database : ℕ → Database → M Requeue
  with_database replicas db = ensure_auth_secret lib s >>= serve replicas db

  unfoldable pub reconcile_shop : M Requeue
  unfolding desired_replicas reconcile_attachments reconcile_database ensure_auth_secret serve
  reconcile_shop =
      let replicas = desired_replicas s.spec.availability in
      reconcile_attachments >> reconcile_database lib s >>= with_database replicas

module _ (lib : Library) where
  abbrev pub reconcile_found : Result Shop → M Requeue
  reconcile_found (ok s) = reconcile_shop lib s
  reconcile_found (err e) = ignore_not_found e

  unfoldable pub reconcile : Key → M Requeue
  unfolding reconcile_shop
  reconcile key = bind (request (get shop key)) reconcile_found
