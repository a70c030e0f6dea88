-- ===== src/Shop/Charter/Workloads.antt =====
-- The Deployments and the migration Jobs of a Shop.
use shop_operator.Base.{ℕ, String, ◌<>◌, ◌≡◌, refl, sym, Bool, true, List, ◌==◌, if◌then◌else◌}
use shop_operator.Api.{Shop, ObjectMeta}
use shop_operator.Kube.Objects.{Key, EnvVar, Deployment, shop, deployment, key_of}
use shop_operator.Kube.Prog.{ok, err, M, pure, lift, ◌>>=◌}
use shop_operator.Kube.Journal.{
  Journal, Happened, now, Happened-Extends, journal, OnOk, Safe-then, Writable,
  create_or_update-Safe,
}
use shop_operator.Kube.Lawful.{CreatesOrUpdates}
use shop_operator.Kube.Library.{Library, same_key}
use shop_operator.Kube.Monitor.{Safe, Safe-propagate, Safe-if}
use shop_operator.Shop.Microservice.{
  Microservice, frontend_service_name, payment_service_name, auth_service_name, order_service_name,
  inventory_service_name,
}
use shop_operator.Shop.Names.{service_resource_name, desired_replicas}
use shop_operator.Shop.AppEnv.{payout_address, service_env, shop_app_env}
use shop_operator.Shop.Workload.{
  app_deployment, mutate_deployment, blank_deployment, reconcile_deployment,
}
use shop_operator.Shop.Charter.{Answered, Serves, child_key, charter, read, made, changed}
use shop_operator.Shop.Charter.Owning.{Any, child, same_key-eq}

module _ (lib : Library) (key : Key) (s : Shop) where
  service_env-Safe :
      (m : Microservice) (db_env : List EnvVar) (auth_secret_name : String) (l : Journal)
      → Safe (journal (charter lib key)) (OnOk Any) (service_env lib s m db_env auth_secret_name) l
  unfolding service_env payout_address
  service_env-Safe m db_env auth_secret_name l = branch (m.name == frontend_service_name) _ _ tt (
      branch (m.name == payment_service_name) _ _ (tt, elim [ ok w ↦ tt | err e ↦ tt ])
        (branch (m.name == auth_service_name) _ _ tt (
          branch (m.name == order_service_name) _ _ tt
            (branch (m.name == inventory_service_name) _ _ tt tt))))
    where
      branch :
          (b : Bool) (p q : M (List EnvVar))
          → Safe (journal (charter lib key)) (OnOk Any) p l
          → Safe (journal (charter lib key)) (OnOk Any) q l
          → Safe (journal (charter lib key)) (OnOk Any) (if b then p else q) l
      branch b p q h k = Safe-if (journal (charter lib key)) b p q (OnOk Any) l h k

  pub shop_app_env-Safe :
      (m : Microservice) (db_env : List EnvVar) (auth_secret_name : String) (l : Journal)
      → Safe (journal (charter lib key)) (OnOk Any) (shop_app_env lib s m db_env auth_secret_name) l
  unfolding shop_app_env
  shop_app_env-Safe m db_env auth_secret_name l =
      Safe-then (charter lib key) (service_env lib s m db_env auth_secret_name) _ Any Any l
        (service_env-Safe m db_env auth_secret_name l) (λ a l' later _. tt)

module _ (lib : Library) (cu : CreatesOrUpdates lib) (key : Key) (s : Shop) (m : Microservice)
    (db_env : List EnvVar) (auth_secret_name : String) where
  abbrev replicas : ℕ
  replicas = desired_replicas s.spec.availability

  abbrev mutate : Deployment → M Deployment
  mutate = mutate_deployment lib s m replicas db_env auth_secret_name

  abbrev Shows : Deployment → Journal → Type 0
  Shows d l = Happened (Serves lib key s m d.ready_replicas) l

  abbrev Kept : Journal → Deployment → Deployment → Journal → Type 0
  Kept l =
      Writable (charter lib key) lib cu deployment (blank_deployment lib s m) mutate
        (λ x y. y.ready_replicas ≡ x.ready_replicas) Shows l

  abbrev owned_deployment : List EnvVar → Deployment → ObjectMeta → M Deployment
  owned_deployment env x owned =
      pure (record (app_deployment lib s m replicas env x) { metadata = owned })

  abbrev with_env : Deployment → List EnvVar → M Deployment
  with_env x env =
      lift (
        lib.set_controller_reference shop s.metadata
          (app_deployment lib s m replicas env x).metadata)
      >>= owned_deployment env x

  with_env-Safe :
      (x : Deployment) (env : List EnvVar) (l l' : Journal)
      → Happened (Answered lib key s) l'
      → Safe (journal (charter lib key)) (OnOk (Kept l x)) (with_env x env) l'
  unfolding service_resource_name
  with_env-Safe x env l l' held =
      Safe-propagate (journal (charter lib key)) (owned_deployment env x)
        (lib.set_controller_reference shop s.metadata
          (app_deployment lib s m replicas env x).metadata)
        (OnOk (Kept l x)) l'
        (λ owned signed.
          let is_child = λ (kept : same_key (blank_deployment lib s m).metadata owned ≡ true).
            child lib key s deployment (blank_deployment lib s m).metadata
              (record (app_deployment lib s m replicas env x) { metadata = owned })
              (app_deployment lib s m replicas env x).metadata l' held refl ("-" <> m.name, refl)
              signed kept
              (
                m,
                (same_key-eq (blank_deployment lib s m).metadata owned kept).1,
                refl,
                refl,
                refl,
              ) in
          record {
            stepped = refl;
            may_create = λ kept. (is_child kept, tt);
            may_update = λ kept. (is_child kept, tt);
          })
        (λ e _. tt)

  mutate-Safe :
      (x : Deployment) (l l' : Journal)
      → Happened (Answered lib key s) l'
      → Safe (journal (charter lib key)) (OnOk (Kept l x)) (mutate x) l'
  unfolding mutate_deployment
  mutate-Safe x l l' held =
      Safe-then (charter lib key) (shop_app_env lib s m db_env auth_secret_name) (with_env x) Any
        (Kept l x) l' (shop_app_env-Safe lib key s m db_env auth_secret_name l')
        (λ env l'' later _. with_env-Safe x env l l'' (Happened-Extends held later))

  same_child :
      (d : Deployment)
      → same_key (blank_deployment lib s m).metadata d.metadata ≡ true
      → key_of d.metadata ≡ child_key lib key s (service_resource_name s m)
  same_child d kept =
      let (ns, name) = same_key-eq (blank_deployment lib s m).metadata d.metadata kept in
      λ i. record { namespace = ns i; name = name i }

  -- If `CreateOrUpdate` does only what its documentation allows: reconciling the Deployment of a
  -- microservice, for a Shop that the server has answered, keeps to the charter, and the number of
  -- ready replicas in the result is one that the server showed for that Deployment.
  pub reconcile_deployment-Safe :
      (l : Journal)
      → Happened (Answered lib key s) l
      → Safe
          (journal (charter lib key))
          (OnOk Shows)
          (reconcile_deployment lib s m replicas db_env auth_secret_name)
          l
  unfolding reconcile_deployment
  reconcile_deployment-Safe l held =
      create_or_update-Safe (charter lib key) lib cu deployment (blank_deployment lib s m) mutate
        (λ x y. y.ready_replicas ≡ x.ready_replicas) Shows l tt
        (λ x l' later. mutate-Safe x l l' (Happened-Extends held later))
        (λ x x' l' later st. Happened-Extends (now (read _ x refl (sym st))) later)
        (λ x y l' kept. now (made x y (same_child x kept) refl))
        (λ x y l' kept. now (changed x y (same_child x kept) refl))
