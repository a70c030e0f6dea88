-- ===== src/Shop/Reasons/Workloads.antt =====
-- The Deployments and the migration Jobs of a Shop.
use shop_operator.Base.{
  ℕ, String, ◌≡◌, refl, sym, ap, inl, inr, Bool, true, false, not, ◌||◌, List, ◌∷◌, ◌==◌, arith,
  ltb, Bool-cases, if◌then◌else◌,
}
use shop_operator.Access.{manager_role, is_granted}
use shop_operator.Api.{Shop, ObjectMeta, database_standard}
use shop_operator.Kube.Objects.{Key, EnvVar, Deployment, Job, shop, job, deployment, key_of}
use shop_operator.Kube.Prog.{is_not_found, Result, ok, err, get, M, pure}
use shop_operator.Kube.Journal.{Journal, Happened, now, before, Happened-Extends, journal}
use shop_operator.Kube.Lawful.{CreatesOrUpdates, SetsController}
use shop_operator.Kube.Library.{Library}
use shop_operator.Kube.Monitor.{Safe-if}
use shop_operator.Kube.Outcome.{
  Ensures, Ensures-then, Ensures-owned, create_or_update-Ensures, Outcome, permits,
}
use shop_operator.Shop.Microservice.{
  Microservice, microservice_image, frontend_service_name, payment_service_name, auth_service_name,
  order_service_name, inventory_service_name,
}
use shop_operator.Shop.Names.{desired_replicas}
use shop_operator.Shop.AppEnv.{payout_address, service_env, shop_app_env}
use shop_operator.Shop.Workload.{
  app_deployment, mutate_deployment, blank_deployment, reconcile_deployment, build_migration_job,
  migration_job_name, own_and_create, job_or_create, reconcile_migration_job,
}
use shop_operator.Shop.Charter.{Serves, child_key, read, made, changed}
use shop_operator.Shop.Charter.Owning.{Any}
use shop_operator.Shop.Reasons.{Pending}
use shop_operator.Shop.Reasons.Owned.{Done}

module _ (lib : Library) (cu : CreatesOrUpdates lib) (law : SetsController lib) (key : Key)
    (s : Shop) (m : Microservice) (db_env : List EnvVar) (auth_secret_name : String) where
  service_env-Ensures :
      (l : Journal) → Done lib cu law s (service_env lib s m db_env auth_secret_name) l
  unfolding service_env payout_address is_granted manager_role
  service_env-Ensures l = branch (m.name == frontend_service_name) _ _ tt (
      branch (m.name == payment_service_name) _ _ (refl, elim [ ok w ↦ tt | err e ↦ tt ])
        (branch (m.name == auth_service_name) _ _ tt (
          branch (m.name == order_service_name) _ _ tt
            (branch (m.name == inventory_service_name) _ _ tt tt))))
    where
      branch :
          (b : Bool) (p q : M (List EnvVar))
          → Done lib cu law s p l
          → Done lib cu law s q l
          → Done lib cu law s (if b then p else q) l
      branch b p q h k =
          Safe-if (journal (permits manager_role)) b p q (Outcome manager_role lib Any) l h k

  shop_app_env-Ensures :
      (l : Journal) → Done lib cu law s (shop_app_env lib s m db_env auth_secret_name) l
  unfolding shop_app_env
  shop_app_env-Ensures l =
      Ensures-then manager_role lib (service_env lib s m db_env auth_secret_name) _ Any Any l
        (service_env-Ensures l) (λ a l' later _. tt)

  abbrev replicas : ℕ
  replicas = desired_replicas s.spec.availability

  abbrev mutate : Deployment → M Deployment
  mutate = mutate_deployment lib s m replicas db_env auth_secret_name

  abbrev owned_deployment : List EnvVar → Deployment → ObjectMeta → M Deployment
  owned_deployment env x owned =
      pure (record (app_deployment lib s m replicas env x) { metadata = owned })

  -- The function keeps the name and the status.
  abbrev Keeps : Deployment → Deployment → Journal → Type 0
  Keeps x x' l = (key_of x'.metadata ≡ key_of x.metadata) × (x'.ready_replicas ≡ x.ready_replicas)

  mutate-Keeps : (x : Deployment) (l : Journal) → Ensures manager_role lib (Keeps x) (mutate x) l
  unfolding mutate_deployment
  mutate-Keeps x l =
      Ensures-then manager_role lib (shop_app_env lib s m db_env auth_secret_name) _ Any (Keeps x) l
        (shop_app_env-Ensures l)
        (λ env l' later _.
          Ensures-owned manager_role lib shop s.metadata
            (app_deployment lib s m replicas env x).metadata (owned_deployment env x) (Keeps x) l'
            (λ owned signed. (
              ap key_of (
                  law.keeps shop s.metadata (app_deployment lib s m replicas env x).metadata owned
                    signed),
              refl,
            )))

  pub reconcile_deployment-Ensures :
      (l : Journal)
      → Ensures manager_role lib
          (λ d l'. Happened (Serves lib key s m d.ready_replicas) l')
          (reconcile_deployment lib s m replicas db_env auth_secret_name)
          l
  unfolding reconcile_deployment is_granted manager_role
  reconcile_deployment-Ensures l =
      create_or_update-Ensures manager_role lib cu deployment (blank_deployment lib s m) mutate
        (λ x y. y.ready_replicas ≡ x.ready_replicas)
        (λ d l'. Happened (Serves lib key s m d.ready_replicas) l') l refl (λ x. refl) (λ x. refl)
        (λ x l' later. mutate-Keeps x l')
        (λ x x' l' same later st. Happened-Extends (now (read _ x refl (sym st))) later)
        (λ x y l' same. now (made x y same refl)) (λ x y l' same. now (changed x y same refl))

  -- What the answer about the migrations tells.
  abbrev pub Tells : Bool → Journal → Type 0
  Tells true l = Unit
  Tells false l = Happened (Pending lib key s m) l

  own_and_create-Ensures :
      (j : Job) (l : Journal)
      → Happened (Pending lib key s m) l
      → Ensures manager_role lib Tells (own_and_create lib s j) l
  unfolding is_granted manager_role
  own_and_create-Ensures j l pending =
      Ensures-owned manager_role lib shop s.metadata j.metadata _ Tells l
        (λ owned signed. (refl, elim [ ok x ↦ before pending | err e ↦ inl refl ]))

  job_or_create-Ensures :
      (l : Journal) (x : Result Job)
      → Ensures manager_role lib Tells
          (job_or_create lib s m db_env auth_secret_name x)
          ((get job (child_key lib key s (migration_job_name lib s m)), x) ∷ l)
  unfolding build_migration_job
  job_or_create-Ensures l (ok j) = elim (Bool-cases (ltb 0 j.succeeded)) [
    | inl done ↦ rw done tt
    | inr undone ↦ rw undone (now (inr (j, ground arith, refl)))
  ]
  job_or_create-Ensures l (err e) = elim (Bool-cases (is_not_found e)) [
    | inr failed ↦ rw failed (inl refl)
    | inl missing ↦ rw missing (
        Ensures-then manager_role lib
          (build_migration_job lib s m (migration_job_name lib s m) (microservice_image lib m)
            db_env auth_secret_name)
          (own_and_create lib s) Any Tells _
          (Ensures-then manager_role lib (shop_app_env lib s m db_env auth_secret_name) _ Any Any _
            (shop_app_env-Ensures _) (λ env l' later _. tt))
          (λ j l' later _.
            own_and_create-Ensures j l' (Happened-Extends (now (inl (e, missing, refl))) later)))
  ]

  pub reconcile_migration_job-Ensures :
      (l : Journal)
      → Ensures manager_role lib Tells (reconcile_migration_job lib s m db_env auth_secret_name) l
  unfolding reconcile_migration_job is_granted manager_role
  reconcile_migration_job-Ensures l =
      elim (Bool-cases (not m.has_migrations || not (s.spec.database_type == database_standard))) [
        | inl idle ↦ rw idle tt
        | inr due ↦ rw due (refl, λ x. job_or_create-Ensures l x)
      ]
