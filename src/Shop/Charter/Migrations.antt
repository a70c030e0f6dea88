-- ===== src/Shop/Charter/Migrations.antt =====
-- The migration Jobs of a Shop.
use shop_operator.Base.{
  String, ◌<>◌, ◌≡◌, refl, sym, ◌⊎◌, inl, inr, Bool, true, false, not, ◌||◌, List, ◌∷◌, ◌==◌,
  eq_iff, arith, ltb, Bool-cases,
}
use mathlib.Core.Path.{subst}
use shop_operator.Api.{Shop, database_standard}
use shop_operator.Kube.Objects.{Key, EnvVar, Job, shop, job, key_of}
use shop_operator.Kube.Prog.{is_not_found, Result, ok, err, get, ◌>>=◌}
use shop_operator.Kube.Journal.{
  Journal, Happened, now, before, Happened-Extends, journal, OnOk, Safe-then,
}
use shop_operator.Kube.Lawful.{SetsController}
use shop_operator.Kube.Library.{Library}
use shop_operator.Kube.Monitor.{Safe, Safe-propagate}
use shop_operator.Shop.Microservice.{Microservice, microservice_image}
use shop_operator.Shop.AppEnv.{shop_app_env}
use shop_operator.Shop.Workload.{
  build_migration_job, migration_job_name, own_and_create, job_or_create, reconcile_migration_job,
  migration_job, short_hash,
}
use shop_operator.Shop.Charter.{Absent, Answered, Migrated, child_key, charter}
use shop_operator.Shop.Charter.Owning.{Any}
use shop_operator.Shop.Charter.Storage.{new-IsChild, set_controller_reference-key}
use shop_operator.Shop.Charter.Workloads.{shop_app_env-Safe}

module _ (lib : Library) (law : SetsController lib) (key : Key) (s : Shop) (m : Microservice)
    (db_env : List EnvVar) (auth_secret_name : String) where
  -- What the answer about the migrations claims.
  abbrev pub Tells : Bool → Journal → Type 0
  Tells done l = (done ≡ false) ⊎ (done ≡ true) × Migrated lib key s m l

  own_and_create-Safe :
      (j : Job) (l : Journal)
      → (suffix : String) → j.metadata.namespace ≡ s.metadata.namespace
      → j.metadata.name ≡ s.metadata.name <> suffix
      → Happened (Answered lib key s) l
      → Happened (Absent job (key_of j.metadata)) l
      → Safe (journal (charter lib key)) (OnOk Tells) (own_and_create lib s j) l
  own_and_create-Safe j l suffix ns name held absent =
      Safe-propagate (journal (charter lib key)) _
        (lib.set_controller_reference shop s.metadata j.metadata) (OnOk Tells) l
        (λ owned signed. (
          (
            new-IsChild lib law key s job j.metadata (record j { metadata = owned }) l held ns
                (suffix, name) signed tt,
            subst (λ k. Happened (Absent job k) l)
                (sym (set_controller_reference-key lib law key s j.metadata owned signed)) absent,
          ),
          elim [ ok x ↦ inl refl | err e ↦ tt ],
        ))
        (λ e _. tt)

  with_env-Safe :
      (env : List EnvVar) (l : Journal)
      → Happened (Answered lib key s) l
      → Happened (Absent job (child_key lib key s (migration_job_name lib s m))) l
      → Safe
          (journal (charter lib key))
          (OnOk Tells)
          (own_and_create lib s
            (migration_job lib s m (migration_job_name lib s m) (microservice_image lib m) env))
          l
  unfolding migration_job_name
  with_env-Safe env l held absent =
      own_and_create-Safe
        (migration_job lib s m (migration_job_name lib s m) (microservice_image lib m) env) l
        ("-" <> m.name <> "-migrate-" <> short_hash lib (microservice_image lib m)) refl refl held
        absent

  abbrev IsBuilt : Job → Journal → Type 0
  IsBuilt j l =
      (env : List EnvVar) × (j
        ≡ migration_job lib s m (migration_job_name lib s m) (microservice_image lib m) env)

  build_migration_job-IsBuilt :
      (l : Journal)
      → Safe
          (journal (charter lib key))
          (OnOk IsBuilt)
          (build_migration_job lib s m
            (migration_job_name lib s m)
            (microservice_image lib m)
            db_env
            auth_secret_name)
          l
  unfolding build_migration_job
  build_migration_job-IsBuilt l =
      Safe-then (charter lib key) (shop_app_env lib s m db_env auth_secret_name) _ Any IsBuilt l
        (shop_app_env-Safe lib key s m db_env auth_secret_name l) (λ env l' later _. (env, refl))

  create_job-Safe :
      (l : Journal)
      → Happened (Answered lib key s) l
      → Happened (Absent job (child_key lib key s (migration_job_name lib s m))) l
      → Safe
          (journal (charter lib key))
          (OnOk Tells)
          (build_migration_job lib s m
              (migration_job_name lib s m)
              (microservice_image lib m)
              db_env
              auth_secret_name
            >>= own_and_create lib s)
          l
  create_job-Safe l held absent =
      Safe-then (charter lib key)
        (build_migration_job lib s m (migration_job_name lib s m) (microservice_image lib m) db_env
          auth_secret_name)
        (own_and_create lib s) IsBuilt Tells l (build_migration_job-IsBuilt l)
        (λ j l' later (env, e).
          subst (λ x. Safe (journal (charter lib key)) (OnOk Tells) (own_and_create lib s x) l')
            (sym e)
            (with_env-Safe env l' (Happened-Extends held later) (Happened-Extends absent later)))

  looked_up-Safe :
      (l : Journal) (x : Result Job)
      → Happened (Answered lib key s) l
      → Safe
          (journal (charter lib key))
          (OnOk Tells)
          (job_or_create lib s m db_env auth_secret_name x)
          ((get job (child_key lib key s (migration_job_name lib s m)), x) ∷ l)
  looked_up-Safe l (ok j) held = elim (Bool-cases (ltb 0 j.succeeded)) [
    | inl done ↦ rw done (inr (refl, inr (inr (now (j, ground arith, refl)))))
    | inr pending ↦ rw pending (inl refl)
  ]
  looked_up-Safe l (err e) held = elim (Bool-cases (is_not_found e)) [
    | inr failed ↦ rw failed tt
    | inl missing ↦ rw missing (create_job-Safe _ (before held) (now (e, missing, refl)))
  ]

  none_needed :
      (not m.has_migrations || not (s.spec.database_type == database_standard)) ≡ true
      → (l : Journal) → Migrated lib key s m l
  none_needed h l = elim (Bool-cases m.has_migrations) [
    | inr none ↦ inl none
    | inl some ↦ inr (
        inl
          (λ standard. ground (arith, (eq_iff s.spec.database_type database_standard).1 standard)))
  ]

  -- If setting an owner reference changes nothing else: reconciling the migration Job of a
  -- microservice, for a Shop that the server has answered, keeps to the charter, and the
  -- migrations are called done only if there are none, the database is not of the standard type,
  -- or the server showed the Job of the current image as succeeded.
  pub reconcile_migration_job-Safe :
      (l : Journal)
      → Happened (Answered lib key s) l
      → Safe
          (journal (charter lib key))
          (OnOk Tells)
          (reconcile_migration_job lib s m db_env auth_secret_name)
          l
  unfolding reconcile_migration_job
  reconcile_migration_job-Safe l held =
      elim (Bool-cases (not m.has_migrations || not (s.spec.database_type == database_standard))) [
        | inl idle ↦ rw idle (inr (refl, none_needed idle l))
        | inr due ↦ rw due (tt, λ x. looked_up-Safe l x held)
      ]
