-- ===== src/Shop/Charter/Databases.antt =====
-- `reconcileDatabase` and what it calls under the charter.
use text.Mathlib.TextLemmas.{append_assoc}
use shop_operator.Base.{
  ℕ, ◌≤◌, Option, none, some, [], ◌∷◌, String, ◌<>◌, ◌≡◌, ◌≢◌, refl, ◌⊎◌, inl, inr, Bool, true,
  false, ◌==◌, eq_iff, arith, leb, List, Bool-cases,
}
use shop_operator.Api.{Shop, database_light}
use shop_operator.Kube.Objects.{Key, EnvVar, Unstructured}
use shop_operator.Kube.Prog.{Result, is_not_found, ok, err}
use shop_operator.Kube.Journal.{
  Journal, Happened, now, before, Extends, Happened-Extends, journal, OnOk, Safe-then,
}
use shop_operator.Kube.Lawful.{SetsController}
use shop_operator.Kube.Library.{Library}
use shop_operator.Kube.Monitor.{Safe}
use shop_operator.Shop.Names.{resource_name}
use shop_operator.Shop.Database.{
  Database, blank, at_least_one, cnpg_cluster, cnpg_cluster_ready, redis_kind, redis_env,
  set_postgres_spec, postgres_database, postgres_env, set_redis_spec, redis_object,
  create_or_ignore_missing_crd, redis_state, stateful_set_ready, database_state_from,
  reconcile_postgres, reconcile_redis, reconcile_database,
}
use shop_operator.Shop.Secrets.{ensure_redis_auth_secret}
use shop_operator.Shop.Controller.{is_ready}
use shop_operator.Shop.Charter.{HasReadyInstance, Answered, DatabaseUp, child_key, charter}
use shop_operator.Shop.Charter.Owning.{Any}
use shop_operator.Shop.Charter.Storage.{
  Found, create_or_ignore_missing_crd-Safe, ensure_redis_auth_secret-Safe,
}

at_least_one-cases :
    (x : Result (Option ℕ))
    → (at_least_one x ≡ true) × ((n : ℕ) × (1 ≤ n) × (x ≡ ok (some n)))
      ⊎ (at_least_one x ≡ false) × (¬ ((n : ℕ) × (1 ≤ n) × (x ≡ ok (some n))))
at_least_one-cases (err e) = inr (refl, λ (n, many, same). cc)
at_least_one-cases (ok none) = inr (refl, λ (n, many, same). cc)
at_least_one-cases (ok (some n)) = elim (Bool-cases (leb 1 n)) [
  | inl up ↦ inl (up, (n, ground arith, refl))
  | inr down ↦
      inr (down, λ (k, many, same). let equal : n ≡ k = cc in absurd (ground (arith, equal)))
]

module _ (lib : Library) (law : SetsController lib) (key : Key) (s : Shop) where
  -- What a database state claims.
  abbrev pub Claims : Database → Journal → Type 0
  Claims db l = (is_ready db.1 ≡ false) ⊎ (is_ready db.1 ≡ true) × Happened (DatabaseUp lib key s) l

  pub Claims-Extends : (db : Database) {l l' : Journal} → Claims db l → Extends l l' → Claims db l'
  Claims-Extends db (inl down) later = inl down
  Claims-Extends db (inr (up, shown)) later = inr (up, Happened-Extends shown later)

  Happened-map :
      {P Q : _ → Type 0} {l : Journal} → ((e : _) → P e → Q e) → Happened P l → Happened Q l
  Happened-map f (now p) = now (f _ p)
  Happened-map f (before h) = before (Happened-map f h)

  pub cnpg_cluster_ready-cases :
      (c : Unstructured)
      → (cnpg_cluster_ready lib c ≡ true) × HasReadyInstance lib c
        ⊎ (cnpg_cluster_ready lib c ≡ false) × (¬ HasReadyInstance lib c)
  unfolding cnpg_cluster_ready
  cnpg_cluster_ready-cases c =
      at_least_one-cases (lib.nested_int64 c.body ("status" ∷ "readyInstances" ∷ []))

  postgres-Claims :
      (env : List EnvVar) (found : Bool) (c : Unstructured) (l : Journal)
      → s.spec.database_type ≢ database_light
      → Found lib law key s cnpg_cluster
          (child_key lib key s (resource_name s <> "-db"))
          (found, c)
          l
      → Claims (env, database_state_from found c (cnpg_cluster_ready lib)) l
  unfolding database_state_from
  postgres-Claims env false c l standard h = inl refl
  postgres-Claims env true c l standard (inl h) = cc
  postgres-Claims env true c l standard (inr h) = elim (cnpg_cluster_ready-cases c) [
    | inr (down, _) ↦ rw down (inl refl)
    | inl (up, has) ↦
        rw up (inr (refl, Happened-map (λ e shown. inr (standard, (c, has, shown))) h.1))
  ]

  reconcile_postgres-Safe :
      (l : Journal)
      → s.spec.database_type ≢ database_light
      → Happened (Answered lib key s) l
      → Safe (journal (charter lib key)) (OnOk Claims) (reconcile_postgres lib s) l
  unfolding reconcile_postgres
  reconcile_postgres-Safe l standard held =
      let o = blank s.metadata.namespace (resource_name s <> "-db") in
      Safe-then (charter lib key)
        (create_or_ignore_missing_crd lib s cnpg_cluster o (set_postgres_spec lib s))
        (postgres_database lib s (resource_name s <> "-db"))
        (Found lib law key s cnpg_cluster (child_key lib key s (resource_name s <> "-db"))) Claims l
        (create_or_ignore_missing_crd-Safe lib law key s cnpg_cluster "-db" o
          (set_postgres_spec lib s) l held refl)
        (λ found l' later h.
          postgres-Claims (postgres_env (resource_name s <> "-db-app")) found.0 found.1 l' standard
            h)

  redis_state-Safe :
      (env : List EnvVar) (found : Bool) (l : Journal)
      → s.spec.database_type ≡ database_light
      → Safe
          (journal (charter lib key))
          (OnOk Claims)
          (redis_state lib s env (resource_name s <> "-redis") found)
          l
  unfolding stateful_set_ready
  redis_state-Safe env false l light = inl refl
  redis_state-Safe env true l light = (
    tt,
    elim [
      | ok t ↦ elim (Bool-cases (leb 1 t.ready_replicas)) [
        | inr down ↦ rw down (inl refl)
        | inl up ↦ rw up (inr (refl, now (inl (light, (t, ground arith, refl)))))
      ]
      | err e ↦ elim (Bool-cases (is_not_found e)) [
        | inl missing ↦ rw missing (inl refl)
        | inr failed ↦ rw failed tt
      ]
    ],
  )

  redis_object-Safe :
      (auth_secret : String) (l : Journal)
      → s.spec.database_type ≡ database_light
      → Happened (Answered lib key s) l
      → Safe
          (journal (charter lib key))
          (OnOk Claims)
          (redis_object lib s (resource_name s <> "-redis") auth_secret)
          l
  redis_object-Safe auth_secret l light held =
      let name = resource_name s <> "-redis" in
      let o = blank s.metadata.namespace name in
      let set = set_redis_spec lib s auth_secret in
      Safe-then (charter lib key) (create_or_ignore_missing_crd lib s redis_kind o set)
        (λ found. redis_state lib s (redis_env name auth_secret) name found.0)
        (Found lib law key s redis_kind (child_key lib key s name)) Claims l
        (create_or_ignore_missing_crd-Safe lib law key s redis_kind "-redis" o set l held refl)
        (λ found l' later h. redis_state-Safe (redis_env name auth_secret) found.0 l' light)

  reconcile_redis-Safe :
      (l : Journal)
      → s.spec.database_type ≡ database_light
      → Happened (Answered lib key s) l
      → Safe (journal (charter lib key)) (OnOk Claims) (reconcile_redis lib s) l
  unfolding reconcile_redis
  reconcile_redis-Safe l light held =
      let name = resource_name s <> "-redis" in
      Safe-then (charter lib key) (ensure_redis_auth_secret lib s (name <> "-auth"))
        (λ u. redis_object lib s name (name <> "-auth")) Any Claims l
        (ensure_redis_auth_secret-Safe lib law key s (name <> "-auth") l
          ("-redis" <> "-auth", append_assoc (resource_name s) "-redis" "-auth") held)
        (λ u l' later _. redis_object-Safe (name <> "-auth") l' light (Happened-Extends held later))

  -- If setting an owner reference changes nothing else: reconciling the database of a Shop that
  -- the server has answered keeps to the charter, and the database is called ready only if the
  -- server showed a ready replica of the Redis StatefulSet (for the light type) or a ready
  -- instance of the Postgres cluster (for any other type).
  pub reconcile_database-Safe :
      (l : Journal)
      → Happened (Answered lib key s) l
      → Safe (journal (charter lib key)) (OnOk Claims) (reconcile_database lib s) l
  unfolding reconcile_database
  reconcile_database-Safe l held = elim (Bool-cases (s.spec.database_type == database_light)) [
    | inl light ↦ rw light (reconcile_redis-Safe l ((eq_iff _ _).0 light) held)
    | inr other ↦ rw other (
        reconcile_postgres-Safe l
          (λ light. cc ((eq_iff s.spec.database_type database_light).1 light, other)) held)
  ]
