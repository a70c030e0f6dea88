-- ===== src/Shop/Reasons/Databases.antt =====
-- The Secrets and the database of a Shop.
use mathlib.Core.Path.{subst}
use shop_operator.Base.{
  sym, String, ◌<>◌, ◌≡◌, refl, inl, inr, ◌⊎◌, Bool, true, false, ◌==◌, [], ◌∷◌, List, arith, leb,
  Bool-cases,
}
use shop_operator.Base.Text.{StringMap}
use shop_operator.Access.{manager_role, is_granted}
use shop_operator.Api.{Shop, database_light}
use shop_operator.Kube.Json.{Json}
use shop_operator.Kube.Objects.{
  Key, GroupVersionKind, Secret, EnvVar, Unstructured, shop, secret, custom, key_of,
}
use shop_operator.Kube.Prog.{
  Error, is_not_found, is_no_match, Result, ok, err, get, create, bind, request,
}
use shop_operator.Kube.Journal.{Event, Journal, Happened, now, before, journal}
use shop_operator.Kube.Lawful.{CreatesOrUpdates, SetsController}
use shop_operator.Kube.Library.{Library}
use shop_operator.Kube.Monitor.{Safe-propagate}
use shop_operator.Kube.Outcome.{
  Ensures, Ensures-then, Ensures-owned, Outcome, permits, Caused, not_set,
}
use shop_operator.Shop.Names.{resource_name}
use shop_operator.Shop.Secrets.{
  random_password, create_owned_secret, blank_secret, ensure_auth_secret, ensure_redis_auth_secret,
}
use shop_operator.Shop.Database.{
  Database, blank, cnpg_cluster, redis_kind, cnpg_cluster_ready, database_state_from, create_custom,
  created_or_no_match, create_or_ignore_missing_crd, set_postgres_spec, postgres_database,
  postgres_env, postgres_spec, redis_spec, redis_env, redis_state, set_redis_spec, redis_object,
  stateful_set_ready, reconcile_postgres, reconcile_redis, reconcile_database,
}
use shop_operator.Shop.Charter.{child_key}
use shop_operator.Shop.Charter.Databases.{cnpg_cluster_ready-cases}
use shop_operator.Shop.Charter.Owning.{Any}
use shop_operator.Shop.Reasons.{Unknown, database_kind, DatabaseReason}
use shop_operator.Shop.Reasons.Owned.{Done}

module _ (lib : Library) (cu : CreatesOrUpdates lib) (law : SetsController lib) (key : Key)
    (s : Shop) where
  random_password-Ensures : (l : Journal) → Done lib cu law s random_password l
  unfolding random_password is_granted
  random_password-Ensures l = (refl, elim [ ok bytes ↦ tt | err e ↦ inl refl ])

  create_owned_secret-Ensures :
      (o : Secret) (texts : StringMap String) (l : Journal)
      → Done lib cu law s (create_owned_secret lib s o texts) l
  unfolding is_granted manager_role
  create_owned_secret-Ensures o texts l =
      Ensures-owned manager_role lib shop s.metadata o.metadata
        (λ owned. request (create secret (record o { metadata = owned; string_data = texts }))) Any
        l (λ owned _. (refl, elim [ ok x ↦ tt | err e ↦ inl refl ]))

  pub ensure_auth_secret-Ensures : (l : Journal) → Done lib cu law s (ensure_auth_secret lib s) l
  unfolding ensure_auth_secret is_granted manager_role
  ensure_auth_secret-Ensures l = (
    refl,
    elim [
      | ok existing ↦ tt
      | err e ↦ elim (Bool-cases (is_not_found e)) [
        | inr failed ↦ rw failed (inl refl)
        | inl missing ↦ rw missing (
            Ensures-then manager_role lib random_password _ Any Any _ (random_password-Ensures _)
              (λ access l₁ later₁ _.
                Ensures-then manager_role lib random_password _ Any Any l₁
                  (random_password-Ensures l₁)
                  (λ refresh l₂ later₂ _.
                    Ensures-then manager_role lib
                      (create_owned_secret lib s
                        (blank_secret lib s (resource_name s <> "-auth-jwt"))
                        (("access", access) ∷ ("refresh", refresh) ∷ []))
                      _ Any Any l₂
                      (create_owned_secret-Ensures
                        (blank_secret lib s (resource_name s <> "-auth-jwt")) _ l₂)
                      (λ x l₃ later₃ _. tt))))
      ]
    ],
  )

  ensure_redis_auth_secret-Ensures :
      (name : String) (l : Journal) → Done lib cu law s (ensure_redis_auth_secret lib s name) l
  unfolding ensure_redis_auth_secret is_granted manager_role
  ensure_redis_auth_secret-Ensures name l = (
    refl,
    elim [
      | ok existing ↦ tt
      | err e ↦ elim (Bool-cases (is_not_found e)) [
        | inr failed ↦ rw failed (inl refl)
        | inl missing ↦ rw missing (
            Ensures-then manager_role lib random_password _ Any Any _ (random_password-Ensures _)
              (λ password l₁ later₁ _.
                Ensures-then manager_role lib
                  (create_owned_secret lib s (blank_secret lib s name)
                    (("password", password) ∷ []))
                  _ Any Any l₁ (create_owned_secret-Ensures (blank_secret lib s name) _ l₁)
                  (λ x l₂ later₂ _. tt)))
      ]
    ],
  )

  -- The server showed the object: it was read, or it is the answer to a creation.
  abbrev pub Shown : GroupVersionKind → Key → Unstructured → Event → Type 0
  Shown g k c e =
      (e ≡ (get (custom g) k, ok c)) ⊎ ((o : Unstructured) × (e ≡ (create (custom g) o, ok c)))

  -- The object was found or made, or its kind is unknown to the server.
  abbrev pub Met : GroupVersionKind → Key → Bool × Unstructured → Journal → Type 0
  Met g k (false, c) l = Happened (Unknown g) l
  Met g k (true, c) l = Happened (Shown g k c) l

  module _ (g : GroupVersionKind) (o : Unstructured) (mutate : Json → Result Json)
      (may_get : is_granted manager_role (get (custom g) (key_of o.metadata)) ≡ true)
      (may_create : (x : Unstructured) → is_granted manager_role (create (custom g) x) ≡ true)
      (fails : (body : Json) (e : Error) (l : Journal) → mutate body ≡ err e → Caused lib e l) where
    create_custom-Ensures :
        (l : Journal)
        → Ensures manager_role lib (Met g (key_of o.metadata)) (create_custom lib s g o mutate) l
    create_custom-Ensures l =
        Safe-propagate (journal (permits manager_role)) _ (mutate o.body)
          (Outcome manager_role lib (Met g (key_of o.metadata))) l
          (λ body _.
            Ensures-owned manager_role lib shop s.metadata o.metadata
              (λ owned.
                bind (request (create (custom g) (record { metadata = owned; body = body })))
                  (created_or_no_match lib s o))
              (Met g (key_of o.metadata)) l
              (λ owned signed. (
                may_create (record { metadata = owned; body = body }),
                elim [
                  | ok made ↦ now (inr (record { metadata = owned; body = body }, refl))
                  | err e ↦ elim (Bool-cases (is_no_match e)) [
                    | inl missing ↦
                        rw missing
                          (now (e, missing, inr (record { metadata = owned; body = body }, refl)))
                    | inr failed ↦ rw failed (inl refl)
                  ]
                ],
              )))
          (λ e failed. fails o.body e l failed)

    create_or_ignore_missing_crd-Ensures :
        (l : Journal)
        → Ensures manager_role lib
            (Met g (key_of o.metadata))
            (create_or_ignore_missing_crd lib s g o mutate)
            l
    unfolding create_or_ignore_missing_crd
    create_or_ignore_missing_crd-Ensures l = (
      may_get,
      elim [
        | ok existing ↦ now (inl refl)
        | err e ↦ elim (Bool-cases (is_no_match e)) [
          | inl no_crd ↦ rw no_crd (now (e, no_crd, inl (key_of o.metadata, refl)))
          | inr crd ↦ rw crd (elim (Bool-cases (is_not_found e)) [
            | inl missing ↦ rw missing (create_custom-Ensures _)
            | inr failed ↦ rw failed (inl refl)
          ])
        ]
      ],
    )

  -- Why the database is in its state.
  abbrev pub Tells : Database → Journal → Type 0
  Tells db l = DatabaseReason lib key s db.1 l

  abbrev pub Happened-map :
      {P Q : Event → Type 0} {l : Journal} → ((e : Event) → P e → Q e) → Happened P l → Happened Q l
  Happened-map f (now p) = now (f _ p)
  Happened-map f (before h) = before (Happened-map f h)

  postgres-Tells :
      (env : List EnvVar) (found : Bool) (c : Unstructured) (l : Journal)
      → (s.spec.database_type == database_light) ≡ false
      → Met cnpg_cluster (child_key lib key s (resource_name s <> "-db")) (found, c) l
      → Tells (env, database_state_from found c (cnpg_cluster_ready lib)) l
  unfolding database_state_from
  postgres-Tells env false c l standard h =
      subst (λ light. Happened (Unknown (database_kind light)) l) (sym standard) h
  postgres-Tells env true c l standard h = elim (cnpg_cluster_ready-cases lib law key s c) [
    | inl (up, _) ↦ rw up tt
    | inr (down, lacks) ↦ rw down (Happened-map (λ e shown. inr (inr (c, lacks, shown))) h)
  ]

  reconcile_postgres-Ensures :
      (l : Journal)
      → (s.spec.database_type == database_light) ≡ false
      → Ensures manager_role lib Tells (reconcile_postgres lib s) l
  unfolding reconcile_postgres is_granted manager_role
  reconcile_postgres-Ensures l standard =
      let o = blank s.metadata.namespace (resource_name s <> "-db") in
      Ensures-then manager_role lib
        (create_or_ignore_missing_crd lib s cnpg_cluster o (set_postgres_spec lib s))
        (postgres_database lib s (resource_name s <> "-db")) (Met cnpg_cluster (key_of o.metadata))
        Tells l
        (create_or_ignore_missing_crd-Ensures cnpg_cluster o (set_postgres_spec lib s) refl
          (λ x. refl)
          (λ body e l' failed. inr (inl (not_set body postgres_spec ("spec" ∷ []) failed))) l)
        (λ found l' later h.
          postgres-Tells (postgres_env (resource_name s <> "-db-app")) found.0 found.1 l' standard
            h)

  redis_state-Ensures :
      (env : List EnvVar) (found : Bool) (c : Unstructured) (l : Journal)
      → (s.spec.database_type == database_light) ≡ true
      → Met redis_kind (child_key lib key s (resource_name s <> "-redis")) (found, c) l
      → Ensures manager_role lib Tells (redis_state lib s env (resource_name s <> "-redis") found) l
  unfolding stateful_set_ready is_granted manager_role
  redis_state-Ensures env false c l light h =
      subst (λ b. Happened (Unknown (database_kind b)) l) (sym light) h
  redis_state-Ensures env true c l light h = (
    refl,
    elim [
      | ok t ↦ elim (Bool-cases (leb 1 t.ready_replicas)) [
        | inl up ↦ rw up tt
        | inr down ↦ rw down (now (inl (t, ground arith, refl)))
      ]
      | err e ↦ elim (Bool-cases (is_not_found e)) [
        | inl missing ↦ rw missing (now (inr (inl (e, missing, refl))))
        | inr failed ↦ rw failed (inl refl)
      ]
    ],
  )

  redis_object-Ensures :
      (auth_secret : String) (l : Journal)
      → (s.spec.database_type == database_light) ≡ true
      → Ensures manager_role lib Tells
          (redis_object lib s (resource_name s <> "-redis") auth_secret)
          l
  unfolding is_granted manager_role
  redis_object-Ensures auth_secret l light =
      let name = resource_name s <> "-redis" in
      let o = blank s.metadata.namespace name in
      let set = set_redis_spec lib s auth_secret in
      Ensures-then manager_role lib (create_or_ignore_missing_crd lib s redis_kind o set)
        (λ found. redis_state lib s (redis_env name auth_secret) name found.0)
        (Met redis_kind (key_of o.metadata)) Tells l
        (create_or_ignore_missing_crd-Ensures redis_kind o set refl (λ x. refl)
          (λ body e l' failed.
            inr (inl (not_set body (redis_spec lib s auth_secret) ("spec" ∷ []) failed)))
          l)
        (λ found l' later h.
          redis_state-Ensures (redis_env name auth_secret) found.0 found.1 l' light h)

  reconcile_redis-Ensures :
      (l : Journal)
      → (s.spec.database_type == database_light) ≡ true
      → Ensures manager_role lib Tells (reconcile_redis lib s) l
  unfolding reconcile_redis
  reconcile_redis-Ensures l light =
      let name = resource_name s <> "-redis" in
      Ensures-then manager_role lib (ensure_redis_auth_secret lib s (name <> "-auth"))
        (λ u. redis_object lib s name (name <> "-auth")) Any Tells l
        (ensure_redis_auth_secret-Ensures (name <> "-auth") l)
        (λ u l' later _. redis_object-Ensures (name <> "-auth") l' light)

  pub reconcile_database-Ensures :
      (l : Journal) → Ensures manager_role lib Tells (reconcile_database lib s) l
  unfolding reconcile_database
  reconcile_database-Ensures l = elim (Bool-cases (s.spec.database_type == database_light)) [
    | inl light ↦ rw light (reconcile_redis-Ensures l light)
    | inr other ↦ rw other (reconcile_postgres-Ensures l other)
  ]
