-- ===== src/Shop/Reasons/Rounds.antt =====
-- The loop over the microservices: why `allReady` is false.
use shop_operator.Base.{
  ℕ, String, ◌≡◌, refl, ◌⊎◌, inl, inr, Bool, true, false, ◌&&◌, List, [], ◌∷◌, arith, eqb,
  Bool-cases,
}
use shop_operator.Access.{manager_role}
use shop_operator.Api.{Shop}
use shop_operator.Kube.Objects.{Key, Deployment}
use shop_operator.Kube.Prog.{ok, err}
use shop_operator.Kube.Journal.{
  Journal, Happened, Extends, Extends-trans, Happened-Extends, journal, Safe-Extends, same,
}
use shop_operator.Kube.Lawful.{CreatesOrUpdates, SetsController}
use shop_operator.Kube.Library.{Library}
use shop_operator.Kube.Monitor.{Safe-weaken}
use shop_operator.Kube.Outcome.{Ensures, Ensures-then, Outcome, permits}
use shop_operator.Shop.Microservice.{Microservice}
use shop_operator.Shop.Names.{desired_replicas}
use shop_operator.Shop.Names.Injective.{Member, here, there}
use shop_operator.Shop.Database.{Database}
use shop_operator.Shop.Workload.{reconcile_deployment, reconcile_migration_job}
use shop_operator.Shop.Network.{reconcile_service}
use shop_operator.Shop.Controller.{
  is_ready, migrate, reconcile_microservice, reconcile_microservices,
}
use shop_operator.Shop.Charter.{Serves}
use shop_operator.Shop.Charter.Owning.{Any}
use shop_operator.Shop.Reasons.{Lacks, Pending}
use shop_operator.Shop.Reasons.Owned.{reconcile_service-Ensures}
use shop_operator.Shop.Reasons.Workloads.{
  Tells, reconcile_deployment-Ensures, reconcile_migration_job-Ensures,
}

module _ (lib : Library) (cu : CreatesOrUpdates lib) (law : SetsController lib) (key : Key)
    (s : Shop) (db : Database) (auth_secret_name : String) where
  abbrev replicas : ℕ
  replicas = desired_replicas s.spec.availability

  -- A microservice that is not ready has a reason, unless the database was not ready.
  abbrev pub Round : Microservice → Bool → Journal → Type 0
  Round m true l = Unit
  Round m false l = (is_ready db.1 ≡ false) ⊎ Lacks lib key s m l

  abbrev Migrated : Microservice → Bool → Journal → Type 0
  Migrated m true l = Unit
  Migrated m false l = (is_ready db.1 ≡ false) ⊎ Happened (Pending lib key s m) l

  weaken-Migrated :
      (m : Microservice) (migrated : Bool) (l : Journal)
      → Tells lib cu law key s m db.0 auth_secret_name migrated l
      → Migrated m migrated l
  weaken-Migrated m true l h = tt
  weaken-Migrated m false l h = inr h

  migrate-Ensures :
      (m : Microservice) (l : Journal)
      → Ensures manager_role lib (Migrated m) (migrate lib s m db auth_secret_name) l
  unfolding migrate
  migrate-Ensures m l = elim (Bool-cases (is_ready db.1)) [
    | inl up ↦ rw up (
        Safe-weaken (journal (permits manager_role))
          (reconcile_migration_job lib s m db.0 auth_secret_name)
          (Outcome manager_role lib (Tells lib cu law key s m db.0 auth_secret_name))
          (Outcome manager_role lib (Migrated m)) l
          (reconcile_migration_job-Ensures lib cu law key s m db.0 auth_secret_name l)
          (elim [ ok migrated ↦ λ l' h. weaken-Migrated m migrated l' h | err e ↦ λ l' h. h ]))
    | inr down ↦
        rw down (elim (Bool-cases m.has_migrations) [
          | inl due ↦ rw due (inl down)
          | inr idle ↦ rw idle tt
        ])
  ]

  Round-Tells :
      (m : Microservice) (migrated : Bool) (d : Deployment) (l l' : Journal)
      → Migrated m migrated l
      → Extends l l'
      → Happened (Serves lib key s m d.ready_replicas) l'
      → Round m (migrated && eqb d.ready_replicas replicas) l'
  Round-Tells m false d l l' (inl down) later serves = inl down
  Round-Tells m false d l l' (inr pending) later serves = inr (inr (Happened-Extends pending later))
  Round-Tells m true d l l' h later serves = elim (Bool-cases (eqb d.ready_replicas replicas)) [
    | inl all ↦ rw all tt
    | inr few ↦ rw few (inr (inl (d.ready_replicas, ground arith, serves)))
  ]

  reconcile_microservice-Ensures :
      (m : Microservice) (l : Journal)
      → Ensures manager_role lib
          (Round m)
          (reconcile_microservice lib s m replicas db auth_secret_name)
          l
  unfolding reconcile_microservice
  reconcile_microservice-Ensures m l =
      Ensures-then manager_role lib (migrate lib s m db auth_secret_name) _ (Migrated m) (Round m) l
        (migrate-Ensures m l)
        (λ migrated l₁ later₁ told.
          Ensures-then manager_role lib
            (reconcile_deployment lib s m replicas db.0 auth_secret_name) _
            (λ d l'. Happened (Serves lib key s m d.ready_replicas) l') (Round m) l₁
            (reconcile_deployment-Ensures lib cu law key s m db.0 auth_secret_name l₁)
            (λ d l₂ later₂ serves.
              Ensures-then manager_role lib (reconcile_service lib s m) _ Any (Round m) l₂
                (reconcile_service-Ensures lib cu law s m l₂)
                (λ u l₃ later₃ _.
                  Round-Tells m migrated d l₁ l₃ told (Extends-trans later₂ later₃)
                    (Happened-Extends serves later₃))))

  -- What the loop tells, over the microservices that it went through.
  abbrev pub Rounds : List Microservice → Bool → Bool → Journal → Type 0
  Rounds ms start true l = start ≡ true
  Rounds ms start false l =
      (start ≡ false)
      ⊎ (is_ready db.1 ≡ false)
      ⊎ ((m : Microservice) × Member m ms × Lacks lib key s m l)

  pub Lacks-Extends :
      {l l' : Journal} (m : Microservice)
      → Lacks lib key s m l
      → Extends l l'
      → Lacks lib key s m l'
  Lacks-Extends m (inl (n, few, serves)) later = inl (n, few, Happened-Extends serves later)
  Lacks-Extends m (inr pending) later = inr (Happened-Extends pending later)

  Rounds-cons :
      (m : Microservice) (ms : List Microservice) (start now all_ready : Bool) (l l' : Journal)
      → Round m now l
      → Extends l l'
      → Rounds ms (start && now) all_ready l'
      → Rounds (m ∷ ms) start all_ready l'
  Rounds-cons m ms true true true l l' round later h = refl
  Rounds-cons m ms true false true l l' round later h = cc
  Rounds-cons m ms false now true l l' round later h = cc
  Rounds-cons m ms false now false l l' round later h = inl refl
  Rounds-cons m ms true now false l l' round later (inr (inl down)) = inr (inl down)
  Rounds-cons m ms true now false l l' round later (inr (inr (x, member, lacks))) =
      inr (inr (x, there member, lacks))
  Rounds-cons m ms true true false l l' round later (inl h) = cc
  Rounds-cons m ms true false false l l' (inl down) later (inl h) = inr (inl down)
  Rounds-cons m ms true false false l l' (inr lacks) later (inl h) =
      inr (inr (m, here, Lacks-Extends m lacks later))

  pub reconcile_microservices-Ensures :
      (ms : List Microservice) (start : Bool) (l : Journal)
      → Ensures manager_role lib
          (Rounds ms start)
          (reconcile_microservices lib s ms replicas db auth_secret_name start)
          l
  unfolding reconcile_microservices
  reconcile_microservices-Ensures [] true l = refl
  reconcile_microservices-Ensures [] false l = inl refl
  reconcile_microservices-Ensures (m ∷ ms) start l =
      Ensures-then manager_role lib (reconcile_microservice lib s m replicas db auth_secret_name)
        (λ now. reconcile_microservices lib s ms replicas db auth_secret_name (start && now))
        (Round m) (Rounds (m ∷ ms) start) l (reconcile_microservice-Ensures m l)
        (λ now l₁ later₁ round.
          Safe-weaken (journal (permits manager_role))
            (reconcile_microservices lib s ms replicas db auth_secret_name (start && now))
            (λ r l'. Outcome manager_role lib (Rounds ms (start && now)) r l' × Extends l₁ l')
            (Outcome manager_role lib (Rounds (m ∷ ms) start)) l₁
            (Safe-Extends (permits manager_role)
              (reconcile_microservices lib s ms replicas db auth_secret_name (start && now))
              (Outcome manager_role lib (Rounds ms (start && now))) l₁ l₁ same
              (reconcile_microservices-Ensures ms (start && now) l₁))
            (elim [
              | ok all_ready ↦ λ l' h. Rounds-cons m ms start now all_ready l₁ l' round h.1 h.0
              | err e ↦ λ l' h. h.0
            ]))
