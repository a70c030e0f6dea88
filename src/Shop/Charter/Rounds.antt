-- ===== src/Shop/Charter/Rounds.antt =====
-- The loop over the microservices: what `allReady` claims.
use shop_operator.Base.{
  ℕ, String, ◌≡◌, refl, ◌⊎◌, inl, inr, Bool, true, false, ◌&&◌, List, [], ◌∷◌, All, arith, eqb,
  Bool-cases,
}
use mathlib.Core.Path.{subst}
use shop_operator.Api.{Shop}
use shop_operator.Kube.Objects.{Key, Deployment}
use shop_operator.Kube.Prog.{ok, err}
use shop_operator.Kube.Journal.{
  Journal, Happened, Extends, Extends-trans, Happened-Extends, journal, OnOk, Safe-then,
  Safe-Extends, same,
}
use shop_operator.Kube.Lawful.{CreatesOrUpdates, SetsController}
use shop_operator.Kube.Library.{Library}
use shop_operator.Kube.Monitor.{Safe, Safe-weaken}
use shop_operator.Shop.Microservice.{Microservice}
use shop_operator.Shop.Names.{desired_replicas}
use shop_operator.Shop.Database.{Database}
use shop_operator.Shop.Workload.{reconcile_deployment}
use shop_operator.Shop.Network.{reconcile_service}
use shop_operator.Shop.Controller.{
  is_ready, migrate, reconcile_microservice, reconcile_microservices,
}
use shop_operator.Shop.Charter.{Answered, Serves, Migrated, Up, charter}
use shop_operator.Shop.Charter.Owning.{Any}
use shop_operator.Shop.Charter.Objects.{reconcile_service-Safe}
use shop_operator.Shop.Charter.Workloads.{reconcile_deployment-Safe}
use shop_operator.Shop.Charter.Migrations.{Tells, reconcile_migration_job-Safe}

module _ (lib : Library) (key : Key) (s : Shop) where
  Migrated-Extends :
      {l l' : Journal} (m : Microservice)
      → Migrated lib key s m l
      → Extends l l'
      → Migrated lib key s m l'
  Migrated-Extends m (inl h) later = inl h
  Migrated-Extends m (inr (inl h)) later = inr (inl h)
  Migrated-Extends m (inr (inr h)) later = inr (inr (Happened-Extends h later))

  Up-Extends :
      {l l' : Journal} (n : ℕ) (m : Microservice)
      → Up lib key s n l m
      → Extends l l'
      → Up lib key s n l' m
  Up-Extends n m (serves, migrated) later =
      (Happened-Extends serves later, Migrated-Extends m migrated later)

module _ (lib : Library) (cu : CreatesOrUpdates lib) (law : SetsController lib) (key : Key)
    (s : Shop) (db : Database) (auth_secret_name : String) where
  abbrev replicas : ℕ
  replicas = desired_replicas s.spec.availability

  migrate-Safe :
      (m : Microservice) (l : Journal)
      → Happened (Answered lib key s) l
      → Safe
          (journal (charter lib key))
          (OnOk (Tells lib law key s m db.0 auth_secret_name))
          (migrate lib s m db auth_secret_name)
          l
  unfolding migrate
  migrate-Safe m l held = elim (Bool-cases (is_ready db.1)) [
    | inl up ↦ rw up (reconcile_migration_job-Safe lib law key s m db.0 auth_secret_name l held)
    | inr down ↦ rw down (elim (Bool-cases m.has_migrations) [
      | inl due ↦ rw due (inl refl)
      | inr idle ↦ rw idle (inr (refl, inl refl))
    ])
  ]

  -- What one round tells.
  abbrev pub Round : Microservice → Bool → Journal → Type 0
  Round m here l = (here ≡ false) ⊎ (here ≡ true) × Up lib key s replicas l m

  Round-Tells :
      (m : Microservice) (migrated : Bool) (d : Deployment) (l : Journal)
      → Tells lib law key s m db.0 auth_secret_name migrated l
      → Happened (Serves lib key s m d.ready_replicas) l
      → Round m (migrated && eqb d.ready_replicas replicas) l
  Round-Tells m migrated d l (inl unmet) serves = rw unmet (inl refl)
  Round-Tells m migrated d l (inr (met, done)) serves =
      rw met (elim (Bool-cases (eqb d.ready_replicas replicas)) [
        | inr few ↦ inl few
        | inl all ↦
            inr (all, (subst (λ n. Happened (Serves lib key s m n) l) (ground arith) serves, done))
      ])

  Tells-Extends :
      {l l' : Journal} (m : Microservice) (migrated : Bool)
      → Tells lib law key s m db.0 auth_secret_name migrated l
      → Extends l l'
      → Tells lib law key s m db.0 auth_secret_name migrated l'
  Tells-Extends m migrated (inl unmet) later = inl unmet
  Tells-Extends m migrated (inr (met, done)) later =
      inr (met, Migrated-Extends lib key s m done later)

  reconcile_microservice-Safe :
      (m : Microservice) (l : Journal)
      → Happened (Answered lib key s) l
      → Safe
          (journal (charter lib key))
          (OnOk (Round m))
          (reconcile_microservice lib s m replicas db auth_secret_name)
          l
  unfolding reconcile_microservice
  reconcile_microservice-Safe m l held =
      Safe-then (charter lib key) (migrate lib s m db auth_secret_name) _
        (Tells lib law key s m db.0 auth_secret_name) (Round m) l (migrate-Safe m l held)
        (λ migrated l₁ later₁ tells.
          let held₁ = Happened-Extends held later₁ in
          Safe-then (charter lib key) (reconcile_deployment lib s m replicas db.0 auth_secret_name)
            _ (λ d l'. Happened (Serves lib key s m d.ready_replicas) l') (Round m) l₁
            (reconcile_deployment-Safe lib cu key s m db.0 auth_secret_name l₁ held₁)
            (λ d l₂ later₂ serves.
              Safe-then (charter lib key) (reconcile_service lib s m) _ Any (Round m) l₂
                (reconcile_service-Safe lib cu key s l₂ (Happened-Extends held₁ later₂) m)
                (λ u l₃ later₃ _.
                  Round-Tells m migrated d l₃
                    (Tells-Extends m migrated tells (Extends-trans later₂ later₃))
                    (Happened-Extends serves later₃))))

  -- What the loop tells, over the microservices that it went through.
  abbrev pub Rounds : List Microservice → Bool → Bool → Journal → Type 0
  Rounds ms start all_ready l =
      (all_ready ≡ false) ⊎ (all_ready ≡ true) × (start ≡ true) × All (Up lib key s replicas l) ms

  Rounds-cons :
      (m : Microservice) (ms : List Microservice) (start here all_ready : Bool) (l l' : Journal)
      → Round m here l
      → Extends l l'
      → Rounds ms (start && here) all_ready l'
      → Rounds (m ∷ ms) start all_ready l'
  Rounds-cons m ms start here all_ready l l' round later (inl unmet) = inl unmet
  Rounds-cons m ms true true all_ready l l' (inl unmet) later (inr h) = cc
  Rounds-cons m ms true true all_ready l l' (inr (met, up)) later (inr (all, started, ups)) =
      inr (all, refl, (Up-Extends lib key s replicas m up later, ups))
  Rounds-cons m ms true false all_ready l l' round later (inr (all, started, ups)) = cc
  Rounds-cons m ms false here all_ready l l' round later (inr (all, started, ups)) = cc

  pub reconcile_microservices-Safe :
      (ms : List Microservice) (start : Bool) (l : Journal)
      → Happened (Answered lib key s) l
      → Safe
          (journal (charter lib key))
          (OnOk (Rounds ms start))
          (reconcile_microservices lib s ms replicas db auth_secret_name start)
          l
  unfolding reconcile_microservices
  reconcile_microservices-Safe [] true l held = inr (refl, refl, tt)
  reconcile_microservices-Safe [] false l held = inl refl
  reconcile_microservices-Safe (m ∷ ms) start l held =
      Safe-then (charter lib key) (reconcile_microservice lib s m replicas db auth_secret_name)
        (λ here. reconcile_microservices lib s ms replicas db auth_secret_name (start && here))
        (Round m) (Rounds (m ∷ ms) start) l (reconcile_microservice-Safe m l held)
        (λ here l₁ later₁ round.
          Safe-weaken (journal (charter lib key))
            (reconcile_microservices lib s ms replicas db auth_secret_name (start && here))
            (λ r l'. OnOk (Rounds ms (start && here)) r l' × Extends l₁ l')
            (OnOk (Rounds (m ∷ ms) start)) l₁
            (Safe-Extends (charter lib key)
              (reconcile_microservices lib s ms replicas db auth_secret_name (start && here))
              (OnOk (Rounds ms (start && here))) l₁ l₁ same
              (reconcile_microservices-Safe ms (start && here) l₁ (Happened-Extends held later₁)))
            (elim [
              | ok all_ready ↦ λ l' h. Rounds-cons m ms start here all_ready l₁ l' round h.1 h.0
              | err e ↦ λ l' h. tt
            ]))
