-- ===== src/Shop/Charter/Reconciling.antt =====
-- The whole of a reconcile of a Shop under the charter.
use shop_operator.Base.{
  ℕ, ◌≡◌, refl, ◌⊎◌, inl, inr, Bool, true, false, none, some, [], ◌∷◌, String, Bool-cases,
}
use shop_operator.Api.{Shop}
use shop_operator.Kube.Objects.{Key, shop}
use shop_operator.Kube.Prog.{is_not_found, Result, ok, err, get, update_status, M, ◌>>◌}
use shop_operator.Kube.Journal.{
  Event, Journal, Happened, now, Happened-Extends, journal, OnOk, Safe-then,
}
use shop_operator.Kube.Lawful.{CreatesOrUpdates, SetsController}
use shop_operator.Kube.Library.{Library}
use shop_operator.Kube.Monitor.{Safe}
use shop_operator.Kube.Reconcile.{Requeue}
use shop_operator.Shop.Microservice.{shop_microservices}
use shop_operator.Shop.Names.{desired_replicas}
use shop_operator.Shop.Database.{Database, reconcile_database}
use shop_operator.Shop.Secrets.{ensure_auth_secret}
use shop_operator.Shop.Children.{reconcile_wallet, reconcile_discord_channel}
use shop_operator.Shop.Network.{reconcile_ingress}
use shop_operator.Shop.Monitoring.{
  reconcile_service_monitor, reconcile_prometheus_rule, reconcile_alertmanager_config,
}
use shop_operator.Shop.Dashboard.{reconcile_grafana_dashboard}
use shop_operator.Shop.Status.{observed_shop, write_status}
use shop_operator.Shop.Controller.{
  is_ready, reconcile_attachments, reconcile_microservices, requeue, conclude, serve, with_database,
  reconcile_shop, reconcile_found, reconcile, database_ready_requeue, deployment_pending_requeue,
}
use shop_operator.Shop.Charter.{Absent, Answered, Justified, charter}
use shop_operator.Shop.Charter.Owning.{Any}
use shop_operator.Shop.Charter.Objects.{
  reconcile_wallet-Safe, reconcile_discord_channel-Safe, reconcile_ingress-Safe,
}
use shop_operator.Shop.Charter.Observability.{
  reconcile_service_monitor-Safe, reconcile_prometheus_rule-Safe,
  reconcile_alertmanager_config-Safe, reconcile_grafana_dashboard-Safe,
}
use shop_operator.Shop.Charter.Storage.{ensure_auth_secret-Safe}
use shop_operator.Shop.Charter.Databases.{Claims, Claims-Extends, reconcile_database-Safe}
use shop_operator.Shop.Charter.Rounds.{Rounds, reconcile_microservices-Safe}

-- The server took a status with this readiness.
abbrev pub Reported : Bool → Event → Type 0
Reported is_ready e =
    (o o' : Shop) × (o.status.ready ≡ is_ready) × (e ≡ (update_status shop o, ok o'))

-- The end of a reconcile without an error: the Shop is gone or reported ready, and there is no
-- requeue; or it is reported as not ready, and the reconcile is repeated.
abbrev pub Ends : Key → Requeue → Journal → Type 0
Ends key q l =
    (q ≡ none) × (Happened (Absent shop key) l ⊎ Happened (Reported true) l)
    ⊎ ((q ≡ some database_ready_requeue) ⊎ (q ≡ some deployment_pending_requeue))
      × Happened (Reported false) l

module _ (lib : Library) (cu : CreatesOrUpdates lib) (law : SetsController lib) (key : Key) where
  -- Two steps that only have to keep to the charter.
  Safe-next :
      {A B : Type 0} (s : Shop) (p : M A) (q : M B) (l : Journal)
      → Happened (Answered lib key s) l
      → Safe (journal (charter lib key)) (OnOk Any) p l
      → ((l' : Journal)
          → Happened (Answered lib key s) l'
          → Safe (journal (charter lib key)) (OnOk Any) q l')
      → Safe (journal (charter lib key)) (OnOk Any) (p >> q) l
  Safe-next s p q l held h k =
      Safe-then (charter lib key) p (λ _. q) Any Any l h
        (λ a l' later _. k l' (Happened-Extends held later))

  module _ (s : Shop) where
    reconcile_attachments-Safe :
        (l : Journal)
        → Happened (Answered lib key s) l
        → Safe (journal (charter lib key)) (OnOk Any) (reconcile_attachments lib s) l
    unfolding reconcile_attachments
    reconcile_attachments-Safe l held =
        let a = reconcile_wallet lib s in
        let b = reconcile_discord_channel lib s in
        let c = reconcile_service_monitor lib s in
        let d = reconcile_grafana_dashboard lib s in
        let e = reconcile_prometheus_rule lib s in
        Safe-next s (a >> b >> c >> d >> e) (reconcile_alertmanager_config lib s) l held
          (Safe-next s (a >> b >> c >> d) e l held
            (Safe-next s (a >> b >> c) d l held
              (Safe-next s (a >> b) c l held
                (Safe-next s a b l held (reconcile_wallet-Safe lib cu key s l held)
                  (reconcile_discord_channel-Safe lib cu key s))
                (reconcile_service_monitor-Safe lib cu key s))
              (reconcile_grafana_dashboard-Safe lib cu key s))
            (reconcile_prometheus_rule-Safe lib cu key s))
          (reconcile_alertmanager_config-Safe lib cu key s)

    abbrev replicas : ℕ
    replicas = desired_replicas s.spec.availability

    -- What the loop and the database told before the status is written.
    abbrev Told : Database → Bool → Journal → Type 0
    Told db all_ready l =
        Claims lib law key s db l
        × Rounds lib cu law key s db "" shop_microservices (is_ready db.1) all_ready l

    requeue-Ends :
        (db : Database) (all_ready : Bool) (l l' : Journal)
        → Told db all_ready l
        → Happened (Reported all_ready) l'
        → Ends key (requeue lib s db.1 all_ready) l'
    unfolding requeue
    requeue-Ends db true l l' (claims, inl unmet) reported = cc
    requeue-Ends db true l l' (claims, inr (all, started, ups)) reported =
        rw started (inl (refl, inr reported))
    requeue-Ends db false l l' told reported = elim (Bool-cases (is_ready db.1)) [
      | inl up ↦ rw up (inr (inr refl, reported))
      | inr down ↦ rw down (inr (inl refl, reported))
    ]

    Told-Justified :
        (db : Database) (all_ready : Bool) (l : Journal)
        → Told db all_ready l
        → Justified lib key s all_ready l
    Told-Justified db all_ready l (claims, inl unmet) = inl unmet
    Told-Justified db all_ready l (inl down, inr (all, started, ups)) = cc
    Told-Justified db all_ready l (inr (up, shown), inr (all, started, ups)) = inr (all, shown, ups)

    conclude-Safe :
        (db : Database) (all_ready : Bool) (l : Journal)
        → Happened (Answered lib key s) l
        → Told db all_ready l
        → Safe
            (journal (charter lib key))
            (OnOk (Ends key))
            (conclude lib s replicas db.1 all_ready)
            l
    unfolding conclude write_status observed_shop
    conclude-Safe db all_ready l held told = (
      record {
        before = s;
        held = held;
        metadata = refl;
        spec = refl;
        replicas = refl;
        justified = Told-Justified db all_ready l told;
      },
      elim [
        | ok o' ↦
            Safe-then (charter lib key) (reconcile_ingress lib o') _ Any (Ends key) _
              (reconcile_ingress-Safe lib cu key o' _ (now (inr (_, refl))))
              (λ u l' later _.
                requeue-Ends db all_ready l l' told
                  (Happened-Extends (now (_, o', refl, refl)) later))
        | err e ↦ tt
      ],
    )

    serve-Safe :
        (db : Database) (auth_secret_name : String) (l : Journal)
        → Happened (Answered lib key s) l
        → Claims lib law key s db l
        → Safe
            (journal (charter lib key))
            (OnOk (Ends key))
            (serve lib s replicas db auth_secret_name)
            l
    unfolding serve
    serve-Safe db auth_secret_name l held claims =
        Safe-then (charter lib key)
          (reconcile_microservices lib s shop_microservices replicas db auth_secret_name
            (is_ready db.1))
          (conclude lib s replicas db.1)
          (Rounds lib cu law key s db auth_secret_name shop_microservices (is_ready db.1))
          (Ends key) l
          (reconcile_microservices-Safe lib cu law key s db auth_secret_name shop_microservices
            (is_ready db.1) l held)
          (λ all_ready l' later rounds.
            conclude-Safe db all_ready l' (Happened-Extends held later)
              (Claims-Extends lib law key s db claims later, rounds))

    reconcile_shop-Safe :
        (l : Journal)
        → Happened (Answered lib key s) l
        → Safe (journal (charter lib key)) (OnOk (Ends key)) (reconcile_shop lib s) l
    unfolding reconcile_shop
    reconcile_shop-Safe l held =
        Safe-then (charter lib key) (reconcile_attachments lib s >> reconcile_database lib s)
          (with_database lib s replicas) (Claims lib law key s) (Ends key) l
          (Safe-then (charter lib key) (reconcile_attachments lib s) (λ u. reconcile_database lib s)
            Any (Claims lib law key s) l (reconcile_attachments-Safe l held)
            (λ u l' later _.
              reconcile_database-Safe lib law key s l' (Happened-Extends held later)))
          (λ db l₁ later₁ claims.
            let held₁ = Happened-Extends held later₁ in
            Safe-then (charter lib key) (ensure_auth_secret lib s) (serve lib s replicas db) Any
              (Ends key) l₁ (ensure_auth_secret-Safe lib law key s l₁ held₁)
              (λ name l₂ later₂ _.
                serve-Safe db name l₂ (Happened-Extends held₁ later₂)
                  (Claims-Extends lib law key s db claims later₂)))

  reconcile_found-Safe :
      (x : Result Shop)
      → Safe
          (journal (charter lib key))
          (OnOk (Ends key))
          (reconcile_found lib x)
          ((get shop key, x) ∷ [])
  reconcile_found-Safe (ok s) = reconcile_shop-Safe s _ (now (inl refl))
  reconcile_found-Safe (err e) = elim (Bool-cases (is_not_found e)) [
    | inl gone ↦ rw gone (inl (refl, inl (now (e, gone, refl))))
    | inr failed ↦ rw failed tt
  ]

  -- If `CreateOrUpdate` does only what its documentation allows and setting an owner reference
  -- changes nothing else, then whatever the API server and the random source answer, at every
  -- point of a reconcile of a Shop: only objects in the namespace of the Shop are created or
  -- updated, under names made from its name, with the Shop as their controller; the Wallet and the
  -- DiscordChannel take over its configuration, a Deployment its replicas and, as a Service does,
  -- the labels of its microservice; a Secret or a Job is created only where the server had none;
  -- Secrets, Jobs and databases are never updated; the one status that may be written is the
  -- Shop's own with nothing else changed, and it says ready only if in this reconcile the server
  -- showed the database at work, each Deployment with all its replicas ready, and each migration
  -- that is due as succeeded. A reconcile without an error and without a requeue has found the
  -- Shop gone or reported it as ready; one that asks for a requeue has reported it as not ready.
  pub reconcile_keeps_charter :
      Safe (journal (charter lib key)) (OnOk (Ends key)) (reconcile lib key) []
  unfolding reconcile
  reconcile_keeps_charter = (tt, reconcile_found-Safe)
