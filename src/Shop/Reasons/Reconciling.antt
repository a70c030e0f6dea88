-- ===== src/Shop/Reasons/Reconciling.antt =====
-- The whole of a reconcile of a Shop: where an error comes from, and why the Shop is not ready.
use shop_operator.Base.{ℕ, String, refl, inl, inr, Bool, true, false, [], ◌∷◌, Bool-cases}
use shop_operator.Access.{manager_role, is_granted}
use shop_operator.Api.{Shop}
use shop_operator.Kube.Objects.{Key, shop}
use shop_operator.Kube.Prog.{is_not_found, Result, ok, err, get, ◌>>◌}
use shop_operator.Kube.Journal.{
  Journal, Happened, now, before, Extends, Extends-trans, Happened-Extends, same, more,
}
use shop_operator.Kube.Lawful.{CreatesOrUpdates, SetsController}
use shop_operator.Kube.Library.{Library}
use shop_operator.Kube.Outcome.{Ensures, Ensures-then}
use shop_operator.Shop.Microservice.{shop_microservices}
use shop_operator.Shop.Names.{desired_replicas}
use shop_operator.Shop.Database.{
  DatabaseState, operator_missing, provisioning, ready, Database, reconcile_database,
}
use shop_operator.Shop.Secrets.{ensure_auth_secret}
use shop_operator.Shop.Children.{reconcile_wallet, reconcile_discord_channel}
use shop_operator.Shop.Network.{reconcile_ingress}
use shop_operator.Shop.Monitoring.{
  reconcile_service_monitor, reconcile_prometheus_rule, reconcile_alertmanager_config,
}
use shop_operator.Shop.Dashboard.{reconcile_grafana_dashboard}
use shop_operator.Shop.Status.{observed_shop, write_status}
use shop_operator.Shop.Controller.{
  is_ready, reconcile_attachments, reconcile_microservices, requeue, conclude, serve, with_database,
  reconcile_shop, reconcile_found, reconcile,
}
use shop_operator.Shop.Charter.{Answered}
use shop_operator.Shop.Charter.Owning.{Any}
use shop_operator.Shop.Charter.Reconciling.{Reported}
use shop_operator.Shop.Reasons.{DatabaseReason, Explained}
use shop_operator.Shop.Reasons.Owned.{
  Done, Done-next, reconcile_wallet-Ensures, reconcile_discord_channel-Ensures,
  reconcile_ingress-Ensures, reconcile_grafana_dashboard-Ensures,
}
use shop_operator.Shop.Reasons.Monitored.{
  reconcile_service_monitor-Ensures, reconcile_prometheus_rule-Ensures,
  reconcile_alertmanager_config-Ensures,
}
use shop_operator.Shop.Reasons.Databases.{ensure_auth_secret-Ensures, reconcile_database-Ensures}
use shop_operator.Shop.Reasons.Rounds.{Rounds, Lacks-Extends, reconcile_microservices-Ensures}

module _ (lib : Library) (cu : CreatesOrUpdates lib) (law : SetsController lib) (key : Key) where
  module _ (s : Shop) where
    reconcile_attachments-Ensures :
        (l : Journal) → Done lib cu law s (reconcile_attachments lib s) l
    unfolding reconcile_attachments
    reconcile_attachments-Ensures l =
        let a = reconcile_wallet lib s in
        let b = reconcile_discord_channel lib s in
        let c = reconcile_service_monitor lib s in
        let d = reconcile_grafana_dashboard lib s in
        let e = reconcile_prometheus_rule lib s in
        Done-next lib cu law s (a >> b >> c >> d >> e) (reconcile_alertmanager_config lib s) l
          (Done-next lib cu law s (a >> b >> c >> d) e l
            (Done-next lib cu law s (a >> b >> c) d l
              (Done-next lib cu law s (a >> b) c l
                (Done-next lib cu law s a b l (reconcile_wallet-Ensures lib cu law s l)
                  (reconcile_discord_channel-Ensures lib cu law s))
                (reconcile_service_monitor-Ensures lib cu law s))
              (reconcile_grafana_dashboard-Ensures lib cu law s))
            (reconcile_prometheus_rule-Ensures lib cu law s))
          (reconcile_alertmanager_config-Ensures lib cu law s)

    abbrev replicas : ℕ
    replicas = desired_replicas s.spec.availability

    DatabaseReason-Extends :
        (state : DatabaseState) {l l' : Journal}
        → DatabaseReason lib key s state l
        → Extends l l'
        → DatabaseReason lib key s state l'
    DatabaseReason-Extends operator_missing h later = Happened-Extends h later
    DatabaseReason-Extends provisioning h later = Happened-Extends h later
    DatabaseReason-Extends ready h later = tt

    -- What was told before the status is written.
    abbrev Told : Database → Bool → Journal → Type 0
    Told db all_ready l =
        DatabaseReason lib key s db.1 l
        × Rounds lib cu law key s db "" shop_microservices (is_ready db.1) all_ready l

    requeue-Explained :
        (state : DatabaseState) (db_env : _) (all_ready : Bool) (l l' : Journal)
        → Told (db_env, state) all_ready l
        → Extends l l'
        → Happened (Answered lib key s) l'
        → Happened (Reported all_ready) l'
        → Explained lib key (requeue lib s state all_ready) l'
    unfolding requeue
    requeue-Explained operator_missing db_env true l l' (reason, h) later held reported = cc
    requeue-Explained provisioning db_env true l l' (reason, h) later held reported = cc
    requeue-Explained ready db_env true l l' (reason, h) later held reported =
        inl (refl, inr reported)
    requeue-Explained operator_missing db_env false l l' (reason, h) later held reported =
        inr (
          s,
          held,
          reported,
          inl (refl, (operator_missing, λ e. cc, Happened-Extends reason later)),
        )
    requeue-Explained provisioning db_env false l l' (reason, h) later held reported =
        inr (s, held, reported, inl (refl, (provisioning, λ e. cc, Happened-Extends reason later)))
    requeue-Explained ready db_env false l l' (reason, inl h) later held reported = cc
    requeue-Explained ready db_env false l l' (reason, inr (inl h)) later held reported = cc
    requeue-Explained ready db_env false l l' (reason, inr (inr (m, member, lacks))) later held
          reported =
        inr (
          s,
          held,
          reported,
          inr (refl, (m, member, Lacks-Extends lib cu law key s (db_env, ready) "" m lacks later)),
        )

    conclude-Ensures :
        (db : Database) (all_ready : Bool) (l : Journal)
        → Happened (Answered lib key s) l
        → Told db all_ready l
        → Ensures manager_role lib (Explained lib key) (conclude lib s replicas db.1 all_ready) l
    unfolding conclude write_status observed_shop is_granted manager_role
    conclude-Ensures db all_ready l held told = (
      refl,
      elim [
        | ok o' ↦
            Ensures-then manager_role lib (reconcile_ingress lib o') _ Any (Explained lib key) _
              (reconcile_ingress-Ensures lib cu law o' _)
              (λ u l' later _.
                requeue-Explained db.1 db.0 all_ready l l' told (Extends-trans (more same) later)
                  (Happened-Extends (before held) later)
                  (Happened-Extends (now (_, o', refl, refl)) later))
        | err e ↦ inl refl
      ],
    )

    Rounds-Extends :
        (db : Database) (auth_secret_name : String) (all_ready : Bool) (l : Journal)
        → Rounds lib cu law key s db auth_secret_name shop_microservices (is_ready db.1) all_ready l
        → Rounds lib cu law key s db "" shop_microservices (is_ready db.1) all_ready l
    Rounds-Extends db auth_secret_name true l h = h
    Rounds-Extends db auth_secret_name false l h = h

    serve-Ensures :
        (db : Database) (auth_secret_name : String) (l : Journal)
        → Happened (Answered lib key s) l
        → DatabaseReason lib key s db.1 l
        → Ensures manager_role lib (Explained lib key) (serve lib s replicas db auth_secret_name) l
    unfolding serve
    serve-Ensures db auth_secret_name l held reason =
        Ensures-then manager_role lib
          (reconcile_microservices lib s shop_microservices replicas db auth_secret_name
            (is_ready db.1))
          (conclude lib s replicas db.1)
          (Rounds lib cu law key s db auth_secret_name shop_microservices (is_ready db.1))
          (Explained lib key) l
          (reconcile_microservices-Ensures lib cu law key s db auth_secret_name shop_microservices
            (is_ready db.1) l)
          (λ all_ready l' later rounds.
            conclude-Ensures db all_ready l' (Happened-Extends held later) (
              DatabaseReason-Extends db.1 reason later,
              Rounds-Extends db auth_secret_name all_ready l' rounds,
            ))

    reconcile_shop-Ensures :
        (l : Journal)
        → Happened (Answered lib key s) l
        → Ensures manager_role lib (Explained lib key) (reconcile_shop lib s) l
    unfolding reconcile_shop
    reconcile_shop-Ensures l held =
        Ensures-then manager_role lib (reconcile_attachments lib s >> reconcile_database lib s)
          (with_database lib s replicas) (λ db. DatabaseReason lib key s db.1) (Explained lib key) l
          (Ensures-then manager_role lib (reconcile_attachments lib s)
            (λ u. reconcile_database lib s) Any (λ db. DatabaseReason lib key s db.1) l
            (reconcile_attachments-Ensures l)
            (λ u l' later _. reconcile_database-Ensures lib cu law key s l'))
          (λ db l₁ later₁ reason.
            let held₁ = Happened-Extends held later₁ in
            Ensures-then manager_role lib (ensure_auth_secret lib s) (serve lib s replicas db) Any
              (Explained lib key) l₁ (ensure_auth_secret-Ensures lib cu law key s l₁)
              (λ name l₂ later₂ _.
                serve-Ensures db name l₂ (Happened-Extends held₁ later₂)
                  (DatabaseReason-Extends db.1 reason later₂)))

  reconcile_found-Ensures :
      (x : Result Shop)
      → Ensures manager_role lib
          (Explained lib key)
          (reconcile_found lib x)
          ((get shop key, x) ∷ [])
  reconcile_found-Ensures (ok s) = reconcile_shop-Ensures s _ (now (inl refl))
  reconcile_found-Ensures (err e) = elim (Bool-cases (is_not_found e)) [
    | inl gone ↦ rw gone (inl (refl, inl (now (e, gone, refl))))
    | inr failed ↦ rw failed (inl refl)
  ]

  -- If `CreateOrUpdate` does only what its documentation allows and setting an owner reference
  -- changes nothing else, then whatever the API server and the random source answer, the role of
  -- the operator grants every request of a reconcile of a Shop, and its end has a cause. It ends
  -- without a requeue only if the Shop was gone or was reported as ready. With a requeue the
  -- Shop, as it was read, was reported as not ready: after 30 seconds if the server did not know
  -- the kind of the database, or showed the database absent or without a ready instance; after 15
  -- seconds if for some microservice it showed a Deployment with another number of ready replicas,
  -- or the migration Job absent or not succeeded. It ends with an error only if that is the error
  -- of the last answer, after which nothing was requested, or that of a call of a library, or if
  -- the server answered a read with an object of another name.
  pub reconcile-Explained : Ensures manager_role lib (Explained lib key) (reconcile lib key) []
  unfolding reconcile is_granted manager_role
  reconcile-Explained = (refl, reconcile_found-Ensures)
