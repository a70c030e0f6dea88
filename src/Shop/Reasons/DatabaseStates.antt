-- ===== src/Shop/Reasons/DatabaseStates.antt =====
-- What each state of the database says of the cluster.
use shop_operator.Base.{inl, inr}
use shop_operator.Access.{manager_role}
use shop_operator.Api.{Shop}
use shop_operator.Kube.Objects.{Key}
use shop_operator.Kube.Prog.{Result, ok, err}
use shop_operator.Kube.Journal.{Journal, Happened, Rule, journal, OnOk, Safe-both}
use shop_operator.Kube.Lawful.{CreatesOrUpdates, SetsController}
use shop_operator.Kube.Library.{Library}
use shop_operator.Kube.Monitor.{Safe, Safe-weaken}
use shop_operator.Kube.Outcome.{Caused, Outcome, permits}
use shop_operator.Shop.Database.{
  DatabaseState, operator_missing, provisioning, ready, Database, reconcile_database,
}
use shop_operator.Shop.Charter.{Answered, DatabaseUp, charter}
use shop_operator.Shop.Charter.Databases.{Claims, reconcile_database-Safe}
use shop_operator.Shop.Reasons.{DatabaseReason}
use shop_operator.Shop.Reasons.Databases.{Tells, reconcile_database-Ensures}

-- The charter of the Shop controller, within the role of the operator.
abbrev pub bounds : Library → Key → Rule
bounds lib key q l = charter lib key q l × permits manager_role q l

module _ (lib : Library) (key : Key) (s : Shop) where
  -- Each state has been seen: the database at work, the database down, or a kind that is not known.
  abbrev pub Shows : DatabaseState → Journal → Type 0
  Shows ready l = Happened (DatabaseUp lib key s) l
  Shows provisioning l = DatabaseReason lib key s provisioning l
  Shows operator_missing l = DatabaseReason lib key s operator_missing l

  abbrev pub Showing : Result Database → Journal → Type 0
  Showing (ok db) l = Shows db.1 l
  Showing (err e) l = Caused lib e l

  module _ (cu : CreatesOrUpdates lib) (law : SetsController lib) where
    Claims-Shows :
        (db : Database) (l : Journal)
        → Claims lib law key s db l
        → Tells lib cu law key s db l
        → Shows db.1 l
    Claims-Shows (env, ready) l (inl down) told = cc
    Claims-Shows (env, ready) l (inr (up, shown)) told = shown
    Claims-Shows (env, provisioning) l claimed told = told
    Claims-Shows (env, operator_missing) l claimed told = told

    -- If `CreateOrUpdate` does only what its documentation allows and setting an owner reference
    -- changes nothing else: reconciling the database of a Shop that the server has answered keeps to
    -- the charter and to the role of the operator, and each of its three states has been seen: ready
    -- if the server showed a ready replica of the StatefulSet of Redis, for the light type, or a
    -- count of one or more in `status.readyInstances` of the Postgres cluster, for any other type;
    -- provisioning if it showed the StatefulSet with no ready replica or absent, or the cluster
    -- without such a count; operator missing if it did not know the kind of the database. An error
    -- is that of the last answer, or of a call of a library, or an object was misnamed.
    pub reconcile_database-Showing :
        (l : Journal)
        → Happened (Answered lib key s) l
        → Safe (journal (bounds lib key)) Showing (reconcile_database lib s) l
    reconcile_database-Showing l held =
        Safe-weaken (journal (bounds lib key)) (reconcile_database lib s)
          (λ r j.
            OnOk (Claims lib law key s) r j × Outcome manager_role lib (Tells lib cu law key s) r j)
          Showing l
          (Safe-both (charter lib key) (permits manager_role) (reconcile_database lib s)
            (OnOk (Claims lib law key s)) (Outcome manager_role lib (Tells lib cu law key s)) l
            (reconcile_database-Safe lib law key s l held)
            (reconcile_database-Ensures lib cu law key s l))
          (elim [ ok db ↦ λ j h. Claims-Shows db j h.0 h.1 | err e ↦ λ j h. h.1 ])
