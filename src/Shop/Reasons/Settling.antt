-- ===== src/Shop/Reasons/Settling.antt =====
-- A reconcile of a Shop against a cluster in which everything is at work.
use mathlib.Core.Path.{subst}
use shop_operator.Base.{ℕ, ◌≡◌, ◌≢◌, refl, ◌∙◌, sym, ap, inl, inr, true, none, [], ◌∷◌, All}
use shop_operator.Api.{Shop, ShopSpec}
use shop_operator.Kube.Objects.{Key, GroupVersionKind}
use shop_operator.Kube.Prog.{Error, Result, ok, err, Request}
use shop_operator.Kube.Journal.{Event, Journal, Happened}
use shop_operator.Kube.Lawful.{CreatesOrUpdates, SetsController}
use shop_operator.Kube.Library.{Library}
use shop_operator.Kube.Outcome.{Refused, Misnamed, Last, LibraryFails, Caused, Outcome, permits}
use shop_operator.Kube.Reconcile.{Requeue}
use shop_operator.Kube.Run.{Handler, logged, logged-Safe, Happened-All}
use shop_operator.Access.{manager_role}
use shop_operator.Shop.Microservice.{Microservice}
use shop_operator.Shop.Names.{desired_replicas}
use shop_operator.Shop.Database.{DatabaseState, operator_missing, provisioning, ready}
use shop_operator.Shop.Controller.{reconcile}
use shop_operator.Shop.Charter.{Answered, Serves}
use shop_operator.Shop.Charter.Reconciling.{Reported}
use shop_operator.Shop.Reasons.{DatabaseDown, DatabaseReason, Pending, Lacks, Unknown, Explained}
use shop_operator.Shop.Reasons.Reconciling.{reconcile-Explained}

module _ (lib : Library) (key : Key) (spec : ShopSpec) where
  -- An answer of a cluster in which everything is at work for Shops with a spec: it is no error, a
  -- read gives the object that was asked for, a Shop has the spec, and what is shown of a Shop's
  -- database, of its Deployments and of its migration Jobs is that they are done.
  pub record IsAtWork (e : Event) : Type 0 where
    pub answered : (f : Error) → ¬ Refused f e
    pub named : ¬ Misnamed e
    pub shops : (s : Shop) → Answered lib key s e → s.spec ≡ spec
    pub database : (s : Shop) → s.spec ≡ spec → ¬ DatabaseDown lib key s e
    pub deployments :
        (s : Shop) (m : Microservice) (n : ℕ)
        → s.spec ≡ spec
        → Serves lib key s m n e
        → n ≡ desired_replicas spec.availability
    pub jobs : (s : Shop) (m : Microservice) → s.spec ≡ spec → ¬ Pending lib key s m e

  -- What all answers keep to and one of them does not, has not happened.
  never :
      (Q : Event → Type 0) (l : Journal)
      → All IsAtWork l
      → ((e : Event) → IsAtWork e → ¬ Q e)
      → ¬ Happened Q l
  never Q l all not_so h =
      let (e, at_work, q) = Happened-All IsAtWork Q l all h in not_so e at_work q

  not_refused : (f : Error) (e x : Event) → IsAtWork e → e ≡ x → ¬ Refused f x
  not_refused f e x at_work same refused = at_work.answered f (subst (Refused f) (sym same) refused)

  not-Last : (e : Error) (l : Journal) → All IsAtWork l → ¬ Last (Refused e) l
  not-Last e [] all last = last
  not-Last e (x ∷ l) (at_work, later) last = at_work.answered e last

  not-Caused : (e : Error) (l : Journal) → All IsAtWork l → ¬ LibraryFails lib e → ¬ Caused lib e l
  not-Caused e l all sound (inl last) = not-Last e l all last
  not-Caused e l all sound (inr (inl fails)) = sound fails
  not-Caused e l all sound (inr (inr wrong)) =
      never Misnamed l all (λ x at_work. at_work.named) wrong

  known : (g : GroupVersionKind) (e : Event) → IsAtWork e → ¬ Unknown g e
  known g e at_work (f, kind, inl (k, same)) = not_refused f e _ at_work same refl
  known g e at_work (f, kind, inr (o, same)) = not_refused f e _ at_work same refl

  module _ (s : Shop) (has_spec : s.spec ≡ spec) (l : Journal) (all : All IsAtWork l) where
    database_at_work : (state : DatabaseState) → state ≢ ready → ¬ DatabaseReason lib key s state l
    database_at_work ready other h = other refl
    database_at_work provisioning other h =
        never _ l all (λ e at_work. at_work.database s has_spec) h
    database_at_work operator_missing other h = never _ l all (known _) h

    nothing-Lacks : (m : Microservice) → ¬ Lacks lib key s m l
    nothing-Lacks m (inl (n, few, serves)) =
        let (e, at_work, shown) = Happened-All IsAtWork (Serves lib key s m n) l all serves in
        few (
          at_work.deployments s m n has_spec shown
          ∙ ap (λ (t : ShopSpec). desired_replicas t.availability) (sym has_spec))
    nothing-Lacks m (inr pending) = never _ l all (λ e at_work. at_work.jobs s m has_spec) pending

  -- No error, no requeue, and a Shop that is reported as ready.
  abbrev pub Settles : Result Requeue → Journal → Type 0
  Settles r l = (r ≡ ok none) × Happened (Reported true) l

  Explained-Settles :
      (r : Result Requeue) (l : Journal)
      → All IsAtWork l
      → ((e : Error) → ¬ LibraryFails lib e)
      → Outcome manager_role lib (Explained lib key) r l
      → Settles r l
  Explained-Settles (err e) l all sound caused = absurd (not-Caused e l all (sound e) caused)
  Explained-Settles (ok q) l all sound (inl (done, inl absent)) =
      absurd
        (never _ l all (λ e at_work (f, gone, same). not_refused f e _ at_work same refl) absent)
  Explained-Settles (ok q) l all sound (inl (done, inr reported)) = (ap ok done, reported)
  Explained-Settles (ok q) l all sound (inr (s, held, reported, why)) =
      let (e, at_work, shown) = Happened-All IsAtWork (Answered lib key s) l all held in
      let has_spec = at_work.shops s shown in
      elim why [
        | inl (thirty, (state, other, reason)) ↦
            absurd (database_at_work s has_spec l all state other reason)
        | inr (fifteen, (m, member, lacks)) ↦ absurd (nothing-Lacks s has_spec l all m lacks)
      ]

  -- If `CreateOrUpdate` does only what its documentation allows, setting an owner reference changes
  -- nothing else and no call of a library fails: in any environment whose answers are no errors,
  -- give for every read the object that was asked for, give Shops of one spec, and show the database
  -- of such a Shop with a ready instance, its Deployments with all the replicas of the spec ready
  -- and its migration Jobs as succeeded, a reconcile of the Shop ends without an error and without
  -- a requeue, and has reported the Shop as ready.
  pub reconcile-Settles :
      (cu : CreatesOrUpdates lib) (law : SetsController lib)
      → ((e : Error) → ¬ LibraryFails lib e)
      → {W : Type 0} (h : Handler W) (w : W) → ((q : Request) (v : W) → IsAtWork (q, (h q v).0))
      → Settles (logged h (reconcile lib key) w []).0 (logged h (reconcile lib key) w []).1
  reconcile-Settles cu law sound h w at_work =
      let (explained, all) =
        logged-Safe h IsAtWork at_work (permits manager_role) (reconcile lib key) _ w []
          (reconcile-Explained lib cu law key) tt in
      Explained-Settles _ _ all sound explained
