-- ===== src/Kube/Journal.antt =====
-- Monitors that remember every request with its answer, the last one first.
use shop_operator.Base.{◌≡◌, inl, inr, true, List, ◌∷◌, Bool-cases}
use shop_operator.Kube.Objects.{Kind, Obj, meta_of, key_of}
use shop_operator.Kube.Prog.{
  is_not_found, Result, ok, err, Request, Response, get, create, update, Prog, ret, call, M,
  request, ◌>>=◌,
}
use shop_operator.Kube.Monitor.{Monitor, Safe, Safe-bind}
use shop_operator.Kube.Library.{Library, same_key, checked, write_back, create_or_update_from}
use shop_operator.Kube.Lawful.{CreatesOrUpdates}

abbrev pub Event : Type 0
Event = (q : Request) × Response q

abbrev pub Journal : Type 0
Journal = List Event

pub data Happened (P : Event → Type 0) : Journal → Type 0 where
  now : {e : Event} {l : Journal} → P e → Happened P (e ∷ l)
  before : {e : Event} {l : Journal} → Happened P l → Happened P (e ∷ l)

-- The second journal is the first one, later.
pub data Extends (l : Journal) : Journal → Type 0 where
  same : Extends l l
  more : {e : Event} {l' : Journal} → Extends l l' → Extends l (e ∷ l')

pub Extends-trans : {a b c : Journal} → Extends a b → Extends b c → Extends a c
Extends-trans x same = x
Extends-trans x (more y) = more (Extends-trans x y)

pub Happened-Extends :
    {P : Event → Type 0} {a b : Journal} → Happened P a → Extends a b → Happened P b
Happened-Extends h same = h
Happened-Extends h (more y) = before (Happened-Extends h y)

-- A rule says what may be requested after what has happened.
abbrev pub Rule : Type 1
Rule = Request → Journal → Type 0

abbrev pub journal : Rule → Monitor
journal rule = record { State = Journal; next = λ q x l. (q, x) ∷ l; allowed = rule }

abbrev pub OnOk : {A : Type 0} → (A → Journal → Type 0) → Result A → Journal → Type 0
OnOk P (ok a) l = P a l
OnOk P (err e) l = Unit

module _ (rule : Rule) where
  pub Safe-Extends :
      {A : Type 0} (p : Prog A) (post : A → Journal → Type 0) (start l : Journal)
      → Extends start l
      → Safe (journal rule) post p l
      → Safe (journal rule) (λ a l'. post a l' × Extends start l') p l
  Safe-Extends (ret a) post start l x h = (h, x)
  Safe-Extends (call q k) post start l x h =
      (h.0, λ y. Safe-Extends (k y) post start _ (more x) (h.1 y))

  -- What two rules allow, with both outcomes.
  pub Safe-both :
      {A : Type 0} (other : Rule) (p : Prog A) (post post' : A → Journal → Type 0) (l : Journal)
      → Safe (journal rule) post p l
      → Safe (journal other) post' p l
      → Safe (journal (λ q j. rule q j × other q j)) (λ a j. post a j × post' a j) p l
  Safe-both other (ret a) post post' l h k = (h, k)
  Safe-both other (call q c) post post' l h k =
      ((h.0, k.0), λ x. Safe-both other (c x) post post' ((q, x) ∷ l) (h.1 x) (k.1 x))

  -- A program and then another one.
  pub Safe-then :
      {A B : Type 0} (p : M A) (f : A → M B) (mid : A → Journal → Type 0)
      (post : B → Journal → Type 0) (l : Journal)
      → Safe (journal rule) (OnOk mid) p l
      → ((a : A) (l' : Journal)
          → Extends l l'
          → mid a l'
          → Safe (journal rule) (OnOk post) (f a) l')
      → Safe (journal rule) (OnOk post) (p >>= f) l
  Safe-then p f mid post l h k =
      Safe-bind (journal rule) p _ (λ r l'. OnOk mid r l' × Extends l l') (OnOk post) l
        (Safe-Extends p (OnOk mid) l l same h)
        (elim [ ok a ↦ λ l' m. k a l' m.1 m.0 | err e ↦ λ l' m. tt ])

-- `CreateOrUpdate` under a rule: `step` is what its function makes of an object, and each
-- result of the function may be created or updated. The result of the call satisfies `post`.
module _ (rule : Rule) (lib : Library) (cu : CreatesOrUpdates lib) (k : Kind) (o : Obj k)
    (f : Obj k → M (Obj k)) (step : Obj k → Obj k → Type 0) (post : Obj k → Journal → Type 0)
    (l : Journal) where
  -- What may be done with a result of the function.
  pub record Writable (x x' : Obj k) (l' : Journal) : Type 0 where
    pub stepped : step x x'
    pub may_create : same_key (meta_of k o) (meta_of k x') ≡ true → rule (create k x') l'
    pub may_update : same_key (meta_of k o) (meta_of k x') ≡ true → rule (update k x') l'

  module _ (may_get : rule (get k (key_of (meta_of k o))) l)
      (mutates : (x : Obj k) (l' : Journal)
        → Extends l l'
        → Safe (journal rule) (OnOk (Writable x)) (f x) l')
      (unchanged : (x x' : Obj k) (l' : Journal)
        → Extends ((get k (key_of (meta_of k o)), ok x) ∷ l) l'
        → step x x'
        → post x' l')
      (created : (x y : Obj k) (l' : Journal)
        → same_key (meta_of k o) (meta_of k x) ≡ true
        → post y ((create k x, ok y) ∷ l'))
      (updated : (x y : Obj k) (l' : Journal)
        → same_key (meta_of k o) (meta_of k x) ≡ true
        → post y ((update k x, ok y) ∷ l')) where
    absent-Safe :
        (x' : Obj k) (l' : Journal)
        → Writable o x' l'
        → Safe (journal rule) (OnOk post) (checked k o x' >>= λ z. request (create k z)) l'
    absent-Safe x' l' w = elim (Bool-cases (same_key (meta_of k o) (meta_of k x'))) [
      | inr moved ↦ rw moved tt
      | inl kept ↦ rw kept (w.may_create kept, elim [ ok y ↦ created x' y l' kept | err e ↦ tt ])
    ]

    present-Safe :
        (old x' : Obj k) (l' : Journal)
        → Extends ((get k (key_of (meta_of k o)), ok old) ∷ l) l'
        → Writable old x' l'
        → Safe (journal rule) (OnOk post) (checked k o x' >>= write_back cu.same k old) l'
    present-Safe old x' l' later w = elim (Bool-cases (same_key (meta_of k o) (meta_of k x'))) [
      | inr moved ↦ rw moved tt
      | inl kept ↦ rw kept (elim (Bool-cases (cu.same k old x')) [
        | inl equal ↦ rw equal (unchanged old x' l' later w.stepped)
        | inr changed ↦
            rw changed (w.may_update kept, elim [ ok y ↦ updated x' y l' kept | err e ↦ tt ])
      ])
    ]

    answered-Safe :
        (x : Result (Obj k))
        → Safe
            (journal rule)
            (OnOk post)
            (create_or_update_from cu.same k o f x)
            ((get k (key_of (meta_of k o)), x) ∷ l)
    answered-Safe (ok old) =
        Safe-then rule (f old) _ (Writable old) post _ (mutates old _ (more same))
          (λ x' l' later w. present-Safe old x' l' later w)
    answered-Safe (err e) = elim (Bool-cases (is_not_found e)) [
      | inr failed ↦ rw failed tt
      | inl missing ↦ rw missing (
          Safe-then rule (f o) _ (Writable o) post _ (mutates o _ (more same))
            (λ x' l' later w. absent-Safe x' l' w))
    ]

    pub create_or_update-Safe : Safe (journal rule) (OnOk post) (lib.create_or_update k o f) l
    create_or_update-Safe = cu.refines (journal rule) k o f (OnOk post) l (may_get, answered-Safe)

-- The outcome of a library call, remembered.
pub lift-ok : {A : Type 0} (r r' : Result A) (l : Journal) → r ≡ r' → OnOk (λ a _. r ≡ ok a) r' l
lift-ok r (ok a) l e = e
lift-ok r (err f) l e = tt

pub any-ok : {A : Type 0} (r : Result A) (l : Journal) → OnOk (λ a _. Unit) r l
any-ok (ok a) l = tt
any-ok (err e) l = tt
