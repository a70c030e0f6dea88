-- ===== src/Kube/Outcome.antt =====
-- Outcomes of programs under the role of the operator: a result, or an error with its cause.
use shop_operator.Base.{
  ◌≡◌, ◌≢◌, ◌↔◌, ◌==◌, refl, sym, ◌∙◌, ap, ◌⊎◌, inl, inr, true, [], ◌∷◌, String, List, Bool-cases,
  eq_iff,
}
use mathlib.Core.Bool.{and-eq-true_iff}
use shop_operator.Access.{PolicyRule, is_granted}
use shop_operator.Api.{ObjectMeta}
use shop_operator.Kube.Json.{Json}
use shop_operator.Kube.Objects.{Key, Kind, Obj, meta_of, key_of}
use shop_operator.Kube.Prog.{
  Error, is_not_found, Result, ok, err, get, create, update, update_status, read_random, http_do,
  create_channel, delete_channel, create_webhook, M, lift, request, ◌>>=◌,
}
use shop_operator.Kube.Monitor.{Safe, Safe-bind, Safe-propagate}
use shop_operator.Kube.Library.{Library, same_key, checked, write_back, create_or_update_from}
use shop_operator.Kube.Lawful.{CreatesOrUpdates}
use shop_operator.Kube.Journal.{
  Event, Journal, Happened, now, Extends, Happened-Extends, same, more, Rule, journal, Safe-Extends,
}

pub same_key_iff : (a b : ObjectMeta) → (same_key a b ≡ true) ↔ (key_of b ≡ key_of a)
same_key_iff a b = (
  λ h.
      let (ns, name) = (and-eq-true_iff (a.namespace == b.namespace) (a.name == b.name)).0 h in
      λ i. record { namespace = sym ((eq_iff _ _).0 ns) i; name = sym ((eq_iff _ _).0 name) i },
  λ e. (and-eq-true_iff (a.namespace == b.namespace) (a.name == b.name)).1 (
    (eq_iff _ _).1 (ap (λ (k : Key). k.namespace) (sym e)),
    (eq_iff _ _).1 (ap (λ (k : Key). k.name) (sym e)),
  ),
)

-- Requests that a role allows.
abbrev pub permits : List PolicyRule → Rule
permits role q l = is_granted role q ≡ true

-- The answer to a request is an error.
abbrev pub Refused : Error → Event → Type 0
Refused e (get k q, x) = x ≡ err e
Refused e (create k o, x) = x ≡ err e
Refused e (update k o, x) = x ≡ err e
Refused e (update_status k o, x) = x ≡ err e
Refused e (read_random n, x) = x ≡ err e
Refused e (http_do r, x) = x ≡ err e
Refused e (create_channel t s n, x) = x ≡ err e
Refused e (delete_channel t c, x) = x ≡ err e
Refused e (create_webhook t c n, x) = x ≡ err e

-- An object was asked for, and one with another name or namespace was the answer.
abbrev pub Misnamed : Event → Type 0
Misnamed (get k q, x) = (o : Obj k) × (x ≡ ok o) × (key_of (meta_of k o) ≢ q)
Misnamed _ = ⊥

-- The last answer.
abbrev pub Last : (Event → Type 0) → Journal → Type 0
Last P [] = ⊥
Last P (e ∷ l) = P e

-- A call of a library failed.
pub data LibraryFails (lib : Library) (e : Error) : Type 0 where
  not_owned :
      (k : Kind) (owner o : ObjectMeta)
      → lib.set_controller_reference k owner o ≡ err e
      → LibraryFails lib e
  not_set :
      (body v : Json) (path : List String)
      → lib.set_nested_field body v path ≡ err e
      → LibraryFails lib e
  not_marshalled : (v : Json) → lib.marshal v ≡ err e → LibraryFails lib e

-- The error is that of the last answer, after which nothing was requested, or of a library call, or
-- the server confused two objects.
abbrev pub Caused : Library → Error → Journal → Type 0
Caused lib e l = Last (Refused e) l ⊎ LibraryFails lib e ⊎ Happened Misnamed l

module _ (role : List PolicyRule) (lib : Library) where
  abbrev pub Outcome : {A : Type 0} → (A → Journal → Type 0) → Result A → Journal → Type 0
  Outcome P (ok a) l = P a l
  Outcome P (err e) l = Caused lib e l

  -- On every path the requests are allowed and the outcome is as stated.
  abbrev pub Ensures : {A : Type 0} → (A → Journal → Type 0) → M A → Journal → Type 0
  Ensures P p l = Safe (journal (permits role)) (Outcome P) p l

  pub Ensures-then :
      {A B : Type 0} (p : M A) (f : A → M B) (mid : A → Journal → Type 0)
      (post : B → Journal → Type 0) (l : Journal)
      → Ensures mid p l
      → ((a : A) (l' : Journal) → Extends l l' → mid a l' → Ensures post (f a) l')
      → Ensures post (p >>= f) l
  Ensures-then p f mid post l h k =
      Safe-bind (journal (permits role)) p _ (λ r l'. Outcome mid r l' × Extends l l')
        (Outcome post) l (Safe-Extends (permits role) p (Outcome mid) l l same h)
        (elim [ ok a ↦ λ l' m. k a l' m.1 m.0 | err e ↦ λ l' m. m.0 ])

  -- The Shop, or another owner, named as the controller of an object.
  pub Ensures-owned :
      {A : Type 0} (k : Kind) (owner o : ObjectMeta) (f : ObjectMeta → M A)
      (post : A → Journal → Type 0) (l : Journal)
      → ((m : ObjectMeta) → lib.set_controller_reference k owner o ≡ ok m → Ensures post (f m) l)
      → Ensures post (lift (lib.set_controller_reference k owner o) >>= f) l
  Ensures-owned k owner o f post l h =
      Safe-propagate (journal (permits role)) f (lib.set_controller_reference k owner o)
        (Outcome post) l h (λ e failed. inr (inl (not_owned k owner o failed)))

  pub Ensures-set :
      {A : Type 0} (body v : Json) (path : List String) (f : Json → M A)
      (post : A → Journal → Type 0) (l : Journal)
      → ((b : Json) → Ensures post (f b) l)
      → Ensures post (lift (lib.set_nested_field body v path) >>= f) l
  Ensures-set body v path f post l h =
      Safe-propagate (journal (permits role)) f (lib.set_nested_field body v path) (Outcome post) l
        (λ b _. h b) (λ e failed. inr (inl (not_set body v path failed)))

  -- `CreateOrUpdate`, with `step` between an object and what its function makes of it.
  module _ (cu : CreatesOrUpdates lib) (k : Kind) (o : Obj k) (f : Obj k → M (Obj k))
      (step : Obj k → Obj k → Type 0) (post : Obj k → Journal → Type 0) (l : Journal)
      (may_get : is_granted role (get k (key_of (meta_of k o))) ≡ true)
      (may_create : (x : Obj k) → is_granted role (create k x) ≡ true)
      (may_update : (x : Obj k) → is_granted role (update k x) ≡ true) where
    -- The object keeps its key.
    abbrev pub Steps : Obj k → Obj k → Journal → Type 0
    Steps x x' l' = (key_of (meta_of k x') ≡ key_of (meta_of k x)) × step x x'

    module _ (mutates : (x : Obj k) (l' : Journal) → Extends l l' → Ensures (Steps x) (f x) l')
        (unchanged : (x x' : Obj k) (l' : Journal)
          → key_of (meta_of k x) ≡ key_of (meta_of k o)
          → Extends ((get k (key_of (meta_of k o)), ok x) ∷ l) l'
          → step x x'
          → post x' l')
        (created : (x y : Obj k) (l' : Journal)
          → key_of (meta_of k x) ≡ key_of (meta_of k o)
          → post y ((create k x, ok y) ∷ l'))
        (updated : (x y : Obj k) (l' : Journal)
          → key_of (meta_of k x) ≡ key_of (meta_of k o)
          → post y ((update k x, ok y) ∷ l')) where
      absent-Ensures :
          (x' : Obj k) (l' : Journal)
          → Steps o x' l'
          → Ensures post (checked k o x' >>= λ z. request (create k z)) l'
      absent-Ensures x' l' (kept, st) =
          rw ((same_key_iff (meta_of k o) (meta_of k x')).1 kept)
            (may_create x', elim [ ok y ↦ created x' y l' kept | err e ↦ inl refl ])

      fits-Ensures :
          (old x' : Obj k) (l' : Journal)
          → Extends ((get k (key_of (meta_of k o)), ok old) ∷ l) l'
          → Steps old x' l'
          → same_key (meta_of k o) (meta_of k x') ≡ true
          → Ensures post (write_back cu.same k old x') l'
      fits-Ensures old x' l' later (kept, st) fits =
          let named = (same_key_iff (meta_of k o) (meta_of k x')).0 fits in
          elim (Bool-cases (cu.same k old x')) [
            | inl equal ↦ rw equal (unchanged old x' l' (sym kept ∙ named) later st)
            | inr changed ↦
                rw changed (may_update x', elim [ ok y ↦ updated x' y l' named | err e ↦ inl refl ])
          ]

      present-Ensures :
          (old x' : Obj k) (l' : Journal)
          → Extends ((get k (key_of (meta_of k o)), ok old) ∷ l) l'
          → Steps old x' l'
          → Ensures post (checked k o x' >>= write_back cu.same k old) l'
      present-Ensures old x' l' later (kept, st) =
          elim (Bool-cases (same_key (meta_of k o) (meta_of k x'))) [
            | inr moved ↦ rw moved (
                inr (
                  inr (
                    Happened-Extends
                      (now (
                        old,
                        refl,
                        λ named.
                            cc
                              ((same_key_iff (meta_of k o) (meta_of k x')).1 (kept ∙ named), moved),
                      ))
                      later)))
            | inl fits ↦ rw fits (fits-Ensures old x' l' later (kept, st) fits)
          ]

      answered-Ensures :
          (x : Result (Obj k))
          → Ensures post
              (create_or_update_from cu.same k o f x)
              ((get k (key_of (meta_of k o)), x) ∷ l)
      answered-Ensures (ok old) =
          Ensures-then (f old) _ (Steps old) post _ (mutates old _ (more same))
            (λ x' l' later st. present-Ensures old x' l' later st)
      answered-Ensures (err e) = elim (Bool-cases (is_not_found e)) [
        | inr failed ↦ rw failed (inl refl)
        | inl missing ↦ rw missing (
            Ensures-then (f o) _ (Steps o) post _ (mutates o _ (more same))
              (λ x' l' later st. absent-Ensures x' l' st))
      ]

      pub create_or_update-Ensures : Ensures post (lib.create_or_update k o f) l
      create_or_update-Ensures =
          cu.refines (journal (permits role)) k o f (Outcome post) l (may_get, answered-Ensures)
