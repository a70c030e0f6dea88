-- ===== src/Shop/Charter/Storage.antt =====
-- The Secrets and the database of a Shop.
use shop_operator.Base.{
  String, ◌<>◌, ◌≡◌, refl, sym, ap, ◌⊎◌, inl, inr, Bool, true, false, [], Bool-cases,
}
use mathlib.Core.Path.{subst}
use shop_operator.Base.Text.{StringMap}
use shop_operator.Api.{Shop, ObjectMeta}
use shop_operator.Kube.Json.{Json}
use shop_operator.Kube.Objects.{
  Key, Kind, Obj, meta_of, key_of, GroupVersionKind, Unstructured, shop, secret, custom, named,
}
use shop_operator.Kube.Prog.{is_not_found, is_no_match, Result, ok, err, get, create, bind, request}
use shop_operator.Kube.Journal.{
  Event, Journal, Happened, now, before, Happened-Extends, journal, OnOk, Safe-then,
}
use shop_operator.Kube.Lawful.{SetsController}
use shop_operator.Kube.Library.{Library}
use shop_operator.Kube.Monitor.{Safe, Safe-propagate}
use shop_operator.Shop.Names.{resource_name}
use shop_operator.Shop.Secrets.{
  random_password, create_owned_secret, blank_secret, ensure_auth_secret, ensure_redis_auth_secret,
}
use shop_operator.Shop.Database.{create_custom, created_or_no_match, create_or_ignore_missing_crd}
use shop_operator.Shop.Charter.{Absent, ChildName, Conforms, Answered, IsChild, charter}
use shop_operator.Shop.Charter.Owning.{Any}

module _ (lib : Library) (law : SetsController lib) (key : Key) (s : Shop) where
  -- The owner reference leaves the name and the namespace as they are.
  pub set_controller_reference-key :
      (blank owned : ObjectMeta)
      → lib.set_controller_reference shop s.metadata blank ≡ ok owned
      → key_of owned ≡ key_of blank
  set_controller_reference-key blank owned signed =
      ap key_of (law.keeps shop s.metadata blank owned signed)

  pub new-IsChild :
      (k : Kind) (blank : ObjectMeta) (x : Obj k) (l : Journal)
      → Happened (Answered lib key s) l
      → blank.namespace ≡ s.metadata.namespace
      → ChildName k s blank.name
      → lib.set_controller_reference shop s.metadata blank ≡ ok (meta_of k x)
      → Conforms k s x
      → IsChild lib key k x l
  new-IsChild k blank x l held ns name signed conforms =
      let kept = law.keeps shop s.metadata blank (meta_of k x) signed in
      record {
        owner = s;
        held = held;
        namespace =
            subst (λ n. n ≡ s.metadata.namespace) (sym (ap (λ (m : ObjectMeta). m.namespace) kept))
              ns;
        name = subst (ChildName k s) (sym (ap (λ (m : ObjectMeta). m.name) kept)) name;
        unowned = blank;
        controlled = signed;
        conforms = conforms;
      }

  random_password-Safe :
      (l : Journal) → Safe (journal (charter lib key)) (OnOk Any) random_password l
  unfolding random_password
  random_password-Safe l = (refl, elim [ ok bytes ↦ tt | err e ↦ tt ])

  create_owned_secret-Safe :
      (name : String) (texts : StringMap String) (l : Journal)
      → ChildName secret s name
      → Happened (Answered lib key s) l
      → Happened (Absent secret (key_of (blank_secret lib s name).metadata)) l
      → Safe
          (journal (charter lib key))
          (OnOk Any)
          (create_owned_secret lib s (blank_secret lib s name) texts)
          l
  create_owned_secret-Safe name texts l fits held absent =
      Safe-propagate (journal (charter lib key))
        (λ owned.
          request (create secret (record { metadata = owned; content = []; string_data = texts })))
        (lib.set_controller_reference shop s.metadata (named s.metadata.namespace name)) (OnOk Any)
        l
        (λ owned signed. (
          (
            new-IsChild secret (named s.metadata.namespace name)
                (record { metadata = owned; content = []; string_data = texts }) l held refl fits
                signed tt,
            subst (λ k. Happened (Absent secret k) l)
                (sym (set_controller_reference-key _ owned signed)) absent,
          ),
          elim [ ok x ↦ tt | err e ↦ tt ],
        ))
        (λ e _. tt)

  pub ensure_auth_secret-Safe :
      (l : Journal)
      → Happened (Answered lib key s) l
      → Safe (journal (charter lib key)) (OnOk Any) (ensure_auth_secret lib s) l
  unfolding ensure_auth_secret
  ensure_auth_secret-Safe l held = (
    tt,
    elim [
      | ok existing ↦ tt
      | err e ↦ elim (Bool-cases (is_not_found e)) [
        | inr failed ↦ rw failed tt
        | inl missing ↦ rw missing (
            Safe-then (charter lib key) random_password _ Any Any _ (random_password-Safe _)
              (λ access l' later _.
                Safe-then (charter lib key) random_password _ Any Any l' (random_password-Safe l')
                  (λ refresh l'' later' _.
                    Safe-then (charter lib key) _ _ Any Any l''
                      (create_owned_secret-Safe (resource_name s <> "-auth-jwt") _ l''
                        ("-auth-jwt", refl)
                        (Happened-Extends (Happened-Extends (before held) later) later')
                        (Happened-Extends (Happened-Extends (now (e, missing, refl)) later) later'))
                      (λ x l''' later'' _. tt))))
      ]
    ],
  )

  pub ensure_redis_auth_secret-Safe :
      (name : String) (l : Journal)
      → ChildName secret s name
      → Happened (Answered lib key s) l
      → Safe (journal (charter lib key)) (OnOk Any) (ensure_redis_auth_secret lib s name) l
  unfolding ensure_redis_auth_secret
  ensure_redis_auth_secret-Safe name l fits held = (
    tt,
    elim [
      | ok existing ↦ tt
      | err e ↦ elim (Bool-cases (is_not_found e)) [
        | inr failed ↦ rw failed tt
        | inl missing ↦ rw missing (
            Safe-then (charter lib key) random_password _ Any Any _ (random_password-Safe _)
              (λ password l' later _.
                Safe-then (charter lib key) _ _ Any Any l'
                  (create_owned_secret-Safe name _ l' fits (Happened-Extends (before held) later)
                    (Happened-Extends (now (e, missing, refl)) later))
                  (λ x l'' later' _. tt)))
      ]
    ],
  )

  -- The server showed the object: it was read, or it is the answer to a creation.
  abbrev pub Shown : GroupVersionKind → Key → Unstructured → Event → Type 0
  Shown g k c e =
      (e ≡ (get (custom g) k, ok c)) ⊎ ((o : Unstructured) × (e ≡ (create (custom g) o, ok c)))

  abbrev pub Found : GroupVersionKind → Key → Bool × Unstructured → Journal → Type 0
  Found g k found l = (found.0 ≡ false) ⊎ (found.0 ≡ true) × Happened (Shown g k found.1) l

  module _ (g : GroupVersionKind) (suffix : String) (o : Unstructured) (l : Journal)
      (held : Happened (Answered lib key s) l)
      (fits : o.metadata ≡ named s.metadata.namespace (resource_name s <> suffix)) where
    create_custom-Safe :
        (mutate : Json → Result Json)
        → Safe
            (journal (charter lib key))
            (OnOk (Found g (key_of o.metadata)))
            (create_custom lib s g o mutate)
            l
    create_custom-Safe mutate =
        Safe-propagate (journal (charter lib key)) _ (mutate o.body)
          (OnOk (Found g (key_of o.metadata))) l
          (λ body _.
            Safe-propagate (journal (charter lib key))
              (λ owned.
                bind (request (create (custom g) (record { metadata = owned; body = body })))
                  (created_or_no_match lib s o))
              (lib.set_controller_reference shop s.metadata o.metadata)
              (OnOk (Found g (key_of o.metadata))) l
              (λ owned signed. (
                (
                  new-IsChild (custom g) o.metadata (record { metadata = owned; body = body }) l
                      held (ap (λ (m : ObjectMeta). m.namespace) fits)
                      (suffix, ap (λ (m : ObjectMeta). m.name) fits) signed tt,
                  tt,
                ),
                elim [
                  | ok made ↦ inr (refl, now (inr (record { metadata = owned; body = body }, refl)))
                  | err e ↦ elim (Bool-cases (is_no_match e)) [
                    | inl missing ↦ rw missing (inl refl)
                    | inr failed ↦ rw failed tt
                  ]
                ],
              ))
              (λ e _. tt))
          (λ e _. tt)

  pub create_or_ignore_missing_crd-Safe :
      (g : GroupVersionKind) (suffix : String) (o : Unstructured) (mutate : Json → Result Json)
      (l : Journal)
      → Happened (Answered lib key s) l
      → o.metadata ≡ named s.metadata.namespace (resource_name s <> suffix)
      → Safe
          (journal (charter lib key))
          (OnOk (Found g (key_of o.metadata)))
          (create_or_ignore_missing_crd lib s g o mutate)
          l
  unfolding create_or_ignore_missing_crd
  create_or_ignore_missing_crd-Safe g suffix o mutate l held fits = (
    tt,
    elim [
      | ok existing ↦ inr (refl, now (inl refl))
      | err e ↦ elim (Bool-cases (is_no_match e)) [
        | inl no_crd ↦ rw no_crd (inl refl)
        | inr crd ↦ rw crd (elim (Bool-cases (is_not_found e)) [
          | inl missing ↦ rw missing (create_custom-Safe g suffix o _ (before held) fits mutate)
          | inr failed ↦ rw failed tt
        ])
      ]
    ],
  )
