-- ===== src/Shop/Charter/Owning.antt =====
-- Objects that are made and kept for a Shop by `CreateOrUpdate`, under the charter.
use shop_operator.Base.{◌≡◌, sym, ◌∙◌, ap, true, ◌==◌, eq_iff}
use mathlib.Core.Bool.{and-eq-true_iff}
use mathlib.Core.Path.{subst}
use shop_operator.Api.{Shop, ObjectMeta}
use shop_operator.Kube.Objects.{Key, Kind, Obj, meta_of, shop}
use shop_operator.Kube.Prog.{ok, M, pure, lift, ◌>>=◌}
use shop_operator.Kube.Journal.{
  Journal, Happened, Happened-Extends, journal, OnOk, Writable, create_or_update-Safe,
}
use shop_operator.Kube.Lawful.{CreatesOrUpdates}
use shop_operator.Kube.Library.{Library, same_key}
use shop_operator.Kube.Monitor.{Safe, Safe-propagate}
use shop_operator.Shop.Charter.{ChildName, Conforms, Converges, Answered, IsChild, Fresh, charter}

pub same_key-eq :
    (a b : ObjectMeta) → same_key a b ≡ true → (b.namespace ≡ a.namespace) × (b.name ≡ a.name)
same_key-eq a b h =
    let (ns, n) = (and-eq-true_iff (a.namespace == b.namespace) (a.name == b.name)).0 h in
    (sym ((eq_iff _ _).0 ns), sym ((eq_iff _ _).0 n))

abbrev pub Any : {A : Type 0} → A → Journal → Type 0
Any a l = Unit

module _ (lib : Library) (key : Key) (s : Shop) where
  pub child :
      (k : Kind) (blank : ObjectMeta) (x : Obj k) (unowned : ObjectMeta) (l : Journal)
      → Happened (Answered lib key s) l
      → blank.namespace ≡ s.metadata.namespace
      → ChildName k s blank.name
      → lib.set_controller_reference shop s.metadata unowned ≡ ok (meta_of k x)
      → same_key blank (meta_of k x) ≡ true
      → Conforms k s x
      → IsChild lib key k x l
  child k blank x unowned l held ns name signed kept conforms =
      let (same_ns, same_name) = same_key-eq blank (meta_of k x) kept in
      record {
        owner = s;
        held = held;
        namespace = same_ns ∙ ns;
        name = subst (ChildName k s) (sym same_name) name;
        unowned = unowned;
        controlled = signed;
        conforms = conforms;
      }

  -- A function that sets fields and names the owner.
  module _ (cu : CreatesOrUpdates lib) (k : Kind) (o : Obj k) (app : Obj k → Obj k)
      (put : Obj k → ObjectMeta → Obj k)
      (meta_of-put : (x : Obj k) (m : ObjectMeta) → meta_of k (put x m) ≡ m)
      (conforms : (x : Obj k) (m : ObjectMeta)
        → m.name ≡ (meta_of k o).name
        → Conforms k s (put (app x) m))
      (fresh : (x : Obj k) (l : Journal) → Fresh lib key k x l) (converges : Converges k)
      (ns : (meta_of k o).namespace ≡ s.metadata.namespace)
      (name : ChildName k s (meta_of k o).name) where
    abbrev own : Obj k → M (Obj k)
    own x = lift (lib.set_controller_reference shop s.metadata (meta_of k (app x))) >>= λ owned.
        pure (put (app x) owned)

    own-Writable :
        (x : Obj k) (owned : ObjectMeta) (l l' : Journal)
        → Happened (Answered lib key s) l'
        → lib.set_controller_reference shop s.metadata (meta_of k (app x)) ≡ ok owned
        → Writable (charter lib key) lib cu k o own (λ a b. Unit) Any l x (put (app x) owned) l'
    own-Writable x owned l l' held signed =
        let is_child = λ (kept : same_key (meta_of k o) (meta_of k (put (app x) owned)) ≡ true).
          child k (meta_of k o) (put (app x) owned) (meta_of k (app x)) l' held ns name
            (signed ∙ ap ok (sym (meta_of-put (app x) owned))) kept
            (conforms x owned (
              ap (λ (m : ObjectMeta). m.name) (sym (meta_of-put (app x) owned))
              ∙ (same_key-eq (meta_of k o) (meta_of k (put (app x) owned)) kept).1)) in
        record {
          stepped = tt;
          may_create = λ kept. (is_child kept, fresh _ l');
          may_update = λ kept. (is_child kept, converges);
        }

    pub own-Safe :
        (l : Journal)
        → Happened (Answered lib key s) l
        → Safe (journal (charter lib key)) (OnOk Any) (lib.create_or_update k o own) l
    own-Safe l held =
        create_or_update-Safe (charter lib key) lib cu k o own (λ a b. Unit) Any l tt
          (λ x l' later.
            Safe-propagate (journal (charter lib key)) (λ owned. pure (put (app x) owned)) _
              (OnOk (Writable (charter lib key) lib cu k o own (λ a b. Unit) Any l x)) l'
              (λ owned signed. own-Writable x owned l l' (Happened-Extends held later) signed)
              (λ e _. tt))
          (λ x x' l' later st. tt) (λ x y l' kept. tt) (λ x y l' kept. tt)
