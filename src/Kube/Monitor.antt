-- ===== src/Kube/Monitor.antt =====
-- What holds of a program whatever the environment answers. A monitor watches the requests and
-- the answers: `allowed` says in which of its states a request may be made.
use shop_operator.Base.{◌≡◌, refl, Bool, true, false, if◌then◌else◌}
use shop_operator.Kube.Prog.{
  Error, Result, ok, err, Request, Response, Prog, ret, call, M, bind, propagate,
}

pub record Monitor : Type 1 where
  pub State : Type 0
  pub next : (r : Request) → Response r → State → State
  pub allowed : Request → State → Type 0

-- On every path of the program each request is allowed when it is made, and at the end `post`
-- holds of the outcome and of the monitor's state.
abbrev pub Safe : (m : Monitor) {A : Type 0} → (A → m.State → Type 0) → Prog A → m.State → Type 0
Safe m post (ret a) g = post a g
Safe m post (call r k) g = m.allowed r g × ((x : Response r) → Safe m post (k x) (m.next r x g))

module _ (m : Monitor) {A B : Type 0} where
  pub Safe-bind :
      (p : Prog A) (f : A → Prog B) (mid : A → m.State → Type 0) (post : B → m.State → Type 0)
      (g : m.State)
      → Safe m mid p g
      → ((a : A) (g' : m.State) → mid a g' → Safe m post (f a) g')
      → Safe m post (bind p f) g
  Safe-bind (ret a) f mid post g h k = k a g h
  Safe-bind (call r c) f mid post g h k =
      (h.0, λ x. Safe-bind (c x) f mid post (m.next r x g) (h.1 x) k)

  pub Safe-propagate :
      (f : A → M B) (r : Result A) (post : Result B → m.State → Type 0) (g : m.State)
      → ((a : A) → r ≡ ok a → Safe m post (f a) g)
      → ((e : Error) → r ≡ err e → post (err e) g)
      → Safe m post (propagate f r) g
  Safe-propagate f (ok a) post g h k = h a refl
  Safe-propagate f (err e) post g h k = k e refl

module _ (m : Monitor) {A : Type 0} where
  pub Safe-weaken :
      (p : Prog A) (mid post : A → m.State → Type 0) (g : m.State)
      → Safe m mid p g
      → ((a : A) (g' : m.State) → mid a g' → post a g')
      → Safe m post p g
  Safe-weaken (ret a) mid post g h k = k a g h
  Safe-weaken (call r c) mid post g h k =
      (h.0, λ x. Safe-weaken (c x) mid post (m.next r x g) (h.1 x) k)

  pub Safe-if :
      (b : Bool) (p q : Prog A) (post : A → m.State → Type 0) (g : m.State)
      → Safe m post p g
      → Safe m post q g
      → Safe m post (if b then p else q) g
  Safe-if true p q post g h k = h
  Safe-if false p q post g h k = k
