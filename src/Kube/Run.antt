-- ===== src/Kube/Run.antt =====
-- Programs run against an environment that has a state.
use shop_operator.Base.{Bool, ◌&&◌, ◌==◌, ◌≡◌, refl, [], ◌∷◌, All}
use shop_operator.Kube.Objects.{Key}
use shop_operator.Kube.Prog.{Request, Response, Prog, ret, call, bind}
use shop_operator.Kube.Journal.{Event, Journal, Happened, now, before, Rule, journal}
use shop_operator.Kube.Monitor.{Safe}

abbrev pub Handler : Type 0 → Type 0
Handler W = (q : Request) → W → Response q × W

-- Whether a server holds an object under a key.
abbrev pub is_key : Key → Key → Bool
is_key a b = (a.namespace == b.namespace) && (a.name == b.name)

unfoldable pub run : {A W : Type 0} → Handler W → Prog A → W → A × W
run h (ret a) w = (a, w)
run h (call q k) w = let (x, w') = h q w in run h (k x) w'

module _ {W : Type 0} (h : Handler W) where
  pub run-bind :
      {A B : Type 0} (p : Prog A) (f : A → Prog B) (w : W)
      → run h (bind p f) w ≡ run h (f (run h p w).0) (run h p w).1
  unfolding run
  run-bind (ret a) f w = refl
  run-bind (call q k) f w = run-bind (k (h q w).0) f (h q w).1

-- A run with what was requested and answered, the last first.
unfoldable pub logged : {A W : Type 0} → Handler W → Prog A → W → Journal → A × Journal
logged h (ret a) w l = (a, l)
logged h (call q k) w l = let (x, w') = h q w in logged h (k x) w' ((q, x) ∷ l)

module _ {W : Type 0} (h : Handler W) (P : Event → Type 0)
    (keeps : (q : Request) (w : W) → P (q, (h q w).0)) where
  -- What holds on every path holds of a run, and of its journal what the environment keeps to.
  pub logged-Safe :
      {A : Type 0} (rule : Rule) (p : Prog A) (post : A → Journal → Type 0) (w : W) (l : Journal)
      → Safe (journal rule) post p l
      → All P l
      → post (logged h p w l).0 (logged h p w l).1 × All P (logged h p w l).1
  unfolding logged
  logged-Safe rule (ret a) post w l safe all = (safe, all)
  logged-Safe rule (call q k) post w l (may, safe) all =
      logged-Safe rule (k (h q w).0) post (h q w).1 ((q, (h q w).0) ∷ l) (safe (h q w).0)
        (keeps q w, all)

pub Happened-All :
    (P Q : Event → Type 0) (l : Journal) → All P l → Happened Q l → (e : Event) × P e × Q e
Happened-All P Q [] all h = elim h [ ]
Happened-All P Q (e ∷ l) (here, later) (now h) = (e, here, h)
Happened-All P Q (e ∷ l) (here, later) (before h) = Happened-All P Q l later h
