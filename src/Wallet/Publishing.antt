-- ===== src/Wallet/Publishing.antt =====
-- What the Wallet controller publishes.
use shop_operator.Base.{
  String, ◌≡◌, refl, ◌⊎◌, inl, inr, Bool, true, false, Option, none, some, Bool-cases, ◌==◌, eq_iff,
}
use shop_operator.Api.{Wallet}
use shop_operator.Kube.Objects.{Key, wallet}
use shop_operator.Kube.Prog.{Result, ok, err, Request, Response, get, update_status, is_not_found}
use shop_operator.Kube.Reconcile.{Requeue}
use shop_operator.Kube.Library.{Library}
use shop_operator.Kube.Monitor.{Monitor, Safe}
use shop_operator.Wallet.Address.{is_valid_address, IsAddress, is_valid_address_iff}
use shop_operator.Wallet.Controller.{reconcile, judge, judge_found, set_status}

-- A status for `w`: a well-formed address of the spec is published and the Wallet is ready;
-- for any other text nothing is published. Metadata and spec stay.
pub record IsPublished (w w' : Wallet) : Type 0 where
  pub metadata : w'.metadata ≡ w.metadata
  pub spec : w'.spec ≡ w.spec
  pub verdict :
      IsAddress w.spec.address × (w'.status.address ≡ w.spec.address) × (w'.status.ready ≡ true)
      ⊎ ¬ (IsAddress w.spec.address) × (w'.status.address ≡ "") × (w'.status.ready ≡ false)

-- The watcher knows the last Wallet that was read, and what the last status update answered.
pub record Seen : Type 0 where
  pub last : Option Wallet
  pub written : Option (Result Wallet)

abbrev pub observe : (r : Request) → Response r → Seen → Seen
observe (get wallet key) (ok w) s = record s { last = some w }
observe (update_status wallet o) x s = record s { written = some x }
observe _ _ s = s

abbrev pub Publishes : Key → Request → Seen → Type 0
Publishes key (get wallet k) s = (k ≡ key) × (s.last ≡ none)
Publishes key (update_status wallet w') s =
    (w : Wallet) × (s.last ≡ some w) × (s.written ≡ none) × IsPublished w w'
Publishes key _ s = ⊥

abbrev pub publisher : Key → Monitor
publisher key = record { State = Seen; next = observe; allowed = Publishes key }

abbrev pub unseen : Seen
unseen = record { last = none; written = none }

-- Success without a requeue is a Wallet that is gone or a status that the server took; an error is
-- the error of the read or of the write.
abbrev pub Ended : Result Requeue → Seen → Type 0
Ended (ok q) s = (q ≡ none) × ((s.last ≡ none) ⊎ ((w : Wallet) × (s.written ≡ some (ok w))))
Ended (err e) s = (is_not_found e ≡ false) × (s.last ≡ none) ⊎ (s.written ≡ some (err e))

-- The status update of `set_status` is allowed if its address and its readiness are the verdict.
set_status-IsPublished :
    (lib : Library) (key : Key) (w : Wallet) (address : String) (ready : Bool)
    (reason message : String)
    → (IsAddress w.spec.address × (address ≡ w.spec.address) × (ready ≡ true)
        ⊎ ¬ (IsAddress w.spec.address) × (address ≡ "") × (ready ≡ false))
    → Safe
        (publisher key)
        Ended
        (set_status lib w address ready reason message)
        (record { last = some w; written = none })
unfolding set_status
set_status-IsPublished lib key w address ready reason message v = (
  (w, refl, refl, record { metadata = refl; spec = refl; verdict = v }),
  elim [ ok x ↦ (refl, inr (x, refl)) | err e ↦ inr refl ],
)

pub not-IsAddress : (s : String) → is_valid_address s ≡ false → ¬ IsAddress s
not-IsAddress s h a = cc ((is_valid_address_iff s).1 a)

pub empty_invalid : (s : String) → (s == "") ≡ true → is_valid_address s ≡ false
unfolding is_valid_address
empty_invalid s h = rw ((eq_iff s "").0 h) refl

judge-IsPublished :
    (lib : Library) (key : Key) (w : Wallet)
    → Safe (publisher key) Ended (judge lib w) (record { last = some w; written = none })
unfolding judge
judge-IsPublished lib key w = elim (Bool-cases (w.spec.address == "")) [
  | inl missing ↦ rw missing (
      set_status-IsPublished lib key w "" false _ _
        (inr (not-IsAddress w.spec.address (empty_invalid _ missing), refl, refl)))
  | inr present ↦ rw present (elim (Bool-cases (is_valid_address w.spec.address)) [
    | inl valid ↦ rw valid (
        set_status-IsPublished lib key w w.spec.address true _ _
          (inl ((is_valid_address_iff w.spec.address).0 valid, refl, refl)))
    | inr invalid ↦ rw invalid (
        set_status-IsPublished lib key w "" false _ _
          (inr (not-IsAddress w.spec.address invalid, refl, refl)))
  ])
]

judge_found-IsPublished :
    (lib : Library) (key : Key) (x : Result Wallet)
    → Safe (publisher key) Ended (judge_found lib x) (observe (get wallet key) x unseen)
judge_found-IsPublished lib key (ok w) = judge-IsPublished lib key w
judge_found-IsPublished lib key (err e) = elim (Bool-cases (is_not_found e)) [
  | inl gone ↦ rw gone (refl, inl refl)
  | inr failed ↦ rw failed (inl (failed, refl))
]

-- Whatever the API server answers, reconciling a Wallet makes no request but the read and at most
-- one status update of the Wallet that was read, and that update publishes a status as above; it ends
-- without a requeue when the Wallet is gone or its status was written, and with the server's error
-- otherwise.
pub reconcile-IsPublished :
    (lib : Library) (key : Key) → Safe (publisher key) Ended (reconcile lib key) unseen
unfolding reconcile
reconcile-IsPublished lib key = ((refl, refl), λ x. judge_found-IsPublished lib key x)
