-- ===== src/Shop/AppEnv/Payout.antt =====
-- The payout address, from the Wallet of a Shop to the environment of its payment service.
use mathlib.Core.Path.{subst}
use shop_operator.Base.{
  ℕ, zero, suc, String, ◌≡◌, refl, ◌∙◌, ap, ◌⊎◌, inl, inr, true, Option, none, some, List, [], ◌∷◌,
  ◌==◌, eq_iff, if◌then◌else◌, Bool-cases,
}
use shop_operator.Api.{Shop, Wallet}
use shop_operator.Kube.Objects.{Key, EnvVar, wallet}
use shop_operator.Kube.Prog.{Error, Reason, ok, err, get, update_status}
use shop_operator.Kube.Library.{Library}
use shop_operator.Kube.Run.{Handler, run, is_key}
use shop_operator.Wallet.Address.{is_valid_address, IsAddress, is_valid_address_iff}
use shop_operator.Wallet.Controller.{reconcile, judge, set_status}
use shop_operator.Wallet.Publishing.{not-IsAddress, empty_invalid}
use shop_operator.Shop.Microservice.{ms_payment}
use shop_operator.Shop.Names.{wallet_resource_name}
use shop_operator.Shop.Children.{app_wallet}
use shop_operator.Shop.AppEnv.{
  shop_app_env, service_env, payout_address, base_env, tracing_env, payment_env,
}

abbrev unknown : Error
unknown = record { reason = Reason.not_found; text = "not found" }

-- The value of an environment variable, that of its first entry.
abbrev pub env_value : String → List EnvVar → Option String
env_value name [] = none
env_value name (v ∷ vs) =
    let rest = env_value name vs in if v.name == name then some v.value else rest

-- What is published is the address of the spec, if it is one.
abbrev pub IsVerdict : String → String → Type 0
IsVerdict spec address = IsAddress spec × (address ≡ spec) ⊎ ¬ (IsAddress spec) × (address ≡ "")

module _ (lib : Library) (key : Key) where
  -- An API server that holds one Wallet, under the key.
  abbrev pub ledger : Handler Wallet
  ledger (get wallet k) w = (if is_key k key then ok w else err unknown, w)
  ledger (update_status wallet o) w = let w' = record w { status = o.status } in (ok w', w')
  ledger _ w = (err unknown, w)

  -- The Wallet after a number of its reconciles.
  unfoldable pub wallet_after : Wallet → ℕ → Wallet
  wallet_after w zero = w
  wallet_after w (suc n) = (run ledger (reconcile lib key) (wallet_after w n)).1

  -- A Wallet whose metadata and spec are those of another.
  pub record IsJudged (w w' : Wallet) : Type 0 where
    pub metadata : w'.metadata ≡ w.metadata
    pub spec : w'.spec ≡ w.spec
    pub verdict : IsVerdict w.spec.address w'.status.address

  judge-IsJudged : (w : Wallet) → IsJudged w (run ledger (judge lib w) w).1
  unfolding run judge set_status
  judge-IsJudged w = elim (Bool-cases (w.spec.address == "")) [
    | inl missing ↦ rw missing (record {
      metadata = refl;
      spec = refl;
      verdict = inr (not-IsAddress w.spec.address (empty_invalid _ missing), refl);
    })
    | inr present ↦ rw present (elim (Bool-cases (is_valid_address w.spec.address)) [
      | inl valid ↦ rw valid (record {
        metadata = refl;
        spec = refl;
        verdict = inl ((is_valid_address_iff w.spec.address).0 valid, refl);
      })
      | inr invalid ↦ rw invalid (record {
        metadata = refl;
        spec = refl;
        verdict = inr (not-IsAddress w.spec.address invalid, refl);
      })
    ])
  ]

  is_key_refl : is_key key key ≡ true
  is_key_refl =
      let a : (key.namespace == key.namespace) ≡ true = (eq_iff _ _).1 refl in
      let b : (key.name == key.name) ≡ true = (eq_iff _ _).1 refl in rw (a, b) refl

  reconcile-IsJudged : (w : Wallet) → IsJudged w (run ledger (reconcile lib key) w).1
  unfolding run reconcile
  reconcile-IsJudged w = rw (run, is_key_refl) (judge-IsJudged w)

  IsJudged-trans : (a b c : Wallet) → IsJudged a b → IsJudged b c → IsJudged a c
  IsJudged-trans a b c x y = record {
    metadata = y.metadata ∙ x.metadata;
    spec = y.spec ∙ x.spec;
    verdict = subst (λ s. IsVerdict s c.status.address) (ap (λ t. t.address) x.spec) y.verdict;
  }

  wallet_after-IsJudged : (w : Wallet) (n : ℕ) → IsJudged w (wallet_after w (suc n))
  unfolding wallet_after
  wallet_after-IsJudged w zero = reconcile-IsJudged w
  wallet_after-IsJudged w (suc n) =
      IsJudged-trans w (wallet_after w (suc n)) _ (wallet_after-IsJudged w n)
        (reconcile-IsJudged (wallet_after w (suc n)))

module _ (lib : Library) (s : Shop) where
  -- The key of the Wallet of a Shop.
  abbrev pub wallet_key : Key
  wallet_key = record { namespace = s.metadata.namespace; name = wallet_resource_name s }

  payout_address-ledger :
      (w : Wallet) → run (ledger lib wallet_key) (payout_address s) w ≡ (ok w.status.address, w)
  unfolding run payout_address
  payout_address-ledger w = rw (run, is_key_refl lib wallet_key) refl

  payment-env_value :
      (w : Wallet) (db_env : List EnvVar) (auth_secret_name : String)
      → (env : List EnvVar) × (run
            (ledger lib wallet_key)
            (shop_app_env lib s ms_payment db_env auth_secret_name)
            w
          ≡ (ok env, w))
        × (env_value "SHOP_WALLET_ADDRESS" env ≡ some w.status.address)
  unfolding run shop_app_env service_env payout_address base_env tracing_env payment_env
  payment-env_value w db_env auth_secret_name = rw (run, is_key_refl lib wallet_key) (_, refl, refl)

  -- From the address in the spec of a Shop to its payment service: once the Wallet, as the Shop
  -- writes it, has been reconciled, however often, against a server that holds it and takes every
  -- status, the environment of the payment service has as its payout address that of the spec of
  -- the Shop if it is a well-formed address, and the empty text if it is not.
  pub payout_follows_shop :
      (o : Wallet) (n : ℕ) (db_env : List EnvVar) (auth_secret_name : String)
      → (env : List EnvVar) × (address : String) × (run
            (ledger lib wallet_key)
            (shop_app_env lib s ms_payment db_env auth_secret_name)
            (wallet_after lib wallet_key (app_wallet lib s o) (suc n))
          ≡ (ok env, wallet_after lib wallet_key (app_wallet lib s o) (suc n)))
        × (env_value "SHOP_WALLET_ADDRESS" env ≡ some address)
        × IsVerdict s.spec.wallet.address address
  unfolding app_wallet
  payout_follows_shop o n db_env auth_secret_name =
      let judged = wallet_after-IsJudged lib wallet_key (app_wallet lib s o) n in
      let (env, ran, found) =
        payment-env_value (wallet_after lib wallet_key (app_wallet lib s o) (suc n)) db_env
          auth_secret_name in
      (env, _, ran, found, judged.verdict)
