-- ===== src/Manager/Starting.antt =====
-- How the process starts and ends, and what its servers offer.
use shop_operator.Base.{
  ℕ, ◌≡◌, refl, ◌⊎◌, inl, inr, Bool, true, false, List, [], ◌∷◌, ◌++◌, ap, Bool-cases, All,
}
use shop_operator.Access.{manager_role, is_watchable}
use shop_operator.Manager.{
  Flags, TlsConfig, TlsOption, tls_opts, metrics_server_options, webhook_server_options,
  ManagerOptions, manager_options, Call, new_manager, register, wallet_registration,
  discord_channel_registration, shop_registration, get_config, add_healthz_check, add_readyz_check,
  start, Process, exit, make, start_manager, add_checks, register_controllers, main, outcome,
}

module _ (succeeds : Call → Bool) where
  abbrev Succeeds : Call → Type 0
  Succeeds c = succeeds c ≡ true

  -- All calls were made and succeeded, and the code is 0; or one of them failed, and the calls made
  -- are those before it, which succeeded, and itself, and the code is 1.
  abbrev pub Ends : List Call → List Call × ℕ → Type 0
  Ends cs (made, code) =
      All Succeeds cs × (made ≡ cs) × (code ≡ 0)
      ⊎ ((done : List Call) × (failed : Call) × (left : List Call) × (cs ≡ done ++ failed ∷ left)
          × All Succeeds done
          × (succeeds failed ≡ false)
          × (made ≡ done ++ failed ∷ [])
          × (code ≡ 1))

  Ends-cons :
      (c : Call) (cs : List Call) (r : List Call × ℕ)
      → Succeeds c
      → Ends cs r
      → Ends (c ∷ cs) (c ∷ r.0, r.1)
  Ends-cons c cs r fine (inl (all, made, code)) = inl ((fine, all), ap (λ l. c ∷ l) made, code)
  Ends-cons c cs r fine (inr (done, failed, left, split, all, down, made, code)) =
      inr (
        c ∷ done,
        failed,
        left,
        ap (λ l. c ∷ l) split,
        (fine, all),
        down,
        ap (λ l. c ∷ l) made,
        code,
      )

  -- A call whose failure is the exit with the code 1.
  Ends-branch :
      (c : Call) (cs : List Call) (k : Bool → Process) (b : Bool)
      → succeeds c ≡ b
      → k false ≡ exit 1
      → Ends cs (outcome succeeds (k true))
      → Ends (c ∷ cs) (c ∷ (outcome succeeds (k b)).0, (outcome succeeds (k b)).1)
  unfolding outcome
  Ends-branch c cs k true fine exits later = Ends-cons c cs (outcome succeeds (k true)) fine later
  Ends-branch c cs k false failed exits later =
      rw exits (inr ([], c, cs, refl, tt, failed, refl, refl))

  Ends-make :
      (c : Call) (cs : List Call) (k : Bool → Process)
      → k false ≡ exit 1
      → Ends cs (outcome succeeds (k true))
      → Ends (c ∷ cs) (outcome succeeds (make c k))
  unfolding outcome
  Ends-make c cs k = Ends-branch c cs k (succeeds c) refl

  exit-Ends : Ends [] (outcome succeeds (exit 0))
  unfolding outcome
  exit-Ends = inl (tt, refl, refl)

  start_manager-Ends : Ends (start ∷ []) (outcome succeeds start_manager)
  unfolding start_manager
  start_manager-Ends = Ends-make _ _ _ refl exit-Ends

  add_checks-Ends :
      Ends
        (add_healthz_check "healthz" ∷ add_readyz_check "readyz" ∷ start ∷ [])
        (outcome succeeds add_checks)
  unfolding add_checks
  add_checks-Ends = Ends-make _ _ _ refl (Ends-make _ _ _ refl start_manager-Ends)

  register_controllers-Ends :
      Ends
        (register wallet_registration
          ∷ register discord_channel_registration
          ∷ register shop_registration
          ∷ add_healthz_check "healthz"
          ∷ add_readyz_check "readyz"
          ∷ start
          ∷ [])
        (outcome succeeds register_controllers)
  unfolding register_controllers
  register_controllers-Ends =
      Ends-make _ _ _ refl (Ends-make _ _ _ refl (Ends-make _ _ _ refl add_checks-Ends))

  -- Whatever calls fail, the process gets its configuration, makes the manager with the options of
  -- its flags, registers the controllers of Wallets, of DiscordChannels and of Shops, adds the
  -- checks healthz and readyz and starts the manager, in this order, each after the one before has
  -- succeeded. If all succeed it ends with the code 0; otherwise it has made the calls up to the
  -- first that failed and no other, and ends with the code 1.
  pub main-Ends :
      (f : Flags)
      → Ends
          (get_config
            ∷ new_manager (manager_options f)
            ∷ register wallet_registration
            ∷ register discord_channel_registration
            ∷ register shop_registration
            ∷ add_healthz_check "healthz"
            ∷ add_readyz_check "readyz"
            ∷ start
            ∷ [])
          (outcome succeeds (main f))
  unfolding main
  main-Ends f = Ends-make _ _ _ refl (Ends-make _ _ _ refl register_controllers-Ends)

-- A server applies its options in order.
abbrev pub configured : List TlsOption → TlsConfig → TlsConfig
configured [] c = c
configured (o ∷ os) c = configured os (o c)

-- A server with these options speaks HTTP/1.1 only, unless HTTP/2 is asked for, when it keeps the
-- protocols it has.
abbrev pub Speaks : Flags → List TlsOption → Type 0
Speaks f os =
    (c : TlsConfig)
    → (f.enable_http2 ≡ false) × ((configured os c).next_protos ≡ "http/1.1" ∷ [])
      ⊎ (f.enable_http2 ≡ true) × (configured os c ≡ c)

pub record IsGuarded (f : Flags) (o : ManagerOptions) : Type 0 where
  pub metrics : Speaks f o.metrics.tls_opts
  pub webhook : Speaks f o.webhook.tls_opts
  pub filtered : o.metrics.secure_serving ≡ true → o.metrics.filtered ≡ true

tls_opts-Speaks : (f : Flags) → Speaks f (tls_opts f)
unfolding tls_opts
tls_opts-Speaks f c = elim (Bool-cases f.enable_http2) [
  | inl on ↦ rw on (inr (refl, refl))
  | inr off ↦ rw off (inl (refl, refl))
]

manager_options-IsGuarded : (f : Flags) → IsGuarded f (manager_options f)
unfolding manager_options metrics_server_options webhook_server_options
manager_options-IsGuarded f = record {
  metrics = tls_opts-Speaks f;
  webhook = tls_opts-Speaks f;
  filtered = λ secure. secure;
}

-- A manager has guarded servers; of what a controller watches, the role of the operator grants the
-- list and the watch.
abbrev pub IsPrepared : Flags → Call → Type 0
IsPrepared f (new_manager o) = IsGuarded f o
IsPrepared f (register r) = All (λ k. is_watchable manager_role k ≡ true) (r.watches ∷ r.owns)
IsPrepared f _ = Unit

-- Every call that a process can make.
abbrev Makes : (Call → Type 0) → Process → Type 0
Makes P (exit code) = Unit
Makes P (make c k) = P c × ((done : Bool) → Makes P (k done))

All-outcome :
    (P : Call → Type 0) (succeeds : Call → Bool) (p : Process)
    → Makes P p
    → All P (outcome succeeds p).0
unfolding outcome
All-outcome P succeeds (exit code) h = tt
All-outcome P succeeds (make c k) h =
    (h.0, All-outcome P succeeds (k (succeeds c)) (h.1 (succeeds c)))

start_manager-Makes : (f : Flags) → Makes (IsPrepared f) start_manager
unfolding start_manager
start_manager-Makes f = (tt, elim [ true ↦ tt | false ↦ tt ])

add_checks-Makes : (f : Flags) → Makes (IsPrepared f) add_checks
unfolding add_checks
add_checks-Makes f =
    (tt, elim [ true ↦ (tt, elim [ true ↦ start_manager-Makes f | false ↦ tt ]) | false ↦ tt ])

register_controllers-Makes : (f : Flags) → Makes (IsPrepared f) register_controllers
unfolding register_controllers wallet_registration discord_channel_registration shop_registration
    is_watchable manager_role
register_controllers-Makes f = (
  (refl, tt),
  elim [
    | false ↦ tt
    | true ↦ (
      (refl, tt),
      elim [
        | false ↦ tt
        | true ↦ (
          (refl, (refl, (refl, (refl, (refl, (refl, tt)))))),
          elim [ true ↦ add_checks-Makes f | false ↦ tt ],
        )
      ],
    )
  ],
)

main-Makes : (f : Flags) → Makes (IsPrepared f) (main f)
unfolding main
main-Makes f = (
  tt,
  elim [
    | false ↦ tt
    | true ↦
        (manager_options-IsGuarded f, elim [ true ↦ register_controllers-Makes f | false ↦ tt ])
  ],
)

-- Whatever calls fail: a manager is made only with servers that speak HTTP/1.1 alone, unless
-- HTTP/2 was asked for, and with metrics that are not served securely without a filter; and a
-- controller is registered only for kinds that the role of the operator lets it list and watch,
-- those it owns included.
pub main-IsPrepared :
    (f : Flags) (succeeds : Call → Bool) → All (IsPrepared f) (outcome succeeds (main f)).0
main-IsPrepared f succeeds = All-outcome (IsPrepared f) succeeds (main f) (main-Makes f)
