-- ===== src/Discord/Protocol/Resting.antt =====
-- The reconcile of a DiscordChannel that has all it needs.
use shop_operator.Base.{
  String, ◌≡◌, ◌≢◌, refl, sym, ◌∙◌, ap, ◌⊎◌, inl, inr, true, false, Option, none, some, [], ◌∷◌,
  ◌==◌, eq_iff, arith, Bool-cases,
}
use mathlib.Core.Path.{subst}
use shop_operator.Base.Text.{lookup}
use shop_operator.Api.{DiscordChannel}
use shop_operator.Kube.Objects.{Key, Secret, discord_channel, secret}
use shop_operator.Kube.Prog.{is_not_found, Result, ok, err, get, update_status, M, pure}
use shop_operator.Kube.Journal.{Journal}
use shop_operator.Kube.Reconcile.{Requeue}
use shop_operator.Kube.Run.{Handler, logged}
use shop_operator.Discord.Controller.{
  Reconciler, discord_channel_finalizer, five_minutes, bot_secret_key, provision, ensure_finalizer,
  after_finalizer, report, with_secret, by_deletion, with_token, with_channel, reconcile,
}

-- The Secret of the bot is not there, or lacks the token.
abbrev Lacks : Result Secret → Type 0
Lacks (ok s) = lookup "token" s.content ≡ none
Lacks (err e) = is_not_found e ≡ true

module _ (r : Reconciler) (key : Key) (dc : DiscordChannel) where
  abbrev reads : Result Secret → Journal
  reads x = (get secret (bot_secret_key r), x) ∷ (get discord_channel key, ok dc) ∷ []

  -- The three ways in which a reconcile ends, with its journal, the last first.
  abbrev pub Rests : Result Requeue × Journal → Type 0
  Rests t =
      ((s : Secret) × (token : String) × (lookup "token" s.content ≡ some token)
        × (t ≡ (ok none, reads (ok s))))
      ⊎ ((x : Result Secret) × (o : DiscordChannel) × (y : Result DiscordChannel) × Lacks x
          × (record o { status = record o.status { conditions = dc.status.conditions } } ≡ dc)
          × (t ≡ (ok (some five_minutes), (update_status discord_channel o, y) ∷ reads x)))
      ⊎ ((e : _) × (is_not_found e ≡ false) × (t ≡ (err e, reads (err e))))

  module _ (live : dc.metadata.deletion_timestamp ≡ none)
      (kept : r.lib.contains_finalizer dc.metadata discord_channel_finalizer ≡ true)
      (known : dc.status.webhook_id ≢ "") where
    provision_settled : (token : String) → provision r token dc ≡ pure none
    unfolding provision ensure_finalizer after_finalizer
    provision_settled token =
        let named : (dc.status.webhook_id == "") ≡ false =
          ground (arith, eq_iff dc.status.webhook_id "") in
        rw (kept, named) refl

    module _ {W : Type 0} (h : Handler W) where
      with_token-Rests :
          (s : Secret) (token : Option String) (w : W)
          → lookup "token" s.content ≡ token
          → Rests (logged h (with_token r dc token) w (reads (ok s)))
      unfolding logged report
      with_token-Rests s none w lacks = inr (inl (ok s, _, _, lacks, refl, refl))
      with_token-Rests s (some token) w has =
          let quiet : by_deletion r dc.metadata.deletion_timestamp token dc ≡ pure none =
            ap (λ d. by_deletion r d token dc) live ∙ provision_settled token in
          inl (s, token, has, ap (λ (p : M Requeue). logged h p w (reads (ok s))) quiet)

      with_secret-Rests :
          (x : Result Secret) (w : W) → Rests (logged h (with_secret r dc x) w (reads x))
      unfolding logged report
      with_secret-Rests (ok s) w = with_token-Rests s (lookup "token" s.content) w refl
      with_secret-Rests (err e) w = elim (Bool-cases (is_not_found e)) [
        | inl gone ↦ rw gone (inr (inl (err e, _, _, gone, refl, refl)))
        | inr failed ↦ rw failed (inr (inr (e, failed, refl)))
      ]

      -- For a live DiscordChannel that has its finalizer and its webhook, whichever Discord client
      -- is used and whatever the environment answers: a reconcile reads the object and the Secret
      -- of the bot and asks Discord for nothing; if the Secret has a token it ends there, and is
      -- not repeated; if the Secret is missing or has no token it writes one status, with no other
      -- change than in the conditions, and is repeated after five minutes, whether the write
      -- succeeds or not; with any other error of the read it ends with that error.
      pub reconcile-Rests :
          (w : W)
          → (h (get discord_channel key) w).0 ≡ ok dc
          → Rests (logged h (reconcile r key) w [])
      unfolding logged reconcile
      reconcile-Rests w answered =
          let w' = (h (get discord_channel key) w).1 in
          let t = h (get secret (bot_secret_key r)) w' in
          subst (λ x. Rests (logged h (with_channel r x) w' ((get discord_channel key, x) ∷ [])))
            (sym answered) (with_secret-Rests t.0 t.1)
