-- ===== src/Discord/Wire/Substitution.antt =====
-- A reconcile with the client over HTTP is one over the interface, with the calls replaced.
use shop_operator.Base.{
  ℕ, String, ◌≡◌, refl, ◌∙◌, sym, inl, inr, Option, none, some, ◌==◌, Bool-cases,
}
use shop_operator.Base.Text.{lookup}
use shop_operator.Api.{DiscordChannel, ObjectMeta}
use shop_operator.Kube.Objects.{Key, Secret, discord_channel}
use shop_operator.Kube.Prog.{
  is_not_found, is_already_exists, Result, ok, err, update, Prog, bind, M, request, pure, propagate,
  ◌>>◌,
}
use shop_operator.Kube.Reconcile.{Requeue}
use shop_operator.Kube.Library.{Library}
use shop_operator.Discord.Client.{api_client, api_create_channel}
use shop_operator.Discord.Controller.{
  Reconciler, discord_channel_finalizer, reconcile, with_channel, with_secret, with_token,
  by_deletion, provision, finalize, after_finalizer, ensure_finalizer, ensure_channel,
  ensure_webhook, record_channel, record_webhook, report, store_webhook, create_webhook_secret,
  tolerate_existing, name_webhook,
}
use shop_operator.Discord.Protocol.{controller}
use shop_operator.Discord.Wire.{interpret, bind-bind, same_call, same_bind, wired}

module _ (lib : Library) (base_url : String) (bot : Key) where
  abbrev over : {A : Type 0} → Prog A → Prog A
  over p = interpret (api_client lib base_url) p

  abbrev here : Reconciler
  here = wired lib base_url bot

  over-report :
      {A : Type 0} (dc : DiscordChannel) (reason message : String) (p : M A)
      → over p ≡ p
      → over (report (controller lib bot) dc reason message >> p)
        ≡ report here dc reason message >> p
  unfolding interpret report
  over-report dc reason message p h = same_call (λ x. h)

  released-over :
      (dc : DiscordChannel) (x : Result (Unit {0}))
      → over (
          propagate
            (λ u.
              request (
                update discord_channel (record dc {
                  metadata = lib.remove_finalizer dc.metadata discord_channel_finalizer;
                }))
              >> pure {A = Requeue} none)
            x)
        ≡ propagate
            (λ u.
              request (
                update discord_channel (record dc {
                  metadata = lib.remove_finalizer dc.metadata discord_channel_finalizer;
                }))
              >> pure {A = Requeue} none)
            x
  unfolding interpret
  released-over dc (err e) = refl
  released-over dc (ok u) = same_call (elim [ ok y ↦ refl | err e ↦ refl ])

  over-finalize :
      (token : String) (dc : DiscordChannel)
      → over (finalize (controller lib bot) token dc) ≡ finalize here token dc
  unfolding finalize interpret
  over-finalize token dc =
      elim (Bool-cases (lib.contains_finalizer dc.metadata discord_channel_finalizer)) [
        | inr bare ↦ rw bare refl
        | inl protected ↦ rw protected (elim (Bool-cases (dc.status.channel_id == "")) [
          | inl missing ↦ rw missing (released-over dc (ok tt))
          | inr named_so ↦ rw named_so (same_bind _ (released-over dc))
        ])
      ]

  over-name_webhook :
      (dc : DiscordChannel) (webhook_id : String)
      → over (name_webhook (controller lib bot) dc webhook_id) ≡ name_webhook here dc webhook_id
  unfolding interpret name_webhook
  over-name_webhook dc webhook_id = same_call (elim [ ok y ↦ refl | err e ↦ refl ])

  over-secret :
      (dc : DiscordChannel) (webhook_id : String) (x : Result Secret)
      → over (
          bind
            (tolerate_existing (controller lib bot) x)
            (propagate (λ u. name_webhook (controller lib bot) dc webhook_id)))
        ≡ bind (tolerate_existing here x) (propagate (λ u. name_webhook here dc webhook_id))
  unfolding interpret
  over-secret dc webhook_id (ok s) = over-name_webhook dc webhook_id
  over-secret dc webhook_id (err e) = elim (Bool-cases (is_already_exists e)) [
    | inl kept ↦ rw kept (over-name_webhook dc webhook_id)
    | inr failed ↦ rw failed refl
  ]

  over-owned :
      (dc : DiscordChannel) (webhook_id webhook_token : String) (x : Result ObjectMeta)
      → over (propagate (create_webhook_secret (controller lib bot) dc webhook_id webhook_token) x)
        ≡ propagate (create_webhook_secret here dc webhook_id webhook_token) x
  unfolding interpret create_webhook_secret
  over-owned dc webhook_id webhook_token (ok owned) = same_call (over-secret dc webhook_id)
  over-owned dc webhook_id webhook_token (err e) = refl

  over-record_webhook :
      (dc : DiscordChannel) (x : Result (String × String))
      → over (record_webhook (controller lib bot) dc x) ≡ record_webhook here dc x
  unfolding interpret store_webhook report
  over-record_webhook dc (ok w) = over-owned dc w.0 w.1 _
  over-record_webhook dc (err e) = same_call (λ x. refl)

  over-ensure_webhook :
      (token : String) (x : Result DiscordChannel)
      → over (propagate (ensure_webhook (controller lib bot) token) x)
        ≡ propagate (ensure_webhook here token) x
  unfolding interpret ensure_webhook
  over-ensure_webhook token (err e) = refl
  over-ensure_webhook token (ok dc) = elim (Bool-cases (dc.status.webhook_id == "")) [
    | inl missing ↦ rw missing (same_bind _ (over-record_webhook dc))
    | inr named_so ↦ rw named_so refl
  ]

  over-record_channel :
      (token : String) (dc : DiscordChannel) (x : Result String)
      → over (
          bind
            (record_channel (controller lib bot) dc x)
            (propagate (ensure_webhook (controller lib bot) token)))
        ≡ bind (record_channel here dc x) (propagate (ensure_webhook here token))
  unfolding interpret report
  over-record_channel token dc (ok channel_id) = same_call (over-ensure_webhook token)
  over-record_channel token dc (err e) = same_call (λ x. refl)

  over-after_finalizer :
      (token : String) (x : Result DiscordChannel)
      → over (propagate (after_finalizer (controller lib bot) token) x)
        ≡ propagate (after_finalizer here token) x
  unfolding after_finalizer interpret ensure_channel
  over-after_finalizer token (err e) = refl
  over-after_finalizer token (ok dc) = elim (Bool-cases (dc.status.webhook_id == "")) [
    | inr named_so ↦ rw named_so refl
    | inl missing ↦ rw missing (elim (Bool-cases (dc.status.channel_id == "")) [
      | inr created ↦ rw created (over-ensure_webhook token (ok dc))
      | inl bare ↦ rw bare (
          same_bind _ (over-record_channel token dc)
          ∙ sym (
              bind-bind
                (api_create_channel lib base_url token dc.spec.server_id dc.spec.channel_name)
                (record_channel here dc) (propagate (ensure_webhook here token))))
    ])
  ]

  over-provision :
      (token : String) (dc : DiscordChannel)
      → over (provision (controller lib bot) token dc) ≡ provision here token dc
  unfolding provision ensure_finalizer interpret
  over-provision token dc =
      elim (Bool-cases (lib.contains_finalizer dc.metadata discord_channel_finalizer)) [
        | inl protected ↦ rw protected (over-after_finalizer token (ok dc))
        | inr bare ↦ rw bare (same_call (over-after_finalizer token))
      ]

  over-by_deletion :
      (deletion : Option ℕ) (token : String) (dc : DiscordChannel)
      → over (by_deletion (controller lib bot) deletion token dc)
        ≡ by_deletion here deletion token dc
  over-by_deletion none token dc = over-provision token dc
  over-by_deletion (some at) token dc = over-finalize token dc

  over-with_token :
      (dc : DiscordChannel) (token : Option String)
      → over (with_token (controller lib bot) dc token) ≡ with_token here dc token
  unfolding interpret report
  over-with_token dc none = same_call (λ x. refl)
  over-with_token dc (some token) = over-by_deletion dc.metadata.deletion_timestamp token dc

  over-with_secret :
      (dc : DiscordChannel) (x : Result Secret)
      → over (with_secret (controller lib bot) dc x) ≡ with_secret here dc x
  unfolding interpret report
  over-with_secret dc (ok s) = over-with_token dc (lookup "token" s.content)
  over-with_secret dc (err e) = elim (Bool-cases (is_not_found e)) [
    | inl missing ↦ rw missing (same_call (λ x. refl))
    | inr failed ↦ rw failed refl
  ]

  over-with_channel :
      (x : Result DiscordChannel) → over (with_channel (controller lib bot) x) ≡ with_channel here x
  unfolding interpret
  over-with_channel (ok dc) = same_call (over-with_secret dc)
  over-with_channel (err e) = elim (Bool-cases (is_not_found e)) [
    | inl gone ↦ rw gone refl
    | inr failed ↦ rw failed refl
  ]

  pub interpret-reconcile :
      (key : Key) → over (reconcile (controller lib bot) key) ≡ reconcile here key
  unfolding interpret reconcile
  interpret-reconcile key = same_call over-with_channel
