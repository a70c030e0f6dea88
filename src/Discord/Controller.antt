-- ===== src/Discord/Controller.antt =====
-- `DiscordChannelReconciler` of internal/controller/discordchannel_controller.go
use shop_operator.Base.{ℕ, String, ◌<>◌, not, Option, none, some, [], ◌∷◌, ◌==◌, if◌then◌else◌}
use shop_operator.Base.Text.{lookup}
use shop_operator.Api.{DiscordChannel, ConditionStatus, ObjectMeta}
use shop_operator.Kube.Objects.{Key, Secret, discord_channel, secret, named}
use shop_operator.Kube.Prog.{
  is_not_found, is_already_exists, Result, ok, err, get, create, update, update_status, M, request,
  pure, fail, lift, bind, try, ◌>>=◌, ◌>>◌,
}
use shop_operator.Kube.Reconcile.{Requeue, ignore_not_found}
use shop_operator.Kube.Library.{Library}
use shop_operator.Discord.Client.{Client}
use shop_operator.Wallet.Controller.{condition_ready_type}

abbrev pub discord_channel_finalizer : String
discord_channel_finalizer = "shophub.devops-siit.io/discordchannel-finalizer"

-- The fields of `DiscordChannelReconciler`, the scheme and the API client apart.
pub record Reconciler : Type 0 where
  pub lib : Library
  pub discord_secret_name : String
  pub discord_secret_namespace : String
  pub discord : Client

-- `discordBotSecret.Data["token"]`, `5 * time.Minute`
abbrev pub five_minutes : ℕ
five_minutes = 300

module _ (r : Reconciler) where
  open r use {lib, discord}

  abbrev pub with_condition : DiscordChannel → ConditionStatus → String → String → DiscordChannel
  with_condition dc status reason message = record dc {
    status = record dc.status {
      conditions = lib.set_status_condition dc.status.conditions (record {
        type = condition_ready_type;
        status = status;
        observed_generation = 0;
        reason = reason;
        message = message;
      });
    };
  }

  -- A failed status update is logged and nothing more.
  unfoldable pub report : DiscordChannel → String → String → M (Result DiscordChannel)
  report dc reason message = try (
      request (
        update_status discord_channel
          (with_condition dc ConditionStatus.condition_false reason message)))

  -- `secret %s/%s not found`
  abbrev pub secret_not_found : String
  secret_not_found =
      "secret " <> r.discord_secret_namespace <> "/" <> r.discord_secret_name <> " not found"

  -- The branch of an object that is being deleted.
  unfoldable pub finalize : String → DiscordChannel → M Requeue
  finalize token dc =
      if lib.contains_finalizer dc.metadata discord_channel_finalizer
      then (do
        (if not (dc.status.channel_id == "")
            then discord.delete_channel token dc.status.channel_id
            else pure tt)
        request (
            update discord_channel
              (record dc { metadata = lib.remove_finalizer dc.metadata discord_channel_finalizer }))
        pure none)
      else pure none

  unfoldable pub ensure_finalizer : DiscordChannel → M DiscordChannel
  ensure_finalizer dc =
      if not (lib.contains_finalizer dc.metadata discord_channel_finalizer)
      then request (
          update discord_channel
            (record dc { metadata = lib.add_finalizer dc.metadata discord_channel_finalizer }))
      else pure dc

  abbrev pub record_channel : DiscordChannel → Result String → M DiscordChannel
  record_channel dc (err e) = report dc "ChannelCreationFailed" e.text >> fail e
  record_channel dc (ok channel_id) = request (
      update_status discord_channel
        (record dc { status = record dc.status { channel_id = channel_id } }))

  unfoldable pub ensure_channel : String → DiscordChannel → M DiscordChannel
  unfolding report
  ensure_channel token dc =
      if dc.status.channel_id == ""
      then bind (discord.create_channel token dc.spec.server_id dc.spec.channel_name)
          (record_channel dc)
      else pure dc

  abbrev pub webhook_secret : DiscordChannel → String → String → Secret
  webhook_secret dc webhook_id webhook_token = record {
    metadata = named dc.metadata.namespace (dc.metadata.name <> "-webhook");
    content = [];
    string_data = ("url", discord.transform_into_url webhook_id webhook_token) ∷ [];
  }

  -- A Secret that exists already is kept.
  abbrev pub tolerate_existing : Result Secret → M (Unit {0})
  tolerate_existing (ok s) = pure tt
  tolerate_existing (err e) = if is_already_exists e then pure tt else fail e

  unfoldable pub name_webhook : DiscordChannel → String → M Requeue
  name_webhook dc webhook_id =
      request (
        update_status discord_channel (
          with_condition (record dc { status = record dc.status { webhook_id = webhook_id } })
            ConditionStatus.condition_true "ChannelAndWebhookReady" ""))
      >> pure none

  unfoldable pub create_webhook_secret : DiscordChannel → String → String → ObjectMeta → M Requeue
  unfolding name_webhook
  create_webhook_secret dc webhook_id webhook_token owned = do
    let s = webhook_secret dc webhook_id webhook_token
    bind (request (create secret (record s { metadata = owned }))) tolerate_existing
    name_webhook dc webhook_id

  unfoldable pub store_webhook : DiscordChannel → String → String → M Requeue
  unfolding create_webhook_secret
  store_webhook dc webhook_id webhook_token =
      lift (
        lib.set_controller_reference discord_channel dc.metadata
          (webhook_secret dc webhook_id webhook_token).metadata)
      >>= create_webhook_secret dc webhook_id webhook_token

  abbrev pub record_webhook : DiscordChannel → Result (String × String) → M Requeue
  record_webhook dc (err e) = report dc "WebhookCreationFailed" e.text >> fail e
  record_webhook dc (ok w) = store_webhook dc w.0 w.1

  unfoldable pub ensure_webhook : String → DiscordChannel → M Requeue
  unfolding report store_webhook
  ensure_webhook token dc =
      if dc.status.webhook_id == ""
      then bind (discord.create_webhook token dc.status.channel_id dc.spec.channel_name)
          (record_webhook dc)
      else pure none

  unfoldable pub after_finalizer : String → DiscordChannel → M Requeue
  unfolding ensure_channel ensure_webhook
  after_finalizer token dc =
      if not (dc.status.webhook_id == "")
      then pure none
      else ensure_channel token dc >>= ensure_webhook token

  -- From the finalizer on, for an object that is not being deleted.
  unfoldable pub provision : String → DiscordChannel → M Requeue
  unfolding ensure_finalizer after_finalizer
  provision token dc = ensure_finalizer dc >>= after_finalizer token

  abbrev pub by_deletion : Option ℕ → String → DiscordChannel → M Requeue
  by_deletion none token dc = provision token dc
  by_deletion (some at) token dc = finalize token dc

  abbrev pub with_token : DiscordChannel → Option String → M Requeue
  with_token dc none = report dc "SecretMissingKey" secret_not_found >> pure (some five_minutes)
  with_token dc (some token) = by_deletion dc.metadata.deletion_timestamp token dc

  abbrev pub with_secret : DiscordChannel → Result Secret → M Requeue
  with_secret dc (ok s) = with_token dc (lookup "token" s.content)
  with_secret dc (err e) =
      if is_not_found e
      then report dc "SecretNotFound" secret_not_found >> pure (some five_minutes)
      else fail e

  abbrev pub bot_secret_key : Key
  bot_secret_key = record { namespace = r.discord_secret_namespace; name = r.discord_secret_name }

  abbrev pub with_channel : Result DiscordChannel → M Requeue
  with_channel (ok dc) = bind (request (get secret bot_secret_key)) (with_secret dc)
  with_channel (err e) = ignore_not_found e

  -- `Reconcile`
  unfoldable pub reconcile : Key → M Requeue
  unfolding finalize provision report
  reconcile key = bind (request (get discord_channel key)) with_channel
