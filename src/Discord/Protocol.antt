-- ===== src/Discord/Protocol.antt =====
-- The order in which the DiscordChannel controller may act on the cluster and on Discord.
pub mod Steps
pub mod Provisioning
pub mod Guarantees
pub mod Outage
pub mod Recovery
pub mod Deletion
pub mod Resting
use shop_operator.Base.{String, ◌<>◌, ◌≡◌, ◌≢◌, ◌⊎◌, Bool, true, false, Option, none, some, [], ◌∷◌}
use shop_operator.Api.{DiscordChannel}
use shop_operator.Kube.Objects.{Key, Secret, discord_channel, secret, named}
use shop_operator.Kube.Prog.{
  Error, is_not_found, is_already_exists, Result, ok, err, Request, Response, get, create, update,
  update_status, create_channel, delete_channel, create_webhook,
}
use shop_operator.Kube.Reconcile.{Requeue}
use shop_operator.Kube.Library.{Library}
use shop_operator.Kube.Monitor.{Monitor}
use shop_operator.Discord.Client.{webhook_url, interface_client}
use shop_operator.Discord.Controller.{Reconciler, discord_channel_finalizer, five_minutes}

-- What an observer of the requests and answers knows.
pub record Watch : Type 0 where
  -- the object as the server answered last
  pub held : Option DiscordChannel
  -- the object carries the finalizer, as the server was told or told last
  pub protected : Bool
  -- `DeleteChannel` has succeeded
  pub channel_deleted : Bool
  -- a channel that was created and that no accepted status update names yet
  pub unrecorded : Option String
  -- the webhook that was created
  pub webhook : Option (String × String)
  -- the Secret of the webhook exists
  pub secret_stored : Bool

abbrev pub start : Watch
start = record {
  held = none;
  protected = false;
  channel_deleted = false;
  unrecorded = none;
  webhook = none;
  secret_stored = false;
}

abbrev pub stores : Result Secret → Bool
stores (ok s) = true
stores (err e) = is_already_exists e

-- The controller with the Discord API left to the environment.
abbrev pub controller : Library → Key → Reconciler
controller lib bot = record {
  lib = lib;
  discord_secret_name = bot.name;
  discord_secret_namespace = bot.namespace;
  discord = interface_client;
}

module _ (lib : Library) where
  abbrev pub is_protected : DiscordChannel → Bool
  is_protected dc = lib.contains_finalizer dc.metadata discord_channel_finalizer

  abbrev pub watch : (q : Request) → Response q → Watch → Watch
  watch (get discord_channel k) (ok dc) w = record w { held = some dc; protected = is_protected dc }
  watch (update discord_channel o) (ok dc) w = record w {
    held = some dc;
    protected = is_protected o;
  }
  watch (update_status discord_channel o) (ok dc) w = record w { held = some dc; unrecorded = none }
  watch (create_channel t s n) (ok id) w = record w { unrecorded = some id }
  watch (delete_channel t id) (ok x) w = record w { channel_deleted = true }
  watch (create_webhook t id n) (ok x) w = record w { webhook = some x }
  watch (create secret o) x w = record w { secret_stored = stores x }
  watch _ _ w = w

  -- The finalizer is added to a live object that lacks it. It is removed from an object that is
  -- being deleted, after Discord has deleted the channel if one is recorded.
  abbrev pub MayUpdate : DiscordChannel → DiscordChannel → Watch → Type 0
  MayUpdate dc o w =
      (dc.metadata.deletion_timestamp ≡ none)
        × (w.protected ≡ false)
        × (o ≡ record dc { metadata = lib.add_finalizer dc.metadata discord_channel_finalizer })
      ⊎ (dc.metadata.deletion_timestamp ≢ none)
        × (w.protected ≡ true)
        × ((dc.status.channel_id ≡ "") ⊎ (w.channel_deleted ≡ true))
        × (o ≡ record dc { metadata = lib.remove_finalizer dc.metadata discord_channel_finalizer })

  -- The channel named in a status is the one just created, or else the one that was named before.
  abbrev pub NamesChannel : DiscordChannel → DiscordChannel → Option String → Type 0
  NamesChannel dc o none = o.status.channel_id ≡ dc.status.channel_id
  NamesChannel dc o (some id) = (o.status.channel_id ≡ id) × (dc.status.channel_id ≡ "")

  -- A webhook is named only once it was created and its Secret exists.
  abbrev pub NamesWebhook : DiscordChannel → DiscordChannel → Watch → Type 0
  NamesWebhook dc o w =
      (o.status.webhook_id ≡ dc.status.webhook_id)
      ⊎ ((h : String × String) × (w.webhook ≡ some h)
          × (o.status.webhook_id ≡ h.0)
          × (w.secret_stored ≡ true))

  abbrev pub May : Key → Key → Request → Watch → Type 0
  May key bot (get discord_channel k) w = k ≡ key
  May key bot (get secret k) w = k ≡ bot
  May key bot (update discord_channel o) w =
      (dc : DiscordChannel) × (w.held ≡ some dc) × MayUpdate dc o w
  May key bot (update_status discord_channel o) w =
      (dc : DiscordChannel) × (w.held ≡ some dc)
      × (o.metadata ≡ dc.metadata)
      × (o.spec ≡ dc.spec)
      × NamesChannel dc o w.unrecorded
      × NamesWebhook dc o w
  May key bot (create_channel t s n) w =
      (dc : DiscordChannel) × (w.held ≡ some dc)
      × (w.protected ≡ true)
      × (w.unrecorded ≡ none)
      × (dc.status.channel_id ≡ "")
      × (dc.status.webhook_id ≡ "")
      × (s ≡ dc.spec.server_id)
      × (n ≡ dc.spec.channel_name)
  May key bot (delete_channel t id) w =
      (dc : DiscordChannel) × (w.held ≡ some dc)
      × (w.protected ≡ true)
      × (dc.metadata.deletion_timestamp ≢ none)
      × (id ≡ dc.status.channel_id)
      × (id ≢ "")
  May key bot (create_webhook t id n) w =
      (dc : DiscordChannel) × (w.held ≡ some dc)
      × (w.protected ≡ true)
      × (w.unrecorded ≡ none)
      × (dc.status.webhook_id ≡ "")
      × (id ≡ dc.status.channel_id)
      × (n ≡ dc.spec.channel_name)
  May key bot (create secret o) w =
      (dc : DiscordChannel) × (h : String × String) × (w.held ≡ some dc)
      × (w.webhook ≡ some h)
      × (lib.set_controller_reference discord_channel dc.metadata
            (named dc.metadata.namespace (dc.metadata.name <> "-webhook"))
          ≡ ok o.metadata)
      × (o.string_data ≡ ("url", webhook_url h.0 h.1) ∷ [])
  May key bot _ w = ⊥

  abbrev pub protocol : Key → Key → Monitor
  protocol key bot = record { State = Watch; next = watch; allowed = May key bot }

-- A reconcile that reports no error has left no channel unrecorded; it asks to be called again only
-- after five minutes.
abbrev pub Settled : {A : Type 0} → Result A → Watch → Type 0
Settled (ok q) w = w.unrecorded ≡ none
Settled (err e) w = Unit

abbrev pub Waits : Result Requeue → Watch → Type 0
Waits (ok q) w = (w.unrecorded ≡ none) × ((q ≡ none) ⊎ (q ≡ some five_minutes))
Waits (err e) w = Unit
