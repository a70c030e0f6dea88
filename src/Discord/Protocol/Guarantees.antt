-- ===== src/Discord/Protocol/Guarantees.antt =====
-- What the DiscordChannel controller guarantees over all of its runs.
use shop_operator.Base.{String, ◌≡◌, refl, inl, inr, Option, none, some, Bool-cases}
use shop_operator.Base.Text.{lookup}
use shop_operator.Api.{DiscordChannel}
use shop_operator.Kube.Objects.{Key, Secret, discord_channel}
use shop_operator.Kube.Prog.{is_not_found, Result, ok, err, get}
use shop_operator.Kube.Lawful.{KeepsFinalizers}
use shop_operator.Kube.Library.{Library}
use shop_operator.Kube.Monitor.{Safe}
use shop_operator.Discord.Controller.{by_deletion, with_token, with_secret, with_channel, reconcile}
use shop_operator.Discord.Protocol.{Watch, start, controller, is_protected, protocol, watch, Waits}
use shop_operator.Discord.Protocol.Steps.{finalize-Safe, report_wait-Safe}
use shop_operator.Discord.Protocol.Provisioning.{provision-Safe}

module _ (lib : Library) (finalizers : KeepsFinalizers lib) (key bot : Key) where
  abbrev read : DiscordChannel → Watch
  read dc = record start { held = some dc; protected = is_protected lib dc }

  by_deletion-Safe :
      (deletion : Option _) (token : String) (dc : DiscordChannel)
      → dc.metadata.deletion_timestamp ≡ deletion
      → Safe
          (protocol lib key bot)
          Waits
          (by_deletion (controller lib bot) deletion token dc)
          (read dc)
  by_deletion-Safe none token dc e =
      provision-Safe lib key bot finalizers token dc (read dc) refl refl refl e
  by_deletion-Safe (some at) token dc e =
      finalize-Safe lib key bot token dc (read dc) refl refl refl (λ n. cc)

  with_token-Safe :
      (dc : DiscordChannel) (token : Option String)
      → Safe (protocol lib key bot) Waits (with_token (controller lib bot) dc token) (read dc)
  with_token-Safe dc none = report_wait-Safe lib key bot dc _ _ (read dc) refl refl
  with_token-Safe dc (some token) = by_deletion-Safe dc.metadata.deletion_timestamp token dc refl

  with_secret-Safe :
      (dc : DiscordChannel) (x : Result Secret)
      → Safe (protocol lib key bot) Waits (with_secret (controller lib bot) dc x) (read dc)
  with_secret-Safe dc (ok s) = with_token-Safe dc (lookup "token" s.content)
  with_secret-Safe dc (err e) = elim (Bool-cases (is_not_found e)) [
    | inl missing ↦ rw missing (report_wait-Safe lib key bot dc _ _ (read dc) refl refl)
    | inr failed ↦ rw failed tt
  ]

  with_channel-Safe :
      (x : Result DiscordChannel)
      → Safe
          (protocol lib key bot)
          Waits
          (with_channel (controller lib bot) x)
          (watch lib (get discord_channel key) x start)
  with_channel-Safe (ok dc) = (refl, with_secret-Safe dc)
  with_channel-Safe (err e) = elim (Bool-cases (is_not_found e)) [
    | inl gone ↦ rw gone (refl, inl refl)
    | inr failed ↦ rw failed tt
  ]

-- If adding and removing a finalizer does that and changes nothing else, then whatever the API
-- server and Discord answer, at any point of a reconcile of a DiscordChannel: the finalizer is on
-- the object before a channel or a webhook is created; a channel is created only if none is
-- recorded, and the next status that is written names it; a webhook is named in a status only
-- after it was created and its Secret exists; a channel is deleted, and the finalizer removed,
-- only for an object that is being deleted, the finalizer after the channel; no other object is
-- written but the Secret of the webhook. A reconcile without an error leaves no created channel
-- unrecorded, and asks to be called again after five minutes or not at all.
pub reconcile-Safe :
    (lib : Library) (finalizers : KeepsFinalizers lib) (key bot : Key)
    → Safe (protocol lib key bot) Waits (reconcile (controller lib bot) key) start
unfolding reconcile
reconcile-Safe lib finalizers key bot = (refl, λ x. with_channel-Safe lib finalizers key bot x)
