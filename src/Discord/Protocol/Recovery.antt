-- ===== src/Discord/Protocol/Recovery.antt =====
-- What becomes of a DiscordChannel while the API server and Discord answer without errors.
use shop_operator.Base.{
  ℕ, zero, suc, String, ◌<>◌, ◌≡◌, ◌≢◌, refl, ◌∙◌, sym, ap, inl, inr, true, false, Option, none,
  some, List, [], ◌∷◌, ◌==◌, eq_iff, arith, Bool-cases,
}
use mathlib.Core.Path.{subst}
use shop_operator.Base.Text.{lookup}
use shop_operator.Api.{DiscordChannel, ObjectMeta}
use shop_operator.Kube.Objects.{Key, discord_channel, secret, named}
use shop_operator.Kube.Prog.{
  Error, Result, ok, err, propagate, get, update, update_status, create, create_channel,
  create_webhook,
}
use shop_operator.Kube.Lawful.{KeepsFinalizers}
use shop_operator.Kube.Library.{Library}
use shop_operator.Kube.Reconcile.{Requeue}
use shop_operator.Kube.Run.{Handler, run, run-bind}
use shop_operator.Discord.Controller.{
  reconcile, discord_channel_finalizer, by_deletion, provision, after_finalizer, ensure_channel,
  ensure_webhook, ensure_finalizer, store_webhook, create_webhook_secret, name_webhook,
}
use shop_operator.Discord.Protocol.{controller}

-- The object in the cluster, and what was created on Discord.
pub record World : Type 0 where
  pub object : DiscordChannel
  pub channels : List String
  pub webhooks : List (String × String)

module _ (lib : Library) (key bot : Key) (token id : String) (hook : String × String)
    (e : Error) where
  -- A server that takes every write, of the status apart from the rest, and Discord.
  abbrev pub healthy : Handler World
  healthy (get discord_channel k) w = (ok w.object, w)
  healthy (get secret k) w = (
    ok (record {
      metadata = named k.namespace k.name;
      content = ("token", token) ∷ [];
      string_data = [];
    }),
    w,
  )
  healthy (update discord_channel o) w =
      let o' = record w.object { metadata = o.metadata; spec = o.spec } in
      (ok o', record w { object = o' })
  healthy (update_status discord_channel o) w =
      let o' = record w.object { status = o.status } in (ok o', record w { object = o' })
  healthy (create secret o) w = (ok o, w)
  healthy (create_channel t s n) w = (ok id, record w { channels = id ∷ w.channels })
  healthy (create_webhook t c n) w = (ok hook, record w { webhooks = hook ∷ w.webhooks })
  healthy _ w = (err e, w)

  -- The world after a number of reconciles of the object.
  unfoldable pub world_after : World → ℕ → World
  world_after w zero = w
  world_after w (suc n) = (run healthy (reconcile (controller lib bot) key) (world_after w n)).1

  -- The object names the one channel and the one webhook that there are.
  pub record IsSettled (w : World) : Type 0 where
    pub live : w.object.metadata.deletion_timestamp ≡ none
    pub protected : lib.contains_finalizer w.object.metadata discord_channel_finalizer ≡ true
    pub channel_id : w.object.status.channel_id ≡ id
    pub webhook_id : w.object.status.webhook_id ≡ hook.0
    pub channels : w.channels ≡ id ∷ []
    pub webhooks : w.webhooks ≡ hook ∷ []

  module _ (named_id : id ≢ "") (named_hook : hook.0 ≢ "") where
    by_deletion_keeps :
        (w : World) (deletion : Option ℕ)
        → deletion ≡ none
        → IsSettled w
        → run healthy (by_deletion (controller lib bot) deletion token w.object) w ≡ (ok none, w)
    unfolding run provision ensure_finalizer after_finalizer
    by_deletion_keeps w (some at) gone s = cc
    by_deletion_keeps w none gone s =
        let known : (w.object.status.webhook_id == "") ≡ false =
          ground (arith, eq_iff w.object.status.webhook_id "", s.webhook_id, named_hook) in
        rw (s.protected, known) refl

    reconcile_keeps :
        (w : World)
        → IsSettled w
        → run healthy (reconcile (controller lib bot) key) w ≡ (ok none, w)
    unfolding run reconcile lookup
    reconcile_keeps w s = by_deletion_keeps w w.object.metadata.deletion_timestamp s.live s

  module _ (finalizers : KeepsFinalizers lib)
      (signs : (owner : ObjectMeta) (name : String)
        → (o : ObjectMeta) × (lib.set_controller_reference discord_channel owner
              (named owner.namespace name)
            ≡ ok o)) where
    -- An object with nothing on Discord.
    pub record IsNew (w : World) : Type 0 where
      pub live : w.object.metadata.deletion_timestamp ≡ none
      pub channel_id : w.object.status.channel_id ≡ ""
      pub webhook_id : w.object.status.webhook_id ≡ ""
      pub channels : w.channels ≡ []
      pub webhooks : w.webhooks ≡ []

    -- With the channel of the object named in its status.
    abbrev channel_named : World → World
    channel_named w = record w {
      object = record w.object { status = record w.object.status { channel_id = id } };
      channels = id ∷ w.channels;
    }

    ensure_channel-healthy :
        (w : World)
        → w.object.status.channel_id ≡ ""
        → run healthy (ensure_channel (controller lib bot) token w.object) w
          ≡ (ok (channel_named w).object, channel_named w)
    unfolding run ensure_channel
    ensure_channel-healthy w unnamed =
        let missing : (w.object.status.channel_id == "") ≡ true = (eq_iff _ _).1 unnamed in
        rw missing refl

    ensure_webhook-IsSettled :
        (w : World)
        → IsNew w
        → lib.contains_finalizer w.object.metadata discord_channel_finalizer ≡ true
        → IsSettled
            (run healthy
              (ensure_webhook (controller lib bot) token (channel_named w).object)
              (channel_named w)).1
    unfolding run ensure_webhook store_webhook create_webhook_secret name_webhook
    ensure_webhook-IsSettled w new protected =
        let missing : (w.object.status.webhook_id == "") ≡ true = (eq_iff _ _).1 new.webhook_id in
        let (owned, signed) = signs w.object.metadata (w.object.metadata.name <> "-webhook") in
        rw (missing, signed)
          (record {
            live = new.live;
            protected = protected;
            channel_id = refl;
            webhook_id = refl;
            channels = ap (λ c. id ∷ c) new.channels;
            webhooks = ap (λ h. hook ∷ h) new.webhooks;
          })

    after_finalizer-IsSettled :
        (w : World)
        → IsNew w
        → lib.contains_finalizer w.object.metadata discord_channel_finalizer ≡ true
        → IsSettled (run healthy (after_finalizer (controller lib bot) token w.object) w).1
    unfolding after_finalizer
    after_finalizer-IsSettled w new protected =
        let missing : (w.object.status.webhook_id == "") ≡ true = (eq_iff _ _).1 new.webhook_id in
        rw
          (
            missing,
            run-bind healthy (ensure_channel (controller lib bot) token w.object)
                (propagate (ensure_webhook (controller lib bot) token)) w,
            ensure_channel-healthy w new.channel_id,
          )
          (ensure_webhook-IsSettled w new protected)

    -- With the finalizer on the object.
    abbrev protect : World → World
    protect w = record w {
      object = record w.object {
        metadata = lib.add_finalizer w.object.metadata discord_channel_finalizer;
      };
    }

    protect-IsNew : (w : World) → IsNew w → IsNew (protect w)
    protect-IsNew w new = record {
      live =
          ap (λ (m : ObjectMeta). m.deletion_timestamp)
            (finalizers.add_keeps w.object.metadata discord_channel_finalizer)
          ∙ new.live;
      channel_id = new.channel_id;
      webhook_id = new.webhook_id;
      channels = new.channels;
      webhooks = new.webhooks;
    }

    by_deletion-IsSettled :
        (w : World) (deletion : Option ℕ)
        → deletion ≡ none
        → IsNew w
        → IsSettled (run healthy (by_deletion (controller lib bot) deletion token w.object) w).1
    unfolding run provision ensure_finalizer
    by_deletion-IsSettled w (some at) gone new = cc
    by_deletion-IsSettled w none gone new =
        elim (Bool-cases (lib.contains_finalizer w.object.metadata discord_channel_finalizer)) [
          | inl protected ↦ rw protected (after_finalizer-IsSettled w new protected)
          | inr bare ↦ rw bare (
              after_finalizer-IsSettled (protect w) (protect-IsNew w new)
                (finalizers.contains-add w.object.metadata discord_channel_finalizer))
        ]

    reconcile-IsSettled :
        (w : World) → IsNew w → IsSettled (run healthy (reconcile (controller lib bot) key) w).1
    unfolding run reconcile lookup
    reconcile-IsSettled w new =
        by_deletion-IsSettled w w.object.metadata.deletion_timestamp new.live new

    -- While the API server takes every write and Discord creates what it is asked for, if the ids
    -- that Discord gives are not empty, finalizers are kept as documented and a new Secret can be given
    -- its owner: one reconcile of a live object with nothing on Discord, with
    -- or without its finalizer, creates one channel and one webhook and names both in the status, and
    -- however many reconciles follow there are no others.
    pub world_after-IsSettled :
        (w : World) → IsNew w → id ≢ "" → hook.0 ≢ "" → (n : ℕ) → IsSettled (world_after w (suc n))
    unfolding world_after
    world_after-IsSettled w new named_id named_hook zero = reconcile-IsSettled w new
    world_after-IsSettled w new named_id named_hook (suc n) =
        let settled = world_after-IsSettled w new named_id named_hook n in
        subst (λ (r : Result Requeue × World). IsSettled r.1)
          (sym (reconcile_keeps named_id named_hook (world_after w (suc n)) settled)) settled
