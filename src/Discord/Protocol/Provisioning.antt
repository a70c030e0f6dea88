-- ===== src/Discord/Protocol/Provisioning.antt =====
-- A DiscordChannel that is not being deleted: from the finalizer to the webhook.
use shop_operator.Base.{String, ◌≡◌, refl, ◌∙◌, inl, inr, none, some, Bool-cases, ◌==◌, eq_iff}
use shop_operator.Api.{DiscordChannel}
use shop_operator.Kube.Objects.{Key}
use shop_operator.Kube.Prog.{ok, err}
use shop_operator.Kube.Library.{Library}
use shop_operator.Kube.Lawful.{KeepsFinalizers}
use shop_operator.Kube.Monitor.{Safe, Safe-bind}
use shop_operator.Discord.Controller.{
  ensure_finalizer, after_finalizer, provision, discord_channel_finalizer,
}
use shop_operator.Discord.Protocol.{Watch, controller, is_protected, Waits}
use shop_operator.Discord.Protocol.Steps.{p, IsKept, ensure_channel-Safe, ensure_webhook-Safe}

module _ (lib : Library) (key bot : Key) where
  after_finalizer-Safe :
      (token : String) (dc : DiscordChannel) (w : Watch)
      → IsKept (ok dc) w
      → Safe (p lib key bot) Waits (after_finalizer (controller lib bot) token dc) w
  unfolding after_finalizer
  after_finalizer-Safe token dc w k = elim (Bool-cases (dc.status.webhook_id == "")) [
    | inr known ↦ rw known (k.clean dc refl, inl refl)
    | inl missing ↦ rw missing (
        Safe-bind (p lib key bot) _ _ IsKept Waits w
          (ensure_channel-Safe lib key bot token dc w k ((eq_iff _ _).0 missing))
          (elim [
            | err e ↦ λ w' k'. tt
            | ok made ↦ λ w' k'. ensure_webhook-Safe lib key bot token made w' k'
          ]))
  ]

  module _ (finalizers : KeepsFinalizers lib) where
    ensure_finalizer-Safe :
        (dc : DiscordChannel) (w : Watch)
        → w.held ≡ some dc
        → w.protected ≡ is_protected lib dc
        → w.unrecorded ≡ none
        → dc.metadata.deletion_timestamp ≡ none
        → Safe (p lib key bot) IsKept (ensure_finalizer (controller lib bot) dc) w
    unfolding ensure_finalizer
    ensure_finalizer-Safe dc w held guard clean live = elim (Bool-cases (is_protected lib dc)) [
      | inl kept ↦
          rw kept
            (record { held = λ d h. cc; protected = λ d h. guard ∙ kept; clean = λ d h. clean })
      | inr bare ↦ rw bare (
        (dc, held, inl (live, guard ∙ bare, refl)),
        elim [
          | err e ↦ record { held = λ d h. cc; protected = λ d h. cc; clean = λ d h. cc }
          | ok x ↦ record {
            held = λ d h. cc;
            protected = λ d h. finalizers.contains-add dc.metadata discord_channel_finalizer;
            clean = λ d h. clean;
          }
        ],
      )
    ]

    pub provision-Safe :
        (token : String) (dc : DiscordChannel) (w : Watch)
        → w.held ≡ some dc
        → w.protected ≡ is_protected lib dc
        → w.unrecorded ≡ none
        → dc.metadata.deletion_timestamp ≡ none
        → Safe (p lib key bot) Waits (provision (controller lib bot) token dc) w
    unfolding provision
    provision-Safe token dc w held guard clean live =
        Safe-bind (p lib key bot) _ _ IsKept Waits w
          (ensure_finalizer-Safe dc w held guard clean live)
          (elim [ err e ↦ λ w' k. tt | ok kept ↦ λ w' k. after_finalizer-Safe token kept w' k ])
