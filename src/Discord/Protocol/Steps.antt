-- ===== src/Discord/Protocol/Steps.antt =====
-- The steps of the DiscordChannel controller under the protocol.
use shop_operator.Base.{
  String, ◌≡◌, ◌≢◌, refl, ◌<>◌, ◌∙◌, inl, inr, true, none, some, arith, Bool-cases, ◌==◌, eq_iff,
}
use shop_operator.Api.{DiscordChannel, ObjectMeta}
use shop_operator.Kube.Objects.{Key, discord_channel, named}
use shop_operator.Kube.Prog.{Error, is_already_exists, Result, ok, err, ◌>>◌, pure, fail}
use shop_operator.Kube.Library.{Library}
use shop_operator.Kube.Monitor.{Monitor, Safe, Safe-bind, Safe-propagate}
use shop_operator.Discord.Controller.{
  report, finalize, ensure_channel, name_webhook, create_webhook_secret, store_webhook,
  ensure_webhook, five_minutes,
}
use shop_operator.Discord.Protocol.{Watch, controller, is_protected, protocol, Waits}

abbrev Reported : Result (Result DiscordChannel) → Watch → Type 0
Reported x w = (y : Result DiscordChannel) × (x ≡ ok y) × (w.unrecorded ≡ none)

-- The object is the one held, it is protected, and no channel waits to be recorded.
pub record IsKept (x : Result DiscordChannel) (w : Watch) : Type 0 where
  pub held : (dc : DiscordChannel) → x ≡ ok dc → w.held ≡ some dc
  pub protected : (dc : DiscordChannel) → x ≡ ok dc → w.protected ≡ true
  pub clean : (dc : DiscordChannel) → x ≡ ok dc → w.unrecorded ≡ none

module _ (lib : Library) (key bot : Key) where
  abbrev pub p : Monitor
  p = protocol lib key bot

  report-Safe :
      (dc : DiscordChannel) (reason message : String) (w : Watch)
      → w.held ≡ some dc
      → w.unrecorded ≡ none
      → Safe p Reported (report (controller lib bot) dc reason message) w
  unfolding report
  report-Safe dc reason message w held clean = (
    (dc, held, refl, refl, rw clean refl, inl refl),
    elim [ ok y ↦ (ok y, refl, refl) | err e ↦ (err e, refl, clean) ],
  )

  -- After a report the controller ends with the error.
  report-fail-Safe :
      {A : Type 0} (dc : DiscordChannel) (reason message : String) (e : Error) (w : Watch)
      → w.held ≡ some dc
      → w.unrecorded ≡ none
      → (post : Result A → Watch → Type 0) → ((w' : Watch) → post (err e) w')
      → Safe p post (report (controller lib bot) dc reason message >> fail e) w
  report-fail-Safe dc reason message e w held clean post done =
      Safe-bind p _ _ Reported post w (report-Safe dc reason message w held clean)
        (λ x w' h. rw h.1 (done w'))

  -- After a report the controller asks to be called again in five minutes.
  pub report_wait-Safe :
      (dc : DiscordChannel) (reason message : String) (w : Watch)
      → w.held ≡ some dc
      → w.unrecorded ≡ none
      → Safe p Waits (report (controller lib bot) dc reason message >> pure (some five_minutes)) w
  report_wait-Safe dc reason message w held clean =
      Safe-bind p _ _ Reported Waits w (report-Safe dc reason message w held clean)
        (λ x w' h. rw h.1 (h.2, inr refl))

  pub finalize-Safe :
      (token : String) (dc : DiscordChannel) (w : Watch)
      → w.held ≡ some dc
      → w.protected ≡ is_protected lib dc
      → w.unrecorded ≡ none
      → dc.metadata.deletion_timestamp ≢ none
      → Safe p Waits (finalize (controller lib bot) token dc) w
  unfolding finalize
  finalize-Safe token dc w held guard clean deleted = elim (Bool-cases (is_protected lib dc)) [
    | inr free ↦ rw free (clean, inl refl)
    | inl kept ↦ rw kept (elim (Bool-cases (dc.status.channel_id == "")) [
      | inl none_recorded ↦ rw none_recorded (
        (dc, held, inr (deleted, guard ∙ kept, inl ((eq_iff _ _).0 none_recorded), refl)),
        elim [ ok x ↦ (clean, inl refl) | err e ↦ tt ],
      )
      | inr recorded ↦ rw recorded (
        (dc, held, guard ∙ kept, deleted, refl, ground (arith, eq_iff dc.status.channel_id "")),
        elim [
          | err e ↦ tt
          | ok x ↦ (
            (dc, held, inr (deleted, guard ∙ kept, inr refl, refl)),
            elim [ ok x ↦ (clean, inl refl) | err e ↦ tt ],
          )
        ],
      )
    ])
  ]

  pub ensure_channel-Safe :
      (token : String) (dc : DiscordChannel) (w : Watch)
      → IsKept (ok dc) w
      → dc.status.webhook_id ≡ ""
      → Safe p IsKept (ensure_channel (controller lib bot) token dc) w
  unfolding ensure_channel
  ensure_channel-Safe token dc w k fresh = elim (Bool-cases (dc.status.channel_id == "")) [
    | inr recorded ↦ rw recorded k
    | inl missing ↦ rw missing (
        let empty : dc.status.channel_id ≡ "" = (eq_iff _ _).0 missing in
        (
          (dc, k.held dc refl, k.protected dc refl, k.clean dc refl, empty, fresh, refl, refl),
          elim [
            | err e ↦
                report-fail-Safe dc "ChannelCreationFailed" e.text e w (k.held dc refl)
                  (k.clean dc refl) IsKept
                  (λ w'. record { held = λ d h. cc; protected = λ d h. cc; clean = λ d h. cc })
            | ok id ↦ (
              (dc, k.held dc refl, refl, refl, (refl, empty), inl refl),
              elim [
                | err e ↦ record { held = λ d h. cc; protected = λ d h. cc; clean = λ d h. cc }
                | ok x ↦ record {
                  held = λ d h. cc;
                  protected = λ d h. k.protected dc refl;
                  clean = λ d h. refl;
                }
              ],
            )
          ],
        ))
  ]

  finish-Safe :
      (dc : DiscordChannel) (id token : String) (w : Watch)
      → IsKept (ok dc) w
      → w.webhook ≡ some (id, token)
      → w.secret_stored ≡ true
      → Safe p Waits (name_webhook (controller lib bot) dc id) w
  unfolding name_webhook
  finish-Safe dc id token w k made stored = (
    (
      dc,
      k.held dc refl,
      refl,
      refl,
      rw (k.clean dc refl) refl,
      inr ((id, token), made, refl, stored),
    ),
    elim [ ok x ↦ (refl, inl refl) | err e ↦ tt ],
  )

  create_webhook_secret-Safe :
      (dc : DiscordChannel) (id token : String) (owned : ObjectMeta) (w : Watch)
      → IsKept (ok dc) w
      → w.webhook ≡ some (id, token)
      → lib.set_controller_reference discord_channel dc.metadata
          (named dc.metadata.namespace (dc.metadata.name <> "-webhook"))
        ≡ ok owned
      → Safe p Waits (create_webhook_secret (controller lib bot) dc id token owned) w
  unfolding create_webhook_secret
  create_webhook_secret-Safe dc id token owned w k made signed =
      let kept : IsKept (ok dc) (record w { secret_stored = true }) = record {
        held = k.held;
        protected = k.protected;
        clean = k.clean;
      } in
      (
        (dc, (id, token), k.held dc refl, made, signed, refl),
        elim [
          | ok s ↦ finish-Safe dc id token _ kept made refl
          | err e ↦ elim (Bool-cases (is_already_exists e)) [
            | inl exists ↦ rw exists (finish-Safe dc id token _ kept made refl)
            | inr failed ↦ rw failed tt
          ]
        ],
      )

  store_webhook-Safe :
      (dc : DiscordChannel) (id token : String) (w : Watch)
      → IsKept (ok dc) w
      → w.webhook ≡ some (id, token)
      → Safe p Waits (store_webhook (controller lib bot) dc id token) w
  unfolding store_webhook
  store_webhook-Safe dc id token w k made =
      Safe-propagate p (create_webhook_secret (controller lib bot) dc id token) _ Waits w
        (λ owned. create_webhook_secret-Safe dc id token owned w k made) (λ e _. tt)

  pub ensure_webhook-Safe :
      (token : String) (dc : DiscordChannel) (w : Watch)
      → IsKept (ok dc) w
      → Safe p Waits (ensure_webhook (controller lib bot) token dc) w
  unfolding ensure_webhook
  ensure_webhook-Safe token dc w k = elim (Bool-cases (dc.status.webhook_id == "")) [
    | inr known ↦ rw known (k.clean dc refl, inl refl)
    | inl missing ↦ rw missing (
      (
        dc,
        k.held dc refl,
        k.protected dc refl,
        k.clean dc refl,
        (eq_iff _ _).0 missing,
        refl,
        refl,
      ),
      elim [
        | err e ↦
            report-fail-Safe dc "WebhookCreationFailed" e.text e w (k.held dc refl)
              (k.clean dc refl) Waits (λ w'. tt)
        | ok (id, secret_token) ↦
            store_webhook-Safe dc id secret_token _
              (record {
                held = λ d h. cc (k.held d h);
                protected = λ d h. k.protected d h;
                clean = λ d h. k.clean d h;
              })
              refl
      ],
    )
  ]
