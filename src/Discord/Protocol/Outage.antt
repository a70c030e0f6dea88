-- ===== src/Discord/Protocol/Outage.antt =====
-- What becomes of the channels on Discord while status updates fail.
use shop_operator.Base.{
  ℕ, zero, suc, String, ◌≡◌, refl, ◌∙◌, true, Option, none, some, List, [], ◌∷◌, ◌==◌, eq_iff,
  length, ap,
}
use shop_operator.Base.Text.{lookup}
use shop_operator.Api.{DiscordChannel}
use shop_operator.Kube.Objects.{Key, discord_channel, secret, named}
use shop_operator.Kube.Prog.{Error, Result, ok, err, get, create_channel}
use shop_operator.Kube.Library.{Library}
use shop_operator.Kube.Reconcile.{Requeue}
use shop_operator.Kube.Run.{Handler, run}
use shop_operator.Discord.Controller.{reconcile, discord_channel_finalizer, by_deletion, provision}
use shop_operator.Discord.Protocol.{controller}

module _ (dc : DiscordChannel) (token id : String) (e : Error) where
  -- The API server answers reads and refuses every write; Discord creates the channels that it is
  -- asked for. The state is the list of the channels created.
  abbrev pub read_only : Handler (List String)
  read_only (get discord_channel k) made = (ok dc, made)
  read_only (get secret k) made = (
    ok (record {
      metadata = named k.namespace k.name;
      content = ("token", token) ∷ [];
      string_data = [];
    }),
    made,
  )
  read_only (create_channel t s n) made = (ok id, id ∷ made)
  read_only _ made = (err e, made)

  -- The channels there are after a number of reconciles of one object.
  unfoldable pub channels_after : Library → Key → Key → ℕ → List String
  channels_after lib bot key zero = []
  channels_after lib bot key (suc n) =
      (run read_only (reconcile (controller lib bot) key) (channels_after lib bot key n)).1

  module _ (lib : Library) (bot key : Key) (live : dc.metadata.deletion_timestamp ≡ none)
      (kept : lib.contains_finalizer dc.metadata discord_channel_finalizer ≡ true)
      (no_channel : dc.status.channel_id ≡ "") (no_webhook : dc.status.webhook_id ≡ "") where
    by_deletion-read_only :
        (deletion : Option ℕ) (made : List String)
        → deletion ≡ none
        → run read_only (by_deletion (controller lib bot) deletion token dc) made
          ≡ (err e, id ∷ made)
    unfolding run provision
    by_deletion-read_only (some at) made gone = cc
    by_deletion-read_only none made gone =
        let a : (dc.status.channel_id == "") ≡ true = (eq_iff _ _).1 no_channel in
        let b : (dc.status.webhook_id == "") ≡ true = (eq_iff _ _).1 no_webhook in rw (kept, b, a)

    reconcile-read_only :
        (made : List String)
        → run read_only (reconcile (controller lib bot) key) made ≡ (err e, id ∷ made)
    unfolding run reconcile lookup
    reconcile-read_only made = by_deletion-read_only dc.metadata.deletion_timestamp made live

    -- While the server refuses every write, every reconcile of a live object that has its
    -- finalizer and neither a channel nor a webhook creates another channel on Discord, that no
    -- object records: after n of them there are n.
    pub length-channels_after : (n : ℕ) → length (channels_after lib bot key n) ≡ n
    unfolding channels_after
    length-channels_after zero = refl
    length-channels_after (suc n) =
        ap (λ (t : Result Requeue × List String). length t.1)
          (reconcile-read_only (channels_after lib bot key n))
        ∙ ap suc (length-channels_after n)
