-- ===== src/Discord/Protocol/Deletion.antt =====
-- What becomes of a DiscordChannel that is being deleted, while Discord refuses for a time.
use shop_operator.Base.{
  ℕ, zero, suc, ◌+◌, ◌-◌, ◌≤◌, ◌<◌, eqb, Bool-cases, String, ◌≡◌, ◌≢◌, refl, ◌∙◌, ap, ◌⊎◌, inl, inr,
  true, false, Option, none, some, List, [], ◌∷◌, ◌==◌, eq_iff, arith, if◌then◌else◌,
}
use shop_operator.Base.Text.{lookup}
use shop_operator.Api.{DiscordChannel, ObjectMeta}
use shop_operator.Kube.Objects.{Key, discord_channel, secret, named}
use shop_operator.Kube.Prog.{Error, Reason, Result, ok, err, get, update, delete_channel}
use shop_operator.Kube.Lawful.{KeepsFinalizers}
use shop_operator.Kube.Library.{Library}
use shop_operator.Kube.Reconcile.{Requeue}
use shop_operator.Kube.Run.{Handler, run}
use shop_operator.Discord.Controller.{
  reconcile, discord_channel_finalizer, by_deletion, finalize, with_channel,
}
use shop_operator.Discord.Protocol.{controller}

-- The object, which may be gone, the channels on Discord, and how many deletions of a channel
-- Discord will still refuse.
pub record Remains : Type 0 where
  pub object : Option DiscordChannel
  pub channels : List String
  pub refusals : ℕ

abbrev pub without : String → List String → List String
without c [] = []
without c (d ∷ ds) = let rest = without c ds in if d == c then rest else d ∷ rest

-- The API server removes an object that is being deleted with its last finalizer.
abbrev kept_if : List String → Option ℕ → DiscordChannel → Option DiscordChannel
kept_if [] (some at) dc = none
kept_if _ _ dc = some dc

abbrev pub kept : DiscordChannel → Option DiscordChannel
kept dc = kept_if dc.metadata.finalizers dc.metadata.deletion_timestamp dc

abbrev absent : Error
absent = record { reason = Reason.not_found; text = "not found" }

abbrev found : Option DiscordChannel → Result DiscordChannel
found none = err absent
found (some dc) = ok dc

module _ (lib : Library) (key bot : Key) (token : String) (refusal : Error) where
  abbrev refuse : ℕ → String → Remains → Result (Unit {0}) × Remains
  refuse zero c w = (ok tt, record w { channels = without c w.channels })
  refuse (suc n) c w = (err refusal, record w { refusals = n })

  -- The API server keeps the status apart from the rest; no channel or webhook is made.
  abbrev store : Option DiscordChannel → DiscordChannel → Remains → Result DiscordChannel × Remains
  store none o w = (err absent, w)
  store (some dc) o w =
      let o' = record dc { metadata = o.metadata; spec = o.spec } in
      (ok o', record w { object = kept o' })

  abbrev pub retiring : Handler Remains
  retiring (get discord_channel k) w = (found w.object, w)
  retiring (get secret k) w = (
    ok (record {
      metadata = named k.namespace k.name;
      content = ("token", token) ∷ [];
      string_data = [];
    }),
    w,
  )
  retiring (update discord_channel o) w = store w.object o w
  retiring (delete_channel t c) w = refuse w.refusals c w
  retiring _ w = (err refusal, w)

  -- The world after a number of reconciles of the object.
  unfoldable pub remains_after : Remains → ℕ → Remains
  remains_after w zero = w
  remains_after w (suc n) =
      (run retiring (reconcile (controller lib bot) key) (remains_after w n)).1

  module _ (finalizers : KeepsFinalizers lib) (dc : DiscordChannel) (at : ℕ)
      (deleted : dc.metadata.deletion_timestamp ≡ some at)
      (protected : lib.contains_finalizer dc.metadata discord_channel_finalizer ≡ true)
      (has_channel : dc.status.channel_id ≢ "") (channels : List String) where
    -- The object is there, with its finalizer, and so many deletions will be refused.
    abbrev pub waiting : ℕ → Remains
    waiting n = record { object = some dc; channels = channels; refusals = n }

    abbrev pub released : DiscordChannel
    released = record dc { metadata = lib.remove_finalizer dc.metadata discord_channel_finalizer }

    -- The channel is gone, and the object is, unless it has other finalizers.
    abbrev pub done : Remains
    done = record {
      object = kept released;
      channels = without dc.status.channel_id channels;
      refusals = 0;
    }

    by_deletion-waiting :
        (deletion : Option ℕ) (w : Remains)
        → deletion ≡ some at
        → run retiring (by_deletion (controller lib bot) deletion token dc) w
          ≡ run retiring (finalize (controller lib bot) token dc) w
    by_deletion-waiting none w e = cc
    by_deletion-waiting (some t) w e = refl

    reconcile-waiting :
        (n : ℕ)
        → run retiring (reconcile (controller lib bot) key) (waiting n)
          ≡ run retiring (finalize (controller lib bot) token dc) (waiting n)
    unfolding run reconcile lookup
    reconcile-waiting n = by_deletion-waiting dc.metadata.deletion_timestamp (waiting n) deleted

    finalize-refused :
        (n : ℕ)
        → run retiring (finalize (controller lib bot) token dc) (waiting (suc n))
          ≡ (err refusal, waiting n)
    unfolding run finalize
    finalize-refused n =
        let known : (dc.status.channel_id == "") ≡ false =
          ground (arith, eq_iff dc.status.channel_id "", has_channel) in
        rw (protected, known) refl

    finalize-done :
        run retiring (finalize (controller lib bot) token dc) (waiting 0) ≡ (ok none, done)
    unfolding run finalize
    finalize-done =
        let known : (dc.status.channel_id == "") ≡ false =
          ground (arith, eq_iff dc.status.channel_id "", has_channel) in
        rw (protected, known) refl

    kept_cases : (d : DiscordChannel) → (kept d ≡ none) ⊎ (kept d ≡ some d)
    kept_cases d = by_rest d.metadata.finalizers d.metadata.deletion_timestamp
      where
        by_rest :
            (fs : List String) (t : Option ℕ) → (kept_if fs t d ≡ none) ⊎ (kept_if fs t d ≡ some d)
        by_rest [] (some t) = inl refl
        by_rest [] none = inr refl
        by_rest (f ∷ fs) t = inr refl

    by_deletion-released :
        (deletion : Option ℕ) (w : Remains)
        → deletion ≡ some at
        → run retiring (by_deletion (controller lib bot) deletion token released) w ≡ (ok none, w)
    unfolding run finalize
    by_deletion-released none w e = cc
    by_deletion-released (some t) w e =
        rw (finalizers.contains-remove dc.metadata discord_channel_finalizer) refl

    found_done :
        (o : Option DiscordChannel) (w : Remains)
        → (o ≡ none) ⊎ (o ≡ some released)
        → run retiring (with_channel (controller lib bot) (found o)) w ≡ (ok none, w)
    unfolding run lookup
    found_done none w h = refl
    found_done (some d) w (inl h) = cc
    found_done (some d) w (inr h) =
        let named_so : d ≡ released = cc in
        rw named_so (
          by_deletion-released released.metadata.deletion_timestamp w (
            ap (λ (m : ObjectMeta). m.deletion_timestamp)
              (finalizers.remove_keeps dc.metadata discord_channel_finalizer)
            ∙ deleted))

    reconcile-done : run retiring (reconcile (controller lib bot) key) done ≡ (ok none, done)
    unfolding run reconcile
    reconcile-done = found_done (kept released) done (kept_cases released)

    remains_after-waiting : (k n m : ℕ) → k ≡ n + m → remains_after (waiting k) n ≡ waiting m
    unfolding remains_after
    remains_after-waiting k zero m e = ap waiting (omega arith)
    remains_after-waiting k (suc n) m e =
        ap (λ (w : Remains). (run retiring (reconcile (controller lib bot) key) w).1)
          (remains_after-waiting k n (suc m) (omega arith))
        ∙ ap (λ (t : Result Requeue × Remains). t.1)
            (reconcile-waiting (suc m) ∙ finalize-refused m)

    remains_after-done : (k n : ℕ) → k < n → remains_after (waiting k) n ≡ done
    unfolding remains_after
    remains_after-done k zero h = absurd (omega arith)
    remains_after-done k (suc n) h = elim (Bool-cases (eqb n k)) [
      | inl last ↦
          ap (λ (w : Remains). (run retiring (reconcile (controller lib bot) key) w).1)
            (remains_after-waiting k n 0 (ground arith))
          ∙ ap (λ (t : Result Requeue × Remains). t.1) (reconcile-waiting 0 ∙ finalize-done)
      | inr later ↦
          ap (λ (w : Remains). (run retiring (reconcile (controller lib bot) key) w).1)
            (remains_after-done k n (ground arith))
          ∙ ap (λ (t : Result Requeue × Remains). t.1) reconcile-done
    ]

    -- If adding and removing a finalizer does that and changes nothing else, the API server takes
    -- every write, and Discord refuses the first deletions of a channel, however many, and then
    -- takes the next: an object that is being deleted, has its finalizer and names a channel stays as
    -- it is, with the channel, while Discord refuses; the reconcile that follows deletes the channel
    -- and takes the finalizer off, with which the object goes unless it has other finalizers; and
    -- however many reconciles follow, nothing else is changed.
    pub remains_after_lem :
        (refusals n : ℕ)
        → (n ≤ refusals → remains_after (waiting refusals) n ≡ waiting (refusals - n))
          × (refusals < n → remains_after (waiting refusals) n ≡ done)
    remains_after_lem refusals n = (
      λ early. remains_after-waiting refusals n (refusals - n) (omega arith),
      remains_after-done refusals n,
    )
