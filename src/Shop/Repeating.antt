-- ===== src/Shop/Repeating.antt =====
-- What a second reconcile makes of the objects that the first one made.
pub mod Deployments
use mathlib.Core.Path.{subst}
use shop_operator.Base.{ℕ, String, ◌≡◌, refl, sym, ◌∙◌, ap, List, [], ◌∷◌}
use shop_operator.Base.Text.{StringMap, insert, lookup-insert, lookup-insert_other, insert_kept}
use shop_operator.Api.{Shop, Wallet, DiscordChannel, ObjectMeta}
use shop_operator.Kube.Objects.{
  EnvVar, Container, empty_container, ConfigMap, Deployment, Service, Ingress, shop,
}
use shop_operator.Kube.Prog.{Result, ok, err, M, pure, lift, ret, propagate, ◌>>=◌}
use shop_operator.Kube.Lawful.{SetsController}
use shop_operator.Kube.Library.{Library}
use shop_operator.Kube.Run.{Handler, run, run-bind}
use shop_operator.Shop.Microservice.{Microservice}
use shop_operator.Shop.Names.{labels_for}
use shop_operator.Shop.AppEnv.{shop_app_env}
use shop_operator.Shop.Children.{
  app_wallet, mutate_wallet, app_discord_channel, mutate_discord_channel,
}
use shop_operator.Shop.Network.{app_service, mutate_service, app_ingress, mutate_ingress}
use shop_operator.Shop.Dashboard.{app_config_map, mutate_config_map}
use shop_operator.Shop.Workload.{app_container, app_deployment, mutate_deployment, set_first}

-- An object that has its owner gets it again without an error and without a change.
pub record OwnsAgain (lib : Library) : Type 0 where
  pub again :
      (owner o owned : ObjectMeta)
      → lib.set_controller_reference shop owner o ≡ ok owned
      → lib.set_controller_reference shop owner owned ≡ ok owned

module _ (lib : Library) (law : SetsController lib) (twice : OwnsAgain lib) (s : Shop) where
  -- The metadata of an object after it was given its owner: what was there, but for the owners.
  abbrev Owned : ObjectMeta → ObjectMeta → Type 0
  Owned o owned = record owned { owner_references = o.owner_references } ≡ o

  -- A function that changes an object and gives it its owner, twice in a row.
  module _ {O : Type 0} (mutate : O → M O) (meta : O → ObjectMeta) (put : O → ObjectMeta → O)
      (app : O → O)
      (shape : (o : O)
        → mutate o ≡ (
            lift (lib.set_controller_reference shop s.metadata (meta (app o))) >>= λ owned.
            pure (put (app o) owned)))
      (settled : (o : O) (owned : ObjectMeta)
        → Owned (meta (app o)) owned
        → app (put (app o) owned) ≡ put (app o) owned)
      (met : (o : O) (owned : ObjectMeta) → meta (put o owned) ≡ owned)
      (put_put : (o : O) (m : ObjectMeta) → put (put o m) m ≡ put o m) where
    again-put :
        (o : O) (owned : ObjectMeta)
        → lib.set_controller_reference shop s.metadata (meta (app o)) ≡ ok owned
        → mutate (put (app o) owned) ≡ pure (put (app o) owned)
    again-put o owned set =
        shape (put (app o) owned)
        ∙ rw
            (
              settled o owned (law.keeps shop s.metadata (meta (app o)) owned set),
              met (app o) owned,
              twice.again s.metadata (meta (app o)) owned set,
            )
            (ap pure (put_put (app o) owned))

    again-result :
        (o o' : O) (x : Result ObjectMeta)
        → lib.set_controller_reference shop s.metadata (meta (app o)) ≡ x
        → (lift x >>= λ owned. pure (put (app o) owned)) ≡ pure o'
        → mutate o' ≡ pure o'
    again-result o o' (err e) set made = cc
    again-result o o' (ok owned) set made =
        let same : put (app o) owned ≡ o' = cc in
        subst (λ t. mutate t ≡ pure t) same (again-put o owned set)

    pub again : (o o' : O) → mutate o ≡ pure o' → mutate o' ≡ pure o'
    again o o' made = again-result o o' _ refl (sym (shape o) ∙ made)

  mutate_service-again :
      (m : Microservice) (o o' : Service)
      → mutate_service lib s m o ≡ pure o'
      → mutate_service lib s m o' ≡ pure o'
  unfolding mutate_service app_service
  mutate_service-again m =
      again (mutate_service lib s m) (λ o. o.metadata) (λ o owned. record o { metadata = owned })
        (app_service lib s m) (λ o. refl)
        (λ o owned kept i. record (app_service lib s m o) {
          metadata = record owned { labels = ap (λ (t : ObjectMeta). t.labels) (sym kept) i };
        })
        (λ o owned. refl) (λ o owned. refl)

  mutate_wallet-again :
      (o o' : Wallet) → mutate_wallet lib s o ≡ pure o' → mutate_wallet lib s o' ≡ pure o'
  unfolding mutate_wallet app_wallet
  mutate_wallet-again =
      again (mutate_wallet lib s) (λ o. o.metadata) (λ o owned. record o { metadata = owned })
        (app_wallet lib s) (λ o. refl)
        (λ o owned kept i. record (app_wallet lib s o) {
          metadata = record owned { labels = ap (λ (t : ObjectMeta). t.labels) (sym kept) i };
        })
        (λ o owned. refl) (λ o owned. refl)

  mutate_discord_channel-again :
      (o o' : DiscordChannel)
      → mutate_discord_channel lib s o ≡ pure o'
      → mutate_discord_channel lib s o' ≡ pure o'
  unfolding mutate_discord_channel app_discord_channel
  mutate_discord_channel-again =
      again (mutate_discord_channel lib s) (λ o. o.metadata)
        (λ o owned. record o { metadata = owned }) (app_discord_channel lib s) (λ o. refl)
        (λ o owned kept i. record (app_discord_channel lib s o) {
          metadata = record owned { labels = ap (λ (t : ObjectMeta). t.labels) (sym kept) i };
        })
        (λ o owned. refl) (λ o owned. refl)

  mutate_config_map-again :
      (body : String) (o o' : ConfigMap)
      → mutate_config_map lib s body o ≡ pure o'
      → mutate_config_map lib s body o' ≡ pure o'
  unfolding mutate_config_map app_config_map
  mutate_config_map-again body =
      again (mutate_config_map lib s body) (λ o. o.metadata)
        (λ o owned. record o { metadata = owned }) (app_config_map lib s body) (λ o. refl)
        (λ o owned kept i. record (app_config_map lib s body o) {
          metadata = record owned { labels = ap (λ (t : ObjectMeta). t.labels) (sym kept) i };
        })
        (λ o owned. refl) (λ o owned. refl)

  abbrev use_regex : String
  use_regex = "nginx.ingress.kubernetes.io/use-regex"

  abbrev rewrite_target : String
  rewrite_target = "nginx.ingress.kubernetes.io/rewrite-target"

  -- The annotations of an Ingress that has them.
  annotations_kept :
      (a : StringMap String)
      → let b = insert use_regex "true" (insert rewrite_target "/$2" a) in
        insert use_regex "true" (insert rewrite_target "/$2" b) ≡ b
  annotations_kept a =
      let b = insert use_regex "true" (insert rewrite_target "/$2" a) in
      let target : insert rewrite_target "/$2" b ≡ b = insert_kept rewrite_target "/$2" b (
        lookup-insert_other use_regex rewrite_target "true" (insert rewrite_target "/$2" a) refl
        ∙ lookup-insert rewrite_target "/$2" a) in
      ap (insert use_regex "true") target
      ∙ insert_kept use_regex "true" b
          (lookup-insert use_regex "true" (insert rewrite_target "/$2" a))

  mutate_ingress-again :
      (o o' : Ingress) → mutate_ingress lib s o ≡ pure o' → mutate_ingress lib s o' ≡ pure o'
  unfolding mutate_ingress app_ingress
  mutate_ingress-again =
      again (mutate_ingress lib s) (λ o. o.metadata) (λ o owned. record o { metadata = owned })
        (app_ingress lib s) (λ o. refl)
        (λ o owned kept.
          let notes : (app_ingress lib s o).metadata.annotations ≡ owned.annotations =
            ap (λ (t : ObjectMeta). t.annotations) (sym kept) in
          ap
            (λ a. record (app_ingress lib s o) {
              metadata = record owned {
                labels = labels_for s;
                annotations = insert use_regex "true" (insert rewrite_target "/$2" a);
              };
            })
            (sym notes)
          ∙ ap
              (λ a. record (app_ingress lib s o) {
                metadata = record owned { labels = labels_for s; annotations = a };
              })
              (annotations_kept o.metadata.annotations)
          ∙ (λ i. record (app_ingress lib s o) {
            metadata = record owned {
              labels = ap (λ (t : ObjectMeta). t.labels) (sym kept) i;
              annotations = notes i;
            };
          }))
        (λ o owned. refl) (λ o owned. refl)

  -- If setting an owner reference changes nothing else and may be repeated: what the function that
  -- is given to `CreateOrUpdate` makes of a Wallet, a DiscordChannel, a Service, an Ingress or a
  -- ConfigMap, whatever was there, it leaves as it is when it is applied again.
  pub mutations-again :
      ((o o' : Wallet) → mutate_wallet lib s o ≡ pure o' → mutate_wallet lib s o' ≡ pure o')
      × ((o o' : DiscordChannel)
          → mutate_discord_channel lib s o ≡ pure o'
          → mutate_discord_channel lib s o' ≡ pure o')
      × ((m : Microservice) (o o' : Service)
          → mutate_service lib s m o ≡ pure o'
          → mutate_service lib s m o' ≡ pure o')
      × ((o o' : Ingress) → mutate_ingress lib s o ≡ pure o' → mutate_ingress lib s o' ≡ pure o')
      × ((body : String) (o o' : ConfigMap)
          → mutate_config_map lib s body o ≡ pure o'
          → mutate_config_map lib s body o' ≡ pure o')
  mutations-again = (
    mutate_wallet-again, mutate_discord_channel-again, mutate_service-again, mutate_ingress-again,
    mutate_config_map-again,
  )
