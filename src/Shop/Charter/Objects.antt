-- ===== src/Shop/Charter/Objects.antt =====
-- The Wallet, the DiscordChannel, the Services, the Ingress and the dashboard of a Shop.
use shop_operator.Base.{◌<>◌, refl}
use shop_operator.Api.{Shop}
use shop_operator.Kube.Objects.{Key, wallet, discord_channel, service, ingress}
use shop_operator.Kube.Journal.{Journal, Happened, journal, OnOk, Safe-then}
use shop_operator.Kube.Lawful.{CreatesOrUpdates}
use shop_operator.Kube.Library.{Library}
use shop_operator.Kube.Monitor.{Safe}
use shop_operator.Shop.Microservice.{Microservice}
use shop_operator.Shop.Network.{reconcile_service, reconcile_ingress, app_service, app_ingress}
use shop_operator.Shop.Children.{
  reconcile_wallet, reconcile_discord_channel, app_wallet, app_discord_channel,
}
use shop_operator.Shop.Charter.{Answered, charter}
use shop_operator.Shop.Charter.Owning.{Any, own-Safe}

module _ (lib : Library) (cu : CreatesOrUpdates lib) (key : Key) (s : Shop) (l : Journal)
    (held : Happened (Answered lib key s) l) where
  pub reconcile_wallet-Safe : Safe (journal (charter lib key)) (OnOk Any) (reconcile_wallet lib s) l
  unfolding reconcile_wallet
  reconcile_wallet-Safe =
      Safe-then (charter lib key) _ _ Any Any l
        (own-Safe lib key s cu wallet _ (app_wallet lib s) (λ x m. record x { metadata = m })
          (λ x m. refl) (λ x m e. (refl, refl)) (λ x l'. tt) tt refl ("-wallet", refl) l held)
        (λ a l' later m. tt)

  pub reconcile_discord_channel-Safe :
      Safe (journal (charter lib key)) (OnOk Any) (reconcile_discord_channel lib s) l
  unfolding reconcile_discord_channel
  reconcile_discord_channel-Safe =
      Safe-then (charter lib key) _ _ Any Any l
        (own-Safe lib key s cu discord_channel _ (app_discord_channel lib s)
          (λ x m. record x { metadata = m }) (λ x m. refl) (λ x m e. (refl, refl)) (λ x l'. tt) tt
          refl ("-discord", refl) l held)
        (λ a l' later m. tt)

  pub reconcile_service-Safe :
      (m : Microservice) → Safe (journal (charter lib key)) (OnOk Any) (reconcile_service lib s m) l
  unfolding reconcile_service
  reconcile_service-Safe m =
      Safe-then (charter lib key) _ _ Any Any l
        (own-Safe lib key s cu service _ (app_service lib s m) (λ x o. record x { metadata = o })
          (λ x o. refl) (λ x o e. (m, e, refl)) (λ x l'. tt) tt refl ("-" <> m.name, refl) l held)
        (λ a l' later x. tt)

  pub reconcile_ingress-Safe :
      Safe (journal (charter lib key)) (OnOk Any) (reconcile_ingress lib s) l
  unfolding reconcile_ingress
  reconcile_ingress-Safe =
      Safe-then (charter lib key) _ _ Any Any l
        (own-Safe lib key s cu ingress _ (app_ingress lib s) (λ x m. record x { metadata = m })
          (λ x m. refl) (λ x m e. tt) (λ x l'. tt) tt refl ("-ingress", refl) l held)
        (λ a l' later m. tt)
