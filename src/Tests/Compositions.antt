-- ===== src/Tests/Compositions.antt =====
-- The theorems on whole runs and on several components, at concrete inputs.
use shop_operator.Base.{
  ℕ, ◌<>◌, ◌+◌, ◌↔◌, len, String, ◌≡◌, ◌≢◌, refl, true, none, some, Bool, not, ◌==◌, ◌≤◌, ◌<◌, ◌-◌,
  All, List, [], ◌∷◌, arith, eq_iff,
}
use shop_operator.Kube.Objects.{Ingress, IngressRule, EnvVar, named}
use shop_operator.Kube.Prog.{ok}
use shop_operator.Kube.Journal.{journal}
use shop_operator.Kube.Monitor.{Safe}
use shop_operator.Discord.Controller as discord_controller
use shop_operator.Discord.Protocol.{Waits}
use shop_operator.Shop.Microservice.{ms_payment, ms_order}
use shop_operator.Shop.Secrets.{random_password}
use shop_operator.Shop.Secrets.Password.{source}
use shop_operator.Kube.Run.{run, logged}
use shop_operator.Shop.Controller as shop_controller
use shop_operator.Access.{manager_role}
use shop_operator.Api.{DiscordChannel, Wallet}
use shop_operator.Kube.Outcome.{Ensures}
use shop_operator.Shop.Reasons.{Explained}
use shop_operator.Shop.Reasons.Reconciling.{reconcile-Explained}
use shop_operator.Discord.Protocol.Deletion.{remains_after, remains_after_lem}
use shop_operator.Discord.Wire.{wired}
use shop_operator.Discord.Wire.Guarantees.{wire, Over, reconcile-wire}
use shop_operator.Manager.{
  Call, register, default_flags, main, outcome, get_config, new_manager, manager_options,
  wallet_registration, discord_channel_registration, shop_registration, add_healthz_check,
  add_readyz_check, start,
}
use shop_operator.Manager.Starting as starting
use shop_operator.Manager.Starting.{IsPrepared, main-Ends, main-IsPrepared}
use shop_operator.Shop.Secrets.Decoding.{decode_base64, random_password-decode}
use shop_operator.Shop.AppEnv.{shop_app_env, frontend_env, payment_env}
use shop_operator.Shop.AppEnv.Payout.{
  env_value, ledger, wallet_after, wallet_key, IsVerdict, payout_follows_shop,
}
use shop_operator.Shop.Children.{app_wallet}
use shop_operator.Shop.Reasons.Settling.{Settles, reconcile-Settles}
use shop_operator.Base.Text.{all_codes, decimal}
use shop_operator.Shop.Names.{service_resource_name}
use shop_operator.Shop.Names.Injective.{Member, here, there}
use shop_operator.Shop.Names.Labels.{IsLabel, is_label_char, service_resource_name-IsLabel_iff}
use shop_operator.Shop.Network.{app_ingress}
use shop_operator.Shop.Network.Routing.{Routes, app_ingress-Routes}
use shop_operator.Shop.Network.Addresses.{Misses, Listens, addresses-Listens}
use shop_operator.Discord.Controller.{store_webhook}
use shop_operator.Shop.Database.{Database}
use shop_operator.Tests.AtWork.{working, a_library_sound, working-IsAtWork}
use shop_operator.Tests.Cluster.{
  a_library, a_library-CreatesOrUpdates, a_library-SetsController, a_library-KeepsFinalizers,
  a_library-BuildsRequests, key, bot, an_error, a_shop, a_discord_channel,
}

has_id : (a_discord_channel "42" "9").status.channel_id ≢ ""
has_id = ground (arith, eq_iff "42" "")

reconcile-Explained_example :
    Ensures manager_role a_library
      (Explained a_library key)
      (shop_controller.reconcile a_library key)
      []
reconcile-Explained_example =
    reconcile-Explained a_library a_library-CreatesOrUpdates a_library-SetsController key

-- An object that is being deleted, with a channel.
abbrev a_leaving_channel : DiscordChannel
a_leaving_channel =
    let dc = a_discord_channel "42" "9" in
    record dc { metadata = record dc.metadata { deletion_timestamp = some 7 } }

remains_after_lem_example :
    (5 ≤ 2
      → remains_after a_library key bot "secret" an_error
          (record { object = some a_leaving_channel; channels = "42" ∷ "8" ∷ []; refusals = 2 })
          5
        ≡ record { object = some a_leaving_channel; channels = "42" ∷ "8" ∷ []; refusals = 2 - 5 })
    × (2 < 5
        → remains_after a_library key bot "secret" an_error
            (record { object = some a_leaving_channel; channels = "42" ∷ "8" ∷ []; refusals = 2 })
            5
          ≡ record { object = none; channels = "8" ∷ []; refusals = 0 })
remains_after_lem_example =
    remains_after_lem a_library key bot "secret" an_error a_library-KeepsFinalizers
      a_leaving_channel 7 refl refl has_id ("42" ∷ "8" ∷ []) 2 5

reconcile-wire_example :
    Safe
      (journal (wire a_library a_library-BuildsRequests "https://discord.com/api/v10" key bot))
      (Over a_library a_library-BuildsRequests "https://discord.com/api/v10" Waits)
      (discord_controller.reconcile (wired a_library "https://discord.com/api/v10" bot) key)
      []
reconcile-wire_example =
    reconcile-wire a_library a_library-BuildsRequests "https://discord.com/api/v10" key bot
      a_library-KeepsFinalizers

-- The call that fails is the registration of the second controller.
abbrev without_discord : Call → Bool
without_discord (register r) = not (r.named == "discordchannel")
without_discord _ = true

main-Ends_example :
    starting.Ends without_discord
      (get_config
        ∷ new_manager (manager_options default_flags)
        ∷ register wallet_registration
        ∷ register discord_channel_registration
        ∷ register shop_registration
        ∷ add_healthz_check "healthz"
        ∷ add_readyz_check "readyz"
        ∷ start
        ∷ [])
      (outcome without_discord (main default_flags))
main-Ends_example = main-Ends without_discord default_flags

main-IsPrepared_example :
    All (IsPrepared default_flags) (outcome without_discord (main default_flags)).0
main-IsPrepared_example = main-IsPrepared default_flags without_discord

random_password-decode_example :
    (password : String) × (run (source an_error (255 ∷ 0 ∷ 17 ∷ 200 ∷ [])) random_password tt
      ≡ (ok password, tt))
    × (decode_base64 password ≡ 255 ∷ 0 ∷ 17 ∷ 200 ∷ [])
random_password-decode_example =
    random_password-decode an_error (255 ∷ 0 ∷ 17 ∷ 200 ∷ [])
      (omega arith, (omega arith, (omega arith, (omega arith, tt))))

abbrev an_old_wallet : Wallet
an_old_wallet = record {
  metadata = named "shops" "shop-toys-wallet";
  spec = record { shop_ref = ""; address = "" };
  status = record { conditions = []; address = "stale"; ready = true };
}

payout_follows_shop_example :
    (env : List EnvVar) × (address : String) × (run
        (ledger a_library (wallet_key a_library a_shop))
        (shop_app_env a_library a_shop ms_payment [] "jwt")
        (wallet_after a_library
          (wallet_key a_library a_shop)
          (app_wallet a_library a_shop an_old_wallet)
          1)
      ≡ (
        ok env,
        wallet_after a_library
            (wallet_key a_library a_shop)
            (app_wallet a_library a_shop an_old_wallet)
            1,
      ))
    × (env_value "SHOP_WALLET_ADDRESS" env ≡ some address)
    × IsVerdict "0x52908400098527886E0F7030069857D2E4169EE7" address
payout_follows_shop_example = payout_follows_shop a_library a_shop an_old_wallet 0 [] "jwt"

reconcile-Settles_example :
    Settles a_library key a_shop.spec
      (logged working (shop_controller.reconcile a_library key) tt []).0
      (logged working (shop_controller.reconcile a_library key) tt []).1
reconcile-Settles_example =
    reconcile-Settles a_library key a_shop.spec a_library-CreatesOrUpdates a_library-SetsController
      a_library_sound working tt working-IsAtWork

service_resource_name-IsLabel_iff_example :
    IsLabel (service_resource_name a_shop ms_payment)
    ↔ ((all_codes is_label_char "toys" ≡ true) × (len "toys" + len "payment" ≤ 57))
service_resource_name-IsLabel_iff_example =
    service_resource_name-IsLabel_iff a_shop ms_payment (there (there here))

abbrev an_ingress : Ingress
an_ingress = record {
  metadata = named "shops" "shop-toys-ingress";
  ingress_class_name = none;
  rules = [];
}

app_ingress-Routes_example :
    (r : IngressRule) × ((app_ingress a_library a_shop an_ingress).rules ≡ r ∷ [])
    × Routes a_library a_shop r
app_ingress-Routes_example = app_ingress-Routes a_library a_shop an_ingress

addresses-Listens_example :
    ((v : EnvVar) → Member v (frontend_env a_library a_shop) → Misses a_library a_shop v)
    × ((address : String)
        → (url : String) × (port : ℕ) × (env_value "ORDER_SERVICE_URL"
              (payment_env a_library a_shop address)
            ≡ some url)
          × (url ≡ "http://" <> service_resource_name a_shop ms_order <> ":" <> decimal port)
          × Listens a_library a_shop ms_order port)
addresses-Listens_example = addresses-Listens a_library a_shop
