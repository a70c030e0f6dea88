-- ===== src/Tests/Examples.antt =====
-- The theorems at concrete inputs.
use shop_operator.Base.{
  ℕ, zero, suc, ◌*◌, ◌%◌, ap, String, ◌<>◌, ◌≡◌, ◌≢◌, refl, ◌↔◌, inl, true, none, List, [], ◌∷◌,
  arith, length, map, eq_iff,
}
use shop_operator.Base.Text.{all_codes}
use shop_operator.Kube.Json.{Json, text, number, obj}
use shop_operator.Kube.Objects.{shop, Service, named, discord_channel, secret}
use shop_operator.Kube.Prog.{Reason, ok, err, get}
use shop_operator.Kube.Journal.{Journal, Happened, now, journal, OnOk}
use shop_operator.Kube.Monitor.{Safe}
use shop_operator.Wallet.Address.{is_valid_address, IsAddress, is_valid_address_iff}
use shop_operator.Wallet.Publishing.{publisher, Ended, unseen, reconcile-IsPublished}
use shop_operator.Wallet.Controller as wallet_controller
use shop_operator.Discord.ChannelName.{sanitize_discord_channel_name}
use shop_operator.Discord.ChannelName.Laws.{
  IsChannelName, sanitize_discord_channel_name-IsChannelName, sanitize_discord_channel_name_fixed,
}
use shop_operator.Discord.Client.{api_create_channel, api_create_webhook, api_delete_channel}
use shop_operator.Discord.Client.Requests.{
  sends, IsDelete, Reports, Deleted, api_delete_channel-Safe,
}
use shop_operator.Discord.Client.Creation.{
  IsPost, Creates, channel_fields, webhook_fields, api_create_channel-Safe, api_create_webhook-Safe,
}
use shop_operator.Discord.Controller as discord_controller
use shop_operator.Discord.Protocol.{controller, protocol, start, Waits}
use shop_operator.Discord.Protocol.Guarantees.{reconcile-Safe}
use shop_operator.Discord.Protocol.Outage.{channels_after, length-channels_after}
use shop_operator.Discord.Protocol.Resting.{Rests, reconcile-Rests}
use shop_operator.Discord.Protocol.Recovery.{IsSettled, world_after, world_after-IsSettled}
use shop_operator.Shop.Microservice.{ms_order, shop_microservices}
use shop_operator.Shop.Names.{desired_replicas}
use shop_operator.Shop.Names.Injective.{Member, here, there, service_resource_name_inj}
use shop_operator.Shop.Secrets.{random_password}
use shop_operator.Shop.Secrets.Password.{IsSymbols, reader, random_password-IsSymbols}
use shop_operator.Kube.Run.{Handler, run, logged}
use shop_operator.Shop.Database.{reconcile_database}
use shop_operator.Shop.Workload.{reconcile_deployment, reconcile_migration_job}
use shop_operator.Shop.Monitoring.{
  service_monitor_spec, scraped_components, alert_route, shop_alert_rules,
}
use shop_operator.Shop.Monitoring.Selection.{
  selects_service, matches, selects-service_monitor_spec_iff, matches-alert_route_iff,
}
use shop_operator.Api.{Shop}
use shop_operator.Shop.Network.{app_service}
use shop_operator.Shop.Dashboard.{dashboard_panels}
use shop_operator.Shop.Dashboard.Layout.{Laid, place, dashboard_panels-Laid}
use shop_operator.Shop.Controller as shop_controller
use shop_operator.Shop.Charter.{Answered, Serves, charter}
use shop_operator.Shop.Reasons.DatabaseStates.{bounds, Showing, reconcile_database-Showing}
use shop_operator.Shop.Charter.Migrations.{Tells, reconcile_migration_job-Safe}
use shop_operator.Shop.Charter.Workloads.{reconcile_deployment-Safe}
use shop_operator.Shop.Charter.Reconciling.{Ends, reconcile_keeps_charter}
use shop_operator.Tests.Cluster.{
  a_library, a_library-CreatesOrUpdates, a_library-SetsController, a_library-KeepsFinalizers,
  a_library-BuildsRequests, key, bot, an_error, a_shop, a_discord_channel, a_library-signs, a_world,
  a_world-IsNew,
}

is_valid_address_iff_example :
    (is_valid_address "0x52908400098527886E0F7030069857D2E4169EE7" ≡ true)
    ↔ IsAddress "0x52908400098527886E0F7030069857D2E4169EE7"
is_valid_address_iff_example = is_valid_address_iff "0x52908400098527886E0F7030069857D2E4169EE7"

reconcile-IsPublished_example :
    Safe (publisher key) Ended (wallet_controller.reconcile a_library key) unseen
reconcile-IsPublished_example = reconcile-IsPublished a_library key

sanitize_discord_channel_name-IsChannelName_example :
    IsChannelName (sanitize_discord_channel_name a_library "Alice & Bob")
sanitize_discord_channel_name-IsChannelName_example =
    sanitize_discord_channel_name-IsChannelName a_library "Alice & Bob"

toys-IsChannelName : IsChannelName "toys-4_kids"
unfolding all_codes
toys-IsChannelName = record {
  characters = refl;
  nonempty = ground (arith, eq_iff "toys-4_kids" "");
  short = omega arith;
}

sanitize_discord_channel_name_fixed_example :
    sanitize_discord_channel_name a_library "toys-4_kids" ≡ "toys-4_kids"
sanitize_discord_channel_name_fixed_example =
    sanitize_discord_channel_name_fixed a_library "toys-4_kids" (λ c h. refl) toys-IsChannelName

abbrev api : String
api = "https://discord.com/api/v10"

api_delete_channel-Safe_example :
    Safe
      (sends (IsDelete api "secret" "42"))
      (Reports Deleted)
      (api_delete_channel a_library api "secret" "42")
      none
api_delete_channel-Safe_example =
    api_delete_channel-Safe a_library a_library-BuildsRequests api "secret" "42"

api_create_channel-Safe_example :
    Safe
      (sends (
        IsPost a_library a_library-BuildsRequests api "secret" ("/guilds/" <> "7" <> "/channels") (
          obj (
            ("name", text (sanitize_discord_channel_name a_library "toys"))
            ∷ ("type", number 0)
            ∷ []))))
      (Creates a_library 201 ("id" ∷ []) channel_fields)
      (api_create_channel a_library api "secret" "7" "toys")
      none
api_create_channel-Safe_example =
    api_create_channel-Safe a_library a_library-BuildsRequests api "secret" "7" "toys"

api_create_webhook-Safe_example :
    Safe
      (sends (
        IsPost a_library a_library-BuildsRequests api "secret"
          ("/channels/" <> "42" <> "/webhooks")
          (obj (("name", text "toys") ∷ []))))
      (Creates a_library 200 ("id" ∷ "url" ∷ "token" ∷ []) webhook_fields)
      (api_create_webhook a_library api "secret" "42" "toys")
      none
api_create_webhook-Safe_example =
    api_create_webhook-Safe a_library a_library-BuildsRequests api "secret" "42" "toys"

reconcile-Safe_example :
    Safe
      (protocol a_library key bot)
      Waits
      (discord_controller.reconcile (controller a_library bot) key)
      start
reconcile-Safe_example = reconcile-Safe a_library a_library-KeepsFinalizers key bot

has_webhook : (a_discord_channel "42" "9").status.webhook_id ≢ ""
has_webhook = ground (arith, eq_iff "9" "")

-- A server that holds the object and no Secret, and refuses every write.
abbrev without_secret : Handler (Unit {0})
without_secret (get discord_channel k) w = (ok (a_discord_channel "42" "9"), w)
without_secret (get secret k) w = (err (record { reason = Reason.not_found; text = "" }), w)
without_secret _ w = (err an_error, w)

reconcile-Rests_example :
    Rests
      (controller a_library bot)
      key
      (a_discord_channel "42" "9")
      (logged without_secret (discord_controller.reconcile (controller a_library bot) key) tt [])
reconcile-Rests_example =
    reconcile-Rests (controller a_library bot) key (a_discord_channel "42" "9") refl refl
      has_webhook without_secret tt refl

length-channels_after_example :
    length (channels_after (a_discord_channel "" "") "secret" "42" an_error a_library bot key 3) ≡ 3
length-channels_after_example =
    length-channels_after (a_discord_channel "" "") "secret" "42" an_error a_library bot key refl
      refl refl refl 3

service_resource_name_inj_example :
    (a_shop.metadata.name ≡ a_shop.metadata.name) × (ms_order ≡ ms_order)
service_resource_name_inj_example =
    service_resource_name_inj a_shop a_shop ms_order ms_order (there here) (there here) refl

-- The first of a list of alerts.
head_or_text : List Json → Json
head_or_text [] = text ""
head_or_text (r ∷ rs) = r

-- The journal after the Shop was read.
abbrev read : Journal
read = (get shop key, ok a_shop) ∷ []

held : Happened (Answered a_library key a_shop) read
held = now (inl refl)

reconcile_database-Showing_example :
    Safe
      (journal (bounds a_library key))
      (Showing a_library key a_shop)
      (reconcile_database a_library a_shop)
      read
reconcile_database-Showing_example =
    reconcile_database-Showing a_library key a_shop a_library-CreatesOrUpdates
      a_library-SetsController read held

reconcile_migration_job-Safe_example :
    Safe
      (journal (charter a_library key))
      (OnOk (Tells a_library a_library-SetsController key a_shop ms_order [] "shop-toys-auth-jwt"))
      (reconcile_migration_job a_library a_shop ms_order [] "shop-toys-auth-jwt")
      read
reconcile_migration_job-Safe_example =
    reconcile_migration_job-Safe a_library a_library-SetsController key a_shop ms_order []
      "shop-toys-auth-jwt" read held

reconcile_deployment-Safe_example :
    Safe
      (journal (charter a_library key))
      (OnOk (λ d l. Happened (Serves a_library key a_shop ms_order d.ready_replicas) l))
      (reconcile_deployment a_library a_shop ms_order
        (desired_replicas a_shop.spec.availability)
        []
        "shop-toys-auth-jwt")
      read
reconcile_deployment-Safe_example =
    reconcile_deployment-Safe a_library a_library-CreatesOrUpdates key a_shop ms_order []
      "shop-toys-auth-jwt" read held

reconcile_keeps_charter_example :
    Safe
      (journal (charter a_library key))
      (OnOk (Ends key))
      (shop_controller.reconcile a_library key)
      []
reconcile_keeps_charter_example =
    reconcile_keeps_charter a_library a_library-CreatesOrUpdates a_library-SetsController key

has_id : (a_discord_channel "42" "9").status.channel_id ≢ ""
has_id = ground (arith, eq_iff "42" "")

world_after-IsSettled_example :
    IsSettled a_library key bot "secret" "42"
      ("9", "t")
      an_error
      (world_after a_library key bot "secret" "42" ("9", "t") an_error a_world 3)
world_after-IsSettled_example =
    world_after-IsSettled a_library key bot "secret" "42" ("9", "t") an_error
      a_library-KeepsFinalizers a_library-signs a_world a_world-IsNew has_id has_webhook 2

-- A Shop of the same name in another namespace, and a Service there.
abbrev elsewhere : Shop
elsewhere = record a_shop { metadata = record a_shop.metadata { namespace = "other" } }

abbrev a_service : Service
a_service = record {
  metadata = named "other" "shop-toys-order";
  selector = [];
  type = "";
  ports = [];
}

selects-service_monitor_spec_iff_example :
    (selects_service
        (named "shops" "shop-toys-metrics")
        (service_monitor_spec a_shop (scraped_components shop_microservices))
        (app_service a_library elsewhere ms_order a_service).metadata
      ≡ true)
    ↔ ((elsewhere.metadata.namespace ≡ a_shop.metadata.namespace)
        × ((a_shop.metadata.name ≡ a_shop.metadata.name) × (ms_order.has_metrics ≡ true)))
selects-service_monitor_spec_iff_example =
    selects-service_monitor_spec_iff a_library a_shop elsewhere ms_order
      (named "shops" "shop-toys-metrics") a_service (there here) refl refl

an_alert_is_there : Member (head_or_text (shop_alert_rules a_shop)) (shop_alert_rules a_shop)
unfolding head_or_text shop_alert_rules
an_alert_is_there = here

matches-alert_route_iff_example :
    (matches (alert_route a_shop "discord-shop-toys") (head_or_text (shop_alert_rules a_shop))
      ≡ true)
    ↔ (a_shop.metadata.name ≡ a_shop.metadata.name)
matches-alert_route_iff_example =
    matches-alert_route_iff a_shop a_shop "discord-shop-toys"
      (head_or_text (shop_alert_rules a_shop)) an_alert_is_there

dashboard_panels-Laid_example : Laid (map place (dashboard_panels a_shop))
dashboard_panels-Laid_example = dashboard_panels-Laid a_shop

-- As many bytes as are asked for.
abbrev some_bytes : ℕ → List ℕ
some_bytes zero = []
some_bytes (suc n) = n * 37 % 256 ∷ some_bytes n

length-some_bytes : (n : ℕ) → length (some_bytes n) ≡ n
length-some_bytes zero = refl
length-some_bytes (suc n) = ap (λ (k : ℕ). suc k) (length-some_bytes n)

random_password-IsSymbols_example :
    (password : String) × (run (reader an_error some_bytes) random_password tt ≡ (ok password, tt))
    × IsSymbols 32 password
random_password-IsSymbols_example = random_password-IsSymbols an_error some_bytes length-some_bytes
