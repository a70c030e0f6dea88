-- ===== src/Shop/AppEnv.antt =====
-- `secretKeyRef`, `payoutAddress` and `shopAppEnv` of internal/controller/shop_controller.go
pub mod Payout
use shop_operator.Base.{String, ◌<>◌, none, some, List, [], ◌∷◌, ◌++◌, ◌==◌, if◌then◌else◌}
use shop_operator.Base.Text.{decimal}
use shop_operator.Api.{Shop, Wallet}
use shop_operator.Kube.Objects.{EnvVar, wallet}
use shop_operator.Kube.Prog.{Result, ok, err, get, M, request, pure, bind, ◌>>=◌}
use shop_operator.Kube.Library.{Library}
use shop_operator.Shop.Microservice.{
  Microservice, ms_order, auth_service_name, payment_service_name, order_service_name,
  frontend_service_name, inventory_service_name, otel_endpoint, usdt_address, sepolia_rpc_url,
}
use shop_operator.Shop.Names.{
  resource_name, service_resource_name, wallet_resource_name, discord_resource_name, service_url,
}

-- `{Name: …, Value: …}`
abbrev pub value : String → String → EnvVar
value name v = record { name = name; value = v; value_from = none }

-- `{Name: …, ValueFrom: secretKeyRef(…, …)}`
abbrev pub from_secret : String → String → String → EnvVar
from_secret name secret_name key = record {
  name = name;
  value = "";
  value_from = some (record { name = secret_name; key = key });
}

-- Any error of the read gives the empty text.
abbrev pub published_address : Result Wallet → M String
published_address (ok w) = pure w.status.address
published_address (err e) = pure ""

unfoldable pub payout_address : Shop → M String
unfolding wallet_resource_name
payout_address shop =
    bind
      (request (
        get wallet
          (record { namespace = shop.metadata.namespace; name = wallet_resource_name shop })))
      published_address

module _ (lib : Library) (shop : Shop) where
  unfoldable pub base_env : Microservice → List EnvVar
  unfolding discord_resource_name
  base_env m =
      value "SHOP_NAME" shop.metadata.name
      ∷ value "SERVICE_NAME" m.name
      ∷ value "SHOP_DISPLAY_NAME" shop.spec.display_name
      ∷ value "DATABASE_TYPE" shop.spec.database_type
      ∷ value "DISCORD_CHANNEL_REF" (discord_resource_name shop)
      ∷ value "PORT" (decimal m.port)
      ∷ []

  unfoldable pub tracing_env : Microservice → List EnvVar
  unfolding service_resource_name otel_endpoint
  tracing_env m =
      if m.has_tracing
      then value "OTEL_EXPORTER_OTLP_ENDPOINT" (otel_endpoint lib)
        ∷ value "OTEL_SERVICE_NAME" (service_resource_name shop m)
        ∷ value "OTEL_RESOURCE_ATTRIBUTES" ("shop.instance=" <> shop.metadata.name)
        ∷ []
      else []

  unfoldable pub frontend_env : List EnvVar
  unfolding resource_name
  frontend_env =
      value "AUTH_API_URL" ("http://" <> resource_name shop <> "-auth")
      ∷ value "VITE_ORDER_API" ("http://" <> resource_name shop <> "-order")
      ∷ value "VITE_PAYMENT_API" ("http://" <> resource_name shop <> "-payment")
      ∷ value "VITE_INVENTORY_API" ("http://" <> resource_name shop <> "-inventory")
      ∷ []

  unfoldable pub payment_env : String → List EnvVar
  unfolding wallet_resource_name service_url usdt_address sepolia_rpc_url
  payment_env address =
      value "WALLET_REF" (wallet_resource_name shop)
      ∷ value "SHOP_WALLET_ADDRESS" address
      ∷ value "ORDER_SERVICE_URL" (service_url shop order_service_name ms_order.port)
      ∷ value "USDT_ADDRESS" (usdt_address lib)
      ∷ value "SEPOLIA_RPC_URL" (sepolia_rpc_url lib)
      ∷ []

  -- The switch on the service's name.
  unfoldable pub service_env : Microservice → List EnvVar → String → M (List EnvVar)
  unfolding frontend_env payment_env payout_address
  service_env m db_env auth_secret_name =
      if m.name == frontend_service_name
      then pure frontend_env
      else if m.name == payment_service_name
      then payout_address shop >>= (λ address. pure (payment_env address ++ db_env))
      else if m.name == auth_service_name
      then pure (
          from_secret "JWT_ACCESS_SECRET" auth_secret_name "access"
          ∷ from_secret "JWT_REFRESH_SECRET" auth_secret_name "refresh"
          ∷ db_env)
      else if m.name == order_service_name
      then pure db_env
      else if m.name == inventory_service_name
      then pure (from_secret "JWT_ACCESS_SECRET" auth_secret_name "access" ∷ db_env)
      else pure []

  unfoldable pub shop_app_env : Microservice → List EnvVar → String → M (List EnvVar)
  unfolding base_env tracing_env service_env
  shop_app_env m db_env auth_secret_name = service_env m db_env auth_secret_name >>= λ specific.
      pure (base_env m ++ (tracing_env m ++ specific))
