-- ===== src/Shop/Microservice.antt =====
-- The microservices of a Shop and the settings of the operator's environment
-- (internal/controller/shop_controller.go).
use shop_operator.Base.{ℕ, String, Bool, true, false, List, [], ◌∷◌, ◌==◌, if◌then◌else◌}
use shop_operator.Kube.Library.{Library}

pub record Microservice : Type 0 where
  pub name : String
  pub env_var : String
  pub image : String
  pub port : ℕ
  pub ingress_path : String
  pub has_migrations : Bool
  pub has_metrics : Bool
  pub has_tracing : Bool

abbrev pub auth_service_name : String
auth_service_name = "auth"

abbrev pub payment_service_name : String
payment_service_name = "payment"

abbrev pub order_service_name : String
order_service_name = "order"

abbrev pub frontend_service_name : String
frontend_service_name = "frontend"

abbrev pub inventory_service_name : String
inventory_service_name = "inventory"

abbrev pub ms_auth : Microservice
ms_auth = record {
  name = auth_service_name;
  env_var = "SHOP_AUTH_IMAGE";
  image = "ghcr.io/devops-siit-master/shophub-auth-service:dev";
  port = 3000;
  ingress_path = "/auth-api";
  has_migrations = true;
  has_metrics = true;
  has_tracing = true;
}

abbrev pub ms_order : Microservice
ms_order = record {
  name = order_service_name;
  env_var = "SHOP_ORDER_IMAGE";
  image = "ghcr.io/devops-siit-master/shophub-order-service:dev";
  port = 3000;
  ingress_path = "/order-api";
  has_migrations = false;
  has_metrics = true;
  has_tracing = true;
}

abbrev pub ms_payment : Microservice
ms_payment = record {
  name = payment_service_name;
  env_var = "SHOP_PAYMENT_IMAGE";
  image = "ghcr.io/devops-siit-master/shophub-payment-service:dev";
  port = 3000;
  ingress_path = "/payment-api";
  has_migrations = false;
  has_metrics = true;
  has_tracing = true;
}

abbrev pub ms_inventory : Microservice
ms_inventory = record {
  name = inventory_service_name;
  env_var = "SHOP_INVENTORY_IMAGE";
  image = "ghcr.io/devops-siit-master/shophub-inventory-service:dev";
  port = 3000;
  ingress_path = "/inventory-api";
  has_migrations = false;
  has_metrics = true;
  has_tracing = true;
}

abbrev pub ms_frontend : Microservice
ms_frontend = record {
  name = frontend_service_name;
  env_var = "SHOP_FRONTEND_IMAGE";
  image = "ghcr.io/devops-siit-master/shophub-frontend:dev";
  port = 8080;
  ingress_path = "/";
  has_migrations = false;
  has_metrics = false;
  has_tracing = false;
}

abbrev pub shop_microservices : List Microservice
shop_microservices = ms_auth ∷ ms_order ∷ ms_payment ∷ ms_inventory ∷ ms_frontend ∷ []

module _ (lib : Library) where
  -- The value of a variable of the operator's environment, unless it is empty.
  abbrev env_or : String → String → String
  env_or name fallback = let value = lib.get_env name in if value == "" then fallback else value

  unfoldable pub microservice_image : Microservice → String
  microservice_image m = env_or m.env_var m.image

  unfoldable pub image_pull_policy : String
  image_pull_policy = env_or "SHOP_IMAGE_PULL_POLICY" "IfNotPresent"

  unfoldable pub shop_domain : String
  shop_domain = env_or "SHOP_INGRESS_DOMAIN" "localtest.me"

  unfoldable pub ingress_class_name : String
  ingress_class_name = env_or "SHOP_INGRESS_CLASS" "nginx"

  unfoldable pub redis_image : String
  redis_image = env_or "REDIS_IMAGE" "quay.io/opstree/redis:v7.0.15"

  unfoldable pub sepolia_rpc_url : String
  sepolia_rpc_url = env_or "SEPOLIA_RPC_URL" "https://sepolia.drpc.org"

  unfoldable pub usdt_address : String
  usdt_address = env_or "USDT_ADDRESS" ""

  unfoldable pub otel_endpoint : String
  otel_endpoint =
      env_or "TEMPO_OTLP_ENDPOINT" "http://tempo.observability.svc.cluster.local:4318/v1/traces"
