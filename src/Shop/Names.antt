-- ===== src/Shop/Names.antt =====
-- The names, labels and addresses of a Shop's objects (internal/controller/shop_controller.go).
pub mod Injective
pub mod Labels
use shop_operator.Base.{ℕ, String, ◌<>◌, List, [], ◌∷◌, ◌==◌, if◌then◌else◌}
use shop_operator.Base.Text.{StringMap, decimal, insert}
use shop_operator.Api.{Shop, availability_high}
use shop_operator.Kube.Library.{Library}
use shop_operator.Shop.Microservice.{Microservice, shop_domain}

unfoldable pub resource_name : Shop → String
resource_name shop = "shop-" <> shop.metadata.name

unfoldable pub service_resource_name : Shop → Microservice → String
unfolding resource_name
service_resource_name shop m = resource_name shop <> "-" <> m.name

unfoldable pub wallet_resource_name : Shop → String
unfolding resource_name
wallet_resource_name shop = resource_name shop <> "-wallet"

unfoldable pub discord_resource_name : Shop → String
unfolding resource_name
discord_resource_name shop = resource_name shop <> "-discord"

unfoldable pub ingress_resource_name : Shop → String
unfolding resource_name
ingress_resource_name shop = resource_name shop <> "-ingress"

-- `fmt.Sprintf("http://%s-%s:%d", …)`
unfoldable pub service_url : Shop → String → ℕ → String
unfolding resource_name
service_url shop name port = "http://" <> resource_name shop <> "-" <> name <> ":" <> decimal port

unfoldable pub shop_host : Library → Shop → String
unfolding shop_domain
shop_host lib shop = shop.metadata.name <> "." <> shop_domain lib

abbrev pub label_instance : String
label_instance = "app.kubernetes.io/instance"

abbrev pub label_component : String
label_component = "app.kubernetes.io/component"

unfoldable pub labels_for : Shop → StringMap String
labels_for shop =
    ("app.kubernetes.io/name", "shop")
    ∷ (label_instance, shop.metadata.name)
    ∷ ("app.kubernetes.io/managed-by", "shop-operator")
    ∷ []

unfoldable pub labels_for_component : Shop → String → StringMap String
unfolding labels_for insert
labels_for_component shop component = insert label_component component (labels_for shop)

abbrev pub replica_count_standard : ℕ
replica_count_standard = 2

abbrev pub replica_count_high : ℕ
replica_count_high = 3

unfoldable pub desired_replicas : String → ℕ
desired_replicas a = if a == availability_high then replica_count_high else replica_count_standard

-- The display name of a Shop, or its name where that is empty.
unfoldable pub display_name : Shop → String
display_name shop =
    if shop.spec.display_name == "" then shop.metadata.name else shop.spec.display_name

-- The label matchers of a Shop's pods in the queries of its dashboard and alerts.
unfoldable pub shop_metrics_scope : Shop → String
unfolding resource_name
shop_metrics_scope shop =
    "namespace=\""
    <> shop.metadata.namespace
    <> "\", pod=~\"^"
    <> resource_name shop
    <> "-(auth|order|payment|inventory)-.*\""
