-- ===== src/Shop/Monitoring.antt =====
-- `reconcileServiceMonitor` of internal/controller/shop_controller.go, and the alert rules and
-- their routing of internal/controller/shop_alerts.go
pub mod Selection
pub mod Webhook
use shop_operator.Base.{String, ◌<>◌, List, [], ◌∷◌, map, if◌then◌else◌}
use shop_operator.Base.Text.{StringMap, insert}
use shop_operator.Api.{Shop, ObjectMeta}
use shop_operator.Kube.Json.{Json, text, arr, obj}
use shop_operator.Kube.Objects.{GroupVersionKind, Unstructured, Secret, custom, secret, shop}
use shop_operator.Kube.Prog.{
  is_not_found, is_no_match, Result, ok, err, get, M, request, pure, fail, lift, bind, ◌>>=◌,
}
use shop_operator.Kube.Library.{Library}
use shop_operator.Shop.Microservice.{Microservice, shop_microservices}
use shop_operator.Shop.Names.{
  resource_name, discord_resource_name, labels_for, label_instance, label_component, display_name,
  shop_metrics_scope,
}
use shop_operator.Shop.Workload.{http_port_name}
use shop_operator.Shop.Database.{blank}

abbrev pub monitoring_kind : String → String → GroupVersionKind
monitoring_kind version kind = record {
  group = "monitoring.coreos.com";
  version = version;
  kind = kind;
}

abbrev pub service_monitor_kind : GroupVersionKind
service_monitor_kind = monitoring_kind "v1" "ServiceMonitor"

abbrev pub prometheus_rule_kind : GroupVersionKind
prometheus_rule_kind = monitoring_kind "v1" "PrometheusRule"

abbrev pub alertmanager_config_kind : GroupVersionKind
alertmanager_config_kind = monitoring_kind "v1alpha1" "AlertmanagerConfig"

-- A CRD that is not installed is no error.
abbrev pub skip_missing_crd : {A : Type 0} → Result A → M (Unit {0})
skip_missing_crd (ok a) = pure tt
skip_missing_crd (err e) = if is_no_match e then pure tt else fail e

-- The names of the microservices with metrics.
unfoldable pub scraped_components : List Microservice → List String
scraped_components [] = []
scraped_components (m ∷ ms) =
    let rest = scraped_components ms in if m.has_metrics then m.name ∷ rest else rest

-- The labels of an object of the monitoring stack.
unfoldable pub release_labels : Shop → StringMap String
unfolding labels_for insert
release_labels s = insert "release" "kube-prometheus-stack" (labels_for s)

unfoldable pub service_monitor_spec : Shop → List String → Json
service_monitor_spec s components = obj (
    (
      "selector",
      obj (
          ("matchLabels", obj ((label_instance, text s.metadata.name) ∷ []))
          ∷ (
            "matchExpressions",
            arr (
                obj (
                  ("key", text label_component)
                  ∷ ("operator", text "In")
                  ∷ ("values", arr (map text components))
                  ∷ [])
                ∷ []),
          )
          ∷ []),
    )
    ∷ (
      "endpoints",
      arr (
          obj (
            ("port", text http_port_name)
            ∷ ("path", text "/metrics")
            ∷ ("interval", text "30s")
            ∷ [])
          ∷ []),
    )
    ∷ [])

unfoldable pub shop_alert_rule :
    (name expr for_duration severity shop_name summary description : String) → Json
shop_alert_rule name expr for_duration severity shop_name summary description = obj (
    ("alert", text name)
    ∷ ("expr", text expr)
    ∷ ("for", text for_duration)
    ∷ ("labels", obj (("severity", text severity) ∷ ("shop", text shop_name) ∷ []))
    ∷ ("annotations", obj (("summary", text summary) ∷ ("description", text description) ∷ []))
    ∷ [])

unfoldable pub shop_alert_rules : Shop → List Json
unfolding shop_alert_rule shop_metrics_scope display_name
shop_alert_rules s =
    let scope = shop_metrics_scope s in
    let title = display_name s in
    shop_alert_rule "ShopHighErrorRate"
      ("sum(rate(http_requests_total{" <> scope
        <> ", status_code=~\"5..\"}[5m])) / sum(rate(http_requests_total{" <> scope
        <> "}[5m])) > 0.05")
      "5m" "warning" s.metadata.name (title <> ": high 5xx error rate")
      ("Shop " <> title <> " has had a 5xx error rate above 5% for 5 minutes.")
    ∷ shop_alert_rule "ShopPodCrashLooping"
        ("increase(kube_pod_container_status_restarts_total{" <> scope <> "}[15m]) > 3") "5m"
        "critical" s.metadata.name (title <> ": pod is crash-looping")
        ("A pod belonging to Shop " <> title
          <> " has restarted more than 3 times in the last 15 minutes.")
    ∷ []

unfoldable pub alert_route : Shop → String → Json
alert_route s receiver = obj (
    ("receiver", text receiver)
    ∷ ("groupBy", arr (text "alertname" ∷ []))
    ∷ ("groupWait", text "30s")
    ∷ ("groupInterval", text "5m")
    ∷ ("repeatInterval", text "4h")
    ∷ ("matchers", arr (obj (("name", text "shop") ∷ ("value", text s.metadata.name) ∷ []) ∷ []))
    ∷ [])

unfoldable pub alert_receivers : String → String → Json
alert_receivers receiver webhook_secret_name = arr (
    obj (
      ("name", text receiver)
      ∷ (
        "discordConfigs",
        arr (
            obj
              (("apiURL", obj (("name", text webhook_secret_name) ∷ ("key", text "url") ∷ [])) ∷ [])
            ∷ []),
      )
      ∷ [])
    ∷ [])

module _ (lib : Library) (s : Shop) where
  -- Labels and body set, and the Shop named as the owner.
  abbrev pub finish_custom : StringMap String → Unstructured → Json → M Unstructured
  finish_custom labels o body =
      let labelled : ObjectMeta = record o.metadata { labels = labels } in
      lift (lib.set_controller_reference shop s.metadata labelled) >>= λ owned.
      pure (record { metadata = owned; body = body })

  unfoldable pub mutate_service_monitor : Unstructured → M Unstructured
  unfolding release_labels service_monitor_spec scraped_components
  mutate_service_monitor o =
      lift (
        lib.set_nested_field o.body (service_monitor_spec s (scraped_components shop_microservices))
          ("spec" ∷ []))
      >>= finish_custom (release_labels s) o

  -- Some microservice has metrics, so that the early return for none is never taken.
  unfoldable pub reconcile_service_monitor : M (Unit {0})
  unfolding resource_name mutate_service_monitor scraped_components
  reconcile_service_monitor = elim (scraped_components shop_microservices) [
    | [] ↦ pure tt
    | _ ∷ _ ↦
        bind
          (lib.create_or_update (custom service_monitor_kind)
            (blank s.metadata.namespace (resource_name s <> "-metrics")) mutate_service_monitor)
          skip_missing_crd
  ]

  unfoldable pub mutate_prometheus_rule : Unstructured → M Unstructured
  unfolding release_labels shop_alert_rules
  mutate_prometheus_rule o =
      lift (
        lib.set_nested_field o.body
          (arr (obj (("name", text "shop.rules") ∷ ("rules", arr (shop_alert_rules s)) ∷ []) ∷ []))
          ("spec" ∷ "groups" ∷ []))
      >>= finish_custom (release_labels s) o

  unfoldable pub reconcile_prometheus_rule : M (Unit {0})
  unfolding resource_name mutate_prometheus_rule
  reconcile_prometheus_rule =
      bind
        (lib.create_or_update (custom prometheus_rule_kind)
          (blank s.metadata.namespace (resource_name s <> "-alerts")) mutate_prometheus_rule)
        skip_missing_crd

  unfoldable pub mutate_alertmanager_config : String → String → Unstructured → M Unstructured
  unfolding labels_for alert_route alert_receivers
  mutate_alertmanager_config receiver webhook_secret_name o =
      lift (lib.set_nested_field o.body (alert_route s receiver) ("spec" ∷ "route" ∷ []))
      >>= λ routed.
          lift (
            lib.set_nested_field routed (alert_receivers receiver webhook_secret_name)
              ("spec" ∷ "receivers" ∷ []))
          >>= finish_custom (labels_for s) o

  -- With the Secret of the webhook at hand.
  abbrev pub route_alerts : String → Result Secret → M (Unit {0})
  route_alerts webhook_secret_name (err e) = if is_not_found e then pure tt else fail e
  route_alerts webhook_secret_name (ok found) =
      bind
        (lib.create_or_update (custom alertmanager_config_kind)
          (blank s.metadata.namespace (resource_name s <> "-alert-routing"))
          (mutate_alertmanager_config ("discord-" <> resource_name s) webhook_secret_name))
        skip_missing_crd

  unfoldable pub reconcile_alertmanager_config : M (Unit {0})
  unfolding resource_name discord_resource_name mutate_alertmanager_config
  reconcile_alertmanager_config =
      let webhook_secret_name = discord_resource_name s <> "-webhook" in
      bind
        (request
          (get secret (record { namespace = s.metadata.namespace; name = webhook_secret_name })))
        (route_alerts webhook_secret_name)
