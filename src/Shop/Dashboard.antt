-- ===== src/Shop/Dashboard.antt =====
-- internal/controller/shop_dashboard.go, and `reconcileGrafanaDashboard` of
-- internal/controller/shop_controller.go
pub mod Layout
use Prim.Native.String.{slice}
use shop_operator.Base.{ℕ, ◌+◌, String, ◌<>◌, true, false, List, [], ◌∷◌, ◌++◌, ◌==◌, if◌then◌else◌}
use shop_operator.Base.Text.{insert}
use shop_operator.Api.{Shop}
use shop_operator.Kube.Json.{Json, text, number, flag, arr, obj}
use shop_operator.Kube.Objects.{ConfigMap, config_map, shop, named}
use shop_operator.Kube.Prog.{M, pure, lift, ◌>>=◌, ◌>>◌}
use shop_operator.Kube.Library.{Library}
use shop_operator.Shop.Names.{resource_name, labels_for, display_name, shop_metrics_scope}

abbrev grafana_datasource_ref : Json
grafana_datasource_ref = obj (("type", text "prometheus") ∷ ("uid", text "${datasource}") ∷ [])

abbrev loki_datasource_ref : Json
loki_datasource_ref = obj (("type", text "loki") ∷ ("uid", text "loki") ∷ [])

abbrev tempo_datasource_ref : Json
tempo_datasource_ref = obj (("type", text "tempo") ∷ ("uid", text "tempo") ∷ [])

-- The fields of `dashboardTarget`.
abbrev target_fields : String → String → String → List (String × Json)
target_fields expr ref_id legend =
    ("datasource", grafana_datasource_ref)
    ∷ ("expr", text expr)
    ∷ ("refId", text ref_id)
    ∷ (if legend == "" then [] else ("legendFormat", text legend) ∷ [])

abbrev pub grid_pos : (x y w h : ℕ) → Json
grid_pos x y w h = obj (("x", number x) ∷ ("y", number y) ∷ ("w", number w) ∷ ("h", number h) ∷ [])

abbrev or_short : String → String
or_short unit = if unit == "" then "short" else unit

abbrev field_config : String → Json
field_config unit =
    obj (("defaults", obj (("unit", text (or_short unit)) ∷ [])) ∷ ("overrides", arr []) ∷ [])

unfoldable pub dashboard_stat : (id : ℕ) (title expr : String) (x : ℕ) (unit : String) → Json
dashboard_stat id title expr x unit = obj (
    ("id", number id)
    ∷ ("type", text "stat")
    ∷ ("title", text title)
    ∷ ("gridPos", grid_pos x 0 4 4)
    ∷ ("datasource", grafana_datasource_ref)
    ∷ ("fieldConfig", field_config unit)
    ∷ ("targets", arr (obj (target_fields expr "A" "") ∷ []))
    ∷ [])

unfoldable pub dashboard_table : (id : ℕ) (title expr : String) (y : ℕ) → Json
dashboard_table id title expr y = obj (
    ("id", number id)
    ∷ ("type", text "table")
    ∷ ("title", text title)
    ∷ ("gridPos", grid_pos 0 y 24 8)
    ∷ ("datasource", grafana_datasource_ref)
    ∷ (
      "targets",
      arr (
          obj (target_fields expr "A" "" ++ ("format", text "table") ∷ ("instant", flag true) ∷ [])
          ∷ []),
    )
    ∷ [])

pub record DashboardSeries : Type 0 where
  pub expr : String
  pub legend : String

-- `string(rune('A'+i))` for the first 26 series
abbrev series_ref : ℕ → String
series_ref i = slice "ABCDEFGHIJKLMNOPQRSTUVWXYZ" i (i + 1)

abbrev series_targets : ℕ → List DashboardSeries → List Json
series_targets i [] = []
series_targets i (s ∷ ss) =
    obj (target_fields s.expr (series_ref i) s.legend) ∷ series_targets (i + 1) ss

unfoldable pub dashboard_timeseries :
    (id : ℕ) (title : String) → List DashboardSeries → (x y w : ℕ) (unit : String) → Json
dashboard_timeseries id title series x y w unit = obj (
    ("id", number id)
    ∷ ("type", text "timeseries")
    ∷ ("title", text title)
    ∷ ("gridPos", grid_pos x y w 8)
    ∷ ("datasource", grafana_datasource_ref)
    ∷ ("fieldConfig", field_config unit)
    ∷ ("targets", arr (series_targets 0 series))
    ∷ [])

unfoldable pub dashboard_logs : (id : ℕ) (title expr : String) (y : ℕ) → Json
dashboard_logs id title expr y = obj (
    ("id", number id)
    ∷ ("type", text "logs")
    ∷ ("title", text title)
    ∷ ("gridPos", grid_pos 0 y 24 10)
    ∷ ("datasource", loki_datasource_ref)
    ∷ (
      "options",
      obj (
          ("showTime", flag true)
          ∷ ("wrapLogMessage", flag true)
          ∷ ("enableLogDetails", flag true)
          ∷ ("dedupStrategy", text "none")
          ∷ ("sortOrder", text "Descending")
          ∷ []),
    )
    ∷ (
      "targets",
      arr (
          obj (
            ("datasource", loki_datasource_ref)
            ∷ ("expr", text expr)
            ∷ ("refId", text "A")
            ∷ ("queryType", text "range")
            ∷ [])
          ∷ []),
    )
    ∷ [])

unfoldable pub dashboard_traces : (id : ℕ) (title query : String) (y : ℕ) → Json
dashboard_traces id title query y = obj (
    ("id", number id)
    ∷ ("type", text "table")
    ∷ ("title", text title)
    ∷ ("gridPos", grid_pos 0 y 24 8)
    ∷ ("datasource", tempo_datasource_ref)
    ∷ (
      "targets",
      arr (
          obj (
            ("datasource", tempo_datasource_ref)
            ∷ ("queryType", text "traceql")
            ∷ ("query", text query)
            ∷ ("refId", text "A")
            ∷ ("limit", number 20)
            ∷ ("tableType", text "traces")
            ∷ [])
          ∷ []),
    )
    ∷ [])

abbrev series : String → String → DashboardSeries
series expr legend = record { expr = expr; legend = legend }

-- The list `panels` of `buildShopDashboardJSON`.
unfoldable pub dashboard_panels : Shop → List Json
unfolding dashboard_stat dashboard_table dashboard_timeseries dashboard_logs dashboard_traces
    shop_metrics_scope resource_name
dashboard_panels s =
    let scope = shop_metrics_scope s in
    dashboard_stat 1 "Total requests (24h)"
      ("sum(increase(http_requests_total{" <> scope <> "}[24h]))") 0 ""
    ∷ dashboard_stat 2 "Successful (2xx/3xx, 24h)"
        ("sum(increase(http_requests_total{" <> scope <> ", status_code=~\"2..|3..\"}[24h]))") 4 ""
    ∷ dashboard_stat 3 "Failed (4xx/5xx, 24h)"
        ("sum(increase(http_requests_total{" <> scope <> ", status_code=~\"4..|5..\"}[24h]))") 8 ""
    ∷ dashboard_stat 4 "Unique visitors (24h, order+payment only)"
        ("sum(increase(unique_visitors_total{" <> scope <> "}[24h]))") 12 ""
    ∷ dashboard_stat 5 "Total traffic (GB, 24h, order+payment only)"
        ("sum(increase(http_response_size_bytes_total{" <> scope <> "}[24h])) / 1024/1024/1024") 16
        "decgbytes"
    ∷ dashboard_stat 6 "Pods running"
        ("count(kube_pod_status_phase{" <> scope <> ", phase=\"Running\"})") 20 ""
    ∷ dashboard_table 7 "Top 404 endpoints (24h)"
        ("topk(10, sum by (route) (increase(http_requests_total{" <> scope
          <> ", status_code=\"404\"}[24h])))")
        4
    ∷ dashboard_timeseries 8 "Request rate by service"
        (series ("sum by (job) (rate(http_requests_total{" <> scope <> "}[5m]))") "{{job}}" ∷ []) 0
        12 12 "reqps"
    ∷ dashboard_timeseries 9 "Error rate (5xx) by service"
        (series
            ("sum by (job) (rate(http_requests_total{" <> scope <> ", status_code=~\"5..\"}[5m]))")
            "{{job}}"
          ∷ [])
        12 12 12 "reqps"
    ∷ dashboard_timeseries 10 "CPU usage by pod"
        (series
            ("sum by (pod) (rate(container_cpu_usage_seconds_total{" <> scope
              <> ", container!=\"\", container!=\"POD\"}[5m]))")
            "{{pod}}"
          ∷ [])
        0 20 12 "short"
    ∷ dashboard_timeseries 11 "Memory usage by pod"
        (series
            ("sum by (pod) (container_memory_working_set_bytes{" <> scope
              <> ", container!=\"\", container!=\"POD\"})")
            "{{pod}}"
          ∷ [])
        12 20 12 "bytes"
    ∷ dashboard_timeseries 12 "Network I/O by pod"
        (series ("sum by (pod) (rate(container_network_receive_bytes_total{" <> scope <> "}[5m]))")
            "{{pod}} rx"
          ∷ series
              ("sum by (pod) (rate(container_network_transmit_bytes_total{" <> scope <> "}[5m]))")
              "{{pod}} tx"
          ∷ [])
        0 28 24 "Bps"
    ∷ dashboard_traces 13 "Recent traces (all services)"
        ("{resource.service.name=~\"" <> resource_name s <> "-.*\"}") 36
    ∷ dashboard_logs 14 "Logs (all services)"
        ("{namespace=\"" <> s.metadata.namespace <> "\", pod=~\"" <> resource_name s <> "-.*\"}") 44
    ∷ []

unfoldable pub shop_dashboard : Shop → Json
unfolding dashboard_panels display_name
shop_dashboard s = obj (
    ("uid", text ("shop-" <> s.metadata.name))
    ∷ ("title", text ("Shop: " <> display_name s))
    ∷ ("tags", arr (text "shophub" ∷ text "shop-instance" ∷ []))
    ∷ ("timezone", text "browser")
    ∷ ("schemaVersion", number 39)
    ∷ ("version", number 1)
    ∷ ("refresh", text "30s")
    ∷ ("time", obj (("from", text "now-24h") ∷ ("to", text "now") ∷ []))
    ∷ (
      "templating",
      obj (
          (
            "list",
            arr (
                obj (
                  ("name", text "datasource")
                  ∷ ("label", text "Data source")
                  ∷ ("type", text "datasource")
                  ∷ ("query", text "prometheus")
                  ∷ ("current", obj [])
                  ∷ ("hide", number 0)
                  ∷ ("includeAll", flag false)
                  ∷ ("multi", flag false)
                  ∷ ("refresh", number 1)
                  ∷ ("options", arr [])
                  ∷ ("regex", text "")
                  ∷ [])
                ∷ []),
          )
          ∷ []),
    )
    ∷ ("panels", arr (dashboard_panels s))
    ∷ [])

module _ (lib : Library) (s : Shop) where
  unfoldable pub app_config_map : String → ConfigMap → ConfigMap
  unfolding labels_for insert resource_name
  app_config_map body o = record o {
    metadata = record o.metadata { labels = insert "grafana_dashboard" "1" (labels_for s) };
    content = (resource_name s <> "-dashboard.json", body) ∷ [];
  }

  unfoldable pub mutate_config_map : String → ConfigMap → M ConfigMap
  unfolding app_config_map
  mutate_config_map body o =
      lift (lib.set_controller_reference shop s.metadata (app_config_map body o).metadata)
      >>= λ owned. pure (record (app_config_map body o) { metadata = owned })

  unfoldable pub reconcile_grafana_dashboard : M (Unit {0})
  unfolding resource_name mutate_config_map shop_dashboard
  reconcile_grafana_dashboard = lift (lib.marshal (shop_dashboard s)) >>= λ body.
      lib.create_or_update config_map
        (record {
          metadata = named s.metadata.namespace (resource_name s <> "-dashboard");
          content = [];
        })
        (mutate_config_map body)
      >> pure tt
