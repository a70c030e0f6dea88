-- ===== src/Shop/Network.antt =====
-- `reconcileService` and `reconcileIngress` of internal/controller/shop_controller.go
pub mod Routing
pub mod Addresses
use shop_operator.Base.{String, ◌<>◌, none, some, List, [], ◌∷◌, ◌==◌, not, if◌then◌else◌}
use shop_operator.Base.Text.{insert}
use shop_operator.Api.{Shop}
use shop_operator.Kube.Objects.{Service, Ingress, IngressPath, service, ingress, shop, named}
use shop_operator.Kube.Prog.{M, pure, lift, ◌>>=◌, ◌>>◌}
use shop_operator.Kube.Library.{Library}
use shop_operator.Shop.Microservice.{Microservice, shop_microservices, ingress_class_name}
use shop_operator.Shop.Names.{
  service_resource_name, ingress_resource_name, labels_for, labels_for_component, shop_host,
}
use shop_operator.Shop.Workload.{http_port_name}

module _ (lib : Library) (s : Shop) where
  unfoldable pub app_service : Microservice → Service → Service
  unfolding labels_for_component
  app_service m o =
      let labels = labels_for_component s m.name in
      record o {
        metadata = record o.metadata { labels = labels };
        selector = labels;
        type = "ClusterIP";
        ports =
            record {
              name = http_port_name;
              port = m.port;
              target_port = http_port_name;
              protocol = "TCP";
            }
            ∷ [];
      }

  unfoldable pub mutate_service : Microservice → Service → M Service
  unfolding app_service
  mutate_service m o =
      lift (lib.set_controller_reference shop s.metadata (app_service m o).metadata) >>= λ owned.
      pure (record (app_service m o) { metadata = owned })

  unfoldable pub reconcile_service : Microservice → M (Unit {0})
  unfolding service_resource_name mutate_service
  reconcile_service m =
      lib.create_or_update service
        (record {
          metadata = named s.metadata.namespace (service_resource_name s m);
          selector = [];
          type = "";
          ports = [];
        })
        (mutate_service m)
      >> pure tt

  abbrev pub path_pattern : String → String
  path_pattern p = if not (p == "/") then p <> "(/|$)(.*)" else "/()(.*)"

  -- The loop over the microservices that have a path.
  unfoldable pub ingress_paths : List Microservice → List IngressPath
  unfolding service_resource_name
  ingress_paths [] = []
  ingress_paths (m ∷ ms) =
      let rest = ingress_paths ms in
      if m.ingress_path == ""
      then rest
      else record {
        path = path_pattern m.ingress_path;
        path_type = "ImplementationSpecific";
        service_name = service_resource_name s m;
        service_port = m.port;
      }
        ∷ rest

  unfoldable pub app_ingress : Ingress → Ingress
  unfolding labels_for insert ingress_class_name ingress_paths shop_host
  app_ingress o = record o {
    metadata = record o.metadata {
      labels = labels_for s;
      annotations =
          insert "nginx.ingress.kubernetes.io/use-regex" "true"
            (insert "nginx.ingress.kubernetes.io/rewrite-target" "/$2" o.metadata.annotations);
    };
    ingress_class_name = some (ingress_class_name lib);
    rules = record { host = shop_host lib s; paths = ingress_paths shop_microservices } ∷ [];
  }

  unfoldable pub mutate_ingress : Ingress → M Ingress
  unfolding app_ingress
  mutate_ingress o =
      lift (lib.set_controller_reference shop s.metadata (app_ingress o).metadata) >>= λ owned.
      pure (record (app_ingress o) { metadata = owned })

  unfoldable pub reconcile_ingress : M (Unit {0})
  unfolding ingress_resource_name mutate_ingress
  reconcile_ingress =
      lib.create_or_update ingress
        (record {
          metadata = named s.metadata.namespace (ingress_resource_name s);
          ingress_class_name = none;
          rules = [];
        })
        mutate_ingress
      >> pure tt
