-- ===== src/Shop/Network/Routing.antt =====
-- Where the Ingress of a Shop leads.
use shop_operator.Base.{
  String, ◌≡◌, ◌≢◌, refl, sym, Bool, true, not, ◌&&◌, ◌==◌, List, [], ◌∷◌, map, any,
}
use shop_operator.Api.{Shop}
use shop_operator.Kube.Objects.{Service, ServicePort, Ingress, IngressRule, IngressPath}
use shop_operator.Kube.Library.{Library}
use shop_operator.Shop.Microservice.{Microservice, shop_microservices}
use shop_operator.Shop.Names.{service_resource_name, shop_host}
use shop_operator.Shop.Names.Injective.{Member, here, there}
use shop_operator.Shop.Network.{app_service, app_ingress, ingress_paths}

abbrev pub distinct : List String → Bool
distinct [] = true
distinct (x ∷ xs) = not (any (λ y. y == x) xs) && distinct xs

module _ (lib : Library) (s : Shop) where
  -- A path leads to the Service of a microservice, at a port that the Service listens on, whatever
  -- was in the Service before.
  pub record Leads (m : Microservice) (p : IngressPath) : Type 0 where
    pub name : p.service_name ≡ service_resource_name s m
    pub port :
        (o : Service)
        → (listens : ServicePort) × Member listens (app_service lib s m o).ports
          × (listens.port ≡ p.service_port)

  pub record Routes (r : IngressRule) : Type 0 where
    pub host : r.host ≡ shop_host lib s
    pub apart : distinct (map (λ p. p.path) r.paths) ≡ true
    pub leads :
        (p : IngressPath)
        → Member p r.paths
        → (m : Microservice) × Member m shop_microservices × Leads m p
    pub reached :
        (m : Microservice)
        → Member m shop_microservices
        → m.ingress_path ≢ ""
        → (p : IngressPath) × Member p r.paths × Leads m p

  one_path :
      (m : Microservice) (p : IngressPath)
      → p.service_name ≡ service_resource_name s m
      → p.service_port ≡ m.port
      → Leads m p
  unfolding app_service
  one_path m p name port = record { name = name; port = λ o. (_, here, sym port) }

  every_path :
      (p : IngressPath)
      → Member p (ingress_paths lib s shop_microservices)
      → (m : Microservice) × Member m shop_microservices × Leads m p
  unfolding ingress_paths
  every_path p here = (_, here, one_path _ p refl refl)
  every_path p (there here) = (_, there here, one_path _ p refl refl)
  every_path p (there (there here)) = (_, there (there here), one_path _ p refl refl)
  every_path p (there (there (there here))) =
      (_, there (there (there here)), one_path _ p refl refl)
  every_path p (there (there (there (there here)))) =
      (_, there (there (there (there here))), one_path _ p refl refl)
  every_path p (there (there (there (there (there x))))) = elim x [ ]

  every_microservice :
      (m : Microservice)
      → Member m shop_microservices
      → (p : IngressPath) × Member p (ingress_paths lib s shop_microservices) × Leads m p
  unfolding ingress_paths
  every_microservice m here = (_, here, one_path m _ refl refl)
  every_microservice m (there here) = (_, there here, one_path m _ refl refl)
  every_microservice m (there (there here)) = (_, there (there here), one_path m _ refl refl)
  every_microservice m (there (there (there here))) =
      (_, there (there (there here)), one_path m _ refl refl)
  every_microservice m (there (there (there (there here)))) =
      (_, there (there (there (there here))), one_path m _ refl refl)
  every_microservice m (there (there (there (there (there x))))) = elim x [ ]

  distinct-paths : distinct (map (λ p. p.path) (ingress_paths lib s shop_microservices)) ≡ true
  unfolding ingress_paths
  distinct-paths = refl

  -- Whatever was in the Ingress of a Shop: it gets one rule, for the host of the Shop; the paths of
  -- the rule are all different, each leads to the Service of a microservice at a port that the
  -- Service listens on, and each microservice that has a path is reached by one.
  pub app_ingress-Routes :
      (o : Ingress) → (r : IngressRule) × ((app_ingress lib s o).rules ≡ r ∷ []) × Routes r
  unfolding app_ingress
  app_ingress-Routes o = (
    _,
    refl,
    record {
      host = refl;
      apart = distinct-paths;
      leads = every_path;
      reached = λ m member named. every_microservice m member;
    },
  )
