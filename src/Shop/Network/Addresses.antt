-- ===== src/Shop/Network/Addresses.antt =====
-- The addresses of Services in the environment of other microservices, and the ports that the
-- Services listen on.
use text.Mathlib.TextLemmas.{append_assoc}
use shop_operator.Base.{ℕ, String, ◌<>◌, ◌≡◌, ◌≢◌, refl, sym, ap, ◌∙◌, arith, some, [], ◌∷◌}
use shop_operator.Base.Text.{decimal}
use shop_operator.Api.{Shop}
use shop_operator.Kube.Objects.{EnvVar, Service, ServicePort}
use shop_operator.Kube.Library.{Library}
use shop_operator.Shop.Microservice.{Microservice, ms_order, shop_microservices}
use shop_operator.Shop.Names.{resource_name, service_resource_name, service_url}
use shop_operator.Shop.Names.Injective.{Member, here, there}
use shop_operator.Shop.AppEnv.{frontend_env, payment_env}
use shop_operator.Shop.AppEnv.Payout.{env_value}
use shop_operator.Shop.Network.{app_service}

module _ (lib : Library) (s : Shop) where
  -- The Service of a microservice listens on one port, whatever was in it before.
  abbrev pub Listens : Microservice → ℕ → Type 0
  Listens m port =
      (o : Service) → (p : ServicePort) × ((app_service lib s m o).ports ≡ p ∷ []) × (p.port ≡ port)

  app_service-Listens : (m : Microservice) → Listens m m.port
  unfolding app_service
  app_service-Listens m o = (_, refl, refl)

  -- An address without a port, for which HTTP takes 80, of a Service that listens on another one.
  pub record Misses (v : EnvVar) : Type 0 where
    pub m : Microservice
    pub member : Member m shop_microservices
    pub address : v.value ≡ "http://" <> service_resource_name s m
    pub port : ℕ
    pub listens : Listens m port
    pub other : port ≢ 80

  misses :
      (m : Microservice) (v : EnvVar)
      → Member m shop_microservices
      → v.value ≡ "http://" <> service_resource_name s m
      → m.port ≢ 80
      → Misses v
  misses m v member address other = record {
    m = m;
    member = member;
    address = address;
    port = m.port;
    listens = app_service-Listens m;
    other = other;
  }

  frontend_env-Misses : (v : EnvVar) → Member v (frontend_env lib s) → Misses v
  unfolding frontend_env service_resource_name resource_name
  frontend_env-Misses v here = misses _ v here refl (λ e. absurd (omega arith))
  frontend_env-Misses v (there here) = misses _ v (there here) refl (λ e. absurd (omega arith))
  frontend_env-Misses v (there (there here)) =
      misses _ v (there (there here)) refl (λ e. absurd (omega arith))
  frontend_env-Misses v (there (there (there here))) =
      misses _ v (there (there (there here))) refl (λ e. absurd (omega arith))
  frontend_env-Misses v (there (there (there (there x)))) = elim x [ ]

  -- What follows the scheme, in the two orders in which it is put together.
  service_url_lem :
      (m : Microservice) (port : ℕ)
      → service_url s m.name port ≡ "http://" <> service_resource_name s m <> ":" <> decimal port
  unfolding service_url service_resource_name
  service_url_lem m port =
      ap (λ t. "http://" <> t)
        (ap (λ t. resource_name s <> t) (sym (append_assoc "-" m.name (":" <> decimal port)))
          ∙ sym (append_assoc (resource_name s) ("-" <> m.name) (":" <> decimal port)))

  -- In every Shop, each address in the environment of the frontend is that of a Service of the
  -- Shop without a port, and this Service listens on one port, which is not 80; the address of the
  -- order service in the environment of the payment service has the one port that this Service
  -- listens on.
  pub addresses-Listens :
      ((v : EnvVar) → Member v (frontend_env lib s) → Misses v)
      × ((address : String)
          → (url : String) × (port : ℕ) × (env_value "ORDER_SERVICE_URL" (payment_env lib s address)
              ≡ some url)
            × (url ≡ "http://" <> service_resource_name s ms_order <> ":" <> decimal port)
            × Listens ms_order port)
  unfolding payment_env
  addresses-Listens = (
    frontend_env-Misses,
    λ address. (
      _,
      ms_order.port,
      refl,
      service_url_lem ms_order ms_order.port,
      app_service-Listens ms_order,
    ),
  )
