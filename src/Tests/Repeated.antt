-- ===== src/Tests/Repeated.antt =====
-- A library that names an owner once, and a Deployment that is there already.
use shop_operator.Base.{
  String, ◌≡◌, refl, ◌∙◌, ap, inl, inr, true, List, [], ◌∷◌, ◌++◌, ◌==◌, any, if◌then◌else◌,
  Bool-cases,
}
use shop_operator.Api.{ObjectMeta, Wallet, DiscordChannel}
use shop_operator.Kube.Objects.{
  EnvVar, ConfigMap, Deployment, Service, Ingress, Secret, deployment, named,
}
use shop_operator.Kube.Prog.{ok, err, get, pure}
use shop_operator.Kube.Lawful.{SetsController, IsDocumented}
use shop_operator.Kube.Library.{Library, DeepEqual, create_or_update_doc}
use shop_operator.Kube.Run.{Handler, run}
use shop_operator.Shop.Microservice.{Microservice, ms_order}
use shop_operator.Shop.AppEnv.{shop_app_env, base_env, tracing_env, service_env}
use shop_operator.Shop.Children.{mutate_wallet, mutate_discord_channel}
use shop_operator.Shop.Network.{mutate_service, mutate_ingress}
use shop_operator.Shop.Dashboard.{mutate_config_map}
use shop_operator.Shop.Workload.{
  app_deployment, mutate_deployment, blank_deployment, reconcile_deployment,
}
use shop_operator.Shop.Repeating.{OwnsAgain, mutations-again}
use shop_operator.Shop.Quiet.{reconcile_deployment-quiet}
use shop_operator.Discord.Client.{webhook_url}
use shop_operator.Tests.Cluster.{a_library, own, text_refl, an_error, a_shop, a_discord_channel}

abbrev always_equal : DeepEqual
always_equal k a b = true

abbrev own_once : ObjectMeta → ObjectMeta → ObjectMeta
own_once owner o = if any (λ r. r.uid == owner.uid) o.owner_references then o else own owner o

abbrev a_careful_library : Library
a_careful_library = record a_library {
  set_controller_reference = λ k owner o. ok (own_once owner o);
  create_or_update = create_or_update_doc always_equal;
}

own_once_keeps :
    (owner o : ObjectMeta) → record (own_once owner o) { owner_references = o.owner_references } ≡ o
own_once_keeps owner o = elim (Bool-cases (any (λ r. r.uid == owner.uid) o.owner_references)) [
  | inl owned ↦ rw owned refl
  | inr free ↦ rw free refl
]

own_once_controls :
    (owner o : ObjectMeta)
    → any (λ r. r.uid == owner.uid) (own_once owner o).owner_references ≡ true
own_once_controls owner o = elim (Bool-cases (any (λ r. r.uid == owner.uid) o.owner_references)) [
  | inl owned ↦ rw owned owned
  | inr free ↦ rw free (rw (text_refl owner.uid) refl)
]

a_careful_library-SetsController : SetsController a_careful_library
a_careful_library-SetsController = record {
  keeps = λ k owner o result e.
      let owned : result ≡ own_once owner o = cc in
      ap (λ (r : ObjectMeta). record r { owner_references = o.owner_references }) owned
      ∙ own_once_keeps owner o;
  controls = λ k owner o result e.
      let owned : result ≡ own_once owner o = cc in
      ap (λ (m : ObjectMeta). any (λ r. r.uid == owner.uid) m.owner_references) owned
      ∙ own_once_controls owner o;
}

a_careful_library-OwnsAgain : OwnsAgain a_careful_library
a_careful_library-OwnsAgain = record {
  again = λ owner o owned e.
      let same : owned ≡ own_once owner o = cc in
      let there : any (λ r. r.uid == owner.uid) owned.owner_references ≡ true =
        ap (λ (m : ObjectMeta). any (λ r. r.uid == owner.uid) m.owner_references) same
        ∙ own_once_controls owner o in
      rw there refl;
}

mutations-again_example :
    ((o o' : Wallet)
      → mutate_wallet a_careful_library a_shop o ≡ pure o'
      → mutate_wallet a_careful_library a_shop o' ≡ pure o')
    × ((o o' : DiscordChannel)
        → mutate_discord_channel a_careful_library a_shop o ≡ pure o'
        → mutate_discord_channel a_careful_library a_shop o' ≡ pure o')
    × ((m : Microservice) (o o' : Service)
        → mutate_service a_careful_library a_shop m o ≡ pure o'
        → mutate_service a_careful_library a_shop m o' ≡ pure o')
    × ((o o' : Ingress)
        → mutate_ingress a_careful_library a_shop o ≡ pure o'
        → mutate_ingress a_careful_library a_shop o' ≡ pure o')
    × ((body : String) (o o' : ConfigMap)
        → mutate_config_map a_careful_library a_shop body o ≡ pure o'
        → mutate_config_map a_careful_library a_shop body o' ≡ pure o')
mutations-again_example =
    mutations-again a_careful_library a_careful_library-SetsController a_careful_library-OwnsAgain
      a_shop

a_careful_library-IsDocumented : IsDocumented a_careful_library
a_careful_library-IsDocumented = record {
  same = always_equal;
  reflexive = λ k o. refl;
  documented = λ k o f. refl;
}

-- The environment of the order service, and its Deployment.
abbrev order_env : List EnvVar
order_env =
    base_env a_careful_library a_shop ms_order
    ++ (tracing_env a_careful_library a_shop ms_order ++ [])

abbrev changed_deployment : Deployment
changed_deployment =
    app_deployment a_careful_library a_shop ms_order 3 order_env
      (blank_deployment a_careful_library a_shop ms_order)

abbrev order_deployment : Deployment
order_deployment = record changed_deployment {
  metadata = own_once a_shop.metadata changed_deployment.metadata;
}

-- A server that holds the Deployment, and nothing else.
abbrev holding : Handler (Unit {0})
holding (get deployment k) w = (ok order_deployment, w)
holding _ w = (err an_error, w)

reconcile_deployment-quiet_example :
    run holding (reconcile_deployment a_careful_library a_shop ms_order 3 [] "jwt") tt
    ≡ (ok order_deployment, tt)
unfolding run shop_app_env service_env mutate_deployment
reconcile_deployment-quiet_example =
    reconcile_deployment-quiet holding tt a_careful_library a_careful_library-IsDocumented
      a_careful_library-SetsController a_careful_library-OwnsAgain a_shop ms_order 3 [] order_env
      "jwt" (blank_deployment a_careful_library a_shop ms_order) order_deployment refl refl refl
      refl

abbrev webhook_metadata : ObjectMeta
webhook_metadata =
    own_once (a_discord_channel "42" "").metadata (named "shops" "shop-toys-discord-webhook")

abbrev webhook_secret : Secret
webhook_secret = record {
  metadata = webhook_metadata;
  content = [];
  string_data = ("url", webhook_url "9" "t") ∷ [];
}
