-- ===== src/Shop/Monitoring/Webhook.antt =====
-- The Secret of the webhook, from the DiscordChannel controller to the routing of the alerts.
use shop_operator.Base.{
  String, ◌<>◌, ◌≡◌, refl, ◌∙◌, ap, Option, none, some, List, [], ◌∷◌, ◌==◌, if◌then◌else◌,
}
use shop_operator.Base.Text.{lookup}
use shop_operator.Api.{Shop, DiscordChannel, ObjectMeta}
use shop_operator.Kube.Json.{Json, text, array, object, cons, end, obj}
use shop_operator.Kube.Objects.{
  Key, Secret, Unstructured, discord_channel, secret, custom, shop, named, key_of,
}
use shop_operator.Kube.Prog.{
  Error, Reason, Result, ok, err, get, create, update_status, M, pure, request, ◌>>=◌,
}
use shop_operator.Kube.Lawful.{SetsController, IsDocumented}
use shop_operator.Kube.Library.{Library, DeepEqual, checked, create_or_update_doc}
use shop_operator.Kube.Outcome.{same_key_iff}
use shop_operator.Kube.Run.{Handler, run, run-bind, is_key}
use shop_operator.Discord.Client.{webhook_url}
use shop_operator.Shop.Names.{discord_resource_name, resource_name, labels_for}
use shop_operator.Shop.Database.{blank}
use shop_operator.Shop.Monitoring.{
  alertmanager_config_kind, alert_route, alert_receivers, mutate_alertmanager_config,
  skip_missing_crd, route_alerts,
}
use shop_operator.Shop.Monitoring.Selection.{at}

abbrev missing : Error
missing = record { reason = Reason.not_found; text = "not found" }

abbrev held : Option Secret → Key → Result Secret
held none k = err missing
held (some o) k = if is_key (key_of o.metadata) k then ok o else err missing

-- The Secret of the webhook and the routing of the alerts, as far as they exist.
pub record Alerts : Type 0 where
  pub stored : Option Secret
  pub routing : Option Unstructured

abbrev pub nothing : Alerts
nothing = record { stored = none; routing = none }

abbrev routed_under : Option Unstructured → Key → Result Unstructured
routed_under none k = err missing
routed_under (some o) k = if is_key (key_of o.metadata) k then ok o else err missing

-- A server that takes a Secret, the routing of alerts and every status, and refuses all else.
abbrev pub vault : Handler Alerts
vault (get secret k) w = (held w.stored k, w)
vault (create secret o) w = (ok o, record w { stored = some o })
vault (update_status discord_channel o) w = (ok o, w)
vault (get (custom g) k) w =
    (if g.kind == "AlertmanagerConfig" then routed_under w.routing k else err missing, w)
vault (create (custom g) o) w = (ok o, record w { routing = some o })
vault _ w = (err missing, w)

-- The first item of a list.
abbrev first : Json → Json
first (array (cons v vs)) = v
first _ = object end

-- Where the first receiver takes the address of its Discord webhook from.
abbrev webhook_of : Json → Json
webhook_of receivers = at "apiURL" (first (at "discordConfigs" (first receivers)))

creates_documented :
    (same : DeepEqual) (o o' : Unstructured) (f : Unstructured → M Unstructured)
    (stored : Option Secret)
    → f o ≡ pure o'
    → key_of o'.metadata ≡ key_of o.metadata
    → run vault
        (create_or_update_doc same (custom alertmanager_config_kind) o f)
        (record { stored = stored; routing = none })
      ≡ (ok o', record { stored = stored; routing = some o' })
unfolding run
creates_documented same o o' f stored made named_so =
    ap
      (λ (p : M Unstructured).
        run vault
          (p >>= (λ new. checked (custom alertmanager_config_kind) o new >>= λ x.
            request (create (custom alertmanager_config_kind) x)))
          (record { stored = stored; routing = none }))
      made
    ∙ rw ((same_key_iff o.metadata o'.metadata).1 named_so) refl

module _ (lib : Library) (law : SetsController lib) (s : Shop) (bot : Key) (dc : DiscordChannel)
    (is_child : key_of dc.metadata
      ≡ record { namespace = s.metadata.namespace; name = discord_resource_name s })
    (owned : ObjectMeta)
    (signed : lib.set_controller_reference discord_channel dc.metadata
        (named dc.metadata.namespace (dc.metadata.name <> "-webhook"))
      ≡ ok owned)
    (id token : String) where
  abbrev secret_name : String
  secret_name = discord_resource_name s <> "-webhook"

  -- The Secret that the DiscordChannel controller creates.
  abbrev pub created : Secret
  created = record {
    metadata = owned;
    content = [];
    string_data = ("url", webhook_url id token) ∷ [];
  }

  -- A routing whose route leads to its receiver, which takes the address of the webhook from the
  -- Secret, in its own namespace, under a key that holds it.
  pub record IsRouted (c : Unstructured) : Type 0 where
    pub namespace : c.metadata.namespace ≡ created.metadata.namespace
    pub route : Json
    pub with_route : Json
    pub receivers : Json
    pub routes : lib.set_nested_field (obj []) route ("spec" ∷ "route" ∷ []) ≡ ok with_route
    pub receives : lib.set_nested_field with_route receivers ("spec" ∷ "receivers" ∷ []) ≡ ok c.body
    pub addressed : at "receiver" route ≡ at "name" (first receivers)
    pub named : at "name" (webhook_of receivers) ≡ text created.metadata.name
    pub url_key : String
    pub keyed : at "key" (webhook_of receivers) ≡ text url_key
    pub holds : lookup url_key created.string_data ≡ some (webhook_url id token)

  module _ (doc : IsDocumented lib)
      (sets : (body v : Json) (path : List String)
        → (b : Json) × (lib.set_nested_field body v path ≡ ok b))
      (owns : (o : ObjectMeta)
        → (owner : ObjectMeta) × (lib.set_controller_reference shop s.metadata o ≡ ok owner)) where
    abbrev receiver : String
    receiver = "discord-" <> resource_name s

    abbrev blank_routing : Unstructured
    blank_routing = blank s.metadata.namespace (resource_name s <> "-alert-routing")

    abbrev labelled : ObjectMeta
    labelled = record blank_routing.metadata { labels = labels_for s }

    abbrev route_set : Json
    route_set = (sets (obj []) (alert_route s receiver) ("spec" ∷ "route" ∷ [])).0

    abbrev routing : Unstructured
    routing = record {
      metadata = (owns labelled).0;
      body = (sets route_set (alert_receivers receiver secret_name) ("spec" ∷ "receivers" ∷ [])).0;
    }

    mutates : mutate_alertmanager_config lib s receiver secret_name blank_routing ≡ pure routing
    unfolding mutate_alertmanager_config
    mutates =
        rw
          (
            (sets (obj []) (alert_route s receiver) ("spec" ∷ "route" ∷ [])).1,
            (sets route_set (alert_receivers receiver secret_name) ("spec" ∷ "receivers" ∷ [])).1,
            (owns labelled).1,
          )
          refl

    key-routing : key_of routing.metadata ≡ key_of blank_routing.metadata
    key-routing = ap key_of (law.keeps shop s.metadata labelled (owns labelled).0 (owns labelled).1)

    creates :
        run vault
          (lib.create_or_update
            (custom alertmanager_config_kind)
            blank_routing
            (mutate_alertmanager_config lib s receiver secret_name))
          (record nothing { stored = some created })
        ≡ (ok routing, record { stored = some created; routing = some routing })
    creates =
        ap (λ (p : M Unstructured). run vault p (record nothing { stored = some created }))
          (doc.documented (custom alertmanager_config_kind) blank_routing
            (mutate_alertmanager_config lib s receiver secret_name))
        ∙ creates_documented doc.same blank_routing routing
            (mutate_alertmanager_config lib s receiver secret_name) (some created) mutates
            key-routing

    routes :
        run vault
          (route_alerts lib s secret_name (ok created))
          (record nothing { stored = some created })
        ≡ (ok tt, record { stored = some created; routing = some routing })
    unfolding run
    routes =
        run-bind vault
          (lib.create_or_update (custom alertmanager_config_kind) blank_routing
            (mutate_alertmanager_config lib s receiver secret_name))
          skip_missing_crd (record nothing { stored = some created })
        ∙ rw creates refl
