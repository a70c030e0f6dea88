-- ===== src/Access.antt =====
-- The role of the operator, config/rbac/role.yaml, which is made from the `+kubebuilder:rbac`
-- markers in internal/controller, and which requests it grants.
use shop_operator.Base.{String, ◌<>◌, Bool, true, false, ◌&&◌, List, [], ◌∷◌, ◌==◌, any}
use shop_operator.Kube.Objects.{
  Kind, shop, wallet, discord_channel, secret, config_map, deployment, stateful_set, service,
  ingress, job, custom,
}
use shop_operator.Kube.Prog.{Request, get, create, update, update_status}

pub record PolicyRule : Type 0 where
  pub api_groups : List String
  pub resources : List String
  pub verbs : List String

abbrev all_verbs : List String
all_verbs = "create" ∷ "delete" ∷ "get" ∷ "list" ∷ "patch" ∷ "update" ∷ "watch" ∷ []

abbrev policy_rule : String → List String → List String → PolicyRule
policy_rule api_group resources verbs = record {
  api_groups = api_group ∷ [];
  resources = resources;
  verbs = verbs;
}

unfoldable pub manager_role : List PolicyRule
manager_role =
    policy_rule "" ("configmaps" ∷ "secrets" ∷ "services" ∷ []) all_verbs
    ∷ policy_rule "apps" ("deployments" ∷ []) all_verbs
    ∷ policy_rule "apps" ("statefulsets" ∷ []) ("get" ∷ "list" ∷ "watch" ∷ [])
    ∷ policy_rule "batch" ("jobs" ∷ []) ("create" ∷ "delete" ∷ "get" ∷ "list" ∷ "watch" ∷ [])
    ∷ policy_rule "monitoring.coreos.com"
        ("alertmanagerconfigs" ∷ "prometheusrules" ∷ "servicemonitors" ∷ []) all_verbs
    ∷ policy_rule "networking.k8s.io" ("ingresses" ∷ []) all_verbs
    ∷ policy_rule "postgresql.cnpg.io" ("clusters" ∷ []) all_verbs
    ∷ policy_rule "redis.redis.opstreelabs.in" ("redis" ∷ []) all_verbs
    ∷ policy_rule "shophub.devops-siit.io" ("discordchannels" ∷ "shops" ∷ "wallets" ∷ []) all_verbs
    ∷ policy_rule "shophub.devops-siit.io"
        ("discordchannels/finalizers" ∷ "shops/finalizers" ∷ "wallets/finalizers" ∷ [])
        ("update" ∷ [])
    ∷ policy_rule "shophub.devops-siit.io"
        ("discordchannels/status" ∷ "shops/status" ∷ "wallets/status" ∷ [])
        ("get" ∷ "patch" ∷ "update" ∷ [])
    ∷ []

-- The plural under which the API serves a kind of a custom resource, as its CRD declares it.
abbrev plural : List (String × String) → String → String
plural [] kind = ""
plural ((k, p) ∷ ps) kind = elim (k == kind) [ true ↦ p | false ↦ plural ps kind ]

abbrev plurals : List (String × String)
plurals =
    ("Cluster", "clusters")
    ∷ ("Redis", "redis")
    ∷ ("ServiceMonitor", "servicemonitors")
    ∷ ("PrometheusRule", "prometheusrules")
    ∷ ("AlertmanagerConfig", "alertmanagerconfigs")
    ∷ []

-- The API group and the resource of a kind.
abbrev resource_of : Kind → String × String
resource_of shop = ("shophub.devops-siit.io", "shops")
resource_of wallet = ("shophub.devops-siit.io", "wallets")
resource_of discord_channel = ("shophub.devops-siit.io", "discordchannels")
resource_of secret = ("", "secrets")
resource_of config_map = ("", "configmaps")
resource_of deployment = ("apps", "deployments")
resource_of stateful_set = ("apps", "statefulsets")
resource_of service = ("", "services")
resource_of ingress = ("networking.k8s.io", "ingresses")
resource_of job = ("batch", "jobs")
resource_of (custom g) = (g.group, plural plurals g.kind)

-- A rule grants what it names the group, the resource and the verb of.
abbrev covers : String → String → String → PolicyRule → Bool
covers group resource verb rule =
    any (λ g. g == group) rule.api_groups
    && any (λ r. r == resource) rule.resources
    && any (λ v. v == verb) rule.verbs

-- Whether a role allows a request. Requests to others than the API server need no role.
unfoldable pub is_granted : List PolicyRule → Request → Bool
is_granted role (get k q) = any (covers (resource_of k).0 (resource_of k).1 "get") role
is_granted role (create k o) = any (covers (resource_of k).0 (resource_of k).1 "create") role
is_granted role (update k o) = any (covers (resource_of k).0 (resource_of k).1 "update") role
is_granted role (update_status k o) =
    any (covers (resource_of k).0 ((resource_of k).1 <> "/status") "update") role
is_granted role _ = true

-- Whether a role lets a controller watch a kind.
unfoldable pub is_watchable : List PolicyRule → Kind → Bool
is_watchable role k =
    any (covers (resource_of k).0 (resource_of k).1 "list") role
    && any (covers (resource_of k).0 (resource_of k).1 "watch") role
