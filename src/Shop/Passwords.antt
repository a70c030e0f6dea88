-- ===== src/Shop/Passwords.antt =====
-- The password of Redis, from its Secret to Redis and to the containers of a Shop.
use shop_operator.Base.{String, ◌<>◌, ◌≡◌, ◌⊎◌, none, some, List, [], ◌∷◌}
use shop_operator.Base.Text.{lookup}
use shop_operator.Api.{Shop}
use shop_operator.Kube.Json.{Json, text, obj}
use shop_operator.Kube.Objects.{Key, EnvVar, Secret, Unstructured, key_of, secret, custom, named}
use shop_operator.Kube.Prog.{ok, get, create}
use shop_operator.Kube.Journal.{Event, Journal, Happened, Rule}
use shop_operator.Kube.Library.{Library}
use shop_operator.Shop.Names.{resource_name}
use shop_operator.Shop.Names.Injective.{Member}
use shop_operator.Shop.Database.{Database, redis_kind}
use shop_operator.Shop.Monitoring.Selection.{at}

module _ (lib : Library) (s : Shop) where
  abbrev redis_name : String
  redis_name = resource_name s <> "-redis"

  abbrev auth_secret : String
  auth_secret = redis_name <> "-auth"

  abbrev auth_key : Key
  auth_key = record { namespace = s.metadata.namespace; name = auth_secret }

  -- The Secret was read, or it was created with a password under the key.
  abbrev Holds : String → Event → Type 0
  Holds k e =
      ((o : Secret) × (e ≡ (get secret auth_key, ok o)))
      ⊎ ((o : Secret) × (x : Secret) × (password : String) × (key_of o.metadata ≡ auth_key)
          × (lookup k o.string_data ≡ some password)
          × (e ≡ (create secret o, ok x)))

  -- The specification takes the password from this key of the Secret.
  pub record Takes (k : String) (o : Unstructured) : Type 0 where
    pub spec : Json
    pub specified : lib.set_nested_field (obj []) spec ("spec" ∷ []) ≡ ok o.body
    pub named : at "name" (at "redisSecret" (at "kubernetesConfig" spec)) ≡ text auth_secret
    pub keyed : at "key" (at "redisSecret" (at "kubernetesConfig" spec)) ≡ text k

  -- A Redis is created under its name, and after the Secret that it takes its password from.
  abbrev pub supplied : Rule
  supplied (create (custom g) o) l =
      (g ≡ redis_kind)
      × (o.metadata.name ≡ redis_name)
      × ((k : String) × Happened (Holds k) l × Takes k o)
  supplied _ l = Unit

  -- The containers find Redis under its name, and take the password from the same Secret.
  abbrev pub Connects : List EnvVar → Journal → Type 0
  Connects env l =
      Member (record { name = "DATABASE_HOST"; value = redis_name; value_from = none }) env
      × ((k : String) × Happened (Holds k) l
          × Member
              (record {
                name = "DATABASE_PASSWORD";
                value = "";
                value_from = some (record { name = auth_secret; key = k });
              })
              env)

  abbrev Stored : Unit {0} → Journal → Type 0
  Stored u l = Happened (Holds "password") l
