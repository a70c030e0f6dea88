-- ===== src/Kube/Objects.antt =====
-- The Kubernetes objects that the controllers read and write, with the fields that they use.
-- An unstructured object has its body as a JSON value beside its metadata.
use shop_operator.Base.{ℕ, String, Option, none, List, []}
use shop_operator.Base.Text.{StringMap}
use shop_operator.Api.{ObjectMeta, Shop, Wallet, DiscordChannel}
use shop_operator.Kube.Json.{Json}

pub record Key : Type 0 where
  pub namespace : String
  pub name : String

pub record GroupVersionKind : Type 0 where
  pub group : String
  pub version : String
  pub kind : String

pub record Secret : Type 0 where
  pub metadata : ObjectMeta
  pub content : StringMap String
  pub string_data : StringMap String

pub record ConfigMap : Type 0 where
  pub metadata : ObjectMeta
  pub content : StringMap String

pub record SecretKeySelector : Type 0 where
  pub name : String
  pub key : String

-- An environment variable has a value, or a key of a Secret that gives it.
pub record EnvVar : Type 0 where
  pub name : String
  pub value : String
  pub value_from : Option SecretKeySelector

pub record ContainerPort : Type 0 where
  pub name : String
  pub container_port : ℕ
  pub protocol : String

pub record Container : Type 0 where
  pub name : String
  pub image : String
  pub image_pull_policy : String
  pub command : List String
  pub ports : List ContainerPort
  pub env : List EnvVar

abbrev pub empty_container : Container
empty_container = record {
  name = "";
  image = "";
  image_pull_policy = "";
  command = [];
  ports = [];
  env = [];
}

pub record Deployment : Type 0 where
  pub metadata : ObjectMeta
  pub replicas : Option ℕ
  pub selector : StringMap String
  pub template_labels : StringMap String
  pub containers : List Container
  pub ready_replicas : ℕ

pub record StatefulSet : Type 0 where
  pub metadata : ObjectMeta
  pub ready_replicas : ℕ

pub record ServicePort : Type 0 where
  pub name : String
  pub port : ℕ
  pub target_port : String
  pub protocol : String

pub record Service : Type 0 where
  pub metadata : ObjectMeta
  pub selector : StringMap String
  pub type : String
  pub ports : List ServicePort

pub record IngressPath : Type 0 where
  pub path : String
  pub path_type : String
  pub service_name : String
  pub service_port : ℕ

pub record IngressRule : Type 0 where
  pub host : String
  pub paths : List IngressPath

pub record Ingress : Type 0 where
  pub metadata : ObjectMeta
  pub ingress_class_name : Option String
  pub rules : List IngressRule

pub record Job : Type 0 where
  pub metadata : ObjectMeta
  pub backoff_limit : ℕ
  pub ttl_seconds_after_finished : ℕ
  pub restart_policy : String
  pub containers : List Container
  pub succeeded : ℕ

pub record Unstructured : Type 0 where
  pub metadata : ObjectMeta
  pub body : Json

pub data Kind : Type 0 where
  shop wallet discord_channel secret config_map deployment stateful_set service ingress job : Kind
  custom : GroupVersionKind → Kind

abbrev pub Obj : Kind → Type 0
Obj shop = Shop
Obj wallet = Wallet
Obj discord_channel = DiscordChannel
Obj secret = Secret
Obj config_map = ConfigMap
Obj deployment = Deployment
Obj stateful_set = StatefulSet
Obj service = Service
Obj ingress = Ingress
Obj job = Job
Obj (custom g) = Unstructured

abbrev pub meta_of : (k : Kind) → Obj k → ObjectMeta
meta_of shop o = o.metadata
meta_of wallet o = o.metadata
meta_of discord_channel o = o.metadata
meta_of secret o = o.metadata
meta_of config_map o = o.metadata
meta_of deployment o = o.metadata
meta_of stateful_set o = o.metadata
meta_of service o = o.metadata
meta_of ingress o = o.metadata
meta_of job o = o.metadata
meta_of (custom g) o = o.metadata

-- `client.ObjectKeyFromObject`
abbrev pub key_of : ObjectMeta → Key
key_of m = record { namespace = m.namespace; name = m.name }

-- The metadata of a literal `ObjectMeta{Name: …, Namespace: …}`.
abbrev pub named : String → String → ObjectMeta
named namespace name = record {
  name = name;
  namespace = namespace;
  uid = "";
  generation = 0;
  deletion_timestamp = none;
  labels = [];
  annotations = [];
  finalizers = [];
  owner_references = [];
}
