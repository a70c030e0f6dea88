-- ===== src/Manager.antt =====
-- `main` of cmd/main.go: the options of the servers, and the start of the manager with its three
-- controllers. The flags that were given and the outcome of each call of controller-runtime are
-- parameters; certificates are read by the servers themselves.
pub mod Starting
use shop_operator.Base.{
  ℕ, String, Bool, true, false, not, Option, none, some, List, [], ◌∷◌, ◌==◌, if◌then◌else◌,
}
use shop_operator.Kube.Library.{Library}
use shop_operator.Kube.Objects.{
  Key, Kind, shop, wallet, discord_channel, deployment, service, ingress,
}
use shop_operator.Discord.Client.{api_client}
use shop_operator.Discord.Controller.{Reconciler}

-- The command line, without the options of the log.
pub record Flags : Type 0 where
  pub metrics_bind_address : String
  pub health_probe_bind_address : String
  pub leader_elect : Bool
  pub metrics_secure : Bool
  pub webhook_cert_path : String
  pub webhook_cert_name : String
  pub webhook_cert_key : String
  pub metrics_cert_path : String
  pub metrics_cert_name : String
  pub metrics_cert_key : String
  pub enable_http2 : Bool

abbrev pub default_flags : Flags
default_flags = record {
  metrics_bind_address = "0";
  health_probe_bind_address = ":8081";
  leader_elect = false;
  metrics_secure = true;
  webhook_cert_path = "";
  webhook_cert_name = "tls.crt";
  webhook_cert_key = "tls.key";
  metrics_cert_path = "";
  metrics_cert_name = "tls.crt";
  metrics_cert_key = "tls.key";
  enable_http2 = false;
}

-- What the options change of a `tls.Config`.
pub record TlsConfig : Type 0 where
  pub next_protos : List String

abbrev pub TlsOption : Type 0
TlsOption = TlsConfig → TlsConfig

abbrev pub disable_http2 : TlsOption
disable_http2 c = record c { next_protos = "http/1.1" ∷ [] }

unfoldable pub tls_opts : Flags → List TlsOption
tls_opts f = if not f.enable_http2 then disable_http2 ∷ [] else []

-- The directory and the names of a certificate and its key; a field that is not set is empty.
pub record Certificate : Type 0 where
  pub cert_dir : String
  pub cert_name : String
  pub key_name : String

abbrev pub no_certificate : Certificate
no_certificate = record { cert_dir = ""; cert_name = ""; key_name = "" }

abbrev pub certificate : String → String → String → Certificate
certificate path name key =
    if not (path == "")
    then record { cert_dir = path; cert_name = name; key_name = key }
    else no_certificate

-- `webhook.Options`
pub record WebhookOptions : Type 0 where
  pub tls_opts : List TlsOption
  pub certificate : Certificate

unfoldable pub webhook_server_options : Flags → WebhookOptions
unfolding tls_opts
webhook_server_options f = record {
  tls_opts = tls_opts f;
  certificate = certificate f.webhook_cert_path f.webhook_cert_name f.webhook_cert_key;
}

-- `metricsserver.Options`; `filtered` says that requests are authenticated and authorized.
pub record MetricsOptions : Type 0 where
  pub bind_address : String
  pub secure_serving : Bool
  pub tls_opts : List TlsOption
  pub filtered : Bool
  pub certificate : Certificate

unfoldable pub metrics_server_options : Flags → MetricsOptions
unfolding tls_opts
metrics_server_options f = record {
  bind_address = f.metrics_bind_address;
  secure_serving = f.metrics_secure;
  tls_opts = tls_opts f;
  filtered = f.metrics_secure;
  certificate = certificate f.metrics_cert_path f.metrics_cert_name f.metrics_cert_key;
}

-- `ctrl.Options`, the scheme apart
pub record ManagerOptions : Type 0 where
  pub metrics : MetricsOptions
  pub webhook : WebhookOptions
  pub health_probe_bind_address : String
  pub leader_election : Bool
  pub leader_election_id : String

unfoldable pub manager_options : Flags → ManagerOptions
unfolding metrics_server_options webhook_server_options
manager_options f = record {
  metrics = metrics_server_options f;
  webhook = webhook_server_options f;
  health_probe_bind_address = f.health_probe_bind_address;
  leader_election = f.leader_elect;
  leader_election_id = "732e34f8.devops-siit.io";
}

-- An environment variable, or a default where it is not set or empty.
abbrev pub env_or : Library → String → String → String
env_or lib name default = let v = lib.get_env name in if v == "" then default else v

abbrev pub discord_secret : Library → Key
discord_secret lib = record {
  namespace = env_or lib "DISCORD_SECRET_NAMESPACE" "shop-operator-system";
  name = env_or lib "DISCORD_SECRET_NAME" "discord-bot-credentials";
}

abbrev pub discord_api_url : Library → String
discord_api_url lib = env_or lib "DISCORD_API_URL" "https://discord.com/api/v10"

-- The fields of the DiscordChannel controller that `main` sets.
unfoldable pub discord_channel_reconciler : Library → Reconciler
discord_channel_reconciler lib = record {
  lib = lib;
  discord_secret_name = (discord_secret lib).name;
  discord_secret_namespace = (discord_secret lib).namespace;
  discord = api_client lib (discord_api_url lib);
}

-- What `SetupWithManager` of a controller asks for: its name, the kind that it reconciles, and the
-- kinds whose changes lead to a reconcile of their controlling owner.
pub record Registration : Type 0 where
  pub named : String
  pub watches : Kind
  pub owns : List Kind

unfoldable pub wallet_registration : Registration
wallet_registration = record { named = "wallet"; watches = wallet; owns = [] }

unfoldable pub discord_channel_registration : Registration
discord_channel_registration = record {
  named = "discordchannel";
  watches = discord_channel;
  owns = [];
}

unfoldable pub shop_registration : Registration
shop_registration = record {
  named = "shop";
  watches = shop;
  owns = deployment ∷ service ∷ wallet ∷ ingress ∷ discord_channel ∷ [];
}

-- The calls that may fail, in `main`.
pub data Call : Type 0 where
  get_config : Call
  new_manager : ManagerOptions → Call
  register : Registration → Call
  add_healthz_check : String → Call
  add_readyz_check : String → Call
  start : Call

-- A run of the process: a call, and what follows for its success and for its failure; or the exit
-- with a code, which for a return from `main` is 0.
pub data Process : Type 0 where
  exit : ℕ → Process
  make : Call → (Bool → Process) → Process

-- `err := mgr.Start(…)` and the end of `main`
unfoldable pub start_manager : Process
start_manager = make start (λ done. if not done then exit 1 else exit 0)

-- `AddHealthzCheck` and `AddReadyzCheck`
unfoldable pub add_checks : Process
unfolding start_manager
add_checks = make (add_healthz_check "healthz") (λ done.
    if not done
    then exit 1
    else make (add_readyz_check "readyz") (λ done. if not done then exit 1 else start_manager))

-- The three `SetupWithManager`
unfoldable pub register_controllers : Process
unfolding wallet_registration discord_channel_registration shop_registration add_checks
register_controllers = make (register wallet_registration) (λ done.
    if not done
    then exit 1
    else make (register discord_channel_registration) (λ done.
      if not done
      then exit 1
      else make (register shop_registration) (λ done. if not done then exit 1 else add_checks)))

-- `GetConfigOrDie` exits with the code 1 itself.
unfoldable pub main : Flags → Process
unfolding manager_options register_controllers
main f = make get_config (λ done.
    if not done
    then exit 1
    else make (new_manager (manager_options f))
        (λ done. if not done then exit 1 else register_controllers))

-- The calls that are made and the code, for an outcome of each call.
unfoldable pub outcome : (Call → Bool) → Process → List Call × ℕ
outcome succeeds (exit code) = ([], code)
outcome succeeds (make c k) = let rest = outcome succeeds (k (succeeds c)) in (c ∷ rest.0, rest.1)
