-- ===== src/Api.antt =====
-- The custom resources of api/v1 (shop_types.go, wallet_types.go, discordchannel_types.go), and
-- what the controllers read and write of an object's metadata and of a status condition.
-- TypeMeta and the list types are left out. A deletion timestamp is a number or absent.
use shop_operator.Base.{ℕ, String, Bool, Option, List}
use shop_operator.Base.Text.{StringMap}

pub record OwnerReference : Type 0 where
  pub kind : String
  pub name : String
  pub uid : String
  pub controller : Bool

pub record ObjectMeta : Type 0 where
  pub name : String
  pub namespace : String
  pub uid : String
  pub generation : ℕ
  pub deletion_timestamp : Option ℕ
  pub labels : StringMap String
  pub annotations : StringMap String
  pub finalizers : List String
  pub owner_references : List OwnerReference

pub data ConditionStatus : Type 0 where
  condition_true condition_false condition_unknown : ConditionStatus

pub record Condition : Type 0 where
  pub type : String
  pub status : ConditionStatus
  pub observed_generation : ℕ
  pub reason : String
  pub message : String

-- `Availability` and `DatabaseType` are strings in the source, and any text may stand there.
abbrev pub availability_standard : String
availability_standard = "standard"

abbrev pub availability_high : String
availability_high = "high"

abbrev pub database_standard : String
database_standard = "standard"

abbrev pub database_light : String
database_light = "light"

pub record WalletConfig : Type 0 where
  pub address : String

pub record DiscordChannelConfig : Type 0 where
  pub channel_name : String
  pub server_id : String

pub record ShopSpec : Type 0 where
  pub availability : String
  pub database_type : String
  pub display_name : String
  pub wallet : WalletConfig
  pub discord_channel : DiscordChannelConfig

pub record ShopStatus : Type 0 where
  pub conditions : List Condition
  pub ready : Bool
  pub replicas : ℕ

pub record Shop : Type 0 where
  pub metadata : ObjectMeta
  pub spec : ShopSpec
  pub status : ShopStatus

pub record WalletSpec : Type 0 where
  pub shop_ref : String
  pub address : String

pub record WalletStatus : Type 0 where
  pub conditions : List Condition
  pub address : String
  pub ready : Bool

pub record Wallet : Type 0 where
  pub metadata : ObjectMeta
  pub spec : WalletSpec
  pub status : WalletStatus

pub record DiscordChannelSpec : Type 0 where
  pub channel_name : String
  pub server_id : String

pub record DiscordChannelStatus : Type 0 where
  pub conditions : List Condition
  pub ready : Bool
  pub channel_id : String
  pub webhook_id : String

pub record DiscordChannel : Type 0 where
  pub metadata : ObjectMeta
  pub spec : DiscordChannelSpec
  pub status : DiscordChannelStatus
