-- ===== src/Tests/Cluster.antt =====
-- A library that keeps the laws, and objects to run the controllers on.
use shop_operator.Base.{
  String, ◌<>◌, ◌≡◌, refl, ◌∙◌, ap, inl, inr, true, false, some, List, [], ◌∷◌, ◌==◌, eq_iff, any,
  if◌then◌else◌, Bool-cases,
}
use shop_operator.Api.{ObjectMeta, Shop, DiscordChannel}
use shop_operator.Kube.Objects.{Key, named, discord_channel}
use shop_operator.Kube.Prog.{Error, Reason, ok}
use shop_operator.Kube.Library.{Library, DeepEqual, create_or_update_doc}
use shop_operator.Kube.Lawful.{CreatesOrUpdates, SetsController, KeepsFinalizers, BuildsRequests}
use shop_operator.Discord.Controller.{discord_channel_finalizer}
use shop_operator.Discord.Protocol.Recovery.{World, IsNew}

-- Objects are updated whether they differ or not.
abbrev never_equal : DeepEqual
never_equal k a b = false

abbrev without : String → List String → List String
without f [] = []
without f (g ∷ gs) = let rest = without f gs in if g == f then rest else g ∷ rest

abbrev pub own : ObjectMeta → ObjectMeta → ObjectMeta
own owner o = record o {
  owner_references =
      record { kind = "Shop"; name = owner.name; uid = owner.uid; controller = true }
      ∷ o.owner_references;
}

abbrev pub a_library : Library
a_library = record {
  get_env = λ name. "";
  quote = λ s. "\"" <> s <> "\"";
  sum256 = λ s. 222 ∷ 173 ∷ 190 ∷ 239 ∷ [];
  to_lower = λ c. c;
  marshal = λ j. ok "{}";
  unmarshal = λ names body. ok (("id", body) ∷ []);
  new_request = λ q. ok q;
  set_controller_reference = λ k owner o. ok (own owner o);
  contains_finalizer = λ o f. any (λ g. g == f) o.finalizers;
  add_finalizer = λ o f. record o { finalizers = f ∷ o.finalizers };
  remove_finalizer = λ o f. record o { finalizers = without f o.finalizers };
  set_status_condition = λ conditions c. c ∷ [];
  set_nested_field = λ body v path. ok v;
  nested_int64 = λ body path. ok (some 1);
  create_or_update = create_or_update_doc never_equal;
}

pub a_library-CreatesOrUpdates : CreatesOrUpdates a_library
a_library-CreatesOrUpdates = record { same = never_equal; refines = λ m k o f post g h. h }

pub text_refl : (s : String) → (s == s) ≡ true
text_refl s = (eq_iff s s).1 refl

pub a_library-SetsController : SetsController a_library
a_library-SetsController = record {
  keeps = λ k owner o result e.
      let owned : result ≡ own owner o = cc in
      ap (λ (r : ObjectMeta). record r { owner_references = o.owner_references }) owned;
  controls = λ k owner o result e.
      let owned : result ≡ own owner o = cc in
      ap (λ (m : ObjectMeta). any (λ r. r.uid == owner.uid) m.owner_references) owned
      ∙ rw (text_refl owner.uid) refl;
}

any-without : (f : String) (gs : List String) → any (λ g. g == f) (without f gs) ≡ false
any-without f [] = refl
any-without f (g ∷ gs) = elim (Bool-cases (g == f)) [
  | inl equal ↦ rw equal (any-without f gs)
  | inr other ↦ rw (other, other) (any-without f gs)
]

pub a_library-KeepsFinalizers : KeepsFinalizers a_library
a_library-KeepsFinalizers = record {
  contains-add = λ o f. rw (text_refl f) refl;
  contains-remove = λ o f. any-without f o.finalizers;
  add_keeps = λ o f. refl;
  remove_keeps = λ o f. refl;
}

pub a_library-BuildsRequests : BuildsRequests a_library
a_library-BuildsRequests = record { builds = λ q q' e. cc }

abbrev pub key : Key
key = record { namespace = "shops"; name = "toys" }

abbrev pub bot : Key
bot = record { namespace = "operator"; name = "discord-bot" }

abbrev pub an_error : Error
an_error = record { reason = Reason.other; text = "the server is busy" }

abbrev pub a_shop : Shop
a_shop = record {
  metadata = record (named "shops" "toys") { uid = "1" };
  spec = record {
    availability = "high";
    database_type = "standard";
    display_name = "Toys";
    wallet = record { address = "0x52908400098527886E0F7030069857D2E4169EE7" };
    discord_channel = record { channel_name = "toys"; server_id = "7" };
  };
  status = record { conditions = []; ready = false; replicas = 0 };
}

-- An object with its finalizer, for a channel and a webhook with the given ids.
abbrev pub a_discord_channel : String → String → DiscordChannel
a_discord_channel channel_id webhook_id = record {
  metadata = record (named "shops" "shop-toys-discord") {
    finalizers = discord_channel_finalizer ∷ [];
  };
  spec = record { channel_name = "toys"; server_id = "7" };
  status = record {
    conditions = [];
    ready = false;
    channel_id = channel_id;
    webhook_id = webhook_id;
  };
}

pub a_library-signs :
    (owner : ObjectMeta) (name : String)
    → (o : ObjectMeta) × (a_library.set_controller_reference discord_channel owner
          (named owner.namespace name)
        ≡ ok o)
a_library-signs owner name = (own owner (named owner.namespace name), refl)

abbrev pub a_world : World
a_world = record { object = a_discord_channel "" ""; channels = []; webhooks = [] }

pub a_world-IsNew :
    IsNew a_library key bot "secret" "42"
      ("9", "t")
      an_error
      a_library-KeepsFinalizers
      a_library-signs
      a_world
a_world-IsNew = record {
  live = refl;
  channel_id = refl;
  webhook_id = refl;
  channels = refl;
  webhooks = refl;
}
