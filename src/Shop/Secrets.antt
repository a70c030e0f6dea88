-- ===== src/Shop/Secrets.antt =====
-- `randomPassword`, `ensureAuthSecret` and `ensureRedisAuthSecret` of
-- internal/controller/shop_controller.go
pub mod Password
pub mod Decoding
use Prim.Native.String.{slice}
use shop_operator.Base.{ℕ, ◌+◌, ◌*◌, ◌/◌, ◌%◌, String, ◌<>◌, List, [], ◌∷◌, if◌then◌else◌}
use shop_operator.Base.Text.{StringMap}
use shop_operator.Api.{Shop}
use shop_operator.Kube.Objects.{Secret, secret, shop, named, key_of}
use shop_operator.Kube.Prog.{
  is_not_found, Result, ok, err, get, create, read_random, M, request, pure, fail, lift, bind,
  ◌>>=◌, ◌>>◌,
}
use shop_operator.Kube.Library.{Library}
use shop_operator.Shop.Names.{resource_name}

-- The alphabet of `base64.RawURLEncoding`.
abbrev pub letter : ℕ → String
letter j = slice "ABCDEFGHIJKLMNOPQRSTUVWXYZabcdefghijklmnopqrstuvwxyz0123456789-_" j (j + 1)

-- The character of the last six bits.
abbrev pub symbol : ℕ → String
symbol i = letter (i % 64)

-- `EncodeToString`, with no padding
unfoldable pub encode_base64 : List ℕ → String
encode_base64 [] = ""
encode_base64 (a ∷ []) = symbol (a / 4) <> symbol (a * 16)
encode_base64 (a ∷ b ∷ []) = symbol (a / 4) <> symbol (a * 16 + b / 16) <> symbol (b * 4)
encode_base64 (a ∷ b ∷ c ∷ rest) =
    symbol (a / 4)
    <> symbol (a * 16 + b / 16)
    <> symbol (b * 4 + c / 64)
    <> symbol c
    <> encode_base64 rest

unfoldable pub random_password : M String
unfolding encode_base64
random_password = request (read_random 24) >>= λ bytes. pure (encode_base64 bytes)

module _ (lib : Library) (s : Shop) where
  -- A new Secret with the given texts, owned by the Shop.
  abbrev pub create_owned_secret : Secret → StringMap String → M Secret
  create_owned_secret o string_data =
      lift (lib.set_controller_reference shop s.metadata o.metadata) >>= λ owned.
      request (create secret (record o { metadata = owned; string_data = string_data }))

  abbrev pub blank_secret : String → Secret
  blank_secret name = record {
    metadata = named s.metadata.namespace name;
    content = [];
    string_data = [];
  }

  abbrev pub auth_secret_if_absent : String → Result Secret → M String
  auth_secret_if_absent name (ok existing) = pure name
  auth_secret_if_absent name (err e) =
      if is_not_found e
      then (random_password >>= λ access. random_password >>= λ refresh.
          create_owned_secret (blank_secret name) (("access", access) ∷ ("refresh", refresh) ∷ [])
          >> pure name)
      else fail e

  unfoldable pub ensure_auth_secret : M String
  unfolding resource_name random_password
  ensure_auth_secret =
      let name = resource_name s <> "-auth-jwt" in
      bind (request (get secret (key_of (blank_secret name).metadata))) (auth_secret_if_absent name)

  abbrev pub redis_secret_if_absent : String → Result Secret → M (Unit {0})
  redis_secret_if_absent name (ok existing) = pure tt
  redis_secret_if_absent name (err e) =
      if is_not_found e
      then (random_password >>= λ password.
          create_owned_secret (blank_secret name) (("password", password) ∷ []) >> pure tt)
      else fail e

  unfoldable pub ensure_redis_auth_secret : String → M (Unit {0})
  unfolding random_password
  ensure_redis_auth_secret name =
      bind (request (get secret (key_of (blank_secret name).metadata)))
        (redis_secret_if_absent name)
