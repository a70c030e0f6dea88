-- ===== src/Discord/Client.antt =====
-- internal/discord/client.go: the interface `Client` and its implementation `ApiClient`.
pub mod Requests
pub mod Creation
use shop_operator.Base.{
  ℕ, String, ◌<>◌, Bool, ◌||◌, Option, none, some, List, [], ◌∷◌, eqb, if◌then◌else◌,
}
use shop_operator.Base.Text.{decimal, lookup, insert}
use shop_operator.Kube.Json.{Json, text, number, obj}
use shop_operator.Kube.Prog.{
  Error, Reason, Result, ok, err, HttpRequest, HttpResponse, http_do, create_channel,
  delete_channel, create_webhook, M, request, pure, fail, lift, bind, ◌>>=◌,
}
use shop_operator.Kube.Library.{Library}
use shop_operator.Discord.ChannelName.{sanitize_discord_channel_name}

pub record Client : Type 0 where
  pub create_channel : (token server_id name : String) → M String
  pub delete_channel : (token channel_id : String) → M (Unit {0})
  pub create_webhook : (token channel_id name : String) → M (String × String)
  pub transform_into_url : (id token : String) → String

-- `TransformIntoUrl`
unfoldable pub webhook_url : String → String → String
webhook_url id token = "https://discord.com/api/webhooks/" <> id <> "/" <> token

-- The calls of the interface, left to the environment.
abbrev pub interface_client : Client
interface_client = record {
  create_channel = λ token server_id name. request (create_channel token server_id name);
  delete_channel = λ token channel_id. request (delete_channel token channel_id);
  create_webhook = λ token channel_id name. request (create_webhook token channel_id name);
  transform_into_url = webhook_url;
}

-- `fmt.Errorf("…: %w", err)`
abbrev pub wrap : {A : Type 0} → String → Result A → Result A
wrap context (ok a) = ok a
wrap context (err e) = err (record e { text = context <> ": " <> e.text })

abbrev pub unexpected_status : ℕ → String → Error
unexpected_status code body = record {
  reason = Reason.other;
  text = "discord API returned status " <> decimal code <> ": " <> body;
}

-- A field of a struct that `json.Unmarshal` did not set is the empty text.
abbrev pub or_empty : Option String → String
or_empty none = ""
or_empty (some s) = s

-- `http.Client.Do` and `io.ReadAll` of the body
unfoldable pub send : String → HttpRequest → M (ℕ × String)
send context r = do
  resp ← bind (request (http_do r)) (λ x. lift (wrap context x))
  body ← lift (wrap "failed to read response discord API" resp.content)
  pure (resp.status_code, body)

-- `httpReq.Header.Set("Authorization", "Bot "+token)`
abbrev pub authorize : String → HttpRequest → HttpRequest
authorize token r = record r { headers = insert "Authorization" ("Bot " <> token) r.headers }

-- The two headers of a request with a body.
abbrev pub with_headers : String → HttpRequest → HttpRequest
with_headers token r =
    authorize token (record r { headers = insert "Content-Type" "application/json" r.headers })

abbrev pub deleted_channel : ℕ × String → M (Unit {0})
deleted_channel answer =
    if eqb answer.0 200 || eqb answer.0 204 || eqb answer.0 404
    then pure tt
    else fail (unexpected_status answer.0 answer.1)

module _ (lib : Library) (base_url : String) where
  abbrev pub send_post : String → String → String → String → M (ℕ × String)
  send_post url token failure payload =
      lift (
        wrap "failed to build request" (
          lib.new_request (record { method = "POST"; url = url; headers = []; payload = payload })))
      >>= λ r. send failure (with_headers token r)

  unfoldable pub post_json : String → String → Json → M (ℕ × String)
  unfolding send
  post_json url token body =
      lift (wrap "failed to marshal req body" (lib.marshal body))
      >>= send_post url token "failed to create discord channel"

  abbrev pub created_channel : ℕ × String → M String
  created_channel answer =
      if eqb answer.0 201
      then (do
        created ← lift (wrap "failed to unmarshal response" (lib.unmarshal ("id" ∷ []) answer.1))
        pure (or_empty (lookup "id" created)))
      else fail (unexpected_status answer.0 answer.1)

  unfoldable pub api_create_channel : String → String → String → M String
  unfolding post_json
  api_create_channel token server_id name =
      post_json (base_url <> "/guilds/" <> server_id <> "/channels") token
        (obj (("name", text (sanitize_discord_channel_name lib name)) ∷ ("type", number 0) ∷ []))
      >>= created_channel

  abbrev pub created_webhook : ℕ × String → M (String × String)
  created_webhook answer =
      if eqb answer.0 200
      then (do
        created ← lift (
            wrap "failed to unmarshal response"
              (lib.unmarshal ("id" ∷ "url" ∷ "token" ∷ []) answer.1))
        pure (or_empty (lookup "id" created), or_empty (lookup "token" created)))
      else fail (unexpected_status answer.0 answer.1)

  unfoldable pub api_create_webhook : String → String → String → M (String × String)
  unfolding post_json
  api_create_webhook token channel_id name =
      post_json (base_url <> "/channels/" <> channel_id <> "/webhooks") token
        (obj (("name", text name) ∷ []))
      >>= created_webhook

  abbrev pub send_delete : String → HttpRequest → M (Unit {0})
  send_delete token r =
      send "failed to delete discord channel" (authorize token r) >>= deleted_channel

  unfoldable pub api_delete_channel : String → String → M (Unit {0})
  unfolding send
  api_delete_channel token channel_id =
      lift (
        wrap "failed to build request" (
          lib.new_request (record {
            method = "DELETE";
            url = base_url <> "/channels/" <> channel_id;
            headers = [];
            payload = "";
          })))
      >>= send_delete token

  -- `New`
  abbrev pub api_client : Client
  api_client = record {
    create_channel = api_create_channel;
    delete_channel = api_delete_channel;
    create_webhook = api_create_webhook;
    transform_into_url = webhook_url;
  }
