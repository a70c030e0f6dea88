-- ===== src/Discord/Client/Creation.antt =====
-- `CreateChannel` and `CreateWebhook` of `ApiClient`: their requests, and which answers they take for
-- success.
use shop_operator.Base.{
  ℕ, String, ◌<>◌, ◌≡◌, refl, ◌∙◌, inl, inr, none, some, List, [], ◌∷◌, ap, arith, eqb,
  if◌then◌else◌, Bool-cases,
}
use shop_operator.Base.Text.{StringMap, insert, lookup}
use shop_operator.Kube.Json.{Json, text, number, obj}
use shop_operator.Kube.Prog.{
  Result, ok, err, HttpRequest, HttpResponse, M, propagate, lift, pure, fail, ◌>>=◌,
}
use shop_operator.Kube.Lawful.{BuildsRequests}
use shop_operator.Kube.Library.{Library}
use shop_operator.Kube.Monitor.{Safe, Safe-bind, Safe-propagate}
use shop_operator.Discord.ChannelName.{sanitize_discord_channel_name}
use shop_operator.Discord.Client.{
  or_empty, wrap, send, post_json, api_create_channel, api_create_webhook, unexpected_status,
  send_post, with_headers,
}
use shop_operator.Discord.Client.Requests.{Answer, sends, Sent, send-Safe, wrap-eq-ok, json_headers}

-- The answer has the status code, and its body decodes to the given fields.
abbrev pub Decoded : Library → ℕ → List String → StringMap String → Answer → Type 0
Decoded lib code names fields s =
    (resp : HttpResponse) × (body : String) × (s ≡ some (ok resp))
    × (resp.content ≡ ok body)
    × (resp.status_code ≡ code)
    × (lib.unmarshal names body ≡ ok fields)

-- Success with what is read from the fields, exactly for an answer that decodes.
abbrev pub Creates :
    {A : Type 0} → Library → ℕ → List String → (StringMap String → A) → Result A → Answer → Type 0
Creates lib code names from (ok a) s =
    (fields : StringMap String) × Decoded lib code names fields s × (a ≡ from fields)
Creates lib code names from (err e) s =
    ¬ ((fields : StringMap String) × Decoded lib code names fields s)

abbrev pub channel_fields : StringMap String → String
channel_fields fields = or_empty (lookup "id" fields)

abbrev pub webhook_fields : StringMap String → String × String
webhook_fields fields = (or_empty (lookup "id" fields), or_empty (lookup "token" fields))

module _ (lib : Library) {A : Type 0} (code : ℕ) (names : List String) (from : StringMap String → A)
    (P : HttpRequest → Type 0) where
  -- The part of `CreateChannel` and of `CreateWebhook` behind the request.
  abbrev created : ℕ × String → M A
  created answer =
      if eqb answer.0 code
      then (lift (wrap "failed to unmarshal response" (lib.unmarshal names answer.1)) >>= λ fields.
          pure (from fields))
      else fail (unexpected_status answer.0 answer.1)

  decoded-Creates :
      (x : Result (StringMap String)) (resp : HttpResponse) (body : String) (s : Answer)
      → s ≡ some (ok resp)
      → resp.content ≡ ok body
      → resp.status_code ≡ code
      → lib.unmarshal names body ≡ x
      → Safe
          (sends P)
          (Creates lib code names from)
          (propagate (λ fields. pure (from fields)) (wrap "failed to unmarshal response" x))
          s
  decoded-Creates (ok fields) resp body s at content status e =
      (fields, (resp, body, at, content, status, e), refl)
  decoded-Creates (err e') resp body s at content status e =
      λ (fields, (resp', body', at', content', status', e'')).
        let same : resp' ≡ resp = cc in
        let text : body' ≡ body = cc (ap (λ (r : HttpResponse). r.content) same) in
        cc (ap (lib.unmarshal names) text)

  created-Creates :
      (x : Result (ℕ × String)) (s : Answer)
      → Sent x s
      → Safe (sends P) (Creates lib code names from) (propagate created x) s
  created-Creates (err e) s sent =
      λ (fields, (resp, body, at, content, status, e')). sent (resp, body, at, content, tt)
  created-Creates (ok (n, body)) s (resp, at, content, status) = elim (Bool-cases (eqb n code)) [
    | inl fine ↦ rw fine (
        decoded-Creates (lib.unmarshal names body) resp body s at content (status ∙ ground arith)
          refl)
    | inr wrong ↦ rw wrong λ (fields, (resp', body', at', content', status', e)).
        let same : resp' ≡ resp = cc in
        let equal : n ≡ code =
          cc (status, status', ap (λ (r : HttpResponse). r.status_code) same) in
        absurd (ground (arith, equal))
  ]

module _ (lib : Library) (law : BuildsRequests lib) (base_url token : String) where
  abbrev pub IsPost : String → Json → HttpRequest → Type 0
  IsPost path body q =
      (payload : String) × (lib.marshal body ≡ ok payload)
      × (q ≡ record {
        method = "POST";
        url = base_url <> path;
        headers = json_headers token;
        payload = payload;
      })

  send_post-Safe :
      (path payload : String) (body : Json)
      → lib.marshal body ≡ ok payload
      → Safe
          (sends (IsPost path body))
          Sent
          (send_post lib base_url
            (base_url <> path)
            token
            "failed to create discord channel"
            payload)
          none
  unfolding insert
  send_post-Safe path payload body marshalled =
      Safe-propagate _ (λ r. send "failed to create discord channel" (with_headers token r)) _ Sent
        none
        (λ r built.
          send-Safe (IsPost path body) _ (with_headers token r)
            (payload, marshalled, ap (with_headers token) (law.builds _ r (wrap-eq-ok _ _ built))))
        (λ e _ (r, b, same, _, _). cc)

  post_json-Safe :
      (path : String) (body : Json)
      → Safe
          (sends (IsPost path body))
          Sent
          (post_json lib base_url (base_url <> path) token body)
          none
  unfolding post_json
  post_json-Safe path body =
      Safe-propagate _
        (send_post lib base_url (base_url <> path) token "failed to create discord channel") _ Sent
        none (λ payload marshalled. send_post-Safe path payload body (wrap-eq-ok _ _ marshalled))
        (λ e _ (r, b, same, _, _). cc)

  -- If requests are built as asked for, `CreateChannel` makes one request, POST of the sanitized
  -- name to the server's channels with the bot's token, and succeeds exactly when the answer has
  -- status 201 and decodes; its result is then the id in the answer.
  pub api_create_channel-Safe :
      (server_id name : String)
      → Safe
          (sends (
            IsPost ("/guilds/" <> server_id <> "/channels") (
              obj (
                ("name", text (sanitize_discord_channel_name lib name))
                ∷ ("type", number 0)
                ∷ []))))
          (Creates lib 201 ("id" ∷ []) channel_fields)
          (api_create_channel lib base_url token server_id name)
          none
  unfolding api_create_channel
  api_create_channel-Safe server_id name =
      Safe-bind _ _ _ Sent _ none (post_json-Safe _ _)
        (created-Creates lib 201 ("id" ∷ []) channel_fields _)

  -- If requests are built as asked for, `CreateWebhook` makes one request, POST of the name as it
  -- is to the channel's webhooks with the bot's token, and succeeds exactly when the answer has
  -- status 200 and decodes; its result is then the id and the token in the answer.
  pub api_create_webhook-Safe :
      (channel_id name : String)
      → Safe
          (sends
            (IsPost ("/channels/" <> channel_id <> "/webhooks") (obj (("name", text name) ∷ []))))
          (Creates lib 200 ("id" ∷ "url" ∷ "token" ∷ []) webhook_fields)
          (api_create_webhook lib base_url token channel_id name)
          none
  unfolding api_create_webhook
  api_create_webhook-Safe channel_id name =
      Safe-bind _ _ _ Sent _ none (post_json-Safe _ _)
        (created-Creates lib 200 ("id" ∷ "url" ∷ "token" ∷ []) webhook_fields _)
