-- ===== src/Discord/Wire/Guarantees.antt =====
-- What the DiscordChannel controller guarantees of its HTTP requests.
use mathlib.Core.Path.{subst}
use shop_operator.Base.{String, ◌<>◌, none, some, [], ◌∷◌}
use shop_operator.Kube.Json.{text, number, obj}
use shop_operator.Kube.Objects.{Key}
use shop_operator.Kube.Prog.{
  Result, ok, err, HttpRequest, HttpResponse, Request, Response, get, create, update, update_status,
  read_random, http_do, create_channel, delete_channel, create_webhook, Prog, ret, call, M,
}
use shop_operator.Kube.Journal.{Journal, Rule, journal}
use shop_operator.Kube.Lawful.{BuildsRequests, KeepsFinalizers}
use shop_operator.Kube.Library.{Library}
use shop_operator.Kube.Monitor.{Safe, Safe-bind}
use shop_operator.Kube.Reconcile.{Requeue}
use shop_operator.Discord.ChannelName.{sanitize_discord_channel_name}
use shop_operator.Discord.Client.{api_client}
use shop_operator.Discord.Client.Requests.{
  Answer, sends, IsDelete, Reports, Deleted, api_delete_channel-Safe,
}
use shop_operator.Discord.Client.Creation.{
  IsPost, Creates, channel_fields, webhook_fields, api_create_channel-Safe, api_create_webhook-Safe,
}
use shop_operator.Discord.Controller.{reconcile}
use shop_operator.Discord.Protocol.{Watch, start, watch, May, protocol, controller, Waits}
use shop_operator.Discord.Protocol.Guarantees.{reconcile-Safe}
use shop_operator.Discord.Wire.{answer, interpret, wired}
use shop_operator.Discord.Wire.Substitution.{interpret-reconcile}

-- A request to the API server.
abbrev IsCluster : Request → Type 0
IsCluster (get k key) = Unit
IsCluster (create k o) = Unit
IsCluster (update k o) = Unit
IsCluster (update_status k o) = Unit
IsCluster _ = ⊥

module _ (lib : Library) (law : BuildsRequests lib) (base_url : String) where
  -- The HTTP request of a call of the interface.
  abbrev pub Sends : Request → HttpRequest → Type 0
  Sends (create_channel token server_id name) r =
      IsPost lib law base_url token ("/guilds/" <> server_id <> "/channels")
        (obj (("name", text (sanitize_discord_channel_name lib name)) ∷ ("type", number 0) ∷ [])) r
  Sends (delete_channel token channel_id) r = IsDelete base_url token channel_id r
  Sends (create_webhook token channel_id name) r =
      IsPost lib law base_url token ("/channels/" <> channel_id <> "/webhooks")
        (obj (("name", text name) ∷ [])) r
  Sends _ r = ⊥

  -- What the HTTP answer says of the call.
  abbrev pub Means : (q : Request) → Answer → Response q → Type 0
  Means (create_channel token server_id name) x y = Creates lib 201 ("id" ∷ []) channel_fields y x
  Means (delete_channel token channel_id) x y = Reports Deleted y x
  Means (create_webhook token channel_id name) x y =
      Creates lib 200 ("id" ∷ "url" ∷ "token" ∷ []) webhook_fields y x
  Means _ x y = ⊥

  -- What an observer knows who sees the requests to the API server and to Discord.
  pub data Stands : Watch → Journal → Type 0 where
    begins : Stands start []
    asked :
        (q : Request) (x : Response q) (w : Watch) (l : Journal)
        → IsCluster q
        → Stands w l
        → Stands (watch lib q x w) ((q, x) ∷ l)
    sent :
        (q : Request) (r : HttpRequest) (x : Result HttpResponse) (y : Response q) (w : Watch)
        (l : Journal)
        → Sends q r
        → Means q (some x) y
        → Stands w l
        → Stands (watch lib q y w) ((http_do r, x) ∷ l)

  -- The requests that the protocol allows, those to Discord by HTTP.
  abbrev pub wire : Key → Key → Rule
  wire key bot (http_do r) l =
      (w : Watch) × (q : Request) × Stands w l × May lib key bot q w × Sends q r
  wire key bot (get k o) l = (w : Watch) × Stands w l × May lib key bot (get k o) w
  wire key bot (create k o) l = (w : Watch) × Stands w l × May lib key bot (create k o) w
  wire key bot (update k o) l = (w : Watch) × Stands w l × May lib key bot (update k o) w
  wire key bot (update_status k o) l =
      (w : Watch) × Stands w l × May lib key bot (update_status k o) w
  wire key bot _ l = ⊥

  abbrev pub Over : {A : Type 0} → (A → Watch → Type 0) → A → Journal → Type 0
  Over post a l = (w : Watch) × Stands w l × post a w

  module _ (key bot : Key) {A : Type 0} (P : HttpRequest → Type 0) (post : A → Answer → Type 0)
      (known : A → Journal → Type 0) where
    answered-wire :
        (p : Prog A) (x : Result HttpResponse) (l : Journal)
        → Safe (sends P) post p (some x)
        → ((y : A) → post y (some x) → known y l)
        → Safe (journal (wire key bot)) known p l
    answered-wire (ret y) x l h told = told y h
    answered-wire (call (http_do r) k) x l ((early, fits), h) told = cc
    answered-wire (call (get _ _) k) x l (h, _) told = absurd h
    answered-wire (call (create _ _) k) x l (h, _) told = absurd h
    answered-wire (call (update _ _) k) x l (h, _) told = absurd h
    answered-wire (call (update_status _ _) k) x l (h, _) told = absurd h
    answered-wire (call (read_random _) k) x l (h, _) told = absurd h
    answered-wire (call (create_channel _ _ _) k) x l (h, _) told = absurd h
    answered-wire (call (delete_channel _ _) k) x l (h, _) told = absurd h
    answered-wire (call (create_webhook _ _ _) k) x l (h, _) told = absurd h

    -- A call that makes at most one HTTP request.
    single-wire :
        (p : Prog A) (l : Journal)
        → Safe (sends P) post p none
        → ((r : HttpRequest) → P r → wire key bot (http_do r) l)
        → ((y : A) → post y none → known y l)
        → ((r : HttpRequest) (x : Result HttpResponse) (y : A)
            → P r
            → post y (some x)
            → known y ((http_do r, x) ∷ l))
        → Safe (journal (wire key bot)) known p l
    single-wire (ret y) l h may unsent told = unsent y h
    single-wire (call (http_do r) k) l ((early, fits), h) may unsent told = (
      may r fits,
      λ x. answered-wire (k x) x ((http_do r, x) ∷ l) (h x) (λ y g. told r x y fits g),
    )
    single-wire (call (get _ _) k) l (h, _) may unsent told = absurd h
    single-wire (call (create _ _) k) l (h, _) may unsent told = absurd h
    single-wire (call (update _ _) k) l (h, _) may unsent told = absurd h
    single-wire (call (update_status _ _) k) l (h, _) may unsent told = absurd h
    single-wire (call (read_random _) k) l (h, _) may unsent told = absurd h
    single-wire (call (create_channel _ _ _) k) l (h, _) may unsent told = absurd h
    single-wire (call (delete_channel _ _) k) l (h, _) may unsent told = absurd h
    single-wire (call (create_webhook _ _ _) k) l (h, _) may unsent told = absurd h

  module _ (key bot : Key) where
    -- Every request of the interface, as the client over HTTP answers it.
    answer-wire :
        (q : Request) (w : Watch) (l : Journal)
        → Stands w l
        → May lib key bot q w
        → Safe
            (journal (wire key bot))
            (λ x l'. Stands (watch lib q x w) l')
            (answer (api_client lib base_url) q)
            l
    answer-wire (get k o) w l st may = ((w, st, may), λ x. asked (get k o) x w l tt st)
    answer-wire (create k o) w l st may = ((w, st, may), λ x. asked (create k o) x w l tt st)
    answer-wire (update k o) w l st may = ((w, st, may), λ x. asked (update k o) x w l tt st)
    answer-wire (update_status k o) w l st may =
        ((w, st, may), λ x. asked (update_status k o) x w l tt st)
    answer-wire (read_random n) w l st may = absurd may
    answer-wire (http_do r) w l st may = absurd may
    answer-wire (create_channel token server_id name) w l st may =
        single-wire key bot _ (Creates lib 201 ("id" ∷ []) channel_fields) _ _ l
          (api_create_channel-Safe lib law base_url token server_id name)
          (λ r fits. (w, create_channel token server_id name, st, may, fits))
          (elim [ ok y ↦ λ h. cc | err e ↦ λ h. st ])
          (λ r x y fits told. sent (create_channel token server_id name) r x y w l fits told st)
    answer-wire (delete_channel token channel_id) w l st may =
        single-wire key bot _ (Reports Deleted) _ _ l
          (api_delete_channel-Safe lib law base_url token channel_id)
          (λ r fits. (w, delete_channel token channel_id, st, may, fits))
          (elim [ ok y ↦ λ h. cc | err e ↦ λ h. st ])
          (λ r x y fits told. sent (delete_channel token channel_id) r x y w l fits told st)
    answer-wire (create_webhook token channel_id name) w l st may =
        single-wire key bot _ (Creates lib 200 ("id" ∷ "url" ∷ "token" ∷ []) webhook_fields) _ _ l
          (api_create_webhook-Safe lib law base_url token channel_id name)
          (λ r fits. (w, create_webhook token channel_id name, st, may, fits))
          (elim [ ok y ↦ λ h. cc | err e ↦ λ h. st ])
          (λ r x y fits told. sent (create_webhook token channel_id name) r x y w l fits told st)

    interpret-wire :
        {A : Type 0} (p : Prog A) (post : A → Watch → Type 0) (w : Watch) (l : Journal)
        → Stands w l
        → Safe (protocol lib key bot) post p w
        → Safe (journal (wire key bot)) (Over post) (interpret (api_client lib base_url) p) l
    unfolding interpret
    interpret-wire (ret a) post w l st h = (w, st, h)
    interpret-wire (call q k) post w l st (may, h) =
        Safe-bind (journal (wire key bot)) (answer (api_client lib base_url) q)
          (λ x. interpret (api_client lib base_url) (k x)) (λ x l'. Stands (watch lib q x w) l')
          (Over post) l (answer-wire q w l st may)
          (λ x l' st'. interpret-wire (k x) post (watch lib q x w) l' st' (h x))

    -- If requests are built as asked for, and adding and removing a finalizer does that and changes
    -- nothing else, then whatever the API server and Discord answer, at any point of a reconcile of
    -- a DiscordChannel with the client over HTTP: every HTTP request is the DELETE or the POST of
    -- a call that the protocol of the controller allows after the answers so far, an HTTP answer
    -- being read by its status code and its body; and so is every request to the API server. A
    -- reconcile without an error leaves no created channel unrecorded, and asks to be called again
    -- after five minutes or not at all.
    pub reconcile-wire :
        (finalizers : KeepsFinalizers lib)
        → Safe (journal (wire key bot)) (Over Waits) (reconcile (wired lib base_url bot) key) []
    reconcile-wire finalizers =
        subst (λ (p : M Requeue). Safe (journal (wire key bot)) (Over Waits) p [])
          (interpret-reconcile lib base_url bot key)
          (interpret-wire (reconcile (controller lib bot) key) Waits start [] begins
            (reconcile-Safe lib finalizers key bot))
