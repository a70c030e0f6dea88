-- ===== src/Discord/Wire.antt =====
-- The DiscordChannel controller over HTTP: the calls of the interface `Client` replaced by those of
-- its implementation.
pub mod Substitution
pub mod Guarantees
use shop_operator.Base.{
  ℕ, String, ◌<>◌, ◌≡◌, refl, ◌∙◌, sym, ap, inl, inr, Bool, true, false, not, Option, none, some,
  [], ◌∷◌, ◌==◌, if◌then◌else◌, Bool-cases,
}
use shop_operator.Base.Text.{lookup}
use shop_operator.Api.{DiscordChannel, ObjectMeta}
use shop_operator.Kube.Objects.{Key, Secret, discord_channel}
use shop_operator.Kube.Prog.{
  Error, is_not_found, is_already_exists, Result, ok, err, Request, Response, get, create, update,
  update_status, read_random, http_do, create_channel, delete_channel, create_webhook, Prog, ret,
  call, bind, M, request, pure, propagate, lift, ◌>>=◌, ◌>>◌, try,
}
use shop_operator.Kube.Reconcile.{Requeue}
use shop_operator.Kube.Library.{Library}
use shop_operator.Kube.Run.{Handler, run, run-bind}
use shop_operator.Discord.Client.{Client, api_client, api_create_channel}
use shop_operator.Discord.Controller.{
  Reconciler, discord_channel_finalizer, reconcile, with_channel, with_secret, with_token,
  by_deletion, provision, finalize, after_finalizer, ensure_finalizer, ensure_channel,
  ensure_webhook, record_channel, record_webhook, report, store_webhook, create_webhook_secret,
  tolerate_existing, name_webhook,
}
use shop_operator.Discord.Protocol.{controller}

module _ (c : Client) where
  -- How a client answers a request: with its own calls for those of the interface.
  abbrev pub answer : (q : Request) → Prog (Response q)
  answer (create_channel token server_id name) = c.create_channel token server_id name
  answer (delete_channel token channel_id) = c.delete_channel token channel_id
  answer (create_webhook token channel_id name) = c.create_webhook token channel_id name
  answer (get k key) = request (get k key)
  answer (create k o) = request (create k o)
  answer (update k o) = request (update k o)
  answer (update_status k o) = request (update_status k o)
  answer (read_random n) = request (read_random n)
  answer (http_do r) = request (http_do r)

  unfoldable pub interpret : {A : Type 0} → Prog A → Prog A
  interpret (ret a) = ret a
  interpret (call q k) = bind (answer q) (λ x. interpret (k x))

pub bind-bind :
    {A B C : Type 0} (p : Prog A) (f : A → Prog B) (g : B → Prog C)
    → bind (bind p f) g ≡ bind p (λ a. bind (f a) g)
bind-bind (ret a) f g = refl
bind-bind (call q k) f g = λ i. call q (λ x. bind-bind (k x) f g i)

pub same_call :
    {A : Type 0} {q : Request} {k k' : Response q → Prog A}
    → ((x : Response q) → k x ≡ k' x)
    → call q k ≡ call q k'
same_call {q} h = λ i. call q (λ x. h x i)

pub same_bind :
    {A B : Type 0} (p : Prog A) {f f' : A → Prog B} → ((a : A) → f a ≡ f' a) → bind p f ≡ bind p f'
same_bind p h = λ i. bind p (λ a. h a i)

-- The controller with the Discord client over HTTP.
abbrev pub wired : Library → String → Key → Reconciler
wired lib base_url bot = record (controller lib bot) { discord = api_client lib base_url }
