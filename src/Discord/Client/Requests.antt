-- ===== src/Discord/Client/Requests.antt =====
-- The HTTP requests of `ApiClient`, and which answers it takes for success.
use shop_operator.Base.{
  ℕ, String, ◌<>◌, ◌≡◌, ◌↔◌, refl, inl, inr, ◌⊎◌, true, ◌||◌, Option, none, some, [], ◌∷◌, ap,
  arith, eqb, Bool-cases,
}
use shop_operator.Base.Text.{StringMap, insert}
use shop_operator.Kube.Prog.{
  Result, ok, err, HttpRequest, HttpResponse, Request, Response, http_do, propagate, lift, pure,
  ◌>>=◌,
}
use shop_operator.Kube.Lawful.{BuildsRequests}
use shop_operator.Kube.Library.{Library}
use shop_operator.Kube.Monitor.{Monitor, Safe, Safe-bind, Safe-propagate}
use shop_operator.Discord.Client.{
  wrap, send, api_delete_channel, authorize, send_delete, deleted_channel,
}

-- The answer to the request, once it is there.
abbrev pub Answer : Type 0
Answer = Option (Result HttpResponse)

abbrev answered : (q : Request) → Response q → Answer → Answer
answered (http_do r) x s = some x
answered _ x s = s

-- One HTTP request and no other, as described.
abbrev Single : (HttpRequest → Type 0) → Request → Answer → Type 0
Single P (http_do r) s = (s ≡ none) × P r
Single P _ s = ⊥

abbrev pub sends : (HttpRequest → Type 0) → Monitor
sends P = record { State = Answer; next = answered; allowed = Single P }

abbrev pub json_headers : String → StringMap String
json_headers token = ("Content-Type", "application/json") ∷ ("Authorization", "Bot " <> token) ∷ []

-- The answer has a status code of the set and a body that could be read.
abbrev pub Got : (ℕ → Type 0) → Answer → Type 0
Got P s =
    (resp : HttpResponse) × (body : String) × (s ≡ some (ok resp))
    × (resp.content ≡ ok body)
    × P resp.status_code

abbrev pub Deleted : ℕ → Type 0
Deleted n = (n ≡ 200) ⊎ (n ≡ 204) ⊎ (n ≡ 404)

-- Success is reported exactly for such an answer.
abbrev pub Reports : (ℕ → Type 0) → Result (Unit {0}) → Answer → Type 0
Reports P (ok u) s = Got P s
Reports P (err e) s = ¬ Got P s

abbrev pub IsDelete : String → String → String → HttpRequest → Type 0
IsDelete base_url token channel_id q = q ≡ record {
  method = "DELETE";
  url = base_url <> "/channels/" <> channel_id;
  headers = ("Authorization", "Bot " <> token) ∷ [];
  payload = "";
}

-- The answer to a request that was sent: its status code and its body.
abbrev pub Sent : Result (ℕ × String) → Answer → Type 0
Sent (ok (n, body)) s =
    (resp : HttpResponse) × (s ≡ some (ok resp)) × (resp.content ≡ ok body) × (resp.status_code ≡ n)
Sent (err e) s = ¬ Got (λ n. Unit) s

pub wrap-eq-ok :
    {A : Type 0} (context : String) (r : Result A) {a : A} → wrap context r ≡ ok a → r ≡ ok a
wrap-eq-ok context (ok a) h = h
wrap-eq-ok context (err e) h = cc

Got-weaken : (P : ℕ → Type 0) {s : Answer} → Got P s → Got (λ n. Unit) s
Got-weaken P (resp, body, a, b, p) = (resp, body, a, b, tt)

read-Sent :
    (P : HttpRequest → Type 0) (resp : HttpResponse) (x : Result String)
    → resp.content ≡ x
    → Safe
        (sends P)
        Sent
        (propagate
          (λ body. pure (resp.status_code, body))
          (wrap "failed to read response discord API" x))
        (some (ok resp))
read-Sent P resp (ok body) e = (resp, refl, e, refl)
read-Sent P resp (err f) e = λ (r, body, same, content, _). cc

answer_read-Sent :
    (P : HttpRequest → Type 0) (context : String) (x : Result HttpResponse)
    → Safe
        (sends P)
        Sent
        (propagate
          (λ (resp : HttpResponse).
            lift (wrap "failed to read response discord API" resp.content) >>= λ body.
            pure (resp.status_code, body))
          (wrap context x))
        (some x)
answer_read-Sent P context (ok resp) = read-Sent P resp resp.content refl
answer_read-Sent P context (err e) = λ (r, body, same, content, _). cc

is_Deleted_iff : (n : ℕ) → ((eqb n 200 || eqb n 204 || eqb n 404) ≡ true) ↔ Deleted n
is_Deleted_iff n = ground arith

Got-status :
    (P : ℕ → Type 0) (s : Answer) (resp : HttpResponse)
    → s ≡ some (ok resp)
    → Got P s
    → P resp.status_code
Got-status P s resp at (resp', body, at', content, p) = let same : resp' ≡ resp = cc in rw same at p

deleted_channel-Reports :
    (P : HttpRequest → Type 0) (x : Result (ℕ × String)) (s : Answer)
    → Sent x s
    → Safe (sends P) (Reports Deleted) (propagate deleted_channel x) s
deleted_channel-Reports P (err e) s sent = λ g. sent (Got-weaken Deleted g)
deleted_channel-Reports P (ok (n, body)) s (resp, at, content, code) =
    elim (Bool-cases (eqb n 200 || eqb n 204 || eqb n 404)) [
      | inl gone ↦ rw gone (resp, body, at, content, rw code ((is_Deleted_iff n).0 gone))
      | inr there ↦
          rw there
            λ g. cc (there, (is_Deleted_iff n).1 (rw code at (Got-status Deleted s resp at g)))
    ]

pub send-Safe :
    (P : HttpRequest → Type 0) (context : String) (q : HttpRequest)
    → P q
    → Safe (sends P) Sent (send context q) none
unfolding send
send-Safe P context q fits = ((refl, fits), λ x. answer_read-Sent P context x)

module _ (lib : Library) (law : BuildsRequests lib) (base_url token : String) where
  -- If requests are built as asked for, `DeleteChannel` makes one request, DELETE of the channel
  -- with the bot's token, and reports success exactly when the answer has status 200, 204 or 404
  -- and its body can be read: a channel that is gone already counts as deleted.
  pub api_delete_channel-Safe :
      (channel_id : String)
      → Safe
          (sends (IsDelete base_url token channel_id))
          (Reports Deleted)
          (api_delete_channel lib base_url token channel_id)
          none
  unfolding api_delete_channel insert
  api_delete_channel-Safe channel_id =
      Safe-propagate _ (send_delete lib base_url token) _ (Reports Deleted) none
        (λ r built.
          Safe-bind (sends (IsDelete base_url token channel_id))
            (send "failed to delete discord channel" (authorize token r))
            (propagate deleted_channel) Sent (Reports Deleted) none
            (send-Safe (IsDelete base_url token channel_id) _ (authorize token r)
              (ap (authorize token) (law.builds _ r (wrap-eq-ok _ _ built))))
            (deleted_channel-Reports (IsDelete base_url token channel_id)))
        (λ e _ got. cc)
