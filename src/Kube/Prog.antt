-- ===== src/Kube/Prog.antt =====
-- A controller as a program over the requests that it makes. The answers, errors among them, are
-- the environment's: a program goes on for every answer that a request may get.
-- An error has the reason that `apierrors.IsNotFound`, `apimeta.IsNoMatchError` and
-- `apierrors.IsAlreadyExists` test, and its text.
use shop_operator.Base.{ℕ, String, Bool, true, false, List}
use shop_operator.Base.Text.{StringMap}
use shop_operator.Kube.Objects.{Key, Kind, Obj}

pub data Reason : Type 0 where
  not_found already_exists no_match other : Reason

pub record Error : Type 0 where
  pub reason : Reason
  pub text : String

abbrev is_reason_not_found : Reason → Bool
is_reason_not_found not_found = true
is_reason_not_found _ = false

abbrev is_reason_no_match : Reason → Bool
is_reason_no_match no_match = true
is_reason_no_match _ = false

abbrev is_reason_already_exists : Reason → Bool
is_reason_already_exists already_exists = true
is_reason_already_exists _ = false

abbrev pub is_not_found : Error → Bool
is_not_found e = is_reason_not_found e.reason

abbrev pub is_no_match : Error → Bool
is_no_match e = is_reason_no_match e.reason

abbrev pub is_already_exists : Error → Bool
is_already_exists e = is_reason_already_exists e.reason

pub data Result (A : Type 0) : Type 0 where
  ok : A → Result A
  err : Error → Result A

-- An HTTP request of package discord, and its answer.
pub record HttpRequest : Type 0 where
  pub method : String
  pub url : String
  pub headers : StringMap String
  pub payload : String

pub record HttpResponse : Type 0 where
  pub status_code : ℕ
  -- The outcome of `io.ReadAll(resp.Body)`.
  pub content : Result String

pub data Request : Type 0 where
  get : Kind → Key → Request
  create : (k : Kind) → Obj k → Request
  update : (k : Kind) → Obj k → Request
  update_status : (k : Kind) → Obj k → Request
  read_random : ℕ → Request
  http_do : HttpRequest → Request
  -- The calls of the interface `discord.Client`: a token, then the server or the channel, the name.
  create_channel : String → String → String → Request
  delete_channel : String → String → Request
  create_webhook : String → String → String → Request

-- A write answers with the object that the server then holds, which the client stores into its
-- argument.
abbrev pub Response : Request → Type 0
Response (get k key) = Result (Obj k)
Response (create k o) = Result (Obj k)
Response (update k o) = Result (Obj k)
Response (update_status k o) = Result (Obj k)
Response (read_random n) = Result (List ℕ)
Response (http_do r) = Result HttpResponse
Response (create_channel token server_id name) = Result String
Response (delete_channel token channel_id) = Result (Unit {0})
Response (create_webhook token channel_id name) = Result (String × String)

pub data Prog (A : Type 0) : Type 0 where
  ret : A → Prog A
  call : (r : Request) → (Response r → Prog A) → Prog A

-- A Go function that returns `(A, error)`.
abbrev pub M : Type 0 → Type 0
M A = Prog (Result A)

abbrev pub bind : {A B : Type 0} → Prog A → (A → Prog B) → Prog B
bind (ret a) f = f a
bind (call r k) f = call r (λ x. bind (k x) f)

abbrev pub pure : {A : Type 0} → A → M A
pure a = ret (ok a)

abbrev pub fail : {A : Type 0} → Error → M A
fail e = ret (err e)

abbrev pub lift : {A : Type 0} → Result A → M A
lift r = ret r

abbrev pub request : (r : Request) → Prog (Response r)
request r = call r ret

-- `x, err := m; if err != nil { return …, err }`
abbrev pub propagate : {A B : Type 0} → (A → M B) → Result A → M B
propagate f (ok a) = f a
propagate f (err e) = ret (err e)

infixl 5 ◌>>=◌ ◌>>◌
abbrev pub ◌>>=◌ : {A B : Type 0} → M A → (A → M B) → M B
m >>= f = bind m (propagate f)

abbrev pub ◌>>◌ : {A B : Type 0} → M A → M B → M B
m >> n = bind m (propagate (λ _. n))

-- The error as a value, for code that looks at it.
abbrev pub try : {A : Type 0} → M A → M (Result A)
try m = bind m (λ r. ret (ok r))
