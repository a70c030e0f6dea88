-- ===== src/Kube/Library.antt =====
-- What the program takes from the process environment, from libraries that are not in the
-- repository (controller-runtime, apimachinery) and from packages of Go that are taken as a whole.
-- `Library` is a parameter of every controller; Kube/Lawful.antt states what the proofs rely on,
-- which is what the documentation of these packages says.
use shop_operator.Base.{ℕ, String, Char, Bool, Option, List, ◌==◌, ◌&&◌, if◌then◌else◌}
use shop_operator.Base.Text.{StringMap}
use shop_operator.Api.{ObjectMeta, Condition}
use shop_operator.Kube.Json.{Json}
use shop_operator.Kube.Objects.{Kind, Obj, meta_of, key_of}
use shop_operator.Kube.Prog.{
  Reason, is_not_found, Result, ok, err, HttpRequest, get, create, update, M, request, pure, fail,
  bind, ◌>>=◌,
}

pub record Library : Type 0 where
  -- `os.Getenv`
  pub get_env : String → String
  -- `%q` of package fmt
  pub quote : String → String
  -- `sha256.Sum256`, as 32 numbers below 256
  pub sum256 : String → List ℕ
  -- `unicode.ToLower`, which `strings.ToLower` applies to every character
  pub to_lower : Char → Char
  -- `json.Marshal`, and `json.Unmarshal` into a struct with the named fields of type string
  pub marshal : Json → Result String
  pub unmarshal : List String → String → Result (StringMap String)
  -- `http.NewRequestWithContext` and `Header.Set`
  pub new_request : HttpRequest → Result HttpRequest
  -- `controllerutil.SetControllerReference`: the kind and the metadata of the owner, then the object
  pub set_controller_reference : Kind → ObjectMeta → ObjectMeta → Result ObjectMeta
  pub contains_finalizer : ObjectMeta → String → Bool
  pub add_finalizer : ObjectMeta → String → ObjectMeta
  pub remove_finalizer : ObjectMeta → String → ObjectMeta
  -- `apimeta.SetStatusCondition`
  pub set_status_condition : List Condition → Condition → List Condition
  -- `unstructured.SetNestedField` and `unstructured.NestedInt64`
  pub set_nested_field : Json → Json → List String → Result Json
  pub nested_int64 : Json → List String → Result (Option ℕ)
  -- `controllerutil.CreateOrUpdate`
  pub create_or_update : (k : Kind) → Obj k → (Obj k → M (Obj k)) → M (Obj k)

-- `equality.Semantic.DeepEqual`
abbrev pub DeepEqual : Type 0
DeepEqual = (k : Kind) → Obj k → Obj k → Bool

abbrev pub same_key : ObjectMeta → ObjectMeta → Bool
same_key a b = (a.namespace == b.namespace) && (a.name == b.name)

-- The function may change anything but the name and the namespace.
abbrev pub checked : (k : Kind) → Obj k → Obj k → M (Obj k)
checked k o o' =
    if same_key (meta_of k o) (meta_of k o')
    then pure o'
    else fail (record {
      reason = Reason.other;
      text = "MutateFn cannot mutate object name and/or object namespace";
    })

abbrev pub write_back : DeepEqual → (k : Kind) → Obj k → Obj k → M (Obj k)
write_back same k old new = if same k old new then pure new else request (update k new)

abbrev pub create_or_update_from :
    DeepEqual → (k : Kind) → Obj k → (Obj k → M (Obj k)) → Result (Obj k) → M (Obj k)
create_or_update_from same k o f (ok old) =
    f old >>= λ new. checked k o new >>= write_back same k old
create_or_update_from same k o f (err e) =
    if is_not_found e
    then f o >>= (λ new. checked k o new >>= λ x. request (create k x))
    else fail e

-- The documentation of `CreateOrUpdate` as a program: an object that does not exist is changed by
-- the function and created; one that exists is changed, and updated if that made a difference.
abbrev pub create_or_update_doc : DeepEqual → (k : Kind) → Obj k → (Obj k → M (Obj k)) → M (Obj k)
create_or_update_doc same k o f =
    bind (request (get k (key_of (meta_of k o)))) (create_or_update_from same k o f)
