-- ===== src/Kube/Json.antt =====
-- JSON values: the bodies of unstructured objects, the dashboard, the bodies of HTTP requests.
use shop_operator.Base.{ℕ, String, Bool, List, [], ◌∷◌}

mutual
  pub data Json : Type 0 where
    text : String → Json
    number : ℕ → Json
    flag : Bool → Json
    array : Items → Json
    object : Fields → Json

  pub data Items : Type 0 where
    nil : Items
    cons : Json → Items → Items

  pub data Fields : Type 0 where
    end : Fields
    field : String → Json → Fields → Fields

abbrev pub items : List Json → Items
items [] = nil
items (v ∷ vs) = cons v (items vs)

abbrev pub fields : List (String × Json) → Fields
fields [] = end
fields ((k, v) ∷ fs) = field k v (fields fs)

-- `[]any{…}` and `map[string]any{…}`
abbrev pub arr : List Json → Json
arr vs = array (items vs)

abbrev pub obj : List (String × Json) → Json
obj fs = object (fields fs)
