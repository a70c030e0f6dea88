-- ===== src/Shop/Names/Labels.antt =====
-- Which Shops have Services with names that Kubernetes takes (`serviceResourceName`).
use Prim.Native.String.append
use text.Mathlib.TextPositions.{len-append}
use mathlib.Core.Bool.{and-eq-true_iff}
use shop_operator.Base.{
  ℕ, ◌+◌, ◌≤◌, Char, String, ◌<>◌, code, len, ◌≡◌, ◌↔◌, refl, Bool, true, ◌&&◌, ◌||◌, arith, leb,
  eqb,
}
use shop_operator.Base.Text.{all_codes}
use shop_operator.Api.{Shop}
use shop_operator.Shop.Microservice.{Microservice, shop_microservices}
use shop_operator.Shop.Names.{resource_name, service_resource_name}
use shop_operator.Shop.Names.Injective.{
  Member, here, there, last_code, last_code-service_resource_name,
}

abbrev is_lower : ℕ → Bool
is_lower c = leb b'a' c && leb c b'z'

abbrev is_alphanumeric : ℕ → Bool
is_alphanumeric c = is_lower c || leb b'0' c && leb c b'9'

abbrev pub is_label_char : ℕ → Bool
is_label_char c = is_alphanumeric c || eqb c b'-'

abbrev first_code : String → ℕ
first_code String.[] = 0
first_code (String.◌∷◌ c s) = code c

-- A label of RFC 1035, as the name of a Service must be: at most 63 lower-case letters, digits and
-- dashes, the first a letter, the last not a dash.
pub record IsLabel (s : String) : Type 0 where
  pub characters : all_codes is_label_char s ≡ true
  pub starts : is_lower (first_code s) ≡ true
  pub ends : is_alphanumeric (last_code 0 s) ≡ true
  pub short : len s ≤ 63

all_codes-append_iff :
    (p : ℕ → Bool) (s t : String)
    → (all_codes p (s <> t) ≡ true) ↔ ((all_codes p s ≡ true) × (all_codes p t ≡ true))
unfolding all_codes
all_codes-append_iff p String.[] t = rw append.nil (λ h. (refl, h), λ h. h.1)
all_codes-append_iff p (String.◌∷◌ c s) t =
    let later = all_codes-append_iff p s t in
    let whole = and-eq-true_iff (p (code c)) (all_codes p (s <> t)) in
    let part = and-eq-true_iff (p (code c)) (all_codes p s) in
    rw append.cons (
      λ h. (part.1 ((whole.0 h).0, (later.0 (whole.0 h).1).0), (later.0 (whole.0 h).1).1),
      λ h. whole.1 ((part.0 h.0).0, later.1 ((part.0 h.0).1, h.1)),
    )

-- The name of a microservice, as the end of a label.
record Ends (name : String) : Type 0 where
  characters : all_codes is_label_char name ≡ true
  ends : is_alphanumeric (last_code 0 name) ≡ true

shop_microservices-Ends : (m : Microservice) → Member m shop_microservices → Ends m.name
unfolding all_codes last_code
shop_microservices-Ends m here = record { characters = refl; ends = refl }
shop_microservices-Ends m (there here) = record { characters = refl; ends = refl }
shop_microservices-Ends m (there (there here)) = record { characters = refl; ends = refl }
shop_microservices-Ends m (there (there (there here))) = record { characters = refl; ends = refl }
shop_microservices-Ends m (there (there (there (there here)))) = record {
  characters = refl;
  ends = refl;
}
shop_microservices-Ends m (there (there (there (there (there x))))) = elim x [ ]

first_code-append : (c : Char) (s t u : String) → first_code ((String.◌∷◌ c s <> t) <> u) ≡ code c
first_code-append c s t u = rw (append.cons, append.cons) refl

module _ (name m : String) where
  -- `shop-<name>-<m>`
  abbrev joined : String
  joined = ("shop-" <> name) <> "-" <> m

  len-joined : len joined ≡ 6 + len name + len m
  len-joined =
      omega
        (arith, len-append ("shop-" <> name) ("-" <> m), len-append "shop-" name, len-append "-" m)

  joined_characters_iff :
      all_codes is_label_char m ≡ true
      → (all_codes is_label_char joined ≡ true) ↔ (all_codes is_label_char name ≡ true)
  unfolding all_codes
  joined_characters_iff valid =
      let outer = all_codes-append_iff is_label_char ("shop-" <> name) ("-" <> m) in
      let front = all_codes-append_iff is_label_char "shop-" name in
      let back = all_codes-append_iff is_label_char "-" m in
      (λ h. (front.0 (outer.0 h).0).1, λ h. outer.1 (front.1 (refl, h), back.1 (refl, valid)))

-- Whatever is in a Shop: the name of the Deployment and of the Service of a microservice is a label
-- of RFC 1035, as Kubernetes requires it of a Service, exactly if the name of the Shop has nothing
-- but lower-case letters, digits and dashes, and is with the name of the microservice at most 57
-- bytes long.
pub service_resource_name-IsLabel_iff :
    (s : Shop) (m : Microservice)
    → Member m shop_microservices
    → IsLabel (service_resource_name s m)
      ↔ ((all_codes is_label_char s.metadata.name ≡ true) × (len s.metadata.name + len m.name ≤ 57))
unfolding service_resource_name resource_name
service_resource_name-IsLabel_iff s m member =
    let e = shop_microservices-Ends m member in
    let chars = joined_characters_iff s.metadata.name m.name e.characters in
    let length = len-joined s.metadata.name m.name in
    (
      λ label. (chars.0 label.characters, omega (arith, length, label.short)),
      λ (valid, short). record {
        characters = chars.1 valid;
        starts = rw (first_code-append "s" "hop-" s.metadata.name ("-" <> m.name)) refl;
        ends = rw (last_code-service_resource_name s m member) e.ends;
        short = omega (arith, length, short);
      },
    )
