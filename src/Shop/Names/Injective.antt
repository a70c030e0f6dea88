-- ===== src/Shop/Names/Injective.antt =====
-- When two Deployments or Services have the same name (`serviceResourceName`).
use Prim.Native.String.append
use text.Mathlib.TextLemmas.{append_cancel_left, append_cancel_right}
use shop_operator.Base.{
  ℕ, String, code, ◌<>◌, ◌≡◌, refl, sym, ◌∙◌, ap, Option, none, some, List, [], ◌∷◌, eqb,
  if◌then◌else◌,
}
use shop_operator.Api.{Shop}
use shop_operator.Shop.Microservice.{Microservice, shop_microservices}
use shop_operator.Shop.Names.{resource_name, service_resource_name}

-- The code of the last character, or the given number for the empty text.
unfoldable pub last_code : ℕ → String → ℕ
last_code d String.[] = d
last_code d (String.◌∷◌ c s) = last_code (code c) s

pub last_code-append :
    (d : ℕ) (s : String) (c : _) (t : String)
    → last_code d (s <> String.◌∷◌ c t) ≡ last_code (code c) t
unfolding last_code
last_code-append d String.[] c t = rw append.nil refl
last_code-append d (String.◌∷◌ b s) c t = rw append.cons (last_code-append (code b) s c t)

-- One of a list.
pub data Member {A : Type 0} (x : A) : List A → Type 0 where
  here : {xs : List A} → Member x (x ∷ xs)
  there : {y : A} {xs : List A} → Member x xs → Member x (y ∷ xs)

-- The first microservice whose name ends in a character.
by_last : ℕ → List Microservice → Option Microservice
by_last c [] = none
by_last c (m ∷ ms) = if eqb (last_code 0 m.name) c then some m else by_last c ms

by_last_finds :
    (m : Microservice)
    → Member m shop_microservices
    → by_last (last_code 0 m.name) shop_microservices ≡ some m
unfolding by_last last_code
by_last_finds m here = refl
by_last_finds m (there here) = refl
by_last_finds m (there (there here)) = refl
by_last_finds m (there (there (there here))) = refl
by_last_finds m (there (there (there (there here)))) = refl
by_last_finds m (there (there (there (there (there x))))) = elim x [ ]

pub last_code-service_resource_name :
    (s : Shop) (m : Microservice)
    → Member m shop_microservices
    → last_code 0 (service_resource_name s m) ≡ last_code 0 m.name
unfolding service_resource_name last_code
last_code-service_resource_name s m here = last_code-append 0 (resource_name s) "-" "auth"
last_code-service_resource_name s m (there here) = last_code-append 0 (resource_name s) "-" "order"
last_code-service_resource_name s m (there (there here)) =
    last_code-append 0 (resource_name s) "-" "payment"
last_code-service_resource_name s m (there (there (there here))) =
    last_code-append 0 (resource_name s) "-" "inventory"
last_code-service_resource_name s m (there (there (there (there here)))) =
    last_code-append 0 (resource_name s) "-" "frontend"
last_code-service_resource_name s m (there (there (there (there (there x))))) = elim x [ ]

resource_name_inj :
    (s s' : Shop) (suffix : String)
    → resource_name s <> suffix ≡ resource_name s' <> suffix
    → s.metadata.name ≡ s'.metadata.name
unfolding resource_name
resource_name_inj s s' suffix e =
    append_cancel_left "shop-" s.metadata.name s'.metadata.name
      (append_cancel_right (resource_name s) (resource_name s') suffix e)

-- Two microservices of two Shops have the same name for their Deployment and Service only if the
-- Shops have the same name and the microservices are the same.
pub service_resource_name_inj :
    (s s' : Shop) (m m' : Microservice)
    → Member m shop_microservices
    → Member m' shop_microservices
    → service_resource_name s m ≡ service_resource_name s' m'
    → (s.metadata.name ≡ s'.metadata.name) × (m ≡ m')
unfolding service_resource_name
service_resource_name_inj s s' m m' mem mem' e =
    let last : last_code 0 m.name ≡ last_code 0 m'.name =
      sym (last_code-service_resource_name s m mem)
      ∙ ap (last_code 0) e
      ∙ last_code-service_resource_name s' m' mem' in
    let same : m ≡ m' = cc (
      sym (by_last_finds m mem)
      ∙ ap (λ c. by_last c shop_microservices) last
      ∙ by_last_finds m' mem') in
    (
      resource_name_inj s s' ("-" <> m.name)
          (e ∙ ap (λ (x : Microservice). resource_name s' <> "-" <> x.name) (sym same)),
      same,
    )
