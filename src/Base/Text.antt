-- ===== src/Base/Text.antt =====
-- What the program uses of package fmt and of maps with string keys.
use mathlib.Core.Path.{subst, ◌≡◌, refl, sym, ap}
use mathlib.Core.Logic.{inl, inr}
use text.Mathlib.TextEquality.{eq_iff}
use Prim.Native.Nat.{ℕ, zero, suc, ◌+◌, ◌/◌, ◌%◌}
use Prim.Native.Char.{code}
use Prim.Native.String.{String, ◌++◌, slice}
use mathlib.Core.Bool.{Bool, true, false, ◌&&◌}
use mathlib.Core.Option.{Option, none, some}
use mathlib.Core.List.{List, [], ◌∷◌}
use text.Mathlib.Text.{◌==◌}
use shop_operator.Base.Tests.{ltb, if◌then◌else◌, Bool-cases}

digit : ℕ → String
digit d = slice "0123456789" d (d + 1)

-- One round for each decimal digit, the last first.
decimal_fuel : ℕ → ℕ → String
decimal_fuel zero n = ""
decimal_fuel (suc f) n =
    let rest = decimal_fuel f (n / 10) in if ltb n 10 then digit n else rest ++ digit (n % 10)

-- `%d` of a number that is not negative
unfoldable pub decimal : ℕ → String
unfolding decimal_fuel digit
decimal n = decimal_fuel (suc n) n

-- A Go map with string keys; each key stands once.
abbrev pub StringMap {ℓ} : Type ℓ → Type ℓ
StringMap V = List (String × V)

module _ {ℓ} {V : Type ℓ} where
  unfoldable pub lookup : String → StringMap V → Option V
  lookup k [] = none
  lookup k ((j, v) ∷ m) = if j == k then some v else lookup k m

  -- `m[k] = v`
  unfoldable pub insert : String → V → StringMap V → StringMap V
  insert k v [] = (k, v) ∷ []
  insert k v ((j, w) ∷ m) = if j == k then (k, v) ∷ m else (j, w) ∷ insert k v m

module _ {ℓ} {V : Type ℓ} where
  pub lookup-insert : (k : String) (v : V) (m : StringMap V) → lookup k (insert k v m) ≡ some v
  unfolding lookup insert
  lookup-insert k v [] = let here : (k == k) ≡ true = (eq_iff k k).1 refl in rw here refl
  lookup-insert k v ((j, w) ∷ m) = elim (Bool-cases (j == k)) [
    | inl equal ↦ let here : (k == k) ≡ true = (eq_iff k k).1 refl in rw (equal, here) refl
    | inr other ↦ rw (other, other) (lookup-insert k v m)
  ]

  pub lookup-insert_other :
      (k j : String) (v : V) (m : StringMap V)
      → (k == j) ≡ false
      → lookup j (insert k v m) ≡ lookup j m
  unfolding lookup insert
  lookup-insert_other k j v [] apart = rw apart refl
  lookup-insert_other k j v ((i, w) ∷ m) apart = elim (Bool-cases (i == k)) [
    | inl equal ↦
        let far : (i == j) ≡ false =
          subst (λ t. (t == j) ≡ false) (sym ((eq_iff i k).0 equal)) apart in
        rw (equal, apart, far) refl
    | inr other ↦ rw other (elim (Bool-cases (i == j)) [
      | inl here ↦ rw here refl
      | inr later ↦ rw later (lookup-insert_other k j v m apart)
    ])
  ]

  -- A key that has the value keeps it.
  pub insert_kept : (k : String) (v : V) (m : StringMap V) → lookup k m ≡ some v → insert k v m ≡ m
  unfolding lookup insert
  insert_kept k v [] h = cc
  insert_kept k v ((j, w) ∷ m) h = elim (Bool-cases (j == k)) [
    | inl equal ↦
        let found : some w ≡ some v =
          subst (λ b. (if b then some w else lookup k m) ≡ some v) equal h in
        let value : w ≡ v = cc in rw equal λ i. (sym ((eq_iff j k).0 equal) i, sym value i) ∷ m
    | inr other ↦
        let found : lookup k m ≡ some v =
          subst (λ b. (if b then some w else lookup k m) ≡ some v) other h in
        rw other (ap (λ t. (j, w) ∷ t) (insert_kept k v m found))
  ]

-- Every character of a text passes a test of its number.
unfoldable pub all_codes : (ℕ → Bool) → String → Bool
all_codes p String.[] = true
all_codes p (String.◌∷◌ c s) = p (code c) && all_codes p s
