-- ===== src/Wallet/Address.antt =====
-- internal/wallet/address.go: the test of a payout address, and what it accepts.
use Prim.Native.String.{count}
use Prim.Native.String.count as count_laws
use Prim.Native.String.append
use mathlib.Core.Bool.{and-eq-true_iff}
use text.Mathlib.TextEquality.{Char-path}
use shop_operator.Base.{
  ℕ, zero, suc, String, Char, code, ◌<>◌, ◌*◌, ◌≡◌, refl, sym, ◌↔◌, ◌⊎◌, Bool, true, false, ◌&&◌,
  ◌||◌, ◌≤◌, arith, leb, eqb, ap,
}

-- `[0-9a-fA-F]`
unfoldable pub is_hex_digit : ℕ → Bool
is_hex_digit c = leb b'0' c && leb c b'9' || leb b'a' c && leb c b'f' || leb b'A' c && leb c b'F'

-- `[0-9a-fA-F]{n}$`
unfoldable pub is_hex : ℕ → String → Bool
unfolding is_hex_digit
is_hex zero String.[] = true
is_hex zero (String.◌∷◌ c s) = false
is_hex (suc n) String.[] = false
is_hex (suc n) (String.◌∷◌ c s) = is_hex_digit (code c) && is_hex n s

-- `^0x[0-9a-fA-F]{40}$`
unfoldable pub is_valid_address : String → Bool
unfolding is_hex
is_valid_address (String.◌∷◌ c (String.◌∷◌ d s)) =
    eqb (code c) b'0' && (eqb (code d) b'x' && is_hex 40 s)
is_valid_address _ = false

-- What the pattern says, character by character.
abbrev pub IsHexDigit : ℕ → Type 0
IsHexDigit c = (b'0' ≤ c) × (c ≤ b'9') ⊎ (b'a' ≤ c) × (c ≤ b'f') ⊎ (b'A' ≤ c) × (c ≤ b'F')

pub data AllHex : String → Type 0 where
  nil : AllHex String.[]
  cons : {c : Char} {s : String} → IsHexDigit (code c) → AllHex s → AllHex (String.◌∷◌ c s)

-- An EVM address: 0x followed by 20 hex-encoded bytes.
pub record IsAddress (s : String) : Type 0 where
  pub digits : String
  pub shape : s ≡ "0x" <> digits
  pub hex : AllHex digits
  pub bytes : count digits ≡ 2 * 20

is_hex_digit_iff : (c : ℕ) → (is_hex_digit c ≡ true) ↔ IsHexDigit c
unfolding is_hex_digit
is_hex_digit_iff c = ground arith

is_hex_sound : (n : ℕ) (s : String) → is_hex n s ≡ true → AllHex s × (count s ≡ n)
unfolding is_hex
is_hex_sound zero String.[] h = (nil, refl)
is_hex_sound zero (String.◌∷◌ c s) h = cc
is_hex_sound (suc n) String.[] h = cc
is_hex_sound (suc n) (String.◌∷◌ c s) h =
    let (here, later) = (and-eq-true_iff _ _).0 h in
    let (hex, many) = is_hex_sound n s later in
    (cons ((is_hex_digit_iff (code c)).0 here) hex, rw count_laws.cons (ap suc many))

is_hex_complete : {s : String} (n : ℕ) → AllHex s → count s ≡ n → is_hex n s ≡ true
unfolding is_hex
is_hex_complete zero nil e = refl
is_hex_complete (suc n) nil e = absurd (omega arith)
is_hex_complete zero (cons {c} {s} p h) e = absurd (omega (arith, count_laws.cons c s))
is_hex_complete (suc n) (cons {c} {s} p h) e =
    rw ((is_hex_digit_iff (code c)).1 p) (is_hex_complete n h (omega (arith, count_laws.cons c s)))

zero_x : (digits : String) → "0x" <> digits ≡ String.◌∷◌ "0" (String.◌∷◌ "x" digits)
zero_x digits = rw (append.cons, append.cons, append.nil)

is_valid_address_sound : (s : String) → is_valid_address s ≡ true → IsAddress s
unfolding is_valid_address
is_valid_address_sound (String.◌∷◌ c (String.◌∷◌ d t)) h =
    let (first, rest) = (and-eq-true_iff (eqb (code c) b'0') _).0 h in
    let (second, digits) = (and-eq-true_iff (eqb (code d) b'x') _).0 rest in
    let is_zero : c ≡ "0" = Char-path c "0" (ground arith) in
    let is_x : d ≡ "x" = Char-path d "x" (ground arith) in
    let (hex, many) = is_hex_sound 40 t digits in
    record { digits = t; shape = rw (is_zero, is_x) (sym (zero_x t)); hex = hex; bytes = many }
is_valid_address_sound (String.◌∷◌ c String.[]) h = cc
is_valid_address_sound String.[] h = cc

zero_x_complete :
    (t : String) → is_hex 40 t ≡ true → is_valid_address (String.◌∷◌ "0" (String.◌∷◌ "x" t)) ≡ true
unfolding is_valid_address
zero_x_complete t h = h

-- The test accepts exactly the EVM addresses: the texts that are 0x followed by the forty hexadecimal
-- digits, of either case, of twenty bytes.
pub is_valid_address_iff : (s : String) → (is_valid_address s ≡ true) ↔ IsAddress s
is_valid_address_iff s = (
  is_valid_address_sound s,
  λ a. rw (a.shape, zero_x) (zero_x_complete a.digits (is_hex_complete 40 a.hex a.bytes)),
)
