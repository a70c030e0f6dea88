-- ===== src/Shop/Secrets/Decoding.antt =====
-- What a generated password keeps of the random bytes.
use Prim.Native.String.append
use mathlib.Core.Bool.{and-eq-true_iff}
use shop_operator.Base.{
  ℕ, zero, suc, ◌+◌, ◌-◌, ◌*◌, ◌/◌, ◌%◌, ◌<◌, String, ◌<>◌, code, ◌≡◌, refl, ◌∙◌, ap, Bool, true,
  false, ◌&&◌, List, [], ◌∷◌, ◌++◌, arith, inl, inr, Bool-cases, leb, eqb, if◌then◌else◌, All,
}
use shop_operator.Kube.Prog.{Error, ok}
use shop_operator.Kube.Run.{run}
use shop_operator.Shop.Secrets.{letter, symbol, encode_base64, random_password}
use shop_operator.Shop.Secrets.Password.{source}

-- The six bits of a character of the URL-safe alphabet.
abbrev six_bits : ℕ → ℕ
six_bits c =
    if leb 97 c
    then c - 71
    else if eqb c 95
    then 63
    else if leb 65 c
    then c - 65
    else if eqb c 45
    then 62
    else c + 4

abbrev sextets : String → List ℕ
sextets String.[] = []
sextets (String.◌∷◌ c s) = six_bits (code c) ∷ sextets s

-- Four characters are three bytes; at the end two are one, and three are two.
abbrev octets : List ℕ → List ℕ
octets [] = []
octets (p ∷ []) = []
octets (p ∷ q ∷ []) = (p * 4 + q / 16) ∷ []
octets (p ∷ q ∷ r ∷ []) = (p * 4 + q / 16) ∷ (q % 16 * 16 + r / 4) ∷ []
octets (p ∷ q ∷ r ∷ s ∷ rest) =
    (p * 4 + q / 16) ∷ (q % 16 * 16 + r / 4) ∷ (r % 4 * 64 + s) ∷ octets rest

abbrev pub decode_base64 : String → List ℕ
decode_base64 s = octets (sextets s)

is_one : List ℕ → ℕ → Bool
is_one (v ∷ []) j = eqb v j
is_one _ j = false

is_one_sound : (vs : List ℕ) (j : ℕ) → is_one vs j ≡ true → vs ≡ j ∷ []
unfolding is_one
is_one_sound [] j h = cc
is_one_sound (v ∷ []) j h = let same : v ≡ j = ground arith in ap (λ n. n ∷ []) same
is_one_sound (v ∷ w ∷ vs) j h = cc

all_decode : ℕ → Bool
unfolding is_one
all_decode zero = true
all_decode (suc n) = is_one (sextets (letter n)) n && all_decode n

all_decode_sound : (n j : ℕ) → j < n → all_decode n ≡ true → is_one (sextets (letter j)) j ≡ true
unfolding all_decode
all_decode_sound zero j h below = absurd (omega arith)
all_decode_sound (suc n) j h below =
    let (here, later) = (and-eq-true_iff (is_one (sextets (letter n)) n) (all_decode n)).0 below in
    elim (Bool-cases (eqb j n)) [
      | inl equal ↦ let same : j ≡ n = ground arith in rw same here
      | inr other ↦ all_decode_sound n j (ground arith) later
    ]

sextets-symbol : (i : ℕ) → sextets (symbol i) ≡ i % 64 ∷ []
unfolding all_decode is_one
sextets-symbol i =
    is_one_sound (sextets (symbol i)) (i % 64) (all_decode_sound 64 (i % 64) (omega arith) refl)

sextets-append : (s t : String) → sextets (s <> t) ≡ sextets s ++ sextets t
sextets-append String.[] t = rw append.nil refl
sextets-append (String.◌∷◌ c s) t =
    rw append.cons (ap (λ l. six_bits (code c) ∷ l) (sextets-append s t))

sextets-cons : (i : ℕ) (s : String) → sextets (symbol i <> s) ≡ i % 64 ∷ sextets s
sextets-cons i s = sextets-append (symbol i) s ∙ ap (λ l. l ++ sextets s) (sextets-symbol i)

-- The bits that the characters carry are those of the bytes.
first_byte : (a b : ℕ) → a < 256 → b < 256 → a / 4 % 64 * 4 + (a * 16 + b / 16) % 64 / 16 ≡ a
first_byte a b ha hb = omega arith

second_byte :
    (a b c : ℕ)
    → b < 256
    → c < 256
    → (a * 16 + b / 16) % 64 % 16 * 16 + (b * 4 + c / 64) % 64 / 4 ≡ b
second_byte a b c hb hc = omega arith

third_byte : (b c : ℕ) → c < 256 → (b * 4 + c / 64) % 64 % 4 * 64 + c % 64 ≡ c
third_byte b c hc = omega arith

last_byte : (a : ℕ) → a < 256 → a / 4 % 64 * 4 + a * 16 % 64 / 16 ≡ a
last_byte a ha = omega arith

last_but_one_byte : (a b : ℕ) → b < 256 → (a * 16 + b / 16) % 64 % 16 * 16 + b * 4 % 64 / 4 ≡ b
last_but_one_byte a b hb = omega arith

two : {a a' b b' : ℕ} → a ≡ a' → b ≡ b' → {l : List ℕ} → a ∷ b ∷ l ≡ a' ∷ b' ∷ l
two x y {l} = λ i. x i ∷ y i ∷ l

decode_base64-encode_base64 :
    (bytes : List ℕ) → All (λ b. b < 256) bytes → decode_base64 (encode_base64 bytes) ≡ bytes
unfolding encode_base64
decode_base64-encode_base64 [] h = refl
decode_base64-encode_base64 (a ∷ []) (ha, _) =
    rw (sextets-cons (a / 4) (symbol (a * 16)), sextets-symbol (a * 16))
      (ap (λ n. n ∷ []) (last_byte a ha))
decode_base64-encode_base64 (a ∷ b ∷ []) (ha, (hb, _)) =
    rw
      (
        sextets-cons (a / 4) (symbol (a * 16 + b / 16) <> symbol (b * 4)),
        sextets-cons (a * 16 + b / 16) (symbol (b * 4)),
        sextets-symbol (b * 4),
      )
      (two (first_byte a b ha hb) (last_but_one_byte a b hb))
decode_base64-encode_base64 (a ∷ b ∷ c ∷ rest) (ha, (hb, (hc, later))) =
    rw
      (
        sextets-cons (a / 4) (
            symbol (a * 16 + b / 16)
            <> (symbol (b * 4 + c / 64) <> (symbol c <> encode_base64 rest))),
        sextets-cons (a * 16 + b / 16)
            (symbol (b * 4 + c / 64) <> (symbol c <> encode_base64 rest)),
        sextets-cons (b * 4 + c / 64) (symbol c <> encode_base64 rest),
        sextets-cons c (encode_base64 rest),
      )
      (λ i.
        first_byte a b ha hb i
        ∷ second_byte a b c hb hc i
        ∷ third_byte b c hc i
        ∷ decode_base64-encode_base64 rest later i)

-- `randomPassword` loses nothing of the bytes that the random source gives: whatever numbers below
-- 256 they are and however many, the password decodes to them.
pub random_password-decode :
    (e : Error) (bytes : List ℕ)
    → All (λ b. b < 256) bytes
    → (password : String) × (run (source e bytes) random_password tt ≡ (ok password, tt))
      × (decode_base64 password ≡ bytes)
unfolding run random_password
random_password-decode e bytes fit =
    (encode_base64 bytes, refl, decode_base64-encode_base64 bytes fit)
