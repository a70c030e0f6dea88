-- ===== src/Shop/Secrets/Password.antt =====
-- What a generated password looks like.
use Prim.Native.String.{count}
use Prim.Native.String.append
use text.Mathlib.TextLemmas.{length-append}
use mathlib.Core.Bool.{and-eq-true_iff}
use mathlib.Core.Path.{subst}
use shop_operator.Base.{
  ℕ, zero, suc, ◌+◌, ◌*◌, ◌/◌, ◌%◌, ◌<◌, String, ◌<>◌, code, ◌≡◌, refl, Bool, true, ◌&&◌, ◌||◌,
  List, [], ◌∷◌, arith, inl, inr, Bool-cases, leb, eqb, length,
}
use shop_operator.Base.Text.{all_codes}
use shop_operator.Kube.Prog.{Error, ok, err, read_random}
use shop_operator.Kube.Run.{Handler, run}
use shop_operator.Shop.Secrets.{letter, symbol, encode_base64, random_password}

-- A character of the URL-safe alphabet.
abbrev is_url_char : ℕ → Bool
is_url_char c =
    leb b'A' c && leb c b'Z'
    || leb b'a' c && leb c b'z'
    || leb b'0' c && leb c b'9'
    || eqb c b'-'
    || eqb c b'_'

-- So many characters, all of them URL-safe.
pub record IsSymbols (n : ℕ) (s : String) : Type 0 where
  pub count : count s ≡ n
  pub safe : all_codes is_url_char s ≡ true

-- The characters of the alphabet, one by one.
is_symbol : ℕ → Bool
unfolding all_codes
is_symbol j = eqb (count (letter j)) 1 && all_codes is_url_char (letter j)

all_below : ℕ → Bool
unfolding is_symbol
all_below zero = true
all_below (suc n) = is_symbol n && all_below n

all_below_sound : (n j : ℕ) → j < n → all_below n ≡ true → is_symbol j ≡ true
unfolding all_below
all_below_sound zero j h below = absurd (omega arith)
all_below_sound (suc n) j h below =
    let (here, later) = (and-eq-true_iff (is_symbol n) (all_below n)).0 below in
    elim (Bool-cases (eqb j n)) [
      | inl equal ↦ let same : j ≡ n = ground arith in rw same here
      | inr other ↦ all_below_sound n j (ground arith) later
    ]

symbol-IsSymbols : (i : ℕ) → IsSymbols 1 (symbol i)
unfolding is_symbol all_below
symbol-IsSymbols i =
    let ok : is_symbol (i % 64) ≡ true = all_below_sound 64 (i % 64) (omega arith) refl in
    let (one, safe) = (and-eq-true_iff (eqb (count (symbol i)) 1) _).0 ok in
    record { count = ground arith; safe = safe }

all_codes-append :
    (s t : String)
    → all_codes is_url_char s ≡ true
    → all_codes is_url_char t ≡ true
    → all_codes is_url_char (s <> t) ≡ true
unfolding all_codes
all_codes-append String.[] t hs ht = rw append.nil ht
all_codes-append (String.◌∷◌ c s) t hs ht =
    let (here, later) = (and-eq-true_iff (is_url_char (code c)) (all_codes is_url_char s)).0 hs in
    rw append.cons ((and-eq-true_iff _ _).1 (here, all_codes-append s t later ht))

append-IsSymbols :
    {a b : ℕ} {s t : String} → IsSymbols a s → IsSymbols b t → IsSymbols (a + b) (s <> t)
append-IsSymbols {a} {b} {s} {t} x y = record {
  count = omega (arith, length-append s t, x.count, y.count);
  safe = all_codes-append s t x.safe y.safe;
}

four_more : (n : ℕ) → 1 + (1 + (1 + (1 + 4 * n))) ≡ 4 * suc n
four_more n = omega arith

encode_base64-IsSymbols :
    (bytes : List ℕ) (n : ℕ) → length bytes ≡ 3 * n → IsSymbols (4 * n) (encode_base64 bytes)
unfolding encode_base64 all_codes
encode_base64-IsSymbols [] zero h = record { count = refl; safe = refl }
encode_base64-IsSymbols [] (suc n) h = absurd (omega arith)
encode_base64-IsSymbols (a ∷ []) n h = absurd (omega arith)
encode_base64-IsSymbols (a ∷ b ∷ []) n h = absurd (omega arith)
encode_base64-IsSymbols (a ∷ b ∷ c ∷ rest) zero h = absurd (omega arith)
encode_base64-IsSymbols (a ∷ b ∷ c ∷ rest) (suc n) h =
    let later = encode_base64-IsSymbols rest n (omega arith) in
    subst
      (λ k. IsSymbols k (
        symbol (a / 4)
        <> (symbol (a * 16 + b / 16)
            <> (symbol (b * 4 + c / 64) <> (symbol c <> encode_base64 rest)))))
      (four_more n)
      (append-IsSymbols (symbol-IsSymbols (a / 4)) (
        append-IsSymbols (symbol-IsSymbols (a * 16 + b / 16)) (
          append-IsSymbols (symbol-IsSymbols (b * 4 + c / 64))
            (append-IsSymbols (symbol-IsSymbols c) later))))

module _ (e : Error) where
  -- A source that gives these bytes.
  abbrev pub source : List ℕ → Handler (Unit {0})
  source bytes (read_random n) w = (ok bytes, w)
  source bytes _ w = (err e, w)

  -- A source whose bytes depend on how many are asked for.
  abbrev pub reader : (ℕ → List ℕ) → Handler (Unit {0})
  reader bytes (read_random n) w = (ok (bytes n), w)
  reader bytes _ w = (err e, w)

  -- With a random source that gives as many bytes as it is asked for, whatever they are,
  -- randomPassword makes a password of 32 characters, each of them a letter, a digit, - or _.
  pub random_password-IsSymbols :
      (bytes : ℕ → List ℕ)
      → ((n : ℕ) → length (bytes n) ≡ n)
      → (password : String) × (run (reader bytes) random_password tt ≡ (ok password, tt))
        × IsSymbols 32 password
  unfolding run random_password
  random_password-IsSymbols bytes many =
      (encode_base64 (bytes 24), refl, encode_base64-IsSymbols (bytes 24) 8 (many 24))
