-- ===== src/Discord/ChannelName/Laws.antt =====
-- What names `sanitizeDiscordChannelName` of internal/discord/client.go makes.
use Prim.Native.String.{slice, fits}
use Prim.Native.String.slice as slice_laws
use Prim.Native.String.len as len_laws
use Prim.Native.Char.{len_utf8}
use Prim.Native.Nat.{compare, Ordering}
use mathlib.Core.Bool.{and-eq-true_iff}
use shop_operator.Base.{
  ℕ, ◌-◌, ◌≤◌, ◌≡◌, ◌≢◌, refl, ap, inl, inr, String, Char, code, len, Bool, true, false, ◌==◌,
  eq_iff, arith, Bool-cases, ltb, eqb,
}
use shop_operator.Base.Text.{all_codes}
use shop_operator.Kube.Library.{Library}
use shop_operator.Discord.ChannelName.{
  is_channel_char, map_chars, filter_chars, dash_for_space, clean, truncate, or_unnamed,
  sanitize_discord_channel_name,
}

all_codes-filter_chars :
    (p : ℕ → Bool) (s : String) → all_codes p (filter_chars (λ c. p (code c)) s) ≡ true
unfolding all_codes filter_chars
all_codes-filter_chars p String.[] = refl
all_codes-filter_chars p (String.◌∷◌ c s) = elim (Bool-cases (p (code c))) [
  | inl keep ↦ rw (keep, keep) (all_codes-filter_chars p s)
  | inr drop ↦ rw drop (all_codes-filter_chars p s)
]

all_codes-clean :
    (to_lower : Char → Char) (s : String) → all_codes is_channel_char (clean to_lower s) ≡ true
unfolding clean
all_codes-clean to_lower s =
    all_codes-filter_chars is_channel_char (map_chars dash_for_space (map_chars to_lower s))

len_nil : len "" ≡ 0
len_nil = refl

len-fits :
    (o : Ordering) (c : Char) (r : String) (n : ℕ)
    → (o ≢ Ordering.gt → len (String.◌∷◌ c r) ≤ n)
    → len (fits o c r) ≤ n
len-fits Ordering.lt c r n h = h (λ e. cc)
len-fits Ordering.eq c r n h = h (λ e. cc)
len-fits Ordering.gt c r n h = rw len_nil (omega arith)

len-cons-le :
    (c : Char) (r : String) (n : ℕ)
    → len r ≤ n - len_utf8 c
    → compare (len_utf8 c) n ≢ Ordering.gt
    → len (String.◌∷◌ c r) ≤ n
len-cons-le c r n h fit = ground (arith, len_laws.cons c r)

len-slice : (s : String) (n : ℕ) → len (slice s 0 n) ≤ n
len-slice String.[] n = rw slice_laws.nil (omega (arith, len_nil))
len-slice (String.◌∷◌ c s) n =
    let rest = len-slice s (n - len_utf8 c) in
    rw slice_laws.cons-zero (len-fits _ c _ n (len-cons-le c _ n rest))

all_codes-fits :
    (p : ℕ → Bool) (o : Ordering) (c : Char) (r : String)
    → p (code c) ≡ true
    → all_codes p r ≡ true
    → all_codes p (fits o c r) ≡ true
unfolding all_codes
all_codes-fits p Ordering.lt c r here later = rw here later
all_codes-fits p Ordering.eq c r here later = rw here later
all_codes-fits p Ordering.gt c r here later = refl

all_codes-slice :
    (p : ℕ → Bool) (s : String) (n : ℕ) → all_codes p s ≡ true → all_codes p (slice s 0 n) ≡ true
unfolding all_codes
all_codes-slice p String.[] n h = rw slice_laws.nil refl
all_codes-slice p (String.◌∷◌ c s) n h =
    let (here, later) = (and-eq-true_iff _ _).0 h in
    rw slice_laws.cons-zero
      (all_codes-fits p _ c _ here (all_codes-slice p s (n - len_utf8 c) later))

-- A name that Discord takes: one to a hundred bytes, each a lower-case letter, a digit, _ or -.
pub record IsChannelName (s : String) : Type 0 where
  pub characters : all_codes is_channel_char s ≡ true
  pub nonempty : s ≢ ""
  pub short : len s ≤ 100

truncate_lem :
    (s : String)
    → all_codes is_channel_char s ≡ true
    → (all_codes is_channel_char (truncate s) ≡ true) × (len (truncate s) ≤ 100)
unfolding truncate
truncate_lem s h = elim (Bool-cases (ltb 100 (len s))) [
  | inl long ↦ rw long (all_codes-slice is_channel_char s 100 h, len-slice s 100)
  | inr fine ↦ rw fine (h, ground arith)
]

or_unnamed-IsChannelName :
    (s : String) → all_codes is_channel_char s ≡ true → len s ≤ 100 → IsChannelName (or_unnamed s)
unfolding or_unnamed all_codes
or_unnamed-IsChannelName s h short = elim (Bool-cases (s == "")) [
  | inl empty ↦ rw empty (record {
    characters = refl;
    nonempty = ground (arith, eq_iff "unnamed-channel" "");
    short = omega arith;
  })
  | inr full ↦
      rw full (record { characters = h; nonempty = ground (arith, eq_iff s ""); short = short })
]

-- Whatever text a channel is to be called, the name that is sent to Discord is a valid channel name.
pub sanitize_discord_channel_name-IsChannelName :
    (lib : Library) (name : String) → IsChannelName (sanitize_discord_channel_name lib name)
unfolding sanitize_discord_channel_name
sanitize_discord_channel_name-IsChannelName lib name =
    let (valid, short) =
      truncate_lem (clean lib.to_lower name) (all_codes-clean lib.to_lower name) in
    or_unnamed-IsChannelName _ valid short

module _ (to_lower : Char → Char)
    (fixes : (c : Char) → is_channel_char (code c) ≡ true → to_lower c ≡ c) where
  clean_fixed : (s : String) → all_codes is_channel_char s ≡ true → clean to_lower s ≡ s
  unfolding all_codes clean map_chars filter_chars dash_for_space
  clean_fixed String.[] h = refl
  clean_fixed (String.◌∷◌ c s) h =
      let (here, later) =
        (and-eq-true_iff (is_channel_char (code c)) (all_codes is_channel_char s)).0 h in
      let no_space : eqb (code c) 32 ≡ false = ground arith in
      rw (fixes c here, no_space, here) (ap (String.◌∷◌ c) (clean_fixed s later))

-- A valid channel name is sent as it is, if lower-casing leaves lower-case letters, digits, _ and - alone.
pub sanitize_discord_channel_name_fixed :
    (lib : Library) (name : String)
    → ((c : Char) → is_channel_char (code c) ≡ true → lib.to_lower c ≡ c)
    → IsChannelName name
    → sanitize_discord_channel_name lib name ≡ name
unfolding sanitize_discord_channel_name truncate or_unnamed
sanitize_discord_channel_name_fixed lib name fixes v =
    rw (clean_fixed lib.to_lower fixes name v.characters) (
      let short : ltb 100 (len name) ≡ false = ground (arith, v.short) in
      rw short (
        let full : (name == "") ≡ false = ground (arith, eq_iff name "", v.nonempty) in
        rw full refl))
