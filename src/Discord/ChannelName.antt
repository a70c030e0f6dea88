-- ===== src/Discord/ChannelName.antt =====
-- `sanitizeDiscordChannelName` of internal/discord/client.go
pub mod Laws
use Prim.Native.String.{slice}
use shop_operator.Base.{
  ℕ, String, Char, code, len, Bool, ◌&&◌, ◌||◌, leb, ltb, eqb, ◌==◌, if◌then◌else◌,
}
use shop_operator.Kube.Library.{Library}

-- Go's `strings.Map` with a function that drops nothing.
map_chars : (Char → Char) → String → String
map_chars f String.[] = ""
map_chars f (String.◌∷◌ c s) = String.◌∷◌ (f c) (map_chars f s)

filter_chars : (Char → Bool) → String → String
filter_chars p String.[] = ""
filter_chars p (String.◌∷◌ c s) =
    let rest = filter_chars p s in if p c then String.◌∷◌ c rest else rest

-- The characters that `[^a-z0-9_-]` does not match.
abbrev pub is_channel_char : ℕ → Bool
is_channel_char c = leb b'a' c && leb c b'z' || leb b'0' c && leb c b'9' || eqb c b'_' || eqb c b'-'

-- `strings.ReplaceAll(name, " ", "-")`
dash_for_space : Char → Char
dash_for_space c = if eqb (code c) 32 then "-" else c

clean : (Char → Char) → String → String
unfolding map_chars filter_chars dash_for_space
clean to_lower name =
    filter_chars (λ c. is_channel_char (code c))
      (map_chars dash_for_space (map_chars to_lower name))

truncate : String → String
truncate name = if ltb 100 (len name) then slice name 0 100 else name

or_unnamed : String → String
or_unnamed name = if name == "" then "unnamed-channel" else name

unfoldable pub sanitize_discord_channel_name : Library → String → String
unfolding clean truncate or_unnamed
sanitize_discord_channel_name lib name = or_unnamed (truncate (clean lib.to_lower name))
