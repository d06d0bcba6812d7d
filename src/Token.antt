-- ===== src/Token.antt =====
-- web/src/utils/cfToken.ts: the connector token in whatever the user pasted.
pub mod Extract
pub mod Commands
mod Tests
use cloudflared_manager.Base.{
  ℕ, Bool, not, ◌&&◌, ◌||◌, Option, none, some, [], ◌∷◌, ◌++◌, drop, if◌then◌else◌, leb, ◌==◌, Str,
  codes, is_empty, trim, starts_with,
}

-- The class [A-Za-z0-9_\-+/=].
abbrev pub is_token_unit : ℕ → Bool
is_token_unit c =
    (leb b'A' c && leb c b'Z')
    || (leb b'a' c && leb c b'z')
    || (leb b'0' c && leb c b'9')
    || c == b'_'
    || c == b'-'
    || c == b'+'
    || c == b'/'
    || c == b'='

-- The longest run of units that pass the test, from the front.
pub take_while : (ℕ → Bool) → Str → Str
take_while p [] = []
take_while p (c ∷ s) = if p c then c ∷ take_while p s else []

abbrev pub token_head : Str
token_head = codes "eyJ"

-- A match of TOKEN_RE at the front of the text.
pub match_here : Str → Option Str
unfolding take_while starts_with
match_here s =
    let run = take_while is_token_unit (drop 3 s) in
    if starts_with s token_head && not (is_empty run) then some (token_head ++ run) else none

-- `input.match(TOKEN_RE)`: the first place where the expression matches.
pub match_token : Str → Option Str
match_token [] = none
match_token (c ∷ s) = elim (match_here (c ∷ s)) [ some m ↦ some m | none ↦ match_token s ]

unfoldable pub extract_cloudflared_token : Str → Str
unfolding match_token match_here
extract_cloudflared_token input =
    if is_empty input then [] else (elim (match_token input) [ some m ↦ m | none ↦ trim input ])
