-- ===== src/Token/Tests.antt =====
-- The theorems on web/src/utils/cfToken.ts at a pasted command.
use cloudflared_manager.Base.{false, ◌≡◌, refl, ◌++◌, codes, includes, All, some, [], true}
use cloudflared_manager.Token.{extract_cloudflared_token}
use cloudflared_manager.Token.Extract.{IsToken, extract_cloudflared_token-append}
use cloudflared_manager.Token.Commands.{TokenTab, build_commands, on_token}
use cloudflared_manager.Token.Commands.Pasting.{Yields, build_commands-Yields}
use cloudflared_manager.Api.Reply.{done}

sample-IsToken : IsToken (codes "eyJhIjoi-x")
sample-IsToken = record {
  run = codes "hIjoi-x";
  shape = refl;
  full = refl;
  alphabet = (refl, (refl, (refl, (refl, (refl, (refl, (refl, tt)))))));
}

no_head : includes (codes "tunnel run --token ") (codes "eyJ") ≡ false
unfolding includes
no_head = refl

extract_cloudflared_token-append_example :
    extract_cloudflared_token
      (codes "tunnel run --token " ++ (codes "eyJhIjoi-x" ++ codes " --edge"))
    ≡ codes "eyJhIjoi-x"
extract_cloudflared_token-append_example =
    extract_cloudflared_token-append (codes "tunnel run --token ") (codes "eyJhIjoi-x")
      (codes " --edge") no_head sample-IsToken refl

abbrev empty_tab : TokenTab
empty_tab = record { token = []; loading = true; error = [] }

build_commands-Yields_example :
    All
      (Yields (codes "eyJhIjoi-x"))
      (build_commands (on_token (done (some (codes "eyJhIjoi-x"))) empty_tab).token)
build_commands-Yields_example = build_commands-Yields (codes "eyJhIjoi-x") empty_tab sample-IsToken
