-- ===== src/Token/Commands/Pasting.antt =====
-- The commands of web/src/components/cf/TunnelTokenTab.tsx against the extraction of web/src/utils/cfToken.ts.
use cloudflared_manager.Base.{
  ◌≡◌, refl, sym, ap, ◌∙◌, false, [], ◌∷◌, ◌++◌, append-nil, or_else, Str, codes, All, includes,
  starts_with,
}
use cloudflared_manager.Api.Reply.{done}
use cloudflared_manager.Base.{some}
use cloudflared_manager.Token.{token_head, extract_cloudflared_token}
use cloudflared_manager.Token.Extract.{IsToken, extract_cloudflared_token-append}
use cloudflared_manager.Token.Commands.{
  CmdItem, TokenTab, install_service, debian_lines, rhel_lines, docker_lines, command_lines,
  commands_with, build_commands, on_token,
}

-- A token at the end of a text that does not hold "eyJ" before it.
at_end_of :
    (pre token : Str)
    → includes pre token_head ≡ false
    → IsToken token
    → extract_cloudflared_token (pre ++ token) ≡ token
at_end_of pre token clear t =
    ap (λ u. extract_cloudflared_token (pre ++ u)) (sym (append-nil token))
    ∙ extract_cloudflared_token-append pre token [] clear t tt

-- Pasting the command gives the token.
abbrev pub Yields : Str → CmdItem → Type 0
Yields token item = extract_cloudflared_token item.cmd ≡ token

commands_with-Yields : (token : Str) → IsToken token → All (Yields token) (commands_with token)
unfolding includes starts_with
commands_with-Yields token t = (
  at_end_of (codes "cloudflared tunnel run --token ") token refl t,
  (
    at_end_of install_service token refl t,
    (
      at_end_of debian_lines token refl t,
      (
        at_end_of rhel_lines token refl t,
        (
          at_end_of (codes "cloudflared.exe service install ") token refl t,
          (
            at_end_of (command_lines (codes "brew install cloudflared" ∷ install_service ∷ []))
                token refl t,
            (at_end_of docker_lines token refl t, tt),
          ),
        ),
      ),
    ),
  ),
)

shown_token : (token : Str) → IsToken token → or_else token (codes "<TOKEN>") ≡ token
shown_token token t = rw t.shape refl

-- Every command that the tab shows for a connector token gives that token back when it is pasted into the
-- token field of an instance.
pub build_commands-Yields :
    (token : Str) (p : TokenTab)
    → IsToken token
    → All (Yields token) (build_commands (on_token (done (some token)) p).token)
build_commands-Yields token p t = rw (shown_token token t) (commands_with-Yields token t)
