-- ===== src/Logs/Highlight.antt =====
-- web/src/components/instance/InstanceLogPanel.tsx, `highlight`: a text cut into plain pieces and marked
-- occurrences of a keyword, upper and lower case alike.
pub mod Pieces
use cloudflared_manager.Base.{
  ℕ, zero, suc, ◌+◌, Bool, Option, none, some, List, [], ◌∷◌, ◌++◌, length, take, drop,
  if◌then◌else◌, ltb, Str, is_empty, starts_with, Casing,
}
use mathlib.Core.Option

pub data Piece : Type 0 where
  plain : Str → Piece
  hit : Str → Piece

-- `s.indexOf(k)` for a `k` that is not empty.
pub offset_of : Str → Str → Option ℕ
unfolding starts_with
offset_of k [] = none
offset_of k (c ∷ s) = if starts_with (c ∷ s) k then some 0 else Option.map suc (offset_of k s)

-- `if (idx > i) out.push(text.slice(i, idx))`, `d` behind `i`.
abbrev pub gap : ℕ → ℕ → Str → List Piece
gap i d text = if ltb 0 d then plain (take d (drop i text)) ∷ [] else []

-- `if (i < text.length) out.push(text.slice(i))`
abbrev pub tail_piece : ℕ → Str → List Piece
tail_piece i text = if ltb i (length text) then plain (drop i text) ∷ [] else []

-- The loop, from the index `i` on; the length of the lower-cased text is fuel enough, for a keyword that
-- is not empty.
pub pieces_from : ℕ → Str → Str → Str → ℕ → List Piece
unfolding offset_of
pieces_from zero text lower k i = tail_piece i text
pieces_from (suc fuel) text lower k i = elim (offset_of k (drop i lower)) [
  | none ↦ tail_piece i text
  | some d ↦
      gap i d text
      ++ hit (take (length k) (drop (i + d) text))
        ∷ pieces_from fuel text lower k (i + d + length k)
]

module _ (casing : Casing) where
  open casing use {lower}

  unfoldable pub highlight : Str → Str → List Piece
  unfolding pieces_from
  highlight text kw =
      if is_empty kw
      then plain text ∷ []
      else pieces_from (length (lower text)) text (lower text) (lower kw) 0
