-- ===== src/Logs.antt =====
-- web/src/components/instance/InstanceLogPanel.tsx: the live log of an instance, its lines, what is
-- marked and kept of them, and the stream that they come from.
pub mod Highlight
pub mod Stream
mod Tests
use cloudflared_manager.Base.{
  ℕ, Bool, true, false, ◌||◌, List, [], ◌∷◌, ◌++◌, map, filter, if◌then◌else◌, or_else, Str, codes,
  str_eq, is_empty, trim, includes, Casing,
}

-- A line of the log; the optional fields are not read by the panel.
pub record LogEntry : Type 0 where
  pub seq : ℕ
  pub time : Str
  pub level : Str
  pub message : Str
  pub raw : Str
  pub source : Str

abbrev pub level_class : Str → Str
level_class level =
    if str_eq level (codes "warn")
    then codes "lv-warn"
    else if str_eq level (codes "error")
    then codes "lv-error"
    else if str_eq level (codes "fatal")
    then codes "lv-fatal"
    else if str_eq level (codes "debug")
    then codes "lv-debug"
    else if str_eq level (codes "info")
    then codes "lv-info"
    else codes "lv-unknown"

-- `e.raw || `${e.time} ${e.level} ${e.message}``
abbrev pub download_line : LogEntry → Str
download_line e = or_else e.raw (e.time ++ (codes " " ++ (e.level ++ (codes " " ++ e.message))))

-- `join('\n')`
abbrev pub join_lines : List Str → Str
join_lines [] = []
join_lines (s ∷ []) = s
join_lines (s ∷ t ∷ ss) = s ++ (10 ∷ join_lines (t ∷ ss))

module _ (casing : Casing) where
  open casing use {lower}

  abbrev pub matches : Str → LogEntry → Bool
  matches kw e = includes (lower (e.message ++ (codes " " ++ e.raw))) kw

  -- The lines that are shown for a keyword.
  unfoldable pub filtered : Str → List LogEntry → List LogEntry
  filtered keyword entries =
      let kw = lower (trim keyword) in if is_empty kw then entries else filter (matches kw) entries

  -- The text that is downloaded.
  unfoldable pub download : Str → List LogEntry → Str
  unfolding filtered
  download keyword entries = join_lines (map download_line (filtered keyword entries))
