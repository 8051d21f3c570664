-- ===== src/Line/Escaping.antt =====
-- line/escaping.py. A buffer is a list of numbers; the exception DleEscapeError is `err`.
pub mod Laws
use intelipump.Common.{ℕ, List, [], ◌∷◌, ◌==◌, if◌then◌else◌, Result, ok, err}
use intelipump.Line.Constants.{dle, sf, LineError, truncated_escape, unescaped_sf}

unfoldable pub escape_dle : List ℕ → List ℕ
escape_dle [] = []
escape_dle (byte ∷ rest) =
    let out = escape_dle rest in if byte == sf then dle ∷ byte ∷ out else byte ∷ out

-- `out.append(byte)` before the rest of the loop.
abbrev prepend : ℕ → Result LineError (List ℕ) → Result LineError (List ℕ)
prepend byte (ok out) = ok (byte ∷ out)
prepend byte (err e) = err e

unfoldable pub unescape_dle : List ℕ → Result LineError (List ℕ)
unescape_dle [] = ok []
unescape_dle (byte ∷ []) =
    if byte == dle
    then err truncated_escape
    else if byte == sf
    then err unescaped_sf
    else ok (byte ∷ [])
unescape_dle (byte ∷ nxt ∷ rest) =
    let skip_two = prepend sf (unescape_dle rest) in
    let keep_dle = prepend dle (unescape_dle (nxt ∷ rest)) in
    let keep = prepend byte (unescape_dle (nxt ∷ rest)) in
    if byte == dle
    then (if nxt == sf then skip_two else keep_dle)
    else if byte == sf
    then err unescaped_sf
    else keep
