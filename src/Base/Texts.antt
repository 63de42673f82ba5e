-- ===== src/Base/Texts.antt =====
-- The white space of Python's `str.strip`, and texts that hold nothing else.
use Prim.Native.Nat.{ℕ}
use Prim.Native.Char.{code}
use Prim.Native.String.{String}
use mathlib.Core.Bool.{Bool, true, ◌&&◌, ◌||◌}
use money_machine.Base.Tests.{leb, ◌==◌, if◌then◌else◌}

abbrev pub is_white : ℕ → Bool
is_white c =
    leb 9 c && leb c 13
    || leb 28 c && leb c 32
    || c == 133
    || c == 160
    || c == 5760
    || leb 8192 c && leb c 8202
    || c == 8232
    || c == 8233
    || c == 8239
    || c == 8287
    || c == 12288

-- `text.strip() == ""`
unfoldable pub is_blank : String → Bool
is_blank String.[] = true
is_blank (String.◌∷◌ c s) = is_white (code c) && is_blank s

-- `text.rstrip()`
unfoldable pub strip_end : String → String
strip_end String.[] = String.[]
strip_end (String.◌∷◌ c s) =
    let rest = strip_end s in
    if is_white (code c) && is_blank s then String.[] else String.◌∷◌ c rest

-- `text.strip()`
unfoldable pub strip : String → String
strip String.[] = String.[]
strip (String.◌∷◌ c s) =
    let rest = strip s in if is_white (code c) then rest else strip_end (String.◌∷◌ c s)
