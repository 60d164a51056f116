-- ===== src/Prelude/Text.antt =====
-- Text helpers of Python's `str`: truth value and `strip`.
use Prim.Native.Nat.{ℕ}
use Prim.Native.Char.{code}
use Prim.Native.String.{String}
use mathlib.Core.Bool.{Bool, true, not, ◌&&◌, ◌||◌}
use mathlib.Core.Option.{Option, none, some}
use nexus_trade_engine.Prelude.Tests.{leb, nat_beq, if◌then◌else◌}
use nexus_trade_engine.Prelude.Keys.{◌==◌, string_eq}

-- The truth value of a text: false only when it is empty.
abbrev pub truthy : String → Bool
truthy s = not (s == "")

-- `text or other`, where both may be None.
abbrev pub or_else : Option String → Option String → Option String
or_else none other = other
or_else (some s) other = if truthy s then some s else other

-- The code points that `str.isspace` accepts and `str.strip` removes.
unfoldable pub is_space : ℕ → Bool
is_space c =
    (leb 9 c && leb c 13)
    || (leb 28 c && leb c 32)
    || nat_beq c 0x85
    || nat_beq c 0xa0
    || nat_beq c 0x1680
    || (leb 0x2000 c && leb c 0x200a)
    || nat_beq c 0x2028
    || nat_beq c 0x2029
    || nat_beq c 0x202f
    || nat_beq c 0x205f
    || nat_beq c 0x3000

-- `not text.strip()`: nothing is left when the white space at both ends is removed.
unfoldable pub is_blank : String → Bool
unfolding is_space
is_blank String.[] = true
is_blank (String.◌∷◌ c s) = is_space (code c) && is_blank s
