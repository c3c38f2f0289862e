-- ===== src/Prelude/Texts.antt =====
-- What the source uses of Python's `str`: `strip`, `lower`, `startswith`, `split`, `rsplit`.
-- `lower` maps the ASCII letters. The source compares its result with ASCII words only.
use Prim.Native.Nat.{ℕ, ◌+◌}
use Prim.Native.Char.{Char, code}
use Prim.Native.String.{String}
use mathlib.Core.Bool.{Bool, true, false, ◌&&◌, ◌||◌}
use mathlib.Core.Option.{Option, none, some}
use mathlib.Core.List.{List, [], ◌∷◌}
use charge_pulse.Prelude.Tests.{◌==◌, leb, is_some, if◌then◌else◌}

-- the code points of a text
abbrev pub codes : String → List ℕ
codes String.[] = []
codes (String.◌∷◌ c s) = code c ∷ codes s

unfoldable pub codes_eq : List ℕ → List ℕ → Bool
codes_eq [] [] = true
codes_eq (a ∷ as') (b ∷ bs) = a == b && codes_eq as' bs
codes_eq _ _ = false

-- the code points of `str.isspace` that `strip` removes
unfoldable pub is_space : ℕ → Bool
is_space c =
    (leb 9 c && leb c 13)
    || (leb 28 c && leb c 32)
    || c == 0x85
    || c == 0xa0
    || c == 0x1680
    || (leb 0x2000 c && leb c 0x200a)
    || c == 0x2028
    || c == 0x2029
    || c == 0x202f
    || c == 0x205f
    || c == 0x3000

-- `s.lstrip()` and `s.rstrip()` for the characters that pass the test
unfoldable pub lstrip : (ℕ → Bool) → String → String
lstrip p String.[] = String.[]
lstrip p (String.◌∷◌ c s) = let rest = lstrip p s in if p (code c) then rest else String.◌∷◌ c s

-- a character before what is left of the text: it goes if nothing is left and it passes the test
unfoldable pub drop_last : (ℕ → Bool) → Char → String → String
drop_last p c String.[] = if p (code c) then String.[] else String.◌∷◌ c String.[]
drop_last p c (String.◌∷◌ d s) = String.◌∷◌ c (String.◌∷◌ d s)

unfoldable pub rstrip : (ℕ → Bool) → String → String
unfolding drop_last
rstrip p String.[] = String.[]
rstrip p (String.◌∷◌ c s) = drop_last p c (rstrip p s)

unfoldable pub strip : (ℕ → Bool) → String → String
unfolding lstrip rstrip
strip p s = rstrip p (lstrip p s)

unfoldable pub lower_code : ℕ → ℕ
lower_code c = if leb b'A' c && leb c b'Z' then c + 32 else c

unfoldable pub lower : String → List ℕ
unfolding lower_code
lower String.[] = []
lower (String.◌∷◌ c s) = lower_code (code c) ∷ lower s

-- the text after the prefix, where `s.startswith(prefix)`
unfoldable pub after_prefix : String → String → Option String
after_prefix String.[] s = some s
after_prefix (String.◌∷◌ d t) String.[] = none
after_prefix (String.◌∷◌ d t) (String.◌∷◌ c s) =
    let rest = after_prefix t s in if code d == code c then rest else none

-- `s.split(sep, 1)[1]`, where `sep` occurs
unfoldable pub after_first : ℕ → String → Option String
after_first sep String.[] = none
after_first sep (String.◌∷◌ c s) =
    let rest = after_first sep s in if code c == sep then some s else rest

-- `s.rsplit(sep, 1)[-1]` and `s.split(sep)[-1]`: what follows the last `sep`, or all of the text
unfoldable pub after_last : ℕ → String → String
unfolding after_first
after_last sep String.[] = String.[]
after_last sep (String.◌∷◌ c s) =
    let rest = after_last sep s in
    if is_some (after_first sep s) then rest else if code c == sep then s else String.◌∷◌ c s

-- `not s` is false: a text that is there and not empty
unfoldable pub truthy : Option String → Option String
truthy none = none
truthy (some String.[]) = none
truthy (some (String.◌∷◌ c s)) = some (String.◌∷◌ c s)

-- `needle in s`
unfoldable pub contains : String → String → Bool
unfolding after_prefix
contains needle String.[] = is_some (after_prefix needle String.[])
contains needle (String.◌∷◌ c s) =
    is_some (after_prefix needle (String.◌∷◌ c s)) || contains needle s
