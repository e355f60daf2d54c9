-- ===== src/Prelude/Texts.antt =====
-- The operations of JavaScript strings that the program uses, over the native texts.
use Prim.Native.Nat.{ℕ, zero, suc, ◌+◌, ◌/◌, ◌%◌}
use Prim.Native.Char.{code}
use Prim.Native.String.{String, [], ◌∷◌, ◌++◌}
use mathlib.Core.Bool.{Bool, true, false, ◌||◌}
use mathlib.Core.Option.{Option, none, some}
use mathlib.Core.List.{List}
use text.Mathlib.Text.{starts_with}
use dockge.Prelude.Tests.{ltb, eqb, if◌then◌else◌}

-- s.startsWith("/") ? s.slice(1) : s, and s.replace(/^\//, "")
unfoldable pub drop_slash : String → String
drop_slash [] = []
drop_slash (c ∷ s) = if eqb (code c) b'/' then s else c ∷ s

-- A string is truthy when it is not empty.
unfoldable pub truthy : String → Bool
truthy [] = false
truthy (c ∷ s) = true

-- s || d, for a string or `undefined`
unfoldable pub or_default : Option String → String → String
unfolding truthy
or_default none d = d
or_default (some s) d = if truthy s then s else d

-- s ?? ""
unfoldable pub or_empty : Option String → String
or_empty none = ""
or_empty (some s) = s

-- s.slice(0, n), for a text of single code units
unfoldable pub take_text : ℕ → String → String
take_text zero s = []
take_text (suc n) [] = []
take_text (suc n) (c ∷ s) = c ∷ take_text n s

-- s.length: the UTF-16 code units
unfoldable pub utf16_length : String → ℕ
utf16_length [] = 0
utf16_length (c ∷ s) = (if ltb (code c) 0x10000 then 1 else 2) + utf16_length s

digit : ℕ → String
digit zero = "0"
digit (suc zero) = "1"
digit (suc (suc zero)) = "2"
digit (suc (suc (suc zero))) = "3"
digit (suc (suc (suc (suc zero)))) = "4"
digit (suc (suc (suc (suc (suc zero))))) = "5"
digit (suc (suc (suc (suc (suc (suc zero)))))) = "6"
digit (suc (suc (suc (suc (suc (suc (suc zero))))))) = "7"
digit (suc (suc (suc (suc (suc (suc (suc (suc zero)))))))) = "8"
digit _ = "9"

-- The digits of n behind those that are written already; each round takes one digit off.
show_digits : ℕ → ℕ → String → String
unfolding digit
show_digits zero n written = written
show_digits (suc fuel) n written =
    let more = show_digits fuel (n / 10) (digit (n % 10) ++ written) in
    if ltb n 10 then digit n ++ written else more

-- String(n)
unfoldable pub show_nat : ℕ → String
unfolding show_digits
show_nat n = show_digits (suc n) n ""

-- s.includes(t)
unfoldable pub contains_text : String → String → Bool
contains_text [] t = starts_with [] t
contains_text (c ∷ s) t = starts_with (c ∷ s) t || contains_text s t

-- s.split(c)[0], for a separator of one character
unfoldable pub before : ℕ → String → String
before sep [] = []
before sep (c ∷ s) = let rest = before sep s in if eqb (code c) sep then [] else c ∷ rest

-- s.split(c)[1]
unfoldable pub second_part : ℕ → String → Option String
unfolding before
second_part sep [] = none
second_part sep (c ∷ s) =
    let rest = second_part sep s in if eqb (code c) sep then some (before sep s) else rest

-- parts.join(sep)
unfoldable pub join : String → List String → String
join sep List.[] = ""
join sep (List.◌∷◌ s List.[]) = s
join sep (List.◌∷◌ s rest) = s ++ sep ++ join sep rest

-- What stands behind the first separator; nothing where there is none.
unfoldable pub after : ℕ → String → String
after sep [] = []
after sep (c ∷ s) = let rest = after sep s in if eqb (code c) sep then s else rest

has_code : ℕ → String → Bool
has_code n [] = false
has_code n (c ∷ s) = eqb (code c) n || has_code n s

-- pattern.replace(/[.+^${}()|[\]\\]/g, "\\$&").replace(/\*/g, ".*")
unfoldable pub escape_pattern : String → String
unfolding has_code
escape_pattern [] = []
escape_pattern (c ∷ s) =
    let rest = escape_pattern s in
    if has_code (code c) ".+^${}()|[]\\"
    then "\\" ++ (c ∷ rest)
    else if eqb (code c) b'*'
    then ".*" ++ rest
    else c ∷ rest

-- `^${pattern}$`
unfoldable pub anchored : String → String
anchored pattern = "^" ++ pattern ++ "$"
