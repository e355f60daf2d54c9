-- ===== src/Prelude/Splits.antt =====
-- JavaScript's splitting, trimming and replacing of texts, beyond what stands in `Texts`.
use Prim.Native.Nat.{ℕ, zero, suc, ◌-◌}
use Prim.Native.Char.{code}
use Prim.Native.String.{String, [], ◌∷◌, ◌++◌}
use mathlib.Core.Bool.{Bool, true, false, ◌||◌, ◌&&◌}
use mathlib.Core.List.{List}
use text.Mathlib.Text.{◌==◌, starts_with}
use dockge.Prelude.Tests.{leb, eqb, if◌then◌else◌}

-- The first part gets a text in front.
unfoldable pub onto_first : String → List String → List String
onto_first s List.[] = List.◌∷◌ s List.[]
onto_first s (List.◌∷◌ t parts) = List.◌∷◌ (s ++ t) parts

-- s.split(c), for a separator of one character
unfoldable pub split : ℕ → String → List String
unfolding onto_first
split sep [] = List.◌∷◌ [] List.[]
split sep (c ∷ s) =
    let parts = split sep s in
    if eqb (code c) sep then List.◌∷◌ [] parts else onto_first (c ∷ []) parts

-- parts[parts.length - 1], of a list that is not empty
unfoldable pub last_part : List String → String
last_part List.[] = ""
last_part (List.◌∷◌ s List.[]) = s
last_part (List.◌∷◌ s parts) = last_part parts

-- s.includes(c)
unfoldable pub has_char : ℕ → String → Bool
has_char n [] = false
has_char n (c ∷ s) = eqb (code c) n || has_char n s

-- The text behind its first n characters: s.slice(n).
unfoldable pub skip_text : ℕ → String → String
skip_text zero s = s
skip_text (suc n) [] = []
skip_text (suc n) (c ∷ s) = skip_text n s

unfoldable pub text_size : String → ℕ
text_size [] = 0
text_size (c ∷ s) = suc (text_size s)

-- s.endsWith(t)
unfoldable pub ends_with : String → String → Bool
unfolding text_size
ends_with [] t = eqb (text_size t) 0
ends_with (c ∷ s) t = (c ∷ s) == t || ends_with s t

-- s.replaceAll(pat, rep) behind n characters of a match, for a `pat` that is not empty and a `rep`
-- without the patterns of "$".
replace_all_from : String → String → ℕ → String → String
unfolding text_size
replace_all_from pat rep n [] = []
replace_all_from pat rep (suc n) (c ∷ s) = replace_all_from pat rep n s
replace_all_from pat rep zero (c ∷ s) =
    let kept = replace_all_from pat rep zero s in
    let dropped = replace_all_from pat rep (text_size pat - 1) s in
    if starts_with (c ∷ s) pat then rep ++ dropped else c ∷ kept

unfoldable pub replace_all : String → String → String → String
unfolding replace_all_from
replace_all s pat rep = replace_all_from pat rep 0 s

-- s.replace(pat, rep), of the first occurrence
unfoldable pub replace_first : String → String → String → String
unfolding skip_text text_size
replace_first [] pat rep = []
replace_first (c ∷ s) pat rep =
    let rest = replace_first s pat rep in
    if starts_with (c ∷ s) pat then rep ++ skip_text (text_size pat) (c ∷ s) else c ∷ rest

-- The white space of JavaScript.
unfoldable pub is_white : ℕ → Bool
is_white c =
    (leb 9 c && leb c 13)
    || eqb c 32
    || eqb c 0xa0
    || eqb c 0x1680
    || (leb 0x2000 c && leb c 0x200a)
    || eqb c 0x2028
    || eqb c 0x2029
    || eqb c 0x202f
    || eqb c 0x205f
    || eqb c 0x3000
    || eqb c 0xfeff

unfoldable pub trim_start : String → String
unfolding is_white
trim_start [] = []
trim_start (c ∷ s) = let rest = trim_start s in if is_white (code c) then rest else c ∷ s

-- A character in front of what is left of the text behind it.
unfoldable pub keep_char : Bool → String → String → String
keep_char true c [] = []
keep_char _ c s = c ++ s

unfoldable pub trim_end : String → String
unfolding is_white keep_char
trim_end [] = []
trim_end (c ∷ s) = keep_char (is_white (code c)) (c ∷ []) (trim_end s)

-- s.trim()
unfoldable pub trim_text : String → String
unfolding trim_start trim_end
trim_text s = trim_end (trim_start s)
