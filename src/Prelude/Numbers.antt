-- ===== src/Prelude/Numbers.antt =====
-- `parseInt(s, 10)` and the printing of its results.
use Prim.Native.Nat.{ℕ, zero, suc, ◌+◌, ◌-◌, ◌*◌}
use Prim.Native.Char.{code}
use Prim.Native.String.{String, [], ◌∷◌, ◌++◌}
use mathlib.Core.Path.{◌≡◌, refl}
use mathlib.Core.Bool.{Bool, ◌&&◌, ◌||◌}
use dockge.Prelude.Tests.{leb, eqb, if◌then◌else◌}
use dockge.Prelude.Texts.{show_nat}

-- An integer or NaN; `minus n` is -n.
pub data Number : Type 0 where
  nan : Number
  plus minus : ℕ → Number

is_digit : ℕ → Bool
is_digit c = leb b'0' c && leb c b'9'

-- The white space that `parseInt` skips.
is_space : ℕ → Bool
is_space c =
    (leb 9 c && leb c 13)
    || eqb c 32
    || eqb c 0xa0
    || eqb c 0x1680
    || (leb 0x2000 c && leb c 0x200a)
    || eqb c 0x2028
    || eqb c 0x2029
    || eqb c 0x202f
    || eqb c 0x205f
    || eqb c 0x3000
    || eqb c 0xfeff

-- The digits at the front, behind those that make up n.
read_digits : ℕ → String → ℕ
unfolding is_digit
read_digits n [] = n
read_digits n (c ∷ s) =
    let longer = read_digits (n * 10 + (code c - 48)) s in if is_digit (code c) then longer else n

unsigned : (ℕ → Number) → String → Number
unfolding is_digit read_digits
unsigned sign [] = nan
unsigned sign (c ∷ s) = if is_digit (code c) then sign (read_digits 0 (c ∷ s)) else nan

signed : String → Number
unfolding unsigned
signed [] = nan
signed (c ∷ s) =
    if eqb (code c) b'-'
    then unsigned minus s
    else if eqb (code c) b'+'
    then unsigned plus s
    else unsigned plus (c ∷ s)

unfoldable pub parse_int : String → Number
unfolding signed is_space
parse_int [] = nan
parse_int (c ∷ s) =
    let trimmed = parse_int s in if is_space (code c) then trimmed else signed (c ∷ s)

-- String(n); -0 prints as 0.
unfoldable pub show_number : Number → String
unfolding show_nat
show_number nan = "NaN"
show_number (plus n) = show_nat n
show_number (minus zero) = "0"
show_number (minus (suc n)) = "-" ++ show_nat (suc n)

parse_int_tests :
    (parse_int " 16/x" ≡ plus 16) × (parse_int "-7" ≡ minus 7) × (parse_int "x1" ≡ nan)
unfolding parse_int
parse_int_tests = (refl, refl, refl)

show_number_test : show_number (minus 240) ≡ "-240"
unfolding show_number
show_number_test = refl
