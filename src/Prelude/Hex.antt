-- ===== src/Prelude/Hex.antt =====
-- Reading two characters as a hexadecimal number, as `std::stoi` and `std::istringstream` do, and
-- `std::isspace`, `std::isalnum` in the C locale.
use Prim.Native.Nat.{ℕ, ◌+◌, ◌-◌, ◌*◌, ◌%◌, ◌<◌}
use mathlib.Core.Path.{◌≡◌}
use mathlib.Core.Bool.{Bool, ◌&&◌, ◌||◌}
use mathlib.Core.Option
use mathlib.Core.Option.{Option, none, some}
use native.Mathlib.Omega.{arith}
use foxhttp.Prelude.Tests.{ltb, leb, ◌==◌, if◌then◌else◌}

abbrev pub between : ℕ → ℕ → ℕ → Bool
between a b c = leb a c && leb c b

abbrev pub is_space : ℕ → Bool
is_space c = between 9 13 c || (c == 32)

abbrev pub is_alnum : ℕ → Bool
is_alnum c = between 48 57 c || (between 65 90 c || between 97 122 c)

abbrev pub hex_value : ℕ → Option ℕ
hex_value c =
    if between 48 57 c
    then some (c - 48)
    else if between 65 70 c
    then some (c - 55)
    else if between 97 102 c
    then some (c - 87)
    else none

-- `"0123456789ABCDEF"[n]`
abbrev pub hex_digit : ℕ → ℕ
hex_digit n = if ltb n 10 then 48 + n else 55 + n

-- `std::stoi(ab, nullptr, 16)` as a `char`: white space and a sign may stand first, and what
-- follows the digits is ignored.
abbrev pub stoi_hex : ℕ → ℕ → Option ℕ
stoi_hex a b = elim (hex_value a) [
  | some x ↦ elim (hex_value b) [ some y ↦ some (16 * x + y) | none ↦ some x ]
  | none ↦
      if a == 45
      then Option.map (λ y. (256 - y) % 256) (hex_value b)
      else if is_space a || (a == 43)
      then hex_value b
      else none
]

-- `istringstream(ab) >> std::hex >> v`, which does not take a prefix for the number 0.
abbrev pub stream_hex : ℕ → ℕ → Option ℕ
stream_hex a b = if (a == 48) && ((b == 120) || (b == 88)) then none else stoi_hex a b

pub hex_value-hex_digit : (n : ℕ) → n < 16 → hex_value (hex_digit n) ≡ some n
hex_value-hex_digit n h = ground arith
