-- ===== src/Base/Decimal.antt =====
-- Decimal numerals: `to_string` of an unsigned integer and `str::parse::<u64>`.
use Prim.Native.Nat.{ℕ, zero, suc, ◌+◌, ◌-◌, ◌*◌, ◌/◌, ◌%◌, ◌^◌}
use mathlib.Core.Path.{◌≡◌, refl}
use mathlib.Core.Bool.{Bool, ◌&&◌}
use mathlib.Core.List.{[], ◌∷◌}
use mathlib.Core.Option.{Option, none, some}
use flowspec_devkitd.Base.Tests.{eqb, leb, ltb, if◌then◌else◌}
use flowspec_devkitd.Base.Texts.{Text}
use flowspec_devkitd.Base.Lists.{all, is_empty}

abbrev pub u64_mod : ℕ
u64_mod = 2 ^ 64

pub is_digit : ℕ → Bool
is_digit c = leb b'0' c && leb c b'9'

pub digits_value : ℕ → Text → ℕ
digits_value acc [] = acc
digits_value acc (c ∷ s) = digits_value (acc * 10 + (c - b'0')) s

-- Digits only, at least one, and a value that fits.
parse_digits : Text → Option ℕ
unfolding is_digit digits_value
parse_digits s =
    if is_empty s
    then none
    else if all is_digit s
    then (if ltb (digits_value 0 s) u64_mod then some (digits_value 0 s) else none)
    else none

-- One leading `+` is allowed.
unfoldable pub parse_u64 : Text → Option ℕ
unfolding parse_digits
parse_u64 [] = none
parse_u64 (c ∷ s) = if eqb c b'+' then parse_digits s else parse_digits (c ∷ s)

-- The last digit is written first; `fuel` bounds the number of digits.
print_digits : ℕ → ℕ → Text → Text
print_digits zero n after = after
print_digits (suc fuel) n after =
    let rest = print_digits fuel (n / 10) ((n % 10 + b'0') ∷ after) in
    if ltb n 10 then (n % 10 + b'0') ∷ after else rest

pub print_nat : ℕ → Text
unfolding print_digits
print_nat n = print_digits (suc n) n []

print_large : print_nat 1203 ≡ b'1' ∷ b'2' ∷ b'0' ∷ b'3' ∷ []
unfolding print_nat
print_large = refl
