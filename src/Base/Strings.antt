-- ===== src/Base/Strings.antt =====
-- The functions of Rust's `str` that the code calls, over lists of code points.
use Prim.Native.Nat.{ℕ}
use mathlib.Core.Path.{◌≡◌, refl}
use mathlib.Core.Logic.{inl, inr}
use mathlib.Core.Bool.{Bool, ◌&&◌, ◌||◌}
use mathlib.Core.List.{List, [], ◌∷◌, ◌++◌, reverse}
use mathlib.Core.Option.{Option, none, some}
use mathlib.Core.Option
use native.Mathlib.Omega.{arith}
use flowspec_devkitd.Base.Tests.{eqb, leb, if◌then◌else◌, is_some, Option-cases}
use flowspec_devkitd.Base.Texts.{Text}

-- `char::is_whitespace`: the code points with the Unicode property White_Space.
pub is_whitespace : ℕ → Bool
is_whitespace c =
    leb 9 c && leb c 13
    || eqb c 32
    || eqb c 133
    || eqb c 160
    || eqb c 0x1680
    || leb 0x2000 c && leb c 0x200a
    || eqb c 0x2028
    || eqb c 0x2029
    || eqb c 0x202f
    || eqb c 0x205f
    || eqb c 0x3000

pub trim_start : Text → Text
unfolding is_whitespace
trim_start [] = []
trim_start (c ∷ s) = if is_whitespace c then trim_start s else c ∷ s

unfoldable pub trim : Text → Text
unfolding trim_start
trim s = reverse (trim_start (reverse (trim_start s)))

unfoldable pub strip_prefix : Text → Text → Option Text
strip_prefix [] s = some s
strip_prefix (p ∷ ps) [] = none
strip_prefix (p ∷ ps) (c ∷ s) = if eqb p c then strip_prefix ps s else none

unfoldable pub strip_suffix : Text → Text → Option Text
unfolding strip_prefix
strip_suffix p s = Option.map reverse (strip_prefix (reverse p) (reverse s))

abbrev pub prepend : ℕ → Text × Text → Text × Text
prepend c (before, after) = (c ∷ before, after)

-- `find(needle)`, then the text before the match and the text behind it.
unfoldable pub split_once : Text → Text → Option (Text × Text)
unfolding strip_prefix
split_once needle [] = none
split_once needle (c ∷ s) =
    let later = Option.map (prepend c) (split_once needle s) in
    elim (strip_prefix needle (c ∷ s)) [ some rest ↦ some ([], rest) | none ↦ later ]

-- `contains(needle)`, for a needle that is not empty.
unfoldable pub contains : Text → Text → Bool
unfolding split_once
contains needle s = is_some (split_once needle s)

abbrev pub extend : ℕ → List Text → List Text
extend c [] = (c ∷ []) ∷ []
extend c (part ∷ parts) = (c ∷ part) ∷ parts

-- `split(c)`.
unfoldable pub split : ℕ → Text → List Text
split sep [] = [] ∷ []
split sep (c ∷ s) = if eqb c sep then [] ∷ split sep s else extend c (split sep s)

-- `join(sep)`.
unfoldable pub join : Text → List Text → Text
join sep [] = []
join sep (x ∷ []) = x
join sep (x ∷ y ∷ r) = x ++ (sep ++ join sep (y ∷ r))

pub strip_prefix-some : (p s : Text) {rest : Text} → strip_prefix p s ≡ some rest → s ≡ p ++ rest
unfolding strip_prefix
strip_prefix-some [] s h = ground arith
strip_prefix-some (p ∷ ps) [] h = cc
strip_prefix-some (p ∷ ps) (c ∷ s) {rest} h = ground (arith, strip_prefix-some ps s {rest = rest})

pub strip_prefix-append : (p rest : Text) → strip_prefix p (p ++ rest) ≡ some rest
unfolding strip_prefix
strip_prefix-append [] rest = refl
strip_prefix-append (p ∷ ps) rest = ground (arith, strip_prefix-append ps rest)

split_once-cons :
    (needle : Text) (c : ℕ) (s : Text) {before after : Text}
    → split_once needle (c ∷ s) ≡ some (before, after)
    → ((b a : Text) → split_once needle s ≡ some (b, a) → s ≡ b ++ (needle ++ a))
    → c ∷ s ≡ before ++ (needle ++ after)
unfolding split_once
split_once-cons needle c s {before} {after} h ih =
    elim (Option-cases (strip_prefix needle (c ∷ s))) [
      | inr (rest, e) ↦ ground (arith, strip_prefix-some needle (c ∷ s) {rest = rest})
      | inl e ↦ elim (Option-cases (split_once needle s)) [
        | inl q ↦ ground arith
        | inr ((b, a), q) ↦ ground (arith, ih b a)
      ]
    ]

-- What `split_once` cuts is the text.
pub split_once-some :
    (needle s : Text) {before after : Text}
    → split_once needle s ≡ some (before, after)
    → s ≡ before ++ (needle ++ after)
unfolding split_once
split_once-some needle [] h = cc
split_once-some needle (c ∷ s) {before} {after} h =
    split_once-cons needle c s h (λ b a. split_once-some needle s {before = b} {after = a})
