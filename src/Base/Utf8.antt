-- ===== src/Base/Utf8.antt =====
-- The UTF-8 encoding of Rust's `str`, as far as the code reads lengths in bytes: `len` and
-- `split_at`.
use Prim.Native.Nat.{ℕ, ◌+◌, ◌-◌, ◌≤◌}
use mathlib.Core.Path.{◌≡◌, refl}
use mathlib.Core.Logic.{inl, inr}
use mathlib.Core.Bool.{true, false}
use mathlib.Core.List.{[], ◌∷◌, ◌++◌}
use native.Mathlib.Omega.{arith}
use flowspec_devkitd.Base.Tests.{eqb, leb, ltb, if◌then◌else◌, Bool-cases}
use flowspec_devkitd.Base.Texts.{Text}
use flowspec_devkitd.Base.Results.{Partial, returns, panics, and_then}

unfoldable pub code_bytes : ℕ → ℕ
code_bytes c = if ltb c 0x80 then 1 else if ltb c 0x800 then 2 else if ltb c 0x10000 then 3 else 4

-- `str::len`.
unfoldable pub utf8_length : Text → ℕ
unfolding code_bytes
utf8_length [] = 0
utf8_length (c ∷ s) = code_bytes c + utf8_length s

-- `str::split_at` at a byte, which panics inside of a character and beyond the end.
unfoldable pub split_at : Text → ℕ → Partial (Text × Text)
unfolding code_bytes
split_at [] n = if eqb n 0 then returns ([], []) else panics
split_at (c ∷ s) n =
    let rest = split_at s (n - code_bytes c) in
    if eqb n 0
    then returns ([], c ∷ s)
    else if leb (code_bytes c) n
    then and_then rest (λ (before, after). returns (c ∷ before, after))
    else panics

code_bytes-pos : (c : ℕ) → 1 ≤ code_bytes c
unfolding code_bytes
code_bytes-pos c = ground arith

utf8_length-pos : (s : Text) (c : ℕ) → 1 ≤ utf8_length (s ++ c ∷ [])
unfolding utf8_length code_bytes
utf8_length-pos [] c = ground arith
utf8_length-pos (d ∷ s) c = ground (arith, utf8_length-pos s c)

-- A cut behind the first character.
split_at-next :
    (c : ℕ) (s : Text) (n : ℕ)
    → 1 ≤ n
    → split_at (c ∷ s) (code_bytes c + n - 1)
      ≡ and_then (split_at s (n - 1)) (λ (before, after). returns (c ∷ before, after))
unfolding split_at
split_at-next c s n h =
    let later : code_bytes c + n - 1 - code_bytes c ≡ n - 1 = omega (arith, h) in
    let wide : 1 ≤ code_bytes c = code_bytes-pos c in
    let nonzero : eqb (code_bytes c + n - 1) 0 ≡ false = ground (arith, h, wide) in
    let reaches : leb (code_bytes c) (code_bytes c + n - 1) ≡ true = ground (arith, h) in
    rw (later, nonzero, reaches) refl

-- Where the last character takes one byte, the last byte can be cut off, and only there.
pub split_at-last :
    (s : Text) (c : ℕ)
    → split_at (s ++ c ∷ []) (utf8_length (s ++ c ∷ []) - 1)
      ≡ (if ltb c 0x80 then returns (s, c ∷ []) else panics)
unfolding split_at utf8_length code_bytes
split_at-last [] c = ground arith
split_at-last (d ∷ s) c =
    let step = split_at-next d (s ++ c ∷ []) (utf8_length (s ++ c ∷ [])) (utf8_length-pos s c) in
    let later = split_at-last s c in
    elim (Bool-cases (ltb c 0x80)) [
      | inl e ↦ rw (step, later, e) refl
      | inr e ↦ rw (step, later, e) refl
    ]
