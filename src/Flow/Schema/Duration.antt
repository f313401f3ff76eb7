-- ===== src/Flow/Schema/Duration.antt =====
-- What `parse_duration` accepts, and on which texts it panics.
use mathlib.Core.Option
use flowspec_devkitd.Base.{
  ℕ, true, false, ap, ◌≡◌, refl, ◌↔◌, ◌⊎◌, inl, inr, ◌≤◌, Text, ◌==◌, [], ◌∷◌, ◌++◌, arith, none,
  some, Option-cases, Bool-cases, ltb, eqb, is_empty, ◌*◌, ◌%◌, ◌∙◌, returns, panics, if◌then◌else◌,
}
use flowspec_devkitd.Base.Strings.{trim}
use flowspec_devkitd.Base.Decimal.{parse_u64, u64_mod}
use flowspec_devkitd.Base.Utf8.{split_at-last}
use flowspec_devkitd.Flow.Schema.{parse_duration, seconds, scale}

-- A text is empty or has a last character.
last_cases : (s : Text) → (s ≡ []) ⊎ ((init : Text) × (last : ℕ) × (s ≡ init ++ last ∷ []))
last_cases [] = inl refl
last_cases (c ∷ s) = elim (last_cases s) [
  | inl e ↦ inr ([], c, ap (λ t. c ∷ t) e)
  | inr (init, last, e) ↦ inr (c ∷ init, last, ap (λ t. c ∷ t) e)
]

parse_duration-empty : (s : Text) → trim s ≡ [] → parse_duration s ≡ returns none
unfolding parse_duration
parse_duration-empty s e = rw e refl

is_empty-last : (init : Text) (last : ℕ) → is_empty (init ++ last ∷ []) ≡ false
is_empty-last [] last = refl
is_empty-last (c ∷ init) last = refl

parse_duration-last :
    (s init : Text) (last : ℕ)
    → trim s ≡ init ++ last ∷ []
    → parse_duration s ≡ (if ltb last 0x80 then seconds (init, last ∷ []) else panics)
unfolding parse_duration
parse_duration-last s init last e =
    let cut = split_at-last init last in
    elim (Bool-cases (ltb last 0x80)) [
      | inl q ↦ rw (e, is_empty-last init last, cut, q) refl
      | inr q ↦ rw (e, is_empty-last init last, cut, q) refl
    ]

-- `parse_duration` panics exactly when the last character of the trimmed text takes more than one
-- byte: it cuts one byte off the end.
pub parse_duration-panics :
    (s : Text)
    → (parse_duration s ≡ panics)
      ↔ ((init : Text) × (last : ℕ) × (trim s ≡ init ++ last ∷ []) × (128 ≤ last))
unfolding seconds
parse_duration-panics s = (
  λ h. elim (last_cases (trim s)) [
    | inl e ↦ absurd (cc (h, parse_duration-empty s e))
    | inr (init, last, e) ↦ (init, last, e, ground (arith, h, parse_duration-last s init last e))
  ],
  λ (init, last, e, wide). ground (arith, parse_duration-last s init last e, wide),
)

-- A number and one of the units, with white space around them.
abbrev pub IsDuration : Text → Type 0
IsDuration t =
    (number : Text) × (unit : ℕ) × (n : ℕ) × (trim t ≡ number ++ unit ∷ [])
    × (parse_u64 number ≡ some n)
    × ((unit ≡ b's') ⊎ (unit ≡ b'm') ⊎ (unit ≡ b'h'))

scale-unit :
    (n unit m : ℕ) → scale n (unit ∷ []) ≡ some m → (unit ≡ b's') ⊎ (unit ≡ b'm') ⊎ (unit ≡ b'h')
unfolding scale ◌==◌
scale-unit n unit m h = elim (Bool-cases (eqb unit b's')) [
  | inl e ↦ inl (ground (arith, e))
  | inr e ↦ elim (Bool-cases (eqb unit b'm')) [
    | inl e' ↦ inr (inl (ground (arith, e')))
    | inr e' ↦ elim (Bool-cases (eqb unit b'h')) [
      | inl e'' ↦ inr (inr (ground (arith, e'')))
      | inr e'' ↦ absurd (ground (arith, h, e, e', e''))
    ]
  ]
]

unit-scale :
    (n unit : ℕ)
    → (unit ≡ b's') ⊎ (unit ≡ b'm') ⊎ (unit ≡ b'h')
    → (m : ℕ) × (scale n (unit ∷ []) ≡ some m)
unfolding scale ◌==◌
unit-scale n unit (inl e) = (n, rw e refl)
unit-scale n unit (inr (inl e)) = (n * 60 % u64_mod, rw e refl)
unit-scale n unit (inr (inr e)) = (n * 3600 % u64_mod, rw e refl)

seconds_iff :
    (number : Text) (unit : ℕ)
    → ((n : ℕ) × (seconds (number, unit ∷ []) ≡ returns (some n)))
      ↔ ((n : ℕ) × (parse_u64 number ≡ some n) × ((unit ≡ b's') ⊎ (unit ≡ b'm') ⊎ (unit ≡ b'h')))
unfolding seconds Option.bind
seconds_iff number unit = (
  λ (m, h). elim (Option-cases (parse_u64 number)) [
    | inl q ↦ absurd (ground (arith, q, h))
    | inr (n, q) ↦
        let scaled : scale n (unit ∷ []) ≡ some m = ground (arith, q, h) in
        (n, q, scale-unit n unit m scaled)
  ],
  λ (n, q, u). let (m, scaled) = unit-scale n unit u in (m, ground (arith, q, scaled)),
)

pub parse_duration_iff :
    (t : Text) → ((n : ℕ) × (parse_duration t ≡ returns (some n))) ↔ IsDuration t
parse_duration_iff t = (
  λ (n, h). elim (last_cases (trim t)) [
    | inl e ↦ absurd (cc (h, parse_duration-empty t e))
    | inr (number, unit, e) ↦
        let cut = parse_duration-last t number unit e in
        elim (Bool-cases (ltb unit 0x80)) [
          | inl q ↦
              let found : seconds (number, unit ∷ []) ≡ returns (some n) =
                ground (arith, h, cut, q) in
              let (m, parsed, known) = (seconds_iff number unit).0 (n, found) in
              (number, unit, m, e, parsed, known)
          | inr q ↦ absurd (ground (arith, h, cut, q))
        ]
  ],
  λ (number, unit, m, e, parsed, known).
      let (n, found) = (seconds_iff number unit).1 (m, parsed, known) in
      let narrow : ltb unit 0x80 ≡ true = ground (arith, known) in
      (n, parse_duration-last t number unit e ∙ rw narrow found),
)
