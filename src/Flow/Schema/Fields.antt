-- ===== src/Flow/Schema/Fields.antt =====
-- When the field constraints report nothing.
use flowspec_devkitd.Base.{
  ℕ, ◌≤◌, ◌⊎◌, all, true, ◌≡◌, refl, ◌≢◌, ◌↔◌, inl, inr, Text, List, [], ◌∷◌, ◌++◌, All,
  append-eq-nil, List-cases, Option, none, some, arith, Option-cases, Partial, returns, panics,
  and_then, Partial-cases,
}
use flowspec_devkitd.Flow.Types.{FlowDefinition, Step}
use flowspec_devkitd.Flow.Schema.Duration.{IsDuration, parse_duration_iff}
use flowspec_devkitd.Flow.Schema.{
  Violation, is_id_char, is_valid_id, id_violations, parse_duration, timeout_violations,
  step_field_violations, validate_fields,
}

-- A timeout is left out, or it is a number and a unit.
abbrev pub TimeoutParses : Option Text → Type 0
TimeoutParses none = Unit
TimeoutParses (some t) = IsDuration t

-- The shape of an id: at least one of the letters a to z, of the digits, of `-` and of `_`, and
-- nothing else.
abbrev pub IsIdChar : ℕ → Type 0
IsIdChar c = (b'a' ≤ c) × (c ≤ b'z') ⊎ (b'0' ≤ c) × (c ≤ b'9') ⊎ (c ≡ b'-') ⊎ (c ≡ b'_')

abbrev pub IsId : Text → Type 0
IsId id = (id ≢ []) × All IsIdChar id

is_id_char_iff : (c : ℕ) → (is_id_char c ≡ true) ↔ IsIdChar c
unfolding is_id_char
is_id_char_iff c = ground arith

all_id_chars_iff : (s : Text) → (all is_id_char s ≡ true) ↔ All IsIdChar s
all_id_chars_iff [] = (λ _. tt, λ _. refl)
all_id_chars_iff (c ∷ s) =
    let (to, from) = is_id_char_iff c in
    let (to_all, from_all) = all_id_chars_iff s in
    (
      λ h. (to (ground (arith, h)), to_all (ground (arith, h))),
      λ h. let first = from h.0 in let others = from_all h.1 in ground (arith, first, others),
    )

is_valid_id_iff : (id : Text) → (is_valid_id id ≡ true) ↔ IsId id
unfolding is_valid_id
is_valid_id_iff [] = (λ h. cc, λ h. absurd (h.0 refl))
is_valid_id_iff (c ∷ s) =
    let (to, from) = all_id_chars_iff (c ∷ s) in (λ h. (λ e. cc, to h), λ h. from h.1)

abbrev pub FieldsValid : Step → Type 0
FieldsValid step = IsId step.id × TimeoutParses step.timeout

timeout_violations_iff :
    (timeout step : Option Text) (message : Text → Text)
    → (timeout_violations timeout step message ≡ returns []) ↔ TimeoutParses timeout
unfolding timeout_violations
timeout_violations_iff none step message = (λ _. tt, λ _. refl)
timeout_violations_iff (some t) step message = (
  λ e. elim (Partial-cases (parse_duration t)) [
    | inl (parsed, q) ↦ elim (Option-cases parsed) [
      | inl z ↦ absurd (ground arith)
      | inr (n, z) ↦ (parse_duration_iff t).0 (n, ground arith)
    ]
    | inr q ↦ absurd (ground arith)
  ],
  λ h. let (n, p) = (parse_duration_iff t).1 h in ground (arith, p),
)

-- Two lists of violations, of which the first may panic.
and_then-append :
    (first : Partial (List Violation)) (rest : Partial (List Violation)) (own : List Violation)
    → (and_then first (λ vs. and_then rest (λ ws. returns (own ++ (vs ++ ws)))) ≡ returns [])
      ↔ ((own ≡ []) × (first ≡ returns []) × (rest ≡ returns []))
and_then-append (returns vs) (returns ws) own = (
  λ e.
      let whole : own ++ (vs ++ ws) ≡ [] = ground arith in
      let (o, rest) = (append-eq-nil own (vs ++ ws)).0 whole in
      let (v, w) = (append-eq-nil vs ws).0 rest in (o, cc, cc),
  λ h. let o = h.0 in let v = h.1 in let w = h.2 in ground arith,
)
and_then-append (returns vs) panics own = (λ e. cc, λ h. let p = h.2 in cc)
and_then-append panics rest own = (λ e. cc, λ h. let p = h.1 in cc)

step_fields_iff :
    (steps : List Step) → (step_field_violations steps ≡ returns []) ↔ All FieldsValid steps
unfolding step_field_violations id_violations
step_fields_iff [] = (λ _. tt, λ _. refl)
step_fields_iff (step ∷ rest) =
    let (to, from) =
      and_then-append (timeout_violations step.timeout (some step.id) _)
        (step_field_violations rest) (id_violations step) in
    let (t_to, t_from) = timeout_violations_iff step.timeout (some step.id) _ in
    (
      λ e.
          let (i, t, r) = to e in
          (((is_valid_id_iff step.id).0 (ground arith), t_to t), (step_fields_iff rest).0 r),
      λ h.
          let id_fine = (is_valid_id_iff step.id).1 h.0.0 in
          from (ground arith, t_from h.0.1, (step_fields_iff rest).1 h.1),
    )

-- The field constraints report nothing exactly if the flow has a step, every step id has the right
-- shape, and every timeout that is given, of a step or of the flow, is a duration that parses.
pub validate_fields_iff :
    (flow : FlowDefinition)
    → (validate_fields flow ≡ returns [])
      ↔ ((flow.steps ≢ []) × All FieldsValid flow.steps × TimeoutParses flow.timeout)
unfolding validate_fields
validate_fields_iff flow =
    let (to, from) =
      and_then-append (step_field_violations flow.steps) (timeout_violations flow.timeout none _)
        _ in
    let (t_to, t_from) = timeout_violations_iff flow.timeout none _ in
    (
      λ e. let (own, s, t) = to e in (ground arith, (step_fields_iff flow.steps).0 s, t_to t),
      λ h.
          let some_step = h.0 in
          from
            (ground (arith, List-cases flow.steps), (step_fields_iff flow.steps).1 h.1, t_from h.2),
    )
