-- ===== src/Template/Fuel.antt =====
-- The loop of `resolve` ends: its fuel, the length of the text, is enough.
use flowspec_devkitd.Base.{
  ℕ, zero, suc, ◌+◌, ◌≤◌, ◌≡◌, refl, inl, inr, Text, [], ◌∷◌, ◌++◌, length, length-append, some,
  arith, Option-cases, Result-cases,
}
use flowspec_devkitd.Base.Strings.{split_once, split_once-some, trim}
use flowspec_devkitd.Flow.Types.{SerdeJson}
use flowspec_devkitd.Template.{
  TemplateContext, open_mark, close_mark, resolve_loop, resolve_path, render_value,
}

split_once-length :
    (needle s before after : Text)
    → split_once needle s ≡ some (before, after)
    → length after + length needle ≤ length s
split_once-length needle s before after h =
    let whole : s ≡ before ++ (needle ++ after) = split_once-some needle s h in
    rw whole (ground (arith, length-append before (needle ++ after), length-append needle after))

module _ (json : SerdeJson) (ctx : TemplateContext) (step : Text) where
  -- With fuel for the length of the text or more, the result does not depend on the fuel.
  pub resolve_loop_fuel :
      (f g : ℕ) (out rest : Text)
      → length rest ≤ f
      → length rest ≤ g
      → resolve_loop json ctx step f out rest ≡ resolve_loop json ctx step g out rest
  unfolding resolve_loop split_once
  resolve_loop_fuel zero zero out rest hf hg = refl
  resolve_loop_fuel zero (suc g) out [] hf hg = refl
  resolve_loop_fuel zero (suc g) out (c ∷ r) hf hg = absurd (omega arith)
  resolve_loop_fuel (suc f) zero out [] hf hg = refl
  resolve_loop_fuel (suc f) zero out (c ∷ r) hf hg = absurd (omega arith)
  resolve_loop_fuel (suc f) (suc g) out rest hf hg =
      elim (Option-cases (split_once open_mark rest)) [
        | inl e ↦ rw (e, resolve_loop) refl
        | inr ((literal, opened), e) ↦ elim (Option-cases (split_once close_mark opened)) [
          | inl q ↦ rw (e, q, resolve_loop) refl
          | inr ((expr, later), q) ↦
              let short = split_once-length open_mark rest literal opened e in
              let shorter = split_once-length close_mark opened expr later q in
              elim (Result-cases (resolve_path (trim expr) ctx step)) [
                | inr (x, p) ↦ rw (e, q, p, resolve_loop) refl
                | inl (v, p) ↦
                    rw (e, q, p, resolve_loop)
                      (resolve_loop_fuel f g ((out ++ literal) ++ render_value json v) later
                        (omega arith) (omega arith))
              ]
        ]
      ]
