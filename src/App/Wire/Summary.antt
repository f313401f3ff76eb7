-- ===== src/App/Wire/Summary.antt =====
-- How much of an output a summary shows.
use flowspec_devkitd.Base.{
  ℕ, zero, suc, ◌*◌, ◌≤◌, ◌<◌, ◌≡◌, ◌≢◌, refl, codes, ap, true, false, Text, [], ◌∷◌, ◌++◌, length,
  take, leb, ◌⊎◌, inl, inr, Bool-cases, arith,
}
use flowspec_devkitd.Base.Utf8.{code_bytes, utf8_length}
use flowspec_devkitd.Base.Decimal.{print_nat}
use flowspec_devkitd.Json.{Value}
use flowspec_devkitd.Flow.Types.{SerdeJson}
use flowspec_devkitd.App.Wire.{output_text, truncation_mark, summarize_output}

length-take : (n : ℕ) (s : Text) → n ≤ length s → length (take n s) ≡ n
length-take zero s h = refl
length-take (suc n) [] h = omega (arith, h)
length-take (suc n) (c ∷ s) h = ap suc (length-take n s (omega (arith, h)))

length-le-utf8_length : (s : Text) → length s ≤ utf8_length s
unfolding utf8_length code_bytes
length-le-utf8_length [] = omega arith
length-le-utf8_length (c ∷ s) = ground (arith, length-le-utf8_length s)

utf8_length-le : (s : Text) → utf8_length s ≤ 4 * length s
unfolding utf8_length code_bytes
utf8_length-le [] = omega arith
utf8_length-le (c ∷ s) = ground (arith, utf8_length-le s)

-- What `take` leaves of a longer text.
take-rest : (n : ℕ) (s : Text) → n < length s → (rest : Text) × (s ≡ take n s ++ rest) × (rest ≢ [])
take-rest zero [] h = absurd (omega (arith, h))
take-rest zero (c ∷ s) h = (c ∷ s, refl, λ e. cc)
take-rest (suc n) [] h = absurd (omega (arith, h))
take-rest (suc n) (c ∷ s) h =
    let (rest, e, more) = take-rest n s (omega (arith, h)) in (rest, ap (λ r. c ∷ r) e, more)

-- A summary shows the whole text, of at most the limit, or cuts it in two: as many characters as the
-- limit, with the mark that names the size behind them, and a rest that is not empty. The size is
-- that of the whole text in UTF-8: between one and four bytes for each character.
pub summarize_output-bound :
    (json : SerdeJson) (value : Value) (max_chars : ℕ)
    → ((summarize_output json value max_chars).bytes ≡ utf8_length (output_text json value))
      × (length (output_text json value) ≤ (summarize_output json value max_chars).bytes)
      × ((summarize_output json value max_chars).bytes ≤ 4 * length (output_text json value))
      × (((summarize_output json value max_chars).truncated ≡ false)
            × ((summarize_output json value max_chars).text ≡ output_text json value)
            × (length (output_text json value) ≤ max_chars)
          ⊎ ((summarize_output json value max_chars).truncated ≡ true)
            × (shown : Text) × (rest : Text) × (output_text json value ≡ shown ++ rest)
            × (length shown ≡ max_chars)
            × (rest ≢ [])
            × ((summarize_output json value max_chars).text
                ≡ shown
                  ++ (codes "…[truncated, "
                      ++ (print_nat (utf8_length (output_text json value))
                          ++ codes " bytes total; use get_step_output]"))))
unfolding summarize_output truncation_mark
summarize_output-bound json value max_chars =
    let text = output_text json value in
    let bytes = length-le-utf8_length text in
    let most = utf8_length-le text in
    elim (Bool-cases (leb (length text) max_chars)) [
      | inl e ↦ rw e (refl, bytes, most, inl (refl, refl, ground (arith, e)))
      | inr e ↦
          let long : max_chars < length text = ground (arith, e) in
          let (rest, whole, more) = take-rest max_chars text long in
          rw e (
            refl,
            bytes,
            most,
            inr (
              refl,
              take max_chars text,
              rest,
              whole,
              length-take max_chars text (omega (arith, long)),
              more,
              refl,
            ),
          )
    ]
