-- ===== src/Server/Devkitd/Laws.antt =====
-- When waiting for a job ends with an output.
use mathlib.Core.Option.{get_or}
use flowspec_devkitd.Base.{
  ℕ, zero, suc, false, Text, codes, ◌==◌, ==_iff, ◌⊎◌, List, [], ◌∷◌, Option, none, some, Result,
  ok, ◌≡◌, refl, inl, inr, Bool-cases, Option-cases, Result-cases, Memᴰ, arith,
}
use flowspec_devkitd.Json.{Value}
use flowspec_devkitd.App.Wire.{DevkitdError}
use flowspec_devkitd.Server.Devkitd.{
  ℤ, pos, negsuc, JobStatusEnvelope, CallToolResult, Serde, Round, RoundEnd, finished, polling,
  first_text, decode_stdout, job_done, job_state, status_text, polled, is_late, round, wait,
}

abbrev pub done_text : Text
done_text = codes "done"

job_done-ok :
    (serde : Serde) (max_kb : ℕ) (stdout stderr : Text) (exit : Option ℤ) (v : Value)
    → job_done serde max_kb stdout stderr exit ≡ ok v
    → (exit ≡ some (pos 0)) × (v ≡ decode_stdout serde stdout max_kb)
unfolding job_done
job_done-ok serde max_kb stdout stderr none v h = cc
job_done-ok serde max_kb stdout stderr (some (pos zero)) v h = (refl, ground (arith, h))
job_done-ok serde max_kb stdout stderr (some (pos (suc n))) v h = ground (arith, h)
job_done-ok serde max_kb stdout stderr (some (negsuc zero)) v h = cc
job_done-ok serde max_kb stdout stderr (some (negsuc (suc zero))) v h = cc
job_done-ok serde max_kb stdout stderr (some (negsuc (suc (suc n)))) v h = cc

RoundEnd-cases :
    (e : RoundEnd)
    → ((result : Result DevkitdError Value) × (e ≡ finished result)) ⊎ ((n : ℕ) × (e ≡ polling n))
RoundEnd-cases (finished result) = inl (result, refl)
RoundEnd-cases (polling n) = inr (n, refl)

module _ (serde : Serde) (max_kb : ℕ) (retries : ℕ) (deadline : Option ℕ) where
  -- A round that shows the job as done with the exit code 0, before the deadline.
  pub record Succeeded (r : Round) (v : Value) : Type 0 where
    pub answer : CallToolResult
    pub text : Text
    pub envelope : JobStatusEnvelope
    pub in_time : is_late serde max_kb retries deadline r.now ≡ false
    pub answered : r.answer ≡ some answer
    pub no_error : answer.is_error ≡ false
    pub has_text : first_text answer.content ≡ some text
    pub parsed : serde.job_status text ≡ ok envelope
    pub is_done : envelope.state ≡ done_text
    pub exit_zero : envelope.exit_code ≡ some (pos 0)
    pub its_output : v ≡ decode_stdout serde (get_or envelope.stdout []) max_kb

  job_state-ok :
      (e : JobStatusEnvelope) (v : Value)
      → job_state serde max_kb retries deadline e ≡ finished (ok v)
      → (e.state ≡ done_text)
        × (e.exit_code ≡ some (pos 0))
        × (v ≡ decode_stdout serde (get_or e.stdout []) max_kb)
  unfolding job_state
  job_state-ok e v h = elim (Bool-cases (e.state == codes "cancelled")) [
    | inl c ↦ absurd (ground (arith, c, h))
    | inr c ↦ elim (Bool-cases (e.state == done_text)) [
      | inr d ↦ absurd (ground (arith, c, d, h))
      | inl d ↦
          let result : job_done serde max_kb (get_or e.stdout []) (get_or e.stderr []) e.exit_code
              ≡ ok v =
            ground (arith, c, d, h) in
          let (zero_exit, output) = job_done-ok serde max_kb _ _ e.exit_code v result in
          ((==_iff e.state done_text).0 d, zero_exit, output)
    ]
  ]

  round-ok :
      (failures : ℕ) (r : Round) (v : Value)
      → round serde max_kb retries deadline failures r ≡ finished (ok v)
      → Succeeded r v
  unfolding round polled status_text
  round-ok failures r v h = elim (Bool-cases (is_late serde max_kb retries deadline r.now)) [
    | inl late ↦ absurd (ground (arith, late, h))
    | inr early ↦ elim (Option-cases r.answer) [
      | inl e ↦ absurd (ground (arith, early, e, h))
      | inr (answer, e) ↦ elim (Bool-cases answer.is_error) [
        | inl x ↦ absurd (ground (arith, early, e, x, h))
        | inr x ↦ elim (Option-cases (first_text answer.content)) [
          | inl t ↦ absurd (ground (arith, early, e, x, t, h))
          | inr (text, t) ↦ elim (Result-cases (serde.job_status text)) [
            | inr (m, q) ↦ absurd (ground (arith, early, e, x, t, q, h))
            | inl (envelope, q) ↦
                let result : job_state serde max_kb retries deadline envelope ≡ finished (ok v) =
                  ground (arith, early, e, x, t, q, h) in
                let (state, zero_exit, output) = job_state-ok envelope v result in
                record {
                  answer = answer;
                  text = text;
                  envelope = envelope;
                  in_time = early;
                  answered = e;
                  no_error = x;
                  has_text = t;
                  parsed = q;
                  is_done = state;
                  exit_zero = zero_exit;
                  its_output = output;
                }
          ]
        ]
      ]
    ]
  ]

  -- Waiting for a job ends with an output only if some round, before the deadline, showed the job as
  -- done with the exit code 0, and the output is what that round carried.
  pub wait-ok :
      (failures : ℕ) (rounds : List Round) (v : Value)
      → wait serde max_kb retries deadline failures rounds ≡ some (ok v)
      → (r : Round) × Memᴰ r rounds × Succeeded r v
  unfolding wait
  wait-ok failures [] v h = cc
  wait-ok failures (r ∷ rest) v h =
      elim (RoundEnd-cases (round serde max_kb retries deadline failures r)) [
        | inl (result, e) ↦
            let ended : round serde max_kb retries deadline failures r ≡ finished (ok v) =
              ground (arith, e, h) in
            (r, Memᴰ.head refl, round-ok failures r v ended)
        | inr (n, e) ↦
            let (x, m, succeeded) = wait-ok n rest v (ground (arith, e, h)) in
            (x, Memᴰ.tail m, succeeded)
      ]
