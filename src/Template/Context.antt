-- ===== src/Template/Context.antt =====
-- What the template context holds of each step.
use mathlib.Core.Option
use flowspec_devkitd.Base.{
  ◌≡◌, refl, ◌∙◌, Text, ◌==◌, ==_iff, List, [], ◌∷◌, any, Option, none, some, arith, if◌then◌else◌,
  Bool-cases, inl, inr,
}
use flowspec_devkitd.Base.Map.{Map, get, get-insert}
use flowspec_devkitd.Json.{Value, string}
use flowspec_devkitd.Flow.Types.{FlowDefinition, Step}
use flowspec_devkitd.Run.Types.{RunState, StepRun, state_step}
use flowspec_devkitd.Template.{
  StepContext, step_context, insert_context, context_steps, build_context,
}

get-insert_context :
    (m : Map StepContext) (j id : Text) (run : Option StepRun)
    → get (insert_context m j run) id
      ≡ Option.or_else (if j == id then Option.map step_context run else none) (get m id)
unfolding Option.or_else get
get-insert_context m j id none = elim (Bool-cases (j == id)) [
  | inl e ↦ rw e refl
  | inr e ↦ rw e refl
]
get-insert_context m j id (some s) = ground (arith, get-insert m j id (step_context s))

get-context_steps :
    (state : RunState) (steps : List Step) (m : Map StepContext) (id : Text)
    → get (context_steps state steps m) id
      ≡ Option.or_else
          (if any (λ s. s.id == id) steps
            then Option.map step_context (state_step state id)
            else none)
          (get m id)
unfolding context_steps Option.or_else get
get-context_steps state [] m id = refl
get-context_steps state (s ∷ r) m id = ground (
  arith,
  get-context_steps state r (insert_context m s.id (state_step state s.id)) id,
  get-insert_context m s.id id (state_step state s.id),
  ==_iff s.id id,
)

or_else-none {ℓ} : {A : Type ℓ} (o : Option A) → Option.or_else o none ≡ o
unfolding Option.or_else
or_else-none none = refl
or_else-none (some a) = refl

-- The context holds a step id exactly when the flow declares it and the state has a run of it,
-- and then holds that run's output, feedback and approval comment, and no other run.
pub build_context-steps :
    (flow : FlowDefinition) (state : RunState) (env : Value) (id : Text)
    → get (build_context flow state env).steps id ≡ (
        if any (λ s. s.id == id) flow.steps
        then Option.map
            (λ run. record {
              output = run.output;
              feedback = Option.map string run.feedback;
              approval_comment = Option.map string run.approval_comment;
              run = none;
            })
            (state_step state id)
        else none)
unfolding build_context get
build_context-steps flow state env id =
    get-context_steps state flow.steps [] id
    ∙ or_else-none (
        if any (λ s. s.id == id) flow.steps
        then Option.map step_context (state_step state id)
        else none)
