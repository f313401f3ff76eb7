-- ===== src/Run/Engine/Runnable.antt =====
-- On a flow whose routes exist and whose templates resolve, the engine accepts every event about a
-- declared step.
use mathlib.Core.List.Memᴰ
use flowspec_devkitd.Base.{Bool, true, false, ◌≡◌, refl, Text, List, Result, ok, err, Memᴰ}
use flowspec_devkitd.Flow.Types.{FlowDefinition, Step, SerdeJson}
use flowspec_devkitd.Flow.Validate.Rules.{RoutesExist}
use flowspec_devkitd.Run.Types.{EngineError}
use flowspec_devkitd.Template.{TemplateContext}
use flowspec_devkitd.Run.Engine.{resolve_input, resolve_reject_input}

abbrev pub is_ok {ℓ} : {A : Type ℓ} → Result EngineError A → Bool
is_ok (ok _) = true
is_ok (err _) = false

pub ok_of {ℓ} : {A : Type ℓ} (r : Result EngineError A) → is_ok r ≡ true → (a : A) × (r ≡ ok a)
ok_of (ok a) h = (a, refl)
ok_of (err e) h = cc

-- A flow whose routes lead to declared steps, and whose templates resolve in every context.
pub record IsRunnable (json : SerdeJson) (flow : FlowDefinition) : Type 0 where
  pub routes_exist : (step : Step) → Memᴰ step flow.steps → RoutesExist flow step
  pub inputs_resolve :
      (step : Step) (ctx : TemplateContext)
      → Memᴰ step flow.steps
      → is_ok (resolve_input json step ctx) ≡ true
  pub reject_inputs_resolve :
      (step : Step) (ctx : TemplateContext) (feedback : Text)
      → Memᴰ step flow.steps
      → is_ok (resolve_reject_input json step ctx feedback) ≡ true
