-- ===== src/Run/Engine/Commands.antt =====
-- What a list of engine commands starts and ends, and how the pieces that `decide` puts together
-- contribute to it.
use flowspec_devkitd.Base.{◌≡◌, refl, Text, List, [], ◌∷◌, map, flat_map}
use flowspec_devkitd.Flow.Types.{HookCall}
use flowspec_devkitd.Run.Types.{Command, HookPhase, RunPhase, StepStatus}
use flowspec_devkitd.Run.Engine.{hooks_command}

-- The ids of the steps that a command starts.
abbrev pub started : Command → List Text
started (Command.activate_steps activations) = map (λ a. a.step_id) activations
started (Command.start_child_run id) = id ∷ []
started _ = []

abbrev pub started_by : List Command → List Text
started_by cs = flat_map started cs

-- The phases in which a command ends the run.
abbrev pub ended : Command → List RunPhase
ended (Command.mark_run_terminal p) = p ∷ []
ended _ = []

abbrev pub ended_by : List Command → List RunPhase
ended_by cs = flat_map ended cs

abbrev pub marked : Command → List (Text × StepStatus)
marked (Command.mark_step_status id status) = (id, status) ∷ []
marked _ = []

abbrev pub marked_by : List Command → List (Text × StepStatus)
marked_by cs = flat_map marked cs

pub started-hooks_command :
    (at : HookPhase) (hs : List HookCall) → started_by (hooks_command at hs) ≡ []
started-hooks_command at [] = refl
started-hooks_command at (h ∷ hs) = refl

pub ended-hooks_command :
    (at : HookPhase) (hs : List HookCall) → ended_by (hooks_command at hs) ≡ []
ended-hooks_command at [] = refl
ended-hooks_command at (h ∷ hs) = refl
