-- ===== src/App/Split.antt =====
-- `split_at_hooks` of crates/flowspec-app/src/scheduler.rs: the commands before the first
-- `RunHooks` are executed, and those behind it wait for the hooks.
pub mod Laws
use flowspec_devkitd.Base.{List, [], ◌∷◌, Option, none, some}
use flowspec_devkitd.Flow.Types.{HookCall}
use flowspec_devkitd.Run.Types.{Command, HookPhase}

pub record HooksContinuation : Type 0 where
  pub phase : HookPhase
  pub hooks : List HookCall
  pub tail : List Command

abbrev pub push_pre :
    Command → List Command × Option HooksContinuation → List Command × Option HooksContinuation
push_pre c (pre, rest) = (c ∷ pre, rest)

unfoldable pub split_at_hooks : List Command → List Command × Option HooksContinuation
split_at_hooks [] = ([], none)
split_at_hooks (Command.run_hooks at hooks ∷ rest) =
    ([], some (record { phase = at; hooks = hooks; tail = rest }))
split_at_hooks (c ∷ rest) = push_pre c (split_at_hooks rest)
