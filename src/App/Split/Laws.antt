-- ===== src/App/Split/Laws.antt =====
-- Splitting at the hooks loses no command, and no hook is left in front.
use flowspec_devkitd.Base.{
  Bool, true, false, ◌≡◌, refl, List, [], ◌∷◌, ◌++◌, any, Option, none, some, arith,
}
use flowspec_devkitd.Run.Types.{Command}
use flowspec_devkitd.App.Split.{HooksContinuation, split_at_hooks}

abbrev pub is_run_hooks : Command → Bool
is_run_hooks (Command.run_hooks at hooks) = true
is_run_hooks _ = false

-- The commands a continuation stands for.
abbrev pub rest_of : Option HooksContinuation → List Command
rest_of none = []
rest_of (some k) = Command.run_hooks k.phase k.hooks ∷ k.tail

-- The prefix holds no hook command, and with the continuation put back it is the list that was
-- split.
pub split_at_hooks_lem :
    (commands : List Command)
    → ((split_at_hooks commands).0 ++ rest_of (split_at_hooks commands).1 ≡ commands)
      × (any is_run_hooks (split_at_hooks commands).0 ≡ false)
unfolding split_at_hooks
split_at_hooks_lem [] = (refl, refl)
split_at_hooks_lem (Command.run_hooks at hooks ∷ rest) = (refl, refl)
split_at_hooks_lem (Command.activate_steps xs ∷ rest) = ground (arith, split_at_hooks_lem rest)
split_at_hooks_lem (Command.wait_approval id ∷ rest) = ground (arith, split_at_hooks_lem rest)
split_at_hooks_lem (Command.start_child_run id ∷ rest) = ground (arith, split_at_hooks_lem rest)
split_at_hooks_lem (Command.cancel_steps ids ∷ rest) = ground (arith, split_at_hooks_lem rest)
split_at_hooks_lem (Command.mark_step_status id st ∷ rest) = ground (arith, split_at_hooks_lem rest)
split_at_hooks_lem (Command.mark_run_terminal ph ∷ rest) = ground (arith, split_at_hooks_lem rest)
