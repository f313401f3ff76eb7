-- ===== src/Base/Closure.antt =====
-- The worklist loop `while let Some(node) = stack.pop() { if seen.insert(node) { push ... } }`.
-- The head of the list is the top of the stack.
pub mod Laws
use flowspec_devkitd.Base.Texts.{Text}
use flowspec_devkitd.Base.Tests.{if◌then◌else◌}
use flowspec_devkitd.Base.Lists.{length}
use flowspec_devkitd.Base.Sets.{mem, set_insert}
use Prim.Native.Nat.{ℕ, zero, suc, ◌+◌}
use mathlib.Core.List.{List, [], ◌∷◌}

unfoldable pub push_all : List Text → List Text → List Text
push_all [] stack = stack
push_all (x ∷ xs) stack = push_all xs (x ∷ stack)

module _ (next : Text → List Text) where
  unfoldable pub closure : ℕ → List Text → List Text → List Text
  unfolding push_all mem set_insert
  closure zero seen stack = seen
  closure (suc fuel) seen [] = seen
  closure (suc fuel) seen (node ∷ stack) =
      closure fuel (set_insert seen node)
        (if mem node seen then stack else push_all (next node) stack)

  -- The successors of the listed nodes that have not been seen, each with its multiplicity.
  unfoldable pub pending_edges : List Text → List Text → ℕ
  unfolding mem
  pending_edges seen [] = 0
  pending_edges seen (u ∷ us) = (if mem u seen then 0 else length (next u)) + pending_edges seen us
