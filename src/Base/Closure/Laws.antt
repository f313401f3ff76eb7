-- ===== src/Base/Closure/Laws.antt =====
-- The worklist loop returns the least set that holds the stack and is closed under successors.
use Prim.Native.Nat.{ℕ, zero, suc, ◌+◌, ◌<◌, ◌≤◌}
use mathlib.Core.Path.{◌≡◌, refl, sym}
use mathlib.Core.Logic.{◌⊎◌, inl, inr, ◌↔◌}
use mathlib.Core.Bool.{true, false, ◌||◌}
use mathlib.Core.List.{List, [], ◌∷◌, Memᴰ}
use native.Mathlib.Omega.{arith}
use flowspec_devkitd.Base.Texts.{Text, ◌==◌, ==_iff}
use flowspec_devkitd.Base.Tests.{if◌then◌else◌, Bool-cases}
use flowspec_devkitd.Base.Lists.{length}
use flowspec_devkitd.Base.Sets.{mem, mem_iff, set_insert, mem-set_insert}
use flowspec_devkitd.Base.Closure.{push_all, closure, pending_edges}

pub mem-push_all :
    (b : Text) (xs stack : List Text) → mem b (push_all xs stack) ≡ (mem b xs || mem b stack)
unfolding push_all mem
mem-push_all b [] stack = refl
mem-push_all b (x ∷ xs) stack = ground (arith, mem-push_all b xs (x ∷ stack))

length-push_all : (xs stack : List Text) → length (push_all xs stack) ≡ length xs + length stack
unfolding push_all
length-push_all [] stack = omega arith
length-push_all (x ∷ xs) stack = omega (arith, length-push_all xs (x ∷ stack))

node-on-stack : (node : Text) (stack : List Text) → mem node (node ∷ stack) ≡ true
unfolding mem
node-on-stack node stack = ground (arith, ==_iff node node)

module _ (next : Text → List Text) (universe : List Text) where
  -- A node without a place in the universe has no successors.
  abbrev pub Covered : Text → Type 0
  Covered a = (mem a universe ≡ true) ⊎ (next a ≡ [])

  pending_edges-insert-le :
      (seen : List Text) (a : Text) (us : List Text)
      → pending_edges next (set_insert seen a) us ≤ pending_edges next seen us
  unfolding pending_edges
  pending_edges-insert-le seen a [] = omega arith
  pending_edges-insert-le seen a (u ∷ us) =
      ground (arith, mem-set_insert a u seen, pending_edges-insert-le seen a us)

  pending_edges-insert :
      (seen : List Text) (a : Text) (us : List Text)
      → mem a us ≡ true
      → mem a seen ≡ false
      → pending_edges next (set_insert seen a) us + length (next a) ≤ pending_edges next seen us
  unfolding pending_edges mem
  pending_edges-insert seen a [] m new = cc
  pending_edges-insert seen a (u ∷ us) m new = elim (Bool-cases (u == a)) [
    | inl e ↦
        let same : u ≡ a = (==_iff u a).0 e in
        let self = (==_iff a u).1 (sym same) in
        let len : length (next u) ≡ length (next a) = rw same in
        let fresh : mem u seen ≡ false = rw same new in
        ground (arith, mem-set_insert a u seen, pending_edges-insert-le seen a us)
    | inr e ↦ ground (
      arith,
      mem-set_insert a u seen,
      pending_edges-insert seen a us,
      ==_iff a u,
      ==_iff u a,
      pending_edges-insert-le seen a us,
    )
  ]

  -- A set that holds the successors of its elements.
  abbrev pub Closed : List Text → Type 0
  Closed xs = (a b : Text) → mem a xs ≡ true → Memᴰ b (next a) → mem b xs ≡ true

  -- What was pushed and what was seen, with the successors of what was seen among them.
  record Pending (seen stack : List Text) : Type 0 where
    settled :
        (a b : Text) → mem a seen ≡ true → Memᴰ b (next a) → (mem b seen || mem b stack) ≡ true
    covered : (a : Text) → mem a stack ≡ true → Covered a

  module _ (covers : (a b : Text) → Memᴰ b (next a) → Covered b) where
    abbrev next_stack : Text → List Text → List Text → List Text
    next_stack node seen stack = if mem node seen then stack else push_all (next node) stack

    Pending-pop :
        (node : Text) (seen stack : List Text)
        → Pending seen (node ∷ stack)
        → Pending (set_insert seen node) (next_stack node seen stack)
    unfolding mem
    Pending-pop node seen stack p = record {
      settled = λ a b m n.
          let old = p.settled a b in
          let is_next : a ≡ node → mem b (next node) ≡ true =
            λ e. (mem_iff b (next node)).1 (rw e at n) in
          ground (
            arith,
            mem-set_insert node a seen,
            mem-set_insert node b seen,
            mem-push_all b (next node) stack,
            ==_iff node a,
            ==_iff node b,
            is_next,
          );
      covered = λ a m.
          let old = p.covered a in
          let fresh = λ (n : Memᴰ a (next node)). covers node a n in
          let found = mem_iff a (next node) in ground (arith, mem-push_all a (next node) stack);
    }

    popped-lt :
        {fuel : ℕ} (node : Text) (seen stack : List Text)
        → Covered node
        → length (node ∷ stack) + pending_edges next seen universe < suc fuel
        → length (next_stack node seen stack) + pending_edges next (set_insert seen node) universe
          < fuel
    popped-lt node seen stack covered enough =
        let no_edges : next node ≡ [] → length (next node) ≡ 0 = λ e. rw e refl in
        ground (
          arith,
          covered,
          pending_edges-insert seen node universe,
          pending_edges-insert-le seen node universe,
          length-push_all (next node) stack,
          no_edges,
        )

    closure_lem :
        (fuel : ℕ) (seen stack : List Text)
        → Pending seen stack
        → length stack + pending_edges next seen universe < fuel
        → Closed (closure next fuel seen stack)
          × ((a : Text)
              → (mem a seen || mem a stack) ≡ true
              → mem a (closure next fuel seen stack) ≡ true)
    unfolding closure mem
    closure_lem zero seen stack p enough = absurd (omega arith)
    closure_lem (suc fuel) seen [] p enough =
        (λ a b m n. let s = p.settled a b m n in ground arith, λ a h. ground arith)
    closure_lem (suc fuel) seen (node ∷ stack) p enough =
        let (closed, holds) =
          closure_lem fuel (set_insert seen node) (next_stack node seen stack)
            (Pending-pop node seen stack p)
            (popped-lt node seen stack (p.covered node (node-on-stack node stack)) enough) in
        (
          closed,
          λ a m. ground (
            arith,
            holds a,
            mem-set_insert node a seen,
            mem-push_all a (next node) stack,
            ==_iff node a,
          ),
        )

-- The nodes that successors lead to from a list of starts.
pub data Reached (next : Text → List Text) (starts : List Text) : Text → Type 0 where
  initial : {a : Text} → Memᴰ a starts → Reached next starts a
  follow : {a b : Text} → Reached next starts a → Memᴰ b (next a) → Reached next starts b

Reached-mem :
    (next : Text → List Text) (starts found : List Text)
    → Closed next [] found
    → ((a : Text) → mem a starts ≡ true → mem a found ≡ true)
    → {a : Text} → Reached next starts a
    → mem a found ≡ true
Reached-mem next starts found closed holds (initial {a} m) = holds a ((mem_iff a starts).1 m)
Reached-mem next starts found closed holds (follow {a} {b} r n) =
    closed a b (Reached-mem next starts found closed holds r) n

module _ (next : Text → List Text) (P : Text → Type 0)
    (keeps : (a b : Text) → P a → Memᴰ b (next a) → P b) where
  closure-all :
      (fuel : ℕ) (seen stack : List Text)
      → ((a : Text) → mem a seen ≡ true → P a)
      → ((a : Text) → mem a stack ≡ true → P a)
      → (a : Text) → mem a (closure next fuel seen stack) ≡ true
      → P a
  unfolding closure mem
  closure-all zero seen stack hs hk a m = hs a m
  closure-all (suc fuel) seen [] hs hk a m = hs a m
  closure-all (suc fuel) seen (node ∷ stack) hs hk a m =
      let here = hk node (node-on-stack node stack) in
      closure-all fuel (set_insert seen node)
        (if mem node seen then stack else push_all (next node) stack)
        (λ b k. elim (Bool-cases (node == b)) [
          | inl e ↦ rw (← (==_iff node b).0 e) here
          | inr e ↦ hs b (ground (arith, mem-set_insert node b seen))
        ])
        (λ b k. elim (Bool-cases (mem b stack)) [
          | inl e ↦ hk b (ground arith)
          | inr e ↦
              keeps node b here
                ((mem_iff b (next node)).0 (ground (arith, mem-push_all b (next node) stack)))
        ])
        a m

-- With fuel for every entry of the stack and every edge, the loop returns exactly what is reached
-- from the stack.
pub closure_iff :
    (next : Text → List Text) (universe : List Text)
    → ((a b : Text) → Memᴰ b (next a) → Covered next universe b)
    → (stack : List Text) → ((a : Text) → mem a stack ≡ true → Covered next universe a)
    → (a : Text)
    → (mem a (closure next (suc (length stack + pending_edges next [] universe)) [] stack) ≡ true)
      ↔ Reached next stack a
unfolding mem
closure_iff next universe covers stack covered a =
    let fuel = suc (length stack + pending_edges next [] universe) in
    let (closed, holds) =
      closure_lem next universe covers fuel [] stack
        (record { settled = λ x y m n. cc; covered = covered }) (omega arith) in
    (
      closure-all next (Reached next stack) (λ x y r n. follow r n) fuel [] stack (λ x m. cc)
          (λ x m. initial ((mem_iff x stack).0 m)) a,
      λ r. Reached-mem next stack _ closed (λ x m. holds x m) r,
    )
