-- ===== src/Flow/Dag/Cycle/Chains.antt =====
-- Paths in a routing graph, cycles, and orders in which every edge leads backwards.
use mathlib.Core.List.Memᴰ
use flowspec_devkitd.Base.{
  ◌≡◌, inl, inr, ⊎_elim, Text, ◌==◌, ==_iff, List, [], ◌∷◌, ◌++◌, some, arith, Memᴰ, Bool-cases,
  subst,
}
use flowspec_devkitd.Base.Map.{Map}
use flowspec_devkitd.Flow.Dag.{neighbors}
use flowspec_devkitd.Flow.Dag.Cycle.{from_position}

module _ (adj : Map (List Text)) where
  abbrev pub Edge : Text → Text → Type 0
  Edge a b = Memᴰ b (neighbors adj a)

  -- Each element has an edge to the next.
  abbrev pub Chain : List Text → Type 0
  Chain [] = Unit
  Chain (x ∷ []) = Unit
  Chain (x ∷ y ∷ r) = Edge x y × Chain (y ∷ r)

  -- A path that ends where it begins, and has an edge.
  pub record IsCycle (path : List Text) : Type 0 where
    pub start : Text
    pub middle : List Text
    pub closed : path ≡ start ∷ (middle ++ start ∷ [])
    pub linked : Chain path

  -- The paths with at least one edge.
  pub data Walk (a : Text) : Text → Type 0 where
    edge : {b : Text} → Edge a b → Walk a b
    step : {b c : Text} → Walk a b → Edge b c → Walk a c

  pub Chain-snoc :
      (xs : List Text) (a b : Text)
      → Chain (xs ++ a ∷ [])
      → Edge a b
      → Chain ((xs ++ a ∷ []) ++ b ∷ [])
  Chain-snoc [] a b c e = (e, tt)
  Chain-snoc (x ∷ []) a b c e = (c.0, (e, tt))
  Chain-snoc (x ∷ y ∷ r) a b c e = (c.0, Chain-snoc (y ∷ r) a b c.1 e)

  Chain-tail : (x : Text) (xs : List Text) → Chain (x ∷ xs) → Chain xs
  Chain-tail x [] c = tt
  Chain-tail x (y ∷ r) c = c.1

  -- What `from_position` finds starts at the node, and ends as the stack ends.
  pub Chain-from_position :
      (a : Text) (stack after : List Text)
      → Memᴰ a stack
      → Chain (stack ++ after)
      → (rest : List Text) × (from_position a stack ≡ some (a ∷ rest)) × Chain ((a ∷ rest) ++ after)
  unfolding from_position
  Chain-from_position a [] after m c = absurd (Memᴰ.not-nil m)
  Chain-from_position a (x ∷ xs) after m c = elim (Bool-cases (x == a)) [
    | inl e ↦
        let same = (==_iff x a).0 e in
        (xs, ground arith, subst (λ z. Chain ((z ∷ xs) ++ after)) same c)
    | inr e ↦
        let later =
          ⊎_elim (λ (q : a ≡ x). absurd (ground (arith, ==_iff x a))) (λ n. n)
            (Memᴰ.cases_cons m) in
        let (rest, found, linked) =
          Chain-from_position a xs after later (Chain-tail x (xs ++ after) c) in
        (rest, ground arith, linked)
  ]

  -- Every edge out of an element leads to one behind it.
  abbrev pub Topological : List Text → Type 0
  Topological [] = Unit
  Topological (a ∷ r) = ((b : Text) → Edge a b → Memᴰ b r) × Topological r

  Topological-closed :
      (order : List Text) (a b : Text) → Topological order → Memᴰ a order → Edge a b → Memᴰ b order
  Topological-closed [] a b t m e = absurd (Memᴰ.not-nil m)
  Topological-closed (x ∷ r) a b t m e = elim (Memᴰ.cases_cons m) [
    | inl q ↦ Memᴰ.tail (t.0 b (rw q at e))
    | inr later ↦ Memᴰ.tail (Topological-closed r a b t.1 later e)
  ]

  Topological-Walk :
      (order : List Text) (a : Text) {b : Text}
      → Topological order
      → Walk a b
      → ((c : Text) → Edge a c → Memᴰ c order)
      → Memᴰ b order
  Topological-Walk order a t (edge e) first = first _ e
  Topological-Walk order a t (step {b} {c} p e) first =
      Topological-closed order b c t (Topological-Walk order a t p first) e

  -- A listed element lies on no cycle.
  pub Topological-acyclic :
      (order : List Text) (a : Text) → Topological order → Memᴰ a order → ¬ Walk a a
  Topological-acyclic [] a t m p = absurd (Memᴰ.not-nil m)
  Topological-acyclic (x ∷ r) a t m p = elim (Memᴰ.cases_cons m) [
    | inl q ↦ Topological-acyclic r a t.1 (Topological-Walk r a t.1 p (λ c e. t.0 c (rw q at e))) p
    | inr later ↦ Topological-acyclic r a t.1 later p
  ]

  Walk-cons : {a b c : Text} → Edge a b → Walk b c → Walk a c
  Walk-cons e (edge e') = step (edge e) e'
  Walk-cons e (step w e') = step (Walk-cons e w) e'

  pub Chain-Walk :
      (a : Text) (middle : List Text) (b : Text) → Chain (a ∷ (middle ++ b ∷ [])) → Walk a b
  Chain-Walk a [] b c = edge c.0
  Chain-Walk a (m ∷ r) b c = Walk-cons c.0 (Chain-Walk m r b c.1)
