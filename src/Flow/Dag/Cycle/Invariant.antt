-- ===== src/Flow/Dag/Cycle/Invariant.antt =====
-- The invariant of the depth-first search, and what a visit does.
use mathlib.Core.List.Memᴰ
use flowspec_devkitd.Base.{
  ℕ, zero, suc, ◌<◌, ◌≤◌, Bool, true, false, ◌≡◌, refl, sym, ◌≢◌, inl, inr, ⊎_elim, Text, ◌==◌,
  ==_iff, List, [], ◌∷◌, ◌++◌, arith, Memᴰ, Bool-cases, filter, length, length-filter-le,
  length-filter-lt, if◌then◌else◌, List-cases,
}
use flowspec_devkitd.Base.Map.{Map, get-insert}
use flowspec_devkitd.Base.Sets.{mem_iff, sort, mem-sort}
use flowspec_devkitd.Flow.Dag.{neighbors}
use flowspec_devkitd.Flow.Dag.Cycle.{
  Color, white, gray, black, Search, Outcome, found, next, out_of_fuel, color_of, cycle_path, pop,
  enter, leave, and_next, meet, scan, visit,
}
use flowspec_devkitd.Flow.Dag.Cycle.Chains.{
  Chain, IsCycle, Chain-snoc, Chain-from_position, Topological,
}

abbrev pub is_white : Color → Bool
is_white white = true
is_white _ = false

pop-snoc : (xs : List Text) (a : Text) → pop (xs ++ a ∷ []) ≡ xs
unfolding pop
pop-snoc [] a = refl
pop-snoc (x ∷ []) a = refl
pop-snoc (x ∷ y ∷ r) a = ground (arith, pop-snoc (y ∷ r) a)

color-enter :
    (s : Search) (node n : Text)
    → color_of (enter node s) n ≡ (if node == n then gray else color_of s n)
color-enter s node n = ground (arith, get-insert s.color node n gray)

color-leave :
    (s : Search) (node n : Text)
    → color_of (leave node s) n ≡ (if node == n then black else color_of s n)
color-leave s node n = ground (arith, get-insert s.color node n black)

-- The colors of a state that a visit finds or leaves behind.
pub record Sane (adj : Map (List Text)) (s : Search) : Type 0 where
  pub grays : (n : Text) → color_of s n ≡ gray → Memᴰ n s.stack
  pub finished : List Text
  pub ordered : Topological adj finished
  pub blacks : (n : Text) → color_of s n ≡ black → Memᴰ n finished

-- Nothing is taken back.
pub record Later (s t : Search) : Type 0 where
  pub same_stack : t.stack ≡ s.stack
  pub settled : (n : Text) → color_of s n ≢ white → color_of t n ≡ color_of s n

pub Later-refl : (s : Search) → Later s s
Later-refl s = record { same_stack = refl; settled = λ n h. refl }

Later-trans : (s t u : Search) → Later s t → Later t u → Later s u
Later-trans s t u p q = record {
  same_stack = cc (q.same_stack, p.same_stack);
  settled = λ n h. let e = p.settled n h in let e' = q.settled n (λ z. h (cc)) in cc;
}

-- What a search step may return, with a condition on the state that it returns.
abbrev pub Returns : (adj : Map (List Text)) → Search → (Search → Type 0) → Outcome → Type 0
Returns adj s P (found cycle) = IsCycle adj cycle
Returns adj s P (next t) = Sane adj t × Later s t × P t
Returns adj s P out_of_fuel = ⊥

mem_sort→ : (n : Text) (xs : List Text) → Memᴰ n (sort xs) → Memᴰ n xs
mem_sort→ n xs m = (mem_iff n xs).0 (ground (arith, mem-sort n xs, (mem_iff n (sort xs)).1 m))

pub mem_sort← : (n : Text) (xs : List Text) → Memᴰ n xs → Memᴰ n (sort xs)
mem_sort← n xs m = (mem_iff n (sort xs)).0 (ground (arith, mem-sort n xs, (mem_iff n xs).1 m))

module _ (adj : Map (List Text)) where
  pub Returns-weaken :
      (s t : Search) (P Q : Search → Type 0)
      → Later s t
      → ((u : Search) → Later t u → P u → Q u)
      → (o : Outcome) → Returns adj t P o
      → Returns adj s Q o
  Returns-weaken s t P Q later imp (found cycle) r = r
  Returns-weaken s t P Q later imp (next u) r = (r.0, Later-trans s t u later r.1, imp u r.1 r.2)
  Returns-weaken s t P Q later imp out_of_fuel r = r

  pub Returns-and_next :
      (s : Search) (P Q : Search → Type 0) (o : Outcome) (f : Search → Outcome)
      → Returns adj s P o
      → ((t : Search) → Sane adj t → Later s t → P t → Returns adj s Q (f t))
      → Returns adj s Q (and_next o f)
  Returns-and_next s P Q (found cycle) f r go_on = r
  Returns-and_next s P Q (next t) f r go_on = go_on t r.0 r.1 r.2
  Returns-and_next s P Q out_of_fuel f r go_on = absurd r

module _ (adj : Map (List Text)) (ids : List Text)
    (sources : (n : Text) → neighbors adj n ≢ [] → Memᴰ n ids) where
  abbrev pub whites : Search → ℕ
  whites s = length (filter (λ n. is_white (color_of s n)) ids)

  whites-Later : (s t : Search) → Later s t → whites t ≤ whites s
  whites-Later s t later =
      length-filter-le (λ n. is_white (color_of t n)) (λ n. is_white (color_of s n))
        (λ n h. let kept = later.settled n in ground arith) ids

  whites-enter :
      (s : Search) (node : Text)
      → Memᴰ node ids
      → color_of s node ≡ white
      → whites (enter node s) < whites s
  whites-enter s node m w =
      length-filter-lt (λ n. is_white (color_of (enter node s) n)) (λ n. is_white (color_of s n))
        (λ n h. ground (arith, color-enter s node n)) node ids m
        (ground (arith, color-enter s node node, ==_iff node node)) (ground arith)

  -- What is asked of a visit with some fuel.
  abbrev pub VisitReturns : ℕ → (Text → Search → Outcome) → Type 0
  VisitReturns fuel v =
      (node : Text) (s : Search)
      → Sane adj s
      → color_of s node ≡ white
      → Chain adj (s.stack ++ node ∷ [])
      → whites s < fuel
      → Returns adj s (λ t. color_of t node ≡ black) (v node s)

  module _ (fuel : ℕ) (v : Text → Search → Outcome) (visits : VisitReturns fuel v) where
    meet-Returns :
        (c : Color) (node : Text) (s : Search)
        → color_of s node ≡ c
        → Sane adj s
        → Chain adj (s.stack ++ node ∷ [])
        → whites s < fuel
        → Returns adj s (λ t. color_of t node ≡ black) (meet v c node s)
    unfolding meet cycle_path
    meet-Returns white node s e sane chain enough = visits node s sane e chain enough
    meet-Returns black node s e sane chain enough = (sane, Later-refl s, e)
    meet-Returns gray node s e sane chain enough =
        let (rest, at, linked) =
          Chain-from_position adj node s.stack (node ∷ []) (sane.grays node e) chain in
        rw at (record { start = node; middle = rest; closed = refl; linked = linked })

    scan-Returns :
        (nodes : List Text) (s : Search)
        → Sane adj s
        → ((n : Text) → Memᴰ n nodes → Chain adj (s.stack ++ n ∷ []))
        → whites s < fuel
        → Returns adj s (λ t. (n : Text) → Memᴰ n nodes → color_of t n ≡ black) (scan v nodes s)
    unfolding scan
    scan-Returns [] s sane chains enough = (sane, Later-refl s, λ n m. absurd (Memᴰ.not-nil m))
    scan-Returns (node ∷ rest) s sane chains enough =
        Returns-and_next adj s (λ t. color_of t node ≡ black) _ (meet v (color_of s node) node s) _
          (meet-Returns (color_of s node) node s refl sane (chains node (Memᴰ.head refl)) enough)
          λ t sane' later done.
            Returns-weaken adj s t (λ u. (n : Text) → Memᴰ n rest → color_of u n ≡ black) _ later
              (λ u later' all_done n m. elim (Memᴰ.cases_cons m) [
                | inl e ↦ let kept = later'.settled node (λ w. cc) in cc
                | inr m' ↦ all_done n m'
              ])
              (scan v rest t)
              (scan-Returns rest t sane' (λ n m. rw later.same_stack (chains n (Memᴰ.tail m)))
                (omega (arith, whites-Later s t later)))

  Sane-enter : (node : Text) (s : Search) → Sane adj s → Sane adj (enter node s)
  Sane-enter node s sane = record {
    grays = λ n g. elim (Bool-cases (node == n)) [
      | inl e ↦ Memᴰ.append_right s.stack (Memᴰ.head (sym ((==_iff node n).0 e)))
      | inr e ↦ Memᴰ.append_left (node ∷ []) (sane.grays n (ground (arith, color-enter s node n)))
    ];
    finished = sane.finished;
    ordered = sane.ordered;
    blacks = λ n b. sane.blacks n (ground (arith, color-enter s node n));
  }

  -- Leaving a node whose neighbors are all black.
  leave-Returns :
      (node : Text) (s : Search)
      → Sane adj s
      → color_of s node ≡ white
      → (o : Outcome)
      → Returns adj
          (enter node s)
          (λ t. (n : Text) → Memᴰ n (sort (neighbors adj node)) → color_of t n ≡ black)
          o
      → Returns adj s (λ t. color_of t node ≡ black) (and_next o (λ t. next (leave node t)))
  leave-Returns node s sane white_now (found cycle) r = r
  leave-Returns node s sane white_now out_of_fuel r = r
  leave-Returns node s sane white_now (next t) (sane', later, done) =
      let back : pop t.stack ≡ s.stack = rw later.same_stack (pop-snoc s.stack node) in
      (
        record {
          grays = λ n g.
              let other : (node == n) ≡ false = ground (arith, color-leave t node n) in
              let g' : color_of t n ≡ gray = ground (arith, color-leave t node n) in
              let m = rw later.same_stack at (sane'.grays n g') in
              rw back (
                ⊎_elim (λ k. k)
                  (λ k. absurd (ground (arith, ==_iff node n, Memᴰ.eq_of_singleton k)))
                  (Memᴰ.append_cases s.stack m));
          finished = node ∷ sane'.finished;
          ordered =
              (λ n e. sane'.blacks n (done n (mem_sort← n (neighbors adj node) e)), sane'.ordered);
          blacks = λ n b. elim (Bool-cases (node == n)) [
            | inl e ↦ Memᴰ.head (sym ((==_iff node n).0 e))
            | inr e ↦ Memᴰ.tail (sane'.blacks n (ground (arith, color-leave t node n)))
          ];
        },
        record {
          same_stack = back;
          settled = λ n h.
              let kept = later.settled n in
              ground (arith, color-leave t node n, color-enter s node n, ==_iff node n, kept);
        },
        ground (arith, color-leave t node node, ==_iff node node),
      )

  -- A visit of a white node colors it black, or returns a cycle.
  pub visit-Returns : (fuel : ℕ) → VisitReturns fuel (visit adj fuel)
  unfolding visit scan sort
  visit-Returns zero node s sane white_now chain enough = absurd (omega arith)
  visit-Returns (suc fuel) node s sane white_now chain enough =
      leave-Returns node s sane white_now
        (scan (visit adj fuel) (sort (neighbors adj node)) (enter node s))
        (elim (List-cases (neighbors adj node)) [
          | inl e ↦
              rw (e, sort, scan)
                (Sane-enter node s sane, Later-refl (enter node s), λ n m. absurd (Memᴰ.not-nil m))
          | inr (x, more, e) ↦
              let m = sources node (λ z. cc) in
              scan-Returns fuel (visit adj fuel) (visit-Returns fuel) (sort (neighbors adj node))
                (enter node s) (Sane-enter node s sane)
                (λ n k. Chain-snoc adj s.stack node n chain (mem_sort→ n (neighbors adj node) k))
                (omega (arith, whites-enter s node m white_now))
        ])
