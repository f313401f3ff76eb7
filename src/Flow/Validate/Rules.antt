-- ===== src/Flow/Validate/Rules.antt =====
-- When each structural rule lists no violation.
use Prim.Native.String.{String}
use mathlib.Core.List.Memᴰ
use flowspec_devkitd.Base.{
  Bool, true, false, not, ◌&&◌, ◌||◌, ◌≡◌, refl, ◌≢◌, ◌↔◌, ⊎_elim, Text, ==_iff, List, [], ◌∷◌,
  ◌++◌, map, All, All-iff, flat_map, flat_map-eq-nil, append_iff, length, List-cases, Option, none,
  some, arith, if◌then◌else◌, is_some, is_none, Memᴰ, Option-cases, inl, inr,
}
use flowspec_devkitd.Base.Sets.{mem, mem_iff, set_insert, mem-set_insert}
use flowspec_devkitd.Flow.Types.{FlowDefinition, Step, RouteTarget, as_slice, flow_step}
use flowspec_devkitd.Flow.Schema.{Violation}
use flowspec_devkitd.Flow.Dag.{
  targets_of, all_routes, neighbors, steps_with_incoming_edges, entry_steps, target_is_valid,
  is_self_reject_loop,
}
use flowspec_devkitd.Flow.Dag.Edges.{self_reject_iff}
use flowspec_devkitd.Flow.Validate.{
  check, quote, duplicate_ids, unique_step_ids, route_violations, target_violations,
  routing_targets_exist, exactly_one_entry_step, needs_matches_sources, human_loop_routing_pairs,
  reject_input_only_on_self_loop,
}

-- Rules of the shape `for x in xs { if broken(x) { push(violation(x)) } }`.
pub flat_map-check {ℓ} :
    {A : Type ℓ} (broken : A → Bool) (f : A → List Violation) (xs : List A)
    → ((x : A) → (f x ≡ []) ↔ (broken x ≡ false))
    → (flat_map f xs ≡ []) ↔ ((x : A) → Memᴰ x xs → broken x ≡ false)
flat_map-check broken f xs h = (
  λ e x m. (h x).0 ((flat_map-eq-nil f xs).0 e x m),
  λ all_fine. (flat_map-eq-nil f xs).1 (λ x m. (h x).1 (all_fine x m)),
)

-- No text twice.
abbrev pub IsUnique : List Text → Type 0
IsUnique [] = Unit
IsUnique (x ∷ xs) = (mem x xs ≡ false) × IsUnique xs

fresh-set_insert :
    (seen : List Text) (a : Text) (steps : List Step)
    → All (λ s. mem s.id (set_insert seen a) ≡ false) steps
      ↔ (All (λ s. mem s.id seen ≡ false) steps × (mem a (map (λ s. s.id) steps) ≡ false))
unfolding mem
fresh-set_insert seen a [] = (λ _. (tt, refl), λ _. tt)
fresh-set_insert seen a (s ∷ r) =
    ground
      (arith, mem-set_insert a s.id seen, fresh-set_insert seen a r, ==_iff a s.id, ==_iff s.id a)

duplicate_ids_iff :
    (seen : List Text) (steps : List Step)
    → (duplicate_ids seen steps ≡ [])
      ↔ (All (λ s. mem s.id seen ≡ false) steps × IsUnique (map (λ s. s.id) steps))
unfolding duplicate_ids
duplicate_ids_iff seen [] = (λ _. (tt, tt), λ _. refl)
duplicate_ids_iff seen (s ∷ r) =
    ground (arith, fresh-set_insert seen s.id r, duplicate_ids_iff (set_insert seen s.id) r)

pub unique_step_ids_iff :
    (flow : FlowDefinition) → (unique_step_ids flow ≡ []) ↔ IsUnique (map (λ s. s.id) flow.steps)
unfolding unique_step_ids mem
unique_step_ids_iff flow =
    let (to, from) = duplicate_ids_iff [] flow.steps in
    (λ e. (to e).1, λ u. from (fresh flow.steps, u))
  where
    fresh : (steps : List Step) → All (λ s. mem s.id [] ≡ false) steps
    fresh steps = (All-iff _ steps).1 (λ s m. refl)

module _ (flow : FlowDefinition) where
  abbrev pub route_list : Option RouteTarget → List Text
  route_list none = []
  route_list (some route) = as_slice route

  pub route_violations_iff :
      (step : Step) (name : String) (route : Option RouteTarget)
      → (route_violations flow step name route ≡ [])
        ↔ ((target : Text) → Memᴰ target (route_list route) → target_is_valid flow target ≡ true)
  route_violations_iff step name none = (λ _ target m. absurd (Memᴰ.not-nil m), λ _. refl)
  route_violations_iff step name (some route) =
      let (to, from) =
        flat_map-check (λ target. not (target_is_valid flow target)) _ (as_slice route)
          (λ target. ground arith) in
      (
        λ e target m. let v = to e target m in ground arith,
        λ h. from (λ target m. let v = h target m in ground arith),
      )

  abbrev pub RoutesExist : Step → Type 0
  RoutesExist step =
      ((target : Text)
        → Memᴰ target (targets_of (all_routes step))
        → target_is_valid flow target ≡ true)
      × ((needed : Text) → Memᴰ needed step.needs → is_some (flow_step flow needed) ≡ true)

  abbrev Valid : List Text → Type 0
  Valid targets = (target : Text) → Memᴰ target targets → target_is_valid flow target ≡ true

  Valid-targets_of :
      (route : Option RouteTarget) (rest : List (Option RouteTarget))
      → Valid (targets_of (route ∷ rest)) ↔ (Valid (route_list route) × Valid (targets_of rest))
  unfolding targets_of
  Valid-targets_of none rest = (λ v. (λ target m. absurd (Memᴰ.not-nil m), v), λ v. v.1)
  Valid-targets_of (some route) rest = (
    λ v. (
      λ target m. v target (Memᴰ.append_left (targets_of rest) m),
      λ target m. v target (Memᴰ.append_right (as_slice route) m),
    ),
    λ v target m. ⊎_elim (v.0 target) (v.1 target) (Memᴰ.append_cases (as_slice route) m),
  )

  needs_violations_iff :
      (step : Step)
      → (flat_map
            (λ needed.
              check
                (is_none (flow_step flow needed))
                "routing_target_exists"
                (some step.id)
                (quote "step " step.id "" ++ quote " needs unknown step " needed ""))
            step.needs
          ≡ [])
        ↔ ((needed : Text) → Memᴰ needed step.needs → is_some (flow_step flow needed) ≡ true)
  needs_violations_iff step =
      let (to, from) =
        flat_map-check (λ needed. is_none (flow_step flow needed)) _ step.needs
          (λ needed. ground arith) in
      (
        λ e needed m. let v = to e needed m in ground arith,
        λ h. from (λ needed m. let v = h needed m in ground arith),
      )

  target_violations_iff : (step : Step) → (target_violations flow step ≡ []) ↔ RoutesExist step
  unfolding targets_of
  target_violations_iff step = (
    λ e.
        let (s, (f, (a, (r, n)))) = pieces.0 e in
        (
          (Valid-targets_of step.on_success _).1 (
            s,
            (Valid-targets_of step.on_failure _).1 (
              f,
              (Valid-targets_of step.on_approve _).1
                  (a, (Valid-targets_of step.on_reject []).1 (r, λ t m. absurd (Memᴰ.not-nil m))),
            ),
          ),
          n,
        ),
    λ h.
        let (s, v) = (Valid-targets_of step.on_success _).0 h.0 in
        let (f, v') = (Valid-targets_of step.on_failure _).0 v in
        let (a, v'') = (Valid-targets_of step.on_approve _).0 v' in
        pieces.1 (s, (f, (a, (((Valid-targets_of step.on_reject []).0 v'').0, h.1)))),
  )
    where
      pieces : (target_violations flow step ≡ []) ↔ (
          Valid (route_list step.on_success)
          × (Valid (route_list step.on_failure)
              × (Valid (route_list step.on_approve)
                  × (Valid (route_list step.on_reject)
                      × ((needed : Text)
                          → Memᴰ needed step.needs
                          → is_some (flow_step flow needed) ≡ true)))))
      pieces = append_iff _ _ (route_violations_iff step "on_success" step.on_success) (
          append_iff _ _ (route_violations_iff step "on_failure" step.on_failure) (
            append_iff _ _ (route_violations_iff step "on_approve" step.on_approve) (
              append_iff _ _ (route_violations_iff step "on_reject" step.on_reject)
                (needs_violations_iff step))))

  pub routing_targets_exist_iff :
      (routing_targets_exist flow ≡ []) ↔ ((step : Step) → Memᴰ step flow.steps → RoutesExist step)
  unfolding routing_targets_exist targets_of
  routing_targets_exist_iff = (
    λ e step m.
        (target_violations_iff step).0
          ((flat_map-eq-nil (target_violations flow) flow.steps).0 e step m),
    λ h.
        (flat_map-eq-nil (target_violations flow) flow.steps).1
          (λ step m. (target_violations_iff step).1 (h step m)),
  )

  pub exactly_one_entry_step_iff :
      (exactly_one_entry_step flow ≡ []) ↔ ((flow.steps ≢ []) → length (entry_steps flow) ≡ 1)
  unfolding exactly_one_entry_step
  exactly_one_entry_step_iff =
      (λ e steps. ground (arith, List-cases flow.steps), λ h. ground (arith, List-cases flow.steps))

  abbrev sources : Step → List Text
  sources step = neighbors (steps_with_incoming_edges flow) step.id

  abbrev unmatched_needs : Step → List Violation
  unmatched_needs step =
      flat_map
        (λ needed. check (not (mem needed (sources step))) "needs_matches_sources" (some step.id) (
          quote "step " step.id ""
          ++ (quote " declares needs " needed "" ++ quote " but " needed " does not route to it")))
        step.needs

  unmatched :
      (step : Step)
      → (unmatched_needs step ≡ [])
        ↔ ((needed : Text) → Memᴰ needed step.needs → not (mem needed (sources step)) ≡ false)
  unmatched step =
      flat_map-check (λ needed. not (mem needed (sources step))) _ step.needs
        (λ needed. ground arith)

  pub needs_matches_sources_iff : (needs_matches_sources flow ≡ []) ↔ (
      (step : Step)
      → Memᴰ step flow.steps
      → (needed : Text) → Memᴰ needed step.needs
      → Memᴰ needed (neighbors (steps_with_incoming_edges flow) step.id))
  unfolding needs_matches_sources
  needs_matches_sources_iff = (
    λ e step m needed n.
        let (to, _) = unmatched step in
        let fine = to ((flat_map-eq-nil _ flow.steps).0 e step m) needed n in
        (mem_iff needed (sources step)).0 (ground arith),
    λ h. (flat_map-eq-nil _ flow.steps).1 (λ step m. (unmatched step).1 (λ needed n.
        let found = (mem_iff needed (sources step)).1 (h step m needed n) in ground arith)),
  )

  abbrev pub PairsRoutes : Step → Type 0
  PairsRoutes step =
      (step.human_loop ≡ true → (step.on_approve ≢ none) × (step.on_reject ≢ none))
      × (step.human_loop ≡ false → (step.on_approve ≡ none) × (step.on_reject ≡ none))

  pub human_loop_routing_pairs_iff :
      (human_loop_routing_pairs flow ≡ [])
      ↔ ((step : Step) → Memᴰ step flow.steps → PairsRoutes step)
  unfolding human_loop_routing_pairs
  human_loop_routing_pairs_iff =
      let (to, from) =
        flat_map-check
          (λ step.
            if step.human_loop
            then is_none step.on_approve || is_none step.on_reject
            else is_some step.on_approve || is_some step.on_reject)
          _ flow.steps (λ step. ground arith) in
      (
        λ e step m. let fine = to e step m in ground arith,
        λ h. from (λ step m. let fine = h step m in ground arith),
      )

  pub reject_input_only_on_self_loop_iff : (reject_input_only_on_self_loop flow ≡ []) ↔ (
      (step : Step)
      → Memᴰ step flow.steps
      → step.reject_input ≢ none
      → (route : RouteTarget) × (step.on_reject ≡ some route) × (as_slice route ≡ step.id ∷ []))
  unfolding reject_input_only_on_self_loop
  reject_input_only_on_self_loop_iff =
      let (to, from) =
        flat_map-check (λ step. is_some step.reject_input && not (is_self_reject_loop step)) _
          flow.steps (λ step. ground arith) in
      (
        λ e step m given.
            let fine = to e step m in
            (self_reject_iff step).0 (ground (arith, fine, given, Option-cases step.reject_input)),
        λ h. from (λ step m. elim (Option-cases step.reject_input) [
          | inl none_given ↦ ground (arith, none_given)
          | inr (r, given) ↦
              let loops = (self_reject_iff step).1 (h step m (λ e. cc (given, e))) in
              ground (arith, loops)
        ]),
      )
