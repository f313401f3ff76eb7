-- ===== src/App/Store/Memory/Keys.antt =====
-- Idempotency keys of the store in memory: no two runs share one.
use mathlib.Core.Option
use flowspec_devkitd.Base.{
  ap, sym, ℕ, ◌+◌, ◌≤◌, ◌≡◌, refl, ◌∙◌, subst, Bool, true, false, Text, List, [], ◌∷◌, filter, any,
  length, none, some, ok, err, ◌==◌, ==_iff, arith, inl, inr, Option-cases, Result-cases,
  Bool-cases, find?, >>=-eq-ok,
}
use flowspec_devkitd.Base.Map.{Map, get, insert}
use flowspec_devkitd.Run.Types.{Timestamp}
use flowspec_devkitd.App.Ports.{StepRecord, RunRecord}
use flowspec_devkitd.App.Mutations.{
  Mutation, apply_mutation, apply_all, update_attempt, is_attempt, duplicate,
}
use flowspec_devkitd.App.Store.{NewRun}
use flowspec_devkitd.App.Store.Memory.{
  MemoryStore, apply, commit, values, has_key, find_by_idempotency_key, create_run, insert_run,
  fresh_run,
}
use flowspec_devkitd.App.Store.Memory.Atomic.{apply-missing, apply-commit}

-- The runs that hold a key.
abbrev pub holders : Text → MemoryStore → List RunRecord
holders key s = filter (has_key key) (values s.runs)

-- Each key is held by one run at most.
unfoldable pub HasUniqueKeys : MemoryStore → Type 0
HasUniqueKeys s = (key : Text) → length (holders key s) ≤ 1

abbrev weight : Bool → ℕ
weight true = 1
weight false = 0

length-filter-insert :
    (p : RunRecord → Bool) (m : Map RunRecord) (id : Text) (v : RunRecord)
    → length (filter p (values (insert m id v))) ≤ length (filter p (values m)) + weight (p v)
unfolding insert
length-filter-insert p [] id v = ground arith
length-filter-insert p ((j, w) ∷ m) id v = ground (arith, length-filter-insert p m id v)

-- A run that is written over keeps its weight if it keeps its key.
length-filter-replace :
    (p : RunRecord → Bool) (m : Map RunRecord) (id : Text) (v w : RunRecord)
    → get m id ≡ some w
    → p v ≡ p w
    → length (filter p (values (insert m id v))) ≡ length (filter p (values m))
unfolding insert get
length-filter-replace p [] id v w h same = cc
length-filter-replace p ((j, u) ∷ m) id v w h same =
    ground (arith, length-filter-replace p m id v w)

-- Two records of one run.
abbrev IsSame : RunRecord → RunRecord → Type 0
IsSame run' run = (run'.idempotency_key ≡ run.idempotency_key) × (run'.run_id ≡ run.run_id)

update_attempt-key :
    (run : RunRecord) (id : Text) (n : ℕ) (f : StepRecord → StepRecord) (run' : RunRecord)
    → update_attempt run id n f ≡ ok run'
    → IsSame run' run
unfolding update_attempt
update_attempt-key run id n f run' h = elim (Bool-cases (any (is_attempt id n) run.steps)) [
  | inl e ↦ ground (arith, e, h)
  | inr e ↦ ground (arith, e, h)
]

apply_mutation-key :
    (m : Mutation) (run run' : RunRecord) → apply_mutation m run ≡ ok run' → IsSame run' run
unfolding apply_mutation
apply_mutation-key (Mutation.insert_step_run step) run run' h = ground (arith, h)
apply_mutation-key (Mutation.set_step_status i n x) run run' h = update_attempt-key run i n _ run' h
apply_mutation-key (Mutation.set_step_output i n x) run run' h = update_attempt-key run i n _ run' h
apply_mutation-key (Mutation.set_job_id i n x) run run' h = update_attempt-key run i n _ run' h
apply_mutation-key (Mutation.set_approval i n x c f) run run' h =
    update_attempt-key run i n _ run' h
apply_mutation-key (Mutation.set_step_failure i n x) run run' h =
    update_attempt-key run i n _ run' h
apply_mutation-key (Mutation.set_step_failure_detail i n x) run run' h =
    update_attempt-key run i n _ run' h
apply_mutation-key (Mutation.set_step_timestamps i n x y) run run' h =
    update_attempt-key run i n _ run' h
apply_mutation-key (Mutation.set_child_run_id i n x) run run' h =
    update_attempt-key run i n _ run' h
apply_mutation-key (Mutation.set_run_phase x) run run' h = ground (arith, h)
apply_mutation-key Mutation.set_run_cancelled run run' h = ground (arith, h)
apply_mutation-key (Mutation.record_hook_run x) run run' h = ground (arith, h)
apply_mutation-key (Mutation.append_event x) run run' h = ground (arith, h)

apply_all-key :
    (ms : List Mutation) (run run' : RunRecord) → apply_all ms run ≡ ok run' → IsSame run' run
unfolding apply_all
apply_all-key [] run run' h =
    let same : run ≡ run' = cc in
    (ap (λ r. r.idempotency_key) (sym same), ap (λ r. r.run_id) (sym same))
apply_all-key (m ∷ ms) run run' h =
    let (mid, first, rest) = >>=-eq-ok (apply_mutation m run) (apply_all ms) h in
    let (keys, ids) = apply_all-key ms mid run' rest in
    let (first_key, first_id) = apply_mutation-key m run mid first in
    (keys ∙ first_key, ids ∙ first_id)

-- A batch keeps each key with one run at most.
pub apply-HasUniqueKeys :
    (now : Timestamp) (id : Text) (ms : List Mutation) (s : MemoryStore)
    → HasUniqueKeys s
    → HasUniqueKeys (apply now id ms s).1
unfolding HasUniqueKeys commit
apply-HasUniqueKeys now id ms s h key = elim (Option-cases (get s.runs id)) [
  | inl e ↦ rw (apply-missing now id ms s e) (h key)
  | inr (run, e) ↦ elim (Result-cases (apply_all ms run)) [
    | inr (x, q) ↦ rw (apply-commit now id ms s run e, q) (h key)
    | inl (run', q) ↦
        let written = record run' { updated_at = now } in
        let same : has_key key written ≡ has_key key run =
          rw ((apply_all-key ms run run' q).0) refl in
        let kept = length-filter-replace (has_key key) s.runs id written run e same in
        rw (apply-commit now id ms s run e, q, kept) (h key)
  ]
]

filter-none :
    (p : RunRecord → Bool) (xs : List RunRecord) → any p xs ≡ false → length (filter p xs) ≡ 0
filter-none p [] h = refl
filter-none p (x ∷ xs) h = ground (arith, filter-none p xs)

-- The three ways that `create_run` goes.
create_run-plain :
    (now : Timestamp) (id : Text) (new : NewRun) (s : MemoryStore)
    → new.idempotency_key ≡ none
    → create_run now id new s ≡ insert_run now id new s
unfolding create_run
create_run-plain now id new s h = ground (arith, h)

create_run-taken :
    (now : Timestamp) (id key : Text) (new : NewRun) (s : MemoryStore)
    → new.idempotency_key ≡ some key
    → any (has_key key) (values s.runs) ≡ true
    → create_run now id new s ≡ (err (duplicate key), s)
unfolding create_run
create_run-taken now id key new s h taken = ground (arith, h, taken)

create_run-free :
    (now : Timestamp) (id key : Text) (new : NewRun) (s : MemoryStore)
    → new.idempotency_key ≡ some key
    → any (has_key key) (values s.runs) ≡ false
    → create_run now id new s ≡ insert_run now id new s
unfolding create_run
create_run-free now id key new s h free = ground (arith, h, free)

-- A run is created only with a key that no run holds, so the keys stay unique.
pub create_run-HasUniqueKeys :
    (now : Timestamp) (id : Text) (new : NewRun) (s : MemoryStore)
    → HasUniqueKeys s
    → HasUniqueKeys (create_run now id new s).1
unfolding HasUniqueKeys create_run insert_run
create_run-HasUniqueKeys now id new s h key =
    let bound : length (holders key (insert_run now id new s).1)
        ≤ length (holders key s) + weight (has_key key (fresh_run now id new)) =
      length-filter-insert (has_key key) s.runs id (fresh_run now id new) in
    let before : length (holders key s) ≤ 1 = h key in
    elim (Option-cases new.idempotency_key) [
      | inl e ↦
          let no_key : weight (has_key key (fresh_run now id new)) ≡ 0 = rw e refl in
          rw (create_run-plain now id new s e) (omega (arith, bound, before, no_key))
      | inr (k, e) ↦
          let its_key : has_key key (fresh_run now id new) ≡ (k == key) = rw e refl in
          elim (Bool-cases (any (has_key k) (values s.runs))) [
            | inl taken ↦ rw (create_run-taken now id k new s e taken) before
            | inr free ↦
                let none_has = filter-none (has_key k) (values s.runs) free in
                rw (create_run-free now id k new s e free) (elim (Bool-cases (k == key)) [
                  | inl same ↦
                      let empty =
                        subst (λ x. length (holders x s) ≡ 0) ((==_iff k key).0 same) none_has in
                      let one : weight (has_key key (fresh_run now id new)) ≡ 1 =
                        rw (its_key, same) refl in
                      omega (arith, bound, empty, one)
                  | inr differs ↦
                      let no_weight : weight (has_key key (fresh_run now id new)) ≡ 0 =
                        rw (its_key, differs) refl in
                      omega (arith, bound, before, no_weight)
                ])
          ]
    ]

find?-insert :
    (p : RunRecord → Bool) (m : Map RunRecord) (id : Text) (v : RunRecord)
    → any p (values m) ≡ false
    → p v ≡ true
    → find? p (values (insert m id v)) ≡ some v
unfolding insert
find?-insert p [] id v none_has h = ground (arith, h)
find?-insert p ((j, w) ∷ m) id v none_has h = ground (arith, find?-insert p m id v)

any-insert :
    (p : RunRecord → Bool) (m : Map RunRecord) (id : Text) (v : RunRecord)
    → p v ≡ true
    → any p (values (insert m id v)) ≡ true
unfolding insert
any-insert p [] id v h = ground (arith, h)
any-insert p ((j, w) ∷ m) id v h = ground (arith, h, any-insert p m id v)

-- The key of a new run finds that run, and no second run is created with it.
pub create_run-key :
    (now later : Timestamp) (id other key : Text) (new again : NewRun) (s : MemoryStore)
    → new.idempotency_key ≡ some key
    → again.idempotency_key ≡ some key
    → (create_run now id new s).0 ≡ ok id
    → (find_by_idempotency_key (create_run now id new s).1 key ≡ ok (some id))
      × (create_run later other again (create_run now id new s).1
          ≡ (err (duplicate key), (create_run now id new s).1))
unfolding create_run insert_run find_by_idempotency_key
create_run-key now later id other key new again s hk ha done =
    let its_key : has_key key (fresh_run now id new) ≡ true = rw hk ((==_iff key key).1 refl) in
    elim (Bool-cases (any (has_key key) (values s.runs))) [
      | inl taken ↦ absurd (cc (done, create_run-taken now id key new s hk taken))
      | inr free ↦
          let found = find?-insert (has_key key) s.runs id (fresh_run now id new) free its_key in
          rw (create_run-free now id key new s hk free) (
            rw found refl,
            create_run-taken later other key again _ ha
                (any-insert (has_key key) s.runs id (fresh_run now id new) its_key),
          )
    ]

find?-replace :
    (p : RunRecord → Bool) (m : Map RunRecord) (id : Text) (old v : RunRecord)
    → get m id ≡ some old
    → p v ≡ p old
    → v.run_id ≡ old.run_id
    → Option.map (λ r. r.run_id) (find? p (values (insert m id v)))
      ≡ Option.map (λ r. r.run_id) (find? p (values m))
unfolding insert get
find?-replace p [] id old v found same ids = cc
find?-replace p ((j, w) ∷ m) id old v found same ids = elim (Bool-cases (j == id)) [
  | inl e ↦
      let here : w ≡ old = ground (arith, e, found) in
      let same_w : p v ≡ p w = cc (same, here) in
      let ids_w : v.run_id ≡ w.run_id = ids ∙ ap (λ r. r.run_id) (sym here) in
      elim (Bool-cases (p w)) [
        | inl h ↦ rw (e, same_w, h) (ap some ids_w)
        | inr h ↦ rw (e, same_w, h) refl
      ]
  | inr e ↦
      let later = find?-replace p m id old v (ground (arith, e, found)) same ids in
      elim (Bool-cases (p w)) [ inl h ↦ rw (e, h) refl | inr h ↦ rw (e, h) later ]
]

-- A batch does not change which run is found by a key.
pub apply-find :
    (now : Timestamp) (id : Text) (ms : List Mutation) (s : MemoryStore) (key : Text)
    → find_by_idempotency_key (apply now id ms s).1 key ≡ find_by_idempotency_key s key
unfolding find_by_idempotency_key commit
apply-find now id ms s key = elim (Option-cases (get s.runs id)) [
  | inl e ↦ rw (apply-missing now id ms s e) refl
  | inr (run, e) ↦ elim (Result-cases (apply_all ms run)) [
    | inr (x, q) ↦ rw (apply-commit now id ms s run e, q) refl
    | inl (run', q) ↦
        let (keys, ids) = apply_all-key ms run run' q in
        let written = record run' { updated_at = now } in
        let same : has_key key written ≡ has_key key run = rw keys refl in
        let kept = find?-replace (has_key key) s.runs id run written e same ids in
        rw (apply-commit now id ms s run e, q) (ap ok kept)
  ]
]

-- The id that is returned is the one that the key finds.
pub create_run-found :
    (now : Timestamp) (id key : Text) (new : NewRun) (s : MemoryStore) (made : Text)
    → new.idempotency_key ≡ some key
    → (create_run now id new s).0 ≡ ok made
    → find_by_idempotency_key (create_run now id new s).1 key ≡ ok (some made)
unfolding insert_run
create_run-found now id key new s made keyed h =
    elim (Bool-cases (any (has_key key) (values s.runs))) [
      | inl taken ↦ absurd (cc (h, create_run-taken now id key new s keyed taken))
      | inr free ↦
          let inserted = create_run-free now id key new s keyed free in
          let done : (create_run now id new s).0 ≡ ok id = rw inserted refl in
          let same : id ≡ made = cc (done, h) in
          (create_run-key now now id id key new new s keyed keyed done).0
          ∙ ap (λ x. ok (some x)) same
    ]
