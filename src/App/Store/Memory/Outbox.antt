-- ===== src/App/Store/Memory/Outbox.antt =====
-- The event outbox of the store in memory: sequences without a gap, batches that are a prefix of
-- what is not pushed yet, and a mark that drops just what it names.
use mathlib.Core.Option.{get_or}
use mathlib.Core.List.{map-append}
use flowspec_devkitd.Base.{
  ℕ, zero, suc, ◌+◌, ◌%◌, ◌-◌, ◌<◌, ◌≡◌, refl, Bool, not, ◌&&◌, Text, List, [], ◌∷◌, ◌++◌, map,
  filter, flat_map, length, take, max, append-nil, ◌∙◌, ok, ltb, leb, ◌==◌, ==_iff, if◌then◌else◌,
  arith, inl, inr, Option-cases, Result-cases, Bool-cases, length-append, append_assoc, ap,
}
use flowspec_devkitd.Base.Decimal.{u64_mod}
use flowspec_devkitd.Base.Map.{Map, get, get-insert}
use flowspec_devkitd.Base.Sets.{sort}
use flowspec_devkitd.Run.Types.{Timestamp}
use flowspec_devkitd.App.Mutations.{Mutation, RunEventRecord, StoredRunEvent, apply_all}
use flowspec_devkitd.App.Store.{event_record}
use flowspec_devkitd.App.Store.Memory.{
  MemoryStore, apply, commit, next_sequence, stored, append_events, extend_events, events_of,
  pushed, candidates, push_until, unpushed_events, mark_events_pushed,
}
use flowspec_devkitd.App.Store.Memory.Atomic.{apply-missing, apply-commit}

abbrev pub sequences : List StoredRunEvent → List ℕ
sequences es = map (λ e. e.sequence) es

-- `n` numbers from `first` on.
abbrev pub count_from : ℕ → ℕ → List ℕ
count_from first zero = []
count_from first (suc n) = first ∷ count_from (suc first) n

-- The sequences of each run are 1, 2, 3 and so on.
unfoldable pub IsGapless : MemoryStore → Type 0
IsGapless s = (id : Text) → sequences (events_of s id) ≡ count_from 1 (length (events_of s id))

next_sequence-eq :
    (es : List StoredRunEvent) (e : StoredRunEvent) (first : ℕ)
    → sequences (e ∷ es) ≡ count_from first (length (e ∷ es))
    → next_sequence (e ∷ es) ≡ (first + length (e ∷ es)) % u64_mod
unfolding next_sequence
next_sequence-eq [] e first h = ground (arith, h)
next_sequence-eq (f ∷ es) e first h =
    let later = next_sequence-eq es f (suc first) (ground arith) in ground (arith, later)

count_from-append :
    (n first : ℕ) → count_from first n ++ (first + n) ∷ [] ≡ count_from first (suc n)
count_from-append zero first = ground arith
count_from-append (suc n) first = ground (arith, count_from-append n (suc first))

-- One event: the next number follows.
append-one :
    (list : List StoredRunEvent) (e : RunEventRecord)
    → sequences list ≡ count_from 1 (length list)
    → 1 + length list < u64_mod
    → sequences (list ++ stored (next_sequence list) e ∷ []) ≡ count_from 1 (1 + length list)
unfolding next_sequence
append-one [] e h bound = refl
append-one (f ∷ list) e h bound =
    let next : next_sequence (f ∷ list) ≡ 1 + length (f ∷ list) =
      next_sequence-eq list f 1 h ∙ ground arith in
    let last = count_from-append (length (f ∷ list)) 1 in
    let shown =
      map-append (λ e. e.sequence) (f ∷ list) (stored (next_sequence (f ∷ list)) e ∷ []) in
    let numbers = ap (λ xs. xs ++ next_sequence (f ∷ list) ∷ []) h in
    shown ∙ (numbers ∙ rw next (last ∙ ground arith))

take-nil {ℓ} : {A : Type ℓ} (n : ℕ) → take {A = A} n [] ≡ []
take-nil zero = refl
take-nil (suc n) = refl

push_until-eq-take {ℓ} :
    {A : Type ℓ} (limit : ℕ) (out es : List A)
    → length out < max 1 limit
    → push_until limit out es ≡ out ++ take (max 1 limit - length out) es
unfolding push_until
push_until-eq-take limit out [] h = rw (take-nil, append-nil) refl
push_until-eq-take limit out (e ∷ es) h =
    let longer = length-append out (e ∷ []) in
    elim (Bool-cases (leb limit (length (out ++ e ∷ [])))) [
      | inl full ↦ let one : max 1 limit - length out ≡ 1 = ground arith in rw (full, one) refl
      | inr room ↦
          let one : max 1 limit - length out ≡ suc (max 1 limit - length (out ++ e ∷ [])) =
            ground arith in
          let rest = push_until-eq-take limit (out ++ e ∷ []) es (ground arith) in
          rw (room, rest, one, append_assoc) refl
    ]

-- What the store returns is a prefix of what is not pushed, of `limit` events, and of one event
-- where the limit is zero.
pub unpushed_events-eq-take :
    (s : MemoryStore) (limit : ℕ) → unpushed_events s limit ≡ ok (take (max 1 limit) (candidates s))
unfolding unpushed_events
unpushed_events-eq-take s limit =
    let whole = push_until-eq-take limit [] (candidates s) (ground arith) in
    let size : max 1 limit - 0 ≡ max 1 limit = ground arith in
    ap ok (whole ∙ ap (λ n. take n (candidates s)) size)

append_events-sequences :
    (list : List StoredRunEvent) (es : List RunEventRecord)
    → sequences list ≡ count_from 1 (length list)
    → length list + length es < u64_mod
    → sequences (append_events list es) ≡ count_from 1 (length (append_events list es))
unfolding append_events
append_events-sequences list [] h bound = h
append_events-sequences list (e ∷ es) h bound =
    let longer = length-append list (stored (next_sequence list) e ∷ []) in
    let one = append-one list e h (omega arith) in
    append_events-sequences (list ++ stored (next_sequence list) e ∷ []) es
      (rw longer (one ∙ ground arith)) (omega arith)

get_or-extend_events :
    (table : Map (List StoredRunEvent)) (id other : Text) (es : List RunEventRecord)
    → get_or (get (extend_events table id es) other) [] ≡ (
        if id == other
        then append_events (get_or (get table id) []) es
        else get_or (get table other) [])
unfolding append_events
get_or-extend_events table id other [] = elim (Bool-cases (id == other)) [
  | inl e ↦ rw (e, (==_iff id other).0 e) refl
  | inr e ↦ rw e refl
]
get_or-extend_events table id other (x ∷ xs) = elim (Bool-cases (id == other)) [
  | inl e ↦ rw (get-insert, e) refl
  | inr e ↦ rw (get-insert, e) refl
]

-- A batch keeps the sequences of every run without a gap, as long as there are fewer than 2 ^ 64.
pub apply-IsGapless :
    (now : Timestamp) (id : Text) (ms : List Mutation) (s : MemoryStore)
    → IsGapless s
    → length (events_of s id) + length (flat_map event_record ms) < u64_mod
    → IsGapless (apply now id ms s).1
unfolding IsGapless commit
apply-IsGapless now id ms s h bound other = elim (Option-cases (get s.runs id)) [
  | inl e ↦ rw (apply-missing now id ms s e) (h other)
  | inr (run, e) ↦ elim (Result-cases (apply_all ms run)) [
    | inr (x, q) ↦ rw (apply-commit now id ms s run e, q) (h other)
    | inl (run', q) ↦ elim (Bool-cases (id == other)) [
      | inl same ↦
          rw (apply-commit now id ms s run e, q, get_or-extend_events, same)
            (append_events-sequences (events_of s id) (flat_map event_record ms) (h id) bound)
      | inr differs ↦
          rw (apply-commit now id ms s run e, q, get_or-extend_events, differs) (h other)
    ]
  ]
]

-- The test of what is still to be pushed after a mark.
abbrev pub still : Text → ℕ → Text × StoredRunEvent → Bool
still id through e = not (id == e.0 && leb e.1.sequence through)

still-filter :
    (id j : Text) (through b a : ℕ) (es : List StoredRunEvent)
    → a ≡ (if id == j then max b through else b)
    → map (λ e. (j, e)) (filter (λ e. ltb a e.sequence) es)
      ≡ filter (still id through) (map (λ e. (j, e)) (filter (λ e. ltb b e.sequence) es))
still-filter id j through b a [] h = refl
still-filter id j through b a (e ∷ es) h = ground (arith, still-filter id j through b a es h)

filter-append {ℓ} :
    {A : Type ℓ} (p : A → Bool) (xs ys : List A) → filter p (xs ++ ys) ≡ filter p xs ++ filter p ys
filter-append p [] ys = refl
filter-append p (x ∷ xs) ys = ground (arith, filter-append p xs ys)

filter-flat_map {ℓ κ} :
    {A : Type ℓ} {B : Type κ} (p : B → Bool) (f g : A → List B) (xs : List A)
    → ((x : A) → g x ≡ filter p (f x))
    → flat_map g xs ≡ filter p (flat_map f xs)
filter-flat_map p f g [] h = refl
filter-flat_map p f g (x ∷ xs) h = rw (filter-append, h x, filter-flat_map p f g xs h) refl

pushed-mark :
    (s : MemoryStore) (id j : Text) (through : ℕ)
    → pushed (mark_events_pushed id through s).1 j
      ≡ (if id == j then max (pushed s j) through else pushed s j)
unfolding mark_events_pushed
pushed-mark s id j through = elim (Bool-cases (id == j)) [
  | inl e ↦
      let same = (==_iff id j).0 e in rw (get-insert, e) (ap (λ k. max (pushed s k) through) same)
  | inr e ↦ rw (get-insert, e) refl
]

-- After a mark, the events not pushed are those from before but for the events of that run up to
-- the mark.
pub mark_events_pushed-candidates :
    (s : MemoryStore) (id : Text) (through : ℕ)
    → candidates (mark_events_pushed id through s).1 ≡ filter (still id through) (candidates s)
unfolding mark_events_pushed
mark_events_pushed-candidates s id through =
    filter-flat_map (still id through) _ _ (sort (map (λ e. e.0) s.events)) λ j.
      still-filter id j through (pushed s j) (pushed (mark_events_pushed id through s).1 j)
        (events_of s j) (pushed-mark s id j through)
