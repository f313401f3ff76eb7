-- ===== src/Base/Lists.antt =====
-- Lists measured by native numbers and searched by Boolean tests: `Iterator::find`, `filter`,
-- `all`, `any` and `flat_map`.
use Prim.Native.Nat.{ℕ, zero, suc, ◌+◌, ◌≤◌, ◌<◌}
use mathlib.Core.Path.{◌≡◌, refl, ap, sym, ◌∙◌}
use mathlib.Core.Logic.{◌↔◌, ◌⊎◌, inl, inr, ⊎_elim}
use mathlib.Core.Bool.{Bool, true, false, ◌&&◌, ◌||◌}
use mathlib.Core.List.{List, [], ◌∷◌, ◌++◌, map, Memᴰ, append_assoc}
use mathlib.Core.List.Memᴰ
use mathlib.Core.Option.{Option, none, some}
use native.Mathlib.Omega.{arith}
use flowspec_devkitd.Base.Tests.{if◌then◌else◌, Bool-cases}

abbrev pub option_list {ℓ} : {A : Type ℓ} → Option A → List A
option_list none = []
option_list (some a) = a ∷ []

module _ {ℓ} {A : Type ℓ} where
  abbrev pub length : List A → ℕ
  length [] = 0
  length (x ∷ xs) = suc (length xs)

  abbrev pub is_empty : List A → Bool
  is_empty [] = true
  is_empty (_ ∷ _) = false

  abbrev pub all : (A → Bool) → List A → Bool
  all p [] = true
  all p (x ∷ xs) = p x && all p xs

  abbrev pub any : (A → Bool) → List A → Bool
  any p [] = false
  any p (x ∷ xs) = p x || any p xs

  abbrev pub find? : (A → Bool) → List A → Option A
  find? p [] = none
  find? p (x ∷ xs) = if p x then some x else find? p xs

  abbrev pub filter : (A → Bool) → List A → List A
  filter p [] = []
  filter p (x ∷ xs) = let rest = filter p xs in if p x then x ∷ rest else rest

  abbrev pub take : ℕ → List A → List A
  take zero xs = []
  take (suc n) [] = []
  take (suc n) (x ∷ xs) = x ∷ take n xs

  abbrev pub flat_map {κ} : {B : Type κ} → (A → List B) → List A → List B
  flat_map f [] = []
  flat_map f (x ∷ xs) = f x ++ flat_map f xs

  abbrev pub All {κ} : (A → Type κ) → List A → Type κ
  All P [] = Unit
  All P (x ∷ xs) = P x × All P xs

  pub append-eq-nil : (xs ys : List A) → (xs ++ ys ≡ []) ↔ ((xs ≡ []) × (ys ≡ []))
  append-eq-nil [] ys = (λ e. (refl, e), λ e. e.1)
  append-eq-nil (x ∷ xs) ys = (λ e. cc, λ e. cc (e.0))

  pub append_iff {κ μ} :
      {P : Type κ} {Q : Type μ} (xs ys : List A)
      → ((xs ≡ []) ↔ P)
      → ((ys ≡ []) ↔ Q)
      → (xs ++ ys ≡ []) ↔ (P × Q)
  append_iff xs ys p q = (
    λ e. let (x, y) = (append-eq-nil xs ys).0 e in (p.0 x, q.0 y),
    λ h. (append-eq-nil xs ys).1 (p.1 h.0, q.1 h.1),
  )

  pub All-iff {κ} : (P : A → Type κ) (xs : List A) → All P xs ↔ ((x : A) → Memᴰ x xs → P x)
  All-iff P [] = (λ _ x m. absurd (Memᴰ.not-nil m), λ _. tt)
  All-iff P (x ∷ xs) = (
    λ h y m. ⊎_elim (λ (e : y ≡ x). rw e h.0) (λ r. (All-iff P xs).0 h.1 y r) (Memᴰ.cases_cons m),
    λ h. (h x (Memᴰ.head refl), (All-iff P xs).1 (λ y m. h y (Memᴰ.tail m))),
  )

  pub length-append : (xs ys : List A) → length (xs ++ ys) ≡ length xs + length ys
  length-append [] ys = omega arith
  length-append (x ∷ xs) ys = omega (arith, length-append xs ys)

  pub List-cases : (xs : List A) → (xs ≡ []) ⊎ ((x : A) × (rest : List A) × (xs ≡ x ∷ rest))
  List-cases [] = inl refl
  List-cases (x ∷ xs) = inr (x, xs, refl)

module _ {ℓ} {A : Type ℓ} where
  pub flat_map-append {κ} :
      {B : Type κ} (f : A → List B) (xs ys : List A)
      → flat_map f (xs ++ ys) ≡ flat_map f xs ++ flat_map f ys
  flat_map-append f [] ys = refl
  flat_map-append f (x ∷ xs) ys = simp (flat_map-append f xs ys, append_assoc)

  pub flat_map-eq-nil {κ} :
      {B : Type κ} (f : A → List B) (xs : List A)
      → (flat_map f xs ≡ []) ↔ ((x : A) → Memᴰ x xs → f x ≡ [])
  flat_map-eq-nil f [] = (λ _ x m. absurd (Memᴰ.not-nil m), λ _. refl)
  flat_map-eq-nil f (x ∷ xs) = (
    λ h y m.
        let both = (append-eq-nil (f x) (flat_map f xs)).0 h in
        ⊎_elim (λ (e : y ≡ x). rw e both.0) (λ r. (flat_map-eq-nil f xs).0 both.1 y r)
          (Memᴰ.cases_cons m),
    λ h.
        (append-eq-nil (f x) (flat_map f xs)).1
          (h x (Memᴰ.head refl), (flat_map-eq-nil f xs).1 (λ y m. h y (Memᴰ.tail m))),
  )

module _ {ℓ} {A : Type ℓ} (p : A → Bool) where
  pub all_iff : (xs : List A) → (all p xs ≡ true) ↔ ((x : A) → Memᴰ x xs → p x ≡ true)
  all_iff [] = (λ _ x m. absurd (Memᴰ.not-nil m), λ _. refl)
  all_iff (x ∷ xs) = (
    λ h y m.
        let hx : p x ≡ true = ground arith in
        let hxs : all p xs ≡ true = ground arith in
        ⊎_elim (λ (e : y ≡ x). cc) (λ r. (all_iff xs).0 hxs y r) (Memᴰ.cases_cons m),
    λ h.
        let hx = h x (Memᴰ.head refl) in
        let hxs = (all_iff xs).1 (λ y m. h y (Memᴰ.tail m)) in ground arith,
  )

  pub any_iff : (xs : List A) → (any p xs ≡ false) ↔ ((x : A) → Memᴰ x xs → p x ≡ false)
  any_iff [] = (λ _ x m. absurd (Memᴰ.not-nil m), λ _. refl)
  any_iff (x ∷ xs) = (
    λ h y m.
        let hx : p x ≡ false = ground arith in
        let hxs : any p xs ≡ false = ground arith in
        ⊎_elim (λ (e : y ≡ x). cc) (λ r. (any_iff xs).0 hxs y r) (Memᴰ.cases_cons m),
    λ h.
        let hx = h x (Memᴰ.head refl) in
        let hxs = (any_iff xs).1 (λ y m. h y (Memᴰ.tail m)) in ground arith,
  )

  pub any-eq-true : (xs : List A) → any p xs ≡ true → (x : A) × Memᴰ x xs × (p x ≡ true)
  any-eq-true [] h = cc
  any-eq-true (x ∷ xs) h = elim (Bool-cases (p x)) [
    | inl e ↦ (x, Memᴰ.head refl, e)
    | inr e ↦ let (y, m, q) = any-eq-true xs (ground arith) in (y, Memᴰ.tail m, q)
  ]

  pub mem-filter : (a : A) (xs : List A) → Memᴰ a (filter p xs) ↔ (Memᴰ a xs × (p a ≡ true))
  mem-filter a [] = (λ m. absurd (Memᴰ.not-nil m), λ m. m.0)
  mem-filter a (x ∷ xs) = go (p x) refl (mem-filter a xs)
    where
      go :
          (b : Bool)
          → p x ≡ b
          → (Memᴰ a (filter p xs) ↔ (Memᴰ a xs × (p a ≡ true)))
          → Memᴰ a (filter p (x ∷ xs)) ↔ (Memᴰ a (x ∷ xs) × (p a ≡ true))
      go true e ih = rw e (
        λ m.
            ⊎_elim (λ (q : a ≡ x). (Memᴰ.head q, cc)) (λ r. (Memᴰ.tail (ih.0 r).0, (ih.0 r).1))
              (Memᴰ.cases_cons m),
        λ m. ⊎_elim (λ q. Memᴰ.head q) (λ r. Memᴰ.tail (ih.1 (r, m.1))) (Memᴰ.cases_cons m.0),
      )
      go false e ih = rw e (
        λ m. (Memᴰ.tail (ih.0 m).0, (ih.0 m).1),
        λ m. ⊎_elim (λ (q : a ≡ x). absurd (cc (m.1))) (λ r. ih.1 (r, m.1)) (Memᴰ.cases_cons m.0),
      )

  pub find?-some : (xs : List A) (a : A) → find? p xs ≡ some a → Memᴰ a xs × (p a ≡ true)
  find?-some [] a h = cc
  find?-some (x ∷ xs) a h = go (p x) refl (find?-some xs a)
    where
      go :
          (b : Bool)
          → p x ≡ b
          → (find? p xs ≡ some a → Memᴰ a xs × (p a ≡ true))
          → Memᴰ a (x ∷ xs) × (p a ≡ true)
      go true e ih = let q : a ≡ x = ground arith in (Memᴰ.head q, cc)
      go false e ih = let (m, pa) = ih (ground arith) in (Memᴰ.tail m, pa)

  pub find?-none : (xs : List A) → (find? p xs ≡ none) ↔ (any p xs ≡ false)
  find?-none [] = (λ _. refl, λ _. refl)
  find?-none (x ∷ xs) = ground (arith, find?-none xs)

-- A stronger test keeps fewer elements, and strictly fewer if it drops one.
module _ {ℓ} {A : Type ℓ} (p q : A → Bool) (stronger : (x : A) → p x ≡ true → q x ≡ true) where
  pub length-filter-le : (xs : List A) → length (filter p xs) ≤ length (filter q xs)
  length-filter-le [] = omega arith
  length-filter-le (x ∷ xs) = ground (arith, stronger x, length-filter-le xs)

  pub length-filter-lt :
      (a : A) (xs : List A)
      → Memᴰ a xs
      → p a ≡ false
      → q a ≡ true
      → length (filter p xs) < length (filter q xs)
  length-filter-lt a [] m pa qa = absurd (Memᴰ.not-nil m)
  length-filter-lt a (x ∷ xs) m pa qa = elim (Memᴰ.cases_cons m) [
    | inl e ↦
        let px : p x ≡ false = cc in let qx : q x ≡ true = cc in ground (arith, length-filter-le xs)
    | inr later ↦ ground (arith, stronger x, length-filter-lt a xs later pa qa)
  ]

pub length-filter-le_length {ℓ} :
    {A : Type ℓ} (p : A → Bool) (xs : List A) → length (filter p xs) ≤ length xs
length-filter-le_length p [] = omega arith
length-filter-le_length p (x ∷ xs) = ground (arith, length-filter-le_length p xs)

pub length-map {ℓ κ} :
    {A : Type ℓ} {B : Type κ} (xs : List A) (f : A → B) → length (map f xs) ≡ length xs
length-map [] f = refl
length-map (x ∷ xs) f = ap suc (length-map xs f)

-- What `map` lists.
pub mem-map {ℓ κ} :
    {A : Type ℓ} {B : Type κ} (f : A → B) (b : B) (xs : List A)
    → Memᴰ b (map f xs) ↔ ((a : A) × Memᴰ a xs × (f a ≡ b))
mem-map f b [] = (λ m. absurd (Memᴰ.not-nil m), λ h. absurd (Memᴰ.not-nil h.1))
mem-map f b (x ∷ xs) = (
  λ m. elim (Memᴰ.cases_cons m) [
    | inl e ↦ (x, Memᴰ.head refl, sym e)
    | inr r ↦ let (a, n, e) = (mem-map f b xs).0 r in (a, Memᴰ.tail n, e)
  ],
  λ (a, n, e). elim (Memᴰ.cases_cons n) [
    | inl same ↦ Memᴰ.head (sym e ∙ ap f same)
    | inr r ↦ Memᴰ.tail ((mem-map f b xs).1 (a, r, e))
  ],
)
