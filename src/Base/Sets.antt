-- ===== src/Base/Sets.antt =====
-- Sets of texts (`HashSet<&str>`), as lists that hold no text twice, and sorted lists of texts.
use flowspec_devkitd.Base.Texts.{Text, ◌==◌, ==_iff, text_le}
use flowspec_devkitd.Base.Tests.{if◌then◌else◌}
use mathlib.Core.Path.{◌≡◌, refl}
use mathlib.Core.Logic.{◌↔◌, ⊎_elim}
use mathlib.Core.Bool.{Bool, true, false, ◌||◌}
use mathlib.Core.List.{List, [], ◌∷◌, ◌++◌, Memᴰ}
use mathlib.Core.List.Memᴰ
use native.Mathlib.Omega.{arith}

unfoldable pub mem : Text → List Text → Bool
mem a [] = false
mem a (x ∷ xs) = x == a || mem a xs

unfoldable pub set_insert : List Text → Text → List Text
unfolding mem
set_insert xs a = if mem a xs then xs else xs ++ a ∷ []

unfoldable pub set_extend : List Text → List Text → List Text
unfolding set_insert
set_extend xs [] = xs
set_extend xs (a ∷ more) = set_extend (set_insert xs a) more

-- `sort`.
sort_insert : Text → List Text → List Text
sort_insert a [] = a ∷ []
sort_insert a (x ∷ xs) = if text_le a x then a ∷ x ∷ xs else x ∷ sort_insert a xs

unfoldable pub sort : List Text → List Text
unfolding sort_insert text_le
sort [] = []
sort (x ∷ xs) = sort_insert x (sort xs)

pub mem_iff : (a : Text) (xs : List Text) → (mem a xs ≡ true) ↔ Memᴰ a xs
unfolding mem
mem_iff a [] = (λ h. cc, λ m. absurd (Memᴰ.not-nil m))
mem_iff a (x ∷ xs) = (
  λ h.
      let later : mem a xs ≡ true → Memᴰ a (x ∷ xs) = λ r. Memᴰ.tail ((mem_iff a xs).0 r) in
      ground (arith, ==_iff x a, later, head_of),
  λ m.
      ⊎_elim (λ (e : a ≡ x). ground (arith, ==_iff x a))
        (λ r. let q = (mem_iff a xs).1 r in ground arith) (Memᴰ.cases_cons m),
)
  where
    head_of : x ≡ a → Memᴰ a (x ∷ xs)
    head_of e = Memᴰ.head (cc)

pub mem-append : (a : Text) (xs ys : List Text) → mem a (xs ++ ys) ≡ (mem a xs || mem a ys)
unfolding mem
mem-append a [] ys = refl
mem-append a (x ∷ xs) ys = ground (arith, mem-append a xs ys)

pub mem-set_insert : (a b : Text) (xs : List Text) → mem b (set_insert xs a) ≡ (a == b || mem b xs)
unfolding set_insert
mem-set_insert a b xs = ground (arith, mem-append b xs (a ∷ []), ==_iff a b)

pub mem-set_extend :
    (b : Text) (more xs : List Text) → mem b (set_extend xs more) ≡ (mem b xs || mem b more)
unfolding set_extend mem
mem-set_extend b [] xs = ground arith
mem-set_extend b (a ∷ more) xs =
    ground (arith, mem-set_extend b more (set_insert xs a), mem-set_insert a b xs)

mem-sort_insert : (a b : Text) (xs : List Text) → mem b (sort_insert a xs) ≡ (a == b || mem b xs)
unfolding sort_insert mem
mem-sort_insert a b [] = refl
mem-sort_insert a b (x ∷ xs) = ground (arith, mem-sort_insert a b xs)

pub mem-sort : (b : Text) (xs : List Text) → mem b (sort xs) ≡ mem b xs
unfolding sort mem
mem-sort b [] = refl
mem-sort b (x ∷ xs) = ground (arith, mem-sort b xs, mem-sort_insert x b (sort xs))
