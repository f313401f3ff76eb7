-- ===== src/Base/Map.antt =====
-- A map from texts (`HashMap<&str, V>`), as an association list with at most one entry for a key.
use mathlib.Core.Path.{◌≡◌, refl, sym}
use mathlib.Core.Logic.{inl, inr}
use mathlib.Core.List.{List, [], ◌∷◌, map, Memᴰ}
use mathlib.Core.Option.{Option, none, some}
use native.Mathlib.Omega.{arith}
use flowspec_devkitd.Base.Tests.{if◌then◌else◌, Bool-cases}
use flowspec_devkitd.Base.Texts.{Text, ◌==◌, ==_iff}

abbrev pub Map {ℓ} : Type ℓ → Type ℓ
Map V = List (Text × V)

module _ {ℓ} {V : Type ℓ} where
  unfoldable pub get : Map V → Text → Option V
  get [] k = none
  get ((j, v) ∷ m) k = if j == k then some v else get m k

  unfoldable pub insert : Map V → Text → V → Map V
  insert [] k v = (k, v) ∷ []
  insert ((j, w) ∷ m) k v = if j == k then (j, v) ∷ m else (j, w) ∷ insert m k v

  pub get-insert :
      (m : Map V) (k j : Text) (v : V) → get (insert m k v) j ≡ (if k == j then some v else get m j)
  unfolding get insert
  get-insert [] k j v = refl
  get-insert ((i, w) ∷ m) k j v =
      ground (arith, ==_iff k j, ==_iff i k, ==_iff i j, get-insert m k j v)

  pub get-mem : (m : Map V) (k : Text) (v : V) → get m k ≡ some v → Memᴰ k (map (λ e. e.0) m)
  unfolding get
  get-mem [] k v h = cc
  get-mem ((j, w) ∷ m) k v h = elim (Bool-cases (j == k)) [
    | inl e ↦ Memᴰ.head (sym ((==_iff j k).0 e))
    | inr e ↦ Memᴰ.tail (get-mem m k v (ground arith))
  ]
