-- ===== src/Base/Maps.antt =====
-- Maps: a `HashMap` whose entries are walked over is an association list with distinct keys, and one
-- that is only looked up in is a function.
use Prim.Native.Nat.{ℕ}
use mathlib.Core.Path.{◌≡◌, refl}
use mathlib.Core.Logic.{◌≢◌}
use mathlib.Core.List.{List, [], ◌∷◌}
use mathlib.Core.Option.{Option, none, some}
use native.Mathlib.Omega.{arith}
use file_peeker.Base.Tests.{◌==◌, if◌then◌else◌}

module _ {ℓ} {V : Type ℓ} where
  abbrev pub lookup : ℕ → List (ℕ × V) → Option V
  lookup k [] = none
  lookup k ((j, v) ∷ m) = if j == k then some v else lookup k m

  -- `get_mut`, and a change of what it finds.
  abbrev pub modify : ℕ → (V → V) → List (ℕ × V) → List (ℕ × V)
  modify k f [] = []
  modify k f ((j, v) ∷ m) = (if j == k then (j, f v) else (j, v)) ∷ modify k f m

  abbrev pub insert : ℕ → V → List (ℕ × V) → List (ℕ × V)
  insert k v [] = (k, v) ∷ []
  insert k v ((j, w) ∷ m) = if j == k then (k, v) ∷ m else (j, w) ∷ insert k v m

  abbrev pub remove : ℕ → List (ℕ × V) → List (ℕ × V)
  remove k [] = []
  remove k ((j, v) ∷ m) = let rest = remove k m in if j == k then rest else (j, v) ∷ rest

  pub lookup-insert :
      (k j : ℕ) (v : V) (m : List (ℕ × V))
      → lookup j (insert k v m) ≡ (if k == j then some v else lookup j m)
  lookup-insert k j v [] = refl
  lookup-insert k j v ((i, w) ∷ m) = ground (arith, lookup-insert k j v m)

  pub lookup-remove :
      (k j : ℕ) (m : List (ℕ × V)) → lookup j (remove k m) ≡ (if k == j then none else lookup j m)
  lookup-remove k j [] = ground arith
  lookup-remove k j ((i, w) ∷ m) = ground (arith, lookup-remove k j m)

  -- The change at one key, seen from any key.
  pub lookup-modify_self :
      (k : ℕ) (f : V → V) (m : List (ℕ × V)) (v : V)
      → lookup k m ≡ some v
      → lookup k (modify k f m) ≡ some (f v)
  lookup-modify_self k f [] v h = cc
  lookup-modify_self k f ((i, w) ∷ m) v h = ground (arith, lookup-modify_self k f m v)

  pub lookup-modify-none :
      (k j : ℕ) (f : V → V) (m : List (ℕ × V)) → lookup j m ≡ none → lookup j (modify k f m) ≡ none
  lookup-modify-none k j f [] h = refl
  lookup-modify-none k j f ((i, w) ∷ m) h = ground (arith, lookup-modify-none k j f m)

  pub lookup-modify_ne :
      (k j : ℕ) (f : V → V) (m : List (ℕ × V)) → k ≢ j → lookup j (modify k f m) ≡ lookup j m
  lookup-modify_ne k j f [] h = refl
  lookup-modify_ne k j f ((i, w) ∷ m) h = ground (arith, lookup-modify_ne k j f m)
