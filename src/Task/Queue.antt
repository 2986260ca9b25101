-- ===== src/Task/Queue.antt =====
-- A queue of src/task/runtime.rs, a `BTreeSet<u64>`, as an increasing list.
use file_peeker.Base.{
  ℕ, ◌≤◌, ◌<◌, ◌≡◌, refl, Bool, true, false, ◌&&◌, ◌||◌, not, some, List, [], ◌∷◌, ◌==◌, arith, All,
}
use file_peeker.Task.Runtime.{set_insert, set_remove, first}

unfoldable pub contains : ℕ → List ℕ → Bool
contains k [] = false
contains k (x ∷ q) = (k == x) || contains k q

abbrev pub Above : ℕ → List ℕ → Type 0
Above x = All (λ y. x < y)

abbrev pub IsIncreasing : List ℕ → Type 0
IsIncreasing [] = Unit
IsIncreasing (x ∷ q) = Above x q × IsIncreasing q

Above-trans : (x y : ℕ) (q : List ℕ) → x < y → Above y q → Above x q
Above-trans x y [] lt h = tt
Above-trans x y (z ∷ q) lt (hz, h) = (omega arith, Above-trans x y q lt h)

set_insert-Above : (k x : ℕ) (q : List ℕ) → k < x → Above k q → Above k (set_insert x q)
unfolding set_insert
set_insert-Above k x [] lt h = (lt, tt)
set_insert-Above k x (y ∷ q) lt (hy, h) = ground (arith, set_insert-Above k x q lt h)

pub set_insert-IsIncreasing : (x : ℕ) (q : List ℕ) → IsIncreasing q → IsIncreasing (set_insert x q)
unfolding set_insert
set_insert-IsIncreasing x [] h = (tt, tt)
set_insert-IsIncreasing x (y ∷ q) (above, h) =
    ground (arith, set_insert-IsIncreasing x q h, set_insert-Above y x q, Above-trans x y q)

set_remove-Above : (k x : ℕ) (q : List ℕ) → Above k q → Above k (set_remove x q)
unfolding set_remove
set_remove-Above k x [] h = tt
set_remove-Above k x (y ∷ q) (hy, h) = ground (arith, set_remove-Above k x q h)

pub set_remove-IsIncreasing : (x : ℕ) (q : List ℕ) → IsIncreasing q → IsIncreasing (set_remove x q)
unfolding set_remove
set_remove-IsIncreasing x [] h = tt
set_remove-IsIncreasing x (y ∷ q) (above, h) =
    ground (arith, set_remove-IsIncreasing x q h, set_remove-Above y x q above)

pub contains-set_insert :
    (k x : ℕ) (q : List ℕ) → contains k (set_insert x q) ≡ ((k == x) || contains k q)
unfolding contains set_insert
contains-set_insert k x [] = refl
contains-set_insert k x (y ∷ q) = ground (arith, contains-set_insert k x q)

not-contains-Above : (k : ℕ) (q : List ℕ) → Above k q → contains k q ≡ false
unfolding contains
not-contains-Above k [] h = refl
not-contains-Above k (y ∷ q) (hy, h) = ground (arith, not-contains-Above k q h)

pub contains-set_remove :
    (k x : ℕ) (q : List ℕ)
    → IsIncreasing q
    → contains k (set_remove x q) ≡ (contains k q && not (k == x))
unfolding contains set_remove
contains-set_remove k x [] h = refl
contains-set_remove k x (y ∷ q) (above, h) =
    ground (arith, contains-set_remove k x q h, not-contains-Above y q above)

contains-Above : (y k : ℕ) (q : List ℕ) → Above y q → contains k q ≡ true → y < k
unfolding contains
contains-Above y k [] h c = cc
contains-Above y k (z ∷ q) (hz, h) c = ground (arith, contains-Above y k q h)

-- The first of a queue is not above any of it.
pub first-le :
    (x k : ℕ) (q : List ℕ) → IsIncreasing q → first (some q) ≡ some x → contains k q ≡ true → x ≤ k
unfolding contains
first-le x k [] h f c = cc
first-le x k (y ∷ q) (above, h) f c = ground (arith, contains-Above y k q above)

pub contains-first : (x : ℕ) (q : List ℕ) → first (some q) ≡ some x → contains x q ≡ true
unfolding contains
contains-first x [] f = cc
contains-first x (y ∷ q) f = ground arith
