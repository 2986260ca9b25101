-- ===== src/Browser/Tree/Dropped.antt =====
-- The requests that go with a subtree of old/src/browser/tree.rs.
use file_peeker.Base.{
  ℕ, zero, suc, ◌≡◌, refl, sym, ap, ◌∙◌, Option, none, some, List, [], ◌∷◌, arith, ◌==◌, inl, inr,
  Bool-cases, lookup, remove, lookup-remove,
}
use file_peeker.Browser.{Row, Expansion, loading, request_id}
use file_peeker.Browser.Tree.Rows.{expansion_at}
use file_peeker.Browser.Tree.{Placement, request_ids, drop_requests, cons_some}

-- The placements that `drop_requests` leaves.
drop_requests-cons :
    (j : ℕ) (ids : List ℕ) (m : List (ℕ × Placement))
    → (drop_requests (j ∷ ids) m).0 ≡ (drop_requests ids (remove j m)).0
unfolding drop_requests
drop_requests-cons j ids m = left_of (lookup j m)
  where
    left_of :
        (o : Option Placement)
        → (elim o as (λ x. List (ℕ × Placement) × List ℕ) [
          | none ↦ drop_requests ids (remove j m)
          | some p ↦ ((drop_requests ids (remove j m)).0, j ∷ (drop_requests ids (remove j m)).1)
        ]).0
          ≡ (drop_requests ids (remove j m)).0
    left_of none = refl
    left_of (some p) = refl

lookup-remove-some :
    (j id : ℕ) (m : List (ℕ × Placement)) (p : Placement)
    → lookup id (remove j m) ≡ some p
    → lookup id m ≡ some p
lookup-remove-some j id m p h = elim (Bool-cases (j == id)) [
  | inl u ↦ absurd (ground (arith, lookup-remove j id m))
  | inr u ↦ ground (arith, lookup-remove j id m)
]

lookup-remove-none :
    (j id : ℕ) (m : List (ℕ × Placement)) → lookup id m ≡ none → lookup id (remove j m) ≡ none
lookup-remove-none j id m h = ground (arith, lookup-remove j id m)

lookup-remove-same : (id : ℕ) (m : List (ℕ × Placement)) → lookup id (remove id m) ≡ none
lookup-remove-same id m = ground (arith, lookup-remove id id m)

pub drop_requests-left :
    (ids : List ℕ) (m : List (ℕ × Placement)) (id : ℕ) (p : Placement)
    → lookup id (drop_requests ids m).0 ≡ some p
    → lookup id m ≡ some p
unfolding drop_requests
drop_requests-left [] m id p h = h
drop_requests-left (j ∷ ids) m id p h = lookup-remove-some j id m p (
    drop_requests-left ids (remove j m) id p
      (sym (ap (lookup id) (drop_requests-cons j ids m)) ∙ h))

drop_requests-none :
    (ids : List ℕ) (m : List (ℕ × Placement)) (id : ℕ)
    → lookup id m ≡ none
    → lookup id (drop_requests ids m).0 ≡ none
unfolding drop_requests
drop_requests-none [] m id h = h
drop_requests-none (j ∷ ids) m id h =
    ap (lookup id) (drop_requests-cons j ids m)
    ∙ drop_requests-none ids (remove j m) id (lookup-remove-none j id m h)

-- The request of a loading row among the rows has no placement left.
loading-cons_some :
    (id : ℕ) (e : Expansion) (ids : List ℕ) (m : List (ℕ × Placement))
    → e ≡ loading id
    → lookup id (drop_requests (cons_some (request_id e) ids) m).0 ≡ none
loading-cons_some id e ids m h =
    ap (λ x. lookup id (drop_requests (cons_some (request_id x) ids) m).0) h
    ∙ ap (lookup id) (drop_requests-cons id ids m)
    ∙ drop_requests-none ids (remove id m) id (lookup-remove-same id m)

drop_requests-cons_some :
    (o : Option ℕ) (ids : List ℕ) (id : ℕ)
    → ((m : List (ℕ × Placement)) → lookup id (drop_requests ids m).0 ≡ none)
    → (m : List (ℕ × Placement)) → lookup id (drop_requests (cons_some o ids) m).0 ≡ none
drop_requests-cons_some none ids id f m = f m
drop_requests-cons_some (some j) ids id f m =
    ap (lookup id) (drop_requests-cons j ids m) ∙ f (remove j m)

pub drop_requests-loading :
    (rows : List Row) (k id : ℕ) (m : List (ℕ × Placement))
    → expansion_at rows k ≡ loading id
    → lookup id (drop_requests (request_ids rows) m).0 ≡ none
unfolding request_ids
drop_requests-loading [] k id m h = absurd (ground arith)
drop_requests-loading (row ∷ rows) zero id m h =
    loading-cons_some id row.expansion (request_ids rows) m h
drop_requests-loading (row ∷ rows) (suc k) id m h =
    drop_requests-cons_some (request_id row.expansion) (request_ids rows) id
      (λ n. drop_requests-loading rows k id n h) m
