-- ===== src/Tui/Machine/Order.antt =====
-- The order of the pane of src/tui/app.rs, and what the first snapshot shows.
use file_peeker.Base.{
  ap, All-weaken, ◌∙◌, ℕ, ◌≡◌, refl, true, Option, none, List, [], ◌∷◌, ◌++◌, append_assoc,
  append-nil, if◌then◌else◌, arith, All, leb_ℤ, leb_ℤ-total, leb_ℤ-trans, Bool-cases, inl, inr,
}
use Prim.Native.String.{String}
use file_peeker.Wire.{TaskView, TaskUpdate, snapshot, is_terminal}
use file_peeker.Tui.Machine.{
  Machine, retain, expire, apply, sort_in, sort_by_submitted, take_snapshot, updated, stays, find,
}

-- In order of submission: a task was submitted no later than each one after it.
abbrev pub Sorted : List TaskView → Type 0
Sorted [] = Unit
Sorted (t ∷ ts) =
    All (λ (u : TaskView). leb_ℤ t.submitted_unix_millis u.submitted_unix_millis ≡ true) ts
    × Sorted ts

sort_in-All :
    (P : TaskView → Type 0) (t : TaskView) (ts : List TaskView)
    → P t
    → All P ts
    → All P (sort_in t ts)
unfolding sort_in
sort_in-All P t [] p h = (p, tt)
sort_in-All P t (u ∷ us) p (q, h) =
    elim (Bool-cases (leb_ℤ t.submitted_unix_millis u.submitted_unix_millis)) [
      | inl e ↦ rw (e) (p, (q, h))
      | inr e ↦ rw (e) (q, sort_in-All P t us p h)
    ]

sort_in-Sorted : (t : TaskView) (ts : List TaskView) → Sorted ts → Sorted (sort_in t ts)
unfolding sort_in
sort_in-Sorted t [] h = (tt, tt)
sort_in-Sorted t (u ∷ us) (a, h) =
    let at = t.submitted_unix_millis in
    elim (Bool-cases (leb_ℤ at u.submitted_unix_millis)) [
      | inl e ↦ rw (e) (
        (
          e,
          All-weaken _ _ us (λ v. leb_ℤ-trans at u.submitted_unix_millis v.submitted_unix_millis e)
              a,
        ),
        (a, h),
      )
      | inr e ↦
          rw (e)
            (sort_in-All _ t us (leb_ℤ-total at u.submitted_unix_millis e) a, sort_in-Sorted t us h)
    ]

sort_by_submitted-Sorted : (ts : List TaskView) → Sorted (sort_by_submitted ts)
unfolding sort_by_submitted
sort_by_submitted-Sorted [] = tt
sort_by_submitted-Sorted (t ∷ ts) =
    sort_in-Sorted t (sort_by_submitted ts) (sort_by_submitted-Sorted ts)

retain-All :
    (P : TaskView → Type 0) (settled : String → Option ℕ) (now : ℕ) (ts : List TaskView)
    → All P ts
    → All P (retain settled now ts)
unfolding retain
retain-All P settled now [] h = tt
retain-All P settled now (t ∷ ts) (p, h) = elim (Bool-cases (stays now (settled t.id))) [
  | inl e ↦ rw (e) (p, retain-All P settled now ts h)
  | inr e ↦ rw (e) (retain-All P settled now ts h)
]

retain-Sorted :
    (settled : String → Option ℕ) (now : ℕ) (ts : List TaskView)
    → Sorted ts
    → Sorted (retain settled now ts)
unfolding retain
retain-Sorted settled now [] h = tt
retain-Sorted settled now (t ∷ ts) (a, h) = elim (Bool-cases (stays now (settled t.id))) [
  | inl e ↦ rw (e) (retain-All _ settled now ts a, retain-Sorted settled now ts h)
  | inr e ↦ rw (e) (retain-Sorted settled now ts h)
]

-- After any update, the tasks shown are in order of submission.
pub apply-Sorted : (update : TaskUpdate) (now : ℕ) (m : Machine) → Sorted (apply update now m).tasks
unfolding apply expire
apply-Sorted update now m =
    let next = updated update now m in
    retain-Sorted next.settled_at now (sort_by_submitted next.tasks)
      (sort_by_submitted-Sorted next.tasks)

-- The tasks of a list that have not settled.
pub unsettled : List TaskView → List TaskView
unsettled [] = []
unsettled (t ∷ ts) = let rest = unsettled ts in if is_terminal t.status then rest else t ∷ rest

take_snapshot-unsettled :
    (m : Machine) (now : ℕ) (ts : List TaskView) (settled : String → Option ℕ)
    (shown : List TaskView)
    → ((id : String) → find id m.tasks ≡ none)
    → take_snapshot m now ts settled shown ≡ (settled, shown ++ unsettled ts)
unfolding take_snapshot unsettled
take_snapshot-unsettled m now [] settled shown h = rw (append-nil shown) refl
take_snapshot-unsettled m now (t ∷ ts) settled shown h = ground (
  arith,
  h t.id,
  take_snapshot-unsettled m now ts settled shown h,
  take_snapshot-unsettled m now ts settled (shown ++ t ∷ []) h,
  append_assoc shown (t ∷ []) (unsettled ts),
)

retain-none : (now : ℕ) (ts : List TaskView) → retain (λ id. none) now ts ≡ ts
unfolding retain
retain-none now [] = refl
retain-none now (t ∷ ts) = ap (λ rest. t ∷ rest) (retain-none now ts)

-- What a client that has shown nothing shows of a first snapshot: the tasks that have not settled, in order of submission.
pub apply-first_snapshot :
    (tasks : List TaskView) (now : ℕ) (m : Machine)
    → m.tasks ≡ []
    → (apply (snapshot tasks) now m).tasks ≡ sort_by_submitted (unsettled tasks)
unfolding apply expire updated take_snapshot
apply-first_snapshot tasks now m h =
    let e = take_snapshot-unsettled m now tasks (λ id. none) [] (λ id. ap (find id) h) in
    ap (λ (r : (String → Option ℕ) × List TaskView). retain r.0 now (sort_by_submitted r.1)) e
    ∙ retain-none now (sort_by_submitted (unsettled tasks))
