-- ===== src/Tui/Machine/Expiry.antt =====
-- What the pane of src/tui/app.rs drops, and when.
use Prim.Native.String.{String}
use file_peeker.Base.{
  All-weaken, ◌∙◌, ℕ, ◌≤◌, ◌<◌, ◌+◌, ◌≡◌, ◌≢◌, refl, true, Option, none, some, List, [], ◌∷◌, arith,
  All,
}
use text.Mathlib.TextPositions.{eq_refl}
use text.Mathlib.Text.{◌==◌ as str_eq}
use file_peeker.Wire.{TaskView}
use file_peeker.Tui.Machine.{Machine, stays, retain, expire, any_task}

-- Not seen settled, or for less than five seconds.
abbrev pub IsRecent : ℕ → Option ℕ → Type 0
IsRecent now none = Unit {0}
IsRecent now (some time) = now < time + 5000

-- Nothing shown has lingered its while, and each time is that of a task shown.
abbrev pub Fresh : ℕ → Machine → Type 0
Fresh now m =
    All (λ (t : TaskView). IsRecent now (m.settled_at t.id)) m.tasks
    × ((id : String) → m.settled_at id ≢ none → any_task id m.tasks ≡ true)

-- The time of a task shown is kept.
any_task-All : (ts : List TaskView) → All (λ (t : TaskView). any_task t.id ts ≡ true) ts
any_task-All [] = tt
any_task-All (t ∷ ts) = (
  ground (arith, eq_refl t.id),
  All-weaken _ _ ts (λ (u : TaskView) (h : any_task u.id ts ≡ true). ground arith)
      (any_task-All ts),
)

-- Seen settled five seconds ago or earlier.
abbrev pub IsOld : ℕ → Option ℕ → Type 0
IsOld now none = ⊥
IsOld now (some time) = time + 5000 ≤ now

stays_earlier :
    (now later : ℕ) (time : Option ℕ)
    → now ≤ later
    → stays later time ≡ true
    → stays now time ≡ true
stays_earlier now later time h e = ground arith

-- Times that agree on the tasks of a list retain the same of it.
retain-agrees :
    (f g : String → Option ℕ) (now : ℕ) (ts : List TaskView)
    → All (λ (t : TaskView). f t.id ≡ g t.id) ts
    → retain f now ts ≡ retain g now ts
unfolding retain
retain-agrees f g now [] h = refl
retain-agrees f g now (t ∷ ts) (p, h) = rw (p, retain-agrees f g now ts h) refl

retain-retain :
    (f : String → Option ℕ) (now later : ℕ) (ts : List TaskView)
    → now ≤ later
    → retain f later (retain f now ts) ≡ retain f later ts
unfolding retain
retain-retain f now later [] h = refl
retain-retain f now later (t ∷ ts) h =
    ground (arith, retain-retain f now later ts h, stays_earlier now later (f t.id) h)

-- A tick in between changes nothing of what a later tick leaves on screen.
pub expire-expire :
    (now later : ℕ) (m : Machine)
    → now ≤ later
    → (expire later (expire now m)).tasks ≡ (expire later m).tasks
unfolding expire
expire-expire now later m h =
    let kept = retain m.settled_at now m.tasks in
    retain-agrees (expire now m).settled_at m.settled_at later kept (
      All-weaken _ _ kept (λ (t : TaskView) (e : any_task t.id kept ≡ true). simp e)
        (any_task-All kept))
    ∙ retain-retain m.settled_at now later m.tasks h
