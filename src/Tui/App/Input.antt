-- ===== src/Tui/App/Input.antt =====
-- Sequences of input and connection events for the client of src/tui/app.rs.
use Prim.Native.String.{String}
use file_peeker.Base.{
  ℕ, zero, suc, ◌<◌, ◌≡◌, ◌≢◌, refl, Option, none, some, List, [], ◌∷◌, map, length, get_elem?,
  length-set, arith, Option-cases, inl, inr,
}
use mathlib.Core.Path.{subst}
use file_peeker.Tui.Machine.{Machine, ConnectionEvent, expire, on_event}
use file_peeker.Tui.App.{
  App, MenuOf, of_machine, of_global, Menu, KeyEvent, KeyCode, MouseEventKind, Spot, new, on_key,
  on_mouse, on_connection_at, expire_all, plain_key, select_next, select_previous, start_server,
  open_menu, Handled, select_previous, key_with, mouse_with, event_for, mouse_on_menu,
  mouse_on_spot, click,
}

-- What can happen to the client.
pub data Input : Type 0 where
  key : KeyEvent → Input
  mouse : MouseEventKind → Option Spot → (column row : ℕ) → Input
  connection : ℕ → ConnectionEvent → Input
  tick : Input

-- One event, at a time; `none` is a panic.
unfoldable pub handle : App → Input → ℕ → Handled
handle app (key event) now = on_key app event
handle app (mouse kind spot column row) now = on_mouse app kind spot column row
handle app (connection index event) now = some (on_connection_at app index event now, none)
handle app tick now = some (expire_all app now, none)

-- A run of events and their times.
unfoldable pub run : App → List (Input × ℕ) → Option App
unfolding handle
run app [] = some app
run app ((input, now) ∷ rest) = elim (handle app input now) [
  | none ↦ none
  | some (next, command) ↦ run next rest
]

-- The machine that a menu is of is there.
abbrev pub MenuIn : ℕ → Option Menu → Type 0
MenuIn n none = Unit
MenuIn n (some m) = elim m.of [ of_machine index ↦ index < n | of_global ↦ Unit ]

-- The selected machine and the open menu's machine are in the list.
abbrev pub AppInv : App → Type 0
AppInv app = (app.selected < length app.machines) × MenuIn (length app.machines) app.menu

-- A handler that does not panic, and keeps the invariant.
abbrev pub Safe : Handled → Type 0
Safe none = ⊥
Safe (some (app, command)) = AppInv app

get_elem?-below : {A : Type 0} (xs : List A) (i : ℕ) → i < length xs → get_elem? xs i ≢ none
get_elem?-below [] i h = absurd (omega arith)
get_elem?-below (x ∷ xs) zero h = ground arith
get_elem?-below (x ∷ xs) (suc i) h = get_elem?-below xs i (omega arith)

length-map : {A B : Type 0} (f : A → B) (xs : List A) → length (map f xs) ≡ length xs
length-map f [] = refl
length-map f (x ∷ xs) = omega (arith, length-map f xs)

select_next-Safe : (app : App) → AppInv app → Safe (select_next app)
unfolding select_next
select_next-Safe app h = ground arith

select_previous-Safe : (app : App) → AppInv app → Safe (select_previous app)
unfolding select_previous
select_previous-Safe app h = ground arith

start_server-Safe : (app : App) → AppInv app → Safe (start_server app)
unfolding start_server
start_server-Safe app h = ground (arith, get_elem?-below app.machines app.selected)

open_menu-Safe :
    (app : App) (of : MenuOf) (column row : ℕ) → AppInv app → Safe (open_menu app of column row)
unfolding open_menu
open_menu-Safe app of column row h = ground arith

plain_key-Safe : (app : App) (code : KeyCode) → AppInv app → Safe (plain_key app code)
unfolding plain_key
plain_key-Safe app code h =
    ground (arith, select_next-Safe app h, select_previous-Safe app h, start_server-Safe app h)

key_with-Safe :
    (app : App) (menu : Option Menu) (code : KeyCode) → AppInv app → Safe (key_with app menu code)
unfolding key_with
key_with-Safe app menu code h = ground (arith, plain_key-Safe app code h)

on_key-Safe : (app : App) (event : KeyEvent) → AppInv app → Safe (on_key app event)
unfolding on_key
on_key-Safe app event h = ground (arith, key_with-Safe app app.menu event.code h)

mouse_on_menu-Safe :
    (app : App) (shown : Menu) (kind : MouseEventKind) (spot : Option Spot) (column row : ℕ)
    → AppInv app
    → Safe (mouse_on_menu app shown kind spot column row)
unfolding mouse_on_menu
mouse_on_menu-Safe app shown kind spot column row h =
    ground
      (arith, λ (of : MenuOf). open_menu-Safe (record app { menu = none }) of column row (h.0, tt))

click-Safe :
    (app : App) (spot : Spot) (column row : ℕ) → AppInv app → Safe (click app spot column row)
unfolding click
click-Safe app spot column row h =
    ground (arith, λ (of : MenuOf). open_menu-Safe app of column row h, start_server-Safe app h)

mouse_on_spot-Safe :
    (app : App) (kind : MouseEventKind) (spot : Spot) (column row : ℕ)
    → AppInv app
    → Safe (mouse_on_spot app kind spot column row)
unfolding mouse_on_spot
mouse_on_spot-Safe app kind spot column row h =
    ground
      (arith, click-Safe app spot column row h, select_next-Safe app h, select_previous-Safe app h)

mouse_with-Safe :
    (app : App) (menu : Option Menu) (kind : MouseEventKind) (spot : Option Spot) (column row : ℕ)
    → AppInv app
    → Safe (mouse_with app menu kind spot column row)
unfolding mouse_with
mouse_with-Safe app (some shown) kind spot column row h =
    mouse_on_menu-Safe app shown kind spot column row h
mouse_with-Safe app none kind none column row h = h
mouse_with-Safe app none kind (some spot) column row h =
    mouse_on_spot-Safe app kind spot column row h

event_for-AppInv :
    (app : App) (index : ℕ) (event : ConnectionEvent) (now : ℕ) (m : Option Machine)
    → AppInv app
    → AppInv (event_for app index event now m)
unfolding event_for
event_for-AppInv app index event now none h = h
event_for-AppInv app index event now (some m) h =
    rw (length-set app.machines index (on_event event now m)) h

handle-Safe : (app : App) (input : Input) (now : ℕ) → AppInv app → Safe (handle app input now)
unfolding handle on_connection_at expire_all on_mouse
handle-Safe app (key event) now h = on_key-Safe app event h
handle-Safe app (mouse kind spot column row) now h =
    mouse_with-Safe app app.menu kind spot column row h
handle-Safe app (connection index event) now h =
    event_for-AppInv app index event now (get_elem? app.machines index) h
handle-Safe app tick now h = rw (length-map (expire now) app.machines) h

run-AppInv :
    (app : App) (inputs : List (Input × ℕ))
    → AppInv app
    → (last : App) × (run app inputs ≡ some last) × AppInv last
unfolding run
run-AppInv app [] h = (app, refl, h)
run-AppInv app ((input, now) ∷ rest) h = elim (Option-cases (handle app input now)) [
  | inl e ↦ absurd (subst Safe e (handle-Safe app input now h))
  | inr ((next, command), e) ↦
      rw (e, run) (run-AppInv next rest (subst Safe e (handle-Safe app input now h)))
]

-- No sequence of keys, mouse events, connection events and ticks makes the client panic, and after it the selected machine and the
-- open menu's machine are in the list.
pub run_never_panics :
    (remotes : List (String × String)) (inputs : List (Input × ℕ))
    → (last : App) × (run (new remotes) inputs ≡ some last) × AppInv last
unfolding new
run_never_panics remotes inputs = run-AppInv (new remotes) inputs (omega arith, tt)
