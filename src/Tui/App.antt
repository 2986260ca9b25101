-- ===== src/Tui/App.antt =====
-- The whole terminal client: `App` in src/tui/app.rs, its keys, its mouse and its selection. Where the
-- code would panic, on an index out of range or on `len() - 1` of no machines, the result is `none`.
pub mod Input
pub mod Commands
use Prim.Native.String.{String}
use file_peeker.Base.{
  ℕ, zero, suc, ◌+◌, ◌-◌, min, Bool, true, false, ◌&&◌, not, Option, none, some, List, [], ◌∷◌, map,
  if◌then◌else◌, ◌==◌, length, get_elem?, set,
}
use file_peeker.Tui.Machine.{
  Machine, is_disconnected, is_attaching, ConnectionEvent, on_event, expire,
}

pub data Command : Type 0 where
  start_server_command : Command

pub data MenuOf : Type 0 where
  of_machine : ℕ → MenuOf
  of_global : MenuOf

pub data Hint : Type 0 where
  detach start_server_hint : Hint

pub data Spot : Type 0 where
  on_machine : ℕ → Spot
  menu_button : MenuOf → Spot
  on_machines : Spot
  on_hint : Hint → Spot
  on_menu : Spot

pub record Menu : Type 0 where
  pub of : MenuOf
  pub column : ℕ
  pub row : ℕ

pub record App : Type 0 where
  pub machines : List Machine
  pub selected : ℕ
  pub menu : Option Menu
  pub quit : Bool

-- The parts of crossterm's events that the code reads: a character is its code point.
pub data KeyCode : Type 0 where
  char_key : ℕ → KeyCode
  down_key up_key esc_key other_key : KeyCode

pub record KeyEvent : Type 0 where
  pub is_press : Bool
  pub code : KeyCode
  pub control : Bool

pub data MouseButton : Type 0 where
  left_button right_button middle_button : MouseButton

pub data MouseEventKind : Type 0 where
  press : MouseButton → MouseEventKind
  scroll_down scroll_up other_mouse : MouseEventKind

abbrev new_machine : String × Option String → Machine
new_machine (label, ssh) = record {
  label = label;
  ssh = ssh;
  state = is_attaching;
  tasks = [];
  settled_at = λ id. none;
}

abbrev remote : String × String → Machine
remote (label, ssh) = new_machine (label, some ssh)

unfoldable pub new : List (String × String) → App
new remotes = record {
  machines = new_machine ("local", none) ∷ map remote remotes;
  selected = 0;
  menu = none;
  quit = false;
}

-- What a handler leaves, and the command that it asks for.
abbrev pub Handled : Type 0
Handled = Option (App × Option Command)

abbrev quiet : App → Handled
quiet app = some (app, none)

-- `index.min(self.machines.len() - 1)`.
abbrev pub clamped : App → ℕ → Option ℕ
clamped app index =
    if length app.machines == 0 then none else some (min index (length app.machines - 1))

abbrev select : App → Option ℕ → Handled
select app none = none
select app (some index) = quiet (record app { selected = index })

unfoldable pub select_next : App → Handled
select_next app = select app (clamped app (app.selected + 1))

unfoldable pub select_previous : App → Handled
select_previous app = quiet (record app { selected = app.selected - 1 })

abbrev pub selected_machine : App → Option Machine
selected_machine app = get_elem? app.machines app.selected

abbrev pub command_of : Machine → Option Command
command_of m = elim m.state [ is_disconnected t r ↦ some start_server_command | _ ↦ none ]

unfoldable pub start_server : App → Handled
start_server app = elim (selected_machine app) [ none ↦ none | some m ↦ some (app, command_of m) ]

abbrev open_machine : App → Option ℕ → ℕ → ℕ → Handled
open_machine app none column row = none
open_machine app (some index) column row = quiet (record app {
  selected = index;
  menu = some (record { of = of_machine index; column = column; row = row });
})

unfoldable pub open_menu : App → MenuOf → ℕ → ℕ → Handled
open_menu app (of_machine index) column row = open_machine app (clamped app index) column row
open_menu app of_global column row =
    quiet (record app { menu = some (record { of = of_global; column = column; row = row }) })

-- `'c'` with CONTROL.
abbrev pub is_interrupt : KeyEvent → Bool
is_interrupt key = key.control && (elim key.code [ char_key c ↦ c == 99 | _ ↦ false ])

-- Esc and `'q'` close a menu.
abbrev pub closes : KeyCode → Bool
closes esc_key = true
closes (char_key c) = c == 113
closes _ = false

-- A key with no menu open: `q`, `j` or Down, `k` or Up, `s`.
unfoldable pub plain_key : App → KeyCode → Handled
unfolding select_next select_previous start_server
plain_key app down_key = select_next app
plain_key app up_key = select_previous app
plain_key app (char_key c) =
    if c == 113
    then quiet (record app { quit = true })
    else if c == 106
    then select_next app
    else if c == 107
    then select_previous app
    else if c == 115
    then start_server app
    else quiet app
plain_key app _ = quiet app

abbrev pub close_on : App → KeyCode → App
close_on app code = if closes code then record app { menu = none } else app

-- An open menu has the keyboard.
unfoldable pub key_with : App → Option Menu → KeyCode → Handled
unfolding plain_key
key_with app (some shown) code = quiet (close_on app code)
key_with app none code = plain_key app code

unfoldable pub on_key : App → KeyEvent → Handled
unfolding key_with
on_key app key =
    if not key.is_press
    then quiet app
    else if is_interrupt key
    then quiet (record app { quit = true })
    else key_with app app.menu key.code

abbrev pub same_menu : MenuOf → MenuOf → Bool
same_menu (of_machine i) (of_machine j) = i == j
same_menu of_global of_global = true
same_menu _ _ = false

-- An event with a menu open.
unfoldable pub mouse_on_menu : App → Menu → MouseEventKind → Option Spot → ℕ → ℕ → Handled
unfolding open_menu
mouse_on_menu app shown (press button) (some on_menu) column row = quiet app
mouse_on_menu app shown (press left_button) (some (menu_button of)) column row =
    let closed = record app { menu = none } in
    if same_menu of shown.of then quiet closed else open_menu closed of column row
mouse_on_menu app shown (press button) spot column row = quiet (record app { menu = none })
mouse_on_menu app shown kind spot column row = quiet app

unfoldable pub click : App → Spot → ℕ → ℕ → Handled
unfolding open_menu start_server
click app (menu_button of) column row = open_menu app of column row
click app (on_machine index) column row = select app (clamped app index)
click app (on_hint detach) column row = quiet (record app { quit = true })
click app (on_hint start_server_hint) column row = start_server app
click app _ column row = quiet app

abbrev over_list : Spot → Bool
over_list (on_machine index) = true
over_list (menu_button of) = true
over_list on_machines = true
over_list _ = false

unfoldable pub mouse_on_spot : App → MouseEventKind → Spot → ℕ → ℕ → Handled
unfolding select_next select_previous click
mouse_on_spot app (press left_button) spot column row = click app spot column row
mouse_on_spot app scroll_down spot column row =
    if over_list spot then select_next app else quiet app
mouse_on_spot app scroll_up spot column row =
    if over_list spot then select_previous app else quiet app
mouse_on_spot app kind spot column row = quiet app

-- With no menu open and nothing under the mouse, nothing happens: `spot?`.
unfoldable pub mouse_with : App → Option Menu → MouseEventKind → Option Spot → ℕ → ℕ → Handled
unfolding mouse_on_menu mouse_on_spot
mouse_with app (some shown) kind spot column row = mouse_on_menu app shown kind spot column row
mouse_with app none kind none column row = quiet app
mouse_with app none kind (some spot) column row = mouse_on_spot app kind spot column row

unfoldable pub on_mouse : App → MouseEventKind → Option Spot → ℕ → ℕ → Handled
unfolding mouse_with
on_mouse app kind spot column row = mouse_with app app.menu kind spot column row

unfoldable pub event_for : App → ℕ → ConnectionEvent → ℕ → Option Machine → App
unfolding on_event
event_for app index event now none = app
event_for app index event now (some m) = record app {
  machines = set app.machines index (on_event event now m);
}

unfoldable pub on_connection_at : App → ℕ → ConnectionEvent → ℕ → App
unfolding event_for
on_connection_at app index event now = event_for app index event now (get_elem? app.machines index)

unfoldable pub expire_all : App → ℕ → App
unfolding expire
expire_all app now = record app { machines = map (expire now) app.machines }
