-- ===== src/Tui/App/Commands.antt =====
-- Menus, keys and commands of src/tui/app.rs.
use Prim.Native.String.{String}
use file_peeker.Base.{
  ◌⊎◌, ◌↔◌, true, ℕ, ◌≡◌, ◌≢◌, ap, false, Option, none, some, get_elem?, arith, Option-cases, inl,
  inr, Bool-cases, not, if◌then◌else◌,
}
use file_peeker.Tui.Machine.{Machine, is_disconnected}
use file_peeker.Tui.App.{
  App, Menu, KeyEvent, KeyCode, MouseEventKind, Spot, start_server_command, on_key, on_mouse,
  plain_key, select_next, select_previous, start_server, open_menu, Handled, is_interrupt,
  select_previous, key_with, mouse_with, mouse_on_menu, mouse_on_spot, click, command_of, close_on,
  closes, char_key, esc_key,
}
use file_peeker.Tui.App.Input.{Input, key, mouse, connection, tick, handle}

-- Ctrl-C.
abbrev pub QuitsByControl : KeyEvent → Type 0
QuitsByControl event = (event.is_press ≡ true) × (event.control ≡ true) × (event.code ≡ char_key 99)

-- Esc or `q`.
abbrev pub Leaves : KeyEvent → Type 0
Leaves event = (event.is_press ≡ true) × ((event.code ≡ esc_key) ⊎ (event.code ≡ char_key 113))

is_interrupt_iff :
    (event : KeyEvent)
    → (is_interrupt event ≡ true) ↔ ((event.control ≡ true) × (event.code ≡ char_key 99))
is_interrupt_iff event = (λ h. ground arith, λ h. ground arith)

closes_iff : (code : KeyCode) → (closes code ≡ true) ↔ ((code ≡ esc_key) ⊎ (code ≡ char_key 113))
closes_iff code = (λ h. ground arith, λ h. ground arith)

menu_on_key :
    (app : App) (shown : Menu) (event : KeyEvent)
    → app.menu ≡ some shown
    → (next : App) × (on_key app event ≡ some (next, none))
      × (next ≡ (
          if not event.is_press
          then app
          else if is_interrupt event
          then record app { quit = true }
          else close_on app event.code))
unfolding on_key
menu_on_key app shown event m = elim (Bool-cases event.is_press) [
  | inr p ↦ (app, simp p, simp p)
  | inl p ↦ elim (Bool-cases (is_interrupt event)) [
    | inl i ↦ (record app { quit = true }, simp (p, i), simp (p, i))
    | inr i ↦ (
      close_on app event.code,
      simp (p, i, ap (λ menu. key_with app menu event.code) m),
      simp (p, i),
    )
  ]
]

-- With a menu open and no wish to quit yet, a key asks for no command and leaves the machines and the selection as
-- they are; the client is to quit exactly when Ctrl-C is pressed, and the menu is gone exactly when Esc or `q`
-- is pressed.
pub on_key-menu :
    (app : App) (shown : Menu) (event : KeyEvent)
    → app.menu ≡ some shown
    → app.quit ≡ false
    → (next : App) × (on_key app event ≡ some (next, none))
      × (next.machines ≡ app.machines)
      × (next.selected ≡ app.selected)
      × ((next.quit ≡ true) ↔ QuitsByControl event)
      × ((next.menu ≡ none) ↔ Leaves event)
unfolding on_key
on_key-menu app shown event m q =
    let (next, e, n) = menu_on_key app shown event m in
    let i = is_interrupt_iff event in
    let c = closes_iff event.code in
    (
      next,
      e,
      ground (arith, n),
      ground (arith, n),
      (λ h. ground (arith, n, i), λ h. ground (arith, n, i)),
      (λ h. ground (arith, n, i, c), λ h. ground (arith, n, i, c)),
    )

-- Where a command comes from.
abbrev Asks : App → Handled → App → Type 0
Asks app handled next =
    handled ≡ some (next, some start_server_command)
    → (next ≡ app) × (start_server app ≡ some (app, some start_server_command))

start_server-Asks : (app next : App) → Asks app (start_server app) next
unfolding start_server
start_server-Asks app next e = ground arith

plain_key-Asks : (app : App) (code : KeyCode) (next : App) → Asks app (plain_key app code) next
unfolding plain_key select_next select_previous
plain_key-Asks app code next e = ground (arith, start_server-Asks app next)

mouse_on_spot-Asks :
    (app : App) (kind : MouseEventKind) (spot : Spot) (column row : ℕ) (next : App)
    → Asks app (mouse_on_spot app kind spot column row) next
unfolding mouse_on_spot click select_next select_previous open_menu
mouse_on_spot-Asks app kind spot column row next e = ground (arith, start_server-Asks app next)

mouse_on_menu-quiet :
    (app : App) (shown : Menu) (kind : MouseEventKind) (spot : Option Spot) (column row : ℕ)
    (next : App)
    → mouse_on_menu app shown kind spot column row ≢ some (next, some start_server_command)
unfolding mouse_on_menu open_menu
mouse_on_menu-quiet app shown kind spot column row next e = ground arith

-- Where a command comes from, with the menu that was open.
abbrev Asked : App → Option Menu → App → Type 0
Asked app menu next =
    (next ≡ app) × (menu ≡ none) × (start_server app ≡ some (app, some start_server_command))

key_with-Asked :
    (app : App) (menu : Option Menu) (code : KeyCode) (next : App)
    → key_with app menu code ≡ some (next, some start_server_command)
    → Asked app menu next
unfolding key_with
key_with-Asked app menu code next e = ground (arith, plain_key-Asks app code next)

on_key-Asked :
    (app : App) (event : KeyEvent) (next : App)
    → on_key app event ≡ some (next, some start_server_command)
    → Asked app app.menu next
unfolding on_key
on_key-Asked app event next e = ground (arith, key_with-Asked app app.menu event.code next)

mouse_with-Asked :
    (app : App) (menu : Option Menu) (kind : MouseEventKind) (spot : Option Spot) (column row : ℕ)
    (next : App)
    → mouse_with app menu kind spot column row ≡ some (next, some start_server_command)
    → Asked app menu next
unfolding mouse_with
mouse_with-Asked app (some shown) kind spot column row next e =
    absurd (mouse_on_menu-quiet app shown kind spot column row next e)
mouse_with-Asked app none kind none column row next e = absurd (ground arith)
mouse_with-Asked app none kind (some spot) column row next e =
    ground (arith, mouse_on_spot-Asks app kind spot column row next)

abbrev Stopped : App → Type 0
Stopped app =
    (m : Machine) × (get_elem? app.machines app.selected ≡ some m)
    × (retry_at : ℕ) × (reason : Option String) × (m.state ≡ is_disconnected retry_at reason)

command_of-some :
    (m : Machine)
    → command_of m ≡ some start_server_command
    → (retry_at : ℕ) × (reason : Option String) × (m.state ≡ is_disconnected retry_at reason)
command_of-some m h = ground arith

start_server-Stopped :
    (app : App) → start_server app ≡ some (app, some start_server_command) → Stopped app
unfolding start_server
start_server-Stopped app e = elim (Option-cases (get_elem? app.machines app.selected)) [
  | inl n ↦ absurd (ground arith)
  | inr (m, n) ↦
      let (retry_at, reason, at) = command_of-some m (ground arith) in (m, n, retry_at, reason, at)
]

from_a_stop :
    (app next : App)
    → Asked app app.menu next
    → (next ≡ app)
      × (app.menu ≡ none)
      × (m : Machine) × (get_elem? app.machines app.selected ≡ some m)
      × (retry_at : ℕ) × (reason : Option String) × (m.state ≡ is_disconnected retry_at reason)
from_a_stop app next a = let s = start_server-Stopped app a.2 in (a.0, a.1, s.0, s.1, s.2, s.3, s.4)

-- What asks for a server to start is a key or a mouse event with no menu open and a disconnected machine
-- selected, and it changes nothing.
pub handle-start_server :
    (app : App) (input : Input) (now : ℕ) (next : App)
    → handle app input now ≡ some (next, some start_server_command)
    → (next ≡ app)
      × (app.menu ≡ none)
      × (m : Machine) × (get_elem? app.machines app.selected ≡ some m)
      × (retry_at : ℕ) × (reason : Option String) × (m.state ≡ is_disconnected retry_at reason)
unfolding handle on_mouse
handle-start_server app (key event) now next e =
    from_a_stop app next (on_key-Asked app event next e)
handle-start_server app (mouse kind spot column row) now next e =
    from_a_stop app next (mouse_with-Asked app app.menu kind spot column row next e)
handle-start_server app (connection index event) now next e = absurd (ground arith)
handle-start_server app tick now next e = absurd (ground arith)
