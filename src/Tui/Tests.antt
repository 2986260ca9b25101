-- ===== src/Tui/Tests.antt =====
-- The client of src/tui/app.rs at concrete inputs.
use Prim.Native.String.{String}
use file_peeker.Base.{
  ℕ, ◌≡◌, ◌↔◌, Option, refl, true, false, none, some, List, [], ◌∷◌, arith, pos, get_elem?,
}
use file_peeker.Base.{false, ◌≤◌, ◌*◌, Result, ok, err}
use file_peeker.Client.{Probe, probed, needs_login, client_protocol_version}
use file_peeker.Tui.Connection.{
  Round, Watching, local as here, remote, slept, start_server, commands_ended, delay,
  default_backoff, run as run_connection, attach, attach_probed,
}
use file_peeker.Tui.Connection.Backoffs.{delay-bounds}
use file_peeker.Tui.Connection.Runs.{servers_started, times_asked, starts_on_command, attach-ok}
use file_peeker.Task.{indeterminate}
use file_peeker.Wire.{
  TaskView, TaskUpdate, TaskStatus, status_running, status_succeeded, snapshot, changed,
}
use file_peeker.Tui.Machine.{
  Machine, is_attaching, is_disconnected, disconnected, apply, expire, sort_by_submitted,
}
use file_peeker.Tui.Machine.Expiry.{expire-expire}
use file_peeker.Tui.Machine.Order.{Sorted, unsettled, apply-Sorted, apply-first_snapshot}
use file_peeker.Tui.App.{
  App, new, KeyEvent, char_key, press, left_button, menu_button, of_machine, on_key,
}
use file_peeker.Tui.App.Input.{
  Input, key, mouse, connection, tick, handle, run, AppInv, run_never_panics,
}
use file_peeker.Tui.App.Commands.{QuitsByControl, Leaves, on_key-menu, handle-start_server}

abbrev task_at : String → TaskStatus → ℕ → TaskView
task_at id status n = record {
  id = id;
  parent = none;
  kind = "copy";
  subject = [];
  status = status;
  phase = none;
  measure = indeterminate;
  submitted_unix_millis = pos n;
}

abbrev shown : List TaskView
shown =
    task_at "b" status_running 9
    ∷ task_at "a" status_succeeded 4
    ∷ task_at "c" status_running 2
    ∷ []

abbrev local : Machine
local = record {
  label = "local";
  ssh = none;
  state = is_attaching;
  tasks = [];
  settled_at = λ id. none;
}

abbrev busy : Machine
busy = record local { tasks = shown; settled_at = λ id. some 1000 }

abbrev settles_again : TaskUpdate
settles_again = changed (task_at "a" status_succeeded 4)

apply-Sorted_example : Sorted (apply (changed (task_at "d" status_running 3)) 2000 busy).tasks
apply-Sorted_example = apply-Sorted (changed (task_at "d" status_running 3)) 2000 busy

apply-first_snapshot_example :
    (apply (snapshot shown) 2000 local).tasks ≡ sort_by_submitted (unsettled shown)
apply-first_snapshot_example = apply-first_snapshot shown 2000 local refl

expire-expire_example : (expire 7000 (expire 5500 busy)).tasks ≡ (expire 7000 busy).tasks
expire-expire_example = expire-expire 5500 7000 busy (omega arith)

abbrev remotes : List (String × String)
remotes = ("desk", "me@desk") ∷ []

abbrev pressed : ℕ → KeyEvent
pressed c = record { is_press = true; code = char_key c; control = false }

abbrev inputs : List (Input × ℕ)
inputs =
    (mouse (press left_button) (some (menu_button (of_machine 7))) 3 4, 10)
    ∷ (key (pressed b'q'), 20)
    ∷ (key (pressed b'j'), 30)
    ∷ (connection 5 (disconnected 90 none), 40)
    ∷ (tick, 50)
    ∷ []

run_never_panics_example : (last : App) × (run (new remotes) inputs ≡ some last) × AppInv last
run_never_panics_example = run_never_panics remotes inputs

abbrev with_menu : App
with_menu = record {
  machines = local ∷ [];
  selected = 0;
  menu = some (record { of = of_machine 0; column = 3; row = 4 });
  quit = false;
}

on_key-menu_example :
    (next : App) × (on_key with_menu (pressed b's') ≡ some (next, none))
    × (next.machines ≡ with_menu.machines)
    × (next.selected ≡ with_menu.selected)
    × ((next.quit ≡ true) ↔ QuitsByControl (pressed b's'))
    × ((next.menu ≡ none) ↔ Leaves (pressed b's'))
on_key-menu_example =
    on_key-menu with_menu (record { of = of_machine 0; column = 3; row = 4 }) (pressed b's') refl
      refl

abbrev stopped : App
stopped = record {
  machines = record local { state = is_disconnected 90 none } ∷ [];
  selected = 0;
  menu = none;
  quit = false;
}

handle-start_server_example :
    (stopped ≡ stopped)
    × (stopped.menu ≡ none)
    × (m : Machine) × (get_elem? stopped.machines stopped.selected ≡ some m)
    × (retry_at : ℕ) × (reason : Option String) × (m.state ≡ is_disconnected retry_at reason)
unfolding handle on_key
handle-start_server_example = handle-start_server stopped (key (pressed b's')) 50 stopped refl

abbrev server : Watching
server = record { server_version = "0.1.0"; pid = 42; updates = [] }

abbrev ready : Probe
ready = record {
  installed = true;
  version = "0.1.0";
  client_protocol = 3;
  build = "release";
  source_hash = none;
  server_running = true;
}

delay-bounds_example :
    (delay default_backoff 6 ≤ 120000)
    × (delay default_backoff 6 ≤ delay default_backoff 7)
    × (delay default_backoff 7 ≤ 2 * delay default_backoff 6)
delay-bounds_example = delay-bounds default_backoff 6

abbrev rounds : List Round
rounds =
    record { attempt = here (err "no socket"); ui_closes = false; now = 10; wait = start_server }
    ∷ record {
      attempt = remote (probed ready) (ok tt) (ok server);
      ui_closes = false;
      now = 20;
      wait = slept;
    }
    ∷ record {
      attempt = remote (needs_login "password") (ok tt) (ok server);
      ui_closes = false;
      now = 30;
      wait = commands_ended;
    }
    ∷ []

starts_on_command_example :
    servers_started (run_connection default_backoff 0 rounds 9) ≤ times_asked rounds
starts_on_command_example = starts_on_command default_backoff 0 rounds 9

attach-ok_example :
    (probe : Probe) × (probed ready ≡ probed probe)
    × (probe.installed ≡ true)
    × (probe.client_protocol ≡ client_protocol_version)
    × (probe.server_running ≡ true)
    × (◌≡◌ {A = Result String Watching} (ok server) (ok server))
unfolding attach attach_probed
attach-ok_example = attach-ok (probed ready) (ok tt) (ok server) server refl
