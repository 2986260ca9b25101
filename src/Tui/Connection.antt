-- ===== src/Tui/Connection.antt =====
-- One machine's connection in the terminal client, src/tui/connection.rs. Times and durations are milliseconds, as
-- Machine has them. The probe, the channel, the `Watch` stream, the clock and the user are the environment: one
-- `Round` says what they do in one turn of the loop.
pub mod Backoffs
pub mod Runs
use Prim.Native.String.{String}
use file_peeker.Base.{
  ℕ, zero, suc, ◌+◌, ◌-◌, ◌*◌, ◌^◌, ◌%◌, min, Bool, true, false, not, Option, none, some, List, [],
  ◌∷◌, ◌++◌, if◌then◌else◌, ltb, ◌==◌, Result, ok, err,
}
use file_peeker.Wire.{TaskUpdate}
use file_peeker.Client.{
  Probe, Reach, probed, needs_login, unreachable, describe, client_protocol_version,
}
use file_peeker.Tui.Machine.{
  Attention, not_installed, incompatible, ConnectionEvent, attaching, starting, attached,
  disconnected, needs_attention, tasks_event,
}
use file_peeker.Tui.Machine

pub record Backoff : Type 0 where
  pub base : ℕ
  pub max_delay : ℕ

abbrev pub default_backoff : Backoff
default_backoff = record { base = 1000; max_delay = 120000 }

-- `Duration::MAX` and `u32::MAX`.
abbrev pub longest : ℕ
longest = 2 ^ 64 * 1000 - 1

abbrev pub max_u32 : ℕ
max_u32 = 2 ^ 32 - 1

-- `1u32.checked_shl(attempt).unwrap_or(u32::MAX)`.
unfoldable pub factor : ℕ → ℕ
factor attempt = if ltb attempt 32 then 2 ^ attempt else max_u32

unfoldable pub delay : Backoff → ℕ → ℕ
unfolding factor
delay b attempt = min (min (b.base * factor attempt) longest) b.max_delay

pub data Lost : Type 0 where
  retry : (reason : Option String) → Lost
  attention : Attention → Lost

-- The server that answers, and what it says until its stream ends.
pub record Watching : Type 0 where
  pub server_version : String
  pub pid : ℕ
  pub updates : List TaskUpdate

-- What an attempt meets on the way to a server: of this machine, or of another one.
pub data Attempt : Type 0 where
  local : Result String Watching → Attempt
  remote : Reach → (channel : Result String (Unit {0})) → (watch : Result String Watching) → Attempt

abbrev pub or_retry : Result String Watching → Result Lost Watching
or_retry (ok watching) = ok watching
or_retry (err error) = err (retry (some error))

abbrev pub or_gone : Result String Watching → Result Lost Watching
or_gone (ok watching) = ok watching
or_gone (err error) = err (retry none)

abbrev pub over : Result String (Unit {0}) → Result String Watching → Result Lost Watching
over (err error) watch = err (retry (some error))
over (ok u) watch = or_retry watch

unfoldable pub attach_probed :
    Probe → Result String (Unit {0}) → Result String Watching → Result Lost Watching
unfolding describe
attach_probed probe channel watch =
    if not probe.installed
    then err (attention not_installed)
    else if not (probe.client_protocol == client_protocol_version)
    then err (attention (incompatible (describe probe)))
    else if not probe.server_running
    then err (retry (some "its server is not running"))
    else over channel watch

unfoldable pub attach : Attempt → Result Lost Watching
unfolding attach_probed
attach (local watch) = or_gone watch
attach (remote (needs_login why) channel watch) = err (attention Machine.needs_login)
attach (remote (unreachable why) channel watch) = err (retry (some why))
attach (remote (probed probe) channel watch) = attach_probed probe channel watch

-- How the wait before the next attempt ends.
pub data Wait : Type 0 where
  slept : Wait
  start_server : Wait
  commands_ended : Wait
  events_closed : Wait

-- What ends the `Watch` loop: the stream, or the UI.
pub record Round : Type 0 where
  pub attempt : Attempt
  pub ui_closes : Bool
  pub now : ℕ
  pub wait : Wait

-- What the connection does: an event that it sends, or a server that it starts.
pub data Effect : Type 0 where
  sends : ConnectionEvent → Effect
  starts : Effect

-- `events.send`: the UI receives so many events more, and the connection ends when it cannot send one.
abbrev pub send : ConnectionEvent → (ℕ → List Effect) → ℕ → List Effect
send event next zero = []
send event next (suc received) = sends event ∷ next received

abbrev pub send_all : List TaskUpdate → (ℕ → List Effect) → ℕ → List Effect
send_all [] next received = next received
send_all (update ∷ updates) next received =
    send (tasks_event update) (send_all updates next) received

abbrev pub lost_event : Lost → ℕ → ConnectionEvent
lost_event (retry reason) retry_at = disconnected retry_at reason
lost_event (attention a) retry_at = needs_attention a retry_at

-- `saturating_add(1)` of a `u32`.
abbrev pub next_attempt : ℕ → ℕ
next_attempt attempt = min (suc attempt) max_u32

-- How the wait ends, and what follows it under a count of attempts and of events still to be received.
unfoldable pub after : ℕ → Wait → (ℕ → ℕ → List Effect) → ℕ → List Effect
after attempts slept next received = next attempts received
after attempts start_server next received = send starting (λ left. starts ∷ next 0 left) received
after attempts commands_ended next received = []
after attempts events_closed next received = []

unfoldable pub wait_lost : Backoff → ℕ → Round → Lost → (ℕ → ℕ → List Effect) → ℕ → List Effect
unfolding delay after
wait_lost b attempts round lost next received =
    send (lost_event lost (round.now + delay b attempts))
      (after (next_attempt attempts) round.wait next) received

-- The `Watch` loop has ended, with the stream or with the UI.
abbrev pub watched : Bool → (ℕ → List Effect) → ℕ → List Effect
watched true next received = []
watched false next received = next received

unfoldable pub turn :
    Backoff → ℕ → Round → Result Lost Watching → (ℕ → ℕ → List Effect) → ℕ → List Effect
unfolding wait_lost
turn b attempts round (err lost) next received = wait_lost b attempts round lost next received
turn b attempts round (ok watching) next received =
    send (attached watching.server_version watching.pid)
      (send_all watching.updates (watched round.ui_closes (wait_lost b 0 round (retry none) next)))
      received

-- The loop, with so many attempts behind it since it was last attached; it ends when the UI goes away, or with the
-- rounds. The UI receives so many events in all.
unfoldable pub run : Backoff → ℕ → List Round → ℕ → List Effect
unfolding turn attach
run b attempts [] received = []
run b attempts (round ∷ rounds) received =
    send attaching
      (turn b attempts round (attach round.attempt) (λ count left. run b count rounds left))
      received
