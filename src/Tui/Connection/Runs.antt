-- ===== src/Tui/Connection/Runs.antt =====
-- What the loop of src/tui/connection.rs does to a machine.
use Prim.Native.String.{String}
use file_peeker.Base.{
  zero, none, Bool, false, ℕ, suc, ◌+◌, ◌≤◌, ◌≡◌, refl, sym, ◌∙◌, true, List, [], ◌∷◌, ◌==◌, Result,
  ok, err, arith, inl, inr, Bool-cases,
}
use file_peeker.Wire.{TaskUpdate}
use file_peeker.Client.{Probe, Reach, probed, needs_login, unreachable, client_protocol_version}
use file_peeker.Tui.Machine.{ConnectionEvent, attaching, starting, tasks_event}
use file_peeker.Tui.Connection.{
  Backoff, Round, Effect, sends, starts, Wait, slept, start_server, commands_ended, events_closed,
  Lost, Watching, remote, attach, attach_probed, over, run, turn, wait_lost, after, send, send_all,
  watched, retry, next_attempt,
}

-- How many servers the effects start, and how often the user asks for one.
abbrev pub servers_started : List Effect → ℕ
servers_started [] = 0
servers_started (sends event ∷ effects) = servers_started effects
servers_started (starts ∷ effects) = suc (servers_started effects)

abbrev pub asked : Wait → ℕ
asked slept = 0
asked start_server = 1
asked commands_ended = 0
asked events_closed = 0

abbrev pub times_asked : List Round → ℕ
times_asked [] = 0
times_asked (round ∷ rounds) = asked round.wait + times_asked rounds

send-servers :
    (event : ConnectionEvent) (next : ℕ → List Effect) (n received : ℕ)
    → ((left : ℕ) → servers_started (next left) ≤ n)
    → servers_started (send event next received) ≤ n
send-servers event next n zero f = omega arith
send-servers event next n (suc left) f = f left

send_all-servers :
    (updates : List TaskUpdate) (next : ℕ → List Effect) (n received : ℕ)
    → ((left : ℕ) → servers_started (next left) ≤ n)
    → servers_started (send_all updates next received) ≤ n
send_all-servers [] next n received f = f received
send_all-servers (update ∷ updates) next n received f =
    send-servers (tasks_event update) (send_all updates next) n received
      (λ left. send_all-servers updates next n left f)

after-servers :
    (attempts n : ℕ) (wait : Wait) (next : ℕ → ℕ → List Effect)
    → ((count left : ℕ) → servers_started (next count left) ≤ n)
    → (received : ℕ) → servers_started (after attempts wait next received) ≤ asked wait + n
unfolding after
after-servers attempts n slept next f received = omega (arith, f attempts received)
after-servers attempts n start_server next f received =
    send-servers starting (λ left. starts ∷ next 0 left) (1 + n) received
      (λ left. omega (arith, f 0 left))
after-servers attempts n commands_ended next f received = omega arith
after-servers attempts n events_closed next f received = omega arith

wait_lost-servers :
    (b : Backoff) (attempts n : ℕ) (round : Round) (lost : Lost) (next : ℕ → ℕ → List Effect)
    → ((count left : ℕ) → servers_started (next count left) ≤ n)
    → (received : ℕ)
    → servers_started (wait_lost b attempts round lost next received) ≤ asked round.wait + n
unfolding wait_lost
wait_lost-servers b attempts n round lost next f received =
    send-servers _ (after (next_attempt attempts) round.wait next) (asked round.wait + n) received
      (after-servers (next_attempt attempts) n round.wait next f)

watched-servers :
    (closes : Bool) (next : ℕ → List Effect) (n : ℕ)
    → ((left : ℕ) → servers_started (next left) ≤ n)
    → (left : ℕ) → servers_started (watched closes next left) ≤ n
watched-servers true next n f left = omega arith
watched-servers false next n f left = f left

turn-servers :
    (b : Backoff) (attempts n : ℕ) (round : Round) (r : Result Lost Watching)
    (next : ℕ → ℕ → List Effect)
    → ((count left : ℕ) → servers_started (next count left) ≤ n)
    → (received : ℕ)
    → servers_started (turn b attempts round r next received) ≤ asked round.wait + n
unfolding turn
turn-servers b attempts n round (err lost) next f received =
    wait_lost-servers b attempts n round lost next f received
turn-servers b attempts n round (ok watching) next f received =
    let lost = wait_lost b 0 round (retry none) next in
    send-servers _ (send_all watching.updates (watched round.ui_closes lost)) (asked round.wait + n)
      received
      (λ left.
        send_all-servers watching.updates (watched round.ui_closes lost) (asked round.wait + n) left
          (watched-servers round.ui_closes lost (asked round.wait + n)
            (wait_lost-servers b 0 n round (retry none) next f)))

-- However attempts to attach go, whatever is probed, and whenever the UI goes away, a connection starts no more
-- servers than the user asks it to: one that the user stopped stays stopped.
pub starts_on_command :
    (b : Backoff) (attempts : ℕ) (rounds : List Round) (received : ℕ)
    → servers_started (run b attempts rounds received) ≤ times_asked rounds
unfolding run
starts_on_command b attempts [] received = omega arith
starts_on_command b attempts (round ∷ rounds) received =
    let next = λ (count left : ℕ). run b count rounds left in
    send-servers attaching (turn b attempts round (attach round.attempt) next)
      (times_asked (round ∷ rounds)) received
      (turn-servers b attempts (times_asked rounds) round (attach round.attempt) next
        (λ count left. starts_on_command b count rounds left))

attach_probed-ok :
    (probe : Probe) (channel : Result String (Unit {0})) (watch : Result String Watching)
    (watching : Watching)
    → attach_probed probe channel watch ≡ ok watching
    → (probe.installed ≡ true)
      × (probe.client_protocol ≡ client_protocol_version)
      × (probe.server_running ≡ true)
      × (watch ≡ ok watching)
unfolding attach_probed
attach_probed-ok probe channel watch watching h = elim (Bool-cases probe.installed) [
  | inr u ↦ absurd (ground arith)
  | inl u ↦ elim (Bool-cases (probe.client_protocol == client_protocol_version)) [
    | inr w ↦ absurd (ground arith)
    | inl w ↦ elim (Bool-cases probe.server_running) [
      | inr z ↦ absurd (ground arith)
      | inl z ↦ (u, ground arith, z, opened channel watch (sym (passed u w z) ∙ h))
    ]
  ]
]
  where
    passed :
        probe.installed ≡ true
        → (probe.client_protocol == client_protocol_version) ≡ true
        → probe.server_running ≡ true
        → attach_probed probe channel watch ≡ over channel watch
    passed u w z = rw (u, w, z) refl

    opened :
        (channel : Result String (Unit {0})) (watch : Result String Watching)
        → over channel watch ≡ ok watching
        → watch ≡ ok watching
    opened (err error) watch e = absurd (ground arith)
    opened (ok u) (err error) e = absurd (ground arith)
    opened (ok u) (ok w) e = ground arith

-- A connection to another machine is attached only to a server that the probe found running there, of an install whose
-- client protocol is this client's; a host that wants a login, that cannot be reached, without an install or with another
-- protocol is never attached to, and what is attached is the stream that the server answers with.
pub attach-ok :
    (reach : Reach) (channel : Result String (Unit {0})) (watch : Result String Watching)
    (watching : Watching)
    → attach (remote reach channel watch) ≡ ok watching
    → (probe : Probe) × (reach ≡ probed probe)
      × (probe.installed ≡ true)
      × (probe.client_protocol ≡ client_protocol_version)
      × (probe.server_running ≡ true)
      × (watch ≡ ok watching)
unfolding attach
attach-ok (needs_login why) channel watch watching h = absurd (ground arith)
attach-ok (unreachable why) channel watch watching h = absurd (ground arith)
attach-ok (probed probe) channel watch watching h =
    let r = attach_probed-ok probe channel watch watching h in (probe, refl, r.0, r.1, r.2, r.3)
