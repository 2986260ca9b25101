-- ===== src/Task/Scheduling.antt =====
-- Admission in src/task/runtime.rs, over the interleavings of the drivers.
use file_peeker.Base.{
  ℕ, ◌≤◌, ◌<◌, ◌≡◌, refl, sym, ap, ◌∙◌, true, Option, none, some, List, [], ◌∷◌, arith, get_elem?,
  All,
}
use file_peeker.Task.{cap, Config, ready}
use file_peeker.Task.Registry.{Scope, scope_eq_iff, Ticket, Registry, Resource}
use file_peeker.Task.Runtime.{admit, admission, admission_by_cap, admitted_in, decide, first}
use file_peeker.Task.Start.{or_empty, is_some}
use file_peeker.Task.Driver.{Driver, World, Action, init, run}
use file_peeker.Task.Places.{holders}
use file_peeker.Task.Cap.{decide-queued}
use file_peeker.Task.Cap.Runs.{run-PlacesInv, init-PlacesInv}
use file_peeker.Task.Queue.{contains, first-le, contains-first}
use file_peeker.Task.Fifo.{in_queue, queue_of, waits_in, found_waiting_in, QueueInv}
use file_peeker.Task.Fifo.Order.{run_QueueInv}

-- Whatever the drivers do and in whatever order, the drivers that hold a place in a scope are never
-- more than the cap of its class.
pub holders-le-cap :
    (c : Config) (actions : List Action) (s : Scope) (n : ℕ)
    → cap c s.class ≡ some n
    → holders s (run (init c) actions).drivers ≤ n
holders-le-cap c actions s n h =
    let v = run-PlacesInv actions (init c) (init-PlacesInv c) in
    let q = run_QueueInv c actions in
    omega (arith, v.counted s, v.capped s n (ap (λ k. cap k s.class) q.configured ∙ h))

admission_first :
    (reg : Registry) (requires : List ℕ) (t : Ticket) (n : ℕ)
    → admission reg requires t (some n) ≡ admit
    → first (reg.queues t.scope) ≡ some t.seq
unfolding admission
admission_first reg [] t n h = ground arith
admission_first reg (r ∷ requires) t n h = ground (arith, admission_first reg requires t n)

first-queue_of : (q : Option (List ℕ)) → first q ≡ first (some (or_empty q))
first-queue_of none = refl
first-queue_of (some q) = refl

some_of : (o : Option ℕ) → is_some o ≡ true → (n : ℕ) × (o ≡ some n)
some_of none h = cc
some_of (some n) h = (n, refl)

module _ (c : Config) (w : World) (v : QueueInv c w) (i : ℕ) (d : Driver)
    (here : get_elem? w.drivers i ≡ some d) where
  capped_at :
      d.ticket.queued ≡ true → (n : ℕ) × (cap w.runtime.config d.ticket.scope.class ≡ some n)
  capped_at q =
      some_of _ (ap (λ k. is_some (cap k d.ticket.scope.class)) v.configured ∙ v.capped i d here q)

  admitted_first :
      d.ticket.queued ≡ true
      → decide w.runtime d.requires d.ticket ≡ admit
      → first (some (queue_of w.runtime.registry d.ticket.scope)) ≡ some i
  admitted_first q h =
      let (n, e) = capped_at q in
      sym (first-queue_of (w.runtime.queues d.ticket.scope))
      ∙ admission_first w.runtime.registry d.requires d.ticket n
          (sym (decide-queued w.runtime d.requires d.ticket n q e) ∙ h)
      ∙ ap some (v.numbered i d here)

  is_listed :
      (s : Scope)
      → in_queue d ≡ true
      → d.ticket.scope ≡ s
      → contains i (queue_of w.runtime.registry s) ≡ true
  is_listed s q e =
      v.exact s i ∙ ap (found_waiting_in s) here ∙ rw q ((scope_eq_iff d.ticket.scope s).1 e)

-- A free place goes to the capped root that was submitted first: when a driver's check admits it, no
-- driver that still waits in the same scope was submitted before it.
pub admission_order :
    (c : Config) (actions : List Action) (i j : ℕ) (d e : Driver)
    → get_elem? (run (init c) actions).drivers i ≡ some d
    → get_elem? (run (init c) actions).drivers j ≡ some e
    → d.ticket.queued ≡ true
    → decide (run (init c) actions).runtime d.requires d.ticket ≡ admit
    → in_queue e ≡ true
    → e.ticket.scope ≡ d.ticket.scope
    → i ≤ j
admission_order c actions i j d e hi hj q admitted waits same =
    let v = run_QueueInv c actions in
    first-le i j _ (v.increasing d.ticket.scope)
      (admitted_first c (run (init c) actions) v i d hi q admitted)
      (is_listed c (run (init c) actions) v j e hj d.ticket.scope waits same)

-- The resource exists and is `Ready`.
abbrev pub IsReady : Registry → ℕ → Type 0
IsReady reg r = (x : Resource) × (reg.resources r ≡ some x) × (x.state ≡ ready)

admission_ready :
    (reg : Registry) (requires : List ℕ) (t : Ticket) (n : Option ℕ)
    → All (IsReady reg) requires
    → admission reg requires t n ≡ admission_by_cap reg t n
unfolding admission
admission_ready reg [] t n h = refl
admission_ready reg (r ∷ requires) t n ((x, here, is_ready), h) =
    rw (here, admission, is_ready) (admission_ready reg requires t n h)

admitted_if_first :
    (reg : Registry) (t : Ticket) (n : ℕ)
    → admitted_in reg t.scope < n
    → first (reg.queues t.scope) ≡ some t.seq
    → admission_by_cap reg t (some n) ≡ admit
unfolding admission_by_cap
admitted_if_first reg t n room e = ground arith

has_first : (k : ℕ) (q : List ℕ) → contains k q ≡ true → (x : ℕ) × (first (some q) ≡ some x)
unfolding contains
has_first k [] h = cc
has_first k (x ∷ q) h = (x, refl)

module _ (c : Config) (w : World) (v : QueueInv c w) (i : ℕ) (d : Driver)
    (here : get_elem? w.drivers i ≡ some d) where
  -- A waiting driver with none before it in its scope is the first of the queue.
  earliest_first :
      in_queue d ≡ true
      → ((j : ℕ) → waits_in w.drivers d.ticket.scope j ≡ true → i ≤ j)
      → first (w.runtime.queues d.ticket.scope) ≡ some d.ticket.seq
  earliest_first q before =
      let listed = is_listed c w v i d here d.ticket.scope q refl in
      let (x, e) = has_first i _ listed in
      let le = first-le x i _ (v.increasing d.ticket.scope) e listed in
      let ge = before x (sym (v.exact d.ticket.scope x) ∙ contains-first x _ e) in
      let same : x ≡ i = omega arith in
      first-queue_of (w.runtime.queues d.ticket.scope)
      ∙ e
      ∙ ap some (same ∙ sym (v.numbered i d here))

-- No place stays free for want of anyone to take it: when a scope has fewer holders than its cap, the
-- capped root that was submitted first of those waiting in it is admitted at its next check, if the
-- resources it requires are ready.
pub earliest_is_admitted :
    (c : Config) (actions : List Action) (i n : ℕ) (d : Driver)
    → get_elem? (run (init c) actions).drivers i ≡ some d
    → in_queue d ≡ true
    → ((j : ℕ) → waits_in (run (init c) actions).drivers d.ticket.scope j ≡ true → i ≤ j)
    → cap c d.ticket.scope.class ≡ some n
    → holders d.ticket.scope (run (init c) actions).drivers < n
    → All (IsReady (run (init c) actions).runtime.registry) d.requires
    → decide (run (init c) actions).runtime d.requires d.ticket ≡ admit
earliest_is_admitted c actions i n d here q before h room are_ready =
    let w = run (init c) actions in
    let v = run_QueueInv c actions in
    let counted = (run-PlacesInv actions (init c) (init-PlacesInv c)).counted d.ticket.scope in
    decide-queued w.runtime d.requires d.ticket n (queued_of d q)
      (ap (λ k. cap k d.ticket.scope.class) v.configured ∙ h)
    ∙ admission_ready w.runtime.registry d.requires d.ticket (some n) are_ready
    ∙ admitted_if_first w.runtime.registry d.ticket n (omega (arith, counted))
        (earliest_first c w v i d here q before)
  where
    queued_of : (d : Driver) → in_queue d ≡ true → d.ticket.queued ≡ true
    queued_of d q = ground arith
