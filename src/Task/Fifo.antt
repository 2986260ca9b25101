-- ===== src/Task/Fifo.antt =====
-- The queues of src/task/runtime.rs and the drivers that wait in them.
pub mod Runs
pub mod Order
use file_peeker.Base.{
  ℕ, zero, suc, ◌+◌, ◌≤◌, ◌<◌, ◌≡◌, ◌≢◌, refl, sym, ap, ◌∙◌, Bool, true, false, ◌&&◌, not, Option,
  none, some, List, [], ◌∷◌, ◌++◌, ◌==◌, ==_iff, arith, if◌then◌else◌, get_elem?, set, length,
  length-set, length-append, get_elem?-set_self, get_elem?-set_ne, get_elem?-set_cases,
  get_elem?-snoc_cases, get_elem?-append_front, get_elem?-snoc_last, Bool-cases, Option-cases, inl,
  inr, ◌⊎◌,
}
use file_peeker.Task.{cap, Config}
use file_peeker.Task.Registry.{Scope, scope_eq, scope_eq_iff, Ticket, Registry}
use file_peeker.Task.Runtime.{Runtime}
use file_peeker.Task.Start.{or_empty, is_some}
use file_peeker.Task.Driver.{
  Phase, admitting, told_to_wait, waiting, refused, Driver, World, move, with_runtime,
}
use file_peeker.Task.Unchanged.{SameAdmission}
use file_peeker.Task.Queue.{contains, IsIncreasing, set_remove-IsIncreasing, contains-set_remove}
use file_peeker.Task.Runtime.{set_remove}

-- A capped root that is not admitted yet and has not left its queue.
unfoldable pub awaits_place : Phase → Bool
awaits_place admitting = true
awaits_place (told_to_wait _) = true
awaits_place waiting = true
awaits_place (refused _) = true
awaits_place _ = false

abbrev pub in_queue : Driver → Bool
in_queue d = d.ticket.queued && awaits_place d.phase

abbrev pub queue_of : Registry → Scope → List ℕ
queue_of reg s = or_empty (reg.queues s)

-- Whether a driver waits for one of a scope's places.
abbrev pub is_waiting_in : Scope → Driver → Bool
is_waiting_in s d = in_queue d && scope_eq d.ticket.scope s

abbrev pub found_waiting_in : Scope → Option Driver → Bool
found_waiting_in s none = false
found_waiting_in s (some d) = is_waiting_in s d

abbrev pub waits_in : List Driver → Scope → ℕ → Bool
waits_in ds s k = found_waiting_in s (get_elem? ds k)

pub record QueueInv (c : Config) (w : World) : Type 0 where
  pub configured : w.runtime.config ≡ c
  pub counted : w.runtime.next_seq ≡ length w.drivers
  pub numbered : (i : ℕ) (d : Driver) → get_elem? w.drivers i ≡ some d → d.ticket.seq ≡ i
  pub capped :
      (i : ℕ) (d : Driver)
      → get_elem? w.drivers i ≡ some d
      → d.ticket.queued ≡ true
      → is_some (cap c d.ticket.scope.class) ≡ true
  pub increasing : (s : Scope) → IsIncreasing (queue_of w.runtime.registry s)
  pub exact :
      (s : Scope) (k : ℕ) → contains k (queue_of w.runtime.registry s) ≡ waits_in w.drivers s k

-- A change that the queues do not show.
pub record SameQueues (rt rt' : Runtime) : Type 0 where
  pub same_config : rt'.config ≡ rt.config
  pub same_queues : rt'.queues ≡ rt.queues
  pub same_seq : rt'.next_seq ≡ rt.next_seq

pub admission_keeps_queues : {rt rt' : Runtime} → SameAdmission rt rt' → SameQueues rt rt'
admission_keeps_queues s = record {
  same_config = s.same_config;
  same_queues = s.same_queues;
  same_seq = s.same_seq;
}

waits_in-set :
    (ds : List Driver) (i k : ℕ) (d d' : Driver) (s : Scope)
    → get_elem? ds i ≡ some d
    → waits_in (set ds i d') s k ≡ (if i == k then is_waiting_in s d' else waits_in ds s k)
waits_in-set ds i k d d' s here = elim (Bool-cases (i == k)) [
  | inl e ↦ rw e (
      ap (λ j. waits_in (set ds i d') s j) (sym ((==_iff i k).0 e))
      ∙ ap (found_waiting_in s) (get_elem?-set_self ds i d' d here))
  | inr e ↦ rw e (ap (found_waiting_in s) (get_elem?-set_ne ds i k d' (λ q. ground arith)))
]

pub waits_in-snoc :
    (ds : List Driver) (k : ℕ) (d : Driver) (s : Scope)
    → waits_in (ds ++ d ∷ []) s k ≡ (if length ds == k then is_waiting_in s d else waits_in ds s k)
waits_in-snoc [] zero d s = refl
waits_in-snoc [] (suc k) d s = ground arith
waits_in-snoc (e ∷ ds) zero d s = ground arith
waits_in-snoc (e ∷ ds) (suc k) d s = ground (arith, waits_in-snoc ds k d s)

module _ (c : Config) (w : World) (v : QueueInv c w) where
  pub runtime_QueueInv :
      (rt : Runtime) → SameAdmission w.runtime rt → QueueInv c (with_runtime w rt)
  runtime_QueueInv rt same = record {
    configured = same.same_config ∙ v.configured;
    counted = same.same_seq ∙ v.counted;
    numbered = v.numbered;
    capped = v.capped;
    increasing = λ s. rw same.same_queues (v.increasing s);
    exact = λ s k. rw same.same_queues (v.exact s k);
  }

  module _ (i : ℕ) (d : Driver) (here : get_elem? w.drivers i ≡ some d) where
    moved : Phase → Driver
    moved p = record d { phase = p }

    ticket_after :
        (p : Phase) (j : ℕ) (e : Driver)
        → get_elem? (set w.drivers i (record d { phase = p })) j ≡ some e
        → (e' : Driver) × (get_elem? w.drivers j ≡ some e') × (e.ticket ≡ e'.ticket)
    ticket_after p j e h = elim (get_elem?-set_cases w.drivers i j (record d { phase = p }) e h) [
      | inl (same, eq) ↦ (d, rw (← same) here, ap (λ (x : Driver). x.ticket) eq)
      | inr (other, eq) ↦ (e, eq, refl)
    ]

    still_waits :
        (s : Scope) (k : ℕ) (p : Phase)
        → (d.ticket.queued && awaits_place p) ≡ in_queue d
        → (if i == k then is_waiting_in s (record d { phase = p }) else waits_in w.drivers s k)
          ≡ waits_in w.drivers s k
    still_waits s k p e = elim (Bool-cases (i == k)) [
      | inl same ↦ rw same (
          ap (λ b. b && scope_eq d.ticket.scope s) e
          ∙ sym (ap (found_waiting_in s) here)
          ∙ ap (waits_in w.drivers s) ((==_iff i k).0 same))
      | inr other ↦ rw other
    ]

    -- A move that leaves the queues alone.
    pub keep_move :
        (rt : Runtime) (p : Phase)
        → SameQueues w.runtime rt
        → (d.ticket.queued && awaits_place p) ≡ in_queue d
        → QueueInv c (move w i d rt p)
    keep_move rt p same stays = record {
      configured = same.same_config ∙ v.configured;
      counted = same.same_seq ∙ v.counted ∙ sym (length-set w.drivers i (record d { phase = p }));
      numbered = λ j e h.
          let (e', h', t) = ticket_after p j e h in
          ap (λ (x : Ticket). x.seq) t ∙ v.numbered j e' h';
      capped = λ j e h q.
          let (e', h', t) = ticket_after p j e h in
          rw t (v.capped j e' h' (sym (ap (λ (x : Ticket). x.queued) t) ∙ q));
      increasing = λ s. rw same.same_queues (v.increasing s);
      exact = λ s k.
          rw (same.same_queues, v.exact s k)
            (sym (
              waits_in-set w.drivers i k d (record d { phase = p }) s here
              ∙ still_waits s k p stays));
    }

    left_queue :
        (s : Scope) (k : ℕ) (p : Phase)
        → awaits_place p ≡ false
        → contains k (
            if scope_eq d.ticket.scope s
            then set_remove d.ticket.seq (queue_of w.runtime.registry s)
            else queue_of w.runtime.registry s)
          ≡ (if i == k then is_waiting_in s (record d { phase = p }) else waits_in w.drivers s k)
    left_queue s k p gone = elim (Bool-cases (scope_eq d.ticket.scope s)) [
      | inl eq ↦
          rw
            (
              eq,
              contains-set_remove k d.ticket.seq (queue_of w.runtime.registry s) (v.increasing s),
              v.numbered i d here,
              v.exact s k,
            )
            (ground (arith, gone))
      | inr ne ↦ rw (ne, v.exact s k) (ground (arith, ap (found_waiting_in s) here))
    ]

    -- A move that takes the driver out of its queue.
    pub leave_move :
        (rt : Runtime) (p : Phase)
        → rt.config ≡ w.runtime.config
        → rt.next_seq ≡ w.runtime.next_seq
        → ((s : Scope)
            → queue_of rt.registry s ≡ (
                if scope_eq d.ticket.scope s
                then set_remove d.ticket.seq (queue_of w.runtime.registry s)
                else queue_of w.runtime.registry s))
        → awaits_place p ≡ false
        → QueueInv c (move w i d rt p)
    leave_move rt p same_config same_seq out gone = record {
      configured = same_config ∙ v.configured;
      counted = same_seq ∙ v.counted ∙ sym (length-set w.drivers i (record d { phase = p }));
      numbered = λ j e h.
          let (e', h', t) = ticket_after p j e h in
          ap (λ (x : Ticket). x.seq) t ∙ v.numbered j e' h';
      capped = λ j e h q.
          let (e', h', t) = ticket_after p j e h in
          rw t (v.capped j e' h' (sym (ap (λ (x : Ticket). x.queued) t) ∙ q));
      increasing = λ s. rw (out s) (
          ground (
            arith,
            v.increasing s,
            set_remove-IsIncreasing d.ticket.seq (queue_of w.runtime.registry s),
          ));
      exact = λ s k.
          rw (out s, waits_in-set w.drivers i k d (record d { phase = p }) s here)
            (left_queue s k p gone);
    }
