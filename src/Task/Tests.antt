-- ===== src/Task/Tests.antt =====
-- Two copies submitted to the runtime of src/task/runtime.rs.
use file_peeker.Base.{ℕ, ◌≡◌, ◌≤◌, refl, true, false, none, List, [], ◌∷◌, arith}
use file_peeker.Task.{transfer, descriptor, default_config}
use file_peeker.Task.Registry.{Scope, scope_eq}
use file_peeker.Task.Runtime
use file_peeker.Task.Runtime.{decide, admit, admission}
use file_peeker.Task.Start.{Submission, start}
use file_peeker.Task.Driver.{Driver, Action, submits, goes_on, run, init, step, admitting}
use file_peeker.Task.Places.{holders, held, in_place}
use file_peeker.Task.Fifo.{awaits_place}
use file_peeker.Task.Scheduling.{holders-le-cap, admission_order, earliest_is_admitted}

abbrev copy : ℕ → Submission
copy n = record {
  id = n;
  parent = none;
  descriptor = descriptor "copy" transfer;
  requires = [];
  token = n;
  wall = 0;
}

abbrev transfers : Scope
transfers = record { class = transfer; resource = none }

abbrev driver : ℕ → ℕ → Driver
driver id seq = record {
  id = id;
  requires = [];
  ticket = record { seq = seq; scope = transfers; queued = true };
  phase = admitting;
}

abbrev two_copies : List Action
two_copies = submits (copy 10) ∷ submits (copy 11) ∷ []

abbrev three_admissions : List Action
three_admissions =
    submits (copy 10)
    ∷ submits (copy 11)
    ∷ submits (copy 12)
    ∷ goes_on 0 false 1
    ∷ goes_on 1 false 2
    ∷ goes_on 2 false 3
    ∷ []

holders-le-cap_example : holders transfers (run (init default_config) three_admissions).drivers ≤ 2
holders-le-cap_example = holders-le-cap default_config three_admissions transfers 2 refl

admission_order_example : 0 ≤ 1
unfolding run step init start Runtime.new descriptor decide admission scope_eq awaits_place
    Runtime.set_insert
admission_order_example =
    admission_order default_config two_copies 0 1 (driver 10 0) (driver 11 1) refl refl refl refl
      refl refl

earliest_is_admitted_example :
    decide (run (init default_config) two_copies).runtime [] (driver 10 0).ticket ≡ admit
unfolding run step init start Runtime.new descriptor awaits_place holders held in_place scope_eq
earliest_is_admitted_example =
    earliest_is_admitted default_config two_copies 0 2 (driver 10 0) refl refl (λ j w. omega arith)
      refl (omega arith) tt
