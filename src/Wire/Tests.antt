-- ===== src/Wire/Tests.antt =====
-- One task of src/server/tasks.rs and src/client/tasks.rs on the wire.
use Prim.Native.String.{String}
use text.Mathlib.Text.{◌==◌ as str_eq}
use mathlib.Core.Bool.{false≢true}
use file_peeker.Base.{ℕ, ◌≡◌, ap, Bool, false, Option, none, some, [], ◌∷◌}
use file_peeker.Task
use file_peeker.Task.{TaskInfo, queued, bytes, transfer}
use file_peeker.Wire.{task_message, task_view, after_epoch, is_terminal}
use file_peeker.Wire.RoundTrip.{view_of, task_view-task_message, is_terminal-task_message}

abbrev copying : TaskInfo
copying = record {
  id = 7;
  parent = some 3;
  descriptor = record {
    kind = "copy";
    subject = record { name = "to"; value = "/b" } ∷ [];
    admission = transfer;
  };
  submitted = 5;
  settled = none;
  state = queued (some 1);
  progress = record { phase = some "listing"; measure = bytes 3 (some 9) };
}

abbrev uuid : ℕ → String
uuid n = "u"

abbrev is_empty : String → Bool
is_empty s = str_eq s ""

abbrev is_empty_phase : Option String → Bool
is_empty_phase none = false
is_empty_phase (some s) = is_empty s

task_view-task_message_example :
    task_view (task_message uuid after_epoch copying) ≡ view_of uuid after_epoch copying
task_view-task_message_example =
    task_view-task_message uuid after_epoch copying (λ n e. false≢true (ap is_empty e))
      (λ e. false≢true (ap is_empty_phase e))

is_terminal-task_message_example :
    is_terminal (task_view (task_message uuid after_epoch copying)).status
    ≡ Task.is_terminal copying.state
is_terminal-task_message_example = is_terminal-task_message uuid after_epoch copying
