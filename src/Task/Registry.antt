-- ===== src/Task/Registry.antt =====
-- `Registry`, `Entry`, `Throttle`, `Resource` and `Ticket` of src/task/runtime.rs. The token of a
-- task is a name for it; what a token does is the business of the crate that it comes from.
use file_peeker.Base.{
  ℕ, ◌≡◌, ◌↔◌, Bool, true, false, ◌&&◌, Option, none, some, List, [], ◌==◌, arith, if◌then◌else◌,
}
use file_peeker.Task.{TaskInfo, AdmissionClass, interactive, transfer, background, ResourceState}

-- Which cap a root task counts against: its class, and the first resource that it requires.
pub record Scope : Type 0 where
  pub class : AdmissionClass
  pub resource : Option ℕ

abbrev class_eq : AdmissionClass → AdmissionClass → Bool
class_eq interactive interactive = true
class_eq transfer transfer = true
class_eq background background = true
class_eq _ _ = false

abbrev resource_eq : Option ℕ → Option ℕ → Bool
resource_eq none none = true
resource_eq (some a) (some b) = a == b
resource_eq none (some b) = false
resource_eq (some a) none = false

unfoldable pub scope_eq : Scope → Scope → Bool
scope_eq s t = class_eq s.class t.class && resource_eq s.resource t.resource

class_eq_iff : (a b : AdmissionClass) → (class_eq a b ≡ true) ↔ (a ≡ b)
class_eq_iff a b = ground arith

resource_eq_iff : (a b : Option ℕ) → (resource_eq a b ≡ true) ↔ (a ≡ b)
resource_eq_iff a b = ground arith

pub scope_eq_iff : (s t : Scope) → (scope_eq s t ≡ true) ↔ (s ≡ t)
unfolding scope_eq
scope_eq_iff s t =
    ground (arith, class_eq_iff s.class t.class, resource_eq_iff s.resource t.resource)

pub record Throttle : Type 0 where
  pub last_sent : Option ℕ
  pub pending : Bool
  pub flush_scheduled : Bool

abbrev pub default_throttle : Throttle
default_throttle = record { last_sent = none; pending = false; flush_scheduled = false }

pub record Entry : Type 0 where
  pub seq : ℕ
  pub info : TaskInfo
  pub children : List ℕ
  pub live_children : ℕ
  pub token : ℕ
  pub throttle : Throttle

-- The value is named by a number; its type is checked by `downcast`, outside the model.
pub record Resource : Type 0 where
  pub state : ResourceState
  pub value : Option ℕ

pub record Registry : Type 0 where
  pub next_seq : ℕ
  pub tasks : List (ℕ × Entry)
  pub settled_roots : List ℕ
  pub resources : ℕ → Option Resource
  pub admitted : Scope → Option ℕ
  pub queues : Scope → Option (List ℕ)

abbrev pub empty_registry : Registry
empty_registry = record {
  next_seq = 0;
  tasks = [];
  settled_roots = [];
  resources = λ r. none;
  admitted = λ s. none;
  queues = λ s. none;
}

-- A map over scopes, given anew at one.
abbrev pub at_scope {ℓ} : {A : Type ℓ} → Scope → A → (Scope → A) → Scope → A
at_scope s v f t = if scope_eq s t then v else f t

pub record Ticket : Type 0 where
  pub seq : ℕ
  pub scope : Scope
  pub queued : Bool
