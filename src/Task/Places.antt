-- ===== src/Task/Places.antt =====
-- The places of a scope in src/task/runtime.rs: the counter, and the drivers that hold one.
use file_peeker.Base.{
  ℕ, zero, suc, ◌+◌, ◌≤◌, ◌<◌, ◌≡◌, refl, sym, ap, ◌∙◌, Bool, true, false, ◌&&◌, some, List, [],
  ◌∷◌, ◌++◌, arith, if◌then◌else◌, get_elem?, set, Bool-cases, inl, inr,
}
use file_peeker.Task.{cap}
use file_peeker.Task.Registry.{Scope, scope_eq, scope_eq_iff}
use file_peeker.Task.Runtime.{Runtime, admitted_in}
use file_peeker.Task.Driver.{
  Phase, placed, body, body_cancelling, joined, Driver, World, move, with_runtime,
}
use file_peeker.Task.Unchanged.{SameAdmission}

-- From `admit`'s return to `drop(slot)`.
unfoldable pub in_place : Phase → Bool
in_place placed = true
in_place body = true
in_place body_cancelling = true
in_place (joined _) = true
in_place _ = false

-- Whether a driver holds one of a scope's places, as a number.
unfoldable pub held : Scope → Driver → ℕ
held s d = if d.ticket.queued && scope_eq d.ticket.scope s && in_place d.phase then 1 else 0

-- How many drivers hold one of a scope's places.
unfoldable pub holders : Scope → List Driver → ℕ
holders s [] = 0
holders s (d ∷ ds) = held s d + holders s ds

holders-set :
    (s : Scope) (ds : List Driver) (i : ℕ) (d d' : Driver)
    → get_elem? ds i ≡ some d
    → holders s (set ds i d') + held s d ≡ holders s ds + held s d'
unfolding holders
holders-set s [] i d d' h = cc
holders-set s (e ∷ ds) zero d d' h = ground arith
holders-set s (e ∷ ds) (suc i) d d' h = omega (arith, holders-set s ds i d d' h)

pub held-le-holders :
    (s : Scope) (ds : List Driver) (i : ℕ) (d : Driver)
    → get_elem? ds i ≡ some d
    → held s d ≤ holders s ds
unfolding holders
held-le-holders s [] i d h = cc
held-le-holders s (e ∷ ds) zero d h = ground arith
held-le-holders s (e ∷ ds) (suc i) d h = omega (arith, held-le-holders s ds i d h)

pub holders-snoc :
    (s : Scope) (ds : List Driver) (d : Driver) → holders s (ds ++ d ∷ []) ≡ holders s ds + held s d
unfolding holders
holders-snoc s [] d = omega arith
holders-snoc s (e ∷ ds) d = omega (arith, holders-snoc s ds d)

pub record PlacesInv (w : World) : Type 0 where
  pub counted : (s : Scope) → admitted_in w.runtime.registry s ≡ holders s w.drivers
  pub capped :
      (s : Scope) (n : ℕ)
      → cap w.runtime.config s.class ≡ some n
      → admitted_in w.runtime.registry s ≤ n

pub unchanged : (rt : Runtime) → SameAdmission rt rt
unchanged rt = record {
  same_config = refl;
  same_admitted = refl;
  same_queues = refl;
  same_seq = refl;
}

module _ (w : World) (v : PlacesInv w) where
  pub runtime_PlacesInv :
      (rt : Runtime) → SameAdmission w.runtime rt → PlacesInv (with_runtime w rt)
  runtime_PlacesInv rt same = record {
    counted = λ s. ground (arith, same.same_admitted, v.counted s);
    capped = λ s n h. ground (arith, same.same_admitted, same.same_config, v.capped s n);
  }

  module _ (i : ℕ) (d : Driver) (here : get_elem? w.drivers i ≡ some d) where
    -- A move that changes the counter as it changes what the driver holds, and no cap.
    pub counted_move :
        (rt : Runtime) (p : Phase)
        → rt.config ≡ w.runtime.config
        → ((s : Scope)
            → admitted_in rt.registry s + held s d
              ≡ admitted_in w.runtime.registry s + held s (record d { phase = p }))
        → ((s : Scope) (n : ℕ)
            → cap w.runtime.config s.class ≡ some n
            → admitted_in rt.registry s ≤ n)
        → PlacesInv (move w i d rt p)
    counted_move rt p same count capped = record {
      counted = λ s.
          omega (
            arith,
            count s,
            v.counted s,
            holders-set s w.drivers i d (record d { phase = p }) here,
          );
      capped = λ s n h. capped s n (ap (λ c. cap c s.class) (sym same) ∙ h);
    }

    pub same_move :
        (rt : Runtime) (p : Phase)
        → SameAdmission w.runtime rt
        → in_place p ≡ in_place d.phase
        → PlacesInv (move w i d rt p)
    unfolding held
    same_move rt p same e =
        counted_move rt p same.same_config (λ s. ground (arith, same.same_admitted))
          (λ s n h. ground (arith, same.same_admitted, v.capped s n))

    pub stay : (p : Phase) → in_place p ≡ in_place d.phase → PlacesInv (move w i d w.runtime p)
    stay p e = same_move w.runtime p (unchanged w.runtime) e

    -- Without a place in a queue there is none in the counter either.
    pub unqueued_move : (p : Phase) → d.ticket.queued ≡ false → PlacesInv (move w i d w.runtime p)
    unfolding held
    unqueued_move p e =
        counted_move w.runtime p refl (λ s. ground arith) (λ s n h. ground (arith, v.capped s n))

    pub take_move :
        (rt : Runtime)
        → d.ticket.queued ≡ true
        → in_place d.phase ≡ false
        → rt.config ≡ w.runtime.config
        → ((s : Scope)
            → admitted_in rt.registry s ≡ (
                if scope_eq d.ticket.scope s
                then suc (admitted_in w.runtime.registry s)
                else admitted_in w.runtime.registry s))
        → ((n : ℕ)
            → cap w.runtime.config d.ticket.scope.class ≡ some n
            → admitted_in w.runtime.registry d.ticket.scope < n)
        → PlacesInv (move w i d rt placed)
    unfolding held in_place
    take_move rt q e same taken room =
        counted_move rt placed same (λ s. ground (arith, taken s)) below
      where
        below :
            (s : Scope) (n : ℕ)
            → cap w.runtime.config s.class ≡ some n
            → admitted_in rt.registry s ≤ n
        below s n h = elim (Bool-cases (scope_eq d.ticket.scope s)) [
          | inl eq ↦
              let same_scope : d.ticket.scope ≡ s = (scope_eq_iff d.ticket.scope s).0 eq in
              ground (arith, taken s, same_scope, room n)
          | inr ne ↦ ground (arith, taken s, v.capped s n)
        ]
