-- ===== src/Lifecycle/HostLease.antt =====
-- packages/bootstrap/host-ownership/src/host-lease-machine.ts: the lifecycle of a Host lease.
use heptalogos.Prelude.{◌≡◌, ◌≢◌, refl, ap, ◌∙◌, List, none, some, arith}
use heptalogos.Lifecycle.Chart.{
  Chart, Interpreter, invalid_transition, send, send-chart, run, run_inv,
}

pub data HostLeaseLifecycleState : Type 0 where
  acquiring active fenced closing closed : HostLeaseLifecycleState

pub data HostLeaseDetail : Type 0 where
  acquiring active fenced closing closed : HostLeaseDetail

pub data HostLeaseLifecycleEvent : Type 0 where
  lease_acquired acquisition_failed lease_lost : HostLeaseLifecycleEvent
  close_requested close_failed closed : HostLeaseLifecycleEvent

unfoldable pub host_lease_machine : Chart HostLeaseDetail HostLeaseLifecycleEvent
host_lease_machine HostLeaseDetail.acquiring lease_acquired = some HostLeaseDetail.active
host_lease_machine HostLeaseDetail.acquiring acquisition_failed = some HostLeaseDetail.closed
host_lease_machine HostLeaseDetail.acquiring lease_lost = some HostLeaseDetail.fenced
host_lease_machine HostLeaseDetail.acquiring close_requested = some HostLeaseDetail.closing
host_lease_machine HostLeaseDetail.active lease_lost = some HostLeaseDetail.fenced
host_lease_machine HostLeaseDetail.active close_requested = some HostLeaseDetail.closing
host_lease_machine HostLeaseDetail.fenced close_requested = some HostLeaseDetail.closing
host_lease_machine HostLeaseDetail.closing close_failed = some HostLeaseDetail.fenced
host_lease_machine HostLeaseDetail.closing HostLeaseLifecycleEvent.closed =
    some HostLeaseDetail.closed
host_lease_machine _ _ = none

unfoldable pub state_of : HostLeaseDetail → HostLeaseLifecycleState
state_of HostLeaseDetail.acquiring = HostLeaseLifecycleState.acquiring
state_of HostLeaseDetail.active = HostLeaseLifecycleState.active
state_of HostLeaseDetail.fenced = HostLeaseLifecycleState.fenced
state_of HostLeaseDetail.closing = HostLeaseLifecycleState.closing
state_of HostLeaseDetail.closed = HostLeaseLifecycleState.closed

-- The order in which a lease gives up authority.
abbrev pub IsRevoked : HostLeaseDetail → Type 0
IsRevoked d = (d ≢ HostLeaseDetail.acquiring) × (d ≢ HostLeaseDetail.active)

IsRevoked-kept :
    (s t : HostLeaseDetail) (e : HostLeaseLifecycleEvent)
    → IsRevoked s
    → host_lease_machine s e ≡ some t
    → IsRevoked t
unfolding host_lease_machine
IsRevoked-kept s t e h k = grind arith

closed_kept :
    (s t : HostLeaseDetail) (e : HostLeaseLifecycleEvent)
    → s ≡ HostLeaseDetail.closed
    → host_lease_machine s e ≡ some t
    → t ≡ HostLeaseDetail.closed
unfolding host_lease_machine
closed_kept s t e h k = ground arith

module _ (x : Interpreter HostLeaseDetail HostLeaseLifecycleEvent) where
  abbrev pub tracker_run : HostLeaseDetail → List HostLeaseLifecycleEvent → HostLeaseDetail
  tracker_run = run x host_lease_machine

  -- A lease that was lost, or whose closing has begun, is never ACTIVE again, whatever events follow.
  pub run-ne-active :
      (s : HostLeaseDetail) (es : List HostLeaseLifecycleEvent)
      → IsRevoked s
      → state_of (tracker_run s es) ≢ HostLeaseLifecycleState.active
  unfolding state_of
  run-ne-active s es h = grind (arith, run_inv x host_lease_machine IsRevoked IsRevoked-kept s es h)

  -- A closed lease stays closed, and refuses every event.
  pub closed_final :
      (es : List HostLeaseLifecycleEvent) (e : HostLeaseLifecycleEvent)
      → let s = tracker_run HostLeaseDetail.closed es in
        (state_of s ≡ HostLeaseLifecycleState.closed)
        × (send x host_lease_machine s e ≡ invalid_transition)
  unfolding state_of host_lease_machine
  closed_final es e =
      let stay =
        run_inv x host_lease_machine (λ s. s ≡ HostLeaseDetail.closed) closed_kept
          HostLeaseDetail.closed es refl in
      (
        ap state_of stay,
        ap (λ s. send x host_lease_machine s e) stay ∙ send-chart x host_lease_machine _ e,
      )
