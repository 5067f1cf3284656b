-- ===== src/Reconnect.antt =====
-- backport-4.9/gud_reconnect.c: after a disconnect the root port is polled until the device has
-- been away and back for a while, and user space is told. Each function runs under the monitor's
-- lock; cancelling also waits for the work, so the functions are taken as single steps.
pub mod Steps
pub mod History
use gud.Base.{
  ℕ, zero, suc, ◌+◌, ◌-◌, ◌%◌, ◌^◌, Bool, true, false, ◌||◌, ◌&&◌, not, Option, none, some, List,
  [], ◌∷◌, ◌==◌, ltb, leb, if◌then◌else◌,
}

abbrev pub stable_needed : ℕ
stable_needed = 15

abbrev pub max_polls : ℕ
max_polls = 6000

-- `struct gud_reconnect_monitor`. A host controller is a number, `scheduled` says that the delayed
-- work is pending, and `refs` counts the controller references that the monitor holds.
pub record Monitor : Type 0 where
  pub hcd : Option ℕ
  pub portnum : ℕ
  pub polls : ℕ
  pub stable_polls : ℕ
  pub detached_observed : Bool
  pub stopping : Bool
  pub scheduled : Bool
  pub refs : ℕ

-- What gud_reconnect_port_status finds: an error, or the connection bit.
pub data PortStatus : Type 0 where
  unreadable attached detached : PortStatus

pub data Signal : Type 0 where
  quiet : Signal
  notify expired : ℕ → Signal

-- The controller operations that reading the port goes through: whether the hardware can be
-- asked, and the result and raw status of GetPortStatus.
unfoldable pub port_status : Bool → Bool → ℕ → PortStatus
port_status accessible failed raw =
    if not accessible || failed then unreadable else if raw % 2 == 0 then detached else attached

unfoldable pub observe : PortStatus → Monitor → Monitor
observe detached m = record m { detached_observed = true; stable_polls = 0 }
observe attached m =
    if m.detached_observed
    then record m { stable_polls = m.stable_polls + 1 }
    else record m { stable_polls = 0 }
observe unreadable m = record m { stable_polls = 0 }

unfoldable pub saw_return : PortStatus → Monitor → Bool
saw_return attached m = m.detached_observed && leb stable_needed m.stable_polls
saw_return _ m = false

-- The monitor lets go of its controller.
unfoldable pub finish : Monitor → Monitor
finish m = record m { hcd = none; refs = m.refs - 1 }

poll_armed : PortStatus → Monitor → Monitor × Signal
unfolding observe saw_return finish
poll_armed status m =
    let seen = observe status (record m { polls = m.polls + 1; scheduled = false }) in
    if saw_return status seen
    then (finish seen, notify m.portnum)
    else if leb max_polls seen.polls
    then (finish seen, expired m.portnum)
    else (record seen { scheduled = true }, quiet)

-- gud_reconnect_work, with the status that the port shows.
unfoldable pub work : PortStatus → Monitor → Monitor × Signal
unfolding poll_armed
work status m = elim (m.hcd) [
  | none ↦ (record m { scheduled = false }, quiet)
  | some hcd ↦ if m.stopping then (record m { scheduled = false }, quiet) else poll_armed status m
]

unfoldable pub init : Monitor
init = record {
  hcd = none;
  portnum = 0;
  polls = 0;
  stable_polls = 0;
  detached_observed = false;
  stopping = false;
  scheduled = false;
  refs = 0;
}

-- gud_reconnect_arm for a device below port `port` of the controller `hcd`. A reference that is
-- not kept is put back at once.
unfoldable pub arm : ℕ → ℕ → Monitor → Monitor
arm hcd port m = elim (m.hcd) [
  | some busy ↦ m
  | none ↦ if m.stopping then m else record m {
    hcd = some hcd;
    portnum = port;
    polls = 0;
    stable_polls = 0;
    detached_observed = false;
    scheduled = true;
    refs = m.refs + 1;
  }
]

-- gud_reconnect_cancel, when the device is seen again on the same controller and port.
unfoldable pub cancel : ℕ → ℕ → Monitor → Monitor
unfolding finish
cancel hcd port m = elim (m.hcd) [
  | none ↦ m
  | some watched ↦
      if watched == hcd && m.portnum == port then record (finish m) { scheduled = false } else m
]

-- gud_reconnect_exit.
unfoldable pub exit : Monitor → Monitor
unfolding finish
exit m = elim (m.hcd) [
  | none ↦ record m { stopping = true; scheduled = false }
  | some watched ↦ record (finish m) { stopping = true; scheduled = false }
]

pub data Call : Type 0 where
  arm_call cancel_call : ℕ → ℕ → Call
  work_call : PortStatus → Call
  exit_call : Call

unfoldable pub step : Call → Monitor → Monitor × Signal
unfolding work arm cancel exit
step (arm_call hcd port) m = (arm hcd port m, quiet)
step (cancel_call hcd port) m = (cancel hcd port m, quiet)
step (work_call status) m = if m.scheduled then work status m else (m, quiet)
step exit_call m = (exit m, quiet)

unfoldable pub run : Monitor → List Call → Monitor
unfolding step
run m [] = m
run m (c ∷ cs) = run (step c m).0 cs
