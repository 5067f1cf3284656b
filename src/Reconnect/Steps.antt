-- ===== src/Reconnect/Steps.antt =====
-- What holds of the monitor between two calls.
use gud.Base.{ℕ, ◌<◌, ◌≡◌, arith, Bool, true, false, Option, none, some, List, [], ◌∷◌}
use gud.Reconnect.{
  Monitor, Call, step, run, init, unreadable, attached, detached, stable_needed, max_polls,
}

abbrev pub held : Option ℕ → ℕ
held none = 0
held (some hcd) = 1

abbrev pub armed : Option ℕ → Bool
armed none = false
armed (some hcd) = true

-- The work is pending exactly while a controller is watched, whose one reference is held; a
-- stopped monitor watches nothing; the counters stay below their limits.
pub record IsConsistent (m : Monitor) : Type 0 where
  pub pending_iff_armed : m.scheduled ≡ armed m.hcd
  pub one_reference : m.refs ≡ held m.hcd
  pub stopped : m.stopping ≡ true → m.hcd ≡ none
  pub polls_bounded : m.scheduled ≡ true → m.polls < max_polls
  pub stable_bounded : m.scheduled ≡ true → m.stable_polls < stable_needed
  pub stable_needs_detach : m.detached_observed ≡ false → m.scheduled ≡ true → m.stable_polls ≡ 0

pub step-IsConsistent : (c : Call) (m : Monitor) → IsConsistent m → IsConsistent (step c m).0
unfolding step
step-IsConsistent (Call.arm_call hcd port) m i = ground arith
step-IsConsistent (Call.cancel_call hcd port) m i = ground arith
step-IsConsistent (Call.work_call unreadable) m i = ground arith
step-IsConsistent (Call.work_call attached) m i = ground arith
step-IsConsistent (Call.work_call detached) m i = ground arith
step-IsConsistent Call.exit_call m i = ground arith

pub run_from-IsConsistent :
    (m : Monitor) (cs : List Call) → IsConsistent m → IsConsistent (run m cs)
unfolding run
run_from-IsConsistent m [] i = i
run_from-IsConsistent m (c ∷ cs) i = run_from-IsConsistent (step c m).0 cs (step-IsConsistent c m i)

-- After any sequence of arm, cancel, work and exit from the initial state, the monitor holds one
-- controller reference exactly while it watches a port, its work is pending exactly then, it
-- watches nothing once it is stopping, and its counters stay below their limits.
pub run-IsConsistent : (cs : List Call) → IsConsistent (run init cs)
run-IsConsistent cs = run_from-IsConsistent init cs (unfold init in ground arith)
