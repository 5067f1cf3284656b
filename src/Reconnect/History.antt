-- ===== src/Reconnect/History.antt =====
-- What the monitor has seen when it signals, and how long it can run.
use gud.Base.{
  ℕ, zero, suc, ◌+◌, ◌≤◌, ◌<◌, ◌≡◌, refl, subst, ◌∙◌, arith, true, false, none, List, [], ◌∷◌,
  length,
}
use native.Mathlib.Numerals.{add-one}
use gud.Reconnect.Steps.{armed}
use gud.Reconnect.{
  Monitor, PortStatus, notify, work, arm, unreadable, attached, detached, stable_needed, max_polls,
}

-- The port's statuses, newest first, as the work reads them.
unfoldable pub watch : Monitor → List PortStatus → Monitor
watch m [] = m
watch m (s ∷ older) = (work s (watch m older)).0

-- The newest `n` statuses are all attached.
abbrev pub AttachedFor : ℕ → List PortStatus → Type 0
AttachedFor zero seen = Unit
AttachedFor (suc n) [] = ⊥
AttachedFor (suc n) (attached ∷ seen) = AttachedFor n seen
AttachedFor (suc n) (s ∷ seen) = ⊥

abbrev pub WasDetached : List PortStatus → Type 0
WasDetached [] = ⊥
WasDetached (detached ∷ seen) = Unit
WasDetached (s ∷ seen) = WasDetached seen

-- Before the newest `n` statuses there is a detached one.
abbrev pub DetachedBefore : ℕ → List PortStatus → Type 0
DetachedBefore zero seen = WasDetached seen
DetachedBefore (suc n) [] = ⊥
DetachedBefore (suc n) (s ∷ seen) = DetachedBefore n seen

AttachedFor-add :
    (n : ℕ) (seen : List PortStatus) → AttachedFor n seen → AttachedFor (n + 1) (attached ∷ seen)
AttachedFor-add n seen h = rw add-one h

DetachedBefore-add :
    (n : ℕ) (s : PortStatus) (seen : List PortStatus)
    → DetachedBefore n seen
    → DetachedBefore (n + 1) (s ∷ seen)
DetachedBefore-add n s seen h = rw add-one h

WasDetached-cons :
    (s : PortStatus) (seen : List PortStatus) → WasDetached seen → WasDetached (s ∷ seen)
WasDetached-cons unreadable seen h = h
WasDetached-cons attached seen h = h
WasDetached-cons detached seen h = tt

WasDetached-before : (n : ℕ) (seen : List PortStatus) → DetachedBefore n seen → WasDetached seen
WasDetached-before zero seen h = h
WasDetached-before (suc n) [] h = absurd h
WasDetached-before (suc n) (s ∷ seen) h = WasDetached-cons s seen (WasDetached-before n seen h)

-- What an armed monitor knows of the statuses read since it was armed.
record HasSeen (m : Monitor) (seen : List PortStatus) : Type 0 where
  awake : m.stopping ≡ false
  polled : armed m.hcd ≡ true → m.polls ≡ length seen
  below : armed m.hcd ≡ true → m.polls < max_polls
  stable_below : armed m.hcd ≡ true → m.stable_polls < stable_needed
  attached_for : armed m.hcd ≡ true → AttachedFor m.stable_polls seen
  detached_before :
      armed m.hcd ≡ true → m.detached_observed ≡ true → DetachedBefore m.stable_polls seen
  fresh : m.detached_observed ≡ false → m.stable_polls ≡ 0

work-HasSeen :
    (s : PortStatus) (seen : List PortStatus) (m : Monitor)
    → HasSeen m seen
    → HasSeen (work s m).0 (s ∷ seen)
unfolding work
work-HasSeen unreadable seen m i = ground (arith, WasDetached-before m.stable_polls seen)
work-HasSeen attached seen m i =
    ground
      (arith, AttachedFor-add m.stable_polls seen, DetachedBefore-add m.stable_polls attached seen)
work-HasSeen detached seen m i = ground (arith)

watch-HasSeen : (m : Monitor) (seen : List PortStatus) → HasSeen m [] → HasSeen (watch m seen) seen
unfolding watch
watch-HasSeen m [] i = i
watch-HasSeen m (s ∷ older) i = work-HasSeen s older (watch m older) (watch-HasSeen m older i)

arm-HasSeen :
    (hcd port : ℕ) (m : Monitor) → m.hcd ≡ none → m.stopping ≡ false → HasSeen (arm hcd port m) []
unfolding arm
arm-HasSeen hcd port m free awake = ground arith

notify_facts :
    (seen : List PortStatus) (m : Monitor) (port : ℕ)
    → HasSeen m seen
    → (work attached m).1 ≡ notify port
    → (armed m.hcd ≡ true)
      × (m.detached_observed ≡ true)
      × (m.stable_polls ≡ 14)
      × (port ≡ m.portnum)
unfolding work
notify_facts seen m port i e = ground arith

work_notifies :
    (s : PortStatus) (seen : List PortStatus) (m : Monitor) (port : ℕ)
    → HasSeen m seen
    → (work s m).1 ≡ notify port
    → AttachedFor stable_needed (s ∷ seen)
      × DetachedBefore stable_needed (s ∷ seen)
      × (port ≡ m.portnum)
unfolding work
work_notifies unreadable seen m port i e = ground arith
work_notifies attached seen m port i e =
    let (is_armed, observed, count, same) = notify_facts seen m port i e in
    (
      subst (λ n. AttachedFor n seen) count (i.attached_for is_armed),
      subst (λ n. DetachedBefore n seen) count (i.detached_before is_armed observed),
      same,
    )
work_notifies detached seen m port i e = ground arith

watch-portnum : (m : Monitor) (seen : List PortStatus) → (watch m seen).portnum ≡ m.portnum
unfolding watch work
watch-portnum m [] = refl
watch-portnum m (s ∷ older) = ground (arith, watch-portnum m older)

arm-portnum :
    (hcd port : ℕ) (m : Monitor)
    → m.hcd ≡ none
    → m.stopping ≡ false
    → (arm hcd port m).portnum ≡ port
unfolding arm
arm-portnum hcd port m free awake = ground arith

-- After a monitor that was free and not stopping is armed, user space is told of a return only
-- after the port was seen without a device, and then with one for fifteen polls in a row; and it
-- is told the port that was armed.
pub notify_after_stable_return :
    (hcd port : ℕ) (m : Monitor) (status : PortStatus) (older : List PortStatus) (told : ℕ)
    → m.hcd ≡ none
    → m.stopping ≡ false
    → (work status (watch (arm hcd port m) older)).1 ≡ notify told
    → AttachedFor stable_needed (status ∷ older)
      × DetachedBefore stable_needed (status ∷ older)
      × (told ≡ port)
notify_after_stable_return hcd port m status older told free awake e =
    let seen = watch-HasSeen (arm hcd port m) older (arm-HasSeen hcd port m free awake) in
    let (attached_run, away, same) =
      work_notifies status older (watch (arm hcd port m) older) told seen e in
    (
      attached_run,
      away,
      same ∙ watch-portnum (arm hcd port m) older ∙ arm-portnum hcd port m free awake,
    )

-- Whatever the port shows, a monitor that was free and not stopping when it was armed has let
-- its controller go after six thousand polls.
pub watch_ends :
    (hcd port : ℕ) (m : Monitor) (seen : List PortStatus)
    → m.hcd ≡ none
    → m.stopping ≡ false
    → max_polls ≤ length seen
    → (watch (arm hcd port m) seen).hcd ≡ none
watch_ends hcd port m seen free awake long =
    let i = watch-HasSeen (arm hcd port m) seen (arm-HasSeen hcd port m free awake) in
    ground (arith, i.polled, i.below)
