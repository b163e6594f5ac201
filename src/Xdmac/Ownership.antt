-- ===== src/Xdmac/Ownership.antt =====
-- The life of a channel over every run of src/Xdmac/xdmad.c: calls of the clients, allocations,
-- interrupts and polls in any order, with a controller and a lock that answer as they like.
pub mod Cycle
pub mod Ends
pub mod Reentrant
pub mod Held
use taste_samx_rtems_runtime.Common.{
  ℕ, ◌+◌, ◌<◌, ◌≤◌, ◌≡◌, ◌≢◌, ◌⊎◌, inl, inr, refl, sym, subst, ap, ◌∙◌, not, ◌&&◌, ◌==◌,
  get_elem?-some, Bool, true, false, Option, none, some, leb, length, get_elem?, set, arith,
  Bool-cases, get_elem?-set_self, get_elem?-set_ne, lt-of-get_elem?, if◌then◌else◌, length-set,
}
use native.Mathlib.Decide.{ℕ_discrete, dec_lt}
use taste_samx_rtems_runtime.Xdmac.Machine.{
  World, Machine, XdmadRc, XdmadState, free, allocated, start, in_xfr, done, halted, XdmadChannel,
  Xdmad,
}
use taste_samx_rtems_runtime.Xdmac.Driver.{
  channel_index, allocate_channel, alloc_failed, with_state,
}
use taste_samx_rtems_runtime.Xdmac.Interface.{PeripheralIds}
use taste_samx_rtems_runtime.Xdmac.Handler.{handler, is_transfer_done}
use taste_samx_rtems_runtime.Xdmac.Lifecycle.{
  Command, next, apply, step, release, prepare, configure, begin, stop, subscribe, with_list, noted,
}
use taste_samx_rtems_runtime.Xdmac.Commands.{Call, perform, command, target, perform_refines, Does}
use taste_samx_rtems_runtime.Xdmac.Interrupts.Round.{Serviced, kept, completed}
use taste_samx_rtems_runtime.Xdmac.Interrupts.{handler-Handled}
use taste_samx_rtems_runtime.Xdmac.Valid.{IsPassive, IsValid, HasType, Returns, Returns-at}
use taste_samx_rtems_runtime.Xdmac.Polling.{
  Polled, is_busy, is_transfer_done-Polled, is_transfer_done-out,
}
use taste_samx_rtems_runtime.Xdmac.Allocation.{
  Outcome, Taken, took, full, given, is_transferable, allocate_channel-Outcome,
}
use Held.{Owned, Holds, Holds-same, Holds-IsKept}
use Reentrant.{handler-kept, is_transfer_done-kept}
use Cycle.{
  Life, Lives, Frees, stays, claimed, Lives-same, Lives-with_list, apply-Lives, Handled-Lives,
}

-- One event in the life of the driver: a call, or an interrupt or a poll whose callbacks return and do
-- not call the driver.
pub data Event (ids : PeripheralIds) (g : ℕ) (m m' : Machine) : Type 0 where
  called : (w : World) (k : Call) (rc : XdmadRc) → perform k w m ≡ some (rc, m') → Event ids g m m'
  allocating :
      (w : World) (src dst ch : ℕ)
      → HasType w g
      → allocate_channel ids src dst w m ≡ some (ch, m')
      → Event ids g m m'
  interrupted : (w : World) → IsPassive w → handler w m ≡ some (tt, m') → Event ids g m m'
  polled :
      (w : World) (dw : ℕ) (rc : XdmadRc)
      → IsPassive w
      → is_transfer_done dw w m ≡ some (rc, m')
      → Event ids g m m'

-- The channels that an event may free: the target of XDMAD_FreeChannel.
abbrev pub Freed : {ids : PeripheralIds} {g : ℕ} {m m' : Machine} → Event ids g m m' → ℕ → Type 0
Freed (called w k rc e) j = Frees (command k) (channel_index (target k)) j
Freed (allocating w src dst ch t e) j = ⊥
Freed (interrupted w passive e) j = ⊥
Freed (polled w dw rc passive e) j = ⊥

machine_of :
    {A : Type 0} {a b : A} {m m' : Machine}
    → ◌≡◌ {A = Option (A × Machine)} (some (a, m)) (some (b, m'))
    → m ≡ m'
machine_of e = cc

polled-Lives :
    (w : World) (m : Machine) (b : Bool) (m' : Machine)
    → Polled w m b m'
    → Lives (λ _. ⊥) m.driver m'.driver
polled-Lives w m true m' h = Handled-Lives (λ _. ⊥) h
polled-Lives w m false m' h = rw (h.0) (Lives-same (λ _. ⊥) m.driver)

allocated-Lives :
    (ids : PeripheralIds) (g src dst : ℕ) (b : Bool) (d d' : Xdmad) (ch : ℕ)
    → Outcome ids g src dst b d d' ch
    → Lives (λ _. ⊥) d d'
allocated-Lives ids g src dst true d d' ch (took c p q e vacant busy same) = rw same (
    Lives-with_list (λ _. ⊥) d ch c (given ids g src dst c) e (claimed vacant refl)
      (λ h _. absurd (h vacant)))
allocated-Lives ids g src dst true d d' ch (full failed busy same) = rw same (Lives-same (λ _. ⊥) d)
allocated-Lives ids g src dst false d d' ch h = rw h.1 (Lives-same (λ _. ⊥) d)

-- Whatever call, allocation, interrupt or poll happens to a valid driver, where the callbacks of
-- interrupts and polls return and do not call the driver, every channel stays or moves along one edge of the life cycle:
-- free to allocated, done or halted to free, any owned state but started to started, any owned state
-- to done, any state to halted. Only XDMAD_FreeChannel on a channel makes it free.
pub Event-Lives :
    {ids : PeripheralIds} {g : ℕ} {m m' : Machine} (s : Event ids g m m')
    → IsValid m
    → Lives (Freed s) m.driver m'.driver
Event-Lives {m = m} (called w k rc e) v =
    let r = Returns-at (Does (command k) (target k) m) (perform_refines w m k v) e in
    rw (ap (λ (p : XdmadRc × Xdmad). p.1) r.0)
      (apply-Lives (command k) (channel_index (target k)) m.driver)
Event-Lives {ids = ids} {g = g} {m = m} {m' = m'} (allocating w src dst ch t e) v =
    allocated-Lives ids g src dst (w.obtains m.events && is_transferable ids g src dst) m.driver
      m'.driver ch (Returns-at _ (allocate_channel-Outcome ids w g src dst t m v) e).0
Event-Lives {m = m} (interrupted w passive e) v =
    Handled-Lives (λ _. ⊥) (Returns-at _ (handler-Handled w m v passive) e).0
Event-Lives {m = m} {m' = m'} (polled w dw rc passive e) v =
    elim (dec_lt (channel_index dw) m.driver.num_channels) [
      | yes within ↦
          (let (c, f) =
              get_elem?-some m.driver.channels (channel_index dw)
                (omega (arith, v.size, v.count)) in
            polled-Lives w m (is_busy c.state && not (m.driver.polling_mode == 0)) m'
              (Returns-at _ (is_transfer_done-Polled w m v passive dw c within f) e).1)
      | no out ↦
          (let same : m.driver ≡ m'.driver =
              ap (λ (x : Machine). x.driver)
                (machine_of (sym (is_transfer_done-out w m v passive dw (omega arith)) ∙ e)) in
            rw (← same) (Lives-same (λ _. ⊥) m.driver))
    ]

-- A valid driver stays valid.
pub Event-IsValid :
    {ids : PeripheralIds} {g : ℕ} {m m' : Machine} → Event ids g m m' → IsValid m → IsValid m'
Event-IsValid s v =
    let l = Event-Lives s v in record { size = l.size ∙ v.size; count = rw (l.count) v.count }

-- A run, with none of its events freeing channel `j`. Interrupts and polls may have callbacks that
-- make such runs themselves, and whatever does not touch the driver may happen.
pub data RunKeeping (ids : PeripheralIds) (g j : ℕ) : Machine → Machine → Type 0 where
  here : {m : Machine} → RunKeeping ids g j m m
  next_event :
      {m m1 m2 : Machine}
      → RunKeeping ids g j m m1
      → (s : Event ids g m1 m2) → ¬ Freed s j
      → RunKeeping ids g j m m2
  outside :
      {m m1 m2 : Machine}
      → RunKeeping ids g j m m1
      → m2.driver ≡ m1.driver
      → RunKeeping ids g j m m2
  interrupted_in_turn :
      {m m1 m2 : Machine} (w : World)
      → RunKeeping ids g j m m1
      → ((f i arg : ℕ) (a b : Machine) → w.calls f i arg a ≡ some (tt, b) → RunKeeping ids g j a b)
      → handler w m1 ≡ some (tt, m2)
      → RunKeeping ids g j m m2
  polled_in_turn :
      {m m1 m2 : Machine} (w : World) (dw : ℕ) (rc : XdmadRc)
      → RunKeeping ids g j m m1
      → ((f i arg : ℕ) (a b : Machine) → w.calls f i arg a ≡ some (tt, b) → RunKeeping ids g j a b)
      → is_transfer_done dw w m1 ≡ some (rc, m2)
      → RunKeeping ids g j m m2

RunKeeping-Holds :
    {ids : PeripheralIds} {g j : ℕ} {m m' : Machine}
    → RunKeeping ids g j m m'
    → Holds j m
    → Holds j m'
RunKeeping-Holds here h = h
RunKeeping-Holds {j = j} (next_event r s keeps) h =
    let (v1, held) = RunKeeping-Holds r h in
    let (c', e, life, owned) = (Event-Lives s v1).each j held.0 held.1 in
    (Event-IsValid s v1, (c', e, owned held.2 keeps))
RunKeeping-Holds {j = j} (outside {m} {m1} {m2} r same) h =
    Holds-same j m1 m2 same (RunKeeping-Holds r h)
RunKeeping-Holds {j = j} (interrupted_in_turn {m} {m1} {m2} w r calls e) h =
    handler-kept w (Holds j)
      (Holds-IsKept j w (λ f i arg a b q. RunKeeping-Holds (calls f i arg a b q))) m1 m2
      (RunKeeping-Holds r h) e
RunKeeping-Holds {j = j} (polled_in_turn {m} {m1} {m2} w dw rc r calls e) h =
    is_transfer_done-kept w (Holds j)
      (Holds-IsKept j w (λ f i arg a b q. RunKeeping-Holds (calls f i arg a b q))) dw rc m1 m2
      (RunKeeping-Holds r h) e

allocated-Owned :
    (ids : PeripheralIds) (g src dst : ℕ) (b : Bool) (m m' : Machine) (ch : ℕ)
    → IsValid m
    → ch ≢ alloc_failed
    → Outcome ids g src dst b m.driver m'.driver ch
    → Owned ch m'
allocated-Owned ids g src dst true m m' ch v ok (took c p q e vacant busy same) = (
  given ids g src dst c,
  rw same (
      get_elem?-set_self m.driver.channels ch (given ids g src dst c)
        (lt-of-get_elem? m.driver.channels ch e)),
  (λ h. cc),
)
allocated-Owned ids g src dst true m m' ch v ok (full failed busy same) = absurd (ok failed)
allocated-Owned ids g src dst false m m' ch v ok h = absurd (ok h.0)

not_again :
    (ids : PeripheralIds) (g src dst : ℕ) (b : Bool) (m : Machine) (d' : Xdmad) (i ch : ℕ)
    → i ≢ alloc_failed
    → Owned i m
    → Outcome ids g src dst b m.driver d' ch
    → ch ≢ i
not_again ids g src dst true m d' i ch ok o (took c p q e vacant busy same) =
    λ eq. ground (arith, o.1, o.2)
not_again ids g src dst true m d' i ch ok o (full failed busy same) = λ eq. ground arith
not_again ids g src dst false m d' i ch ok o h = λ eq. ground (arith, h.0)

-- On a valid driver, and a controller whose type is constant and within the tables of the code, a
-- channel has one owner: once XDMAD_AllocateChannel has returned it, no later allocation returns
-- it as long as XDMAD_FreeChannel is not called on it, whatever calls, allocations, interrupts and
-- polls happen in between, in any order and with any answers of the controller and the lock. The
-- callbacks of interrupts and polls may call the driver in the same way.
pub allocation_exclusive :
    (ids : PeripheralIds) (g : ℕ) (w w' : World) (src dst ch src' dst' ch' : ℕ)
    (m m1 m2 m3 : Machine)
    → IsValid m
    → HasType w g
    → HasType w' g
    → allocate_channel ids src dst w m ≡ some (ch, m1)
    → ch ≢ alloc_failed
    → RunKeeping ids g ch m1 m2
    → allocate_channel ids src' dst' w' m2 ≡ some (ch', m3)
    → ch' ≢ ch
allocation_exclusive ids g w w' src dst ch src' dst' ch' m m1 m2 m3 v t t' e ok run e' =
    let first = Returns-at _ (allocate_channel-Outcome ids w g src dst t m v) e in
    let v1 : IsValid m1 = Event-IsValid {ids = ids} {g = g} (allocating w src dst ch t e) v in
    let (v2, o) = RunKeeping-Holds run (v1, allocated-Owned ids g src dst _ m m1 ch v ok first.0) in
    let second = Returns-at _ (allocate_channel-Outcome ids w' g src' dst' t' m2 v2) e' in
    not_again ids g src' dst' _ m2 m3.driver ch ch' ok o second.0
