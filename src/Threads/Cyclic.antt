-- ===== src/Threads/Cyclic.antt =====
-- Cyclic requests of src/ThreadsCommon/ThreadsCommon.c: a timer for each, which is armed again when it
-- fires.
pub mod Drift
pub mod Interleaved
pub mod Messages
use taste_samx_rtems_runtime.Common.Word.{u32, sub32}
use taste_samx_rtems_runtime.Common.{
  List, ℕ, Option, Bool, get_elem?, if◌then◌else◌, none, not, some, leb, ◌∷◌, length, ◌+◌, false,
  set, true,
}

-- What the code does to RTEMS. `fire_after` is `rtems_timer_fire_after` with the timer, the delay in
-- ticks and the index that the callback is given; `send` is a send of the empty request to a queue,
-- with its size.
pub data TimerEvent : Type 0 where
  create : TimerEvent
  fire_after : ℕ → ℕ → ℕ → TimerEvent
  send : ℕ → ℕ → TimerEvent

-- How RTEMS answers after a history, latest first: the identifier of a new timer, `none` if it is not
-- created, and `rtems_clock_get_ticks_since_boot`.
pub record Timers : Type 0 where
  pub created : List TimerEvent → Option ℕ
  pub ticks_since_boot : List TimerEvent → ℕ

-- `CyclicRequestData`
pub record CyclicRequestData : Type 0 where
  pub timer_id : ℕ
  pub next_wakeup_ticks : ℕ
  pub interval_ticks : ℕ
  pub queue_id : ℕ
  pub request_size : ℕ

-- `cyclic_requests_count`, `cyclic_request_data` and the history.
pub record Cyclic : Type 0 where
  pub count : ℕ
  pub requests : List CyclicRequestData
  pub history : List TimerEvent

-- The size of `CyclicInterfaceEmptyRequestData`, whose data is aligned to 16 bytes.
abbrev pub empty_request_size : ℕ
empty_request_size = 32

module _ (T : Timers) where
  -- `schedule_next_tick`
  unfoldable pub schedule_next_tick : ℕ → Cyclic → Option Cyclic
  schedule_next_tick index s = elim (get_elem? s.requests index) [
    | none ↦ none
    | some r ↦
        (let next = u32 (r.next_wakeup_ticks + r.interval_ticks) in
          some (record s {
            requests = set s.requests index (record r { next_wakeup_ticks = next });
            history =
                fire_after r.timer_id (sub32 next (u32 (T.ticks_since_boot s.history))) index
                ∷ s.history;
          }))
  ]

  -- `timer_callback`
  unfoldable pub timer_callback : ℕ → Cyclic → Option Cyclic
  timer_callback index s = elim (get_elem? s.requests index) [
    | none ↦ none
    | some r ↦
        schedule_next_tick index (record s { history = send r.queue_id r.request_size ∷ s.history })
  ]

  -- `ThreadsCommon_CreateCyclicRequest`, for an array of the length `RT_MAX_CYCLIC_INTERFACES`.
  -- `to_ticks` is `RTEMS_MILLISECONDS_TO_TICKS` of a number of nanoseconds divided by a million, in
  -- `double`. `none` is a failed assertion.
  unfoldable pub create_cyclic_request : (ℕ → ℕ) → ℕ → ℕ → ℕ → ℕ → Cyclic → Option (Bool × Cyclic)
  create_cyclic_request to_ticks interval_ns dispatch_offset_ns queue_id request_size s =
      if not (leb request_size empty_request_size)
      then none
      else if leb (length s.requests) s.count
      then some (false, s)
      else elim (T.created s.history) [
        | none ↦ some (false, record s { history = create ∷ s.history })
        | some id ↦
            elim (schedule_next_tick s.count (record s {
              requests = set s.requests s.count (record {
                timer_id = id;
                next_wakeup_ticks = u32 (to_ticks dispatch_offset_ns);
                interval_ticks = u32 (to_ticks interval_ns);
                queue_id = queue_id;
                request_size = request_size;
              });
              history = create ∷ s.history;
            })) [ none ↦ none | some s' ↦ some (true, record s' { count = u32 (s'.count + 1) }) ]
      ]
