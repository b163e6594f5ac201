-- ===== src/Monitor/State.antt =====
-- The state that src/Monitor/Monitor.c and src/ThreadsCommon/ThreadsCommon.c share, with the
-- operations of the monitor on queues, execution times and the idle thread.
pub mod Idle
use taste_samx_rtems_runtime.Common.Word.{u64, uint32_max, u32}
use taste_samx_rtems_runtime.Monitor.Log.{Log}
use taste_samx_rtems_runtime.Common.{
  Bool, List, Option, ℕ, get_elem?, suc, true, set, zero, none, some, if◌then◌else◌, ◌==◌,
}

-- The arithmetic of `float` or `double`, with the conversions from and to `uint64_t`.
pub record Reals : Type 1 where
  pub Real : Type 0
  pub zero_real : Real
  pub is_less : Real → Real → Bool
  pub add : Real → Real → Real
  pub subtract : Real → Real → Real
  pub divide : Real → Real → Real
  pub of_nat : ℕ → Real
  pub to_nat : Real → ℕ

-- The rows of `threads_info` that the code uses.
pub record ThreadInfo (R : Reals) : Type 0 where
  pub thread_execution_time : ℕ
  pub min_thread_execution_time : ℕ
  pub max_thread_execution_time : ℕ
  pub mean_thread_execution_time : R.Real
  pub execution_time_counter : ℕ

-- What `rtems_message_queue_send` returns, where the code tells it apart.
pub data Status : Type 0 where
  successful too_many failed : Status

-- The message queues of RTEMS: what sending to a queue returns and leaves, and how many messages
-- are pending in a queue.
pub record Rtems : Type 1 where
  pub Queues : Type 0
  pub send : ℕ → List ℕ → Queues → Status × Queues
  pub pending : ℕ → Queues → Option ℕ

-- The arrays of interfaces_info.h, the log, the overflow callback with the calls that were made of it
-- (callback, interface, number of messages; latest first), and how often the time was read.
pub record Runtime (R : Reals) (O : Rtems) : Type 0 where
  pub threads_info : List (ThreadInfo R)
  pub interface_to_queue_map : List ℕ
  pub maximum_queued_items : List ℕ
  pub queues : O.Queues
  pub overflow_callback : Option ℕ
  pub overflow_calls : List (ℕ × ℕ × ℕ)
  pub log : Log
  pub readings : ℕ

-- RTEMS_ID_NONE
abbrev pub id_none : ℕ
id_none = 0

module _ (R : Reals) (O : Rtems) where
  -- The loop of `Monitor_Init` over `maximum_queued_items`.
  unfoldable pub reset_maximum : ℕ → List ℕ → List ℕ
  reset_maximum zero xs = xs
  reset_maximum (suc i) xs = set (reset_maximum i xs) i 0

  -- `Monitor_Init` on the arrays, of `count` interfaces; State.Idle has its times.
  unfoldable pub monitor_init : ℕ → Runtime R O → Bool × Runtime R O
  monitor_init count s =
      (true, record s { maximum_queued_items = reset_maximum count s.maximum_queued_items })

  -- `Monitor_SetMessageQueueOverflowCallback`
  unfoldable pub set_message_queue_overflow_callback : Option ℕ → Runtime R O → Bool × Runtime R O
  set_message_queue_overflow_callback f s = (true, record s { overflow_callback = f })

  -- `Monitor_GetQueuedItemsCount`. `none` is an access outside the array.
  unfoldable pub get_queued_items_count : ℕ → Runtime R O → Option ℕ
  get_queued_items_count interface s = elim (get_elem? s.interface_to_queue_map interface) [
    | none ↦ none
    | some id ↦
        if id == id_none
        then some uint32_max
        else elim (O.pending id s.queues) [ none ↦ some uint32_max | some count ↦ some (u32 count) ]
  ]

  -- `Monitor_GetMaximumQueuedItemsCount`
  unfoldable pub get_maximum_queued_items_count : ℕ → Runtime R O → Option ℕ
  get_maximum_queued_items_count interface s = get_elem? s.maximum_queued_items interface

  -- `Monitor_GetUsageData`: the maximum, the minimum and the average.
  unfoldable pub get_usage_data : ℕ → Runtime R O → Option (ℕ × ℕ × ℕ)
  get_usage_data interface s = elim (get_elem? s.threads_info interface) [
    | none ↦ none
    | some t ↦ some (
      t.max_thread_execution_time,
      t.min_thread_execution_time,
      u64 (R.to_nat t.mean_thread_execution_time),
    )
  ]
