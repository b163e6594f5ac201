-- ===== src/Threads/Request.antt =====
-- ThreadsCommon_SendRequest and ThreadsCommon_ProcessRequest of src/ThreadsCommon/ThreadsCommon.c.
pub mod Send
pub mod Process
pub mod Runs
use taste_samx_rtems_runtime.Common.Word.{u64, uint32_max, sub64}
use taste_samx_rtems_runtime.Monitor.Log.{
  Log, indicate_interface_activated, indicate_interface_deactivated,
}
use taste_samx_rtems_runtime.Common.{
  ◌>>=◌, List, ℕ, Bool, Option, if◌then◌else◌, get_elem?, ltb, none, ◌+◌, ◌==◌, false, some, set,
  true, ◌∷◌,
}
use taste_samx_rtems_runtime.Monitor.State.{
  Reals, Rtems, Runtime, Status, ThreadInfo, get_queued_items_count, too_many, successful, failed,
}

module _ (R : Reals) where
  -- `update_execution_time_data`, on the row of the thread.
  unfoldable pub update_row : ℕ → ThreadInfo R → ThreadInfo R
  update_row thread_execution_time t = record t {
    min_thread_execution_time =
        if ltb thread_execution_time t.min_thread_execution_time
        then thread_execution_time
        else t.min_thread_execution_time;
    max_thread_execution_time =
        if ltb t.max_thread_execution_time thread_execution_time
        then thread_execution_time
        else t.max_thread_execution_time;
    mean_thread_execution_time = R.add t.mean_thread_execution_time (
        R.divide (R.subtract (R.of_nat thread_execution_time) t.mean_thread_execution_time)
          (R.add (R.of_nat t.execution_time_counter) (R.of_nat 1)));
    execution_time_counter = u64 (t.execution_time_counter + 1);
  }

module _ (R : Reals) (O : Rtems) where
  -- `Monitor_IndicateInterfaceActivated` and `..Deactivated` with the time that they read, which is
  -- not read while the log is frozen.
  abbrev pub indicate :
      (ℕ → Log → Option (Bool × Log)) → (ℕ → ℕ) → Runtime R O → Option (Runtime R O)
  indicate operation time s = elim (operation (time s.readings) s.log) [
    | none ↦ none
    | some (logged, l) ↦
        some (record s { log = l; readings = if logged then s.readings + 1 else s.readings })
  ]

  -- The middle of `ThreadsCommon_ProcessRequest`: the user function between two readings of the time.
  abbrev pub execute :
      (ℕ → ℕ) → (Runtime R O → Option (Runtime R O)) → Runtime R O → Option (ℕ × Runtime R O)
  execute time user_function s = elim (user_function (record s { readings = s.readings + 1 })) [
    | none ↦ none
    | some s' ↦
        some (sub64 (time s'.readings) (time s.readings), record s' { readings = s'.readings + 1 })
  ]

  -- The end of `ThreadsCommon_ProcessRequest`.
  abbrev pub store_execution_time : ℕ → ℕ → Runtime R O → Option (Runtime R O)
  store_execution_time thread_id d s = elim (get_elem? s.threads_info thread_id) [
    | none ↦ none
    | some t ↦ some (record s {
      threads_info =
          set s.threads_info thread_id (update_row R d (record t { thread_execution_time = d }));
    })
  ]

  -- `ThreadsCommon_ProcessRequest`, with the user function on its request. Reading number `k` of the
  -- time gives `time k`.
  unfoldable pub process_request :
      (ℕ → ℕ) → (Runtime R O → Option (Runtime R O)) → ℕ → Runtime R O → Option (Bool × Runtime R O)
  process_request time user_function thread_id s0 = do
    s1 ← indicate (indicate_interface_activated thread_id) time s0
    (d, s2) ← execute time user_function s1
    s3 ← indicate (indicate_interface_deactivated thread_id) time s2
    s4 ← store_execution_time thread_id d s3
    some (true, s4)

  -- The update of `maximum_queued_items`.
  abbrev pub raise_maximum : ℕ → ℕ → Runtime R O → Option (Runtime R O)
  raise_maximum thread_id count s =
      if count == uint32_max then some s else elim (get_elem? s.maximum_queued_items thread_id) [
        | none ↦ none
        | some highest ↦ some (
            if ltb highest count
            then record s { maximum_queued_items = set s.maximum_queued_items thread_id count }
            else s)
      ]

  -- The reply, and the call of the overflow callback.
  abbrev pub reply_sent : ℕ → Status → Runtime R O → Bool × Runtime R O
  reply_sent thread_id too_many s = elim s.overflow_callback [
    | none ↦ (false, s)
    | some f ↦ (true, record s { overflow_calls = (f, thread_id, 1) ∷ s.overflow_calls })
  ]
  reply_sent thread_id successful s = (true, s)
  reply_sent thread_id failed s = (false, s)

  -- `ThreadsCommon_SendRequest`
  unfoldable pub send_request : List ℕ → ℕ → ℕ → Runtime R O → Option (Bool × Runtime R O)
  send_request request queue_id thread_id s =
      let (result, queues) = O.send queue_id request s.queues in
      let sent = record s { queues = queues } in
      elim (get_queued_items_count R O thread_id sent) [
        | none ↦ none
        | some count ↦ elim (raise_maximum thread_id count sent) [
          | none ↦ none
          | some s' ↦ some (reply_sent thread_id result s')
        ]
      ]
