-- ===== src/Threads/Tests.antt =====
-- Requests to two threads, over one queue of RTEMS that holds two messages.
use taste_samx_rtems_runtime.Threads.Cyclic.Messages.{message_of, messages, send_in_turn}
use taste_samx_rtems_runtime.Threads.Request.Runs.{send_all, Sending, send_all-maximum}
use taste_samx_rtems_runtime.Threads.Cyclic.Interleaved.{fire_all, Due, create_cyclic_request-Due}
use taste_samx_rtems_runtime.Threads.Cyclic.Drift.{aimed}
use taste_samx_rtems_runtime.Threads.Request.Send.{sent, send_request-sent}
use taste_samx_rtems_runtime.Threads.Cyclic.{
  Cyclic, CyclicRequestData, Timers, create_cyclic_request,
}
use taste_samx_rtems_runtime.Common.{
  ℕ, arith, false, if◌then◌else◌, ltb, some, ◌*◌, ◌+◌, ◌∷◌, [], length, refl, ◌-◌, ◌/◌, ◌≡◌, true,
  set, List,
}
use taste_samx_rtems_runtime.Threads.Request.Process.{
  update_rows, with_entry, Behaves, entry, update_rows-extremes, process_request-logs,
}
use taste_samx_rtems_runtime.Threads.Request.{send_request, process_request, update_row}
use taste_samx_rtems_runtime.Monitor.Log.Refine.{History, Represents}
use taste_samx_rtems_runtime.Monitor.Log.{Log, activation, deactivation}
use taste_samx_rtems_runtime.Monitor.State.{
  Reals, Rtems, Runtime, ThreadInfo, successful, too_many, monitor_init,
  get_maximum_queued_items_count,
}

-- Natural numbers in the place of the floating-point numbers.
abbrev whole : Reals
whole = record {
  Real = ℕ;
  zero_real = 0;
  is_less = ltb;
  add = λ a b. a + b;
  subtract = λ a b. a - b;
  divide = λ a b. a / b;
  of_nat = λ n. n;
  to_nat = λ n. n;
}

-- The number of messages in the queue.
abbrev queue : Rtems
queue = record {
  Queues = ℕ;
  send = λ id request n. if ltb n 2 then (successful, n + 1) else (too_many, n);
  pending = λ id n. some n;
}

abbrev row : ThreadInfo whole
row = record {
  thread_execution_time = 0;
  min_thread_execution_time = 500;
  max_thread_execution_time = 0;
  mean_thread_execution_time = 0;
  execution_time_counter = 0;
}

abbrev empty_log : Log
empty_log = record {
  is_frozen = false;
  counter = 0;
  buffer = entry 0 activation 0 ∷ entry 0 activation 0 ∷ [];
}

abbrev empty_history : History
empty_history = record { frozen = false; entries = [] }

empty-Represents : Represents empty_log empty_history
empty-Represents = record {
  frozen = refl;
  counter = refl;
  room = omega arith;
  stored = λ i k eq. absurd (omega arith);
}

abbrev start : Runtime whole queue
start = record {
  threads_info = row ∷ row ∷ [];
  interface_to_queue_map = 3 ∷ 4 ∷ [];
  maximum_queued_items = 0 ∷ 1 ∷ [];
  queues = 2;
  overflow_callback = some 77;
  overflow_calls = [];
  log = empty_log;
  readings = 0;
}

send_request-sent_example :
    send_request whole queue (1 ∷ []) 4 1 start
    ≡ some (true, sent whole queue start too_many 2 1 4 1)
send_request-sent_example = send_request-sent whole queue start (1 ∷ []) 4 1 4 1 refl refl

-- Two sends to thread 1, after which a thread has taken both messages, and one to thread 0.
abbrev sends : List (Sending queue)
sends =
    record { meanwhile = λ q. 0; request = 1 ∷ []; queue_id = 4; thread_id = 1 }
    ∷ record { meanwhile = λ q. q; request = 2 ∷ []; queue_id = 4; thread_id = 1 }
    ∷ record { meanwhile = λ q. 0; request = 3 ∷ []; queue_id = 3; thread_id = 0 }
    ∷ []

send_all-maximum_example :
    (s' : Runtime whole queue) × (send_all whole queue sends (monitor_init whole queue 2 start).1
      ≡ some s')
    × (get_maximum_queued_items_count whole queue 1 s' ≡ some 2)
send_all-maximum_example =
    send_all-maximum whole queue 2 sends 1 4 start (omega arith) (omega arith)
      (omega arith, omega arith, (omega arith, omega arith, (omega arith, omega arith, tt))) refl

update_rows-extremes_example :
    ((update_rows whole (30 ∷ 900 ∷ []) row).min_thread_execution_time ≡ 30)
    × ((update_rows whole (30 ∷ 900 ∷ []) row).max_thread_execution_time ≡ 900)
    × ((update_rows whole (30 ∷ 900 ∷ []) row).execution_time_counter ≡ 2)
update_rows-extremes_example = update_rows-extremes whole (30 ∷ 900 ∷ []) row (omega arith)

-- Reading number `k` of the time gives `100 * k`, and the user function does nothing.
abbrev time : ℕ → ℕ
time k = 100 * k

abbrev first_history : History
first_history = with_entry (entry 1 activation 0) empty_history

behaves :
    (l : Log)
    → Represents l first_history
    → (let a = record start { log = l; readings = 0 + 1 + 1 } in
        Behaves whole queue time (λ s. some s) a a first_history)
behaves l r = record {
  returns = refl;
  same_rows = refl;
  logged = r;
  thawed = refl;
  room = omega arith;
}

process_request-logs_example :
    (l : Log) × (s' : Runtime whole queue) × ((process_request whole queue time
          (λ s. some s)
          1
          start
        ≡ some (true, s'))
      × Represents l first_history
      × Represents s'.log (with_entry (entry 1 deactivation 300) first_history)
      × (s'.threads_info
          ≡ set
              (row ∷ row ∷ [])
              1
              (update_row whole 100 (record row { thread_execution_time = 100 }))))
process_request-logs_example =
    process_request-logs whole queue time (λ s. some s) 1 start empty_history row (λ s. s)
      first_history empty-Represents refl (omega arith) refl behaves

abbrev timers : Timers
timers = record { created = λ es. some 8; ticks_since_boot = λ es. 1000 * length es }

abbrev blank : CyclicRequestData
blank = record {
  timer_id = 0;
  next_wakeup_ticks = 0;
  interval_ticks = 0;
  queue_id = 0;
  request_size = 0;
}

abbrev no_requests : Cyclic
no_requests = record { count = 0; requests = blank ∷ []; history = [] }

-- Three firings, the second one of another row.
abbrev two_rows : Cyclic
two_rows = record no_requests { requests = blank ∷ blank ∷ [] }

create_cyclic_request-Due_example :
    (s1 : Cyclic) × (s2 : Cyclic) × ((create_cyclic_request timers
          (λ ns. ns / 1000)
          5000
          2000
          4
          16
          two_rows
        ≡ some (true, s1))
      × (fire_all timers (0 ∷ 1 ∷ 0 ∷ []) s1 ≡ some s2)
      × (message_of s1.requests 0 ≡ some (4, 16))
      × (messages s2.history
          ≡ send_in_turn (message_of s1.requests) (0 ∷ 1 ∷ 0 ∷ []) (messages s1.history))
      × Due timers 0 (aimed timers 8 2 5 4 16 2) s2)
create_cyclic_request-Due_example =
    create_cyclic_request-Due timers (λ ns. ns / 1000) 5000 2000 4 16 8 (0 ∷ 1 ∷ 0 ∷ []) two_rows
      (omega arith) (omega arith) refl (omega arith, (omega arith, (omega arith, tt)))
