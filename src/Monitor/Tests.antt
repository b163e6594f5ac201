-- ===== src/Monitor/Tests.antt =====
-- The monitor on concrete values: a log of two places, a stack of four words.
use taste_samx_rtems_runtime.Monitor.Log.Runs.{run_promise, run_log, run_log-start}
use taste_samx_rtems_runtime.Monitor.Log.Readout.{entry_log-index}
use taste_samx_rtems_runtime.Monitor.Stack.Visit.{walk, Usage, get_maximum_stack_usage-Usage}
use taste_samx_rtems_runtime.Monitor.State.Idle.{
  ticks, usage_percent, minimum-ticks, minimum_of, Times,
}
use taste_samx_rtems_runtime.Monitor.State.{Reals}
use taste_samx_rtems_runtime.Monitor.Stack.Mark.{Ends, Searched, find_high_water_mark-Searched}
use taste_samx_rtems_runtime.Monitor.Stack.{Thread, find_high_water_mark, get_maximum_stack_usage}
use taste_samx_rtems_runtime.Common.{
  ℕ, arith, false, if◌then◌else◌, ltb, none, some, ◌+◌, ◌∷◌, [], refl, ◌-◌, ◌≡◌, get_elem?, ◌/◌,
  ◌<◌, min, ◌%◌, ap, suc, zero, List, true, ◌*◌,
}
use taste_samx_rtems_runtime.Monitor.Log.Refine.{
  History, Represents, Simulates, perform_log, activated, promise, perform_log-Simulates, LogCall,
  unfreeze, deactivated, freeze,
}
use taste_samx_rtems_runtime.Monitor.Log.{
  Entry, EntryLog, Log, activation, deactivation, get_interface_activation_entry_log,
  indicate_interface_activated, handle_activation_log_cyclic_buffer, initial_log,
}

abbrev old : Entry
old = record { interface = 9; entry_type = activation; timestamp = 9 }

abbrev e1 : Entry
e1 = record { interface = 1; entry_type = activation; timestamp = 10 }

abbrev e2 : Entry
e2 = record { interface = 1; entry_type = deactivation; timestamp = 20 }

abbrev e3 : Entry
e3 = record { interface = 2; entry_type = activation; timestamp = 30 }

-- Two entries fill the log; the third takes the place of the first.
abbrev two : Log
two = record { is_frozen = false; counter = 2; buffer = e1 ∷ e2 ∷ [] }

abbrev two_history : History
two_history = record { frozen = false; entries = e2 ∷ e1 ∷ [] }

abbrev three : Log
three = record { is_frozen = false; counter = 3; buffer = e3 ∷ e2 ∷ [] }

abbrev three_history : History
three_history = record { frozen = false; entries = e3 ∷ e2 ∷ e1 ∷ [] }

two_stored :
    (i k : ℕ)
    → i + k + 1 ≡ 2
    → k < 2
    → get_elem? (e1 ∷ e2 ∷ []) (i % 2) ≡ get_elem? (e2 ∷ e1 ∷ []) k
two_stored i zero eq lt = rw (ap (λ n. n % 2) (one i eq)) refl
  where
    one : (i : ℕ) → i + 0 + 1 ≡ 2 → i ≡ 1
    one i eq = omega arith
two_stored i (suc zero) eq lt = rw (ap (λ n. n % 2) (nought i eq)) refl
  where
    nought : (i : ℕ) → i + 1 + 1 ≡ 2 → i ≡ 0
    nought i eq = omega arith
two_stored i (suc (suc k)) eq lt = absurd (omega arith)

two-Represents : Represents two two_history
two-Represents = record { frozen = refl; counter = refl; room = omega arith; stored = two_stored }

-- A third entry keeps the log represented, by the theorem itself.
three_log : Simulates (perform_log (activated 2 30) two) (promise (activated 2 30) two_history)
three_log = perform_log-Simulates (activated 2 30) two two_history two-Represents (omega arith)

three-Represents : Represents three three_history
unfolding perform_log promise indicate_interface_activated handle_activation_log_cyclic_buffer
three-Represents = three_log.1

perform_log-Simulates_example :
    Simulates (perform_log (activated 2 30) two) (promise (activated 2 30) two_history)
perform_log-Simulates_example =
    perform_log-Simulates (activated 2 30) two two_history two-Represents (omega arith)

-- Three entries, the latest one in the first place.
entry_log-index_example :
    (l : EntryLog) × (get_interface_activation_entry_log three ≡ some l)
    × (get_elem? l.activation_log l.latest_activation_entry_index ≡ some e3)
    × (l.size_of_activation_log ≡ min 3 2)
entry_log-index_example =
    entry_log-index three three_history three-Represents (omega arith) (omega arith)

-- Two untouched words, then two that were used.
abbrev memory : ℕ → ℕ
memory a = if ltb a 0x2008 then 0xA5A5A5A5 else 7

abbrev thread : Thread
thread = record { id = 5; area = some 0x2000; size = 16 }

abbrev other : Thread
other = record { id = 6; area = none; size = 0 }

find_high_water_mark-Searched_example :
    Ends (find_high_water_mark memory 10 0x2000 16) (Searched memory 0x2000 4)
find_high_water_mark-Searched_example =
    find_high_water_mark-Searched memory 10 0x2000 4 (omega arith) (omega arith)

get_maximum_stack_usage-Usage_example :
    Ends
      (get_maximum_stack_usage
        (λ visitor d. walk visitor (other ∷ thread ∷ []) d)
        memory
        10
        (4 ∷ 5 ∷ [])
        1)
      (Usage memory (some thread))
get_maximum_stack_usage-Usage_example =
    get_maximum_stack_usage-Usage memory 10 (4 ∷ 5 ∷ []) 1 5 refl
      (λ visitor d. walk visitor (other ∷ thread ∷ []) d) (other ∷ thread ∷ []) (λ visitor d. refl)
      ((refl, omega arith, tt), ((refl, omega arith, omega arith), tt))

-- Natural numbers in the place of the floating-point numbers.
abbrev whole : Reals
whole = record {
  Real = ℕ;
  zero_real = 0;
  is_less = ltb;
  add = λ a b. a + b;
  subtract = λ a b. a - b;
  divide = λ a b. a / b;
  of_nat = λ n. n;
  to_nat = λ n. n;
}

nothing_less :
    (integer_val float_val : ℕ)
    → whole.is_less (usage_percent whole integer_val float_val) whole.zero_real ≡ false
nothing_less i f = ground arith

-- Percents and thousandths of a percent.
abbrev percents : ℕ → ℕ → ℕ × ℕ
percents a b = (a * 100 / b, a * 100000 / b % 1000)

abbrev no_times : Times
no_times = record { uptime_at_last_reset = 0; total_usage_time = 0 }

minimum-ticks_example :
    (minimum_of whole percents (ticks whole percents 100 no_times ((40, 300) ∷ (90, 250) ∷ [])) ≡ 0)
    × ((ticks whole percents 100 no_times ((40, 300) ∷ (90, 250) ∷ [])).1.benchmarking_ticks ≡ 2)
    × ((ticks whole percents 100 no_times ((40, 300) ∷ (90, 250) ∷ [])).0.total_usage_time + 100
        ≡ 300)
minimum-ticks_example =
    minimum-ticks whole percents 100 no_times 40 300 ((90, 250) ∷ []) nothing_less (omega arith)
      (omega arith)

abbrev calls_made : List LogCall
calls_made =
    activated 7 1 ∷ unfreeze ∷ activated 1 10 ∷ deactivated 1 20 ∷ activated 2 30 ∷ freeze ∷ []

-- The first call comes while the log is frozen.
promised_run : run_promise calls_made (record { frozen = true; entries = [] }) ≡ (
  false ∷ true ∷ true ∷ true ∷ true ∷ true ∷ [],
  record { frozen = true; entries = e3 ∷ e2 ∷ e1 ∷ [] },
)
unfolding promise
promised_run = refl

run_log-start_example :
    (let promised = run_promise calls_made (record { frozen = true; entries = [] }) in
      (s : Log) × (run_log calls_made (initial_log (old ∷ old ∷ [])) ≡ some (promised.0, s))
      × Represents s (promised.1))
run_log-start_example = run_log-start (old ∷ old ∷ []) calls_made (omega arith) (omega arith)
