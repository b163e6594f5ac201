-- ===== src/Monitor/Log/Runs.antt =====
-- The activation log over any sequence of calls from the start.
use taste_samx_rtems_runtime.Monitor.Log.Refine.{
  promise, History, LogCall, Represents, note, activated, perform_log, Simulates, deactivated,
  freeze, unfreeze, clear, perform_log-Simulates,
}
use taste_samx_rtems_runtime.Monitor.Log.{Entry, Log, initial_log, activation, deactivation}
use taste_samx_rtems_runtime.Common.{
  List, Bool, length, ◌<◌, Option, ◌^◌, ◌∷◌, ◌≤◌, [], some, true, ◌+◌, arith, ◌≡◌, refl, ◌>>=◌, ap,
  none,
}

-- The calls one after the other, with their replies.
abbrev pub run_log : List LogCall → Log → Option (List Bool × Log)
run_log [] s = some ([], s)
run_log (c ∷ cs) s = perform_log c s >>= λ r. run_log cs (r.1) >>= λ t. some (r.0 ∷ t.0, t.1)

abbrev pub run_promise : List LogCall → History → List Bool × History
run_promise [] h = ([], h)
run_promise (c ∷ cs) h = let r = promise c h in let t = run_promise cs (r.1) in (r.0 ∷ t.0, t.1)

length-note : (e : Entry) (h : History) → length (note e h).1.entries ≤ length h.entries + 1
length-note e h = ground arith

length-promise : (c : LogCall) (h : History) → length (promise c h).1.entries ≤ length h.entries + 1
unfolding promise
length-promise (activated i now) h =
    length-note (record { interface = i; entry_type = activation; timestamp = now }) h
length-promise (deactivated i now) h =
    length-note (record { interface = i; entry_type = deactivation; timestamp = now }) h
length-promise freeze h = omega arith
length-promise unfreeze h = omega arith
length-promise clear h = omega arith

-- The run behind a call that left what `p` promises.
abbrev Continues : List LogCall → Bool × History → Type 0
Continues cs p =
    (s1 : Log)
    → Represents s1 (p.1)
    → (s' : Log) × (run_log cs s1 ≡ some ((run_promise cs (p.1)).0, s'))
      × Represents s' (run_promise cs (p.1)).1

run_log-Represents :
    (cs : List LogCall) (s : Log) (h : History)
    → Represents s h
    → length h.entries + length cs < 2 ^ 64
    → (s' : Log) × (run_log cs s ≡ some ((run_promise cs h).0, s'))
      × Represents s' (run_promise cs h).1
run_log-Represents [] s h r small = (s, refl, r)
run_log-Represents (c ∷ cs) s h r small =
    go (λ s1 r1. run_log-Represents cs s1 (promise c h).1 r1 (omega (arith, length-promise c h)))
      (perform_log c s) refl (perform_log-Simulates c s h r (omega arith))
  where
    go :
        Continues cs (promise c h)
        → (o : Option (Bool × Log)) → perform_log c s ≡ o
        → Simulates o (promise c h)
        → (s' : Log) × (run_log (c ∷ cs) s ≡ some ((run_promise (c ∷ cs) h).0, s'))
          × Represents s' (run_promise (c ∷ cs) h).1
    go rest none e sim = elim sim [ ]
    go rest (some (b, s1)) e sim =
        let (s', e', r') = rest s1 (sim.1) in
        let replies : some (b ∷ (run_promise cs (promise c h).1).0, s')
            ≡ some ((promise c h).0 ∷ (run_promise cs (promise c h).1).0, s') =
          ap (λ x. some (x ∷ (run_promise cs (promise c h).1).0, s')) (sim.0) in
        (s', rw (e, e', run_log) replies, r')

-- From the start, over a memory of at least one entry, every sequence of less than 2 ^ 64 calls of the
-- log replies as is promised, and leaves a buffer that represents the entries that are promised:
-- those since the last clearing, without those that came while the log was frozen, as it is at start.
pub run_log-start :
    (memory : List Entry) (cs : List LogCall)
    → 0 < length memory
    → length cs < 2 ^ 64
    → (let promised = run_promise cs (record { frozen = true; entries = [] }) in
        (s : Log) × (run_log cs (initial_log memory) ≡ some (promised.0, s))
        × Represents s (promised.1))
run_log-start memory cs room few =
    run_log-Represents cs (initial_log memory) (record { frozen = true; entries = [] })
      (record {
        frozen = refl;
        counter = refl;
        room = room;
        stored = λ i k eq. absurd (omega arith);
      })
      (omega arith)
