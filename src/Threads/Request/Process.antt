-- ===== src/Threads/Request/Process.antt =====
-- What ThreadsCommon_ProcessRequest leaves in the log and in the execution times.
use taste_samx_rtems_runtime.Common.Word.{sub64}
use taste_samx_rtems_runtime.Monitor.Log.Refine.{
  History, Simulates, promise, Represents, perform_log-Simulates, activated, deactivated, note,
  perform_log,
}
use taste_samx_rtems_runtime.Threads.Request.{
  update_row, indicate, process_request, execute, store_execution_time,
}
use taste_samx_rtems_runtime.Monitor.State.{Reals, Rtems, Runtime, ThreadInfo}
use taste_samx_rtems_runtime.Monitor.Log.{
  Entry, EntryType, Log, indicate_interface_activated, indicate_interface_deactivated, activation,
  deactivation,
}
use taste_samx_rtems_runtime.Common.{
  Option, ℕ, Bool, List, ◌∷◌, [], max, min, ◌<◌, ◌≡◌, some, ◌^◌, ap, false, ◌+◌, length, none, ◌%◌,
  arith, refl, true, subst, if◌then◌else◌, get_elem?, set, ◌∙◌,
}

abbrev pub entry : ℕ → EntryType → ℕ → Entry
entry thread_id t now = record { interface = thread_id; entry_type = t; timestamp = now }

abbrev pub with_entry : Entry → History → History
with_entry e h = record h { entries = e ∷ h.entries }

-- The row of the thread after the update for a sequence of durations, latest first.
abbrev pub update_rows : (R : Reals) → List ℕ → ThreadInfo R → ThreadInfo R
update_rows R [] t = t
update_rows R (d ∷ ds) t = update_row R d (update_rows R ds t)

abbrev pub lowest : ℕ → List ℕ → ℕ
lowest n [] = n
lowest n (d ∷ ds) = min d (lowest n ds)

abbrev pub highest : ℕ → List ℕ → ℕ
highest n [] = n
highest n (d ∷ ds) = max d (highest n ds)

-- From a 64-bit counter, after any sequence of requests the recorded extremes are those of the
-- durations and the values before, and the counter has counted the requests, modulo 2 ^ 64.
pub update_rows-extremes :
    (R : Reals) (ds : List ℕ) (t : ThreadInfo R)
    → t.execution_time_counter < 2 ^ 64
    → ((update_rows R ds t).min_thread_execution_time ≡ lowest t.min_thread_execution_time ds)
      × ((update_rows R ds t).max_thread_execution_time ≡ highest t.max_thread_execution_time ds)
      × ((update_rows R ds t).execution_time_counter
          ≡ (t.execution_time_counter + length ds) % 2 ^ 64)
unfolding update_row
update_rows-extremes R [] t lt = (refl, refl, omega arith)
update_rows-extremes R (d ∷ ds) t lt =
    let (low, high, count) = update_rows-extremes R ds t lt in
    (ground (arith, low), ground (arith, high), omega (arith, count))

module _ (R : Reals) (O : Rtems) (time : ℕ → ℕ) where
  -- An indication on a log that is not frozen.
  abbrev pub Logged : (ℕ → Log → Option (Bool × Log)) → Entry → Runtime R O → History → Type 0
  Logged operation e s h =
      (l : Log) × (indicate R O operation time s
        ≡ some (record s { log = l; readings = s.readings + 1 }))
      × Represents l (with_entry e h)

  recorded :
      (operation : ℕ → Log → Option (Bool × Log)) (e : Entry) (s : Runtime R O) (h : History)
      → Simulates (operation (time s.readings) s.log) (note e h)
      → h.frozen ≡ false
      → Logged operation e s h
  recorded operation e s h sim thawed = go (operation (time s.readings) s.log) refl sim
    where
      go :
          (o : Option (Bool × Log))
          → operation (time s.readings) s.log ≡ o
          → Simulates o (note e h)
          → (l : Log) × (indicate R O operation time s
              ≡ some (record s { log = l; readings = s.readings + 1 }))
            × Represents l (with_entry e h)
      go none eq sim = elim sim [ ]
      go (some (b, l)) eq sim =
          let sim' =
            subst (λ f. Simulates (some (b, l)) (if f then (false, h) else (true, with_entry e h)))
              thawed sim in
          (l, ground (arith, eq, sim'.0), sim'.1)

  activated-Logged :
      (thread_id : ℕ) (s : Runtime R O) (h : History)
      → Represents s.log h
      → h.frozen ≡ false
      → length h.entries + 1 < 2 ^ 64
      → Logged
          (indicate_interface_activated thread_id)
          (entry thread_id activation (time s.readings))
          s
          h
  unfolding perform_log promise
  activated-Logged thread_id s h r thawed room =
      recorded (indicate_interface_activated thread_id)
        (entry thread_id activation (time s.readings)) s h
        (perform_log-Simulates (activated thread_id (time s.readings)) s.log h r room) thawed

  deactivated-Logged :
      (thread_id : ℕ) (s : Runtime R O) (h : History)
      → Represents s.log h
      → h.frozen ≡ false
      → length h.entries + 1 < 2 ^ 64
      → Logged
          (indicate_interface_deactivated thread_id)
          (entry thread_id deactivation (time s.readings))
          s
          h
  unfolding perform_log promise
  deactivated-Logged thread_id s h r thawed room =
      recorded (indicate_interface_deactivated thread_id)
        (entry thread_id deactivation (time s.readings)) s h
        (perform_log-Simulates (deactivated thread_id (time s.readings)) s.log h r room) thawed

  -- What the user function leaves: it returns, and the log is represented and not frozen.
  pub record Behaves (user_function : Runtime R O → Option (Runtime R O)) (a u : Runtime R O)
      (h' : History) : Type 0 where
    pub returns : user_function a ≡ some u
    pub same_rows : u.threads_info ≡ a.threads_info
    pub logged : Represents u.log h'
    pub thawed : h'.frozen ≡ false
    pub room : length h'.entries + 1 < 2 ^ 64

  execute-returns :
      (user_function : Runtime R O → Option (Runtime R O)) (s u : Runtime R O)
      → user_function (record s { readings = s.readings + 1 }) ≡ some u
      → execute R O time user_function s
        ≡ some (sub64 (time u.readings) (time s.readings), record u { readings = u.readings + 1 })
  execute-returns user_function s u e = rw (e, execute) refl

  store-row :
      (thread_id d : ℕ) (s : Runtime R O) (t : ThreadInfo R)
      → get_elem? s.threads_info thread_id ≡ some t
      → store_execution_time R O thread_id d s
        ≡ some (record s {
          threads_info =
              set s.threads_info thread_id
                (update_row R d (record t { thread_execution_time = d }));
        })
  store-row thread_id d s t e = rw (e, store_execution_time) refl

  -- For a thread with a row, if the log is represented and not frozen before the request and after
  -- the user function, with less than 2 ^ 64 entries, and the user function returns and keeps the
  -- rows of the threads, then the request returns true. The log has an activation with the time of
  -- the first reading and, behind what the user function logs, a deactivation with the time of the
  -- last; the row of the thread is updated with the time between the two readings around the user
  -- function, modulo 2 ^ 64.
  pub process_request-logs :
      (user_function : Runtime R O → Option (Runtime R O)) (thread_id : ℕ) (s : Runtime R O)
      (h : History) (t : ThreadInfo R) (user : Runtime R O → Runtime R O) (user_history : History)
      → Represents s.log h
      → h.frozen ≡ false
      → length h.entries + 1 < 2 ^ 64
      → get_elem? s.threads_info thread_id ≡ some t
      → ((l : Log)
          → Represents l (with_entry (entry thread_id activation (time s.readings)) h)
          → (let a = record s { log = l; readings = s.readings + 1 + 1 } in
              Behaves user_function a (user a) user_history))
      → (l : Log) × (s' : Runtime R O) × (let u =
            user (record s { log = l; readings = s.readings + 1 + 1 }) in
          let d = sub64 (time u.readings) (time (s.readings + 1)) in
          (process_request R O time user_function thread_id s ≡ some (true, s'))
          × Represents l (with_entry (entry thread_id activation (time s.readings)) h)
          × Represents s'.log
              (with_entry (entry thread_id deactivation (time (u.readings + 1))) user_history)
          × (s'.threads_info
              ≡ set s.threads_info thread_id
                  (update_row R d (record t { thread_execution_time = d }))))
  unfolding process_request
  process_request-logs user_function thread_id s h t user user_history r thawed room row behaves =
      let (l, e1, r1) = activated-Logged thread_id s h r thawed room in
      let a : Runtime R O = record s { log = l; readings = s.readings + 1 + 1 } in
      let b : Behaves user_function a (user a) user_history = behaves l r1 in
      let d : ℕ = sub64 (time (user a).readings) (time (s.readings + 1)) in
      let s1 : Runtime R O = record s { log = l; readings = s.readings + 1 } in
      let s2 : Runtime R O = record (user a) { readings = (user a).readings + 1 } in
      let (l', e3, r3) = deactivated-Logged thread_id s2 user_history b.logged b.thawed b.room in
      let s3 : Runtime R O = record s2 { log = l'; readings = s2.readings + 1 } in
      let t' : ThreadInfo R = update_row R d (record t { thread_execution_time = d }) in
      let e2 : execute R O time user_function s1 ≡ some (d, s2) =
        execute-returns user_function s1 (user a) b.returns in
      let row' : get_elem? s3.threads_info thread_id ≡ some t =
        ap (λ rows. get_elem? rows thread_id) b.same_rows ∙ row in
      let e4 : store_execution_time R O thread_id d s3
          ≡ some (record s3 { threads_info = set s3.threads_info thread_id t' }) =
        store-row thread_id d s3 t row' in
      (
        l,
        record s3 { threads_info = set s3.threads_info thread_id t' },
        (rw (e1, e2, e3, e4) refl, r1, r3, ap (λ rows. set rows thread_id t') b.same_rows),
      )
