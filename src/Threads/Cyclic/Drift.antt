-- ===== src/Threads/Cyclic/Drift.antt =====
-- The instants at which a cyclic request fires.
use native.Mathlib.Nat.{mul-suc, mul-one}
use taste_samx_rtems_runtime.Common.Word.{u32, sub32}
use taste_samx_rtems_runtime.Common.{
  ℕ, ◌+◌, Option, get_elem?, some, ◌%◌, ◌≡◌, List, length, suc, ◌^◌, arith, none, set, zero, ◌∷◌,
  get_elem?-set_self, lt-of-get_elem?, length-set, refl, subst, ◌*◌, ◌≤◌, ◌<◌, true, leb, false, ap,
  ◌∙◌,
}
use taste_samx_rtems_runtime.Threads.Cyclic.{
  CyclicRequestData, Timers, schedule_next_tick, Cyclic, TimerEvent, fire_after, timer_callback,
  create_cyclic_request, empty_request_size, create, send,
}

-- The request at an index has this timer, interval, queue and size, is to wake up at `next`, and the
-- latest event asked RTEMS to fire its timer, with the delay up to that instant modulo 2 ^ 32, `now`
-- being the time of this call.
pub record Armed (T : Timers) (index : ℕ) (r : CyclicRequestData) (s : Cyclic) : Type 0 where
  pub row : get_elem? s.requests index ≡ some r
  pub now : ℕ
  pub delay : ℕ
  pub before : List TimerEvent
  pub armed : s.history ≡ fire_after r.timer_id delay index ∷ before
  pub read : now ≡ T.ticks_since_boot before
  pub short : delay < 2 ^ 32
  pub on_time : (now + delay) % 2 ^ 32 ≡ r.next_wakeup_ticks % 2 ^ 32

abbrev pub advanced : CyclicRequestData → CyclicRequestData
advanced r = record r { next_wakeup_ticks = u32 (r.next_wakeup_ticks + r.interval_ticks) }

module _ (T : Timers) where
  on_time_delay :
      (next ticks : ℕ) → (ticks + sub32 (u32 next) (u32 ticks)) % 2 ^ 32 ≡ u32 next % 2 ^ 32
  on_time_delay next ticks = omega arith

  sub32_lt : (next ticks : ℕ) → sub32 (u32 next) (u32 ticks) < 2 ^ 32
  sub32_lt next ticks = omega arith

  schedule_next_tick-Armed :
      (index : ℕ) (r : CyclicRequestData) (s : Cyclic)
      → get_elem? s.requests index ≡ some r
      → (s' : Cyclic) × (schedule_next_tick T index s ≡ some s')
        × Armed T index (advanced r) s'
        × (s'.count ≡ s.count)
        × (length s'.requests ≡ length s.requests)
  unfolding schedule_next_tick
  schedule_next_tick-Armed index r s row = (
    record s {
      requests = set s.requests index (advanced r);
      history =
          fire_after r.timer_id
            (sub32 (u32 (r.next_wakeup_ticks + r.interval_ticks))
              (u32 (T.ticks_since_boot s.history)))
            index
          ∷ s.history;
    },
    rw (row, schedule_next_tick) refl,
    record {
      row = get_elem?-set_self s.requests index (advanced r) (lt-of-get_elem? s.requests index row);
      now = T.ticks_since_boot s.history;
      delay =
          sub32 (u32 (r.next_wakeup_ticks + r.interval_ticks)) (u32 (T.ticks_since_boot s.history));
      before = s.history;
      armed = refl;
      read = refl;
      short = sub32_lt (r.next_wakeup_ticks + r.interval_ticks) (T.ticks_since_boot s.history);
      on_time =
          on_time_delay (r.next_wakeup_ticks + r.interval_ticks) (T.ticks_since_boot s.history);
    },
    refl,
    length-set s.requests index (advanced r),
  )

  -- The callback of a timer, `n` times over.
  abbrev pub fire : ℕ → ℕ → Cyclic → Option Cyclic
  fire zero index s = some s
  fire (suc n) index s = elim (fire n index s) [ none ↦ none | some s' ↦ timer_callback T index s' ]

  -- The request after `n` firings.
  abbrev pub aimed : ℕ → ℕ → ℕ → ℕ → ℕ → ℕ → CyclicRequestData
  aimed id offset interval queue_id request_size n = record {
    timer_id = id;
    next_wakeup_ticks = u32 (offset + interval * suc n);
    interval_ticks = interval;
    queue_id = queue_id;
    request_size = request_size;
  }

  advanced-aimed :
      (id offset interval queue_id request_size n : ℕ)
      → advanced (aimed id offset interval queue_id request_size n)
        ≡ aimed id offset interval queue_id request_size (suc n)
  advanced-aimed id offset interval queue_id request_size n =
      let next : u32 (u32 (offset + interval * suc n) + interval)
          ≡ u32 (offset + interval * suc (suc n)) =
        omega (arith, mul-suc interval (suc n)) in
      rw next refl

  pub timer_callback-Armed :
      (index : ℕ) (r : CyclicRequestData) (s : Cyclic)
      → get_elem? s.requests index ≡ some r
      → (s' : Cyclic) × (timer_callback T index s ≡ some s')
        × Armed T index (advanced r) s'
        × (length s'.requests ≡ length s.requests)
  unfolding timer_callback
  timer_callback-Armed index r s row =
      let (s', e, a, c, l) =
        schedule_next_tick-Armed index r
          (record s { history = send r.queue_id r.request_size ∷ s.history }) row in
      (s', rw (row, e, timer_callback) refl, a, l)

  fire-Armed :
      (n index id offset interval queue_id request_size : ℕ) (s : Cyclic)
      → Armed T index (aimed id offset interval queue_id request_size 0) s
      → (s' : Cyclic) × (fire n index s ≡ some s')
        × Armed T index (aimed id offset interval queue_id request_size n) s'
  fire-Armed zero index id offset interval queue_id request_size s a = (s, refl, a)
  fire-Armed (suc n) index id offset interval queue_id request_size s a =
      let (s1, e1, a1) = fire-Armed n index id offset interval queue_id request_size s a in
      let (s2, e2, a2, l2) =
        timer_callback-Armed index (aimed id offset interval queue_id request_size n) s1 a1.row in
      (
        s2,
        rw (e1, fire) e2,
        subst (λ r. Armed T index r s2) (advanced-aimed id offset interval queue_id request_size n)
            a2,
      )

  -- The creation of a request, with its timer armed for the first time.
  pub create_cyclic_request-first :
      (to_ticks : ℕ → ℕ) (interval_ns dispatch_offset_ns queue_id request_size id : ℕ) (s : Cyclic)
      → request_size ≤ 32
      → s.count < length s.requests
      → T.created s.history ≡ some id
      → (s1 : Cyclic) × ((create_cyclic_request T to_ticks interval_ns dispatch_offset_ns queue_id
              request_size s
            ≡ some (true, s1))
          × (s1.count ≡ u32 (s.count + 1))
          × (length s1.requests ≡ length s.requests)
          × Armed T s.count
              (aimed id
                (u32 (to_ticks dispatch_offset_ns))
                (u32 (to_ticks interval_ns))
                queue_id
                request_size
                0)
              s1)
  unfolding create_cyclic_request
  create_cyclic_request-first to_ticks interval_ns dispatch_offset_ns queue_id request_size id s
        small room timer =
      let first : CyclicRequestData = record {
        timer_id = id;
        next_wakeup_ticks = u32 (to_ticks dispatch_offset_ns);
        interval_ticks = u32 (to_ticks interval_ns);
        queue_id = queue_id;
        request_size = request_size;
      } in
      let s0 : Cyclic = record s {
        requests = set s.requests s.count first;
        history = create ∷ s.history;
      } in
      let (s', e, a, c, l) =
        schedule_next_tick-Armed s.count first s0
          (get_elem?-set_self s.requests s.count first room) in
      let s1 : Cyclic = record s' { count = u32 (s'.count + 1) } in
      let start : advanced first
          ≡ aimed id (u32 (to_ticks dispatch_offset_ns)) (u32 (to_ticks interval_ns)) queue_id
              request_size 0 =
        rw (mul-one (u32 (to_ticks interval_ns))) refl in
      (
        s1,
        (
          rw
              (
                lt_size request_size small,
                lt_room s.count (length s.requests) room,
                timer,
                e,
                create_cyclic_request,
              )
              refl,
          ap (λ k. u32 (k + 1)) c,
          l ∙ length-set s.requests s.count first,
          subst (λ r. Armed T s.count r s1) start
              (record {
                row = a.row;
                now = a.now;
                delay = a.delay;
                before = a.before;
                armed = a.armed;
                read = a.read;
                short = a.short;
                on_time = a.on_time;
              }),
        ),
      )
    where
      lt_size : (k : ℕ) → k ≤ 32 → leb k empty_request_size ≡ true
      lt_size k h = ground arith

      lt_room : (k m : ℕ) → k < m → leb m k ≡ false
      lt_room k m h = ground arith

  -- A cyclic request of at most 32 bytes that is created while there is room and RTEMS has a timer
  -- returns true and takes the next row. After any number `n` of firings of its timer, the latest call
  -- asks RTEMS to fire it after the ticks, modulo 2 ^ 32, up to `offset + interval * (n + 1)` in ticks
  -- since boot.
  pub create_cyclic_request-Armed :
      (to_ticks : ℕ → ℕ) (interval_ns dispatch_offset_ns queue_id request_size id n : ℕ)
      (s : Cyclic)
      → request_size ≤ 32
      → s.count < length s.requests
      → T.created s.history ≡ some id
      → (s1 : Cyclic) × (s2 : Cyclic) × ((create_cyclic_request T to_ticks interval_ns
              dispatch_offset_ns queue_id request_size s
            ≡ some (true, s1))
          × (s1.count ≡ u32 (s.count + 1))
          × (fire n s.count s1 ≡ some s2)
          × Armed T s.count
              (aimed id
                (u32 (to_ticks dispatch_offset_ns))
                (u32 (to_ticks interval_ns))
                queue_id
                request_size
                n)
              s2)
  create_cyclic_request-Armed to_ticks interval_ns dispatch_offset_ns queue_id request_size id n s
        small room timer =
      let (s1, (e1, c1, l1, a1)) =
        create_cyclic_request-first to_ticks interval_ns dispatch_offset_ns queue_id request_size id
          s small room timer in
      let (s2, e2, a2) =
        fire-Armed n s.count id (u32 (to_ticks dispatch_offset_ns)) (u32 (to_ticks interval_ns))
          queue_id request_size s1 a1 in
      (s1, s2, (e1, c1, e2, a2))
