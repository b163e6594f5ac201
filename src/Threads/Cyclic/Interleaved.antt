-- ===== src/Threads/Cyclic/Interleaved.antt =====
-- Several cyclic requests, whose timers fire in any order.
use taste_samx_rtems_runtime.Threads.Cyclic.Messages.{
  message_of, messages, send_in_turn, timer_callback-messages,
}
use native.Mathlib.Nat.{mul-suc, mul-one}
use native.Mathlib.Decide.{ℕ_discrete}
use taste_samx_rtems_runtime.Threads.Cyclic.{create, create_cyclic_request}
use taste_samx_rtems_runtime.Threads.Cyclic.Drift.{
  Armed, advanced, timer_callback-Armed, aimed, create_cyclic_request-first,
}
use taste_samx_rtems_runtime.Common.Word.{u32, sub32}
use taste_samx_rtems_runtime.Threads.Cyclic.{
  Timers, CyclicRequestData, timer_callback, Cyclic, TimerEvent, schedule_next_tick, send,
  fire_after,
}
use taste_samx_rtems_runtime.Common.{
  ℕ, List, ◌∷◌, Option, get_elem?, if◌then◌else◌, ◌+◌, ◌<◌, [], arith, length, none, some, ◌*◌,
  ◌==◌, ◌≡◌, ◌%◌, ◌≢◌, ◌^◌, ap, get_elem?-some, subst, set, sym, get_elem?-set_ne, suc, ◌∙◌,
  length-set, refl, ◌≤◌, true,
}

-- The latest call that arms the timer with this index: the timer, the delay, and the history before it.
abbrev pub last_arming : ℕ → List TimerEvent → Option (ℕ × ℕ × List TimerEvent)
last_arming index [] = none
last_arming index (create ∷ h) = last_arming index h
last_arming index (send queue_id size ∷ h) = last_arming index h
last_arming index (fire_after timer delay i ∷ h) =
    if i == index then some (timer, delay, h) else last_arming index h

-- The row of an index. The latest call for its timer has the delay, modulo 2 ^ 32, up to the next
-- wake-up.
pub record Due (T : Timers) (index : ℕ) (r : CyclicRequestData) (s : Cyclic) : Type 0 where
  pub row : get_elem? s.requests index ≡ some r
  pub delay : ℕ
  pub before : List TimerEvent
  pub latest : last_arming index s.history ≡ some (r.timer_id, delay, before)
  pub short : delay < 2 ^ 32
  pub on_time : (T.ticks_since_boot before + delay) % 2 ^ 32 ≡ r.next_wakeup_ticks % 2 ^ 32

-- The rows that the indices of a sequence name are there.
abbrev pub AllBelow : ℕ → List ℕ → Type 0
AllBelow n [] = Unit
AllBelow n (i ∷ rest) = (i < n) × AllBelow n rest

-- How often an index stands in a sequence.
abbrev pub count : ℕ → List ℕ → ℕ
count index [] = 0
count index (i ∷ rest) = (if i == index then 1 else 0) + count index rest

module _ (T : Timers) where
  -- The callbacks of the timers with these indices, the first one first.
  abbrev pub fire_all : List ℕ → Cyclic → Option Cyclic
  fire_all [] s = some s
  fire_all (i ∷ rest) s = elim (timer_callback T i s) [ none ↦ none | some s' ↦ fire_all rest s' ]

  -- The request after n more firings.
  abbrev pub later : ℕ → CyclicRequestData → CyclicRequestData
  later n r = record r { next_wakeup_ticks = u32 (r.next_wakeup_ticks + r.interval_ticks * n) }

  Armed-Due : (index : ℕ) (r : CyclicRequestData) (s : Cyclic) → Armed T index r s → Due T index r s
  Armed-Due index r s a = record {
    row = a.row;
    delay = a.delay;
    before = a.before;
    latest = rw a.armed (ground arith);
    short = a.short;
    on_time = rw⁻¹ a.read a.on_time;
  }

  -- The callback of another timer.
  timer_callback-other :
      (i index : ℕ) (r : CyclicRequestData) (s : Cyclic)
      → i < length s.requests
      → i ≢ index
      → Due T index r s
      → (s' : Cyclic) × (timer_callback T i s ≡ some s')
        × Due T index r s'
        × (length s'.requests ≡ length s.requests)
  unfolding timer_callback schedule_next_tick
  timer_callback-other i index r s room other d =
      let (q, row) = get_elem?-some s.requests i room in
      let next : ℕ = u32 (q.next_wakeup_ticks + q.interval_ticks) in
      let sent : List TimerEvent = send q.queue_id q.request_size ∷ s.history in
      (
        record s {
          requests = set s.requests i (record q { next_wakeup_ticks = next });
          history = fire_after q.timer_id (sub32 next (u32 (T.ticks_since_boot sent))) i ∷ sent;
        },
        rw (row, timer_callback) (rw (row, schedule_next_tick) refl),
        record {
          row = get_elem?-set_ne s.requests (record q { next_wakeup_ticks = next }) other ∙ d.row;
          delay = d.delay;
          before = d.before;
          latest = ground (arith, other, d.latest);
          short = d.short;
          on_time = d.on_time;
        },
        length-set s.requests i (record q { next_wakeup_ticks = next }),
      )

  -- Its own callback.
  timer_callback-Due :
      (index : ℕ) (r : CyclicRequestData) (s : Cyclic)
      → Due T index r s
      → (s' : Cyclic) × (timer_callback T index s ≡ some s')
        × Due T index (advanced r) s'
        × (length s'.requests ≡ length s.requests)
  unfolding timer_callback schedule_next_tick
  timer_callback-Due index r s d =
      let (s', e, a, l) = timer_callback-Armed T index r s d.row in
      (s', e, Armed-Due index (advanced r) s' a, l)

  fire_all-messages :
      (indices : List ℕ) (s s' : Cyclic)
      → AllBelow (length s.requests) indices
      → fire_all indices s ≡ some s'
      → messages s'.history ≡ send_in_turn (message_of s.requests) indices (messages s.history)
  fire_all-messages [] s s' below e = cc
  fire_all-messages (i ∷ rest) s s' (first, below) e =
      let (q, row) = get_elem?-some s.requests i first in
      let (s1, e1, a, l) = timer_callback-Armed T i q s row in
      let (sent, rows) = timer_callback-messages T i s s1 first e1 in
      let e' : fire_all rest s1 ≡ some s' = rw (e1, fire_all) at e in
      fire_all-messages rest s1 s' (subst (λ n. AllBelow n rest) (sym l) below) e'
      ∙ (ap (λ row. send_in_turn row rest (messages s1.history)) (λ t k. rows k t)
          ∙ ap (send_in_turn (message_of s.requests) rest) sent)

  later_none :
      (r : CyclicRequestData) → later 0 r ≡ record r { next_wakeup_ticks = u32 r.next_wakeup_ticks }
  later_none r = ap (λ k. record r { next_wakeup_ticks = u32 k }) (omega arith)

  fire_all-Due :
      (indices : List ℕ) (index : ℕ) (r : CyclicRequestData) (s : Cyclic)
      → AllBelow (length s.requests) indices
      → r.next_wakeup_ticks < 2 ^ 32
      → Due T index r s
      → (s' : Cyclic) × (fire_all indices s ≡ some s')
        × Due T index (later (count index indices) r) s'
  fire_all-Due [] index r s below small d = (
    s,
    refl,
    subst (λ n. Due T index (record r { next_wakeup_ticks = n }) s) (omega (arith, small)) d,
  )
  fire_all-Due (i ∷ rest) index r s (first, below) small d = elim (ℕ_discrete i index) [
    | yes same ↦
        let (s1, e1, d1, l1) = timer_callback-Due index r s d in
        let (s2, e2, d2) =
          fire_all-Due rest index (advanced r) s1 (subst (λ n. AllBelow n rest) (sym l1) below)
            (omega arith) d1 in
        let counted : count index (i ∷ rest) ≡ suc (count index rest) = ground (arith, same) in
        let moved : (n : ℕ)
            → u32 (u32 (r.next_wakeup_ticks + r.interval_ticks) + r.interval_ticks * n)
              ≡ u32 (r.next_wakeup_ticks + r.interval_ticks * suc n) =
          (λ n. omega (arith, mul-suc r.interval_ticks n)) in
        (
          s2,
          subst (λ j. fire_all (j ∷ rest) s ≡ some s2) (sym same) (rw (e1, fire_all) e2),
          subst (λ n. Due T index (record r { next_wakeup_ticks = n }) s2)
              (moved (count index rest)
                ∙ ap (λ n. u32 (r.next_wakeup_ticks + r.interval_ticks * n)) (sym counted))
              d2,
        )
    | no other ↦
        let (s1, e1, d1, l1) = timer_callback-other i index r s first other d in
        let (s2, e2, d2) =
          fire_all-Due rest index r s1 (subst (λ n. AllBelow n rest) (sym l1) below) small d1 in
        let counted : count index (i ∷ rest) ≡ count index rest = ground (arith, other) in
        (s2, rw (e1, fire_all) e2, subst (λ n. Due T index (later n r) s2) (sym counted) d2)
  ]

  -- A cyclic request of at most 32 bytes that is created while there is room and RTEMS has a timer
  -- returns true and takes the next row. After any sequence of callbacks of its timer and of those of
  -- other rows, in any order, in which its own callback ran n times, each callback has sent one message
  -- of its row, in their order, for this row of the given size to the given queue. The latest call of
  -- rtems_timer_fire_after for this timer has the one delay below 2 ^ 32 that leads, modulo 2 ^ 32,
  -- from the ticks since boot that the code read to `offset + interval * (n + 1)`, whatever they were
  -- and whatever the other rows did. A callback that runs later than that instant thus asks for a delay
  -- of almost 2 ^ 32 ticks, and one that runs at it for a delay of 0; what RTEMS answers is not seen.
  pub create_cyclic_request-Due :
      (to_ticks : ℕ → ℕ) (interval_ns dispatch_offset_ns queue_id request_size id : ℕ)
      (indices : List ℕ) (s : Cyclic)
      → request_size ≤ 32
      → s.count < length s.requests
      → T.created s.history ≡ some id
      → AllBelow (length s.requests) indices
      → (s1 : Cyclic) × (s2 : Cyclic) × ((create_cyclic_request T to_ticks interval_ns
              dispatch_offset_ns queue_id request_size s
            ≡ some (true, s1))
          × (fire_all indices s1 ≡ some s2)
          × (message_of s1.requests s.count ≡ some (queue_id, request_size))
          × (messages s2.history
              ≡ send_in_turn (message_of s1.requests) indices (messages s1.history))
          × Due T s.count
              (aimed T id
                (u32 (to_ticks dispatch_offset_ns))
                (u32 (to_ticks interval_ns))
                queue_id
                request_size
                (count s.count indices))
              s2)
  create_cyclic_request-Due to_ticks interval_ns dispatch_offset_ns queue_id request_size id indices
        s small room timer below =
      let offset : ℕ = u32 (to_ticks dispatch_offset_ns) in
      let interval : ℕ = u32 (to_ticks interval_ns) in
      let r : CyclicRequestData = aimed T id offset interval queue_id request_size 0 in
      let n : ℕ = count s.count indices in
      let (s1, (e1, c1, l1, a1)) =
        create_cyclic_request-first T to_ticks interval_ns dispatch_offset_ns queue_id request_size
          id s small room timer in
      let (s2, e2, d2) =
        fire_all-Due indices s.count r s1 (subst (λ k. AllBelow k indices) (sym l1) below)
          (omega arith) (Armed-Due s.count r s1 a1) in
      let own : message_of s1.requests s.count ≡ some (queue_id, request_size) =
        rw (a1.row, message_of) refl in
      let sent : messages s2.history
          ≡ send_in_turn (message_of s1.requests) indices (messages s1.history) =
        fire_all-messages indices s1 s2 (subst (λ k. AllBelow k indices) (sym l1) below) e2 in
      let instant : u32 (u32 (offset + interval * 1) + interval * n)
          ≡ u32 (offset + interval * suc n) =
        omega (arith, mul-suc interval n, mul-one interval) in
      (
        s1,
        s2,
        (
          e1,
          e2,
          own,
          sent,
          subst (λ k. Due T s.count (record r { next_wakeup_ticks = k }) s2) instant d2,
        ),
      )
