-- ===== src/Threads/Cyclic/Messages.antt =====
-- The messages that the callbacks of cyclic requests send: timer_callback of
-- src/ThreadsCommon/ThreadsCommon.c.
use native.Mathlib.Decide.{ℕ_discrete}
use taste_samx_rtems_runtime.Threads.Cyclic.{create}
use taste_samx_rtems_runtime.Common.Word.{u32}
use taste_samx_rtems_runtime.Threads.Cyclic.{
  Timers, CyclicRequestData, timer_callback, Cyclic, TimerEvent, schedule_next_tick, send,
  fire_after,
}
use taste_samx_rtems_runtime.Common.{
  ℕ, List, ◌∷◌, Option, get_elem?, ◌+◌, ◌<◌, [], arith, length, none, some, ◌≡◌, get_elem?-some,
  set, get_elem?-set_ne, get_elem?-set_self,
}

-- The messages that were sent, latest first: the queue and the size.
abbrev pub messages : List TimerEvent → List (ℕ × ℕ)
messages [] = []
messages (create ∷ h) = messages h
messages (send queue_id size ∷ h) = (queue_id, size) ∷ messages h
messages (fire_after timer delay i ∷ h) = messages h

-- The message of each row: its queue and the size of the request.
abbrev pub message_of : List CyclicRequestData → ℕ → Option (ℕ × ℕ)
message_of requests i = elim (get_elem? requests i) [
  | none ↦ none
  | some r ↦ some (r.queue_id, r.request_size)
]

-- The messages of the rows with these indices, sent one after the other upon others.
abbrev pub send_in_turn : (ℕ → Option (ℕ × ℕ)) → List ℕ → List (ℕ × ℕ) → List (ℕ × ℕ)
send_in_turn row [] sent = sent
send_in_turn row (i ∷ rest) sent =
    send_in_turn row rest (elim (row i) [ none ↦ sent | some m ↦ m ∷ sent ])

module _ (T : Timers) where
  -- A callback sends the message of its row, and keeps the messages of all rows.
  pub timer_callback-messages :
      (i : ℕ) (s s' : Cyclic)
      → i < length s.requests
      → timer_callback T i s ≡ some s'
      → (messages s'.history ≡ elim (message_of s.requests i) [
        | none ↦ messages s.history
        | some m ↦ m ∷ messages s.history
      ])
        × ((k : ℕ) → message_of s'.requests k ≡ message_of s.requests k)
  unfolding timer_callback schedule_next_tick
  timer_callback-messages i s s' room e =
      let (q, row) = get_elem?-some s.requests i room in
      let next : CyclicRequestData = record q {
        next_wakeup_ticks = u32 (q.next_wakeup_ticks + q.interval_ticks);
      } in
      let self : get_elem? (set s.requests i next) i ≡ some next =
        get_elem?-set_self s.requests i next room in
      (
        ground (arith, row, e),
        (λ k. elim (ℕ_discrete i k) [
          | yes same ↦ ground (arith, row, e, same, self)
          | no other ↦ ground (arith, row, e, get_elem?-set_ne s.requests next other)
        ]),
      )
