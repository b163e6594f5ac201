-- ===== src/Threads/Request/Send.antt =====
-- What ThreadsCommon_SendRequest does to the maximum of the queue and to the overflow callback.
use taste_samx_rtems_runtime.Common.Word.{uint32_max, u32}
use taste_samx_rtems_runtime.Threads.Request.{send_request, reply_sent, raise_maximum}
use taste_samx_rtems_runtime.Common.{
  ℕ, List, Option, get_elem?, if◌then◌else◌, set, Bool, some, ◌==◌, ◌≡◌, Option-cases, ap, true,
  ◌∷◌, arith, false, inl, max, none, inr, set-get_elem?, refl,
}
use taste_samx_rtems_runtime.Monitor.State.{
  Reals, Rtems, Runtime, Status, get_queued_items_count, id_none, successful, failed, too_many,
}

module _ (R : Reals) (O : Rtems) where
  -- The number of messages that the monitor sees in a queue, UINT32_MAX if it sees none.
  abbrev pub observed : ℕ → O.Queues → ℕ
  observed id q =
      if id == id_none
      then uint32_max
      else elim (O.pending id q) [ none ↦ uint32_max | some count ↦ u32 count ]

  abbrev pub peak : ℕ → ℕ → ℕ
  peak highest count = if count == uint32_max then highest else max highest count

  -- What is replied, and the calls of the callback.
  abbrev pub accepted : Status → Option ℕ → Bool
  accepted successful f = true
  accepted too_many (some f) = true
  accepted _ f = false

  abbrev pub calls : Status → Option ℕ → ℕ → List (ℕ × ℕ × ℕ) → List (ℕ × ℕ × ℕ)
  calls too_many (some f) thread_id cs = (f, thread_id, 1) ∷ cs
  calls _ f thread_id cs = cs

  -- The state after a send that returned `status` and left `queues`.
  abbrev pub sent : Runtime R O → Status → O.Queues → ℕ → ℕ → ℕ → Runtime R O
  sent s status queues thread_id id highest = record s {
    queues = queues;
    maximum_queued_items = set s.maximum_queued_items thread_id (peak highest (observed id queues));
    overflow_calls = calls status s.overflow_callback thread_id s.overflow_calls;
  }

  pub get_queued_items_count-observed :
      (s : Runtime R O) (thread_id id : ℕ)
      → get_elem? s.interface_to_queue_map thread_id ≡ some id
      → get_queued_items_count R O thread_id s ≡ some (observed id s.queues)
  unfolding get_queued_items_count
  get_queued_items_count-observed s thread_id id row = elim (Option-cases (O.pending id s.queues)) [
    | inl e ↦ ground arith
    | inr (c, e) ↦ ground arith
  ]

  raise_maximum-peak :
      (s : Runtime R O) (thread_id count highest : ℕ)
      → get_elem? s.maximum_queued_items thread_id ≡ some highest
      → raise_maximum R O thread_id count s
        ≡ some (record s {
          maximum_queued_items = set s.maximum_queued_items thread_id (peak highest count);
        })
  raise_maximum-peak s thread_id count highest row =
      ground (arith, set-get_elem? s.maximum_queued_items thread_id row)

  reply_sent-calls :
      (s : Runtime R O) (thread_id : ℕ) (status : Status)
      → reply_sent R O thread_id status s ≡ (
        accepted status s.overflow_callback,
        record s { overflow_calls = calls status s.overflow_callback thread_id s.overflow_calls },
      )
  reply_sent-calls s thread_id successful = refl
  reply_sent-calls s thread_id failed = refl
  reply_sent-calls s thread_id too_many = elim (Option-cases s.overflow_callback) [
    | inl e ↦ ground arith
    | inr (f, e) ↦ ground arith
  ]

  -- A send for a thread with a row in both arrays returns. The recorded maximum of the thread becomes
  -- the larger of itself and the number of messages that are pending after the send, unless that
  -- number is not known. The callback, if there is one, is called once exactly if the queue was full,
  -- and then the reply is true; otherwise the reply is whether the message was queued. Nothing else
  -- changes.
  pub send_request-sent :
      (s : Runtime R O) (request : List ℕ) (queue_id thread_id id highest : ℕ)
      → get_elem? s.interface_to_queue_map thread_id ≡ some id
      → get_elem? s.maximum_queued_items thread_id ≡ some highest
      → send_request R O request queue_id thread_id s ≡ (
          let (status, queues) = O.send queue_id request s.queues in
          some (accepted status s.overflow_callback, sent s status queues thread_id id highest))
  unfolding send_request
  send_request-sent s request queue_id thread_id id highest row top =
      let r = O.send queue_id request s.queues in
      let s1 : Runtime R O = record s { queues = r.1 } in
      rw
        (
          get_queued_items_count-observed s1 thread_id id row,
          raise_maximum-peak s1 thread_id (observed id r.1) highest top,
          send_request,
        )
        (ap some (
          reply_sent-calls
            (record s1 {
              maximum_queued_items =
                  set s.maximum_queued_items thread_id (peak highest (observed id r.1));
            })
            thread_id r.0))
