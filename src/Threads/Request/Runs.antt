-- ===== src/Threads/Request/Runs.antt =====
-- The maximum of a queue over a sequence of sends to several threads.
use native.Mathlib.Decide.{ℕ_discrete}
use taste_samx_rtems_runtime.Threads.Request.Send.{
  peak, observed, sent, accepted, send_request-sent,
}
use taste_samx_rtems_runtime.Threads.Request.{send_request}
use taste_samx_rtems_runtime.Common.{
  List, ℕ, set, ◌∷◌, Option, get_elem?, if◌then◌else◌, subst, ◌<◌, length, some, sym, ◌==◌, ◌≡◌, [],
  get_elem?-some, length-set, none, ap, get_elem?-set_self, ◌∙◌, ap₂, arith, get_elem?-set_ne, refl,
  suc, ◌≤◌, zero,
}
use taste_samx_rtems_runtime.Monitor.State.{
  Reals, Rtems, Runtime, monitor_init, reset_maximum, get_maximum_queued_items_count,
}

-- A send: what happens to the queues before it, the request, its queue and its thread.
pub record Sending (O : Rtems) : Type 0 where
  pub meanwhile : O.Queues → O.Queues
  pub request : List ℕ
  pub queue_id : ℕ
  pub thread_id : ℕ

module _ (R : Reals) (O : Rtems) where
  -- The sends one after the other, the first one first.
  abbrev pub send_all : List (Sending O) → Runtime R O → Option (Runtime R O)
  send_all [] s = some s
  send_all (c ∷ rest) s =
      elim (send_request R O c.request c.queue_id c.thread_id
        (record s { queues = c.meanwhile s.queues })) [
          | none ↦ none
          | some (reply, s') ↦ send_all rest s'
        ]

  -- The queues after one send.
  abbrev pub after_send : Sending O → O.Queues → O.Queues
  after_send c q = (O.send c.queue_id c.request (c.meanwhile q)).1

  -- The largest number of messages that the monitor sees after a send to this thread, whose queue is
  -- `id`, and the largest before.
  abbrev pub largest : ℕ → ℕ → List (Sending O) → O.Queues → ℕ → ℕ
  largest thread_id id [] q highest = highest
  largest thread_id id (c ∷ rest) q highest = largest thread_id id rest (after_send c q) (
      if c.thread_id == thread_id
      then peak R O highest (observed R O id (after_send c q))
      else highest)

  -- Every thread that is sent to has a row in both arrays.
  abbrev pub HasRows : List ℕ → List ℕ → List (Sending O) → Type 0
  HasRows map maximum [] = Unit
  HasRows map maximum (c ∷ rest) =
      (c.thread_id < length map) × (c.thread_id < length maximum) × HasRows map maximum rest

  HasRows-set :
      (map maximum : List ℕ) (i v : ℕ) (calls : List (Sending O))
      → HasRows map maximum calls
      → HasRows map (set maximum i v) calls
  HasRows-set map maximum i v [] h = tt
  HasRows-set map maximum i v (c ∷ rest) (p, q, h) = (
    p,
    subst (λ n. c.thread_id < n) (sym (length-set maximum i v)) q,
    HasRows-set map maximum i v rest h,
  )

  send_all-largest :
      (calls : List (Sending O)) (thread_id id highest : ℕ) (s : Runtime R O)
      → HasRows s.interface_to_queue_map s.maximum_queued_items calls
      → get_elem? s.interface_to_queue_map thread_id ≡ some id
      → get_elem? s.maximum_queued_items thread_id ≡ some highest
      → (s' : Runtime R O) × (send_all calls s ≡ some s')
        × (get_elem? s'.maximum_queued_items thread_id
            ≡ some (largest thread_id id calls s.queues highest))
  send_all-largest [] thread_id id highest s rows row top = (s, refl, top)
  send_all-largest (c ∷ rest) thread_id id highest s (in_map, in_maximum, rows) row top =
      let s0 : Runtime R O = record s { queues = c.meanwhile s.queues } in
      let (id_c, row_c) = get_elem?-some s.interface_to_queue_map c.thread_id in_map in
      let (high_c, top_c) = get_elem?-some s.maximum_queued_items c.thread_id in_maximum in
      let r = O.send c.queue_id c.request s0.queues in
      let v : ℕ = peak R O high_c (observed R O id_c r.1) in
      let s1 : Runtime R O = sent R O s0 r.0 r.1 c.thread_id id_c high_c in
      let done : send_request R O c.request c.queue_id c.thread_id s0
          ≡ some (accepted R O r.0 s0.overflow_callback, s1) =
        send_request-sent R O s0 c.request c.queue_id c.thread_id id_c high_c row_c top_c in
      let next : ℕ =
        if c.thread_id == thread_id then peak R O highest (observed R O id r.1) else highest in
      let new_top : get_elem? (set s.maximum_queued_items c.thread_id v) thread_id ≡ some next =
        elim (ℕ_discrete c.thread_id thread_id) [
          | yes same ↦
              let same_id : id_c ≡ id =
                cc (row_c, row, ap (get_elem? s.interface_to_queue_map) same) in
              let same_top : high_c ≡ highest =
                cc (top_c, top, ap (get_elem? s.maximum_queued_items) same) in
              subst (λ j. get_elem? (set s.maximum_queued_items c.thread_id v) j ≡ some v) same
                (get_elem?-set_self s.maximum_queued_items c.thread_id v in_maximum)
              ∙ ap some (
                  ap₂ (λ (h i : ℕ). peak R O h (observed R O i r.1)) same_top same_id
                  ∙ ground (arith, same))
          | no other ↦ get_elem?-set_ne s.maximum_queued_items v other ∙ top ∙ ground (arith, other)
        ] in
      let (s2, e2, t2) =
        send_all-largest rest thread_id id next s1
          (HasRows-set s.interface_to_queue_map s.maximum_queued_items c.thread_id v rest rows) row
          new_top in
      (s2, rw (done, send_all) e2, t2)

  length-reset_maximum : (count : ℕ) (xs : List ℕ) → length (reset_maximum R O count xs) ≡ length xs
  unfolding reset_maximum
  length-reset_maximum zero xs = refl
  length-reset_maximum (suc i) xs =
      length-set (reset_maximum R O i xs) i 0 ∙ length-reset_maximum i xs

  reset_maximum-zero :
      (count : ℕ) (xs : List ℕ) (i : ℕ)
      → i < count
      → count ≤ length xs
      → get_elem? (reset_maximum R O count xs) i ≡ some 0
  unfolding reset_maximum
  reset_maximum-zero zero xs i h room = absurd (omega (arith, h))
  reset_maximum-zero (suc n) xs i h room = elim (ℕ_discrete n i) [
    | yes same ↦
        subst (λ j. get_elem? (set (reset_maximum R O n xs) n 0) j ≡ some 0) same
          (get_elem?-set_self (reset_maximum R O n xs) n 0
            (omega (arith, room, length-reset_maximum n xs)))
    | no other ↦
        get_elem?-set_ne (reset_maximum R O n xs) 0 other
        ∙ reset_maximum-zero n xs i (omega (arith, h, other)) (omega (arith, room))
  ]

  HasRows-reset :
      (map maximum : List ℕ) (count : ℕ) (calls : List (Sending O))
      → HasRows map maximum calls
      → HasRows map (reset_maximum R O count maximum) calls
  HasRows-reset map maximum count [] h = tt
  HasRows-reset map maximum count (c ∷ rest) (p, q, h) = (
    p,
    subst (λ n. c.thread_id < n) (sym (length-reset_maximum count maximum)) q,
    HasRows-reset map maximum count rest h,
  )

  -- After Monitor_Init and any sequence of sends to threads with rows in the arrays, whatever happens
  -- to the queues in between, all sends have returned, and the maximum that
  -- Monitor_GetMaximumQueuedItemsCount gives for a thread is the largest number of messages that were
  -- pending right after a send to this thread, not counting those that are not known, or 0.
  pub send_all-maximum :
      (count : ℕ) (calls : List (Sending O)) (thread_id id : ℕ) (s : Runtime R O)
      → thread_id < count
      → count ≤ length s.maximum_queued_items
      → HasRows s.interface_to_queue_map s.maximum_queued_items calls
      → get_elem? s.interface_to_queue_map thread_id ≡ some id
      → (s' : Runtime R O) × (send_all calls (monitor_init R O count s).1 ≡ some s')
        × (get_maximum_queued_items_count R O thread_id s'
            ≡ some (largest thread_id id calls s.queues 0))
  unfolding monitor_init get_maximum_queued_items_count
  send_all-maximum count calls thread_id id s inside room rows row =
      send_all-largest calls thread_id id 0 (monitor_init R O count s).1
        (HasRows-reset s.interface_to_queue_map s.maximum_queued_items count calls rows) row
        (reset_maximum-zero count s.maximum_queued_items thread_id inside room)
