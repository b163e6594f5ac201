-- ===== src/Xdmac/Interrupts/Channel.antt =====
-- The round of the interrupt handler for one channel: XDMAD_HandleChannel of src/Xdmac/xdmad.c.
use taste_samx_rtems_runtime.Xdmac.Interrupts.Round.{
  Serviced, kept, completed, Reported, Round, round,
}
use taste_samx_rtems_runtime.Xdmac.Interrupts.Callback.{Told, execute_callback-tells}
use mathlib.Core.List.{append_assoc}
use taste_samx_rtems_runtime.Common.{
  [], ◌++◌, ap, ℕ, ◌<◌, ◌≡◌, ◌≢◌, inl, inr, refl, sym, ◌∙◌, Bool, true, false, not, ◌||◌, some, ◌∷◌,
  ◌==◌, get_elem?, if◌then◌else◌, arith, Bool-cases, lt→ltb, set-get_elem?, get_elem?-set_self,
  lt-of-get_elem?, bit_and,
}
use taste_samx_rtems_runtime.Xdmac.Machine.{
  World, Machine, XdmadState, XdmadChannel, Xdmad, load, call, cis, free, ◌>>=◌,
}
use taste_samx_rtems_runtime.Xdmac.Registers.{bit, get_channel_isr}
use taste_samx_rtems_runtime.Xdmac.Driver.{is_free, with_state}
use taste_samx_rtems_runtime.Xdmac.Handler.{
  handle_channel_interrupt_status, handle_channel_interrupts, handle_channel, execute_callback,
}
use taste_samx_rtems_runtime.Xdmac.Lifecycle.{with_list}
use taste_samx_rtems_runtime.Xdmac.Interrupts.Status.{is_over, status-over}
use taste_samx_rtems_runtime.Xdmac.Valid.{
  Follows, Follows-trans, IsPassive, Returns, Returns-mono, Returns-bind,
}

-- A round for channel `i` in state `c` between the tests and the callback, which is called if `exec`
-- holds.
pub data Checked (w : World) (gs i : ℕ) (c : XdmadChannel) (m : Machine) (exec : Bool)
    (m' : Machine) : Type 0 where
  disabled :
      bit_and gs (bit i) ≡ 0
      → exec ≡ is_over w m.events i
      → m'.driver
        ≡ with_list m.driver i (if is_over w m.events i then with_state XdmadState.done c else c)
      → Follows (load (cis i) ∷ m.events) m'.events
      → Checked w gs i c m exec m'
  enabled :
      bit_and gs (bit i) ≢ 0
      → m'.driver ≡ with_list m.driver i c
      → Follows m.events m'.events
      → Checked w gs i c m exec m'

pub with_list-same :
    (d : Xdmad) (i : ℕ) (c : XdmadChannel) → get_elem? d.channels i ≡ some c → with_list d i c ≡ d
with_list-same d i c e = rw (set-get_elem? d.channels i e) refl

module _ (w : World) (gis gs : ℕ) where
  pub interrupts-Checked :
      (m : Machine) (i : ℕ) (c : XdmadChannel)
      → i < 24
      → get_elem? m.driver.channels i ≡ some c
      → Returns
          (handle_channel_interrupts gs i w m)
          (λ exec m'. Checked w gs i c m exec m' × (m'.initialized ≡ m.initialized))
  unfolding handle_channel_interrupts get_channel_isr
  interrupts-Checked m i c lt e = elim (Bool-cases (bit_and gs (bit i) == 0)) [
    | inl off ↦ rw off (
        Returns-mono _ _ (handle_channel_interrupt_status i w m)
          (λ exec m' r.
            (disabled (ground (arith, off)) r.0 (r.1 ∙ chosen (is_over w m.events i)) r.3, r.2))
          (status-over w m i c lt e))
    | inr on ↦
        rw (on, lt→ltb i 24 lt)
          (
            enabled (ground (arith, on)) (sym (with_list-same m.driver i c e))
                (load (cis i) ∷ [], refl),
            refl,
          )
  ]
    where
      chosen :
          (b : Bool)
          → (if b then with_list m.driver i (with_state XdmadState.done c) else m.driver)
            ≡ with_list m.driver i (if b then with_state XdmadState.done c else c)
      chosen true = refl
      chosen false = sym (with_list-same m.driver i c e)

  handle_channel-eq :
      (m : Machine) (i : ℕ) (c : XdmadChannel)
      → get_elem? m.driver.channels i ≡ some c
      → handle_channel gis gs i w m ≡ (
          if bit_and gis (bit i) == 0
          then some (true, m)
          else if is_free c.state
          then some (false, m)
          else (handle_channel_interrupts gs i >>= execute_callback i) w m)
  unfolding handle_channel
  handle_channel-eq m i c e = ground arith

  callback_after :
      (m : Machine) (i : ℕ) (c : XdmadChannel) (exec : Bool) (m' : Machine)
      → IsPassive w
      → get_elem? m.driver.channels i ≡ some c
      → c.state ≢ free
      → bit_and gis (bit i) ≢ 0
      → Checked w gs i c m exec m' × (m'.initialized ≡ m.initialized)
      → Returns
          (execute_callback i exec w m')
          (λ r m''. Round w gis gs i m m'' × (r ≡ true) × (m''.initialized ≡ m.initialized))
  callback_after m i c exec m' passive e owned pending (disabled off over left more, init) =
      Returns-mono _ _ (execute_callback i exec w m')
        (λ r m'' k. (finished (is_over w m.events i) refl (k.1 ∙ left) k.3, k.0, k.2 ∙ init))
        (execute_callback-tells w m' i (outcome (is_over w m.events i)) exec passive (
          rw left (
            get_elem?-set_self m.driver.channels i (outcome (is_over w m.events i))
              (lt-of-get_elem? m.driver.channels i e))))
    where
      outcome : Bool → XdmadChannel
      outcome b = if b then with_state XdmadState.done c else c

      serviced : (b : Bool) → Serviced gis gs i c (outcome b)
      serviced true = completed owned pending off refl
      serviced false = kept refl

      same_callback : (b : Bool) → (outcome b).callback ≡ c.callback
      same_callback true = refl
      same_callback false = refl

      same_arg : (b : Bool) → (outcome b).arg ≡ c.arg
      same_arg true = refl
      same_arg false = refl

      finished :
          {m'' : Machine} (b : Bool)
          → b ≡ is_over w m.events i
          → m''.driver ≡ with_list m.driver i (outcome b)
          → Told w i (outcome b) exec m' m''
          → Round w gis gs i m m''
      finished b eq driver (new, ev, tells) =
          round c (outcome b) e (serviced b) driver
            (Follows-trans (Follows-trans (load (cis i) ∷ [], refl) more) (new, ev))
            (λ _ _ _. record {
              before = [];
              after = new ++ more.0;
              history =
                  ev
                  ∙ (ap (λ l. new ++ l) more.1
                      ∙ sym (append_assoc new more.0 (load (cis i) ∷ m.events)));
              result = ap outcome eq;
              told = λ ov f g.
                  let (l, q) = tells (over ∙ ov) f (same_callback b ∙ g) in
                  (
                    l,
                    more.0,
                    ap (λ x. x ++ more.0) q
                        ∙ (append_assoc l (call f i (outcome b).arg ∷ []) more.0
                            ∙ ap (λ n. l ++ (call f i n ∷ more.0)) (same_arg b)),
                  );
            })
  callback_after m i c exec m' passive e owned pending (enabled on left more, init) =
      Returns-mono _ _ (execute_callback i exec w m')
        (λ r m'' k. (
          round c c e (kept refl) (k.1 ∙ left) (Follows-trans more (k.3.0, k.3.1))
              (λ o p off. absurd (on off)),
          k.0,
          k.2 ∙ init,
        ))
        (execute_callback-tells w m' i c exec passive (
          rw left
            (get_elem?-set_self m.driver.channels i c (lt-of-get_elem? m.driver.channels i e))))

  -- The result says whether the loop goes on: it stops at a pending channel that is free.
  pub handle_channel-Round :
      (m : Machine) (i : ℕ) (c : XdmadChannel)
      → IsPassive w
      → i < 24
      → get_elem? m.driver.channels i ≡ some c
      → Returns (handle_channel gis gs i w m) (λ go_on m'.
        Round w gis gs i m m'
        × (go_on ≡ ((bit_and gis (bit i) == 0) || not (is_free c.state)))
        × (go_on ≡ false → m' ≡ m)
        × (m'.initialized ≡ m.initialized))
  handle_channel-Round m i c passive lt e =
      rw (handle_channel-eq m i c e) (elim (Bool-cases (bit_and gis (bit i) == 0)) [
        | inl quiet ↦
            rw quiet (idle (λ o p. absurd (p (ground (arith, quiet)))), refl, (λ _. refl), refl)
        | inr pending ↦ elim (Bool-cases (is_free c.state)) [
          | inl vacant ↦
              rw (pending, vacant)
                (idle (λ o p. absurd (o (ground (arith, vacant)))), refl, (λ _. refl), refl)
          | inr owned ↦
              rw (pending, owned)
                (Returns-bind _ _ (handle_channel_interrupts gs i) (execute_callback i) w m
                  (λ exec m' r.
                    Returns-mono _ _ (execute_callback i exec w m')
                      (λ go_on m'' k. (k.0, k.1, (λ stop. cc (k.1)), k.2))
                      (callback_after m i c exec m' passive e (ground arith) (ground arith) r))
                  (interrupts-Checked m i c lt e))
        ]
      ])
    where
      idle :
          (c.state ≢ free
            → bit_and gis (bit i) ≢ 0
            → bit_and gs (bit i) ≡ 0
            → Reported w i c c m.events m.events)
          → Round w gis gs i m m
      idle r = round c c e (kept refl) (sym (with_list-same m.driver i c e)) ([], refl) r
