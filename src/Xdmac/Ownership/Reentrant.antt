-- ===== src/Xdmac/Ownership/Reentrant.antt =====
-- The interrupt handler of src/Xdmac/xdmad.c with callbacks that call the driver: what holds of the
-- driver and is kept by the callbacks is kept by the handler.
use taste_samx_rtems_runtime.Xdmac.Ownership.Ends.{Ends, Ends-bind, Ends-Returns, Ends-at}
use taste_samx_rtems_runtime.Common.{
  ◌∷◌, leb, ℕ, zero, suc, ◌+◌, ◌≤◌, ◌<◌, ◌≡◌, ◌≢◌, inl, inr, refl, ◌∙◌, ap, Bool, true, false,
  Option, none, some, ◌==◌, get_elem?, arith, Bool-cases, bit_and, if◌then◌else◌, not,
}
use taste_samx_rtems_runtime.Xdmac.Machine.{
  World, Machine, XdmadState, XdmadRc, free, start, in_xfr, halted, allocated, done, XdmadChannel,
  ◌>>=◌, ◌>>◌, pure, call, get_channel, load, gis,
}
use taste_samx_rtems_runtime.Xdmac.Registers.{bit, get_gisr, get_global_ch_status}
use taste_samx_rtems_runtime.Xdmac.Driver.{is_free, with_state, channel_index}
use taste_samx_rtems_runtime.Xdmac.Transfer.{when}
use taste_samx_rtems_runtime.Xdmac.Handler.{
  run_callback, execute_callback, handle_channel, handle_channel_interrupts, handle_channels,
  handler, is_transfer_done, done_by_state,
}
use taste_samx_rtems_runtime.Xdmac.Lifecycle.{with_list}
use taste_samx_rtems_runtime.Xdmac.Valid.{IsValid}
use taste_samx_rtems_runtime.Xdmac.Interrupts.Channel.{
  Checked, disabled, enabled, interrupts-Checked, with_list-same,
}
use taste_samx_rtems_runtime.Xdmac.Interrupts.Status.{is_over}
use taste_samx_rtems_runtime.Xdmac.Interrupts.{interrupt_status, channel_status, looked}

-- What holds of a machine whatever the outside does to it, whichever owned channel becomes done, and
-- whatever the callbacks do.
pub record IsKept (w : World) (P : Machine → Type 0) : Type 0 where
  pub valid : (m : Machine) → P m → IsValid m
  pub same : (m m' : Machine) → m'.driver ≡ m.driver → P m → P m'
  pub completed :
      (m m' : Machine) (i : ℕ) (c : XdmadChannel)
      → get_elem? m.driver.channels i ≡ some c
      → c.state ≢ free
      → m'.driver ≡ with_list m.driver i (with_state XdmadState.done c)
      → P m
      → P m'
  pub called : (f i arg : ℕ) (m m' : Machine) → w.calls f i arg m ≡ some (tt, m') → P m → P m'

module _ (w : World) (P : Machine → Type 0) (K : IsKept w P) where
  callback-keeps : (f i arg : ℕ) (m : Machine) → P m → Ends (w.calls f i arg m) (λ _ m'. P m')
  callback-keeps f i arg m p = go (w.calls f i arg m) refl
    where
      go : (o : Option (Unit {0} × Machine)) → w.calls f i arg m ≡ o → Ends o (λ _ m'. P m')
      go none e = tt
      go (some (tt, m')) e = K.called f i arg m m' e p

  run_callback-keeps :
      (i : ℕ) (c : XdmadChannel) (o : Option ℕ) (m : Machine)
      → P m
      → Ends (run_callback i (record c { callback = o }) w m) (λ _ m'. P m')
  run_callback-keeps i c none m p = p
  run_callback-keeps i c (some f) m p =
      callback-keeps f i c.arg (record m { events = call f i c.arg ∷ m.events })
        (K.same m (record m { events = call f i c.arg ∷ m.events }) refl p)

  get_channel-found :
      (i : ℕ) (m : Machine)
      → Ends (get_channel i w m) (λ c m'. (get_elem? m.driver.channels i ≡ some c) × (m' ≡ m))
  get_channel-found i m = go (get_elem? m.driver.channels i) refl
    where
      go :
          (o : Option XdmadChannel)
          → get_elem? m.driver.channels i ≡ o
          → Ends
              (elim o as (λ _. Option (XdmadChannel × Machine)) [
                | none ↦ none
                | some c ↦ some (c, m)
              ])
              (λ c m'. (get_elem? m.driver.channels i ≡ some c) × (m' ≡ m))
      go none e = tt
      go (some c) e = (e, refl)

  execute_callback-keeps :
      (i : ℕ) (exec : Bool) (m : Machine) → P m → Ends (execute_callback i exec w m) (λ _ m'. P m')
  unfolding execute_callback
  execute_callback-keeps i exec m p =
      Ends-bind _ _ (get_channel i) (λ c. when exec (run_callback i c) >> pure true) w m
        (λ c m' found.
          Ends-bind (λ _ m''. P m'') (λ _ m''. P m'') (when exec (run_callback i c))
            (λ _. pure true) w m' (λ _ m'' q. q)
            (told c m' exec (K.same m m' (ap (λ (x : Machine). x.driver) found.1) p)))
        (get_channel-found i m)
    where
      told :
          (c : XdmadChannel) (m' : Machine) (b : Bool)
          → P m'
          → Ends (when b (run_callback i c) w m') (λ _ m''. P m'')
      told c m' true q = run_callback-keeps i c c.callback m' q
      told c m' false q = q

  Checked-keeps :
      (g i : ℕ) (c : XdmadChannel) (m : Machine) (exec : Bool) (m' : Machine)
      → get_elem? m.driver.channels i ≡ some c
      → c.state ≢ free
      → P m
      → Checked w g i c m exec m'
      → P m'
  Checked-keeps g i c m exec m' e owned p (enabled on left more) =
      K.same m m' (left ∙ with_list-same m.driver i c e) p
  Checked-keeps g i c m exec m' e owned p (disabled off over left more) =
      go (is_over w m.events i) left
    where
      go :
          (b : Bool)
          → m'.driver ≡ with_list m.driver i (if b then with_state XdmadState.done c else c)
          → P m'
      go true l = K.completed m m' i c e owned l p
      go false l = K.same m m' (l ∙ with_list-same m.driver i c e) p

  handle_channel-keeps :
      (g s i : ℕ) (m : Machine) → i < 24 → P m → Ends (handle_channel g s i w m) (λ _ m'. P m')
  unfolding handle_channel
  handle_channel-keeps g s i m lt p = elim (Bool-cases (bit_and g (bit i) == 0)) [
    | inl quiet ↦ rw quiet p
    | inr pending ↦ rw pending (
        Ends-bind _ _ (get_channel i)
          (λ c.
            if is_free c.state
            then pure false
            else handle_channel_interrupts s i >>= execute_callback i)
          w m
          (λ c m' found.
            tested c m' (K.same m m' (ap (λ (x : Machine). x.driver) found.1) p)
              (rw (found.1) found.0) (is_free c.state) refl)
          (get_channel-found i m))
  ]
    where
      tested :
          (c : XdmadChannel) (m' : Machine)
          → P m'
          → get_elem? m'.driver.channels i ≡ some c
          → (b : Bool) → is_free c.state ≡ b
          → Ends
              ((if b then pure false else handle_channel_interrupts s i >>= execute_callback i) w
                m')
              (λ _ m''. P m'')
      tested c m' q e true vacant = q
      tested c m' q e false owned =
          Ends-bind _ _ (handle_channel_interrupts s i) (execute_callback i) w m'
            (λ exec m'' r.
              execute_callback-keeps i exec m''
                (Checked-keeps s i c m' exec m'' e (ground (arith, owned)) q r.0))
            (Ends-Returns _ (handle_channel_interrupts s i w m')
              (interrupts-Checked w 0 s m' i c lt e))

  handle_channels-keeps :
      (g s n i : ℕ) (m : Machine)
      → i + n ≤ 24
      → P m
      → Ends (handle_channels n i g s w m) (λ _ m'. P m')
  unfolding handle_channels
  handle_channels-keeps g s zero i m h p = p
  handle_channels-keeps g s (suc n) i m h p =
      Ends-bind (λ _ m'. P m') (λ _ m'. P m') (handle_channel g s i)
        (λ go_on. if go_on then handle_channels n (i + 1) g s else pure tt) w m
        (λ go_on m' q. further go_on m' (handle_channels-keeps g s n (i + 1) m' (omega arith)) q)
        (handle_channel-keeps g s i m (omega arith) p)
    where
      further :
          (b : Bool) (m' : Machine)
          → (P m' → Ends (handle_channels n (i + 1) g s w m') (λ _ m''. P m''))
          → P m'
          → Ends ((if b then handle_channels n (i + 1) g s else pure tt) w m') (λ _ m''. P m'')
      further true m' rest q = rest q
      further false m' rest q = q

  handler-keeps : (m : Machine) → P m → Ends (handler w m) (λ _ m'. P m')
  unfolding handler get_gisr get_global_ch_status
  handler-keeps m p = elim (Bool-cases (bit_and (interrupt_status w m.events) 0xFFFFFF == 0)) [
    | inl quiet ↦ rw quiet (K.same m (record m { events = load gis ∷ m.events }) refl p)
    | inr pending ↦ rw pending (
        handle_channels-keeps (interrupt_status w m.events) (channel_status w m.events)
          m.driver.num_channels 0 (looked m) (omega (arith, (K.valid m p).count))
          (K.same m (looked m) refl p))
  ]

  -- A handler that returns keeps what is kept.
  pub handler-kept : (m m' : Machine) → P m → handler w m ≡ some (tt, m') → P m'
  handler-kept m m' p e = Ends-at (λ _ x. P x) (handler w m) tt m' (handler-keeps m p) e

  asking-keeps :
      (m : Machine)
      → P m
      → Ends
          ((when (not (m.driver.polling_mode == 0)) handler >> pure XdmadRc.busy) w m)
          (λ _ m'. P m')
  asking-keeps m p =
      Ends-bind (λ _ m'. P m') (λ _ m'. P m') (when (not (m.driver.polling_mode == 0)) handler)
        (λ _. pure XdmadRc.busy) w m (λ _ m' q. q) (go (not (m.driver.polling_mode == 0)))
    where
      go : (b : Bool) → Ends (when b handler w m) (λ _ m'. P m')
      go true = handler-keeps m p
      go false = p

  done_by_state-keeps :
      (s : XdmadState) (m : Machine) → P m → Ends (done_by_state s w m) (λ _ m'. P m')
  done_by_state-keeps free m p = p
  done_by_state-keeps allocated m p = p
  done_by_state-keeps done m p = p
  done_by_state-keeps start m p = asking-keeps m p
  done_by_state-keeps in_xfr m p = asking-keeps m p
  done_by_state-keeps halted m p = asking-keeps m p

  is_transfer_done-keeps :
      (dw : ℕ) (m : Machine) → P m → Ends (is_transfer_done dw w m) (λ _ m'. P m')
  unfolding is_transfer_done
  is_transfer_done-keeps dw m p = elim (Bool-cases (leb m.driver.num_channels (channel_index dw))) [
    | inl out ↦ rw out p
    | inr within ↦ rw within (
        Ends-bind _ _ (get_channel (channel_index dw)) (λ c. done_by_state c.state) w m
          (λ c m' found.
            done_by_state-keeps c.state m' (K.same m m' (ap (λ (x : Machine). x.driver) found.1) p))
          (get_channel-found (channel_index dw) m))
  ]

  -- So does a poll that returns.
  pub is_transfer_done-kept :
      (dw : ℕ) (rc : XdmadRc) (m m' : Machine)
      → P m
      → is_transfer_done dw w m ≡ some (rc, m')
      → P m'
  is_transfer_done-kept dw rc m m' p e =
      Ends-at (λ _ x. P x) (is_transfer_done dw w m) rc m' (is_transfer_done-keeps dw m p) e
