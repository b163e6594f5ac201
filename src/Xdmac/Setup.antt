-- ===== src/Xdmac/Setup.antt =====
-- XDMAD_Initialize of src/Xdmac/xdmad.c.
use taste_samx_rtems_runtime.Common.{
  ℕ, zero, suc, ◌+◌, ◌<◌, ◌≤◌, ◌≡◌, inl, inr, refl, sym, subst, ap, ◌∙◌, Bool, true, false, none,
  some, ◌∷◌, length, get_elem?, set, arith, Bool-cases, get_elem?-set_self, get_elem?-set_ne,
  lt→ltb, length-set,
}
use native.Mathlib.Decide.{ℕ_discrete}
use taste_samx_rtems_runtime.Xdmac.Machine.{
  World, Machine, emit, ◌>>◌, load, gtype, obtain_lock, release_lock, with_channels,
}
use taste_samx_rtems_runtime.Xdmac.Registers.{get_type}
use taste_samx_rtems_runtime.Xdmac.Driver.{
  fresh_channel, reset_channels, initialize, channel_count, set_initialized,
}
use taste_samx_rtems_runtime.Xdmac.Valid.{IsValid, HasType, Returns, Returns-mono, Returns-bind}

-- The channels from `i` up to `j` are free and have no callback; the rest is kept.
pub record Reset (i j : ℕ) (m m' : Machine) : Type 0 where
  pub size : length m'.driver.channels ≡ length m.driver.channels
  pub cleared : (k : ℕ) → i ≤ k → k < j → get_elem? m'.driver.channels k ≡ some fresh_channel
  pub below : (k : ℕ) → k < i → get_elem? m'.driver.channels k ≡ get_elem? m.driver.channels k
  pub count : m'.driver.num_channels ≡ m.driver.num_channels
  pub mode : m'.driver.polling_mode ≡ m.driver.polling_mode
  pub same_events : m'.events ≡ m.events

-- The machine after the round of the loop for channel `i`.
abbrev cleared_at : Machine → ℕ → Machine
cleared_at m i = with_channels m (set m.driver.channels i fresh_channel)

reset_channels-suc :
    (w : World) (m : Machine) (n i : ℕ)
    → i < length m.driver.channels
    → reset_channels (suc n) i w m ≡ reset_channels n (i + 1) w (cleared_at m i)
unfolding reset_channels
reset_channels-suc w m n i lt = ground (arith, lt→ltb i (length m.driver.channels) lt)

reset_channels-Reset :
    (w : World) (m : Machine) (n i : ℕ)
    → i + n ≤ length m.driver.channels
    → Returns (reset_channels n i w m) (λ _ m'. Reset i (i + n) m m')
reset_channels-Reset w m zero i h =
    unfold reset_channels in
    record {
      size = refl;
      cleared = λ k p q. absurd (omega arith);
      below = λ k p. refl;
      count = refl;
      mode = refl;
      same_events = refl;
    }
reset_channels-Reset w m (suc n) i h = rw (reset_channels-suc w m n i (omega arith)) (
    Returns-mono _ _ (reset_channels n (i + 1) w (cleared_at m i)) (λ _ m' r. one_more m' r)
      (reset_channels-Reset w (cleared_at m i) n (i + 1)
        (rw (length-set m.driver.channels i fresh_channel) (omega arith))))
  where
    one_more :
        (m' : Machine) → Reset (i + 1) (i + 1 + n) (cleared_at m i) m' → Reset i (i + suc n) m m'
    one_more m' r = record {
      size = r.size ∙ length-set m.driver.channels i fresh_channel;
      cleared = λ k p q. elim (ℕ_discrete i k) [
        | yes same ↦ ground (arith, r.below k, get_elem?-set_self m.driver.channels i fresh_channel)
        | no other ↦ r.cleared k (omega arith) (omega arith)
      ];
      below = λ k p.
          r.below k (omega arith)
          ∙ get_elem?-set_ne m.driver.channels fresh_channel (λ e. omega arith);
      count = r.count;
      mode = r.mode;
      same_events = r.same_events;
    }

-- The machine before the loop of the first initialisation.
abbrev configured : Machine → ℕ → ℕ → Machine
configured m g mode = record m {
  driver = record (m.driver) {
    polling_mode = mode;
    num_controllers = 1;
    num_channels = channel_count g;
  };
  events = load gtype ∷ obtain_lock none ∷ m.events;
}

initialize-first :
    (w : World) (g mode : ℕ) (m : Machine)
    → HasType w g
    → w.obtains m.events ≡ true
    → m.initialized ≡ false
    → initialize mode w m
      ≡ (reset_channels (channel_count g) 0 >> (set_initialized >> emit release_lock)) w
          (configured m g mode)
unfolding initialize get_type
initialize-first w g mode m t obtained fresh =
    ground (arith, obtained, fresh, t.constant (obtain_lock none ∷ m.events))

initialize-again :
    (w : World) (mode : ℕ) (m : Machine)
    → w.obtains m.events ≡ true
    → m.initialized ≡ true
    → initialize mode w m
      ≡ some (tt, record m { events = release_lock ∷ obtain_lock none ∷ m.events })
unfolding initialize get_type
initialize-again w mode m obtained done = ground (arith, obtained, done)

-- What the initialisation leaves, after a machine that is initialised or not.
pub data Initialized (g mode : ℕ) (m : Machine) : Bool → Machine → Type 0 where
  first :
      {m' : Machine}
      → IsValid m'
      → m'.driver.num_channels ≡ channel_count g
      → m'.driver.polling_mode ≡ mode
      → ((k : ℕ) → k < channel_count g → get_elem? m'.driver.channels k ≡ some fresh_channel)
      → m'.initialized ≡ true
      → m'.events ≡ release_lock ∷ load gtype ∷ obtain_lock none ∷ m.events
      → Initialized g mode m false m'
  again :
      {m' : Machine}
      → m'.driver ≡ m.driver
      → m'.initialized ≡ true
      → m'.events ≡ release_lock ∷ obtain_lock none ∷ m.events
      → Initialized g mode m true m'

-- If the lock is obtained, on the array that xdmad.h declares, the initialisation returns. The first
-- one makes the driver valid, with every channel of the controller free and without a callback, in
-- the given mode. A later one keeps the driver. Both release the lock last.
pub initialize-Initialized :
    (w : World) (g mode : ℕ) (m : Machine)
    → HasType w g
    → length m.driver.channels ≡ 24
    → w.obtains m.events ≡ true
    → Returns (initialize mode w m) (λ _ m'. Initialized g mode m m.initialized m')
initialize-Initialized w g mode m t size obtained = elim (Bool-cases m.initialized) [
  | inl done ↦ rw (initialize-again w mode m obtained done) (
      subst
        (λ b.
          Initialized g mode m b (record m { events = release_lock ∷ obtain_lock none ∷ m.events }))
        (sym done) (Initialized.again refl done refl))
  | inr fresh ↦
      subst (λ b. Returns (initialize mode w m) (λ _ m'. Initialized g mode m b m')) (sym fresh)
        (rw (initialize-first w g mode m t obtained fresh) (
          Returns-bind (λ _ m'. Reset 0 (0 + channel_count g) (configured m g mode) m')
            (λ _ m'. Initialized g mode m false m') (reset_channels (channel_count g) 0)
            (λ _. set_initialized >> emit release_lock) w (configured m g mode)
            (λ _ m' r. finished m' r)
            (reset_channels-Reset w (configured m g mode) (channel_count g) 0
              (rw size (bounded t.channels)))))
]
  where
    bounded : channel_count g ≤ 24 → 0 + channel_count g ≤ 24
    bounded h = omega arith

    finished :
        (m' : Machine)
        → Reset 0 (0 + channel_count g) (configured m g mode) m'
        → Initialized g mode m false
            (record m' { initialized = true; events = release_lock ∷ m'.events })
    finished m' r =
        Initialized.first
          (record { size = r.size ∙ size; count = subst (λ n. n ≤ 24) (sym r.count) t.channels })
          r.count r.mode (λ k lt. r.cleared k (omega arith) (omega arith)) refl
          (ap (λ es. release_lock ∷ es) r.same_events)
