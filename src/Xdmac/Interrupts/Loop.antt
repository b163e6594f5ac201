-- ===== src/Xdmac/Interrupts/Loop.antt =====
-- The loop of the interrupt handler over the channels: XDMAD_Handler of src/Xdmac/xdmad.c.
use taste_samx_rtems_runtime.Xdmac.Interrupts.Passes.{
  Rounds, Rounds-empty, Rounds-stop, Rounds-Round, length-Round,
}
use taste_samx_rtems_runtime.Common.{
  ℕ, zero, suc, ◌+◌, ◌≤◌, ◌≡◌, refl, ◌∙◌, Bool, true, false, not, ◌||◌, some, ◌==◌, length,
  get_elem?, if◌then◌else◌, arith, get_elem?-some, bit_and,
}
use taste_samx_rtems_runtime.Xdmac.Machine.{World, Machine, XdmadChannel, ◌>>=◌, pure}
use taste_samx_rtems_runtime.Xdmac.Registers.{bit}
use taste_samx_rtems_runtime.Xdmac.Driver.{is_free}
use taste_samx_rtems_runtime.Xdmac.Handler.{handle_channel, handle_channels}
use taste_samx_rtems_runtime.Xdmac.Valid.{IsPassive, Returns, Returns-mono, Returns-bind}
use taste_samx_rtems_runtime.Xdmac.Interrupts.Channel.{handle_channel-Round}
use taste_samx_rtems_runtime.Xdmac.Interrupts.Round.{Round}

module _ (w : World) (gis gs : ℕ) where
  handle_channels-suc :
      (m : Machine) (n i : ℕ)
      → handle_channels (suc n) i gis gs w m
        ≡ (handle_channel gis gs i >>= λ go_on.
              if go_on then handle_channels n (i + 1) gis gs else pure tt)
            w m
  unfolding handle_channels
  handle_channels-suc m n i = refl

  pub handle_channels-Rounds :
      (m : Machine) (n i : ℕ)
      → IsPassive w
      → length m.driver.channels ≡ 24
      → i + n ≤ 24
      → Returns
          (handle_channels n i gis gs w m)
          (λ _ m'. Rounds w gis gs i (i + n) m m' × (m'.initialized ≡ m.initialized))
  handle_channels-Rounds m zero i passive size h =
      unfold handle_channels in (Rounds-empty w gis gs i m, refl)
  handle_channels-Rounds m (suc n) i passive size h =
      step (get_elem?-some m.driver.channels i (omega arith))
        (λ m1. handle_channels-Rounds m1 n (i + 1) passive)
    where
      Rest : Type 0
      Rest =
          (m1 : Machine)
          → length m1.driver.channels ≡ 24
          → i + 1 + n ≤ 24
          → Returns (handle_channels n (i + 1) gis gs w m1) (λ _ m'.
            Rounds w gis gs (i + 1) (i + 1 + n) m1 m' × (m'.initialized ≡ m1.initialized))

      tail :
          (c : XdmadChannel) (go_on : Bool) (m1 : Machine)
          → get_elem? m.driver.channels i ≡ some c
          → Rest
          → Round w gis gs i m m1
            × (go_on ≡ ((bit_and gis (bit i) == 0) || not (is_free c.state)))
            × (go_on ≡ false → m1 ≡ m)
            × (m1.initialized ≡ m.initialized)
          → Returns
              ((if go_on then handle_channels n (i + 1) gis gs else pure tt) w m1)
              (λ _ m'. Rounds w gis gs i (i + suc n) m m' × (m'.initialized ≡ m.initialized))
      tail c true m1 e rest r =
          Returns-mono _ _ (handle_channels n (i + 1) gis gs w m1)
            (λ _ m' k. (
              Rounds-Round w gis gs i n c (omega arith) e (ground (arith, r.1)) r.0 k.0,
              k.1 ∙ r.3,
            ))
            (rest m1 (length-Round r.0 ∙ size) (omega arith))
      tail c false m1 e rest r =
          (Rounds-stop w gis gs i n c e (ground (arith, r.1)) (ground (arith, r.1)) (r.2 refl), r.3)

      step :
          (c : XdmadChannel) × (get_elem? m.driver.channels i ≡ some c)
          → Rest
          → Returns
              (handle_channels (suc n) i gis gs w m)
              (λ _ m'. Rounds w gis gs i (i + suc n) m m' × (m'.initialized ≡ m.initialized))
      step (c, e) rest = rw (handle_channels-suc m n i) (
          Returns-bind _ _ (handle_channel gis gs i)
            (λ go_on. if go_on then handle_channels n (i + 1) gis gs else pure tt) w m
            (λ go_on m1 r. tail c go_on m1 e rest r)
            (handle_channel-Round w gis gs m i c passive (omega arith) e))
