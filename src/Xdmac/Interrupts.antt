-- ===== src/Xdmac/Interrupts.antt =====
-- What the interrupt handler of src/Xdmac/xdmad.c does to the channels, and the polling that calls it.
pub mod Channel
pub mod Status
pub mod Passes
pub mod Round
pub mod Callback
pub mod Loop
use taste_samx_rtems_runtime.Common.{
  ℕ, zero, suc, ◌+◌, ◌%◌, ◌^◌, ◌<◌, ◌≤◌, ◌≡◌, ◌≢◌, ◌⊎◌, inl, inr, refl, sym, subst, ◌∙◌, Bool, true,
  false, not, ◌&&◌, ◌||◌, Option, none, some, List, [], ◌∷◌, ltb, ◌==◌, length, set, get_elem?,
  if◌then◌else◌, arith, Bool-cases, lt→ltb, get_elem?-some, set-get_elem?, set-set,
  get_elem?-set_self, get_elem?-set_ne, length-set, lt-of-get_elem?, bit_and,
}
use native.Mathlib.Nat.{zero-add}
use native.Mathlib.Decide.{ℕ_discrete}
use taste_samx_rtems_runtime.Common.Word.{u32, any_bit}
use taste_samx_rtems_runtime.Xdmac.Machine.{
  World, Machine, Event, XdmadState, XdmadChannel, Xdmad, load, cis, cim, gis, gs, XdmadRc, ◌>>=◌,
  pure,
}
use taste_samx_rtems_runtime.Xdmac.Registers.{
  bit, get_channel_isr, get_gisr, get_global_ch_status, get_mask_channel_isr, get_channel_it_mask,
  cis_bis, cis_lis, cis_dis, cim_lim,
}
use taste_samx_rtems_runtime.Xdmac.Driver.{is_free, with_state}
use taste_samx_rtems_runtime.Xdmac.Handler.{
  handle_channel_interrupt_status, handle_channel_interrupts, handle_channel, execute_callback,
  handle_channels, handler,
}
use taste_samx_rtems_runtime.Xdmac.Lifecycle.{with_list}
use taste_samx_rtems_runtime.Xdmac.Valid.{
  Follows, Follows-trans, IsPassive, IsValid, Returns, Returns-mono, Returns-bind,
}
use Loop.{handle_channels-Rounds}
use Passes.{Rounds}

-- The global interrupt status and the channel status that the handler reads after the history `es`.
abbrev pub interrupt_status : World → List Event → ℕ
interrupt_status w es = u32 (w.reads es gis)

abbrev pub channel_status : World → List Event → ℕ
channel_status w es = u32 (w.reads (load gis ∷ es) gs)

-- The machine when the loop of the handler begins: both global registers are read.
abbrev pub looked : Machine → Machine
looked m = record m { events = load gs ∷ load gis ∷ m.events }

-- What the handler has done: it has read the global status. With no interrupt of a channel pending it
-- has kept the driver, otherwise its loop ran over the channels that the driver counts.
pub record Handled (w : World) (m m' : Machine) : Type 0 where
  pub begins : Follows (load gis ∷ m.events) m'.events
  pub quiet : bit_and (interrupt_status w m.events) 0xFFFFFF ≡ 0 → m'.driver ≡ m.driver
  pub pending :
      bit_and (interrupt_status w m.events) 0xFFFFFF ≢ 0
      → Rounds w
          (interrupt_status w m.events)
          (channel_status w m.events)
          0
          m.driver.num_channels
          (looked m)
          m'

-- On a valid driver whose callbacks return and do not call it, the interrupt handler returns, and
-- it has read the global status. With no interrupt of channels 0 to 23 pending it keeps the driver.
-- Otherwise each channel that the driver counts, if no channel up to it is pending and free, and if
-- it is pending and the controller reports it as disabled, has its status read; it becomes done
-- exactly if the end of a list, of the disabling, or of a block with no end of a list asked for was
-- reported, then its callback, where it has one, was called with its argument, and otherwise it is
-- kept. Every other channel is kept: one that is not pending, is enabled, is free, stands behind
-- one that is pending and free, or is not counted. Counts and mode are kept.
pub handler-Handled :
    (w : World) (m : Machine)
    → IsValid m
    → IsPassive w
    → Returns (handler w m) (λ _ m'. Handled w m m' × (m'.initialized ≡ m.initialized))
unfolding handler get_gisr get_global_ch_status
handler-Handled w m v passive =
    elim (Bool-cases (bit_and (interrupt_status w m.events) 0xFFFFFF == 0)) [
      | inl none_pending ↦ rw none_pending (
        record {
          begins = ([], refl);
          quiet = λ _. refl;
          pending = λ p. absurd (p (ground (arith, none_pending)));
        },
        refl,
      )
      | inr some_pending ↦ rw some_pending (
          Returns-mono _ _
            (handle_channels m.driver.num_channels 0 (interrupt_status w m.events)
              (channel_status w m.events) w (looked m))
            (λ _ m' r. (
              record {
                begins = Follows-trans (load gs ∷ [], refl) r.0.follows;
                quiet = λ q. absurd (ground (arith, some_pending, q));
                pending = λ _.
                    subst
                      (λ j.
                        Rounds w (interrupt_status w m.events) (channel_status w m.events) 0 j
                          (looked m) m')
                      (zero-add m.driver.num_channels) r.0;
              },
              r.1,
            ))
            (handle_channels-Rounds w (interrupt_status w m.events) (channel_status w m.events)
              (looked m) m.driver.num_channels 0 passive v.size (omega (arith, v.count))))
    ]
