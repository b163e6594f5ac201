-- ===== src/Xdmac/Tests.antt =====
-- The driver of src/Xdmac on a concrete controller: 24 channels and all 45 requests.
use taste_samx_rtems_runtime.Common.{
  ℕ, zero, suc, ◌≡◌, ◌≢◌, refl, true, false, none, some, List, [], ◌∷◌, ◌&&◌, not, ◌==◌, ◌||◌,
  arith, if◌then◌else◌,
}
use taste_samx_rtems_runtime.Xdmac.Machine.{
  World, Machine, Register, XdmadRc, XdmadState, XdmadChannel, gtype, gis, cim, cis, release_lock,
  obtain_lock,
}
use taste_samx_rtems_runtime.Xdmac.Registers.{get_type}
use taste_samx_rtems_runtime.Xdmac.Interface.{
  PeripheralIds, get_channel_number, is_validated_peripher_on_dma, find_if, has_row, xdma_hw_if,
}
use taste_samx_rtems_runtime.Xdmac.Interface.Lookup.{is_validated-iff-found}
use taste_samx_rtems_runtime.Xdmac.Driver.{
  fresh_channel, allocate_channel, allocate_xdmac_channel, claim_free, claim, free_channel,
  initialize,
}
use taste_samx_rtems_runtime.Xdmac.Handler.{handler, is_transfer_done}
use taste_samx_rtems_runtime.Xdmac.Valid.{IsPassive, IsValid, HasType, Returns}
use taste_samx_rtems_runtime.Xdmac.Commands.{
  perform, perform_refines, Does, command, start_transfer_call, free_channel_call,
}
use taste_samx_rtems_runtime.Xdmac.Allocation.{
  Outcome, is_transferable, last_event, allocate_channel-Outcome,
}
use taste_samx_rtems_runtime.Xdmac.Interrupts.{handler-Handled, Handled}
use taste_samx_rtems_runtime.Xdmac.Polling.{Polled, done_reply, is_busy, is_transfer_done-Polled}
use taste_samx_rtems_runtime.Xdmac.Ownership.{
  Event, Event-Lives, allocation_exclusive, here, called, Freed,
}
use taste_samx_rtems_runtime.Xdmac.Ownership.Cycle.{Lives}
use taste_samx_rtems_runtime.Xdmac.Setup.{Initialized, initialize-Initialized}

abbrev ids : PeripheralIds
ids = record {
  hsmci = 18;
  spi0 = 21;
  spi1 = 42;
  qspi = 43;
  usart0 = 13;
  usart1 = 14;
  usart2 = 15;
  pwm0 = 31;
  twihs0 = 19;
  twihs1 = 20;
  twihs2 = 41;
  uart0 = 7;
  uart1 = 8;
  uart2 = 44;
  uart3 = 45;
  uart4 = 46;
  dacc = 30;
  ssc = 22;
  pio_a = 10;
  afec0 = 29;
  afec1 = 40;
  aes = 56;
  pwm1 = 60;
  tc0_ch0 = 23;
  tc0_ch1 = 24;
  tc0_ch2 = 25;
  tc1_ch0 = 26;
}

-- 24 channels, 45 requests.
abbrev type_value : ℕ
type_value = 0x2C0017

-- Channel 0 is pending and disabled, with the end of a list.
abbrev answer : Register → ℕ
answer gtype = type_value
answer gis = 1
answer (cim i) = 0xFF
answer (cis i) = 2
answer _ = 0

abbrev board : World
board = record {
  reads = λ es r. answer r;
  obtains = λ es. true;
  clock_on = λ es. false;
  calls = λ f i arg m. some (tt, m);
}

board-HasType : HasType board type_value
board-HasType = record { constant = λ es. refl; requests = omega arith; channels = omega arith }

board-IsPassive : IsPassive board
board-IsPassive = record { returns = λ f i arg m. (refl, refl, ([], refl)) }

abbrev fresh : ℕ → List XdmadChannel
fresh zero = []
fresh (suc n) = fresh_channel ∷ fresh n

abbrev with_first : XdmadChannel → ℕ → Machine
with_first c mode = record {
  driver = record {
    channels = c ∷ fresh 23;
    num_controllers = 1;
    num_channels = 24;
    polling_mode = mode;
  };
  initialized = true;
  events = [];
}

abbrev at_rest : Machine
at_rest = with_first fresh_channel 0

abbrev started : XdmadChannel
started = record fresh_channel { state = XdmadState.start; callback = some 7; arg = 5 }

abbrev busy : Machine
busy = with_first started 0

abbrev polled : Machine
polled = with_first started 1

at_rest-IsValid : IsValid at_rest
at_rest-IsValid = record { size = refl; count = omega arith }

busy-IsValid : IsValid busy
busy-IsValid = record { size = refl; count = omega arith }

polled-IsValid : IsValid polled
polled-IsValid = record { size = refl; count = omega arith }

perform_refines_example :
    Returns
      (perform (start_transfer_call 0) board busy)
      (Does (command (start_transfer_call 0)) 0 busy)
perform_refines_example = perform_refines board busy (start_transfer_call 0) busy-IsValid

allocate_channel-Outcome_example : Returns (allocate_channel ids 21 0xFF board at_rest) (λ ch m'.
    Outcome ids type_value 21 0xFF
      (board.obtains [] && is_transferable ids type_value 21 0xFF)
      at_rest.driver
      m'.driver
      ch
    × (m'.initialized ≡ true)
    × (last_event m' ≡ some (if board.obtains [] then release_lock else obtain_lock (some 0x7FF))))
allocate_channel-Outcome_example =
    allocate_channel-Outcome ids board type_value 21 0xFF board-HasType at_rest at_rest-IsValid

handler-Handled_example :
    Returns (handler board busy) (λ _ m'. Handled board busy m' × (m'.initialized ≡ true))
handler-Handled_example = handler-Handled board busy busy-IsValid board-IsPassive

is_transfer_done-Polled_example : Returns (is_transfer_done 0 board polled) (λ rc m'.
    (rc ≡ done_reply XdmadState.start)
    × Polled board polled (is_busy XdmadState.start && not (1 == 0)) m'
    × (m'.initialized ≡ true))
is_transfer_done-Polled_example =
    is_transfer_done-Polled board polled polled-IsValid board-IsPassive 0 started (omega arith) refl

initialize-Initialized_example :
    Returns
      (initialize 0 board (record at_rest { initialized = false }))
      (λ _ m'. Initialized type_value 0 (record at_rest { initialized = false }) false m')
initialize-Initialized_example =
    initialize-Initialized board type_value 0 (record at_rest { initialized = false }) board-HasType
      refl refl

is_validated-iff-found_example :
    Returns (is_validated_peripher_on_dma ids 21 board at_rest) (λ valid m'.
      Returns (get_channel_number ids 21 0 board m') (λ tx m''.
        Returns
          (get_channel_number ids 21 1 board m'')
          (λ rx _. valid ≡ ((21 == 0xff) || not ((tx == 0xff) && (rx == 0xff))))))
is_validated-iff-found_example =
    is_validated-iff-found ids board type_value board-HasType at_rest 21

abbrev ended : Machine
ended = with_first (record fresh_channel { state = XdmadState.done }) 0

abbrev free_at_0 : Event ids type_value ended at_rest
unfolding perform free_channel
free_at_0 = called board (free_channel_call 0) XdmadRc.ok refl

Event-Lives_example : Lives (Freed free_at_0) ended.driver at_rest.driver
Event-Lives_example = Event-Lives free_at_0 (record { size = refl; count = omega arith })

-- The machine that an allocation leaves.
abbrev after : ℕ → ℕ → Machine → Machine
after src dst m = elim (allocate_channel ids src dst board m) [ none ↦ m | some (ch, m') ↦ m' ]

allocates :
    (allocate_channel ids 21 0xFF board at_rest ≡ some (0, after 21 0xFF at_rest))
    × (allocate_channel ids 0xFF 30 board (after 21 0xFF at_rest)
        ≡ some (1, after 0xFF 30 (after 21 0xFF at_rest)))
unfolding allocate_channel allocate_xdmac_channel claim_free claim is_validated_peripher_on_dma
    get_channel_number find_if has_row xdma_hw_if get_type
allocates = (refl, refl)

allocation_exclusive_example : ◌≢◌ {A = ℕ} 1 0
allocation_exclusive_example =
    allocation_exclusive ids type_value board board 21 0xFF 0 0xFF 30 1 at_rest
      (after 21 0xFF at_rest) (after 21 0xFF at_rest) (after 0xFF 30 (after 21 0xFF at_rest))
      at_rest-IsValid board-HasType board-HasType allocates.0 (λ e. omega arith) here allocates.1
