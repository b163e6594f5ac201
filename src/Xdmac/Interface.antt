-- ===== src/Xdmac/Interface.antt =====
-- The handshake interfaces of the peripherals: src/Xdmac/xdma_hardware_interface.c.
pub mod Lookup
use taste_samx_rtems_runtime.Common.{
  ℕ, zero, suc, ◌+◌, Bool, true, false, ◌&&◌, Option, none, some, List, [], ◌∷◌, ◌==◌, get_elem?,
  bit_and, if◌then◌else◌,
}
use taste_samx_rtems_runtime.Common.Word.{u8, ◌>>>◌}
use taste_samx_rtems_runtime.Xdmac.Machine.{M, pure, ◌>>=◌}
use taste_samx_rtems_runtime.Xdmac.Registers.{get_type}

-- `Pmc_PeripheralId` of the board support library: one number for each peripheral.
pub record PeripheralIds : Type 0 where
  pub hsmci : ℕ
  pub spi0 : ℕ
  pub spi1 : ℕ
  pub qspi : ℕ
  pub usart0 : ℕ
  pub usart1 : ℕ
  pub usart2 : ℕ
  pub pwm0 : ℕ
  pub twihs0 : ℕ
  pub twihs1 : ℕ
  pub twihs2 : ℕ
  pub uart0 : ℕ
  pub uart1 : ℕ
  pub uart2 : ℕ
  pub uart3 : ℕ
  pub uart4 : ℕ
  pub dacc : ℕ
  pub ssc : ℕ
  pub pio_a : ℕ
  pub afec0 : ℕ
  pub afec1 : ℕ
  pub aes : ℕ
  pub pwm1 : ℕ
  pub tc0_ch0 : ℕ
  pub tc0_ch1 : ℕ
  pub tc0_ch2 : ℕ
  pub tc1_ch0 : ℕ

-- `XdmaHardwareInterface`
pub record XdmaHardwareInterface : Type 0 where
  pub xdmac : ℕ
  pub periph_id : ℕ
  pub transfer : ℕ
  pub if_id : ℕ

abbrev pub row : ℕ → ℕ → ℕ → XdmaHardwareInterface
row p t i = record { xdmac = 0; periph_id = p; transfer = t; if_id = i }

-- `xdmaHwIf`
unfoldable pub xdma_hw_if : PeripheralIds → List XdmaHardwareInterface
xdma_hw_if ids =
    row ids.hsmci 0 0
    ∷ row ids.hsmci 1 0
    ∷ row ids.spi0 0 1
    ∷ row ids.spi0 1 2
    ∷ row ids.spi1 0 3
    ∷ row ids.spi1 1 4
    ∷ row ids.qspi 0 5
    ∷ row ids.qspi 1 6
    ∷ row ids.usart0 0 7
    ∷ row ids.usart0 1 8
    ∷ row ids.usart1 0 9
    ∷ row ids.usart1 1 10
    ∷ row ids.usart2 0 11
    ∷ row ids.usart2 1 12
    ∷ row ids.pwm0 0 13
    ∷ row ids.twihs0 0 14
    ∷ row ids.twihs0 1 15
    ∷ row ids.twihs1 0 16
    ∷ row ids.twihs1 1 17
    ∷ row ids.twihs2 0 18
    ∷ row ids.twihs2 1 19
    ∷ row ids.uart0 0 20
    ∷ row ids.uart0 1 21
    ∷ row ids.uart1 0 22
    ∷ row ids.uart1 1 23
    ∷ row ids.uart2 0 24
    ∷ row ids.uart2 1 25
    ∷ row ids.uart3 0 26
    ∷ row ids.uart3 1 27
    ∷ row ids.uart4 0 28
    ∷ row ids.uart4 1 29
    ∷ row ids.dacc 0 30
    ∷ row ids.dacc 0 31
    ∷ row ids.ssc 0 32
    ∷ row ids.ssc 1 33
    ∷ row ids.pio_a 1 34
    ∷ row ids.afec0 1 35
    ∷ row ids.afec1 1 36
    ∷ row ids.aes 0 37
    ∷ row ids.aes 1 38
    ∷ row ids.pwm1 0 39
    ∷ row ids.tc0_ch0 1 40
    ∷ row ids.tc0_ch1 1 41
    ∷ row ids.tc0_ch2 1 42
    ∷ row ids.tc1_ch0 1 43
    ∷ []

-- `NumOfPeripheral` from the value of the type register.
abbrev pub num_of_peripheral : ℕ → ℕ
num_of_peripheral gtype = u8 (bit_and gtype 0x00FF0000 >>> 16)

-- The search loop of `XDMAIF_Get_ChannelNumber`: this many rounds are left, from row `i`. `none` is a
-- read behind the table.
unfoldable pub find_if : List XdmaHardwareInterface → ℕ → ℕ → ℕ → ℕ → Option ℕ
find_if table periph transfer zero i = some 0xff
find_if table periph transfer (suc rounds) i =
    let rest = find_if table periph transfer rounds (i + 1) in
    elim (get_elem? table i) [
      | none ↦ none
      | some r ↦ if (r.periph_id == periph) && (r.transfer == transfer) then some r.if_id else rest
    ]

-- The loop of `XDMAIF_IsValidatedPeripherOnDma`.
unfoldable pub has_row : List XdmaHardwareInterface → ℕ → ℕ → ℕ → Option Bool
has_row table periph zero i = some false
has_row table periph (suc rounds) i =
    let rest = has_row table periph rounds (i + 1) in
    elim (get_elem? table i) [
      | none ↦ none
      | some r ↦ if r.periph_id == periph then some true else rest
    ]

abbrev pub lift : {A : Type 0} → Option A → M A
lift o w m = elim o [ none ↦ none | some a ↦ some (a, m) ]

module _ (ids : PeripheralIds) where
  -- The loop runs for `i = 0 .. NumOfPeripheral`.
  unfoldable pub get_channel_number : ℕ → ℕ → M ℕ
  get_channel_number periph transfer = do
    gtype ← get_type
    lift (find_if (xdma_hw_if ids) periph transfer (suc (num_of_peripheral gtype)) 0)

  unfoldable pub is_validated_peripher_on_dma : ℕ → M Bool
  is_validated_peripher_on_dma periph = do
    gtype ← get_type
    if periph == 0xFF
        then pure true
        else lift (has_row (xdma_hw_if ids) periph (suc (num_of_peripheral gtype)) 0)
