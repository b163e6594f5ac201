-- ===== src/Xdmac/Machine.antt =====
-- What the code of src/Xdmac works on: the driver's structures (xdmad.h), the controller's registers
-- (component_xdmac.h), and the history of what it did to the outside. The controller, the RTEMS
-- semaphore and the power management controller answer as functions of that history.
use taste_samx_rtems_runtime.Common.{
  ℕ, Bool, Option, none, some, List, ◌∷◌, ltb, get_elem?, set, length, if◌then◌else◌,
}
use taste_samx_rtems_runtime.Common.Word.{u32}

-- The registers of `Xdmac`, and those of `XdmacChid` with their channel.
pub data Register : Type 0 where
  gtype gcfg gwac gie gid gim gis ge gd gs grs gws grws grwr gswr gsws gswf : Register
  cie cid cim cis csa cda cnda cndc cubc cbc cc cds_msp csus cdus : ℕ → Register

-- One effect outside of the driver's memory. `call` is a call of the callback with this pointer, for
-- this channel, with this argument.
pub data Event : Type 0 where
  load : Register → Event
  store : Register → ℕ → Event
  obtain_lock : Option ℕ → Event
  release_lock : Event
  query_clock : Event
  enable_clock : Event
  call : ℕ → ℕ → ℕ → Event

-- `eXdmadRC`
pub data XdmadRc : Type 0 where
  ok partial_done done busy error canceled : XdmadRc

-- `eXdmadState`
pub data XdmadState : Type 0 where
  free allocated start in_xfr done halted : XdmadState

-- `sXdmadChannel`. A null callback is `none`.
pub record XdmadChannel : Type 0 where
  pub callback : Option ℕ
  pub arg : ℕ
  pub irq_owner : ℕ
  pub src_periph_id : ℕ
  pub dst_periph_id : ℕ
  pub src_tx_if_id : ℕ
  pub src_rx_if_id : ℕ
  pub dst_tx_if_id : ℕ
  pub dst_rx_if_id : ℕ
  pub state : XdmadState

-- `sXdmad`. The fields `pollingTimeout` and `xdmaMutex` are not used, and `pXdmacs` is the one
-- controller.
pub record Xdmad : Type 0 where
  pub channels : List XdmadChannel
  pub num_controllers : ℕ
  pub num_channels : ℕ
  pub polling_mode : ℕ

-- The driver, the flag `xDmad_Initialized`, and the history.
pub record Machine : Type 0 where
  pub driver : Xdmad
  pub initialized : Bool
  pub events : List Event

-- How the outside answers after a history of events, latest first: the value that a register
-- reads, whether `rtems_semaphore_obtain` succeeds, whether the clock of the controller is on, and what
-- the callback with a pointer does when it is called for a channel with an argument, `none` being that
-- it does not return.
pub record World : Type 0 where
  pub reads : List Event → Register → ℕ
  pub obtains : List Event → Bool
  pub clock_on : List Event → Bool
  pub calls : ℕ → ℕ → ℕ → Machine → Option (Unit {0} × Machine)

-- `none` is a failed assertion or an access outside an array.
abbrev pub M : Type 0 → Type 0
M A = World → Machine → Option (A × Machine)

abbrev pub pure : {A : Type 0} → A → M A
pure a w m = some (a, m)

infixl 5 ◌>>=◌ ◌>>◌
abbrev pub ◌>>=◌ : {A B : Type 0} → M A → (A → M B) → M B
◌>>=◌ c f w m = elim (c w m) [ none ↦ none | some (a, m') ↦ f a w m' ]

abbrev pub ◌>>◌ : {B : Type 0} → M (Unit {0}) → M B → M B
c >> k = c >>= λ _. k

abbrev pub assert : Bool → M (Unit {0})
assert b w m = if b then some (tt, m) else none

abbrev pub emit : Event → M (Unit {0})
emit e w m = some (tt, record m { events = e ∷ m.events })

-- The callback runs.
abbrev pub enter_callback : ℕ → ℕ → ℕ → M (Unit {0})
enter_callback f i arg w m = w.calls f i arg m

-- A register is 32 bits wide.
abbrev pub read : Register → M ℕ
read r w m = some (u32 (w.reads m.events r), record m { events = load r ∷ m.events })

abbrev pub write : Register → ℕ → M (Unit {0})
write r v = emit (store r v)

abbrev pub get_driver : M Xdmad
get_driver w m = some (m.driver, m)

abbrev pub put_driver : Xdmad → M (Unit {0})
put_driver d w m = some (tt, record m { driver = d })

-- `XdmaChannels[i]`, read and written.
abbrev pub get_channel : ℕ → M XdmadChannel
get_channel i w m = elim (get_elem? m.driver.channels i) [ none ↦ none | some c ↦ some (c, m) ]

abbrev pub with_channels : Machine → List XdmadChannel → Machine
with_channels m cs = record m { driver = record (m.driver) { channels = cs } }

abbrev pub put_channel : ℕ → XdmadChannel → M (Unit {0})
put_channel i c w m =
    if ltb i (length m.driver.channels)
    then some (tt, with_channels m (set m.driver.channels i c))
    else none
