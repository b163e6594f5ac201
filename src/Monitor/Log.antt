-- ===== src/Monitor/Log.antt =====
-- The activation log of src/Monitor/Monitor.c, as it is built with RT_EXEC_LOG_ACTIVE.
pub mod Refine
pub mod Readout
pub mod Runs
use taste_samx_rtems_runtime.Common.{
  ℕ, ◌+◌, ◌%◌, ◌^◌, Bool, true, false, Option, none, some, List, ltb, leb, ◌==◌, length, set,
  if◌then◌else◌,
}
use taste_samx_rtems_runtime.Common.Word.{u32, u64, sub64}

-- `Monitor_EntryType`
pub data EntryType : Type 0 where
  activation deactivation : EntryType

-- `Monitor_InterfaceActivationEntry`
pub record Entry : Type 0 where
  pub interface : ℕ
  pub entry_type : EntryType
  pub timestamp : ℕ

-- `is_frozen`, `activation_entry_counter` and `activation_log_buffer`, whose length is
-- `RT_EXEC_LOG_BUFFER_SIZE`.
pub record Log : Type 0 where
  pub is_frozen : Bool
  pub counter : ℕ
  pub buffer : List Entry

-- The state at start, over the memory that the linker reserved.
abbrev pub initial_log : List Entry → Log
initial_log memory = record { is_frozen = true; counter = 0; buffer = memory }

-- `handle_activation_log_cyclic_buffer`. The three fields of the entry are written at one index, and
-- `now` is what `Hal_GetElapsedTimeInNs` returns. A buffer of size 0 makes the remainder undefined.
unfoldable pub handle_activation_log_cyclic_buffer : ℕ → EntryType → ℕ → Log → Option (Bool × Log)
handle_activation_log_cyclic_buffer interface entry_type now s =
    if s.is_frozen
    then some (false, s)
    else if length s.buffer == 0
    then none
    else some (
      true,
      record s {
        buffer =
            set s.buffer (s.counter % length s.buffer)
              (record { interface = interface; entry_type = entry_type; timestamp = now });
        counter = u64 (s.counter + 1);
      },
    )

-- `Monitor_IndicateInterfaceActivated`
unfoldable pub indicate_interface_activated : ℕ → ℕ → Log → Option (Bool × Log)
indicate_interface_activated interface now s =
    handle_activation_log_cyclic_buffer interface activation now s

-- `Monitor_IndicateInterfaceDeactivated`
unfoldable pub indicate_interface_deactivated : ℕ → ℕ → Log → Option (Bool × Log)
indicate_interface_deactivated interface now s =
    handle_activation_log_cyclic_buffer interface deactivation now s

-- `Monitor_FreezeInterfaceActivationLogging`
unfoldable pub freeze_interface_activation_logging : Log → Bool × Log
freeze_interface_activation_logging s =
    if leb (length s.buffer) 0 then (false, s) else (true, record s { is_frozen = true })

-- `Monitor_UnfreezeInterfaceActivationLogging`
unfoldable pub unfreeze_interface_activation_logging : Log → Bool × Log
unfreeze_interface_activation_logging s =
    if leb (length s.buffer) 0 then (false, s) else (true, record s { is_frozen = false })

-- `Monitor_ClearInterfaceActivationLog`
unfoldable pub clear_interface_activation_log : Log → Bool × Log
clear_interface_activation_log s =
    if leb (length s.buffer) 0 then (false, s) else (true, record s { counter = 0 })

-- What `Monitor_GetInterfaceActivationEntryLog` hands out.
pub record EntryLog : Type 0 where
  pub activation_log : List Entry
  pub latest_activation_entry_index : ℕ
  pub size_of_activation_log : ℕ

-- `Monitor_GetInterfaceActivationEntryLog`. The results are stored in variables of type `uint32_t`.
unfoldable pub get_interface_activation_entry_log : Log → Option EntryLog
get_interface_activation_entry_log s =
    if s.counter == 0
    then some (record {
      activation_log = s.buffer;
      latest_activation_entry_index = 0;
      size_of_activation_log = 0;
    })
    else if length s.buffer == 0
    then none
    else some (record {
      activation_log = s.buffer;
      latest_activation_entry_index = u32 (sub64 (s.counter % length s.buffer) 1);
      size_of_activation_log =
          if ltb (length s.buffer) s.counter then u32 (length s.buffer) else u32 s.counter;
    })
