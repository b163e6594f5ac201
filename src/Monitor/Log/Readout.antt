-- ===== src/Monitor/Log/Readout.antt =====
-- What Monitor_GetInterfaceActivationEntryLog hands out, against the list of all entries.
use native.Mathlib.Decide.{ℕ_discrete}
use native.Mathlib.Nat.{mod-lt, zero-mod}
use taste_samx_rtems_runtime.Common.Numbers.{mod-before}
use taste_samx_rtems_runtime.Common.Word.{u32, uint32_max, sub64}
use taste_samx_rtems_runtime.Common.{
  length, ◌<◌, ℕ, ◌%◌, ◌^◌, ◌≡◌, min, some, suc, ◌≢◌, arith, get_elem?, ap, none, ◌∙◌,
  get_elem?-none, if◌then◌else◌, ltb, sym, ◌+◌, zero, refl, ◌==◌,
}
use taste_samx_rtems_runtime.Monitor.Log.Refine.{History, Represents}
use taste_samx_rtems_runtime.Monitor.Log.{get_interface_activation_entry_log, Log, EntryLog}

abbrev readout : Log → EntryLog
readout s = record {
  activation_log = s.buffer;
  latest_activation_entry_index = u32 (sub64 (s.counter % length s.buffer) 1);
  size_of_activation_log =
      if ltb (length s.buffer) s.counter then u32 (length s.buffer) else u32 s.counter;
}

reads :
    (s : Log)
    → 0 < s.counter
    → 0 < length s.buffer
    → get_interface_activation_entry_log s ≡ some (readout s)
unfolding get_interface_activation_entry_log
reads s p q = ground arith

size_read :
    (s : Log) (n : ℕ)
    → s.counter ≡ n
    → length s.buffer < 2 ^ 32
    → (readout s).size_of_activation_log ≡ min n (length s.buffer)
size_read s n e lt = ground arith

index_before :
    (s : Log) (j : ℕ)
    → s.counter ≡ suc j
    → 0 < length s.buffer
    → length s.buffer < 2 ^ 32
    → suc j % length s.buffer ≢ 0
    → (readout s).latest_activation_entry_index ≡ j % length s.buffer
index_before s j e p lt ne =
    let step =
      mod-before j (length s.buffer) p
        (λ z. ne (ap (λ n. n % length s.buffer) (omega arith) ∙ z)) in
    let r = mod-lt j p in
    let at : s.counter % length s.buffer ≡ j % length s.buffer + 1 =
      ap (λ n. n % length s.buffer) (omega (arith, e)) ∙ step in
    omega arith

-- On a log of less than 2 ^ 32 places that represents a number of entries which is not a multiple
-- of its size, the index that is handed out is that of the latest entry, and the size is the
-- number of entries, at most the number of places.
pub entry_log-latest :
    (s : Log) (h : History)
    → Represents s h
    → length s.buffer < 2 ^ 32
    → length h.entries % length s.buffer ≢ 0
    → (l : EntryLog) × (get_interface_activation_entry_log s ≡ some l)
      × (get_elem? l.activation_log l.latest_activation_entry_index ≡ get_elem? h.entries 0)
      × (l.size_of_activation_log ≡ min (length h.entries) (length s.buffer))
unfolding get_interface_activation_entry_log
entry_log-latest s h r small ne = go (length h.entries) refl ne
  where
    go :
        (n : ℕ)
        → n ≡ length h.entries
        → n % length s.buffer ≢ 0
        → (l : EntryLog) × (get_interface_activation_entry_log s ≡ some l)
          × (get_elem? l.activation_log l.latest_activation_entry_index ≡ get_elem? h.entries 0)
          × (l.size_of_activation_log ≡ min (length h.entries) (length s.buffer))
    go zero e ne = absurd (ne (zero-mod (length s.buffer)))
    go (suc j) e ne = (
      readout s,
      reads s (omega (arith, r.counter)) r.room,
      ap (get_elem? s.buffer) (index_before s j (r.counter ∙ sym e) r.room small ne)
          ∙ r.stored j 0 (omega arith) r.room,
      size_read s (length h.entries) r.counter small,
    )

index_behind :
    (s : Log)
    → s.counter % length s.buffer ≡ 0
    → (readout s).latest_activation_entry_index ≡ uint32_max
index_behind s e = omega (arith, e)

-- On a log of less than 2 ^ 32 places that represents a number of entries which is a multiple of
-- its size and not 0, the index that is handed out is UINT32_MAX, behind the end of the buffer;
-- the size is right.
pub entry_log-behind :
    (s : Log) (h : History)
    → Represents s h
    → length s.buffer < 2 ^ 32
    → 0 < length h.entries
    → length h.entries % length s.buffer ≡ 0
    → (l : EntryLog) × (get_interface_activation_entry_log s ≡ some l)
      × (l.latest_activation_entry_index ≡ uint32_max)
      × (get_elem? l.activation_log l.latest_activation_entry_index ≡ none)
      × (l.size_of_activation_log ≡ min (length h.entries) (length s.buffer))
unfolding get_interface_activation_entry_log
entry_log-behind s h r small some_entry multiple =
    let at : (readout s).latest_activation_entry_index ≡ uint32_max =
      index_behind s (ap (λ n. n % length s.buffer) r.counter ∙ multiple) in
    (
      readout s,
      reads s (omega (arith, r.counter)) r.room,
      at,
      ap (get_elem? s.buffer) at ∙ get_elem?-none s.buffer uint32_max (omega arith),
      size_read s (length h.entries) r.counter small,
    )

-- On a log of less than 2 ^ 32 places that represents some entries, the index that is handed out is
-- that of the latest entry, except when the number of entries is a multiple of the size of the log:
-- then the index is behind the end of the buffer. The size is the number of entries, at most the
-- number of places.
pub entry_log-index :
    (s : Log) (h : History)
    → Represents s h
    → length s.buffer < 2 ^ 32
    → 0 < length h.entries
    → (l : EntryLog) × (get_interface_activation_entry_log s ≡ some l)
      × (get_elem? l.activation_log l.latest_activation_entry_index
          ≡ (if length h.entries % length s.buffer == 0 then none else get_elem? h.entries 0))
      × (l.size_of_activation_log ≡ min (length h.entries) (length s.buffer))
entry_log-index s h r small some_entry = elim (ℕ_discrete (length h.entries % length s.buffer) 0) [
  | yes multiple ↦
      let (l, e, at, behind, size) = entry_log-behind s h r small some_entry multiple in
      (l, e, ground (arith, behind, multiple), size)
  | no other ↦
      let (l, e, latest, size) = entry_log-latest s h r small other in
      (l, e, ground (arith, latest, other), size)
]
