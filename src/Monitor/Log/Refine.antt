-- ===== src/Monitor/Log/Refine.antt =====
-- The cyclic buffer of the activation log against the list of all entries.
use taste_samx_rtems_runtime.Monitor.Log.{
  Entry, Log, activation, handle_activation_log_cyclic_buffer, EntryType, deactivation,
  indicate_interface_activated, indicate_interface_deactivated, freeze_interface_activation_logging,
  unfreeze_interface_activation_logging, clear_interface_activation_log,
}
use taste_samx_rtems_runtime.Common.{
  ℕ, zero, suc, ◌+◌, ◌%◌, ◌^◌, ◌<◌, ◌≡◌, refl, sym, ap, ◌∙◌, Bool, true, false, Option, none, some,
  List, [], ◌∷◌, leb, ◌==◌, length, set, get_elem?, get_elem?-set_self, get_elem?-set_ne,
  length-set, if◌then◌else◌, arith, Bool-cases, inl, inr,
}
use native.Mathlib.Nat.{mod-lt}
use taste_samx_rtems_runtime.Common.Numbers.{mod_apart}
use taste_samx_rtems_runtime.Common.Word.{u64}

-- The operations of the log, with the time of an indication.
pub data LogCall : Type 0 where
  activated deactivated : ℕ → ℕ → LogCall
  freeze unfreeze clear : LogCall

unfoldable pub perform_log : LogCall → Log → Option (Bool × Log)
perform_log (activated i now) s = indicate_interface_activated i now s
perform_log (deactivated i now) s = indicate_interface_deactivated i now s
perform_log freeze s = some (freeze_interface_activation_logging s)
perform_log unfreeze s = some (unfreeze_interface_activation_logging s)
perform_log clear s = some (clear_interface_activation_log s)

-- The log that is promised: everything since the last clearing, latest first.
pub record History : Type 0 where
  pub frozen : Bool
  pub entries : List Entry

abbrev pub note : Entry → History → Bool × History
note e h = if h.frozen then (false, h) else (true, record h { entries = e ∷ h.entries })

unfoldable pub promise : LogCall → History → Bool × History
promise (activated i now) h =
    note (record { interface = i; entry_type = activation; timestamp = now }) h
promise (deactivated i now) h =
    note (record { interface = i; entry_type = deactivation; timestamp = now }) h
promise freeze h = (true, record h { frozen = true })
promise unfreeze h = (true, record h { frozen = false })
promise clear h = (true, record h { entries = [] })

-- Entry number `i`, counted from the oldest, stands at `i` modulo the size, if it is one of the
-- latest that fit.
pub record Represents (s : Log) (h : History) : Type 0 where
  pub frozen : s.is_frozen ≡ h.frozen
  pub counter : s.counter ≡ length h.entries
  pub room : 0 < length s.buffer
  pub stored :
      (i k : ℕ)
      → i + k + 1 ≡ length h.entries
      → k < length s.buffer
      → get_elem? s.buffer (i % length s.buffer) ≡ get_elem? h.entries k

-- The next entry takes the place of the one that is `length s.buffer` older.
stored-write :
    (s : Log) (h : History) (e : Entry)
    → Represents s h
    → (i k : ℕ) → i + k ≡ length h.entries
    → k < length s.buffer
    → get_elem? (set s.buffer (s.counter % length s.buffer) e) (i % length s.buffer)
      ≡ get_elem? (e ∷ h.entries) k
stored-write s h e r i zero eq lt =
    let same : i ≡ s.counter = omega (arith, r.counter) in
    rw same (get_elem?-set_self s.buffer (s.counter % length s.buffer) e (mod-lt s.counter r.room))
stored-write s h e r i (suc k) eq lt =
    let at : s.counter ≡ i + suc k = omega (arith, r.counter) in
    get_elem?-set_ne s.buffer e (λ same.
      mod_apart i (suc k) (length s.buffer) (omega arith) lt
        (ap (λ n. n % length s.buffer) (sym at) ∙ same))
    ∙ r.stored i k (omega arith) (omega arith)

-- An operation of the log replies, and what it leaves is represented.
abbrev pub Simulates : Option (Bool × Log) → Bool × History → Type 0
Simulates none h = ⊥
Simulates (some (b, s)) (b', h) = (b ≡ b') × Represents s h

has_room : (s : Log) → 0 < length s.buffer → (length s.buffer == 0) ≡ false
has_room s lt = ground arith

has_room_le : (s : Log) → 0 < length s.buffer → leb (length s.buffer) 0 ≡ false
has_room_le s lt = ground arith

counted :
    (s : Log) (h : History)
    → Represents s h
    → length h.entries + 1 < 2 ^ 64
    → u64 (s.counter + 1) ≡ suc (length h.entries)
counted s h r lt = omega (arith, r.counter)

indicate-Simulates :
    (i now : ℕ) (t : EntryType) (s : Log) (h : History)
    → Represents s h
    → length h.entries + 1 < 2 ^ 64
    → Simulates
        (handle_activation_log_cyclic_buffer i t now s)
        (note (record { interface = i; entry_type = t; timestamp = now }) h)
unfolding handle_activation_log_cyclic_buffer
indicate-Simulates i now t s h r lt = elim (Bool-cases h.frozen) [
  | inl frozen ↦
      rw (r.frozen, frozen)
        (refl, record { frozen = refl; counter = r.counter; room = r.room; stored = r.stored })
  | inr thawed ↦
      let e : Entry = record { interface = i; entry_type = t; timestamp = now } in
      rw (r.frozen, thawed, has_room s r.room)
        (
          refl,
          record {
            frozen = refl;
            counter = counted s h r lt;
            room = rw (length-set s.buffer (s.counter % length s.buffer) e) r.room;
            stored = λ j k eq.
                rw (length-set s.buffer (s.counter % length s.buffer) e)
                  (λ p. stored-write s h e r j k (omega arith) p);
          },
        )
]

-- Every operation of the log does to the buffer what is promised of the list, until 2 ^ 64 entries
-- are written without a clearing.
pub perform_log-Simulates :
    (c : LogCall) (s : Log) (h : History)
    → Represents s h
    → length h.entries + 1 < 2 ^ 64
    → Simulates (perform_log c s) (promise c h)
unfolding perform_log promise indicate_interface_activated indicate_interface_deactivated
    freeze_interface_activation_logging unfreeze_interface_activation_logging
    clear_interface_activation_log
perform_log-Simulates (activated i now) s h r lt = indicate-Simulates i now activation s h r lt
perform_log-Simulates (deactivated i now) s h r lt = indicate-Simulates i now deactivation s h r lt
perform_log-Simulates freeze s h r lt =
    rw (has_room_le s r.room)
      (refl, record { frozen = refl; counter = r.counter; room = r.room; stored = r.stored })
perform_log-Simulates unfreeze s h r lt =
    rw (has_room_le s r.room)
      (refl, record { frozen = refl; counter = r.counter; room = r.room; stored = r.stored })
perform_log-Simulates clear s h r lt = rw (has_room_le s r.room) (
  refl,
  record {
    frozen = r.frozen;
    counter = refl;
    room = r.room;
    stored = λ i k eq. absurd (omega arith);
  },
)
