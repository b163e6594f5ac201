-- ===== src/Xdmac/Interrupts/Round.antt =====
-- What a round of the interrupt handler does to its channel: XDMAD_HandleChannel of
-- src/Xdmac/xdmad.c.
use mathlib.Core.List.{append_assoc}
use taste_samx_rtems_runtime.Common.{
  ◌++◌, ap, ℕ, ◌≡◌, ◌≢◌, sym, ◌∙◌, true, some, List, ◌∷◌, get_elem?, if◌then◌else◌, bit_and,
}
use taste_samx_rtems_runtime.Xdmac.Machine.{
  World, Machine, Event, XdmadState, XdmadChannel, load, call, cis, free,
}
use taste_samx_rtems_runtime.Xdmac.Registers.{bit}
use taste_samx_rtems_runtime.Xdmac.Driver.{with_state}
use taste_samx_rtems_runtime.Xdmac.Lifecycle.{with_list}
use taste_samx_rtems_runtime.Xdmac.Interrupts.Status.{is_over}
use taste_samx_rtems_runtime.Xdmac.Valid.{Follows}

-- A channel before and after the handler: kept, or completed, which takes an owner, a pending
-- interrupt and a controller that reports the channel as disabled.
pub data Serviced (gis gs j : ℕ) (c c' : XdmadChannel) : Type 0 where
  kept : c' ≡ c → Serviced gis gs j c c'
  completed :
      c.state ≢ XdmadState.free
      → bit_and gis (bit j) ≢ 0
      → bit_and gs (bit j) ≡ 0
      → c' ≡ with_state XdmadState.done c
      → Serviced gis gs j c c'

-- What the handler has done to a channel that is pending, owned and reported as disabled, in its
-- round that began after the history `before ++ es`: it has read the status, the channel is done
-- exactly if the transfer was over then, and in this case its callback was called.
pub record Reported (w : World) (k : ℕ) (c c' : XdmadChannel) (es es' : List Event) : Type 0 where
  pub before : List Event
  pub after : List Event
  pub history : es' ≡ after ++ (load (cis k) ∷ (before ++ es))
  pub result : c' ≡ (if is_over w (before ++ es) k then with_state XdmadState.done c else c)
  pub told :
      is_over w (before ++ es) k ≡ true
      → (f : ℕ) → c.callback ≡ some f
      → (later : List Event) × (earlier : List Event) × (after
          ≡ later ++ (call f k c.arg ∷ earlier))

-- What was reported in a part of a history.
pub Reported-within :
    {w : World} {k : ℕ} {c c' : XdmadChannel} {es es1 es2 es' : List Event}
    → Follows es es1
    → Reported w k c c' es1 es2
    → Follows es2 es'
    → Reported w k c c' es es'
Reported-within {w} {k} {c} {c'} {es} {es1} {es2} {es'} (x, ex) r (y, ey) =
    let start : r.before ++ es1 ≡ (r.before ++ x) ++ es =
      ap (λ l. r.before ++ l) ex ∙ sym (append_assoc r.before x es) in
    record {
      before = r.before ++ x;
      after = y ++ r.after;
      history =
          ey
          ∙ (ap (λ l. y ++ l) r.history
              ∙ (sym (append_assoc y r.after (load (cis k) ∷ (r.before ++ es1)))
                  ∙ ap (λ l. (y ++ r.after) ++ (load (cis k) ∷ l)) start));
      result = r.result ∙ ap (λ l. if is_over w l k then with_state XdmadState.done c else c) start;
      told = λ ov f g.
          let (l, t, q) = r.told (ap (λ h. is_over w h k) start ∙ ov) f g in
          (y ++ l, t, ap (λ h. y ++ h) q ∙ sym (append_assoc y l (call f k c.arg ∷ t)));
    }

-- The handler's round for channel `i`.
pub data Round (w : World) (gis gs i : ℕ) (m m' : Machine) : Type 0 where
  round :
      (c c' : XdmadChannel)
      → get_elem? m.driver.channels i ≡ some c
      → Serviced gis gs i c c'
      → m'.driver ≡ with_list m.driver i c'
      → Follows m.events m'.events
      → (c.state ≢ free
          → bit_and gis (bit i) ≢ 0
          → bit_and gs (bit i) ≡ 0
          → Reported w i c c' m.events m'.events)
      → Round w gis gs i m m'
