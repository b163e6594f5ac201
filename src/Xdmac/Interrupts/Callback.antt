-- ===== src/Xdmac/Interrupts/Callback.antt =====
-- The callback at the end of XDMAD_HandleChannel of src/Xdmac/xdmad.c.
use mathlib.Core.List.{append_assoc}
use taste_samx_rtems_runtime.Common.{
  [], ◌++◌, ap, Option, none, ℕ, ◌≡◌, refl, sym, ◌∙◌, Bool, true, false, some, List, ◌∷◌, get_elem?,
}
use taste_samx_rtems_runtime.Xdmac.Machine.{
  World, Machine, Event, XdmadChannel, call, ◌>>=◌, ◌>>◌, pure,
}
use taste_samx_rtems_runtime.Xdmac.Handler.{run_callback, execute_callback}
use taste_samx_rtems_runtime.Xdmac.Transfer.{when}
use taste_samx_rtems_runtime.Xdmac.Valid.{IsPassive, Returns, Returns-mono, Returns-bind}

module _ (w : World) where
  -- The end of a round: the history of the callback.
  abbrev pub Told : ℕ → XdmadChannel → Bool → Machine → Machine → Type 0
  Told i c exec m m' =
      (more : List Event) × (m'.events ≡ more ++ m.events)
      × (exec ≡ true
          → (f : ℕ) → c.callback ≡ some f
          → (later : List Event) × (more ≡ later ++ (call f i c.arg ∷ [])))

  callback-tells :
      (m : Machine) (i : ℕ) (c : XdmadChannel) (o : Option ℕ)
      → IsPassive w
      → c.callback ≡ o
      → Returns
          (run_callback i (record c { callback = o }) w m)
          (λ _ m'. (m'.driver ≡ m.driver) × (m'.initialized ≡ m.initialized) × Told i c true m m')
  callback-tells m i c none passive e = (refl, refl, ([], refl, (λ t f g. cc)))
  callback-tells m i c (some f) passive e =
      Returns-mono _ _ (w.calls f i c.arg (record m { events = call f i c.arg ∷ m.events }))
        (λ _ m' k. (
          k.0,
          k.1,
          (
            k.2.0 ++ (call f i c.arg ∷ []),
            k.2.1 ∙ sym (append_assoc k.2.0 (call f i c.arg ∷ []) m.events),
            (λ t g h. (k.2.0, ap (λ n. k.2.0 ++ (call n i c.arg ∷ [])) (some_inj f g (sym e ∙ h)))),
          ),
        ))
        (passive.returns f i c.arg (record m { events = call f i c.arg ∷ m.events }))
    where
      some_inj : (a b : ℕ) → ◌≡◌ {A = Option ℕ} (some a) (some b) → a ≡ b
      some_inj a b q = cc

  execute_callback-eq :
      (m : Machine) (i : ℕ) (c : XdmadChannel) (exec : Bool)
      → get_elem? m.driver.channels i ≡ some c
      → execute_callback i exec w m ≡ (when exec (run_callback i c) >> pure true) w m
  unfolding execute_callback
  execute_callback-eq m i c exec e =
      ap
        (λ (o : Option XdmadChannel).
          ◌>>=◌ {A = XdmadChannel} {B = Bool}
            (λ _ m1. elim o as (λ _. Option (XdmadChannel × Machine)) [
              | none ↦ none
              | some x ↦ some (x, m1)
            ])
            (λ x. when exec (run_callback i x) >> pure true) w m)
        e

  pub execute_callback-tells :
      (m : Machine) (i : ℕ) (c : XdmadChannel) (exec : Bool)
      → IsPassive w
      → get_elem? m.driver.channels i ≡ some c
      → Returns (execute_callback i exec w m) (λ r m'.
        (r ≡ true) × (m'.driver ≡ m.driver) × (m'.initialized ≡ m.initialized) × Told i c exec m m')
  execute_callback-tells m i c false passive e =
      rw (execute_callback-eq m i c false e) (refl, refl, refl, ([], refl, (λ t. cc)))
  execute_callback-tells m i c true passive e = rw (execute_callback-eq m i c true e) (
      Returns-bind _ _ (run_callback i c) (λ _. pure true) w m (λ _ m' k. (refl, k.0, k.1, k.2))
        (callback-tells m i c c.callback passive refl))
