-- ===== src/Xdmac/Ownership/Cycle.antt =====
-- The edges along which the channels of src/Xdmac/xdmad.c move.
use taste_samx_rtems_runtime.Common.{
  ℕ, ◌≡◌, ◌≢◌, ◌⊎◌, inl, inr, refl, sym, subst, ◌∙◌, Option, none, some, leb, length, get_elem?,
  set, arith, Bool-cases, get_elem?-set_self, get_elem?-set_ne, lt-of-get_elem?, length-set,
  bit_and,
}
use native.Mathlib.Decide.{ℕ_discrete, dec_lt}
use taste_samx_rtems_runtime.Xdmac.Machine.{
  World, Machine, XdmadRc, XdmadState, free, allocated, start, in_xfr, done, halted, XdmadChannel,
  Xdmad,
}
use taste_samx_rtems_runtime.Xdmac.Lifecycle.{
  Command, next, apply, step, release, prepare, configure, begin, stop, subscribe, with_list, noted,
}
use taste_samx_rtems_runtime.Xdmac.Interrupts.Round.{Serviced, kept, completed}
use taste_samx_rtems_runtime.Xdmac.Interrupts.Passes.{Rounds}
use taste_samx_rtems_runtime.Xdmac.Interrupts.{Handled, interrupt_status}

-- The edges of the life cycle.
pub data Life (s t : XdmadState) : Type 0 where
  stays : t ≡ s → Life s t
  claimed : s ≡ free → t ≡ allocated → Life s t
  released : (s ≡ done) ⊎ (s ≡ halted) → t ≡ free → Life s t
  begun : s ≢ free → s ≢ start → t ≡ start → Life s t
  finished : s ≢ free → t ≡ done → Life s t
  stopped : t ≡ halted → Life s t

next-Life : (k : Command) (s : XdmadState) → Life s (next k s).1
unfolding next
next-Life stop s = stopped refl
next-Life release free = stays refl
next-Life release done = released (inl refl) refl
next-Life release halted = released (inr refl) refl
next-Life release _ = stays refl
next-Life prepare free = stays refl
next-Life prepare _ = stays refl
next-Life configure free = stays refl
next-Life configure _ = stays refl
next-Life begin free = stays refl
next-Life begin start = stays refl
next-Life begin allocated = begun (λ e. cc) (λ e. cc) refl
next-Life begin in_xfr = begun (λ e. cc) (λ e. cc) refl
next-Life begin done = begun (λ e. cc) (λ e. cc) refl
next-Life begin halted = begun (λ e. cc) (λ e. cc) refl
next-Life (subscribe f a) free = stays refl
next-Life (subscribe f a) _ = stays refl

-- Only a release makes a channel free.
next_owned : (k : Command) (s : XdmadState) → s ≢ free → (k ≢ release) → (next k s).1 ≢ free
unfolding next
next_owned stop s h n = λ e. cc
next_owned release s h n = absurd (n refl)
next_owned prepare free h n = h
next_owned prepare _ h n = λ e. cc
next_owned configure free h n = h
next_owned configure _ h n = λ e. cc
next_owned begin free h n = h
next_owned begin _ h n = λ e. cc
next_owned (subscribe f a) free h n = h
next_owned (subscribe f a) _ h n = λ e. cc

-- Every channel moves along an edge, and only those in `R` may become free.
pub record Lives (R : ℕ → Type 0) (d d' : Xdmad) : Type 0 where
  pub each :
      (j : ℕ) (c : XdmadChannel)
      → get_elem? d.channels j ≡ some c
      → (c' : XdmadChannel) × (get_elem? d'.channels j ≡ some c')
        × Life c.state c'.state
        × (c.state ≢ free → ¬ R j → c'.state ≢ free)
  pub size : length d'.channels ≡ length d.channels
  pub count : d'.num_channels ≡ d.num_channels

-- A move of channel `i` alone.
pub Lives-with_list :
    (R : ℕ → Type 0) (d : Xdmad) (i : ℕ) (c c' : XdmadChannel)
    → get_elem? d.channels i ≡ some c
    → Life c.state c'.state
    → (c.state ≢ free → ¬ R i → c'.state ≢ free)
    → Lives R d (with_list d i c')
Lives-with_list R d i c c' e life owned = record {
  each = λ j x f. elim (ℕ_discrete i j) [
    | yes same ↦ moved j x f same (ground arith)
    | no other ↦ (x, get_elem?-set_ne d.channels c' other ∙ f, stays refl, (λ h _. h))
  ];
  size = length-set d.channels i c';
  count = refl;
}
  where
    moved :
        (j : ℕ) (x : XdmadChannel)
        → get_elem? d.channels j ≡ some x
        → i ≡ j
        → c ≡ x
        → (x' : XdmadChannel) × (get_elem? (set d.channels i c') j ≡ some x')
          × Life x.state x'.state
          × (x.state ≢ free → ¬ R j → x'.state ≢ free)
    moved j x f same eq = (
      c',
      subst (λ k. get_elem? (set d.channels i c') k ≡ some c') same
          (get_elem?-set_self d.channels i c' (lt-of-get_elem? d.channels i e)),
      subst (λ y. Life y.state c'.state) eq life,
      subst (λ k. x.state ≢ free → ¬ R k → c'.state ≢ free) same
          (subst (λ y. y.state ≢ free → ¬ R i → c'.state ≢ free) eq owned),
    )

pub Lives-same : (R : ℕ → Type 0) (d : Xdmad) → Lives R d d
Lives-same R d = record {
  each = λ j c e. (c, e, stays refl, (λ h _. h));
  size = refl;
  count = refl;
}

noted-state : (k : Command) (rc : XdmadRc) (c : XdmadChannel) → (noted k rc c).state ≡ c.state
noted-state (subscribe f a) XdmadRc.ok c = refl
noted-state (subscribe f a) _ c = refl
noted-state release rc c = refl
noted-state _ rc c = refl

-- A command frees its channel at most, and only if it is a release.
abbrev pub Frees : Command → ℕ → ℕ → Type 0
Frees k i j = (k ≡ release) × (i ≡ j)

pub apply-Lives : (k : Command) (i : ℕ) (d : Xdmad) → Lives (Frees k i) d (apply k i d).1
unfolding apply
apply-Lives k i d = elim (Bool-cases (leb d.num_channels i)) [
  | inl out ↦ rw out (Lives-same (Frees k i) d)
  | inr within ↦ rw within (found (get_elem? d.channels i) refl)
]
  where
    Goal : Option XdmadChannel → Type 0
    Goal o = Lives (Frees k i) d (
        let r : XdmadRc × Xdmad = elim o [
          | none ↦ (XdmadRc.error, d)
          | some c ↦ (let (rc, c') = step k c in (rc, with_list d i c'))
        ] in
        r.1)

    found : (o : Option XdmadChannel) → get_elem? d.channels i ≡ o → Goal o
    found none e = Lives-same (Frees k i) d
    found (some c) e =
        let (rc, s) = next k c.state in
        let same : (step k c).1.state ≡ s = noted-state k rc (record c { state = s }) in
        Lives-with_list (Frees k i) d i c (step k c).1 e
          (subst (Life c.state) (sym same) (next-Life k c.state))
          (λ owned keep. rw same (next_owned k c.state owned (λ r. keep (r, refl))))

pub Serviced-Life :
    (gis gs j : ℕ) {c c' : XdmadChannel}
    → Serviced gis gs j c c'
    → Life c.state c'.state × (c.state ≢ free → c'.state ≢ free)
Serviced-Life gis gs j (kept e) = (stays (ground arith), (λ h. ground arith))
Serviced-Life gis gs j (completed owned pending disabled e) =
    (finished owned (ground arith), (λ h. ground arith))

pub Handled-Lives :
    (R : ℕ → Type 0) {w : World} {m m' : Machine} → Handled w m m' → Lives R m.driver m'.driver
Handled-Lives R {w} {m} {m'} h =
    elim (ℕ_discrete (bit_and (interrupt_status w m.events) 0xFFFFFF) 0) [
      | yes none_pending ↦ rw (h.quiet none_pending) (Lives-same R m.driver)
      | no some_pending ↦ Rounds-Lives (h.pending some_pending)
    ]
  where
    Rounds-Lives :
        {gis gs n : ℕ} {m1 m2 : Machine} → Rounds w gis gs 0 n m1 m2 → Lives R m1.driver m2.driver
    Rounds-Lives {gis} {gs} {n} r = record {
      each = λ j c e. elim (dec_lt j n) [
        | yes p ↦
            (let (c', f, s) = r.inside j c (omega arith) p e in
              let (life, owned) = Serviced-Life gis gs j s in (c', f, life, (λ o _. owned o)))
        | no p ↦ (c, r.outside j (inr (omega arith)) ∙ e, stays refl, (λ o _. o))
      ];
      size = r.size;
      count = r.count;
    }
