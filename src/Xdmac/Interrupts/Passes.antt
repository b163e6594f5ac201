-- ===== src/Xdmac/Interrupts/Passes.antt =====
-- The rounds of the interrupt handler one after the other: XDMAD_Handler of src/Xdmac/xdmad.c.
use taste_samx_rtems_runtime.Common.{
  [], sym, inl, ℕ, suc, ◌+◌, ◌<◌, ◌≤◌, ◌≡◌, ◌≢◌, ◌⊎◌, refl, subst, ◌∙◌, some, length, get_elem?,
  arith, get_elem?-set_self, get_elem?-set_ne, length-set, bit_and,
}
use native.Mathlib.Decide.{ℕ_discrete}
use taste_samx_rtems_runtime.Xdmac.Machine.{World, Machine, free, XdmadState, XdmadChannel}
use taste_samx_rtems_runtime.Xdmac.Registers.{bit}
use taste_samx_rtems_runtime.Xdmac.Valid.{Follows, Follows-trans}
use taste_samx_rtems_runtime.Xdmac.Interrupts.Round.{
  Serviced, kept, Round, round, Reported, Reported-within,
}

-- No channel from `i` up to `k`, that one included, is pending and free.
abbrev pub IsReached : ℕ → ℕ → ℕ → Machine → Type 0
IsReached gis i k m =
    (l : ℕ) (c : XdmadChannel)
    → i ≤ l
    → l ≤ k
    → get_elem? m.driver.channels l ≡ some c
    → bit_and gis (bit l) ≢ 0
    → c.state ≢ free

-- What the loop of the handler leaves of the channels from `i` up to `j`, and of the others.
pub record Rounds (w : World) (gis gs i j : ℕ) (m m' : Machine) : Type 0 where
  pub inside :
      (k : ℕ) (c : XdmadChannel)
      → i ≤ k
      → k < j
      → get_elem? m.driver.channels k ≡ some c
      → (c' : XdmadChannel) × (get_elem? m'.driver.channels k ≡ some c') × Serviced gis gs k c c'
  pub outside :
      (k : ℕ) → (k < i) ⊎ (j ≤ k) → get_elem? m'.driver.channels k ≡ get_elem? m.driver.channels k
  -- The loop ends at a channel that is pending and free.
  pub behind :
      (k : ℕ) (c : XdmadChannel)
      → i ≤ k
      → k < j
      → get_elem? m.driver.channels k ≡ some c
      → c.state ≡ XdmadState.free
      → bit_and gis (bit k) ≢ 0
      → (l : ℕ) → k ≤ l
      → get_elem? m'.driver.channels l ≡ get_elem? m.driver.channels l
  pub size : length m'.driver.channels ≡ length m.driver.channels
  pub count : m'.driver.num_channels ≡ m.driver.num_channels
  pub mode : m'.driver.polling_mode ≡ m.driver.polling_mode
  pub follows : Follows m.events m'.events
  -- A channel that the loop reaches, that is pending and that the controller reports as disabled.
  pub reported :
      (k : ℕ) (c : XdmadChannel)
      → i ≤ k
      → k < j
      → get_elem? m.driver.channels k ≡ some c
      → IsReached gis i k m
      → bit_and gis (bit k) ≢ 0
      → bit_and gs (bit k) ≡ 0
      → (c' : XdmadChannel) × (get_elem? m'.driver.channels k ≡ some c')
        × Reported w k c c' m.events m'.events

pub Rounds-empty : (w : World) (gis gs i : ℕ) (m : Machine) → Rounds w gis gs i (i + 0) m m
Rounds-empty w gis gs i m = record {
  inside = λ k c p q. absurd (omega arith);
  outside = λ k p. refl;
  behind = λ k c p q. absurd (omega arith);
  size = refl;
  count = refl;
  mode = refl;
  follows = ([], refl);
  reported = λ k c p q. absurd (omega arith);
}

pub length-Round :
    {w : World} {gis gs i : ℕ} {m m' : Machine}
    → Round w gis gs i m m'
    → length m'.driver.channels ≡ length m.driver.channels
length-Round {i = i} {m = m} (round c c' e s left more r) =
    rw left (length-set m.driver.channels i c')

-- A round that ends the loop.
pub Rounds-stop :
    (w : World) (gis gs i n : ℕ) {m m' : Machine} (c : XdmadChannel)
    → get_elem? m.driver.channels i ≡ some c
    → bit_and gis (bit i) ≢ 0
    → c.state ≡ free
    → m' ≡ m
    → Rounds w gis gs i (i + suc n) m m'
Rounds-stop w gis gs i n {m} c e pending vacant same = record {
  inside = λ k a p q f. (a, rw same f, kept refl);
  outside = λ k p. rw same;
  behind = λ k a p q f free pending l r. rw same;
  size = rw same;
  count = rw same;
  mode = rw same;
  follows = ([], rw same);
  reported = λ k a p q f reached. absurd (reached i c (omega arith) p e pending vacant);
}

-- A round before the rest of the loop.
pub Rounds-Round :
    (w : World) (gis gs i n : ℕ) {m m1 m' : Machine} (c : XdmadChannel)
    → i < length m.driver.channels
    → get_elem? m.driver.channels i ≡ some c
    → (bit_and gis (bit i) ≡ 0) ⊎ (c.state ≢ XdmadState.free)
    → Round w gis gs i m m1
    → Rounds w gis gs (i + 1) (i + 1 + n) m1 m'
    → Rounds w gis gs i (i + suc n) m m'
Rounds-Round w gis gs i n {m} {m1} {m'} c lt e goes (round a b f s left more told) h = record {
  inside = λ k x p q g. elim (ℕ_discrete i k) [
    | yes same ↦ (
      b,
      subst (λ l. get_elem? m'.driver.channels l ≡ some b) same at_i,
      at k x same (ground arith),
    )
    | no other ↦ h.inside k x (omega arith) (omega arith) (elsewhere k other ∙ g)
  ];
  outside = λ k p. ground (arith, h.outside k, elsewhere k);
  behind = λ k x p q g vacant pending l r. elim (ℕ_discrete i k) [
    | yes same ↦ ground arith
    | no other ↦
        h.behind k x (omega arith) (omega arith) (elsewhere k other ∙ g) vacant pending l r
        ∙ elsewhere l (ground arith)
  ];
  size = ground (arith, h.size, left, length-set m.driver.channels i b);
  count = ground (arith, h.count, left);
  mode = ground (arith, h.mode, left);
  follows = Follows-trans more h.follows;
  reported = λ k x p q g reached pending off. elim (ℕ_discrete i k) [
    | yes same ↦
        reported_at k x same (ground arith) (reached k x p (omega arith) g pending) pending off
    | no other ↦
        (let (c', r, t) =
            h.reported k x (omega arith) (omega arith) (elsewhere k other ∙ g) (further k reached)
              pending off in
          (c', r, Reported-within more t ([], refl)))
  ];
}
  where
    self : get_elem? m1.driver.channels i ≡ some b
    self = rw left (get_elem?-set_self m.driver.channels i b lt)

    elsewhere : (k : ℕ) → i ≢ k → get_elem? m1.driver.channels k ≡ get_elem? m.driver.channels k
    elsewhere k ne = rw left (get_elem?-set_ne m.driver.channels b ne)

    at_i : get_elem? m'.driver.channels i ≡ some b
    at_i = h.outside i (inl (omega arith)) ∙ self

    reported_at :
        (k : ℕ) (x : XdmadChannel)
        → i ≡ k
        → a ≡ x
        → x.state ≢ free
        → bit_and gis (bit k) ≢ 0
        → bit_and gs (bit k) ≡ 0
        → (c' : XdmadChannel) × (get_elem? m'.driver.channels k ≡ some c')
          × Reported w k x c' m.events m'.events
    reported_at k x same eq owned pending off = (
      b,
      subst (λ l. get_elem? m'.driver.channels l ≡ some b) same at_i,
      subst (λ l. Reported w l x b m.events m'.events) same
          (subst (λ y. Reported w i y b m.events m'.events) eq
            (Reported-within ([], refl)
              (told (subst (λ y. y.state ≢ free) (sym eq) owned)
                (subst (λ l. bit_and gis (bit l) ≢ 0) (sym same) pending)
                (subst (λ l. bit_and gs (bit l) ≡ 0) (sym same) off))
              h.follows)),
    )

    further : (k : ℕ) → IsReached gis i k m → IsReached gis (i + 1) k m1
    further k reached l x p q g =
        reached l x (omega arith) q (sym (elsewhere l (λ o. omega arith)) ∙ g)

    at : (k : ℕ) (x : XdmadChannel) → i ≡ k → a ≡ x → Serviced gis gs k x b
    at k x same eq =
        subst (λ j. Serviced gis gs j x b) same (subst (λ y. Serviced gis gs i y b) eq s)
