-- ===== src/Xdmac/Allocation/Search.antt =====
-- The search of XDMAD_AllocateXdmacChannel of src/Xdmac/xdmad.c for a free channel.
use taste_samx_rtems_runtime.Common.{
  ℕ, zero, suc, ◌+◌, ◌%◌, ◌^◌, ◌<◌, ◌≤◌, ◌≡◌, ◌≢◌, inl, inr, refl, subst, Bool, not, ◌&&◌, ◌||◌,
  some, List, ◌∷◌, ◌==◌, length, set, get_elem?, if◌then◌else◌, arith, Bool-cases, get_elem?-some,
  set-set, get_elem?-set_self, length-set, lt-of-get_elem?,
}
use native.Mathlib.Decide.{ℕ_discrete}
use taste_samx_rtems_runtime.Common.Bits.{bit_and_low}
use taste_samx_rtems_runtime.Xdmac.Machine.{
  World, Machine, XdmadState, XdmadChannel, Xdmad, load, gtype, with_channels,
}
use taste_samx_rtems_runtime.Xdmac.Interface.{PeripheralIds, xdma_hw_if, find_if, num_of_peripheral}
use taste_samx_rtems_runtime.Xdmac.Interface.Lookup.{
  number, is_validated-eq, get_channel_number-number,
}
use taste_samx_rtems_runtime.Xdmac.Driver.{
  is_free, claimed, with_state, claim, claim_free, allocate_xdmac_channel, alloc_failed,
}
use taste_samx_rtems_runtime.Xdmac.Lifecycle.{with_list}
use taste_samx_rtems_runtime.Xdmac.Valid.{HasType, Returns, Returns-mono}

-- The handshake interface of a peripheral in a direction, 0xff for none.
abbrev pub interface : PeripheralIds → ℕ → ℕ → ℕ → ℕ
interface ids g periph transfer =
    number (find_if (xdma_hw_if ids) periph transfer (suc (num_of_peripheral g)) 0)

-- The memory, or a peripheral with an interface.
abbrev pub is_known : PeripheralIds → ℕ → ℕ → Bool
is_known ids g periph =
    (periph == 0xff)
    || not ((interface ids g periph 0 == 0xff) && (interface ids g periph 1 == 0xff))

-- One end is the memory, and both ends are known.
abbrev pub is_transferable : PeripheralIds → ℕ → ℕ → ℕ → Bool
is_transferable ids g src dst =
    ((src == 0xff) || (dst == 0xff)) && (is_known ids g src && is_known ids g dst)

-- A channel that is given to a transfer from `src` to `dst`.
abbrev pub given : PeripheralIds → ℕ → ℕ → ℕ → XdmadChannel → XdmadChannel
given ids g src dst c =
    claimed c src dst (interface ids g src 0) (interface ids g src 1) (interface ids g dst 0)
      (interface ids g dst 1)

-- No channel from `i` up to `j` is free.
abbrev pub Busy : List XdmadChannel → ℕ → ℕ → Type 0
Busy cs i j =
    (k : ℕ) (c : XdmadChannel) → i ≤ k → k < j → get_elem? cs k ≡ some c → c.state ≢ XdmadState.free

-- What the search from channel `i` up to `j` returned and left.
pub data Taken (ids : PeripheralIds) (g src dst i j : ℕ) (d d' : Xdmad) (ch : ℕ) : Type 0 where
  took :
      (c : XdmadChannel)
      → i ≤ ch
      → ch < j
      → get_elem? d.channels ch ≡ some c
      → c.state ≡ XdmadState.free
      → Busy d.channels i ch
      → d' ≡ with_list d ch (given ids g src dst c)
      → Taken ids g src dst i j d d' ch
  full : ch ≡ alloc_failed → Busy d.channels i j → d' ≡ d → Taken ids g src dst i j d d' ch

Busy-later :
    (m : Machine) (i : ℕ) (c : XdmadChannel) (j : ℕ)
    → get_elem? m.driver.channels i ≡ some c
    → c.state ≢ XdmadState.free
    → Busy m.driver.channels (i + 1) j
    → Busy m.driver.channels i j
Busy-later m i c j e ne b k d p q f = elim (ℕ_discrete i k) [
  | yes same ↦ ground arith
  | no other ↦ b k d (omega arith) q f
]

-- The machine after one more read of the type register.
abbrev asked : Machine → Machine
asked m = record m { events = load gtype ∷ m.events }

module _ (ids : PeripheralIds) (w : World) (g src dst : ℕ) (t : HasType w g) where
  claim-given :
      (m : Machine) (i : ℕ) (c : XdmadChannel)
      → get_elem? m.driver.channels i ≡ some c
      → Returns (claim ids i src dst w m) (λ ch m'.
        (ch ≡ i % 2 ^ 8)
        × (m'.driver ≡ with_list m.driver i (given ids g src dst c))
        × (m'.initialized ≡ m.initialized))
  unfolding claim
  claim-given m i c e =
      let lt = lt-of-get_elem? m.driver.channels i e in
      let cs : List XdmadChannel = set m.driver.channels i (with_state XdmadState.allocated c) in
      let m1 : Machine = with_channels m cs in
      ground (
        arith,
        lt,
        get_channel_number-number ids w g t m1 src 0,
        get_channel_number-number ids w g t (asked m1) src 1,
        get_channel_number-number ids w g t (asked (asked m1)) dst 0,
        get_channel_number-number ids w g t (asked (asked (asked m1))) dst 1,
        get_elem?-set_self m.driver.channels i (with_state XdmadState.allocated c) lt,
        length-set m.driver.channels i (with_state XdmadState.allocated c),
        set-set m.driver.channels i (with_state XdmadState.allocated c) (given ids g src dst c),
        bit_and_low 8 i,
      )

  vacant-Taken :
      (m : Machine) (i n : ℕ) (c : XdmadChannel) {ch : ℕ} {d' : Xdmad}
      → i + suc n ≤ 24
      → get_elem? m.driver.channels i ≡ some c
      → c.state ≡ XdmadState.free
      → ch ≡ i % 2 ^ 8
      → d' ≡ with_list m.driver i (given ids g src dst c)
      → Taken ids g src dst i (i + suc n) m.driver d' ch
  vacant-Taken m i n c {ch} {d'} h e vacant same left =
      let at : ch ≡ i = omega arith in
      took c (omega arith) (omega arith) (rw at e) vacant (λ k b p q. absurd (omega arith))
        (rw at left)

  -- A busy channel can be put before a search.
  busy-Taken :
      (m : Machine) (i n : ℕ) (c : XdmadChannel) {ch : ℕ} {d' : Xdmad}
      → get_elem? m.driver.channels i ≡ some c
      → c.state ≢ XdmadState.free
      → Taken ids g src dst (i + 1) (i + 1 + n) m.driver d' ch
      → Taken ids g src dst i (i + suc n) m.driver d' ch
  busy-Taken m i n c e ne (took c' p q e' f b same) =
      took c' (omega arith) (omega arith) e' f (Busy-later m i c _ e ne b) same
  busy-Taken m i n c e ne (full failed b same) =
      full failed
        (subst (Busy m.driver.channels i) (omega arith) (Busy-later m i c (i + 1 + n) e ne b)) same

  claim_free-suc :
      (m : Machine) (n i : ℕ) (c : XdmadChannel)
      → get_elem? m.driver.channels i ≡ some c
      → claim_free ids (suc n) i src dst w m ≡ (
          if is_free c.state then claim ids i src dst w m else claim_free ids n (i + 1) src dst w m)
  unfolding claim_free
  claim_free-suc m n i c e = ground arith

  pub claim_free-Taken :
      (m : Machine) (n i : ℕ)
      → length m.driver.channels ≡ 24
      → i + n ≤ 24
      → Returns (claim_free ids n i src dst w m) (λ ch m'.
        Taken ids g src dst i (i + n) m.driver m'.driver ch × (m'.initialized ≡ m.initialized))
  claim_free-Taken m zero i size h =
      unfold claim_free in (full refl (λ k c p q. absurd (omega arith)) refl, refl)
  claim_free-Taken m (suc n) i size h =
      step (get_elem?-some m.driver.channels i (omega arith))
        (claim_free-Taken m n (i + 1) size (omega arith))
    where
      step :
          (c : XdmadChannel) × (get_elem? m.driver.channels i ≡ some c)
          → Returns (claim_free ids n (i + 1) src dst w m) (λ ch m'.
            Taken ids g src dst (i + 1) (i + 1 + n) m.driver m'.driver ch
            × (m'.initialized ≡ m.initialized))
          → Returns (claim_free ids (suc n) i src dst w m) (λ ch m'.
            Taken ids g src dst i (i + suc n) m.driver m'.driver ch
            × (m'.initialized ≡ m.initialized))
      step (c, e) rest = elim (Bool-cases (is_free c.state)) [
        | inl vacant ↦
            rw (claim_free-suc m n i c e, vacant)
              (Returns-mono _ _ (claim ids i src dst w m)
                (λ ch m' r. (vacant-Taken m i n c h e (ground arith) r.0 r.1, r.2))
                (claim-given m i c e))
        | inr busy ↦
            rw (claim_free-suc m n i c e, busy)
              (Returns-mono _ _ (claim_free ids n (i + 1) src dst w m)
                (λ ch m' r. (busy-Taken m i n c e (ground arith) r.0, r.1)) rest)
      ]

  -- The checks ask the controller a few times and change nothing else.
  pub checked :
      (m : Machine)
      → (m0 : Machine) × (m0.driver ≡ m.driver)
        × (m0.initialized ≡ m.initialized)
        × (allocate_xdmac_channel ids src dst w m ≡ (
            if is_transferable ids g src dst
            then claim_free ids m.driver.num_channels 0 src dst w m0
            else some (alloc_failed, m0)))
  unfolding allocate_xdmac_channel
  checked m = elim (Bool-cases (src == 0xff)) [
    | inl s ↦ elim (Bool-cases (dst == 0xff)) [
      | inl d ↦ (
        asked (asked m),
        refl,
        refl,
        ground (arith, is_validated-eq ids w g t m src, is_validated-eq ids w g t (asked m) dst),
      )
      | inr d ↦ (asked m, refl, refl, ground (arith, is_validated-eq ids w g t m dst))
    ]
    | inr s ↦ elim (Bool-cases (dst == 0xff)) [
      | inl d ↦ (asked m, refl, refl, ground (arith, is_validated-eq ids w g t m src))
      | inr d ↦ (m, refl, refl, ground arith)
    ]
  ]
