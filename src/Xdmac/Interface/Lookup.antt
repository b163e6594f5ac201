-- ===== src/Xdmac/Interface/Lookup.antt =====
-- The searches of src/Xdmac/xdma_hardware_interface.c against the rows of the table.
use taste_samx_rtems_runtime.Common.{
  ℕ, zero, suc, ◌+◌, ◌<◌, ◌≤◌, ◌≡◌, inl, inr, refl, true, not, ◌&&◌, ◌||◌, Option, none, some, List,
  [], ◌∷◌, ◌==◌, length, get_elem?, if◌then◌else◌, arith, get_elem?-some, Bool-cases, subst, sym,
}
use native.Mathlib.Decide.{ℕ_discrete}
use taste_samx_rtems_runtime.Xdmac.Interface.{
  PeripheralIds, XdmaHardwareInterface, xdma_hw_if, find_if, has_row, num_of_peripheral,
  get_channel_number, is_validated_peripher_on_dma,
}
use taste_samx_rtems_runtime.Xdmac.Machine.{World, Machine, load, gtype}
use taste_samx_rtems_runtime.Xdmac.Valid.{HasType, Returns}
use taste_samx_rtems_runtime.Xdmac.Registers.{get_type}

-- A row that the code can return: a direction, and an interface that is not the failure 0xff.
abbrev IsRow : XdmaHardwareInterface → Type 0
IsRow r = (r.transfer < 2) × (r.if_id < 0xff)

abbrev AllRows : List XdmaHardwareInterface → Type 0
AllRows [] = Unit
AllRows (r ∷ rs) = IsRow r × AllRows rs

AllRows-get :
    (rs : List XdmaHardwareInterface) (i : ℕ) {r : XdmaHardwareInterface}
    → AllRows rs
    → get_elem? rs i ≡ some r
    → IsRow r
AllRows-get [] i h e = cc
AllRows-get (r ∷ rs) zero h e = ground (arith, h.0)
AllRows-get (r ∷ rs) (suc i) h e = AllRows-get rs i h.1 e

pub xdma_hw_if-AllRows : (ids : PeripheralIds) → AllRows (xdma_hw_if ids)
unfolding xdma_hw_if
xdma_hw_if-AllRows ids = omega arith

pub length-xdma_hw_if : (ids : PeripheralIds) → length (xdma_hw_if ids) ≡ 45
unfolding xdma_hw_if
length-xdma_hw_if ids = refl

-- The row `j` is for this peripheral and direction.
pub record Serves (table : List XdmaHardwareInterface) (periph transfer j if_id : ℕ) : Type 0 where
  pub entry : XdmaHardwareInterface
  pub at : get_elem? table j ≡ some entry
  pub same_periph : entry.periph_id ≡ periph
  pub same_transfer : entry.transfer ≡ transfer
  pub same_if : entry.if_id ≡ if_id

-- What the search loop from row `i` with `n` rounds answers.
pub data Found (table : List XdmaHardwareInterface) (periph transfer i n : ℕ)
    : Option ℕ → Type 0 where
  hit :
      (j if_id : ℕ)
      → i ≤ j
      → j < i + n
      → if_id < 0xff
      → Serves table periph transfer j if_id
      → Found table periph transfer i n (some if_id)
  miss :
      ((j if_id : ℕ) → i ≤ j → j < i + n → ¬ Serves table periph transfer j if_id)
      → Found table periph transfer i n (some 0xff)

-- A row that is not for the peripheral and direction can be put before a search.
Found-later :
    (table : List XdmaHardwareInterface) (periph transfer i n : ℕ) {o : Option ℕ}
    → ((if_id : ℕ) → ¬ Serves table periph transfer i if_id)
    → Found table periph transfer (i + 1) n o
    → Found table periph transfer i (suc n) o
Found-later table periph transfer i n other (hit j if_id p q lt s) =
    hit j if_id (omega arith) (omega arith) lt s
Found-later table periph transfer i n other (miss none_of) = miss λ j if_id p q s.
    elim (ℕ_discrete i j) [
      | yes e ↦ other if_id (subst (λ k. Serves table periph transfer k if_id) (sym e) s)
      | no ne ↦ none_of j if_id (omega arith) (omega arith) s
    ]

-- One round of each search.
find_if-suc :
    (table : List XdmaHardwareInterface) (periph transfer n i : ℕ) {r : XdmaHardwareInterface}
    → get_elem? table i ≡ some r
    → find_if table periph transfer (suc n) i ≡ (
        if (r.periph_id == periph) && (r.transfer == transfer)
        then some r.if_id
        else find_if table periph transfer n (i + 1))
unfolding find_if
find_if-suc table periph transfer n i e = ground arith

has_row-suc :
    (table : List XdmaHardwareInterface) (periph n i : ℕ) {r : XdmaHardwareInterface}
    → get_elem? table i ≡ some r
    → has_row table periph (suc n) i
      ≡ (if r.periph_id == periph then some true else has_row table periph n (i + 1))
unfolding has_row
has_row-suc table periph n i e = ground arith

-- The interface number, with the failure 0xff for a search that leaves the table.
abbrev pub number : Option ℕ → ℕ
number none = 0xff
number (some n) = n

Found-some :
    {table : List XdmaHardwareInterface} {periph transfer i n : ℕ} {o : Option ℕ}
    → Found table periph transfer i n o
    → (r : ℕ) × (o ≡ some r)
Found-some (hit j if_id p q lt s) = (if_id, refl)
Found-some (miss none_of) = (0xff, refl)

module _ (table : List XdmaHardwareInterface) (rows : AllRows table) (periph : ℕ) where
  pub find_if-Found :
      (transfer n i : ℕ)
      → i + n ≤ length table
      → Found table periph transfer i n (find_if table periph transfer n i)
  find_if-Found transfer zero i h = unfold find_if in miss (λ j if_id p q s. absurd (omega arith))
  find_if-Found transfer (suc n) i h =
      let rest = find_if-Found transfer n (i + 1) (omega arith) in
      let (r, e) = get_elem?-some table i (omega arith) in
      elim (Bool-cases ((r.periph_id == periph) && (r.transfer == transfer))) [
        | inl same ↦
            (let row : Serves table periph transfer i r.if_id = record {
              entry = r;
              at = e;
              same_periph = ground arith;
              same_transfer = ground arith;
              same_if = refl;
            } in
              rw (find_if-suc table periph transfer n i e, same)
                (hit i r.if_id (omega arith) (omega arith) (AllRows-get table i rows e).1 row))
        | inr differs ↦
            rw (find_if-suc table periph transfer n i e, differs)
              (Found-later table periph transfer i n
                (λ if_id s. ground (arith, s.at, s.same_periph, s.same_transfer)) rest)
      ]

  -- A peripheral has a row exactly if one of the two directions has an interface.
  pub has_row-find_if :
      (n i : ℕ)
      → i + n ≤ length table
      → has_row table periph n i
        ≡ some (
            not (
              (number (find_if table periph 0 n i) == 0xff)
              && (number (find_if table periph 1 n i) == 0xff)))
  has_row-find_if zero i h = unfold find_if has_row in refl
  has_row-find_if (suc n) i h =
      let (r, e) = get_elem?-some table i (omega arith) in
      ground (
        arith,
        has_row-suc table periph n i e,
        find_if-suc table periph 0 n i e,
        find_if-suc table periph 1 n i e,
        AllRows-get table i rows e,
        has_row-find_if n (i + 1),
      )

-- What the two functions of the interface answer.
module _ (ids : PeripheralIds) (w : World) (g : ℕ) (t : HasType w g) where
  abbrev rounds : ℕ
  rounds = suc (num_of_peripheral g)

  pub within_table : 0 + rounds ≤ length (xdma_hw_if ids)
  within_table = rw (length-xdma_hw_if ids) (omega (arith, t.requests))

  get_channel_number-eq :
      (m : Machine) (periph transfer : ℕ) {r : ℕ}
      → find_if (xdma_hw_if ids) periph transfer rounds 0 ≡ some r
      → get_channel_number ids periph transfer w m
        ≡ some (r, record m { events = load gtype ∷ m.events })
  unfolding get_channel_number get_type
  get_channel_number-eq m periph transfer e = ground (arith, t.constant m.events)

  pub get_channel_number-number :
      (m : Machine) (periph transfer : ℕ)
      → get_channel_number ids periph transfer w m
        ≡ some (
          number (find_if (xdma_hw_if ids) periph transfer rounds 0),
          record m { events = load gtype ∷ m.events },
        )
  get_channel_number-number m periph transfer =
      let (r, e) = Found-some (
        find_if-Found (xdma_hw_if ids) (xdma_hw_if-AllRows ids) periph transfer rounds 0
          within_table) in
      rw e (get_channel_number-eq m periph transfer e)

  pub is_validated-eq :
      (m : Machine) (periph : ℕ)
      → is_validated_peripher_on_dma ids periph w m
        ≡ some (
          (periph == 0xff)
              || not (
                  (number (find_if (xdma_hw_if ids) periph 0 rounds 0) == 0xff)
                  && (number (find_if (xdma_hw_if ids) periph 1 rounds 0) == 0xff)),
          record m { events = load gtype ∷ m.events },
        )
  unfolding is_validated_peripher_on_dma get_type
  is_validated-eq m periph = ground (
    arith,
    t.constant m.events,
    has_row-find_if (xdma_hw_if ids) (xdma_hw_if-AllRows ids) periph rounds 0 within_table,
  )

  -- A row of the table that the controller uses gives the interface, for the peripheral and the
  -- direction that were asked for; the answer is 0xff only if there is no such row.
  pub get_channel_number-Found :
      (m : Machine) (periph transfer : ℕ)
      → Returns (get_channel_number ids periph transfer w m) (λ r m'.
        (m' ≡ record m { events = load gtype ∷ m.events })
        × (some r ≡ find_if (xdma_hw_if ids) periph transfer rounds 0)
        × Found (xdma_hw_if ids) periph transfer 0 rounds (some r))
  get_channel_number-Found m periph transfer =
      let found =
        find_if-Found (xdma_hw_if ids) (xdma_hw_if-AllRows ids) periph transfer rounds 0
          within_table in
      let (r, e) = Found-some found in
      rw (get_channel_number-eq m periph transfer e)
        (refl, sym e, subst (Found (xdma_hw_if ids) periph transfer 0 rounds) e found)

  -- With a controller whose type is constant and within the tables of the code, a peripheral other
  -- than 0xff is accepted exactly if one of the two lookups, made after the check, gives an
  -- interface; 0xff, the memory, is always accepted.
  pub is_validated-iff-found :
      (m : Machine) (periph : ℕ)
      → Returns (is_validated_peripher_on_dma ids periph w m) (λ valid m'.
        Returns (get_channel_number ids periph 0 w m') (λ tx m''.
          Returns
            (get_channel_number ids periph 1 w m'')
            (λ rx _. valid ≡ ((periph == 0xff) || not ((tx == 0xff) && (rx == 0xff))))))
  is_validated-iff-found m periph =
      rw
        (
          is_validated-eq m periph,
          get_channel_number-number _ periph 0,
          get_channel_number-number _ periph 1,
        )
        refl
