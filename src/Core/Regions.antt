-- ===== src/Core/Regions.antt =====
-- The regions without data cache of src/SamV71Core/SamV71Core.c and src/SamRH71Core/SamRH71Core.c.
use taste_samx_rtems_runtime.Common.Word.{u32, sub32}
use taste_samx_rtems_runtime.Common.{
  List, [], ℕ, Bool, Option, length, ◌∷◌, ◌≡◌, bit_and, if◌then◌else◌, some, true, ◌-◌, ◌≤◌, leb,
  none, not, ◌&&◌, Bool-cases, ltb, ◌==◌, arith, inl, inr, ◌%◌, refl, ◌^◌, ◌∙◌, ap, false,
}

-- A region that was set: its number, address and size exponent.
pub record Region : Type 0 where
  pub number : ℕ
  pub address : ℕ
  pub size_exponent : ℕ

-- The static `region`, and the regions that were set, latest first.
pub record Mpu : Type 0 where
  pub region : ℕ
  pub regions : List Region

-- The start.
abbrev pub initial_mpu : Mpu
initial_mpu = record { region = 15; regions = [] }

-- The argument is `~MPU_RBAR_ADDR_MASK` of the board library: the bits of an address that must be
-- clear.
module _ (low_address_mask : ℕ) where
  -- `SamV71Core_DisableDataCacheInRegion` and `SamRH71Core_DisableDataCacheInRegion`. `none` is a failed
  -- assertion.
  unfoldable pub disable_data_cache_in_region : ℕ → ℕ → Mpu → Option Mpu
  disable_data_cache_in_region address size_exponent s =
      if not (bit_and (u32 address) low_address_mask == 0)
      then none
      else if not (leb 4 size_exponent)
      then none
      else if not (leb size_exponent 31)
      then none
      else if not (ltb 11 s.region)
      then none
      else some (record {
        region = sub32 s.region 1 % 2 ^ 8;
        regions =
            record { number = s.region; address = u32 address; size_exponent = size_exponent }
            ∷ s.regions;
      })

  -- One call after the other.
  abbrev pub disable_all : List (ℕ × ℕ) → Mpu → Option Mpu
  disable_all [] s = some s
  disable_all (r ∷ rs) s = elim (disable_all rs s) [
    | none ↦ none
    | some s' ↦ disable_data_cache_in_region r.0 r.1 s'
  ]

  -- A region that the code accepts.
  abbrev pub is_acceptable : ℕ × ℕ → Bool
  is_acceptable r = (bit_and (u32 (r.0)) low_address_mask == 0) && (leb 4 (r.1) && leb (r.1) 31)

  abbrev pub all_acceptable : List (ℕ × ℕ) → Bool
  all_acceptable [] = true
  all_acceptable (r ∷ rs) = is_acceptable r && all_acceptable rs

  -- The regions that are expected, with the numbers from 15 down.
  abbrev pub numbered : List (ℕ × ℕ) → List Region
  numbered [] = []
  numbered (r ∷ rs) =
      record { number = 15 - length rs; address = u32 (r.0); size_exponent = r.1 } ∷ numbered rs

  accepted :
      (r : ℕ × ℕ) (rs : List (ℕ × ℕ))
      → length rs ≤ 4
      → is_acceptable r ≡ true
      → disable_data_cache_in_region
          (r.0)
          (r.1)
          (record { region = 15 - length rs; regions = numbered rs })
        ≡ (if leb (length (r ∷ rs)) 4
            then some (record { region = 15 - length (r ∷ rs); regions = numbered (r ∷ rs) })
            else none)
  unfolding disable_data_cache_in_region
  accepted r rs few ok = ground (arith, ok)

  too_long :
      (r : ℕ × ℕ) (rs : List (ℕ × ℕ))
      → leb (length rs) 4 ≡ false
      → ◌≡◌ {A = Option Mpu} none (
          if leb (length (r ∷ rs)) 4
          then some (record { region = 15 - length (r ∷ rs); regions = numbered (r ∷ rs) })
          else none)
  too_long r rs many = ground (arith, many)

  -- A sequence of calls with acceptable regions passes its assertions exactly if there are at most four.
  -- Then the regions have the numbers 15, 14, 13 and 12 in the order of the calls, so none of them
  -- overwrites a region of the default memory map, 0 to 11.
  pub disable_all-numbered :
      (rs : List (ℕ × ℕ))
      → all_acceptable rs ≡ true
      → disable_all rs initial_mpu ≡ (
          if leb (length rs) 4
          then some (record { region = 15 - length rs; regions = numbered rs })
          else none)
  disable_all-numbered [] ok = refl
  disable_all-numbered (r ∷ rs) ok = elim (Bool-cases (leb (length rs) 4)) [
    | inl few ↦
        let before : disable_all rs initial_mpu
            ≡ some (record { region = 15 - length rs; regions = numbered rs }) =
          disable_all-numbered rs (ground (arith, ok))
          ∙ ap
              (λ b.
                if b
                then some (record { region = 15 - length rs; regions = numbered rs })
                else none)
              few in
        let step =
          ap (λ o. elim o [ none ↦ none | some s' ↦ disable_data_cache_in_region (r.0) (r.1) s' ])
            before in
        step ∙ accepted r rs (ground (arith, few)) (ground (arith, ok))
    | inr many ↦
        let before : disable_all rs initial_mpu ≡ none =
          disable_all-numbered rs (ground (arith, ok))
          ∙ ap
              (λ b.
                if b
                then some (record { region = 15 - length rs; regions = numbered rs })
                else none)
              many in
        let step =
          ap (λ o. elim o [ none ↦ none | some s' ↦ disable_data_cache_in_region (r.0) (r.1) s' ])
            before in
        step ∙ too_long r rs many
  ]
