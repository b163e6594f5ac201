-- ===== src/Xdmac/Ownership/Held.antt =====
-- A channel of src/Xdmac/xdmad.c that is not free, whatever callbacks do to the others.
use taste_samx_rtems_runtime.Xdmac.Ownership.Reentrant.{IsKept}
use taste_samx_rtems_runtime.Common.{
  ℕ, ◌≡◌, ◌≢◌, subst, ◌∙◌, some, get_elem?, set, get_elem?-set_self, get_elem?-set_ne,
  lt-of-get_elem?, length-set,
}
use native.Mathlib.Decide.{ℕ_discrete}
use taste_samx_rtems_runtime.Xdmac.Machine.{World, Machine, free, done, XdmadChannel}
use taste_samx_rtems_runtime.Xdmac.Driver.{with_state}
use taste_samx_rtems_runtime.Xdmac.Lifecycle.{with_list}
use taste_samx_rtems_runtime.Xdmac.Valid.{IsValid}

-- Channel `j` is not free.
abbrev pub Owned : ℕ → Machine → Type 0
Owned j m = (c : XdmadChannel) × (get_elem? m.driver.channels j ≡ some c) × (c.state ≢ free)

-- A valid driver on which channel `j` is not free.
abbrev pub Holds : ℕ → Machine → Type 0
Holds j m = IsValid m × Owned j m

pub Holds-same : (j : ℕ) (m m' : Machine) → m'.driver ≡ m.driver → Holds j m → Holds j m'
Holds-same j m m' e (v, (c, f, owned)) =
    (record { size = rw e (v.size); count = rw e (v.count) }, (c, rw e f, owned))

Holds-done :
    (j : ℕ) (m m' : Machine) (i : ℕ) (c : XdmadChannel)
    → get_elem? m.driver.channels i ≡ some c
    → c.state ≢ free
    → m'.driver ≡ with_list m.driver i (with_state done c)
    → Holds j m
    → Holds j m'
Holds-done j m m' i c e owned left (v, (x, f, held)) = (
  record {
    size = rw left (length-set m.driver.channels i (with_state done c) ∙ v.size);
    count = rw left (v.count);
  },
  elim (ℕ_discrete i j) [
    | yes same ↦ (
      with_state done c,
      rw left (
          subst
            (λ k.
              get_elem? (set m.driver.channels i (with_state done c)) k ≡ some (with_state done c))
            same
            (get_elem?-set_self m.driver.channels i (with_state done c)
              (lt-of-get_elem? m.driver.channels i e))),
      (λ h. cc),
    )
    | no other ↦
        (x, rw left (get_elem?-set_ne m.driver.channels (with_state done c) other ∙ f), held)
  ],
)

pub Holds-IsKept :
    (j : ℕ) (w : World)
    → ((f i arg : ℕ) (a b : Machine) → w.calls f i arg a ≡ some (tt, b) → Holds j a → Holds j b)
    → IsKept w (Holds j)
Holds-IsKept j w keeps = record {
  valid = λ m h. h.0;
  same = Holds-same j;
  completed = Holds-done j;
  called = keeps;
}
