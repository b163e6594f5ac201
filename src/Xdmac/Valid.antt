-- ===== src/Xdmac/Valid.antt =====
-- What the proofs about src/Xdmac assume of the controller and keep of the driver.
use taste_samx_rtems_runtime.Common.{
  ℕ, ◌<◌, ◌≤◌, ◌≡◌, Option, none, some, List, length, subst, ◌++◌, ◌∙◌, ap, sym,
}
use mathlib.Core.List.{append_assoc}
use taste_samx_rtems_runtime.Common.Word.{u32}
use taste_samx_rtems_runtime.Xdmac.Machine.{World, Machine, M, ◌>>=◌, Event, gtype}
use taste_samx_rtems_runtime.Xdmac.Interface.{num_of_peripheral}
use taste_samx_rtems_runtime.Xdmac.Driver.{channel_count}

-- The driver has the array that xdmad.h declares, and counts no more channels than that.
pub record IsValid (m : Machine) : Type 0 where
  pub size : length m.driver.channels ≡ 24
  pub count : m.driver.num_channels ≤ 24

-- The type register always reads `g`. The controller has at most the 24 channels that the code has
-- room for, and at most the 45 requests that the code has rows for.
pub record HasType (w : World) (g : ℕ) : Type 0 where
  pub constant : (es : List Event) → u32 (w.reads es gtype) ≡ g
  pub requests : num_of_peripheral g < 45
  pub channels : channel_count g ≤ 24

-- The operation returns, with a result and a machine of which `P` holds.
abbrev pub Returns : {A : Type 0} → Option (A × Machine) → (A → Machine → Type 0) → Type 0
Returns none P = ⊥
Returns (some (a, m)) P = P a m

pub Returns-mono :
    {A : Type 0} (P Q : A → Machine → Type 0) (o : Option (A × Machine))
    → ((a : A) (m : Machine) → P a m → Q a m)
    → Returns o P
    → Returns o Q
Returns-mono P Q none f r = r
Returns-mono P Q (some (a, m)) f r = f a m r

-- A sequence returns if its parts do.
pub Returns-bind :
    {A B : Type 0} (P : A → Machine → Type 0) (Q : B → Machine → Type 0) (c : M A) (f : A → M B)
    (w : World) (m : Machine)
    → ((a : A) (m' : Machine) → P a m' → Returns (f a w m') Q)
    → Returns (c w m) P
    → Returns ((c >>= f) w m) Q
Returns-bind {A} P Q c f w m k r = go (c w m) r
  where
    go :
        (o : Option (A × Machine))
        → Returns o P
        → Returns (elim o [ none ↦ none | some (a, m') ↦ f a w m' ]) Q
    go none r = r
    go (some (a, m')) r = k a m' r

-- A history goes on from another.
abbrev pub Follows : List Event → List Event → Type 0
Follows es es' = (more : List Event) × (es' ≡ more ++ es)

pub Follows-trans : {es es' es'' : List Event} → Follows es es' → Follows es' es'' → Follows es es''
Follows-trans {es} (more, e) (further, e') =
    (further ++ more, e' ∙ (ap (λ l. further ++ l) e ∙ sym (append_assoc further more es)))

-- The callbacks return and do not call the driver. They may do anything else.
pub record IsPassive (w : World) : Type 0 where
  pub returns :
      (f i arg : ℕ) (m : Machine)
      → Returns (w.calls f i arg m) (λ _ m'.
        (m'.driver ≡ m.driver) × (m'.initialized ≡ m.initialized) × Follows m.events m'.events)

-- What an operation that returned has done.
pub Returns-at :
    {A : Type 0} (P : A → Machine → Type 0) {o : Option (A × Machine)} {a : A} {m : Machine}
    → Returns o P
    → o ≡ some (a, m)
    → P a m
Returns-at P r e = subst (λ o. Returns o P) e r
