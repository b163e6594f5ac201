-- ===== src/Xdmac/Ownership/Ends.antt =====
-- What holds of an operation of src/Xdmac that may fail, if it returns.
use taste_samx_rtems_runtime.Common.{subst, ◌≡◌, Option, none, some}
use taste_samx_rtems_runtime.Xdmac.Machine.{World, Machine, M, ◌>>=◌}
use taste_samx_rtems_runtime.Xdmac.Valid.{Returns}

-- If the operation returns, `P` holds of the result and the machine.
abbrev pub Ends : {A : Type 0} → Option (A × Machine) → (A → Machine → Type 0) → Type 0
Ends none P = Unit
Ends (some (a, m)) P = P a m

pub Ends-bind :
    {A B : Type 0} (P : A → Machine → Type 0) (Q : B → Machine → Type 0) (c : M A) (f : A → M B)
    (w : World) (m : Machine)
    → ((a : A) (m' : Machine) → P a m' → Ends (f a w m') Q)
    → Ends (c w m) P
    → Ends ((c >>= f) w m) Q
Ends-bind {A} P Q c f w m k r = go (c w m) r
  where
    go :
        (o : Option (A × Machine))
        → Ends o P
        → Ends (elim o [ none ↦ none | some (a, m') ↦ f a w m' ]) Q
    go none r = tt
    go (some (a, m')) r = k a m' r

pub Ends-Returns :
    {A : Type 0} (P : A → Machine → Type 0) (o : Option (A × Machine)) → Returns o P → Ends o P
Ends-Returns P none r = tt
Ends-Returns P (some (a, m)) r = r

pub Ends-at :
    {A : Type 0} (P : A → Machine → Type 0) (o : Option (A × Machine)) (a : A) (m : Machine)
    → Ends o P
    → o ≡ some (a, m)
    → P a m
Ends-at P none a m r e = cc
Ends-at {A} P (some (b, n)) a m r e = subst (λ (o : Option (A × Machine)). Ends o P) e r
