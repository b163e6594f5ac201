-- ===== src/Monitor/Stack/Visit.antt =====
-- Monitor_GetMaximumStackUsage over the threads that RTEMS visits.
use taste_samx_rtems_runtime.Monitor.Stack.Mark.{
  Ends, Searched, used, find_high_water_mark-Searched,
}
use taste_samx_rtems_runtime.Common.Word.{u32}
use taste_samx_rtems_runtime.Common.{
  ℕ, List, Option, false, if◌then◌else◌, ◌≡◌, Bool, get_elem?, none, some, ◌*◌, ◌∷◌, ◌+◌, ◌/◌, ◌==◌,
  true, ◌-◌, ◌<◌, ◌^◌, arith, Bool-cases, [], subst, inl, sym, inr, refl,
}
use taste_samx_rtems_runtime.Monitor.Stack.{
  StackUsageData, Thread, calculate_used_stack, minus_one, thread_stack_usage_visitor,
  find_high_water_mark, get_maximum_stack_usage,
}

-- `rtems_task_iterate` as its documentation describes it: the visitor is called on one thread after
-- the other until it returns true.
abbrev pub walk :
    (Thread → StackUsageData → Option (Bool × StackUsageData))
    → List Thread
    → StackUsageData
    → Option StackUsageData
walk visitor [] d = some d
walk visitor (t ∷ ts) d = elim (visitor t d) [
  | none ↦ none
  | some (true, d') ↦ some d'
  | some (false, d') ↦ walk visitor ts d'
]

-- The first thread with an identifier.
abbrev pub owner : ℕ → List Thread → Option Thread
owner id [] = none
owner id (t ∷ ts) = if id == t.id then some t else owner id ts

-- The bytes from the mark to the end of a stack, none without a mark.
abbrev pub used_above : ℕ → ℕ → Option ℕ → ℕ
used_above start size none = 0
used_above start size (some mark) = start + size - mark

-- What is reported of a stack: -1 if there is no area, and otherwise the bytes that were ever in use.
abbrev pub StackUsage : (ℕ → ℕ) → Option ℕ → ℕ → ℕ → Type 0
StackUsage memory none size r = r ≡ minus_one
StackUsage memory (some start) size r =
    (o : Option ℕ) × Searched memory start (size / 4) o × (r ≡ used_above start size o)

-- The same of a thread, -1 if there is none.
abbrev pub Usage : (ℕ → ℕ) → Option Thread → ℕ → Type 0
Usage memory none r = r ≡ minus_one
Usage memory (some t) r = StackUsage memory t.area t.size r

-- A stack lies below the end of the memory.
abbrev pub Below : Option ℕ → ℕ → Type 0
Below none size = Unit {0}
Below (some start) size = start + size < 2 ^ 32

-- The stack of a thread lies below the end of the memory and has a whole number of words, less than
-- the fuel.
abbrev pub Fits : ℕ → Thread → Type 0
Fits fuel t = (t.size ≡ 4 * (t.size / 4)) × (t.size / 4 < fuel) × Below t.area t.size

abbrev pub AllFit : ℕ → List Thread → Type 0
AllFit fuel [] = Unit {0}
AllFit fuel (t ∷ ts) = Fits fuel t × AllFit fuel ts

abbrev start_data : ℕ → StackUsageData
start_data interface = record { interface = interface; maximum_stack_usage = 0; is_found = false }

abbrev reply : StackUsageData → ℕ
reply d = if d.is_found then u32 d.maximum_stack_usage else minus_one

walk_on :
    (visitor : Thread → StackUsageData → Option (Bool × StackUsageData)) (t : Thread)
    (ts : List Thread) (d : StackUsageData)
    → visitor t d ≡ some (false, d)
    → walk visitor (t ∷ ts) d ≡ walk visitor ts d
walk_on visitor t ts d e = rw (e, walk) refl

used_value :
    (memory : ℕ → ℕ) (start size mark : ℕ)
    → size ≡ 4 * (size / 4)
    → start + size < 2 ^ 32
    → Searched memory start (size / 4) (some mark)
    → u32 (calculate_used_stack start size mark) ≡ start + size - mark
unfolding calculate_used_stack
used_value memory start size mark whole small (used k lt u ne) = omega arith

module _ (memory : ℕ → ℕ) (fuel : ℕ) (ids : List ℕ) (interface id : ℕ)
    (row : get_elem? ids interface ≡ some id) where
  -- What the visitor returns for the thread, after its search.
  after_search : ℕ → ℕ → Option (Option ℕ) → Option (Bool × StackUsageData)
  after_search start size none = none
  after_search start size (some none) =
      some (true, record (start_data interface) { is_found = true })
  after_search start size (some (some mark)) = some (
    true,
    record (start_data interface) {
      is_found = true;
      maximum_stack_usage = calculate_used_stack start size mark;
    },
  )

  searched :
      (t : Thread) (start : ℕ) (o : Option (Option ℕ))
      → (id == t.id) ≡ true
      → t.area ≡ some start
      → find_high_water_mark memory fuel start t.size ≡ o
      → thread_stack_usage_visitor memory fuel ids t (start_data interface)
        ≡ after_search start t.size o
  unfolding thread_stack_usage_visitor after_search
  searched t start none own area e = ground arith
  searched t start (some none) own area e = ground arith
  searched t start (some (some mark)) own area e = ground arith

  no_area :
      (t : Thread)
      → (id == t.id) ≡ true
      → t.area ≡ none
      → thread_stack_usage_visitor memory fuel ids t (start_data interface)
        ≡ some (true, start_data interface)
  unfolding thread_stack_usage_visitor
  no_area t own area = ground arith

  skipped :
      (t : Thread)
      → (id == t.id) ≡ false
      → thread_stack_usage_visitor memory fuel ids t (start_data interface)
        ≡ some (false, start_data interface)
  unfolding thread_stack_usage_visitor
  skipped t other = ground arith

  -- What is right of a visit that ends the walk.
  abbrev Reports : Option ℕ → ℕ → Bool × StackUsageData → Type 0
  Reports area size (b, d) = (b ≡ true) × StackUsage memory area size (reply d)

  reported :
      (start size : ℕ) (o : Option (Option ℕ))
      → size ≡ 4 * (size / 4)
      → start + size < 2 ^ 32
      → Ends o (Searched memory start (size / 4))
      → Ends (after_search start size o) (Reports (some start) size)
  unfolding after_search
  reported start size none whole small r = elim r [ ]
  reported start size (some none) whole small r = (refl, (none, r, refl))
  reported start size (some (some mark)) whole small r =
      (refl, (some mark, r, used_value memory start size mark whole small r))

  visited :
      (t : Thread) (area : Option ℕ)
      → t.area ≡ area
      → (id == t.id) ≡ true
      → t.size ≡ 4 * (t.size / 4)
      → t.size / 4 < fuel
      → Below area t.size
      → Ends
          (thread_stack_usage_visitor memory fuel ids t (start_data interface))
          (Reports area t.size)
  visited t none area own whole enough below = rw (no_area t own area) (refl, refl)
  visited t (some start) area own whole enough below = rw (searched t start _ own area refl) (
      reported start t.size (find_high_water_mark memory fuel start t.size) whole below (
        subst
          (λ n.
            Ends (find_high_water_mark memory fuel start n) (Searched memory start (t.size / 4)))
          (sym whole)
          (find_high_water_mark-Searched memory fuel start (t.size / 4) enough
            (subst (λ n. start + n < 2 ^ 32) whole below))))

  -- A walk ends at a visit that returns true.
  walk_end :
      (t : Thread) (ts : List Thread)
      → Ends
          (thread_stack_usage_visitor memory fuel ids t (start_data interface))
          (Reports t.area t.size)
      → Ends
          (walk (thread_stack_usage_visitor memory fuel ids) (t ∷ ts) (start_data interface))
          (λ d. StackUsage memory t.area t.size (reply d))
  walk_end t ts h = go (thread_stack_usage_visitor memory fuel ids t (start_data interface)) h
    where
      go :
          (o : Option (Bool × StackUsageData))
          → Ends o (Reports t.area t.size)
          → Ends
              (elim o [
                | none ↦ none
                | some (true, d') ↦ some d'
                | some (false, d') ↦ walk (thread_stack_usage_visitor memory fuel ids) ts d'
              ])
              (λ d. StackUsage memory t.area t.size (reply d))
      go none h = elim h [ ]
      go (some (true, d)) h = h.1
      go (some (false, d)) h = absurd (ground (arith, h.0))

  walk-Usage :
      (threads : List Thread)
      → AllFit fuel threads
      → Ends
          (walk (thread_stack_usage_visitor memory fuel ids) threads (start_data interface))
          (λ d. Usage memory (owner id threads) (reply d))
  walk-Usage [] fits = refl
  walk-Usage (t ∷ ts) (fit, fits) = elim (Bool-cases (id == t.id)) [
    | inl own ↦ rw own (walk_end t ts (visited t t.area refl own fit.0 fit.1 fit.2))
    | inr other ↦
        rw
          (
            walk_on (thread_stack_usage_visitor memory fuel ids) t ts (start_data interface)
                (skipped t other),
            other,
          )
          (walk-Usage ts fits)
  ]

  -- For an interface with a thread identifier, on a build that measures stacks, where RTEMS visits
  -- the threads in an order until the visitor returns true, and every stack lies below the end of
  -- the memory and has a whole number of words, less than the fuel: the usage that is reported is
  -- -1 if RTEMS has no thread with the identifier or no stack area of the first such thread, and
  -- otherwise the number of bytes from the lowest word that lost its pattern to the end of the
  -- stack, 0 if there is none.
  pub get_maximum_stack_usage-Usage :
      (iterate : (Thread → StackUsageData → Option (Bool × StackUsageData))
        → StackUsageData
        → Option StackUsageData)
      (threads : List Thread)
      → ((visitor : Thread → StackUsageData → Option (Bool × StackUsageData)) (d : StackUsageData)
          → iterate visitor d ≡ walk visitor threads d)
      → AllFit fuel threads
      → Ends
          (get_maximum_stack_usage iterate memory fuel ids interface)
          (Usage memory (owner id threads))
  unfolding get_maximum_stack_usage
  get_maximum_stack_usage-Usage iterate threads visits fits =
      finish (iterate (thread_stack_usage_visitor memory fuel ids) (start_data interface)) (
        subst (λ o. Ends o (λ d. Usage memory (owner id threads) (reply d)))
          (sym (visits (thread_stack_usage_visitor memory fuel ids) (start_data interface)))
          (walk-Usage threads fits))
    where
      finish :
          (o : Option StackUsageData)
          → Ends o (λ d. Usage memory (owner id threads) (reply d))
          → Ends
              (elim o [ none ↦ none | some d ↦ some (reply d) ])
              (Usage memory (owner id threads))
      finish none h = elim h [ ]
      finish (some d) h = h
