-- ===== src/Dashboard/Options.antt =====
-- The options of main.c in toolkit/examples/vita-dashboard/src. `atol` is a parameter.
use vita_linux_next.Prelude.{
  ℕ, ◌<◌, ◌≤◌, ◌≡◌, refl, ◌⊎◌, inl, inr, if_holds, Bool, true, false, ◌||◌, List, [], ◌∷◌, arith,
  if◌then◌else◌,
}
use vita_linux_next.Prelude.Int.{ℤ, pos, negsuc, pos_part, ltb_ℤ, leb_ℤ}
use vita_linux_next.Prelude.Text.{codes}
use vita_linux_next.Dashboard.Texts.{streq}

abbrev pub max_duration_ms : ℕ
max_duration_ms = 600_000

-- The variables that the options set.
pub record Options : Type 0 where
  pub root : List ℕ
  pub wanted_phys : List ℕ
  pub duration_ms : ℕ
  pub frames_max : ℕ
  pub machine : Bool
  pub forever : Bool

unfoldable pub defaults : Options
defaults = record {
  root = [];
  wanted_phys = codes "vita_syscon_buttons";
  duration_ms = 60_000;
  frames_max = 0;
  machine = false;
  forever = false;
}

-- Go on with options, or leave with an exit code.
pub data Parsed : Type 0 where
  run : Options → Parsed
  leave : ℕ → Parsed

-- Options that stand alone, `none` of the others.
pub data Flag : Type 0 where
  machine_flag forever_flag help_flag other_flag : Flag

abbrev flag_of : List ℕ → Flag
flag_of a =
    if streq a (codes "--machine")
    then machine_flag
    else if streq a (codes "--forever")
    then forever_flag
    else if streq a (codes "--help") || streq a (codes "-h")
    then help_flag
    else other_flag

-- Options that take a value.
pub data Valued : Type 0 where
  phys_value root_value duration_value frames_value no_value : Valued

abbrev valued_of : List ℕ → Valued
valued_of a =
    if streq a (codes "--input-phys")
    then phys_value
    else if streq a (codes "--root")
    then root_value
    else if streq a (codes "--duration-ms")
    then duration_value
    else if streq a (codes "--frames-max")
    then frames_value
    else no_value

-- An option with its value.
unfoldable pub set_value : (List ℕ → ℤ) → Valued → Options → List ℕ → Parsed
set_value atol phys_value o v = run (record o { wanted_phys = v })
set_value atol root_value o v = run (record o { root = v })
set_value atol duration_value o v =
    if leb_ℤ (atol v) (pos 0) || ltb_ℤ (pos max_duration_ms) (atol v)
    then leave 2
    else run (record o { duration_ms = pos_part (atol v) })
set_value atol frames_value o v =
    if leb_ℤ (atol v) (pos 0) then leave 2 else run (record o { frames_max = pos_part (atol v) })
set_value atol no_value o v = leave 2

abbrev and_then : Parsed → (Options → Parsed) → Parsed
and_then (leave code) more = leave code
and_then (run o) more = more o

-- A flag, or what becomes of another argument.
abbrev after_flag : Flag → Options → (Options → Parsed) → Parsed → Parsed
after_flag machine_flag o more valued = more (record o { machine = true })
after_flag forever_flag o more valued = more (record o { forever = true })
after_flag help_flag o more valued = leave 0
after_flag other_flag o more valued = valued

-- The loop over the arguments behind the program's name: an option that takes a value and has none is
-- unknown.
unfoldable pub parse : (List ℕ → ℤ) → Options → List (List ℕ) → Parsed
unfolding set_value
parse atol o [] = run o
parse atol o (a ∷ []) = after_flag (flag_of a) o run (leave 2)
parse atol o (a ∷ v ∷ more) =
    after_flag (flag_of a) o (λ o'. parse atol o' (v ∷ more))
      (and_then (set_value atol (valued_of a) o v) (λ o'. parse atol o' more))

-- A duration that may be asked for.
abbrev pub IsTimely : Options → Type 0
IsTimely o = (0 < o.duration_ms) × (o.duration_ms ≤ max_duration_ms)

-- An exit code of 0 or 2, or timely options.
abbrev pub IsTimelyOrLeft : Parsed → Type 0
IsTimelyOrLeft (leave code) = (code ≡ 0) ⊎ (code ≡ 2)
IsTimelyOrLeft (run o) = IsTimely o

duration_bounds :
    (value : ℤ)
    → (leb_ℤ value (pos 0) || ltb_ℤ (pos max_duration_ms) value) ≡ false
    → (0 < pos_part value) × (pos_part value ≤ max_duration_ms)
duration_bounds (pos n) e = ground arith
duration_bounds (negsuc n) e = ground arith

set_value-IsTimely :
    (atol : List ℕ → ℤ) (which : Valued) (o : Options) (v : List ℕ)
    → IsTimely o
    → IsTimelyOrLeft (set_value atol which o v)
unfolding set_value
set_value-IsTimely atol phys_value o v h = h
set_value-IsTimely atol root_value o v h = h
set_value-IsTimely atol duration_value o v h =
    if_holds IsTimelyOrLeft (leb_ℤ (atol v) (pos 0) || ltb_ℤ (pos max_duration_ms) (atol v))
      (leave 2) (run (record o { duration_ms = pos_part (atol v) })) (λ e. inr refl)
      (λ e. duration_bounds (atol v) e)
set_value-IsTimely atol frames_value o v h =
    if_holds IsTimelyOrLeft (leb_ℤ (atol v) (pos 0)) (leave 2)
      (run (record o { frames_max = pos_part (atol v) })) (λ e. inr refl) (λ e. h)
set_value-IsTimely atol no_value o v h = inr refl

and_then-IsTimely :
    (p : Parsed) (more : Options → Parsed)
    → IsTimelyOrLeft p
    → ((o : Options) → IsTimely o → IsTimelyOrLeft (more o))
    → IsTimelyOrLeft (and_then p more)
and_then-IsTimely (leave code) more h k = h
and_then-IsTimely (run o) more h k = k o h

after_flag-IsTimely :
    (flag : Flag) (o : Options) (more : Options → Parsed) (valued : Parsed)
    → IsTimely o
    → ((o' : Options) → IsTimely o' → IsTimelyOrLeft (more o'))
    → IsTimelyOrLeft valued
    → IsTimelyOrLeft (after_flag flag o more valued)
after_flag-IsTimely machine_flag o more valued h k v = k (record o { machine = true }) h
after_flag-IsTimely forever_flag o more valued h k v = k (record o { forever = true }) h
after_flag-IsTimely help_flag o more valued h k v = inl refl
after_flag-IsTimely other_flag o more valued h k v = v

-- Whatever the arguments are, the program leaves at once with the exit code 0 or 2, or goes on with a
-- duration from 1 to 600,000 ms, if it had one before.
pub parse-IsTimely :
    (atol : List ℕ → ℤ) (o : Options) (arguments : List (List ℕ))
    → IsTimely o
    → IsTimelyOrLeft (parse atol o arguments)
unfolding parse
parse-IsTimely atol o [] h = h
parse-IsTimely atol o (a ∷ []) h =
    after_flag-IsTimely (flag_of a) o run (leave 2) h (λ o' k. k) (inr refl)
parse-IsTimely atol o (a ∷ v ∷ more) h =
    after_flag-IsTimely (flag_of a) o (λ o'. parse atol o' (v ∷ more)) _ h
      (λ o' k. parse-IsTimely atol o' (v ∷ more) k)
      (and_then-IsTimely (set_value atol (valued_of a) o v) (λ o'. parse atol o' more)
        (set_value-IsTimely atol (valued_of a) o v h) (λ o' k. parse-IsTimely atol o' more k))
