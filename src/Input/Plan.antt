-- ===== src/Input/Plan.antt =====
-- `_cart_input_plan` of cart/src/input_evdev.c: the order in which candidates claim their slots.
use mathlib.Core.List.{
  reverse, Perm, Pairwise, Mem, forall_mem-cons, Pairwise-reverse, Pairwise-singleton, reverse_perm,
  perm_middle, append-nil,
}
use mathlib.Core.Bool.{Bool-set}
use mathlib.Core.List.Perm
use mathlib.Core.List.Pairwise
use vita_linux_next.Prelude.{
  ℕ, ◌≡◌, ◌≤◌, ◌<◌, ◌⊎◌, inl, inr, Bool, true, false, ◌&&◌, ◌||◌, List, [], ◌∷◌, ◌++◌, arith, ltb,
  ◌==◌, if◌then◌else◌, Bool-cases,
}
use vita_linux_next.Input.Defs.{Source}

-- `struct cart_input_candidate`.
pub record Candidate : Type 0 where
  pub fd : ℕ
  pub rank : ℕ
  pub number : ℕ
  pub node : List ℕ
  pub prepared : Source

-- Does the candidate `key` go before `c`?
unfoldable pub goes_before : Candidate → Candidate → Bool
goes_before key c = ltb c.rank key.rank || (c.rank == key.rank && ltb key.number c.number)

-- The inner loop: `key` moves left past the candidates that it goes before. The part of the array
-- to the left of index `i` is kept backwards, the nearest first.
unfoldable pub shift : Candidate → List Candidate → List Candidate
shift key [] = key ∷ []
shift key (c ∷ left) =
    let moved = shift key left in if goes_before key c then c ∷ moved else key ∷ (c ∷ left)

unfoldable pub plan_from : List Candidate → List Candidate → List Candidate
plan_from left [] = left
plan_from left (key ∷ rest) = plan_from (shift key left) rest

-- The array after the call; the caller drops the number that is returned.
unfoldable pub plan : List Candidate → List Candidate
plan candidates = reverse (plan_from [] candidates)

-- The order is asymmetric, and not going before is transitive.
goes_before_asymm : (a b : Candidate) → goes_before a b ≡ true → goes_before b a ≡ false
unfolding goes_before
goes_before_asymm a b h = ground arith

goes_before_trans :
    (a b c : Candidate)
    → goes_before a b ≡ false
    → goes_before b c ≡ false
    → goes_before a c ≡ false
unfolding goes_before
goes_before_trans a b c h k = ground arith

shift-perm : (key : Candidate) (left : List Candidate) → Perm (shift key left) (key ∷ left)
unfolding shift
shift-perm key [] = Perm.rfl
shift-perm key (c ∷ left) = elim (Bool-cases (goes_before key c)) [
  | inl e ↦ rw e (Perm.trans (Perm.cons c (shift-perm key left)) (Perm.swap key c left))
  | inr e ↦ rw e Perm.rfl
]

-- The nearest first: none goes before one further to the left.
abbrev Backwards : List Candidate → Type 0
Backwards = Pairwise (λ a b. goes_before a b ≡ false)

abbrev Behind : Candidate → List Candidate → Type 0
Behind a l = (x : Candidate) → Mem x l → goes_before a x ≡ false

Behind-cons :
    (a b : Candidate) (l : List Candidate) → goes_before a b ≡ false → Behind a l → Behind a (b ∷ l)
Behind-cons a b l e h = (forall_mem-cons (λ x. Bool-set (goes_before a x) false)).1 (e, h)

shift-Backwards :
    (key : Candidate) (left : List Candidate) → Backwards left → Backwards (shift key left)
unfolding shift
shift-Backwards key [] s = Pairwise-singleton _ key
shift-Backwards key (c ∷ left) (Pairwise.cons h s) = elim (Bool-cases (goes_before key c)) [
  | inl e ↦ rw e (
      Pairwise.cons
        (λ x m.
          Behind-cons c key left (goes_before_asymm key c e) h x
            ((Perm.mem_iff (shift-perm key left)).0 m))
        (shift-Backwards key left s))
  | inr e ↦ rw e (
      Pairwise.cons (Behind-cons key c left e (λ x m. goes_before_trans key c x e (h x m)))
        (Pairwise.cons h s))
]

plan_from-perm : (left rest : List Candidate) → Perm (plan_from left rest) (rest ++ left)
unfolding plan_from
plan_from-perm left [] = Perm.rfl
plan_from-perm left (key ∷ rest) =
    Perm.trans (plan_from-perm (shift key left) rest)
      (Perm.trans (Perm.append_left rest (shift-perm key left)) (perm_middle rest left))

plan_from-Backwards :
    (left rest : List Candidate) → Backwards left → Backwards (plan_from left rest)
unfolding plan_from
plan_from-Backwards left [] s = s
plan_from-Backwards left (key ∷ rest) s =
    plan_from-Backwards (shift key left) rest (shift-Backwards key left s)

-- `a` may stand before `b`: it has the higher rank, or the same rank and no higher number.
abbrev pub InOrder : Candidate → Candidate → Type 0
InOrder a b = (b.rank < a.rank) ⊎ ((a.rank ≡ b.rank) × (a.number ≤ b.number))

in_order : (a b : Candidate) → goes_before b a ≡ false → InOrder a b
unfolding goes_before
in_order a b h = ground (arith, h)

-- `_cart_input_plan` sorts the candidates: it keeps each of them, and afterwards each has a higher
-- rank than the one behind it, or the same rank and a number that is no higher.
pub plan_sorts :
    (candidates : List Candidate)
    → Perm (plan candidates) candidates × Pairwise InOrder (plan candidates)
unfolding plan
plan_sorts candidates = (
  Perm.trans (reverse_perm (plan_from [] candidates))
      (rw (append-nil candidates) at (plan_from-perm [] candidates)),
  Pairwise.imp {R = λ a b. goes_before b a ≡ false} {S = InOrder} in_order (
      (Pairwise-reverse (λ a b. Bool-set (goes_before b a) false) {l = plan_from [] candidates}).1
        (plan_from-Backwards [] candidates Pairwise.nil)),
)
