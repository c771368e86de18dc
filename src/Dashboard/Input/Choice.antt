-- ===== src/Dashboard/Input/Choice.antt =====
-- Which device `input_open` of the dashboard's input.c chooses.
use vita_linux_next.Prelude.{
  ℕ, zero, suc, ◌+◌, ◌≤◌, ◌<◌, ◌≡◌, ◌≢◌, refl, sym, ap, ◌∙◌, true, false, List, [], ◌∷◌, Option,
  none, some, arith, ◌==◌, Status, ok, fail, length, Bool-cases, inl, inr,
}
use vita_linux_next.Prelude.Int.{pos}
use vita_linux_next.Dashboard.Texts.{streq}
use vita_linux_next.Dashboard.Input.{
  Reader, Tree, matched, opened, chosen, candidate, claimed, search_from, input_open, read_text,
  input_text,
}

pub streq_eq : (a b : List ℕ) → streq a b ≡ true → a ≡ b
unfolding streq
streq_eq [] [] e = refl
streq_eq [] (_ ∷ _) e = cc
streq_eq (_ ∷ _) [] e = cc
streq_eq (a ∷ more) (b ∷ bs) e = elim (Bool-cases (streq more bs)) [
  | inl h ↦ let q = streq_eq more bs h in ground (arith, h)
  | inr h ↦ ground (arith, h)
]

pub streq_refl : (a : List ℕ) → streq a a ≡ true
unfolding streq
streq_refl [] = refl
streq_refl (a ∷ more) = let e : (a == a) ≡ true = ground arith in rw (e, streq_refl more) refl

-- What a chosen device is.
pub record IsFirst (tree : Tree) (wanted : List ℕ) (from number : ℕ) (found : List ℕ × ℕ)
    : Type 0 where
  pub after : from ≤ number
  pub fits : candidate tree wanted number ≡ some found
  pub skipped : (k : ℕ) → from ≤ k → k < number → candidate tree wanted k ≡ none

abbrev Chooses : Tree → List ℕ → ℕ → ℕ → Reader × Status → Type 0
Chooses tree wanted left from (r, ok) =
    (number : ℕ) × (found : List ℕ × ℕ) × (number < from + left)
    × IsFirst tree wanted from number found
    × (r ≡ claimed tree number found)
Chooses tree wanted left from (r, fail) =
    (k : ℕ) → from ≤ k → k < from + left → candidate tree wanted k ≡ none

later :
    (tree : Tree) (wanted : List ℕ) (left from : ℕ) (r : Reader × Status)
    → candidate tree wanted from ≡ none
    → Chooses tree wanted left (from + 1) r
    → Chooses tree wanted (suc left) from r
later tree wanted left from (r, ok) e (number, found, lt, first, q) = (
  number,
  found,
  omega arith,
  record {
    after = omega (arith, first.after);
    fits = first.fits;
    skipped = λ k a b. elim (Bool-cases (k == from)) [
      | inl h ↦ let w : k ≡ from = ground arith in ap (candidate tree wanted) w ∙ e
      | inr h ↦ first.skipped k (ground arith) b
    ];
  },
  q,
)
later tree wanted left from (r, fail) e all = λ k a b. elim (Bool-cases (k == from)) [
  | inl h ↦ let w : k ≡ from = ground arith in ap (candidate tree wanted) w ∙ e
  | inr h ↦ all k (ground arith) (omega arith)
]

chosen-Chooses :
    (tree : Tree) (wanted : List ℕ) (left from : ℕ) (rest : Reader × Status)
    (c : Option (List ℕ × ℕ))
    → candidate tree wanted from ≡ c
    → Chooses tree wanted left (from + 1) rest
    → Chooses tree wanted (suc left) from (chosen tree from rest c)
chosen-Chooses tree wanted left from rest none e h = later tree wanted left from rest e h
chosen-Chooses tree wanted left from rest (some found) e h = (
  from,
  found,
  omega arith,
  record { after = omega arith; fits = e; skipped = λ k a b. absurd (omega arith) },
  refl,
)

search_from-Chooses :
    (tree : Tree) (wanted : List ℕ) (left from : ℕ)
    → Chooses tree wanted left from (search_from tree wanted left from)
unfolding search_from
search_from-Chooses tree wanted zero from = λ k a b. absurd (omega arith)
search_from-Chooses tree wanted (suc left) from =
    chosen-Chooses tree wanted left from (search_from tree wanted left (from + 1))
      (candidate tree wanted from) refl (search_from-Chooses tree wanted left (from + 1))

opened_parts :
    (phys : List ℕ) (opening : Option ℕ) (found : List ℕ × ℕ)
    → opened phys opening ≡ some found
    → (phys ≡ found.0) × (opening ≡ some found.1)
opened_parts phys none found e = cc
opened_parts phys (some fd) found e = (cc, cc)

matched_identity :
    (wanted : List ℕ) (opening : Option ℕ) (text : Option (List ℕ)) (found : List ℕ × ℕ)
    → matched wanted opening text ≡ some found
    → (text ≡ some wanted) × (found.0 ≡ wanted) × (opening ≡ some found.1)
matched_identity wanted opening none found e = cc
matched_identity wanted opening (some phys) found e = elim (Bool-cases (streq phys wanted)) [
  | inl h ↦
      let q = streq_eq phys wanted h in
      let p = opened_parts phys opening found (rw h at e) in (ap some q, sym p.0 ∙ q, p.1)
  | inr h ↦ cc (rw h at e)
]

-- What a search that succeeds gives.
pub record IsChoice (tree : Tree) (wanted : List ℕ) (number : ℕ) (r : Reader) : Type 0 where
  pub low : number < 128
  pub identity : read_text input_text (tree.phys_file number) ≡ some wanted
  pub descriptor : (fd : ℕ) × (tree.opening number ≡ some fd) × (r.fd ≡ pos fd)
  pub numbered : r.number ≡ number
  pub skipped :
      (k : ℕ)
      → k < number
      → read_text input_text (tree.phys_file k) ≡ some wanted
      → tree.opening k ≡ none

passed_over :
    (wanted : List ℕ) (opening : Option ℕ) (text : Option (List ℕ))
    → matched wanted opening text ≡ none
    → text ≡ some wanted
    → opening ≡ none
passed_over wanted none text e h = refl
passed_over wanted (some fd) none e h = cc
passed_over wanted (some fd) (some phys) e h =
    let q : phys ≡ wanted = cc in
    let m : streq phys wanted ≡ true = rw q (streq_refl wanted) in cc (rw m at e)

IsChoice-of :
    (tree : Tree) (wanted : List ℕ) (r : Reader × Status)
    → Chooses tree wanted 128 0 r
    → r.1 ≡ ok
    → (number : ℕ) × IsChoice tree wanted number r.0
IsChoice-of tree wanted (r, fail) c e = cc
IsChoice-of tree wanted (r, ok) (number, (identity, fd), lt, first, q) e =
    let m =
      matched_identity wanted (tree.opening number) (read_text input_text (tree.phys_file number))
        (identity, fd) (unfold candidate in first.fits) in
    (
      number,
      record {
        low = omega arith;
        identity = m.0;
        descriptor = (fd, m.2, ap (λ (s : Reader). s.fd) q ∙ unfold claimed in refl);
        numbered = ap (λ (s : Reader). s.number) q ∙ unfold claimed in refl;
        skipped = λ k lt' same.
            passed_over wanted (tree.opening k) (read_text input_text (tree.phys_file k))
              (unfold candidate in first.skipped k (omega arith) lt') same;
      },
    )

miss_of :
    (tree : Tree) (wanted : List ℕ) (r : Reader × Status) (k : ℕ)
    → Chooses tree wanted 128 0 r
    → r.1 ≡ fail
    → k < 128
    → candidate tree wanted k ≡ none
miss_of tree wanted (r, ok) k c e lt = cc
miss_of tree wanted (r, fail) k c e lt = c k (omega arith) (omega arith)

-- A search that returns 0 has opened the first event node below 128 whose `phys` is exactly the wanted
-- identity and which can be opened; each node before it has another identity or cannot be opened.
pub input_open-IsChoice :
    (tree : Tree) (wanted : List ℕ)
    → (input_open tree (some wanted)).1 ≡ ok
    → (number : ℕ) × IsChoice tree wanted number (input_open tree (some wanted)).0
unfolding input_open
input_open-IsChoice tree wanted e = elim (Bool-cases (length wanted == 0)) [
  | inl h ↦ cc (rw h at e)
  | inr h ↦ rw h (
      IsChoice-of tree wanted (search_from tree wanted 128 0)
        (search_from-Chooses tree wanted 128 0) (rw h at e))
]

nonempty : (l : List ℕ) → l ≢ [] → (length l == 0) ≡ false
nonempty [] h = absurd (h refl)
nonempty (x ∷ l) h = ground arith

-- A search for a text that is not empty fails only if no event node below 128 both has the wanted
-- identity and can be opened.
pub input_open_misses :
    (tree : Tree) (wanted : List ℕ) (k : ℕ)
    → (input_open tree (some wanted)).1 ≡ fail
    → wanted ≢ []
    → k < 128
    → read_text input_text (tree.phys_file k) ≡ some wanted
    → tree.opening k ≡ none
unfolding input_open
input_open_misses tree wanted k e w lt h =
    let n : (length wanted == 0) ≡ false = nonempty wanted w in
    passed_over wanted (tree.opening k) (read_text input_text (tree.phys_file k))
      (unfold candidate in
        miss_of tree wanted (search_from tree wanted 128 0) k
          (search_from-Chooses tree wanted 128 0) (rw n at e) lt)
      h
