-- ===== src/Workers/Bands.antt =====
-- The bands of rows that a dispatch of cart/src/worker_pool.c hands out.
use native.Mathlib.Nat.{le-div_iff_mul-le, div-lt_iff_lt-mul}
use vita_linux_next.Prelude.{
  ℕ, ◌+◌, ◌-◌, ◌*◌, ◌/◌, ◌^◌, ◌≤◌, ◌<◌, ◌≡◌, refl, ◌∙◌, ap, inl, inr, Bool, true, false, List, [],
  ◌∷◌, arith, ltb, leb, ◌==◌, ◌&&◌, if◌then◌else◌, map, ok, Bool-cases,
}
use vita_linux_next.Prelude.Int.{pos, leb_ℤ, ltb_ℤ}
use vita_linux_next.Input.Probe.{wrap_int32_small}
use vita_linux_next.Workers.{Pool, Band, quotient, row_of, band_of, published, dispatch}

-- How many bands of a list have the row, and how often a list has an index.
pub covered : ℕ → List Band → ℕ
covered row [] = 0
covered row (b ∷ bands) =
    (if leb_ℤ b.row_start (pos row) && ltb_ℤ (pos row) b.row_end then 1 else 0) + covered row bands

unfoldable pub occurs : ℕ → List ℕ → ℕ
occurs i [] = 0
occurs i (j ∷ js) = (if i == j then 1 else 0) + occurs i js

-- The worker that has a row.
abbrev owner : ℕ → ℕ → ℕ → ℕ
owner rows count row = ((row + 1) * count - 1) / rows

owner_iff :
    (rows count row index : ℕ)
    → 0 < count
    → 0 < rows
    → (leb (index * rows / count) row && ltb row ((index + 1) * rows / count))
      ≡ (owner rows count row == index)
owner_iff rows count row index c r =
    let starts = div-lt_iff_lt-mul {k = count} {x = index * rows} {y = row + 1} c in
    let ends = le-div_iff_mul-le {k = count} {x = row + 1} {y = (index + 1) * rows} c in
    let below = le-div_iff_mul-le {k = rows} {x = index} {y = (row + 1) * count - 1} r in
    let above = div-lt_iff_lt-mul {k = rows} {x = (row + 1) * count - 1} {y = index + 1} r in
    let positive : 0 < (row + 1) * count = grind arith in
    ground (arith, starts, ends, below, above, positive)

owner_known :
    (rows count row : ℕ) → 0 < count → 0 < rows → ltb (owner rows count row) count ≡ ltb row rows
owner_known rows count row c r =
    let inside : row < rows → (row + 1) * count ≤ count * rows = λ h. grind arith in
    let outside : rows ≤ row → count * rows + count ≤ (row + 1) * count = λ h. grind arith in
    let positive : 0 < (row + 1) * count = grind arith in
    let below = div-lt_iff_lt-mul {k = rows} {x = (row + 1) * count - 1} {y = count} r in
    ground (arith, inside, outside, positive, below)

-- Without an overflow the rows of the bands are those of unbounded numbers.
row_of_small :
    (p : Pool) (index : ℕ)
    → index ≤ p.worker_count
    → p.worker_count * p.rows < 2 ^ 31
    → row_of p index ≡ pos (index * p.rows / p.worker_count)
unfolding row_of quotient
row_of_small p index h small =
    let n : index * p.rows < 2 ^ 31 = grind arith in rw (wrap_int32_small (index * p.rows) n) refl

between :
    (a b row : ℕ) → (leb_ℤ (pos a) (pos row) && ltb_ℤ (pos row) (pos b)) ≡ (leb a row && ltb row b)
between a b row = ground arith

occurs_later : (i j : ℕ) (order : List ℕ) → occurs i order ≤ occurs i (j ∷ order)
unfolding occurs
occurs_later i j order = ground arith

occurs_first : (i : ℕ) (order : List ℕ) → 0 < occurs i (i ∷ order)
unfolding occurs
occurs_first i order = ground arith

covered-bands :
    (p : Pool) (row : ℕ) (order : List ℕ)
    → 0 < p.worker_count
    → 0 < p.rows
    → p.worker_count * p.rows < 2 ^ 31
    → ((i : ℕ) → 0 < occurs i order → i < p.worker_count)
    → covered row (map (band_of p) order) ≡ occurs (owner p.rows p.worker_count row) order
unfolding covered occurs band_of
covered-bands p row [] c r small known = refl
covered-bands p row (i ∷ order) c r small known =
    let inside = known i (occurs_first i order) in
    let start = row_of_small p i (omega arith) small in
    let end_ = row_of_small p (i + 1) (omega arith) small in
    rw
      (
        start,
        end_,
        between (i * p.rows / p.worker_count) ((i + 1) * p.rows / p.worker_count) row,
        owner_iff p.rows p.worker_count row i c r,
        covered-bands p row order c r small
            (λ j h. known j (omega (arith, occurs_later j i order))),
      )
      refl

published-covered :
    (p : Pool) (order : List ℕ) (slots : ℕ → ℕ) (generation row : ℕ)
    → 0 < p.rows
    → p.worker_count * p.rows < 2 ^ 31
    → ((i : ℕ) → occurs i order ≡ (if ltb i p.worker_count then 1 else 0))
    → (p.worker_count == 0) ≡ false
    → covered row (map (band_of (published p slots generation)) order)
      ≡ (if ltb row p.rows then 1 else 0)
unfolding published
published-covered p order slots generation row some_row small once threaded =
    covered-bands (published p slots generation) row order (ground arith) some_row small
      (λ i h. ground (arith, once i, h))
    ∙ once (owner p.rows p.worker_count row)
    ∙ ap (λ (b : Bool). if b then 1 else 0)
        (owner_known p.rows p.worker_count row (ground arith) some_row)

-- A dispatch to an active pool, whose rows times its workers are below 2 ^ 31, succeeds, and its job
-- sees every row of the frame exactly once, in whatever order the workers run, if each of them runs
-- once; no band has a row beyond the frame.
pub dispatch_rows :
    (p : Pool) (order : List ℕ) (slots : ℕ → ℕ) (generation row : ℕ)
    → p.active ≡ true
    → 0 < p.rows
    → p.worker_count * p.rows < 2 ^ 31
    → ((i : ℕ) → occurs i order ≡ (if ltb i p.worker_count then 1 else 0))
    → ((dispatch p order slots generation).0 ≡ ok)
      × (covered row (dispatch p order slots generation).2 ≡ (if ltb row p.rows then 1 else 0))
unfolding dispatch
dispatch_rows p order slots generation row active some_row small once =
    elim (Bool-cases (p.worker_count == 0)) [
      | inl inline ↦ simp (active, inline) (refl, unfold covered in ground arith)
      | inr threaded ↦
          simp (active, threaded)
            (refl, published-covered p order slots generation row some_row small once threaded)
    ]
