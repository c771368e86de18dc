-- ===== src/Canvas/Sweep.antt =====
-- What the double loop of cart/src/canvas.c leaves at every index of the pixel buffer.
use native.Mathlib.Nat.{mul-add-div_right, div-eq_of_lt, div-add-mod', mul-le-mul_right}
use vita_linux_next.Prelude.{
  ℕ, suc, ◌+◌, ◌-◌, ◌*◌, ◌/◌, ◌%◌, ◌≤◌, ◌<◌, ◌≡◌, ◌↔◌, ◌∙◌, ap, Bool, arith, ltb, leb, ◌&&◌,
  if◌then◌else◌,
}
use vita_linux_next.Prelude.Loops.{for_from, for_from-keeps}
use vita_linux_next.Canvas.Defs.{size_mod, Pixels, store, address, sweep}

-- A pixel has one row and one column.
pub address_iff :
    (stride row column a : ℕ)
    → column < stride
    → row * stride + column < size_mod
    → (a ≡ address stride row column) ↔ ((a / stride ≡ row) × (a % stride ≡ column))
address_iff stride row column a h fits = (to, from)
  where
    e : address stride row column ≡ row * stride + column
    e = omega arith

    q : (row * stride + column) / stride ≡ row
    q = mul-add-div_right {m = stride} (omega arith) row column ∙ omega (arith, div-eq_of_lt h)

    to : a ≡ address stride row column → (a / stride ≡ row) × (a % stride ≡ column)
    to p =
        let a-eq : a ≡ row * stride + column = omega (arith, p, e) in
        rw a-eq
          (q, omega (arith, q, ap (λ k. k * stride) q, div-add-mod' (row * stride + column) stride))

    from : (a / stride ≡ row) × (a % stride ≡ column) → a ≡ address stride row column
    from (p, r) = omega (arith, e, r, ap (λ k. k * stride) p, div-add-mod' a stride)

-- The indices that the double loop writes: those of the rows and columns in range that pass.
abbrev pub painted : (ℕ → ℕ → Bool) → ℕ → ℕ → ℕ → ℕ → ℕ → ℕ → Bool
painted test stride left right top bottom a =
    leb top (a / stride)
    && ltb (a / stride) bottom
    && (leb left (a % stride) && ltb (a % stride) right && test (a / stride) (a % stride))

module _ (test : ℕ → ℕ → Bool) (stride color left right : ℕ) (in_row : right ≤ stride)
    (p : Pixels) where
  -- The row so far.
  Row : Pixels → ℕ → ℕ → Pixels → Type 0
  Row before row k q =
      (a : ℕ) → q a ≡ (if painted test stride left k row (row + 1) a then color else before a)

  Row-step :
      (before : Pixels) (row k : ℕ) (q : Pixels)
      → left ≤ k
      → k < right
      → row * stride + stride ≤ size_mod
      → Row before row k q
      → Row before row (k + 1) (if test row k then store q (address stride row k) color else q)
  unfolding Row
  Row-step before row k q lo hi fits h a =
      ground (arith, h a, address_iff stride row k a (omega arith) (omega arith))

  Row-sweep :
      (before : Pixels) (row : ℕ)
      → left ≤ right
      → row * stride + stride ≤ size_mod
      → Row before row right (
          for_from
            (right - left)
            left
            (λ column r. if test row column then store r (address stride row column) color else r)
            before)
  unfolding Row
  Row-sweep before row h fits =
      for_from-keeps (Row before row) _ (right - left) left right before (omega arith)
        (λ k q lo hi. Row-step before row k q lo hi fits) (λ a. ground arith)

  -- The rows so far.
  Rows : ℕ → ℕ → Pixels → Type 0
  Rows top k q = (a : ℕ) → q a ≡ (if painted test stride left right top k a then color else p a)

  Rows-step :
      (top k : ℕ) (q r : Pixels) → top ≤ k → Rows top k q → Row q k right r → Rows top (k + 1) r
  unfolding Row Rows
  Rows-step top k q r lo h h' a = ground (arith, h a, h' a)

  -- After the double loop the pixels in range that pass the test have the colour, and every other
  -- index of the buffer is as before.
  pub sweep_lem :
      (top bottom a : ℕ)
      → left ≤ right
      → top ≤ bottom
      → bottom * stride ≤ size_mod
      → sweep test stride color left right top bottom p a
        ≡ (if painted test stride left right top bottom a then color else p a)
  unfolding sweep Rows
  sweep_lem top bottom a h v fits =
      for_from-keeps (Rows top) _ (bottom - top) top bottom p (omega arith)
        (λ k q lo hi rows. Rows-step top k q _ lo rows (Row-sweep q k h (row_fits k hi)))
        (λ b. ground arith) a
    where
      row_fits : (k : ℕ) → k < bottom → k * stride + stride ≤ size_mod
      row_fits k hi = omega (arith, mul-le-mul_right {m = suc k} {n = bottom} stride hi)
