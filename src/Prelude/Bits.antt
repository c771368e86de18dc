-- ===== src/Prelude/Bits.antt =====
-- Single bits of a word, and `|` and `&` of C through them.
use Prim.Native.Nat.{max, min, bit_or, bit_and, digits, bitwise, bit_or-bitwise, bit_and-bitwise}
use native.Mathlib.Nat.{pow-suc, div-div-eq-div-mul, div-one}
use vita_linux_next.Prelude.{
  ℕ, zero, suc, ◌+◌, ◌-◌, ◌*◌, ◌/◌, ◌%◌, ◌^◌, ◌≤◌, ◌<◌, ◌≡◌, refl, ap, ◌∙◌, arith, ◌==◌,
  if◌then◌else◌,
}

-- The native operations recurse on binary digits with fuel; more fuel than needed changes nothing.
module _ (z : ℕ → ℕ) (f : ℕ → ℕ → ℕ) where
  once : (n a b : ℕ) → a ≤ n → digits z f (suc n) a b ≡ digits z f n a b
  once zero zero b h = refl
  once (suc n) zero b h = refl
  once zero (suc a) b h = elim h [ ]
  once (suc n) (suc a) b h = rw (once n (suc a / 2) (b / 2) (omega arith)) refl

  slack : (k n m a b : ℕ) → k + n ≡ m → a ≤ n → digits z f m a b ≡ digits z f n a b
  slack zero n m a b e h = let e' : n ≡ m = omega arith in rw (← e') refl
  slack (suc k) n m a b e h = slack k (suc n) m a b (omega arith) (omega arith) ∙ once n a b h

  halved :
      (op : ℕ → ℕ → ℕ)
      → ((a b : ℕ) → op a b ≡ bitwise z f a b)
      → (a b : ℕ) → op (suc a) b ≡ op (suc a / 2) (b / 2) * 2 + f (suc a % 2) (b % 2)
  halved op native a b = omega (
    arith,
    native (suc a) b,
    native (suc a / 2) (b / 2),
    slack (a - suc a / 2) (suc a / 2) a (suc a / 2) (b / 2) (omega arith) (omega arith),
  )

zero-bit_or : (b : ℕ) → bit_or 0 b ≡ b
zero-bit_or b = simp bit_or-bitwise refl

zero-bit_and : (b : ℕ) → bit_and 0 b ≡ 0
zero-bit_and b = simp bit_and-bitwise refl

pub bit_or_halved : (a b : ℕ) → bit_or a b ≡ bit_or (a / 2) (b / 2) * 2 + max (a % 2) (b % 2)
bit_or_halved zero b = omega (arith, zero-bit_or b, zero-bit_or (b / 2))
bit_or_halved (suc a) b = halved (λ y. y) max bit_or bit_or-bitwise a b

pub bit_and_halved : (a b : ℕ) → bit_and a b ≡ bit_and (a / 2) (b / 2) * 2 + min (a % 2) (b % 2)
bit_and_halved zero b = omega (arith, zero-bit_and b, zero-bit_and (b / 2))
bit_and_halved (suc a) b = halved (λ _. zero) min bit_and bit_and-bitwise a b

-- Bit `i` of a word, as 0 or 1.
unfoldable pub bit : ℕ → ℕ → ℕ
bit zero n = n % 2
bit (suc i) n = bit i (n / 2)

pub bit-le : (i n : ℕ) → bit i n ≤ 1
unfolding bit
bit-le zero n = omega arith
bit-le (suc i) n = bit-le i (n / 2)

-- `(n >> i) & 1`.
pub bit-shift : (i n : ℕ) → bit i n ≡ (n / 2 ^ i) % 2
unfolding bit
bit-shift zero n = rw div-one refl
bit-shift (suc i) n =
    bit-shift i (n / 2)
    ∙ ap (λ k. k % 2)
        (div-div-eq-div-mul n 2 (2 ^ i) ∙ ap (λ k. n / k) (omega (arith, pow-suc 2 i)))

pub bit-bit_or : (i a b : ℕ) → bit i (bit_or a b) ≡ max (bit i a) (bit i b)
unfolding bit
bit-bit_or zero a b = omega (arith, bit_or_halved a b)
bit-bit_or (suc i) a b =
    let e : bit_or a b / 2 ≡ bit_or (a / 2) (b / 2) = omega (arith, bit_or_halved a b) in
    rw e (bit-bit_or i (a / 2) (b / 2))

pub bit-bit_and : (i a b : ℕ) → bit i (bit_and a b) ≡ min (bit i a) (bit i b)
unfolding bit
bit-bit_and zero a b = omega (arith, bit_and_halved a b)
bit-bit_and (suc i) a b =
    let e : bit_and a b / 2 ≡ bit_and (a / 2) (b / 2) = omega (arith, bit_and_halved a b) in
    rw e (bit-bit_and i (a / 2) (b / 2))

pub bit-zero : (i : ℕ) → bit i 0 ≡ 0
unfolding bit
bit-zero zero = refl
bit-zero (suc i) = bit-zero i

-- `1 << k` has bit `k` and no other.
pub bit-pow : (i k : ℕ) → bit i (2 ^ k) ≡ (if i == k then 1 else 0)
unfolding bit
bit-pow zero zero = refl
bit-pow zero (suc k) = ground (arith, pow-suc 2 k)
bit-pow (suc i) zero = bit-zero i ∙ ground arith
bit-pow (suc i) (suc k) =
    let e : 2 ^ suc k / 2 ≡ 2 ^ k = omega (arith, pow-suc 2 k) in rw e (bit-pow i k ∙ ground arith)

mul-pow-suc : (b k : ℕ) → b * 2 ^ suc k ≡ 2 * (b * 2 ^ k)
mul-pow-suc b k = omega (arith, ap (λ (t : ℕ). b * t) (pow-suc 2 k))

-- `a | (b << k)` is a sum where `a` has `k` bits at most.
pub bit_or_disjoint : (k a b : ℕ) → a < 2 ^ k → bit_or a (b * 2 ^ k) ≡ a + b * 2 ^ k
bit_or_disjoint zero a b h = let e : a ≡ 0 = omega arith in rw (e, zero-bit_or) (omega arith)
bit_or_disjoint (suc k) a b h =
    let halves : a / 2 < 2 ^ k = omega (arith, pow-suc 2 k) in
    let m = mul-pow-suc b k in
    let e : b * 2 ^ suc k / 2 ≡ b * 2 ^ k = omega (arith, m) in
    let ih : bit_or (a / 2) (b * 2 ^ suc k / 2) ≡ a / 2 + b * 2 ^ k =
      rw e (bit_or_disjoint k (a / 2) b halves) in
    omega (arith, bit_or_halved a (b * 2 ^ suc k), ih, m)
