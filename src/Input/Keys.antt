-- ===== src/Input/Keys.antt =====
-- The held keys of a source of cart/src/input_evdev.c, as a set of codes.
use vita_linux_next.Prelude.{
  ℕ, zero, suc, ◌-◌, ◌*◌, ◌^◌, ◌≤◌, ◌<◌, ◌≡◌, refl, ◌∙◌, ap, true, List, arith, ltb, ==_iff, ◌==◌,
  if◌then◌else◌,
}
use vita_linux_next.Prelude.Int.{ℤ}
use vita_linux_next.Prelude.Bits.{bit, bit-le, bit-bit_or, bit-bit_and, bit-pow, bit-zero}
use vita_linux_next.Prelude.Loops.{for_from-keeps, all_below, all_below_sound}
use vita_linux_next.Input.Defs.{hold_key, is_zero, bit_test, merged_keys}

-- `~(1 << code)` misses bit `code` alone, checked at all codes and bits.
mask_table :
    all_below 64
      (λ code. all_below 64 (λ d. bit d (2 ^ 64 - 1 - 2 ^ code) == (if d == code then 0 else 1)))
    ≡ true
unfolding all_below bit
mask_table = refl

mask_bits :
    (code d : ℕ) → code < 64 → d < 64 → bit d (2 ^ 64 - 1 - 2 ^ code) ≡ (if d == code then 0 else 1)
mask_bits code d h k =
    (==_iff _ _).0 (all_below_sound 64 _ d (all_below_sound 64 _ code mask_table h) k)

-- Of the 64 keys that a source tracks, an event changes its own alone: a release (0) clears it, and
-- a press, a repeat or any other value sets it. An event of a code from 64 on changes none.
pub hold_key_bits :
    (held code d : ℕ) (value : ℤ)
    → d < 64
    → bit d (hold_key held code value)
      ≡ (if d == code then (if is_zero value then 0 else 1) else bit d held)
unfolding hold_key
hold_key_bits held code d value h = ground (
  arith,
  mask_bits code d,
  bit-bit_and d held (2 ^ 64 - 1 - 2 ^ code),
  bit-bit_or d held (2 ^ code),
  bit-pow d code,
  bit-le d held,
)

bit_test-le : (state : List ℕ) (d : ℕ) → bit_test state d ≤ 1
unfolding bit_test
bit_test-le state d = omega arith

scaled_bit : (b d code : ℕ) → b ≤ 1 → bit d (b * 2 ^ code) ≡ (if d == code then b else 0)
scaled_bit zero d code h =
    let e : 0 * 2 ^ code ≡ 0 = omega arith in ap (bit d) e ∙ bit-zero d ∙ ground arith
scaled_bit (suc zero) d code h =
    let e : 1 * 2 ^ code ≡ 2 ^ code = omega arith in ap (bit d) e ∙ bit-pow d code
scaled_bit (suc (suc b)) d code h = absurd (omega arith)

-- After a desync the held keys are exactly those of the first 64 that the device reports as down.
pub merged_keys_bits :
    (state : List ℕ) (d : ℕ) → d < 64 → bit d (merged_keys state) ≡ bit_test state d
unfolding merged_keys
merged_keys_bits state d h =
    for_from-keeps (λ k m. (e : ℕ) → bit e m ≡ (if ltb e k then bit_test state e else 0)) _ 64 0 64
      0 (omega arith)
      (λ k m _ _ before e. ground (
        arith,
        before e,
        bit-bit_or e m (bit_test state k * 2 ^ k),
        scaled_bit (bit_test state k) e k (bit_test-le state k),
      ))
      (λ e. bit-zero e ∙ ground arith) d
    ∙ ground arith
