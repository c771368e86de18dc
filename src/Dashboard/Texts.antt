-- ===== src/Dashboard/Texts.antt =====
-- The bounded strings of fb_owner.c and input.c in toolkit/examples/vita-dashboard/src, and `streq`
-- of main.c. A string is the list of its bytes before the NUL, and NULL is `none`.
use vita_linux_next.Prelude.{
  ℕ, zero, suc, ◌+◌, ◌-◌, ◌<◌, ◌≡◌, inl, inr, refl, sym, Bool, true, false, ◌&&◌, List, [], ◌∷◌,
  ◌++◌, Option, none, some, arith, ltb, ◌==◌, if◌then◌else◌, length, take, ap, Bool-cases, ltb→ge,
  ltb→lt,
}

-- The loop that copies a string behind the first `i` bytes of a buffer of `cap` bytes.
unfoldable pub copied : ℕ → ℕ → List ℕ → List ℕ
copied size i [] = []
copied size i (c ∷ src) =
    let rest = copied size (i + 1) src in if ltb (i + 1) size then c ∷ rest else []

-- `sset` of fb_owner.c: what the buffer holds afterwards.
unfoldable pub sset : ℕ → List ℕ → Option (List ℕ) → List ℕ
sset size dst none = if size == 0 then dst else []
sset size dst (some src) = if size == 0 then dst else copied size 0 src

unfoldable pub sappend : ℕ → List ℕ → Option (List ℕ) → List ℕ
sappend size dst none = dst
sappend size dst (some src) = dst ++ copied size (length dst) src

unfoldable pub join : ℕ → List ℕ → Option (List ℕ) → List ℕ → List ℕ
join size dst none tail = sappend size (sset size dst (some [])) (some tail)
join size dst (some root) tail = sappend size (sset size dst (some root)) (some tail)

-- `streq` of main.c.
unfoldable pub streq : List ℕ → List ℕ → Bool
streq [] [] = true
streq [] (_ ∷ _) = false
streq (_ ∷ _) [] = false
streq (a ∷ more) (b ∷ bs) = let rest = streq more bs in a == b && rest

take_nil : (n : ℕ) → ◌≡◌ {A = List ℕ} (take n []) []
take_nil zero = refl
take_nil (suc n) = refl

-- The loop keeps the bytes for which the buffer has room.
pub copied-take : (size i : ℕ) (src : List ℕ) → copied size i src ≡ take (size - 1 - i) src
unfolding copied
copied-take size i [] = sym (take_nil (size - 1 - i))
copied-take size i (c ∷ src) = elim (Bool-cases (ltb (i + 1) size)) [
  | inl e ↦
      let d : size - 1 - i ≡ suc (size - 1 - (i + 1)) = omega (arith, ltb→lt (i + 1) size e) in
      rw (e, d) (ap (λ (l : List ℕ). c ∷ l) (copied-take size (i + 1) src))
  | inr e ↦ let d : size - 1 - i ≡ 0 = omega (arith, ltb→ge (i + 1) size e) in rw (e, d) refl
]

take-append_cut :
    (n : ℕ) (root tail : List ℕ)
    → take n root ++ take (n - length (take n root)) tail ≡ take n (root ++ tail)
take-append_cut zero root tail = refl
take-append_cut (suc n) [] tail = let e : suc n - 0 ≡ suc n = omega arith in rw e refl
take-append_cut (suc n) (c ∷ root) tail =
    let e : suc n - suc (length (take n root)) ≡ n - length (take n root) = omega arith in
    rw e (ap (λ (l : List ℕ). c ∷ l) (take-append_cut n root tail))

-- A path is the root and the tail, cut to what the buffer holds beside the NUL.
pub join-take :
    (size : ℕ) (dst root tail : List ℕ)
    → 0 < size
    → join size dst (some root) tail ≡ take (size - 1) (root ++ tail)
unfolding join sappend sset
join-take size dst root tail room =
    let e : (size == 0) ≡ false = ground arith in
    let d : size - 1 - 0 ≡ size - 1 = omega arith in
    rw (e, copied-take size 0 root, d, copied-take size (length (take (size - 1) root)) tail)
      (take-append_cut (size - 1) root tail)
