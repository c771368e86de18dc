-- ===== src/Dashboard/Owner/Frame/Whole.antt =====
-- A frame of fb_owner.c is written whole: the loop over short writes and EINTR.
use vita_linux_next.Prelude.{
  ℕ, suc, ◌+◌, ◌-◌, ◌≤◌, ◌<◌, ◌≡◌, refl, ap, false, not, List, [], ◌∷◌, some, arith, ltb, ◌==◌, inl,
  inr, if_holds, Bool-cases, ltb→ge, ==_iff,
}
use vita_linux_next.Dashboard.Owner.{System, OwnerState, idle, probed, owned, released, failed}
use vita_linux_next.Dashboard.Owner.Frame.{
  Written, took, interrupted, broken, Outcome, left_after, write_failed, waiting, write_all,
  put_bytes, write_frame, send_frame, finish_frame, Opening, no_open, no_seek, opened, done, lesser,
  is_owned,
}

-- Every write takes something or is interrupted.
abbrev pub IsProgress : List Written → Type 0
IsProgress [] = Unit {0}
IsProgress (took n ∷ more) = (0 < n) × IsProgress more
IsProgress (interrupted ∷ more) = IsProgress more
IsProgress (broken ∷ more) = ⊥

abbrev pub writes : List Written → ℕ
writes [] = 0
writes (took n ∷ more) = suc (writes more)
writes (interrupted ∷ more) = writes more
writes (broken ∷ more) = writes more

module _ (frame : ℕ → ℕ) (len : ℕ) where
  -- Where the loop may stand: it has written `count` bytes over what the screen showed.
  record IsPrefix (old screen : ℕ → ℕ) (count : ℕ) : Type 0 where
    within : count ≤ len
    below : (i : ℕ) → i < count → screen i ≡ frame i
    above : (i : ℕ) → count ≤ i → screen i ≡ old i

  abbrev Leaves : (ℕ → ℕ) → Outcome × (ℕ → ℕ) → Type 0
  Leaves old (left_after count, screen) = IsPrefix old screen count
  Leaves old (write_failed, screen) = Unit {0}
  Leaves old (waiting, screen) = Unit {0}

  put_bytes-IsPrefix :
      (old screen : ℕ → ℕ) (count chunk : ℕ)
      → count + chunk ≤ len
      → IsPrefix old screen count
      → IsPrefix old (put_bytes frame count chunk screen) (count + chunk)
  unfolding put_bytes
  put_bytes-IsPrefix old screen count chunk room h = record {
    within = room;
    below = λ i lt. ground (arith, h.below i);
    above = λ i le. ground (arith, h.above i);
  }

  write_all-Leaves :
      (answers : List Written) (old screen : ℕ → ℕ) (count : ℕ)
      → IsPrefix old screen count
      → Leaves old (write_all frame len answers count screen)
  unfolding write_all
  write_all-Leaves [] old screen count h =
      if_holds (Leaves old) (ltb count len) (waiting, screen) _ (λ e. tt) (λ e. h)
  write_all-Leaves (interrupted ∷ more) old screen count h =
      if_holds (Leaves old) (ltb count len) _ _ (λ e. write_all-Leaves more old screen count h)
        (λ e. h)
  write_all-Leaves (broken ∷ more) old screen count h =
      if_holds (Leaves old) (ltb count len) (write_failed, screen) _ (λ e. tt) (λ e. h)
  write_all-Leaves (took n ∷ more) old screen count h =
      if_holds (Leaves old) (not (ltb count len)) (left_after count, screen) _ (λ e. h)
        (λ e.
          if_holds (Leaves old) (lesser n (len - count) == 0) (left_after count, screen) _ (λ d. h)
            (λ d.
              write_all-Leaves more old (put_bytes frame count (lesser n (len - count)) screen)
                (count + lesser n (len - count))
                (put_bytes-IsPrefix old screen count (lesser n (len - count)) (ground arith) h)))

  write_all_ends :
      (answers : List Written) (count : ℕ) (screen : ℕ → ℕ)
      → IsProgress answers
      → count ≤ len
      → len ≤ count + writes answers
      → (write_all frame len answers count screen).0 ≡ left_after len
  unfolding write_all
  write_all_ends [] count screen p le ge =
      let e : ltb count len ≡ false = ground arith in
      let q : count ≡ len = omega arith in rw e (ap left_after q)
  write_all_ends (took n ∷ more) count screen p le ge = elim (Bool-cases (ltb count len)) [
    | inl e ↦
        let d : (lesser n (len - count) == 0) ≡ false = ground (arith, p.0) in
        rw (e, d)
          (write_all_ends more (count + lesser n (len - count))
            (put_bytes frame count (lesser n (len - count)) screen) p.1 (ground arith)
            (ground (arith, p.0)))
    | inr e ↦ let q : count ≡ len = omega (arith, ltb→ge count len e) in rw e (ap left_after q)
  ]
  write_all_ends (interrupted ∷ more) count screen p le ge = elim (Bool-cases (ltb count len)) [
    | inl e ↦ rw e (write_all_ends more count screen p le ge)
    | inr e ↦ let q : count ≡ len = omega (arith, ltb→ge count len e) in rw e (ap left_after q)
  ]
  write_all_ends (broken ∷ more) count screen p le ge = elim p [ ]

abbrev IsOwned : System → Type 0
IsOwned s = s.owner.state ≡ owned

-- What a frame that is done has shown.
pub record Shows (bytes : ℕ → ℕ) (s t : System) : Type 0 where
  pub before : s.owner.state ≡ owned
  pub after : t.owner.state ≡ owned
  pub inside : (i : ℕ) → i < s.owner.frame_bytes → t.machine.screen i ≡ bytes i
  pub outside : (i : ℕ) → s.owner.frame_bytes ≤ i → t.machine.screen i ≡ s.machine.screen i
  pub console : t.machine.console ≡ s.machine.console

finish_frame-Shows :
    (bytes : ℕ → ℕ) (s : System) (r : Outcome × (ℕ → ℕ))
    → s.owner.state ≡ owned
    → Leaves bytes s.owner.frame_bytes s.machine.screen r
    → (finish_frame s s.owner.frame_bytes r).1 ≡ done
    → Shows bytes s (finish_frame s s.owner.frame_bytes r).0
unfolding finish_frame
finish_frame-Shows bytes s (waiting, screen) o h e = cc
finish_frame-Shows bytes s (write_failed, screen) o h e = cc
finish_frame-Shows bytes s (left_after count, screen) o h e =
    elim (Bool-cases (count == s.owner.frame_bytes)) [
      | inr d ↦ cc
      | inl d ↦
          let q : count ≡ s.owner.frame_bytes = (==_iff count s.owner.frame_bytes).0 d in
          rw d (record {
            before = o;
            after = o;
            inside = λ i lt. h.below i (rw q lt);
            outside = λ i le. h.above i (rw q le);
            console = refl;
          })
    ]

pub was_owned : (b : OwnerState) → not (is_owned b) ≡ false → b ≡ owned
was_owned owned e = refl
was_owned idle e = cc
was_owned probed e = cc
was_owned released e = cc
was_owned failed e = cc

send_frame-Shows :
    (bytes : ℕ → ℕ) (opening : Opening) (s : System)
    → s.owner.state ≡ owned
    → (send_frame bytes s.owner.frame_bytes opening s).1 ≡ done
    → Shows bytes s (send_frame bytes s.owner.frame_bytes opening s).0
unfolding send_frame
send_frame-Shows bytes no_open s o e = cc
send_frame-Shows bytes no_seek s o e = cc
send_frame-Shows bytes (opened answers) s o e =
    finish_frame-Shows bytes s _ o
      (write_all-Leaves bytes s.owner.frame_bytes answers s.machine.screen s.machine.screen 0
        (record {
          within = omega arith;
          below = λ i lt. absurd (omega arith);
          above = λ i le. refl;
        }))
      e

-- A call that returns 0 was given a frame of exactly `frame_bytes` bytes while the framebuffer was
-- owned. Every byte of the frame is then on the screen, nothing behind it has changed, and neither
-- have the state of the owner and the console, however the writes were cut short or interrupted.
pub write_frame-Shows :
    (bytes : ℕ → ℕ) (len : ℕ) (opening : Opening) (s : System)
    → (write_frame (some bytes) len opening s).1 ≡ done
    → (len ≡ s.owner.frame_bytes) × Shows bytes s (write_frame (some bytes) len opening s).0
unfolding write_frame
write_frame-Shows bytes len opening s e = elim (Bool-cases (not (is_owned s.owner.state))) [
  | inl h ↦ cc (rw h at e)
  | inr h ↦ elim (Bool-cases (not (len == s.owner.frame_bytes))) [
    | inl d ↦ cc (rw (h, d) at e)
    | inr d ↦
        let q : len ≡ s.owner.frame_bytes = ground arith in
        (
          q,
          rw (h, d, q)
              (send_frame-Shows bytes opening s (was_owned s.owner.state h) (rw (h, d, q) at e)),
        )
  ]
]

finish_frame_done :
    (s : System) (len : ℕ) (r : Outcome × (ℕ → ℕ))
    → r.0 ≡ left_after len
    → (finish_frame s len r).1 ≡ done
unfolding finish_frame
finish_frame_done s len (waiting, screen) e = cc
finish_frame_done s len (write_failed, screen) e = cc
finish_frame_done s len (left_after count, screen) e =
    let h : not (count == len) ≡ false = ground arith in rw h refl

-- A device that takes at least one byte at each write shows the frame: if none of the answers is an
-- error, and those that are no interruption are as many as the frame has bytes, the call returns 0.
pub write_frame_ends :
    (bytes : ℕ → ℕ) (answers : List Written) (s : System)
    → s.owner.state ≡ owned
    → IsProgress answers
    → s.owner.frame_bytes ≤ writes answers
    → (write_frame (some bytes) s.owner.frame_bytes (opened answers) s).1 ≡ done
unfolding write_frame send_frame
write_frame_ends bytes answers s o p enough =
    let a : not (is_owned s.owner.state) ≡ false = simp (o) in
    let b : not (s.owner.frame_bytes == s.owner.frame_bytes) ≡ false = ground arith in
    rw (a, b)
      (finish_frame_done s s.owner.frame_bytes _ (
        write_all_ends bytes s.owner.frame_bytes answers 0 s.machine.screen p (omega arith)
          (omega (arith, enough))))
