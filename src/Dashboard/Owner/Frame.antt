-- ===== src/Dashboard/Owner/Frame.antt =====
-- `fb_owner_write_frame` of fb_owner.c: one whole frame, or an error.
pub mod Whole
use vita_linux_next.Prelude.{
  ℕ, zero, suc, ◌+◌, ◌-◌, ◌≤◌, ◌<◌, ◌≡◌, refl, Bool, true, false, not, ◌&&◌, List, [], ◌∷◌, Option,
  none, some, arith, ltb, leb, ◌==◌, if◌then◌else◌, Status, ok, fail,
}
use vita_linux_next.Prelude.Text.{codes}
use vita_linux_next.Dashboard.Owner.{
  Owner, Machine, System, OwnerState, idle, probed, owned, released, failed, set_error, refuse,
  word,
}

-- What one `write` answers: how many bytes it took (never more than it was offered), EINTR, or
-- another error.
pub data Written : Type 0 where
  took : ℕ → Written
  interrupted broken : Written

-- How the loop of writes ends. `waiting`: the answers are used up and the loop still runs.
pub data Outcome : Type 0 where
  left_after : ℕ → Outcome
  write_failed waiting : Outcome

abbrev pub lesser : ℕ → ℕ → ℕ
lesser a b = if ltb a b then a else b

-- The bytes `start` to `start + count` of the frame reach the screen.
unfoldable pub put_bytes : (ℕ → ℕ) → ℕ → ℕ → (ℕ → ℕ) → (ℕ → ℕ)
put_bytes frame start count screen i =
    if leb start i && ltb i (start + count) then frame i else screen i

-- `while (written < len)`, one round for each answer of `write`.
unfoldable pub write_all : (ℕ → ℕ) → ℕ → List Written → ℕ → (ℕ → ℕ) → Outcome × (ℕ → ℕ)
unfolding put_bytes
write_all frame len [] written screen =
    if ltb written len then (waiting, screen) else (left_after written, screen)
write_all frame len (interrupted ∷ more) written screen =
    let rest = write_all frame len more written screen in
    if ltb written len then rest else (left_after written, screen)
write_all frame len (broken ∷ more) written screen =
    if ltb written len then (write_failed, screen) else (left_after written, screen)
write_all frame len (took n ∷ more) written screen =
    let chunk = lesser n (len - written) in
    let rest = write_all frame len more (written + chunk) (put_bytes frame written chunk screen) in
    if not (ltb written len)
    then (left_after written, screen)
    else if chunk == 0
    then (left_after written, screen)
    else rest

abbrev pub is_owned : OwnerState → Bool
is_owned owned = true
is_owned _ = false

-- `open` and `lseek` of the device, and then the answers of `write`.
pub data Opening : Type 0 where
  no_open no_seek : Opening
  opened : List Written → Opening

-- What a call returns: 0, -1, or it is still in the loop.
pub data Returned : Type 0 where
  done refused pending : Returned

unfoldable pub finish_frame : System → ℕ → Outcome × (ℕ → ℕ) → System × Returned
unfolding set_error
finish_frame s len (waiting, screen) =
    (record s { machine = record s.machine { screen = screen } }, pending)
finish_frame s len (write_failed, screen) = (
  record {
    owner = set_error s.owner (codes "framebuffer write failed");
    machine = record s.machine { screen = screen };
  },
  refused,
)
finish_frame s len (left_after written, screen) =
    if not (written == len)
    then (
      record {
        owner = set_error s.owner (codes "short framebuffer write");
        machine = record s.machine { screen = screen };
      },
      refused,
    )
    else (
      record {
        owner = record s.owner { frames_written = word (s.owner.frames_written + 1) };
        machine = record s.machine { screen = screen };
      },
      done,
    )

unfoldable pub send_frame : (ℕ → ℕ) → ℕ → Opening → System → System × Returned
unfolding set_error finish_frame write_all
send_frame frame len no_open s =
    (record s { owner = set_error s.owner (codes "cannot open framebuffer for writing") }, refused)
send_frame frame len no_seek s =
    (record s { owner = set_error s.owner (codes "cannot seek framebuffer") }, refused)
send_frame frame len (opened answers) s =
    finish_frame s len (write_all frame len answers 0 s.machine.screen)

-- `fb_owner_write_frame`; a null frame is `none`.
unfoldable pub write_frame : Option (ℕ → ℕ) → ℕ → Opening → System → System × Returned
unfolding refuse send_frame
write_frame frame len opening s =
    if not (is_owned s.owner.state)
    then (
      record s { owner = refuse s.owner (codes "write_frame called without ownership") },
      refused,
    )
    else elim frame [
      | none ↦ (record s { owner = refuse s.owner (codes "null frame") }, refused)
      | some bytes ↦
          if not (len == s.owner.frame_bytes)
          then (
            record s { owner = refuse s.owner (codes "frame length does not match stride*height") },
            refused,
          )
          else send_frame bytes len opening s
    ]
