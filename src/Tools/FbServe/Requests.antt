-- ===== src/Tools/FbServe/Requests.antt =====
-- What vita-fbserve.c answers, and the buffers that it reads into.
use vita_linux_next.Prelude.{
  ℕ, ◌-◌, ◌≤◌, ◌<◌, ◌≡◌, ◌≢◌, refl, sym, ◌⊎◌, inl, inr, Bool, true, false, not, ◌&&◌, List, [], ◌∷◌,
  ◌++◌, Option, none, some, arith, ltb, ◌==◌, if◌then◌else◌, length, take, length-append,
  length-take, ==_iff, if_holds, Bool-cases,
}
use vita_linux_next.Prelude.Text.{codes}
use vita_linux_next.Dashboard.Texts.{streq}
use vita_linux_next.Dashboard.Input.Choice.{streq_eq, streq_refl}
use vita_linux_next.Tools.FbServe.Received.{delivered, IsRequest, Got, receive-Got}
use vita_linux_next.Tools.FbServe.{
  Read, gave, again, broken_read, Response, too_large, bad_request, get_only, health, not_found,
  read_failed, image, receive, read_all, read_frame, fb_bytes, request_bytes, route, frame_response,
  handle_request, answer_to, build_bitmap, byte_at,
}

grown :
    (size : ℕ) (used chunk : List ℕ)
    → length used ≤ size
    → length (used ++ take (size - length used) chunk) ≤ size
grown size used chunk h = omega (
  arith,
  length-append used (take (size - length used) chunk),
  length-take (size - length used) chunk,
)

-- A frame that is read has exactly its bytes.
abbrev Whole : ℕ → Option (List ℕ) → Type 0
Whole size none = Unit {0}
Whole size (some bytes) = length bytes ≡ size

full :
    (size : ℕ) (bytes : List ℕ)
    → length bytes ≤ size
    → ltb (length bytes) size ≡ false
    → length bytes ≡ size
full size bytes h e = ground arith

read_all-Whole :
    (reads : List Read) (size : ℕ) (bytes : List ℕ)
    → length bytes ≤ size
    → Whole size (read_all reads size bytes)
unfolding read_all
read_all-Whole [] size bytes h =
    if_holds (Whole size) (ltb (length bytes) size) none (some bytes) (λ e. tt) (full size bytes h)
read_all-Whole (again ∷ more) size bytes h =
    if_holds (Whole size) (ltb (length bytes) size) (read_all more size bytes) (some bytes)
      (λ e. read_all-Whole more size bytes h) (full size bytes h)
read_all-Whole (broken_read ∷ more) size bytes h =
    if_holds (Whole size) (ltb (length bytes) size) none (some bytes) (λ e. tt) (full size bytes h)
read_all-Whole (gave chunk ∷ more) size bytes h =
    let taken = take (size - length bytes) chunk in
    if_holds (Whole size) (not (ltb (length bytes) size)) (some bytes) _
      (λ e. full size bytes h (ground arith))
      (λ e.
        if_holds (Whole size) (length taken == 0) none (read_all more size (bytes ++ taken))
          (λ d. tt) (λ d. read_all-Whole more size (bytes ++ taken) (grown size bytes chunk h)))

-- What must hold for an answer.
pub data Justifies (device : Option (List Read))
    : Option (List ℕ × List ℕ) → Response → Type 0 where
  unread : Justifies device none bad_request
  wrong_method : (m p : List ℕ) → m ≢ codes "GET" → Justifies device (some (m, p)) get_only
  asks_health : Justifies device (some (codes "GET", codes "/health")) health
  unknown_path :
      (p : List ℕ)
      → p ≢ codes "/health"
      → p ≢ codes "/"
      → p ≢ codes "/frame.bmp"
      → Justifies device (some (codes "GET", p)) not_found
  no_frame :
      (p : List ℕ)
      → (p ≡ codes "/") ⊎ (p ≡ codes "/frame.bmp")
      → read_frame device ≡ none
      → Justifies device (some (codes "GET", p)) read_failed
  frame :
      (p frame : List ℕ)
      → (p ≡ codes "/") ⊎ (p ≡ codes "/frame.bmp")
      → read_frame device ≡ some frame
      → length frame ≡ fb_bytes
      → Justifies device (some (codes "GET", p)) (image (build_bitmap (byte_at frame)))

streq_ne : (a b : List ℕ) → streq a b ≡ false → a ≢ b
streq_ne a b e q = let t : streq b b ≡ true = streq_refl b in cc (rw q at e)

frame-Justifies :
    (device : Option (List Read)) (p : List ℕ) (r : Option (List ℕ))
    → (p ≡ codes "/") ⊎ (p ≡ codes "/frame.bmp")
    → read_frame device ≡ r
    → Whole fb_bytes r
    → Justifies device (some (codes "GET", p)) (frame_response r)
unfolding frame_response
frame-Justifies device p none asked e w = no_frame p asked e
frame-Justifies device p (some bytes) asked e w = frame p bytes asked e w

read_frame-Whole : (device : Option (List Read)) → Whole fb_bytes (read_frame device)
unfolding read_frame
read_frame-Whole none = tt
read_frame-Whole (some reads) = read_all-Whole reads fb_bytes [] (omega arith)

asked_for :
    (p : List ℕ)
    → (not (streq p (codes "/")) && not (streq p (codes "/frame.bmp"))) ≡ false
    → (p ≡ codes "/") ⊎ (p ≡ codes "/frame.bmp")
asked_for p e = elim (Bool-cases (streq p (codes "/"))) [
  | inl h ↦ inl (streq_eq p (codes "/") h)
  | inr h ↦ elim (Bool-cases (streq p (codes "/frame.bmp"))) [
    | inl k ↦ inr (streq_eq p (codes "/frame.bmp") k)
    | inr k ↦ cc (rw (h, k) at e)
  ]
]

neither : (a b : Bool) → (not a && not b) ≡ true → (a ≡ false) × (b ≡ false)
neither false false e = (refl, refl)
neither true b e = cc
neither false true e = cc

module _ (device : Option (List Read)) where
  get-Justifies :
      (p : List ℕ)
      → Justifies device (some (codes "GET", p)) (
          if streq p (codes "/health")
          then health
          else if not (streq p (codes "/")) && not (streq p (codes "/frame.bmp"))
          then not_found
          else frame_response (read_frame device))
  get-Justifies p = elim (Bool-cases (streq p (codes "/health"))) [
    | inl h ↦ rw h (let q = streq_eq p (codes "/health") h in rw q asks_health)
    | inr h ↦ elim (Bool-cases (not (streq p (codes "/")) && not (streq p (codes "/frame.bmp")))) [
      | inl k ↦
          rw (h, k)
            (unknown_path p (streq_ne p (codes "/health") h)
              (streq_ne p (codes "/")
                (neither (streq p (codes "/")) (streq p (codes "/frame.bmp")) k).0)
              (streq_ne p (codes "/frame.bmp")
                (neither (streq p (codes "/")) (streq p (codes "/frame.bmp")) k).1))
      | inr k ↦
          rw (h, k)
            (frame-Justifies device p (read_frame device) (asked_for p k) refl
              (read_frame-Whole device))
    ]
  ]

  route-Justifies : (line : Option (List ℕ × List ℕ)) → Justifies device line (route device line)
  unfolding route
  route-Justifies none = unread
  route-Justifies (some (m, p)) = elim (Bool-cases (streq m (codes "GET"))) [
    | inr h ↦ rw h (wrong_method m p (streq_ne m (codes "GET") h))
    | inl h ↦ rw h (let q = streq_eq m (codes "GET") h in rw q (get-Justifies p))
  ]

-- The reason of an answer to the bytes sent.
abbrev Reason :
    (List ℕ → Option (List ℕ × List ℕ)) → Option (List Read) → List ℕ → Response → Type 0
Reason scan device sent response =
    (request : List ℕ) × IsRequest sent request
    × (((length request ≡ request_bytes) × (response ≡ too_large))
        ⊎ ((length request < request_bytes) × Justifies device (scan request) response))

some_inj : {a b : Response} → ◌≡◌ {A = Option Response} (some a) (some b) → a ≡ b
some_inj e = cc

answer_to-Reason :
    (scan : List ℕ → Option (List ℕ × List ℕ)) (device : Option (List Read)) (sent : List ℕ)
    (r : Option (List ℕ)) (response : Response)
    → Got sent r
    → answer_to scan device r ≡ some response
    → Reason scan device sent response
answer_to-Reason scan device sent none response h e = cc
answer_to-Reason scan device sent (some request) response h e =
    elim (Bool-cases (length request == request_bytes)) [
      | inl k ↦
          let q : too_large ≡ response = some_inj (rw k at e) in
          (request, h, inl ((==_iff (length request) request_bytes).0 k, sym q))
      | inr k ↦
          let q : route device (scan request) ≡ response = some_inj (rw k at e) in
          let fits = h.0 in
          (
            request,
            h,
            inr (ground (arith, fits, k), rw (sym q) (route-Justifies device (scan request))),
          )
    ]

-- Every answer has its reason, which is the request that the client sent: the first bytes that it
-- delivered, as far as an empty line is among them or they fill the buffer. A request that fills the
-- buffer gets 413. Of any other one, 400 says that its line cannot be read, 405 that the method is not
-- GET, 200 without a picture that the path is /health, 404 that the path is unknown, 503 that it asks
-- for the frame, which cannot be read, and a picture that it asks for the frame and shows the bitmap
-- of a frame that was read whole.
pub handle_request-Justifies :
    (scan : List ℕ → Option (List ℕ × List ℕ)) (device : Option (List Read)) (reads : List Read)
    (response : Response)
    → handle_request scan device reads ≡ some response
    → (request : List ℕ) × IsRequest (delivered reads) request
      × (((length request ≡ request_bytes) × (response ≡ too_large))
          ⊎ ((length request < request_bytes) × Justifies device (scan request) response))
unfolding handle_request
handle_request-Justifies scan device reads response e =
    answer_to-Reason scan device (delivered reads) (receive reads []) response
      (receive-Got reads [] (omega arith)) e
