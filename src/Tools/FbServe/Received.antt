-- ===== src/Tools/FbServe/Received.antt =====
-- Which request the loop of `recv` in vita-fbserve.c comes to.
use mathlib.Core.List.{append-nil, append_assoc}
use vita_linux_next.Prelude.{
  ℕ, ◌-◌, ◌≤◌, ◌≡◌, refl, sym, ◌∙◌, ap, ◌⊎◌, inl, inr, true, false, not, List, [], ◌∷◌, ◌++◌,
  Option, none, some, arith, ltb, ◌==◌, length, take, drop, length-append, length-take, length-drop,
  take-append-drop, if_holds, Bool-cases, ==_iff,
}
use vita_linux_next.Tools.FbServe.{
  Read, gave, again, broken_read, receive, request_bytes, starts_with, contains, ends_request,
}

-- The bytes that the client sends until its connection breaks, however they are cut up.
abbrev pub delivered : List Read → List ℕ
delivered [] = []
delivered (again ∷ more) = delivered more
delivered (broken_read ∷ more) = []
delivered (gave chunk ∷ more) = chunk ++ delivered more

-- A text that has the other one in it.
abbrev pub HasInside : List ℕ → List ℕ → Type 0
HasInside needle text = (before : List ℕ) × (after : List ℕ) × (text ≡ before ++ (needle ++ after))

-- What is received of the bytes sent: they start with it, it fits the buffer, and it fills the buffer
-- or has an empty line in it.
abbrev pub IsRequest : List ℕ → List ℕ → Type 0
IsRequest sent request =
    (length request ≤ request_bytes)
    × ((later : List ℕ) × (sent ≡ request ++ later))
    × ((length request ≡ request_bytes)
        ⊎ HasInside (13 ∷ 10 ∷ 13 ∷ 10 ∷ []) request
        ⊎ HasInside (10 ∷ 10 ∷ []) request)

starts_with_sound :
    (needle text : List ℕ)
    → starts_with needle text ≡ true
    → (after : List ℕ) × (text ≡ needle ++ after)
unfolding starts_with
starts_with_sound [] text e = (text, refl)
starts_with_sound (c ∷ needle) [] e = cc
starts_with_sound (c ∷ needle) (d ∷ text) e = elim (Bool-cases (c == d)) [
  | inr h ↦ cc (rw h at e)
  | inl h ↦
      let (after, q) = starts_with_sound needle text (rw h at e) in
      let same : c ≡ d = (==_iff c d).0 h in (after, rw (q, same) refl)
]

contains_sound : (needle text : List ℕ) → contains needle text ≡ true → HasInside needle text
unfolding contains
contains_sound needle [] e = let (after, q) = starts_with_sound needle [] e in ([], after, q)
contains_sound needle (c ∷ text) e = elim (Bool-cases (starts_with needle (c ∷ text))) [
  | inl h ↦ let (after, q) = starts_with_sound needle (c ∷ text) h in ([], after, q)
  | inr h ↦
      let (before, after, q) = contains_sound needle text (rw h at e) in
      (c ∷ before, after, ap (λ t. c ∷ t) q)
]

empty_line :
    (request : List ℕ)
    → ends_request request ≡ true
    → HasInside (13 ∷ 10 ∷ 13 ∷ 10 ∷ []) request ⊎ HasInside (10 ∷ 10 ∷ []) request
empty_line request e = elim (Bool-cases (contains (13 ∷ 10 ∷ 13 ∷ 10 ∷ []) request)) [
  | inl h ↦ inl (contains_sound (13 ∷ 10 ∷ 13 ∷ 10 ∷ []) request h)
  | inr h ↦ inr (contains_sound (10 ∷ 10 ∷ []) request (rw h at e))
]

abbrev pub Got : List ℕ → Option (List ℕ) → Type 0
Got sent none = Unit {0}
Got sent (some request) = IsRequest sent request

-- A full buffer ends the loop.
receive_full :
    (reads : List Read) (used : List ℕ)
    → ltb (length used) request_bytes ≡ false
    → receive reads used ≡ some used
unfolding receive
receive_full [] used e = rw e refl
receive_full (again ∷ more) used e = rw e refl
receive_full (broken_read ∷ more) used e = rw e refl
receive_full (gave chunk ∷ more) used e = rw e refl

full-IsRequest :
    (used later : List ℕ)
    → length used ≤ request_bytes
    → ltb (length used) request_bytes ≡ false
    → IsRequest (used ++ later) used
full-IsRequest used later h e = (h, (later, refl), inl (ground arith))

nothing_left : (xs : List ℕ) → length xs ≡ 0 → xs ≡ []
nothing_left [] e = refl
nothing_left (x ∷ xs) e = absurd (omega (arith, e))

grown :
    (used chunk : List ℕ)
    → length used ≤ request_bytes
    → length (used ++ take (request_bytes - length used) chunk) ≤ request_bytes
grown used chunk h = omega (
  arith,
  length-append used (take (request_bytes - length used) chunk),
  length-take (request_bytes - length used) chunk,
)

-- Until the buffer is full every byte is taken.
all_taken :
    (used chunk : List ℕ)
    → length used ≤ request_bytes
    → ltb (length (used ++ take (request_bytes - length used) chunk)) request_bytes ≡ true
    → take (request_bytes - length used) chunk ≡ chunk
all_taken used chunk h e =
    let room = request_bytes - length used in
    let rest : drop room chunk ≡ [] = nothing_left (drop room chunk) (
      ground (
        arith,
        e,
        length-append used (take room chunk),
        length-take room chunk,
        length-drop room chunk,
      )) in
    sym (append-nil (take room chunk))
    ∙ ap (λ r. take room chunk ++ r) (sym rest)
    ∙ take-append-drop room chunk

-- The bytes after those that are taken of a chunk.
after_taken :
    (used chunk more : List ℕ) (room : ℕ)
    → used ++ (chunk ++ more) ≡ (used ++ take room chunk) ++ (drop room chunk ++ more)
after_taken used chunk more room =
    ap (λ c. used ++ (c ++ more)) (sym (take-append-drop room chunk))
    ∙ ap (λ t. used ++ t) (append_assoc (take room chunk) (drop room chunk) more)
    ∙ sym (append_assoc used (take room chunk) (drop room chunk ++ more))

pub receive-Got :
    (reads : List Read) (used : List ℕ)
    → length used ≤ request_bytes
    → Got (used ++ delivered reads) (receive reads used)
unfolding receive
receive-Got [] used h =
    if_holds (Got (used ++ [])) (ltb (length used) request_bytes) none (some used) (λ e. tt)
      (full-IsRequest used [] h)
receive-Got (again ∷ more) used h =
    if_holds (Got (used ++ delivered more)) (ltb (length used) request_bytes) (receive more used)
      (some used) (λ e. receive-Got more used h) (full-IsRequest used (delivered more) h)
receive-Got (broken_read ∷ more) used h =
    if_holds (Got (used ++ [])) (ltb (length used) request_bytes) none (some used) (λ e. tt)
      (full-IsRequest used [] h)
receive-Got (gave chunk ∷ more) used h =
    let room = request_bytes - length used in
    let taken = take room chunk in
    let sent = used ++ (chunk ++ delivered more) in
    let split = after_taken used chunk (delivered more) room in
    let g = grown used chunk h in
    if_holds (Got sent) (not (ltb (length used) request_bytes)) (some used) _
      (λ e. full-IsRequest used (chunk ++ delivered more) h (ground (arith, e)))
      (λ e.
        if_holds (Got sent) (length taken == 0) none _ (λ d. tt)
          (λ d.
            if_holds (Got sent) (ends_request (used ++ taken)) (some (used ++ taken))
              (receive more (used ++ taken))
              (λ c.
                (g, (drop room chunk ++ delivered more, split), inr (empty_line (used ++ taken) c)))
              (λ c. elim (Bool-cases (ltb (length (used ++ taken)) request_bytes)) [
                | inr k ↦
                    rw (receive_full more (used ++ taken) k)
                      (g, (drop room chunk ++ delivered more, split), inl (ground (arith, g, k)))
                | inl k ↦
                    let same : (used ++ taken) ++ delivered more ≡ sent =
                      ap (λ t. (used ++ t) ++ delivered more) (all_taken used chunk h k)
                      ∙ append_assoc used chunk (delivered more) in
                    rw same at (receive-Got more (used ++ taken) g)
              ])))
