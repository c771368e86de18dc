-- ===== src/Input/Discover/Slots.antt =====
-- The slots of the input stack through discovery and shutdown.
use vita_linux_next.Prelude.{
  ℕ, zero, suc, ◌+◌, ◌<◌, ◌≡◌, refl, ◌∙◌, ap, inl, inr, List, [], ◌∷◌, Option, none, some, arith,
  ◌==◌, ==_iff, length, Bool-cases,
}
use vita_linux_next.Prelude.Loops.{for_from}
use vita_linux_next.Input.Defs.{Source, Input, Device, set_source}
use vita_linux_next.Input.Plan.{Candidate, plan}
use vita_linux_next.Input.Discover.{
  Host, Listing, missing, unreadable, entries, Found, collect, slot_empty, free_from,
  first_free_slot, installed, claim, settle, close, claim_all, discover_pass, listed, rescan,
  empty_source, release, shutdown,
}

-- A slot that is found is one of the four and is empty.
first_free_slot-empty :
    (input : Input) (slot : ℕ)
    → first_free_slot input ≡ some slot
    → (slot < 4) × ((input.source slot).fd ≡ none)
unfolding first_free_slot free_from slot_empty
first_free_slot-empty input slot e = ground arith

install-keeps :
    (slot i fd : ℕ) (s : Source) (input : Input)
    → (input.source slot).fd ≡ none
    → (input.source i).fd ≡ some fd
    → (set_source input slot s).source i ≡ input.source i
install-keeps slot i fd s input free e = elim (Bool-cases (slot == i)) [
  | inl same ↦ let k = (==_iff slot i).0 same in ground (arith, rw k at free)
  | inr other ↦ rw other refl
]

-- What a claim does, by the slot that is free.
claim_by :
    (c : Candidate) (n : ℕ) (input : Input) (P : ℕ × Input → Type 0)
    → P (n, record input { closed = c.fd ∷ input.closed })
    → ((slot : ℕ)
        → slot < 4
        → (input.source slot).fd ≡ none
        → P (n + 1, set_source input slot (installed c)))
    → P (claim c (n, input))
unfolding claim
claim_by c n input P full free = go (first_free_slot input) refl
  where
    go : (o : Option ℕ) → first_free_slot input ≡ o → P (settle c n input o)
    go none e = unfold settle in full
    go (some slot) e =
        let f = first_free_slot-empty input slot e in unfold settle in free slot f.0 f.1

claim-keeps :
    (c : Candidate) (n i fd : ℕ) (input : Input)
    → (input.source i).fd ≡ some fd
    → (claim c (n, input)).1.source i ≡ input.source i
claim-keeps c n i fd input e =
    claim_by c n input (λ r. r.1.source i ≡ input.source i) refl
      (λ slot _ free. install-keeps slot i fd (installed c) input free e)

claim_all-keeps :
    (cs : List Candidate) (n i fd : ℕ) (input : Input)
    → (input.source i).fd ≡ some fd
    → (claim_all cs (n, input)).1.source i ≡ input.source i
unfolding claim_all
claim_all-keeps [] n i fd input e = refl
claim_all-keeps (c ∷ cs) n i fd input e =
    let (m, after) = claim c (n, input) in
    let kept = claim-keeps c n i fd input e in
    claim_all-keeps cs m i fd after (ap (λ (s : Source). s.fd) kept ∙ e) ∙ kept

abbrev found_in : Device → Host → Input → List (List ℕ) → Found
found_in dev host input names =
    collect dev host names (record { candidates = []; closed = input.closed })

-- A rescan leaves every source that holds a descriptor exactly as it is, whatever the directory
-- lists and the devices answer: only empty slots are filled.
pub rescan_keeps :
    (dev : Device) (host : Host) (input : Input) (i fd : ℕ)
    → (input.source i).fd ≡ some fd
    → (rescan dev host input).1.source i ≡ input.source i
unfolding rescan discover_pass
rescan_keeps dev host input i fd e = go host.listing
  where
    go : (l : Listing) → (listed dev host input l).1.source i ≡ input.source i
    go missing = unfold listed in refl
    go unreadable = unfold listed in refl
    go (entries names) =
        unfold listed in
        claim_all-keeps (plan (found_in dev host input names).candidates) 0 i fd
          (record input { closed = (found_in dev host input names).closed }) e

-- How many descriptors are held by slots or have been closed.
abbrev held : Option ℕ → ℕ
held none = 0
held (some _) = 1

pub accounted : Input → ℕ
accounted input =
    held (input.source 0).fd
    + held (input.source 1).fd
    + held (input.source 2).fd
    + held (input.source 3).fd
    + length input.closed

install-accounted :
    (slot fd : ℕ) (s : Source) (input : Input)
    → slot < 4
    → (input.source slot).fd ≡ none
    → s.fd ≡ some fd
    → accounted (set_source input slot s) ≡ accounted input + 1
unfolding accounted
install-accounted zero fd s input h e f = rw (e, f) (omega arith)
install-accounted (suc zero) fd s input h e f = rw (e, f) (omega arith)
install-accounted (suc (suc zero)) fd s input h e f = rw (e, f) (omega arith)
install-accounted (suc (suc (suc zero))) fd s input h e f = rw (e, f) (omega arith)
install-accounted (suc (suc (suc (suc n)))) fd s input h e f = absurd (omega arith)

claim-accounted :
    (c : Candidate) (n : ℕ) (input : Input) → accounted (claim c (n, input)).1 ≡ accounted input + 1
claim-accounted c n input =
    claim_by c n input (λ r. accounted r.1 ≡ accounted input + 1) (unfold accounted in omega arith)
      (λ slot h free.
        install-accounted slot c.fd (installed c) input h free (unfold installed in refl))

-- No candidate is lost: claiming turns each descriptor into one that a slot holds or that has been
-- closed, however many slots are free.
pub claim_all-accounted :
    (cs : List Candidate) (n : ℕ) (input : Input)
    → accounted (claim_all cs (n, input)).1 ≡ accounted input + length cs
unfolding claim_all
claim_all-accounted [] n input = omega arith
claim_all-accounted (c ∷ cs) n input =
    let (m, after) = claim c (n, input) in
    omega (arith, claim_all-accounted cs m after, claim-accounted c n input)

length-close : (o : Option ℕ) (closed : List ℕ) → length (close o closed) ≡ held o + length closed
unfolding close
length-close none closed = omega arith
length-close (some fd) closed = omega arith

-- After `cart_input_shutdown` all four slots are empty, no action is pending, no bytes are kept,
-- and as many descriptors have been closed as the slots held.
pub shutdown_lem :
    (input : Input) (i : ℕ)
    → i < 4
    → ((shutdown input).source i ≡ empty_source)
      × ((shutdown input).pending ≡ [])
      × ((shutdown input).partial i ≡ [])
      × (length (shutdown input).closed ≡ accounted input)
unfolding shutdown release for_from accounted
shutdown_lem input i h = (
  ground arith,
  refl,
  refl,
  length-close (input.source 3).fd _
      ∙ ap (λ n. held (input.source 3).fd + n)
          (length-close (input.source 2).fd _
            ∙ ap (λ n. held (input.source 2).fd + n)
                (length-close (input.source 1).fd _
                  ∙ ap (λ n. held (input.source 1).fd + n)
                      (length-close (input.source 0).fd input.closed)))
      ∙ omega arith,
)
