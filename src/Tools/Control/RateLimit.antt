-- ===== src/Tools/Control/RateLimit.antt =====
-- The rate limit of vita-control.c: when an action is let through, and how long to wait.
use vita_linux_next.Prelude.{
  ℕ, ◌+◌, ◌-◌, ◌*◌, ◌/◌, ◌^◌, ◌≤◌, ◌<◌, ◌≡◌, ◌≢◌, refl, sym, ◌⊎◌, Bool, true, false, not, ◌||◌,
  List, [], ◌∷◌, Option, none, some, arith, ltb, leb, length, take, ltb→lt, ltb→ge, Bool-cases, inl,
  inr, if_holds,
}
use vita_linux_next.Tools.Control.{
  parse_unsigned, retry_after, StateFile, kept_time, write_text, store_time, update_rate_state,
  Rated, granted, unavailable, write_failed, limited, longest_interval_ms, pid_buffer, u64,
}

some_inj : {a b : ℕ} → ◌≡◌ {A = Option ℕ} (some a) (some b) → a ≡ b
some_inj e = cc

wanted_ns :
    (interval : ℕ)
    → interval ≤ longest_interval_ms
    → u64 (interval * 1_000_000) ≡ interval * 1_000_000
wanted_ns interval h = omega arith

-- If an action has to wait, then after the milliseconds that are reported it is let through, and they
-- go beyond the end of the interval by less than one. The clock may not have gone back, and the
-- interval is at most an hour.
pub retry_after_wait :
    (previous interval now wait : ℕ)
    → interval ≤ longest_interval_ms
    → previous ≤ now
    → retry_after (some previous) interval now ≡ some wait
    → (retry_after (some previous) interval (now + wait * 1_000_000) ≡ none)
      × (now + wait * 1_000_000 < previous + interval * 1_000_000 + 1_000_000)
unfolding retry_after
retry_after_wait previous interval now wait short later e =
    let w = wanted_ns interval short in
    let a : ltb now previous ≡ false = ground arith in
    let b : ltb (now + wait * 1_000_000) previous ≡ false = ground arith in
    elim (Bool-cases (ltb (now - previous) (u64 (interval * 1_000_000)))) [
      | inr c ↦ cc (rw (a, c) at e)
      | inl c ↦
          let lt : now - previous < interval * 1_000_000 = omega (arith, ltb→lt _ _ c, w) in
          let q : wait ≡ u64 (u64 (interval * 1_000_000) - (now - previous) + 999_999) / 1_000_000 =
            sym (some_inj (rw (a, c) at e)) in
          let v : wait ≡ (interval * 1_000_000 - (now - previous) + 999_999) / 1_000_000 =
            omega (arith, q, w, lt) in
          let d : ltb (now + wait * 1_000_000 - previous) (u64 (interval * 1_000_000)) ≡ false =
            ground (arith, v, w, lt) in
          (rw (b, d) refl, omega (arith, v, lt))
    ]

-- One use of the action `next` that comes as far as the state file: the time, and how the calls on the
-- file go then.
pub record Attempt : Type 0 where
  pub now_ns : ℕ
  pub opens : Bool
  pub reads : Bool
  pub truncates : Bool
  pub seeks : Bool
  pub short : Option ℕ

abbrev pub file_of : List ℕ → Attempt → StateFile
file_of text a = record {
  text = text;
  opens = a.opens;
  reads = a.reads;
  truncates = a.truncates;
  seeks = a.seeks;
  short = a.short;
}

module _ (strtoull : List ℕ → Option ℕ) (print : ℕ → List ℕ) (interval : ℕ) where
  abbrev pub tried : List ℕ → Attempt → StateFile × Rated
  tried text a = update_rate_state strtoull print (file_of text a) interval a.now_ns

  abbrev pub times_after : (List ℕ → List ℕ) → ℕ → StateFile × Rated → List ℕ
  times_after more now (file, granted) = now ∷ more file.text
  times_after more now (file, unavailable) = more file.text
  times_after more now (file, write_failed) = more file.text
  times_after more now (file, limited wait) = more file.text

  -- The times at which the action is let through, one attempt after the other on one state file.
  unfoldable pub times_granted : List Attempt → List ℕ → List ℕ
  times_granted [] text = []
  times_granted (a ∷ more) text = times_after (times_granted more) a.now_ns (tried text a)

-- A clock that never goes back, and reads of the file that do not fail.
abbrev pub RunsOn : ℕ → List Attempt → Type 0
RunsOn last [] = Unit {0}
RunsOn last (a ∷ more) =
    (last ≤ a.now_ns) × (a.now_ns < 2 ^ 64) × (a.reads ≡ true) × RunsOn a.now_ns more

-- Times with a gap between neighbours.
abbrev pub SpacedFrom : ℕ → ℕ → List ℕ → Type 0
SpacedFrom gap last [] = Unit {0}
SpacedFrom gap last (t ∷ more) = (last + gap ≤ t) × SpacedFrom gap t more

abbrev pub Spaced : ℕ → List ℕ → Type 0
Spaced gap [] = Unit {0}
Spaced gap (t ∷ more) = SpacedFrom gap t more

-- How an attempt ends: the time is stored, or the file keeps its text, or an action that would have
-- been let through is stopped by a write that fails.
data TriedEnds (waits : Option ℕ) (text now_text : List ℕ) : StateFile × Rated → Type 0 where
  stores :
      (file : StateFile)
      → waits ≡ none
      → file.text ≡ now_text
      → TriedEnds waits text now_text (file, granted)
  keeps :
      (file : StateFile) (rate : Rated)
      → rate ≢ granted
      → file.text ≡ text
      → TriedEnds waits text now_text (file, rate)
  loses : (file : StateFile) → waits ≡ none → TriedEnds waits text now_text (file, write_failed)

write_text-TriedEnds :
    (file : StateFile) (text now_text : List ℕ) (short : Option ℕ)
    → TriedEnds none text now_text (write_text file now_text short)
write_text-TriedEnds file text now_text none = stores _ refl refl
write_text-TriedEnds file text now_text (some written) = loses _ refl

store_time-TriedEnds :
    (print : ℕ → List ℕ) (file : StateFile) (now : ℕ) (waits : Option ℕ)
    → TriedEnds waits file.text (print now) (store_time print file now waits)
unfolding store_time
store_time-TriedEnds print file now (some wait) = keeps file (limited wait) (λ e. cc) refl
store_time-TriedEnds print file now none =
    let Ends = TriedEnds none file.text (print now) in
    if_holds Ends (leb pid_buffer (length (print now)) || not file.truncates) (file, write_failed) _
      (λ e. keeps file write_failed (λ q. cc) refl)
      (λ e.
        if_holds Ends (not file.seeks) (record file { text = [] }, write_failed)
          (write_text file (print now) file.short) (λ d. loses _ refl)
          (λ d. write_text-TriedEnds file file.text (print now) file.short))

module _ (strtoull : List ℕ → Option ℕ) (print : ℕ → List ℕ) (interval : ℕ)
    (short : interval ≤ longest_interval_ms)
    (reads : (n : ℕ)
      → n < 2 ^ 64
      → parse_unsigned strtoull (some (take (pid_buffer - 1) (print n))) ≡ some n) where
  abbrev kept : List ℕ → Option ℕ
  kept text = parse_unsigned strtoull (some (take (pid_buffer - 1) text))

  kept_time_read :
      (text : List ℕ) (a : Attempt)
      → a.reads ≡ true
      → kept_time strtoull (file_of text a) ≡ kept text
  unfolding kept_time
  kept_time_read text a r = simp r refl

  tried-TriedEnds :
      (text : List ℕ) (a : Attempt)
      → a.reads ≡ true
      → TriedEnds
          (retry_after (kept text) interval a.now_ns)
          text
          (print a.now_ns)
          (tried strtoull print interval text a)
  unfolding update_rate_state
  tried-TriedEnds text a r =
      if_holds (TriedEnds (retry_after (kept text) interval a.now_ns) text (print a.now_ns))
        (not a.opens) (file_of text a, unavailable) _
        (λ e. keeps (file_of text a) unavailable (λ q. cc) refl)
        (λ e. rw (kept_time_read text a r) (
          store_time-TriedEnds print (file_of text a) a.now_ns
            (retry_after (kept text) interval a.now_ns)))

  passed :
      (last now : ℕ)
      → last ≤ now
      → retry_after (some last) interval now ≡ none
      → last + interval * 1_000_000 ≤ now
  unfolding retry_after
  passed last now h e =
      let w = wanted_ns interval short in
      let a : ltb now last ≡ false = ground arith in
      elim (Bool-cases (ltb (now - last) (u64 (interval * 1_000_000)))) [
        | inl c ↦ cc (rw (a, c) at e)
        | inr c ↦ omega (arith, ltb→ge _ _ c, w, h)
      ]

  abbrev gap : ℕ
  gap = interval * 1_000_000

  -- After an action at `last`: either the file keeps that time, or the interval has passed.
  abbrev Safe : List ℕ → ℕ → ℕ → Type 0
  Safe text last clock = (last ≤ clock) × ((kept text ≡ some last) ⊎ (last + gap ≤ clock))

  -- What is let through at `now` keeps the distance from `last`.
  far_enough :
      (text : List ℕ) (last clock now : ℕ)
      → Safe text last clock
      → clock ≤ now
      → retry_after (kept text) interval now ≡ none
      → last + gap ≤ now
  far_enough text last clock now safe later e = elim safe.1 [
    | inl k ↦ passed last now (omega (arith, safe.0)) (rw k at e)
    | inr free ↦ omega arith
  ]

  abbrev SpacedAfter : List Attempt → Type 0
  SpacedAfter more =
      (text : List ℕ) (last clock : ℕ)
      → Safe text last clock
      → RunsOn clock more
      → SpacedFrom gap last (times_granted strtoull print interval more text)

  times_after_stopped :
      (more : List ℕ → List ℕ) (now : ℕ) (file : StateFile) (rate : Rated)
      → rate ≢ granted
      → times_after strtoull print interval more now (file, rate) ≡ more file.text
  times_after_stopped more now file granted n = absurd (n refl)
  times_after_stopped more now file unavailable n = refl
  times_after_stopped more now file write_failed n = refl
  times_after_stopped more now file (limited wait) n = refl

  after_tried :
      (more : List Attempt) (a : Attempt) (text : List ℕ) (last clock : ℕ) (r : StateFile × Rated)
      → SpacedAfter more
      → Safe text last clock
      → RunsOn clock (a ∷ more)
      → TriedEnds (retry_after (kept text) interval a.now_ns) text (print a.now_ns) r
      → SpacedFrom gap last (
          times_after strtoull print interval
            (times_granted strtoull print interval more)
            a.now_ns
            r)
  after_tried more a text last clock (file, granted) ih safe run (stores f e t) = (
    far_enough text last clock a.now_ns safe run.0 e,
    ih file.text a.now_ns a.now_ns (omega arith, inl (rw t (reads a.now_ns run.1))) run.3,
  )
  after_tried more a text last clock (file, rate) ih safe run (keeps f q n t) =
      let still : (kept file.text ≡ some last) ⊎ (last + gap ≤ a.now_ns) = elim safe.1 [
        | inl k ↦ inl (rw t k)
        | inr free ↦ inr (omega (arith, run.0))
      ] in
      rw (times_after_stopped (times_granted strtoull print interval more) a.now_ns file rate n)
        (ih file.text last a.now_ns (omega (arith, safe.0, run.0), still) run.3)
  after_tried more a text last clock (file, write_failed) ih safe run (loses f e) =
      ih file.text last a.now_ns
        (omega (arith, safe.0, run.0), inr (far_enough text last clock a.now_ns safe run.0 e)) run.3

  spaced_from : (more : List Attempt) → SpacedAfter more
  unfolding times_granted
  spaced_from [] text last clock safe run = tt
  spaced_from (a ∷ more) text last clock safe run =
      after_tried more a text last clock (tried strtoull print interval text a) (spaced_from more)
        safe run (tried-TriedEnds text a run.2)

  first_tried :
      (more : List Attempt) (a : Attempt) (text : List ℕ) (r : StateFile × Rated)
      → ((t : List ℕ) → Spaced gap (times_granted strtoull print interval more t))
      → RunsOn a.now_ns more
      → a.now_ns < 2 ^ 64
      → TriedEnds (retry_after (kept text) interval a.now_ns) text (print a.now_ns) r
      → Spaced gap (
          times_after strtoull print interval
            (times_granted strtoull print interval more)
            a.now_ns
            r)
  first_tried more a text (file, granted) ih run small (stores f e t) =
      spaced_from more file.text a.now_ns a.now_ns (omega arith, inl (rw t (reads a.now_ns small)))
        run
  first_tried more a text (file, rate) ih run small (keeps f q n t) =
      rw (times_after_stopped (times_granted strtoull print interval more) a.now_ns file rate n)
        (ih file.text)
  first_tried more a text (file, write_failed) ih run small (loses f e) = ih file.text

  runs_later :
      (last now : ℕ) (more : List Attempt) → last ≤ now → RunsOn now more → RunsOn last more
  runs_later last now [] h r = tt
  runs_later last now (a ∷ more) h r = (omega (arith, r.0), r.1, r.2, r.3)

  -- Whatever the state file holds at first, and whenever opening, cutting, rewinding or writing it
  -- fails in between, or writes only a part: two actions in a row that are let through are at least
  -- the interval apart. The interval is at most an hour, the clock does not go back, no read of the
  -- file fails, and a time that is printed is read back.
  pub times_granted-Spaced :
      (attempts : List Attempt) (text : List ℕ)
      → RunsOn 0 attempts
      → Spaced (interval * 1_000_000) (times_granted strtoull print interval attempts text)
  unfolding times_granted
  times_granted-Spaced [] text run = tt
  times_granted-Spaced (a ∷ more) text run =
      first_tried more a text (tried strtoull print interval text a)
        (λ t. times_granted-Spaced more t (runs_later 0 a.now_ns more (omega arith) run.3)) run.3
        run.1 (tried-TriedEnds text a run.2)
