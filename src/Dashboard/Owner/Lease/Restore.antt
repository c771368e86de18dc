-- ===== src/Dashboard/Owner/Lease/Restore.antt =====
-- Every call of fb_owner.c refines the lease of the console, and a release that succeeds has put the
-- console back as it was found.
use vita_linux_next.Prelude.{
  ℕ, ◌==◌, ◌≡◌, refl, ap, sym, ◌∙◌, Bool, true, false, not, List, Option, none, some, if◌then◌else◌,
  inl, inr, ok, Bool-cases,
}
use vita_linux_next.Dashboard.Owner.{
  Owner, Machine, System, OwnerState, idle, probed, owned, released, failed, set_error, refuse,
  init,
}
use vita_linux_next.Dashboard.Owner.Console.{
  BindWrite, no_file, no_print, no_close, stored, write_bind, release, give_back, store_bind,
  is_released,
}
use vita_linux_next.Dashboard.Owner.Frame.{
  Opening, no_open, no_seek, opened, Outcome, left_after, write_failed, waiting, write_all,
  write_frame, send_frame, finish_frame, is_owned,
}
use vita_linux_next.Dashboard.Owner.Lease.{
  Lease, Change, rest, take, repay, lease_of, Step, by_probe, by_acquire, by_write, by_release,
  Honest, Refines, probe-Refines, acquire-Refines, release-Refines, IsHonest-failed,
}

module _ (s : System) (h : Honest s) where
  finish_frame-Refines : (len : ℕ) (r : Outcome × (ℕ → ℕ)) → Refines s (finish_frame s len r).0
  unfolding finish_frame set_error lease_of
  finish_frame-Refines len (waiting, screen) = record { honest = h; change = rest refl }
  finish_frame-Refines len (write_failed, screen) = record {
    honest = IsHonest-failed h refl refl refl;
    change = rest refl;
  }
  finish_frame-Refines len (left_after count, screen) = elim (Bool-cases (not (count == len))) [
    | inl e ↦ rw e (record { honest = IsHonest-failed h refl refl refl; change = rest refl })
    | inr e ↦ rw e (record { honest = h; change = rest refl })
  ]

  send_frame-Refines :
      (bytes : ℕ → ℕ) (len : ℕ) (o : Opening) → Refines s (send_frame bytes len o s).0
  unfolding send_frame set_error lease_of
  send_frame-Refines bytes len no_open = record {
    honest = IsHonest-failed h refl refl refl;
    change = rest refl;
  }
  send_frame-Refines bytes len no_seek = record {
    honest = IsHonest-failed h refl refl refl;
    change = rest refl;
  }
  send_frame-Refines bytes len (opened answers) =
      finish_frame-Refines len (write_all bytes len answers 0 s.machine.screen)

  write_frame-Refines :
      (frame : Option (ℕ → ℕ)) (len : ℕ) (o : Opening) → Refines s (write_frame frame len o s).0
  unfolding write_frame refuse lease_of
  write_frame-Refines none len o = elim (Bool-cases (not (is_owned s.owner.state))) [
    | inl e ↦ rw e (record { honest = h; change = rest refl })
    | inr e ↦ rw e (record { honest = h; change = rest refl })
  ]
  write_frame-Refines (some bytes) len o = elim (Bool-cases (not (is_owned s.owner.state))) [
    | inl e ↦ rw e (record { honest = h; change = rest refl })
    | inr e ↦ elim (Bool-cases (not (len == s.owner.frame_bytes))) [
      | inl d ↦ rw (e, d) (record { honest = h; change = rest refl })
      | inr d ↦ rw (e, d) (send_frame-Refines bytes len o)
    ]
  ]

-- Every call of the interface, with any answers of the files and the device, is a change that the
-- lease allows, or no change of it: the console is unbound only while it is bound and nothing is owed,
-- and what is stored back is what is owed. The owner's knowledge of the console stays true.
pub Step-Refines : (s t : System) → Honest s → Step s t → Refines s t
Step-Refines s t h (by_probe a e) = rw e (probe-Refines a s h)
Step-Refines s t h (by_acquire w e) = rw e (acquire-Refines w s h)
Step-Refines s t h (by_write frame len o e) = rw e (write_frame-Refines s h frame len o)
Step-Refines s t h (by_release w e) = rw e (release-Refines w s h)

-- Calls of the interface, in any order.
pub data Run (s : System) : System → Type 0 where
  here : Run s s
  next : {t u : System} → Run s t → Step t u → Run s u

-- The console as it is once everything owed is given back.
abbrev pub settle : Option Bool → Bool → Option Bool
settle console owing = if owing then store_bind console true else console

abbrev pub settled : Lease → Option Bool
settled l = settle l.console l.owing

settled-Change :
    (l m : Lease) → (l.owing ≡ true → l.console ≡ some false) → Change l m → settled m ≡ settled l
settled-Change l m h (rest e) = ap settled e
settled-Change l m h (take c d e) = ap settled e ∙ sym (λ i. settle (c i) (d i))
settled-Change l m h (repay d e) = ap settled e ∙ sym (λ i. settle l.console (d i))

owing_dark :
    (s : System) → Honest s → s.owner.fbcon_unbound_by_us ≡ true → s.machine.console ≡ some false
owing_dark s h e = h.known (h.owes e) ∙ ap (λ (d : Bool). some (not d)) e

Run-settled :
    {s t : System} → Honest s → Run s t → Honest t × (settled (lease_of t) ≡ settled (lease_of s))
unfolding lease_of
Run-settled h here = (h, refl)
Run-settled {s} h (next {t} {u} r st) =
    let (ht, e) = Run-settled h r in
    let f = Step-Refines t u ht st in
    (f.honest, settled-Change (lease_of t) (lease_of u) (owing_dark t ht) f.change ∙ e)

-- A release that returns 0 leaves nothing owed.
give_back_paid :
    (w : BindWrite) (s : System) (debt : Bool)
    → s.owner.fbcon_unbound_by_us ≡ debt
    → (give_back w s debt).1 ≡ ok
    → (give_back w s debt).0.owner.fbcon_unbound_by_us ≡ false
unfolding give_back write_bind
give_back_paid w s false d e = d
give_back_paid stored s true d e = refl
give_back_paid no_file s true d e = cc
give_back_paid no_print s true d e = cc
give_back_paid no_close s true d e = cc

was_released : (b : OwnerState) → is_released b ≡ true → b ≡ released
was_released released e = refl
was_released idle e = cc
was_released probed e = cc
was_released owned e = cc
was_released failed e = cc

release_paid :
    (w : BindWrite) (s : System)
    → Honest s
    → (release w s).1 ≡ ok
    → (release w s).0.owner.fbcon_unbound_by_us ≡ false
unfolding release
release_paid w s h e = elim (Bool-cases (is_released s.owner.state)) [
  | inl d ↦ rw d (h.paid (was_released s.owner.state d))
  | inr d ↦ rw d (give_back_paid w s s.owner.fbcon_unbound_by_us refl (rw d at e))
]

init-Honest :
    (o : Owner) (root : Option (List ℕ)) (m : Machine)
    → Honest (record { owner = init o root; machine = m })
unfolding init
init-Honest o root m = record {
  known = λ k. cc;
  owes = λ k. cc;
  fresh = λ k. refl;
  ready = λ k. refl;
  paid = λ k. refl;
}

-- After `fb_owner_init` let the calls of the interface come in any order, fail or succeed. Whenever
-- a release then returns 0, the console is bound exactly if it was bound at the start. This is so
-- if nobody else writes to the bind node and a write of it that reports an error has changed nothing.
pub release_restores :
    (o : Owner) (root : Option (List ℕ)) (m : Machine) {t : System} (w : BindWrite)
    → Run (record { owner = init o root; machine = m }) t
    → (release w t).1 ≡ ok
    → (release w t).0.machine.console ≡ m.console
unfolding init lease_of
release_restores o root m {t} w r e =
    let s : System = record { owner = init o root; machine = m } in
    let all = Run-settled (init-Honest o root m) (next r (by_release w refl)) in
    let paid = release_paid w t (Run-settled (init-Honest o root m) r).0 e in
    sym (λ i. settle (release w t).0.machine.console (paid i)) ∙ all.1
