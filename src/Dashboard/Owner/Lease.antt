-- ===== src/Dashboard/Owner/Lease.antt =====
-- What fb_owner.c promises about the console, as a lease: the console is taken only while it is
-- bound, and what is owed to it is given back. The detailed operations refine it.
pub mod Restore
use vita_linux_next.Prelude.{
  ℕ, ◌*◌, ◌/◌, ◌%◌, ◌==◌, ltb, ◌||◌, ◌≡◌, refl, ap, sym, ◌∙◌, Bool, true, false, not, List, Option,
  none, some, arith, if◌then◌else◌, ◌⊎◌, inl, inr, Status, ok, fail, if_holds, Bool-cases,
}
use vita_linux_next.Prelude.Text.{codes}
use vita_linux_next.Dashboard.Owner.{
  Owner, Machine, System, OwnerState, idle, probed, owned, released, failed, Binding, unknown,
  unbound, bound, Answers, probe, probe_owner, read_geometry, probe_geometry, probe_device,
  set_error, refuse, stride_of, word, max_frame_bytes, seen_binding, is_idle, refused_device, init,
}
use vita_linux_next.Dashboard.Owner.Effect.{ProbeEffect, probe_owner-ProbeEffect}
use vita_linux_next.Dashboard.Owner.Console.{
  BindWrite, no_file, no_print, no_close, stored, write_bind, acquire, take_console, release,
  give_back, store_bind, is_probed, is_released,
}
use vita_linux_next.Dashboard.Owner.Frame.{
  Opening, no_open, no_seek, opened, Outcome, left_after, write_failed, waiting, write_frame,
  send_frame, finish_frame,
}

-- The lease: whether the console is bound, and whether a binding is owed to it.
pub record Lease : Type 0 where
  pub console : Option Bool
  pub owing : Bool

pub data Change (l m : Lease) : Type 0 where
  rest : m ≡ l → Change l m
  take :
      l.console ≡ some true
      → l.owing ≡ false
      → m ≡ record { console = some false; owing = true }
      → Change l m
  repay :
      l.owing ≡ true
      → m ≡ record { console = store_bind l.console true; owing = false }
      → Change l m

unfoldable pub lease_of : System → Lease
lease_of s = record { console = s.machine.console; owing = s.owner.fbcon_unbound_by_us }

-- One call of the interface, with any answers.
pub data Step (s t : System) : Type 0 where
  by_probe : (a : Answers) → t ≡ (probe a s).0 → Step s t
  by_acquire : (w : BindWrite) → t ≡ (acquire w s).0 → Step s t
  by_write :
      (frame : Option (ℕ → ℕ)) (len : ℕ) (o : Opening)
      → t ≡ (write_frame frame len o s).0
      → Step s t
  by_release : (w : BindWrite) → t ≡ (release w s).0 → Step s t

-- What the owner knows about the console.
pub record IsHonest (console : Option Bool) (was : Binding) (debt : Bool) (state : OwnerState)
    : Type 0 where
  pub known : was ≡ bound → console ≡ some (not debt)
  pub owes : debt ≡ true → was ≡ bound
  pub fresh : state ≡ idle → debt ≡ false
  pub ready : state ≡ probed → debt ≡ false
  pub paid : state ≡ released → debt ≡ false

abbrev pub Honest : System → Type 0
Honest s =
    IsHonest s.machine.console s.owner.fbcon_was_bound s.owner.fbcon_unbound_by_us s.owner.state

seen_bound :
    (console : Option Bool) (reads : Bool)
    → seen_binding console reads ≡ bound
    → console ≡ some true
seen_bound none reads e = cc
seen_bound (some false) reads e = cc
seen_bound (some true) true e = refl
seen_bound (some true) false e = cc

module _ {console : Option Bool} {was : Binding} {debt : Bool} {state : OwnerState}
    (h : IsHonest console was debt state) where
  pub IsHonest-failed :
      {was' : Binding} {debt' : Bool} {state' : OwnerState}
      → state' ≡ failed
      → was' ≡ was
      → debt' ≡ debt
      → IsHonest console was' debt' state'
  IsHonest-failed f w d = record {
    known = λ k. rw d (h.known (sym w ∙ k));
    owes = λ k. w ∙ h.owes (sym d ∙ k);
    fresh = λ k. cc;
    ready = λ k. cc;
    paid = λ k. cc;
  }

  IsHonest-owned : IsHonest console was debt owned
  IsHonest-owned = record {
    known = h.known;
    owes = h.owes;
    fresh = λ k. cc;
    ready = λ k. cc;
    paid = λ k. cc;
  }

  IsHonest-released : debt ≡ false → IsHonest console was debt released
  IsHonest-released e = record {
    known = h.known;
    owes = h.owes;
    fresh = λ k. cc;
    ready = λ k. cc;
    paid = λ k. e;
  }

  IsHonest-seen :
      {was' : Binding} {debt' : Bool} {state' : OwnerState} (reads : Bool)
      → state ≡ idle
      → state' ≡ probed
      → was' ≡ seen_binding console reads
      → debt' ≡ debt
      → IsHonest console was' debt' state'
  IsHonest-seen reads i f w d =
      let n = d ∙ h.fresh i in
      record {
        known = λ k. rw n (seen_bound console reads (sym w ∙ k));
        owes = λ k. cc;
        fresh = λ k. n;
        ready = λ k. n;
        paid = λ k. n;
      }

-- A call keeps the owner honest and is one change of the lease, or none.
pub record Refines (s t : System) : Type 0 where
  pub honest : Honest t
  pub change : Change (lease_of s) (lease_of t)

pub probe-Refines : (a : Answers) (s : System) → Honest s → Refines s (probe a s).0
unfolding probe lease_of
probe-Refines a s h =
    let e = probe_owner-ProbeEffect a s.machine.console s.owner in
    record {
      change = rest (
          ap (λ (d : Bool). let l : Lease = record { console = s.machine.console; owing = d } in l)
            e.debt);
      honest = elim e.ends [
        | inl (f, w) ↦ IsHonest-failed h f w e.debt
        | inr (i, f, w) ↦ IsHonest-seen h a.bind_reads i f w e.debt
      ];
    }

take_console-Refines :
    (w : BindWrite) (s : System) (was : Binding)
    → s.owner.fbcon_was_bound ≡ was
    → s.owner.state ≡ probed
    → Honest s
    → Refines s (take_console w s was).0
unfolding take_console write_bind set_error lease_of
take_console-Refines w s unknown e p h = record { honest = IsHonest-owned h; change = rest refl }
take_console-Refines w s unbound e p h = record { honest = IsHonest-owned h; change = rest refl }
take_console-Refines stored s bound e p h =
    let n : s.owner.fbcon_unbound_by_us ≡ false = h.ready p in
    let lit : s.machine.console ≡ some true = h.known e ∙ ap (λ (d : Bool). some (not d)) n in
    record {
      honest = record {
        known = λ k. ap (λ (c : Option Bool). store_bind c false) lit;
        owes = λ k. e;
        fresh = λ k. cc;
        ready = λ k. cc;
        paid = λ k. cc;
      };
      change = take lit n (
          ap
            (λ (c : Option Bool).
              let l : Lease = record { console = store_bind c false; owing = true } in l)
            lit);
    }
take_console-Refines no_file s bound e p h = record {
  honest = IsHonest-failed h refl refl refl;
  change = rest refl;
}
take_console-Refines no_print s bound e p h = record {
  honest = IsHonest-failed h refl refl refl;
  change = rest refl;
}
take_console-Refines no_close s bound e p h = record {
  honest = IsHonest-failed h refl refl refl;
  change = rest refl;
}

give_back-Refines :
    (w : BindWrite) (s : System) (debt : Bool)
    → s.owner.fbcon_unbound_by_us ≡ debt
    → Honest s
    → Refines s (give_back w s debt).0
unfolding give_back write_bind lease_of
give_back-Refines w s false e h = record { honest = IsHonest-released h e; change = rest refl }
give_back-Refines stored s true e h = record {
  honest = record {
    known = λ k. ap (λ (c : Option Bool). store_bind c true) (h.known (h.owes e));
    owes = λ k. cc;
    fresh = λ k. cc;
    ready = λ k. refl;
    paid = λ k. refl;
  };
  change = repay e refl;
}
give_back-Refines no_file s true e h = record { honest = h; change = rest refl }
give_back-Refines no_print s true e h = record { honest = h; change = rest refl }
give_back-Refines no_close s true e h = record { honest = h; change = rest refl }

was_probed : (b : OwnerState) → not (is_probed b) ≡ false → b ≡ probed
was_probed idle e = cc
was_probed probed e = refl
was_probed owned e = cc
was_probed released e = cc
was_probed failed e = cc

module _ (w : BindWrite) (s : System) (h : Honest s) where
  pub acquire-Refines : Refines s (acquire w s).0
  unfolding acquire set_error lease_of
  acquire-Refines =
      if_holds (λ (r : System × Status). Refines s r.0) (not (is_probed s.owner.state)) _
        (take_console w s s.owner.fbcon_was_bound)
        (λ e. record { honest = IsHonest-failed h refl refl refl; change = rest refl })
        (λ e. take_console-Refines w s s.owner.fbcon_was_bound refl (was_probed s.owner.state e) h)

  pub release-Refines : Refines s (release w s).0
  unfolding release
  release-Refines =
      if_holds (λ (r : System × Status). Refines s r.0) (is_released s.owner.state) (s, ok)
        (give_back w s s.owner.fbcon_unbound_by_us) (λ e. record { honest = h; change = rest refl })
        (λ e. give_back-Refines w s s.owner.fbcon_unbound_by_us refl h)
