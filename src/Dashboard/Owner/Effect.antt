-- ===== src/Dashboard/Owner/Effect.antt =====
-- What `fb_owner_probe` of fb_owner.c may change.
use vita_linux_next.Prelude.{
  ℕ, ◌*◌, ◌/◌, ◌%◌, ◌==◌, ltb, ◌||◌, ◌≡◌, refl, Bool, not, List, Option, none, some, ◌⊎◌, inl, inr,
  Status, ok, fail, if_holds,
}
use vita_linux_next.Prelude.Text.{codes}
use vita_linux_next.Dashboard.Owner.{
  Owner, idle, probed, failed, Answers, probe_owner, read_geometry, probe_geometry, probe_device,
  set_error, stride_of, word, max_frame_bytes, seen_binding, is_idle, refused_device,
}
use vita_linux_next.Dashboard.Owner.Geometry.{was_idle}

-- What a probe may change.
pub record ProbeEffect (a : Answers) (console : Option Bool) (o : Owner) (r : Owner × Status)
    : Type 0 where
  pub debt : r.0.fbcon_unbound_by_us ≡ o.fbcon_unbound_by_us
  pub ends :
      ((r.0.state ≡ failed) × (r.0.fbcon_was_bound ≡ o.fbcon_was_bound))
      ⊎ ((o.state ≡ idle)
          × (r.0.state ≡ probed)
          × (r.0.fbcon_was_bound ≡ seen_binding console a.bind_reads))

module _ (a : Answers) (console : Option Bool) where
  probe_device-ProbeEffect :
      (o p : Owner)
      → o.state ≡ idle
      → p.fbcon_unbound_by_us ≡ o.fbcon_unbound_by_us
      → p.fbcon_was_bound ≡ o.fbcon_was_bound
      → ProbeEffect a console o (probe_device p a console)
  unfolding probe_device set_error
  probe_device-ProbeEffect o p i e d =
      if_holds (ProbeEffect a console o) (p.frame_bytes == 0 || ltb max_frame_bytes p.frame_bytes)
        (set_error p (codes "implausible frame size"), fail) _
        (λ h. record { debt = e; ends = inl (refl, d) })
        (λ h. at_device (refused_device a.device p.frame_bytes))
    where
      at_device :
          (r : Option (List ℕ))
          → ProbeEffect a console o (elim r [
            | some message ↦ (set_error p message, fail)
            | none ↦ (
              record p { fbcon_was_bound = seen_binding console a.bind_reads; state = probed },
              ok,
            )
          ])
      at_device none = record { debt = e; ends = inr (i, refl, refl) }
      at_device (some m) = record { debt = e; ends = inl (refl, d) }

  read_geometry-ProbeEffect :
      (o : Owner) (size : Option (ℕ × ℕ)) (bits : Option ℕ)
      → o.state ≡ idle
      → ProbeEffect a console o (read_geometry o a console size bits)
  unfolding read_geometry probe_geometry set_error
  read_geometry-ProbeEffect o none bits i = record { debt = refl; ends = inl (refl, refl) }
  read_geometry-ProbeEffect o (some size) none i = record { debt = refl; ends = inl (refl, refl) }
  read_geometry-ProbeEffect o (some (w, h)) (some bits) i =
      let packed = word (w * (bits / 8)) in
      let pitch = stride_of a.pitch packed in
      if_holds (ProbeEffect a console o) (w == 0 || h == 0 || bits == 0 || not (bits % 8 == 0))
        (set_error o (codes "unsupported framebuffer geometry"), fail) _
        (λ h. record { debt = refl; ends = inl (refl, refl) })
        (λ e.
          if_holds (ProbeEffect a console o) (ltb pitch packed)
            (set_error o (codes "stride smaller than one packed row"), fail) _
            (λ h. record { debt = refl; ends = inl (refl, refl) })
            (λ k.
              probe_device-ProbeEffect o
                (record o {
                  width = w;
                  height = h;
                  bpp = bits;
                  stride = pitch;
                  frame_bytes = word (pitch * h);
                })
                i refl refl))

  pub probe_owner-ProbeEffect : (o : Owner) → ProbeEffect a console o (probe_owner a console o)
  unfolding probe_owner set_error
  probe_owner-ProbeEffect o =
      if_holds (ProbeEffect a console o) (not (is_idle o.state))
        (set_error o (codes "probe called from a non-idle state"), fail) _
        (λ h. record { debt = refl; ends = inl (refl, refl) })
        (λ h. read_geometry-ProbeEffect o a.size a.bits (was_idle o.state h))
