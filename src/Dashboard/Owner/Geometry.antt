-- ===== src/Dashboard/Owner/Geometry.antt =====
-- What a probe of fb_owner.c has checked when it succeeds.
use vita_linux_next.Prelude.{
  ℕ, ◌*◌, ◌/◌, ◌%◌, ◌≤◌, ◌<◌, ◌≡◌, ◌≢◌, ◌⊎◌, refl, Bool, true, false, List, Option, none, some,
  arith, Status, ok, fail, Bool-cases, ◌==◌, ◌||◌, not, if_holds, ltb, ltb→ge, inl, inr,
}
use vita_linux_next.Dashboard.Owner.{
  stride_of, Owner, System, OwnerState, idle, probed, owned, released, failed, Answers, Device,
  no_open, no_stat, other_kind, regular, character, probe, probe_geometry, probe_owner,
  read_geometry, is_idle, probe_device, set_error, word, max_frame_bytes, bound, unbound,
  seen_binding, refused_device,
}

-- A geometry that may be drawn in.
pub record IsUsable (w h bits pitch bytes : ℕ) : Type 0 where
  pub whole : bits % 8 ≡ 0
  pub deep : 0 < bits
  pub wide : 0 < w
  pub tall : 0 < h
  pub rows : word (w * (bits / 8)) ≤ pitch
  pub size : bytes ≡ word (pitch * h)
  pub low : 0 < bytes
  pub high : bytes ≤ max_frame_bytes

abbrev pub OwnsUsable : Owner → Type 0
OwnsUsable o = IsUsable o.width o.height o.bpp o.stride o.frame_bytes

-- The device has room for a frame, as far as it says.
abbrev pub HasRoom : Device → ℕ → Type 0
HasRoom no_open bytes = ⊥
HasRoom no_stat bytes = ⊥
HasRoom other_kind bytes = ⊥
HasRoom (regular size) bytes = bytes ≤ size
HasRoom (character none) bytes = Unit {0}
HasRoom (character (some smem_len)) bytes = smem_len ≢ 0 → bytes ≤ smem_len

refused_device-HasRoom : (d : Device) (bytes : ℕ) → refused_device d bytes ≡ none → HasRoom d bytes
refused_device-HasRoom no_open bytes e = cc
refused_device-HasRoom no_stat bytes e = cc
refused_device-HasRoom other_kind bytes e = cc
refused_device-HasRoom (regular size) bytes e = ground arith
refused_device-HasRoom (character none) bytes e = tt
refused_device-HasRoom (character (some n)) bytes e = λ h. ground arith

binding_seen :
    (console : Option Bool) (reads : Bool)
    → (seen_binding console reads ≡ bound) × (console ≡ some true) × (reads ≡ true)
      ⊎ (seen_binding console reads ≡ unbound) × ((console ≢ some true) ⊎ (reads ≡ false))
binding_seen (some true) true = inl (refl, refl, refl)
binding_seen (some true) false = inr (refl, inr refl)
binding_seen (some false) reads = inr (refl, inl (λ e. cc))
binding_seen none reads = inr (refl, inl (λ e. cc))

-- What a probe that succeeds has done.
pub record Probed (a : Answers) (console : Option Bool) (t : Owner) : Type 0 where
  pub ended : t.state ≡ probed
  pub usable : OwnsUsable t
  pub room : HasRoom a.device t.frame_bytes
  pub binding :
      (t.fbcon_was_bound ≡ bound) × (console ≡ some true) × (a.bind_reads ≡ true)
      ⊎ (t.fbcon_was_bound ≡ unbound) × ((console ≢ some true) ⊎ (a.bind_reads ≡ false))

abbrev Succeeds : Answers → Option Bool → Owner × Status → Type 0
Succeeds a console (o, ok) = Probed a console o
Succeeds a console (o, fail) = Unit {0}

module _ (a : Answers) (console : Option Bool) where
  device_Succeeds :
      (o : Owner) (refusal : Option (List ℕ))
      → refused_device a.device o.frame_bytes ≡ refusal
      → OwnsUsable o
      → Succeeds a console (elim refusal [
        | some message ↦ (set_error o message, fail)
        | none ↦
            (record o { fbcon_was_bound = seen_binding console a.bind_reads; state = probed }, ok)
      ])
  device_Succeeds o (some m) e u = tt
  device_Succeeds o none e u = record {
    ended = refl;
    usable = u;
    room = refused_device-HasRoom a.device o.frame_bytes e;
    binding = binding_seen console a.bind_reads;
  }

  probe_device-Succeeds :
      (o : Owner)
      → o.bpp % 8 ≡ 0
      → 0 < o.bpp
      → 0 < o.width
      → 0 < o.height
      → word (o.width * (o.bpp / 8)) ≤ o.stride
      → o.frame_bytes ≡ word (o.stride * o.height)
      → Succeeds a console (probe_device o a console)
  unfolding probe_device
  probe_device-Succeeds o whole deep wide tall rows size =
      if_holds (Succeeds a console) (o.frame_bytes == 0 || ltb max_frame_bytes o.frame_bytes) _ _
        (λ e. tt)
        (λ e. device_Succeeds o (refused_device a.device o.frame_bytes) refl (record {
          whole = whole;
          deep = deep;
          wide = wide;
          tall = tall;
          rows = rows;
          size = size;
          low = ground arith;
          high = ground arith;
        }))

  probe_geometry-Succeeds :
      (o : Owner) (w h bits : ℕ) → Succeeds a console (probe_geometry o a console w h bits)
  unfolding probe_geometry
  probe_geometry-Succeeds o w h bits =
      if_holds (Succeeds a console) (w == 0 || h == 0 || bits == 0 || not (bits % 8 == 0)) _ _
        (λ e. tt)
        (λ e.
          if_holds (Succeeds a console)
            (ltb (stride_of a.pitch (word (w * (bits / 8)))) (word (w * (bits / 8)))) _ _ (λ k. tt)
            (λ k.
              probe_device-Succeeds
                (record o {
                  width = w;
                  height = h;
                  bpp = bits;
                  stride = stride_of a.pitch (word (w * (bits / 8)));
                  frame_bytes = word (stride_of a.pitch (word (w * (bits / 8))) * h);
                })
                (ground arith) (ground arith) (ground arith) (ground arith) (ltb→ge _ _ k) refl))

  read_geometry-Succeeds :
      (o : Owner) (size : Option (ℕ × ℕ)) (bits : Option ℕ)
      → Succeeds a console (read_geometry o a console size bits)
  unfolding read_geometry
  read_geometry-Succeeds o none bits = tt
  read_geometry-Succeeds o (some size) none = tt
  read_geometry-Succeeds o (some (w, h)) (some bits) = probe_geometry-Succeeds o w h bits

  probe_owner-Succeeds : (o : Owner) → Succeeds a console (probe_owner a console o)
  unfolding probe_owner
  probe_owner-Succeeds o =
      if_holds (Succeeds a console) (not (is_idle o.state)) _ _ (λ e. tt)
        (λ e. read_geometry-Succeeds o a.size a.bits)

Succeeds-ok :
    (a : Answers) (console : Option Bool) (r : Owner × Status)
    → Succeeds a console r
    → r.1 ≡ ok
    → Probed a console r.0
Succeeds-ok a console (o, ok) h e = h
Succeeds-ok a console (o, fail) h e = cc

pub was_idle : (b : OwnerState) → not (is_idle b) ≡ false → b ≡ idle
was_idle idle e = refl
was_idle probed e = cc
was_idle owned e = cc
was_idle released e = cc
was_idle failed e = cc

probe_owner-idle :
    (a : Answers) (console : Option Bool) (o : Owner)
    → (probe_owner a console o).1 ≡ ok
    → o.state ≡ idle
unfolding probe_owner
probe_owner-idle a console o e = elim (Bool-cases (not (is_idle o.state))) [
  | inl h ↦ cc (rw h at e)
  | inr h ↦ was_idle o.state h
]

-- A probe that returns 0 found the owner idle and leaves it probed with a whole number of bytes to a
-- pixel, a stride that holds a row of pixels (as 32-bit numbers give it) and a frame of 1 byte to 64
-- MiB, whose length is the stride times the height as 32-bit numbers. The frame fits a regular file's
-- size, or the length that a character device gives; of a device that gives none, or 0, nothing is
-- said. The console is noted as bound exactly when it is bound and its node can be read. The machine
-- is as it was.
pub probe_sound :
    (a : Answers) (s : System)
    → (probe a s).1 ≡ ok
    → (s.owner.state ≡ idle)
      × Probed a s.machine.console (probe a s).0.owner
      × ((probe a s).0.machine ≡ s.machine)
unfolding probe
probe_sound a s e = (
  probe_owner-idle a s.machine.console s.owner e,
  Succeeds-ok a s.machine.console (probe_owner a s.machine.console s.owner)
      (probe_owner-Succeeds a s.machine.console s.owner) e,
  refl,
)
