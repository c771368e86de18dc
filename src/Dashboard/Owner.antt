-- ===== src/Dashboard/Owner.antt =====
-- fb_owner.c and fb_owner.h of toolkit/examples/vita-dashboard/src: who holds the framebuffer and the
-- console bound to it. What the files and the device answer is a parameter of each operation.
pub mod Console
pub mod Frame
pub mod Geometry
pub mod Effect
pub mod Lease
use vita_linux_next.Prelude.{
  ℕ, zero, suc, ◌+◌, ◌-◌, ◌*◌, ◌/◌, ◌%◌, ◌≤◌, ◌<◌, ◌≡◌, refl, Bool, true, false, not, ◌&&◌, ◌||◌,
  List, [], ◌∷◌, Option, none, some, arith, ltb, leb, ◌==◌, if◌then◌else◌, Status, ok, fail,
}
use vita_linux_next.Prelude.Text.{codes}
use vita_linux_next.Dashboard.Texts.{sset, join}

-- `unsigned int`, and `size_t` of the 32-bit machine.
abbrev pub word : ℕ → ℕ
word n = n % 4_294_967_296

abbrev pub max_frame_bytes : ℕ
max_frame_bytes = 67_108_864

abbrev path_len : ℕ
path_len = 256

abbrev pub error_len : ℕ
error_len = 160

-- `enum fb_owner_state`.
pub data OwnerState : Type 0 where
  idle probed owned released failed : OwnerState

-- `fbcon_was_bound`: -1, 0 and 1.
pub data Binding : Type 0 where
  unknown unbound bound : Binding

-- `struct fb_owner`.
pub record Owner : Type 0 where
  pub fb_path : List ℕ
  pub vtcon_bind_path : List ℕ
  pub sysfs_size_path : List ℕ
  pub sysfs_bpp_path : List ℕ
  pub sysfs_stride_path : List ℕ
  pub width : ℕ
  pub height : ℕ
  pub bpp : ℕ
  pub stride : ℕ
  pub frame_bytes : ℕ
  pub fbcon_was_bound : Binding
  pub fbcon_unbound_by_us : Bool
  pub fbcon_restored : Bool
  pub frames_written : ℕ
  pub state : OwnerState
  pub error : List ℕ

-- The machine around the owner: the bind node of the console, if there is one, and the bytes of the
-- framebuffer.
pub record Machine : Type 0 where
  pub console : Option Bool
  pub screen : ℕ → ℕ

pub record System : Type 0 where
  pub owner : Owner
  pub machine : Machine

-- A hard fault.
unfoldable pub set_error : Owner → List ℕ → Owner
set_error o message = record o { error = sset error_len o.error (some message); state = failed }

-- A refusal: nothing but the error text changes.
unfoldable pub refuse : Owner → List ℕ → Owner
refuse o message = record o { error = sset error_len o.error (some message) }

-- `fb_owner_init` of a structure with any contents.
unfoldable pub init : Owner → Option (List ℕ) → Owner
init o root = record {
  fb_path = join path_len o.fb_path root (codes "/dev/fb0");
  vtcon_bind_path = join path_len o.vtcon_bind_path root (codes "/sys/class/vtconsole/vtcon1/bind");
  sysfs_size_path =
      join path_len o.sysfs_size_path root (codes "/sys/class/graphics/fb0/virtual_size");
  sysfs_bpp_path =
      join path_len o.sysfs_bpp_path root (codes "/sys/class/graphics/fb0/bits_per_pixel");
  sysfs_stride_path =
      join path_len o.sysfs_stride_path root (codes "/sys/class/graphics/fb0/stride");
  width = 0;
  height = 0;
  bpp = 0;
  stride = 0;
  frame_bytes = 0;
  fbcon_was_bound = unknown;
  fbcon_unbound_by_us = false;
  fbcon_restored = false;
  frames_written = 0;
  state = idle;
  error = [];
}

-- What opening, `fstat` and FBIOGET_FSCREENINFO say of the framebuffer: a regular file has a size,
-- and a character device may answer with its `smem_len`.
pub data Device : Type 0 where
  no_open no_stat other_kind : Device
  regular : ℕ → Device
  character : Option ℕ → Device

-- What a probe reads: the two numbers of `virtual_size`, the other two files, the device, and
-- whether the bind node can be opened and holds a number.
pub record Answers : Type 0 where
  pub size : Option (ℕ × ℕ)
  pub bits : Option ℕ
  pub pitch : Option ℕ
  pub device : Device
  pub bind_reads : Bool

abbrev pub refused_device : Device → ℕ → Option (List ℕ)
refused_device no_open bytes = some (codes "cannot open framebuffer device")
refused_device no_stat bytes = some (codes "cannot stat framebuffer device")
refused_device other_kind bytes = some (codes "framebuffer path is not a device or regular file")
refused_device (regular size) bytes =
    if ltb size bytes then some (codes "framebuffer is shorter than one frame") else none
refused_device (character none) bytes = none
refused_device (character (some smem_len)) bytes =
    if not (smem_len == 0) && ltb smem_len bytes
    then some (codes "framebuffer is shorter than one frame")
    else none

-- The bind state that the probe keeps.
abbrev pub seen_binding : Option Bool → Bool → Binding
seen_binding (some true) true = bound
seen_binding (some true) false = unbound
seen_binding (some false) reads = unbound
seen_binding none reads = unbound

-- The default of a stride that is missing or 0.
abbrev pub stride_of : Option ℕ → ℕ → ℕ
stride_of none packed = packed
stride_of (some s) packed = if s == 0 then packed else s

-- The part of `fb_owner_probe` behind the reads of the geometry.
unfoldable pub probe_device : Owner → Answers → Option Bool → Owner × Status
unfolding set_error
probe_device o a console =
    if o.frame_bytes == 0 || ltb max_frame_bytes o.frame_bytes
    then (set_error o (codes "implausible frame size"), fail)
    else elim (refused_device a.device o.frame_bytes) [
      | some message ↦ (set_error o message, fail)
      | none ↦
          (record o { fbcon_was_bound = seen_binding console a.bind_reads; state = probed }, ok)
    ]

unfoldable pub probe_geometry : Owner → Answers → Option Bool → ℕ → ℕ → ℕ → Owner × Status
unfolding set_error probe_device
probe_geometry o a console w h bits =
    let packed = word (w * (bits / 8)) in
    let pitch = stride_of a.pitch packed in
    if w == 0 || h == 0 || bits == 0 || not (bits % 8 == 0)
    then (set_error o (codes "unsupported framebuffer geometry"), fail)
    else if ltb pitch packed
    then (set_error o (codes "stride smaller than one packed row"), fail)
    else probe_device
        (record o {
          width = w;
          height = h;
          bpp = bits;
          stride = pitch;
          frame_bytes = word (pitch * h);
        })
        a console

abbrev pub is_idle : OwnerState → Bool
is_idle idle = true
is_idle _ = false

-- The reads of the geometry.
unfoldable pub read_geometry :
    Owner → Answers → Option Bool → Option (ℕ × ℕ) → Option ℕ → Owner × Status
unfolding set_error probe_geometry
read_geometry o a console none bits =
    (set_error o (codes "cannot read framebuffer virtual_size"), fail)
read_geometry o a console (some size) none =
    (set_error o (codes "cannot read framebuffer bits_per_pixel"), fail)
read_geometry o a console (some (w, h)) (some bits) = probe_geometry o a console w h bits

unfoldable pub probe_owner : Answers → Option Bool → Owner → Owner × Status
unfolding set_error read_geometry
probe_owner a console o =
    if not (is_idle o.state)
    then (set_error o (codes "probe called from a non-idle state"), fail)
    else read_geometry o a console a.size a.bits

-- `fb_owner_probe`.
unfoldable pub probe : Answers → System → System × Status
unfolding probe_owner
probe a s = let (o, rc) = probe_owner a s.machine.console s.owner in (record s { owner = o }, rc)
