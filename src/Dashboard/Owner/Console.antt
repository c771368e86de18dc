-- ===== src/Dashboard/Owner/Console.antt =====
-- Taking the console from fbcon and giving it back: `write_bind`, `fb_owner_acquire` and
-- `fb_owner_release` of fb_owner.c.
use vita_linux_next.Prelude.{
  Bool, true, false, not, Option, none, some, if◌then◌else◌, Status, ok, fail,
}
use vita_linux_next.Prelude.Text.{codes}
use vita_linux_next.Dashboard.Texts.{sset}
use vita_linux_next.Dashboard.Owner.{
  Machine, System, OwnerState, probed, owned, released, Binding, unknown, unbound, bound, set_error,
  error_len,
}

-- What a write to the bind node comes to: `fopen`, `fprintf` or `fclose` fails, or the value is
-- stored. A failed write has stored nothing.
pub data BindWrite : Type 0 where
  no_file no_print no_close stored : BindWrite

abbrev pub store_bind : Option Bool → Bool → Option Bool
store_bind none value = none
store_bind (some _) value = some value

unfoldable pub write_bind : BindWrite → Machine → Bool → Machine × Status
write_bind no_file m value = (m, fail)
write_bind no_print m value = (m, fail)
write_bind no_close m value = (m, fail)
write_bind stored m value = (record m { console = store_bind m.console value }, ok)

abbrev pub is_probed : OwnerState → Bool
is_probed probed = true
is_probed _ = false

abbrev pub is_released : OwnerState → Bool
is_released released = true
is_released _ = false

-- The unbinding of `fb_owner_acquire`, after the test of the state.
unfoldable pub take_console : BindWrite → System → Binding → System × Status
unfolding set_error write_bind
take_console w s unknown = (record s { owner = record s.owner { state = owned } }, ok)
take_console w s unbound = (record s { owner = record s.owner { state = owned } }, ok)
take_console w s bound =
    let (m, rc) = write_bind w s.machine false in
    elim rc [
      | fail ↦
          (record { owner = set_error s.owner (codes "cannot unbind fbcon"); machine = m }, fail)
      | ok ↦ (
        record {
          owner = record s.owner { fbcon_unbound_by_us = true; state = owned };
          machine = m;
        },
        ok,
      )
    ]

-- `fb_owner_acquire`.
unfoldable pub acquire : BindWrite → System → System × Status
unfolding set_error take_console
acquire w s =
    if not (is_probed s.owner.state)
    then (
      record s { owner = set_error s.owner (codes "acquire called before a successful probe") },
      fail,
    )
    else take_console w s s.owner.fbcon_was_bound

abbrev pub keeps_unbound : Binding → Bool → Bool
keeps_unbound unbound restored = true
keeps_unbound unknown restored = restored
keeps_unbound bound restored = restored

-- `fb_owner_release` past its first test.
unfoldable pub give_back : BindWrite → System → Bool → System × Status
unfolding write_bind
give_back w s true =
    let (m, rc) = write_bind w s.machine true in
    elim rc [
      | fail ↦ (
        record {
          owner = record s.owner {
            error = sset error_len s.owner.error (some (codes "cannot rebind fbcon"));
          };
          machine = m;
        },
        fail,
      )
      | ok ↦ (
        record {
          owner = record s.owner {
            fbcon_unbound_by_us = false;
            fbcon_restored = true;
            state = released;
          };
          machine = m;
        },
        ok,
      )
    ]
give_back w s false = (
  record s {
    owner = record s.owner {
      fbcon_restored = keeps_unbound s.owner.fbcon_was_bound s.owner.fbcon_restored;
      state = released;
    };
  },
  ok,
)

-- `fb_owner_release`.
unfoldable pub release : BindWrite → System → System × Status
unfolding give_back
release w s =
    if is_released s.owner.state then (s, ok) else give_back w s s.owner.fbcon_unbound_by_us
