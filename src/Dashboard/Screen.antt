-- ===== src/Dashboard/Screen.antt =====
-- `draw_screen` of main.c in toolkit/examples/vita-dashboard/src. The facts are those of
-- `struct dashboard_status`; how `snprintf` prints numbers is a parameter.
use vita_linux_next.Prelude.{ℕ, ◌+◌, ◌*◌, ◌/◌, List, [], ◌∷◌, some, leb, ◌==◌, if◌then◌else◌}
use vita_linux_next.Prelude.Int.{ℤ, pos, ◌+ℤ◌, ◌-ℤ◌}
use vita_linux_next.Prelude.Text.{codes}
use vita_linux_next.Input.Probe.{wrap_int32}
use vita_linux_next.Dashboard.Render.{Renderer, render_clear, render_text, render_rect, render_row}
use vita_linux_next.Dashboard.Render.Inside.{
  IsFit, Draws, Draws-refl, Draws-trans, Draws-IsFit, render_text-Draws, render_row-Draws,
  render_rect-Draws,
}
use vita_linux_next.Dashboard.Input.{Reader}

-- `struct dashboard_status`.
pub record Facts : Type 0 where
  pub kernel : List ℕ
  pub arch : List ℕ
  pub cpus_online : List ℕ
  pub memory_available : List ℕ
  pub uptime : List ℕ
  pub interface : List ℕ
  pub address : List ℕ
  pub storage : List ℕ
  pub toolkit : List ℕ
  pub compiler : List ℕ
  pub workspace : List ℕ

-- The four formats of `draw_screen`: the geometry, a count, and the footer of a screen and a time.
pub record Formats : Type 0 where
  pub geometry : ℕ → ℕ → ℕ → List ℕ
  pub count : ℕ → List ℕ
  pub footer : ℕ → ℕ → List ℕ

abbrev col_bg : ℕ
col_bg = 269_490_431

abbrev col_label : ℕ
col_label = 2_156_962_047

abbrev col_value : ℕ
col_value = 4_042_322_175

abbrev col_header : ℕ
col_header = 820_035_839

abbrev col_accent : ℕ
col_accent = 3_763_372_287

unfoldable pub screen_title : ℕ → List ℕ
screen_title screen =
    if screen == 0
    then codes "OVERVIEW"
    else if screen == 1
    then codes "NETWORK / STORAGE"
    else if screen == 2
    then codes "BUILD"
    else codes "INPUT"

-- The labels and values of a screen, from the top.
unfoldable pub screen_rows : Formats → Renderer → ℕ → Facts → Reader → ℕ → List (List ℕ × List ℕ)
screen_rows f r screen st reader frames =
    if screen == 0
    then (codes "kernel", st.kernel)
      ∷ (codes "arch", st.arch)
      ∷ (codes "cpus online", st.cpus_online)
      ∷ (codes "memory free", st.memory_available)
      ∷ (codes "uptime", st.uptime)
      ∷ []
    else if screen == 1
    then (codes "interface", st.interface)
      ∷ (codes "address", st.address)
      ∷ (codes "storage", st.storage)
      ∷ (codes "toolkit", st.toolkit)
      ∷ []
    else if screen == 2
    then (codes "compiler", st.compiler)
      ∷ (codes "workspace", st.workspace)
      ∷ (codes "framebuffer", f.geometry r.width r.height r.stride)
      ∷ (codes "frames written", f.count frames)
      ∷ []
    else (codes "input device", reader.path)
      ∷ (codes "identity", reader.phys)
      ∷ (codes "name", reader.name)
      ∷ (codes "events seen", f.count reader.events_seen)
      ∷ []

-- One row below the other.
unfoldable pub draw_rows : ℕ → ℕ → ℤ → List (List ℕ × List ℕ) → Renderer → Renderer
draw_rows scale step y [] r = r
draw_rows scale step y ((label, value) ∷ rows) r =
    draw_rows scale step (y +ℤ pos step) rows
      (render_row r (pos 40) y (some label) (some value) scale col_label col_value)

abbrev scale_for : ℕ → ℕ
scale_for width = if leb 1024 width then 3 else 2

unfoldable pub draw_screen : Formats → ℕ → Facts → Reader → ℕ → ℕ → Renderer → Renderer
unfolding screen_title screen_rows draw_rows
draw_screen f screen st reader runtime_ms frames r =
    let scale = scale_for r.width in
    let step = 9 * scale + 10 in
    let blank = render_clear r col_bg in
    let named =
      (render_text blank (pos 40) (pos 40) (some (codes "VITA LINUX WORKBENCH")) scale
        col_header).0 in
    let titled =
      (render_text named (pos 40) (pos (40 + step)) (some (screen_title screen)) scale
        col_accent).0 in
    let below = 40 + step + step + 10 in
    let ruled =
      render_rect titled (pos 40) (pos below -ℤ pos 8) (wrap_int32 (pos r.width) -ℤ pos 80) (pos 2)
        col_label in
    let filled =
      draw_rows scale step (pos (below + 8)) (screen_rows f r screen st reader frames) ruled in
    let bottom = wrap_int32 (pos r.height) in
    let footed =
      (render_text filled (pos 40) (bottom -ℤ pos 58)
        (some (f.footer (screen + 1) (runtime_ms / 1000))) 2 col_label).0 in
    (render_text footed (pos 40) (bottom -ℤ pos 40)
      (some (codes "CROSS/SPACE next    CIRCLE/ESC exit")) 2 col_accent).0

draw_rows-Draws :
    (scale step : ℕ) (y : ℤ) (rows : List (List ℕ × List ℕ)) (r : Renderer)
    → IsFit r
    → Draws r (draw_rows scale step y rows r)
unfolding draw_rows
draw_rows-Draws scale step y [] r f = Draws-refl r
draw_rows-Draws scale step y ((label, value) ∷ rows) r f =
    let next_r = render_row r (pos 40) y (some label) (some value) scale col_label col_value in
    let d = render_row-Draws r (pos 40) y (some label) (some value) scale col_label col_value f in
    Draws-trans r next_r _ d
      (draw_rows-Draws scale step (y +ℤ pos step) rows next_r (Draws-IsFit r next_r d f))

-- In a geometry that fits (at least three bytes to a pixel, rows of pixels within the stride, and a
-- shadow of the stride times the height without wrap-around), each of the dashboard's screens is
-- drawn inside the shadow, whatever the facts say, and leaves the geometry alone, so the shadow keeps
-- the length that a frame must have.
pub draw_screen-Draws :
    (f : Formats) (screen : ℕ) (st : Facts) (reader : Reader) (runtime_ms frames : ℕ) (r : Renderer)
    → IsFit r
    → Draws r (draw_screen f screen st reader runtime_ms frames r)
unfolding draw_screen render_clear
draw_screen-Draws f screen st reader runtime_ms frames r h =
    let scale = scale_for r.width in
    let step = 9 * scale + 10 in
    let below = 40 + step + step + 10 in
    let bottom = wrap_int32 (pos r.height) in
    let r0 = render_clear r col_bg in
    let d0 = render_rect-Draws r (pos 0) (pos 0) (wrap_int32 (pos r.width)) bottom col_bg h in
    let r1 =
      (render_text r0 (pos 40) (pos 40) (some (codes "VITA LINUX WORKBENCH")) scale col_header).0 in
    let d1 = Draws-trans r r0 r1 d0 (
      render_text-Draws r0 (pos 40) (pos 40) (some (codes "VITA LINUX WORKBENCH")) scale col_header
        (Draws-IsFit r r0 d0 h)) in
    let r2 =
      (render_text r1 (pos 40) (pos (40 + step)) (some (screen_title screen)) scale col_accent).0 in
    let d2 = Draws-trans r r1 r2 d1 (
      render_text-Draws r1 (pos 40) (pos (40 + step)) (some (screen_title screen)) scale col_accent
        (Draws-IsFit r r1 d1 h)) in
    let r3 =
      render_rect r2 (pos 40) (pos below -ℤ pos 8) (wrap_int32 (pos r.width) -ℤ pos 80) (pos 2)
        col_label in
    let d3 = Draws-trans r r2 r3 d2 (
      render_rect-Draws r2 (pos 40) (pos below -ℤ pos 8) (wrap_int32 (pos r.width) -ℤ pos 80)
        (pos 2) col_label (Draws-IsFit r r2 d2 h)) in
    let r4 = draw_rows scale step (pos (below + 8)) (screen_rows f r screen st reader frames) r3 in
    let d4 = Draws-trans r r3 r4 d3 (
      draw_rows-Draws scale step (pos (below + 8)) (screen_rows f r screen st reader frames) r3
        (Draws-IsFit r r3 d3 h)) in
    let r5 =
      (render_text r4 (pos 40) (bottom -ℤ pos 58) (some (f.footer (screen + 1) (runtime_ms / 1000)))
        2 col_label).0 in
    let d5 = Draws-trans r r4 r5 d4 (
      render_text-Draws r4 (pos 40) (bottom -ℤ pos 58)
        (some (f.footer (screen + 1) (runtime_ms / 1000))) 2 col_label (Draws-IsFit r r4 d4 h)) in
    let r6 =
      (render_text r5 (pos 40) (bottom -ℤ pos 40)
        (some (codes "CROSS/SPACE next    CIRCLE/ESC exit")) 2 col_accent).0 in
    Draws-trans r r5 r6 d5 (
      render_text-Draws r5 (pos 40) (bottom -ℤ pos 40)
        (some (codes "CROSS/SPACE next    CIRCLE/ESC exit")) 2 col_accent (Draws-IsFit r r5 d5 h))
