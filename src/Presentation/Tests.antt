-- ===== src/Presentation/Tests.antt =====
-- The enlarged frame of cart/src/presentation.c at one word.
use vita_linux_next.Prelude.{◌+◌, ◌*◌, ◌/◌, ◌%◌, ◌≡◌, ltb, if◌then◌else◌}
use vita_linux_next.Presentation.{Screen, upscale, upscale_lem}

abbrev blank : Screen
blank = record { row = λ _. 0; framebuffer = λ _. 0 }

upscale_lem_example :
    (upscale (λ a. a + 1) blank).framebuffer 6405
    ≡ (if ltb 6405 (1280 * 720) then 6405 / 1280 / 4 * 320 + 6405 % 1280 / 4 + 1 else 0)
upscale_lem_example = upscale_lem (λ a. a + 1) blank 6405
