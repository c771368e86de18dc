-- ===== src/Lib.antt =====
-- The demo cart for the PlayStation TV and its tools: a verification library beside the C code of
-- cart/ and toolkit/.
--
-- The cart is a full-screen program that shows a loop of animated scenes. Once per frame its main
-- loop (cart/src/pstv-demo-cart.c) asks the runtime for the scene and the time to sleep, polls the
-- input devices for an action, draws a logical frame of 320 by 180 words on a canvas, fades
-- between two scenes, and enlarges the frame into the framebuffer. The modules follow its files:
--
--   Runtime       cart/src/runtime.c: `init`, `tick`, `request_next` and `request_previous` are
--                 `cart_runtime_init`, `cart_runtime_tick` and the two requests; a `tick` is the
--                 composition of `clamp_now`, `expire_hold`, `select_scene` and `pace`, in the
--                 order of the C function. `run` is any sequence of calls.
--   Canvas        cart/src/canvas.c: `Color` has `cart_rgba` and `cart_mix`, `Defs` the canvas with
--                 `cart_canvas_px`, `cart_canvas_rect` and `cart_canvas_circle`.
--   Transition    cart/src/transition.c: the state of a fade, its weight and its blend, which uses
--                 `mix` of Canvas.
--   Presentation  cart/src/presentation.c: the fourfold enlargement.
--   Input         cart/src/input_normalize.c (`Normalize`), cart/src/input_actions.c (`Actions`)
--                 and cart/src/input_evdev.c: `Defs` has the state and one event, `Pump` the reading
--                 of one source, `Poll` the merged frame and `cart_input_poll`, `Probe` and `Plan`
--                 the ranking of devices, `Discover` their claims of slots and the shutdown.
--   Registry      cart/src/scenes_builtin.c: the table of scenes and its lookups.
--   Workers       cart/src/worker_pool.c: start, dispatch and shutdown of the render workers.
--   Demo          cart/src/pstv-demo-cart.c: `round` is one round of the loop of `main`, from the first
--                 tick to the second; how a scene looks is a parameter.
--   Dashboard     toolkit/examples/vita-dashboard/src: `Owner` is fb_owner.c, with the console in
--                 `Console`, whole frames in `Frame` and the abstract lease of the console in `Lease`;
--                 `Render` and `Font` are render.c, `Input` is input.c, and `Options`, `Screen` and
--                 `Loop` are main.c. The loop draws into the shadow of Render and hands it to Owner.
--   Tools         toolkit/share: `FbServe` is vita-fbserve.c, `Control` vita-control.c, `InputWatch`
--                 vita-inputwatch.c and `Bench` vita-bench.c. They do not call one another.
--   Prelude       Boolean tests, lists, integers, bits and loops that the components share.
--
-- Numbers. A `size_t` has 32 bits on the target (32-bit ARM) and a `uint64_t` 64; where a sum or a
-- product of the code can wrap, the `%` is written out, and subtraction below 0 is written out too.
-- Signed integers are ℤ, with the `int32_t` results that can overflow wrapped as the hardware does. A flag
-- of C is a `Bool`, a nullable pointer an `Option`, and a status code `ok` or `fail`. A pixel buffer
-- is a function from indices to words, so that a theorem on every index says what is left alone.
--
-- Loops. Counted loops are `for_from`, by recursion on the number of rounds. The loop that takes
-- events off a buffer recurses on fuel, and the length of the buffer is enough, since a round takes
-- at least one byte (`drain_fuel`). The loop that reads has as many rounds as there are reads: the
-- results of `read` are a list, and `none` says that the list has ended while the loop would read on.
--
-- The kernel and the thread library. The directory and the files of devices (`Host`), which calls of
-- the thread library succeed (`Threads`), the answers of the event devices (`Device`), the results
-- of `read`, the size of `struct input_event` and its decoding are parameters: they are not code of
-- the repository. Workers between two barriers run whole bands, in any order. A worker returns where
-- it finds `shutting_down` set, and a call that waits for a worker that does not return is `stuck`.
--
-- The dashboard's writes. The answers of `write` are a list, and an answer that is never longer than
-- what was offered is the minimum of both; what runs out of answers is still in its loop (`waiting`,
-- `pending`). The rounds of the main loop are a list of what each round meets.
--
-- Not modelled: the start and the end of the cart's `main`, a clock that fails, the framebuffer's
-- mapping, the legacy scenes' drawings, writing a canvas as a PPM file, the older cart/src/input.c
-- (which is not built), the collection of facts in the dashboard's status.c, the options, sockets and
-- reports of the tools, and the other programs of toolkit/.
pub mod Canvas
pub mod Dashboard
pub mod Demo
pub mod Input
pub mod Prelude
pub mod Presentation
pub mod Registry
pub mod Runtime
pub mod Tools
pub mod Transition
pub mod Workers
