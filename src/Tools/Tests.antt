-- ===== src/Tools/Tests.antt =====
-- Tests of the tools' models, and their theorems at inputs that meet their hypotheses.
use vita_linux_next.Prelude.{
  ℕ, zero, suc, ◌+◌, ◌-◌, ◌*◌, ◌/◌, ◌%◌, ◌^◌, ◌≤◌, ◌<◌, ◌≡◌, ◌⊎◌, refl, ap, ◌∙◌, true, false, List,
  [], ◌∷◌, ◌++◌, Option, none, some, arith, length, take,
}
use vita_linux_next.Prelude.Int.{pos}
use vita_linux_next.Prelude.Text.{codes}
use vita_linux_next.Tools.FbServe.{
  build_bitmap, put_u32, Read, gave, health, handle_request, receive, contains, starts_with, route,
  request_bytes, too_large, row_bytes,
}
use vita_linux_next.Tools.FbServe.Bitmap.{get_u32, get_u32-put_u32, build_bitmap_pixel}
use vita_linux_next.Tools.FbServe.Received.{delivered, IsRequest}
use vita_linux_next.Tools.FbServe.Requests.{Justifies, handle_request-Justifies}
use vita_linux_next.Tools.Bench.{run_memory, copy}
use vita_linux_next.Tools.Bench.Verdict.{starved_pairs, run_memory_misses}
use vita_linux_next.Tools.Control.{parse_unsigned, retry_after, pid_buffer}
use vita_linux_next.Tools.Control.RateLimit.{
  Attempt, Spaced, times_granted, times_granted-Spaced, retry_after_wait,
}
use vita_linux_next.Tools.InputWatch.{Event, no_counts, WatchRound, ready, bytes, watch}
use vita_linux_next.Tools.InputWatch.Stream.{Counted, watch_of, watch_counts}
use vita_linux_next.Dashboard.Texts.{streq}

get_u32-put_u32_example :
    (get_u32 10 (put_u32 10 172_854 (λ i. 0)) ≡ 172_854)
    × ((i : ℕ) → i < 10 → put_u32 10 172_854 (λ i. 0) i ≡ 0)
    × ((i : ℕ) → 14 ≤ i → put_u32 10 172_854 (λ i. 0) i ≡ 0)
get_u32-put_u32_example = get_u32-put_u32 10 172_854 (λ i. 0) (omega arith)

build_bitmap_pixel_example :
    build_bitmap (λ i. i % 256) (54 + 2 * row_bytes + 7 * 3 + 0)
    ≡ ((179 - 2) * 4 * 1280 + 7 * 4) * 4 % 256 + 2
build_bitmap_pixel_example =
    build_bitmap_pixel (λ i. i % 256) 2 7 0 (omega arith) (omega arith) (omega arith)

-- A scanner that knows one request line.
abbrev scan_health : List ℕ → Option (List ℕ × List ℕ)
scan_health request = some (codes "GET", codes "/health")

abbrev health_reads : List Read
health_reads = gave (codes "GET /health HTTP/1.0\r\n") ∷ Read.again ∷ gave (13 ∷ 10 ∷ []) ∷ []

handle_request-Justifies_example :
    (request : List ℕ) × IsRequest (delivered health_reads) request
    × (((length request ≡ request_bytes) × (health ≡ too_large))
        ⊎ ((length request < request_bytes) × Justifies none (scan_health request) health))
unfolding handle_request receive contains starts_with route streq
handle_request-Justifies_example =
    handle_request-Justifies scan_health none health_reads health refl

retry_after_wait_example :
    (retry_after (some 1_000_000) 500 (2_500_000 + 499 * 1_000_000) ≡ none)
    × (2_500_000 + 499 * 1_000_000 < 1_000_000 + 500 * 1_000_000 + 1_000_000)
unfolding retry_after
retry_after_wait_example =
    retry_after_wait 1_000_000 500 2_500_000 499 (omega arith) (omega arith) refl

-- Decimal digits, twenty of them with zeros in front, and the number that a text of digits stands for.
abbrev print_low : ℕ → ℕ → List ℕ
print_low zero n = []
print_low (suc k) n = print_low k (n / 10) ++ (48 + n % 10) ∷ []

abbrev value_of : ℕ → List ℕ → ℕ
value_of before [] = before
value_of before (d ∷ text) = value_of (before * 10 + (d - 48)) text

value_of-append :
    (before : ℕ) (text : List ℕ) (d : ℕ)
    → value_of before (text ++ d ∷ []) ≡ value_of before text * 10 + (d - 48)
value_of-append before [] d = refl
value_of-append before (c ∷ text) d = value_of-append (before * 10 + (c - 48)) text d

abbrev limit : ℕ → ℕ
limit zero = 1
limit (suc k) = limit k * 10

digits_value : (k n : ℕ) → n < limit k → value_of 0 (print_low k n) ≡ n
digits_value zero n h = omega arith
digits_value (suc k) n h =
    value_of-append 0 (print_low k (n / 10)) (48 + n % 10)
    ∙ omega (arith, digits_value k (n / 10) (omega arith))

abbrev print_digits : ℕ → List ℕ
print_digits n = print_low 20 n

abbrev read_digits : List ℕ → Option ℕ
read_digits text = some (value_of 0 text)

digits_read_back :
    (n : ℕ)
    → n < 2 ^ 64
    → parse_unsigned read_digits (some (take (pid_buffer - 1) (print_digits n))) ≡ some n
unfolding parse_unsigned
digits_read_back n h = ap some (digits_value 20 n (omega arith))

abbrev at_ns : ℕ → Attempt
at_ns n = record {
  now_ns = n;
  opens = true;
  reads = true;
  truncates = true;
  seeks = true;
  short = none;
}

-- The disk is full after eight bytes.
abbrev cut_short : ℕ → Attempt
cut_short n = record (at_ns n) { short = some 8 }

abbrev presses : List Attempt
presses = at_ns 5 ∷ at_ns 400_000_000 ∷ cut_short 600_000_000 ∷ at_ns 700_000_000 ∷ []

times_granted-Spaced_example :
    Spaced (500 * 1_000_000) (times_granted read_digits print_digits 500 presses [])
times_granted-Spaced_example =
    times_granted-Spaced read_digits print_digits 500 (omega arith) digits_read_back presses [] (
      omega arith,
      omega arith,
      refl,
      (
        omega arith,
        omega arith,
        refl,
        (omega arith, omega arith, refl, (omega arith, omega arith, refl, tt)),
      ),
    )

-- Events of two bytes: a kind and a code.
abbrev decode_pair : List ℕ → Event
decode_pair [] = record { kind = 0; code = 0; value = pos 1 }
decode_pair (k ∷ more) = record { kind = k; code = 0; value = pos 1 }

abbrev meets : ℕ → WatchRound
meets n = record { elapsed_ms = pos 0; polled = ready false true; received = bytes n }

abbrev pieces : List WatchRound
pieces = meets 1 ∷ meets 5 ∷ meets 2 ∷ meets 1 ∷ []

watch_counts_example : Counted 2 decode_pair (1 ∷ 30 ∷ 3 ∷ 0 ∷ 0 ∷ 0 ∷ []) (
    watch_of (
      watch 2 decode_pair 1000 0 pieces
        (record { counts = no_counts; pending = []; stream = 1 ∷ 30 ∷ 3 ∷ 0 ∷ 0 ∷ 0 ∷ [] })))
watch_counts_example =
    watch_counts 2 decode_pair 1000 0 pieces (1 ∷ 30 ∷ 3 ∷ 0 ∷ 0 ∷ 0 ∷ []) (omega arith)

run_memory_misses_example :
    run_memory true true copy 8 8_388_608 (starved_pairs ((4096, 8192) ∷ [])) ≡ some 0
run_memory_misses_example = run_memory_misses copy 8 8_388_608 ((4096, 8192) ∷ []) tt
