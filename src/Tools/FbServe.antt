-- ===== src/Tools/FbServe.antt =====
-- toolkit/share/vita-fbserve.c: the framebuffer as a bitmap, over HTTP. What sockets and the device
-- answer is a parameter, and so are `sscanf` and `strtoul`. A request holds no NUL.
pub mod Bitmap
pub mod Received
pub mod Requests
use vita_linux_next.Prelude.{
  ℕ, zero, suc, ◌+◌, ◌-◌, ◌*◌, ◌/◌, ◌%◌, ◌^◌, ◌≡◌, Bool, true, false, not, ◌&&◌, ◌||◌, List, [],
  ◌∷◌, ◌++◌, Option, none, some, ltb, leb, ◌==◌, if◌then◌else◌, Status, ok, fail, length, take,
}
use vita_linux_next.Prelude.Loops.{for_from}
use vita_linux_next.Prelude.Text.{codes}
use vita_linux_next.Dashboard.Texts.{streq}

abbrev pub image_width : ℕ
image_width = 320

abbrev pub image_height : ℕ
image_height = 180

abbrev pub fb_bytes : ℕ
fb_bytes = 3_686_400

abbrev pub row_bytes : ℕ
row_bytes = 960

abbrev pub bmp_bytes : ℕ
bmp_bytes = 172_854

abbrev pub request_bytes : ℕ
request_bytes = 4096

-- `parse_port`, from what `strtoul` makes of the whole text: `none` unless it is a number to its end
-- and in range.
unfoldable pub parse_port : (List ℕ → Option ℕ) → List ℕ → Option ℕ
parse_port strtoul text = elim (strtoul text) [
  | none ↦ none
  | some value ↦ if value == 0 || ltb 65_535 value then none else some value
]

abbrev pub put_byte : ℕ → ℕ → (ℕ → ℕ) → (ℕ → ℕ)
put_byte position value memory i = if i == position then value else memory i

unfoldable pub put_u16 : ℕ → ℕ → (ℕ → ℕ) → (ℕ → ℕ)
put_u16 destination value memory =
    put_byte (destination + 1) (value / 256 % 256) (put_byte destination (value % 256) memory)

unfoldable pub put_u32 : ℕ → ℕ → (ℕ → ℕ) → (ℕ → ℕ)
put_u32 destination value memory =
    let low =
      put_byte (destination + 1) (value / 256 % 256) (put_byte destination (value % 256) memory) in
    put_byte (destination + 3) (value / 16_777_216 % 256)
      (put_byte (destination + 2) (value / 65_536 % 256) low)

-- The header of `build_bitmap`, in a buffer that `memset` has cleared.
unfoldable pub bitmap_header : ℕ → ℕ
unfolding put_u16 put_u32
bitmap_header = put_u32 42 2835 (
    put_u32 38 2835 (
      put_u32 34 (row_bytes * image_height) (
        put_u16 28 24 (
          put_u16 26 1 (
            put_u32 22 image_height (
              put_u32 18 image_width (
                put_u32 14 40 (
                  put_u32 10 54
                    (put_u32 2 bmp_bytes (put_byte 1 77 (put_byte 0 66 (λ i. 0))))))))))))

-- One pixel of a row: blue, green and red. After `x` pixels the destination of row `y` has moved by
-- three bytes for each.
unfoldable pub put_pixel : (ℕ → ℕ) → ℕ → ℕ → (ℕ → ℕ) → (ℕ → ℕ)
put_pixel framebuffer y x memory =
    let source = ((image_height - 1 - y) * 4 * 1280 + x * 4) * 4 in
    let destination = 54 + y * row_bytes + x * 3 in
    put_byte (destination + 2) (framebuffer source) (
      put_byte (destination + 1) (framebuffer (source + 1))
        (put_byte destination (framebuffer (source + 2)) memory))

-- `build_bitmap`.
unfoldable pub build_bitmap : (ℕ → ℕ) → (ℕ → ℕ)
build_bitmap framebuffer =
    for_from image_height 0 (λ y memory. for_from image_width 0 (put_pixel framebuffer y) memory)
      bitmap_header

-- What `send`, `recv` and `read` come to: how many bytes, of what they were offered or asked for,
-- EINTR, or another error. A list of answers that ends is a closed connection or the end of the file.
pub data Sent : Type 0 where
  took : ℕ → Sent
  interrupted broken : Sent

abbrev pub lesser : ℕ → ℕ → ℕ
lesser a b = if ltb a b then a else b

-- `send_all`: how many bytes went out, and the status; `none` while it has not returned.
unfoldable pub send_all : List Sent → ℕ → ℕ → ℕ × Option Status
send_all [] length sent = (sent, if ltb sent length then none else some ok)
send_all (interrupted ∷ more) length sent =
    let rest = send_all more length sent in if ltb sent length then rest else (sent, some ok)
send_all (broken ∷ more) length sent = (sent, some (if ltb sent length then fail else ok))
send_all (took n ∷ more) length sent =
    let count = lesser n (length - sent) in
    let rest = send_all more length (sent + count) in
    if not (ltb sent length)
    then (sent, some ok)
    else if count == 0
    then (sent, some fail)
    else rest

pub data Read : Type 0 where
  gave : List ℕ → Read
  again broken_read : Read

-- The loop of `read_frame`: the bytes read so far, oldest first.
unfoldable pub read_all : List Read → ℕ → List ℕ → Option (List ℕ)
read_all [] size bytes = if ltb (length bytes) size then none else some bytes
read_all (again ∷ more) size bytes =
    let rest = read_all more size bytes in if ltb (length bytes) size then rest else some bytes
read_all (broken_read ∷ more) size bytes = if ltb (length bytes) size then none else some bytes
read_all (gave chunk ∷ more) size bytes =
    let taken = take (size - length bytes) chunk in
    let rest = read_all more size (bytes ++ taken) in
    if not (ltb (length bytes) size) then some bytes else if length taken == 0 then none else rest

-- `read_frame`; a device that cannot be opened is `none`.
unfoldable pub read_frame : Option (List Read) → Option (List ℕ)
unfolding read_all
read_frame none = none
read_frame (some reads) = read_all reads fb_bytes []

-- Where the request ends: an empty line.
unfoldable pub starts_with : List ℕ → List ℕ → Bool
starts_with [] text = true
starts_with (c ∷ rest) [] = false
starts_with (c ∷ rest) (d ∷ text) = let more = starts_with rest text in c == d && more

-- `strstr`, as a test.
unfoldable pub contains : List ℕ → List ℕ → Bool
unfolding starts_with
contains needle [] = starts_with needle []
contains needle (c ∷ text) =
    let more = contains needle text in starts_with needle (c ∷ text) || more

abbrev pub ends_request : List ℕ → Bool
ends_request request = contains (13 ∷ 10 ∷ 13 ∷ 10 ∷ []) request || contains (10 ∷ 10 ∷ []) request

-- The loop of `recv`: the request, or `none` for a client that goes away.
unfoldable pub receive : List Read → List ℕ → Option (List ℕ)
unfolding contains
receive [] used = if ltb (length used) request_bytes then none else some used
receive (again ∷ more) used =
    let rest = receive more used in if ltb (length used) request_bytes then rest else some used
receive (broken_read ∷ more) used = if ltb (length used) request_bytes then none else some used
receive (gave chunk ∷ more) used =
    let taken = take (request_bytes - length used) chunk in
    let rest = receive more (used ++ taken) in
    if not (ltb (length used) request_bytes)
    then some used
    else if length taken == 0
    then none
    else if ends_request (used ++ taken)
    then some (used ++ taken)
    else rest

-- The answers of `handle_request`.
pub data Response : Type 0 where
  too_large bad_request get_only health not_found read_failed : Response
  image : (ℕ → ℕ) → Response

unfoldable pub status_of : Response → ℕ
status_of too_large = 413
status_of bad_request = 400
status_of get_only = 405
status_of health = 200
status_of not_found = 404
status_of read_failed = 503
status_of (image bitmap) = 200

abbrev pub byte_at : List ℕ → ℕ → ℕ
byte_at [] i = 0
byte_at (b ∷ bs) zero = b
byte_at (b ∷ bs) (suc i) = byte_at bs i

unfoldable pub frame_response : Option (List ℕ) → Response
unfolding build_bitmap
frame_response none = read_failed
frame_response (some frame) = image (build_bitmap (byte_at frame))

-- The part of `handle_request` behind `sscanf`, with the method and the path.
unfoldable pub route : Option (List Read) → Option (List ℕ × List ℕ) → Response
unfolding frame_response read_frame streq
route device none = bad_request
route device (some (method, path)) =
    if not (streq method (codes "GET"))
    then get_only
    else if streq path (codes "/health")
    then health
    else if not (streq path (codes "/")) && not (streq path (codes "/frame.bmp"))
    then not_found
    else frame_response (read_frame device)

abbrev answer_to :
    (List ℕ → Option (List ℕ × List ℕ)) → Option (List Read) → Option (List ℕ) → Option Response
answer_to scan device none = none
answer_to scan device (some request) =
    some (if length request == request_bytes then too_large else route device (scan request))

-- `handle_request`: the response that is sent, or `none` if there is none; `--once` ends the program
-- after a response.
unfoldable pub handle_request :
    (List ℕ → Option (List ℕ × List ℕ)) → Option (List Read) → List Read → Option Response
unfolding route receive
handle_request scan device reads = answer_to scan device (receive reads [])
