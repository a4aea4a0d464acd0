-- ===== src/Exif.antt =====
-- services/backend/app/services/exif.py: the metadata of a JPEG or PNG is left out of a copy. A byte is a
-- number; the loops walk the bytes from `index` on, on fuel for each step.
pub mod Segments
pub mod Jpeg
mod Tests
use text.Mathlib.Text.{◌==◌ as str_eq}
use chrome_chatgpt_data.Prelude.{
  ℕ, zero, suc, ◌+◌, ◌-◌, ◌*◌, String, Bool, true, false, not, ◌&&◌, ◌||◌, Option, none, some, List,
  [], ◌∷◌, ◌++◌, ltb, leb, ◌==◌, if◌then◌else◌, length, take, drop,
}
use chrome_chatgpt_data.Prelude.Texts.{holds_str}

abbrev pub Bytes : Type 0
Bytes = List ℕ

abbrev pub bytes_eq : Bytes → Bytes → Bool
bytes_eq [] [] = true
bytes_eq (a ∷ cs) (b ∷ ds) = a == b && bytes_eq cs ds
bytes_eq _ _ = false

abbrev pub starts_with : Bytes → Bytes → Bool
starts_with [] ds = true
starts_with (p ∷ ps) [] = false
starts_with (p ∷ ps) (d ∷ ds) = p == d && starts_with ps ds

abbrev pub jpeg_soi : Bytes
jpeg_soi = 255 ∷ 216 ∷ []

-- `JPEG_STRIP_MARKERS`, in which `0xE13 & 0xFF` is 0x13.
pub is_stripped_marker : ℕ → Bool
is_stripped_marker m = m == 225 || m == 226 || m == 19 || m == 237 || m == 254

-- Markers that stand alone, without a length.
pub is_standalone : ℕ → Bool
is_standalone m = m == 216 || m == 1 || leb 208 m && leb m 215

-- The loop of `strip_jpeg_metadata` on `data[index:]`: what it adds to `out`. A segment is four bytes, of
-- which the length counts the last two, and its body.
unfoldable pub jpeg_loop : ℕ → Bytes → Bytes
unfolding is_stripped_marker is_standalone
jpeg_loop (suc fuel) (f ∷ m ∷ a ∷ b ∷ rest) =
    let segment_length = a * 256 + b in
    let body = segment_length - 2 in
    let after_marker = jpeg_loop fuel (a ∷ b ∷ rest) in
    let after_segment = jpeg_loop fuel (drop body rest) in
    if not (f == 255)
    then f ∷ m ∷ a ∷ b ∷ rest
    else if is_standalone m
    then f ∷ m ∷ after_marker
    else if m == 218
    then f ∷ m ∷ a ∷ b ∷ rest
    else if ltb segment_length 2 || ltb (length rest) body
    then f ∷ m ∷ a ∷ b ∷ rest
    else if is_stripped_marker m
    then after_segment
    else f ∷ m ∷ a ∷ b ∷ take body rest ++ after_segment
jpeg_loop _ _ = []

pub strip_jpeg_metadata : Bytes → Bytes
unfolding jpeg_loop
strip_jpeg_metadata d =
    if starts_with jpeg_soi d then jpeg_soi ++ jpeg_loop (length d) (drop 2 d) else d

abbrev pub png_magic : Bytes
png_magic = 137 ∷ 80 ∷ 78 ∷ 71 ∷ 13 ∷ 10 ∷ 26 ∷ 10 ∷ []

-- `b"tEXt"`, `b"iTXt"`, `b"zTXt"`, `b"eXIf"` and `b"tIME"`
pub is_stripped_chunk : Bytes → Bool
is_stripped_chunk t =
    bytes_eq t (116 ∷ 69 ∷ 88 ∷ 116 ∷ [])
    || bytes_eq t (105 ∷ 84 ∷ 88 ∷ 116 ∷ [])
    || bytes_eq t (122 ∷ 84 ∷ 88 ∷ 116 ∷ [])
    || bytes_eq t (101 ∷ 88 ∷ 73 ∷ 102 ∷ [])
    || bytes_eq t (116 ∷ 73 ∷ 77 ∷ 69 ∷ [])

abbrev pub is_iend : Bytes → Bool
is_iend t = bytes_eq t (73 ∷ 69 ∷ 78 ∷ 68 ∷ [])

-- What follows the eight bytes of length and type: the data and the checksum.
abbrev pub chunk_body : ℕ → ℕ → ℕ → ℕ → ℕ
chunk_body a b c d = ((a * 256 + b) * 256 + c) * 256 + d + 4

-- The loop of `strip_png_metadata` on `data[index:]`: what it adds to `out`.
unfoldable pub png_loop : ℕ → Bytes → Bytes
unfolding is_stripped_chunk
png_loop (suc fuel) (a ∷ b ∷ c ∷ d ∷ t ∷ u ∷ v ∷ w ∷ rest) =
    let chunk_type = t ∷ u ∷ v ∷ w ∷ [] in
    let body = chunk_body a b c d in
    let after = png_loop fuel (drop body rest) in
    let chunk = a ∷ b ∷ c ∷ d ∷ t ∷ u ∷ v ∷ w ∷ take body rest in
    let copied = if is_stripped_chunk chunk_type then [] else chunk in
    if ltb (length rest) body then [] else if is_iend chunk_type then copied else copied ++ after
png_loop _ _ = []

pub strip_png_metadata : Bytes → Bytes
unfolding png_loop
strip_png_metadata d =
    if starts_with png_magic d then png_magic ++ png_loop (length d) (drop 8 d) else d

-- `strip_metadata`: the copy, and whether it differs.
pub strip_metadata : Bytes → Option String → Bytes × Bool
unfolding strip_jpeg_metadata strip_png_metadata
strip_metadata d mime_type =
    let jpeg = strip_jpeg_metadata d in
    let png = strip_png_metadata d in
    if holds_str mime_type "image/jpeg"
    then (jpeg, not (bytes_eq jpeg d))
    else if holds_str mime_type "image/png"
    then (png, not (bytes_eq png d))
    else (d, false)
