-- ===== src/Attachments/Bytes.antt =====
-- services/backend/app/services/attachments.py, `detect_mime_from_bytes`: the type that the first bytes
-- tell, and Python's strict decoding of UTF-8.
use text.Mathlib.Text.{◌==◌ as str_eq}
use chrome_chatgpt_data.Prelude.{
  ℕ, zero, suc, String, Bool, true, false, ◌&&◌, Option, none, some, List, [], ◌∷◌, ltb, leb, ◌==◌,
  if◌then◌else◌, take, drop,
}
use chrome_chatgpt_data.Prelude.Texts.{codes, text_in}
use chrome_chatgpt_data.Exif.{Bytes, bytes_eq, starts_with, png_magic}
use chrome_chatgpt_data.Attachments.{docx, xlsx, pptx}

-- `MAGIC_BYTES`, one entry to each prefix.
abbrev pub magic_bytes : List (String × Bytes)
magic_bytes =
    ("image/png", png_magic)
    ∷ ("image/jpeg", 255 ∷ 216 ∷ 255 ∷ [])
    ∷ ("image/gif", codes "GIF87a")
    ∷ ("image/gif", codes "GIF89a")
    ∷ ("image/webp", codes "RIFF")
    ∷ ("application/pdf", codes "%PDF-")
    ∷ (docx, 80 ∷ 75 ∷ 3 ∷ 4 ∷ [])
    ∷ (xlsx, 80 ∷ 75 ∷ 3 ∷ 4 ∷ [])
    ∷ (pptx, 80 ∷ 75 ∷ 3 ∷ 4 ∷ [])
    ∷ []

-- `len(data) >= 12 and data[8:12] == b"WEBP"`; a slice that is too short differs.
abbrev pub is_webp : Bytes → Bool
is_webp bytes = bytes_eq (take 4 (drop 8 bytes)) (codes "WEBP")

abbrev pub accepts : Bytes → String → Bytes → Bool
accepts bytes mime prefix =
    starts_with prefix (take 16 bytes) && (if str_eq mime "image/webp" then is_webp bytes else true)

-- The loop over the prefixes.
unfoldable pub sniff : Bytes → List (String × Bytes) → Option String
sniff bytes [] = none
sniff bytes ((mime, prefix) ∷ rest) =
    let later = sniff bytes rest in if accepts bytes mime prefix then some mime else later

-- The state of the decoder: the number of bytes that must follow, and the range of the next one.
pub record Awaited : Type 0 where
  pub need : ℕ
  pub lowest : ℕ
  pub highest : ℕ

abbrev pub awaited : ℕ → ℕ → ℕ → Awaited
awaited n lo hi = record { need = n; lowest = lo; highest = hi }

abbrev pub start : Awaited
start = awaited 0 128 191

-- The first byte of a character.
unfoldable pub lead : ℕ → Option Awaited
lead b =
    if ltb b 128
    then some start
    else if leb 194 b && leb b 223
    then some (awaited 1 128 191)
    else if b == 224
    then some (awaited 2 160 191)
    else if b == 237
    then some (awaited 2 128 159)
    else if leb 225 b && leb b 239
    then some (awaited 2 128 191)
    else if b == 240
    then some (awaited 3 144 191)
    else if leb 241 b && leb b 243
    then some (awaited 3 128 191)
    else if b == 244
    then some (awaited 3 128 143)
    else none

abbrev pub follow : ℕ → ℕ → ℕ → ℕ → Option Awaited
follow zero lo hi b = lead b
follow (suc n) lo hi b = if leb lo b && leb b hi then some (awaited n 128 191) else none

abbrev pub decode_byte : Option Awaited → ℕ → Option Awaited
decode_byte none b = none
decode_byte (some s) b = follow s.need s.lowest s.highest b

unfoldable pub decode_from : Option Awaited → Bytes → Option Awaited
decode_from s [] = s
decode_from s (b ∷ bs) = decode_from (decode_byte s b) bs

abbrev pub is_whole : Option Awaited → Bool
is_whole none = false
is_whole (some s) = s.need == 0

-- `data.decode("utf-8")` raises nothing.
unfoldable pub is_utf8 : Bytes → Bool
unfolding decode_from
is_utf8 bytes = is_whole (decode_from (some start) bytes)

-- `TEXTUAL_MIME_TYPES`
abbrev pub is_textual : String → Bool
is_textual mime =
    text_in mime ("text/plain" ∷ "text/csv" ∷ "text/markdown" ∷ "application/json" ∷ [])

abbrev pub textual : Bytes → Option String → Option String
textual bytes none = none
textual bytes (some mime) =
    if is_textual mime && is_utf8 (take 65536 bytes) then some mime else none

abbrev pub detected_or : Option String → Option String → Option String
detected_or none other = other
detected_or (some mime) other = some mime

unfoldable pub detect_mime_from_bytes : Bytes → Option String → Option String
unfolding sniff
detect_mime_from_bytes bytes declared =
    detected_or (sniff bytes magic_bytes) (textual bytes declared)
