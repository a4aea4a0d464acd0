-- ===== src/Exif/Tests.antt =====
-- services/backend/app/services/exif.py on small files.
use chrome_chatgpt_data.Prelude.{◌≤◌, not, List, [], ◌∷◌, ◌++◌, ◌≡◌, refl, arith, length}
use chrome_chatgpt_data.Prelude.Rows.{select}
use chrome_chatgpt_data.Exif.{
  Bytes, png_loop, is_stripped_chunk, strip_jpeg_metadata, jpeg_soi, is_stripped_marker,
  is_standalone, jpeg_loop,
}
use chrome_chatgpt_data.Exif.Segments.{png_chunks, is_kept_chunk, png_loop_lem}
use chrome_chatgpt_data.Exif.Jpeg.{Segment, print, scan, strip_jpeg_metadata_lem}

-- A text chunk with one byte of data, and the end chunk.
abbrev two_chunks : Bytes
two_chunks =
    0 ∷ 0 ∷ 0 ∷ 1 ∷ 116 ∷ 69 ∷ 88 ∷ 116 ∷ 7 ∷ 1 ∷ 2 ∷ 3 ∷ 4 ∷ 0 ∷ 0 ∷ 0 ∷ 0 ∷ 73 ∷ 69 ∷ 78 ∷ 68 ∷ 9
    ∷ 9 ∷ 9 ∷ 9 ∷ []

text_gone : png_loop 25 two_chunks ≡ 0 ∷ 0 ∷ 0 ∷ 0 ∷ 73 ∷ 69 ∷ 78 ∷ 68 ∷ 9 ∷ 9 ∷ 9 ∷ 9 ∷ []
unfolding png_loop is_stripped_chunk
text_gone = refl

png_loop_lem_example :
    (png_chunks 25 (png_loop 25 two_chunks) ≡ select is_kept_chunk (png_chunks 25 two_chunks))
    × (length (png_loop 25 two_chunks) ≤ length two_chunks)
unfolding png_loop is_stripped_chunk
png_loop_lem_example = png_loop_lem 25 25 two_chunks (omega arith) (omega arith)

-- An Exif segment and a quantisation table.
abbrev two_segments : List Segment
two_segments =
    record { marker = 225; high = 0; low = 3; body = 5 ∷ [] }
    ∷ record { marker = 219; high = 0; low = 4; body = 6 ∷ 7 ∷ [] }
    ∷ []

strip_jpeg_metadata_lem_example :
    strip_jpeg_metadata (jpeg_soi ++ print two_segments ++ scan 1 2 (3 ∷ []))
    ≡ jpeg_soi
      ++ print (select (λ s. not (is_stripped_marker s.marker)) two_segments)
      ++ scan 1 2 (3 ∷ [])
unfolding is_standalone
strip_jpeg_metadata_lem_example = strip_jpeg_metadata_lem two_segments 1 2 (3 ∷ []) (
  record { counted = refl; with_length = refl; no_scan = refl },
  (record { counted = refl; with_length = refl; no_scan = refl }, tt),
)

-- A fill byte before the Exif marker: the loop takes it for a marker, and the file is copied as it is.
fill_byte_keeps_exif :
    strip_jpeg_metadata (255 ∷ 216 ∷ 255 ∷ 255 ∷ 225 ∷ 0 ∷ 3 ∷ 5 ∷ 255 ∷ 218 ∷ 1 ∷ 2 ∷ [])
    ≡ 255 ∷ 216 ∷ 255 ∷ 255 ∷ 225 ∷ 0 ∷ 3 ∷ 5 ∷ 255 ∷ 218 ∷ 1 ∷ 2 ∷ []
unfolding strip_jpeg_metadata jpeg_loop is_standalone is_stripped_marker
fill_byte_keeps_exif = refl
