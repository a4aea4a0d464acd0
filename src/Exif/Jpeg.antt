-- ===== src/Exif/Jpeg.antt =====
-- services/backend/app/services/exif.py, `strip_jpeg_metadata` on a file that is made of segments.
use mathlib.Core.List.{append_assoc}
use chrome_chatgpt_data.Prelude.{
  ℕ, zero, suc, ◌+◌, ◌-◌, ◌*◌, ◌≤◌, ◌<◌, Bool, false, not, ◌||◌, List, [], ◌∷◌, ◌++◌, ◌≡◌, refl,
  sym, ap, ◌∙◌, ltb, ◌==◌, arith, Bool-cases, inl, inr, if◌then◌else◌, length, take, drop,
  length-append, All,
}
use chrome_chatgpt_data.Prelude.Rows.{select}
use chrome_chatgpt_data.Exif.{
  Bytes, is_stripped_marker, is_standalone, jpeg_loop, jpeg_soi, strip_jpeg_metadata,
}

-- A segment: its marker, the two bytes of its length, and its body.
pub record Segment : Type 0 where
  pub marker : ℕ
  pub high : ℕ
  pub low : ℕ
  pub body : Bytes

-- The length counts its own two bytes; a marker alone and the start of scan have none.
pub record IsSegment (s : Segment) : Type 0 where
  pub counted : s.high * 256 + s.low ≡ length s.body + 2
  pub with_length : is_standalone s.marker ≡ false
  pub no_scan : (s.marker == 218) ≡ false

abbrev pub print : List Segment → Bytes
print [] = []
print (s ∷ ss) = 255 ∷ s.marker ∷ s.high ∷ s.low ∷ (s.body ++ print ss)

take_front : (n : ℕ) (xs ys : Bytes) → length xs ≡ n → take n (xs ++ ys) ≡ xs
take_front n [] ys e = rw (← e) refl
take_front zero (x ∷ xs) ys e = absurd (omega arith)
take_front (suc n) (x ∷ xs) ys e = rw (take_front n xs ys (omega arith)) refl

drop_front : (n : ℕ) (xs ys : Bytes) → length xs ≡ n → drop n (xs ++ ys) ≡ ys
drop_front n [] ys e = rw (← e) refl
drop_front zero (x ∷ xs) ys e = absurd (omega arith)
drop_front (suc n) (x ∷ xs) ys e = drop_front n xs ys (omega arith)

-- One step of the loop on a whole segment.
loop_segment :
    (k : ℕ) (s : Segment) (rest : Bytes)
    → IsSegment s
    → jpeg_loop (suc k) (255 ∷ s.marker ∷ s.high ∷ s.low ∷ (s.body ++ rest)) ≡ (
        if is_stripped_marker s.marker
        then jpeg_loop k rest
        else 255 ∷ s.marker ∷ s.high ∷ s.low ∷ (s.body ++ jpeg_loop k rest))
unfolding jpeg_loop
loop_segment k s rest h =
    let n = s.high * 256 + s.low - 2 in
    let exact : length s.body ≡ n = omega (arith, h.counted) in
    let fits : (ltb (s.high * 256 + s.low) 2 || ltb (length (s.body ++ rest)) n) ≡ false =
      ground (arith, h.counted, length-append s.body rest) in
    rw h.with_length (
      rw h.no_scan
        (rw fits (rw (take_front n s.body rest exact) (rw (drop_front n s.body rest exact) refl))))

-- The bytes from the start of scan on.
abbrev pub scan : ℕ → ℕ → Bytes → Bytes
scan high low rest = 255 ∷ 218 ∷ high ∷ low ∷ rest

abbrev is_copied : Segment → Bool
is_copied s = not (is_stripped_marker s.marker)

loop_segments :
    (k : ℕ) (ss : List Segment) (high low : ℕ) (rest : Bytes)
    → All IsSegment ss
    → length ss < k
    → jpeg_loop k (print ss ++ scan high low rest)
      ≡ print (select (λ s. not (is_stripped_marker s.marker)) ss) ++ scan high low rest
loop_segments zero ss high low rest h few = absurd (omega arith)
loop_segments (suc k) [] high low rest h few = unfold jpeg_loop in unfold is_standalone in refl
loop_segments (suc k) (s ∷ ss) high low rest h few =
    let ih = loop_segments k ss high low rest h.1 (omega arith) in
    let tail = scan high low rest in
    ap (λ bs. jpeg_loop (suc k) (255 ∷ s.marker ∷ s.high ∷ s.low ∷ bs))
      (append_assoc s.body (print ss) tail)
    ∙ loop_segment k s (print ss ++ tail) h.0
    ∙ elim (Bool-cases (is_stripped_marker s.marker)) [
      | inl t ↦ rw t ih
      | inr f ↦ rw f (
          ap (λ bs. 255 ∷ s.marker ∷ s.high ∷ s.low ∷ (s.body ++ bs)) ih
          ∙ ap (λ bs. 255 ∷ s.marker ∷ s.high ∷ s.low ∷ bs)
              (sym (
                append_assoc s.body (print (select (λ x. not (is_stripped_marker x.marker)) ss))
                  tail)))
    ]

length-print :
    (ss : List Segment) (tail : Bytes) → length ss + length tail ≤ length (print ss ++ tail)
length-print [] tail = omega arith
length-print (s ∷ ss) tail = omega (
  arith,
  length-print ss tail,
  length-append (s.body ++ print ss) tail,
  length-append s.body (print ss),
  length-append (print ss) tail,
)

-- A JPEG that is its start marker, any whole segments with a length, and the scan: the copy is the same
-- start, exactly the segments whose marker is not one of the stripped ones, byte for byte and in order,
-- and the whole scan. The loop's fuel, the length of the file, is enough.
pub strip_jpeg_metadata_lem :
    (ss : List Segment) (high low : ℕ) (rest : Bytes)
    → All IsSegment ss
    → strip_jpeg_metadata (jpeg_soi ++ print ss ++ scan high low rest)
      ≡ jpeg_soi ++ print (select (λ s. not (is_stripped_marker s.marker)) ss) ++ scan high low rest
unfolding strip_jpeg_metadata
strip_jpeg_metadata_lem ss high low rest h =
    ap (λ bs. jpeg_soi ++ bs)
      (loop_segments (length (jpeg_soi ++ print ss ++ scan high low rest)) ss high low rest h
        (omega (arith, length-print ss (scan high low rest))))
