-- ===== src/Exif/Segments.antt =====
-- services/backend/app/services/exif.py: what is left of a file, and that the fuel is enough.
use chrome_chatgpt_data.Prelude.{
  ℕ, zero, suc, ◌≤◌, Bool, true, false, not, List, [], ◌∷◌, ◌++◌, ◌≡◌, refl, ap, ◌∙◌, ltb, arith,
  Bool-cases, inl, inr, if◌then◌else◌, length, take, drop, length-drop, length-append, length-take,
}
use chrome_chatgpt_data.Prelude.Rows.{select}
use chrome_chatgpt_data.Exif.{Bytes, is_stripped_chunk, is_iend, chunk_body, png_loop}

-- The whole chunks of a PNG after its magic, up to the end chunk.
pub png_chunks : ℕ → Bytes → List Bytes
png_chunks (suc fuel) (a ∷ b ∷ c ∷ d ∷ t ∷ u ∷ v ∷ w ∷ rest) =
    let body = chunk_body a b c d in
    let after = png_chunks fuel (drop body rest) in
    let chunk = a ∷ b ∷ c ∷ d ∷ t ∷ u ∷ v ∷ w ∷ take body rest in
    if ltb (length rest) body
    then []
    else if is_iend (t ∷ u ∷ v ∷ w ∷ [])
    then chunk ∷ []
    else chunk ∷ after
png_chunks _ _ = []

-- The type of a chunk is not one of those that are stripped.
pub is_kept_chunk : Bytes → Bool
is_kept_chunk (a ∷ b ∷ c ∷ d ∷ t ∷ u ∷ v ∷ w ∷ rest) = not (is_stripped_chunk (t ∷ u ∷ v ∷ w ∷ []))
is_kept_chunk _ = true

take_all_of : (n : ℕ) (xs ys : Bytes) → length xs ≡ n → take n (xs ++ ys) ≡ xs
take_all_of n [] ys e = rw (← e) refl
take_all_of zero (x ∷ xs) ys e = absurd (omega arith)
take_all_of (suc n) (x ∷ xs) ys e = rw (take_all_of n xs ys (omega arith)) refl

drop_all_of : (n : ℕ) (xs ys : Bytes) → length xs ≡ n → drop n (xs ++ ys) ≡ ys
drop_all_of n [] ys e = rw (← e) refl
drop_all_of zero (x ∷ xs) ys e = absurd (omega arith)
drop_all_of (suc n) (x ∷ xs) ys e = drop_all_of n xs ys (omega arith)

-- A file without a whole chunk header has no chunks.
chunks_fuel :
    (k k' : ℕ) (ds : Bytes) → length ds ≤ k → length ds ≤ k' → png_chunks k ds ≡ png_chunks k' ds
unfolding png_chunks
chunks_fuel zero zero ds h h' = refl
chunks_fuel (suc k) (suc k') (a ∷ b ∷ c ∷ d ∷ t ∷ u ∷ v ∷ w ∷ rest) h h' =
    let body = chunk_body a b c d in
    let shorter = length-drop body rest in
    rw (chunks_fuel k k' (drop body rest) (omega (arith, shorter)) (omega (arith, shorter))) refl
chunks_fuel zero (suc k') [] h h' = refl
chunks_fuel zero (suc k') (x ∷ xs) h h' = absurd (omega arith)
chunks_fuel (suc k) zero [] h h' = refl
chunks_fuel (suc k) zero (x ∷ xs) h h' = absurd (omega arith)
chunks_fuel (suc k) (suc k') ([]) h h' = refl
chunks_fuel (suc k) (suc k') (a ∷ []) h h' = refl
chunks_fuel (suc k) (suc k') (a ∷ b ∷ []) h h' = refl
chunks_fuel (suc k) (suc k') (a ∷ b ∷ c ∷ []) h h' = refl
chunks_fuel (suc k) (suc k') (a ∷ b ∷ c ∷ d ∷ []) h h' = refl
chunks_fuel (suc k) (suc k') (a ∷ b ∷ c ∷ d ∷ t ∷ []) h h' = refl
chunks_fuel (suc k) (suc k') (a ∷ b ∷ c ∷ d ∷ t ∷ u ∷ []) h h' = refl
chunks_fuel (suc k) (suc k') (a ∷ b ∷ c ∷ d ∷ t ∷ u ∷ v ∷ []) h h' = refl

ltb-false : (m n : ℕ) → ltb m n ≡ false → n ≤ m
ltb-false m n h = ground arith

-- The copy is no longer than the file.
png_loop-length : (k : ℕ) (ds : Bytes) → length (png_loop k ds) ≤ length ds
unfolding png_loop
png_loop-length zero ds = omega arith
png_loop-length (suc k) (a ∷ b ∷ c ∷ d ∷ t ∷ u ∷ v ∷ w ∷ rest) =
    let body = chunk_body a b c d in
    let chunk = a ∷ b ∷ c ∷ d ∷ t ∷ u ∷ v ∷ w ∷ take body rest in
    let after = png_loop k (drop body rest) in
    let shorter = length-drop body rest in
    let cut = length-take body rest in
    let joined = length-append chunk after in
    let ih = png_loop-length k (drop body rest) in
    elim (Bool-cases (ltb (length rest) body)) [
      | inl t ↦ rw t (omega arith)
      | inr f ↦ rw f (elim (Bool-cases (is_iend (t ∷ u ∷ v ∷ w ∷ []))) [
        | inl e ↦ rw e (elim (Bool-cases (is_stripped_chunk (t ∷ u ∷ v ∷ w ∷ []))) [
          | inl g ↦ rw g (omega arith)
          | inr g ↦ rw g (omega (arith, cut))
        ])
        | inr e ↦ rw e (elim (Bool-cases (is_stripped_chunk (t ∷ u ∷ v ∷ w ∷ []))) [
          | inl g ↦ rw g (omega (arith, ih, shorter))
          | inr g ↦ rw g (omega (arith, ih, shorter, cut, joined, ltb-false (length rest) body f))
        ])
      ])
    ]
png_loop-length (suc k) ([]) = omega arith
png_loop-length (suc k) (a ∷ []) = omega arith
png_loop-length (suc k) (a ∷ b ∷ []) = omega arith
png_loop-length (suc k) (a ∷ b ∷ c ∷ []) = omega arith
png_loop-length (suc k) (a ∷ b ∷ c ∷ d ∷ []) = omega arith
png_loop-length (suc k) (a ∷ b ∷ c ∷ d ∷ t ∷ []) = omega arith
png_loop-length (suc k) (a ∷ b ∷ c ∷ d ∷ t ∷ u ∷ []) = omega arith
png_loop-length (suc k) (a ∷ b ∷ c ∷ d ∷ t ∷ u ∷ v ∷ []) = omega arith

-- Parsing a whole chunk in front of the rest gives the chunk and the chunks of the rest.
chunk_first :
    (k a b c d t u v w : ℕ) (xs rest : Bytes)
    → length xs ≡ chunk_body a b c d
    → is_iend (t ∷ u ∷ v ∷ w ∷ []) ≡ false
    → png_chunks (suc k) ((a ∷ b ∷ c ∷ d ∷ t ∷ u ∷ v ∷ w ∷ xs) ++ rest)
      ≡ (a ∷ b ∷ c ∷ d ∷ t ∷ u ∷ v ∷ w ∷ xs) ∷ png_chunks k rest
unfolding png_chunks
chunk_first k a b c d t u v w xs rest whole open_ =
    let body = chunk_body a b c d in
    let fits : ltb (length (xs ++ rest)) body ≡ false = ground (arith, length-append xs rest) in
    rw fits
      (rw open_ (rw (take_all_of body xs rest whole) (rw (drop_all_of body xs rest whole) refl)))

take_whole : (n : ℕ) (xs : Bytes) → length xs ≡ n → take n xs ≡ xs
take_whole n [] e = rw (← e) refl
take_whole zero (x ∷ xs) e = absurd (omega arith)
take_whole (suc n) (x ∷ xs) e = rw (take_whole n xs (omega arith)) refl

-- The end chunk by itself.
chunk_last :
    (k a b c d t u v w : ℕ) (xs : Bytes)
    → length xs ≡ chunk_body a b c d
    → is_iend (t ∷ u ∷ v ∷ w ∷ []) ≡ true
    → png_chunks (suc k) (a ∷ b ∷ c ∷ d ∷ t ∷ u ∷ v ∷ w ∷ xs)
      ≡ (a ∷ b ∷ c ∷ d ∷ t ∷ u ∷ v ∷ w ∷ xs) ∷ []
unfolding png_chunks
chunk_last k a b c d t u v w xs whole end =
    let fits : ltb (length xs) (chunk_body a b c d) ≡ false = ground arith in
    rw fits (rw end (rw (take_whole (chunk_body a b c d) xs whole) refl))

no_chunks : (k : ℕ) → png_chunks k [] ≡ []
unfolding png_chunks
no_chunks zero = refl
no_chunks (suc k) = refl

-- The clauses of `strip_lem` for a chunk that is copied, by whether it is the end.
end_copied :
    (k a b c d t u v w : ℕ) (xs : Bytes)
    → length xs ≡ chunk_body a b c d
    → is_iend (t ∷ u ∷ v ∷ w ∷ []) ≡ true
    → length (a ∷ b ∷ c ∷ d ∷ t ∷ u ∷ v ∷ w ∷ xs) ≤ k
    → png_chunks k (a ∷ b ∷ c ∷ d ∷ t ∷ u ∷ v ∷ w ∷ xs) ≡ (a ∷ b ∷ c ∷ d ∷ t ∷ u ∷ v ∷ w ∷ xs) ∷ []
end_copied zero a b c d t u v w xs whole end h = absurd (omega arith)
end_copied (suc k) a b c d t u v w xs whole end h = chunk_last k a b c d t u v w xs whole end

chunk_copied :
    (k a b c d t u v w : ℕ) (xs after : Bytes) (chunks : List Bytes)
    → length xs ≡ chunk_body a b c d
    → is_iend (t ∷ u ∷ v ∷ w ∷ []) ≡ false
    → length ((a ∷ b ∷ c ∷ d ∷ t ∷ u ∷ v ∷ w ∷ xs) ++ after) ≤ k
    → ((k' : ℕ) → length after ≤ k' → png_chunks k' after ≡ chunks)
    → png_chunks k ((a ∷ b ∷ c ∷ d ∷ t ∷ u ∷ v ∷ w ∷ xs) ++ after)
      ≡ (a ∷ b ∷ c ∷ d ∷ t ∷ u ∷ v ∷ w ∷ xs) ∷ chunks
chunk_copied zero a b c d t u v w xs after chunks whole open_ h ih = absurd (omega arith)
chunk_copied (suc k) a b c d t u v w xs after chunks whole open_ h ih =
    chunk_first k a b c d t u v w xs after whole open_
    ∙ ap (λ cs. (a ∷ b ∷ c ∷ d ∷ t ∷ u ∷ v ∷ w ∷ xs) ∷ cs)
        (ih k (omega (arith, length-append xs after)))

strip_lem :
    (k : ℕ) (ds : Bytes)
    → length ds ≤ k
    → (k' : ℕ) → length (png_loop k ds) ≤ k'
    → png_chunks k' (png_loop k ds) ≡ select is_kept_chunk (png_chunks k ds)
unfolding png_loop png_chunks is_kept_chunk
strip_lem zero ds h k' = λ h'. no_chunks k'
strip_lem (suc k) (a ∷ b ∷ c ∷ d ∷ t ∷ u ∷ v ∷ w ∷ rest) h k' =
    let body = chunk_body a b c d in
    let type = t ∷ u ∷ v ∷ w ∷ [] in
    let after = png_loop k (drop body rest) in
    let shorter = length-drop body rest in
    let ih = strip_lem k (drop body rest) (omega (arith, shorter)) in
    elim (Bool-cases (ltb (length rest) body)) [
      | inl x ↦ rw x (λ h'. no_chunks k')
      | inr f ↦
          let whole : length (take body rest) ≡ body =
            omega (arith, length-take body rest, ltb-false (length rest) body f) in
          rw f (elim (Bool-cases (is_iend type)) [
            | inl e ↦ rw e (elim (Bool-cases (is_stripped_chunk type)) [
              | inl g ↦ rw g (λ h'. no_chunks k')
              | inr g ↦ rw g (λ h'. end_copied k' a b c d t u v w (take body rest) whole e h')
            ])
            | inr e ↦ rw e (elim (Bool-cases (is_stripped_chunk type)) [
              | inl g ↦ rw g (λ h'. ih k' h')
              | inr g ↦ rw g (λ h'.
                  chunk_copied k' a b c d t u v w (take body rest) after
                    (select is_kept_chunk (png_chunks k (drop body rest))) whole e h' ih)
            ])
          ])
    ]
strip_lem (suc k) ([]) h k' = λ h'. no_chunks k'
strip_lem (suc k) (a ∷ []) h k' = λ h'. no_chunks k'
strip_lem (suc k) (a ∷ b ∷ []) h k' = λ h'. no_chunks k'
strip_lem (suc k) (a ∷ b ∷ c ∷ []) h k' = λ h'. no_chunks k'
strip_lem (suc k) (a ∷ b ∷ c ∷ d ∷ []) h k' = λ h'. no_chunks k'
strip_lem (suc k) (a ∷ b ∷ c ∷ d ∷ t ∷ []) h k' = λ h'. no_chunks k'
strip_lem (suc k) (a ∷ b ∷ c ∷ d ∷ t ∷ u ∷ []) h k' = λ h'. no_chunks k'
strip_lem (suc k) (a ∷ b ∷ c ∷ d ∷ t ∷ u ∷ v ∷ []) h k' = λ h'. no_chunks k'

-- For every run of bytes after the magic, with fuel for its length: what `strip_png_metadata` copies,
-- read with any fuel for its length, has exactly the chunks of the original whose type is not stripped,
-- each as it was and in order, up to the end chunk; and the copy is no longer than the original.
pub png_loop_lem :
    (k k' : ℕ) (ds : Bytes)
    → length ds ≤ k
    → length (png_loop k ds) ≤ k'
    → (png_chunks k' (png_loop k ds) ≡ select is_kept_chunk (png_chunks k ds))
      × (length (png_loop k ds) ≤ length ds)
png_loop_lem k k' ds h h' = (strip_lem k ds h k' h', png_loop-length k ds)
