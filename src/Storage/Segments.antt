-- ===== src/Storage/Segments.antt =====
-- services/backend/app/services/storage.py, `_key_segment`: what a part of an object key may hold.
use chrome_chatgpt_data.Prelude.{
  ℕ, ◌≤◌, ◌≡◌, refl, true, [], ◌∷◌, take, length, All, All-take, arith, Bool-cases, inl, inr,
  length-take,
}
use chrome_chatgpt_data.Prelude.Texts.{Text}
use chrome_chatgpt_data.Sanitize.{strip}
use chrome_chatgpt_data.Filenames.{strip_marks, or_text}
use chrome_chatgpt_data.Filenames.Laws.{strip_marks-All, or_text-All, length-strip_marks}
use chrome_chatgpt_data.Storage.{is_key_char, replace_unsafe, key_segment}

abbrev pub IsKeyText : Text → Type 0
IsKeyText t = All (λ c. is_key_char c ≡ true) t

replace_unsafe-IsKeyText : (t : Text) → IsKeyText (replace_unsafe t)
unfolding replace_unsafe
replace_unsafe-IsKeyText [] = tt
replace_unsafe-IsKeyText (c ∷ cs) = elim (Bool-cases (is_key_char c)) [
  | inl t ↦ (rw t t, replace_unsafe-IsKeyText cs)
  | inr f ↦ (rw f refl, replace_unsafe-IsKeyText cs)
]

or_text_bounds :
    (t d : Text) (n : ℕ)
    → length t ≤ n
    → 1 ≤ length d
    → length d ≤ n
    → (1 ≤ length (or_text t d)) × (length (or_text t d) ≤ n)
or_text_bounds [] d n h k l = (k, l)
or_text_bounds (c ∷ cs) d n h k l = (omega arith, h)

-- A part of an object key, whatever the value, is not empty, has at most as many characters as allowed
-- and is made of letters, digits and the marks dot, underscore, colon, at and dash, if the fallback is:
-- no value makes a new level of the key or a control character in it.
pub key_segment_lem :
    (n : ℕ) (fallback value : Text)
    → 1 ≤ length fallback
    → length fallback ≤ n
    → IsKeyText fallback
    → (1 ≤ length (key_segment n fallback value))
      × (length (key_segment n fallback value) ≤ n)
      × IsKeyText (key_segment n fallback value)
unfolding key_segment
key_segment_lem n fallback value some_char short plain =
    let cut = take n (replace_unsafe (strip value)) in
    let (lower, upper) =
      or_text_bounds (strip_marks cut) fallback n
        (omega (arith, length-strip_marks cut, length-take n (replace_unsafe (strip value))))
        some_char short in
    (
      lower,
      upper,
      or_text-All (λ c. is_key_char c ≡ true) (strip_marks cut) fallback
          (strip_marks-All (λ c. is_key_char c ≡ true) cut
            (All-take (λ c. is_key_char c ≡ true) n _ (replace_unsafe-IsKeyText (strip value))))
          plain,
    )
