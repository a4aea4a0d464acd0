-- ===== src/Sanitize/Laws.antt =====
-- services/backend/app/core/sanitize.py, `clean_plain_text`: the form of its result.
use chrome_chatgpt_data.Prelude.{
  ℕ, zero, suc, ◌≤◌, Bool, true, false, [], ◌∷◌, ◌≡◌, refl, inl, inr, length, take, length-take,
  All, All-take, arith, Bool-cases,
}
use chrome_chatgpt_data.Prelude.Rows.{select, select_passes}
use chrome_chatgpt_data.Prelude.Texts.{Text}
use chrome_chatgpt_data.Sanitize.{
  is_kept, is_blank, is_space, strip_control_characters, collapse, strip_left, push_kept,
  strip_right, strip, clean_plain_text,
}

-- Every blank is a space, and none follows a blank; the flag tells that one stands before the text.
abbrev pub Collapsed : Bool → Text → Type 0
Collapsed after [] = Unit
Collapsed after (c ∷ cs) =
    (is_blank c ≡ true → (c ≡ 32) × (after ≡ false)) × Collapsed (is_blank c) cs

abbrev pub last_code : ℕ → Text → ℕ
last_code c [] = c
last_code c (d ∷ ds) = last_code d ds

-- It neither begins nor ends with white space.
abbrev pub Trimmed : Text → Type 0
Trimmed [] = Unit
Trimmed (c ∷ cs) = (is_space c ≡ false) × (is_space (last_code c cs) ≡ false)

collapse-Collapsed : (b : Bool) (t : Text) → Collapsed b (collapse b t)
unfolding collapse is_blank
collapse-Collapsed b [] = tt
collapse-Collapsed true (c ∷ cs) =
    ground (arith, collapse-Collapsed true cs, collapse-Collapsed false cs)
collapse-Collapsed false (c ∷ cs) =
    ground (arith, collapse-Collapsed true cs, collapse-Collapsed false cs)

collapse_fixed : (b : Bool) (t : Text) → Collapsed b t → collapse b t ≡ t
unfolding collapse is_blank
collapse_fixed b [] h = refl
collapse_fixed true (c ∷ cs) h = ground (arith, collapse_fixed true cs, collapse_fixed false cs)
collapse_fixed false (c ∷ cs) h = ground (arith, collapse_fixed true cs, collapse_fixed false cs)

take-Collapsed : (n : ℕ) (b : Bool) (t : Text) → Collapsed b t → Collapsed b (take n t)
take-Collapsed zero b t h = tt
take-Collapsed (suc n) b [] h = tt
take-Collapsed (suc n) b (c ∷ cs) h = (h.0, take-Collapsed n (is_blank c) cs h.1)

push_kept-Collapsed :
    (b : Bool) (c : ℕ) (cs : Text)
    → (is_blank c ≡ true → (c ≡ 32) × (b ≡ false))
    → Collapsed (is_blank c) cs
    → Collapsed b (push_kept c cs)
unfolding push_kept
push_kept-Collapsed b c [] h k = ground arith
push_kept-Collapsed b c (d ∷ ds) h k = (h, k)

strip_right-Collapsed : (b : Bool) (t : Text) → Collapsed b t → Collapsed b (strip_right t)
unfolding strip_right
strip_right-Collapsed b [] h = tt
strip_right-Collapsed b (c ∷ cs) h =
    push_kept-Collapsed b c (strip_right cs) h.0 (strip_right-Collapsed (is_blank c) cs h.1)

Collapsed-start : (b : Bool) (t : Text) → Collapsed b t → Collapsed false t
Collapsed-start b [] h = tt
Collapsed-start b (c ∷ cs) h = ground arith

strip_left-Collapsed : (b : Bool) (t : Text) → Collapsed b t → Collapsed false (strip_left t)
unfolding strip_left
strip_left-Collapsed b [] h = tt
strip_left-Collapsed b (c ∷ cs) h = elim (Bool-cases (is_space c)) [
  | inl s ↦ rw s (strip_left-Collapsed (is_blank c) cs h.1)
  | inr n ↦ rw n (Collapsed-start b (c ∷ cs) h)
]

-- A stripped end: empty, or its last code point is no white space.
abbrev Ended : Text → Type 0
Ended [] = Unit
Ended (c ∷ cs) = is_space (last_code c cs) ≡ false

strip_right-Ended : (t : Text) → Ended (strip_right t)
unfolding strip_right push_kept
strip_right-Ended [] = tt
strip_right-Ended (c ∷ cs) = go (strip_right cs) (strip_right-Ended cs)
  where
    go : (r : Text) → Ended r → Ended (push_kept c r)
    go [] h = ground arith
    go (d ∷ ds) h = h

strip_left-Trimmed : (t : Text) → Ended t → Trimmed (strip_left t)
unfolding strip_left
strip_left-Trimmed [] h = tt
strip_left-Trimmed (c ∷ []) h = ground arith
strip_left-Trimmed (c ∷ d ∷ ds) h = elim (Bool-cases (is_space c)) [
  | inl s ↦ rw s (strip_left-Trimmed (d ∷ ds) h)
  | inr n ↦ rw n (n, h)
]

strip_left_fixed : (t : Text) → Trimmed t → strip_left t ≡ t
unfolding strip_left
strip_left_fixed [] h = refl
strip_left_fixed (c ∷ cs) h = rw (h.0) refl

strip_right_fixed :
    (c : ℕ) (cs : Text) → is_space (last_code c cs) ≡ false → strip_right (c ∷ cs) ≡ c ∷ cs
unfolding strip_right push_kept
strip_right_fixed c [] h = rw h refl
strip_right_fixed c (d ∷ ds) h = rw (strip_right_fixed d ds h) refl

strip_fixed : (t : Text) → Trimmed t → strip t ≡ t
unfolding strip
strip_fixed [] h = refl
strip_fixed (c ∷ cs) h = rw (strip_right_fixed c cs h.1) (strip_left_fixed (c ∷ cs) h)

abbrev Kept : Text → Type 0
Kept = All (λ c. is_kept c ≡ true)

collapse-Kept : (b : Bool) (t : Text) → Kept t → Kept (collapse b t)
unfolding collapse is_kept is_blank
collapse-Kept b [] h = tt
collapse-Kept true (c ∷ cs) h =
    ground (arith, collapse-Kept true cs h.1, collapse-Kept false cs h.1)
collapse-Kept false (c ∷ cs) h =
    ground (arith, collapse-Kept true cs h.1, collapse-Kept false cs h.1)

strip_left-Kept : (t : Text) → Kept t → Kept (strip_left t)
unfolding strip_left
strip_left-Kept [] h = tt
strip_left-Kept (c ∷ cs) h = ground (arith, strip_left-Kept cs h.1, h)

strip_right-Kept : (t : Text) → Kept t → Kept (strip_right t)
unfolding strip_right push_kept
strip_right-Kept [] h = tt
strip_right-Kept (c ∷ cs) h = go (strip_right cs) (strip_right-Kept cs h.1)
  where
    go : (r : Text) → Kept r → Kept (push_kept c r)
    go [] k = ground (arith, h.0)
    go (d ∷ ds) k = (h.0, k)

strip_left-length : (t : Text) → length (strip_left t) ≤ length t
unfolding strip_left
strip_left-length [] = omega arith
strip_left-length (c ∷ cs) = ground (arith, strip_left-length cs)

push_kept-length : (c : ℕ) (r : Text) → length (push_kept c r) ≤ suc (length r)
unfolding push_kept
push_kept-length c [] = ground arith
push_kept-length c (d ∷ ds) = omega arith

strip_right-length : (t : Text) → length (strip_right t) ≤ length t
unfolding strip_right
strip_right-length [] = omega arith
strip_right-length (c ∷ cs) =
    omega (arith, push_kept-length c (strip_right cs), strip_right-length cs)

take_all : (n : ℕ) (t : Text) → length t ≤ n → take n t ≡ t
take_all zero [] h = refl
take_all zero (c ∷ cs) h = absurd (omega arith)
take_all (suc n) [] h = refl
take_all (suc n) (c ∷ cs) h = rw (take_all n cs (omega arith)) refl

select_fixed : (t : Text) → Kept t → select is_kept t ≡ t
select_fixed [] h = refl
select_fixed (c ∷ cs) h = rw h.0 (rw (select_fixed cs h.1) refl)

-- A text that is already clean, by the four marks of `clean_plain_text_lem`, is its own cleaning.
clean_fixed :
    (n : ℕ) (t : Text)
    → Kept t
    → Collapsed false t
    → Trimmed t
    → length t ≤ n
    → clean_plain_text n t ≡ t
unfolding clean_plain_text strip_control_characters
clean_fixed n t k c s l =
    rw (select_fixed t k) (rw (collapse_fixed false t c) (rw (take_all n t l) (strip_fixed t s)))

-- For every text and every limit, the cleaned text is no longer than the limit, holds no control
-- character but tabs, newlines and returns, holds of the blanks only single spaces, neither begins
-- nor ends with white space, and is left as it is by a second cleaning.
pub clean_plain_text_lem :
    (n : ℕ) (t : Text)
    → let r = clean_plain_text n t in
      (length r ≤ n)
      × All (λ c. is_kept c ≡ true) r
      × Collapsed false r
      × Trimmed r
      × (clean_plain_text n r ≡ r)
clean_plain_text_lem n t = (
  unfold clean_plain_text in short,
  unfold clean_plain_text in kept,
  unfold clean_plain_text in collapsed,
  unfold clean_plain_text in trimmed,
  unfold clean_plain_text in clean_fixed n (strip cut) kept collapsed trimmed short,
)
  where
    raw : Text
    raw = collapse false (strip_control_characters t)

    cut : Text
    cut = take n raw

    short : length (strip cut) ≤ n
    short =
        unfold strip in
        omega
          (arith, strip_left-length (strip_right cut), strip_right-length cut, length-take n raw)

    kept : Kept (strip cut)
    kept =
        unfold strip in
        strip_left-Kept (strip_right cut) (
          strip_right-Kept cut (
            All-take (λ c. is_kept c ≡ true) n raw
              (collapse-Kept false (strip_control_characters t)
                (unfold strip_control_characters in select_passes is_kept t))))

    collapsed : Collapsed false (strip cut)
    collapsed =
        unfold strip in
        strip_left-Collapsed false (strip_right cut) (
          strip_right-Collapsed false cut
            (take-Collapsed n false raw (collapse-Collapsed false (strip_control_characters t))))

    trimmed : Trimmed (strip cut)
    trimmed = unfold strip in strip_left-Trimmed (strip_right cut) (strip_right-Ended cut)
