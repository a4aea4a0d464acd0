-- ===== src/Filenames/Laws.antt =====
-- services/backend/app/core/crypto.py, `safe_filename`: the length and the code points of a name.
use chrome_chatgpt_data.Prelude.{
  ℕ, ◌+◌, ◌-◌, ◌≤◌, ◌≡◌, refl, Bool, true, false, [], ◌∷◌, map, ltb, ◌==◌, length, take,
  if◌then◌else◌, length-append, length-take, All, All-take, All-append, arith, Bool-cases, inl, inr,
}
use chrome_chatgpt_data.Prelude.Rows.{select}
use chrome_chatgpt_data.Prelude.Texts.{Text, codes}
use mathlib.Core.Bool.{false≢true}
use chrome_chatgpt_data.Filenames.{
  all_chars, Unicode, is_safe, collapse_dots, is_mark, strip_left, strip_right, strip_marks,
  or_text, fallback, push_kept, bounded_name, clean_stem, name_of, name_parts, safe_filename,
  after_slash, rpartition,
}

-- Every code point is a letter, a digit, a dot, a dash or an underscore.
abbrev pub IsPlain : Text → Type 0
IsPlain t = All (λ c. is_safe c ≡ true) t

all_chars-IsPlain : (t : Text) → all_chars is_safe t ≡ true → IsPlain t
all_chars-IsPlain [] h = tt
all_chars-IsPlain (c ∷ cs) h = elim (Bool-cases (is_safe c)) [
  | inl t ↦ (t, all_chars-IsPlain cs (rw t at h))
  | inr f ↦ absurd (false≢true (rw f at h))
]

map-IsPlain : (t : Text) → IsPlain (map (λ c. if is_safe c then c else 95) t)
map-IsPlain [] = tt
map-IsPlain (c ∷ cs) = elim (Bool-cases (is_safe c)) [
  | inl t ↦ (rw t t, map-IsPlain cs)
  | inr f ↦ (rw f refl, map-IsPlain cs)
]

collapse_dots-IsPlain : (b : Bool) (t : Text) → IsPlain t → IsPlain (collapse_dots b t)
unfolding collapse_dots
collapse_dots-IsPlain b [] h = tt
collapse_dots-IsPlain true (c ∷ cs) h = elim (Bool-cases (c == 46)) [
  | inl t ↦ rw t (collapse_dots-IsPlain true cs h.1)
  | inr f ↦ rw f (h.0, collapse_dots-IsPlain false cs h.1)
]
collapse_dots-IsPlain false (c ∷ cs) h = elim (Bool-cases (c == 46)) [
  | inl t ↦ rw t (refl, collapse_dots-IsPlain true cs h.1)
  | inr f ↦ rw f (h.0, collapse_dots-IsPlain false cs h.1)
]

module _ (P : ℕ → Type 0) where
  strip_left-All : (p : ℕ → Bool) (t : Text) → All P t → All P (strip_left p t)
  unfolding strip_left
  strip_left-All p [] h = tt
  strip_left-All p (c ∷ cs) h = elim (Bool-cases (p c)) [
    | inl t ↦ rw t (strip_left-All p cs h.1)
    | inr f ↦ rw f h
  ]

  push_kept-All : (p : ℕ → Bool) (c : ℕ) (t : Text) → P c → All P t → All P (push_kept p c t)
  push_kept-All p c [] s h = elim (Bool-cases (p c)) [ inl t ↦ rw t tt | inr f ↦ rw f (s, tt) ]
  push_kept-All p c (d ∷ ds) s h = (s, h)

  strip_right-All : (p : ℕ → Bool) (t : Text) → All P t → All P (strip_right p t)
  unfolding strip_right
  strip_right-All p [] h = tt
  strip_right-All p (c ∷ cs) h = push_kept-All p c (strip_right p cs) h.0 (strip_right-All p cs h.1)

  pub strip_marks-All : (t : Text) → All P t → All P (strip_marks t)
  unfolding strip_marks
  strip_marks-All t h = strip_left-All is_mark _ (strip_right-All is_mark t h)

  pub or_text-All : (t d : Text) → All P t → All P d → All P (or_text t d)
  or_text-All [] d h k = k
  or_text-All (c ∷ cs) d h k = h

length-strip_left : (p : ℕ → Bool) (t : Text) → length (strip_left p t) ≤ length t
unfolding strip_left
length-strip_left p [] = omega arith
length-strip_left p (c ∷ cs) = ground (arith, length-strip_left p cs)

length-push_kept : (p : ℕ → Bool) (c : ℕ) (t : Text) → length (push_kept p c t) ≤ length t + 1
length-push_kept p c [] = ground arith
length-push_kept p c (d ∷ ds) = omega arith

length-strip_right : (p : ℕ → Bool) (t : Text) → length (strip_right p t) ≤ length t
unfolding strip_right
length-strip_right p [] = omega arith
length-strip_right p (c ∷ cs) =
    omega (arith, length-push_kept p c (strip_right p cs), length-strip_right p cs)

pub length-strip_marks : (t : Text) → length (strip_marks t) ≤ length t
unfolding strip_marks
length-strip_marks t =
    omega (arith, length-strip_left is_mark (strip_right is_mark t), length-strip_right is_mark t)

clean_stem-IsPlain : (stem : Text) → IsPlain (clean_stem stem)
clean_stem-IsPlain stem =
    or_text-All (λ c. is_safe c ≡ true) _ (codes "file")
      (strip_marks-All (λ c. is_safe c ≡ true) _ (collapse_dots-IsPlain false _ (map-IsPlain stem)))
      (all_chars-IsPlain (codes "file") refl)

fallback-IsPlain : IsPlain fallback
fallback-IsPlain = all_chars-IsPlain fallback refl

-- A name is at most as long as allowed, and plain if its extension is.
bounded_name_lem :
    (n : ℕ) (stem ext : Text)
    → 14 ≤ n
    → (length (bounded_name n stem ext) ≤ n)
      × (IsPlain stem → IsPlain ext → IsPlain (bounded_name n stem ext))
unfolding bounded_name
bounded_name_lem n stem [] le = elim (Bool-cases (ltb n 1)) [
  | inl t ↦ rw t (le, λ s e. fallback-IsPlain)
  | inr f ↦
      rw f (omega (arith, length-take n stem), λ s e. All-take (λ c. is_safe c ≡ true) n stem s)
]
bounded_name_lem n stem (c ∷ cs) le =
    let budget = n - (length (c ∷ cs) + 1) in
    elim (Bool-cases (ltb budget 1)) [
      | inl t ↦ rw t (le, λ s e. fallback-IsPlain)
      | inr f ↦ rw f (
        ground (arith, length-append (take budget stem) (46 ∷ c ∷ cs), length-take budget stem),
        λ s e.
            All-append (λ c. is_safe c ≡ true) (take budget stem) (46 ∷ c ∷ cs)
              (All-take (λ c. is_safe c ≡ true) budget stem s) (refl, e),
      )
    ]

of_parts :
    (n : ℕ) (parts : Text × Text)
    → 14 ≤ n
    → (length (name_of n parts) ≤ n) × (IsPlain parts.1 → IsPlain (name_of n parts))
unfolding name_of
of_parts n (stem, ext) le =
    let (short, plain) = bounded_name_lem n (clean_stem stem) ext le in
    (short, plain (clean_stem-IsPlain stem))

-- A stored file name of a non-empty name has at most as many characters as allowed, from 14 on, and if
-- the extension that was recognised in it is made of letters, digits, dots, dashes and underscores, so
-- is the whole name: it holds no slash, blank or control character.
pub safe_filename_lem :
    (u : Unicode) (n c : ℕ) (cs : Text)
    → 14 ≤ n
    → let candidate = select u.printable (u.nfkd (after_slash [] (c ∷ cs))) in
      (length (safe_filename u n (c ∷ cs)) ≤ n)
      × (IsPlain (name_parts u candidate (rpartition candidate)).1
          → IsPlain (safe_filename u n (c ∷ cs)))
unfolding safe_filename
safe_filename_lem u n c cs le =
    let candidate = select u.printable (u.nfkd (after_slash [] (c ∷ cs))) in
    of_parts n (name_parts u candidate (rpartition candidate)) le
