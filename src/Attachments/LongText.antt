-- ===== src/Attachments/LongText.antt =====
-- services/backend/app/services/attachments.py, `detect_mime_from_bytes`: a text whose 65,536th byte is
-- within a character.
use chrome_chatgpt_data.Prelude.{
  ℕ, suc, ◌≤◌, ◌≡◌, refl, ap, String, true, false, ◌&&◌, Option, none, some, [], ◌∷◌, ◌++◌, leb,
  take, length, arith, ==_iff,
}
use mathlib.Core.Path.{subst}
use chrome_chatgpt_data.Exif.{Bytes}
use chrome_chatgpt_data.Attachments.Bytes.{
  magic_bytes, sniff, Awaited, awaited, start, lead, decode_byte, decode_from, is_whole, is_utf8,
  textual, detect_mime_from_bytes,
}

decode_from-append :
    (s : Option Awaited) (xs ys : Bytes)
    → decode_from s (xs ++ ys) ≡ decode_from (decode_from s xs) ys
unfolding decode_from
decode_from-append s [] ys = refl
decode_from-append s (x ∷ xs) ys = decode_from-append (decode_byte s x) xs ys

-- A decoder at the end of a character goes on as at the start.
whole_next : (s : Option Awaited) (b : ℕ) → is_whole s ≡ true → decode_byte s b ≡ lead b
whole_next none b h = cc
whole_next (some s) b h = let e = (==_iff s.need 0).0 h in rw e refl

two_bytes : (a : ℕ) → 194 ≤ a → a ≤ 223 → lead a ≡ some (awaited 1 128 191)
unfolding lead
two_bytes a lo hi = ground arith

take-append_length :
    (p : Bytes) (a : ℕ) (rest : Bytes) → take (suc (length p)) (p ++ a ∷ rest) ≡ p ++ a ∷ []
take-append_length [] a rest = refl
take-append_length (b ∷ p) a rest = ap (λ t. b ∷ t) (take-append_length p a rest)

cut_short :
    (p : Bytes) (a : ℕ) → is_utf8 p ≡ true → 194 ≤ a → a ≤ 223 → is_utf8 (p ++ a ∷ []) ≡ false
unfolding is_utf8
cut_short p a whole lo hi =
    rw (decode_from-append (some start) p (a ∷ []))
      (rw (whole_next (decode_from (some start) p) a whole) (rw (two_bytes a lo hi) refl))

whole_again :
    (p : Bytes) (a b : ℕ) (rest : Bytes)
    → is_utf8 p ≡ true
    → 194 ≤ a
    → a ≤ 223
    → 128 ≤ b
    → b ≤ 191
    → is_utf8 rest ≡ true
    → is_utf8 (p ++ a ∷ b ∷ rest) ≡ true
unfolding is_utf8
whole_again p a b rest whole lo hi lo' hi' ok_rest =
    let second_byte : (leb 128 b && leb b 191) ≡ true = ground arith in
    rw (decode_from-append (some start) p (a ∷ b ∷ rest)) (
      rw (whole_next (decode_from (some start) p) a whole)
        (rw (two_bytes a lo hi) (rw second_byte ok_rest)))

untextual :
    (bytes : Bytes) (declared : Option String)
    → is_utf8 (take 65536 bytes) ≡ false
    → textual bytes declared ≡ none
untextual bytes none h = refl
untextual bytes (some mime) h = rw h (ground arith)

-- A text that is valid UTF-8, but of which byte 65,536 is the first of a character of two bytes, is taken
-- for no allowed type, whatever its declared type, unless its first bytes are those of another type: the
-- decoder is given the first 65,536 bytes, and stops within the character.
pub long_text_rejected :
    (p rest : Bytes) (a b : ℕ) (declared : Option String)
    → is_utf8 p ≡ true
    → length p ≡ 65535
    → 194 ≤ a
    → a ≤ 223
    → 128 ≤ b
    → b ≤ 191
    → is_utf8 rest ≡ true
    → sniff (p ++ a ∷ b ∷ rest) magic_bytes ≡ none
    → (is_utf8 (p ++ a ∷ b ∷ rest) ≡ true)
      × (detect_mime_from_bytes (p ++ a ∷ b ∷ rest) declared ≡ none)
unfolding detect_mime_from_bytes
long_text_rejected p rest a b declared whole size lo hi lo' hi' ok_rest plain =
    let bytes = p ++ a ∷ b ∷ rest in
    let cut : take 65536 bytes ≡ p ++ a ∷ [] =
      subst (λ n. take n bytes ≡ p ++ a ∷ []) (ap suc size) (take-append_length p a (b ∷ rest)) in
    (
      whole_again p a b rest whole lo hi lo' hi' ok_rest,
      rw plain (untextual bytes declared (rw cut (cut_short p a whole lo hi))),
    )
