-- ===== src/Sanitize.antt =====
-- services/backend/app/core/sanitize.py, `clean_plain_text`, over code points, and the blanks of Python.
mod Laws
mod Tests
use chrome_chatgpt_data.Prelude.{
  ℕ, Bool, true, false, not, ◌&&◌, ◌||◌, List, [], ◌∷◌, ◌++◌, ltb, leb, ◌==◌, if◌then◌else◌, length,
  take,
}
use chrome_chatgpt_data.Prelude.Rows.{select}
use chrome_chatgpt_data.Prelude.Texts.{Text}

-- `ch in "\t\n\r" or (ch >= " " and not ("\x7f" <= ch <= "\x9f"))`
pub is_kept : ℕ → Bool
is_kept c = c == 9 || c == 10 || c == 13 || leb 32 c && not (leb 127 c && leb c 159)

pub strip_control_characters : Text → Text
unfolding is_kept
strip_control_characters = select is_kept

-- `[ \t]`
pub is_blank : ℕ → Bool
is_blank c = c == 32 || c == 9

-- `_WS.sub(" ", text)`: each run of blanks becomes one space. The flag tells that the last code
-- point was a blank.
pub collapse : Bool → Text → Text
unfolding is_blank
collapse after_blank [] = []
collapse after_blank (c ∷ cs) =
    let run = collapse true cs in
    let plain = collapse false cs in
    if is_blank c then (if after_blank then run else 32 ∷ run) else c ∷ plain

-- `str.isspace` of one code point, as `str.strip` uses it.
pub is_space : ℕ → Bool
is_space c =
    (leb 9 c && leb c 13)
    || (leb 28 c && leb c 32)
    || c == 133
    || c == 160
    || c == 5760
    || (leb 8192 c && leb c 8202)
    || c == 8232
    || c == 8233
    || c == 8239
    || c == 8287
    || c == 12288

pub strip_left : Text → Text
unfolding is_space
strip_left [] = []
strip_left (c ∷ cs) = let rest = strip_left cs in if is_space c then rest else c ∷ cs

-- `rstrip`: a blank goes when everything after it has gone.
pub push_kept : ℕ → Text → Text
unfolding is_space
push_kept c [] = if is_space c then [] else c ∷ []
push_kept c (d ∷ ds) = c ∷ d ∷ ds

pub strip_right : Text → Text
unfolding push_kept
strip_right [] = []
strip_right (c ∷ cs) = push_kept c (strip_right cs)

-- `text.strip()`
pub strip : Text → Text
unfolding strip_left strip_right
strip t = strip_left (strip_right t)

-- `clean_plain_text(text, max_length=n)`; a text that is no longer than `n` is left uncut by `take`.
unfoldable pub clean_plain_text : ℕ → Text → Text
unfolding strip_control_characters collapse strip
clean_plain_text n t = strip (take n (collapse false (strip_control_characters t)))

abbrev pub default_max_length : ℕ
default_max_length = 1_000_000
