-- ===== src/Filenames.antt =====
-- services/backend/app/core/crypto.py, `safe_filename`, over code points. What Unicode says of a code
-- point is a parameter.
pub mod Laws
use chrome_chatgpt_data.Prelude.{
  ℕ, ◌+◌, ◌-◌, Bool, true, false, not, ◌&&◌, ◌||◌, Option, none, some, List, [], ◌∷◌, ◌++◌, map,
  ltb, leb, ◌==◌, if◌then◌else◌, length, take,
}
use chrome_chatgpt_data.Prelude.Rows.{select}
use chrome_chatgpt_data.Prelude.Texts.{Text, codes}

-- `unicodedata.normalize("NFKD", …)`, `str.isprintable` and `str.isalnum` of a code point, `str.lower`.
pub record Unicode : Type 0 where
  pub nfkd : Text → Text
  pub printable : ℕ → Bool
  pub alnum : ℕ → Bool
  pub lower : Text → Text

-- `name.replace("\\", "/").split("/")[-1]`
abbrev is_slash : ℕ → Bool
is_slash c = c == 47 || c == 92

pub after_slash : Text → Text → Text
after_slash seen [] = seen
after_slash seen (c ∷ cs) = after_slash (if is_slash c then [] else seen ++ c ∷ []) cs

-- `rpartition(".")`: what is before and after the last dot.
abbrev pub at_dot : ℕ → Text → Option (Text × Text) → Option (Text × Text)
at_dot c cs none = if c == 46 then some ([], cs) else none
at_dot c cs (some (stem, ext)) = some (c ∷ stem, ext)

pub rpartition : Text → Option (Text × Text)
rpartition [] = none
rpartition (c ∷ cs) = at_dot c cs (rpartition cs)

abbrev pub all_chars : (ℕ → Bool) → Text → Bool
all_chars p [] = true
all_chars p (c ∷ cs) = p c && all_chars p cs

-- `str.isalnum` of a text.
abbrev pub is_alnum : (ℕ → Bool) → Text → Bool
is_alnum p [] = false
is_alnum p (c ∷ cs) = all_chars p (c ∷ cs)

-- The stem, and the extension in lower case, if the name has one.
abbrev pub name_parts : Unicode → Text → Option (Text × Text) → Text × Text
name_parts u name none = (name, [])
name_parts u name (some (stem, ext)) =
    if is_alnum u.alnum ext && leb (length ext) 10 then (stem, u.lower ext) else (name, [])

-- `[A-Za-z0-9._-]`
abbrev pub is_safe : ℕ → Bool
is_safe c =
    leb 65 c && leb c 90
    || leb 97 c && leb c 122
    || leb 48 c && leb c 57
    || c == 46
    || c == 95
    || c == 45

-- `_DOTS_RE.sub(".", stem)`
pub collapse_dots : Bool → Text → Text
collapse_dots after_dot [] = []
collapse_dots after_dot (c ∷ cs) =
    let run = collapse_dots true cs in
    let plain = collapse_dots false cs in
    if c == 46 then (if after_dot then run else 46 ∷ run) else c ∷ plain

-- `strip("._-")`
abbrev pub is_mark : ℕ → Bool
is_mark c = c == 46 || c == 95 || c == 45

pub strip_left : (ℕ → Bool) → Text → Text
strip_left p [] = []
strip_left p (c ∷ cs) = let rest = strip_left p cs in if p c then rest else c ∷ cs

abbrev pub push_kept : (ℕ → Bool) → ℕ → Text → Text
push_kept p c [] = if p c then [] else c ∷ []
push_kept p c (d ∷ ds) = c ∷ d ∷ ds

pub strip_right : (ℕ → Bool) → Text → Text
strip_right p [] = []
strip_right p (c ∷ cs) = push_kept p c (strip_right p cs)

unfoldable pub strip_marks : Text → Text
unfolding strip_left strip_right
strip_marks t = strip_left is_mark (strip_right is_mark t)

-- `value or default`
abbrev pub or_text : Text → Text → Text
or_text [] d = d
or_text (c ∷ cs) d = c ∷ cs

abbrev pub fallback : Text
fallback = codes "attachment.bin"

-- The name of a stem and an extension within `max_length`.
unfoldable pub bounded_name : ℕ → Text → Text → Text
bounded_name max_length stem [] = if ltb max_length 1 then fallback else take max_length stem
bounded_name max_length stem (e ∷ ext) =
    let budget = max_length - (length (e ∷ ext) + 1) in
    if ltb budget 1 then fallback else take budget stem ++ 46 ∷ e ∷ ext

abbrev pub clean_stem : Text → Text
clean_stem stem =
    or_text (strip_marks (collapse_dots false (map (λ c. if is_safe c then c else 95) stem)))
      (codes "file")

unfoldable pub name_of : ℕ → Text × Text → Text
unfolding collapse_dots strip_marks bounded_name
name_of max_length (stem, ext) = bounded_name max_length (clean_stem stem) ext

-- `safe_filename(name, max_length=…)`
unfoldable pub safe_filename : Unicode → ℕ → Text → Text
unfolding after_slash rpartition name_of
safe_filename u max_length [] = fallback
safe_filename u max_length (c ∷ cs) =
    let candidate = select u.printable (u.nfkd (after_slash [] (c ∷ cs))) in
    name_of max_length (name_parts u candidate (rpartition candidate))

-- `("." + name.rsplit(".", 1)[-1].lower()) if "." in name else ""`
abbrev pub suffix_from : Unicode → Option (Text × Text) → Text
suffix_from u none = []
suffix_from u (some (stem, ext)) = 46 ∷ u.lower ext

unfoldable pub suffix_of : Unicode → Text → Text
unfolding rpartition
suffix_of u name = suffix_from u (rpartition name)
