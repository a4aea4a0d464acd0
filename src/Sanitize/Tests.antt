-- ===== src/Sanitize/Tests.antt =====
-- services/backend/app/core/sanitize.py, `clean_plain_text` on a text with a tab, a bell and blanks.
use chrome_chatgpt_data.Prelude.{◌≡◌, refl, [], ◌∷◌}
use chrome_chatgpt_data.Prelude.Texts.{Text}
use chrome_chatgpt_data.Sanitize.{
  is_kept, is_blank, is_space, collapse, strip, strip_left, strip_right, push_kept,
  strip_control_characters, clean_plain_text,
}

abbrev untidy : Text
untidy = 32 ∷ 65 ∷ 9 ∷ 32 ∷ 7 ∷ 66 ∷ 10 ∷ []

tidied : clean_plain_text 10 untidy ≡ 65 ∷ 32 ∷ 66 ∷ []
unfolding clean_plain_text strip_control_characters is_kept collapse is_blank strip strip_left
    strip_right push_kept is_space
tidied = refl
