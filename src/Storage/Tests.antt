-- ===== src/Storage/Tests.antt =====
-- Object keys of services/backend/app/services/storage.py and file names of core/crypto.py at concrete
-- inputs.
use chrome_chatgpt_data.Prelude.{◌≤◌, [], length, leb, ◌&&◌, ◌||◌, arith}
use chrome_chatgpt_data.Prelude.Rows.{select}
use chrome_chatgpt_data.Prelude.Texts.{codes}
use chrome_chatgpt_data.Filenames.{Unicode, after_slash, rpartition, name_parts, safe_filename}
use chrome_chatgpt_data.Filenames.Laws.{IsPlain, safe_filename_lem}

abbrev ascii : Unicode
ascii = record {
  nfkd = λ t. t;
  printable = λ c. leb 32 c && leb c 126;
  alnum = λ c. leb 97 c && leb c 122 || leb 48 c && leb c 57;
  lower = λ t. t;
}

safe_filename_lem_example :
    let candidate = select ascii.printable (ascii.nfkd (after_slash [] (codes "a/b c.png"))) in
    (length (safe_filename ascii 128 (codes "a/b c.png")) ≤ 128)
    × (IsPlain (name_parts ascii candidate (rpartition candidate)).1
        → IsPlain (safe_filename ascii 128 (codes "a/b c.png")))
safe_filename_lem_example = safe_filename_lem ascii 128 97 (codes "/b c.png") (omega arith)
