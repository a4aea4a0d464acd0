-- ===== src/Storage.antt =====
-- services/backend/app/services/storage.py: the keys of objects, and the object store as the program
-- sees it: a list of keys with objects, the newest first. The text of a date is a parameter.
pub mod Segments
mod Tests
use chrome_chatgpt_data.Prelude.{
  ℕ, zero, suc, ◌+◌, ◌-◌, String, Bool, true, false, not, ◌&&◌, ◌||◌, Option, none, some, List, [],
  ◌∷◌, ◌++◌, ltb, leb, ◌==◌, if◌then◌else◌, length, take,
}
use chrome_chatgpt_data.Prelude.Texts.{Text, codes}
use chrome_chatgpt_data.Prelude.Results.{Result, ok, err}
use chrome_chatgpt_data.Sanitize.{strip}
use chrome_chatgpt_data.Fingerprint.{decimal}
use chrome_chatgpt_data.Exif.{Bytes, bytes_eq}
use chrome_chatgpt_data.Filenames.{Unicode, strip_marks, or_text, safe_filename}

-- `[A-Za-z0-9._:@-]`
abbrev pub is_key_char : ℕ → Bool
is_key_char c =
    leb 65 c && leb c 90
    || leb 97 c && leb c 122
    || leb 48 c && leb c 58
    || c == 46
    || c == 95
    || c == 45
    || c == 64

pub replace_unsafe : Text → Text
replace_unsafe [] = []
replace_unsafe (c ∷ cs) = (if is_key_char c then c else 95) ∷ replace_unsafe cs

-- `_key_segment`; the value is a text, empty where the source has None.
unfoldable pub key_segment : ℕ → Text → Text → Text
unfolding replace_unsafe
key_segment max_length fallback value =
    or_text (strip_marks (take max_length (replace_unsafe (strip value)))) fallback

-- `_key_segment(value)`
unfoldable pub segment : Text → Text
unfolding key_segment
segment value = key_segment 200 (codes "unknown") value

pub data Stage : Type 0 where
  quarantine clean curated : Stage

abbrev pub stage_prefix : Stage → Text
stage_prefix quarantine = codes "attachments/quarantine"
stage_prefix clean = codes "attachments/clean"
stage_prefix curated = codes "attachments/curated"

unfoldable pub attachment_key : Unicode → Stage → Text → Text → Text → Text → Text
attachment_key u stage workspace_hash conversation_id attachment_id filename =
    stage_prefix stage
    ++ (codes "/workspace="
        ++ (segment workspace_hash
            ++ (codes "/conversation="
                ++ (segment conversation_id
                    ++ (47 ∷ segment attachment_id ++ (47 ∷ safe_filename u 128 filename))))))

-- The texts of the year, the month and the day of a time.
pub record Dates : Type 0 where
  pub year : ℕ → Text
  pub month : ℕ → Text
  pub day : ℕ → Text

pub zeros : ℕ → Text
zeros zero = []
zeros (suc n) = 48 ∷ zeros n

-- `{n:0wd}`
pub padded : ℕ → ℕ → Text
unfolding zeros
padded w n = zeros (w - length (decimal n)) ++ decimal n

unfoldable pub raw_event_key : Dates → Text → Text → Text → ℕ → Text
raw_event_key d workspace_hash conversation_id event_id when =
    codes "raw/events/year="
    ++ (d.year when
        ++ (codes "/month="
            ++ (d.month when
                ++ (codes "/day="
                    ++ (d.day when
                        ++ (codes "/workspace="
                            ++ (segment workspace_hash
                                ++ (codes "/conversation="
                                    ++ (segment conversation_id
                                        ++ (47 ∷ segment event_id ++ codes ".json"))))))))))

unfoldable pub compliance_raw_key : Dates → Text → Text → ℕ → Text
compliance_raw_key d workspace_hash source_event_id when =
    codes "raw/compliance/year="
    ++ (d.year when
        ++ (codes "/month="
            ++ (d.month when
                ++ (codes "/day="
                    ++ (d.day when
                        ++ (codes "/workspace="
                            ++ (segment workspace_hash
                                ++ (47 ∷ key_segment 180 (codes "event") source_event_id
                                    ++ codes ".json"))))))))

unfoldable pub snapshot_key : Dates → Text → Text → ℕ → ℕ → Text
snapshot_key d workspace_hash conversation_id version when =
    codes "normalized/conversations/year="
    ++ (d.year when
        ++ (codes "/month="
            ++ (d.month when
                ++ (codes "/workspace="
                    ++ (segment workspace_hash
                        ++ (codes "/conversation="
                            ++ (segment conversation_id
                                ++ (codes "/snapshot-"
                                    ++ (padded 6 version ++ codes ".json")))))))))

-- The split is no part of the key where there is none.
abbrev pub split_part : Option Text → Text
split_part none = []
split_part (some []) = []
split_part (some (c ∷ cs)) = segment (c ∷ cs) ++ 47 ∷ []

unfoldable pub export_part_key : Text → ℕ → Option Text → Text
export_part_key export_id part_number split =
    codes "exports/jsonl/"
    ++ (segment export_id
        ++ (47 ∷ split_part split
            ++ (codes "part-" ++ (padded 5 part_number ++ codes ".jsonl.gz"))))

unfoldable pub export_manifest_key : Text → Text
export_manifest_key export_id =
    codes "exports/jsonl/" ++ (segment export_id ++ codes "/manifest.json")

pub record StoredObject : Type 0 where
  pub bytes : Bytes
  pub version_id : Option String

abbrev pub Objects : Type 0
Objects = List (Text × StoredObject)

pub data StorageError : Type 0 where
  read_failed write_failed copy_failed too_large : StorageError

abbrev pub get_object : Text → Objects → Option StoredObject
get_object key [] = none
get_object key ((k, o) ∷ rest) =
    let older = get_object key rest in if bytes_eq k key then some o else older

-- `put_bytes`
abbrev pub put_object : Text → Bytes → Option String → Objects → Objects
put_object key bytes version objects =
    (key, record { bytes = bytes; version_id = version }) ∷ objects

-- `head_object`: the size and the version of the object, if there is one.
abbrev pub head_from : Option StoredObject → Option (ℕ × Option String)
head_from none = none
head_from (some o) = some (length o.bytes, o.version_id)

unfoldable pub head_object : Text → Objects → Option (ℕ × Option String)
head_object key objects = head_from (get_object key objects)

abbrev pub limited : ℕ → Bytes → Result StorageError Bytes
limited zero bytes = ok bytes
limited (suc n) bytes =
    let data_read = take (suc n + 1) bytes in
    if ltb (suc n) (length data_read) then err too_large else ok data_read

abbrev pub bytes_from : ℕ → Option StoredObject → Result StorageError Bytes
bytes_from limit none = err read_failed
bytes_from limit (some o) = limited limit o.bytes

-- `get_bytes(key, max_bytes=limit)`: one byte more than the limit is read.
unfoldable pub get_bytes : Text → ℕ → Objects → Result StorageError Bytes
get_bytes key limit objects = bytes_from limit (get_object key objects)

-- What the store answers a write: its version of the object, or a refusal.
abbrev pub Answer : Type 0
Answer = Result StorageError (Option String)

abbrev pub copy_from :
    Option StoredObject → Text → Answer → Objects → Result StorageError (Option String × Objects)
copy_from none dest answer objects = err copy_failed
copy_from (some o) dest (err e) objects = err copy_failed
copy_from (some o) dest (ok version) objects = ok (version, put_object dest o.bytes version objects)

-- `copy_object`, by what the store answers where the source exists: the version of the copy.
unfoldable pub copy_object :
    Text → Text → Answer → Objects → Result StorageError (Option String × Objects)
copy_object source dest answer objects = copy_from (get_object source objects) dest answer objects

-- What `presign_put` signs: the store accepts no other upload at the URL.
pub record PresignedPut : Type 0 where
  pub key : Text
  pub content_type : String
  pub content_length : ℕ
  pub sha256 : Option String
  pub expires_at : ℕ

unfoldable pub presign_put : ℕ → ℕ → Text → String → ℕ → Option String → PresignedPut
presign_put now ttl key content_type content_length sha256 = record {
  key = key;
  content_type = content_type;
  content_length = content_length;
  sha256 = sha256;
  expires_at = now + ttl;
}
