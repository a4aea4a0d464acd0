-- ===== src/Fingerprint.antt =====
-- services/backend/app/core/crypto.py: the hashes by which a message is recognised. SHA-256, NFKC,
-- case folding and the text of a UUID are parameters.
use chrome_chatgpt_data.Prelude.{
  ℕ, zero, suc, ◌+◌, ◌-◌, ◌/◌, ◌%◌, String, Bool, true, false, Option, none, some, List, [], ◌∷◌,
  ◌++◌, if◌then◌else◌, ltb,
}
use chrome_chatgpt_data.Prelude.Texts.{Text, codes}
use chrome_chatgpt_data.Enums.{MessageRole, user, assistant, tool, system}
use chrome_chatgpt_data.Jobs.{second}
use chrome_chatgpt_data.Sanitize.{is_space, strip}

pub record Hashing : Type 0 where
  pub sha256_hex : Text → String
  pub nfkc : Text → Text
  pub casefold : Text → Text
  pub uuid_text : ℕ → Text

-- `_WHITESPACE_RE.sub(" ", text)`: each run of white space becomes one space.
pub collapse_spaces : Bool → Text → Text
collapse_spaces after_space [] = []
collapse_spaces after_space (c ∷ cs) =
    let run = collapse_spaces true cs in
    let plain = collapse_spaces false cs in
    if is_space c then (if after_space then run else 32 ∷ run) else c ∷ plain

pub normalize_text : Hashing → Text → Text
unfolding collapse_spaces
normalize_text h t = h.casefold (strip (collapse_spaces false (h.nfkc t)))

pub content_hash : Hashing → Text → String
unfolding normalize_text
content_hash h t = h.sha256_hex (normalize_text h t)

-- The decimal digits of `n` before `after`; `n` steps are enough.
pub digits : ℕ → ℕ → Text → Text
digits zero n after = after
digits (suc k) n after =
    let d = (48 + n % 10) ∷ after in let rest = digits k (n / 10) d in if ltb n 10 then d else rest

pub decimal : ℕ → Text
unfolding digits
decimal n = digits (suc n) n []

-- The bucket of five minutes of a time, in seconds since the epoch.
pub timestamp_bucket : Option ℕ → ℕ
timestamp_bucket none = 0
timestamp_bucket (some ts) = let epoch = ts / second in epoch - epoch % 300

pub role_text : MessageRole → Text
role_text user = codes "user"
role_text assistant = codes "assistant"
role_text tool = codes "tool"
role_text system = codes "system"

pub join_bars : Text → List Text → Text
join_bars t [] = t
join_bars t (u ∷ us) = t ++ 124 ∷ join_bars u us

pub message_fingerprint : Hashing → ℕ → MessageRole → Text → ℕ → Option ℕ → String
unfolding content_hash decimal timestamp_bucket role_text join_bars
message_fingerprint h conversation_id role text sequence_index created_at = h.sha256_hex (
    join_bars (h.uuid_text conversation_id) (
      role_text role
      ∷ codes (content_hash h text)
      ∷ decimal (sequence_index / 5)
      ∷ decimal (timestamp_bucket created_at)
      ∷ []))
