-- ===== src/Handlers.antt =====
-- services/backend/app/workers/handlers.py: the handlers of jobs but the one of attachments, which stands
-- with them. A handler takes the answer that the object store gives to its write: a version, or a failure.
pub mod Events
pub mod Reconcile
pub mod Settled
pub mod Reruns
pub mod Upkeep
mod Tests
use chrome_chatgpt_data.Prelude.{String, Option, none, some, List, [], ◌∷◌, ◌++◌, ℕ}
use chrome_chatgpt_data.Prelude.Texts.{Text, codes, truthy_text}
use chrome_chatgpt_data.Jobs.{Scalar, null, id_text, plain_text, code_points, raw_event_key}
use chrome_chatgpt_data.Storage.{Dates}
use chrome_chatgpt_data.Storage
pub use chrome_chatgpt_data.Storage.{Answer}

abbrev pub conversation_text : (ℕ → Text) → Scalar → Text
conversation_text uuid_text (id_text i) = uuid_text i
conversation_text uuid_text (plain_text s) = codes s
conversation_text uuid_text _ = []

-- The text of a payload's value; the values that the program puts there as a key are texts.
abbrev pub key_text : Dates → (ℕ → Text) → Option Scalar → Option Text
key_text d uuid_text (some (code_points t)) = truthy_text (some t)
key_text d uuid_text (some (plain_text s)) = truthy_text (some (codes s))
key_text d uuid_text (some (raw_event_key hash conversation event when)) = some (
    Storage.raw_event_key d (codes hash) (conversation_text uuid_text conversation)
      (uuid_text event) when)
key_text d uuid_text _ = none

abbrev pub or_null : Option String → Scalar
or_null none = null
or_null (some s) = plain_text s
