-- ===== src/Ingest/Feedback.antt =====
-- services/backend/app/services/ingest.py, `ingest_feedback`: one row per client feedback id.
use text.Mathlib.Text.{◌==◌ as str_eq}
use text.Mathlib.TextEquality.{eq_iff}
use chrome_chatgpt_data.Prelude.{
  ℕ, ◌+◌, ◌==◌, String, Bool, true, false, ◌&&◌, Option, none, some, List, [], ◌∷◌, ◌++◌, ◌≡◌, refl,
  ap, arith, Option-cases, inl, inr, map_option, ==_refl,
}
use chrome_chatgpt_data.Prelude.Rows.{find, any-find, find_last}
use chrome_chatgpt_data.Prelude.Texts.{truthy, truthy_text}
use chrome_chatgpt_data.Sanitize.{clean_plain_text}
use chrome_chatgpt_data.Contract.{FeedbackIn}
use chrome_chatgpt_data.Archive.{Message, Feedback, Store}
use chrome_chatgpt_data.Ingest.{Externals, IngestContext}
use chrome_chatgpt_data.Ingest.Conversations.{ConversationIn, get_or_create_conversation}
use chrome_chatgpt_data.Ingest.Messages.{has_source}
use chrome_chatgpt_data.Ingest.Frames.{get_or_create-frame}

abbrev pub feedback_fields : FeedbackIn → ConversationIn
feedback_fields p = record {
  source_conversation_id = p.source_conversation_id;
  title = none;
  source_url = none;
  model_slug = none;
  completeness = none;
  source_created_at = none;
  source_updated_at = none;
}

abbrev pub is_feedback : ℕ → String → Feedback → Bool
is_feedback org client_id f = f.organization_id == org && str_eq f.client_feedback_id client_id

-- The message that the feedback names, if it is archived.
abbrev pub message_of : ℕ → Option String → List Message → Option ℕ
message_of conversation_id none ms = none
message_of conversation_id (some s) ms =
    map_option (λ m. m.id) (find (has_source conversation_id s) ms)

pub new_feedback : IngestContext → ℕ → ℕ → FeedbackIn → List Message → Feedback
new_feedback ctx uuid conversation_id p ms = record {
  id = uuid;
  organization_id = ctx.organization.id;
  conversation_id = conversation_id;
  message_id = message_of conversation_id (truthy p.source_message_id) ms;
  user_id = some ctx.user.id;
  kind = p.kind;
  rating = p.rating;
  note = map_option (clean_plain_text 4000) (truthy_text p.note);
  client_feedback_id = p.client_feedback_id;
}

pub settle_feedback :
    IngestContext → ℕ → FeedbackIn → Option Feedback → Store → Feedback × Bool × Store
unfolding new_feedback
settle_feedback ctx conversation_id p (some f) st = (f, true, st)
settle_feedback ctx conversation_id p none st =
    let f = new_feedback ctx st.uuids conversation_id p st.messages in
    (f, false, record st { uuids = st.uuids + 1; feedback = st.feedback ++ f ∷ [] })

-- The row, and whether it was there.
unfoldable pub ingest_feedback :
    Externals → IngestContext → ℕ → FeedbackIn → Store → Feedback × Bool × Store
unfolding settle_feedback
ingest_feedback ext ctx now p st =
    let (c, created, got) = get_or_create_conversation ext ctx now (feedback_fields p) st in
    settle_feedback ctx c.id p
      (find (is_feedback ctx.organization.id p.client_feedback_id) got.feedback) got

-- `settle_feedback` leaves its row to be found, by the organization and the client's id.
settle_feedback_found :
    (ctx : IngestContext) (conversation_id : ℕ) (p : FeedbackIn) (st : Store)
    → let (f, known, st') =
        settle_feedback ctx conversation_id p
          (find (is_feedback ctx.organization.id p.client_feedback_id) st.feedback)
          st in
      find (is_feedback ctx.organization.id p.client_feedback_id) st'.feedback ≡ some f
unfolding settle_feedback new_feedback
settle_feedback_found ctx conversation_id p st =
    let test = is_feedback ctx.organization.id p.client_feedback_id in
    elim (Option-cases (find test st.feedback)) [
      | inl e ↦ rw e (
          find_last test st.feedback _ (any-find test st.feedback e) (
            ground (
              arith,
              eq_iff p.client_feedback_id p.client_feedback_id,
              ==_refl ctx.organization.id,
            )))
      | inr (f, e) ↦ rw e e
    ]

-- Feedback that has been stored once is stored no second time: whatever a later request with the same
-- client feedback id says, it gets the first row back as a duplicate, and the feedback table stays.
pub ingest_feedback_once :
    (ext : Externals) (ctx : IngestContext) (st : Store) (now later : ℕ) (p q : FeedbackIn)
    → q.client_feedback_id ≡ p.client_feedback_id
    → let (f, known, st1) = ingest_feedback ext ctx now p st in
      let (g, known', st2) = ingest_feedback ext ctx later q st1 in
      (g ≡ f) × (known' ≡ true) × (st2.feedback ≡ st1.feedback)
unfolding ingest_feedback settle_feedback
ingest_feedback_once ext ctx st now later p q same =
    let (f, known, st1) = ingest_feedback ext ctx now p st in
    let got = (get_or_create_conversation ext ctx now (feedback_fields p) st).2 in
    let c = (get_or_create_conversation ext ctx now (feedback_fields p) st).0 in
    let stored = settle_feedback_found ctx c.id p got in
    let (u, cs, framed) = get_or_create-frame ext ctx later (feedback_fields q) st1 in
    let kept = ap (λ s. s.feedback) framed in rw kept (rw same (rw stored (refl, refl, kept)))
