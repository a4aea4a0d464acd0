-- ===== src/Ingest/Replay.antt =====
-- services/backend/app/services/ingest.py: a second request with the idempotency key of a first one.
use chrome_chatgpt_data.Prelude.{
  ℕ, ◌+◌, String, Bool, true, false, not, ◌&&◌, ◌==◌, Option, none, some, List, [], ◌∷◌, ◌++◌, ◌≡◌,
  refl, ap, ◌∙◌, arith, Bool-cases, Option-cases, inl, inr, ==_refl,
}
use text.Mathlib.Text.{◌==◌ as str_eq}
use text.Mathlib.TextEquality.{eq_iff}
use chrome_chatgpt_data.Prelude.Rows.{
  select, find, any, update, any-find, select-update, find-update, find-eq_some, find-any,
  find_last, any_of_find,
}
use chrome_chatgpt_data.Enums.{IngestStatus, is_complete, is_partial}
use chrome_chatgpt_data.Contract.{MessageIn, ClientContext, ItemResult}
use chrome_chatgpt_data.Fingerprint.{content_hash, message_fingerprint}
use chrome_chatgpt_data.Archive.{
  Conversation, Message, MessageVersion, IdempotencyKey, ResultRef, Store,
}
use chrome_chatgpt_data.Ingest.{
  Externals, IngestContext, no_ref, is_key, set_ref, claim_key, claim_idempotency, enqueue,
  record_capture_event, update_idempotency_result,
}
use chrome_chatgpt_data.Ingest.Conversations.{
  ConversationIn, is_conversation, touch, new_conversation, take_conversation,
  get_or_create_conversation, mark_snapshot_stale,
}
use chrome_chatgpt_data.Ingest.Messages.{
  is_content, find_message, resolve_branch, place_message, settle_existing,
}
use chrome_chatgpt_data.Ingest.Versions.{
  append_version, write_version, settle_version, store_message, settle_message, message_fields,
  ingest_checked, ingest_message,
}
use chrome_chatgpt_data.Ingest.Frames.{
  get_or_create-frame, resolve_branch-frame, place_message-frame,
}

-- After a claim the key is taken, and a replay returns its reference.
claim_key_taken :
    (now org : ℕ) (key : String) (ref : ResultRef) (st : Store)
    → (k : IdempotencyKey) × (find
          (is_key org key)
          (claim_key now org key ref st).1.idempotency_keys
        ≡ some k)
      × ((r : ResultRef) → (claim_key now org key ref st).0 ≡ some r → k.result_ref ≡ r)
unfolding claim_key claim_idempotency
claim_key_taken now org key ref st = elim (Bool-cases (any (is_key org key) st.idempotency_keys)) [
  | inl t ↦
      let (k, e) = find-any (is_key org key) st.idempotency_keys t in
      rw t (rw e (k, refl, λ r same. ground arith))
  | inr f ↦ rw f (
    _,
    find_last (is_key org key) st.idempotency_keys _ f
        (ground (arith, eq_iff key key, ==_refl org)),
    λ r same. ground arith,
  )
]

module _ (ext : Externals) (ctx : IngestContext) (key : String) where
  -- The key is taken, and its reference is that of the result.
  abbrev Remembers : ItemResult → Store → Type 0
  Remembers r st =
      (k : IdempotencyKey) × (find (is_key ctx.organization.id key) st.idempotency_keys ≡ some k)
      × (k.result_ref.message_id ≡ r.message_id)
      × (k.result_ref.message_version_id ≡ r.message_version_id)

  update_ref :
      (ref : ResultRef) (keys : List IdempotencyKey) (k : IdempotencyKey)
      → find (is_key ctx.organization.id key) keys ≡ some k
      → find
          (is_key ctx.organization.id key)
          (update (is_key ctx.organization.id key) (set_ref ref) keys)
        ≡ some (set_ref ref k)
  update_ref ref keys k e =
      find-update (is_key ctx.organization.id key) (is_key ctx.organization.id key) (set_ref ref)
        keys k (λ x. refl) e
      ∙ rw (find-eq_some (is_key ctx.organization.id key) keys k e) refl

module _ (ext : Externals) (ctx : IngestContext) (p : MessageIn) where
  settle_existing-Remembers :
      (now index conversation_id : ℕ) (m : Message) (v : MessageVersion) (st : Store)
      (k : IdempotencyKey)
      → find (is_key ctx.organization.id p.idempotency_key) st.idempotency_keys ≡ some k
      → let (r, st') = settle_existing ctx now index p conversation_id m v st in
        Remembers ext ctx p.idempotency_key r st'
  unfolding settle_existing update_idempotency_result mark_snapshot_stale enqueue
  settle_existing-Remembers now index conversation_id m v st k e =
      elim (Bool-cases (is_partial v.completion_status && is_complete p.completion_status)) [
        | inl t ↦
            rw t (_, update_ref ext ctx p.idempotency_key _ st.idempotency_keys k e, refl, refl)
        | inr f ↦
            rw f (_, update_ref ext ctx p.idempotency_key _ st.idempotency_keys k e, refl, refl)
      ]

  append_version-Remembers :
      (now index conversation_id : ℕ) (client : Option ClientContext) (hash : String) (m : Message)
      (st : Store) (k : IdempotencyKey)
      → find (is_key ctx.organization.id p.idempotency_key) st.idempotency_keys ≡ some k
      → let (r, st') = append_version ext ctx now index p client conversation_id hash m st in
        Remembers ext ctx p.idempotency_key r st'
  unfolding append_version write_version update_idempotency_result mark_snapshot_stale enqueue
      record_capture_event
  append_version-Remembers now index conversation_id client hash m st k e =
      elim (Bool-cases (is_partial p.completion_status)) [
        | inl t ↦
            rw t (_, update_ref ext ctx p.idempotency_key _ st.idempotency_keys k e, refl, refl)
        | inr f ↦
            rw f (_, update_ref ext ctx p.idempotency_key _ st.idempotency_keys k e, refl, refl)
      ]

  store_message-Remembers :
      (now index conversation_id : ℕ) (client : Option ClientContext) (fp hash : String)
      (st : Store) (k : IdempotencyKey)
      → find (is_key ctx.organization.id p.idempotency_key) st.idempotency_keys ≡ some k
      → let (r, st') = store_message ext ctx now index p client conversation_id fp hash st in
        Remembers ext ctx p.idempotency_key r st'
  unfolding store_message
  store_message-Remembers now index conversation_id client fp hash st k e =
      let found = find_message conversation_id p fp hash st.messages st.versions in
      let (u, bs, b) = resolve_branch-frame now conversation_id p st in
      let branch = (resolve_branch now conversation_id p st).0 in
      let placing = place_message ctx conversation_id p fp branch found in
      let branched = (resolve_branch now conversation_id p st).1 in
      let (w, ms, m) = place_message-frame ctx conversation_id p fp branch found branched in
      let message = (placing branched).0 in
      let kept : (placing branched).1.idempotency_keys ≡ st.idempotency_keys =
        ap (λ s. s.idempotency_keys) m ∙ ap (λ s. s.idempotency_keys) b in
      settled message (find (is_content message.id hash) (placing branched).1.versions)
        (placing branched).1 (rw kept e)
    where
      settled :
          (m : Message) (existing : Option MessageVersion) (s : Store)
          → find (is_key ctx.organization.id p.idempotency_key) s.idempotency_keys ≡ some k
          → let (r, st') =
              settle_version ext ctx now index p client conversation_id hash m existing s in
            Remembers ext ctx p.idempotency_key r st'
      settled m none s h = append_version-Remembers now index conversation_id client hash m s k h
      settled m (some v) s h = settle_existing-Remembers now index conversation_id m v s k h

  ingest_checked-Remembers :
      (now index : ℕ) (client : Option ClientContext) (st : Store)
      → let (r, st') = ingest_checked ext ctx now index p client st in
        Remembers ext ctx p.idempotency_key r st'
  unfolding ingest_checked
  ingest_checked-Remembers now index client st =
      let (c, created, got) = get_or_create_conversation ext ctx now (message_fields p) st in
      let ref = record no_ref { conversation_id = some c.id } in
      let claim = claim_key now ctx.organization.id p.idempotency_key ref got in
      let (k, found, same) = claim_key_taken now ctx.organization.id p.idempotency_key ref got in
      settled c.id claim.0 claim.1 k found same
    where
      settled :
          (conversation_id : ℕ) (replay : Option ResultRef) (s : Store) (k : IdempotencyKey)
          → find (is_key ctx.organization.id p.idempotency_key) s.idempotency_keys ≡ some k
          → ((r : ResultRef) → replay ≡ some r → k.result_ref ≡ r)
          → let (r, st') = settle_message ext ctx now index p client conversation_id replay s in
            Remembers ext ctx p.idempotency_key r st'
      settled c (some ref) s k e same = (
        k,
        e,
        ap (λ r. r.message_id) (same ref refl),
        ap (λ r. r.message_version_id) (same ref refl),
      )
      settled c none s k e same =
          store_message-Remembers now index c client
            (message_fingerprint ext.hashing c p.role p.text p.sequence_index p.source_created_at)
            (content_hash ext.hashing p.text) s k e

-- The conversation that a message names.
abbrev pub named : IngestContext → MessageIn → Conversation → Bool
named ctx q c =
    c.organization_id == ctx.organization.id
    && c.workspace_id == ctx.workspace.id
    && str_eq c.source_conversation_id q.source_conversation_id

-- No row has been written but that of the conversation that `q` names, which is there.
abbrev pub SameRows : IngestContext → MessageIn → Store → Store → Type 0
SameRows ctx q st st' =
    (c : Conversation) × (find (named ctx q) st'.conversations ≡ some c)
    × (select (λ r. not (r.id == c.id)) st'.conversations
        ≡ select (λ r. not (r.id == c.id)) st.conversations)
    × (st'.feedback ≡ st.feedback)
    × (st'.messages ≡ st.messages)
    × (st'.versions ≡ st.versions)
    × (st'.parts ≡ st.parts)
    × (st'.branches ≡ st.branches)
    × (st'.idempotency_keys ≡ st.idempotency_keys)
    × (st'.capture_events ≡ st.capture_events)
    × (st'.jobs ≡ st.jobs)

abbrev IsReplay : IngestContext → MessageIn → IdempotencyKey → ItemResult → Store → Store → Type 0
IsReplay ctx q k r st st' =
    (r.status ≡ IngestStatus.duplicate)
    × (r.reason_code ≡ some "idempotent_replay")
    × (r.message_id ≡ k.result_ref.message_id)
    × (r.message_version_id ≡ k.result_ref.message_version_id)
    × SameRows ctx q st st'

-- A claim of a key that is taken returns the reference, and takes an identifier only.
claim_key_again :
    (now org : ℕ) (key : String) (ref : ResultRef) (st : Store) (k : IdempotencyKey)
    → find (is_key org key) st.idempotency_keys ≡ some k
    → claim_key now org key ref st ≡ (some k.result_ref, record st { uuids = st.uuids + 1 })
unfolding claim_key claim_idempotency
claim_key_again now org key ref st k e =
    let taken : any (is_key org key) st.idempotency_keys ≡ true =
      ground (arith, any_of_find (is_key org key) st.idempotency_keys k e) in
    rw taken (rw e refl)

select_last_out :
    (q : Conversation → Bool) (cs : List Conversation) (c : Conversation)
    → q c ≡ false
    → select q (cs ++ c ∷ []) ≡ select q cs
select_last_out q [] c out = ground arith
select_last_out q (x ∷ xs) c out = ground (arith, select_last_out q xs c out)

-- The conversation is found by its source's name afterwards, and no row with another id has changed.
get_or_create-row :
    (ext : Externals) (ctx : IngestContext) (now : ℕ) (v : ConversationIn) (st : Store)
    → let (c, created, st') = get_or_create_conversation ext ctx now v st in
      (find (is_conversation ctx v.source_conversation_id) st'.conversations ≡ some c)
      × (select (λ r. not (r.id == c.id)) st'.conversations
          ≡ select (λ r. not (r.id == c.id)) st.conversations)
unfolding get_or_create_conversation take_conversation touch new_conversation
get_or_create-row ext ctx now v st =
    elim (Option-cases (find (is_conversation ctx v.source_conversation_id) st.conversations)) [
      | inl absent ↦ rw absent (
        find_last (is_conversation ctx v.source_conversation_id) st.conversations _
            (any-find (is_conversation ctx v.source_conversation_id) st.conversations absent)
            (rw (==_refl ctx.organization.id) (
              rw (==_refl ctx.workspace.id)
                ((eq_iff v.source_conversation_id v.source_conversation_id).1 refl))),
        select_last_out _ st.conversations _ (rw (==_refl st.uuids) refl),
      )
      | inr (c, found) ↦ rw found (
        find-update (is_conversation ctx v.source_conversation_id) (λ r. r.id == c.id)
              (touch ctx now v) st.conversations c (λ x. refl) found
            ∙ rw (==_refl c.id) refl,
        select-update (λ r. not (r.id == c.id)) (λ r. r.id == c.id) (touch ctx now v)
            st.conversations (λ x. refl) (λ x apart. ground arith),
      )
    ]

ingest_checked_again :
    (ext : Externals) (ctx : IngestContext) (now index : ℕ) (p : MessageIn)
    (client : Option ClientContext) (st : Store) (k : IdempotencyKey)
    → find (is_key ctx.organization.id p.idempotency_key) st.idempotency_keys ≡ some k
    → let (r, st') = ingest_checked ext ctx now index p client st in IsReplay ctx p k r st st'
unfolding ingest_checked
ingest_checked_again ext ctx now index p client st k e =
    let (c, created, got) = get_or_create_conversation ext ctx now (message_fields p) st in
    let (u, cs, framed) = get_or_create-frame ext ctx now (message_fields p) st in
    let ref = record no_ref { conversation_id = some c.id } in
    let kept : got.idempotency_keys ≡ st.idempotency_keys = ap (λ s. s.idempotency_keys) framed in
    let (row, others) = get_or_create-row ext ctx now (message_fields p) st in
    rw (claim_key_again now ctx.organization.id p.idempotency_key ref got k (rw kept e)) (
      refl,
      refl,
      refl,
      refl,
      (
        c,
        row,
        others,
        ap (λ s. s.feedback) framed,
        ap (λ s. s.messages) framed,
        ap (λ s. s.versions) framed,
        ap (λ s. s.parts) framed,
        ap (λ s. s.branches) framed,
        ap (λ s. s.idempotency_keys) framed,
        ap (λ s. s.capture_events) framed,
        ap (λ s. s.jobs) framed,
      ),
    )

-- Once a message has passed its checksum and been ingested, accepted or not, any later message with the
-- same idempotency key that passes its own checksum is answered as a duplicate, an idempotent replay
-- with the message and version identifiers of the first answer, and in all tables no row changes but
-- that of the conversation that it names, which is there.
pub ingest_message_replay :
    (ext : Externals) (ctx : IngestContext) (st : Store) (now index : ℕ) (p : MessageIn)
    (client : Option ClientContext) (later index' : ℕ) (q : MessageIn)
    (client' : Option ClientContext)
    → p.content_sha256 ≡ ext.hashing.sha256_hex p.text
    → q.content_sha256 ≡ ext.hashing.sha256_hex q.text
    → q.idempotency_key ≡ p.idempotency_key
    → let (r, st1) = ingest_message ext ctx now index p client st in
      let (r', st2) = ingest_message ext ctx later index' q client' st1 in
      (r'.status ≡ IngestStatus.duplicate)
      × (r'.reason_code ≡ some "idempotent_replay")
      × (r'.message_id ≡ r.message_id)
      × (r'.message_version_id ≡ r.message_version_id)
      × SameRows ctx q st1 st2
unfolding ingest_message
ingest_message_replay ext ctx st now index p client later index' q client' hp hq same =
    let first = (eq_iff p.content_sha256 (ext.hashing.sha256_hex p.text)).1 hp in
    let second = (eq_iff q.content_sha256 (ext.hashing.sha256_hex q.text)).1 hq in
    let (k, e, message, version) = ingest_checked-Remembers ext ctx p now index client st in
    let st1 = (ingest_checked ext ctx now index p client st).1 in
    let (status, reason, m, v, rows) =
      ingest_checked_again ext ctx later index' q client' st1 k (rw same e) in
    rw first (rw second (status, reason, m ∙ message, v ∙ version, rows))
