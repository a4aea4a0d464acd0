-- ===== src/Ingest/Numbering/Kept.antt =====
-- services/backend/app/services/ingest.py, `ingest_message`: the numbering of the versions is kept.
use text.Mathlib.Text.{◌==◌ as str_eq}
use chrome_chatgpt_data.Prelude.{
  ℕ, ◌+◌, ◌==◌, ◌≤◌, ◌<◌, String, Bool, false, ◌&&◌, Option, none, some, List, [], ◌∷◌, ◌≡◌, refl,
  ap, ◌∙◌, arith, Bool-cases, inl, inr, All, All-zip, All-implies, leb, length, take,
}
use chrome_chatgpt_data.Prelude.Rows.{find, count, All-select, count_none}
use chrome_chatgpt_data.Prelude.Texts.{truthy}
use chrome_chatgpt_data.Enums.{is_complete, is_partial}
use chrome_chatgpt_data.Contract.{MessageIn, ClientContext}
use chrome_chatgpt_data.Archive.{
  Conversation, ConversationBranch, Message, MessageVersion, ResultRef, Store,
}
use chrome_chatgpt_data.Ingest.{
  Externals, IngestContext, claim_key, enqueue, record_capture_event, new_event,
  update_idempotency_result,
}
use chrome_chatgpt_data.Ingest.Conversations.{
  ConversationIn, is_conversation, get_or_create_conversation, take_conversation,
  mark_snapshot_stale,
}
use chrome_chatgpt_data.Ingest.Messages.{
  is_branch, find_message, find_source, or_find, earlier, first_by_sequence, has_content,
  has_fingerprint, has_source, resolve_branch, branch_of, take_branch, place_message, new_message,
  improve, settle_existing, set_complete, promote,
}
use chrome_chatgpt_data.Ingest.Versions.{
  append_version, write_version, new_version, advance, settle_version, store_message,
  settle_message, message_fields, ingest_checked, ingest_message, set_event,
}
use chrome_chatgpt_data.Ingest.Frames.{resolve_branch-frame}
use chrome_chatgpt_data.Ingest.Numbering.{
  IsNumbered, is_of, has_id, weaken, update_messages, update_versions, add_message, add_version,
}

abbrev pub Numbered : Store → Type 0
Numbered st = IsNumbered st.uuids st.messages st.versions

-- A message that is among the rows: drawn, and counting its versions.
abbrev Counts : Store → Message → Type 0
Counts st m = (m.id < st.uuids) × (count (is_of m.id) st.versions ≡ m.version_count)

abbrev Maybe : (Message → Type 0) → Option Message → Type 0
Maybe P none = Unit
Maybe P (some m) = P m

module _ (P : Message → Type 0) where
  Maybe-find : (q : Message → Bool) (xs : List Message) → All P xs → Maybe P (find q xs)
  Maybe-find q [] h = tt
  Maybe-find q (x ∷ xs) h = elim (Bool-cases (q x)) [
    | inl t ↦ rw t h.0
    | inr f ↦ rw f (Maybe-find q xs h.1)
  ]

  Maybe-or : (a b : Option Message) → Maybe P a → Maybe P b → Maybe P (or_find a b)
  Maybe-or none b h k = k
  Maybe-or (some m) b h k = h

  Maybe-earlier : (m : Message) (o : Option Message) → P m → Maybe P o → P (earlier m o)
  Maybe-earlier m none h k = h
  Maybe-earlier m (some n) h k = elim (Bool-cases (leb m.sequence_index n.sequence_index)) [
    | inl t ↦ rw t h
    | inr f ↦ rw f k
  ]

  Maybe-first : (xs : List Message) → All P xs → Maybe P (first_by_sequence xs)
  unfolding first_by_sequence
  Maybe-first [] h = tt
  Maybe-first (x ∷ xs) h = Maybe-earlier x (first_by_sequence xs) h.0 (Maybe-first xs h.1)

  Maybe-source :
      (c : ℕ) (source : Option String) (ms : List Message)
      → All P ms
      → Maybe P (find_source c source ms)
  Maybe-source c none ms h = tt
  Maybe-source c (some s) ms h = Maybe-find (has_source c s) ms h

  Maybe-find_message :
      (c : ℕ) (p : MessageIn) (fp hash : String) (ms : List Message) (vs : List MessageVersion)
      → All P ms
      → Maybe P (find_message c p fp hash ms vs)
  unfolding find_message
  Maybe-find_message c p fp hash ms vs h =
      Maybe-or _ _ (Maybe-source c (truthy p.source_message_id) ms h) (
        Maybe-or _ _ (Maybe-find (has_fingerprint c fp) ms h)
          (Maybe-first _ (All-select P (has_content vs c p.role hash) ms h)))

module _ (ext : Externals) (ctx : IngestContext) (p : MessageIn) where
  settle_existing-Numbered :
      (now index conversation_id : ℕ) (m : Message) (v : MessageVersion) (st : Store)
      → Numbered st
      → Numbered (settle_existing ctx now index p conversation_id m v st).1
  unfolding settle_existing update_idempotency_result mark_snapshot_stale enqueue
  settle_existing-Numbered now index conversation_id m v st h =
      elim (Bool-cases (is_partial v.completion_status && is_complete p.completion_status)) [
        | inl t ↦ rw t (
            weaken st.uuids (st.uuids + 1) _ _ (omega arith) (
              update_messages st.uuids (has_id m.id) set_complete st.messages _ (λ x. refl)
                (λ x. refl)
                (update_versions st.uuids (λ w. w.id == v.id) (promote now) st.messages st.versions
                  (λ x. refl) (λ x. refl) h)))
        | inr f ↦ rw f h
      ]

  write_version-Numbered :
      (now conversation_id : ℕ) (hash : String) (m : Message) (st : Store)
      → Counts st m
      → Numbered st
      → Numbered (write_version ext ctx now p conversation_id hash m st).1
  unfolding write_version new_version
  write_version-Numbered now conversation_id hash m st k h =
      weaken st.uuids (st.uuids + 1 + length (take 500 p.parts)) _ _ (omega arith) (
        add_version st.uuids (new_version ext ctx now st.uuids conversation_id p hash m) m.id
          (advance p st.uuids (m.version_count + 1)) st.messages st.versions refl k.0 (rw k.1 refl)
          (λ x. refl) (λ x. refl) h)

  append_version-Numbered :
      (now index conversation_id : ℕ) (client : Option ClientContext) (hash : String) (m : Message)
      (st : Store)
      → Counts st m
      → Numbered st
      → Numbered (append_version ext ctx now index p client conversation_id hash m st).1
  unfolding append_version update_idempotency_result mark_snapshot_stale enqueue
      record_capture_event new_event
  append_version-Numbered now index conversation_id client hash m st k h =
      let (v, w) = write_version ext ctx now p conversation_id hash m st in
      let written = write_version-Numbered now conversation_id hash m st k h in
      let linked =
        update_versions w.uuids (λ x. x.id == v.id) (set_event w.uuids) w.messages w.versions
          (λ x. refl) (λ x. refl) written in
      elim (Bool-cases (is_partial p.completion_status)) [
        | inl t ↦ rw t (weaken w.uuids (w.uuids + 1 + 1 + 1 + 1) _ _ (omega arith) linked)
        | inr f ↦ rw f (weaken w.uuids (w.uuids + 1 + 1 + 1) _ _ (omega arith) linked)
      ]

  settled-Numbered :
      (now index conversation_id : ℕ) (client : Option ClientContext) (hash : String) (m : Message)
      (existing : Option MessageVersion) (st : Store)
      → Counts st m
      → Numbered st
      → Numbered (settle_version ext ctx now index p client conversation_id hash m existing st).1
  settled-Numbered now index conversation_id client hash m none st k h =
      append_version-Numbered now index conversation_id client hash m st k h
  settled-Numbered now index conversation_id client hash m (some v) st k h =
      settle_existing-Numbered now index conversation_id m v st h

  resolve_branch-Numbered :
      (now conversation_id : ℕ) (st : Store)
      → Numbered st
      → (st.uuids ≤ (resolve_branch now conversation_id p st).1.uuids)
        × Numbered (resolve_branch now conversation_id p st).1
  unfolding resolve_branch branch_of take_branch
  resolve_branch-Numbered now conversation_id st h = go (truthy p.branch_key)
    where
      taken :
          (key : String) (found : Option ConversationBranch)
          → let st' = (take_branch now conversation_id key p.branch_selected found st).1 in
            (st.uuids ≤ st'.uuids) × Numbered st'
      taken key none = (omega arith, weaken st.uuids (st.uuids + 1) _ _ (omega arith) h)
      taken key (some b) = (omega arith, h)

      go :
          (key : Option String)
          → let st' = (branch_of now conversation_id key p.branch_selected st).1 in
            (st.uuids ≤ st'.uuids) × Numbered st'
      go none = (omega arith, h)
      go (some key) = taken key (find (is_branch conversation_id key) st.branches)

  place_message-Numbered :
      (conversation_id : ℕ) (fp : String) (branch : Option ConversationBranch)
      (found : Option Message) (st : Store)
      → Maybe (Counts st) found
      → Numbered st
      → let (m, st') = place_message ctx conversation_id p fp branch found st in
        Counts st' m × Numbered st'
  unfolding place_message new_message improve
  place_message-Numbered conversation_id fp branch none st k h = (
    (
      omega arith,
      count_none (is_of st.uuids) st.versions (
          All-implies (λ v. v.message_id < st.uuids) (λ v. is_of st.uuids v ≡ false) st.versions
            (λ v lt. ground arith) h.attached),
    ),
    add_message st.uuids (new_message ctx st.uuids conversation_id p fp branch) st.messages
        st.versions refl refl h,
  )
  place_message-Numbered conversation_id fp branch (some m) st k h = (
    (k.0, k.1),
    update_messages st.uuids (has_id m.id) (improve p branch) st.messages st.versions (λ x. refl)
        (λ x. refl) h,
  )

  store_message-Numbered :
      (now index conversation_id : ℕ) (client : Option ClientContext) (fp hash : String)
      (st : Store)
      → Numbered st
      → Numbered (store_message ext ctx now index p client conversation_id fp hash st).1
  unfolding store_message
  store_message-Numbered now index conversation_id client fp hash st h =
      let found = find_message conversation_id p fp hash st.messages st.versions in
      let (u, bs, b) = resolve_branch-frame now conversation_id p st in
      let (branch, branched) = resolve_branch now conversation_id p st in
      let (le, numbered) = resolve_branch-Numbered now conversation_id st h in
      let same_versions : branched.versions ≡ st.versions = ap (λ s. s.versions) b in
      let rows : All (Counts branched) st.messages =
        All-implies (λ m. (m.id < st.uuids) × (count (is_of m.id) st.versions ≡ m.version_count))
          (Counts branched) st.messages
          (λ m k. (omega (arith, k.0, le), ap (λ vs. count (is_of m.id) vs) same_versions ∙ k.1))
          (All-zip (λ m. m.id < st.uuids) (λ m. count (is_of m.id) st.versions ≡ m.version_count)
            st.messages h.fresh h.counted) in
      let known =
        Maybe-find_message (Counts branched) conversation_id p fp hash st.messages st.versions
          rows in
      let (counts, placed) =
        place_message-Numbered conversation_id fp branch found branched known numbered in
      settled-Numbered now index conversation_id client hash _ _ _ counts placed

  get_or_create-Numbered :
      (now : ℕ) (v : ConversationIn) (st : Store)
      → Numbered st
      → Numbered (get_or_create_conversation ext ctx now v st).2
  unfolding get_or_create_conversation take_conversation
  get_or_create-Numbered now v st h =
      go (find (is_conversation ctx v.source_conversation_id) st.conversations)
    where
      go : (found : Option Conversation) → Numbered (take_conversation ext ctx now v found st).2
      go none = weaken st.uuids (st.uuids + 1) _ _ (omega arith) h
      go (some c) = h

  settle_message-Numbered :
      (now index conversation_id : ℕ) (client : Option ClientContext) (replay : Option ResultRef)
      (st : Store)
      → Numbered st
      → Numbered (settle_message ext ctx now index p client conversation_id replay st).1
  settle_message-Numbered now index conversation_id client (some ref) st h = h
  settle_message-Numbered now index conversation_id client none st h =
      store_message-Numbered now index conversation_id client _ _ st h

  ingest_checked-Numbered :
      (now index : ℕ) (client : Option ClientContext) (st : Store)
      → Numbered st
      → Numbered (ingest_checked ext ctx now index p client st).1
  unfolding ingest_checked claim_key
  ingest_checked-Numbered now index client st h =
      let got = get_or_create-Numbered now (message_fields p) st h in
      settle_message-Numbered now index _ client _ _ (weaken _ _ _ _ (omega arith) got)

  -- Whatever the message: `ingest_message` keeps the archive well numbered. Message ids stay unique, each
  -- message's `version_count` is the number of its versions, these have numbers between one and that
  -- count, and no two versions of a message have the same number, so the constraint on the number never
  -- refuses the next version.
  pub ingest_message-Numbered :
      (now index : ℕ) (client : Option ClientContext) (st : Store)
      → Numbered st
      → Numbered (ingest_message ext ctx now index p client st).1
  unfolding ingest_message
  ingest_message-Numbered now index client st h =
      elim (Bool-cases (str_eq p.content_sha256 (ext.hashing.sha256_hex p.text))) [
        | inl t ↦ rw t (ingest_checked-Numbered now index client st h)
        | inr f ↦ rw f h
      ]
