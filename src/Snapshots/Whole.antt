-- ===== src/Snapshots/Whole.antt =====
-- services/backend/app/services/snapshots.py: the document holds the whole conversation, and the row tells
-- what is stored.
use chrome_chatgpt_data.Prelude.{
  ℕ, ◌≤◌, ◌≡◌, refl, sym, ap, ◌∙◌, inl, inr, String, Bool, true, not, ◌&&◌, Option, some, List, [],
  ◌∷◌, map, ◌==◌, if◌then◌else◌, is_some, All, arith, Bool-cases, Option-cases, ==_iff,
}
use chrome_chatgpt_data.Prelude.Rows.{select, find, any, count, find-eq_some}
use chrome_chatgpt_data.Prelude.Sorting.{sort_by, ascending, count-sort_by}
use chrome_chatgpt_data.Prelude.Texts.{Text}
use chrome_chatgpt_data.Enums.{MessageRole, CompletionStatus}
use chrome_chatgpt_data.Jobs.{Payload}
use chrome_chatgpt_data.Policy.{Workspace}
use chrome_chatgpt_data.Archive.{Conversation, Message, MessageVersion, MessagePart}
use chrome_chatgpt_data.Attachments.{Attachment, MessageAttachment, Vault, has_attachment_id}
use chrome_chatgpt_data.Snapshots.{
  PartDoc, VersionDoc, AttachmentRecord, MessageDoc, part_doc, version_doc, attachment_record,
  attachment_records, link_rows, message_doc, is_live_message, is_live_version, build_snapshot,
}

abbrev pub has_record_id : ℕ → AttachmentRecord → Bool
has_record_id k r = r.attachment_id == k

abbrev joins : ℕ → MessageAttachment × Attachment → Bool
joins k (l, a) = a.id == k

-- An attachment that is seen has no record; one that is not has one record if it is in a row.
count-attachment_records :
    (k : ℕ) (seen : List ℕ) (rows : List (MessageAttachment × Attachment))
    → count (has_record_id k) (attachment_records seen rows)
      ≡ (if any (λ i. i == k) seen then 0 else if any (joins k) rows then 1 else 0)
unfolding attachment_records attachment_record
count-attachment_records k seen [] = ground arith
count-attachment_records k seen ((l, a) ∷ rows) =
    ground
      (arith, count-attachment_records k seen rows, count-attachment_records k (a.id ∷ seen) rows)

module _ {A B : Type 0} where
  count-map :
      (q : B → Bool) (f : A → B) (xs : List A) → count q (map f xs) ≡ count (λ x. q (f x)) xs
  count-map q f [] = refl
  count-map q f (x ∷ xs) = omega (arith, count-map q f xs)

  map-All : (P : B → Type 0) (f : A → B) → ((x : A) → P (f x)) → (xs : List A) → All P (map f xs)
  map-All P f h [] = tt
  map-All P f h (x ∷ xs) = (h x, map-All P f h xs)

module _ {A D V : Type 0} where
  -- The entries of sorted rows show what the rows do, each as often.
  count-entries :
      (q : V → Bool) (view : D → V) (doc : A → D) (before : A → A → Bool) (xs : List A)
      → count q (map view (map doc (sort_by before xs))) ≡ count q (map (λ x. view (doc x)) xs)
  count-entries q view doc before xs =
      count-map q view (map doc (sort_by before xs))
      ∙ count-map (λ d. q (view d)) doc (sort_by before xs)
      ∙ count-sort_by before (λ x. q (view (doc x))) xs
      ∙ sym (count-map q (λ x. view (doc x)) xs)

module _ {A : Type 0} where
  select-select :
      (q p : A → Bool) (xs : List A) → select q (select p xs) ≡ select (λ x. p x && q x) xs
  select-select q p [] = refl
  select-select q p (x ∷ xs) = ground (arith, select-select q p xs)

-- An attachment with a link is in a row of the join.
any-link_rows :
    (k : ℕ) (a : Attachment) (attachments : List Attachment) (ls : List MessageAttachment)
    → find (has_attachment_id k) attachments ≡ some a
    → any (λ l. l.attachment_id == k) ls ≡ true
    → any (joins k) (link_rows attachments ls) ≡ true
unfolding link_rows
any-link_rows k a attachments [] found linked = linked
any-link_rows k a attachments (l ∷ ls) found linked = elim (Bool-cases (l.attachment_id == k)) [
  | inl t ↦
      let here : l.attachment_id ≡ k = (==_iff l.attachment_id k).0 t in
      let own : (a.id == k) ≡ true = find-eq_some (has_attachment_id k) attachments a found in
      rw here (rw found (rw own refl))
  | inr f ↦
      let rest = any-link_rows k a attachments ls found (ground arith) in
      elim (Option-cases (find (has_attachment_id l.attachment_id) attachments)) [
        | inl n ↦ rw n rest
        | inr (b, s) ↦ rw s (ground (arith, rest))
      ]
]

-- What an entry of the document shows of a message, of a version and of a part, and what their rows hold.
abbrev pub MessageView : Type 0
MessageView =
    ℕ
    × Option String
    × String
    × MessageRole
    × Option String
    × ℕ
    × Option ℕ
    × CompletionStatus
    × Option ℕ
    × Option ℕ

abbrev pub message_view : Message → MessageView
message_view m = (
  m.id, m.source_message_id, m.fingerprint, m.role, m.author_name, m.sequence_index, m.branch_id,
  m.completion_status, m.source_created_at, m.current_version_id,
)

abbrev pub message_entry : MessageDoc → MessageView
message_entry d = (
  d.message_id, d.source_message_id, d.fingerprint, d.role, d.author_name, d.sequence_index,
  d.branch_id, d.completion_status, d.source_created_at, d.current_version_id,
)

abbrev pub VersionView : Type 0
VersionView =
    (ℕ × ℕ × Bool × Bool × CompletionStatus)
    × (Text × String × String × ℕ × ℕ)
    × (ℕ × Option ℕ × String × List String × Option Text)

abbrev pub version_view : MessageVersion → VersionView
version_view v = (
  (v.id, v.version_number, v.is_edit, v.is_regeneration, v.completion_status),
  (v.plain_text, v.content_sha256, v.normalized_sha256, v.char_count, v.token_estimate),
  (v.captured_at, v.source_created_at, v.capture_source, v.citations, v.raw_s3_key),
)

abbrev pub version_entry : VersionDoc → VersionView
version_entry d = (
  (d.message_version_id, d.version_number, d.is_edit, d.is_regeneration, d.completion_status),
  (d.text, d.content_sha256, d.normalized_sha256, d.char_count, d.token_estimate),
  (d.captured_at, d.source_created_at, d.capture_source, d.citations, d.raw_s3_key),
)

abbrev pub PartView : Type 0
PartView = ℕ × String × Option String × Option Text × Payload

abbrev pub part_view : MessagePart → PartView
part_view p = (p.part_index, p.kind, p.language, p.text_content, p.structured)

abbrev pub part_entry : PartDoc → PartView
part_entry d = (d.index, d.kind, d.language, d.text, d.structured)

-- The entry of a version shows the parts of the version in the conversation `i`.
abbrev pub ShowsParts : ℕ → List MessagePart → VersionDoc → Type 0
ShowsParts i parts d =
    (q : PartView → Bool)
    → count q (map part_entry d.parts)
      ≡ count q (
          map part_view (
            select (λ p. p.conversation_id == i && p.message_version_id == d.message_version_id)
              parts))

-- The entry of a message shows its versions in the conversation `i` that are not deleted, with their parts.
abbrev pub ShowsVersions : ℕ → List MessageVersion → List MessagePart → MessageDoc → Type 0
ShowsVersions i versions parts d =
    ((q : VersionView → Bool)
      → count q (map version_entry d.versions)
        ≡ count q (
            map version_view (
              select
                (λ w.
                  (w.conversation_id == i && not (is_some w.deleted_at))
                  && w.message_id == d.message_id)
                versions)))
    × All (ShowsParts i parts) d.versions

version_doc-ShowsParts :
    (html : Bool) (i : ℕ) (parts : List MessagePart) (w : MessageVersion)
    → ShowsParts i parts (version_doc html (select (λ p. p.conversation_id == i) parts) w)
unfolding version_doc
version_doc-ShowsParts html i parts w q =
    count-entries q part_entry part_doc (ascending (λ p. p.part_index)) _
    ∙ ap (λ ps. count q (map part_view ps))
        (select-select (λ p. p.message_version_id == w.id) (λ p. p.conversation_id == i) parts)

message_doc-ShowsVersions :
    (html : Bool) (c : Conversation) (versions : List MessageVersion) (parts : List MessagePart)
    (rows : List (MessageAttachment × Attachment)) (m : Message)
    → ShowsVersions c.id versions parts (
        message_doc html
          (select (is_live_version c.id) versions)
          (select (λ p. p.conversation_id == c.id) parts)
          rows
          m)
unfolding message_doc version_doc
message_doc-ShowsVersions html c versions parts rows m =
    let own = λ (w : MessageVersion). w.message_id == m.id in
    let number = ascending (λ (w : MessageVersion). w.version_number) in
    let owned = select (λ p. p.conversation_id == c.id) parts in
    let live = select own (select (is_live_version c.id) versions) in
    (
      (λ q.
          count-entries q version_entry (version_doc html owned) number live
          ∙ ap (λ ws. count q (map version_view ws))
              (select-select own (is_live_version c.id) versions)),
      map-All _ (version_doc html owned) (version_doc-ShowsParts html c.id parts)
          (sort_by number live),
    )

-- The document of a conversation has one entry for each of its messages that is not deleted, with its
-- columns; each entry has one for every version of the message that is not deleted, with its text, its
-- hashes and its other columns, and this one for every part of the version: whatever test is put to
-- them, as many entries pass as rows. It has no attachment twice, and exactly one record for a stored
-- attachment `k` that a link ties to the conversation.
pub build_snapshot_whole :
    (workspaces : List Workspace) (now : ℕ) (html : Bool) (c : Conversation) (v : Vault) (k : ℕ)
    (a : Attachment)
    → find (has_attachment_id k) v.attachments ≡ some a
    → any (λ l. l.attachment_id == k) (select (λ l. l.conversation_id == c.id) v.links) ≡ true
    → let d = build_snapshot workspaces now html c v in
      ((q : MessageView → Bool)
        → count q (map message_entry d.messages)
          ≡ count q (
              map message_view (
                select
                  (λ m. m.conversation_id == c.id && not (is_some m.deleted_at))
                  v.archive.messages)))
      × All (ShowsVersions c.id v.archive.versions v.archive.parts) d.messages
      × ((j : ℕ) → count (has_record_id j) d.attachments ≤ 1)
      × (count (has_record_id k) d.attachments ≡ 1)
unfolding build_snapshot message_doc
build_snapshot_whole workspaces now html c v k a found linked =
    let live = is_live_message c.id in
    let position = ascending (λ (m : Message). m.sequence_index) in
    let rows = link_rows v.attachments (select (λ l. l.conversation_id == c.id) v.links) in
    (
      (λ q. count-entries q message_entry _ position (select live v.archive.messages)),
      map-All _ _ (message_doc-ShowsVersions html c v.archive.versions v.archive.parts rows)
          (sort_by position (select live v.archive.messages)),
      (λ j. ground (arith, count-attachment_records j [] rows)),
      count-attachment_records k [] rows ∙ rw (any-link_rows k a v.attachments _ found linked) refl,
    )
