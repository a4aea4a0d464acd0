-- ===== src/Attachments/Lifecycle.antt =====
-- services/backend/app/services/attachments.py and handle_finalize_attachment of workers/handlers.py: the
-- attachments as a state machine, under every operation in any order.
use chrome_chatgpt_data.Prelude.{
  ℕ, ◌≤◌, ◌<◌, ◌≡◌, refl, String, Bool, true, false, some, List, [], ◌∷◌, ◌++◌, is_some, All,
  All-append, All-implies, All-zip, arith, Bool-cases, inl, inr,
}
use chrome_chatgpt_data.Prelude.Rows.{
  find, update, count, count-append, count-update_le, All-update,
}
use chrome_chatgpt_data.Attachments.{Attachment, Vault, has_attachment_id}
use chrome_chatgpt_data.Attachments.Complete.{is_clean}
use chrome_chatgpt_data.Attachments.Finalize.{is_quarantined, fits_declared}

-- A clean attachment has a key, the digest and the size of its bytes are those that the client declared,
-- and their type fits the declared one; one in quarantine has its upload key and the declared size.
pub record IsSound (a : Attachment) : Type 0 where
  pub clean_key : is_clean a.state ≡ true → is_some a.clean_s3_key ≡ true
  pub clean_digest : is_clean a.state ≡ true → a.verified_sha256 ≡ some a.sha256
  pub clean_size : is_clean a.state ≡ true → a.verified_byte_size ≡ some a.byte_size
  pub clean_type :
      is_clean a.state ≡ true
      → (mime : String) × (a.detected_mime_type ≡ some mime)
        × (fits_declared mime a.declared_mime_type ≡ true)
  pub quarantine_key : is_quarantined a.state ≡ true → is_some a.quarantine_s3_key ≡ true
  pub quarantine_size : is_quarantined a.state ≡ true → a.verified_byte_size ≡ some a.byte_size

pub record IsVault (v : Vault) : Type 0 where
  pub sound : All IsSound v.attachments
  pub unique_id : (i : ℕ) → count (has_attachment_id i) v.attachments ≤ 1
  pub fresh : All (λ a. a.id < v.archive.uuids) v.attachments

-- What may become of a row: not from clean, and to clean from quarantine only.
abbrev pub Allowed : Attachment → Attachment → Type 0
Allowed x y =
    (is_clean x.state ≡ false)
    × (y.id ≡ x.id)
    × IsSound y
    × (is_clean y.state ≡ true → is_quarantined x.state ≡ true)

-- What an operation may do to the table.
pub data Change (v v' : Vault) : Type 0 where
  same : v'.attachments ≡ v.attachments → v.archive.uuids ≤ v'.archive.uuids → Change v v'
  moved :
      (p : Attachment → Bool) (f : Attachment → Attachment)
      → All (λ x. p x ≡ true → Allowed x (f x)) v.attachments
      → v'.attachments ≡ update p f v.attachments
      → v.archive.uuids ≤ v'.archive.uuids
      → Change v v'
  inserted :
      (a : Attachment)
      → v.archive.uuids ≤ a.id
      → a.id < v'.archive.uuids
      → IsSound a
      → is_clean a.state ≡ false
      → v'.attachments ≡ v.attachments ++ a ∷ []
      → Change v v'

count-moved :
    (i : ℕ) (p : Attachment → Bool) (f : Attachment → Attachment) (rows : List Attachment)
    → All (λ x. p x ≡ true → Allowed x (f x)) rows
    → count (has_attachment_id i) (update p f rows) ≤ count (has_attachment_id i) rows
count-moved i p f rows h =
    count-update_le (has_attachment_id i) p f rows
      (All-implies (λ x. p x ≡ true → Allowed x (f x)) _ rows (λ x a t e. rw (← (a t).1) e) h)

pub old_row :
    (uuid i : ℕ) (rows : List Attachment)
    → All (λ a. a.id < uuid) rows
    → uuid ≤ i
    → count (has_attachment_id i) rows ≡ 0
old_row uuid i [] h le = refl
old_row uuid i (a ∷ rows) h le = ground (arith, old_row uuid i rows h.1 le)

pub later :
    (n m : ℕ) (rows : List Attachment) → n ≤ m → All (λ a. a.id < n) rows → All (λ a. a.id < m) rows
later n m rows le h = All-implies (λ a. a.id < n) (λ a. a.id < m) rows (λ a lt. omega arith) h

pub Change-IsVault : {v v' : Vault} → Change v v' → IsVault v → IsVault v'
Change-IsVault {v} {v'} (same e le) h = record {
  sound = rw e h.sound;
  unique_id = λ i. rw e (h.unique_id i);
  fresh = rw e (later v.archive.uuids v'.archive.uuids v.attachments le h.fresh);
}
Change-IsVault {v} {v'} (moved p f ok e le) h = record {
  sound = rw e (
      All-update IsSound p f v.attachments
        (All-implies _ (λ x. p x ≡ true → IsSound (f x)) v.attachments (λ x a t. (a t).2) ok)
        h.sound);
  unique_id = λ i. rw e (omega (arith, h.unique_id i, count-moved i p f v.attachments ok));
  fresh = rw e (
      All-update (λ a. a.id < v'.archive.uuids) p f v.attachments
        (All-implies (λ x. (p x ≡ true → Allowed x (f x)) × (x.id < v.archive.uuids)) _
          v.attachments (λ x a t. omega (arith, (a.0 t).1))
          (All-zip _ (λ x. x.id < v.archive.uuids) v.attachments ok h.fresh))
        (later v.archive.uuids v'.archive.uuids v.attachments le h.fresh));
}
Change-IsVault {v} {v'} (inserted a le lt s c e) h = record {
  sound = rw e (All-append IsSound v.attachments (a ∷ []) h.sound (s, tt));
  unique_id = λ i. rw e (
      ground (
        arith,
        h.unique_id i,
        old_row v.archive.uuids i v.attachments h.fresh,
        count-append (has_attachment_id i) v.attachments (a ∷ []),
      ));
  fresh = rw e (
      All-append (λ b. b.id < v'.archive.uuids) v.attachments (a ∷ [])
        (later v.archive.uuids v'.archive.uuids v.attachments (omega arith) h.fresh) (lt, tt));
}

kept_clean :
    (i : ℕ) (p : Attachment → Bool) (f : Attachment → Attachment) (rows : List Attachment)
    (a : Attachment)
    → All (λ x. p x ≡ true → Allowed x (f x)) rows
    → find (has_attachment_id i) rows ≡ some a
    → is_clean a.state ≡ true
    → find (has_attachment_id i) (update p f rows) ≡ some a
kept_clean i p f [] a h found clean = cc
kept_clean i p f (x ∷ rows) a h found clean = elim (Bool-cases (p x)) [
  | inl t ↦
      let (unclean, same_id, sound, from) = h.0 t in
      rw t (ground (arith, kept_clean i p f rows a h.1))
  | inr n ↦ rw n (ground (arith, kept_clean i p f rows a h.1))
]

find_prefix :
    (q : Attachment → Bool) (xs ys : List Attachment) (a : Attachment)
    → find q xs ≡ some a
    → find q (xs ++ ys) ≡ some a
find_prefix q [] ys a h = cc
find_prefix q (x ∷ xs) ys a h = ground (arith, find_prefix q xs ys a)

-- A clean row is found as it was.
pub Change-clean :
    {v v' : Vault} (i : ℕ) (a : Attachment)
    → Change v v'
    → find (has_attachment_id i) v.attachments ≡ some a
    → is_clean a.state ≡ true
    → find (has_attachment_id i) v'.attachments ≡ some a
Change-clean i a (same e le) found clean = rw e found
Change-clean {v} i a (moved p f ok e le) found clean =
    rw e (kept_clean i p f v.attachments a ok found clean)
Change-clean {v} i a (inserted b le lt s c e) found clean =
    rw e (find_prefix (has_attachment_id i) v.attachments (b ∷ []) a found)
