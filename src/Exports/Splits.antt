-- ===== src/Exports/Splits.antt =====
-- services/backend/app/services/exports.py, the buckets of `run_export`: what a bucket holds.
use text.Mathlib.Text.{◌==◌ as str_eq}
use chrome_chatgpt_data.Prelude.{
  ℕ, ◌+◌, ◌≡◌, refl, sym, ap, ◌∙◌, inl, inr, String, Bool, Option, none, some, List, [], ◌∷◌, ◌++◌,
  ◌==◌, All, All-append, arith, Bool-cases, ==_iff,
}
use chrome_chatgpt_data.Prelude.Rows.{find, find-eq_some, count, count-append}
use chrome_chatgpt_data.Prelude.Texts.{codes, str_eq_path}
use chrome_chatgpt_data.Fingerprint.{Hashing}
use chrome_chatgpt_data.Archive.{Conversation}
use chrome_chatgpt_data.Attachments.{Vault}
use chrome_chatgpt_data.Exports.{Export, insert_named, sort_named, text_leb}
use chrome_chatgpt_data.Exports.Records.{
  ExportRecord, live_record, record_of, build_conversation_record,
}
use chrome_chatgpt_data.Exports.Run.{split_of, add_to_bucket, add_record, fill_buckets}

abbrev Buckets : Type 0
Buckets = List (String × List ExportRecord)

-- All records of the buckets.
abbrev pub flat : Buckets → List ExportRecord
flat [] = []
flat ((name, rs) ∷ rest) = rs ++ flat rest

abbrev pub add_built : String → Option ExportRecord → List ExportRecord → List ExportRecord
add_built split none rs = rs
add_built split (some r) rs = record r { split = split } ∷ rs

-- The records of the conversations, each with its split, in their order: the reference for the buckets.
unfoldable pub built : Hashing → Export → Vault → List ℕ → List ExportRecord
built h e v [] = []
built h e v (i ∷ is) =
    add_built (split_of h e i) (build_conversation_record v e.include_attachments i)
      (built h e v is)

-- The record is in the split `name`, and this is the split of its conversation.
abbrev pub IsPlaced : Hashing → Export → String → ExportRecord → Type 0
IsPlaced h e name r = (r.split ≡ name) × (split_of h e r.conversation_id ≡ name)

abbrev pub IsSorted : Hashing → Export → String × List ExportRecord → Type 0
IsSorted h e (name, rs) = All (IsPlaced h e name) rs

module _ (h : Hashing) (e : Export) where
  add_to_bucket-IsSorted :
      (split : String) (r : ExportRecord) (bs : Buckets)
      → IsPlaced h e split r
      → All (IsSorted h e) bs
      → All (IsSorted h e) (add_to_bucket split r bs)
  unfolding add_to_bucket
  add_to_bucket-IsSorted split r [] p k = ((p, tt), tt)
  add_to_bucket-IsSorted split r ((name, rs) ∷ rest) p k = elim (Bool-cases (str_eq name split)) [
    | inl t ↦
        let same = sym (str_eq_path name split t) in
        rw t (All-append (IsPlaced h e name) rs (r ∷ []) k.0 ((p.0 ∙ same, p.1 ∙ same), tt), k.1)
    | inr f ↦ rw f (k.0, add_to_bucket-IsSorted split r rest p k.1)
  ]

  record_of_id :
      (v : Vault) (all : Bool) (c : Conversation) → (record_of v all c).conversation_id ≡ c.id
  unfolding record_of
  record_of_id v all c = refl

  live_record_id :
      (v : Vault) (all : Bool) (o : Option Conversation) (r : ExportRecord)
      → live_record v all o ≡ some r
      → (c : Conversation) × (o ≡ some c) × (r.conversation_id ≡ c.id)
  live_record_id v all none r k = ground arith
  live_record_id v all (some c) r k = (c, refl, ground (arith, record_of_id v all c))

  -- A record is of the conversation that it is built for.
  build_conversation_record_id :
      (v : Vault) (all : Bool) (i : ℕ) (r : ExportRecord)
      → build_conversation_record v all i ≡ some r
      → r.conversation_id ≡ i
  unfolding build_conversation_record
  build_conversation_record_id v all i r k =
      let (c, found, same) =
        live_record_id v all (find (λ c. c.id == i) v.archive.conversations) r k in
      let hit = find-eq_some (λ c. c.id == i) v.archive.conversations c found in
      same ∙ (==_iff c.id i).0 hit

  add_record-IsSorted :
      (i : ℕ) (o : Option ExportRecord) (bs : Buckets)
      → ((r : ExportRecord) → o ≡ some r → r.conversation_id ≡ i)
      → All (IsSorted h e) bs
      → All (IsSorted h e) (add_record (split_of h e i) o bs)
  add_record-IsSorted i none bs own k = k
  add_record-IsSorted i (some r) bs own k =
      add_to_bucket-IsSorted (split_of h e i) (record r { split = split_of h e i }) bs
        (refl, ap (split_of h e) (own r refl)) k

  pub fill_buckets-IsSorted :
      (v : Vault) (is : List ℕ) (bs : Buckets)
      → All (IsSorted h e) bs
      → All (IsSorted h e) (fill_buckets h e v is bs)
  unfolding fill_buckets
  fill_buckets-IsSorted v [] bs k = k
  fill_buckets-IsSorted v (i ∷ is) bs k =
      let o = build_conversation_record v e.include_attachments i in
      fill_buckets-IsSorted v is (add_record (split_of h e i) o bs)
        (add_record-IsSorted i o bs (build_conversation_record_id v e.include_attachments i) k)

module _ (p : ExportRecord → Bool) where
  count-add_to_bucket :
      (split : String) (r : ExportRecord) (bs : Buckets)
      → count p (flat (add_to_bucket split r bs)) ≡ count p (r ∷ []) + count p (flat bs)
  unfolding add_to_bucket
  count-add_to_bucket split r [] = omega arith
  count-add_to_bucket split r ((name, rs) ∷ rest) = elim (Bool-cases (str_eq name split)) [
    | inl t ↦ rw t (
        omega (
          arith,
          count-append p (rs ++ r ∷ []) (flat rest),
          count-append p rs (r ∷ []),
          count-append p rs (flat rest),
        ))
    | inr f ↦ rw f (
        omega (
          arith,
          count-append p rs (flat (add_to_bucket split r rest)),
          count-append p rs (flat rest),
          count-add_to_bucket split r rest,
        ))
  ]

  count-add_record :
      (split : String) (o : Option ExportRecord) (bs : Buckets)
      → count p (flat (add_record split o bs)) ≡ count p (add_built split o []) + count p (flat bs)
  count-add_record split none bs = omega arith
  count-add_record split (some r) bs = count-add_to_bucket split (record r { split = split }) bs

  count-add_built :
      (split : String) (o : Option ExportRecord) (rs : List ExportRecord)
      → count p (add_built split o rs) ≡ count p (add_built split o []) + count p rs
  count-add_built split none rs = omega arith
  count-add_built split (some r) rs = omega arith

  pub count-fill_buckets :
      (h : Hashing) (e : Export) (v : Vault) (is : List ℕ) (bs : Buckets)
      → count p (flat (fill_buckets h e v is bs)) ≡ count p (flat bs) + count p (built h e v is)
  unfolding fill_buckets built
  count-fill_buckets h e v [] bs = omega arith
  count-fill_buckets h e v (i ∷ is) bs =
      let split = split_of h e i in
      let o = build_conversation_record v e.include_attachments i in
      omega (
        arith,
        count-fill_buckets h e v is (add_record split o bs),
        count-add_record split o bs,
        count-add_built split o (built h e v is),
      )

  count-insert_named :
      (name : String) (rs : List ExportRecord) (bs : Buckets)
      → count p (flat (insert_named (name, rs) bs)) ≡ count p rs + count p (flat bs)
  unfolding insert_named
  count-insert_named name rs [] = count-append p rs []
  count-insert_named name rs ((m, qs) ∷ rest) =
      elim (Bool-cases (text_leb (codes name) (codes m))) [
        | inl t ↦ rw t (omega (arith, count-append p rs (qs ++ flat rest)))
        | inr f ↦ rw f (
            omega (
              arith,
              count-append p qs (flat (insert_named (name, rs) rest)),
              count-append p qs (flat rest),
              count-insert_named name rs rest,
            ))
      ]

  pub count-sort_named : (bs : Buckets) → count p (flat (sort_named bs)) ≡ count p (flat bs)
  unfolding sort_named
  count-sort_named [] = refl
  count-sort_named ((name, rs) ∷ rest) = omega (
    arith,
    count-insert_named name rs (sort_named rest),
    count-append p rs (flat rest),
    count-sort_named rest,
  )

module _ (P : String × List ExportRecord → Type 0) where
  insert_named-All :
      (b : String × List ExportRecord) (bs : Buckets) → P b → All P bs → All P (insert_named b bs)
  unfolding insert_named
  insert_named-All b [] k ks = (k, tt)
  insert_named-All (name, rs) ((m, qs) ∷ rest) k ks =
      elim (Bool-cases (text_leb (codes name) (codes m))) [
        | inl t ↦ rw t (k, ks)
        | inr f ↦ rw f (ks.0, insert_named-All (name, rs) rest k ks.1)
      ]

  pub sort_named-All : (bs : Buckets) → All P bs → All P (sort_named bs)
  unfolding sort_named
  sort_named-All [] k = tt
  sort_named-All (b ∷ bs) k = insert_named-All b (sort_named bs) k.0 (sort_named-All bs k.1)
