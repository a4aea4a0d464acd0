-- ===== src/Retention/Holds.antt =====
-- services/backend/app/services/retention.py: what a legal hold protects, and when it can be placed.
use chrome_chatgpt_data.Prelude.{
  ℕ, ◌==◌, ◌≤◌, String, Bool, true, false, not, ◌&&◌, some, List, [], ◌∷◌, ◌≡◌, refl, sym, ap, ◌∙◌,
  arith, Bool-cases, inl, inr, length, take, All, All-implies, All-intro, All-zip, All-take, ==_iff,
}
use mathlib.Core.Bool.{true≢false}
use chrome_chatgpt_data.Prelude.Rows.{
  select, find, delete, count, All-select, find-update, find-eq_some, select_passes, find_unique,
  select-update, select-delete, count-delete_le, count-update_le,
}
use chrome_chatgpt_data.Archive.{Conversation, Store}
use chrome_chatgpt_data.Retention.{
  RetentionPolicy, id_in, soft_delete_ids, soft_delete_expired, purge_ids,
  hard_delete_grace_expired, delete_conversation, delete_message, delete_version, conversation_ids,
  is_expired, is_hard,
}

abbrev pub has_id : ℕ → Conversation → Bool
has_id i c = c.id == i

-- A find of a row that is not deleted goes through a delete.
find-delete :
    (q p : Conversation → Bool) (xs : List Conversation) (a : Conversation)
    → find q xs ≡ some a
    → p a ≡ false
    → find q (delete p xs) ≡ some a
find-delete q p [] a e k = e
find-delete q p (x ∷ xs) a e k = ground (arith, find-delete q p xs a)

pub id_in_none :
    (i : ℕ) (xs : List Conversation)
    → All (λ c. has_id i c ≡ false) xs
    → id_in (conversation_ids xs) i ≡ false
id_in_none i [] h = refl
id_in_none i (c ∷ cs) h = ground (arith, id_in_none i cs h.1)

-- A row that fails the test is not among the chosen rows, nor another one with its id.
pub not_selected :
    (p : Conversation → Bool) (i : ℕ) (xs : List Conversation) (c : Conversation)
    → count (has_id i) xs ≤ 1
    → find (has_id i) xs ≡ some c
    → p c ≡ false
    → All (λ x. has_id i x ≡ false) (select p xs)
not_selected p i xs c one found fails =
    All-implies (λ x. (p x ≡ true) × (has_id i x ≡ true → x ≡ c)) (λ x. has_id i x ≡ false)
      (select p xs)
      (λ x h. elim (Bool-cases (has_id i x)) [
        | inl t ↦ absurd (true≢false (sym h.0 ∙ ap p (h.1 t) ∙ fails))
        | inr f ↦ f
      ])
      (All-zip (λ x. p x ≡ true) (λ x. has_id i x ≡ true → x ≡ c) (select p xs) (select_passes p xs)
        (All-select (λ x. has_id i x ≡ true → x ≡ c) p xs (find_unique (has_id i) xs c one found)))

-- What a conversation keeps: its row, and its messages and their versions.
pub record Stays (i : ℕ) (c : Conversation) (st st' : Store) : Type 0 where
  pub row : find (has_id i) st'.conversations ≡ some c
  pub single : count (has_id i) st'.conversations ≤ 1
  pub messages :
      select (λ m. m.conversation_id == i) st'.messages
      ≡ select (λ m. m.conversation_id == i) st.messages
  pub versions :
      select (λ v. v.conversation_id == i) st'.versions
      ≡ select (λ v. v.conversation_id == i) st.versions

-- A test on the ids of other rows fails where the id is `i`.
pub elsewhere :
    (ids : List ℕ) (i j : ℕ) → id_in ids i ≡ false → (j == i) ≡ true → id_in ids j ≡ false
elsewhere ids i j out e = rw ((==_iff j i).0 e) out

pub own_id :
    (i : ℕ) (ids : List ℕ) (xs : List Conversation) (c : Conversation)
    → find (has_id i) xs ≡ some c
    → id_in ids i ≡ false
    → id_in ids c.id ≡ false
own_id i ids xs c found out = elsewhere ids i c.id out (find-eq_some (has_id i) xs c found)

pub soft_delete_ids-Stays :
    (now : ℕ) (reason : String) (ids : List ℕ) (st : Store) (i : ℕ) (c : Conversation)
    → find (has_id i) st.conversations ≡ some c
    → count (has_id i) st.conversations ≤ 1
    → id_in ids i ≡ false
    → Stays i c st (soft_delete_ids now reason ids st)
unfolding soft_delete_ids
soft_delete_ids-Stays now reason ids st i c found one out = record {
  row =
      find-update (has_id i) (λ r. id_in ids r.id && not r.legal_hold)
        (delete_conversation now reason) st.conversations c (λ x. refl) found
      ∙ rw (own_id i ids st.conversations c found out) refl;
  single = omega (
    arith,
    one,
    count-update_le (has_id i) (λ r. id_in ids r.id && not r.legal_hold)
        (delete_conversation now reason) st.conversations
        (All-intro _ (λ x _ e. e) st.conversations),
  );
  messages =
      select-update (λ m. m.conversation_id == i)
        (λ m. id_in ids m.conversation_id && not m.legal_hold) (delete_message now reason)
        st.messages (λ m. refl) (λ m e. rw (elsewhere ids i m.conversation_id out e) refl);
  versions =
      select-update (λ v. v.conversation_id == i)
        (λ v. id_in ids v.conversation_id && not v.legal_hold) (delete_version now reason)
        st.versions (λ v. refl) (λ v e. rw (elsewhere ids i v.conversation_id out e) refl);
}

soft_delete_expired-Stays :
    (now : ℕ) (p : RetentionPolicy) (limit : ℕ) (st : Store) (i : ℕ) (c : Conversation)
    → find (has_id i) st.conversations ≡ some c
    → count (has_id i) st.conversations ≤ 1
    → c.legal_hold ≡ true
    → Stays i c st (soft_delete_expired now p limit st).2
unfolding soft_delete_expired
soft_delete_expired-Stays now p limit st i c found one held =
    let ids = conversation_ids (take limit (select (is_expired now p) st.conversations)) in
    elim (Bool-cases (length ids == 0)) [
      | inl t ↦ rw t (record { row = found; single = one; messages = refl; versions = refl })
      | inr f ↦ rw f (
          soft_delete_ids-Stays now _ ids st i c found one (
            id_in_none i (take limit (select (is_expired now p) st.conversations)) (
              All-take (λ x. has_id i x ≡ false) limit (select (is_expired now p) st.conversations)
                (not_selected (is_expired now p) i st.conversations c one found (ground arith)))))
    ]

pub purge_ids-Stays :
    (ids : List ℕ) (st : Store) (i : ℕ) (c : Conversation)
    → find (has_id i) st.conversations ≡ some c
    → count (has_id i) st.conversations ≤ 1
    → id_in ids c.id && not c.legal_hold ≡ false
    → Stays i c st (purge_ids ids st)
unfolding purge_ids
purge_ids-Stays ids st i c found one spared =
    let doomed = λ (r : Conversation). id_in ids r.id && not r.legal_hold in
    let gone = conversation_ids (select doomed st.conversations) in
    let out : id_in gone i ≡ false =
      id_in_none i (select doomed st.conversations)
        (not_selected doomed i st.conversations c one found spared) in
    record {
      row = find-delete (has_id i) doomed st.conversations c found spared;
      single = omega (arith, one, count-delete_le (has_id i) doomed st.conversations);
      messages =
          select-delete (λ m. m.conversation_id == i) (λ m. id_in gone m.conversation_id)
            st.messages (λ m e. elsewhere gone i m.conversation_id out e);
      versions =
          select-delete (λ v. v.conversation_id == i) (λ v. id_in gone v.conversation_id)
            st.versions (λ v e. elsewhere gone i v.conversation_id out e);
    }

-- A run of the retention sweep: which deletion, when, by which policy and with which limit.
pub data Sweep : Type 0 where
  soft hard : ℕ → RetentionPolicy → ℕ → Sweep

abbrev pub sweep : List Sweep → Store → Store
sweep [] st = st
sweep (soft now p limit ∷ rest) st = sweep rest (soft_delete_expired now p limit st).2
sweep (hard now p limit ∷ rest) st = sweep rest (hard_delete_grace_expired now p limit st).1

hard_delete-Stays :
    (now : ℕ) (p : RetentionPolicy) (limit : ℕ) (st : Store) (i : ℕ) (c : Conversation)
    → find (has_id i) st.conversations ≡ some c
    → count (has_id i) st.conversations ≤ 1
    → c.legal_hold ≡ true
    → Stays i c st (hard_delete_grace_expired now p limit st).1
unfolding hard_delete_grace_expired
hard_delete-Stays now p limit st i c found one held = elim (Bool-cases (is_hard p.action)) [
  | inl t ↦ rw t (purge_ids-Stays _ st i c found one (ground arith))
  | inr f ↦ rw f (record { row = found; single = one; messages = refl; versions = refl })
]

-- Legal hold always wins: however often, in whatever order and by whatever policies the two deletions
-- run, a conversation under legal hold keeps its row as it is, and its messages and their versions,
-- each with every column, stay as they are.
pub legal_hold_wins :
    (runs : List Sweep) (st : Store) (i : ℕ) (c : Conversation)
    → find (has_id i) st.conversations ≡ some c
    → count (has_id i) st.conversations ≤ 1
    → c.legal_hold ≡ true
    → let st' = sweep runs st in
      (find (has_id i) st'.conversations ≡ some c)
      × (select (λ m. m.conversation_id == i) st'.messages
          ≡ select (λ m. m.conversation_id == i) st.messages)
      × (select (λ v. v.conversation_id == i) st'.versions
          ≡ select (λ v. v.conversation_id == i) st.versions)
legal_hold_wins [] st i c found one held = (found, refl, refl)
legal_hold_wins (soft now p limit ∷ rest) st i c found one held =
    let s = soft_delete_expired-Stays now p limit st i c found one held in
    let (row, ms, vs) = legal_hold_wins rest _ i c s.row s.single held in
    (row, ms ∙ s.messages, vs ∙ s.versions)
legal_hold_wins (hard now p limit ∷ rest) st i c found one held =
    let s = hard_delete-Stays now p limit st i c found one held in
    let (row, ms, vs) = legal_hold_wins rest _ i c s.row s.single held in
    (row, ms ∙ s.messages, vs ∙ s.versions)
