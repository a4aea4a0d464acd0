-- ===== src/Retention/Grace.antt =====
-- services/backend/app/services/retention.py: what may be deleted, and when a hold is refused.
use chrome_chatgpt_data.Prelude.{
  ℕ, zero, suc, ◌+◌, ◌*◌, ◌==◌, ◌≤◌, ◌≢◌, ◌⊎◌, ==_iff, String, Bool, true, false, ◌&&◌, ◌||◌,
  Option, none, some, List, [], ◌∷◌, ◌≡◌, refl, arith, Bool-cases, inl, inr, is_some, length, take,
  All, All-take,
}
use chrome_chatgpt_data.Prelude.Rows.{select, find, any, update, count}
use chrome_chatgpt_data.Prelude.Results.{Result, ok, err}
use chrome_chatgpt_data.Enums.{RetentionAction, soft_delete, hard_delete, anonymize}
use chrome_chatgpt_data.Archive.{Conversation, Message, Store}
use chrome_chatgpt_data.Retention.{
  RetentionPolicy, LegalHold, day, Violation, legal_hold_blocks_soft_delete, id_in, is_target,
  is_hard, in_conversations, apply_legal_hold, soft_delete_expired, hard_delete_grace_expired,
  hold_conversation, hold_message, conversation_ids, is_expired, is_purgeable,
}
use chrome_chatgpt_data.Retention.Holds.{
  has_id, id_in_none, not_selected, own_id, soft_delete_ids-Stays, purge_ids-Stays,
}

-- The row, the messages and the versions of a conversation are as before.
abbrev pub IsUntouched : ℕ → Conversation → Store → Store → Type 0
IsUntouched i c st st' =
    (find (has_id i) st'.conversations ≡ some c)
    × (select (λ m. m.conversation_id == i) st'.messages
        ≡ select (λ m. m.conversation_id == i) st.messages)
    × (select (λ v. v.conversation_id == i) st'.versions
        ≡ select (λ v. v.conversation_id == i) st.versions)

chosen_out :
    (p : Conversation → Bool) (n i : ℕ) (xs : List Conversation) (c : Conversation)
    → count (has_id i) xs ≤ 1
    → find (has_id i) xs ≡ some c
    → p c ≡ false
    → id_in (conversation_ids (take n (select p xs))) i ≡ false
chosen_out p n i xs c one found fails =
    id_in_none i (take n (select p xs))
      (All-take (λ x. has_id i x ≡ false) n (select p xs) (not_selected p i xs c one found fails))

length-ids : (n : ℕ) (xs : List Conversation) → length (conversation_ids (take n xs)) ≤ n
length-ids zero xs = omega arith
length-ids (suc n) [] = omega arith
length-ids (suc n) (x ∷ xs) = omega (arith, length-ids n xs)

-- Another organization's, deleted already, held, or not older than the days of retention.
abbrev pub IsKept : ℕ → RetentionPolicy → Conversation → Type 0
IsKept now p c =
    (c.organization_id ≢ p.organization_id)
    ⊎ ((is_some c.deleted_at ≡ true)
        ⊎ ((c.legal_hold ≡ true) ⊎ (now ≤ c.created_at + p.retain_days * day)))

-- Another organization's, not deleted, held, not deleted for longer than the days of grace, or under a
-- policy of another action.
abbrev pub IsSpared : ℕ → RetentionPolicy → Conversation → Type 0
IsSpared now p c =
    (c.organization_id ≢ p.organization_id)
    ⊎ ((c.deleted_at ≡ none)
        ⊎ ((c.legal_hold ≡ true)
            ⊎ (((t : ℕ) × (c.deleted_at ≡ some t) × (now ≤ t + p.grace_days * day))
                ⊎ (p.action ≢ hard_delete))))

kept_young :
    (now : ℕ) (p : RetentionPolicy) (c : Conversation) → IsKept now p c → is_expired now p c ≡ false
kept_young now p c (inl other) = ground (arith, ==_iff c.organization_id p.organization_id)
kept_young now p c (inr (inl gone)) = ground arith
kept_young now p c (inr (inr (inl held))) = ground arith
kept_young now p c (inr (inr (inr young))) = ground arith

only_hard : (a : RetentionAction) → a ≢ hard_delete → is_hard a ≡ false
only_hard hard_delete other = absurd (other refl)
only_hard soft_delete other = refl
only_hard anonymize other = refl

spared_young :
    (now : ℕ) (p : RetentionPolicy) (c : Conversation)
    → IsSpared now p c
    → (is_hard p.action && is_purgeable now p c) ≡ false
spared_young now p c (inl other) = ground (arith, ==_iff c.organization_id p.organization_id)
spared_young now p c (inr (inl alive)) = rw alive (ground arith)
spared_young now p c (inr (inr (inl held))) = ground arith
spared_young now p c (inr (inr (inr (inl (t, gone, young))))) = rw gone (ground arith)
spared_young now p c (inr (inr (inr (inr other)))) = rw (only_hard p.action other) refl

-- Nothing is deleted early: a conversation that is not of the policy's organization, that is held or
-- soft-deleted already, or whose age does not exceed the retention days is left untouched by the soft
-- deletion; and one that is not of the organization, that is held, that is not soft-deleted for longer
-- than the grace days, or under a policy whose action is not the physical deletion, is left untouched by
-- the physical deletion. Neither reports more rows than its limit.
pub deletion_needs_age :
    (now : ℕ) (p : RetentionPolicy) (limit : ℕ) (st : Store) (i : ℕ) (c : Conversation)
    → find (has_id i) st.conversations ≡ some c
    → count (has_id i) st.conversations ≤ 1
    → let soft = soft_delete_expired now p limit st in
      let hard = hard_delete_grace_expired now p limit st in
      (IsKept now p c → IsUntouched i c st soft.2)
      × (IsSpared now p c → IsUntouched i c st hard.1)
      × (soft.0 ≤ limit)
      × (hard.0 ≤ limit)
unfolding soft_delete_expired hard_delete_grace_expired
deletion_needs_age now p limit st i c found one = (
  (λ kept. soft_spares (kept_young now p c kept)),
  (λ spared. hard_spares (spared_young now p c spared)),
  few_soft,
  few_hard,
)
  where
    expired : List ℕ
    expired = conversation_ids (take limit (select (is_expired now p) st.conversations))

    purged : List ℕ
    purged = conversation_ids (take limit (select (is_purgeable now p) st.conversations))

    few_soft : (soft_delete_expired now p limit st).0 ≤ limit
    few_soft = elim (Bool-cases (length expired == 0)) [
      | inl t ↦ rw t (omega arith)
      | inr f ↦ rw f (length-ids limit (select (is_expired now p) st.conversations))
    ]

    few_hard : (hard_delete_grace_expired now p limit st).0 ≤ limit
    few_hard = elim (Bool-cases (is_hard p.action)) [
      | inl t ↦ rw t (length-ids limit (select (is_purgeable now p) st.conversations))
      | inr f ↦ rw f (omega arith)
    ]

    soft_spares :
        is_expired now p c ≡ false → IsUntouched i c st (soft_delete_expired now p limit st).2
    soft_spares young = elim (Bool-cases (length expired == 0)) [
      | inl t ↦ rw t (found, refl, refl)
      | inr f ↦
          let s =
            soft_delete_ids-Stays now _ expired st i c found one
              (chosen_out (is_expired now p) limit i st.conversations c one found young) in
          rw f (s.row, s.messages, s.versions)
    ]

    hard_spares :
        (is_hard p.action && is_purgeable now p c) ≡ false
        → IsUntouched i c st (hard_delete_grace_expired now p limit st).1
    hard_spares young = elim (Bool-cases (is_hard p.action)) [
      | inl t ↦
          let out =
            own_id i purged st.conversations c found (
              chosen_out (is_purgeable now p) limit i st.conversations c one found
                (ground arith)) in
          let s = purge_ids-Stays purged st i c found one (ground (arith, out)) in
          rw t (s.row, s.messages, s.versions)
      | inr f ↦ rw f (found, refl, refl)
    ]

-- Where a hold has been placed, every row that it targets is held and alive.
abbrev pub IsPlaced : ℕ → List ℕ → Result Violation (List LegalHold × Store) → Type 0
IsPlaced org ids (ok (holds, st)) =
    All (λ c. is_target org ids c ≡ true → (c.legal_hold ≡ true) × (c.deleted_at ≡ none))
      st.conversations
    × All (λ m. in_conversations ids m ≡ true → (m.legal_hold ≡ true) × (m.deleted_at ≡ none))
        st.messages
IsPlaced org ids (err e) = Unit

held_conversations :
    (org : ℕ) (ids : List ℕ) (cs : List Conversation)
    → any (λ c. is_target org ids c && is_some c.deleted_at) cs ≡ false
    → All
        (λ c. is_target org ids c ≡ true → (c.legal_hold ≡ true) × (c.deleted_at ≡ none))
        (update (is_target org ids) hold_conversation cs)
held_conversations org ids [] h = tt
held_conversations org ids (c ∷ cs) h = (
  elim (Bool-cases (is_target org ids c)) [
    | inl t ↦ rw t (λ _. (refl, ground arith))
    | inr f ↦ rw f (λ t. absurd (ground arith))
  ],
  held_conversations org ids cs (ground arith),
)

held_messages :
    (ids : List ℕ) (ms : List Message)
    → any (λ m. in_conversations ids m && is_some m.deleted_at) ms ≡ false
    → All
        (λ m. in_conversations ids m ≡ true → (m.legal_hold ≡ true) × (m.deleted_at ≡ none))
        (update (in_conversations ids) hold_message ms)
held_messages ids [] h = tt
held_messages ids (m ∷ ms) h = (
  elim (Bool-cases (in_conversations ids m)) [
    | inl t ↦ rw t (λ _. (refl, ground arith))
    | inr f ↦ rw f (λ t. absurd (ground arith))
  ],
  held_messages ids ms (ground arith),
)

any_found :
    (q : Conversation → Bool) (i : ℕ) (cs : List Conversation) (c : Conversation)
    → find (has_id i) cs ≡ some c
    → q c ≡ true
    → any q cs ≡ true
any_found q i [] c e t = ground arith
any_found q i (x ∷ xs) c e t = ground (arith, any_found q i xs c)

-- When `apply_legal_hold` returns, every conversation of the organization among the ids, and every
-- message of these, is held and not soft-deleted. But it raises, and places no hold at all, as soon as
-- one of these conversations is soft-deleted, although the physical deletion is still to come: the
-- table's constraint refuses a held row that is soft-deleted.
pub apply_legal_hold_lem :
    (org : ℕ) (ids : List ℕ) (name : String) (actor : Option ℕ) (matter : Option String)
    (holds : List LegalHold) (st : Store)
    → IsPlaced org ids (apply_legal_hold org ids name actor matter holds st)
      × ((i : ℕ) (c : Conversation)
          → find (has_id i) st.conversations ≡ some c
          → is_target org ids c ≡ true
          → is_some c.deleted_at ≡ true
          → apply_legal_hold org ids name actor matter holds st ≡ err legal_hold_blocks_soft_delete)
unfolding apply_legal_hold
apply_legal_hold_lem org ids name actor matter holds st = (placed, blocked)
  where
    dead : Bool
    dead = any (λ c. is_target org ids c && is_some c.deleted_at) st.conversations

    dead_message : Bool
    dead_message = any (λ m. in_conversations ids m && is_some m.deleted_at) st.messages

    placed : IsPlaced org ids (apply_legal_hold org ids name actor matter holds st)
    placed = elim (Bool-cases (dead || dead_message)) [
      | inl t ↦ rw t tt
      | inr f ↦ rw f (
        held_conversations org ids st.conversations (ground arith),
        held_messages ids st.messages (ground arith),
      )
    ]

    blocked :
        (i : ℕ) (c : Conversation)
        → find (has_id i) st.conversations ≡ some c
        → is_target org ids c ≡ true
        → is_some c.deleted_at ≡ true
        → apply_legal_hold org ids name actor matter holds st ≡ err legal_hold_blocks_soft_delete
    blocked i c found target deleted =
        rw
          (any_found (λ x. is_target org ids x && is_some x.deleted_at) i st.conversations c found
            (ground arith))
          refl
