-- ===== src/Handlers/Settled.antt =====
-- services/backend/app/workers/handlers.py, `handle_reconcile_partial`: what a run settles.
use chrome_chatgpt_data.Prelude.{
  ℕ, ◌≤◌, ◌≡◌, refl, sym, ◌∙◌, inl, inr, true, false, ◌&&◌, some, List, map, ◌==◌, All, IsIn,
  All-IsIn, All-implies, arith, Option-cases, ==_iff, ==_refl,
}
use mathlib.Core.Bool.{false≢true}
use chrome_chatgpt_data.Prelude.Rows.{
  select, find, update-All, select-All, All-select, All-find, select_passes, find-eq_some,
  find-update, any, any-find, any-select,
}
use chrome_chatgpt_data.Prelude.Sorting.{
  sort_by, descending, sort_by-All, any-sort_by, find-sort_by,
}
use chrome_chatgpt_data.Enums.{CompletionStatus, is_complete, is_partial}
use chrome_chatgpt_data.Jobs.{Job}
use chrome_chatgpt_data.Archive.{Message, MessageVersion, Store}
use chrome_chatgpt_data.Attachments.Finalize.{entry, as_id}
use chrome_chatgpt_data.Ingest.History.{content, content-update}
use chrome_chatgpt_data.Handlers.Reconcile.{
  latest_complete, settle, is_superseded, supersede, reconcile, handle_reconcile_partial,
}

-- The complete version of the message with the greatest number.
abbrev pub IsLatest : ℕ → List MessageVersion → MessageVersion → Type 0
IsLatest i versions c =
    IsIn c versions
    × (c.message_id ≡ i)
    × (is_complete c.completion_status ≡ true)
    × All
        (λ v.
          v.message_id ≡ i
          → is_complete v.completion_status ≡ true
          → v.version_number ≤ c.version_number)
        versions

latest_complete-IsLatest :
    (i : ℕ) (versions : List MessageVersion) (c : MessageVersion)
    → latest_complete i versions ≡ some c
    → IsLatest i versions c
latest_complete-IsLatest i versions c found =
    let own = λ (v : MessageVersion). v.message_id == i in
    let number = λ (v : MessageVersion). v.version_number in
    let ordered = sort_by (descending number) (select own versions) in
    let complete = λ (v : MessageVersion). is_complete v.completion_status in
    let there =
      sort_by-All (descending number) (λ v. IsIn v versions) (select own versions)
        (All-select (λ v. IsIn v versions) own versions (All-IsIn versions)) in
    let owned =
      sort_by-All (descending number) (λ v. own v ≡ true) (select own versions)
        (select_passes own versions) in
    (
      All-find (λ v. IsIn v versions) complete ordered c there found,
      (==_iff c.message_id i).0 (All-find (λ v. own v ≡ true) complete ordered c owned found),
      find-eq_some complete ordered c found,
      All-implies _ _ versions (λ v k same. k ((==_iff v.message_id i).1 same))
          (select-All (λ v. complete v ≡ true → v.version_number ≤ c.version_number) own versions
            (find-sort_by number complete (select own versions) c found)),
    )

-- The row `m'` is that of `m`, complete and with the version `c` to be shown.
abbrev pub ShowsVersion : MessageVersion → Message → Message → Type 0
ShowsVersion c m m' =
    (m'.completion_status ≡ CompletionStatus.complete)
    × (m'.current_version_id ≡ some c.id)
    × (record m' {
      completion_status = m.completion_status;
      current_version_id = m.current_version_id;
    }
        ≡ m)

latest_exists :
    (i : ℕ) (versions : List MessageVersion)
    → any (λ v. v.message_id == i && is_complete v.completion_status) versions ≡ true
    → (c : MessageVersion) × (latest_complete i versions ≡ some c)
latest_exists i versions there =
    let own = λ (v : MessageVersion). v.message_id == i in
    let complete = λ (v : MessageVersion). is_complete v.completion_status in
    let ordered = sort_by (descending (λ v. v.version_number)) (select own versions) in
    let some_passes : any complete ordered ≡ true =
      any-sort_by (descending (λ v. v.version_number)) complete (select own versions)
      ∙ any-select complete own versions
      ∙ there in
    elim (Option-cases (find complete ordered)) [
      | inl n ↦ absurd (false≢true (sym (any-find complete ordered n) ∙ some_passes))
      | inr found ↦ found
    ]

-- A version of the message other than by its state, or of another message, is as it was.
reconcile_settles :
    (now i : ℕ) (m : Message) (c : MessageVersion) (st : Store)
    → find (λ r. r.id == i) st.messages ≡ some m
    → let st' = (reconcile now m (some c) st).1 in
      (m' : Message) × (find (λ r. r.id == i) st'.messages ≡ some m')
      × ShowsVersion c m m'
      × All (λ v. v.message_id ≡ m.id → is_partial v.completion_status ≡ false) st'.versions
      × (map content st'.versions ≡ map content st.versions)
unfolding reconcile content
reconcile_settles now i m c st found = (
  settle c.id m,
  find-update (λ r. r.id == i) (λ r. r.id == m.id) (settle c.id) st.messages m (λ r. refl) found
      ∙ rw (==_refl m.id) refl,
  (refl, refl, refl),
  update-All (λ v. v.message_id ≡ m.id → is_partial v.completion_status ≡ false)
      (is_superseded m.id) (supersede now c.id) st.versions (λ v k same. refl)
      (λ v k same. ground (arith, ==_refl m.id)),
  content-update (is_superseded m.id) (supersede now c.id) st.versions (λ v. refl),
)

-- Where the message of the payload is not complete and has a complete version, a run makes it complete and
-- lets it show, of its complete versions, the one with the greatest number; after it no version of the
-- message is partial, and every version has its text and its hashes.
pub handle_reconcile_partial_settles :
    (now : ℕ) (job : Job) (st : Store) (i : ℕ) (m : Message)
    → as_id (entry "message_id" job.payload) ≡ some i
    → find (λ r. r.id == i) st.messages ≡ some m
    → is_complete m.completion_status ≡ false
    → any (λ v. v.message_id == m.id && is_complete v.completion_status) st.versions ≡ true
    → let st' = (handle_reconcile_partial now job st).1 in
      (c : MessageVersion) × IsLatest m.id st.versions c
      × (m' : Message) × (find (λ r. r.id == i) st'.messages ≡ some m')
      × ShowsVersion c m m'
      × All (λ v. v.message_id ≡ m.id → is_partial v.completion_status ≡ false) st'.versions
      × (map content st'.versions ≡ map content st.versions)
unfolding handle_reconcile_partial
handle_reconcile_partial_settles now job st i m id found late there =
    let (c, latest) = latest_exists m.id st.versions there in
    let (m', shown, shows, none_partial, kept) = reconcile_settles now i m c st found in
    rw id (
      rw found (
        rw late (
          rw latest (
            c,
            latest_complete-IsLatest m.id st.versions c latest,
            m',
            shown,
            shows,
            none_partial,
            kept,
          ))))
