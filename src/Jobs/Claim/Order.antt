-- ===== src/Jobs/Claim/Order.antt =====
-- services/backend/app/services/jobs.py, `claim_jobs`: which jobs are claimed first.
use mathlib.Core.List.{Perm}
use mathlib.Core.List.Perm
use chrome_chatgpt_data.Prelude.{
  ℕ, zero, suc, ◌≡◌, Bool, true, false, not, List, [], ◌∷◌, All, All-implies, All-take, All-drop,
  All-zip, take, drop, arith, Bool-cases, inl, inr,
}
use chrome_chatgpt_data.Prelude.Rows.{select, All-select, select_passes}
use chrome_chatgpt_data.Enums.{JobKind}
use chrome_chatgpt_data.Jobs.{Job}
use chrome_chatgpt_data.Jobs.Claim.{
  ordered, runnable, insert_ordered, order_by, skip_locked, claimable,
}

ordered_total : (a b : Job) → ordered a b ≡ false → ordered b a ≡ true
ordered_total a b h = ground arith

ordered_trans : (a b c : Job) → ordered a b ≡ true → ordered b c ≡ true → ordered a c ≡ true
ordered_trans a b c h k = ground arith

abbrev pub IsOrdered : List Job → Type 0
IsOrdered [] = Unit
IsOrdered (j ∷ js) = All (λ k. ordered j k ≡ true) js × IsOrdered js

All-insert_ordered :
    (P : Job → Type 0) (j : Job) (ks : List Job) → P j → All P ks → All P (insert_ordered j ks)
unfolding insert_ordered
All-insert_ordered P j [] h hs = (h, tt)
All-insert_ordered P j (k ∷ ks) h hs = ground (arith, All-insert_ordered P j ks h hs.1)

insert_ordered-IsOrdered :
    (j : Job) (ks : List Job) → IsOrdered ks → IsOrdered (insert_ordered j ks)
unfolding insert_ordered
insert_ordered-IsOrdered j [] h = (tt, tt)
insert_ordered-IsOrdered j (k ∷ ks) h = elim (Bool-cases (ordered j k)) [
  | inl e ↦ rw e (
    (
      e,
      All-implies (λ l. ordered k l ≡ true) (λ l. ordered j l ≡ true) ks
          (λ l o. ordered_trans j k l e o) h.0,
    ),
    h,
  )
  | inr e ↦ rw e (
    All-insert_ordered (λ l. ordered k l ≡ true) j ks (ordered_total j k e) h.0,
    insert_ordered-IsOrdered j ks h.1,
  )
]

order_by-IsOrdered : (js : List Job) → IsOrdered (order_by js)
unfolding order_by
order_by-IsOrdered [] = tt
order_by-IsOrdered (j ∷ js) = insert_ordered-IsOrdered j (order_by js) (order_by-IsOrdered js)

All-order_by : (P : Job → Type 0) (js : List Job) → All P js → All P (order_by js)
unfolding order_by
All-order_by P [] h = tt
All-order_by P (j ∷ js) h = All-insert_ordered P j (order_by js) h.0 (All-order_by P js h.1)

insert_ordered-perm : (j : Job) (ks : List Job) → Perm (insert_ordered j ks) (j ∷ ks)
unfolding insert_ordered
insert_ordered-perm j [] = Perm.refl (j ∷ [])
insert_ordered-perm j (k ∷ ks) = elim (Bool-cases (ordered j k)) [
  | inl e ↦ rw e (Perm.refl (j ∷ k ∷ ks))
  | inr e ↦ rw e (Perm.trans (Perm.cons k (insert_ordered-perm j ks)) (Perm.swap j k ks))
]

order_by-perm : (js : List Job) → Perm (order_by js) js
unfolding order_by
order_by-perm [] = Perm.refl []
order_by-perm (j ∷ js) =
    Perm.trans (insert_ordered-perm j (order_by js)) (Perm.cons j (order_by-perm js))

take-IsOrdered :
    (n : ℕ) (js : List Job)
    → IsOrdered js
    → All (λ s. All (λ r. ordered s r ≡ true) (drop n js)) (take n js)
take-IsOrdered zero js h = tt
take-IsOrdered (suc n) [] h = tt
take-IsOrdered (suc n) (j ∷ js) h =
    (All-drop (λ r. ordered j r ≡ true) n js h.0, take-IsOrdered n js h.1)

-- The jobs that may be claimed: the pending, due and wanted ones that no other transaction holds
-- locked, in the order of the claim.
abbrev pub candidates : ℕ → List JobKind → (ℕ → Bool) → List Job → List Job
candidates now kinds locked jobs = order_by (skip_locked locked (select (runnable now kinds) jobs))

module _ (now : ℕ) (kinds : List JobKind) (locked : ℕ → Bool) (limit : ℕ) (jobs : List Job) where
  -- Whatever the limit, a claim selects runnable, unlocked jobs only, the candidates are a
  -- rearrangement of all of these, and every selected job comes no later, by priority, then
  -- `run_after`, then `created_at`, than every candidate that is left.
  pub claimable_lem :
      All
        (λ s. (runnable now kinds s ≡ true) × (locked s.id ≡ false))
        (claimable now kinds locked limit jobs)
      × Perm
          (candidates now kinds locked jobs)
          (skip_locked locked (select (runnable now kinds) jobs))
      × All
          (λ s. All (λ r. ordered s r ≡ true) (drop limit (candidates now kinds locked jobs)))
          (claimable now kinds locked limit jobs)
  unfolding claimable
  claimable_lem = (
    All-take _ limit (order_by free) (
        All-order_by (λ s. (runnable now kinds s ≡ true) × (locked s.id ≡ false)) free
          (All-implies _ _ free (λ s h. (h.0, ground arith))
            (All-zip (λ s. runnable now kinds s ≡ true) (λ s. not (locked s.id) ≡ true) free
              (All-select (λ s. runnable now kinds s ≡ true) _ due (select_passes _ jobs))
              (select_passes (λ s. not (locked s.id)) due)))),
    order_by-perm free,
    take-IsOrdered limit (order_by free) (order_by-IsOrdered free),
  )
    where
      due : List Job
      due = select (runnable now kinds) jobs

      free : List Job
      free = skip_locked locked due
