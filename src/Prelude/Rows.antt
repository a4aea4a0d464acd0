-- ===== src/Prelude/Rows.antt =====
-- A database table as a list of rows: SELECT, UPDATE and DELETE by a Boolean test, and the laws by
-- which an invariant of the rows survives them.
use Prim.Native.Nat.{ℕ, ◌+◌, ◌≤◌}
use mathlib.Core.Logic.{inl, inr}
use mathlib.Core.Path.{◌≡◌, refl, sym, ◌∙◌}
use mathlib.Core.Bool.{Bool, true, false, ◌&&◌, ◌||◌, false≢true}
use mathlib.Core.List.{List, [], ◌∷◌, ◌++◌}
use mathlib.Core.Option.{Option, none, some}
use native.Mathlib.Omega.{arith}
use chrome_chatgpt_data.Prelude.Tests.{if◌then◌else◌, Bool-cases, Option-cases}
use chrome_chatgpt_data.Prelude.Lists.{All, length, All-implies}

module _ {ℓ} {A : Type ℓ} where
  -- `SELECT … WHERE p`
  abbrev pub select : (A → Bool) → List A → List A
  select p [] = []
  select p (x ∷ xs) = let rest = select p xs in if p x then x ∷ rest else rest

  -- The first row that passes: `scalar_one_or_none`, `scalars().first()`.
  abbrev pub find : (A → Bool) → List A → Option A
  find p [] = none
  find p (x ∷ xs) = let rest = find p xs in if p x then some x else rest

  abbrev pub any : (A → Bool) → List A → Bool
  any p [] = false
  any p (x ∷ xs) = p x || any p xs

  -- `UPDATE … WHERE p`
  abbrev pub update : (A → Bool) → (A → A) → List A → List A
  update p f [] = []
  update p f (x ∷ xs) = (if p x then f x else x) ∷ update p f xs

  -- `DELETE … WHERE p`
  abbrev pub delete : (A → Bool) → List A → List A
  delete p [] = []
  delete p (x ∷ xs) = let rest = delete p xs in if p x then rest else x ∷ rest

  -- `SELECT count(*) WHERE p`
  abbrev pub count : (A → Bool) → List A → ℕ
  count p [] = 0
  count p (x ∷ xs) = (if p x then 1 else 0) + count p xs

  pub length-update : (p : A → Bool) (f : A → A) (xs : List A) → length (update p f xs) ≡ length xs
  length-update p f [] = refl
  length-update p f (x ∷ xs) = omega (arith, length-update p f xs)

  -- An update that hits no row changes nothing.
  pub update_none : (p : A → Bool) (f : A → A) (xs : List A) → any p xs ≡ false → update p f xs ≡ xs
  update_none p f [] h = refl
  update_none p f (x ∷ xs) h = ground (arith, update_none p f xs)

  pub find-eq_some : (p : A → Bool) (xs : List A) (a : A) → find p xs ≡ some a → p a ≡ true
  find-eq_some p [] a h = ground arith
  find-eq_some p (x ∷ xs) a h = ground (arith, find-eq_some p xs a)

  pub any-select : (q p : A → Bool) (xs : List A) → any q (select p xs) ≡ any (λ x. p x && q x) xs
  any-select q p [] = refl
  any-select q p (x ∷ xs) = ground (arith, any-select q p xs)

  pub any-find : (p : A → Bool) (xs : List A) → find p xs ≡ none → any p xs ≡ false
  any-find p [] h = refl
  any-find p (x ∷ xs) h = ground (arith, any-find p xs)

module _ {ℓ} {A : Type ℓ} where
  pub count_zero : (p : A → Bool) (xs : List A) → count p xs ≡ 0 → All (λ x. p x ≡ false) xs
  count_zero p [] h = tt
  count_zero p (x ∷ xs) h = ground (arith, count_zero p xs)

  pub count-any : (p : A → Bool) (xs : List A) → any p xs ≡ false → count p xs ≡ 0
  count-any p [] h = refl
  count-any p (x ∷ xs) h = ground (arith, count-any p xs)

  pub any-count : (p : A → Bool) (xs : List A) → any p xs ≡ true → 1 ≤ count p xs
  any-count p [] h = cc
  any-count p (x ∷ xs) h = ground (arith, any-count p xs)

  pub count-append : (p : A → Bool) (xs ys : List A) → count p (xs ++ ys) ≡ count p xs + count p ys
  count-append p [] ys = omega arith
  count-append p (x ∷ xs) ys = omega (arith, count-append p xs ys)

  -- Where at most one row passes, it is the one that `find` returns.
  pub find_unique :
      (p : A → Bool) (xs : List A) (a : A)
      → count p xs ≤ 1
      → find p xs ≡ some a
      → All (λ x. p x ≡ true → x ≡ a) xs
  find_unique p [] a h e = tt
  find_unique p (x ∷ xs) a h e = elim (Bool-cases (p x)) [
    | inl t ↦ (
      (λ _. ground arith),
      All-implies (λ y. p y ≡ false) (λ y. p y ≡ true → y ≡ a) xs (λ y n m. cc)
          (count_zero p xs (ground arith)),
    )
    | inr f ↦ ((λ t. cc), find_unique p xs a (ground arith) (ground arith))
  ]

  pub find-eq_none : (p : A → Bool) (xs : List A) → All (λ x. p x ≡ false) xs → find p xs ≡ none
  find-eq_none p [] h = refl
  find-eq_none p (x ∷ xs) h = ground (arith, find-eq_none p xs h.1)

  -- An update that leaves the test `q` alone is seen through `find q`.
  pub find-update :
      (q p : A → Bool) (f : A → A) (xs : List A) (a : A)
      → ((x : A) → q (f x) ≡ q x)
      → find q xs ≡ some a
      → find q (update p f xs) ≡ some (if p a then f a else a)
  find-update q p f [] a same e = cc
  find-update q p f (x ∷ xs) a same e = ground (arith, same x, find-update q p f xs a same)

  pub find-update-none :
      (q p : A → Bool) (f : A → A) (xs : List A)
      → ((x : A) → q (f x) ≡ q x)
      → find q xs ≡ none
      → find q (update p f xs) ≡ none
  find-update-none q p f [] same e = refl
  find-update-none q p f (x ∷ xs) same e = ground (arith, same x, find-update-none q p f xs same)

  pub any_none : (p : A → Bool) (xs : List A) → All (λ x. p x ≡ false) xs → any p xs ≡ false
  any_none p [] h = refl
  any_none p (x ∷ xs) h = ground (arith, any_none p xs h.1)

  pub select_passes : (p : A → Bool) (xs : List A) → All (λ x. p x ≡ true) (select p xs)
  select_passes p [] = tt
  select_passes p (x ∷ xs) = ground (arith, select_passes p xs)

  -- What every passing row implies holds if some row passes.
  pub any_elim {κ} :
      (Q : Type κ) (p : A → Bool) (xs : List A) → All (λ x. p x ≡ true → Q) xs → any p xs ≡ true → Q
  any_elim Q p [] h e = absurd (false≢true e)
  any_elim Q p (x ∷ xs) h e = elim (Bool-cases (p x)) [
    | inl t ↦ h.0 t
    | inr f ↦ any_elim Q p xs h.1 (ground arith)
  ]

  -- An update that makes no new row pass `q` does not raise the count of `q`.
  pub count-update_le :
      (q p : A → Bool) (f : A → A) (xs : List A)
      → All (λ x. p x ≡ true → q (f x) ≡ true → q x ≡ true) xs
      → count q (update p f xs) ≤ count q xs
  count-update_le q p f [] h = omega arith
  count-update_le q p f (x ∷ xs) h = ground (arith, h.0, count-update_le q p f xs h.1)

  pub any_of_find : (p : A → Bool) (xs : List A) (a : A) → find p xs ≡ some a → any p xs ≡ true
  any_of_find p [] a e = ground arith
  any_of_find p (x ∷ xs) a e = ground (arith, any_of_find p xs a)

  -- Rows that an update or a delete does not hit are selected as before.
  pub select-update :
      (q p : A → Bool) (f : A → A) (xs : List A)
      → ((x : A) → q (f x) ≡ q x)
      → ((x : A) → q x ≡ true → p x ≡ false)
      → select q (update p f xs) ≡ select q xs
  select-update q p f [] same apart = refl
  select-update q p f (x ∷ xs) same apart =
      ground (arith, same x, apart x, select-update q p f xs same apart)

  pub select-delete :
      (q p : A → Bool) (xs : List A)
      → ((x : A) → q x ≡ true → p x ≡ false)
      → select q (delete p xs) ≡ select q xs
  select-delete q p [] apart = refl
  select-delete q p (x ∷ xs) apart = ground (arith, apart x, select-delete q p xs apart)

  pub count-delete_le : (q p : A → Bool) (xs : List A) → count q (delete p xs) ≤ count q xs
  count-delete_le q p [] = omega arith
  count-delete_le q p (x ∷ xs) = ground (arith, count-delete_le q p xs)

  pub count_none : (p : A → Bool) (xs : List A) → All (λ x. p x ≡ false) xs → count p xs ≡ 0
  count_none p [] h = refl
  count_none p (x ∷ xs) h = ground (arith, count_none p xs h.1)

  pub count-update_same :
      (q p : A → Bool) (f : A → A) (xs : List A)
      → ((x : A) → q (f x) ≡ q x)
      → count q (update p f xs) ≡ count q xs
  count-update_same q p f [] same = refl
  count-update_same q p f (x ∷ xs) same = ground (arith, same x, count-update_same q p f xs same)

  -- A row that passes is found.
  pub find-any : (p : A → Bool) (xs : List A) → any p xs ≡ true → (a : A) × (find p xs ≡ some a)
  find-any p xs h = elim (Option-cases (find p xs)) [
    | inl e ↦ absurd (ground (arith, any-find p xs e))
    | inr e ↦ e
  ]

  pub find_last :
      (p : A → Bool) (xs : List A) (w : A)
      → any p xs ≡ false
      → p w ≡ true
      → find p (xs ++ w ∷ []) ≡ some w
  find_last p [] w h t = ground arith
  find_last p (x ∷ xs) w h t = ground (arith, find_last p xs w)

module _ {ℓ κ} {A : Type ℓ} (P : A → Type κ) where
  pub All-select : (p : A → Bool) (xs : List A) → All P xs → All P (select p xs)
  All-select p [] h = h
  All-select p (x ∷ xs) h = ground (arith, All-select p xs h.1)

  pub All-delete : (p : A → Bool) (xs : List A) → All P xs → All P (delete p xs)
  All-delete p [] h = h
  All-delete p (x ∷ xs) h = ground (arith, All-delete p xs h.1)

  pub All-update :
      (p : A → Bool) (f : A → A) (xs : List A)
      → All (λ x. p x ≡ true → P (f x)) xs
      → All P xs
      → All P (update p f xs)
  All-update p f [] k h = h
  All-update p f (x ∷ xs) k h = ground (arith, k.0, All-update p f xs k.1 h.1)

  pub All-find : (p : A → Bool) (xs : List A) (a : A) → All P xs → find p xs ≡ some a → P a
  All-find p [] a h e = ground arith
  All-find p (x ∷ xs) a h e = ground (arith, All-find p xs a h.1)

  pub select-All :
      (p : A → Bool) (xs : List A) → All P (select p xs) → All (λ x. p x ≡ true → P x) xs
  select-All p [] h = tt
  select-All p (x ∷ xs) h = elim (Bool-cases (p x)) [
    | inl t ↦
        let both : P x × All P (select p xs) = rw t at h in ((λ _. both.0), select-All p xs both.1)
    | inr f ↦ ((λ t. absurd (false≢true (sym f ∙ t))), select-All p xs (rw f at h))
  ]

  pub update-All :
      (p : A → Bool) (f : A → A) (xs : List A)
      → ((x : A) → p x ≡ true → P (f x))
      → ((x : A) → p x ≡ false → P x)
      → All P (update p f xs)
  update-All p f [] k h = tt
  update-All p f (x ∷ xs) k h = elim (Bool-cases (p x)) [
    | inl t ↦ rw t (k x t, update-All p f xs k h)
    | inr n ↦ rw n (h x n, update-All p f xs k h)
  ]
