-- ===== src/Prelude/Sorting.antt =====
-- ORDER BY: a stable sort of rows by insertion, for the test `before` that the first of two rows may stand
-- in front.
use Prim.Native.Nat.{ℕ, ◌+◌, ◌≤◌}
use mathlib.Core.Logic.{inl, inr}
use mathlib.Core.Path.{◌≡◌, refl, sym, ◌∙◌}
use mathlib.Core.Bool.{Bool, true, ◌||◌}
use mathlib.Core.List.{List, [], ◌∷◌}
use mathlib.Core.Option.{some}
use native.Mathlib.Omega.{arith}
use chrome_chatgpt_data.Prelude.Tests.{if◌then◌else◌, leb, Bool-cases}
use chrome_chatgpt_data.Prelude.Lists.{All, All-implies}
use chrome_chatgpt_data.Prelude.Rows.{any, find, count}

module _ {A : Type 0} (before : A → A → Bool) where
  abbrev pub insert_by : A → List A → List A
  insert_by x [] = x ∷ []
  insert_by x (y ∷ ys) = let rest = insert_by x ys in if before x y then x ∷ y ∷ ys else y ∷ rest

  unfoldable pub sort_by : List A → List A
  sort_by [] = []
  sort_by (x ∷ xs) = insert_by x (sort_by xs)

  module _ {ℓ} (P : A → Type ℓ) where
    pub insert_by-All : (x : A) (ys : List A) → P x → All P ys → All P (insert_by x ys)
    insert_by-All x [] h k = (h, tt)
    insert_by-All x (y ∷ ys) h k = elim (Bool-cases (before x y)) [
      | inl t ↦ rw t (h, k)
      | inr n ↦ rw n (k.0, insert_by-All x ys h k.1)
    ]

    All-insert_by : (x : A) (ys : List A) → All P (insert_by x ys) → P x × All P ys
    All-insert_by x [] h = h
    All-insert_by x (y ∷ ys) h = ground (arith, All-insert_by x ys)

    pub sort_by-All : (xs : List A) → All P xs → All P (sort_by xs)
    unfolding sort_by
    sort_by-All [] h = tt
    sort_by-All (x ∷ xs) h = insert_by-All x (sort_by xs) h.0 (sort_by-All xs h.1)

    pub All-sort_by : (xs : List A) → All P (sort_by xs) → All P xs
    unfolding sort_by
    All-sort_by [] h = tt
    All-sort_by (x ∷ xs) h =
        let (first, rest) = All-insert_by x (sort_by xs) h in (first, All-sort_by xs rest)

  module _ (p : A → Bool) where
    any-insert_by : (x : A) (ys : List A) → any p (insert_by x ys) ≡ (p x || any p ys)
    any-insert_by x [] = refl
    any-insert_by x (y ∷ ys) = ground (arith, any-insert_by x ys)

    count-insert_by :
        (x : A) (ys : List A) → count p (insert_by x ys) ≡ (if p x then 1 else 0) + count p ys
    count-insert_by x [] = refl
    count-insert_by x (y ∷ ys) = ground (arith, count-insert_by x ys)

    -- A sort keeps every row as often as it stands there.
    pub count-sort_by : (xs : List A) → count p (sort_by xs) ≡ count p xs
    unfolding sort_by
    count-sort_by [] = refl
    count-sort_by (x ∷ xs) = count-insert_by x (sort_by xs) ∙ ground (arith, count-sort_by xs)

    pub any-sort_by : (xs : List A) → any p (sort_by xs) ≡ any p xs
    unfolding sort_by
    any-sort_by [] = refl
    any-sort_by (x ∷ xs) = any-insert_by x (sort_by xs) ∙ ground (arith, any-sort_by xs)

module _ {A : Type 0} (key : A → ℕ) where
  -- `ORDER BY key` and `ORDER BY key DESC`
  abbrev pub ascending : A → A → Bool
  ascending x y = leb (key x) (key y)

  abbrev pub descending : A → A → Bool
  descending x y = leb (key y) (key x)

  -- No row has a greater key than one before it.
  abbrev IsDescending : List A → Type 0
  IsDescending [] = Unit
  IsDescending (x ∷ xs) = All (λ y. key y ≤ key x) xs × IsDescending xs

  insert_by-IsDescending :
      (x : A) (ys : List A) → IsDescending ys → IsDescending (insert_by descending x ys)
  insert_by-IsDescending x [] h = (tt, tt)
  insert_by-IsDescending x (y ∷ ys) h = elim (Bool-cases (descending x y)) [
    | inl t ↦ rw t (
      (
        ground arith,
        All-implies (λ z. key z ≤ key y) (λ z. key z ≤ key x) ys (λ z k. ground arith) h.0,
      ),
      h,
    )
    | inr n ↦ rw n (
      insert_by-All descending (λ z. key z ≤ key y) x ys (ground arith) h.0,
      insert_by-IsDescending x ys h.1,
    )
  ]

  sort_by-IsDescending : (xs : List A) → IsDescending (sort_by descending xs)
  unfolding sort_by
  sort_by-IsDescending [] = tt
  sort_by-IsDescending (x ∷ xs) =
      insert_by-IsDescending x (sort_by descending xs) (sort_by-IsDescending xs)

  find_greatest :
      (p : A → Bool) (xs : List A) (a : A)
      → IsDescending xs
      → find p xs ≡ some a
      → All (λ x. p x ≡ true → key x ≤ key a) xs
  find_greatest p [] a h e = tt
  find_greatest p (x ∷ xs) a h e = elim (Bool-cases (p x)) [
    | inl t ↦
        let same : x ≡ a = ground arith in
        (
          (λ _. rw same (ground arith)),
          All-implies (λ y. key y ≤ key x) (λ y. p y ≡ true → key y ≤ key a) xs
              (λ y k _. rw (sym same) k) h.0,
        )
    | inr f ↦ ((λ t. ground arith), find_greatest p xs a h.1 (ground arith))
  ]

  -- The first passing row in descending order has the greatest key of those that pass.
  pub find-sort_by :
      (p : A → Bool) (xs : List A) (a : A)
      → find p (sort_by descending xs) ≡ some a
      → All (λ x. p x ≡ true → key x ≤ key a) xs
  find-sort_by p xs a e =
      All-sort_by descending (λ x. p x ≡ true → key x ≤ key a) xs
        (find_greatest p (sort_by descending xs) a (sort_by-IsDescending xs) e)
