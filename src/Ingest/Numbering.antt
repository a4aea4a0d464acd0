-- ===== src/Ingest/Numbering.antt =====
-- services/backend/app/services/ingest.py: the versions of a message are numbered from one on, and counted.
pub mod Kept
use mathlib.Core.Path.{subst}
use chrome_chatgpt_data.Prelude.{
  ℕ, zero, suc, ◌+◌, ◌==◌, ◌≤◌, ◌<◌, String, Bool, true, false, ◌&&◌, Option, none, some, List, [],
  ◌∷◌, ◌++◌, ◌≡◌, refl, sym, ap, ◌∙◌, arith, Bool-cases, inl, inr, if◌then◌else◌, All, All-append,
  All-implies, All-intro, ==_iff, ==_refl,
}
use chrome_chatgpt_data.Prelude.Rows.{
  update, count, count-append, count_none, count-update_same, count-update_le, All-update,
}
use chrome_chatgpt_data.Archive.{Message, MessageVersion}

abbrev pub has_id : ℕ → Message → Bool
has_id i m = m.id == i

abbrev pub is_of : ℕ → MessageVersion → Bool
is_of i v = v.message_id == i

abbrev pub is_numbered : ℕ → ℕ → MessageVersion → Bool
is_numbered i n v = v.message_id == i && v.version_number == n

-- The invariant of the messages and their versions, over the next identifier: message ids are unique
-- and drawn, each message counts its versions, and no message has two versions of one number or a
-- version whose number exceeds the count.
pub record IsNumbered (uuids : ℕ) (ms : List Message) (vs : List MessageVersion) : Type 0 where
  pub fresh : All (λ m. m.id < uuids) ms
  pub attached : All (λ v. v.message_id < uuids) vs
  pub single : (i : ℕ) → count (has_id i) ms ≤ 1
  pub counted : All (λ m. count (is_of m.id) vs ≡ m.version_count) ms
  pub numbered : (i n : ℕ) → count (is_numbered i n) vs ≤ 1
  pub within :
      All (λ v. (1 ≤ v.version_number) × (v.version_number ≤ count (is_of v.message_id) vs)) vs

pub weaken :
    (u u' : ℕ) (ms : List Message) (vs : List MessageVersion)
    → u ≤ u'
    → IsNumbered u ms vs
    → IsNumbered u' ms vs
weaken u u' ms vs le h = record {
  fresh = All-implies (λ m. m.id < u) (λ m. m.id < u') ms (λ m lt. omega arith) h.fresh;
  attached =
      All-implies (λ v. v.message_id < u) (λ v. v.message_id < u') vs (λ v lt. omega arith)
        h.attached;
  single = h.single;
  counted = h.counted;
  numbered = h.numbered;
  within = h.within;
}

-- An update of the messages that keeps ids and counts.
pub update_messages :
    (u : ℕ) (p : Message → Bool) (f : Message → Message) (ms : List Message)
    (vs : List MessageVersion)
    → ((m : Message) → (f m).id ≡ m.id)
    → ((m : Message) → (f m).version_count ≡ m.version_count)
    → IsNumbered u ms vs
    → IsNumbered u (update p f ms) vs
update_messages u p f ms vs same counts h = record {
  fresh =
      All-update (λ m. m.id < u) p f ms
        (All-implies (λ m. m.id < u) (λ m. p m ≡ true → (f m).id < u) ms (λ m lt _. rw (same m) lt)
          h.fresh)
        h.fresh;
  attached = h.attached;
  single = λ i. omega (
    arith,
    h.single i,
    count-update_le (has_id i) p f ms (
        All-intro (λ m. p m ≡ true → has_id i (f m) ≡ true → has_id i m ≡ true)
          (λ m _ e. rw (← same m) e) ms),
  );
  counted =
      All-update (λ m. count (is_of m.id) vs ≡ m.version_count) p f ms
        (All-implies (λ m. count (is_of m.id) vs ≡ m.version_count)
          (λ m. p m ≡ true → count (is_of (f m).id) vs ≡ (f m).version_count) ms
          (λ m e _. rw (same m) (rw (counts m) e)) h.counted)
        h.counted;
  numbered = h.numbered;
  within = h.within;
}

-- An update of the versions that keeps their messages and numbers.
pub update_versions :
    (u : ℕ) (p : MessageVersion → Bool) (f : MessageVersion → MessageVersion) (ms : List Message)
    (vs : List MessageVersion)
    → ((v : MessageVersion) → (f v).message_id ≡ v.message_id)
    → ((v : MessageVersion) → (f v).version_number ≡ v.version_number)
    → IsNumbered u ms vs
    → IsNumbered u ms (update p f vs)
update_versions u p f ms vs same number h = record {
  fresh = h.fresh;
  attached =
      All-update (λ v. v.message_id < u) p f vs
        (All-implies (λ v. v.message_id < u) (λ v. p v ≡ true → (f v).message_id < u) vs
          (λ v lt _. rw (same v) lt) h.attached)
        h.attached;
  single = h.single;
  counted =
      All-implies (λ m. count (is_of m.id) vs ≡ m.version_count)
        (λ m. count (is_of m.id) (update p f vs) ≡ m.version_count) ms (λ m e. kept m.id ∙ e)
        h.counted;
  numbered = λ i n. omega (
    arith,
    h.numbered i n,
    count-update_same (is_numbered i n) p f vs (λ v. rw (same v) (rw (number v) refl)),
  );
  within =
      All-update
        (λ v.
          (1 ≤ v.version_number) × (v.version_number ≤ count (is_of v.message_id) (update p f vs)))
        p f vs
        (All-implies
          (λ v. (1 ≤ v.version_number) × (v.version_number ≤ count (is_of v.message_id) vs))
          (λ v.
            p v ≡ true
            → (1 ≤ (f v).version_number)
              × ((f v).version_number ≤ count (is_of (f v).message_id) (update p f vs)))
          vs (λ v w _. rw (same v) (rw (number v) (w.0, omega (arith, w.1, kept v.message_id))))
          h.within)
        (All-implies
          (λ v. (1 ≤ v.version_number) × (v.version_number ≤ count (is_of v.message_id) vs))
          (λ v.
            (1 ≤ v.version_number)
            × (v.version_number ≤ count (is_of v.message_id) (update p f vs)))
          vs (λ v w. (w.0, omega (arith, w.1, kept v.message_id))) h.within);
}
  where
    kept : (i : ℕ) → count (is_of i) (update p f vs) ≡ count (is_of i) vs
    kept i = count-update_same (is_of i) p f vs (λ v. rw (same v) refl)

unused_id : (u : ℕ) (ms : List Message) → All (λ m. m.id < u) ms → All (λ m. has_id u m ≡ false) ms
unused_id u ms h = All-implies (λ m. m.id < u) (λ m. has_id u m ≡ false) ms (λ m lt. ground arith) h

-- A new message, with the next identifier and no version.
pub add_message :
    (u : ℕ) (m : Message) (ms : List Message) (vs : List MessageVersion)
    → m.id ≡ u
    → m.version_count ≡ 0
    → IsNumbered u ms vs
    → IsNumbered (u + 1) (ms ++ m ∷ []) vs
add_message u m ms vs same empty h =
    let wide = weaken u (u + 1) ms vs (omega arith) h in
    let none_yet = count_none (is_of u) vs (
      All-implies (λ v. v.message_id < u) (λ v. is_of u v ≡ false) vs (λ v lt. ground arith)
        h.attached) in
    record {
      fresh = All-append (λ x. x.id < u + 1) ms (m ∷ []) wide.fresh (rw same (omega arith), tt);
      attached = wide.attached;
      single = λ i. ground (
        arith,
        h.single i,
        count-append (has_id i) ms (m ∷ []),
        count_none (has_id u) ms (unused_id u ms h.fresh),
      );
      counted =
          All-append (λ x. count (is_of x.id) vs ≡ x.version_count) ms (m ∷ []) h.counted
            (rw same (none_yet ∙ sym empty), tt);
      numbered = h.numbered;
      within = h.within;
    }

one_of : (p : MessageVersion → Bool) (w : MessageVersion) → count p (w ∷ []) ≤ 1
one_of p w = ground arith

none_of : (p : MessageVersion → Bool) (w : MessageVersion) → p w ≡ false → count p (w ∷ []) ≡ 0
none_of p w e = ground arith

-- The next version of a message.
pub add_version :
    (u : ℕ) (v : MessageVersion) (i : ℕ) (f : Message → Message) (ms : List Message)
    (vs : List MessageVersion)
    → v.message_id ≡ i
    → i < u
    → v.version_number ≡ count (is_of i) vs + 1
    → ((m : Message) → (f m).id ≡ m.id)
    → ((m : Message) → (f m).version_count ≡ v.version_number)
    → IsNumbered u ms vs
    → IsNumbered u (update (has_id i) f ms) (vs ++ v ∷ [])
add_version u v i f ms vs of_i drawn next same counts h = record {
  fresh =
      All-update (λ m. m.id < u) (has_id i) f ms
        (All-implies (λ m. m.id < u) (λ m. has_id i m ≡ true → (f m).id < u) ms
          (λ m lt _. rw (same m) lt) h.fresh)
        h.fresh;
  attached = All-append (λ w. w.message_id < u) vs (v ∷ []) h.attached (rw of_i drawn, tt);
  single = λ j.
      omega
        (arith, h.single j, count-update_same (has_id j) (has_id i) f ms (λ m. rw (same m) refl));
  counted = recounted ms h.counted;
  numbered = λ j n. once j n;
  within =
      All-append
        (λ w.
          (1 ≤ w.version_number) × (w.version_number ≤ count (is_of w.message_id) (vs ++ v ∷ [])))
        vs (v ∷ [])
        (All-implies
          (λ w. (1 ≤ w.version_number) × (w.version_number ≤ count (is_of w.message_id) vs))
          (λ w.
            (1 ≤ w.version_number) × (w.version_number ≤ count (is_of w.message_id) (vs ++ v ∷ [])))
          vs (λ w k. (k.0, omega (arith, k.1, count-append (is_of w.message_id) vs (v ∷ []))))
          h.within)
        (
          (
            omega (arith, next),
            rw of_i (ground (arith, next, of_i, count-append (is_of i) vs (v ∷ []))),
          ),
          tt,
        );
}
  where
    recounted :
        (xs : List Message)
        → All (λ m. count (is_of m.id) vs ≡ m.version_count) xs
        → All (λ m. count (is_of m.id) (vs ++ v ∷ []) ≡ m.version_count) (update (has_id i) f xs)
    recounted [] k = tt
    recounted (x ∷ xs) k = (
      elim (Bool-cases (has_id i x)) [
        | inl t ↦ rw t (
            rw (same x) (
              rw ((==_iff x.id i).0 t)
                (ground (arith, next, of_i, counts x, count-append (is_of i) vs (v ∷ [])))))
        | inr n ↦ rw n (ground (arith, k.0, of_i, count-append (is_of x.id) vs (v ∷ [])))
      ],
      recounted xs k.1,
    )

    once : (j n : ℕ) → count (is_numbered j n) (vs ++ v ∷ []) ≤ 1
    once j n = elim (Bool-cases (is_numbered j n v)) [
      | inl t ↦ omega (
        arith,
        count-append (is_numbered j n) vs (v ∷ []),
        one_of (is_numbered j n) v,
        count_none (is_numbered j n) vs (
            All-implies
              (λ w. (1 ≤ w.version_number) × (w.version_number ≤ count (is_of w.message_id) vs))
              (λ w. is_numbered j n w ≡ false) vs
              (λ w k. elim (Bool-cases (is_numbered j n w)) [
                | inl e ↦
                    let same_message : w.message_id ≡ i = ground (arith, e, t, of_i) in
                    let bound : w.version_number ≤ count (is_of i) vs =
                      subst (λ x. w.version_number ≤ count (is_of x) vs) same_message k.1 in
                    let same_number : w.version_number ≡ count (is_of i) vs + 1 =
                      ground (arith, e, t, next) in
                    absurd (omega arith)
                | inr e ↦ e
              ])
              h.within),
      )
      | inr f ↦ omega (
        arith,
        h.numbered j n,
        count-append (is_numbered j n) vs (v ∷ []),
        none_of (is_numbered j n) v f,
      )
    ]
