-- ===== src/Worker/Periodic.antt =====
-- services/backend/app/workers/worker.py, `ensure_periodic_jobs`: the periodic jobs.
use chrome_chatgpt_data.Prelude.{
  ℕ, ◌*◌, ◌≡◌, ◌==◌, refl, ◌∙◌, true, false, some, List, [], ◌∷◌, if◌then◌else◌, arith, Bool-cases,
  inl, inr, Option,
}
use chrome_chatgpt_data.Prelude.Rows.{count, any-count}
use chrome_chatgpt_data.Enums.{
  JobKind, retention_sweep, maintain_partitions, cleanup_stale, kind_eq, kind_index,
}
use chrome_chatgpt_data.Jobs.{Job, DedupeKey, periodic_key, second, is_active_key}
use chrome_chatgpt_data.Jobs.Keeps.{IsQueue, enqueue_job-IsQueue}
use chrome_chatgpt_data.Jobs.Enqueued.{IsQueued, enqueue_job-IsQueued, enqueue_job_keeps}
use chrome_chatgpt_data.Worker.{Worker, JobSession}
use chrome_chatgpt_data.Worker.Loop.{
  last_run, set_last, is_due, periodic_job, ensure_periodic, ensure_periodic_jobs,
}

set_hit :
    (i k j t u : ℕ) (r : Option ℕ)
    → (i == k) ≡ true
    → (if i == j then some t else r) ≡ (if k == j then some t else if i == j then some u else r)
set_hit i k j t u r h = ground arith

set_miss :
    (i k j t u : ℕ) (r : Option ℕ)
    → (i == k) ≡ false
    → (if i == j then some u else if k == j then some t else r)
      ≡ (if k == j then some t else if i == j then some u else r)
set_miss i k j t u r h = ground arith

last_run-set_last :
    (j k : JobKind) (t : ℕ) (l : List (JobKind × ℕ))
    → last_run j (set_last k t l) ≡ (if kind_eq k j then some t else last_run j l)
last_run-set_last j k t [] = refl
last_run-set_last j k t ((i, u) ∷ rest) = elim (Bool-cases (kind_eq i k)) [
  | inl hit ↦
      rw hit (set_hit (kind_index i) (kind_index k) (kind_index j) t u (last_run j rest) hit)
  | inr miss ↦ rw miss (
      rw (last_run-set_last j k t rest)
        (set_miss (kind_index i) (kind_index k) (kind_index j) t u (last_run j rest) miss))
]

queued_once :
    (uuid : ℕ) (k : DedupeKey) (jobs : List Job)
    → IsQueue uuid jobs
    → IsQueued k jobs
    → count (is_active_key k) jobs ≡ 1
queued_once uuid k jobs q h = omega (arith, q.single_live k, any-count (is_active_key k) jobs h)

module _ {S : Type 0} (loop_now now : ℕ) where
  -- After the round of a kind that is due it is noted as run now, and a job of it is live.
  abbrev pub IsScheduled : JobKind → ℕ → Worker → Worker → JobSession S → Type 0
  IsScheduled kind interval w w' s' =
      (is_due loop_now interval (last_run kind w.last_periodic) ≡ true
        → (last_run kind w'.last_periodic ≡ some loop_now) × IsQueued (periodic_key kind) s'.jobs)
      × (is_due loop_now interval (last_run kind w.last_periodic) ≡ false
          → last_run kind w'.last_periodic ≡ last_run kind w.last_periodic)

  round-IsScheduled :
      (kind : JobKind) (interval priority : ℕ) (w : Worker) (s : JobSession S)
      → let (w', s') = ensure_periodic loop_now now kind interval priority (w, s) in
        IsScheduled kind interval w w' s'
  unfolding ensure_periodic
  round-IsScheduled kind interval priority w s =
      elim (Bool-cases (is_due loop_now interval (last_run kind w.last_periodic))) [
        | inl due ↦ rw due (
          (λ _. (
            last_run-set_last kind kind loop_now w.last_periodic ∙ ground arith,
            enqueue_job-IsQueued now s.uuids (periodic_job w.worker_id kind priority)
                (periodic_key kind) s.jobs refl,
          )),
          (λ e. cc),
        )
        | inr not_due ↦ rw not_due ((λ e. cc), (λ _. refl))
      ]

  round_keeps :
      (kind : JobKind) (interval priority : ℕ) (w : Worker) (s : JobSession S)
      → let (w', s') = ensure_periodic loop_now now kind interval priority (w, s) in
        (IsQueue s.uuids s.jobs → IsQueue s'.uuids s'.jobs)
        × ((k : DedupeKey) → IsQueued k s.jobs → IsQueued k s'.jobs)
        × ((j : JobKind)
            → kind_eq kind j ≡ false
            → last_run j w'.last_periodic ≡ last_run j w.last_periodic)
  unfolding ensure_periodic
  round_keeps kind interval priority w s =
      elim (Bool-cases (is_due loop_now interval (last_run kind w.last_periodic))) [
        | inl due ↦ rw due (
          enqueue_job-IsQueue now s.uuids (periodic_job w.worker_id kind priority) s.jobs,
          (λ k. enqueue_job_keeps now s.uuids (periodic_job w.worker_id kind priority) k s.jobs),
          λ j other. last_run-set_last j kind loop_now w.last_periodic ∙ rw other refl,
        )
        | inr not_due ↦ rw not_due ((λ q. q), (λ k h. h), λ j other. refl)
      ]

  -- A due kind is queued exactly once and noted as run now; one that is not due keeps its last run.
  abbrev pub IsEnsured : JobKind → ℕ → Worker → Worker → JobSession S → Type 0
  IsEnsured kind interval w w' s' =
      (is_due loop_now interval (last_run kind w.last_periodic) ≡ true
        → (last_run kind w'.last_periodic ≡ some loop_now)
          × (count (is_active_key (periodic_key kind)) s'.jobs ≡ 1))
      × (is_due loop_now interval (last_run kind w.last_periodic) ≡ false
          → last_run kind w'.last_periodic ≡ last_run kind w.last_periodic)

  -- After the scheduling of a cycle the queue is well formed if it was before; of each periodic kind
  -- whose interval has passed since its last run, or that never ran, exactly one job is live, whether
  -- or not one was before, and the kind is noted as run now; the note of any other kind stays.
  pub ensure_periodic_jobs_once :
      (w : Worker) (s : JobSession S)
      → IsQueue s.uuids s.jobs
      → let (w', s') = ensure_periodic_jobs loop_now now w s in
        IsQueue s'.uuids s'.jobs
        × IsEnsured maintain_partitions (6 * 3600 * second) w w' s'
        × IsEnsured retention_sweep (24 * 3600 * second) w w' s'
        × IsEnsured cleanup_stale (12 * 3600 * second) w w' s'
  unfolding ensure_periodic_jobs
  ensure_periodic_jobs_once w s q =
      let (w1, s1) =
        ensure_periodic loop_now now maintain_partitions (6 * 3600 * second) 800 (w, s) in
      let (w2, s2) =
        ensure_periodic loop_now now retention_sweep (24 * 3600 * second) 900 (w1, s1) in
      let a = round-IsScheduled maintain_partitions (6 * 3600 * second) 800 w s in
      let ka = round_keeps maintain_partitions (6 * 3600 * second) 800 w s in
      let b = round-IsScheduled retention_sweep (24 * 3600 * second) 900 w1 s1 in
      let kb = round_keeps retention_sweep (24 * 3600 * second) 900 w1 s1 in
      let c = round-IsScheduled cleanup_stale (12 * 3600 * second) 950 w2 s2 in
      let kc = round_keeps cleanup_stale (12 * 3600 * second) 950 w2 s2 in
      let q' = kc.0 (kb.0 (ka.0 q)) in
      let mb = ka.2 retention_sweep refl in
      let mc = kb.2 cleanup_stale refl ∙ ka.2 cleanup_stale refl in
      let ma = kc.2 maintain_partitions refl ∙ kb.2 maintain_partitions refl in
      (
        q',
        (
          (λ due. (ma ∙ (a.0 due).0, queued_once _ _ _ q' (kc.1 _ (kb.1 _ (a.0 due).1)))),
          (λ later. ma ∙ a.1 later),
        ),
        (
          (λ due. (
            kc.2 retention_sweep refl ∙ (b.0 (rw mb due)).0,
            queued_once _ _ _ q' (kc.1 _ (b.0 (rw mb due)).1),
          )),
          (λ later. kc.2 retention_sweep refl ∙ b.1 (rw mb later) ∙ mb),
        ),
        (
          (λ due. ((c.0 (rw mc due)).0, queued_once _ _ _ q' (c.0 (rw mc due)).1)),
          (λ later. c.1 (rw mc later) ∙ mc),
        ),
      )
