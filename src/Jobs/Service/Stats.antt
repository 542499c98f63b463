-- ===== src/Jobs/Service/Stats.antt =====
-- The counts by status add up to the number of jobs.
use mathlib.Core.Path.{fun_ext}
use prismacv_backend.Shared.{
  ℕ, some, ◌+◌, ◌≡◌, refl, ap, ◌∙◌, String, Bool, not, ◌&&◌, List, [], ◌∷◌, if◌then◌else◌, str_eq,
  ◌==◌, Result, ok, err, subst, arith, inl, inr, Bool-cases,
}
use prismacv_backend.Jobs.Model.{
  JobStatus, Job, JobStats, JobPrisma, JobDb, same_status, is_listed, count_in,
}
use prismacv_backend.Jobs.Service.{get_stats, status_counts, group_counts}

abbrev stats_or : Result JobStats → JobStats → JobStats
stats_or (ok a) b = a
stats_or (err e) b = b

abbrev pub sum_counts : List (JobStatus × ℕ) → ℕ
sum_counts [] = 0
sum_counts ((s, n) ∷ rows) = n + sum_counts rows

only_applied :
    (b : Bool) (s : JobStatus)
    → (b && not (same_status s JobStatus.saved)) && same_status s JobStatus.applied
      ≡ b && same_status s JobStatus.applied
only_applied b JobStatus.saved = ground arith
only_applied b JobStatus.applied = ground arith
only_applied b JobStatus.interview = ground arith
only_applied b JobStatus.offer = ground arith
only_applied b JobStatus.rejected = ground arith

only_interview :
    (b : Bool) (s : JobStatus)
    → ((b && not (same_status s JobStatus.saved)) && not (same_status s JobStatus.applied))
        && same_status s JobStatus.interview
      ≡ b && same_status s JobStatus.interview
only_interview b JobStatus.saved = ground arith
only_interview b JobStatus.applied = ground arith
only_interview b JobStatus.interview = ground arith
only_interview b JobStatus.offer = ground arith
only_interview b JobStatus.rejected = ground arith

only_offer :
    (b : Bool) (s : JobStatus)
    → (((b && not (same_status s JobStatus.saved)) && not (same_status s JobStatus.applied))
          && not (same_status s JobStatus.interview))
        && same_status s JobStatus.offer
      ≡ b && same_status s JobStatus.offer
only_offer b JobStatus.saved = ground arith
only_offer b JobStatus.applied = ground arith
only_offer b JobStatus.interview = ground arith
only_offer b JobStatus.offer = ground arith
only_offer b JobStatus.rejected = ground arith

only_rejected :
    (b : Bool) (s : JobStatus)
    → ((((b && not (same_status s JobStatus.saved)) && not (same_status s JobStatus.applied))
          && not (same_status s JobStatus.interview))
        && not (same_status s JobStatus.offer))
      ≡ b && same_status s JobStatus.rejected
only_rejected b JobStatus.saved = ground arith
only_rejected b JobStatus.applied = ground arith
only_rejected b JobStatus.interview = ground arith
only_rejected b JobStatus.offer = ground arith
only_rejected b JobStatus.rejected = ground arith

module _ (p : JobPrisma) (db : JobDb p) (user_id : String) where
  abbrev pub jobs_in : JobStatus → ℕ
  jobs_in s = p.jobs.count db.jobs (is_listed user_id (some s))

  abbrev total_of : (JobStatus → ℕ) → List JobStatus → ℕ
  total_of f [] = 0
  total_of f (s ∷ ss) = f s + total_of f ss

  sum-group_counts :
      (f : JobStatus → ℕ) (ss : List JobStatus) → sum_counts (group_counts p f ss) ≡ total_of f ss
  sum-group_counts f [] = refl
  sum-group_counts f (s ∷ ss) = elim (Bool-cases (f s == 0)) [
    | inl e ↦ rw e (ground (arith, e, sum-group_counts f ss))
    | inr e ↦ rw e (ap (λ n. f s + n) (sum-group_counts f ss))
  ]

  counted :
      jobs_in JobStatus.saved
        + (jobs_in JobStatus.applied
            + (jobs_in JobStatus.interview
                + (jobs_in JobStatus.offer + (jobs_in JobStatus.rejected + 0))))
      ≡ p.jobs.count db.jobs (λ j. str_eq j.user_id user_id)
  counted =
      let split_saved =
        p.jobs.count-split db.jobs (λ j. str_eq j.user_id user_id)
          (λ j. same_status j.status JobStatus.saved) in
      let split_applied =
        p.jobs.count-split db.jobs
          (λ j. (str_eq j.user_id user_id && not (same_status j.status JobStatus.saved)))
          (λ j. same_status j.status JobStatus.applied) in
      let split_interview =
        p.jobs.count-split db.jobs
          (λ j.
            ((str_eq j.user_id user_id && not (same_status j.status JobStatus.saved))
              && not (same_status j.status JobStatus.applied)))
          (λ j. same_status j.status JobStatus.interview) in
      let split_offer =
        p.jobs.count-split db.jobs
          (λ j.
            (((str_eq j.user_id user_id && not (same_status j.status JobStatus.saved))
                && not (same_status j.status JobStatus.applied))
              && not (same_status j.status JobStatus.interview)))
          (λ j. same_status j.status JobStatus.offer) in
      let applied_only =
        ap (p.jobs.count db.jobs)
          (fun_ext λ (j : Job). only_applied (str_eq j.user_id user_id) j.status) in
      let interview_only =
        ap (p.jobs.count db.jobs)
          (fun_ext λ (j : Job). only_interview (str_eq j.user_id user_id) j.status) in
      let offer_only =
        ap (p.jobs.count db.jobs)
          (fun_ext λ (j : Job). only_offer (str_eq j.user_id user_id) j.status) in
      let rejected_only =
        ap (p.jobs.count db.jobs)
          (fun_ext λ (j : Job). only_rejected (str_eq j.user_id user_id) j.status) in
      omega (
        arith, split_saved, split_applied, split_interview, split_offer, applied_only,
        interview_only, offer_only, rejected_only,
      )

  abbrev pick : (JobStatus → ℕ) → List JobStatus → JobStatus → ℕ
  pick f [] s = 0
  pick f (t ∷ ss) s =
      let rest = pick f ss s in if same_status s t then (if f t == 0 then rest else f t) else rest

  count_in-group_counts :
      (f : JobStatus → ℕ) (ss : List JobStatus) (s : JobStatus)
      → count_in s (group_counts p f ss) ≡ pick f ss s
  count_in-group_counts f [] s = refl
  count_in-group_counts f (t ∷ ss) s = elim (Bool-cases (f t == 0)) [
    | inl e ↦ rw e (elim (Bool-cases (same_status s t)) [
      | inl h ↦ rw h (count_in-group_counts f ss s)
      | inr h ↦ rw h (count_in-group_counts f ss s)
    ])
    | inr e ↦ rw e (elim (Bool-cases (same_status s t)) [
      | inl h ↦ rw h refl
      | inr h ↦ rw h (count_in-group_counts f ss s)
    ])
  ]

  abbrev all_statuses : List JobStatus
  all_statuses =
      JobStatus.saved ∷ JobStatus.applied ∷ JobStatus.interview ∷ JobStatus.offer
      ∷ JobStatus.rejected ∷ []

  zero_or_self : (n : ℕ) → (if n == 0 then 0 else n) ≡ n
  zero_or_self n = ground arith

  count_in-status_counts : (s : JobStatus) → count_in s (status_counts p db user_id) ≡ jobs_in s
  count_in-status_counts JobStatus.saved =
      count_in-group_counts jobs_in all_statuses JobStatus.saved
      ∙ zero_or_self (jobs_in JobStatus.saved)
  count_in-status_counts JobStatus.applied =
      count_in-group_counts jobs_in all_statuses JobStatus.applied
      ∙ zero_or_self (jobs_in JobStatus.applied)
  count_in-status_counts JobStatus.interview =
      count_in-group_counts jobs_in all_statuses JobStatus.interview
      ∙ zero_or_self (jobs_in JobStatus.interview)
  count_in-status_counts JobStatus.offer =
      count_in-group_counts jobs_in all_statuses JobStatus.offer
      ∙ zero_or_self (jobs_in JobStatus.offer)
  count_in-status_counts JobStatus.rejected =
      count_in-group_counts jobs_in all_statuses JobStatus.rejected
      ∙ zero_or_self (jobs_in JobStatus.rejected)

  -- The counts by status that a user is shown are the numbers of jobs of the user with that status,
  -- and they add up to the total; the interviews and the offers are two of these counts.
  pub get_stats_total :
      (one_week_ago : ℕ) (stats : JobStats) (db' : JobDb p)
      → get_stats p one_week_ago user_id db ≡ (ok stats, db')
      → (sum_counts stats.by_status ≡ stats.total)
        × ((s : JobStatus) → count_in s stats.by_status ≡ jobs_in s)
        × (stats.pending_interviews ≡ jobs_in JobStatus.interview)
        × (stats.active_offers ≡ jobs_in JobStatus.offer)
  unfolding get_stats
  get_stats_total one_week_ago stats db' h =
      subst
        (λ st.
          (sum_counts st.by_status ≡ st.total)
          × ((s : JobStatus) → count_in s st.by_status ≡ jobs_in s)
          × (st.pending_interviews ≡ jobs_in JobStatus.interview)
          × (st.active_offers ≡ jobs_in JobStatus.offer))
        (ap (λ r. stats_or r.0 stats) h)
        (
          sum-group_counts jobs_in all_statuses ∙ counted,
          count_in-status_counts,
          count_in-status_counts JobStatus.interview,
          count_in-status_counts JobStatus.offer,
        )
