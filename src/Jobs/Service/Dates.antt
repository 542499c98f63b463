-- ===== src/Jobs/Service/Dates.antt =====
-- A job that was applied for has the date of the application, and keeps it: what the operations on
-- the table of jobs do to these dates.
use prismacv_backend.Shared.{
  ℕ, ◌≡◌, sym, ap, ◌∙◌, subst, String, true, some, str_eq, is_some, ok, arith, inl, inr, Bool-cases,
  Option-cases, eq_iff,
}
use prismacv_backend.Jobs.Model.{
  JobStatus, Job, JobPrisma, CreateJobRequest, UpdateJobRequest, same_status, new_job, applied_now,
  patch_job, set_status,
}

module _ (p : JobPrisma) where
  -- A job that is applied for has a date.
  abbrev pub IsDated : p.jobs.Rows → Type 0
  IsDated t =
      (k : String) (j : Job)
      → p.jobs.find t k ≡ some j
      → same_status j.status JobStatus.applied ≡ true
      → is_some j.applied_at ≡ true

  -- A date that is set stays.
  abbrev pub IsDateKept : p.jobs.Rows → p.jobs.Rows → Type 0
  IsDateKept t t' =
      (k : String) (j j' : Job) (at : ℕ)
      → p.jobs.find t k ≡ some j
      → j.applied_at ≡ some at
      → p.jobs.find t' k ≡ some j'
      → j'.applied_at ≡ some at

  abbrev pub Keeps : p.jobs.Rows → p.jobs.Rows → Type 0
  Keeps t t' = (IsDated t → IsDated t') × IsDateKept t t'

  pub Keeps-refl : (t : p.jobs.Rows) → Keeps t t
  Keeps-refl t = (λ h. h, λ k j j' at e d e'. ground (arith, e, d, e'))

  pub create-Keeps :
      (t t' : p.jobs.Rows) (id : String) (now : ℕ) (user_id : String) (dto : CreateJobRequest)
      → p.jobs.create t (new_job id now user_id dto) ≡ ok t'
      → Keeps t t'
  create-Keeps t t' id now user_id dto made = (
    λ h k j e s. elim (Bool-cases (str_eq id k)) [
      | inl same ↦ elim (Option-cases dto.status) [
        | inl f ↦
            ground
              (arith, e, s, same, f, p.jobs.find-create t t' (new_job id now user_id dto) k made)
        | inr (st, f) ↦
            ground
              (arith, e, s, same, f, p.jobs.find-create t t' (new_job id now user_id dto) k made)
      ]
      | inr other ↦
          h k j
            (ground (arith, e, other, p.jobs.find-create t t' (new_job id now user_id dto) k made))
            s
    ],
    λ k j j' at e d e'. elim (Bool-cases (str_eq id k)) [
      | inl same ↦ ground (
        arith,
        made,
        p.jobs.create-taken t (new_job id now user_id dto) j
            (ap (p.jobs.find t) ((eq_iff id k).0 same) ∙ e),
      )
      | inr other ↦
          ground
            (arith, e, d, e', other, p.jobs.find-create t t' (new_job id now user_id dto) k made)
    ],
  )

  pub delete-Keeps :
      (t : p.jobs.Rows) (job_id : String) → Keeps t (p.jobs.delete_many t (λ j. str_eq j.id job_id))
  delete-Keeps t job_id =
      (λ h k j e s. h k j (still k j e) s, λ k j j' at e d e'. ground (arith, e, d, still k j' e'))
    where
      still :
          (k : String) (j : Job)
          → p.jobs.find (p.jobs.delete_many t (λ j. str_eq j.id job_id)) k ≡ some j
          → p.jobs.find t k ≡ some j
      still k j e = elim (Option-cases (p.jobs.find t k)) [
        | inl gone ↦ ground (arith, e, gone, p.jobs.find-delete_many t (λ j. str_eq j.id job_id) k)
        | inr (x, there) ↦
            ground (arith, e, there, p.jobs.find-delete_many t (λ j. str_eq j.id job_id) k)
      ]

  -- A change of a job keeps its date, and sets one if the job becomes applied for.
  abbrev pub IsDating : Job → Job → Type 0
  IsDating c d =
      ((at : ℕ) → c.applied_at ≡ some at → d.applied_at ≡ some at)
      × ((same_status c.status JobStatus.applied ≡ true → is_some c.applied_at ≡ true)
          → same_status d.status JobStatus.applied ≡ true
          → is_some d.applied_at ≡ true)

  pub update-Keeps :
      (t t' : p.jobs.Rows) (job_id : String) (c changed : Job) (f : Job → Job)
      → p.jobs.find t job_id ≡ some c
      → ((j : Job) → (f j).id ≡ j.id)
      → p.jobs.update t job_id f ≡ ok (changed, t')
      → IsDating c (f c)
      → Keeps t t'
  update-Keeps t t' job_id c changed f there same done (kept, dated) = (
    λ h k j e s. elim (Bool-cases (str_eq job_id k)) [
      | inl here ↦
          let new : j ≡ f c = ground (
            arith,
            e,
            here,
            there,
            eq_iff job_id k,
            p.jobs.find-update t t' job_id f changed k same done,
          ) in
          subst (λ x. is_some x.applied_at ≡ true) (sym new)
            (dated (h job_id c there)
              (subst (λ x. same_status x.status JobStatus.applied ≡ true) new s))
      | inr other ↦
          h k j (ground (arith, e, other, p.jobs.find-update t t' job_id f changed k same done)) s
    ],
    λ k j j' at e d e'. elim (Bool-cases (str_eq job_id k)) [
      | inl here ↦
          let new : j' ≡ f c = ground (
            arith,
            e',
            here,
            there,
            eq_iff job_id k,
            p.jobs.find-update t t' job_id f changed k same done,
          ) in
          let old : j ≡ c = ground (arith, e, here, there, eq_iff job_id k) in
          subst (λ x. x.applied_at ≡ some at) (sym new)
            (kept at (subst (λ x. x.applied_at ≡ some at) old d))
      | inr other ↦
          ground (arith, e, d, e', other, p.jobs.find-update t t' job_id f changed k same done)
    ],
  )

  pub patch-IsDating :
      (now : ℕ) (dto : UpdateJobRequest) (c : Job)
      → IsDating c (patch_job dto (applied_now now dto.status c) c)
  patch-IsDating now dto c = (
    λ at d. ground (arith, d),
    λ h s. elim (Option-cases dto.status) [
      | inl e ↦ elim (Option-cases c.applied_at) [
        | inl n ↦ ground (arith, h, s, e, n)
        | inr (at, n) ↦ ground (arith, h, s, e, n)
      ]
      | inr (st, e) ↦ elim (Option-cases c.applied_at) [
        | inl n ↦ ground (arith, s, e, n)
        | inr (at, n) ↦ ground (arith, s, e, n)
      ]
    ],
  )

  pub status-IsDating :
      (now : ℕ) (status : JobStatus) (c : Job)
      → IsDating c (set_status status (applied_now now (some status) c) c)
  status-IsDating now status c = (
    λ at d. ground (arith, d),
    λ h s. elim (Option-cases c.applied_at) [
      | inl n ↦ ground (arith, s, n)
      | inr (at, n) ↦ ground (arith, s, n)
    ],
  )
