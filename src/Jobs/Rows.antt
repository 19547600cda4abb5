-- ===== src/Jobs/Rows.antt =====
-- The table of jobs: membership of a row, distinct primary keys, and what a write to one row leaves
-- alone.
use trace_x.Common.{
  ◌≡◌, ◌≢◌, ap, subst, inl, inr, List, [], ◌∷◌, map, arith, ◌==◌, All, Any, Bool-cases,
}
use trace_x.Jobs.Model.{ImportJob, replace_job}

-- The row stands in the table.
abbrev pub Holds : ImportJob → List ImportJob → Type 0
Holds job jobs = Any (λ row. row ≡ job) jobs

-- No two rows share a primary key.
abbrev pub DistinctIds : List ImportJob → Type 0
DistinctIds [] = Unit
DistinctIds (j ∷ js) = All (λ row. row.id ≢ j.id) js × DistinctIds js

pub All-Holds {ℓ} :
    (P : ImportJob → Type ℓ) (jobs : List ImportJob) {job : ImportJob}
    → All P jobs
    → Holds job jobs
    → P job
All-Holds P [] h m = absurd m
All-Holds P (x ∷ xs) h (inl e) = subst P e h.0
All-Holds P (x ∷ xs) h (inr m) = All-Holds P xs h.1 m

-- Two rows with one primary key are one row.
pub DistinctIds-eq :
    (jobs : List ImportJob) {a b : ImportJob}
    → DistinctIds jobs
    → Holds a jobs
    → Holds b jobs
    → a.id ≡ b.id
    → a ≡ b
DistinctIds-eq [] d ha hb e = absurd ha
DistinctIds-eq (x ∷ xs) d (inl p) (inl q) e = cc
DistinctIds-eq (x ∷ xs) d (inl p) (inr q) e =
    absurd (All-Holds _ xs d.0 q (cc (ap (λ (r : ImportJob). r.id) p)))
DistinctIds-eq (x ∷ xs) d (inr p) (inl q) e =
    absurd (All-Holds _ xs d.0 p (cc (ap (λ (r : ImportJob). r.id) q)))
DistinctIds-eq (x ∷ xs) d (inr p) (inr q) e = DistinctIds-eq xs d.1 p q e

pub replace_job-id : (job row : ImportJob) → (replace_job job row).id ≡ row.id
replace_job-id job row = ground arith

All-id-replace :
    (job j : ImportJob) (jobs : List ImportJob)
    → All (λ row. row.id ≢ j.id) jobs
    → All (λ row. row.id ≢ (replace_job job j).id) (map (replace_job job) jobs)
All-id-replace job j [] h = tt
All-id-replace job j (x ∷ xs) h =
    (λ e. h.0 (cc (replace_job-id job x, replace_job-id job j)), All-id-replace job j xs h.1)

pub DistinctIds-replace :
    (job : ImportJob) (jobs : List ImportJob)
    → DistinctIds jobs
    → DistinctIds (map (replace_job job) jobs)
DistinctIds-replace job [] d = tt
DistinctIds-replace job (x ∷ xs) d = (All-id-replace job x xs d.0, DistinctIds-replace job xs d.1)

-- A write to one row leaves every other row in place.
pub Holds-replace_ne :
    (job row : ImportJob) (jobs : List ImportJob)
    → row.id ≢ job.id
    → Holds row jobs
    → Holds row (map (replace_job job) jobs)
Holds-replace_ne job row [] ne m = absurd m
Holds-replace_ne job row (x ∷ xs) ne (inl e) = inl (ground arith)
Holds-replace_ne job row (x ∷ xs) ne (inr m) = inr (Holds-replace_ne job row xs ne m)

-- After the write the new row stands in the table, if a row with its key did.
pub Holds-replace_self :
    (job : ImportJob) (jobs : List ImportJob)
    → Any (λ row. row.id ≡ job.id) jobs
    → Holds job (map (replace_job job) jobs)
Holds-replace_self job [] m = absurd m
Holds-replace_self job (x ∷ xs) (inl e) = inl (ground arith)
Holds-replace_self job (x ∷ xs) (inr m) = inr (Holds-replace_self job xs m)

pub Holds-id :
    (job : ImportJob) (jobs : List ImportJob) → Holds job jobs → Any (λ row. row.id ≡ job.id) jobs
Holds-id job [] m = m
Holds-id job (x ∷ xs) (inl e) = inl (ap (λ (r : ImportJob). r.id) e)
Holds-id job (x ∷ xs) (inr m) = inr (Holds-id job xs m)

-- A property of rows that the new row has survives the write.
pub All-replace {ℓ} :
    (P : ImportJob → Type ℓ) (job : ImportJob) (jobs : List ImportJob)
    → P job
    → All P jobs
    → All P (map (replace_job job) jobs)
All-replace P job [] p h = tt
All-replace P job (x ∷ xs) p h = (
  elim (Bool-cases (x.id == job.id)) [ inl e ↦ rw e p | inr e ↦ rw e h.0 ],
  All-replace P job xs p h.1,
)
