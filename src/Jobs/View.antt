-- ===== src/Jobs/View.antt =====
-- What `analysis_view` reports of a finished job.
use trace_x.Common.{
  ℕ, ◌≤◌, ◌≡◌, refl, sym, ◌∙◌, inl, inr, Bool, true, false, List, [], ◌∷◌, Option, none, some,
  arith, find_first, select, exists_in, All, Any, All-mono, All-Any, Bool-cases, Option-cases,
  ==_iff,
}
use trace_x.Jobs.Model.{JobState, Stage, ImportJob, AnalysisStage, Session, is_success}
use trace_x.Jobs.Analysis.{
  sort_rows, of_job, stage_rows, latest_of, has_name, required_stages, succeeded, all_succeeded,
  has_failure, AnalysisState, grade, completed_state, analysis_state, analysis_view,
}
use trace_x.Jobs.Newest.{
  ByAttempt-sort_rows, All-of-sort_rows, All-sort_rows, All-of-select, All-select, last_named,
  named-latest, or_else, last_named_newest,
}

-- The newest outcome of a stage of the job: a stored row of that stage, and no row of the stage has
-- a later attempt.
pub record IsNewest (s : Session) (job_id : ℕ) (name : Stage) (row : AnalysisStage) : Type 0 where
  pub held : Any (λ r. r ≡ row) s.stages
  pub of : row.job_id ≡ job_id
  pub named : has_name name row ≡ true
  pub newest :
      All (λ r. of_job job_id r ≡ true → has_name name r ≡ true → r.attempt ≤ row.attempt) s.stages

pub record NewestSucceeded (s : Session) (job_id : ℕ) (name : Stage) : Type 0 where
  pub row : AnalysisStage
  pub newest : IsNewest s job_id name row
  pub success : is_success row.status ≡ true

All-self : (xs : List AnalysisStage) → All (λ r. Any (λ q. q ≡ r) xs) xs
All-self [] = tt
All-self (x ∷ xs) = (inl refl, All-mono xs (λ r m. inr m) (All-self xs))

All-kept {ℓ} :
    (P : AnalysisStage → Type ℓ) (p : AnalysisStage → Bool) (xs : List AnalysisStage)
    → All P xs
    → All P (select p xs)
unfolding select
All-kept P p [] h = tt
All-kept P p (x ∷ xs) h = elim (Bool-cases (p x)) [
  | inl e ↦ rw e (h.0, All-kept P p xs h.1)
  | inr e ↦ rw e (All-kept P p xs h.1)
]

or_else-none : (o : Option AnalysisStage) → or_else o none ≡ o
or_else-none none = refl
or_else-none (some r) = refl

-- The row under a name in the view is the newest outcome of that stage.
pub latest-IsNewest :
    (s : Session) (job_id : ℕ) (name : Stage) {row : AnalysisStage}
    → find_first (has_name name) (latest_of (stage_rows s job_id)) ≡ some row
    → IsNewest s job_id name row
unfolding latest_of stage_rows find_first
latest-IsNewest s job_id name e =
    let kept = select (of_job job_id) s.stages in
    let rows = sort_rows kept in
    let last : last_named name rows ≡ some _ =
      sym (named-latest name rows [] ∙ or_else-none (last_named name rows)) ∙ e in
    let (held, named, newest) = last_named_newest name rows (ByAttempt-sort_rows kept) last in
    record {
      held =
          All-Any _ rows
            (All-sort_rows _ kept (All-kept _ (of_job job_id) s.stages (All-self s.stages))) held;
      of =
          (==_iff _ _).0
            (All-Any _ rows (All-sort_rows _ kept (All-select (of_job job_id) s.stages)) held);
      named = named;
      newest = All-of-select _ (of_job job_id) s.stages (All-of-sort_rows _ kept newest);
    }

succeeded-row :
    (latest : List AnalysisStage) (name : Stage)
    → succeeded latest name ≡ true
    → (row : AnalysisStage) × (find_first (has_name name) latest ≡ some row)
      × (is_success row.status ≡ true)
unfolding succeeded
succeeded-row latest name e = elim (Option-cases (find_first (has_name name) latest)) [
  | inl missing ↦ cc (rw (missing, succeeded) at e)
  | inr (row, found) ↦ (row, found, rw (found, succeeded) at e)
]

all_succeeded-All :
    (latest : List AnalysisStage) (names : List Stage)
    → all_succeeded latest names ≡ true
    → All (λ name. succeeded latest name ≡ true) names
unfolding all_succeeded
all_succeeded-All latest [] e = tt
all_succeeded-All latest (x ∷ xs) e = (ground arith, all_succeeded-All latest xs (ground arith))

not_exists-All :
    (rows : List AnalysisStage)
    → exists_in has_failure rows ≡ false
    → All (λ row. is_success row.status ≡ true) rows
unfolding exists_in
not_exists-All [] e = tt
not_exists-All (x ∷ xs) e = (ground arith, not_exists-All xs (ground arith))

grade-complete :
    (required failure none_at_all : Bool)
    → grade required failure none_at_all ≡ AnalysisState.complete
    → (required ≡ true) × (failure ≡ false)
grade-complete true false _ e = (refl, refl)
grade-complete true true _ e = cc
grade-complete false f true e = absurd (cc)
grade-complete false f false e = absurd (cc)

completed_state-complete :
    (latest : List AnalysisStage)
    → completed_state latest ≡ AnalysisState.complete
    → (all_succeeded latest required_stages ≡ true) × (exists_in has_failure latest ≡ false)
unfolding completed_state
completed_state-complete latest e = grade-complete _ _ _ e

analysis_state-complete :
    (state : JobState) (latest : List AnalysisStage)
    → analysis_state state latest ≡ AnalysisState.complete
    → (state ≡ JobState.completed) × (completed_state latest ≡ AnalysisState.complete)
unfolding analysis_state
analysis_state-complete state latest e = ground arith

-- A view that says complete is of a completed job; the newest outcome of each required stage is a
-- success, and so is every outcome that the view shows.
pub analysis_view-complete :
    (s : Session) (job : ImportJob)
    → (analysis_view s job).state ≡ AnalysisState.complete
    → (job.state ≡ JobState.completed)
      × All (NewestSucceeded s job.id) required_stages
      × All (λ row. is_success row.status ≡ true) (analysis_view s job).stages
unfolding analysis_view
analysis_view-complete s job e =
    let latest = latest_of (stage_rows s job.id) in
    let (done, whole) = analysis_state-complete job.state latest e in
    let (required, clean) = completed_state-complete latest whole in
    (
      done,
      All-mono {Q = NewestSucceeded s job.id} required_stages
          (λ name ok.
            let (row, found, success) = succeeded-row latest name ok in
            record { row = row; newest = latest-IsNewest s job.id name found; success = success })
          (all_succeeded-All latest required_stages required),
      not_exists-All latest clean,
    )
