-- ===== src/JobSets/Plans.antt =====
-- What the checks of an edit leave (lsfmgr/jobset_core.py, _check_records and the plan of
-- local_edit_jobs).
use pyqt_lsf_job_manager.Base.{
  Bool-cases, Dict, List, Option, Option-cases, String, [], arith, false, get, get-put, has,
  if◌then◌else◌, inl, inr, is_blank, map, none, put, refl, some, string_key, true, ◌&&◌, ◌∷◌, ◌≡◌,
  ◌⊎◌,
}
use pyqt_lsf_job_manager.States.{JobRecord, same_text}
use pyqt_lsf_job_manager.States.Laws.{same_text_iff}
use pyqt_lsf_job_manager.Store.Effects.{Store, StoreError, err, job_not_found, ok, value_error}
use pyqt_lsf_job_manager.Store.Memory.{get_jobs_by_keys, jobs_of, pick_keys}
use pyqt_lsf_job_manager.JobSets.Choices.{check_records, is_member}
use pyqt_lsf_job_manager.JobSets.Manager.{Policy, matched, plan_edit}

-- The records are of the job set, and no key stands twice or among those seen.
abbrev pub IsBatch : String → List String → List JobRecord → Type 0
IsBatch id seen [] = Unit
IsBatch id seen (r ∷ rs) =
    (r.jobset_id ≡ id) × (is_member r.job_key seen ≡ false) × IsBatch id (r.job_key ∷ seen) rs

pub check_records-IsBatch :
    (id : String) (seen : List String) (rs : List JobRecord) (s : Store)
    → ((check_records id seen rs s ≡ (ok tt, s)) × IsBatch id seen rs)
      ⊎ (check_records id seen rs s ≡ (err value_error, s))
unfolding check_records
check_records-IsBatch id seen [] s = inl (refl, tt)
check_records-IsBatch id seen (r ∷ rs) s = elim (Bool-cases (same_text r.jobset_id id)) [
  | inr a ↦ inr (ground arith)
  | inl a ↦ elim (Bool-cases (is_blank r.job_key)) [
    | inl b ↦ inr (ground arith)
    | inr b ↦ elim (Bool-cases (is_member r.job_key seen)) [
      | inl c ↦ inr (ground arith)
      | inr c ↦ elim (check_records-IsBatch id (r.job_key ∷ seen) rs s) [
        | inl (p, h) ↦ inl (ground arith, ((same_text_iff r.jobset_id id).0 a, c, h))
        | inr p ↦ inr (ground arith)
      ]
    ]
  ]
]

-- The plan pairs each record with the one under its key.
abbrev pub paired : Dict String JobRecord → List JobRecord → List (JobRecord × Option JobRecord)
paired by_key = map (λ r. (r, get r.job_key by_key))

matched_cases :
    (policy : Policy) (id : String) (r : JobRecord) (o : Option JobRecord) (s : Store)
    → (matched policy id r o s ≡ (ok (r, o), s))
      ⊎ ((e : StoreError) × (matched policy id r o s ≡ (err e, s)))
matched_cases Policy.add id r none s = inl refl
matched_cases Policy.add id r (some old) s = inr (value_error, refl)
matched_cases Policy.replace id r none s = inr (job_not_found id r.job_key, refl)
matched_cases Policy.replace id r (some old) s = inl refl
matched_cases Policy.upsert id r o s = inl refl

pub plan_edit_cases :
    (policy : Policy) (id : String) (d : Dict String JobRecord) (rs : List JobRecord) (s : Store)
    → (plan_edit policy id d rs s ≡ (ok (paired d rs), s))
      ⊎ ((e : StoreError) × (plan_edit policy id d rs s ≡ (err e, s)))
unfolding plan_edit
plan_edit_cases policy id d [] s = inl refl
plan_edit_cases policy id d (r ∷ rs) s = elim (matched_cases policy id r (get r.job_key d) s) [
  | inr (e, p) ↦ inr (e, ground arith)
  | inl p ↦ elim (plan_edit_cases policy id d rs s) [
    | inr (e, q) ↦ inr (e, ground arith)
    | inl q ↦ inl (ground arith)
  ]
]

get-pick_keys :
    (jobs out : Dict String JobRecord) (ks : List String) (k : String)
    → get k (pick_keys jobs out ks)
      ≡ (if is_member k ks && has k jobs then get k jobs else get k out)
unfolding pick_keys
get-pick_keys jobs out [] k = refl
get-pick_keys jobs out (x ∷ ks) k = elim (Option-cases (get x jobs)) [
  | inl e ↦ ground (arith, get-pick_keys jobs out ks k, (same_text_iff k x).0)
  | inr (r, e) ↦
      ground
        (arith, get-pick_keys jobs (put x r out) ks k, get-put x r out k, (same_text_iff k x).0)
]

-- A lookup of the batch finds what the store has.
pub get-get_jobs_by_keys :
    (id : String) (ks : List String) (s : Store) (k : String)
    → is_member k ks ≡ true
    → get k (get_jobs_by_keys id ks s) ≡ get k (jobs_of id s)
unfolding get_jobs_by_keys get
get-get_jobs_by_keys id ks s k h = ground (arith, get-pick_keys (jobs_of id s) [] ks k)

pub get_jobs_by_keys-found :
    (id : String) (ks : List String) (s : Store) (k : String) (r : JobRecord)
    → get k (get_jobs_by_keys id ks s) ≡ some r
    → get k (jobs_of id s) ≡ some r
unfolding get_jobs_by_keys get
get_jobs_by_keys-found id ks s k r h = ground (arith, get-pick_keys (jobs_of id s) [] ks k)
