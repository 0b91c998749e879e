-- ===== src/JobSets/Removals.antt =====
-- The removals of jobs and of a job set, on success and on an error (lsfmgr/jobset_core.py,
-- _delete_jobs, local_remove_jobs, local_remove_jobset).
use pyqt_lsf_job_manager.Base.{
  All, Bool, Bool-cases, Dict, List, Option-cases, String, [], ap, arith, false, filter, get,
  get-pop, has, if◌then◌else◌, inl, inr, is_empty, none, not, or_default, refl, some, string_key,
  subst, true, values, ◌||◌, ◌∙◌, ◌∷◌, ◌≡◌, ◌≢◌, ◌⊎◌,
}
use pyqt_lsf_job_manager.JobSets.Deletions.{store_delete_jobs-IsWithout}
use pyqt_lsf_job_manager.JobSets.Plans.{get_jobs_by_keys-found}
use pyqt_lsf_job_manager.JobSets.Edits.{get_jobset-found}
use pyqt_lsf_job_manager.JobSets.Counting.{
  IsSynced, sync_intended_count-IsSynced, sync_intended_count-Keeps,
}
use pyqt_lsf_job_manager.Store.Invariant.{store_delete_jobs-Keeps}
use pyqt_lsf_job_manager.JobSets.Manager.{
  delete_jobs, local_remove_jobs, local_remove_jobset, look_up_all, record_keys,
}
use pyqt_lsf_job_manager.States.{JobRecord, JobSetRecord, is_terminal}
use pyqt_lsf_job_manager.Store.Effects.{
  Store, StoreError, err, job_not_found, not_allowed, ok, remove, remove_jobset, value_error,
}
use pyqt_lsf_job_manager.Store.Memory.{
  get_jobs, get_jobs_by_keys, in_states, jobs_of, store_delete_jobset,
}
use pyqt_lsf_job_manager.Store.Consistent.{IsConsistent}
use pyqt_lsf_job_manager.Store.Writes.{record_at}
use pyqt_lsf_job_manager.JobSets.Choices.{active_keys, is_member}

-- What a removal that returns did, and when it refuses.
pub record IsRemoval (id : String) (targets : List JobRecord) (force : Bool) (s t : Store)
    : Type 0 where
  pub gone :
      (k : String)
      → record_at id k t ≡ (if is_member k (record_keys targets) then none else record_at id k s)
  pub consistent : IsConsistent t
  pub synced : IsSynced id t
  pub allowed : force ≡ false → active_keys targets ≡ []

is_empty-nil : (ks : List String) → is_empty ks ≡ true → ks ≡ []
is_empty-nil [] h = refl
is_empty-nil (k ∷ ks) h = cc

-- The removal of the targets in a consistent store, where the job set stands under its own id: either
-- it returns, the records under the keys of the targets are gone, every other one of the job set is as
-- it was, and the job set intends as many jobs as are left, where without force no target was active; or the
-- removal is not allowed, since a target is active and force is off, and the store is as it was.
pub delete_jobs-IsRemoval :
    (id : String) (targets : List JobRecord) (force : Bool) (s : Store) (js : JobSetRecord)
    → IsConsistent s
    → get id s.jobsets ≡ some js
    → js.jobset_id ≡ id
    → ((out : List JobRecord) × (t : Store) × (delete_jobs id targets force s ≡ (ok out, t))
        × IsRemoval id targets force s t)
      ⊎ ((delete_jobs id targets force s ≡ (err (not_allowed remove id (active_keys targets)), s))
          × (force ≡ false)
          × (active_keys targets ≢ []))
unfolding delete_jobs
delete_jobs-IsRemoval id targets force s js c e n =
    let busy = active_keys targets in
    elim (Bool-cases (is_empty busy || force)) [
      | inr f ↦ inr (ground arith, ground arith, λ p. ground (arith, ap is_empty p))
      | inl f ↦
          let (out, t, p, w) = store_delete_jobs-IsWithout id (record_keys targets) s in
          let c' : IsConsistent t =
            subst IsConsistent (ap (λ a. a.1) p)
              (store_delete_jobs-Keeps id (record_keys targets) s c) in
          let e' : get id t.jobsets ≡ some js = ap (get id) w.jobsets ∙ e in
          let (u, q, j, z) =
            sync_intended_count-IsSynced id t js (c'.present id (ground arith)) e' n in
          inl (
            out,
            u,
            ground arith,
            record {
              gone = λ k. ap (λ jobs. get k (or_default [] (get id jobs))) j ∙ w.records k;
              consistent = subst IsConsistent (ap (λ a. a.1) q) (sync_intended_count-Keeps id t c');
              synced = z;
              allowed = λ g. is_empty-nil busy (ground arith);
            },
          )
    ]

look_up_all_cases :
    (id : String) (d : Dict String JobRecord) (ks : List String) (s : Store)
    → ((k : String) (r : JobRecord)
        → get k d ≡ some r
        → (r.job_key ≡ k) × (record_at id k s ≡ some r))
    → ((rs : List JobRecord) × (look_up_all id d ks s ≡ (ok rs, s))
        × (record_keys rs ≡ ks)
        × All (λ r. record_at id r.job_key s ≡ some r) rs)
      ⊎ ((e : StoreError) × (look_up_all id d ks s ≡ (err e, s)))
unfolding look_up_all
look_up_all_cases id d [] s h = inl ([], refl, refl, tt)
look_up_all_cases id d (k ∷ ks) s h = elim (Option-cases (get k d)) [
  | inl e ↦ inr (job_not_found id k, ground arith)
  | inr (r, e) ↦ elim (look_up_all_cases id d ks s h) [
    | inl (rs, p, q, a) ↦
        let (x, y) = h k r e in
        inl (r ∷ rs, ground arith, ground (arith, x, q), (ap (λ j. record_at id j s) x ∙ y, a))
    | inr (x, p) ↦ inr (x, ground arith)
  ]
]

-- A removal of jobs by their keys, in a consistent store where the job set stands under its own id, which
-- is so still after what workers write between the reading and the deletion, takes effect as a whole
-- or not at all. Either a record was read under each of the keys, what stood under the keys is gone, with
-- every other record of the job set as it was at the deletion and the intended count that of the records
-- left, where without force none of the records that were read was active. Or it raises an error and
-- writes nothing.
pub local_remove_jobs_atomic :
    (id : String) (ks : List String) (force : Bool) (before_delete : Store → Store) (s : Store)
    (js js' : JobSetRecord)
    → IsConsistent s
    → get id s.jobsets ≡ some js
    → IsConsistent (before_delete s)
    → get id (before_delete s).jobsets ≡ some js'
    → js'.jobset_id ≡ id
    → ((out : List JobRecord) × (t : Store) × (targets : List JobRecord) × (local_remove_jobs id ks
            force before_delete s
          ≡ (ok out, t))
        × (record_keys targets ≡ ks)
        × All (λ r. record_at id r.job_key s ≡ some r) targets
        × IsRemoval id targets force (before_delete s) t)
      ⊎ ((e : StoreError) × (u : Store) × (local_remove_jobs id ks force before_delete s
            ≡ (err e, u))
          × ((u ≡ s) ⊎ (u ≡ before_delete s)))
unfolding local_remove_jobs
local_remove_jobs_atomic id ks force f s js js' c e c' e' n =
    let d = get_jobs_by_keys id ks s in
    let p₀ = get_jobset-found id s js e in
    elim (Bool-cases (is_empty ks)) [
      | inl b ↦ inr (value_error, s, ground arith, inl refl)
      | inr b ↦
          elim (look_up_all_cases id d ks s (λ k r h.
            let at = get_jobs_by_keys-found id ks s k r h in ((c.keyed id k r at).1, at))) [
              | inr (x, q) ↦ inr (x, s, ground arith, inl refl)
              | inl (rs, q, w, a) ↦ elim (delete_jobs-IsRemoval id rs force (f s) js' c' e' n) [
                | inl (out, t, p, h) ↦ inl (out, t, rs, ground arith, w, a, h)
                | inr (p, _, _) ↦
                    inr (not_allowed remove id (active_keys rs), f s, ground arith, inr refl)
              ]
            ]
    ]

pub filter-in_states : (rs : List JobRecord) → filter (in_states none) rs ≡ rs
filter-in_states [] = refl
filter-in_states (r ∷ rs) = ap (λ qs. r ∷ qs) (filter-in_states rs)

get_jobs-found :
    (id : String) (s : Store) (js : JobSetRecord)
    → get id s.jobsets ≡ some js
    → get_jobs id none s ≡ (ok (values (jobs_of id s)), s)
unfolding get_jobs
get_jobs-found id s js e = ground (arith, filter-in_states (values (jobs_of id s)))

-- The removal of a job set that is listed: if each of its jobs is terminal or force is on, the job set
-- and its records are gone and the call returns its record; otherwise it is not allowed, and the store
-- is as it was.
pub local_remove_jobset_guarded :
    (id : String) (force : Bool) (s : Store) (js : JobSetRecord)
    → get id s.jobsets ≡ some js
    → let running = filter (λ r. not (is_terminal r.state)) (values (jobs_of id s)) in
      ((t : Store) × (local_remove_jobset id force s ≡ (ok js, t))
        × (has id t.jobsets ≡ false)
        × (has id t.jobs ≡ false)
        × ((force ≡ true) ⊎ (is_empty running ≡ true)))
      ⊎ ((local_remove_jobset id force s
            ≡ (err (not_allowed remove_jobset id (record_keys running)), s))
          × (force ≡ false)
          × (is_empty running ≡ false))
unfolding local_remove_jobset store_delete_jobset
local_remove_jobset_guarded id force s js e =
    let p₀ = get_jobset-found id s js e in
    let running = filter (λ r. not (is_terminal r.state)) (values (jobs_of id s)) in
    elim (Bool-cases (is_empty running || force)) [
      | inr f ↦ inr (ground (arith, get_jobs-found id s js e), ground arith, ground arith)
      | inl f ↦ inl (
        (store_delete_jobset id s).1,
        ground (arith, get_jobs-found id s js e),
        ground (arith, get-pop id s.jobsets id),
        ground (arith, get-pop id s.jobs id),
        ground arith,
      )
    ]
