-- ===== src/JobSets/Edits.antt =====
-- The edit of a job set, on success and on an error (lsfmgr/jobset_core.py, local_edit_jobs).
use pyqt_lsf_job_manager.JobSets.Rewrites.{
  AreAt, LeavesOthers, version_at, versions, write_plan-returns,
}
use pyqt_lsf_job_manager.Base.{
  All, Bool, Bool-cases, Dict, List, Option-cases, String, [], ap, arith, false, get, inl, inr,
  is_empty, is_some, map, or_default, refl, some, string_key, subst, sym, true, ◌||◌, ◌∙◌, ◌∷◌, ◌≡◌,
  ◌⊎◌,
}
use pyqt_lsf_job_manager.States.{JobRecord, JobSetRecord, Time}
use pyqt_lsf_job_manager.States.Laws.{same_text_iff}
use pyqt_lsf_job_manager.Store.Memory.{get_jobs_by_keys, get_jobset}
use pyqt_lsf_job_manager.Store.Writes.{record_at}
use pyqt_lsf_job_manager.JobSets.Manager.{Policy, local_edit_jobs, record_keys, replaced}
use pyqt_lsf_job_manager.JobSets.Choices.{active_keys, is_active, is_member}
use pyqt_lsf_job_manager.Store.Effects.{Store, StoreError, edit, err, not_allowed, ok, value_error}
use pyqt_lsf_job_manager.Store.Consistent.{IsConsistent}
use pyqt_lsf_job_manager.JobSets.Counting.{
  IsSynced, sync_intended_count-IsSynced, sync_intended_count-Keeps,
}
use pyqt_lsf_job_manager.JobSets.Plans.{
  check_records-IsBatch, get-get_jobs_by_keys, paired, plan_edit_cases,
}

replaced-inactive :
    (d : Dict String JobRecord) (rs : List JobRecord) (k : String) (old : JobRecord)
    → is_empty (active_keys (replaced (paired d rs))) ≡ true
    → is_member k (record_keys rs) ≡ true
    → get k d ≡ some old
    → is_active old ≡ false
unfolding replaced
replaced-inactive d [] k old b m h = cc
replaced-inactive d (r ∷ rs) k old b m h = elim (Option-cases (get r.job_key d)) [
  | inl e ↦ ground (
    arith,
    replaced-inactive d rs k old (ground arith),
    (same_text_iff k r.job_key).0,
    ap (λ j. get j d),
  )
  | inr (q, e) ↦ ground (
    arith,
    replaced-inactive d rs k old (ground arith),
    (same_text_iff k r.job_key).0,
    ap (λ j. get j d),
  )
]

pub get_jobset-found :
    (id : String) (s : Store) (js : JobSetRecord)
    → get id s.jobsets ≡ some js
    → get_jobset id s ≡ (ok js, s)
unfolding get_jobset
get_jobset-found id s js e = ground arith

-- What an edit that returns did: it looked at `s`, wrote from `u` to `t` and returned `out`.
pub record IsEdit (id : String) (rs : List JobRecord) (force : Bool) (now : Time)
    (out : List JobRecord) (s u t : Store) : Type 0 where
  -- The records of the batch, stamped, each with the revision after that of the one it replaces.
  pub batch : out ≡ map (version_at id now u) rs
  pub keys : record_keys out ≡ record_keys rs
  pub stored : All (λ x. record_at id x.job_key t ≡ some x) out
  pub others : LeavesOthers id rs u t
  pub consistent : IsConsistent t
  pub synced : IsSynced id t
  pub allowed :
      force ≡ false
      → (k : String) (old : JobRecord) → is_member k (record_keys rs) ≡ true
      → record_at id k s ≡ some old
      → is_active old ≡ false

still_at :
    (id : String) (t u : Store)
    → ((i k : String) → record_at i k u ≡ record_at i k t)
    → (xs : List JobRecord) → AreAt id t xs
    → AreAt id u xs
still_at id t u h [] a = tt
still_at id t u h (x ∷ xs) (e, a) = (h id x.job_key ∙ e, still_at id t u h xs a)

-- An edit of a job set that stands under its own id, in a consistent store, takes effect as a whole or
-- not at all, where workers write what they like to records between its check and its writes, as long
-- as the store is consistent then and has a record under a key of the batch where it had one at the
-- check. Either the edit returns the records of the batch in their order, stamped or with the next
-- revision of the record that they replace; each of them then stands under its key, what stands under
-- any other keys is as the workers left it, and the job set intends as many jobs as it has records, in
-- a consistent store, where without force no record under a key of the batch was active at the check.
-- Or it raises an error before the workers write and leaves the store as it was.
pub local_edit_jobs_atomic :
    (id : String) (rs : List JobRecord) (policy : Policy) (force : Bool)
    (before_write : Store → Store) (now : Time) (s : Store) (js js' : JobSetRecord)
    → IsConsistent s
    → get id s.jobsets ≡ some js
    → IsConsistent (before_write s)
    → get id (before_write s).jobsets ≡ some js'
    → js'.jobset_id ≡ id
    → ((k : String)
        → is_member k (record_keys rs) ≡ true
        → is_some (record_at id k (before_write s)) ≡ is_some (record_at id k s))
    → ((out : List JobRecord) × (t : Store) × (local_edit_jobs id rs policy force before_write now s
          ≡ (ok out, t))
        × IsEdit id rs force now out s (before_write s) t)
      ⊎ ((e : StoreError) × (local_edit_jobs id rs policy force before_write now s ≡ (err e, s)))
unfolding local_edit_jobs
local_edit_jobs_atomic id rs policy force f now s js js' c e cu eu n kept =
    let d = get_jobs_by_keys id (record_keys rs) s in
    let found = get-get_jobs_by_keys id (record_keys rs) s in
    let p₀ = get_jobset-found id s js e in
    elim (check_records-IsBatch id [] rs s) [
      | inr p ↦ inr (value_error, ground arith)
      | inl (p, b) ↦ elim (plan_edit_cases policy id d rs s) [
        | inr (x, q) ↦ inr (x, ground arith)
        | inl q ↦
            let busy = active_keys (replaced (paired d rs)) in
            elim (Bool-cases (is_empty busy || force)) [
              | inr g ↦ inr (not_allowed edit id busy, ground arith)
              | inl g ↦
                  let (t, w, c', j, ks, at, others) =
                    write_plan-returns id [] d rs now (f s) js' cu eu b
                      (λ k m. ap is_some (found k m) ∙ sym (kept k m)) in
                  let e' : get id t.jobsets ≡ some js' = ap (get id) j ∙ eu in
                  let (u, y, same, z) =
                    sync_intended_count-IsSynced id t js' (c'.present id (ground arith)) e' n in
                  let c₂ = sync_intended_count-Keeps id t c' in
                  let there = λ (i k : String).
                    ap
                      (λ (m : Dict String (Dict String JobRecord)). get k (or_default [] (get i m)))
                      same in
                  inl (
                    versions id now (f s) rs,
                    u,
                    ground (arith, p, q, w, y),
                    record {
                      batch = refl;
                      keys = ks;
                      stored = still_at id t u there (versions id now (f s) rs) at;
                      others =
                          λ i k. elim (others i k) [ inl m ↦ inl m | inr q ↦ inr (there i k ∙ q) ];
                      consistent = subst IsConsistent (ap (λ a. a.1) y) c₂;
                      synced = z;
                      allowed = λ a k old m h.
                          replaced-inactive d rs k old (ground arith) m (found k m ∙ h);
                    },
                  )
            ]
      ]
    ]
