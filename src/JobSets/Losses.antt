-- ===== src/JobSets/Losses.antt =====
-- The detection of lost submissions and the other jobs (lsfmgr/jobset_core.py, detect_lost).
use pyqt_lsf_job_manager.JobSets.Removals.{filter-in_states}
use pyqt_lsf_job_manager.Base.{
  All, Bool, Bool-cases, List, String, [], any, ap, arith, false, filter, has, if◌then◌else◌, inl,
  inr, is_empty, map, refl, some, string_key, true, values, ◌∙◌, ◌∷◌, ◌≡◌, ◌⊎◌,
}
use pyqt_lsf_job_manager.States.{JobRecord, JobState, Time, same_execution}
use pyqt_lsf_job_manager.Store.Memory.{get_jobs, get_jobset, jobs_of}
use pyqt_lsf_job_manager.Store.Effects.{Store, pure}
use pyqt_lsf_job_manager.States.Laws.{same_state_iff}
use pyqt_lsf_job_manager.Store.Update.{transition_many}
use pyqt_lsf_job_manager.Store.Consistent.{IsConsistent, Keeps}
use pyqt_lsf_job_manager.Store.Writes.{record_at}
use pyqt_lsf_job_manager.Store.Untouched.{Spares, Stands, transition_many-Stands}
use pyqt_lsf_job_manager.JobSets.Manager.{detect_lost, is_candidate, lost_spec, still}

still-is_candidate :
    (r cur : JobRecord) → is_candidate r ≡ true → is_candidate cur ≡ false → still r cur ≡ false
still-is_candidate r cur c n = ground (
  arith,
  (same_state_iff r.state JobState.submitting).0,
  (same_state_iff cur.state r.state).0,
  (same_state_iff cur.state JobState.submitting).1,
)

-- The record is of no execution that the snapshots tell of as a candidate, or is none itself.
abbrev pub IsOther : JobRecord → List JobRecord → Type 0
IsOther cur jobs =
    (is_candidate cur ≡ false) ⊎ (any (same_execution cur) (filter is_candidate jobs) ≡ false)

lost_specs-Spares :
    (key : String) (cur : JobRecord) (rs : List JobRecord)
    → IsOther cur rs
    → All (Spares key cur) (map lost_spec (filter is_candidate rs))
lost_specs-Spares key cur [] n = tt
lost_specs-Spares key cur (r ∷ rs) n = elim (Bool-cases (is_candidate r)) [
  | inr e ↦ rw (e, All) (lost_specs-Spares key cur rs (rw (filter, e) at n))
  | inl e ↦ rw (e, All) ((refl, λ _. refuses n e), lost_specs-Spares key cur rs (tail n e))
]
  where
    refuses : IsOther cur (r ∷ rs) → is_candidate r ≡ true → still r cur ≡ false
    refuses (inl n) e = still-is_candidate r cur e n
    refuses (inr n) e = ground (arith, n, e)

    tail : IsOther cur (r ∷ rs) → is_candidate r ≡ true → IsOther cur rs
    tail (inl n) e = inl n
    tail (inr n) e = inr (ground (arith, n, e))

lost_all-Keeps :
    (id key : String) (now : Time) (r : JobRecord) (rs : List JobRecord)
    → IsOther r rs
    → (b : Bool)
    → Keeps
        (Stands id key r)
        (if b then pure [] else transition_many id (map lost_spec (filter is_candidate rs)) now)
lost_all-Keeps id key now r rs n true = λ s p. p
lost_all-Keeps id key now r rs n false =
    transition_many-Stands id key (map lost_spec (filter is_candidate rs)) now r
      (lost_specs-Spares key r rs n)

detect_lost-eq :
    (id : String) (f g : Store → Store) (now : Time) (s : Store)
    → has id s.jobsets ≡ true
    → has id (f s).jobsets ≡ true
    → let jobs = values (jobs_of id (f s)) in
      detect_lost id f g now s
      ≡ (if is_empty (filter is_candidate jobs)
            then pure []
            else transition_many id (map lost_spec (filter is_candidate jobs)) now)
          (g (f s))
unfolding detect_lost get_jobset get_jobs
detect_lost-eq id f g now s h k = ground (arith, h, k, filter-in_states (values (jobs_of id (f s))))

-- The detection of lost submissions, whatever other threads do to the store before it reads the records
-- and again before it writes, as long as the job set is there until the reading and the store is
-- consistent at the writing: a record that stands at the writing is left as it is if it then has an id of
-- LSF or a state that is not SUBMITTING, or if it is another execution than each record that was read
-- as SUBMITTING without an id.
pub detect_lost-Spares :
    (id key : String) (before_read before_write : Store → Store) (now : Time) (s : Store)
    (r : JobRecord)
    → has id s.jobsets ≡ true
    → has id (before_read s).jobsets ≡ true
    → IsConsistent (before_write (before_read s))
    → record_at id key (before_write (before_read s)) ≡ some r
    → IsOther r (values (jobs_of id (before_read s)))
    → record_at id key (detect_lost id before_read before_write now s).1 ≡ some r
detect_lost-Spares id key f g now s r h k c e n =
    ap (λ a. record_at id key a.1) (detect_lost-eq id f g now s h k)
    ∙ (lost_all-Keeps id key now r (values (jobs_of id (f s))) n
        (is_empty (filter is_candidate (values (jobs_of id (f s))))) (g (f s)) (c, e)).1
