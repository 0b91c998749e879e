-- ===== src/Store/Summaries.antt =====
-- The summary that the store makes from its incremental counts, against the scan that
-- lsfmgr/store/base.py offers to a store without them.
use pyqt_lsf_job_manager.Base.{
  ℕ, String, ◌+◌, ◌-◌, ◌≡◌, ◌∙◌, refl, sym, ap, some, List, [], ◌∷◌, Dict, get, values, get-put,
  total, total-put, string_key, or_default, arith, max, length,
}
use pyqt_lsf_job_manager.States.{JobState, value, JobRecord, JobSetRecord}
use pyqt_lsf_job_manager.Store.Effects.{Store, ok}
use pyqt_lsf_job_manager.Store.Memory.{jobs_of, get_jobset}
use pyqt_lsf_job_manager.Store.Update.{
  Summary, summary_from_counts, summary, count_states, make_summary,
}
use pyqt_lsf_job_manager.Store.Tally.{
  Reads, tally, at_key, entry, sum_counts, size, increment-Reads, increment-sum,
}
use pyqt_lsf_job_manager.Store.Records.{increment}
use pyqt_lsf_job_manager.Store.Consistent.{IsConsistent, counts_of}

-- How many records of a list are in the state that the key names.
scan : String → List JobRecord → ℕ
scan key [] = 0
scan key (r ∷ rs) = at_key key r + scan key rs

scan-values :
    (key : String) (jobs : Dict String JobRecord) → scan key (values jobs) ≡ tally jobs key
unfolding scan total
scan-values key [] = refl
scan-values key ((k, r) ∷ jobs) = omega (arith, scan-values key jobs)

length-values : (jobs : Dict String JobRecord) → length (values jobs) ≡ size jobs
unfolding total
length-values [] = refl
length-values (e ∷ jobs) = omega (arith, length-values jobs)

count_states-increment :
    (counts : Dict String ℕ) (r : JobRecord) (rs : List JobRecord)
    → count_states counts (r ∷ rs) ≡ count_states (increment (value r.state) counts) rs
unfolding count_states increment
count_states-increment counts r rs = refl

count_states-Reads :
    (rs : List JobRecord) (counts : Dict String ℕ) (f : String → ℕ)
    → Reads counts f
    → Reads (count_states counts rs) (λ key. f key + scan key rs)
unfolding count_states scan
count_states-Reads [] counts f h key = h key ∙ ap entry (omega arith)
count_states-Reads (r ∷ rs) counts f h key =
    let g : String → ℕ = λ j. f j + at_key j r in
    rw (count_states-increment counts r rs) (
      count_states-Reads rs (increment (value r.state) counts) g
        (increment-Reads (value r.state) counts f g h (λ j. refl)) key
      ∙ ap entry (omega arith))

count_states-sum :
    (rs : List JobRecord) (counts : Dict String ℕ)
    → sum_counts (count_states counts rs) ≡ sum_counts counts + length rs
unfolding count_states
count_states-sum [] counts = omega arith
count_states-sum (r ∷ rs) counts = rw (count_states-increment counts r rs) (
    omega (
      arith,
      increment-sum (value r.state) counts,
      count_states-sum rs (increment (value r.state) counts),
    ))

scanned : Dict String JobRecord → Dict String ℕ
scanned jobs = count_states [] (values jobs)

scanned-Reads : (jobs : Dict String JobRecord) → Reads (scanned jobs) (tally jobs)
unfolding scanned get
scanned-Reads jobs key =
    count_states-Reads (values jobs) [] (λ _. 0) (λ _. refl) key
    ∙ ap entry (omega (arith, scan-values key jobs))

scanned-sum : (jobs : Dict String JobRecord) → sum_counts (scanned jobs) ≡ size jobs
unfolding scanned total
scanned-sum jobs = omega (arith, count_states-sum (values jobs) [], length-values jobs)

summary_from_counts-total :
    (js : JobSetRecord) (counts : Dict String ℕ)
    → sum_counts (summary_from_counts js counts).by_state
      ≡ max js.intended_count (sum_counts counts)
unfolding summary_from_counts
summary_from_counts-total js counts =
    let key = value JobState.created in
    let missing = js.intended_count - sum_counts counts in
    ground (arith, total-put (λ n. n) key (or_default 0 (get key counts) + missing) counts)

summary_from_counts-get :
    (js : JobSetRecord) (c d : Dict String ℕ)
    → ((key : String) → get key c ≡ get key d)
    → sum_counts c ≡ sum_counts d
    → (key : String)
    → get key (summary_from_counts js c).by_state ≡ get key (summary_from_counts js d).by_state
unfolding summary_from_counts
summary_from_counts-get js c d h e key = ground (
  arith,
  get-put (value JobState.created)
      (or_default 0 (get (value JobState.created) c) + (js.intended_count - sum_counts c)) c key,
  get-put (value JobState.created)
      (or_default 0 (get (value JobState.created) d) + (js.intended_count - sum_counts d)) d key,
  h key,
  h (value JobState.created),
)

-- The summary of a job set in a consistent store: its total is the intended count, its states add up
-- to the intended count or to the number of the records, whichever is more, and each state has the
-- entry that a scan of the records (`make_summary`) would give it.
pub summary-make_summary :
    (id : String) (s : Store) (js : JobSetRecord)
    → IsConsistent s
    → get id s.jobsets ≡ some js
    → (sm : Summary) × (summary id s ≡ (ok sm, s))
      × (sm.intended ≡ js.intended_count)
      × (sum_counts sm.by_state ≡ max js.intended_count (size (jobs_of id s)))
      × ((key : String)
          → get key sm.by_state ≡ get key (make_summary js (values (jobs_of id s))).by_state)
unfolding summary get_jobset make_summary scanned
summary-make_summary id s js c e = (
  summary_from_counts js (counts_of id s),
  rw (e, get_jobset),
  unfold summary_from_counts in refl,
  rw (← c.sized id) (summary_from_counts-total js (counts_of id s)),
  summary_from_counts-get js (counts_of id s) (scanned (jobs_of id s))
      (λ key. c.counted id key ∙ sym (scanned-Reads (jobs_of id s) key))
      (c.sized id ∙ sym (scanned-sum (jobs_of id s))),
)
