-- ===== src/Store/Records.antt =====
-- lsfmgr/store/memory.py: the functions through which each write of a record goes, and the counts of
-- the states that they keep.
use pyqt_lsf_job_manager.Base.{
  ℕ, String, ◌+◌, ◌-◌, Option, none, some, [], Dict, get, put, pop, or_default, is_empty,
  string_key, ltb, if◌then◌else◌,
}
use pyqt_lsf_job_manager.States.{JobState, value, JobRecord}
use pyqt_lsf_job_manager.Store.Effects.{Store, ok, err, key_error, M}

-- `counts[key] = counts.get(key, 0) + 1`
unfoldable pub increment : String → Dict String ℕ → Dict String ℕ
increment key counts = put key (or_default 0 (get key counts) + 1) counts

-- The count less 1. Below 1 the key goes; a missing key counts 0, and 0 - 1 is below 1 too.
unfoldable pub decrement : String → Dict String ℕ → Dict String ℕ
decrement key counts =
    let n = or_default 0 (get key counts) - 1 in
    if ltb 0 n then put key n counts else pop key counts

unfoldable pub count_del : String → JobState → Store → Store
unfolding decrement
count_del jobset_id state s = elim (get jobset_id s.counts) [
  | none ↦ s
  | some counts ↦
      if is_empty counts
      then s
      else record s { counts = put jobset_id (decrement (value state) counts) s.counts }
]

-- The count of the record that a write replaces or removes.
abbrev pub uncount : String → Option JobRecord → Store → Store
uncount jobset_id none s = s
uncount jobset_id (some old) s = count_del jobset_id old.state s

-- The end of `_put_rec`: the record stands in the dict, and its state is counted.
abbrev pub store_counted : JobRecord → Dict String JobRecord → Store → Store
store_counted r jobs s = record s {
  jobs = put r.jobset_id (put r.job_key r jobs) s.jobs;
  counts =
      put r.jobset_id (increment (value r.state) (or_default [] (get r.jobset_id s.counts)))
        s.counts;
}

unfoldable pub put_rec : JobRecord → M (Unit {0})
unfolding count_del increment
put_rec r s = elim (get r.jobset_id s.jobs) [
  | none ↦ (err key_error, s)
  | some jobs ↦ (ok tt, store_counted r jobs (uncount r.jobset_id (get r.job_key jobs) s))
]

-- Nothing to remove is `None`, and no error.
unfoldable pub drop_rec : String → String → M (Option JobRecord)
unfolding count_del
drop_rec jobset_id job_key s = elim (get jobset_id s.jobs) [
  | none ↦ (ok none, s)
  | some jobs ↦
      let old = get job_key jobs in
      let s' = record s { jobs = put jobset_id (pop job_key jobs) s.jobs } in
      (ok old, uncount jobset_id old s')
]
