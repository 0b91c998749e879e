-- ===== src/Store/Consistent.antt =====
-- The invariant of the store of lsfmgr/store/memory.py between two methods, and the write of a
-- record.
use pyqt_lsf_job_manager.Base.{
  ℕ, String, ◌≡◌, refl, true, Option, none, some, [], Dict, get, put, pop, has, get-put,
  put-IsUnique, IsUnique, string_key, String_discrete, or_default, ite, arith, ite_ind, ite_ind₂,
  Option-cases, inl, inr,
}
use pyqt_lsf_job_manager.States.{JobState, value, JobRecord}
use pyqt_lsf_job_manager.Store.Effects.{Store, M}
use pyqt_lsf_job_manager.Store.Records.{
  increment, decrement, count_del, uncount, store_counted, put_rec,
}
use pyqt_lsf_job_manager.Store.Memory.{jobs_of}
use pyqt_lsf_job_manager.Store.Tally.{
  Reads, tally, uncounted, increment-tally, increment-size, increment-IsUnique, uncounted-IsUnique,
  sum_counts, size,
}

abbrev pub counts_of : String → Store → Dict String ℕ
counts_of id s = or_default [] (get id s.counts)

pub record IsConsistent (s : Store) : Type 0 where
  -- The incremental counts are those of a scan of the records.
  pub counted : (id : String) → Reads (counts_of id s) (tally (jobs_of id s))
  -- They add up to the number of records.
  pub sized : (id : String) → sum_counts (counts_of id s) ≡ size (jobs_of id s)
  pub counts_unique : (id : String) → IsUnique (counts_of id s)
  pub unique : (id : String) → IsUnique (jobs_of id s)
  -- A job set that is listed has a dict of records.
  pub present : (id : String) → has id s.jobsets ≡ true → has id s.jobs ≡ true
  -- A record stands under its own keys.
  pub keyed :
      (id key : String) (r : JobRecord)
      → get key (jobs_of id s) ≡ some r
      → (r.jobset_id ≡ id) × (r.job_key ≡ key)

abbrev pub Keeps {ℓ} : {A : Type 0} → (Store → Type ℓ) → M A → Type ℓ
Keeps P m = (s : Store) → P s → P (m s).1

decrement-nil : (k : String) → decrement k [] ≡ []
unfolding decrement get pop
decrement-nil k = refl

counts_of-count_del :
    (id : String) (st : JobState) (s : Store) (j : String)
    → counts_of j (count_del id st s)
      ≡ ite (String_discrete id j) (decrement (value st) (counts_of id s)) (counts_of j s)
unfolding count_del
counts_of-count_del id st s j =
    ground (
      arith,
      decrement-nil (value st),
      get-put id (decrement (value st) (counts_of id s)) s.counts j,
    )

pub counts_of-uncount :
    (id : String) (old : Option JobRecord) (s : Store)
    → counts_of id (uncount id old s) ≡ uncounted old (counts_of id s)
counts_of-uncount id none s = refl
counts_of-uncount id (some old) s = ground (arith, counts_of-count_del id old.state s id)

pub counts_of-uncount_ne :
    (id j : String) (old : Option JobRecord) (s : Store)
    → ¬ (id ≡ j)
    → counts_of j (uncount id old s) ≡ counts_of j s
counts_of-uncount_ne id j none s n = refl
counts_of-uncount_ne id j (some old) s n = ground (arith, counts_of-count_del id old.state s j)

pub uncount-jobs :
    (id : String) (old : Option JobRecord) (s : Store)
    → ((uncount id old s).jobs ≡ s.jobs) × ((uncount id old s).jobsets ≡ s.jobsets)
unfolding count_del
uncount-jobs id none s = (refl, refl)
uncount-jobs id (some old) s = (ground arith, ground arith)

-- A write of a record under its own keys, where the job set has its dict.
module _ (r : JobRecord) (jobs : Dict String JobRecord) (s : Store)
    (found : get r.jobset_id s.jobs ≡ some jobs) where
  abbrev pub written : Store
  written = store_counted r jobs (uncount r.jobset_id (get r.job_key jobs) s)

  pub jobs_of-written :
      (id : String)
      → jobs_of id written
        ≡ ite (String_discrete r.jobset_id id) (put r.job_key r jobs) (jobs_of id s)
  jobs_of-written id = ground (
    arith,
    uncount-jobs r.jobset_id (get r.job_key jobs) s,
    get-put r.jobset_id (put r.job_key r jobs) s.jobs id,
  )

  counts_of-written :
      (id : String)
      → counts_of id written
        ≡ ite
            (String_discrete r.jobset_id id)
            (increment (value r.state) (uncounted (get r.job_key jobs) (counts_of r.jobset_id s)))
            (counts_of id s)
  counts_of-written id =
      let old = get r.job_key jobs in
      let s' = uncount r.jobset_id old s in
      ground (
        arith,
        get-put r.jobset_id (increment (value r.state) (counts_of r.jobset_id s')) s'.counts id,
        counts_of-uncount r.jobset_id old s,
        counts_of-uncount_ne r.jobset_id id old s,
      )

  jobs_of-found : jobs_of r.jobset_id s ≡ jobs
  jobs_of-found = ground arith

  written-counted :
      IsConsistent s → (id : String) → Reads (counts_of id written) (tally (jobs_of id written))
  written-counted c id =
      rw (counts_of-written id, jobs_of-written id)
        (ite_ind₂ (λ c' m. Reads c' (tally m)) (String_discrete r.jobset_id id)
          (λ _.
            increment-tally jobs (counts_of r.jobset_id s) r
              (rw jobs_of-found at (c.counted r.jobset_id)))
          (λ _. c.counted id))

  written-sized :
      IsConsistent s → (id : String) → sum_counts (counts_of id written) ≡ size (jobs_of id written)
  written-sized c id =
      rw (counts_of-written id, jobs_of-written id)
        (ite_ind₂ (λ c' m. sum_counts c' ≡ size m) (String_discrete r.jobset_id id)
          (λ _.
            increment-size jobs (counts_of r.jobset_id s) r
              (rw jobs_of-found at (c.counted r.jobset_id)) (c.counts_unique r.jobset_id)
              (rw jobs_of-found at (c.sized r.jobset_id)))
          (λ _. c.sized id))

  written-counts-IsUnique : IsConsistent s → (id : String) → IsUnique (counts_of id written)
  written-counts-IsUnique c id = rw (counts_of-written id) (
      ite_ind IsUnique (String_discrete r.jobset_id id)
        (λ _.
          increment-IsUnique (value r.state) _
            (uncounted-IsUnique (get r.job_key jobs) _ (c.counts_unique r.jobset_id)))
        (λ _. c.counts_unique id))

  written-IsUnique : IsConsistent s → (id : String) → IsUnique (jobs_of id written)
  written-IsUnique c id = rw (jobs_of-written id) (
      ite_ind IsUnique (String_discrete r.jobset_id id)
        (λ _. put-IsUnique r.job_key r jobs (rw jobs_of-found at (c.unique r.jobset_id)))
        (λ _. c.unique id))

  written-keyed :
      IsConsistent s
      → (id key : String) (q : JobRecord) → get key (jobs_of id written) ≡ some q
      → (q.jobset_id ≡ id) × (q.job_key ≡ key)
  written-keyed c id key q e =
      ground
        (arith, jobs_of-written id, get-put r.job_key r jobs key, c.keyed id key q, jobs_of-found)

  written-present :
      IsConsistent s → (id : String) → has id written.jobsets ≡ true → has id written.jobs ≡ true
  written-present c id h = ground (
    arith,
    uncount-jobs r.jobset_id (get r.job_key jobs) s,
    get-put r.jobset_id (put r.job_key r jobs) s.jobs id,
    c.present id,
  )

  pub written-IsConsistent : IsConsistent s → IsConsistent written
  written-IsConsistent c = record {
    counted = written-counted c;
    sized = written-sized c;
    counts_unique = written-counts-IsUnique c;
    unique = written-IsUnique c;
    present = written-present c;
    keyed = written-keyed c;
  }

-- `_put_rec` keeps the invariant, whatever the record.
pub put_rec-IsConsistent : (r : JobRecord) → Keeps IsConsistent (put_rec r)
unfolding put_rec
put_rec-IsConsistent r s c = elim (Option-cases (get r.jobset_id s.jobs)) [
  | inl e ↦ rw (e, put_rec) c
  | inr (jobs, e) ↦ rw (e, put_rec) (written-IsConsistent r jobs s e c)
]
