-- ===== src/Store/Tally.antt =====
-- The count of each state by a scan of the records, and what the incremental counts of
-- lsfmgr/store/memory.py owe to it.
use pyqt_lsf_job_manager.Base.{
  ℕ, String, ◌+◌, ◌-◌, ◌<◌, ◌≡◌, ◌∙◌, refl, ap, Option, none, some, Dict, get, put, pop, get-put,
  get-pop, total, total-put, total-pop, weight, weight-le-total, IsUnique, put-IsUnique,
  pop-IsUnique, Bool-cases, inl, inr, ltb, string_key, String_discrete, or_default, ◌==◌,
  if◌then◌else◌, ite, arith,
}
use pyqt_lsf_job_manager.States.{value, JobRecord}
use pyqt_lsf_job_manager.Store.Records.{increment, decrement}

-- 1 for a record in the state that the key names, 0 for any other.
abbrev pub at_key : String → JobRecord → ℕ
at_key key r = ite (String_discrete (value r.state) key) 1 0

-- The entry for a count: none for 0.
abbrev pub entry : ℕ → Option ℕ
entry n = if n == 0 then none else some n

-- The dict of counts says what the function says.
abbrev pub Reads : Dict String ℕ → (String → ℕ) → Type 0
Reads counts f = (key : String) → get key counts ≡ entry (f key)

-- How many of the records are in the state that the key names.
abbrev pub tally : Dict String JobRecord → String → ℕ
tally jobs key = total (at_key key) jobs

abbrev pub uncounted : Option JobRecord → Dict String ℕ → Dict String ℕ
uncounted none counts = counts
uncounted (some old) counts = decrement (value old.state) counts

pub increment-Reads :
    (k : String) (c : Dict String ℕ) (f g : String → ℕ)
    → Reads c f
    → ((j : String) → g j ≡ f j + ite (String_discrete k j) 1 0)
    → Reads (increment k c) g
unfolding increment
increment-Reads k c f g h e j =
    ground (arith, get-put k (or_default 0 (get k c) + 1) c j, h j, h k, e j)

pub decrement-Reads :
    (k : String) (c : Dict String ℕ) (f g : String → ℕ)
    → Reads c f
    → ((j : String) → g j + ite (String_discrete k j) 1 0 ≡ f j)
    → Reads (decrement k c) g
unfolding decrement
decrement-Reads k c f g h e j =
    ground (arith, get-put k (or_default 0 (get k c) - 1) c j, get-pop k c j, h j, h k, e j)

-- Without the record under the key, if there is one.
tally_without : Option JobRecord → Dict String JobRecord → String → ℕ
tally_without old jobs key = tally jobs key - weight (at_key key) old

uncounted-Reads :
    (jobs : Dict String JobRecord) (counts : Dict String ℕ) (job_key : String)
    → Reads counts (tally jobs)
    → (old : Option JobRecord) → get job_key jobs ≡ old
    → Reads (uncounted old counts) (tally_without old jobs)
unfolding tally_without
uncounted-Reads jobs counts job_key h none e = λ j. h j ∙ ap entry (omega arith)
uncounted-Reads jobs counts job_key h (some old) e =
    decrement-Reads (value old.state) counts (tally jobs) _ h
      λ j. ground (arith, weight-le-total (at_key j) job_key jobs)

-- The counts after a write of a record: the old one is taken off, the new one added.
pub increment-tally :
    (jobs : Dict String JobRecord) (counts : Dict String ℕ) (r : JobRecord)
    → Reads counts (tally jobs)
    → Reads
        (increment (value r.state) (uncounted (get r.job_key jobs) counts))
        (tally (put r.job_key r jobs))
unfolding tally_without
increment-tally jobs counts r h =
    increment-Reads (value r.state) _ (tally_without (get r.job_key jobs) jobs) _
      (uncounted-Reads jobs counts r.job_key h (get r.job_key jobs) refl)
      λ j.
        omega
          (arith, total-put (at_key j) r.job_key r jobs, weight-le-total (at_key j) r.job_key jobs)

-- The counts after the removal of a record.
pub decrement-tally :
    (jobs : Dict String JobRecord) (counts : Dict String ℕ) (job_key : String)
    → IsUnique jobs
    → Reads counts (tally jobs)
    → Reads (uncounted (get job_key jobs) counts) (tally (pop job_key jobs))
unfolding tally_without
decrement-tally jobs counts job_key u h j =
    uncounted-Reads jobs counts job_key h (get job_key jobs) refl j
    ∙ ap entry (omega (arith, total-pop (at_key j) job_key jobs u))

-- The counts of a dict, added up.
abbrev pub sum_counts : Dict String ℕ → ℕ
sum_counts = total (λ n. n)

-- How many records a dict holds.
abbrev pub size : Dict String JobRecord → ℕ
size = total (λ _. 1)

pub increment-sum : (k : String) (c : Dict String ℕ) → sum_counts (increment k c) ≡ sum_counts c + 1
unfolding increment
increment-sum k c = ground (arith, total-put (λ n. n) k (or_default 0 (get k c) + 1) c)

decrement-sum :
    (k : String) (c : Dict String ℕ)
    → IsUnique c
    → 0 < or_default 0 (get k c)
    → sum_counts (decrement k c) + 1 ≡ sum_counts c
unfolding decrement
decrement-sum k c u h =
    ground (arith, total-put (λ n. n) k (or_default 0 (get k c) - 1) c, total-pop (λ n. n) k c u)

pub increment-IsUnique : (k : String) (c : Dict String ℕ) → IsUnique c → IsUnique (increment k c)
unfolding increment
increment-IsUnique k c u = put-IsUnique k _ c u

decrement-IsUnique : (k : String) (c : Dict String ℕ) → IsUnique c → IsUnique (decrement k c)
unfolding decrement
decrement-IsUnique k c u = elim (Bool-cases (ltb 0 (or_default 0 (get k c) - 1))) [
  | inl e ↦ rw e (put-IsUnique k _ c u)
  | inr e ↦ rw e (pop-IsUnique k c u)
]

pub uncounted-IsUnique :
    (old : Option JobRecord) (c : Dict String ℕ) → IsUnique c → IsUnique (uncounted old c)
uncounted-IsUnique none c u = u
uncounted-IsUnique (some old) c u = decrement-IsUnique (value old.state) c u

-- A record that is there is counted at least once.
counted-pos :
    (jobs : Dict String JobRecord) (c : Dict String ℕ) (job_key : String) (old : JobRecord)
    → Reads c (tally jobs)
    → get job_key jobs ≡ some old
    → 0 < or_default 0 (get (value old.state) c)
counted-pos jobs c job_key old h e =
    ground (arith, h (value old.state), weight-le-total (at_key (value old.state)) job_key jobs)

uncounted-sum :
    (jobs : Dict String JobRecord) (c : Dict String ℕ) (job_key : String)
    → Reads c (tally jobs)
    → IsUnique c
    → (old : Option JobRecord) → get job_key jobs ≡ old
    → sum_counts (uncounted old c) + weight (λ _. 1) old ≡ sum_counts c
uncounted-sum jobs c job_key h u none e = omega arith
uncounted-sum jobs c job_key h u (some old) e =
    decrement-sum (value old.state) c u (counted-pos jobs c job_key old h e)

pub increment-size :
    (jobs : Dict String JobRecord) (c : Dict String ℕ) (r : JobRecord)
    → Reads c (tally jobs)
    → IsUnique c
    → sum_counts c ≡ size jobs
    → sum_counts (increment (value r.state) (uncounted (get r.job_key jobs) c))
      ≡ size (put r.job_key r jobs)
increment-size jobs c r h u e = omega (
  arith,
  increment-sum (value r.state) (uncounted (get r.job_key jobs) c),
  uncounted-sum jobs c r.job_key h u (get r.job_key jobs) refl,
  total-put (λ (_ : JobRecord). 1) r.job_key r jobs,
)

pub decrement-size :
    (jobs : Dict String JobRecord) (c : Dict String ℕ) (job_key : String)
    → IsUnique jobs
    → Reads c (tally jobs)
    → IsUnique c
    → sum_counts c ≡ size jobs
    → sum_counts (uncounted (get job_key jobs) c) ≡ size (pop job_key jobs)
decrement-size jobs c job_key uj h u e = omega (
  arith,
  uncounted-sum jobs c job_key h u (get job_key jobs) refl,
  total-pop (λ (_ : JobRecord). 1) job_key jobs uj,
)
