-- ===== src/Statuses/Elapsed.antt =====
-- lsfmgr/internal_status.py, _refresh_runtimes_locked: an entry but for its elapsed time.
use pyqt_lsf_job_manager.Base.{
  Dict, List, Option, [], ap, get, if_ind, if◌then◌else◌, index_discrete, index_key, ite_ind₂,
  nat_key, none, or_default, refl, same_nat, same_option, some, string_key, ℕ, ℕ_discrete, ◌∷◌, ◌≡◌,
}
use pyqt_lsf_job_manager.Statuses.Ledger.{
  elapsed, entry_at, is_fresh, refresh_elements, refresh_runtimes, refreshed, with_run_time,
}
use pyqt_lsf_job_manager.States.{JobStatus, Time, is_on_lsf}
use pyqt_lsf_job_manager.Statuses.Source.{Elements, Entry}

-- An entry but for the elapsed time, which is reckoned anew at each merge.
abbrev pub bare : Entry → Entry
bare e = record e { status = record e.status { run_time_s = none } }

abbrev pub bare_of : Option Entry → Option Entry
bare_of none = none
bare_of (some e) = some (bare e)

pub with_run_time-bare : (secs : Option ℕ) (e : Entry) → bare (with_run_time secs e) ≡ bare e
with_run_time-bare none e = refl
with_run_time-bare (some secs) e =
    if_ind (λ x. bare x ≡ bare e) (same_option same_nat (some secs) e.status.run_time_s) (λ _. refl)
      (λ _. refl)

pub refreshed-bare : (now : Time) (e : Entry) → bare (refreshed now e) ≡ bare e
refreshed-bare now e = started e.status.start_time
  where
    started :
        (o : Option Time)
        → bare (elim o [
          | none ↦ e
          | some start ↦ if is_on_lsf e.status.state then with_run_time (elapsed now start) e else e
        ])
          ≡ bare e
    started none = refl
    started (some start) =
        if_ind (λ x. bare x ≡ bare e) (is_on_lsf e.status.state)
          (λ _. with_run_time-bare (elapsed now start) e) (λ _. refl)

pub refresh_elements-bare :
    (now : Time) (sts : List JobStatus) (n : ℕ) (es : Elements) (i : Option ℕ)
    → bare_of (get i (refresh_elements now sts n es)) ≡ bare_of (get i es)
unfolding get
refresh_elements-bare now sts n [] i = refl
refresh_elements-bare now sts n ((j, e) ∷ es) i =
    ite_ind₂ (λ x y. bare_of x ≡ bare_of y) (index_discrete j i)
      (λ _.
        if_ind (λ x. ◌≡◌ {A = Option Entry} (some (bare x)) (some (bare e))) (is_fresh n j sts)
          (λ _. refl) (λ _. ap some (refreshed-bare now e)))
      (λ _. refresh_elements-bare now sts n es i)

pub refresh_runtimes-bare :
    (now : Time) (sts : List JobStatus) (m : Dict ℕ Elements) (n : ℕ) (i : Option ℕ)
    → bare_of (entry_at n i (refresh_runtimes now sts m)) ≡ bare_of (entry_at n i m)
unfolding refresh_runtimes get
refresh_runtimes-bare now sts [] n i = refl
refresh_runtimes-bare now sts ((k, es) ∷ m) n i =
    ite_ind₂ (λ x y. bare_of (get i (or_default [] x)) ≡ bare_of (get i (or_default [] y)))
      (ℕ_discrete k n) (λ _. refresh_elements-bare now sts k es i)
      (λ _. refresh_runtimes-bare now sts m n i)
