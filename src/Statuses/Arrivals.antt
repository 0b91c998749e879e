-- ===== src/Statuses/Arrivals.antt =====
-- lsfmgr/internal_status.py, _merge_locked: the order in which answers arrive.
use pyqt_lsf_job_manager.Base.{Bool, List, Option, false, index_key, nat_key, string_key, true, ℕ}
use pyqt_lsf_job_manager.States.{JobStatus, Time}
use pyqt_lsf_job_manager.Statuses.Source.{Entry, Source}
use pyqt_lsf_job_manager.Statuses.Order.{last_of, updated}

module _ (n : ℕ) (i : Option ℕ) where
  -- What an answer makes of the entry, but for elapsed times.
  abbrev took : Bool → Time → ℕ → List JobStatus → Option Entry → Option Entry
  took false now fetched sts old = old
  took true now fetched sts old = updated now fetched (last_of n i sts) old
