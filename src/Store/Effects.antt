-- ===== src/Store/Effects.antt =====
-- The result of a method of lsfmgr/store/memory.py: it returns or raises, and leaves a store. The
-- lock is held over a whole method, so that a method is one step. `now` is the value of
-- datetime.now(). The errors are those of lsfmgr/errors.py, with those that the layers over the
-- store raise.
use pyqt_lsf_job_manager.Base.{ℕ, String, Bool, true, false, Dict, List}
use pyqt_lsf_job_manager.States.{JobRecord, JobSetRecord}

-- What JobSetManager (lsfmgr/jobset_core.py) refuses.
pub data Refused : Type 0 where
  submit edit remove remove_jobset : Refused

pub data StoreError : Type 0 where
  not_allowed : Refused → String → List String → StoreError
  jobset_not_found : String → StoreError
  job_not_found : String → String → StoreError
  value_error : StoreError
  key_error : StoreError

pub data Result {ℓ} (A : Type ℓ) : Type ℓ where
  ok : A → Result A
  err : StoreError → Result A

pub record Store : Type 0 where
  pub jobsets : Dict String JobSetRecord
  pub jobs : Dict String (Dict String JobRecord)
  pub counts : Dict String (Dict String ℕ)

abbrev pub M : Type 0 → Type 0
M A = Store → Result A × Store

abbrev pub and_then : {A B : Type 0} → Result A → (A → M B) → M B
and_then (ok a) f s = f a s
and_then (err e) f s = (err e, s)

infixl 5 ◌>>=◌ ◌>>◌
abbrev pub ◌>>=◌ : {A B : Type 0} → M A → (A → M B) → M B
◌>>=◌ m f s = let (r, s') = m s in and_then r f s'

abbrev pub ◌>>◌ : {A B : Type 0} → M A → M B → M B
m >> k = m >>= λ _. k

abbrev pub pure : {A : Type 0} → A → M A
pure a s = (ok a, s)

abbrev pub raise : {A : Type 0} → StoreError → M A
raise e s = (err e, s)

-- `if not b: raise e`
abbrev pub require : Bool → StoreError → M (Unit {0})
require true e s = (ok tt, s)
require false e s = (err e, s)
