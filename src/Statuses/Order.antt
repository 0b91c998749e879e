-- ===== src/Statuses/Order.antt =====
-- lsfmgr/internal_status.py, the loop of _merge_locked: what an answer makes of one entry.

use pyqt_lsf_job_manager.Base.{
  Bool, Dict, List, Option, [], ap, arith, false, get-put, if◌then◌else◌, index_discrete, index_key,
  ite, nat_key, none, put, refl, some, string_key, true, ℕ, ℕ_discrete, ◌<◌, ◌∙◌, ◌∷◌, ◌≡◌,
}
use pyqt_lsf_job_manager.Statuses.Ledger.{
  elements, entry_at, is_newer, is_tracked, merge_status, merge_statuses,
}
use pyqt_lsf_job_manager.States.{JobStatus, Time}
use pyqt_lsf_job_manager.Statuses.Source.{Elements, Entry}

abbrev pub entry_of : Time → ℕ → JobStatus → Entry
entry_of now fetched st = record { status = st; seen_at = now; fetched_at = fetched }

-- The status is of the job or the element.
abbrev pub is_of : ℕ → Option ℕ → JobStatus → Bool
is_of n i st = ite (ℕ_discrete st.job_id n) (ite (index_discrete st.array_index i) true false) false

-- The last status of an answer for a job or an element.
unfoldable pub last_of : ℕ → Option ℕ → List JobStatus → Option JobStatus
last_of n i [] = none
last_of n i (st ∷ sts) = elim (last_of n i sts) [
  | some later ↦ some later
  | none ↦ if is_of n i st then some st else none
]

-- The entry after an answer.
abbrev pub updated : Time → ℕ → Option JobStatus → Option Entry → Option Entry
updated now fetched none old = old
updated now fetched (some st) old =
    if is_newer old fetched then old else some (entry_of now fetched st)

elements-put :
    (n : ℕ) (es : Elements) (m : Dict ℕ Elements) (j : ℕ)
    → elements j (put n es m) ≡ ite (ℕ_discrete n j) es (elements j m)
elements-put n es m j = ground (arith, get-put n es m j)

merge_status-entry :
    (interest : List ℕ) (now : Time) (fetched : ℕ) (st : JobStatus) (m : Dict ℕ Elements) (n : ℕ)
    (i : Option ℕ)
    → is_tracked n interest ≡ true
    → entry_at n i (merge_status interest now fetched st m)
      ≡ updated now fetched (if is_of n i st then some st else none) (entry_at n i m)
unfolding merge_status
merge_status-entry interest now fetched st m n i h = ground (
  arith,
  h,
  ap (λ k. is_tracked k interest),
  elements-put st.job_id (elements st.job_id m) m n,
  elements-put st.job_id (put st.array_index (entry_of now fetched st) (elements st.job_id m)) m n,
  get-put st.array_index (entry_of now fetched st) (elements st.job_id m) i,
)

updated-updated :
    (now : Time) (fetched : ℕ) (st : JobStatus) (x : Option JobStatus) (old : Option Entry)
    → updated now fetched x (updated now fetched (some st) old)
      ≡ updated now fetched (elim x [ some later ↦ some later | none ↦ some st ]) old
updated-updated now fetched st none old = refl
updated-updated now fetched st (some y) none = ground arith
updated-updated now fetched st (some y) (some e) = ground arith

pub merge_statuses-entry :
    (interest : List ℕ) (now : Time) (fetched : ℕ) (sts : List JobStatus) (m : Dict ℕ Elements)
    (n : ℕ) (i : Option ℕ)
    → is_tracked n interest ≡ true
    → entry_at n i (merge_statuses interest now fetched sts m)
      ≡ updated now fetched (last_of n i sts) (entry_at n i m)
unfolding merge_statuses last_of
merge_statuses-entry interest now fetched [] m n i h = refl
merge_statuses-entry interest now fetched (st ∷ sts) m n i h =
    let m' = merge_status interest now fetched st m in
    merge_statuses-entry interest now fetched sts m' n i h
    ∙ ap (updated now fetched (last_of n i sts))
        (merge_status-entry interest now fetched st m n i h)
    ∙ joined (is_of n i st) (last_of n i sts)
  where
    joined :
        (b : Bool) (x : Option JobStatus)
        → updated now fetched x (updated now fetched (if b then some st else none) (entry_at n i m))
          ≡ updated now fetched
              (elim x [ some later ↦ some later | none ↦ if b then some st else none ])
              (entry_at n i m)
    joined true x = updated-updated now fetched st x (entry_at n i m)
    joined false none = refl
    joined false (some y) = refl

pub merge_statuses-untracked :
    (interest : List ℕ) (now : Time) (fetched : ℕ) (sts : List JobStatus) (m : Dict ℕ Elements)
    (n : ℕ) (i : Option ℕ)
    → is_tracked n interest ≡ false
    → entry_at n i (merge_statuses interest now fetched sts m) ≡ entry_at n i m
unfolding merge_statuses merge_status
merge_statuses-untracked interest now fetched [] m n i h = refl
merge_statuses-untracked interest now fetched (st ∷ sts) m n i h =
    merge_statuses-untracked interest now fetched sts (merge_status interest now fetched st m) n i h
    ∙ ground (
      arith,
      h,
      ap (λ k. is_tracked k interest),
      elements-put st.job_id (elements st.job_id m) m n,
      elements-put st.job_id (put st.array_index (entry_of now fetched st) (elements st.job_id m)) m
          n,
    )

pub updated_swap :
    (now now' : Time) (f f' : ℕ) (x x' : Option JobStatus) (old : Option Entry)
    → f < f'
    → updated now' f' x' (updated now f x old) ≡ updated now f x (updated now' f' x' old)
updated_swap now now' f f' none x' old l = refl
updated_swap now now' f f' (some st) none old l = refl
updated_swap now now' f f' (some st) (some st') none l = ground arith
updated_swap now now' f f' (some st) (some st') (some e) l = ground arith
