-- ===== src/Store/Invariant.antt =====
-- The methods of InMemoryStore (lsfmgr/store/memory.py) and the invariant of the store.
use pyqt_lsf_job_manager.Base.{
  String, ◌≡◌, refl, true, false, Bool, Option, some, List, [], ◌∷◌, get, has, string_key, arith,
  Option-cases, inl, inr, Bool-cases,
}
use pyqt_lsf_job_manager.States.{JobState, Time, JobRecord}
use pyqt_lsf_job_manager.Store.Effects.{
  Store, M, Result, ok, err, and_then, ◌>>=◌, ◌>>◌, pure, require,
}
use pyqt_lsf_job_manager.Store.Fields.{Field}
use pyqt_lsf_job_manager.Store.Records.{put_rec}
use pyqt_lsf_job_manager.Store.Memory.{
  jobs_of, index_jobs, drop_present, store_add_job, store_add_jobs, store_delete_job,
  store_delete_jobs, get_jobset, get_job, check_batch, put_all, stamp_updated, delete_present,
}
use pyqt_lsf_job_manager.Store.Update.{
  index_job, next_record, replace_rec, update_job, Guard, transition, Spec, transition_spec,
  transition_many_impl, transition_many, reject_all, passes, when_some,
}
use pyqt_lsf_job_manager.Store.Consistent.{IsConsistent, Keeps, put_rec-IsConsistent}
use pyqt_lsf_job_manager.Store.Removal.{drop_rec-IsConsistent}
use pyqt_lsf_job_manager.Store.Effects.{StoreError}

-- Rules for the composition of methods.
pub >>=-Keeps :
    {A B : Type 0} (P : Store → Type 0) (m : M A) (f : A → M B)
    → Keeps P m
    → ((a : A) → Keeps P (f a))
    → Keeps P (m >>= f)
>>=-Keeps {A} {B} P m f hm hf s p = go (m s).0 (m s).1 (hm s p)
  where
    go : (r : Result A) (t : Store) → P t → P (and_then r f t).1
    go (ok a) t q = hf a t q
    go (err e) t q = q

-- A method that only reads.
abbrev pub Reading : {A : Type 0} → M A → Type 0
Reading m = (s : Store) → (m s).1 ≡ s

pub get_jobset-Reading : (id : String) → Reading (get_jobset id)
unfolding get_jobset
get_jobset-Reading id s = ground arith

pub index_jobs-Reading : (id : String) → Reading (index_jobs id)
index_jobs-Reading id s = ground arith

get_job-Reading : (id key : String) → Reading (get_job id key)
unfolding get_job
get_job-Reading id key s = ground arith

pub Keeps-Reading : {A : Type 0} (P : Store → Type 0) (m : M A) → Reading m → Keeps P m
Keeps-Reading P m h s p = rw (h s) p

require-Keeps : (P : Store → Type 0) (b : Bool) (e : StoreError) → Keeps P (require b e)
require-Keeps P true e s p = p
require-Keeps P false e s p = p

abbrev pub C : {A : Type 0} → M A → Type 0
C m = Keeps IsConsistent m

-- Binds of a reading, and of a test.
pub Reading-Keeps :
    {A B : Type 0} (m : M A) (f : A → M B) → Reading m → ((a : A) → C (f a)) → C (m >>= f)
Reading-Keeps m f r h = >>=-Keeps IsConsistent m f (Keeps-Reading IsConsistent m r) h

pub test-Keeps : {B : Type 0} (b : Bool) (e : StoreError) (m : M B) → C m → C (require b e >> m)
test-Keeps b e m h =
    >>=-Keeps IsConsistent (require b e) (λ _. m) (require-Keeps IsConsistent b e) (λ _. h)

pub then_pure-Keeps : {A B : Type 0} (m : M A) (f : A → B) → C m → C (m >>= λ a. pure (f a))
then_pure-Keeps m f h = >>=-Keeps IsConsistent m _ h (λ a s c. c)

pub store_add_job-Keeps : (r : JobRecord) (now : Time) → C (store_add_job r now)
unfolding store_add_job
store_add_job-Keeps r now =
    Reading-Keeps (get_jobset r.jobset_id) _ (get_jobset-Reading r.jobset_id) λ _.
      Reading-Keeps (index_jobs r.jobset_id) _ (index_jobs-Reading r.jobset_id) λ jobs.
        test-Keeps _ _ _
          (then_pure-Keeps (put_rec (stamp_updated r now)) _ (put_rec-IsConsistent _))

check_batch-Reading : (seen rs : List JobRecord) → Reading (check_batch seen rs)
unfolding check_batch
check_batch-Reading seen [] s = refl
check_batch-Reading seen (r ∷ rs) s =
    ground (arith, get_jobset-Reading r.jobset_id s, check_batch-Reading (r ∷ seen) rs s)

put_all-Keeps : (rs : List JobRecord) (now : Time) → C (put_all rs now)
unfolding put_all
put_all-Keeps [] now = λ s c. c
put_all-Keeps (r ∷ rs) now =
    >>=-Keeps IsConsistent (put_rec (stamp_updated r now)) _ (put_rec-IsConsistent _)
      λ _. then_pure-Keeps (put_all rs now) _ (put_all-Keeps rs now)

pub store_add_jobs-Keeps : (rs : List JobRecord) (now : Time) → C (store_add_jobs rs now)
unfolding store_add_jobs
store_add_jobs-Keeps rs now =
    Reading-Keeps (check_batch [] rs) _ (check_batch-Reading [] rs) (λ _. put_all-Keeps rs now)

pub store_delete_job-Keeps : (id key : String) → C (store_delete_job id key)
unfolding store_delete_job
store_delete_job-Keeps id key s c = elim (Bool-cases (has key (jobs_of id s))) [
  | inl e ↦ rw e (drop_rec-IsConsistent id key s c)
  | inr e ↦ rw e c
]

drop_present-Keeps : (id key : String) → C (drop_present id key)
drop_present-Keeps id key s c = elim (Bool-cases (has key (jobs_of id s))) [
  | inl e ↦ rw e (drop_rec-IsConsistent id key s c)
  | inr e ↦ rw e c
]

delete_present-Keeps : (id : String) (ks : List String) → C (delete_present id ks)
unfolding delete_present
delete_present-Keeps id [] = λ s c. c
delete_present-Keeps id (k ∷ ks) =
    >>=-Keeps IsConsistent (drop_present id k) _ (drop_present-Keeps id k)
      λ _. then_pure-Keeps (delete_present id ks) _ (delete_present-Keeps id ks)

pub store_delete_jobs-Keeps : (id : String) (ks : List String) → C (store_delete_jobs id ks)
unfolding store_delete_jobs
store_delete_jobs-Keeps id ks s c = elim (Bool-cases (has id s.jobs)) [
  | inl e ↦ rw e (delete_present-Keeps id ks s c)
  | inr e ↦ rw e c
]

index_job-Reading : (id key : String) → Reading (index_job id key)
index_job-Reading id key s = ground arith

replace_rec-Keeps :
    (r : JobRecord) (now : Time) (st : JobState) (fs : List Field) → C (replace_rec r now st fs)
unfolding replace_rec
replace_rec-Keeps r now st fs =
    Reading-Keeps (index_job r.jobset_id r.job_key) _ (index_job-Reading r.jobset_id r.job_key)
      λ stored.
        then_pure-Keeps (put_rec (next_record r stored.revision now st fs)) _
          (put_rec-IsConsistent _)

pub update_job-Keeps : (r : JobRecord) (now : Time) → C (update_job r now)
unfolding update_job
update_job-Keeps r now =
    Reading-Keeps (get_job r.jobset_id r.job_key) _ (get_job-Reading r.jobset_id r.job_key)
      λ _. replace_rec-Keeps r now r.state []

when_some-Keeps : {A : Type 0} (b : Bool) (m : M A) → C m → C (when_some b m)
when_some-Keeps true m h = then_pure-Keeps m some h
when_some-Keeps false m h = λ s c. c

pub transition-Keeps :
    (id key : String) (st : Option JobState) (g : Guard) (fs : List Field) (now : Time)
    → C (transition id key st g fs now)
unfolding transition
transition-Keeps id key st g fs now = test-Keeps _ _ _ (
    Reading-Keeps (get_job id key) _ (get_job-Reading id key)
      λ old. when_some-Keeps (passes g old) _ (replace_rec-Keeps old now _ fs))

pub transition_spec-Keeps :
    (id : String) (now : Time) (spec : Spec) → C (transition_spec id now spec)
unfolding transition_spec
transition_spec-Keeps id now spec s c = elim (Option-cases (get spec.job_key (jobs_of id s))) [
  | inl e ↦ rw (e, transition_spec) c
  | inr (old, e) ↦
      rw (e, transition_spec)
        (when_some-Keeps (passes spec.guard old) _ (replace_rec-Keeps old now _ spec.fields) s c)
]

pub transition_many_impl-Keeps :
    (id : String) (specs : List Spec) (now : Time) → C (transition_many_impl id specs now)
unfolding transition_many_impl
transition_many_impl-Keeps id [] now = λ s c. c
transition_many_impl-Keeps id (spec ∷ specs) now =
    >>=-Keeps IsConsistent (transition_spec id now spec) _ (transition_spec-Keeps id now spec) λ _.
      then_pure-Keeps (transition_many_impl id specs now) _
        (transition_many_impl-Keeps id specs now)

reject_all-Keeps : (specs : List Spec) → C (reject_all specs)
reject_all-Keeps [] = λ s c. c
reject_all-Keeps (spec ∷ specs) = test-Keeps _ _ (reject_all specs) (reject_all-Keeps specs)

pub transition_many-Keeps :
    (id : String) (specs : List Spec) (now : Time) → C (transition_many id specs now)
unfolding transition_many
transition_many-Keeps id specs now =
    >>=-Keeps IsConsistent (reject_all specs) _ (reject_all-Keeps specs)
      λ _. transition_many_impl-Keeps id specs now
