-- ===== src/Store/Batch.antt =====
-- The batch methods of InMemoryStore, which take its lock once, beside the bodies of
-- lsfmgr/store/base.py, which make one call at a time.
use pyqt_lsf_job_manager.Base.{
  String, ◌≡◌, ◌⊎◌, ◌∙◌, refl, sym, ap, Bool, true, false, List, [], ◌∷◌, Dict, get, put, has, any,
  string_key, or_default, arith, Option-cases, Bool-cases, inl, inr, All,
}
use pyqt_lsf_job_manager.States.{JobState, JobRecord, Time}
use pyqt_lsf_job_manager.Store.Effects.{Store, Result, ok, err, key_error, M, and_then, ◌>>=◌}
use pyqt_lsf_job_manager.Store.Fields.{Field, is_key_field}
use pyqt_lsf_job_manager.Store.Records.{drop_rec, put_rec}
use pyqt_lsf_job_manager.Store.Memory.{
  jobs_of, store_delete_job, store_delete_jobs, delete_present, drop_present, get_job, pick_keys,
  get_jobs_by_keys,
}
use pyqt_lsf_job_manager.Store.Update.{
  Spec, transition, transition_spec, transition_many_impl, replace_rec, when_some, passes,
  transition_many, reject_all, next_record,
}
use pyqt_lsf_job_manager.Store.Defaults.{
  skip_missing, skip_missing_job, default_delete_jobs, default_transition_many_impl,
  default_get_jobs_by_keys,
}
use pyqt_lsf_job_manager.Store.Writes.{record_at}

and_then-cong :
    {A B : Type 0} (r : Result A) (f g : A → M B) (t : Store)
    → ((a : A) (u : Store) → f a u ≡ g a u)
    → and_then r f t ≡ and_then r g t
and_then-cong (ok a) f g t h = h a t
and_then-cong (err e) f g t h = refl

>>=-cong :
    {A B : Type 0} (m n : M A) (f g : A → M B) (s : Store)
    → m s ≡ n s
    → ((a : A) (u : Store) → f a u ≡ g a u)
    → (m >>= f) s ≡ (n >>= g) s
>>=-cong m n f g s e h = ap (λ p. and_then p.0 f p.1) e ∙ and_then-cong (n s).0 f g (n s).1 h

drop_present-skip :
    (id k : String) (s : Store) → skip_missing (store_delete_job id k) s ≡ drop_present id k s
unfolding store_delete_job drop_rec
drop_present-skip id k s = ground arith

put_rec-raises :
    (r : JobRecord) (s : Store) → ((put_rec r s).0 ≡ ok tt) ⊎ ((put_rec r s).0 ≡ err key_error)
unfolding put_rec
put_rec-raises r s = elim (Option-cases (get r.jobset_id s.jobs)) [
  | inl e ↦ inr (rw (e, put_rec))
  | inr (jobs, e) ↦ inl (rw (e, put_rec))
]

-- A write of a record never reports a missing one.
replace_rec-skip :
    (old : JobRecord) (now : Time) (st : JobState) (fs : List Field) (s : Store) (b : Bool)
    → skip_missing_job (when_some b (replace_rec old now st fs)) s
      ≡ when_some b (replace_rec old now st fs) s
unfolding replace_rec
replace_rec-skip old now st fs s false = refl
replace_rec-skip old now st fs s true = elim (Option-cases (get old.jobset_id s.jobs)) [
  | inl e ↦ ground arith
  | inr (jobs, e) ↦ elim (Option-cases (get old.job_key jobs)) [
    | inl e' ↦ ground arith
    | inr (r, e') ↦ ground (arith, put_rec-raises (next_record old r.revision now st fs) s)
  ]
]

transition-skip :
    (id : String) (now : Time) (spec : Spec) (s : Store)
    → any is_key_field spec.fields ≡ false
    → skip_missing_job (transition id spec.job_key spec.new_state spec.guard spec.fields now) s
      ≡ transition_spec id now spec s
unfolding transition transition_spec get_job
transition-skip id now spec s h = elim (Option-cases (record_at id spec.job_key s)) [
  | inl e ↦ ground arith
  | inr (old, e) ↦ ground (
    arith,
    replace_rec-skip old now (or_default old.state spec.new_state) spec.fields s
        (passes spec.guard old),
  )
]

-- No spec of the batch names a key among its fields.
abbrev pub NoKeys : List Spec → Type 0
NoKeys = All (λ spec. any is_key_field spec.fields ≡ false)

transition_many_impl-default :
    (id : String) (specs : List Spec) (now : Time) (s : Store)
    → NoKeys specs
    → transition_many_impl id specs now s ≡ default_transition_many_impl id specs now s
unfolding transition_many_impl default_transition_many_impl
transition_many_impl-default id [] now s h = refl
transition_many_impl-default id (spec ∷ specs) now s h =
    >>=-cong (transition_spec id now spec)
      (skip_missing_job (transition id spec.job_key spec.new_state spec.guard spec.fields now)) _ _
      s (sym (transition-skip id now spec s h.0))
      λ new t.
        >>=-cong (transition_many_impl id specs now) (default_transition_many_impl id specs now) _ _
          t (transition_many_impl-default id specs now t h.1) (λ _ _. refl)

reject_all-NoKeys : (specs : List Spec) (s : Store) → NoKeys specs → reject_all specs s ≡ (ok tt, s)
reject_all-NoKeys [] s h = refl
reject_all-NoKeys (spec ∷ specs) s h = rw h.0 (reject_all-NoKeys specs s h.1)

delete_present-default :
    (id : String) (ks : List String) (s : Store)
    → delete_present id ks s ≡ default_delete_jobs id ks s
unfolding delete_present default_delete_jobs
delete_present-default id [] s = refl
delete_present-default id (k ∷ ks) s =
    >>=-cong (drop_present id k) (skip_missing (store_delete_job id k)) _ _ s
      (sym (drop_present-skip id k s))
      λ old t.
        >>=-cong (delete_present id ks) (default_delete_jobs id ks) _ _ t
          (delete_present-default id ks t) (λ _ _. refl)

delete_present-absent :
    (id : String) (ks : List String) (s : Store)
    → has id s.jobs ≡ false
    → delete_present id ks s ≡ (ok [], s)
unfolding delete_present get
delete_present-absent id [] s h = refl
delete_present-absent id (k ∷ ks) s h = ground (arith, delete_present-absent id ks s h)

-- The batch of transitions under one lock does what one transition after the other does, passing over
-- the records that are missing and those that the guard refuses, where no spec changes a key.
pub transition_many-default :
    (id : String) (specs : List Spec) (now : Time) (s : Store)
    → NoKeys specs
    → transition_many id specs now s ≡ default_transition_many_impl id specs now s
unfolding transition_many
transition_many-default id specs now s h =
    ap (λ p. and_then p.0 (λ _. transition_many_impl id specs now) p.1)
      (reject_all-NoKeys specs s h)
    ∙ transition_many_impl-default id specs now s h

-- The batch of deletions under one lock does what one deletion after the other does.
pub store_delete_jobs-default :
    (id : String) (ks : List String) (s : Store)
    → store_delete_jobs id ks s ≡ default_delete_jobs id ks s
unfolding store_delete_jobs
store_delete_jobs-default id ks s = elim (Bool-cases (has id s.jobs)) [
  | inl e ↦ rw e (delete_present-default id ks s)
  | inr e ↦ rw e (sym (delete_present-absent id ks s e) ∙ delete_present-default id ks s)
]

pick_keys-default :
    (id : String) (ks : List String) (s : Store) (out : Dict String JobRecord)
    → pick_keys (jobs_of id s) out ks ≡ default_get_jobs_by_keys id ks s out
unfolding pick_keys default_get_jobs_by_keys get_job
pick_keys-default id [] s out = refl
pick_keys-default id (k ∷ ks) s out = elim (Option-cases (record_at id k s)) [
  | inl e ↦ ground (arith, pick_keys-default id ks s out)
  | inr (r, e) ↦ ground (arith, pick_keys-default id ks s (put k r out))
]

-- The batch read under one lock reads what one lookup after the other reads.
get_jobs_by_keys-default :
    (id : String) (ks : List String) (s : Store)
    → get_jobs_by_keys id ks s ≡ default_get_jobs_by_keys id ks s []
unfolding get_jobs_by_keys
get_jobs_by_keys-default id ks s = pick_keys-default id ks s []
