-- ===== src/Polling/Guarded.antt =====
-- A query and the jobs that change while it waits, and the queries in a row that miss a job
-- (lsfmgr/monitor.py).
use pyqt_lsf_job_manager.States.Laws.{same_text_refl}
use pyqt_lsf_job_manager.Store.Memory.{get_jobset}
use pyqt_lsf_job_manager.Store.Invariant.{>>=-Keeps, >>=-Keeps, Keeps-Reading, Reading}
use pyqt_lsf_job_manager.Base.{
  All, Bool, List, Option, Option-cases, String, [], any, ap, arith, false, get, if◌then◌else◌, inl,
  inr, ltb, max, none, put, refl, some, string_key, suc, sym, true, zero, ℕ, ◌++◌, ◌∙◌, ◌∷◌, ◌≡◌,
}
use pyqt_lsf_job_manager.States.{JobRecord, JobStatus, Time}
use pyqt_lsf_job_manager.Store.Effects.{Store}
use pyqt_lsf_job_manager.Store.Fields.{Field, is_key_field}
use pyqt_lsf_job_manager.Store.Update.{Spec, summary, transition_many}
use pyqt_lsf_job_manager.Store.Consistent.{IsConsistent}
use pyqt_lsf_job_manager.Store.Writes.{record_at}
use pyqt_lsf_job_manager.Store.Untouched.{Spares, Stands, transition_many-Stands}
use pyqt_lsf_job_manager.Polling.Merge.{
  cluster_fields, is_changed, keep, merge_fields, within_submit_grace,
}
use pyqt_lsf_job_manager.Polling.Cycle.{
  Answer, Settings, Streaks, Verdict, conclude, counted, deferred, judge, judge_all, latest, lookup,
  match_targets, next_count, spec_of, unchanged, update_spec, waiting, young,
}

module _ (key : String) (cur : JobRecord) where
  -- The snapshots of the key are no longer what the record is.
  abbrev pub IsOutdated : List JobRecord → Type 0
  IsOutdated = All (λ r. r.job_key ≡ key → unchanged r cur ≡ false)

  All-append :
      (a b : List Spec)
      → All (Spares key cur) a
      → All (Spares key cur) b
      → All (Spares key cur) (a ++ b)
  All-append [] b h k = k
  All-append (x ∷ a) b (p, h) k = (p, All-append a b h k)

  cluster_fields-is_key_field :
      (collect : Bool) (r : JobRecord) (st : JobStatus) (fs : List Field)
      → any is_key_field fs ≡ false
      → any is_key_field (cluster_fields collect r st ++ fs) ≡ false
  cluster_fields-is_key_field true r st fs h = h
  cluster_fields-is_key_field false r st fs h = h

  abbrev any_key : Option (List Field) → Bool
  any_key none = false
  any_key (some fs) = any is_key_field fs

  any_key-if :
      (b : Bool) (fs : List Field)
      → any is_key_field fs ≡ false
      → any_key (if b then some fs else none) ≡ false
  any_key-if true fs h = h
  any_key-if false fs h = refl

  merge_fields-is_key_field :
      (runtime collect : Bool) (r : JobRecord) (st : JobStatus) (fields : List Field)
      → merge_fields runtime collect r st ≡ some fields
      → any is_key_field fields ≡ false
  unfolding merge_fields
  merge_fields-is_key_field runtime collect r st fields e =
      sym (ap any_key e)
      ∙ any_key-if (is_changed runtime collect r st)
          (Field.exit_code st.exit_code
              ∷ Field.run_time_s (keep st.run_time_s r.run_time_s)
              ∷ Field.start_time (keep st.start_time r.start_time)
              ∷ Field.finish_time (keep st.finish_time r.finish_time)
              ∷ cluster_fields collect r st
            ++ Field.job_id (keep r.job_id (some st.job_id)) ∷ [])
          (cluster_fields-is_key_field collect r st
            (Field.job_id (keep r.job_id (some st.job_id)) ∷ []) refl)

  update_spec-Spares :
      (c : Settings) (r : JobRecord) (st : JobStatus)
      → (r.job_key ≡ key → unchanged r cur ≡ false)
      → All (Spares key cur) (update_spec c r st)
  update_spec-Spares c r st h =
      elim (Option-cases (merge_fields c.runtime_updates c.collect_clusters r st)) [
        | inl e ↦ rw (e, All) tt
        | inr (fields, e) ↦
            rw (e, All)
              (
                (merge_fields-is_key_field c.runtime_updates c.collect_clusters r st fields e, h),
                tt,
              )
      ]

  match_targets-Spares :
      (c : Settings) (sts : List JobStatus) (rs : List JobRecord)
      → IsOutdated rs
      → let (specs, missing) = match_targets c sts rs in
        All (Spares key cur) specs × IsOutdated missing
  unfolding match_targets
  match_targets-Spares c sts [] h = (tt, tt)
  match_targets-Spares c sts (r ∷ rs) (p, h) = elim (Option-cases (lookup sts r)) [
    | inl e ↦ let (a, b) = match_targets-Spares c sts rs h in rw (e, All) (a, (p, b))
    | inr (st, e) ↦
        let (a, b) = match_targets-Spares c sts rs h in
        rw (e, All) (All-append (update_spec c r st) _ (update_spec-Spares c r st p) a, b)
  ]

  spec_of-Spares :
      (r : JobRecord) (v : Verdict)
      → (r.job_key ≡ key → unchanged r cur ≡ false)
      → All (Spares key cur) (spec_of r v)
  spec_of-Spares r (Verdict.lost n) h = ((refl, h), tt)
  spec_of-Spares r deferred h = tt
  spec_of-Spares r young h = tt
  spec_of-Spares r (waiting n) h = tt

  judge_all-Spares :
      (c : Settings) (now : Time) (failed : List ℕ) (prev streaks : Streaks) (rs : List JobRecord)
      → IsOutdated rs
      → All (Spares key cur) (judge_all c now failed prev streaks rs).0
  unfolding judge_all
  judge_all-Spares c now failed prev streaks [] h = tt
  judge_all-Spares c now failed prev streaks (r ∷ rs) (p, h) =
      let v = judge c now failed prev r in
      All-append (spec_of r v) _ (spec_of-Spares r v p)
        (judge_all-Spares c now failed prev (counted r v streaks) rs h)

summary-Reading : (id : String) → Reading (summary id)
unfolding summary get_jobset
summary-Reading id s = ground arith

-- What a query concludes from the answer, in a consistent store: the record under a key is left as it
-- is, if no snapshot that the query took of the key is what the record now is (the same execution with
-- the same id and state). So a job that was resubmitted, or whose id or state changed, while the
-- status source was asked is neither overwritten nor told lost.
pub conclude-spares :
    (id key : String) (c : Settings) (now : Time) (targets : List JobRecord) (a : Answer)
    (prev : Streaks) (s : Store) (cur : JobRecord)
    → IsConsistent s
    → record_at id key s ≡ some cur
    → IsOutdated key cur targets
    → record_at id key (conclude id c now targets a prev s).0.1 ≡ some cur
unfolding conclude
conclude-spares id key c now targets a prev s cur k e h =
    let sts = latest [] a.statuses in
    let (specs, missing) = match_targets c sts targets in
    let (hs, hm) = match_targets-Spares key cur c sts targets h in
    let hl = judge_all-Spares key cur c now a.failed prev [] missing hm in
    (>>=-Keeps (Stands id key cur) (transition_many id specs now) _
      (transition_many-Stands id key specs now cur hs)
      (λ changed.
        >>=-Keeps (Stands id key cur)
          (transition_many id (judge_all c now a.failed prev [] missing).0 now) _
          (transition_many-Stands id key (judge_all c now a.failed prev [] missing).0 now cur hl)
          (λ lost_now.
            >>=-Keeps (Stands id key cur) (summary id) _
              (Keeps-Reading (Stands id key cur) (summary id) (summary-Reading id)) (λ sm t q. q)))
      s (k, e)).1

-- The streaks after a number of queries in a row that miss the record, at the given times.
unfoldable pub streaks_after : Settings → (ℕ → Time) → JobRecord → ℕ → Streaks
streaks_after c now r zero = []
streaks_after c now r (suc k) = (judge_all c (now k) [] (streaks_after c now r k) [] (r ∷ [])).1

next_count-streaks_after :
    (c : Settings) (now : ℕ → Time) (r : JobRecord) (n : ℕ)
    → r.job_id ≡ some n
    → ((k : ℕ) → within_submit_grace r (now k) c.submit_grace ≡ false)
    → (k : ℕ) → next_count (streaks_after c now r k) r ≡ suc k
unfolding judge streaks_after judge_all get put
next_count-streaks_after c now r n e g zero = refl
next_count-streaks_after c now r n e g (suc k) =
    ground (arith, g k, next_count-streaks_after c now r n e g k, same_text_refl r.generation)

-- A job with an id that the answers of query after query do not know, its submission being no longer
-- young: the query after `k` such ones counts it as `k + 1`, and it is told lost exactly if that is at
-- least the number of the settings, which is taken as 1 if it is 0.
pub judge-streaks_after :
    (c : Settings) (now : ℕ → Time) (r : JobRecord) (n : ℕ)
    → r.job_id ≡ some n
    → ((k : ℕ) → within_submit_grace r (now k) c.submit_grace ≡ false)
    → (k : ℕ)
    → judge c (now k) [] (streaks_after c now r k) r ≡ (
        if ltb (suc k) (max 1 c.lost_after_missing_polls)
        then waiting (suc k)
        else Verdict.lost (suc k))
unfolding judge
judge-streaks_after c now r n e g k = ground (arith, g k, next_count-streaks_after c now r n e g k)
