-- ===== src/JobSets/Rewrites.antt =====
-- The writes of a plan of an edit, one after the other (lsfmgr/jobset_core.py, local_edit_jobs).
use pyqt_lsf_job_manager.Base.{
  All, Bool-cases, Dict, List, Option, Option-cases, String, [], ap, arith, false, get, inl, inr,
  is_some, map, none, refl, some, string_key, subst, sym, true, ◌&&◌, ◌∙◌, ◌∷◌, ◌≡◌, ◌⊎◌,
}
use pyqt_lsf_job_manager.States.{JobRecord, JobSetRecord, Time, same_text}
use pyqt_lsf_job_manager.States.Laws.{same_text_iff, same_text_refl}
use pyqt_lsf_job_manager.Store.Fields.{replace}
use pyqt_lsf_job_manager.Store.Memory.{get_job, get_jobset, stamp_updated, store_add_job}
use pyqt_lsf_job_manager.Store.Writes.{
  OnlyWrites, found_jobs, put_rec-eq, record_at, written-writes,
}
use pyqt_lsf_job_manager.JobSets.Manager.{record_keys, write_one, write_plan}
use pyqt_lsf_job_manager.JobSets.Choices.{is_member}
use mathlib.Core.Path.{ap₂, subst₂}
use pyqt_lsf_job_manager.Store.Effects.{Store, ok}
use pyqt_lsf_job_manager.Store.Update.{next_record, replace_rec, update_job}
use pyqt_lsf_job_manager.Store.Consistent.{
  IsConsistent, uncount-jobs, written, written-IsConsistent,
}
use pyqt_lsf_job_manager.Store.Atomic.{present_jobs, stamp_updated-keys}
use pyqt_lsf_job_manager.JobSets.Plans.{IsBatch, paired}

-- What one write of the plan did.
record IsWritten (id key : String) (s : Store) (x : JobRecord) (t : Store) : Type 0 where
  consistent : IsConsistent t
  jobsets : t.jobsets ≡ s.jobsets
  only : OnlyWrites id key x s t
  keeps : x.job_key ≡ key

written-IsWritten :
    (x : JobRecord) (jobs : Dict String JobRecord) (s : Store)
    (e : get x.jobset_id s.jobs ≡ some jobs)
    → IsConsistent s
    → IsWritten x.jobset_id x.job_key s x (written x jobs s e)
written-IsWritten x jobs s e c = record {
  consistent = written-IsConsistent x jobs s e c;
  jobsets = (uncount-jobs x.jobset_id (get x.job_key jobs) s).1;
  only = written-writes x jobs s e;
  keeps = refl;
}

add_one :
    (r : JobRecord) (now : Time) (s : Store) (js : JobSetRecord)
    → IsConsistent s
    → get r.jobset_id s.jobsets ≡ some js
    → record_at r.jobset_id r.job_key s ≡ none
    → (t : Store) × (store_add_job r now s ≡ (ok (stamp_updated r now), t))
      × IsWritten r.jobset_id r.job_key s (stamp_updated r now) t
unfolding store_add_job get_jobset
add_one r now s js c e n =
    let x = stamp_updated r now in
    let (jobs, e') = present_jobs r now s (c.present r.jobset_id (ground arith)) in
    let (ki, kk) = stamp_updated-keys r now in
    (
      written x jobs s e',
      ground (arith, put_rec-eq x jobs s e', ap (λ i. get i s.jobs) ki),
      subst₂ (λ a b. IsWritten a b s x (written x jobs s e')) ki kk
          (written-IsWritten x jobs s e' c),
    )

update_one :
    (r old : JobRecord) (now : Time) (s : Store)
    → IsConsistent s
    → record_at r.jobset_id r.job_key s ≡ some old
    → let x = next_record r old.revision now r.state [] in
      (t : Store) × (update_job r now s ≡ (ok x, t)) × IsWritten r.jobset_id r.job_key s x t
unfolding update_job get_job replace_rec replace
update_one r old now s c h =
    let x = next_record r old.revision now r.state [] in
    let (jobs, ej, er) = found_jobs r.jobset_id r.job_key s h in
    (written x jobs s ej, ground (arith, put_rec-eq x jobs s ej), written-IsWritten x jobs s ej c)

-- What the record of a batch becomes, from the one that stood under its key.
abbrev pub version : Time → JobRecord → Option JobRecord → JobRecord
version now r none = stamp_updated r now
version now r (some old) = next_record r old.revision now r.state []

abbrev pub version_at : String → Time → Store → JobRecord → JobRecord
version_at id now s r = version now r (record_at id r.job_key s)

write_one-IsWritten :
    (r : JobRecord) (o : Option JobRecord) (now : Time) (s : Store) (js : JobSetRecord)
    → IsConsistent s
    → get r.jobset_id s.jobsets ≡ some js
    → is_some o ≡ is_some (record_at r.jobset_id r.job_key s)
    → let x = version_at r.jobset_id now s r in
      (t : Store) × (write_one (r, o) now s ≡ (ok x, t)) × IsWritten r.jobset_id r.job_key s x t
write_one-IsWritten r o now s js c e p = elim (Option-cases (record_at r.jobset_id r.job_key s)) [
  | inl h ↦ elim (Option-cases o) [
    | inl q ↦ rw h (rw q (add_one r now s js c e h))
    | inr (old, q) ↦ absurd (ground arith)
  ]
  | inr (old, h) ↦ elim (Option-cases o) [
    | inl q ↦ absurd (ground arith)
    | inr (old', q) ↦ rw h (rw q (update_one r old now s c h))
  ]
]

-- A key of the batch is none of those seen before it.
unseen :
    (id : String) (seen : List String) (rs : List JobRecord) (k : String)
    → IsBatch id seen rs
    → is_member k (record_keys rs) ≡ true
    → is_member k seen ≡ false
unseen id seen [] k h m = cc
unseen id seen (r ∷ rs) k (_, f, h) m =
    ground (arith, unseen id (r.job_key ∷ seen) rs k h, f, (same_text_iff k r.job_key).0)

-- Where the batch has no record, there is what was there before.
abbrev pub LeavesOthers : String → List JobRecord → Store → Store → Type 0
LeavesOthers id rs s t =
    (i k : String)
    → ((same_text i id && is_member k (record_keys rs)) ≡ true)
      ⊎ (record_at i k t ≡ record_at i k s)

others-step :
    (id : String) (r : JobRecord) (rs : List JobRecord) (s u t : Store) (x : JobRecord)
    → OnlyWrites id r.job_key x s u
    → LeavesOthers id rs u t
    → LeavesOthers id (r ∷ rs) s t
others-step id r rs s u t x w h i k = elim (Bool-cases (same_text i id && same_text k r.job_key)) [
  | inl e ↦ inl (ground (arith, e))
  | inr e ↦ elim (h i k) [
    | inl m ↦ inl (ground (arith, m))
    | inr q ↦
        let kept : record_at i k u ≡ record_at i k s =
          w i k ∙ ground (arith, e, (same_text_iff i id).1, (same_text_iff k r.job_key).1) in
        inr (q ∙ kept)
  ]
]

-- The records of the batch as they are written over what the store has.
abbrev pub versions : String → Time → Store → List JobRecord → List JobRecord
versions id now s = map (version_at id now s)

versions-same :
    (id : String) (now : Time) (s u : Store) (rs : List JobRecord)
    → ((k : String) → is_member k (record_keys rs) ≡ true → record_at id k u ≡ record_at id k s)
    → versions id now u rs ≡ versions id now s rs
versions-same id now s u [] h = refl
versions-same id now s u (r ∷ rs) h =
    ap₂ (λ o l. version now r o ∷ l) (h r.job_key (ground (arith, same_text_refl r.job_key)))
      (versions-same id now s u rs (λ k m. h k (ground (arith, m))))

abbrev pub AreAt : String → Store → List JobRecord → Type 0
AreAt id t = All (λ x. record_at id x.job_key t ≡ some x)

pub write_plan-returns :
    (id : String) (seen : List String) (d : Dict String JobRecord) (rs : List JobRecord)
    (now : Time) (s : Store) (js : JobSetRecord)
    → IsConsistent s
    → get id s.jobsets ≡ some js
    → IsBatch id seen rs
    → ((k : String)
        → is_member k (record_keys rs) ≡ true
        → is_some (get k d) ≡ is_some (record_at id k s))
    → (t : Store) × (write_plan (paired d rs) now s ≡ (ok (versions id now s rs), t))
      × IsConsistent t
      × (t.jobsets ≡ s.jobsets)
      × (record_keys (versions id now s rs) ≡ record_keys rs)
      × AreAt id t (versions id now s rs)
      × LeavesOthers id rs s t
unfolding write_plan
write_plan-returns id seen d [] now s js c e b h = (s, refl, c, refl, refl, tt, λ i k. inr refl)
write_plan-returns id seen d (r ∷ rs) now s js c e (i, f, b) h =
    let x = version_at id now s r in
    let (u, p, w) : (u : Store) × (write_one (r, get r.job_key d) now s ≡ (ok x, u))
        × IsWritten id r.job_key s x u =
      subst
        (λ j.
          (u : Store) × (write_one (r, get r.job_key d) now s ≡ (ok (version_at j now s r), u))
          × IsWritten j r.job_key s (version_at j now s r) u)
        i
        (write_one-IsWritten r (get r.job_key d) now s js c (rw i e) (
          h r.job_key (ground (arith, same_text_refl r.job_key))
          ∙ ap (λ j. is_some (record_at j r.job_key s)) (sym i))) in
    let same : (k : String)
        → is_member k (record_keys rs) ≡ true
        → record_at id k u ≡ record_at id k s =
      λ k m.
        let n = unseen id (r.job_key ∷ seen) rs k b m in
        ground (arith, w.only id k, (same_text_iff k r.job_key).1) in
    let (t, q, c', j, ks, at, others) =
      write_plan-returns id (r.job_key ∷ seen) d rs now u js w.consistent
        (ap (get id) w.jobsets ∙ e) b
        (λ k m. h k (ground (arith, m)) ∙ ap is_some (sym (same k m))) in
    let v = versions-same id now s u rs same in
    (
      t,
      ground (arith, p, q, v),
      c',
      j ∙ w.jobsets,
      ap₂ (λ a l. a ∷ l) w.keeps (ap record_keys (sym v) ∙ ks),
      (ap (λ k. record_at id k t) w.keeps ∙ stays x u t w.only b others, subst (AreAt id t) v at),
      others-step id r rs s u t x w.only others,
    )
  where
    stays :
        (x : JobRecord) (u t : Store)
        → OnlyWrites id r.job_key x s u
        → IsBatch id (r.job_key ∷ seen) rs
        → LeavesOthers id rs u t
        → record_at id r.job_key t ≡ some x
    stays x u t w b others = elim (others id r.job_key) [
      | inl m ↦
          absurd (
            ground
              (arith, m, unseen id (r.job_key ∷ seen) rs r.job_key b, same_text_refl r.job_key))
      | inr q ↦ q ∙ w id r.job_key ∙ ground arith
    ]
