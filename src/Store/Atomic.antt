-- ===== src/Store/Atomic.antt =====
-- The batch insertion of lsfmgr/store/memory.py (store_add_jobs), on success and on an error.
use pyqt_lsf_job_manager.Base.{
  All, Bool, Bool-cases, Dict, List, Option, Option-cases, String, [], any, ap, arith, false, get,
  get-put, has, if◌then◌else◌, inl, inr, map, put, refl, some, string_key, true, ◌&&◌, ◌||◌, ◌∙◌,
  ◌∷◌, ◌≡◌, ◌≢◌, ◌⊎◌,
}
use pyqt_lsf_job_manager.States.{JobRecord, Time, same_text}
use pyqt_lsf_job_manager.States.Laws.{same_text_iff, same_text_refl}
use pyqt_lsf_job_manager.Store.Memory.{
  check_batch, get_jobset, is_seen, put_all, stamp_updated, store_add_jobs,
}
use pyqt_lsf_job_manager.Store.Writes.{OnlyWrites, put_rec-eq, record_at, written-writes}
use pyqt_lsf_job_manager.Store.Consistent.{IsConsistent, uncount-jobs, written}
use mathlib.Core.Path.{subst₂}
use pyqt_lsf_job_manager.Store.Effects.{
  Store, StoreError, err, jobset_not_found, key_error, ok, value_error,
}

-- The job sets of the batch have their dicts.
abbrev Present : List JobRecord → Store → Type 0
Present rs s = All (λ r. has r.jobset_id s.jobs ≡ true) rs

-- No record of the batch stands under the keys of another one or of one seen before.
abbrev pub AreDistinct : List JobRecord → List JobRecord → Type 0
AreDistinct seen [] = Unit
AreDistinct seen (r ∷ rs) = (is_seen r seen ≡ false) × AreDistinct (r ∷ seen) rs

check_batch_cases :
    (seen rs : List JobRecord) (s : Store)
    → IsConsistent s
    → ((check_batch seen rs s ≡ (ok tt, s)) × Present rs s × AreDistinct seen rs)
      ⊎ ((e : StoreError) × (check_batch seen rs s ≡ (err e, s)) × (e ≢ key_error))
unfolding check_batch get_jobset
check_batch_cases seen [] s c = inl (refl, tt, tt)
check_batch_cases seen (r ∷ rs) s c = elim (Option-cases (get r.jobset_id s.jobsets)) [
  | inl e ↦ inr (jobset_not_found r.jobset_id, ground arith, λ p. cc)
  | inr (js, e) ↦ elim (Option-cases (get r.jobset_id s.jobs)) [
    | inl e' ↦ absurd (ground (arith, c.present r.jobset_id))
    | inr (jobs, e') ↦ elim (Bool-cases (is_seen r seen || has r.job_key jobs)) [
      | inl b ↦ inr (value_error, ground arith, λ p. cc)
      | inr b ↦ elim (check_batch_cases (r ∷ seen) rs s c) [
        | inl (p, h, d) ↦ inl (ground arith, (ground arith, h), (ground arith, d))
        | inr (x, p, n) ↦ inr (x, ground arith, n)
      ]
    ]
  ]
]

written-present :
    (r : JobRecord) (jobs : Dict String JobRecord) (s : Store)
    (e : get r.jobset_id s.jobs ≡ some jobs) (id : String)
    → has id s.jobs ≡ true
    → has id (written r jobs s e).jobs ≡ true
written-present r jobs s e id h = ground (
  arith,
  uncount-jobs r.jobset_id (get r.job_key jobs) s,
  get-put r.jobset_id (put r.job_key r jobs) s.jobs id,
)

written-Present :
    (r : JobRecord) (jobs : Dict String JobRecord) (s : Store)
    (e : get r.jobset_id s.jobs ≡ some jobs) (rs : List JobRecord)
    → Present rs s
    → Present rs (written r jobs s e)
written-Present r jobs s e [] h = tt
written-Present r jobs s e (q ∷ rs) h =
    (written-present r jobs s e q.jobset_id h.0, written-Present r jobs s e rs h.1)

pub stamp_updated-keys :
    (r : JobRecord) (now : Time)
    → ((stamp_updated r now).jobset_id ≡ r.jobset_id) × ((stamp_updated r now).job_key ≡ r.job_key)
stamp_updated-keys r now = ground arith

pub present_jobs :
    (r : JobRecord) (now : Time) (s : Store)
    → has r.jobset_id s.jobs ≡ true
    → (jobs : Dict String JobRecord) × (get (stamp_updated r now).jobset_id s.jobs ≡ some jobs)
present_jobs r now s h = elim (Option-cases (get r.jobset_id s.jobs)) [
  | inl e ↦ absurd (ground arith)
  | inr (jobs, e) ↦ (jobs, rw (stamp_updated-keys r now).0 e)
]

-- The record stands under the keys.
abbrev pub is_at : String → String → JobRecord → Bool
is_at id key r = same_text r.jobset_id id && same_text r.job_key key

-- What stands under the keys after a batch is written over it.
abbrev overlaid : String → String → Time → List JobRecord → Option JobRecord → Option JobRecord
overlaid id key now [] o = o
overlaid id key now (r ∷ rs) o =
    overlaid id key now rs (if is_at id key r then some (stamp_updated r now) else o)

put_all-returns :
    (rs : List JobRecord) (now : Time) (s : Store)
    → Present rs s
    → (t : Store) × (put_all rs now s ≡ (ok (map (λ r. stamp_updated r now) rs), t))
      × ((id key : String) → record_at id key t ≡ overlaid id key now rs (record_at id key s))
unfolding put_all
put_all-returns [] now s h = (s, refl, λ id key. refl)
put_all-returns (r ∷ rs) now s h =
    let r' = stamp_updated r now in
    let (jobs, e) = present_jobs r now s h.0 in
    let (ki, kk) = stamp_updated-keys r now in
    let (t, p, o) =
      put_all-returns rs now (written r' jobs s e) (written-Present r' jobs s e rs h.1) in
    let w =
      subst₂ (λ a b. OnlyWrites a b r' s (written r' jobs s e)) ki kk
        (written-writes r' jobs s e) in
    (
      t,
      ground (arith, put_rec-eq r' jobs s e),
      λ id key.
          o id key
          ∙ ap (overlaid id key now rs) (
              w id key
              ∙ ground (
                arith,
                (same_text_iff r.jobset_id id).0,
                (same_text_iff r.jobset_id id).1,
                (same_text_iff r.job_key key).0,
                (same_text_iff r.job_key key).1,
              )),
    )

-- A batch with nothing under the keys leaves them.
overlaid-others :
    (id key : String) (now : Time) (rs : List JobRecord) (o : Option JobRecord)
    → any (is_at id key) rs ≡ false
    → overlaid id key now rs o ≡ o
overlaid-others id key now [] o h = refl
overlaid-others id key now (r ∷ rs) o h = ground (arith, overlaid-others id key now rs o, h)

seen-others :
    (r : JobRecord) (seen rs : List JobRecord)
    → AreDistinct seen rs
    → is_seen r seen ≡ true
    → any (is_at r.jobset_id r.job_key) rs ≡ false
seen-others r seen [] d h = refl
seen-others r seen (q ∷ rs) (n, d) h =
    ground (arith, seen-others r (q ∷ seen) rs d, is_seen-keys r q seen, h, n)
  where
    is_seen-keys :
        (r q : JobRecord) (seen : List JobRecord)
        → is_at r.jobset_id r.job_key q ≡ true
        → is_seen q seen ≡ is_seen r seen
    is_seen-keys r q seen e =
        let a = (same_text_iff q.jobset_id r.jobset_id).0 (ground (arith, e)) in
        let b = (same_text_iff q.job_key r.job_key).0 (ground (arith, e)) in
        ap (λ i. any (λ x. same_text x.jobset_id i && same_text x.job_key q.job_key) seen) a
        ∙ ap (λ k. any (λ x. same_text x.jobset_id r.jobset_id && same_text x.job_key k) seen) b

-- Each record of the batch stands, stamped, under its keys.
abbrev pub AreStored : Time → Store → List JobRecord → Type 0
AreStored now t = All (λ r. record_at r.jobset_id r.job_key t ≡ some (stamp_updated r now))

overlaid-AreStored :
    (now : Time) (t : Store) (seen rs : List JobRecord) (o : String → String → Option JobRecord)
    → AreDistinct seen rs
    → ((id key : String) → record_at id key t ≡ overlaid id key now rs (o id key))
    → AreStored now t rs
overlaid-AreStored now t seen [] o d h = tt
overlaid-AreStored now t seen (r ∷ rs) o (n, d) h = (
  h r.jobset_id r.job_key
      ∙ overlaid-others r.jobset_id r.job_key now rs _ (
          seen-others r (r ∷ seen) rs d
            (ground (arith, same_text_refl r.jobset_id, same_text_refl r.job_key)))
      ∙ ground (arith, same_text_refl r.jobset_id, same_text_refl r.job_key),
  overlaid-AreStored now t (r ∷ seen) rs
      (λ id key. if is_at id key r then some (stamp_updated r now) else o id key) d h,
)

-- What the insertion of a batch that returns did.
pub record IsInserted (now : Time) (rs : List JobRecord) (s t : Store) : Type 0 where
  pub stored : AreStored now t rs
  pub others :
      (id key : String) → (any (is_at id key) rs ≡ true) ⊎ (record_at id key t ≡ record_at id key s)

-- Inserting a batch into a consistent store either returns the records of the batch, stamped with the
-- time where they had none, and then each of them stands under its keys and what stands under any
-- other keys is as it was; or it raises an error that is no KeyError and leaves the store as it was.
pub store_add_jobs_atomic :
    (rs : List JobRecord) (now : Time) (s : Store)
    → IsConsistent s
    → ((t : Store) × (store_add_jobs rs now s ≡ (ok (map (λ r. stamp_updated r now) rs), t))
        × IsInserted now rs s t)
      ⊎ ((e : StoreError) × (store_add_jobs rs now s ≡ (err e, s)) × (e ≢ key_error))
unfolding store_add_jobs
store_add_jobs_atomic rs now s c = elim (check_batch_cases [] rs s c) [
  | inl (p, h, d) ↦
      let (t, q, o) = put_all-returns rs now s h in
      inl (
        t,
        ground arith,
        record {
          stored = overlaid-AreStored now t [] rs (λ id key. record_at id key s) d o;
          others = λ id key. elim (Bool-cases (any (is_at id key) rs)) [
            | inl b ↦ inl b
            | inr b ↦ inr (o id key ∙ overlaid-others id key now rs (record_at id key s) b)
          ];
        },
      )
  | inr (e, p, n) ↦ inr (e, ground arith, n)
]
