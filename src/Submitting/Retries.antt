-- ===== src/Submitting/Retries.antt =====
-- The ledger of the retries of a cycle (lsfmgr/submitter.py): timers fire, and kills empty it.
use pyqt_lsf_job_manager.Submitting.Sound.{
  IsSame-middle, IsSound, Sound-IsSame, Sound-Passes, holds, looks, units, waits,
}
use pyqt_lsf_job_manager.Base.{
  Dict, IsUnique, List, Option, Option-cases, String, [], arith, get, has, if_ind, if◌then◌else◌,
  inl, inr, keys, map, none, pop, pop-absent, refl, some, string_key, subst, sum_of, sym, ◌++◌,
  ◌||◌, ◌∷◌, ◌≡◌,
}
use pyqt_lsf_job_manager.Submitting.Cycle.{
  Cycle, PendingRetry, Work, dropped, queued, requested, timed,
}
use pyqt_lsf_job_manager.Submitting.Tasks.{abort_retries, add, fire, pop_each, request_retry}
use pyqt_lsf_job_manager.Submitting.Kept.{IsRetryWork, drops, popped, takes}
use pyqt_lsf_job_manager.Submitting.Effects.{HasJob, Owes, job_queued}

sound_if : (c d : Cycle) → d ≡ c → IsSound c → IsSound d
sound_if c d e h = subst IsSound (sym e) h

give_up_or_start : String → PendingRetry → Cycle → Work
give_up_or_start key p c =
    if c.is_shut_down || c.context.cancel_event
    then dropped key "CANCELLED"
    else queued key p.attempt

fire-none : (key : String) (c : Cycle) → get key c.context.pending_retries ≡ none → fire key c ≡ c
unfolding fire
fire-none key c e = rw (e, fire)

fire-some :
    (key : String) (p : PendingRetry) (c : Cycle)
    → get key c.context.pending_retries ≡ some p
    → fire key c ≡ add (give_up_or_start key p c) (popped key c)
unfolding fire give_up_or_start
fire-some key p c e = rw (e, fire)

job_dropped : (key reason : String) → HasJob key (dropped key reason)
job_dropped key reason = record {
  one_unit = refl;
  holding = λ k. refl;
  no_wait = λ k. refl;
  no_look = refl;
}

job_given_up : (key : String) (p : PendingRetry) (c : Cycle) → HasJob key (give_up_or_start key p c)
unfolding give_up_or_start
job_given_up key p c =
    if_ind (HasJob key) (c.is_shut_down || c.context.cancel_event)
      (λ _. job_dropped key "CANCELLED") (λ _. job_queued key p.attempt)

pub fire-IsSound :
    (key : String) (w : Work) (c : Cycle) → IsRetryWork key w → Owes w c → IsSound (fire key c)
fire-IsSound key w c r h = elim (Option-cases (get key c.context.pending_retries)) [
  | inl e ↦ sound_if c _ (fire-none key c e) (drops key w c r e h)
  | inr (p, e) ↦
      sound_if (add (give_up_or_start key p c) (popped key c)) _ (fire-some key p c e)
        (takes key w (give_up_or_start key p c) p c r (job_given_up key p c) e h)
]

pub request_retry-IsSound :
    (key : String) (c : Cycle) → Owes (requested key) c → IsSound (request_retry key c)
unfolding request_retry sum_of
request_retry-IsSound key c h =
    let r : IsRetryWork key (requested key) = (refl, λ k. refl, λ k. refl, refl) in
    if_ind IsSound (c.is_shut_down || c.context.cancel_event)
      (λ _. fire-IsSound key (requested key) c r h)
      λ _.
        if_ind IsSound (has key c.context.pending_retries)
          (λ _.
            Sound-Passes (requested key) (timed key ∷ []) c.works
              (record {
                same_units = refl;
                no_more = λ k. omega arith;
                no_less = λ k. omega arith;
                no_fewer = omega arith;
              })
              h)
          (λ e. drops key (requested key) c r (ground (arith, e)) h)

abbrev drop_all : String → List String → List Work
drop_all reason ks = map (λ k. dropped k reason) ks

-- The works that the loop over the keys leaves.
abbrev OwesEach : String → List String × Dict String PendingRetry → Cycle → Type 0
OwesEach reason r c = IsSound (record c {
  context = record c.context { pending_retries = r.1 };
  works = map (λ k. dropped k reason) r.0 ++ c.works;
})

pub keys-pop_each : (m : Dict String PendingRetry) → IsUnique m → pop_each (keys m) m ≡ (keys m, [])
unfolding pop_each get pop
keys-pop_each [] u = refl
keys-pop_each ((k, v) ∷ m) u = ground (arith, u.0, pop-absent k m, keys-pop_each m u.1)

-- A work that owes nothing may come.
pub adds :
    (w : Work) (c : Cycle)
    → units w ≡ 0
    → ((k : String) → holds k w ≡ 0)
    → IsSound c
    → IsSound (add w c)
unfolding sum_of
adds w c u g h = record {
  divided = h.divided;
  conserved = omega (arith, h.conserved, u);
  single = λ k. omega (arith, h.single k, g k);
  unique = h.unique;
  awaited = λ k. omega (arith, h.awaited k);
  noticed = λ o n. omega (arith, h.noticed o n);
  told = h.told;
  ended = h.ended;
}

pub goes :
    (w : Work) (c : Cycle)
    → units w ≡ 0
    → ((k : String) → waits k w ≡ 0)
    → looks w ≡ 0
    → Owes w c
    → IsSound c
unfolding sum_of
goes w c u a l h =
    Sound-Passes w [] c.works
      (record {
        same_units = omega (arith, u);
        no_more = λ k. omega arith;
        no_less = λ k. omega (arith, a k);
        no_fewer = omega (arith, l);
      })
      h

pop_each-IsSound :
    (ks : List String) (reason : String) (c : Cycle)
    → IsSound c
    → OwesEach reason (pop_each ks c.context.pending_retries) c
unfolding pop_each
pop_each-IsSound [] reason c h = h
pop_each-IsSound (k ∷ ks) reason c h =
    let m = c.context.pending_retries in
    if_ind (λ r. OwesEach reason r c) (has k m)
      (λ e. elim (Option-cases (get k m)) [
        | inl n ↦ absurd (ground (arith, e, n))
        | inr (p, s) ↦
            let c' = add (dropped k reason) (popped k c) in
            let h' : IsSound c' =
              takes k (requested k) (dropped k reason) p c (refl, λ i. refl, λ i. refl, refl)
                (job_dropped k reason) s (adds (requested k) c refl (λ i. refl) h) in
            Sound-IsSame
              (IsSame-middle (drop_all reason (pop_each ks (pop k m)).0) c.works (dropped k reason))
              (pop_each-IsSound ks reason c' h')
      ])
      (λ _. pop_each-IsSound ks reason c h)

pub abort_retries-IsSound :
    (scope : Option (List String)) (reason : String) (c : Cycle)
    → IsSound c
    → IsSound (abort_retries scope reason c)
unfolding abort_retries
abort_retries-IsSound (some ks) reason c h = pop_each-IsSound ks reason c h
abort_retries-IsSound none reason c h =
    let m = c.context.pending_retries in
    subst (λ r. OwesEach reason r c) (keys-pop_each m h.unique)
      (pop_each-IsSound (keys m) reason c h)
