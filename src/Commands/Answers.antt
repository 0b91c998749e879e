-- ===== src/Commands/Answers.antt =====
-- What a query of many ids accounts for (lsfmgr/command.py, bjobs_by_ids).
use pyqt_lsf_job_manager.Commands.Runs.{bjobs-Steps}
use pyqt_lsf_job_manager.Commands.Chunks.{IsCall, chunk_args-IsCall, joined, room_of}
use pyqt_lsf_job_manager.Commands.Queries.{
  Client, Found, Query, Runner, answered, bjobs, bjobs_by_ids, failed, visit_chunks,
}
use pyqt_lsf_job_manager.Base.{
  All, Bool-cases, List, String, [], any, ap, append_assoc, arith, if_ind, inl, inr, is_empty, leb,
  length, ltb, none, not, refl, some, string_key, subst, suc, sym, true, ℕ, ◌&&◌, ◌++◌, ◌+◌, ◌∙◌,
  ◌∷◌, ◌≡◌, ◌≤◌, ◌⊎◌,
}
use pyqt_lsf_job_manager.Lifecycle.Refusal.{member-append}
use pyqt_lsf_job_manager.States.{JobStatus}
use pyqt_lsf_job_manager.Lifecycle.Gate.{member}

module _ (read : String → List JobStatus) (runner : Runner) (formats : ℕ) where
  -- A call with the id was answered, and all that was read from it is among the rows.
  abbrev pub IsAnswered : String → List JobStatus → Type 0
  IsAnswered id found =
      (chunk : List String) × (c : Client) × (out : String) × (c' : Client) × (member id chunk
        ≡ true)
      × (bjobs runner formats chunk c ≡ (answered out, c'))
      × (before : List JobStatus) × (after : List JobStatus) × (found
          ≡ before ++ (read out ++ after))

  -- A call failed, from one state of the client to another.
  abbrev pub FailsTo : List String → Client → Client → Type 0
  FailsTo chunk c c' = (e : String) × (bjobs runner formats chunk c ≡ (failed e, c'))

  -- A call with the id failed, or two calls failed with none between them.
  abbrev pub WhyFailed : String → Type 0
  WhyFailed id =
      ((chunk : List String) × (c : Client) × (c' : Client) × (member id chunk ≡ true)
        × FailsTo chunk c c')
      ⊎ ((first : List String) × (c : Client) × (c' : Client) × (second : List String)
          × (c'' : Client) × FailsTo first c c'
          × FailsTo second c' c'')

  -- If calls failed in a row, the last one did.
  abbrev FailedBefore : ℕ → Client → Type 0
  FailedBefore n c = leb 1 n ≡ true → (chunk : List String) × (c₀ : Client) × FailsTo chunk c₀ c

  -- The rows and the failed ids account for the ids, and the runs are few.
  pub record AccountsFor (calls : ℕ) (ids : List String) (c : Client) (r : Found × Client)
      : Type 0 where
    pub each : (id : String) → member id ids ≡ true → (member id r.0.1 ≡ true) ⊎ IsAnswered id r.0.0
    pub only : (id : String) → member id r.0.1 ≡ true → (member id ids ≡ true) × WhyFailed id
    pub few : r.1.runs + c.fmt_idx ≤ c.runs + calls + r.1.fmt_idx
    pub low : c.fmt_idx + 1 ≤ formats → r.1.fmt_idx + 1 ≤ formats

  more_rows :
      (id : String) (rows found : List JobStatus)
      → IsAnswered id found
      → IsAnswered id (rows ++ found)
  more_rows id rows found (chunk, c, out, c', m, q, before, after, e) = (
    chunk,
    c,
    out,
    c',
    m,
    q,
    rows ++ before,
    after,
    ap (λ l. rows ++ l) e ∙ sym (append_assoc rows before (read out ++ after)),
  )

  step-low :
      (chunk : List String) (c : Client)
      → c.fmt_idx + 1 ≤ formats
      → (bjobs runner formats chunk c).1.fmt_idx + 1 ≤ formats
  step-low chunk c h =
      let (a, b, d) = bjobs-Steps runner formats chunk c in omega (arith, a, b, d, h)

  nothing-AccountsFor : (c : Client) → AccountsFor 0 [] c (([], []), c)
  nothing-AccountsFor c = record {
    each = λ id m. absurd (ground arith);
    only = λ id m. absurd (ground arith);
    few = omega arith;
    low = λ h. h;
  }

  answered-AccountsFor :
      (chunk : List String) (rest : List (List String)) (c c' : Client) (out : String)
      (r : Found × Client)
      → bjobs runner formats chunk c ≡ (answered out, c')
      → AccountsFor (length rest) (joined rest) c' r
      → AccountsFor (suc (length rest)) (chunk ++ joined rest) c ((read out ++ r.0.0, r.0.1), r.1)
  answered-AccountsFor chunk rest c c' out r q h = record {
    each = λ id m. elim (Bool-cases (member id chunk)) [
      | inl e ↦ inr (chunk, c, out, c', e, q, [], r.0.0, refl)
      | inr e ↦ elim (h.each id (ground (arith, member-append id chunk (joined rest)))) [
        | inl b ↦ inl b
        | inr a ↦ inr (more_rows id (read out) r.0.0 a)
      ]
    ];
    only = λ id m.
        let (a, b) = h.only id m in (ground (arith, member-append id chunk (joined rest)), b);
    few =
        let f = h.few in
        let (a, _, _) = bjobs-Steps runner formats chunk c in
        let k = ap (λ p. p.1.runs) q in
        let l = ap (λ p. p.1.fmt_idx) q in omega (arith, f, a, k, l);
    low = λ k. h.low (subst (λ n. n + 1 ≤ formats) (ap (λ p. p.1.fmt_idx) q) (step-low chunk c k));
  }

  failed-AccountsFor :
      (chunk : List String) (rest : List (List String)) (c c' : Client) (e : String)
      (r : Found × Client)
      → bjobs runner formats chunk c ≡ (failed e, c')
      → AccountsFor (length rest) (joined rest) c' r
      → AccountsFor (suc (length rest)) (chunk ++ joined rest) c ((r.0.0, chunk ++ r.0.1), r.1)
  failed-AccountsFor chunk rest c c' x r q h = record {
    each = λ id m. elim (Bool-cases (member id chunk)) [
      | inl e ↦ inl (ground (arith, member-append id chunk r.0.1))
      | inr e ↦ elim (h.each id (ground (arith, member-append id chunk (joined rest)))) [
        | inl b ↦ inl (ground (arith, member-append id chunk r.0.1))
        | inr a ↦ inr a
      ]
    ];
    only = λ id m. elim (Bool-cases (member id chunk)) [
      | inl e ↦
          (ground (arith, member-append id chunk (joined rest)), inl (chunk, c, c', e, (x, q)))
      | inr e ↦
          let k = h.only id (ground (arith, member-append id chunk r.0.1)) in
          (ground (arith, k.0, member-append id chunk (joined rest)), k.1)
    ];
    few =
        let f = h.few in
        let (a, _, _) = bjobs-Steps runner formats chunk c in
        let k = ap (λ p. p.1.runs) q in
        let l = ap (λ p. p.1.fmt_idx) q in omega (arith, f, a, k, l);
    low = λ k. h.low (subst (λ n. n + 1 ≤ formats) (ap (λ p. p.1.fmt_idx) q) (step-low chunk c k));
  }

  -- All that is left is given up.
  outage-AccountsFor :
      (rest : List (List String)) (c' : Client)
      → ((id : String) → WhyFailed id)
      → AccountsFor (length rest) (joined rest) c' (([], joined rest), c')
  outage-AccountsFor rest c' s = record {
    each = λ id m. inl m;
    only = λ id m. (m, s id);
    few = omega arith;
    low = λ h. h;
  }

  failed_before :
      (n : ℕ) (rest : List (List String))
      → (leb 2 (n + 1) && not (is_empty rest)) ≡ true
      → leb 1 n ≡ true
  failed_before n rest t = ground arith

  turn-AccountsFor :
      (n : ℕ) (chunk : List String) (rest : List (List String)) (c : Client) (q : Query)
      → ((m : ℕ) (c' : Client)
          → FailedBefore m c'
          → AccountsFor (length rest) (joined rest) c' (visit_chunks read runner formats m rest c'))
      → FailedBefore n c
      → (bjobs runner formats chunk c).0 ≡ q
      → AccountsFor
          (suc (length rest))
          (chunk ++ joined rest)
          c
          (visit_chunks read runner formats n (chunk ∷ rest) c)
  unfolding visit_chunks
  turn-AccountsFor n chunk rest c (answered out) ih before q =
      let c' = (bjobs runner formats chunk c).1 in
      rw (visit_chunks, q)
        (answered-AccountsFor chunk rest c c' out _ (ap (λ a. (a, c')) q)
          (ih 0 c' (λ e. absurd (ground arith))))
  turn-AccountsFor n chunk rest c (failed e) ih before q =
      let c' = (bjobs runner formats chunk c).1 in
      let p : bjobs runner formats chunk c ≡ (failed e, c') = ap (λ a. (a, c')) q in
      rw (visit_chunks, q)
        (if_ind (AccountsFor (suc (length rest)) (chunk ++ joined rest) c)
          (leb 2 (n + 1) && not (is_empty rest))
          (λ t.
            let (first, c₀, f) = before (failed_before n rest t) in
            failed-AccountsFor chunk rest c c' e _ p
              (outage-AccountsFor rest c' (λ id. inr (first, c₀, c, chunk, c', f, (e, p)))))
          (λ _. failed-AccountsFor chunk rest c c' e _ p (ih (n + 1) c' (λ _. (chunk, c, (e, p))))))

  visit_chunks-AccountsFor :
      (consecutive : ℕ) (chunks : List (List String)) (c : Client)
      → FailedBefore consecutive c
      → AccountsFor
          (length chunks)
          (joined chunks)
          c
          (visit_chunks read runner formats consecutive chunks c)
  unfolding visit_chunks
  visit_chunks-AccountsFor n [] c before = nothing-AccountsFor c
  visit_chunks-AccountsFor n (chunk ∷ rest) c before =
      turn-AccountsFor n chunk rest c _ (λ m c'. visit_chunks-AccountsFor m rest c') before refl

-- A query of many ids, for any reading of the output and whatever the runs of bjobs give: it either
-- raises because an id is too long for a call, or returns rows and failed ids after dividing the ids
-- into calls. Then an id that was asked for is failed, or was in a call that was answered, all of whose
-- rows are among the rows. Only ids that were asked for are failed, and only if a call with the id
-- failed or two calls in a row failed. There is at most one run for each call and one for each format
-- that was given up, and the format in use stays one of the formats.
pub bjobs_by_ids-AccountsFor :
    (read : String → List JobStatus) (runner : Runner) (formats : ℕ)
    (chunk_size arg_max base_len : ℕ) (ids : List String) (c : Client)
    → ((bjobs_by_ids read runner formats chunk_size arg_max base_len ids c ≡ none)
        × (any (λ item. ltb arg_max (base_len + room_of item)) ids ≡ true))
      ⊎ ((cs : List (List String)) × (r : Found × Client) × (bjobs_by_ids read runner formats
              chunk_size arg_max base_len ids c
            ≡ some r)
          × (joined cs ≡ ids)
          × All (IsCall chunk_size arg_max base_len) cs
          × AccountsFor read runner formats (length cs) ids c r)
unfolding bjobs_by_ids
bjobs_by_ids-AccountsFor read runner formats size arg_max base ids c =
    elim (chunk_args-IsCall ids size arg_max base) [
      | inl (cs, e, j, calls) ↦ inr (
        cs,
        visit_chunks read runner formats 0 cs c,
        rw (bjobs_by_ids, e) refl,
        j,
        calls,
        subst
            (λ l.
              AccountsFor read runner formats (length cs) l c
                (visit_chunks read runner formats 0 cs c))
            j (visit_chunks-AccountsFor read runner formats 0 cs c (λ e. absurd (ground arith))),
      )
      | inr (e, long) ↦ inl (rw (bjobs_by_ids, e) refl, long)
    ]
