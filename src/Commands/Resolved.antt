-- ===== src/Commands/Resolved.antt =====
-- What the output of bkill says of each target (lsfmgr/command.py, _parse_bkill_resolved and
-- bkill_targets_confirm).
use pyqt_lsf_job_manager.Commands.Lines.{accepts, parse_bkill_resolved-settles, settles}
use pyqt_lsf_job_manager.Base.{
  All, Bool, List, String, [], any, arith, both_texts, false, length, refl, string_key, sum_of,
  total, ℕ, ◌++◌, ◌+◌, ◌||◌, ◌∙◌, ◌∷◌, ◌≡◌, ◌≤◌,
}
use pyqt_lsf_job_manager.Lifecycle.Gate.{member, union}
use pyqt_lsf_job_manager.Lifecycle.Refusal.{member-union}
use pyqt_lsf_job_manager.Commands.Queries.{CommandResult, Ran, expired, returned}
use pyqt_lsf_job_manager.Commands.Bkill.{Killed, bkill_targets_confirm, join_calls, run_chunk}

abbrev pub output_of : CommandResult → String
output_of res = both_texts res.stdout (both_texts "\n" res.stderr)

-- What the end of one call says of the target.
abbrev pub settled_by : String → List String × Ran → Bool
settled_by t (chunk, expired) = false
settled_by t (chunk, returned res) = settles chunk t (output_of res)

abbrev pub accepted_by : String → List String × Ran → Bool
accepted_by t (chunk, expired) = false
accepted_by t (chunk, returned res) = accepts chunk t (output_of res)

abbrev pub is_late : String → List String × Ran → Bool
is_late t (chunk, expired) = member t chunk
is_late t (chunk, returned res) = false

abbrev pub targets_in : List (List String × Ran) → ℕ
targets_in = sum_of (λ e. length e.0)

run_chunk-settles :
    (t : String) (chunk : List String) (ran : Ran)
    → let (got, acc, late) = run_chunk chunk ran in
      (member t got ≡ settled_by t (chunk, ran))
      × (member t acc ≡ accepted_by t (chunk, ran))
      × (member t late ≡ is_late t (chunk, ran))
unfolding run_chunk
run_chunk-settles t chunk expired = (refl, refl, refl)
run_chunk-settles t chunk (returned res) =
    let (a, b) = parse_bkill_resolved-settles (output_of res) chunk t in (a, b, refl)

union-any :
    {A : Type 0} (t : String) (a b : List String) (p : A → Bool) (x : A) (xs : List A)
    → member t b ≡ p x
    → (member t (union a b) || any p xs) ≡ (member t a || any p (x ∷ xs))
union-any t a b p x xs e = ground (arith, member-union t a b, e)

join_calls-settles :
    (n : ℕ) (t : String) (ended : List (List String × Ran)) (k : Killed)
    → let r = join_calls n ended k in
      (member t r.resolved ≡ (member t k.resolved || any (settled_by t) ended))
      × (member t r.accepted ≡ (member t k.accepted || any (accepted_by t) ended))
      × (member t r.timed_out ≡ (member t k.timed_out || any (is_late t) ended))
      × (r.calls ≡ k.calls)
unfolding join_calls
join_calls-settles n t [] k = (ground arith, ground arith, ground arith, refl)
join_calls-settles n t ((chunk, ran) ∷ ended) k =
    let (got, acc, late) = run_chunk chunk ran in
    let (g, h, l) = run_chunk-settles t chunk ran in
    let (a, b, c, d) = join_calls-settles (n + length chunk) t ended (record k {
      resolved = union k.resolved got;
      accepted = union k.accepted acc;
      timed_out = union k.timed_out late;
      told = k.told ++ (n + length chunk) ∷ [];
    }) in
    (
      a ∙ union-any t k.resolved got (settled_by t) (chunk, ran) ended g,
      b ∙ union-any t k.accepted acc (accepted_by t) (chunk, ran) ended h,
      c ∙ union-any t k.timed_out late (is_late t) (chunk, ran) ended l,
      d,
    )

All-append : {A : Type 0} (P : A → Type 0) (xs ys : List A) → All P xs → All P ys → All P (xs ++ ys)
All-append P [] ys a b = b
All-append P (x ∷ xs) ys (p, a) b = (p, All-append P xs ys a b)

join_calls-told :
    (n total : ℕ) (ended : List (List String × Ran)) (k : Killed)
    → n + targets_in ended ≤ total
    → All (λ m. m ≤ total) k.told
    → All (λ m. m ≤ total) (join_calls n ended k).told
unfolding join_calls sum_of
join_calls-told n total [] k h a = a
join_calls-told n total ((chunk, ran) ∷ ended) k h a =
    join_calls-told (n + length chunk) total ended _ (omega (arith, h))
      (All-append (λ m. m ≤ total) k.told ((n + length chunk) ∷ []) a (omega (arith, h), tt))

-- The calls of bkill, in whatever order they end: a target is resolved just if the output of some call
-- settles it, by a line that says its kill is taken up or that it is over already and no line that
-- leaves it open; it is accepted just if some output says that its kill is taken up; it is reported as
-- timed out just if it was in a call that did not return in time. Each call is counted once, and the
-- progress that is told never passes the number of the targets.
pub bkill_targets_confirm-settles :
    (ended : List (List String × Ran))
    → let k = bkill_targets_confirm ended in
      ((t : String)
        → (member t k.resolved ≡ any (settled_by t) ended)
          × (member t k.accepted ≡ any (accepted_by t) ended)
          × (member t k.timed_out ≡ any (is_late t) ended))
      × (k.calls ≡ length ended)
      × All (λ m. m ≤ targets_in ended) k.told
unfolding bkill_targets_confirm
bkill_targets_confirm-settles ended =
    let k₀ : Killed = record {
      resolved = [];
      accepted = [];
      calls = length ended;
      timed_out = [];
      told = [];
    } in
    (
      λ t. let (a, b, c, _) = join_calls-settles 0 t ended k₀ in (a, b, c),
      (join_calls-settles 0 "" ended k₀).3,
      join_calls-told 0 (targets_in ended) ended k₀ (omega arith) tt,
    )
