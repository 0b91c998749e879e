-- ===== src/Commands/Lines.antt =====
-- What the lines of an output of bkill say of a target (lsfmgr/command.py, _parse_bkill_resolved).
use pyqt_lsf_job_manager.Base.{
  Bool, List, Option, String, [], any, ap, arith, false, none, not, some, string_key, true, ◌&&◌,
  ◌||◌, ◌∙◌, ◌∷◌, ◌≡◌,
}
use pyqt_lsf_job_manager.Lifecycle.Gate.{member}
use pyqt_lsf_job_manager.Lifecycle.Refusal.{member-filter, member-union}
use pyqt_lsf_job_manager.Commands.Bkill.{
  Buckets, KillLine, Verdict, add_ids, add_line, gone_already, ids_of, kill_line, left_open,
  parse_bkill_resolved, read_lines, split_lines, taken_up, verdict_of,
}

-- A line says this of the target, in the output of a call with the requested targets.
abbrev pub says_of : (Verdict → Bool) → List String → String → String → Bool
says_of p requested t line = elim (kill_line line) [
  | none ↦ false
  | some l ↦ p (verdict_of l.message) && member t (ids_of requested l)
]

abbrev pub is_taken_up : Verdict → Bool
is_taken_up taken_up = true
is_taken_up _ = false

abbrev pub is_left_open : Verdict → Bool
is_left_open left_open = true
is_left_open _ = false

abbrev pub is_over : Verdict → Bool
is_over v = not (is_left_open v)

-- What a set has after some lines, if each line adds what it says of.
abbrev pub Adds : (Buckets → List String) → (Verdict → Bool) → Type 0
Adds set p =
    (requested : List String) (t : String) (line : String) (b : Buckets)
    → member t (set (add_line requested (kill_line line) b))
      ≡ (member t (set b) || says_of p requested t line)

pub add_line-cases :
    (set : Buckets → List String) (p : Verdict → Bool)
    → ((v : Verdict) (ids : List String) (t : String) (b : Buckets)
        → member t (set (add_ids v ids b)) ≡ (member t (set b) || p v && member t ids))
    → Adds set p
add_line-cases set p h requested t line b = go (kill_line line)
  where
    go :
        (o : Option KillLine)
        → member t (set (add_line requested o b)) ≡ (
            member t (set b) || (elim o [
              | none ↦ false
              | some l ↦ p (verdict_of l.message) && member t (ids_of requested l)
            ]))
    go none = ground arith
    go (some l) = h (verdict_of l.message) (ids_of requested l) t b

pub resolved_ids-Adds : Adds (λ b. b.resolved_ids) is_over
resolved_ids-Adds = add_line-cases (λ b. b.resolved_ids) is_over adds
  where
    adds :
        (v : Verdict) (ids : List String) (t : String) (b : Buckets)
        → member t (add_ids v ids b).resolved_ids
          ≡ (member t b.resolved_ids || is_over v && member t ids)
    adds taken_up ids t b = ground (arith, member-union t b.resolved_ids ids)
    adds gone_already ids t b = ground (arith, member-union t b.resolved_ids ids)
    adds left_open ids t b = ground arith

pub accepted_ids-Adds : Adds (λ b. b.accepted_ids) is_taken_up
accepted_ids-Adds = add_line-cases (λ b. b.accepted_ids) is_taken_up adds
  where
    adds :
        (v : Verdict) (ids : List String) (t : String) (b : Buckets)
        → member t (add_ids v ids b).accepted_ids
          ≡ (member t b.accepted_ids || is_taken_up v && member t ids)
    adds taken_up ids t b = ground (arith, member-union t b.accepted_ids ids)
    adds gone_already ids t b = ground arith
    adds left_open ids t b = ground arith

pub unresolved_ids-Adds : Adds (λ b. b.unresolved_ids) is_left_open
unresolved_ids-Adds = add_line-cases (λ b. b.unresolved_ids) is_left_open adds
  where
    adds :
        (v : Verdict) (ids : List String) (t : String) (b : Buckets)
        → member t (add_ids v ids b).unresolved_ids
          ≡ (member t b.unresolved_ids || is_left_open v && member t ids)
    adds taken_up ids t b = ground arith
    adds gone_already ids t b = ground arith
    adds left_open ids t b = ground (arith, member-union t b.unresolved_ids ids)

pub read_lines-Adds :
    (set : Buckets → List String) (p : Verdict → Bool)
    → Adds set p
    → (requested : List String) (t : String) (lines : List String) (b : Buckets)
    → member t (set (read_lines requested lines b))
      ≡ (member t (set b) || any (says_of p requested t) lines)
unfolding read_lines
read_lines-Adds set p h requested t [] b = ground arith
read_lines-Adds set p h requested t (line ∷ lines) b =
    let b' = add_line requested (kill_line line) b in
    read_lines-Adds set p h requested t lines b'
    ∙ ap (λ x. x || any (says_of p requested t) lines) (h requested t line b)
    ∙ ||_assoc (member t (set b)) (says_of p requested t line) (any (says_of p requested t) lines)
  where
    ||_assoc : (x y z : Bool) → ((x || y) || z) ≡ (x || (y || z))
    ||_assoc x y z = ground arith

-- The output of a call settles the target: some line says that its kill is taken up or that it is over
-- already, and no line leaves it open.
abbrev pub settles : (requested : List String) (t text : String) → Bool
settles requested t text =
    any (says_of is_over requested t) (split_lines text)
    && not (any (says_of is_left_open requested t) (split_lines text))

-- Some line says that the kill of the target is taken up.
abbrev pub accepts : (requested : List String) (t text : String) → Bool
accepts requested t text = any (says_of is_taken_up requested t) (split_lines text)

pub parse_bkill_resolved-settles :
    (text : String) (requested : List String) (t : String)
    → let (resolved, accepted) = parse_bkill_resolved text requested in
      (member t resolved ≡ settles requested t text)
      × (member t accepted ≡ accepts requested t text)
unfolding parse_bkill_resolved
parse_bkill_resolved-settles text requested t =
    let b₀ : Buckets = record { resolved_ids = []; accepted_ids = []; unresolved_ids = [] } in
    let b = read_lines requested (split_lines text) b₀ in
    (
      member-filter t (λ k. not (member k b.unresolved_ids)) b.resolved_ids
          ∙ and_both
              (read_lines-Adds (λ b. b.resolved_ids) is_over resolved_ids-Adds requested t
                (split_lines text) b₀)
              (ap not (
                read_lines-Adds (λ b. b.unresolved_ids) is_left_open unresolved_ids-Adds requested t
                  (split_lines text) b₀)),
      read_lines-Adds (λ b. b.accepted_ids) is_taken_up accepted_ids-Adds requested t
          (split_lines text) b₀,
    )
  where
    and_both : {x x' y y' : Bool} → x ≡ x' → y ≡ y' → (x && y) ≡ (x' && y')
    and_both e f = ground (arith, e, f)
