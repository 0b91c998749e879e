-- ===== src/Util/Sampling.antt =====
-- How often a kind of log line is let through (lsfmgr/util.py, LogSampler).
use pyqt_lsf_job_manager.States.Laws.{same_text_iff}
use pyqt_lsf_job_manager.Base.{
  Bool-cases, List, String, [], ap, arith, get, get-put, if◌then◌else◌, inl, inr, leb, max, min,
  or_default, refl, string_key, ℕ, ◌&&◌, ◌+◌, ◌∷◌, ◌≡◌,
}
use pyqt_lsf_job_manager.States.{same_text}
use pyqt_lsf_job_manager.Util.Emission.{Sampler, allow, sampler}

-- How many lines of a kind are let through, of those that come.
unfoldable pub let_through : String → List String → Sampler → ℕ
let_through kind [] s = 0
let_through kind (x ∷ xs) s =
    let (b, s') = allow s x in (if b && same_text x kind then 1 else 0) + let_through kind xs s'

unfoldable pub occurrences : String → List String → ℕ
occurrences kind [] = 0
occurrences kind (x ∷ xs) = (if same_text x kind then 1 else 0) + occurrences kind xs

abbrev pub seen_of : String → Sampler → ℕ
seen_of kind s = or_default 0 (get kind s.seen)

seen-allow :
    (s : Sampler) (x kind : String)
    → seen_of kind (allow s x).1 ≡ (if same_text x kind then seen_of kind s + 1 else seen_of kind s)
unfolding allow
seen-allow s x kind = ground (arith, get-put x (seen_of x s + 1) s.seen kind, ap (λ k. seen_of k s))

allow-limit :
    (s : Sampler) (x : String)
    → ((allow s x).0 ≡ leb (seen_of x s + 1) s.limit) × ((allow s x).1.limit ≡ s.limit)
unfolding allow
allow-limit s x = (refl, refl)

let_through-seen :
    (kind : String) (xs : List String) (s : Sampler)
    → let_through kind xs s + min (seen_of kind s) s.limit
      ≡ min (seen_of kind s + occurrences kind xs) s.limit
unfolding let_through occurrences
let_through-seen kind [] s = omega arith
let_through-seen kind (x ∷ xs) s =
    let ih = let_through-seen kind xs (allow s x).1 in
    let (lets, same) = allow-limit s x in
    let seen = seen-allow s x kind in
    elim (Bool-cases (same_text x kind)) [
      | inl e ↦
          let here : seen_of x s ≡ seen_of kind s =
            ap (λ k. seen_of k s) ((same_text_iff x kind).0 e) in
          ground (arith, ih, lets, same, seen, here)
      | inr e ↦ ground (arith, ih, same, seen)
    ]

-- Of the lines of a kind that come to a new sampler, whatever comes between them, as many are let
-- through as there are, or as the limit says if that is less; a limit of 0 is taken as 1.
pub let_through-sampler :
    (limit : ℕ) (kind : String) (xs : List String)
    → let_through kind xs (sampler limit) ≡ min (occurrences kind xs) (max 1 limit)
unfolding sampler get
let_through-sampler limit kind xs = ground (arith, let_through-seen kind xs (sampler limit))
