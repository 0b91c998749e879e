-- ===== src/Killing/Targets.antt =====
-- lsfmgr/command.py, target_parent_id and classify_targets: a target is "id", "id[index]" or
-- "id[low-high]". The digits are those of ASCII.
use pyqt_lsf_job_manager.Base.{
  Bool, Option, String, false, if◌then◌else◌, leb, none, some, string_key, true, ℕ, ◌&&◌, ◌*◌, ◌+◌,
  ◌-◌, ◌==◌,
}
use pyqt_lsf_job_manager.States.{JobStatus}
use Prim.Native.Char.{Char, code}

pub data Form : Type 0 where
  whole : ℕ → Form
  element : ℕ → ℕ → Form
  range : ℕ → ℕ → ℕ → Form
  -- No target of the grammar, with its parent if it has one.
  odd : Option ℕ → Form

abbrev is_digit : Char → Bool
is_digit c = leb 48 (code c) && leb (code c) 57

-- The number that a text begins with, after the digits read before, and the rest of the text.
unfoldable pub digits : ℕ → Bool → String → Option ℕ × String
digits n seen String.[] = ((if seen then some n else none), String.[])
digits n seen (String.◌∷◌ c s) =
    let more = digits (n * 10 + (code c - 48)) true s in
    if is_digit c then more else ((if seen then some n else none), String.◌∷◌ c s)

-- The text is the one character.
abbrev is_one : ℕ → String → Bool
is_one n String.[] = false
is_one n (String.◌∷◌ c String.[]) = code c == n
is_one n (String.◌∷◌ c (String.◌∷◌ d s)) = false

-- From the character after the low index on: `]`, or `-` and the high index.
abbrev after_low : ℕ → ℕ → String → Form
after_low id low String.[] = odd (some id)
after_low id low (String.◌∷◌ c s) =
    if code c == 93 && is_one 93 (String.◌∷◌ c s)
    then element id low
    else if code c == 45
    then high_of (digits 0 false s)
    else odd (some id)
  where
    high_of : Option ℕ × String → Form
    high_of (none, rest) = odd (some id)
    high_of (some high, rest) = if is_one 93 rest then range id low high else odd (some id)

abbrev after_bracket : ℕ → Option ℕ × String → Form
after_bracket id (none, rest) = odd (some id)
after_bracket id (some low, rest) = after_low id low rest

abbrev after_id : Option ℕ → String → Form
after_id none rest = odd none
after_id (some id) String.[] = whole id
after_id (some id) (String.◌∷◌ c s) =
    if code c == 91 then after_bracket id (digits 0 false s) else odd none

unfoldable pub form_of : String → Form
unfolding digits
form_of target = let (id, rest) = digits 0 false target in after_id id rest

abbrev pub parent_of : Form → Option ℕ
parent_of (whole id) = some id
parent_of (element id _) = some id
parent_of (range id _ _) = some id
parent_of (odd o) = o

-- `exact or ranges`
abbrev pub names_elements : Form → Bool
names_elements (element _ _) = true
names_elements (range _ _ _) = true
names_elements _ = false

abbrev pub index_within : ℕ → ℕ → Option ℕ → Bool
index_within low high none = false
index_within low high (some i) = leb low i && leb i high

-- `_matching`, for the classification of one target.
unfoldable pub is_hit : Form → JobStatus → Bool
is_hit (whole id) st = st.job_id == id
is_hit (odd (some id)) st = st.job_id == id
is_hit (odd none) st = false
is_hit (element id i) st = st.job_id == id && index_within i i st.array_index
is_hit (range id low high) st = st.job_id == id && index_within low high st.array_index
