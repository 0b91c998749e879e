-- ===== src/Commands/Chunks.antt =====
-- lsfmgr/command.py, chunk_args: the division of arguments into calls. The iterator is read as a
-- whole, as its callers do; None is ArgMaxExceededError.
use pyqt_lsf_job_manager.Base.{
  All, Bool, Bool-cases, List, Option, String, [], any, ap, append_assoc, arith, false,
  if◌then◌else◌, inl, inr, is_empty, leb, length, length-append, ltb, max, none, not, refl, some,
  string_key, subst, sym, true, ℕ, ◌&&◌, ◌++◌, ◌+◌, ◌||◌, ◌∙◌, ◌∷◌, ◌≡◌, ◌≤◌, ◌⊎◌,
}
use Prim.Native.String.{count}

-- `len(item) + 1`
abbrev pub room_of : String → ℕ
room_of item = count item + 1

-- `if chunk: yield chunk`
abbrev pub yield_chunk : List String → List (List String) → List (List String)
yield_chunk [] rest = rest
yield_chunk (x ∷ xs) rest = (x ∷ xs) ∷ rest

abbrev pub yield_first : List String → Option (List (List String)) → Option (List (List String))
yield_first chunk none = none
yield_first chunk (some rest) = some (chunk ∷ rest)

-- The chunk is full for an item of the given room.
abbrev pub is_full : ℕ → ℕ → List String → ℕ → ℕ → Bool
is_full chunk_size arg_max chunk len add =
    not (is_empty chunk) && (leb chunk_size (length chunk) || ltb arg_max (len + add))

unfoldable pub chunk_from : ℕ → ℕ → ℕ → List String → ℕ → List String → Option (List (List String))
chunk_from chunk_size arg_max base_len chunk len [] = some (yield_chunk chunk [])
chunk_from chunk_size arg_max base_len chunk len (item ∷ items) =
    let add = room_of item in
    let go_on = chunk_from chunk_size arg_max base_len (chunk ++ item ∷ []) (len + add) items in
    let anew = chunk_from chunk_size arg_max base_len (item ∷ []) (base_len + add) items in
    if ltb arg_max (base_len + add)
    then none
    else if is_full chunk_size arg_max chunk len add
    then yield_first chunk anew
    else go_on

unfoldable pub chunk_args : List String → ℕ → ℕ → ℕ → Option (List (List String))
chunk_args items chunk_size arg_max base_len =
    chunk_from chunk_size arg_max base_len [] base_len items

-- The length of a call with the chunk.
abbrev pub call_length : ℕ → List String → ℕ
call_length base_len [] = base_len
call_length base_len (item ∷ items) = room_of item + call_length base_len items

abbrev pub joined : List (List String) → List String
joined [] = []
joined (c ∷ cs) = c ++ joined cs

-- A chunk is one call that the system takes.
pub record IsCall (chunk_size arg_max base_len : ℕ) (chunk : List String) : Type 0 where
  pub filled : is_empty chunk ≡ false
  pub few : length chunk ≤ max 1 chunk_size
  pub short : call_length base_len chunk ≤ arg_max

-- The chunk that is being filled.
record IsOpen (chunk_size arg_max base_len : ℕ) (chunk : List String) (len : ℕ) : Type 0 where
  measured : call_length base_len chunk ≡ len
  few : length chunk ≤ max 1 chunk_size
  short : (is_empty chunk ≡ false) → len ≤ arg_max

call_length-append :
    (base_len : ℕ) (chunk : List String) (item : String)
    → call_length base_len (chunk ++ item ∷ []) ≡ call_length base_len chunk + room_of item
call_length-append base_len [] item = omega arith
call_length-append base_len (x ∷ chunk) item = omega (arith, call_length-append base_len chunk item)

IsOpen-IsCall :
    (size arg_max base : ℕ) (chunk : List String) (len : ℕ)
    → IsOpen size arg_max base chunk len
    → is_empty chunk ≡ false
    → IsCall size arg_max base chunk
IsOpen-IsCall size arg_max base chunk len o e = record {
  filled = e;
  few = o.few;
  short = let s = o.short e in let m = o.measured in omega (arith, s, m);
}

add-IsOpen :
    (size arg_max base : ℕ) (chunk : List String) (len : ℕ) (item : String)
    → IsOpen size arg_max base chunk len
    → ltb arg_max (base + room_of item) ≡ false
    → is_full size arg_max chunk len (room_of item) ≡ false
    → IsOpen size arg_max base (chunk ++ item ∷ []) (len + room_of item)
add-IsOpen size arg_max base [] len item o b f = record {
  measured = let m = o.measured in omega (arith, m);
  few = ground arith;
  short = λ _. let m = o.measured in ground (arith, m);
}
add-IsOpen size arg_max base (x ∷ xs) len item o b f = record {
  measured = let m = o.measured in omega (arith, m, call_length-append base (x ∷ xs) item);
  few = ground (arith, length-append (x ∷ xs) (item ∷ []));
  short = λ _. ground arith;
}

new-IsOpen :
    (size arg_max base : ℕ) (item : String)
    → ltb arg_max (base + room_of item) ≡ false
    → IsOpen size arg_max base (item ∷ []) (base + room_of item)
new-IsOpen size arg_max base item b = record {
  measured = omega arith;
  few = ground arith;
  short = λ _. ground arith;
}

-- What is made of the items, from a chunk that is open.
abbrev IsDivided : ℕ → ℕ → ℕ → List String → Option (List (List String)) → List String → Type 0
IsDivided size arg_max base chunk o items =
    ((cs : List (List String)) × (o ≡ some cs)
      × (joined cs ≡ chunk ++ items)
      × All (IsCall size arg_max base) cs)
    ⊎ ((o ≡ none) × (any (λ item. ltb arg_max (base + room_of item)) items ≡ true))

yield_first-IsDivided :
    (size arg_max base : ℕ) (chunk : List String) (item : String) (items : List String)
    (o : Option (List (List String)))
    → IsCall size arg_max base chunk
    → IsDivided size arg_max base (item ∷ []) o items
    → IsDivided size arg_max base chunk (yield_first chunk o) (item ∷ items)
yield_first-IsDivided size arg_max base chunk item items o c (inl (cs, e, j, a)) =
    inl (chunk ∷ cs, ap (yield_first chunk) e, ap (λ l. chunk ++ l) j, (c, a))
yield_first-IsDivided size arg_max base chunk item items o c (inr (e, h)) =
    inr (ap (yield_first chunk) e, ground arith)

go_on-IsDivided :
    (size arg_max base : ℕ) (chunk : List String) (item : String) (items : List String)
    (o : Option (List (List String)))
    → IsDivided size arg_max base (chunk ++ item ∷ []) o items
    → IsDivided size arg_max base chunk o (item ∷ items)
go_on-IsDivided size arg_max base chunk item items o (inl (cs, e, j, a)) =
    inl (cs, e, j ∙ append_assoc chunk (item ∷ []) items, a)
go_on-IsDivided size arg_max base chunk item items o (inr (e, h)) = inr (e, ground arith)

chunk_from-IsDivided :
    (size arg_max base : ℕ) (chunk : List String) (len : ℕ) (items : List String)
    → IsOpen size arg_max base chunk len
    → IsDivided size arg_max base chunk (chunk_from size arg_max base chunk len items) items
unfolding chunk_from
chunk_from-IsDivided size arg_max base [] len [] o = inl ([], refl, refl, tt)
chunk_from-IsDivided size arg_max base (x ∷ xs) len [] o =
    inl ((x ∷ xs) ∷ [], refl, refl, (IsOpen-IsCall size arg_max base (x ∷ xs) len o refl, tt))
chunk_from-IsDivided size arg_max base chunk len (item ∷ items) o =
    elim (Bool-cases (ltb arg_max (base + room_of item))) [
      | inl b ↦ inr (ground arith, ground arith)
      | inr b ↦ elim (Bool-cases (is_full size arg_max chunk len (room_of item))) [
        | inl f ↦
            let rest = chunk_from size arg_max base (item ∷ []) (base + room_of item) items in
            let q : chunk_from size arg_max base chunk len (item ∷ items) ≡ yield_first chunk rest =
              ground arith in
            subst (λ r. IsDivided size arg_max base chunk r (item ∷ items)) (sym q)
              (yield_first-IsDivided size arg_max base chunk item items rest
                (IsOpen-IsCall size arg_max base chunk len o (ground arith))
                (chunk_from-IsDivided size arg_max base (item ∷ []) (base + room_of item) items
                  (new-IsOpen size arg_max base item b)))
        | inr f ↦
            let rest =
              chunk_from size arg_max base (chunk ++ item ∷ []) (len + room_of item) items in
            let q : chunk_from size arg_max base chunk len (item ∷ items) ≡ rest = ground arith in
            subst (λ r. IsDivided size arg_max base chunk r (item ∷ items)) (sym q)
              (go_on-IsDivided size arg_max base chunk item items rest (
                chunk_from-IsDivided size arg_max base (chunk ++ item ∷ []) (len + room_of item)
                  items (add-IsOpen size arg_max base chunk len item o b f)))
      ]
    ]

-- Arguments that are to be divided: either the chunks, joined, are the arguments in their order, and
-- each chunk has an argument, no more than the size (1 if that is 0), and a call with it is no longer
-- than the system allows; or there are none, since some argument is too long for a call of its own.
pub chunk_args-IsCall :
    (items : List String) (chunk_size arg_max base_len : ℕ)
    → ((cs : List (List String)) × (chunk_args items chunk_size arg_max base_len ≡ some cs)
        × (joined cs ≡ items)
        × All (IsCall chunk_size arg_max base_len) cs)
      ⊎ ((chunk_args items chunk_size arg_max base_len ≡ none)
          × (any (λ item. ltb arg_max (base_len + room_of item)) items ≡ true))
unfolding chunk_args
chunk_args-IsCall items chunk_size arg_max base_len =
    chunk_from-IsDivided chunk_size arg_max base_len [] base_len items
      (record { measured = refl; few = ground arith; short = λ e. cc })
