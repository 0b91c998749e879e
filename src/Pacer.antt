-- ===== src/Pacer.antt =====
-- lsfmgr/pacer.py, StatePacer: the queues of the changes of state that wait to be shown. Times are
-- microseconds, and `now` is the value of time.monotonic(), which is not before any time noted.
-- What `emit_fn` sends is an event of the result; the slots that run before it returns are a
-- function on the pacer. The timer holds the time at which it fires.
pub mod Queue
use pyqt_lsf_job_manager.Base.{
  Bool, Dict, List, Option, String, [], false, filter, get, has, if◌then◌else◌, keys, leb, length,
  ltb, map, none, not, or_default, pair_key, pop, put, some, string_key, true, ℕ, ◌&&◌, ◌++◌, ◌+◌,
  ◌∷◌,
}
use pyqt_lsf_job_manager.States.{JobRecord, JobState, Time, same_state, same_text}

abbrev pub JobKey : Type 0
JobKey = String × String

pub record Pacer : Type 0 where
  pub dwell : Time
  pub shown : Dict JobKey (JobState × Time)
  pub queue : Dict JobKey (List JobRecord)
  pub timer : Option Time

-- `emit_fn(jobset_id, records)`
pub record Batch : Type 0 where
  pub jobset_id : String
  pub records : List JobRecord

abbrev pub Slots : Type 0
Slots = Batch → Pacer → Pacer

-- `_DUE_TOLERANCE_S` and `_PRUNE_AT`
abbrev pub due_tolerance : Time
due_tolerance = 5000

abbrev pub prune_at : ℕ
prune_at = 4096

-- `now - shown >= dwell - tolerance`
abbrev pub has_dwelt : Time → Time → Time → Bool
has_dwelt now since dwell = leb (since + dwell) (now + due_tolerance)

-- `_enqueue`: another record of the state that waits last takes its place.
unfoldable pub enqueue : List JobRecord → JobRecord → List JobRecord
enqueue [] rec = rec ∷ []
enqueue (q ∷ []) rec = if same_state q.state rec.state then rec ∷ [] else q ∷ rec ∷ []
enqueue (q ∷ r ∷ qs) rec = q ∷ enqueue (r ∷ qs) rec

-- One turn of the loop of `push`: the record, if it is due at once, and the pacer.
abbrev pub accept_unqueued : JobKey → JobRecord → Time → Pacer → Option JobRecord × Pacer
accept_unqueued key rec now p = elim (get key p.shown) [
  | none ↦ (some rec, record p { shown = put key (rec.state, now) p.shown })
  | some (state, since) ↦
      if same_state rec.state state
      then (some rec, p)
      else if has_dwelt now since p.dwell
      then (some rec, record p { shown = put key (rec.state, now) p.shown })
      else (none, record p { queue = put key (rec ∷ []) p.queue })
]

unfoldable pub accept : String → JobRecord → Time → Pacer → Option JobRecord × Pacer
unfolding enqueue
accept jobset_id rec now p =
    let key : JobKey = (jobset_id, rec.job_key) in
    elim (get key p.queue) [
      | none ↦ accept_unqueued key rec now p
      | some q ↦ (none, record p { queue = put key (enqueue q rec) p.queue })
    ]

abbrev pub cons_due : Option JobRecord → List JobRecord → List JobRecord
cons_due none due = due
cons_due (some rec) due = rec ∷ due

unfoldable pub accept_all : String → List JobRecord → Time → Pacer → List JobRecord × Pacer
accept_all jobset_id [] now p = ([], p)
accept_all jobset_id (rec ∷ recs) now p =
    let (o, p') = accept jobset_id rec now p in
    let (due, p'') = accept_all jobset_id recs now p' in (cons_due o due, p'')

-- `_safe_emit`, where there is anything to emit.
abbrev pub emit : Slots → String → List JobRecord → Pacer → List Batch × Pacer
emit slots jobset_id [] p = ([], p)
emit slots jobset_id (r ∷ rs) p =
    let batch : Batch = record { jobset_id = jobset_id; records = r ∷ rs } in
    (batch ∷ [], slots batch p)

-- `_prune`: what has dwelt and waits for nothing is forgotten, where there is much.
abbrev pub is_stale : Time → Pacer → JobKey × (JobState × Time) → Bool
is_stale now p (key, (state, since)) = ltb (since + p.dwell) now && not (has key p.queue)

unfoldable pub prune : Time → Pacer → Pacer
prune now p =
    if leb (length p.shown) prune_at
    then p
    else record p { shown = filter (λ e. not (is_stale now p e)) p.shown }

-- `_reschedule`: the earliest time at which a queued key is due.
abbrev pub due_of : Time → Pacer → JobKey → Time
due_of now p key = elim (get key p.shown) [ none ↦ now | some (state, since) ↦ since + p.dwell ]

abbrev pub earlier : Option Time → Time → Option Time
earlier none t = some t
earlier (some due) t = if ltb t due then some t else some due

unfoldable pub earliest : Time → Pacer → Option Time → List JobKey → Option Time
earliest now p due [] = due
earliest now p due (key ∷ ks) = earliest now p (earlier due (due_of now p key)) ks

unfoldable pub reschedule : Time → Pacer → Pacer
reschedule now p = record p { timer = earliest now p none (keys p.queue) }

unfoldable pub push : Slots → String → List JobRecord → Time → Pacer → List Batch × Pacer
push slots jobset_id recs now p =
    let (due, p') = accept_all jobset_id recs now p in
    let (sent, p'') = emit slots jobset_id due p' in (sent, reschedule now (prune now p''))

abbrev pub drop_key : JobKey → Pacer → Pacer
drop_key key p = record p { queue = pop key p.queue; shown = pop key p.shown }

unfoldable pub drop_all : List JobKey → Pacer → Pacer
drop_all [] p = p
drop_all (key ∷ ks) p = drop_all ks (drop_key key p)

abbrev pub keys_of_jobset : String → List JobKey → List JobKey
keys_of_jobset jobset_id = filter (λ k. same_text k.0 jobset_id)

unfoldable pub forget : String → Option (List String) → Time → Pacer → Pacer
forget jobset_id job_keys now p =
    let dropped : List JobKey = elim job_keys [
      | some ks ↦ map (λ k. (jobset_id, k)) ks
      | none ↦ keys_of_jobset jobset_id (keys p.queue) ++ keys_of_jobset jobset_id (keys p.shown)
    ] in
    reschedule now (drop_all dropped p)

-- The record that a queued key gives up, with what stays queued.
unfoldable pub last_of : JobRecord → List JobRecord → JobRecord
last_of q [] = q
last_of q (r ∷ qs) = last_of r qs

abbrev pub left : Bool → List JobRecord → List JobRecord
left flush qs = if flush then [] else qs

abbrev pub requeue :
    JobKey → List JobRecord → Dict JobKey (List JobRecord) → Dict JobKey (List JobRecord)
requeue key [] m = pop key m
requeue key (q ∷ qs) m = put key (q ∷ qs) m

-- Shown for too short a time to give way.
abbrev pub must_stay : Bool → Time → JobKey → Pacer → Bool
must_stay flush now key p = not flush && elim (get key p.shown) [
  | none ↦ false
  | some (state, since) ↦ not (has_dwelt now since p.dwell)
]

unfoldable pub drain_key : Bool → Time → JobKey → Pacer → Option JobRecord × Pacer
unfolding last_of
drain_key flush now key p = elim (or_default [] (get key p.queue)) [
  | [] ↦ (none, p)
  | ◌∷◌ q qs ↦
      if must_stay flush now key p
      then (none, p)
      else let rec = if flush then last_of q qs else q in
        (
          some rec,
          record p {
            queue = requeue key (left flush qs) p.queue;
            shown = put key (rec.state, now) p.shown;
          },
        )
]

unfoldable pub drain_keys : Bool → Time → List JobKey → Pacer → List JobRecord × Pacer
drain_keys flush now [] p = ([], p)
drain_keys flush now (key ∷ ks) p =
    let (o, p') = drain_key flush now key p in
    let (recs, p'') = drain_keys flush now ks p' in (cons_due o recs, p'')

-- The batches of the keys by their job sets, in the order of the queue.
unfoldable pub batches_of : Dict String (List JobKey) → List JobKey → Dict String (List JobKey)
batches_of m [] = m
batches_of m (key ∷ ks) = batches_of (put key.0 (or_default [] (get key.0 m) ++ key ∷ []) m) ks

-- The keys are read from the queue before the first batch, the records when their batch is sent.
unfoldable pub drain_batches :
    Slots → Bool → Time → Dict String (List JobKey) → Pacer → List Batch × Pacer
drain_batches slots flush now [] p = ([], p)
drain_batches slots flush now ((jobset_id, ks) ∷ m) p =
    let (recs, p') = drain_keys flush now ks p in
    let (sent, p'') = emit slots jobset_id recs p' in
    let (later, p₃) = drain_batches slots flush now m p'' in (sent ++ later, p₃)

unfoldable pub drain : Slots → Bool → Time → Pacer → List Batch × Pacer
drain slots flush now p =
    let (sent, p') = drain_batches slots flush now (batches_of [] (keys p.queue)) p in
    (sent, reschedule now p')

unfoldable pub stop : Slots → Time → Pacer → List Batch × Pacer
stop slots now p =
    let (sent, p') = drain slots true now (record p { timer = none; dwell = 0 }) in
    (sent, record p' { shown = [] })
