-- ===== src/Killing/Marking.antt =====
-- lsfmgr/killer.py, _mark_killed: what a kill leaves in the records of the targets whose signal was
-- accepted. The records are read before; the store at the marking may be another one.
use pyqt_lsf_job_manager.Base.{
  Bool, List, Option, String, [], any, filter, if◌then◌else◌, is_empty, is_some, none, not,
  pair_key, same_nat, same_option, some, string_key, true, ◌&&◌, ◌||◌, ◌∷◌,
}
use pyqt_lsf_job_manager.States.{
  JobRecord, JobState, Time, is_on_lsf, is_terminal, same_execution, same_text,
}
use pyqt_lsf_job_manager.Lifecycle.Gate.{member}
use pyqt_lsf_job_manager.Store.Effects.{M, Result, err, ok, pure, raise, ◌>>=◌}
use pyqt_lsf_job_manager.Store.Fields.{Field}
use pyqt_lsf_job_manager.Store.Update.{transition}
use pyqt_lsf_job_manager.Submitting.Records.{is_record_gone}

-- The record is still the job that was killed.
unfoldable pub same_job : JobRecord → JobRecord → Bool
same_job target cur =
    same_execution cur target
    && same_option same_nat cur.job_id target.job_id
    && same_option same_nat cur.array_index target.array_index

-- The mark, with the state EXIT.
abbrev pub exit_fields : List Field
exit_fields = Field.fail_reason (some "KILLED") ∷ Field.killed true ∷ []

abbrev pub exit_record : JobRecord → Time → M (Option JobRecord)
exit_record r now =
    transition r.jobset_id r.job_key (some JobState.exit)
      (some (λ cur. same_job r cur && is_on_lsf cur.state)) exit_fields now

-- The mark alone.
abbrev pub mark_record : JobRecord → Time → M (Option JobRecord)
mark_record r now =
    transition r.jobset_id r.job_key none (some (same_job r)) (Field.killed true ∷ []) now

abbrev pub mark_unless : Option JobRecord → JobRecord → Time → M (Option JobRecord)
mark_unless none r now = mark_record r now
mark_unless (some new) r now = pure (some new)

-- The body of the `try` of one record.
unfoldable pub mark_one : Bool → JobRecord → Time → M (Option JobRecord)
mark_one optimistic r now = do
  new ← if optimistic then exit_record r now else pure none
  mark_unless new r now

-- `if new is not None and (optimistic or new.state.is_terminal): changed.append(new)`
abbrev pub add_changed : Bool → Option JobRecord → List JobRecord → List JobRecord
add_changed optimistic none out = out
add_changed optimistic (some new) out =
    if optimistic || is_terminal new.state then new ∷ out else out

-- What follows one record: it is passed over if it is gone.
abbrev pub after_mark : Bool → Result (Option JobRecord) → M (List JobRecord) → M (List JobRecord)
after_mark optimistic (ok o) rest = rest >>= λ out. pure (add_changed optimistic o out)
after_mark optimistic (err e) rest = if is_record_gone e then rest else raise e

unfoldable pub mark_all : Bool → List JobRecord → Time → M (List JobRecord)
mark_all optimistic [] now s = (ok [], s)
mark_all optimistic (r ∷ rs) now s =
    let (o, s') = mark_one optimistic r now s in
    after_mark optimistic o (mark_all optimistic rs now) s'

-- The record is one that this kill ended, where the target of a record is given.
abbrev pub is_killed :
    (JobRecord → String) → List String → List (String × String) → JobRecord → Bool
is_killed rec_target accepted alive_keys r =
    is_some r.job_id
    && member (rec_target r) accepted
    && not (any (λ (id, key). same_text id r.jobset_id && same_text key r.job_key) alive_keys)

-- None is a lookup of the records that raised.
unfoldable pub mark_killed :
    Bool
    → Option (List JobRecord)
    → (JobRecord → String)
    → List String
    → List (String × String)
    → Time
    → M (List JobRecord)
mark_killed optimistic recs rec_target accepted alive_keys now =
    if is_empty accepted then pure [] else elim recs [
      | none ↦ pure []
      | some rs ↦ mark_all optimistic (filter (is_killed rec_target accepted alive_keys) rs) now
    ]
