-- ===== src/Submitting/Steps.antt =====
-- lsfmgr/submitter.py: the interleavings of the threads of a cycle, of the kills and cancellations
-- that reach it, and of other writers of the store.
use pyqt_lsf_job_manager.Base.{
  Bool, List, is_empty, keys, none, some, string_key, true, ◌++◌, ◌∷◌, ◌≡◌,
}
use pyqt_lsf_job_manager.Store.Effects.{Store}
use pyqt_lsf_job_manager.Lifecycle.Gate.{Scope, inter, union}
use pyqt_lsf_job_manager.Submitting.Cycle.{Context, Cycle, Work, aborting}
use pyqt_lsf_job_manager.Submitting.Tasks.{Turn, perform}

abbrev cancel_context : Scope → Context → Context
cancel_context none c = record c { cancel_event = true }
cancel_context (some keys) c = record c { cancelled_keys = union c.cancelled_keys keys }

-- `_cancel_scope`, the callback of a kill.
unfoldable pub cancel_scope : Scope → Cycle → Cycle
cancel_scope scope c = record c {
  context = cancel_context scope c.context;
  works = aborting scope "KILLED" ∷ c.works;
}

unfoldable pub cancel_submit : Cycle → Cycle
cancel_submit c = record c {
  context = cancel_context none c.context;
  works = aborting none "CANCELLED" ∷ c.works;
}

unfoldable pub shutdown : Cycle → Cycle
shutdown c = record c {
  is_shut_down = true;
  context = cancel_context none c.context;
  works = aborting none "SHUTDOWN" ∷ c.works;
}

-- What `_wait_scope` waits for.
unfoldable pub is_quiet : Scope → Context → Bool
is_quiet none c = is_empty c.inflight
is_quiet (some keys) c = is_empty (inter keys c.inflight)

pub data Step (c d : Cycle) : Type 0 where
  -- Any of the works is done next.
  act :
      (before after : List Work) (w : Work) (t : Turn)
      → c.works ≡ before ++ w ∷ after
      → d ≡ perform w t (record c { works = before ++ after })
      → Step c d
  kill : (scope : Scope) → d ≡ cancel_scope scope c → Step c d
  cancel : d ≡ cancel_submit c → Step c d
  shut : d ≡ shutdown c → Step c d
  elsewhere : (s : Store) → d ≡ record c { store = s } → Step c d

pub data Reach (c : Cycle) : Cycle → Type 0 where
  here : Reach c c
  next : {d e : Cycle} → Reach c d → Step d e → Reach c e
