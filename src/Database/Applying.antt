-- ===== src/Database/Applying.antt =====
-- The two switches that apply an event, that of the database and that of the log, are the same.
use radish.Shared.{Bool, true, false, ◌≡◌, refl, ap}
use radish.Binary.{BinaryValue}
use radish.Store.{RadishStore, Timestamp}
use radish.Event.{EventType, RadishEvent}
use radish.LogWriter
use radish.LogWriter.{Fault, apply_case}
use radish.Database
use radish.Database.{RadishDb, apply_switch, apply_if, finish_commit, commit}

module _ {ℓ} {V : Type ℓ} where
  apply_switch-apply_case :
      (t : EventType) (now : Timestamp) (store : RadishStore V) (event : RadishEvent V)
      → apply_switch t now store event ≡ apply_case t now store event
  unfolding apply_switch apply_case
  apply_switch-apply_case EventType.create now store event = refl
  apply_switch-apply_case EventType.rename now store event = refl
  apply_switch-apply_case EventType.delete now store event = refl
  apply_switch-apply_case EventType.clear now store event = refl
  apply_switch-apply_case (EventType.other n) now store event = refl

  -- With a log or without, an event is applied alike.
  pub apply_if-apply_event :
      (b : Bool) (now : Timestamp) (store : RadishStore V) (event : RadishEvent V)
      → Database.apply_if b now store event ≡ LogWriter.apply_event now store event
  unfolding Database.apply_if Database.apply_event LogWriter.apply_event
  apply_if-apply_event true now store event = refl
  apply_if-apply_event false now store event = apply_switch-apply_case event.m_type now store event

-- A commit applies the event as the log does when it is replayed.
pub commit-apply_event {ℓ} :
    {V : Type ℓ} ⦃b : BinaryValue V⦄ (now : Timestamp) (fault : Fault) (event : RadishEvent V)
    (db : RadishDb V)
    → commit now fault event db
      ≡ finish_commit fault event db (LogWriter.apply_event now db.m_store event)
unfolding commit
commit-apply_event now fault event db =
    ap (finish_commit fault event db) (apply_if-apply_event db.m_persistence now db.m_store event)
