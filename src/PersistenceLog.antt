-- ===== src/PersistenceLog.antt =====
-- include/persistence/PersistenceLog.h: each method locks the mutex of the log for one call of the
-- writer, so that the call is one step. The log is the file on the disk.
use radish.Shared.{Bool, Result}
use radish.Binary.{BinaryValue}
use radish.Store.{RadishStore, Timestamp}
use radish.Event.{RadishEvent}
use radish.LogWriter
use radish.LogWriter.{Disk, Fault}

module _ {ℓ} {V : Type ℓ} where
  abbrev pub apply : Timestamp → RadishStore V → RadishEvent V → Result (RadishStore V × Bool)
  apply now store event = LogWriter.apply_event now store event

module _ {ℓ} {V : Type ℓ} ⦃b : BinaryValue V⦄ where
  abbrev pub append : Fault → RadishEvent V → Disk → Disk × Result (Unit {0})
  append fault row disk = LogWriter.append fault row disk

  abbrev pub replay : Timestamp → RadishStore V → Disk → Result (RadishStore V)
  replay now store disk = LogWriter.replay now store disk

abbrev pub compact {ℓ} :
    (V : Type ℓ) ⦃b : BinaryValue V⦄ → Timestamp → Fault → Disk → Disk × Result (Unit {0})
compact V now fault disk = LogWriter.compact V now fault disk
