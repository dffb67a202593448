-- ===== src/Server/Invariant.antt =====
-- What holds of a server between two handlers.
use radish.Shared.{
  ◌<◌, ◌≤◌, Bool, true, false, not, List, [], ◌∷◌, ◌++◌, ◌≡◌, arith, Bytes, All, subst,
}
use radish.Database.{RadishDb}
use radish.Session
use radish.Session.{Session, Environment}
use radish.Session.Steps.Invariant.{IsSound, start-IsSound, Step-IsSound}
use radish.Server.{
  Server, accept, start, stop, admit, on_accept, with_database, served_by, ServerStep,
  accepts_connection, stops, serves, ServerSteps, here, then_step,
}

-- One accept is in flight until the server is stopped, and at most one behind that; it listens until
-- it is stopped; and every session is sound.
pub record IsSoundServer (s : Server) : Type 0 where
  pub one_accept : s.accepts ≤ 1
  pub accepting : s.m_stopped ≡ false → s.accepts ≡ 1
  pub listening : s.is_listening ≡ not s.m_stopped
  pub all_sound : All IsSound s.sessions

All-snoc :
    (xs : List Session) (x : Session) → All IsSound xs → IsSound x → All IsSound (xs ++ x ∷ [])
All-snoc [] x h p = (p, tt)
All-snoc (y ∷ xs) x h p = (h.0, All-snoc xs x h.1 p)

-- One of the sessions is replaced.
All-replace :
    (before after : List Session) (t u : Session)
    → (IsSound t → IsSound u)
    → All IsSound (before ++ t ∷ after)
    → All IsSound (before ++ u ∷ after)
All-replace [] after t u f h = (f h.0, h.1)
All-replace (y ∷ before) after t u f h = (h.0, All-replace before after t u f h.1)

with_database-IsSound :
    (db : RadishDb Bytes) (t : Session) → IsSound t → IsSound (with_database db t)
unfolding with_database
with_database-IsSound db t v = ground arith

start-IsSoundServer : (db : RadishDb Bytes) → IsSoundServer (start db)
unfolding start accept
start-IsSoundServer db = ground arith

on_accept-IsSoundServer :
    (connected : Bool) (s : Server)
    → 0 < s.accepts
    → IsSoundServer s
    → IsSoundServer (on_accept connected s)
unfolding on_accept admit accept
on_accept-IsSoundServer false s h v = ground arith
on_accept-IsSoundServer true s h v = ground (
  arith,
  All-snoc s.sessions (Session.start s.m_database) v.all_sound (start-IsSound s.m_database),
)

step-IsSoundServer : {s s' : Server} → ServerStep s s' → IsSoundServer s → IsSoundServer s'
unfolding stop served_by
step-IsSoundServer {s} (accepts_connection connected h e) v =
    subst IsSoundServer e (on_accept-IsSoundServer connected s h v)
step-IsSoundServer {s} (stops e) v = subst IsSoundServer e (ground arith)
step-IsSoundServer {s} (serves calls before after t u e step e') v =
    subst IsSoundServer e' (record {
      one_accept = v.one_accept;
      accepting = v.accepting;
      listening = v.listening;
      all_sound =
          All-replace before after t u
            (λ w. Step-IsSound calls step (with_database-IsSound s.m_database t w))
            (subst (All IsSound) e v.all_sound);
    })

steps-IsSoundServer : {s t : Server} → ServerSteps s t → IsSoundServer s → IsSoundServer t
steps-IsSoundServer here v = v
steps-IsSoundServer (then_step steps step) v = step-IsSoundServer step (steps-IsSoundServer steps v)

-- Whatever operations complete or fail, in any order and without an exception: one accept is in
-- flight until the server is stopped and at most one behind that, it listens exactly until it
-- is stopped, and each of its sessions has at most one read and one write in flight, the write
-- only for a queued response, no read once it is to be closed, and a closed socket only behind
-- its last response.
pub reachable-IsSoundServer :
    (db : RadishDb Bytes) (s : Server) → ServerSteps (start db) s → IsSoundServer s
reachable-IsSoundServer db s steps = steps-IsSoundServer steps (start-IsSoundServer db)
