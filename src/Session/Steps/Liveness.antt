-- ===== src/Session/Steps/Liveness.antt =====
-- A session none of whose operations fails: it always waits for one, until it is closed.
use radish.Shared.{
  ℕ, zero, suc, ◌-◌, ◌<◌, Bool, true, false, not, ◌&&◌, some, List, [], ◌∷◌, ◌++◌, ◌≡◌, inl, inr,
  refl, sym, ap, ◌∙◌, arith, Bytes, length, append-nil, if◌then◌else◌, ok, subst,
}
use radish.Database.{RadishDb}
use radish.Commands.{Context}
use radish.Session.{
  Session, Environment, has_none, start, read, write, queue, receive, on_read, after_write,
  pop_output, on_write,
}
use radish.Session.Steps.{Left, after_receive-Left}
use radish.Session.Steps.Delivery.{history, history-on_write}

pub data SmoothSteps (calls : Environment) : Session → Session → Type 0 where
  here : {s : Session} → SmoothSteps calls s s
  then_read :
      {s t u : Session} (bytes : Bytes)
      → SmoothSteps calls s t
      → 0 < t.reads
      → on_read calls (some bytes) t ≡ (u, ok tt)
      → SmoothSteps calls s u
  then_write :
      {s t u : Session}
      → SmoothSteps calls s t
      → 0 < t.writes
      → on_write true t ≡ u
      → SmoothSteps calls s u

-- The operations in flight and the socket, as the queue and the flag have them.
pub record IsHealthy (s : Session) : Type 0 where
  pub reading : s.reads ≡ (if s.m_close_after_write then 0 else 1)
  pub writing : s.writes ≡ (if has_none s.m_output then 0 else 1)
  pub opened : s.is_open ≡ not (s.m_close_after_write && has_none s.m_output)

-- The same while the handler of a read runs.
record IsBusy (s : Session) : Type 0 where
  no_read : s.reads ≡ 0
  writing : s.writes ≡ (if has_none s.m_output then 0 else 1)
  opened : s.is_open ≡ true
  answering : s.m_close_after_write ≡ true → has_none s.m_output ≡ false

has_none-push : {A : Type 0} (xs : List A) (x : A) → has_none (xs ++ x ∷ []) ≡ false
has_none-push [] x = refl
has_none-push (y ∷ xs) x = refl

queue-IsBusy :
    (response : Bytes) (close : Bool) (s : Session) → IsBusy s → IsBusy (queue response close s)
unfolding queue
queue-IsBusy response close s a = ground (arith, has_none-push s.m_output response)

moved-IsBusy :
    (c : Context) (input : Bytes) (n : ℕ) (s : Session)
    → IsBusy s
    → IsBusy (record s { context = c; m_input = input; served = n })
moved-IsBusy c input n s a = ground arith

module _ (calls : Environment) where
  busy :
      (bytes : Bytes) (s : Session)
      → IsHealthy s
      → 0 < s.reads
      → IsBusy (receive bytes (record s { reads = s.reads - 1 }))
  unfolding receive
  busy bytes s v h = ground arith

  Left-IsHealthy : {s' : Session} → Left IsBusy queue-IsBusy moved-IsBusy calls s' → IsHealthy s'
  unfolding read
  Left-IsHealthy (inl (a, closing)) = ground arith
  Left-IsHealthy (inr (t, a, going, e)) = rw e (ground arith)

  on_read-IsHealthy :
      (bytes : Bytes) (s s' : Session)
      → IsHealthy s
      → 0 < s.reads
      → on_read calls (some bytes) s ≡ (s', ok tt)
      → IsHealthy s'
  unfolding on_read
  on_read-IsHealthy bytes s s' v h e = subst IsHealthy (ap (λ r. r.0) e) (
      Left-IsHealthy (
        after_receive-Left IsBusy queue-IsBusy moved-IsBusy calls
          (receive bytes (record s { reads = s.reads - 1 })) (busy bytes s v h) (ap (λ r. r.1) e)))

on_write-IsHealthy : (s : Session) → IsHealthy s → 0 < s.writes → IsHealthy (on_write true s)
unfolding on_write
on_write-IsHealthy s v h = popped s.m_output refl
  where
    popped :
        (output : List Bytes)
        → s.m_output ≡ output
        → IsHealthy (after_write (pop_output output (record s { writes = s.writes - 1 })))
    popped [] e = absurd (ground (arith, e))
    popped (response ∷ []) e = unfold after_write pop_output in ground (arith, e)
    popped (response ∷ next ∷ rest) e = unfold after_write pop_output in ground (arith, e)

start-IsHealthy : (db : RadishDb Bytes) → IsHealthy (start db)
unfolding start
start-IsHealthy db = ground arith

steps-IsHealthy :
    (calls : Environment) {s t : Session} → SmoothSteps calls s t → IsHealthy s → IsHealthy t
steps-IsHealthy calls here v = v
steps-IsHealthy calls (then_read {t = t} {u = u} bytes steps h e) v =
    on_read-IsHealthy calls bytes t u (steps-IsHealthy calls steps v) h e
steps-IsHealthy calls (then_write {t = t} steps h e) v =
    subst IsHealthy e (on_write-IsHealthy t (steps-IsHealthy calls steps v) h)

-- In a session started anew, none of whose operations fails and whose handlers throw nothing, a
-- read is in flight exactly until it is to be closed, a write exactly while a response is
-- queued, and the socket is open until it is to be closed and no response is queued.
pub reachable-IsHealthy :
    (calls : Environment) (db : RadishDb Bytes) (s : Session)
    → SmoothSteps calls (start db) s
    → IsHealthy s
reachable-IsHealthy calls db s steps = steps-IsHealthy calls steps (start-IsHealthy db)

-- The completions of so many writes.
abbrev pub write_all : ℕ → Session → Session
write_all zero s = s
write_all (suc n) s = write_all n (on_write true s)

m_output-on_write :
    (s : Session) (response : Bytes) (rest : List Bytes)
    → s.m_output ≡ response ∷ rest
    → ((on_write true s).m_output ≡ rest)
      × ((on_write true s).m_close_after_write ≡ s.m_close_after_write)
unfolding on_write after_write pop_output write
m_output-on_write s response rest e = ground (arith, e)

drained :
    (output : List Bytes) (s : Session)
    → s.m_output ≡ output
    → IsHealthy s
    → let t = write_all (length output) s in
      (t.m_output ≡ [])
      × (history t ≡ history s)
      × IsHealthy t
      × (t.m_close_after_write ≡ s.m_close_after_write)
drained [] s e v = (e, refl, v, refl)
drained (response ∷ rest) s e v =
    let t = on_write true s in
    let (e', closing) = m_output-on_write s response rest e in
    let (done, past, healthy, same) =
      drained rest t e' (on_write-IsHealthy s v (busy_writing s e v)) in
    (done, past ∙ history-on_write true s, healthy, same ∙ closing)
  where
    busy_writing : (s : Session) → s.m_output ≡ response ∷ rest → IsHealthy s → 0 < s.writes
    busy_writing s e v = ground (arith, e)

-- In a session whose operations in flight are as its queue and flag have them, the completions
-- of as many writes as there are responses send all of them in their order and leave the queue
-- empty; they close the socket exactly if the session was to be closed.
pub write_all-delivers :
    (s : Session)
    → IsHealthy s
    → let t = write_all (length s.m_output) s in
      (t.sent ≡ s.sent ++ s.m_output) × (t.m_output ≡ []) × (t.is_open ≡ not s.m_close_after_write)
write_all-delivers s v =
    let (done, past, healthy, same) = drained s.m_output s refl v in
    (
      sym (append-nil _) ∙ ap (λ l. (write_all (length s.m_output) s).sent ++ l) (sym done) ∙ past,
      done,
      healthy.opened ∙ shut (write_all (length s.m_output) s) s.m_close_after_write done same,
    )
  where
    shut :
        (t : Session) (b : Bool)
        → t.m_output ≡ []
        → t.m_close_after_write ≡ b
        → not (t.m_close_after_write && has_none t.m_output) ≡ not b
    shut t b e h = ground (arith, e, h)
