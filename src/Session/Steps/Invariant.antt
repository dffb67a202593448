-- ===== src/Session/Steps/Invariant.antt =====
-- What holds of a session between two handlers, whatever operations have failed.
use radish.Shared.{
  ℕ, ◌-◌, ◌<◌, ◌≤◌, Bool, true, false, Option, none, some, List, [], ◌∷◌, ◌++◌, ◌≡◌, inl, inr, refl,
  ap, arith, Bytes, ok, subst,
}
use radish.Database.{RadishDb}
use radish.Commands.{Context}
use radish.Session.{
  Session, Environment, has_none, start, read, queue, receive, on_read, after_write, pop_output,
  on_write,
}
use radish.Session.Steps.{
  Step, reads_bytes, reads_error, writes_response, writes_error, Steps, here, then_step, Left,
  after_receive-Left,
}

-- At most one operation of each kind is in flight, a write only for a queued response, no read once
-- the session is to be closed, and the socket is closed only behind the last response.
pub record IsSound (s : Session) : Type 0 where
  pub one_read : s.reads ≤ 1
  pub one_write : s.writes ≤ 1
  pub pending : 0 < s.writes → has_none s.m_output ≡ false
  pub last_read : s.m_close_after_write ≡ true → s.reads ≡ 0
  pub closed : s.is_open ≡ false → (s.m_close_after_write ≡ true) × (has_none s.m_output ≡ true)

-- The same while the handler of a read runs.
record IsActive (s : Session) : Type 0 where
  no_read : s.reads ≡ 0
  one_write : s.writes ≤ 1
  pending : 0 < s.writes → has_none s.m_output ≡ false
  opened : s.is_open ≡ true

has_none-push : {A : Type 0} (xs : List A) (x : A) → has_none (xs ++ x ∷ []) ≡ false
has_none-push [] x = refl
has_none-push (y ∷ xs) x = refl

queue-IsActive :
    (response : Bytes) (close : Bool) (s : Session) → IsActive s → IsActive (queue response close s)
unfolding queue
queue-IsActive response close s a = ground (arith, has_none-push s.m_output response)

moved-IsActive :
    (c : Context) (input : Bytes) (n : ℕ) (s : Session)
    → IsActive s
    → IsActive (record s { context = c; m_input = input; served = n })
moved-IsActive c input n s a = ground arith

module _ (calls : Environment) where
  active :
      (bytes : Bytes) (s : Session)
      → IsSound s
      → 0 < s.reads
      → IsActive (receive bytes (record s { reads = s.reads - 1 }))
  unfolding receive
  active bytes s v h = ground arith

  Left-IsSound : {s' : Session} → Left IsActive queue-IsActive moved-IsActive calls s' → IsSound s'
  unfolding read
  Left-IsSound (inl (a, closing)) = ground arith
  Left-IsSound (inr (t, a, going, e)) = rw e (ground arith)

  on_read-IsSound :
      (input : Option Bytes) (s s' : Session)
      → IsSound s
      → 0 < s.reads
      → on_read calls input s ≡ (s', ok tt)
      → IsSound s'
  unfolding on_read
  on_read-IsSound none s s' v h e = subst IsSound (ap (λ r. r.0) e) (ground arith)
  on_read-IsSound (some bytes) s s' v h e = subst IsSound (ap (λ r. r.0) e) (
      Left-IsSound (
        after_receive-Left IsActive queue-IsActive moved-IsActive calls
          (receive bytes (record s { reads = s.reads - 1 })) (active bytes s v h)
          (ap (λ r. r.1) e)))

  on_write-IsSound :
      (done : Bool) (s : Session) → IsSound s → 0 < s.writes → IsSound (on_write done s)
  unfolding on_write
  on_write-IsSound false s v h = ground arith
  on_write-IsSound true s v h = popped s.m_output refl
    where
      popped :
          (output : List Bytes)
          → s.m_output ≡ output
          → IsSound (after_write (pop_output output (record s { writes = s.writes - 1 })))
      popped [] e = absurd (cc (v.pending h))
      popped (response ∷ []) e = unfold after_write pop_output in ground (arith, e)
      popped (response ∷ next ∷ rest) e = unfold after_write pop_output in ground (arith, e)

  pub Step-IsSound : {s s' : Session} → Step calls s s' → IsSound s → IsSound s'
  Step-IsSound {s} {s'} (reads_bytes bytes h e) v = on_read-IsSound (some bytes) s s' v h e
  Step-IsSound {s} {s'} (reads_error h e) v = on_read-IsSound none s s' v h e
  Step-IsSound {s} (writes_response h e) v = subst IsSound e (on_write-IsSound true s v h)
  Step-IsSound {s} (writes_error h e) v = subst IsSound e (on_write-IsSound false s v h)

pub start-IsSound : (db : RadishDb Bytes) → IsSound (start db)
unfolding start
start-IsSound db = ground arith

Steps-IsSound : (calls : Environment) {s t : Session} → Steps calls s t → IsSound s → IsSound t
Steps-IsSound calls here v = v
Steps-IsSound calls (then_step steps step) v = Step-IsSound calls step (Steps-IsSound calls steps v)

-- Every session that steps lead to from a new one is sound.
pub reachable-IsSound :
    (calls : Environment) (db : RadishDb Bytes) (s : Session) → Steps calls (start db) s → IsSound s
reachable-IsSound calls db s steps = Steps-IsSound calls steps (start-IsSound db)
