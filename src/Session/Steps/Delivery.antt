-- ===== src/Session/Steps/Delivery.antt =====
-- The responses of a session in the order in which they were made, written or not.
use radish.Shared.{
  ◌-◌, Bool, true, false, List, [], ◌∷◌, ◌++◌, ◌≡◌, refl, sym, ap, ◌∙◌, arith, Bytes, append_assoc,
}
use radish.Session.{Session, write, after_write, pop_output, on_write}
use radish.Session.Steps.{Steps}

abbrev pub history : Session → List Bytes
history s = s.sent ++ s.m_output

-- The history of the first session is where that of the second begins, and what has been written
-- stays written.
abbrev pub Extends : List Bytes → Session → Type 0
Extends past s = (more : List Bytes) × (history s ≡ past ++ more)

history-after_write : (s : Session) → history (after_write s) ≡ history s
unfolding after_write write
history-after_write s = ground arith

history-pop_output :
    (output : List Bytes) (s : Session)
    → s.m_output ≡ output
    → history (pop_output output s) ≡ history s
unfolding pop_output
history-pop_output [] s e = refl
history-pop_output (response ∷ rest) s e =
    append_assoc s.sent (response ∷ []) rest ∙ ap (λ l. s.sent ++ l) (sym e)

-- The handler of a write moves a response at most from the queue to the written ones.
pub history-on_write : (done : Bool) (s : Session) → history (on_write done s) ≡ history s
unfolding on_write
history-on_write false s = refl
history-on_write true s =
    history-after_write (pop_output s.m_output (record s { writes = s.writes - 1 }))
    ∙ history-pop_output s.m_output (record s { writes = s.writes - 1 }) refl
