-- ===== src/Bench/Pipeline.antt =====
-- `ExecutePipeline` of the client against a session of the server.
use radish.Shared.{
  ℕ, suc, ◌<◌, ◌≤◌, ◌^◌, false, List, [], ◌∷◌, ◌++◌, ◌≡◌, refl, sym, ap, ◌∙◌, arith, Bytes, All,
  length, length-append, map, joined, ok, append_assoc,
}
use radish.Store.Valid.{IsValid}
use radish.RespCodec.{encode_command, max_buffered_input}
use radish.Commands.{Context}
use radish.Commands.Answering.{dispatch-Replies}
use radish.Commands.Effects.{dispatch-Becomes_wrapped}
use radish.Session.{Session, Environment}
use radish.Session.Pipeline.{Answers, no_commands, next_command, IsSendable, encode_all, answered}
use radish.Session.Feeding.{feed, feed-Answers}
use radish.Session.Steps.Liveness.{IsHealthy, write_all, write_all-delivers}
use radish.Bench.Connection.{max_levels, pipeline_request, read_responses}
use radish.Bench.Connection.Readable.{succeeded, IsReadable, reply-IsReadable}

pipeline_request-encode_all :
    (commands : List (List Bytes)) → pipeline_request commands ≡ encode_all commands
unfolding pipeline_request
pipeline_request-encode_all [] = refl
pipeline_request-encode_all (command ∷ commands) =
    ap (λ s. encode_command command ++ s) (pipeline_request-encode_all commands)

pub read_responses-joined :
    (replies : List Bytes) (rest : Bytes)
    → All IsReadable replies
    → read_responses (length replies) (joined replies ++ rest) ≡ ok (map succeeded replies, rest)
unfolding read_responses
read_responses-joined [] rest h = refl
read_responses-joined (reply ∷ replies) rest h =
    rw
      (
        append_assoc reply (joined replies) rest,
        h.0 max_levels (joined replies ++ rest) (omega arith),
        read_responses-joined replies rest h.1,
      )
      refl

pub Answers-IsReadable :
    {calls : Environment} {n m : ℕ} {c d : Context} {commands : List (List Bytes)}
    {responses : List Bytes}
    → Answers calls n c commands m d responses
    → IsValid c.m_database.m_store
    → All IsSendable commands
    → length (joined responses) < 2 ^ 63
    → All IsReadable responses
Answers-IsReadable no_commands v sendable h = tt
Answers-IsReadable {calls}
      (next_command {n = n} {b = b} {c = c} {arguments = []} {response = r} {responses = rs} answer
        answers)
      v sendable h =
    absurd (omega (arith, sendable.0.0))
Answers-IsReadable {calls}
      (next_command {n = n} {b = b} {c = c} {arguments = command ∷ arguments} {response = r}
        {responses = rs} answer answers)
      v sendable h =
    let e = length-append r (joined rs) in
    let after = dispatch-Becomes_wrapped (calls n) command arguments b c (r, false) v answer in
    (
      reply-IsReadable (calls n) b.m_version _ _ _ (r, false)
          (dispatch-Replies (calls n) command arguments b c (r, false) v answer) (omega arith),
      Answers-IsReadable answers after.valid sendable.1 (omega arith),
    )

pub length-Answers :
    {calls : Environment} {n m : ℕ} {c d : Context} {commands : List (List Bytes)}
    {responses : List Bytes}
    → Answers calls n c commands m d responses
    → length commands ≡ length responses
length-Answers no_commands = refl
length-Answers (next_command answer answers) = ap suc (length-Answers answers)

-- The responses are queued behind nothing: a healthy session stays so.
answered-IsHealthy :
    (m : ℕ) (d : Context) (responses : List Bytes) (s : Session)
    → s.m_output ≡ []
    → s.m_close_after_write ≡ false
    → IsHealthy s
    → IsHealthy (answered [] m d responses s)
answered-IsHealthy m d [] s e going v = record {
  reading = v.reading;
  writing = ground (arith, e, v.writing);
  opened = ground (arith, e, going, v.opened);
}
answered-IsHealthy m d (response ∷ responses) s e going v = record {
  reading = v.reading;
  writing = ground (arith, e, v.writing);
  opened = ground (arith, e, going, v.opened);
}

-- Let a session wait for input with nothing queued, its operations in flight be as its queue
-- and flag have them, its store valid, and the commands of a pipeline be ones that it may be
-- sent and that are dispatched in turn without an exception or a close, with responses of less
-- than 2^63 bytes in all. If the bytes that the client sends for them are at most 8 MiB and
-- arrive in any pieces, the handlers of the reads end with the responses of these dispatches
-- queued, so many completed writes send them in order, and the client reads from them, whatever
-- follows, one result for each command: true exactly for a response that is not an error, with
-- nothing of the responses left over.
pub pipeline-answered :
    (calls : Environment) (pieces : List Bytes) {m : ℕ} {d : Context} {commands : List (List Bytes)}
    {responses : List Bytes} (s : Session) (rest : Bytes)
    → Answers calls s.served s.context commands m d responses
    → IsHealthy s
    → s.m_input ≡ []
    → s.m_output ≡ []
    → s.m_close_after_write ≡ false
    → IsValid s.context.m_database.m_store
    → All IsSendable commands
    → joined pieces ≡ pipeline_request commands
    → length (joined pieces) ≤ max_buffered_input
    → length (joined responses) < 2 ^ 63
    → let t = answered [] m d responses s in
      (feed calls pieces (s, ok tt) ≡ (t, ok tt))
      × ((write_all (length responses) t).sent ≡ s.sent ++ responses)
      × (read_responses (length commands) (joined responses ++ rest)
          ≡ ok (map succeeded responses, rest))
pipeline-answered calls pieces {m} {d} {commands} {responses} s rest answers healthy empty quiet
      going valid sendable cut room short =
    (
      feed-Answers calls pieces s answers empty going (ground (arith, healthy.reading, going))
          sendable (cut ∙ pipeline_request-encode_all commands) room,
      delivered,
      ap (λ n. read_responses n (joined responses ++ rest)) (length-Answers answers)
          ∙ read_responses-joined responses rest (Answers-IsReadable answers valid sendable short),
    )
  where
    t : Session
    t = answered [] m d responses s

    queued : t.m_output ≡ responses
    queued = ap (λ l. l ++ responses) quiet

    delivered : (write_all (length responses) t).sent ≡ s.sent ++ responses
    delivered =
        ap (λ l. (write_all (length l) t).sent) (sym queued)
        ∙ (write_all-delivers t (answered-IsHealthy m d responses s quiet going healthy)).0
        ∙ ap (λ l. s.sent ++ l) queued
