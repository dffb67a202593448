-- ===== src/Bench/Worker/Counting.antt =====
-- What a worker counts, when every round is answered by as many replies as it sends commands.
use radish.Shared.{
  ℕ, suc, ◌+◌, ◌-◌, ◌^◌, ◌<◌, ◌≤◌, Bool, true, false, List, [], ◌∷◌, ◌++◌, ◌≡◌, refl, sym, ap, ◌∙◌,
  arith, Bytes, length, length-append, map, joined, append_assoc, All, Bool-cases, inl, inr,
  if◌then◌else◌,
}
use radish.Bench.Connection.Readable.{succeeded, IsReadable}
use radish.Bench.Options.{BenchOptions}
use radish.Bench.Workload.{wrap}
use radish.Bench.Worker.{WorkerResult, Round, count_responses}

-- How many replies are successes, or errors.
abbrev pub count_of : (Bytes → Bool) → List Bytes → ℕ
count_of is_counted [] = 0
count_of is_counted (reply ∷ replies) =
    (if is_counted reply then 1 else 0) + count_of is_counted replies

abbrev pub count_successes : List Bytes → ℕ
count_successes replies = count_of succeeded replies

abbrev pub count_errors : List Bytes → ℕ
count_errors replies = length replies - count_successes replies

pub count_successes_le : (replies : List Bytes) → count_successes replies ≤ length replies
count_successes_le [] = omega arith
count_successes_le (reply ∷ replies) = ground (arith, count_successes_le replies)

-- Every success adds a latency, every other reply an error.
pub count_responses-counts :
    (round : Round) (index : ℕ) (replies : List Bytes) (result : WorkerResult)
    → result.errors + length replies < 2 ^ 64
    → let result' = count_responses round index (map succeeded replies) result in
      (length result'.latencies ≡ length result.latencies + count_successes replies)
      × (result'.errors + count_successes replies ≡ result.errors + length replies)
unfolding count_responses
count_responses-counts round index [] result h = (omega arith, omega arith)
count_responses-counts round index (reply ∷ replies) result h =
    elim (Bool-cases (succeeded reply)) [
      | inl good ↦
          let latency = round.completions index - round.started in
          let more =
            count_responses-counts round (suc index) replies
              (record result { latencies = result.latencies ++ latency ∷ [] }) (omega arith) in
          rw good (omega (arith, more, length-append result.latencies (latency ∷ [])))
      | inr bad ↦
          let more =
            count_responses-counts round (suc index) replies
              (record result { errors = wrap (suc result.errors) }) (omega arith) in
          rw bad (omega (arith, more))
    ]

-- The rounds of a run, each with the replies that it reads.
abbrev pub rounds_of : List (Round × List Bytes) → List Round
rounds_of [] = []
rounds_of ((round, replies) ∷ exchanges) = round ∷ rounds_of exchanges

abbrev pub replies_of : List (Round × List Bytes) → List Bytes
replies_of [] = []
replies_of ((round, replies) ∷ exchanges) = replies ++ replies_of exchanges

-- A reply to each command of the pipeline.
abbrev pub IsAnswered : BenchOptions → Round × List Bytes → Type 0
IsAnswered options (round, replies) = (length replies ≡ options.pipeline) × All IsReadable replies

pub joined-replies :
    (replies more : List Bytes) (rest : Bytes)
    → joined (replies ++ more) ++ rest ≡ joined replies ++ (joined more ++ rest)
joined-replies [] more rest = refl
joined-replies (reply ∷ replies) more rest =
    append_assoc reply (joined (replies ++ more)) rest
    ∙ ap (λ s. reply ++ s) (joined-replies replies more rest)
    ∙ sym (append_assoc reply (joined replies) (joined more ++ rest))

pub count_successes-append :
    (replies more : List Bytes)
    → count_successes (replies ++ more) ≡ count_successes replies + count_successes more
count_successes-append [] more = omega arith
count_successes-append (reply ∷ replies) more = omega (arith, count_successes-append replies more)

-- A result that has counted the replies, or left them alone.
abbrev pub Counts : Bool → List Bytes → WorkerResult → WorkerResult → Type 0
Counts false replies result result' = result' ≡ result
Counts true replies result result' =
    (length result'.latencies ≡ length result.latencies + count_successes replies)
    × (result'.errors + count_successes replies ≡ result.errors + length replies)

pub round-Counts :
    (measure : Bool) (round : Round) (replies : List Bytes) (result : WorkerResult)
    → result.errors + length replies < 2 ^ 64
    → Counts measure replies result
        (if measure then count_responses round 0 (map succeeded replies) result else result)
round-Counts false round replies result h = refl
round-Counts true round replies result h = count_responses-counts round 0 replies result h

pub Counts-append :
    (measure : Bool) (replies replies' : List Bytes) (r r' r'' : WorkerResult)
    → Counts measure replies r r'
    → Counts measure replies' r' r''
    → Counts measure (replies ++ replies') r r''
Counts-append false replies replies' r r' r'' h k = k ∙ h
Counts-append true replies replies' r r' r'' h k =
    omega (arith, h, k, length-append replies replies', count_successes-append replies replies')

pub errors-Counts :
    (measure : Bool) (replies : List Bytes) (r r' : WorkerResult) (bound : ℕ)
    → Counts measure replies r r'
    → r.errors + length replies ≤ bound
    → r'.errors ≤ bound
errors-Counts false replies r r' bound h k = omega (arith, ap (λ x. x.errors) h)
errors-Counts true replies r r' bound h k = omega (arith, h, k)
