-- ===== src/Bench/Worker/Preloading.antt =====
-- What `Preload` sends, and what the server's store then has.
use radish.Shared.{
  ℕ, zero, suc, ◌+◌, ◌^◌, ◌<◌, ◌≤◌, Bool, true, false, ◌&&◌, ◌||◌, List, [], ◌∷◌, ◌++◌, ◌≡◌, inl,
  inr, refl, sym, ap, ◌∙◌, arith, Bytes, codes, bytes_eq, bytes_eq_iff, bytes_eq_refl, length,
  joined, Option, none, append_assoc, append-nil, All, Bool-cases, leb, ltb, ok,
}
use radish.Dict.{is_some}
use radish.Store.{Timestamp}
use radish.Store.Valid.{IsValid}
use radish.Store.Table.{Table, table, deadline}
use radish.RespCodec.{encode_command, max_bulk_length}
use radish.Commands.{Context, uppercase}
use radish.Commands.Effects.{dispatch-Becomes_wrapped, effect}
use radish.Session.{Environment}
use radish.Session.Pipeline.{Answers, no_commands, next_command, IsSendable}
use radish.Bench.Connection.{max_levels, pipeline_request}
use radish.Bench.Connection.Readable.{succeeded, IsReadable}
use radish.Bench.Options.{BenchOptions}
use radish.Bench.Keys.{make_key, make_value}
use radish.Bench.Keys.Distinct.{Fits, make_key-injective, length-make_key, length-make_value}
use radish.Bench.Worker.{Stream, execute, preload_keys, run_preload}
use radish.Bench.Pipeline.{Answers-IsReadable, length-Answers}
use radish.Bench.Workload.Succeeding.{reply-succeeds}
use radish.Commands.Answering.{dispatch-Replies}

-- A SET of each key from `index` on, so many of them.
abbrev pub preload_commands : BenchOptions → ℕ → ℕ → List (List Bytes)
preload_commands options zero index = []
preload_commands options (suc n) index =
    (codes "SET" ∷ make_key index options.key_size ∷ make_value options.value_size ∷ [])
    ∷ preload_commands options n (suc index)

-- Where each SET is answered by a success, all of them are sent.
preload_keys-answered :
    (options : BenchOptions) (n index : ℕ) (s : Stream) (replies : List Bytes) (rest : Bytes)
    → length replies ≡ n
    → All IsReadable replies
    → All (λ reply. succeeded reply ≡ true) replies
    → s.arriving ≡ joined replies ++ rest
    → preload_keys options n index s
      ≡ ok record {
        sent = s.sent ++ pipeline_request (preload_commands options n index);
        arriving = rest;
      }
unfolding preload_keys execute pipeline_request
preload_keys-answered options zero index s [] rest count readable good arriving =
    ap ok (λ i. record { sent = sym (append-nil s.sent) i; arriving = arriving i })
preload_keys-answered options zero index s (reply ∷ replies) rest count readable good arriving =
    absurd (omega arith)
preload_keys-answered options (suc n) index s [] rest count readable good arriving =
    absurd (omega arith)
preload_keys-answered options (suc n) index s (reply ∷ replies) rest count readable good arriving =
    let command =
      codes "SET" ∷ make_key index options.key_size ∷ make_value options.value_size ∷ [] in
    rw
      (
        arriving,
        append_assoc reply (joined replies) rest,
        readable.0 max_levels (joined replies ++ rest) (omega arith),
        good.0,
        preload_keys-answered options n (suc index)
            (record { sent = s.sent ++ encode_command command; arriving = joined replies ++ rest })
            replies rest (omega arith) readable.1 good.1 refl,
      )
      (ap (λ t. ok record { sent = t; arriving = rest })
        (append_assoc s.sent (encode_command command)
          (pipeline_request (preload_commands options n (suc index)))))

-- The indices from the first on, so many of them.
abbrev is_within : ℕ → ℕ → ℕ → Bool
is_within first n i = leb first i && ltb i (first + n)

within_here : (first i : ℕ) → first ≡ i → is_within first 1 i ≡ true
within_here first i e = ground arith

within_other : (first i : ℕ) → ¬ (first ≡ i) → is_within first 1 i ≡ false
within_other first i e = ground arith

set-is_some :
    (now : Timestamp) (until : Option Timestamp) (options : BenchOptions) (first i : ℕ)
    (m : Table Bytes)
    → i < 2 ^ 64
    → first < 2 ^ 64
    → Fits i options.key_size
    → Fits first options.key_size
    → let command =
        codes "SET" ∷ make_key first options.key_size ∷ make_value options.value_size ∷ [] in
      is_some (effect now until (uppercase (codes "SET")) command m (make_key i options.key_size))
      ≡ (is_within first 1 i || is_some (m (make_key i options.key_size)))
unfolding effect bytes_eq uppercase
set-is_some now until options first i m small small' fits fits' =
    elim (Bool-cases (bytes_eq (make_key first options.key_size) (make_key i options.key_size))) [
      | inl same ↦ rw same (
          sym (
            ap (λ b. b || is_some (m (make_key i options.key_size)))
              (within_here first i (
                make_key-injective first i options.key_size small' small fits' fits (
                  (bytes_eq_iff (make_key first options.key_size) (make_key i options.key_size)).0
                    same)))))
      | inr other ↦ rw other (
          sym (
            ap (λ b. b || is_some (m (make_key i options.key_size)))
              (within_other first i (λ e. both (same_key first i options.key_size e) other))))
    ]
  where
    both : {b : Bool} → b ≡ true → b ≡ false → ⊥
    both h k = cc

    same_key :
        (first i size : ℕ) → first ≡ i → bytes_eq (make_key first size) (make_key i size) ≡ true
    same_key first i size e =
        ap (λ j. bytes_eq (make_key j size) (make_key i size)) e ∙ bytes_eq_refl (make_key i size)

within_more :
    (first n i : ℕ) (b : Bool)
    → (is_within (suc first) n i || (is_within first 1 i || b)) ≡ (is_within first (suc n) i || b)
within_more first n i b = ground arith

-- Behind the SETs from a first index on the store has an entry under the key of an index exactly
-- if that is one of them or the entry was there before.
preload_commands-is_some :
    {calls : Environment} (options : BenchOptions) (n first i : ℕ) {k m : ℕ} {c d : Context}
    {responses : List Bytes}
    → Answers calls k c (preload_commands options n first) m d responses
    → IsValid c.m_database.m_store
    → i < 2 ^ 64
    → first + n ≤ 2 ^ 64
    → Fits i options.key_size
    → ((j : ℕ) → j < first + n → Fits j options.key_size)
    → is_some (table d.m_database.m_store (make_key i options.key_size))
      ≡ (is_within first n i || is_some (table c.m_database.m_store (make_key i options.key_size)))
preload_commands-is_some options zero first i no_commands v small bound fits fits' =
    nothing first i (is_some _)
  where
    nothing : (first i : ℕ) (b : Bool) → b ≡ (is_within first 0 i || b)
    nothing first i b = ground arith
preload_commands-is_some {calls} options (suc n) first i
      (next_command {n = k} {b = c} {c = c'} {d = d} {response = r} answer answers) v small bound
      fits fits' =
    let key = make_key i options.key_size in
    let after = dispatch-Becomes_wrapped (calls k) (codes "SET") _ c c' (r, false) v answer in
    preload_commands-is_some options n (suc first) i answers after.valid small (omega arith) fits
      (λ j h. fits' j (omega arith))
    ∙ ap (λ m. is_within (suc first) n i || is_some (m key)) after.has_table
    ∙ ap (λ b. is_within (suc first) n i || b)
        (set-is_some (calls k 0).0 (deadline (calls k 0).0 c.m_database.m_store.m_ttl none) options
          first i (table c.m_database.m_store) small (omega arith) fits (fits' first (omega arith)))
    ∙ within_more first n i (is_some (table c.m_database.m_store key))

-- The server answers each SET with a success.
preload_commands-succeed :
    {calls : Environment} (options : BenchOptions) (n first : ℕ) {k m : ℕ} {c d : Context}
    {responses : List Bytes}
    → Answers calls k c (preload_commands options n first) m d responses
    → IsValid c.m_database.m_store
    → All (λ reply. succeeded reply ≡ true) responses
preload_commands-succeed options zero first no_commands v = tt
preload_commands-succeed {calls} options (suc n) first
      (next_command {n = k} {b = c} {c = c'} {d = d} {response = r} answer answers) v =
    let after = dispatch-Becomes_wrapped (calls k) (codes "SET") _ c c' (r, false) v answer in
    (
      reply-succeeds (calls k) c.m_version _ _ _ (r, false)
          (dispatch-Replies (calls k) (codes "SET") _ c c' (r, false) v answer)
          (unfold bytes_eq uppercase in (refl, refl, refl, refl, refl)),
      preload_commands-succeed options n (suc first) answers after.valid,
    )

preload_commands-IsSendable :
    (options : BenchOptions) (n first : ℕ)
    → options.key_size ≤ max_bulk_length
    → options.value_size ≤ max_bulk_length
    → All IsSendable (preload_commands options n first)
preload_commands-IsSendable options zero first small light = tt
preload_commands-IsSendable options (suc n) first small light = (
  omega (arith, length-make_key first options.key_size, length-make_value options.value_size),
  preload_commands-IsSendable options n (suc first) small light,
)

length-preload_commands :
    (options : BenchOptions) (n first : ℕ) → length (preload_commands options n first) ≡ n
length-preload_commands options zero first = refl
length-preload_commands options (suc n) first =
    ap suc (length-preload_commands options n (suc first))

-- Let preloading be on, keys and values have at most 4 MiB, the keys of the indices below the
-- number of keys and of a further index not be cut, and the indices be below 2^64. If the
-- server, whose store is valid, dispatches a SET for each index below the number of keys in
-- turn without an exception or a close, and these responses, of less than 2^63 bytes in all,
-- arrive at the client, then Preload ends without an exception, has sent exactly these SETs and
-- read exactly the responses, and the store has an entry under the key of the further index
-- exactly if that index is below the number of keys or the entry was there before.
pub run_preload-stores :
    {calls : Environment} (options : BenchOptions) (i : ℕ) (s : Stream) (rest : Bytes) {k m : ℕ}
    {c d : Context} {responses : List Bytes}
    → options.preload ≡ true
    → (options.key_size ≤ max_bulk_length) × (options.value_size ≤ max_bulk_length)
    → options.key_count ≤ 2 ^ 64
    → i < 2 ^ 64
    → Fits i options.key_size
    → ((j : ℕ) → j < options.key_count → Fits j options.key_size)
    → Answers calls k c (preload_commands options options.key_count 0) m d responses
    → IsValid c.m_database.m_store
    → length (joined responses) < 2 ^ 63
    → s.arriving ≡ joined responses ++ rest
    → (run_preload options s
        ≡ ok record {
          sent = s.sent ++ pipeline_request (preload_commands options options.key_count 0);
          arriving = rest;
        })
      × (is_some (table d.m_database.m_store (make_key i options.key_size)) ≡ (
          ltb i options.key_count
          || is_some (table c.m_database.m_store (make_key i options.key_size))))
unfolding run_preload
run_preload-stores options i s rest {responses = responses} on sizes bound small fits fits' answers
      v short arriving =
    (
      rw on (
          preload_keys-answered options options.key_count 0 s responses rest
            (sym (length-Answers answers) ∙ length-preload_commands options options.key_count 0)
            (Answers-IsReadable answers v
              (preload_commands-IsSendable options options.key_count 0 sizes.0 sizes.1) short)
            (preload_commands-succeed options options.key_count 0 answers v) arriving),
      preload_commands-is_some options options.key_count 0 i answers v small (omega arith) fits
            (λ j h. fits' j (omega arith))
          ∙ from_zero options.key_count i (is_some _),
    )
  where
    from_zero : (n i : ℕ) (b : Bool) → (is_within 0 n i || b) ≡ (ltb i n || b)
    from_zero n i b = ground arith
