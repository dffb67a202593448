-- ===== src/Bench/Connection/Readable.antt =====
-- Every reply that the specification of the commands has is read whole by the client.
use radish.Shared.{
  ℕ, ◌<◌, ◌≤◌, ◌^◌, Bool, true, false, not, Option, none, some, List, [], ◌∷◌, ◌++◌, ◌≡◌, refl, sym,
  ap, ◌∙◌, arith, Bytes, ℤ, All, codes, length, length-append, ◌==◌, if◌then◌else◌, ok,
}
use radish.Store.Table.{Table, live}
use radish.Dict.{is_some}
use radish.Decimal.{to_string}
use radish.RespCodec.{RespVersion, resp2, resp3, cr, lf, crlf, encode_bulk}
use radish.RespCodec.Replies.{
  simple_string, error_reply, integer, bulk_string, bulk_strings, array, hello,
}
use radish.Commands.{Calls, CommandResult}
use radish.Commands.Replies.{
  Replies, to_unknown, to_arity, to_hello_2, to_hello_3, to_hello_other, to_ping, to_ping_message,
  to_get, to_set, to_delete, to_rename, to_exists, to_keys, to_keys_other, to_database_size,
  to_flush_database, to_quit,
}
use radish.Bench.Connection.Hello.{hello-Reads}
use radish.Bench.Connection.Replies.{
  Reads, simple_string-Reads, error_reply-Reads, integer-Reads, encode_bulk-Reads,
  bulk_string-Reads, array-Reads,
}

-- Every reply but an error is a success.
unfoldable pub succeeded : Bytes → Bool
succeeded [] = true
succeeded (c ∷ s) = not (c == b'-')

-- The client reads exactly the reply.
abbrev pub IsReadable : Bytes → Type 0
IsReadable reply = Reads 3 reply (succeeded reply)

readable :
    (n : ℕ) (reply : Bytes) (success : Bool)
    → n ≤ 3
    → succeeded reply ≡ success
    → Reads n reply success
    → IsReadable reply
readable n reply success h e reads levels rest k =
    reads levels rest (omega arith) ∙ ap (λ b. ok (b, rest)) (sym e)

pub simple_string-IsReadable : (value : Bytes) → IsReadable (simple_string value)
simple_string-IsReadable value =
    readable 1 (simple_string value) true (omega arith) (unfold simple_string succeeded in refl)
      (simple_string-Reads value)

pub error_reply-IsReadable : (message : Bytes) → IsReadable (error_reply message)
error_reply-IsReadable message =
    readable 1 (error_reply message) false (omega arith) (unfold error_reply succeeded in refl)
      (error_reply-Reads message)

integer-IsReadable : (t : ℤ) → IsReadable (integer t)
integer-IsReadable t =
    readable 1 (integer t) true (omega arith) (unfold integer succeeded in refl) (integer-Reads t)

length-encode_bulk : (value : Bytes) → length value < length (encode_bulk value)
unfolding encode_bulk
length-encode_bulk value = omega (
  arith,
  length-append (to_string (length value)) (cr ∷ lf ∷ (value ++ crlf)),
  length-append value crlf,
)

bulk_string-IsReadable :
    (value : Option Bytes) (version : RespVersion)
    → length (bulk_string value version) < 2 ^ 63
    → IsReadable (bulk_string value version)
unfolding bulk_string
bulk_string-IsReadable none resp2 h =
    readable 1 (bulk_string none resp2) true (omega arith) (unfold succeeded in refl)
      (bulk_string-Reads none resp2 tt)
bulk_string-IsReadable none resp3 h =
    readable 1 (bulk_string none resp3) true (omega arith) (unfold succeeded in refl)
      (bulk_string-Reads none resp3 tt)
bulk_string-IsReadable (some value) version h =
    readable 1 (encode_bulk value) true (omega arith) (unfold succeeded encode_bulk in refl)
      (encode_bulk-Reads value (omega (arith, length-encode_bulk value)))

counted_values :
    (values : List Bytes) (bound : ℕ)
    → length (bulk_strings values) < bound
    → All (λ value. length value < bound) values × (length values ≤ length (bulk_strings values))
unfolding bulk_strings bulk_string
counted_values [] bound h = (tt, omega arith)
counted_values (value ∷ values) bound h =
    let e = length-append (encode_bulk value) (bulk_strings values) in
    let (counted, short) = counted_values values bound (omega arith) in
    let longer = length-encode_bulk value in ((omega arith, counted), omega arith)

array-IsReadable :
    (values : List Bytes) (version : RespVersion)
    → length (array values version) < 2 ^ 63
    → IsReadable (array values version)
unfolding array
array-IsReadable values version h =
    let e = length-append (to_string (length values)) (cr ∷ lf ∷ bulk_strings values) in
    let (counted, short) = counted_values values (2 ^ 63) (omega arith) in
    readable 2 (array values version) true (omega arith) (unfold succeeded in refl)
      (array-Reads values version (omega arith) counted)

hello-IsReadable : (version : RespVersion) → IsReadable (hello version)
hello-IsReadable version =
    readable 3 (hello version) true (omega arith) (good version) (hello-Reads version)
  where
    good : (version : RespVersion) → succeeded (hello version) ≡ true
    good resp2 = unfold succeeded hello array in refl
    good resp3 = unfold succeeded hello in refl

-- Every reply of a command is read whole by the client.
pub reply-IsReadable :
    (calls : Calls) (version : RespVersion) (m : Table Bytes) (name : Bytes)
    (arguments : List Bytes) (r : CommandResult)
    → Replies calls version m name arguments r
    → length r.0 < 2 ^ 63
    → IsReadable r.0
reply-IsReadable calls version m _ _ _ (to_unknown name arguments u) h = error_reply-IsReadable _
reply-IsReadable calls version m _ _ _ (to_arity name arguments t) h = error_reply-IsReadable _
reply-IsReadable calls version m _ _ _ (to_hello_2 command) h = hello-IsReadable resp2
reply-IsReadable calls version m _ _ _ (to_hello_3 command) h = hello-IsReadable resp3
reply-IsReadable calls version m _ _ _ (to_hello_other command asked u v) h =
    error_reply-IsReadable _
reply-IsReadable calls version m _ _ _ (to_ping command) h = simple_string-IsReadable _
reply-IsReadable calls version m _ _ _ (to_ping_message command message) h =
    bulk_string-IsReadable (some message) version h
reply-IsReadable calls version m _ _ _ (to_get command key) h = bulk_string-IsReadable _ version h
reply-IsReadable calls version m _ _ _ (to_set command key value) h = simple_string-IsReadable _
reply-IsReadable calls version m _ _ _ (to_delete command key keys) h = integer-IsReadable _
reply-IsReadable calls version m _ _ _ (to_rename command old_key new_key) h =
    either (is_some (live (calls 0).0 (m old_key)))
  where
    either :
        (b : Bool)
        → IsReadable (if b then simple_string (codes "OK") else error_reply (codes "no such key"))
    either true = simple_string-IsReadable _
    either false = error_reply-IsReadable _
reply-IsReadable calls version m _ _ _ (to_exists command key keys) h = integer-IsReadable _
reply-IsReadable calls version m _ _ _ (to_keys command names l) h =
    array-IsReadable names version h
reply-IsReadable calls version m _ _ _ (to_keys_other command pattern u) h =
    error_reply-IsReadable _
reply-IsReadable calls version m _ _ _ (to_database_size command names l) h = integer-IsReadable _
reply-IsReadable calls version m _ _ _ (to_flush_database command) h = simple_string-IsReadable _
reply-IsReadable calls version m _ _ _ (to_quit command) h = simple_string-IsReadable _
