-- ===== src/Store/Tests.antt =====
-- Runs of the store on concrete data, and instances of its theorems.
use radish.Shared.{none, ◌≡◌, ◌+ℤ◌, refl, Bytes, codes, pos, bytes_eq, if◌then◌else◌}
use radish.Dict.{is_some, lookup, insert, erase}
use radish.Binary.{from_bits, to_bits}
use radish.Store.{add_timestamps, RadishStore, new_store, limited, is_expired, create, rename, get}
use radish.Store.Valid.{IsValid, new_store-IsValid, create-IsValid, rename-IsValid}
use radish.Store.Table.{table, live, move, table-rename}

abbrev ant : Bytes
ant = codes "ant"

abbrev bee : Bytes
bee = codes "bee"

abbrev empty_store : RadishStore Bytes
empty_store = new_store (pos 100)

abbrev one_key : RadishStore Bytes
one_key = (create (pos 5) empty_store ant (codes "6") none).0

abbrev two_keys : RadishStore Bytes
two_keys = (create (pos 50) one_key bee (codes "7") none).0

one_key-IsValid : IsValid one_key
one_key-IsValid =
    create-IsValid (pos 5) empty_store ant (codes "6") none (new_store-IsValid (pos 100))

two_keys-IsValid : IsValid two_keys
two_keys-IsValid = create-IsValid (pos 50) one_key bee (codes "7") none one_key-IsValid

-- A rename of a key to itself takes the key away.
rename_self : get (pos 6) (rename (pos 6) one_key ant ant).0 ant ≡ none
unfolding rename get create lookup insert erase limited bytes_eq is_expired ◌+ℤ◌ add_timestamps
    from_bits to_bits
rename_self = refl

table-rename_example : table (rename (pos 60) two_keys ant bee).0 ≡ (
    if is_some (live (pos 60) (table two_keys ant))
    then move ant bee (table two_keys)
    else table two_keys)
table-rename_example = table-rename (pos 60) two_keys two_keys-IsValid ant bee

rename-IsValid_example : IsValid (rename (pos 60) two_keys ant bee).0
rename-IsValid_example = rename-IsValid (pos 60) two_keys ant bee two_keys-IsValid
