-- ===== src/Store/Bolt.antt =====
-- The interface of bbolt, the key-value store that attestor/chainService/store stands on. bbolt is
-- not part of the repository, so it is a parameter: its operations, and what its documentation
-- says of them.
pub mod Entries
use verulink.Base.{
  ℕ, ◌≤◌, ◌<◌, ◌≡◌, ◌⊎◌, Bool, List, [], Option, some, none, Bytes, eqb, Result, ok, err, panics,
  Error, length, lookup, if◌then◌else◌, or_empty,
}
use Entries.{Entry, insert, erase, IsSorted}

-- `MaxKeySize` of bbolt.
abbrev pub max_key_size : ℕ
max_key_size = 32768

-- `MaxValueSize`, above which `Put` returns an error.
abbrev pub max_value_size : ℕ
max_value_size = 2147483646

abbrev pub IsStorable : Bytes → Type 0
IsStorable v = length v ≤ max_value_size

abbrev pub IsKey : Bytes → Type 0
IsKey k = (0 < length k) × (length k ≤ max_key_size)

-- A value of `Db` is the contents of the file as a transaction sees them.
pub record Bolt : Type 1 where
  pub Db : Type 0
  -- The pairs that a cursor of the bucket visits from `First` by `Next`. That it visits the same
  -- ones while the transaction deletes pairs that it has visited, as
  -- `retrieveAndDeleteNKeysFromFirst` does, is an assumption: the documentation warns that a change
  -- may move the cursor. `none` stands for a nil bucket.
  pub bucket : Db → Bytes → Option (List Entry)
  pub bucket_get : Db → Bytes → Bytes → Option Bytes
  pub bucket_put : Db → Bytes → Bytes → Bytes → Result Db
  pub bucket_delete : Db → Bytes → Bytes → Result Db
  pub create_bucket_if_not_exists : Db → Bytes → Result Db
  -- What `db.Update` and `db.Batch` return and leave, from the contents and from the outcome of
  -- the function that they run on them.
  pub update : Db → Result Db → Result (Unit {0}) × Db
  pub bucket_sorted :
      (db : Db) (ns : Bytes) (es : List Entry) → bucket db ns ≡ some es → IsSorted es
  pub bucket_get_lem :
      (db : Db) (ns k : Bytes) (es : List Entry)
      → bucket db ns ≡ some es
      → bucket_get db ns k ≡ lookup k es
  pub bucket_put_lem :
      (db : Db) (ns k v : Bytes) (es : List Entry)
      → bucket db ns ≡ some es
      → IsKey k
      → IsStorable v
      → (after : Db) × (bucket_put db ns k v ≡ ok after)
        × ((m : Bytes) → bucket after m ≡ (if eqb ns m then some (insert k v es) else bucket db m))
  pub bucket_delete_lem :
      (db : Db) (ns k : Bytes) (es : List Entry)
      → bucket db ns ≡ some es
      → (after : Db) × (bucket_delete db ns k ≡ ok after)
        × ((m : Bytes) → bucket after m ≡ (if eqb ns m then some (erase k es) else bucket db m))
  pub create_bucket_lem :
      (db : Db) (ns : Bytes)
      → IsKey ns
      → (after : Db) × (create_bucket_if_not_exists db ns ≡ ok after)
        × ((m : Bytes)
            → bucket after m ≡ (if eqb ns m then some (or_empty (bucket db ns)) else bucket db m))
  pub update_err : (db : Db) (e : Error) → update db (err e) ≡ (err e, db)
  pub update_panics : (db : Db) → update db panics ≡ (panics, db)
  -- The commit may fail, and then the file is as it was.
  pub update_ok :
      (db after : Db)
      → (update db (ok after) ≡ (ok tt, after))
        ⊎ ((e : Error) × (update db (ok after) ≡ (err e, db)))
