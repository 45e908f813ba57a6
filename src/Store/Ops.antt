-- ===== src/Store/Ops.antt =====
-- The transactions of attestor/chainService/store/bolt.go. The package's variable `db` is passed
-- and returned: `ns db` stand for the bucket's name and the contents.
pub mod Laws
use verulink.Base.{
  ℕ, ◌+◌, ◌≡◌, Bool, true, false, List, [], ◌∷◌, ◌++◌, Option, none, some, Bytes, codes, ◌==◌,
  Error, message, Result, ok, err, panics, ◌>>=◌, if◌then◌else◌, or_empty, take,
}
use verulink.Store.Bolt.{Bolt}
use verulink.Store.Bolt.Entries.{Entry}

abbrev pub first? : List Entry → Option Bytes
first? [] = none
first? ((k, v) ∷ es) = some k

abbrev pub last_pair : List Entry → Bytes × Bytes
last_pair [] = ([], [])
last_pair ((k, v) ∷ []) = (k, v)
last_pair ((k, v) ∷ e ∷ es) = last_pair (e ∷ es)

-- A transaction that also hands out a value, once `Update` has settled it.
abbrev pub returning {ℓ κ} : {A : Type ℓ} {D : Type κ} → A → Result (Unit {0}) × D → Result A × D
returning a (ok u, db) = (ok a, db)
returning a (err e, db) = (err e, db)
returning a (panics, db) = (panics, db)

-- The same for a function that failed: there is no value, and `Update` returns its error.
abbrev pub failing {ℓ κ} : {A : Type ℓ} {D : Type κ} → Result (Unit {0}) × D → Result A × D
failing (ok u, db) = (panics, db)
failing (err e, db) = (err e, db)
failing (panics, db) = (panics, db)

module _ (bolt : Bolt) where
  open bolt use {
    Db, bucket, bucket_get, bucket_put, bucket_delete, create_bucket_if_not_exists, update,
  }

  unfoldable pub create_bucket : Bytes → Db → Result (Unit {0}) × Db
  create_bucket ns db = update db (create_bucket_if_not_exists db ns)

  -- A method of a nil bucket panics.
  unfoldable pub delete_body : Bytes → Bytes → Db → Result Db
  delete_body ns key db = elim (bucket db ns) [ none ↦ panics | some es ↦ bucket_delete db ns key ]

  unfoldable pub delete : Bytes → Bytes → Db → Result (Unit {0}) × Db
  unfolding delete_body
  delete ns key db = update db (delete_body ns key db)

  unfoldable pub batch_delete : Bytes → Bytes → Db → Result (Unit {0}) × Db
  unfolding delete_body
  batch_delete ns key db = update db (delete_body ns key db)

  unfoldable pub put_body : Bytes → Bytes → Bytes → Db → Result Db
  put_body ns key value db = elim (bucket db ns) [
    | none ↦ panics
    | some es ↦ bucket_put db ns key value
  ]

  unfoldable pub put : Bytes → Bytes → Bytes → Db → Result (Unit {0}) × Db
  unfolding put_body
  put ns key value db = update db (put_body ns key value db)

  unfoldable pub get : Bytes → Bytes → Db → Result (Option Bytes)
  get ns key db = elim (bucket db ns) [ none ↦ panics | some es ↦ ok (bucket_get db ns key) ]

  -- The function that `getAndDelete` runs: the value that it copies out, and the contents.
  unfoldable pub get_and_delete_body : Bytes → Bytes → Db → Result (Bytes × Db)
  get_and_delete_body ns key db = elim (bucket db ns) [
    | none ↦ panics
    | some es ↦ elim (bucket_get db ns key) [
      | none ↦ err (message (codes "key does not exist"))
      | some value ↦ (do after ← bucket_delete db ns key; ok (value, after))
    ]
  ]

  -- `Update` over a function that hands out a value.
  unfoldable pub update_returning {ℓ} : {A : Type ℓ} → Result (A × Db) → Db → Result A × Db
  update_returning (ok (a, after)) db = returning a (update db (ok after))
  update_returning (err e) db = failing (update db (err e))
  update_returning panics db = (panics, db)

  unfoldable pub get_and_delete : Bytes → Bytes → Db → Result Bytes × Db
  unfolding get_and_delete_body update_returning
  get_and_delete ns key db = update_returning (get_and_delete_body ns key db) db

  unfoldable pub get_first_key : Bytes → Db → Option Bytes
  get_first_key ns db = first? (or_empty (bucket db ns))

  -- Two nil slices where there is no pair.
  unfoldable pub get_last_key_value : Bytes → Db → Bytes × Bytes
  get_last_key_value ns db = last_pair (or_empty (bucket db ns))

  unfoldable pub exists_in_given_bucket : Bytes → Bytes → Db → Bool
  exists_in_given_bucket ns key db = elim (bucket db ns) [
    | none ↦ false
    | some es ↦ elim (bucket_get db ns key) [ none ↦ false | some v ↦ true ]
  ]

  -- What the channel delivers before it is closed.
  unfoldable pub retrieve_n_key_values_from_first : Bytes → ℕ → Db → Result (List Entry)
  retrieve_n_key_values_from_first ns n db = elim (bucket db ns) [
    | none ↦ panics
    | some es ↦ ok (take n es)
  ]

  -- The loop of `retrieveAndDeleteNKeysFromFirst` over the cursor's walk; `s` and `count` are its
  -- variables.
  unfoldable pub retrieve_loop :
      Bytes → ℕ → List Entry → List Bytes → ℕ → Db → Result (List Bytes × ℕ × Db)
  retrieve_loop ns n [] s count db = ok (s, count, db)
  retrieve_loop ns n ((key, value) ∷ walk) s count db = elim (count == n) [
    | true ↦ ok (s, count, db)
    | false ↦ elim (bucket_delete db ns key) [
      | ok after ↦ retrieve_loop ns n walk (s ++ value ∷ []) (count + 1) after
      | err e ↦ err e
      | panics ↦ panics
    ]
  ]

  unfoldable pub retrieve_body : Bytes → ℕ → Db → Result (List Bytes × Db)
  unfolding retrieve_loop
  retrieve_body ns n db = elim (bucket db ns) [
    | none ↦ panics
    | some es ↦ (do
      (s, count, after) ← retrieve_loop ns n es [] 0 db
      if count == 0 then err (message (codes "empty bucket: " ++ ns)) else ok (s, after))
  ]

  unfoldable pub retrieve_and_delete_n_keys_from_first : Bytes → ℕ → Db → Result (List Bytes) × Db
  unfolding retrieve_body update_returning
  retrieve_and_delete_n_keys_from_first ns n db = update_returning (retrieve_body ns n db) db
