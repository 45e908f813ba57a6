-- ===== src/Store/Db.antt =====
-- attestor/chainService/store/db.go: what the rest of the program calls.
use verulink.Base.{
  ℕ, ◌+◌, ◌%◌, ◌^◌, Bool, true, false, List, [], ◌∷◌, ◌++◌, none, some, Bytes, codes, eqb, ◌==◌,
  Result, ok, err, panics, ◌>>=◌, if◌then◌else◌,
}
use verulink.Chain.{Packet}
use verulink.Store.Key.{Key, uint64, get_key_byte_for_key_constraint, convert_type, get_uint64}
use verulink.Store.Bolt.{Bolt}
use verulink.Store.Bolt.Entries.{Entry}
use verulink.Store.Ops.{
  create_bucket, delete, batch_delete, put, get_and_delete, get_first_key, get_last_key_value,
  exists_in_given_bucket, retrieve_n_key_values_from_first, retrieve_and_delete_n_keys_from_first,
}
use verulink.Store.Json.{Codec}

-- `if err := first; err != nil { return err }`, over the contents.
abbrev pub and_then {ℓ κ} :
    {A : Type ℓ} {D : Type κ} → Result (Unit {0}) × D → (D → Result A × D) → Result A × D
and_then (ok u, db) f = f db
and_then (err e, db) f = (err e, db)
and_then (panics, db) f = (panics, db)

unfoldable pub screen_value_map : Bool → Bytes
screen_value_map true = codes "1"
screen_value_map false = codes "0"

-- `PruneBaseSeqNum`'s `[[startSeqNum, endSeqNum], [startHeight, endHeight]]`.
pub record SeqHeightRanges : Type 0 where
  pub start_seq_num : ℕ
  pub end_seq_num : ℕ
  pub start_height : ℕ
  pub end_height : ℕ

abbrev pub no_ranges : SeqHeightRanges
no_ranges = record { start_seq_num = 0; end_seq_num = 0; start_height = 0; end_height = 0 }

-- What the loop of `PruneBaseSeqNum` leaves in its variables.
pub record PruneScan : Type 0 where
  pub ranges : SeqHeightRanges
  pub should_fetch : Bool
  pub to_delete_keys : List Bytes

-- A stored height: an empty value stands for 0.
unfoldable pub stored_height : Bytes → Result ℕ
stored_height [] = ok 0
stored_height (b ∷ v) = get_uint64 (b ∷ v)

unfoldable pub prune_loop : List Entry → Bytes → ℕ → ℕ → List Bytes → Result PruneScan
unfolding stored_height
prune_loop [] cur_key cur_seq cur_height to_delete =
    ok (record { ranges = no_ranges; should_fetch = false; to_delete_keys = to_delete })
prune_loop ((key, value) ∷ walk) cur_key cur_seq cur_height to_delete = do
  next_seq ← get_uint64 key
  next_height ← stored_height value
  elim (next_seq == (cur_seq + 1) % 2 ^ 64) [
    | true ↦ prune_loop walk key next_seq next_height (to_delete ++ cur_key ∷ [])
    | false ↦ ok (record {
      ranges = record {
        start_seq_num = cur_seq;
        end_seq_num = next_seq;
        start_height = cur_height;
        end_height = next_height;
      };
      should_fetch = true;
      to_delete_keys = to_delete;
    })
  ]

-- The first read of the channel and the loop over the rest.
unfoldable pub prune_scan : List Entry → Result PruneScan
unfolding prune_loop stored_height
prune_scan [] = ok (record { ranges = no_ranges; should_fetch = false; to_delete_keys = [] })
prune_scan ((key, value) ∷ walk) = do
  seq ← get_uint64 key
  height ← stored_height value
  prune_loop walk key seq height []

-- A stored number plus one, in uint64; 0 where nothing is stored.
unfoldable pub next_number : Bytes → Result ℕ
next_number [] = ok 0
next_number (b ∷ rest) = do n ← get_uint64 (b ∷ rest); ok ((n + 1) % 2 ^ 64)

module _ (bolt : Bolt) where
  open bolt use {Db}

  unfoldable pub create_namespace : Bytes → Db → Result (Unit {0}) × Db
  create_namespace ns db = create_bucket bolt ns db

  unfoldable pub create_namespaces : List Bytes → Db → Result (Unit {0}) × Db
  unfolding create_namespace
  create_namespaces [] db = (ok tt, db)
  create_namespaces (name ∷ names) db =
      and_then (create_namespace name db) λ after. create_namespaces names after

  -- Height 0 is stored as an empty value: only ethereum sends heights.
  unfoldable pub store_base_seq_num : Bytes → ℕ → ℕ → Db → Result (Unit {0}) × Db
  store_base_seq_num ns k v db =
      let key = get_key_byte_for_key_constraint (uint64 k) in
      let value = if v == 0 then [] else get_key_byte_for_key_constraint (uint64 v) in
      put bolt ns key value db

  unfoldable pub get_starting_seq_num_and_height : Bytes → Db → Result (ℕ × ℕ)
  unfolding next_number
  get_starting_seq_num_and_height ns db =
      let (seq_num_b, height_b) = get_last_key_value bolt ns db in
      (do seq_num ← next_number seq_num_b; height ← next_number height_b; ok (seq_num, height))

  unfoldable pub remove_key : Bytes → Key → Bool → Db → Result (Unit {0}) × Db
  remove_key ns key batch db =
      let k = get_key_byte_for_key_constraint key in
      if batch then batch_delete bolt ns k db else delete bolt ns k db

  unfoldable pub first_key : Bytes → Key → Db → Result Key
  first_key ns key_type db = elim (get_first_key bolt ns db) [
    | none ↦ ok key_type
    | some key ↦ convert_type key_type key
  ]

  unfoldable pub exist_in_given_namespace : Bytes → Key → Db → Bool
  exist_in_given_namespace ns key db =
      exists_in_given_bucket bolt ns (get_key_byte_for_key_constraint key) db

  -- The goroutines that delete, in the order in which they are started. An error is only logged.
  unfoldable pub delete_keys : Bytes → List Bytes → Db → Db
  delete_keys ns [] db = db
  delete_keys ns (key ∷ keys) db = delete_keys ns keys (batch_delete bolt ns key db).1

  unfoldable pub prune_base_seq_num : Bytes → Db → Result (SeqHeightRanges × Bool) × Db
  unfolding prune_scan delete_keys
  prune_base_seq_num ns db =
      elim (retrieve_n_key_values_from_first bolt ns 1000 db >>= prune_scan) [
        | ok scan ↦ (ok (scan.ranges, scan.should_fetch), delete_keys ns scan.to_delete_keys db)
        | err e ↦ (err e, db)
        | panics ↦ (panics, db)
      ]

  unfoldable pub store_white_status : Bytes → Bytes → Bool → Db → Result (Unit {0}) × Db
  unfolding screen_value_map
  store_white_status ns key value db = put bolt ns key (screen_value_map value) db

  unfoldable pub get_and_delete_white_status : Bytes → Bytes → Db → Result Bool × Db
  unfolding screen_value_map
  get_and_delete_white_status ns key db =
      let (v, after) = get_and_delete bolt ns key db in
      ((do value ← v; ok (eqb (screen_value_map true) value)), after)

module _ (bolt : Bolt) (codec : Codec) where
  open bolt use {Db}
  open codec use {marshal, unmarshal}

  unfoldable pub store_retry_packet : Bytes → Packet → Db → Result (Unit {0}) × Db
  store_retry_packet ns pkt db = elim (marshal pkt) [
    | ok value ↦ put bolt ns (get_key_byte_for_key_constraint (uint64 pkt.sequence)) value db
    | err e ↦ (err e, db)
    | panics ↦ (panics, db)
  ]

  unfoldable pub unmarshal_all : List Bytes → Result (List Packet)
  unmarshal_all [] = ok []
  unmarshal_all (b ∷ bs) = do pkt ← unmarshal b; pkts ← unmarshal_all bs; ok (pkt ∷ pkts)

  unfoldable pub retrieve_and_delete_n_packets : Bytes → ℕ → Db → Result (List Packet) × Db
  unfolding unmarshal_all
  retrieve_and_delete_n_packets ns n db =
      let (s, after) = retrieve_and_delete_n_keys_from_first bolt ns n db in
      (s >>= unmarshal_all, after)
