-- ===== src/Delivery/Manager.antt =====
-- What the way of a packet needs of a client: `managePacket` and `retryFeed`, whichever chain's.
use verulink.Base.{ℕ, ◌≡◌, ◌⊎◌, List, [], ◌++◌, Bytes, eqb, false, get_elem?, some, Result, ok}
use verulink.Chain.{Packet}
use verulink.Chain.BigInt.{big_string}
use verulink.Store.Bolt.{Bolt}
use verulink.Store.Json.{Codec}
use verulink.Store.Db.{store_retry_packet, store_base_seq_num, retrieve_and_delete_n_packets}
use verulink.Relay.Screener.{namespace}

abbrev pub dest_of : Packet → Bytes
dest_of p = big_string p.destination.chain_id

abbrev pub sent_packets : Result (List Packet × ℕ) → List Packet
sent_packets (ok (pkts, index)) = pkts
sent_packets _ = []

abbrev pub retrieved : Result (List Packet) → List Packet
retrieved (ok pkts) = pkts
retrieved _ = []

-- The two cases of `managePacket` and a tick of `retryFeed` over the store: a failed packet is
-- stored in the retry namespace of its destination, a delivered one is recorded, and a tick sends the
-- first ten packets of a namespace, or none.
pub record PacketManager (bolt : Bolt) (codec : Codec) : Type 0 where
  pub retry_prefix : Bytes
  pub base_prefix : Bytes
  pub manage_retry : Packet → bolt.Db → Result (Unit {0}) × bolt.Db
  pub manage_completed : Packet → bolt.Db → Result (Unit {0}) × bolt.Db
  pub retry_round : List Bytes → ℕ → bolt.Db → Result (List Packet × ℕ) × bolt.Db
  pub stores :
      (p : Packet) (db : bolt.Db)
      → manage_retry p db ≡ store_retry_packet bolt codec (retry_prefix ++ dest_of p) p db
  pub records :
      (p : Packet) (db : bolt.Db)
      → (height : ℕ) × (manage_completed p db
          ≡ store_base_seq_num bolt (base_prefix ++ dest_of p) p.sequence height db)
  pub takes :
      (namespaces : List Bytes) (index : ℕ) (db : bolt.Db)
      → ((sent_packets (retry_round namespaces index db).0 ≡ [])
          × ((retry_round namespaces index db).1 ≡ db))
        ⊎ ((i : ℕ) × (ns : Bytes) × (get_elem? namespaces i ≡ some ns)
            × (sent_packets (retry_round namespaces index db).0
                ≡ retrieved (retrieve_and_delete_n_packets bolt codec ns 10 db).0)
            × ((retry_round namespaces index db).1
                ≡ (retrieve_and_delete_n_packets bolt codec ns 10 db).1))
  pub screener_apart : (d : Bytes) → eqb namespace (retry_prefix ++ d) ≡ false
  pub base_apart : (c d : Bytes) → eqb (base_prefix ++ c) (retry_prefix ++ d) ≡ false
  pub screener_base_apart : (d : Bytes) → eqb namespace (base_prefix ++ d) ≡ false
  pub retry_base_apart : (c d : Bytes) → eqb (retry_prefix ++ c) (base_prefix ++ d) ≡ false
