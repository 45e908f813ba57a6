-- ===== src/Ethereum/Delivery.antt =====
-- The packets of the ethereum client (attestor/chainService/chain/ethereum/client.go) on their way.
use verulink.Base.{
  lookup, ℕ, ◌≡◌, ◌⊎◌, inl, inr, refl, false, List, [], ◌++◌, Bytes, eqb, get_elem?, some,
  Option-cases, Result, ok, err, panics, ◌>>=◌, length, ◌+◌, ◌%◌,
}
use verulink.Chain.{Packet, IsAmong}
use verulink.Store.Bolt.{Bolt}
use verulink.Store.Json.{Codec}
use verulink.Store.Db.{store_retry_packet, store_base_seq_num, retrieve_and_delete_n_packets}
use verulink.Store.Ops.Laws.{Commits}
use verulink.Relay.Digest.{Digest}
use verulink.Relay.Screener.{namespace}
use verulink.Ethereum.Client.{
  manage_retry, manage_completed, retry_round, sent_or_none, retry_packet_prefix,
  base_seq_num_prefix,
}
use verulink.Delivery.{System, starting, Moves}
use verulink.Delivery.Manager.{PacketManager, dest_of, sent_packets, retrieved}
use verulink.Delivery.Store.{Emits, IsReady, IsStored}
use verulink.Chain.BigInt.{big_string}
use verulink.Delivery.Pruned.{WasPruned}
use verulink.Delivery.Accepted.{IsAccepted}
use verulink.Delivery.Recorded.{IsRecorded}
use verulink.Delivery.Safe.{Moves-IsSafe}

module _ (bolt : Bolt) (codec : Codec) where
  open bolt use {Db}

  abbrev sent_of : Result (List Packet) → ℕ → List Packet
  sent_of r i = sent_packets (do sent ← sent_or_none bolt codec r; ok (sent, i))

  sent-retrieved : (r : Result (List Packet)) (i : ℕ) → sent_of r i ≡ retrieved r
  sent-retrieved (ok ps) i = refl
  sent-retrieved (err e) i = refl
  sent-retrieved panics i = refl

  pub stores :
      (p : Packet) (db : Db)
      → manage_retry bolt codec p db
        ≡ store_retry_packet bolt codec (retry_packet_prefix ++ dest_of p) p db
  unfolding manage_retry
  stores p db = refl

  pub records :
      (p : Packet) (db : Db)
      → (height : ℕ) × (manage_completed bolt codec p db
          ≡ store_base_seq_num bolt (base_seq_num_prefix ++ dest_of p) p.sequence height db)
  unfolding manage_completed
  records p db = (p.height, refl)

  pub takes :
      (namespaces : List Bytes) (index : ℕ) (db : Db)
      → ((sent_packets (retry_round bolt codec namespaces index db).0 ≡ [])
          × ((retry_round bolt codec namespaces index db).1 ≡ db))
        ⊎ ((i : ℕ) × (ns : Bytes) × (get_elem? namespaces i ≡ some ns)
            × (sent_packets (retry_round bolt codec namespaces index db).0
                ≡ retrieved (retrieve_and_delete_n_packets bolt codec ns 10 db).0)
            × ((retry_round bolt codec namespaces index db).1
                ≡ (retrieve_and_delete_n_packets bolt codec ns 10 db).1))
  unfolding retry_round
  takes namespaces index db = elim (Option-cases (get_elem? namespaces index)) [
    | inl absent ↦ inl (rw (retry_round, absent), rw (retry_round, absent))
    | inr (ns, at) ↦ inr (
      index,
      ns,
      at,
      rw (retry_round, at)
          (sent-retrieved (retrieve_and_delete_n_packets bolt codec ns 10 db).0
            ((index + 1) % length namespaces)),
      rw (retry_round, at),
    )
  ]

  pub screener_apart : (d : Bytes) → eqb namespace (retry_packet_prefix ++ d) ≡ false
  unfolding eqb
  screener_apart d = refl

  pub base_apart : (c d : Bytes) → eqb (base_seq_num_prefix ++ c) (retry_packet_prefix ++ d) ≡ false
  unfolding eqb
  base_apart c d = refl

  pub screener_base_apart : (d : Bytes) → eqb namespace (base_seq_num_prefix ++ d) ≡ false
  unfolding eqb
  screener_base_apart d = refl

  pub retry_base_apart :
      (c d : Bytes) → eqb (retry_packet_prefix ++ c) (base_seq_num_prefix ++ d) ≡ false
  unfolding eqb
  retry_base_apart c d = refl

  abbrev pub ethereum_manager : PacketManager bolt codec
  ethereum_manager = record {
    retry_prefix = retry_packet_prefix;
    base_prefix = base_seq_num_prefix;
    manage_retry = manage_retry bolt codec;
    manage_completed = manage_completed bolt codec;
    retry_round = retry_round bolt codec;
    stores = stores;
    records = records;
    takes = takes;
    screener_apart = screener_apart;
    base_apart = base_apart;
    screener_base_apart = screener_base_apart;
    retry_base_apart = retry_base_apart;
  }

-- The ethereum client: where commits succeed, the services do not panic, what is processed comes from a
-- chain that has a client, the emitted packets come from the chain of this client and have texts of
-- valid UTF-8 that fit into the store, sequence numbers of uint64 that tell those of one destination
-- apart, and destinations that the client has, and the store has its buckets: in whatever order
-- packets are fed, asked for, processed, stored and sent again, and recorded numbers are pruned,
-- every packet that was fed is on its way or on the channel of the failed ones; or it was signed and
-- the collector has it, and it is on the channel of the delivered ones, or done with and its number
-- is in the base namespace of its destination unless it was pruned there; or its text stands in the
-- retry namespace of its destination.
pub Moves-keep_ethereum :
    (bolt : Bolt) (codec : Codec) (digest : Digest) (chains : List (Bytes × Bytes)) (own : Bytes)
    (dests : List Bytes) (Emitted : Packet → Type 0)
    → Emits bolt codec (ethereum_manager bolt codec) dests Emitted
    → ((p : Packet) → Emitted p → lookup (big_string p.source.chain_id) chains ≡ some own)
    → Commits bolt
    → (stored : Bytes → List Packet) (db : bolt.Db) (t : System bolt.Db) (p : Packet)
    → IsReady bolt codec (ethereum_manager bolt codec) dests Emitted stored db
    → Moves bolt codec (ethereum_manager bolt codec) digest chains own dests Emitted (starting db) t
    → IsAmong p t.fed
    → IsAmong p t.flying
      ⊎ (IsAmong p t.retries
          ⊎ ((IsAmong p t.completes × IsAccepted p t.processed)
              ⊎ ((IsAmong p t.finished
                    × IsAccepted p t.processed
                    × (IsRecorded bolt codec (ethereum_manager bolt codec) p t.db
                        ⊎ WasPruned bolt codec (ethereum_manager bolt codec) p t))
                  ⊎ IsStored bolt codec (ethereum_manager bolt codec) p t.db)))
Moves-keep_ethereum bolt codec digest chains own dests Emitted emits sources commits =
    Moves-IsSafe bolt codec (ethereum_manager bolt codec) digest chains own dests Emitted emits
      sources commits
