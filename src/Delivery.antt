-- ===== src/Delivery.antt =====
-- The packets of one chain on their way: the feeds of its client in attestor/chainService/chain, the
-- goroutines of attestor/chainService/relay/relays.go, and `managePacket`, as steps that happen in
-- any order, the deletions of pruning among them. A send on a channel puts the packet into its list, a
-- receive takes any packet out; the relay chooses the channels by the name of the packet's chain.
pub mod Manager
pub mod Store
pub mod Retries
pub mod Places
pub mod Kept
pub mod Managed
pub mod Recorded
pub mod Pruned
pub mod Accepted
pub mod Safe
use verulink.Base.{
  ℕ, ◌≡◌, ◌≢◌, Bool, true, false, List, [], ◌∷◌, ◌++◌, Bytes, some, none, map, Result, ok, err,
  panics, lookup, eqb, if◌then◌else◌,
}
use verulink.Chain.{Packet}
use verulink.Chain.BigInt.{big_string}
use verulink.Store.Bolt.{Bolt}
use verulink.Store.Ops.{batch_delete}
use verulink.Ethereum.Client.{supports}
use verulink.Store.Json.{Codec}
use verulink.Relay.Digest.{Digest}
use verulink.Relay.Process.{Delivery, retry, complete, Services, Processed, sign_and_send}
use verulink.Relay.Process.Answers.{IsCalm}
use verulink.Relay.Process.Laws.{run, screened}
use verulink.Delivery.Manager.{PacketManager, sent_packets}

-- `flying` are the packets on `pktCh` and those that are being processed; `retries` and `completes`
-- are the client's channels. What was fed, what was processed with which services, what has come to
-- the end, and which keys of which destinations were pruned is only noted.
pub record System (Db : Type 0) : Type 0 where
  pub db : Db
  pub flying : List Packet
  pub retries : List Packet
  pub completes : List Packet
  pub fed : List Packet
  pub processed : List (Packet × Services)
  pub finished : List Packet
  pub pruned : List (Bytes × Bytes)

-- Nothing has been fed yet.
abbrev pub starting : {Db : Type 0} → Db → System Db
starting db = record {
  db = db;
  flying = [];
  retries = [];
  completes = [];
  fed = [];
  processed = [];
  finished = [];
  pruned = [];
}

-- What goes to the channels that are registered under the client's own name.
abbrev pub to_retry : Bytes → List Delivery → List Packet
to_retry own [] = []
to_retry own (retry name pkt ∷ ds) =
    let rest = to_retry own ds in if eqb own name then pkt ∷ rest else rest
to_retry own (complete name pkt ∷ ds) = to_retry own ds

abbrev pub to_complete : Bytes → List Delivery → List Packet
to_complete own [] = []
to_complete own (retry name pkt ∷ ds) = to_complete own ds
to_complete own (complete name pkt ∷ ds) =
    let rest = to_complete own ds in if eqb own name then pkt ∷ rest else rest

-- The namespaces that `NewClient` appends to `retryPacketNamespaces`.
abbrev pub retry_namespaces : Bytes → List Bytes → List Bytes
retry_namespaces prefix dests = map (λ d. prefix ++ d) dests

module _ (bolt : Bolt) (codec : Codec) (manager : PacketManager bolt codec) (digest : Digest)
    (chains : List (Bytes × Bytes)) (own : Bytes) (dests : List Bytes)
    (Emitted : Packet → Type 0) where
  open bolt use {Db}

  -- The packets that the chain has emitted are fed, and those that the collector asks for are
  -- added. Any services may answer while a packet is processed, as long as none panics. Pruning
  -- deletes keys of the base namespaces, here any that it may; what it fetches again is fed.
  pub data Move (s t : System Db) : Type 0 where
    feed :
        (pkt : Packet)
        → Emitted pkt
        → t ≡ record s { flying = pkt ∷ s.flying; fed = pkt ∷ s.fed }
        → Move s t
    request :
        (pkt : Packet) → pkt.is_missed ≡ true → t ≡ record s { flying = pkt ∷ s.flying } → Move s t
    process :
        (services : Services) (name : Bytes) (xs : List Packet) (pkt : Packet) (ys : List Packet)
        → s.flying ≡ xs ++ pkt ∷ ys
        → lookup (big_string pkt.source.chain_id) chains ≡ some name
        → IsCalm services
        → t ≡ record s {
          db = (run bolt digest chains services pkt s.db).db;
          flying = xs ++ ys;
          retries = to_retry own (run bolt digest chains services pkt s.db).sent ++ s.retries;
          completes =
              to_complete own (run bolt digest chains services pkt s.db).sent ++ s.completes;
          processed = (pkt, services) ∷ s.processed;
        }
        → Move s t
    keep_retry :
        (xs : List Packet) (pkt : Packet) (ys : List Packet)
        → s.retries ≡ xs ++ pkt ∷ ys
        → t ≡ record s { db = (manager.manage_retry pkt s.db).1; retries = xs ++ ys }
        → Move s t
    keep_completed :
        (xs : List Packet) (pkt : Packet) (ys : List Packet)
        → s.completes ≡ xs ++ pkt ∷ ys
        → t ≡ record s {
          db = (manager.manage_completed pkt s.db).1;
          completes = xs ++ ys;
          finished = pkt ∷ s.finished;
        }
        → Move s t
    retry_tick :
        (index : ℕ)
        → t ≡ record s {
          db = (manager.retry_round (retry_namespaces manager.retry_prefix dests) index s.db).1;
          flying =
              sent_packets
                (manager.retry_round (retry_namespaces manager.retry_prefix dests) index s.db).0
              ++ s.flying;
        }
        → Move s t
    prune :
        (d key : Bytes)
        → supports dests d ≡ true
        → t ≡ record s {
          db = (batch_delete bolt (manager.base_prefix ++ d) key s.db).1;
          pruned = (d, key) ∷ s.pruned;
        }
        → Move s t

  pub data Moves (s : System Db) : System Db → Type 0 where
    here : Moves s s
    next : {t u : System Db} → Moves s t → Move t u → Moves s u
