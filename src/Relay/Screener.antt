-- ===== src/Relay/Screener.antt =====
-- attestor/chainService/relay/address_screener/screen.go.
pub mod Laws
use verulink.Base.{Bool, true, Bytes, codes, Result, ok, err, panics}
use verulink.Chain.{Packet}
use verulink.Store.Bolt.{Bolt}
use verulink.Store.Db.{create_namespace, get_and_delete_white_status, store_white_status}
use verulink.Relay.Digest.{Digest, get_sha256_hash}

abbrev pub namespace : Bytes
namespace = codes "walletScreeningNS"

abbrev pub or_white : Result Bool → Result Bool
or_white (ok v) = ok v
or_white (err e) = ok true
or_white panics = panics

abbrev pub or_crash : Result (Unit {0}) → Result (Unit {0})
or_crash (ok u) = ok tt
or_crash (err e) = panics
or_crash panics = panics

module _ (bolt : Bolt) (digest : Digest) where
  open bolt use {Db}

  -- A status that was stored is taken out and returned; with none, or on any error, the packet is
  -- white: the addresses are not yet sent to an analysis.
  unfoldable pub screen : Packet → Db → Result Bool × Db
  screen pkt db =
      let (status, after) =
        get_and_delete_white_status bolt namespace (get_sha256_hash digest pkt) db in
      (or_white status, after)

  unfoldable pub screener_store_white_status : Packet → Bool → Db → Result (Unit {0}) × Db
  screener_store_white_status pkt is_white db =
      store_white_status bolt namespace (get_sha256_hash digest pkt) is_white db

  -- An error of `CreateNamespace` panics.
  unfoldable pub setup_screen_service : Db → Result (Unit {0}) × Db
  setup_screen_service db =
      let (created, after) = create_namespace bolt namespace db in (or_crash created, after)
