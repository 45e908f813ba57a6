-- ===== src/Tests/Stores.antt =====
-- Stores at which the theorems are applied.
use verulink.Base.{refl, false, List, [], ◌∷◌, Bytes, codes, eqb, arith, lookup}
use verulink.Store.Key.{put_uint64}
use verulink.Store.Key.BigEndian.{be, bytes_lt}
use verulink.Store.Bolt.Entries.{insert}
use verulink.Store.Ops.Laws.{Commits}
use verulink.Store.Db.{screen_value_map}
use verulink.Store.BaseSeq.Encoding.{SeqHeight, encode_height}
use verulink.Store.BaseSeq.Refinement.{IsBase}
use verulink.Relay.Screener.{namespace}
use verulink.Relay.Screener.Laws.{HasStatus}
use verulink.Relay.Digest.{get_sha256_hash}
use verulink.Tests.Journal.{journal, Write, created, stored}
use verulink.Tests.Data.{digest, pkt}

abbrev pub ns : Bytes
ns = codes "aleo_bsns1"

-- The packets 1, 2 and 5 are delivered.
abbrev pub delivered : List SeqHeight
delivered = (1, 10) ∷ (2, 20) ∷ (5, 50) ∷ []

abbrev pub gapped : List Write
gapped =
    stored ns (put_uint64 5) (encode_height 50)
    ∷ stored ns (put_uint64 2) (encode_height 20)
    ∷ stored ns (put_uint64 1) (encode_height 10)
    ∷ created ns
    ∷ []

pub gapped-IsBase : IsBase journal gapped ns delivered
unfolding eqb put_uint64 be bytes_lt insert encode_height
gapped-IsBase = record { stored = refl; words = omega arith; ascending = omega arith }

pub commits : Commits journal
commits db after = refl

-- A namespace that is empty.
abbrev pub empty_at : Bytes → List Write
empty_at m = created m ∷ []

-- The packet is screened and found to be flagged.
abbrev pub flagged : List Write
flagged =
    stored namespace (get_sha256_hash digest pkt) (screen_value_map false) ∷ created namespace ∷ []

pub flagged-HasStatus : HasStatus journal digest pkt false flagged
unfolding eqb insert get_sha256_hash lookup
flagged-HasStatus = record {
  entries = (get_sha256_hash digest pkt, screen_value_map false) ∷ [];
  here = refl;
  found = refl;
}
