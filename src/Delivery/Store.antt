-- ===== src/Delivery/Store.antt =====
-- What the steps of a packet's way leave in the store: the retry namespaces hold the packets that
-- are to be sent again.
use mathlib.Core.Path.{subst}
use verulink.Base.{
  ℕ, zero, suc, ◌≡◌, inl, inr, refl, ◌∙◌, true, false, List, [], ◌∷◌, ◌++◌, some, Bytes, eqb,
  eqb_iff, eqb_refl, get_elem?, All, arith, if◌then◌else◌, Bool-cases,
}
use verulink.Chain.{Packet, IsAmong}
use verulink.Store.Key.Laws.{IsWord}
use verulink.Store.Bolt.{Bolt}
use verulink.Store.Bolt.Entries.{Entry}
use verulink.Store.Json.{Codec, IsTextOf}
use verulink.Store.Ops.Laws.{Holds}
use verulink.Store.Retry.{Encodes}
use verulink.Relay.Screener.{namespace}
use verulink.Relay.Process.Touches.{Touches}
use verulink.Ethereum.Client.{supports}
use verulink.Delivery.Manager.{PacketManager, dest_of}
use verulink.Delivery.{retry_namespaces}

pub eqb-prefix : (s c d : Bytes) → eqb (s ++ c) (s ++ d) ≡ eqb c d
unfolding eqb
eqb-prefix [] c d = refl
eqb-prefix (b ∷ s) c d = ground (arith, eqb-prefix s c d)

module _ {ℓ} {A : Type ℓ} where
  -- One value of a function of names is another.
  abbrev pub replaced : Bytes → A → (Bytes → A) → Bytes → A
  replaced d x f e = if eqb d e then x else f e

-- A namespace of `NewClient` is that of a destination.
pub get_elem?-retry_namespaces :
    (prefix : Bytes) (dests : List Bytes) (index : ℕ) (ns : Bytes)
    → get_elem? (retry_namespaces prefix dests) index ≡ some ns
    → (d : Bytes) × (ns ≡ prefix ++ d) × (supports dests d ≡ true)
unfolding supports
get_elem?-retry_namespaces prefix [] index ns e = cc
get_elem?-retry_namespaces prefix (d ∷ ds) zero ns e = (d, cc, rw eqb_refl)
get_elem?-retry_namespaces prefix (d ∷ ds) (suc index) ns e =
    let (c, same, known) = get_elem?-retry_namespaces prefix ds index ns e in
    (c, same, ground (arith, eqb_iff d c))

module _ (bolt : Bolt) (codec : Codec) (manager : PacketManager bolt codec) where
  -- The packet stands in the retry namespace of its destination.
  abbrev pub IsStored : Packet → bolt.Db → Type 0
  IsStored p db =
      (ps : List Packet) × (es : List Entry) × (bolt.bucket db (manager.retry_prefix ++ dest_of p)
        ≡ some es)
      × Encodes codec ps es
      × IsAmong p ps

module _ (bolt : Bolt) (codec : Codec) (manager : PacketManager bolt codec) (dests : List Bytes)
    (Emitted : Packet → Type 0) where
  open bolt use {Db, bucket}

  -- What is known of the packets of a chain: they are fed as missed by nobody, have a text, and
  -- their sequence numbers tell those of one destination apart.
  pub record Emits : Type 0 where
    pub unmissed : (p : Packet) → Emitted p → p.is_missed ≡ false
    pub word : (p : Packet) → Emitted p → IsWord p.sequence
    pub text : (p : Packet) → Emitted p → (v : Bytes) × IsTextOf codec p v
    pub supported : (p : Packet) → Emitted p → supports dests (dest_of p) ≡ true
    pub unique :
        (p q : Packet)
        → Emitted p
        → Emitted q
        → dest_of p ≡ dest_of q
        → p.sequence ≡ q.sequence
        → p ≡ q

  -- An emitted packet for the destination.
  abbrev pub IsFor : Bytes → Packet → Type 0
  IsFor d p = Emitted p × (dest_of p ≡ d)

  -- The buckets that the program needs are there, and `stored` are the packets to send again.
  pub record IsReady (stored : Bytes → List Packet) (db : Db) : Type 0 where
    pub encoded :
        (d : Bytes)
        → supports dests d ≡ true
        → (es : List Entry) × (bucket db (manager.retry_prefix ++ d) ≡ some es)
          × Encodes codec (stored d) es
    pub of_dest : (d : Bytes) → All (IsFor d) (stored d)
    pub screener : (es : List Entry) × (bucket db namespace ≡ some es)
    pub bases :
        (d : Bytes)
        → supports dests d ≡ true
        → (es : List Entry) × (bucket db (manager.base_prefix ++ d) ≡ some es)

  Holds-there :
      (ns m : Bytes) (db after : Db) (es : List Entry)
      → Holds bolt db ns es after
      → (fs : List Entry) × (bucket db m ≡ some fs)
      → (gs : List Entry) × (bucket after m ≡ some gs)
  Holds-there ns m db after es held (fs, there) = elim (Bool-cases (eqb ns m)) [
    | inl same ↦ (es, held m ∙ rw same)
    | inr other ↦ (fs, held m ∙ rw other there)
  ]

  -- A change of one bucket that holds no packets.
  pub IsReady-Touches :
      (stored : Bytes → List Packet) (ns : Bytes) (db after : Db)
      → ((d : Bytes) → eqb ns (manager.retry_prefix ++ d) ≡ false)
      → Touches bolt ns db after
      → IsReady stored db
      → IsReady stored after
  IsReady-Touches stored ns db after apart (es, held) r = record {
    encoded = λ d known.
        let (fs, there, texts) = r.encoded d known in
        (fs, held (manager.retry_prefix ++ d) ∙ rw (apart d) there, texts);
    of_dest = r.of_dest;
    screener = Holds-there ns namespace db after es held r.screener;
    bases = λ d known. Holds-there ns (manager.base_prefix ++ d) db after es held (r.bases d known);
  }

  -- A change of one retry namespace.
  pub IsReady-replaced :
      (stored : Bytes → List Packet) (d : Bytes) (ps : List Packet) (es : List Entry)
      (db after : Db)
      → Holds bolt db (manager.retry_prefix ++ d) es after
      → Encodes codec ps es
      → All (IsFor d) ps
      → IsReady stored db
      → IsReady (replaced d ps stored) after
  IsReady-replaced stored d ps es db after held texts all r = record {
    encoded = λ e known. elim (Bool-cases (eqb d e)) [
      | inl same ↦ (
        es,
        held (manager.retry_prefix ++ e) ∙ rw (eqb-prefix manager.retry_prefix, same),
        rw same texts,
      )
      | inr other ↦
          let (fs, there, old) = r.encoded e known in
          (
            fs,
            held (manager.retry_prefix ++ e) ∙ rw (eqb-prefix manager.retry_prefix, other) there,
            rw other old,
          )
    ];
    of_dest = λ e. elim (Bool-cases (eqb d e)) [
      | inl same ↦ rw same (subst (λ x. All (IsFor x) ps) ((eqb_iff d e).0 same) all)
      | inr other ↦ rw other (r.of_dest e)
    ];
    screener = Holds-there (manager.retry_prefix ++ d) namespace db after es held r.screener;
    bases = λ e known.
        Holds-there (manager.retry_prefix ++ d) (manager.base_prefix ++ e) db after es held
          (r.bases e known);
  }
