-- ===== src/Delivery/Recorded.antt =====
-- What is done with is recorded: `managePacket` of a client in attestor/chainService/chain stores the
-- sequence number of a delivered packet, and no step of a packet's way takes it out.
use mathlib.Core.Path.{subst}
use verulink.Base.{
  ℕ, ◌≡◌, ◌⊎◌, inl, inr, refl, sym, ap, ◌∙◌, false, List, [], ◌∷◌, ◌++◌, Bytes, some, eqb, eqb_iff,
  eqb_refl, arith, Bool-cases, drop, ◌==◌, if◌then◌else◌,
}
use verulink.Chain.{Packet}
use verulink.Store.Key.{uint64, put_uint64, get_key_byte_for_key_constraint}
use verulink.Store.Key.Laws.{length-put_uint64}
use verulink.Store.BaseSeq.Encoding.{height_value-IsStorable}
use verulink.Store.Bolt.{Bolt, IsKey}
use verulink.Store.Bolt.Entries.{Entry, insert}
use verulink.Store.Key.BigEndian.{bytes_lt}
use verulink.Store.Json.{Codec}
use verulink.Store.Db.{store_base_seq_num}
use verulink.Store.Ops.Laws.{Commits, put_commits}
use verulink.Store.Retry.{store_retry_commits}
use verulink.Relay.Process.Touches.{Touches}
use verulink.Delivery.Manager.{PacketManager, dest_of}
use verulink.Delivery.{retry_namespaces}
use verulink.Delivery.Store.{Emits, IsReady, get_elem?-retry_namespaces}
use verulink.Delivery.Retries.{retrieve_takes}

-- One of the keys.
abbrev pub HasKey : Bytes → List Entry → Type 0
HasKey k [] = ⊥
HasKey k ((j, w) ∷ es) = (k ≡ j) ⊎ HasKey k es

HasKey-insert : (k v : Bytes) (es : List Entry) → HasKey k (insert k v es)
unfolding insert
HasKey-insert k v [] = inl refl
HasKey-insert k v ((j, w) ∷ es) = elim (Bool-cases (bytes_lt k j)) [
  | inl before ↦ rw before (inl refl)
  | inr after ↦ elim (Bool-cases (eqb j k)) [
    | inl same ↦ rw (after, same) (inl refl)
    | inr other ↦ rw (after, other) (inr (HasKey-insert k v es))
  ]
]

HasKey-insert_old : (i k v : Bytes) (es : List Entry) → HasKey i es → HasKey i (insert k v es)
unfolding insert
HasKey-insert_old i k v [] h = absurd h
HasKey-insert_old i k v ((j, w) ∷ es) h = elim (Bool-cases (bytes_lt k j)) [
  | inl before ↦ rw before (inr h)
  | inr after ↦ elim (Bool-cases (eqb j k)) [
    | inl same ↦
        rw (after, same) (elim h [ inl e ↦ inl (e ∙ (eqb_iff j k).0 same) | inr rest ↦ inr rest ])
    | inr other ↦
        rw (after, other)
          (elim h [ inl e ↦ inl e | inr rest ↦ inr (HasKey-insert_old i k v es rest) ])
  ]
]

module _ (bolt : Bolt) (codec : Codec) (manager : PacketManager bolt codec) where
  open bolt use {Db, bucket}

  -- The packet's number is in the base namespace of its destination.
  abbrev pub IsRecorded : Packet → Db → Type 0
  IsRecorded p db =
      (es : List Entry) × (bucket db (manager.base_prefix ++ dest_of p) ≡ some es)
      × HasKey (put_uint64 p.sequence) es

  -- A change of another bucket.
  pub IsRecorded-Touches :
      (p : Packet) (ns : Bytes) (db after : Db)
      → eqb ns (manager.base_prefix ++ dest_of p) ≡ false
      → Touches bolt ns db after
      → IsRecorded p db
      → IsRecorded p after
  IsRecorded-Touches p ns db after apart (fs, held) (es, there, has) =
      (es, held (manager.base_prefix ++ dest_of p) ∙ rw apart there, has)

  -- The packet is recorded, and no other is forgotten.
  pub manage_completed-IsRecorded :
      (p : Packet) (db : Db) (es : List Entry)
      → Commits bolt
      → bucket db (manager.base_prefix ++ dest_of p) ≡ some es
      → (q : Packet) → (q ≡ p) ⊎ IsRecorded q db
      → IsRecorded q (manager.manage_completed p db).1
  unfolding store_base_seq_num get_key_byte_for_key_constraint
  manage_completed-IsRecorded p db es commits there q known =
      let ns : Bytes = manager.base_prefix ++ dest_of p in
      let (height, same) = manager.records p db in
      let value : Bytes =
        if height == 0 then [] else get_key_byte_for_key_constraint (uint64 height) in
      let key : IsKey (put_uint64 p.sequence) = omega (arith, length-put_uint64 p.sequence) in
      let (after, run, held) =
        put_commits bolt ns (put_uint64 p.sequence) value db es commits there key
          (height_value-IsStorable height) in
      rw (same, run)
        (elim known [
          | inl e ↦
              subst (λ r. IsRecorded r after) (sym e)
                (
                  insert (put_uint64 p.sequence) value es,
                  held ns ∙ rw (eqb_refl ns),
                  HasKey-insert (put_uint64 p.sequence) value es,
                )
          | inr (fs, found, has) ↦
              let ms : Bytes = manager.base_prefix ++ dest_of q in
              elim (Bool-cases (eqb ns ms)) [
                | inl one ↦
                    let e : some fs ≡ some es =
                      sym found ∙ ap (bucket db) (sym ((eqb_iff ns ms).0 one)) ∙ there in
                    let f : fs ≡ es = cc in
                    (
                      insert (put_uint64 p.sequence) value es,
                      held ms ∙ rw one,
                      HasKey-insert_old (put_uint64 q.sequence) (put_uint64 p.sequence) value es
                          (subst (λ l. HasKey (put_uint64 q.sequence) l) f has),
                    )
                | inr other ↦ (fs, held ms ∙ rw other found, has)
              ]
        ])

module _ (bolt : Bolt) (codec : Codec) (manager : PacketManager bolt codec) (dests : List Bytes)
    (Emitted : Packet → Type 0) (emits : Emits bolt codec manager dests Emitted)
    (commits : Commits bolt) where
  open bolt use {Db, bucket}

  pub manage_retry-IsRecorded :
      (stored : Bytes → List Packet) (p : Packet) (db : Db)
      → Emitted p
      → IsReady bolt codec manager dests Emitted stored db
      → (q : Packet) → IsRecorded bolt codec manager q db
      → IsRecorded bolt codec manager q (manager.manage_retry p db).1
  manage_retry-IsRecorded stored p db em r q h =
      let (v, text) = emits.text p em in
      let (es, there, texts) = r.encoded (dest_of p) (emits.supported p em) in
      let (after, run, held) =
        store_retry_commits codec bolt (manager.retry_prefix ++ dest_of p) db p v es commits there
          text in
      rw (manager.stores p db, run)
        (IsRecorded-Touches bolt codec manager q (manager.retry_prefix ++ dest_of p) db after
          (manager.retry_base_apart (dest_of p) (dest_of q))
          (insert (put_uint64 p.sequence) v es, held) h)

  pub retry_round-IsRecorded :
      (stored : Bytes → List Packet) (index : ℕ) (db : Db)
      → IsReady bolt codec manager dests Emitted stored db
      → (q : Packet) → IsRecorded bolt codec manager q db
      → IsRecorded bolt codec manager q
          (manager.retry_round (retry_namespaces manager.retry_prefix dests) index db).1
  retry_round-IsRecorded stored index db r q h =
      elim (manager.takes (retry_namespaces manager.retry_prefix dests) index db) [
        | inl (nothing, same) ↦ rw same h
        | inr (i, ns, at, sent, left) ↦
            let (d, named, known) = get_elem?-retry_namespaces manager.retry_prefix dests i ns at in
            let (es, there, texts) = r.encoded d known in
            let there' : bucket db ns ≡ some es =
              subst (λ m. bucket db m ≡ some es) (sym named) there in
            let (n, took, held) = retrieve_takes bolt codec db ns (stored d) es there' texts in
            rw left (
              IsRecorded-Touches bolt codec manager q ns db _
                (subst (λ m. eqb m (manager.base_prefix ++ dest_of q) ≡ false) (sym named)
                  (manager.retry_base_apart d (dest_of q)))
                (drop n es, held) h)
      ]
