-- ===== src/Store/Retry.antt =====
-- The packets of a retry namespace: they come back in the order of their sequence numbers, each
-- once, and as they were stored.
use verulink.Base.{
  ℕ, zero, suc, ◌<◌, ◌≡◌, ◌∙◌, ap, inl, inr, refl, false, List, [], ◌∷◌, map, take, drop, some,
  Bytes, ok, arith, ◌>>=◌,
}
use verulink.Chain.{Packet, set_missed}
use verulink.Store.Key.{put_uint64, get_key_byte_for_key_constraint}
use verulink.Store.Key.Laws.{length-put_uint64}
use verulink.Store.Bolt.{Bolt, IsKey}
use verulink.Store.Bolt.Entries.{Entry, insert}
use verulink.Store.Json.{Codec, IsTextOf}
use verulink.Store.Ops.Laws.{
  values, Yields, Yields-retrieve, Settles, Settles-put, Holds, Holds-self, Commits, put_commits,
  retrieve_commits,
}
use verulink.Store.Db.{store_retry_packet, unmarshal_all, retrieve_and_delete_n_packets}

drop_nil : (n : ℕ) → drop {A = Entry} n [] ≡ []
drop_nil zero = refl
drop_nil (suc n) = refl

take_nil : (n : ℕ) → take {A = Entry} n [] ≡ []
take_nil zero = refl
take_nil (suc n) = refl

module _ (codec : Codec) where
  -- Every pair is a packet under its sequence number.
  abbrev pub Encodes : List Packet → List Entry → Type 0
  Encodes [] [] = Unit
  Encodes [] (e ∷ es) = ⊥
  Encodes (p ∷ ps) [] = ⊥
  Encodes (p ∷ ps) ((k, v) ∷ es) = (k ≡ put_uint64 p.sequence) × IsTextOf codec p v × Encodes ps es

  -- The flag of missed packets is not stored.
  abbrev pub reload : Packet → Packet
  reload p = set_missed p false

  unmarshal_all-take :
      (n : ℕ) (ps : List Packet) (es : List Entry)
      → Encodes ps es
      → (bolt : Bolt)
      → unmarshal_all bolt codec (map values (take n es)) ≡ ok (map reload (take n ps))
  unfolding unmarshal_all
  unmarshal_all-take zero ps es h bolt = refl
  unmarshal_all-take (suc n) [] [] h bolt = refl
  unmarshal_all-take (suc n) [] (e ∷ es) h bolt = absurd h
  unmarshal_all-take (suc n) (p ∷ ps) [] h bolt = absurd h
  unmarshal_all-take (suc n) (p ∷ ps) ((k, v) ∷ es) (a, b, h) bolt =
      rw (codec.unmarshal-marshal p v b.0 b.1, unmarshal_all-take n ps es h bolt)

  module _ (bolt : Bolt) (ns : Bytes) (db : bolt.Db) where
    -- The first `n` packets are returned and removed, or nothing changes.
    pub Yields-retrieve_packets :
        (n : ℕ) (p : Packet) (ps : List Packet) (es : List Entry)
        → bolt.bucket db ns ≡ some es
        → Encodes (p ∷ ps) es
        → 0 < n
        → Yields bolt db ns
            (drop n es)
            (map reload (take n (p ∷ ps)))
            (retrieve_and_delete_n_packets bolt codec ns n db)
    unfolding retrieve_and_delete_n_packets
    Yields-retrieve_packets n p ps [] here enc lt = absurd enc
    Yields-retrieve_packets n p ps (e ∷ es) here enc lt =
        elim (Yields-retrieve bolt ns n db e es here lt) [
          | inl (after, run, held) ↦ inl (
            after,
            rw (retrieve_and_delete_n_packets, run)
                (rw (◌>>=◌, unmarshal_all-take n (p ∷ ps) (e ∷ es) enc bolt)),
            held,
          )
          | inr (x, run) ↦ inr (x, rw (retrieve_and_delete_n_packets, run))
        ]

    -- A packet is stored under its sequence number, or the write fails and changes nothing.
    pub Settles-store_retry_packet :
        (p : Packet) (v : Bytes) (es : List Entry)
        → bolt.bucket db ns ≡ some es
        → IsTextOf codec p v
        → Settles bolt db ns
            (insert (put_uint64 p.sequence) v es)
            (store_retry_packet bolt codec ns p db)
    unfolding store_retry_packet get_key_byte_for_key_constraint
    Settles-store_retry_packet p v es here e =
        let key : IsKey (put_uint64 p.sequence) = omega (arith, length-put_uint64 p.sequence) in
        rw (store_retry_packet, e.1)
          (Settles-put bolt ns db es here (put_uint64 p.sequence) v key e.2)

  -- Where commits succeed, a packet is put under its sequence number.
  pub store_retry_commits :
      (bolt : Bolt) (ns : Bytes) (db : bolt.Db) (p : Packet) (v : Bytes) (es : List Entry)
      → Commits bolt
      → bolt.bucket db ns ≡ some es
      → IsTextOf codec p v
      → (after : bolt.Db) × (store_retry_packet bolt codec ns p db ≡ (ok tt, after))
        × Holds bolt db ns (insert (put_uint64 p.sequence) v es) after
  unfolding store_retry_packet get_key_byte_for_key_constraint
  store_retry_commits bolt ns db p v es commits here text =
      let key : IsKey (put_uint64 p.sequence) = omega (arith, length-put_uint64 p.sequence) in
      let (after, e, held) =
        put_commits bolt ns (put_uint64 p.sequence) v db es commits here key text.2 in
      (after, rw (store_retry_packet, text.1, e), held)

  module _ (bolt : Bolt) (ns : Bytes) (db : bolt.Db) (p : Packet) (v : Bytes)
      (commits : Commits bolt) (here : bolt.bucket db ns ≡ some [])
      (text : IsTextOf codec p v) where
    stored_commits :
        (mid : bolt.Db) × (store_retry_packet bolt codec ns p db ≡ (ok tt, mid))
        × (bolt.bucket mid ns ≡ some ((put_uint64 p.sequence, v) ∷ []))
    stored_commits =
        let (mid, e, held) = store_retry_commits bolt ns db p v [] commits here text in
        (mid, e, unfold insert in Holds-self bolt db ns _ mid held)

    -- If commits succeed, a packet that is stored in an empty namespace is the one that is
    -- retrieved, but for its flag of missed packets, and the namespace is empty again.
    pub retrieve-store :
        (n : ℕ)
        → (after : bolt.Db) × (retrieve_and_delete_n_packets bolt codec ns
              (suc n)
              (store_retry_packet bolt codec ns p db).1
            ≡ (ok (reload p ∷ []), after))
          × (bolt.bucket after ns ≡ some [])
    unfolding retrieve_and_delete_n_packets
    retrieve-store n =
        let (mid, stored, now) = stored_commits in
        let (after, run, held) =
          retrieve_commits bolt ns (suc n) mid (put_uint64 p.sequence, v) [] commits now
            (omega arith) in
        let empty : drop (suc n) ((put_uint64 p.sequence, v) ∷ []) ≡ [] = drop_nil n in
        (
          after,
          rw (stored, retrieve_and_delete_n_packets, run)
              (rw (take_nil, ◌>>=◌, unmarshal_all, codec.unmarshal-marshal p v text.0 text.1)),
          Holds-self bolt mid ns _ after held ∙ ap some empty,
        )
