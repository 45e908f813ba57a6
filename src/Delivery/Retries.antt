-- ===== src/Delivery/Retries.antt =====
-- `managePacket` and `retryFeed` of a client in attestor/chainService/chain keep the packets that are
-- to be sent again.
use mathlib.Core.Path.{subst}
use verulink.Base.{
  ℕ, ◌≡◌, ◌⊎◌, inl, inr, refl, sym, ap, ◌∙◌, false, List, [], ◌∷◌, ◌++◌, map, take, drop, some,
  Bytes, eqb, eqb_iff, eqb_refl, err, message, codes, All, arith, Bool-cases,
}
use verulink.Chain.{Packet, IsAmong, set_missed}
use verulink.Store.Key.{put_uint64}
use verulink.Store.Key.Laws.{IsWord}
use verulink.Store.Bolt.{Bolt}
use verulink.Store.Bolt.Entries.{Entry, insert}
use verulink.Store.Json.{Codec}
use verulink.Store.Db.{retrieve_and_delete_n_packets}
use verulink.Store.Ops.Laws.{Commits, Holds, Holds-unchanged, retrieve_empty}
use verulink.Store.Retry.{Encodes, reload, store_retry_commits, Yields-retrieve_packets}
use verulink.Store.RetryList.{
  insert_packet, IsAmong-insert_packet, IsAmong-insert_packet_old, All-insert_packet, All-take,
  All-drop, IsAmong-take, Encodes-insert_packet, Encodes-drop,
}
use verulink.Delivery.Manager.{PacketManager, sent_packets, retrieved, dest_of}
use verulink.Delivery.{retry_namespaces}
use verulink.Delivery.Store.{
  replaced, get_elem?-retry_namespaces, Emits, IsFor, IsReady, IsReady-replaced,
}

List-cases {ℓ} : {A : Type ℓ} (l : List A) → (l ≡ []) ⊎ ((x : A) × (xs : List A) × (l ≡ x ∷ xs))
List-cases [] = inl refl
List-cases (x ∷ xs) = inr (x, xs, refl)

module _ (bolt : Bolt) (codec : Codec) (db : bolt.Db) where
  -- The first packets of a namespace are taken out, or nothing is changed.
  pub retrieve_takes :
      (ns : Bytes) (ps : List Packet) (es : List Entry)
      → bolt.bucket db ns ≡ some es
      → Encodes codec ps es
      → (n : ℕ) × (retrieved (retrieve_and_delete_n_packets bolt codec ns 10 db).0
          ≡ map (reload codec) (take n ps))
        × Holds bolt db ns (drop n es) (retrieve_and_delete_n_packets bolt codec ns 10 db).1
  retrieve_takes ns [] (e ∷ es) there texts = absurd texts
  retrieve_takes ns (p ∷ ps) [] there texts = absurd texts
  retrieve_takes ns [] [] there texts =
      let nothing : (retrieve_and_delete_n_packets bolt codec ns 10 db)
          ≡ (err (message (codes "empty bucket: " ++ ns)), db) =
        unfold retrieve_and_delete_n_packets in rw (retrieve_empty bolt ns 10 db there) in
      (0, rw nothing, rw nothing (Holds-unchanged bolt db ns [] there))
  retrieve_takes ns (p ∷ ps) (e ∷ es) there texts =
      elim (Yields-retrieve_packets codec bolt ns db 10 p ps (e ∷ es) there texts (omega arith)) [
        | inl (after, run, held) ↦ (10, rw run, rw run held)
        | inr (x, run) ↦ (0, rw run, rw run (Holds-unchanged bolt db ns (e ∷ es) there))
      ]

module _ (bolt : Bolt) (codec : Codec) (manager : PacketManager bolt codec) (dests : List Bytes)
    (Emitted : Packet → Type 0) (emits : Emits bolt codec manager dests Emitted) where
  open bolt use {Db, bucket}

  -- No packet that is to be sent again is forgotten, unless it is one of those that are sent.
  abbrev pub Keeps : (Bytes → List Packet) → (Bytes → List Packet) → List Packet → Type 0
  Keeps before after sent =
      (q : Packet)
      → Emitted q
      → IsAmong q (before (dest_of q))
      → IsAmong q sent ⊎ IsAmong q (after (dest_of q))

  map-reload :
      (d : Bytes) (ps : List Packet)
      → All (IsFor bolt codec manager dests Emitted d) ps
      → map (reload codec) ps ≡ ps
  unfolding set_missed
  map-reload d [] h = refl
  map-reload d (p ∷ ps) h =
      let fresh : p.is_missed ≡ false = emits.unmissed p h.0.0 in
      let same : reload codec p ≡ p = ap (λ b. record p { is_missed = b }) (sym fresh) in
      rw (same, map-reload d ps h.1)

  words :
      (d : Bytes) (ps : List Packet)
      → All (IsFor bolt codec manager dests Emitted d) ps
      → All (λ (q : Packet). IsWord q.sequence) ps
  words d [] h = tt
  words d (p ∷ ps) h = (emits.word p h.0.0, words d ps h.1)

  All-Emitted :
      (d : Bytes) (ps : List Packet)
      → All (IsFor bolt codec manager dests Emitted d) ps
      → All Emitted ps
  All-Emitted d [] h = tt
  All-Emitted d (p ∷ ps) h = (h.0.0, All-Emitted d ps h.1)

  -- A packet is kept where those of one destination are.
  IsAmong-replaced :
      (stored : Bytes → List Packet) (d : Bytes) (ps sent : List Packet) (q : Packet)
      → IsAmong q (stored (dest_of q))
      → (d ≡ dest_of q → IsAmong q (stored d) → IsAmong q sent ⊎ IsAmong q ps)
      → IsAmong q sent ⊎ IsAmong q (replaced d ps stored (dest_of q))
  IsAmong-replaced stored d ps sent q m kept = elim (Bool-cases (eqb d (dest_of q))) [
    | inl same ↦
        let e : d ≡ dest_of q = (eqb_iff d (dest_of q)).0 same in
        rw same (kept e (subst (λ x. IsAmong q (stored x)) (sym e) m))
    | inr other ↦ rw other (inr m)
  ]

  -- A failed packet is among those to send again.
  pub manage_retry-IsReady :
      (stored : Bytes → List Packet) (p : Packet) (db : Db)
      → Commits bolt
      → Emitted p
      → IsReady bolt codec manager dests Emitted stored db
      → (after : Bytes → List Packet) × IsReady bolt codec manager dests Emitted after
          (manager.manage_retry p db).1
        × IsAmong p (after (dest_of p))
        × Keeps stored after []
  manage_retry-IsReady stored p db commits em r =
      let d : Bytes = dest_of p in
      let (v, text) = emits.text p em in
      let (es, there, texts) = r.encoded d (emits.supported p em) in
      let (after, run, held) =
        store_retry_commits codec bolt (manager.retry_prefix ++ d) db p v es commits there text in
      let good : All (IsFor bolt codec manager dests Emitted d) (stored d) = r.of_dest d in
      (
        replaced d (insert_packet p (stored d)) stored,
        rw (manager.stores p db, run)
            (IsReady-replaced bolt codec manager dests Emitted stored d (insert_packet p (stored d))
              (insert (put_uint64 p.sequence) v es) db after held
              (Encodes-insert_packet codec p v (stored d) es (emits.word p em)
                (words d (stored d) good) text texts)
              (All-insert_packet (IsFor bolt codec manager dests Emitted d) p (stored d) (em, refl)
                good)
              r),
        rw (eqb_refl d) (IsAmong-insert_packet p (stored d)),
        λ q eq m. IsAmong-replaced stored d (insert_packet p (stored d)) [] q m λ same old. inr (
            IsAmong-insert_packet_old p q (stored d) (λ seq. emits.unique q p eq em (sym same) seq)
              old),
      )

  -- A tick sends packets that are to be sent again.
  pub retry_round-IsReady :
      (stored : Bytes → List Packet) (index : ℕ) (db : Db)
      → IsReady bolt codec manager dests Emitted stored db
      → (after : Bytes → List Packet) × IsReady bolt codec manager dests Emitted after
          (manager.retry_round (retry_namespaces manager.retry_prefix dests) index db).1
        × All Emitted (
            sent_packets
              (manager.retry_round (retry_namespaces manager.retry_prefix dests) index db).0)
        × Keeps stored after (
            sent_packets
              (manager.retry_round (retry_namespaces manager.retry_prefix dests) index db).0)
  retry_round-IsReady stored index db r =
      let names : List Bytes = retry_namespaces manager.retry_prefix dests in
      elim (manager.takes names index db) [
        | inl (none_sent, same) ↦ (stored, rw same r, rw none_sent tt, λ q em m. inr m)
        | inr (i, ns, at, sent, left) ↦
            let (d, same, known) = get_elem?-retry_namespaces manager.retry_prefix dests i ns at in
            let (es, there, texts) = r.encoded d known in
            let (n, took, held) =
              retrieve_takes bolt codec db ns (stored d) es
                (subst (λ m. bucket db m ≡ some es) (sym same) there) texts in
            let good : All (IsFor bolt codec manager dests Emitted d) (take n (stored d)) =
              All-take (IsFor bolt codec manager dests Emitted d) n (stored d) (r.of_dest d) in
            let all : sent_packets (manager.retry_round names index db).0 ≡ take n (stored d) =
              sent ∙ took ∙ map-reload d (take n (stored d)) good in
            (
              replaced d (drop n (stored d)) stored,
              IsReady-replaced bolt codec manager dests Emitted stored d (drop n (stored d))
                  (drop n es) db _ (rw (left, ← same) held)
                  (Encodes-drop codec n (stored d) es texts)
                  (All-drop (IsFor bolt codec manager dests Emitted d) n (stored d) (r.of_dest d))
                  r,
              subst (λ l. All Emitted l) (sym all) (All-Emitted d (take n (stored d)) good),
              subst (λ l. Keeps stored (replaced d (drop n (stored d)) stored) l) (sym all)
                  λ q em m.
                    IsAmong-replaced stored d (drop n (stored d)) (take n (stored d)) q m
                      λ same old. IsAmong-take n q (stored d) old,
            )
      ]
