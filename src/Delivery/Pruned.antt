-- ===== src/Delivery/Pruned.antt =====
-- What the deletions of `pruneBaseSeqNum` (attestor/chainService/chain) leave of the recorded numbers.
use mathlib.Core.Path.{subst}
use verulink.Base.{
  ◌≡◌, ◌⊎◌, inl, inr, sym, ap, ◌∙◌, List, [], ◌∷◌, ◌++◌, Bytes, some, eqb, eqb_iff, Bool-cases,
}
use verulink.Chain.{Packet}
use verulink.Store.Key.{put_uint64}
use verulink.Store.Bolt.{Bolt}
use verulink.Store.Bolt.Entries.{Entry, erase}
use verulink.Store.Json.{Codec}
use verulink.Store.Ops.{batch_delete}
use verulink.Store.Ops.Laws.{Holds-unchanged, Settles-batch_delete}
use verulink.Relay.Process.Touches.{Touches}
use verulink.Delivery.{System}
use verulink.Delivery.Manager.{PacketManager, dest_of}
use verulink.Delivery.Recorded.{HasKey, IsRecorded}

-- A key other than the one that is erased stays.
HasKey-erase : (i k : Bytes) (es : List Entry) → HasKey i es → (i ≡ k) ⊎ HasKey i (erase k es)
unfolding erase
HasKey-erase i k [] h = absurd h
HasKey-erase i k ((j, w) ∷ es) h = elim (Bool-cases (eqb j k)) [
  | inl same ↦ elim h [ inl e ↦ inl (e ∙ (eqb_iff j k).0 same) | inr rest ↦ inr (rw same rest) ]
  | inr other ↦ elim h [
    | inl e ↦ inr (rw other (inl e))
    | inr rest ↦ elim (HasKey-erase i k es rest) [
      | inl e ↦ inl e
      | inr kept ↦ inr (rw other (inr kept))
    ]
  ]
]

-- The destination and the key are among those that were noted.
abbrev pub IsNoted : Bytes → Bytes → List (Bytes × Bytes) → Type 0
IsNoted d k [] = ⊥
IsNoted d k ((e, j) ∷ l) = ((d ≡ e) × (k ≡ j)) ⊎ IsNoted d k l

module _ (bolt : Bolt) (codec : Codec) (manager : PacketManager bolt codec) where
  open bolt use {Db, bucket}

  -- The packet's number was deleted by pruning.
  abbrev pub WasPruned : Packet → System Db → Type 0
  WasPruned p s = IsNoted (dest_of p) (put_uint64 p.sequence) s.pruned

  module _ (d key : Bytes) (db : Db) (es : List Entry)
      (there : bucket db (manager.base_prefix ++ d) ≡ some es) where
    pub batch_delete-Touches :
        Touches bolt
          (manager.base_prefix ++ d)
          db
          (batch_delete bolt (manager.base_prefix ++ d) key db).1
    batch_delete-Touches =
        elim (Settles-batch_delete bolt (manager.base_prefix ++ d) db es there key) [
          | inl (after, e, held) ↦ (erase key es, rw e held)
          | inr (x, e) ↦ (es, rw e (Holds-unchanged bolt db (manager.base_prefix ++ d) es there))
        ]

    -- A number that was recorded still is, or is the one that was deleted.
    pub batch_delete-IsRecorded :
        (q : Packet)
        → eqb (manager.base_prefix ++ d) (manager.base_prefix ++ dest_of q) ≡ eqb d (dest_of q)
        → IsRecorded bolt codec manager q db
        → ((dest_of q ≡ d) × (put_uint64 q.sequence ≡ key))
          ⊎ IsRecorded bolt codec manager q (batch_delete bolt (manager.base_prefix ++ d) key db).1
    batch_delete-IsRecorded q prefixed (fs, found, has) =
        let ns : Bytes = manager.base_prefix ++ d in
        let ms : Bytes = manager.base_prefix ++ dest_of q in
        elim (Settles-batch_delete bolt ns db es there key) [
          | inr (x, e) ↦ inr (fs, rw e found, has)
          | inl (after, e, held) ↦ elim (Bool-cases (eqb d (dest_of q))) [
            | inr other ↦ inr (fs, rw e (held ms ∙ rw (prefixed, other) found), has)
            | inl one ↦
                let same : d ≡ dest_of q = (eqb_iff d (dest_of q)).0 one in
                let at : some fs ≡ some es =
                  sym found ∙ ap (λ c. bucket db (manager.base_prefix ++ c)) (sym same) ∙ there in
                let f : fs ≡ es = cc in
                elim (HasKey-erase (put_uint64 q.sequence) key es
                  (subst (λ l. HasKey (put_uint64 q.sequence) l) f has)) [
                    | inl gone ↦ inl (sym same, gone)
                    | inr kept ↦ inr (erase key es, rw e (held ms ∙ rw (prefixed, one)), kept)
                  ]
          ]
        ]
