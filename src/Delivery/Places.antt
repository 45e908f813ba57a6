-- ===== src/Delivery/Places.antt =====
-- Where a packet can be, and what changes that.
use verulink.Base.{Bytes, ◌≡◌, ◌⊎◌, inl, inr, List, [], ◌∷◌, ◌++◌, some, arith, ◌==◌, if◌then◌else◌}
use verulink.Chain.{Packet, IsAmong}
use verulink.Store.Key.{uint64, put_uint64, get_key_byte_for_key_constraint}
use verulink.Store.Key.Laws.{length-put_uint64}
use verulink.Store.BaseSeq.Encoding.{height_value-IsStorable}
use verulink.Store.Bolt.{Bolt, IsKey}
use verulink.Store.Bolt.Entries.{Entry, insert}
use verulink.Store.Json.{Codec}
use verulink.Store.Db.{store_base_seq_num}
use verulink.Store.Ops.Laws.{Holds-unchanged, Settles-put}
use verulink.Relay.Process.Touches.{Touches}
use verulink.Delivery.{System}
use verulink.Delivery.Manager.{PacketManager, dest_of}

pub IsAmong-without :
    (p : Packet) (xs : List Packet) (q : Packet) (ys : List Packet)
    → IsAmong p (xs ++ q ∷ ys)
    → (p ≡ q) ⊎ IsAmong p (xs ++ ys)
IsAmong-without p [] q ys m = m
IsAmong-without p (x ∷ xs) q ys (inl e) = inr (inl e)
IsAmong-without p (x ∷ xs) q ys (inr m) = elim (IsAmong-without p xs q ys m) [
  | inl e ↦ inl e
  | inr rest ↦ inr (inr rest)
]

pub IsAmong-with :
    (p : Packet) (xs : List Packet) (q : Packet) (ys : List Packet)
    → (p ≡ q) ⊎ IsAmong p (xs ++ ys)
    → IsAmong p (xs ++ q ∷ ys)
IsAmong-with p [] q ys m = m
IsAmong-with p (x ∷ xs) q ys (inl e) = inr (IsAmong-with p xs q ys (inl e))
IsAmong-with p (x ∷ xs) q ys (inr (inl e)) = inl e
IsAmong-with p (x ∷ xs) q ys (inr (inr m)) = inr (IsAmong-with p xs q ys (inr m))

pub IsAmong-left : (p : Packet) (xs ys : List Packet) → IsAmong p xs → IsAmong p (xs ++ ys)
IsAmong-left p [] ys m = absurd m
IsAmong-left p (x ∷ xs) ys (inl e) = inl e
IsAmong-left p (x ∷ xs) ys (inr m) = inr (IsAmong-left p xs ys m)

pub IsAmong-right : (p : Packet) (xs ys : List Packet) → IsAmong p ys → IsAmong p (xs ++ ys)
IsAmong-right p [] ys m = m
IsAmong-right p (x ∷ xs) ys m = inr (IsAmong-right p xs ys m)

-- Where a packet is.
pub data Somewhere {Db : Type 0} (stored : List Packet) (s : System Db) (p : Packet) : Type 0 where
  on_its_way : IsAmong p s.flying → Somewhere stored s p
  to_retry_channel : IsAmong p s.retries → Somewhere stored s p
  to_complete_channel : IsAmong p s.completes → Somewhere stored s p
  to_send_again : IsAmong p stored → Somewhere stored s p
  done : IsAmong p s.finished → Somewhere stored s p

-- A step takes every place to a place.
pub moved :
    {Db : Type 0} {old new : List Packet} {s t : System Db} {p : Packet}
    → Somewhere old s p
    → (IsAmong p s.flying → Somewhere new t p)
    → (IsAmong p s.retries → Somewhere new t p)
    → (IsAmong p s.completes → Somewhere new t p)
    → (IsAmong p old → Somewhere new t p)
    → (IsAmong p s.finished → Somewhere new t p)
    → Somewhere new t p
moved (on_its_way a) f g h i j = f a
moved (to_retry_channel a) f g h i j = g a
moved (to_complete_channel a) f g h i j = h a
moved (to_send_again a) f g h i j = i a
moved (done a) f g h i j = j a

module _ (bolt : Bolt) (codec : Codec) (manager : PacketManager bolt codec) where
  open bolt use {Db, bucket}

  pub manage_completed-Touches :
      (p : Packet) (db : Db) (es : List Entry)
      → bucket db (manager.base_prefix ++ dest_of p) ≡ some es
      → Touches bolt (manager.base_prefix ++ dest_of p) db (manager.manage_completed p db).1
  unfolding store_base_seq_num get_key_byte_for_key_constraint
  manage_completed-Touches p db es there =
      let ns : Bytes = manager.base_prefix ++ dest_of p in
      let (height, same) = manager.records p db in
      let value : Bytes =
        if height == 0 then [] else get_key_byte_for_key_constraint (uint64 height) in
      let key : IsKey (put_uint64 p.sequence) = omega (arith, length-put_uint64 p.sequence) in
      elim (Settles-put bolt ns db es there (put_uint64 p.sequence) value key
        (height_value-IsStorable height)) [
          | inl (after, e, held) ↦ (insert (put_uint64 p.sequence) value es, rw (same, e) held)
          | inr (x, e) ↦ (es, rw (same, e) (Holds-unchanged bolt db ns es there))
        ]
