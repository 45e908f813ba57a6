-- ===== src/Store/RetryList.antt =====
-- The packets of a retry namespace as a list in the order of their sequence numbers.
use verulink.Base.{
  ℕ, zero, suc, ◌≡◌, ◌⊎◌, inl, inr, refl, List, [], ◌∷◌, ◌==◌, ltb, if◌then◌else◌, Bytes, arith,
  All, take, drop, Bool-cases,
}
use verulink.Chain.{Packet, IsAmong}
use verulink.Store.Key.{put_uint64}
use verulink.Store.Key.Laws.{IsWord, bytes_lt-put_uint64, eqb-put_uint64}
use verulink.Store.Bolt.Entries.{Entry, insert}
use verulink.Store.Json.{Codec, IsTextOf}
use verulink.Store.Retry.{Encodes}

unfoldable pub insert_packet : Packet → List Packet → List Packet
insert_packet p [] = p ∷ []
insert_packet p (q ∷ ps) =
    if ltb p.sequence q.sequence
    then p ∷ q ∷ ps
    else if q.sequence == p.sequence
    then p ∷ ps
    else q ∷ insert_packet p ps

pub IsAmong-insert_packet : (p : Packet) (ps : List Packet) → IsAmong p (insert_packet p ps)
unfolding insert_packet
IsAmong-insert_packet p [] = inl refl
IsAmong-insert_packet p (q ∷ ps) = ground (arith, IsAmong-insert_packet p ps)

pub IsAmong-insert_packet_old :
    (p r : Packet) (ps : List Packet)
    → (r.sequence ≡ p.sequence → r ≡ p)
    → IsAmong r ps
    → IsAmong r (insert_packet p ps)
unfolding insert_packet
IsAmong-insert_packet_old p r [] same m = absurd m
IsAmong-insert_packet_old p r (q ∷ ps) same m =
    ground (arith, IsAmong-insert_packet_old p r ps same)

module _ {ℓ} (P : Packet → Type ℓ) where
  pub All-insert_packet :
      (p : Packet) (ps : List Packet) → P p → All P ps → All P (insert_packet p ps)
  unfolding insert_packet
  All-insert_packet p [] h hs = (h, tt)
  All-insert_packet p (q ∷ ps) h hs = ground (arith, All-insert_packet p ps h hs.1)

  pub All-take : (n : ℕ) (ps : List Packet) → All P ps → All P (take n ps)
  All-take zero ps h = tt
  All-take (suc n) [] h = tt
  All-take (suc n) (p ∷ ps) h = (h.0, All-take n ps h.1)

  pub All-drop : (n : ℕ) (ps : List Packet) → All P ps → All P (drop n ps)
  All-drop zero ps h = h
  All-drop (suc n) [] h = tt
  All-drop (suc n) (p ∷ ps) h = All-drop n ps h.1

pub IsAmong-take :
    (n : ℕ) (p : Packet) (ps : List Packet)
    → IsAmong p ps
    → IsAmong p (take n ps) ⊎ IsAmong p (drop n ps)
IsAmong-take zero p ps m = inr m
IsAmong-take (suc n) p [] m = inl m
IsAmong-take (suc n) p (q ∷ ps) (inl e) = inl (inl e)
IsAmong-take (suc n) p (q ∷ ps) (inr m) = elim (IsAmong-take n p ps m) [
  | inl early ↦ inl (inr early)
  | inr late ↦ inr late
]

module _ (codec : Codec) where
  pub Encodes-insert_packet :
      (p : Packet) (v : Bytes) (ps : List Packet) (es : List Entry)
      → IsWord p.sequence
      → All (λ (q : Packet). IsWord q.sequence) ps
      → IsTextOf codec p v
      → Encodes codec ps es
      → Encodes codec (insert_packet p ps) (insert (put_uint64 p.sequence) v es)
  unfolding insert_packet insert
  Encodes-insert_packet p v [] [] w ws e h = (refl, e, tt)
  Encodes-insert_packet p v [] (x ∷ es) w ws e h = absurd h
  Encodes-insert_packet p v (q ∷ ps) [] w ws e h = absurd h
  Encodes-insert_packet p v (q ∷ ps) ((k, u) ∷ es) w ws e (a, b, h) =
      rw
        (
          a,
          bytes_lt-put_uint64 p.sequence q.sequence w ws.0,
          eqb-put_uint64 q.sequence p.sequence ws.0 w,
        )
        (elim (Bool-cases (ltb p.sequence q.sequence)) [
          | inl lt ↦ rw lt ((refl, e, (refl, b, h)))
          | inr ge ↦ elim (Bool-cases (q.sequence == p.sequence)) [
            | inl same ↦ rw (ge, same) ((refl, e, h))
            | inr other ↦ rw (ge, other) ((refl, b, Encodes-insert_packet p v ps es w ws.1 e h))
          ]
        ])

  pub Encodes-drop :
      (n : ℕ) (ps : List Packet) (es : List Entry)
      → Encodes codec ps es
      → Encodes codec (drop n ps) (drop n es)
  Encodes-drop zero ps es h = h
  Encodes-drop (suc n) [] [] h = h
  Encodes-drop (suc n) [] (e ∷ es) h = absurd h
  Encodes-drop (suc n) (p ∷ ps) [] h = absurd h
  Encodes-drop (suc n) (p ∷ ps) (e ∷ es) h = Encodes-drop n ps es (h.2)
