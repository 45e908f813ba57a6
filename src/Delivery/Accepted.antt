-- ===== src/Delivery/Accepted.antt =====
-- Only a packet that was signed, and that the collector has, comes to the channel of the delivered
-- ones (`processPacket` of attestor/chainService/relay/relays.go).
use mathlib.Core.Path.{subst}
use verulink.Base.{
  ◌≡◌, ◌⊎◌, inl, inr, refl, sym, Bool, List, [], ◌∷◌, Bytes, some, lookup, eqb, Bool-cases,
  if◌then◌else◌,
}
use verulink.Chain.{Packet, IsAmong}
use verulink.Chain.BigInt.{big_string}
use verulink.Store.Bolt.{Bolt}
use verulink.Store.Bolt.Entries.{Entry}
use verulink.Relay.Digest.{Digest}
use verulink.Relay.Screener.{namespace}
use verulink.Relay.Process.{Services}
use verulink.Relay.Process.Answers.{Accepts, IsCalm}
use verulink.Relay.Process.Laws.{run, screened, process_delivers_once, process_missed_sends_nothing}
use verulink.Delivery.{to_complete}

-- The packet was processed with these services.
abbrev pub WasProcessed : Packet → Services → List (Packet × Services) → Type 0
WasProcessed p services [] = ⊥
WasProcessed p services ((q, others) ∷ l) =
    ((p ≡ q) × (services ≡ others)) ⊎ WasProcessed p services l

-- Services with which the packet was processed have signed it, with one status or the other, and the
-- collector has it.
pub data IsAccepted (p : Packet) (noted : List (Packet × Services)) : Type 0 where
  accepted :
      (services : Services) (w : Bool)
      → WasProcessed p services noted
      → Accepts services (screened p w)
      → IsAccepted p noted

pub IsAccepted-later :
    (p : Packet) (noted : List (Packet × Services)) (q : Packet) (services : Services)
    → IsAccepted p noted
    → IsAccepted p ((q, services) ∷ noted)
IsAccepted-later p noted q services (accepted others w was a) = accepted others w (inr was) a

module _ (bolt : Bolt) (digest : Digest) (chains : List (Bytes × Bytes)) (own : Bytes) where
  -- What processing puts on the channel of the delivered ones.
  pub to_complete-IsAccepted :
      (services : Services) (name : Bytes) (pkt : Packet) (db : bolt.Db) (es : List Entry)
      (noted : List (Packet × Services))
      → lookup (big_string pkt.source.chain_id) chains ≡ some name
      → bolt.bucket db namespace ≡ some es
      → IsCalm services
      → (q : Packet) → IsAmong q (to_complete own (run bolt digest chains services pkt db).sent)
      → IsAccepted q ((pkt, services) ∷ noted)
  to_complete-IsAccepted services name pkt db es noted known there alive q m =
      elim (Bool-cases pkt.is_missed) [
        | inl missed ↦
            let (nothing, same) =
              process_missed_sends_nothing bolt digest chains services pkt name known db es there
                missed in
            let none_sent : IsAmong q [] = rw nothing at m in absurd none_sent
        | inr fresh ↦
            let (calm, w, shown, ends) =
              process_delivers_once bolt digest chains services pkt name known db es there fresh
                alive in
            elim ends [
              | inr (refuses, sent) ↦
                  let none_sent : IsAmong q [] = rw sent at m in absurd none_sent
              | inl (accepts, sent) ↦
                  let one : IsAmong q (if eqb own name then pkt ∷ [] else []) = rw sent at m in
                  elim (Bool-cases (eqb own name)) [
                    | inr other ↦ let none_sent : IsAmong q [] = rw other at one in absurd none_sent
                    | inl mine ↦
                        let at_most : IsAmong q (pkt ∷ []) = rw mine at one in
                        elim at_most [
                          | inr nothing ↦ absurd nothing
                          | inl e ↦
                              accepted services w (inl (e, refl))
                                (subst (λ p. Accepts services (screened p w)) (sym e) accepts)
                        ]
                  ]
            ]
      ]
