-- ===== src/Relay/Feeder.antt =====
-- attestor/chainService/relay/relays.go: the clients that `initPacketFeeder` makes. The loop that
-- starts their feeds, and starts them again after a panic, is in Relay/Restart.
use verulink.Base.{
  ◌≡◌, inl, inr, List, [], ◌∷◌, Bytes, eqb, eqb_refl, lookup, some, Result, ok, or_panic, bind_ok,
  ok-injective, Bool-cases, All, ◌>>=◌,
}
use mathlib.Core.Path.{subst}
use verulink.Chain.BigInt.{big_string}
use verulink.Config.{ChainConfig}

-- `RegisteredClients`: by the name of a chain, what makes its client, which stands here for its name.
abbrev pub Registered : Type 0
Registered = List (Bytes × (ChainConfig → Result Bytes))

-- `chainIDToChain` after the loop: the pair that was put last is found first.
unfoldable pub init_packet_feeder :
    Registered → List ChainConfig → List (Bytes × Bytes) → Result (List (Bytes × Bytes))
init_packet_feeder registered [] m = ok m
init_packet_feeder registered (cfg ∷ cfgs) m = do
  client_func ← or_panic (lookup cfg.name registered)
  name ← client_func cfg
  init_packet_feeder registered cfgs ((big_string cfg.chain_id, name) ∷ m)

-- The map has a client for the id.
abbrev pub IsKnown : List (Bytes × Bytes) → Bytes → Type 0
IsKnown m id = (name : Bytes) × (lookup id m ≡ some name)

pub IsKnown-cons :
    (m : List (Bytes × Bytes)) (j v id : Bytes) → IsKnown m id → IsKnown ((j, v) ∷ m) id
unfolding lookup
IsKnown-cons m j v id (name, found) = elim (Bool-cases (eqb j id)) [
  | inl same ↦ (v, rw same)
  | inr other ↦ (name, rw (other, found))
]

pub IsKnown-here : (m : List (Bytes × Bytes)) (id v : Bytes) → IsKnown ((id, v) ∷ m) id
unfolding lookup
IsKnown-here m id v = (v, rw eqb_refl)

init_packet_feeder_keeps :
    (registered : Registered) (cfgs : List ChainConfig) (m out : List (Bytes × Bytes)) (id : Bytes)
    → init_packet_feeder registered cfgs m ≡ ok out
    → IsKnown m id
    → IsKnown out id
unfolding init_packet_feeder
init_packet_feeder_keeps registered [] m out id e known =
    subst (λ l. IsKnown l id) (ok-injective e) known
init_packet_feeder_keeps registered (cfg ∷ cfgs) m out id e known =
    let (client_func, a, e1) = bind_ok (or_panic (lookup cfg.name registered)) _ out e in
    let (name, b, e2) = bind_ok (client_func cfg) _ out e1 in
    init_packet_feeder_keeps registered cfgs ((big_string cfg.chain_id, name) ∷ m) out id e2
      (IsKnown-cons m (big_string cfg.chain_id) name id known)

-- If every chain's client could be made, every chain of the configuration has a client under its
-- id.
pub init_packet_feeder-IsKnown :
    (registered : Registered) (cfgs : List ChainConfig) (m out : List (Bytes × Bytes))
    → init_packet_feeder registered cfgs m ≡ ok out
    → All (λ (c : ChainConfig). IsKnown out (big_string c.chain_id)) cfgs
unfolding init_packet_feeder
init_packet_feeder-IsKnown registered [] m out e = tt
init_packet_feeder-IsKnown registered (cfg ∷ cfgs) m out e =
    let (client_func, a, e1) = bind_ok (or_panic (lookup cfg.name registered)) _ out e in
    let (name, b, e2) = bind_ok (client_func cfg) _ out e1 in
    (
      init_packet_feeder_keeps registered cfgs ((big_string cfg.chain_id, name) ∷ m) out
          (big_string cfg.chain_id) e2 (IsKnown-here m (big_string cfg.chain_id) name),
      init_packet_feeder-IsKnown registered cfgs ((big_string cfg.chain_id, name) ∷ m) out e2,
    )
