-- ===== src/Relay/Process/Workers.antt =====
-- The worker pool of `consumePackets` (attestor/chainService/relay/relays.go): the loop and the
-- goroutines that it starts, as steps of one state.
use verulink.Base.{
  ℕ, suc, ◌+◌, ◌-◌, ◌<◌, ◌≤◌, ◌≡◌, ◌⊎◌, ap, List, [], ◌∷◌, ◌++◌, length, length-append, arith,
}
use verulink.Chain.{Packet}

-- Where the loop stands: before its `select`, with a token and waiting for a packet, or behind its
-- `return`, which it reaches with a token if the channel was closed.
pub data LoopState : Type 0 where
  selecting receiving cancelled closed : LoopState

-- `guide` is the number of tokens in `guideCh`; `running` holds the packets of the goroutines.
pub record Pool : Type 0 where
  pub loop_state : LoopState
  pub guide : ℕ
  pub running : List Packet
  pub processed : List Packet

abbrev pub start : Pool
start = record { loop_state = selecting; guide = 0; running = []; processed = [] }

-- `workers` is `ConsumePacketWorker`, the capacity of `guideCh`.
pub data Step (workers : ℕ) (p q : Pool) : Type 0 where
  take_token :
      p.loop_state ≡ selecting
      → p.guide < workers
      → q ≡ record p { loop_state = receiving; guide = p.guide + 1 }
      → Step workers p q
  cancel : p.loop_state ≡ selecting → q ≡ record p { loop_state = cancelled } → Step workers p q
  receive :
      (pkt : Packet)
      → p.loop_state ≡ receiving
      → q ≡ record p { loop_state = selecting; running = pkt ∷ p.running }
      → Step workers p q
  close : p.loop_state ≡ receiving → q ≡ record p { loop_state = closed } → Step workers p q
  finish :
      (xs : List Packet) (pkt : Packet) (ys : List Packet)
      → p.running ≡ xs ++ pkt ∷ ys
      → q ≡ record p { guide = p.guide - 1; running = xs ++ ys; processed = pkt ∷ p.processed }
      → Step workers p q

pub data Reach (workers : ℕ) (p : Pool) : Pool → Type 0 where
  here : Reach workers p p
  next : {q r : Pool} → Reach workers p q → Step workers q r → Reach workers p r

-- The token of the loop itself.
abbrev pub loop_tokens : LoopState → ℕ
loop_tokens selecting = 0
loop_tokens receiving = 1
loop_tokens cancelled = 0
loop_tokens closed = 1

pub record IsGuarded (workers : ℕ) (p : Pool) : Type 0 where
  pub counted : p.guide ≡ length p.running + loop_tokens p.loop_state
  pub bounded : p.guide ≤ workers

length-middle :
    (xs : List Packet) (pkt : Packet) (ys : List Packet)
    → length (xs ++ pkt ∷ ys) ≡ suc (length (xs ++ ys))
length-middle xs pkt ys = omega (arith, length-append xs (pkt ∷ ys), length-append xs ys)

Step-IsGuarded :
    {workers : ℕ} {p q : Pool} → Step workers p q → IsGuarded workers p → IsGuarded workers q
Step-IsGuarded (take_token s lt e) g = ground arith
Step-IsGuarded (cancel s e) g = ground arith
Step-IsGuarded (receive pkt s e) g = ground arith
Step-IsGuarded (close s e) g = ground arith
Step-IsGuarded (finish xs pkt ys r e) g = ground (arith, length-middle xs pkt ys, ap length r)

Reach-IsGuarded :
    {workers : ℕ} {p q : Pool} → IsGuarded workers p → Reach workers p q → IsGuarded workers q
Reach-IsGuarded g here = g
Reach-IsGuarded g (next r s) = Step-IsGuarded s (Reach-IsGuarded g r)

IsGuarded-start : (workers : ℕ) → IsGuarded workers start
IsGuarded-start workers = omega arith

-- With at least one worker and however the steps interleave, at most `workers` packets are
-- processed at once; and where the loop is before its `select`, a token is free or some packet is
-- being processed.
pub workers_bounded :
    (workers : ℕ) (q : Pool)
    → 0 < workers
    → Reach workers start q
    → (length q.running ≤ workers)
      × (q.loop_state ≡ selecting → (q.guide < workers) ⊎ (0 < length q.running))
workers_bounded workers q pos r =
    let g : IsGuarded workers q = Reach-IsGuarded (IsGuarded-start workers) r in ground arith
