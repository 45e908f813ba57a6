-- ===== src/Relay/Restart.antt =====
-- attestor/chainService/relay/relays.go: the loop of `initPacketFeeder` that starts the feeds, and
-- starts one again after a panic.
use verulink.Base.{ℕ, suc, ◌+◌, ◌<◌, ◌≡◌, List, [], ◌∷◌, ◌++◌, Bytes, eqb, length, if◌then◌else◌}
use verulink.Config.{ChainConfig}

-- The clients by their names: those in the buffer of `ch`, those whose feed runs, those whose
-- goroutine has recovered from a panic and sends its client on `ch`, and those whose feed returned. `started` notes all that were started, in
-- their order.
pub record Feeds : Type 0 where
  pub capacity : ℕ
  pub queued : List Bytes
  pub feeding : List Bytes
  pub sending : List Bytes
  pub returned : List Bytes
  pub started : List Bytes

-- A send on `ch` waits for a free place of its buffer.
pub data Step (s t : Feeds) : Type 0 where
  start :
      (c : Bytes) (rest : List Bytes)
      → s.queued ≡ c ∷ rest
      → t ≡ record s { queued = rest; feeding = c ∷ s.feeding; started = s.started ++ c ∷ [] }
      → Step s t
  panic :
      (c : Bytes) (before after : List Bytes)
      → s.feeding ≡ before ++ c ∷ after
      → t ≡ record s { feeding = before ++ after; sending = c ∷ s.sending }
      → Step s t
  send :
      (c : Bytes) (before after : List Bytes)
      → s.sending ≡ before ++ c ∷ after
      → length s.queued < s.capacity
      → t ≡ record s { sending = before ++ after; queued = s.queued ++ c ∷ [] }
      → Step s t
  finish :
      (c : Bytes) (before after : List Bytes)
      → s.feeding ≡ before ++ c ∷ after
      → t ≡ record s { feeding = before ++ after; returned = c ∷ s.returned }
      → Step s t

pub data Steps (s : Feeds) : Feeds → Type 0 where
  none : Steps s s
  then : {t u : Feeds} → Steps s t → Step t u → Steps s u

-- The clients in the order of the configuration: `chainIDToChain` has the last one first.
abbrev pub names : List (Bytes × Bytes) → List Bytes → List Bytes
names [] later = later
names ((id, name) ∷ m) later = names m (name ∷ later)

-- When the loop over the configurations is done.
unfoldable pub feeds_of : List ChainConfig → List (Bytes × Bytes) → Feeds
feeds_of cfgs m = record {
  capacity = length cfgs;
  queued = names m [];
  feeding = [];
  sending = [];
  returned = [];
  started = [];
}

-- How often a client is in a list.
abbrev pub copies : Bytes → List Bytes → ℕ
copies c [] = 0
copies c (d ∷ l) = let rest = copies c l in if eqb c d then suc rest else rest

abbrev pub everywhere : Bytes → Feeds → ℕ
everywhere c s = copies c s.queued + copies c s.feeding + copies c s.sending + copies c s.returned

abbrev total : Feeds → ℕ
total s = length s.queued + length s.feeding + length s.sending + length s.returned
