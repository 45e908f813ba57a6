-- ===== src/Tests/RelayWitnesses.antt =====
-- The theorems of the relay, the configuration and the signing service at concrete inputs.
use verulink.Base.{
  ◌<◌, ◌≤◌, ◌≡◌, ◌⊎◌, refl, Bool, true, false, [], ◌∷◌, some, none, Bytes, codes, eqb, lookup,
  arith, message, ok,
}
use verulink.Chain.{set_missed}
use verulink.Chain.BigInt.{pos, big_string, itoa, emit}
use verulink.Relay.Screener.{screen, namespace}
use verulink.Relay.Screener.Laws.{screen_unknown}
use verulink.Relay.Process.{retry, complete, sign_and_send}
use verulink.Relay.Process.Answers.{Accepts, Refuses, IsCalm}
use verulink.Relay.Process.Laws.{
  run, screened, attempts, process_delivers_once, status_survives_attempts,
}
use verulink.Relay.Process.Requests.{
  Clients, answered, IsAnswer, request, request_text, answered-IsAnswer, answered_once,
}
use verulink.Relay.Process.Workers.{Reach, Step, LoopState, start, workers_bounded}
use verulink.Relay.Digest.{get_sha256_hash}
use verulink.Tests.Journal.{journal}
use verulink.Tests.Data.{pkt, digest, failing, working, chains}
use verulink.Tests.Stores.{flagged, flagged-HasStatus, commits, empty_at}

from_aleo : lookup (big_string pkt.source.chain_id) chains ≡ some (codes "aleo")
unfolding lookup eqb big_string itoa emit
from_aleo = refl

namespace_here : journal.bucket (empty_at namespace) namespace ≡ some []
unfolding eqb
namespace_here = refl

working-IsCalm : IsCalm working
working-IsCalm = record { signs = λ sp e. cc; sends = λ sp h s e. cc }

failing_fails :
    sign_and_send failing (screened pkt false) ≡ some (some (message (codes "no answer")))
unfolding sign_and_send
failing_fails = refl

process_delivers_once_example :
    ((run journal digest chains working pkt (empty_at namespace)).crashed ≡ false)
    × (w : Bool) × ((screen journal digest pkt (empty_at namespace)).0 ≡ ok w)
    × ((Accepts working (screened pkt w)
          × ((run journal digest chains working pkt (empty_at namespace)).sent
              ≡ complete (codes "aleo") pkt ∷ []))
        ⊎ (Refuses working (screened pkt w)
            × ((run journal digest chains working pkt (empty_at namespace)).sent
                ≡ retry (codes "aleo") pkt ∷ [])))
process_delivers_once_example =
    process_delivers_once journal digest chains working pkt (codes "aleo") from_aleo
      (empty_at namespace) [] namespace_here refl working-IsCalm

status_survives_attempts_example :
    (screen journal digest pkt (attempts journal digest chains failing pkt 2 flagged)).0 ≡ ok false
status_survives_attempts_example =
    status_survives_attempts journal digest chains failing pkt (codes "aleo") false flagged
      (message (codes "no answer")) 2 from_aleo refl commits failing_fails flagged-HasStatus

nothing_stored : lookup {V = Bytes} (get_sha256_hash digest pkt) [] ≡ none
unfolding lookup
nothing_stored = refl

screen_unknown_example :
    screen journal digest pkt (empty_at namespace) ≡ (ok true, empty_at namespace)
screen_unknown_example =
    screen_unknown journal digest pkt (empty_at namespace) [] namespace_here nothing_stored

one_busy :
    Reach 1 start
      (record { loop_state = LoopState.selecting; guide = 1; running = pkt ∷ []; processed = [] })
one_busy =
    Reach.next (Reach.next Reach.here (Step.take_token refl (omega arith) refl))
      (Step.receive pkt refl refl)

workers_bounded_example : (1 ≤ 1) × (LoopState.selecting ≡ LoopState.selecting → (1 < 1) ⊎ (0 < 1))
workers_bounded_example =
    workers_bounded 1
      (record { loop_state = LoopState.selecting; guide = 1; running = pkt ∷ []; processed = [] })
      (omega arith) one_busy

-- The client of one chain has the packet.
abbrev clients : Clients
clients = (codes "2", λ m. ok pkt) ∷ []

client_found : lookup (big_string (pos 2)) clients ≡ some (λ m. ok pkt)
unfolding lookup eqb big_string itoa emit
client_found = refl

answered-IsAnswer_example :
    IsAnswer
      (lookup (big_string (pos 3)) clients)
      (request (pos 1) (pos 3) 7 55 (codes "at1"))
      (answered clients (request_text (pos 1) (pos 3) 7 55 (codes "at1")))
answered-IsAnswer_example = answered-IsAnswer clients (pos 1) (pos 3) 7 55 (codes "at1")

answered_once_example :
    (answered clients (request_text (pos 1) (pos 2) 7 55 (codes "at1"))
      ≡ ok (set_missed pkt true ∷ []))
    × ((run journal digest chains working (set_missed pkt true) (empty_at namespace)).sent ≡ [])
    × ((run journal digest chains working (set_missed pkt true) (empty_at namespace)).db
        ≡ (screen journal digest (set_missed pkt true) (empty_at namespace)).1)
answered_once_example =
    answered_once journal digest chains working clients (pos 1) (pos 2) 7 55 (codes "at1")
      (λ m. ok pkt) pkt (codes "aleo") (empty_at namespace) [] client_found refl from_aleo
      namespace_here
