-- ===== src/Relay/Process/Laws.antt =====
-- Every packet that is taken ends on exactly one channel of its own chain, and a failed one keeps
-- its screening status.
use verulink.Base.{
  ℕ, zero, suc, ◌≡◌, ◌≢◌, refl, ap, ◌∙◌, ◌⊎◌, inl, inr, Bool, true, false, List, [], ◌∷◌, Bytes,
  lookup, some, none, Option, Result, ok, Error,
}
use verulink.Chain.{Packet, ScreenedPacket}
use verulink.Chain.BigInt.{big_string}
use verulink.Store.Bolt.{Bolt}
use verulink.Store.Bolt.Entries.{Entry}
use verulink.Store.Ops.Laws.{Commits, Holds-self}
use verulink.Relay.Digest.{Digest}
use verulink.Relay.Screener.{namespace, screen, screener_store_white_status}
use verulink.Relay.Screener.Laws.{screen_total, screen_known, HasStatus, HasStatus-stored}
use verulink.Relay.Process.Answers.{Accepts, Refuses, IsCalm, IsCalm-sign_and_send, outcome_told}
use verulink.Relay.Process.{
  retry, complete, Services, Processed, sign_and_send, after_processing, screened_then,
  process_packet,
}

abbrev pub screened : Packet → Bool → ScreenedPacket
screened pkt w = record { packet = pkt; is_white = w }

pub outcome_cases :
    (o : Option (Option Error)) → o ≢ none → (o ≡ some none) ⊎ ((e : Error) × (o ≡ some (some e)))
outcome_cases none h = absurd (h refl)
outcome_cases (some none) h = inl refl
outcome_cases (some (some e)) h = inr (e, refl)

module _ (bolt : Bolt) (digest : Digest) (chains : List (Bytes × Bytes)) (services : Services)
    (pkt : Packet) where
  open bolt use {Db, bucket}

  abbrev pub run : Db → Processed Db
  run db = process_packet bolt digest chains services pkt db

  module _ (name : Bytes) (w : Bool) (mid : Db) (fresh : pkt.is_missed ≡ false) where
    pub screened_complete :
        sign_and_send services (screened pkt w) ≡ some none
        → screened_then bolt digest services name pkt (ok w) mid
          ≡ record { sent = complete name pkt ∷ []; db = mid; crashed = false }
    unfolding screened_then
    screened_complete e = rw (screened_then, e, after_processing, fresh)

    pub screened_retry :
        (e : Error)
        → sign_and_send services (screened pkt w) ≡ some (some e)
        → screened_then bolt digest services name pkt (ok w) mid ≡ record {
          sent = retry name pkt ∷ [];
          db = (screener_store_white_status bolt digest pkt w mid).1;
          crashed = false;
        }
    unfolding screened_then
    screened_retry x e = rw (screened_then, e, after_processing, fresh)

  module _ (name : Bytes) (known : lookup (big_string pkt.source.chain_id) chains ≡ some name)
      (db : Db) (es : List Entry) (here : bucket db namespace ≡ some es) where
    pub process_screened :
        (w : Bool)
        → (screen bolt digest pkt db).0 ≡ ok w
        → run db ≡ screened_then bolt digest services name pkt (ok w) (screen bolt digest pkt db).1
    unfolding process_packet
    process_screened w e = rw (process_packet, known, e)

    pub process_ends_once :
        pkt.is_missed ≡ false
        → ((w : Bool) → sign_and_send services (screened pkt w) ≢ none)
        → ((run db).crashed ≡ false)
          × (w : Bool) × ((screen bolt digest pkt db).0 ≡ ok w)
          × (((sign_and_send services (screened pkt w) ≡ some none)
                × ((run db).sent ≡ complete name pkt ∷ []))
              ⊎ ((e : Error) × (sign_and_send services (screened pkt w) ≡ some (some e))
                  × ((run db).sent ≡ retry name pkt ∷ [])))
    process_ends_once fresh alive =
        let (w, shown) = screen_total bolt digest pkt db es here in
        let start : run db
            ≡ screened_then bolt digest services name pkt (ok w) (screen bolt digest pkt db).1 =
          process_screened w shown in
        elim (outcome_cases (sign_and_send services (screened pkt w)) (alive w)) [
          | inl sent ↦
              let done : run db ≡ record {
                sent = complete name pkt ∷ [];
                db = (screen bolt digest pkt db).1;
                crashed = false;
              } =
                start ∙ screened_complete name w (screen bolt digest pkt db).1 fresh sent in
              (
                ap (λ (r : Processed Db). r.crashed) done,
                w,
                shown,
                inl (sent, ap (λ (r : Processed Db). r.sent) done),
              )
          | inr (e, failed) ↦
              let done =
                start ∙ screened_retry name w (screen bolt digest pkt db).1 fresh e failed in
              (
                ap (λ (r : Processed Db). r.crashed) done,
                w,
                shown,
                inr (e, failed, ap (λ (r : Processed Db). r.sent) done),
              )
        ]

    -- For a packet of the feed whose source chain has a client, with services that do not panic and
    -- with the screener's bucket in the store: the packet ends on exactly one channel of its own
    -- chain. It is the channel of the delivered ones if the signer signs the packet with its
    -- screened status and the collector takes it or has it already, and that of the failed ones if
    -- the signer or the collector fails in another way.
    pub process_delivers_once :
        pkt.is_missed ≡ false
        → IsCalm services
        → ((run db).crashed ≡ false)
          × (w : Bool) × ((screen bolt digest pkt db).0 ≡ ok w)
          × ((Accepts services (screened pkt w) × ((run db).sent ≡ complete name pkt ∷ []))
              ⊎ (Refuses services (screened pkt w) × ((run db).sent ≡ retry name pkt ∷ [])))
    process_delivers_once fresh peace =
        let alive : (w : Bool) → sign_and_send services (screened pkt w) ≢ none =
          λ w. IsCalm-sign_and_send services (screened pkt w) peace in
        let (calm, w, shown, ends) = process_ends_once fresh alive in
        (
          calm,
          w,
          shown,
          elim (outcome_told services (screened pkt w) (alive w)) [
            | inl (accepts, delivered) ↦ elim ends [
              | inl (d, sent) ↦ inl (accepts, sent)
              | inr (e, failed, sent) ↦ absurd (cc)
            ]
            | inr (refuses, (e, failed)) ↦ elim ends [
              | inl (d, sent) ↦ absurd (cc)
              | inr (f, g, sent) ↦ inr (refuses, sent)
            ]
          ],
        )

    -- A packet that the collector asked for, of a chain that has a client and with the screener's
    -- bucket in the store, is on no channel afterwards, and the store is as the screening left it.
    pub process_missed_sends_nothing :
        pkt.is_missed ≡ true → ((run db).sent ≡ []) × ((run db).db ≡ (screen bolt digest pkt db).1)
    process_missed_sends_nothing missed =
        let (w, shown) = screen_total bolt digest pkt db es here in
        let start : run db
            ≡ screened_then bolt digest services name pkt (ok w) (screen bolt digest pkt db).1 =
          process_screened w shown in
        rw start (unfold screened_then in rw (screened_then, after_processing, missed) (refl, refl))

  -- A failing attempt takes the stored status out and stores it again.
  pub failed-HasStatus :
      (name : Bytes) (w : Bool) (db : Db) (e : Error)
      → lookup (big_string pkt.source.chain_id) chains ≡ some name
      → pkt.is_missed ≡ false
      → Commits bolt
      → sign_and_send services (screened pkt w) ≡ some (some e)
      → HasStatus bolt digest pkt w db
      → HasStatus bolt digest pkt w (run db).db
  failed-HasStatus name w db e known fresh commits failed h =
      let (mid, shown, held) = screen_known bolt digest pkt db h.entries h.here w commits h.found in
      let start : run db
          ≡ screened_then bolt digest services name pkt (ok w) (screen bolt digest pkt db).1 =
        process_screened name known db h.entries h.here w
          (ap (λ (r : Result Bool × Db). r.0) shown) in
      let done : run db ≡ record {
        sent = retry name pkt ∷ [];
        db = (screener_store_white_status bolt digest pkt w (screen bolt digest pkt db).1).1;
        crashed = false;
      } =
        start ∙ screened_retry name w (screen bolt digest pkt db).1 fresh e failed in
      rw (done, shown)
        (HasStatus-stored bolt digest pkt w mid _ commits (Holds-self bolt db namespace _ mid held))

  unfoldable pub attempts : ℕ → Db → Db
  attempts zero db = db
  attempts (suc n) db = attempts n (run db).db

  -- If commits succeed and a packet of the feed, whose source chain has a client, has a stored
  -- status with which signing or sending fails, then after any number of attempts the next
  -- screening still gives that status.
  pub status_survives_attempts :
      (name : Bytes) (w : Bool) (db : Db) (e : Error) (n : ℕ)
      → lookup (big_string pkt.source.chain_id) chains ≡ some name
      → pkt.is_missed ≡ false
      → Commits bolt
      → sign_and_send services (screened pkt w) ≡ some (some e)
      → HasStatus bolt digest pkt w db
      → (screen bolt digest pkt (attempts n db)).0 ≡ ok w
  unfolding attempts
  status_survives_attempts name w db e zero known fresh commits failed h =
      let (mid, shown, held) = screen_known bolt digest pkt db h.entries h.here w commits h.found in
      rw shown
  status_survives_attempts name w db e (suc n) known fresh commits failed h =
      status_survives_attempts name w (run db).db e n known fresh commits failed
        (failed-HasStatus name w db e known fresh commits failed h)
