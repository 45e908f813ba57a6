-- ===== src/Relay/Process/Touches.antt =====
-- Processing a packet touches no bucket of the store but the screener's.
use mathlib.Core.Path.{subst}
use verulink.Base.{
  sym, ◌≡◌, ◌≢◌, ap, inl, inr, Bool, List, Bytes, some, none, Result, lookup, Option-cases,
  Bool-cases,
}
use verulink.Chain.{Packet}
use verulink.Chain.BigInt.{big_string}
use verulink.Store.Bolt.{Bolt}
use verulink.Store.Bolt.Entries.{Entry, insert, erase}
use verulink.Store.Ops.Laws.{
  Holds, Holds-self, Holds-unchanged, Holds-trans, Settles-put, Yields-get_and_delete,
}
use verulink.Store.Db.{screen_value_map, store_white_status, get_and_delete_white_status}
use verulink.Relay.Digest.{Digest}
use verulink.Relay.Screener.{namespace, screen, screener_store_white_status}
use verulink.Relay.Screener.Laws.{
  status_key, status_key-IsKey, screen_value_map-IsStorable, screen_total, screen_unknown,
}
use verulink.Relay.Process.{Services, sign_and_send}
use verulink.Relay.Process.Laws.{
  run, screened, outcome_cases, process_screened, screened_complete, screened_retry,
  process_missed_sends_nothing,
}

module _ (bolt : Bolt) where
  open bolt use {Db, bucket}

  -- One bucket may have changed, and no other.
  abbrev pub Touches : Bytes → Db → Db → Type 0
  Touches ns db after = (es : List Entry) × Holds bolt db ns es after

  pub Touches-here :
      (ns : Bytes) (db after : Db)
      → Touches ns db after
      → (es : List Entry) × (bucket after ns ≡ some es)
  Touches-here ns db after (es, held) = (es, Holds-self bolt db ns es after held)

  pub Touches-trans :
      (ns : Bytes) (db mid after : Db)
      → Touches ns db mid
      → Touches ns mid after
      → Touches ns db after
  Touches-trans ns db mid after (es, h) (fs, k) = (fs, Holds-trans bolt db mid after ns es fs h k)

  module _ (digest : Digest) (pkt : Packet) (db : Db) (es : List Entry)
      (here : bucket db namespace ≡ some es) where
    screen-Touches : Touches namespace db (screen bolt digest pkt db).1
    unfolding screen get_and_delete_white_status
    screen-Touches = elim (Option-cases (lookup (status_key bolt digest pkt) es)) [
      | inl absent ↦ (
        es,
        subst (λ d. Holds bolt db namespace es d)
            (sym (
              ap (λ (r : Result Bool × Db). r.1)
                (screen_unknown bolt digest pkt db es here absent)))
            (Holds-unchanged bolt db namespace es here),
      )
      | inr (v, found) ↦
          elim (Yields-get_and_delete bolt namespace db es here (status_key bolt digest pkt) v
            found) [
              | inl (after, e, held) ↦ (
                erase (status_key bolt digest pkt) es,
                rw (screen, get_and_delete_white_status, e) held,
              )
              | inr (x, e) ↦ (
                es,
                rw (screen, get_and_delete_white_status, e)
                    (Holds-unchanged bolt db namespace es here),
              )
            ]
    ]

    store_white_status-Touches :
        (w : Bool) → Touches namespace db (screener_store_white_status bolt digest pkt w db).1
    unfolding screener_store_white_status store_white_status
    store_white_status-Touches w =
        elim (Settles-put bolt namespace db es here (status_key bolt digest pkt)
          (screen_value_map w) (status_key-IsKey bolt digest pkt) (screen_value_map-IsStorable w)) [
            | inl (after, e, held) ↦
                (insert (status_key bolt digest pkt) (screen_value_map w) es, rw e held)
            | inr (x, e) ↦ (es, rw e (Holds-unchanged bolt db namespace es here))
          ]

  module _ (digest : Digest) (chains : List (Bytes × Bytes)) (services : Services) (pkt : Packet)
      (name : Bytes) (known : lookup (big_string pkt.source.chain_id) chains ≡ some name) (db : Db)
      (es : List Entry) (here : bucket db namespace ≡ some es) where
    -- A packet that the screener has in its bucket, of a chain that has a client, is processed
    -- without touching any other bucket.
    pub process-Touches :
        ((w : Bool) → sign_and_send services (screened pkt w) ≢ none)
        → Touches namespace db (run bolt digest chains services pkt db).db
    process-Touches alive =
        let (w, shown) = screen_total bolt digest pkt db es here in
        let mid : Db = (screen bolt digest pkt db).1 in
        let first : Touches namespace db mid = screen-Touches digest pkt db es here in
        let start =
          process_screened bolt digest chains services pkt name known db es here w shown in
        elim (Bool-cases pkt.is_missed) [
          | inl missed ↦
              let (_, same) =
                process_missed_sends_nothing bolt digest chains services pkt name known db es here
                  missed in
              rw same first
          | inr fresh ↦ elim (outcome_cases (sign_and_send services (screened pkt w)) (alive w)) [
            | inl sent ↦
                rw (start, screened_complete bolt digest chains services pkt name w mid fresh sent)
                  first
            | inr (e, bad) ↦
                let (fs, now) = Touches-here namespace db mid first in
                rw (start, screened_retry bolt digest chains services pkt name w mid fresh e bad)
                  (Touches-trans namespace db mid _ first
                    (store_white_status-Touches digest pkt mid fs now w))
          ]
        ]
