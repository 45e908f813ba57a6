-- ===== src/Relay/Screener/Laws.antt =====
-- A screening status that was stored is the one that the next screening returns, once.
use verulink.Base.{
  ◌≡◌, refl, ap, Bool, true, false, List, Bytes, some, none, Result, ok, eqb, eqb_refl, lookup,
  Option-cases, inl, inr, arith,
}
use verulink.Chain.{Packet}
use verulink.Store.Bolt.{Bolt, IsKey, IsStorable}
use verulink.Store.Bolt.Entries.{Entry, insert, erase}
use verulink.Store.Ops.Laws.{
  Holds, Holds-self, Commits, put_commits, get_and_delete_commits, get_and_delete_missing,
  Yields-get_and_delete, lookup-insert,
}
use verulink.Store.Db.{screen_value_map, store_white_status, get_and_delete_white_status}
use verulink.Relay.Digest.{Digest, packet_text, get_sha256_hash}
use verulink.Relay.Screener.{namespace, screen, screener_store_white_status}

screen_value_map_reads : (w : Bool) → eqb (screen_value_map true) (screen_value_map w) ≡ w
unfolding screen_value_map eqb
screen_value_map_reads true = refl
screen_value_map_reads false = refl

pub screen_value_map-IsStorable : (w : Bool) → IsStorable (screen_value_map w)
unfolding screen_value_map
screen_value_map-IsStorable true = omega arith
screen_value_map-IsStorable false = omega arith

module _ (bolt : Bolt) (digest : Digest) (pkt : Packet) where
  open bolt use {Db, bucket}

  abbrev pub status_key : Bytes
  status_key = get_sha256_hash digest pkt

  pub status_key-IsKey : IsKey status_key
  unfolding get_sha256_hash
  status_key-IsKey = omega (arith, digest.length-sha256_hex (packet_text pkt))

  module _ (db : Db) (es : List Entry) (here : bucket db namespace ≡ some es) where
    pub stored_status :
        (w : Bool)
        → Commits bolt
        → (after : Db) × (screener_store_white_status bolt digest pkt w db ≡ (ok tt, after))
          × Holds bolt db namespace (insert status_key (screen_value_map w) es) after
    unfolding screener_store_white_status store_white_status
    stored_status w commits =
        put_commits bolt namespace status_key (screen_value_map w) db es commits here
          status_key-IsKey (screen_value_map-IsStorable w)

    -- A packet without a stored status is white, and the store is not changed.
    pub screen_unknown : lookup status_key es ≡ none → screen bolt digest pkt db ≡ (ok true, db)
    unfolding screen get_and_delete_white_status
    screen_unknown absent = rw (
      screen,
      get_and_delete_white_status,
      get_and_delete_missing bolt namespace db es here status_key absent,
    )

    pub screen_known :
        (w : Bool)
        → Commits bolt
        → lookup status_key es ≡ some (screen_value_map w)
        → (after : Db) × (screen bolt digest pkt db ≡ (ok w, after))
          × Holds bolt db namespace (erase status_key es) after
    unfolding screen get_and_delete_white_status
    screen_known w commits found =
        let (after, e, held) =
          get_and_delete_commits bolt namespace status_key (screen_value_map w) db es commits here
            found in
        (after, rw (screen, get_and_delete_white_status, e, screen_value_map_reads w), held)

  -- If commits succeed and the screener's bucket is in the store, what `StoreWhiteStatus` has
  -- stored is what the next `Screen` returns.
  pub screen-store_white_status :
      (w : Bool) (db : Db) (es : List Entry)
      → Commits bolt
      → bucket db namespace ≡ some es
      → (screen bolt digest pkt (screener_store_white_status bolt digest pkt w db).1).0 ≡ ok w
  screen-store_white_status w db es commits here =
      let (after, e, held) = stored_status db es here w commits in
      let now : bucket after namespace ≡ some (insert status_key (screen_value_map w) es) =
        Holds-self bolt db namespace _ after held in
      let found : lookup status_key (insert status_key (screen_value_map w) es)
          ≡ some (screen_value_map w) =
        rw (lookup-insert, eqb_refl) in
      let (last, run, left) = screen_known after _ now w commits found in rw (e, run)

  -- Screening gives an answer whatever the store holds and whether or not its commit succeeds.
  pub screen_total :
      (db : Db) (es : List Entry)
      → bucket db namespace ≡ some es
      → (w : Bool) × ((screen bolt digest pkt db).0 ≡ ok w)
  unfolding screen get_and_delete_white_status
  screen_total db es here = elim (Option-cases (lookup status_key es)) [
    | inl absent ↦ (true, ap (λ (r : Result Bool × Db). r.0) (screen_unknown db es here absent))
    | inr (v, found) ↦ elim (Yields-get_and_delete bolt namespace db es here status_key v found) [
      | inl (after, e, held) ↦
          (eqb (screen_value_map true) v, rw (screen, get_and_delete_white_status, e))
      | inr (x, e) ↦ (true, rw (screen, get_and_delete_white_status, e))
    ]
  ]

  -- The status `w` is stored for the packet.
  pub record HasStatus (w : Bool) (db : Db) : Type 0 where
    pub entries : List Entry
    pub here : bucket db namespace ≡ some entries
    pub found : lookup status_key entries ≡ some (screen_value_map w)

  pub HasStatus-stored :
      (w : Bool) (db : Db) (es : List Entry)
      → Commits bolt
      → bucket db namespace ≡ some es
      → HasStatus w (screener_store_white_status bolt digest pkt w db).1
  HasStatus-stored w db es commits here =
      let (after, e, held) = stored_status db es here w commits in
      rw e (record {
        entries = insert status_key (screen_value_map w) es;
        here = Holds-self bolt db namespace _ after held;
        found = rw (lookup-insert, eqb_refl);
      })
