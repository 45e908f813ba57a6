-- ===== src/Store/Ops/Laws.antt =====
-- What the transactions of bolt.go leave in the file: either the commit fails and the file is as
-- it was, or the bucket has the pairs stated here and every other bucket its own.
use native.Mathlib.Nat.{add-zero}
use verulink.Base.{
  ℕ, zero, suc, ◌+◌, ◌<◌, ◌≡◌, ◌⊎◌, inl, inr, refl, ◌∙◌, List, [], ◌∷◌, ◌++◌, append_assoc,
  append-nil, map, none, some, Bytes, codes, Error, message, Result, ok, err, if◌then◌else◌, take,
  drop, length, eqb, eqb_iff, eqb_refl, arith, lookup,
}
use verulink.Store.Bolt.{Bolt, IsKey, IsStorable}
use verulink.Store.Bolt.Entries.{Entry, insert, erase}
use verulink.Store.Ops.{
  delete_body, batch_delete, put_body, put, get_and_delete_body, get_and_delete, update_returning,
  retrieve_loop, retrieve_body, retrieve_and_delete_n_keys_from_first,
}

abbrev pub values : Entry → Bytes
values e = e.1

take_some : (n : ℕ) (e : Entry) (es : List Entry) → 0 < n → 0 < 0 + length (take n (e ∷ es))
take_some zero e es lt = absurd (omega arith)
take_some (suc n) e es lt = omega arith

module _ (bolt : Bolt) where
  open bolt use {
    Db, bucket, bucket_get, bucket_get_lem, bucket_put, bucket_put_lem, bucket_delete,
    bucket_delete_lem, update, update_ok, update_err,
  }

  -- Only one bucket has changed, and holds these pairs.
  abbrev pub Holds : Db → Bytes → List Entry → Db → Type 0
  Holds db ns es after = (m : Bytes) → bucket after m ≡ (if eqb ns m then some es else bucket db m)

  -- A transaction without a value: it is committed, or nothing has changed.
  abbrev pub Settles : Db → Bytes → List Entry → Result (Unit {0}) × Db → Type 0
  Settles db ns es r =
      ((after : Db) × (r ≡ (ok tt, after)) × Holds db ns es after)
      ⊎ ((e : Error) × (r ≡ (err e, db)))

  -- The same for one that hands out a value.
  abbrev pub Yields : {A : Type 0} → Db → Bytes → List Entry → A → Result A × Db → Type 0
  Yields {A} db ns es a r =
      ((after : Db) × (r ≡ (ok a, after)) × Holds db ns es after)
      ⊎ ((e : Error) × (r ≡ (err e, db)))

  update-Settles :
      (db after : Db) (ns : Bytes) (es : List Entry)
      → Holds db ns es after
      → Settles db ns es (update db (ok after))
  update-Settles db after ns es h = elim (update_ok db after) [
    | inl e ↦ inl (after, e, h)
    | inr (x, e) ↦ inr (x, e)
  ]

  update-Yields :
      {A : Type 0} (db after : Db) (ns : Bytes) (es : List Entry) (a : A)
      → Holds db ns es after
      → Yields db ns es a (update_returning bolt (ok (a, after)) db)
  unfolding update_returning
  update-Yields db after ns es a h = elim (update_ok db after) [
    | inl e ↦ inl (after, rw e, h)
    | inr (x, e) ↦ inr (x, rw e)
  ]

  module _ (ns : Bytes) (db : Db) (es : List Entry) (here : bucket db ns ≡ some es) where
    pub Settles-put :
        (k v : Bytes) → IsKey k → IsStorable v → Settles db ns (insert k v es) (put bolt ns k v db)
    unfolding put
    Settles-put k v fits small =
        let (after, e, h) = bucket_put_lem db ns k v es here fits small in
        rw (here, put, put_body, e) (update-Settles db after ns (insert k v es) h)

    pub Settles-batch_delete : (k : Bytes) → Settles db ns (erase k es) (batch_delete bolt ns k db)
    unfolding batch_delete
    Settles-batch_delete k =
        let (after, e, h) = bucket_delete_lem db ns k es here in
        rw (here, batch_delete, delete_body, e) (update-Settles db after ns (erase k es) h)

    -- A missing key is an error, and nothing has changed.
    pub get_and_delete_missing :
        (k : Bytes)
        → lookup k es ≡ none
        → get_and_delete bolt ns k db ≡ (err (message (codes "key does not exist")), db)
    unfolding get_and_delete
    get_and_delete_missing k absent =
        let stored : bucket_get db ns k ≡ none = bucket_get_lem db ns k es here ∙ absent in
        rw (here, get_and_delete_body, stored, update_returning, update_err)

    pub Yields-get_and_delete :
        (k v : Bytes)
        → lookup k es ≡ some v
        → Yields db ns (erase k es) v (get_and_delete bolt ns k db)
    unfolding get_and_delete
    Yields-get_and_delete k v found =
        let (after, e, h) = bucket_delete_lem db ns k es here in
        let stored : bucket_get db ns k ≡ some v = bucket_get_lem db ns k es here ∙ found in
        rw (here, get_and_delete_body, stored, e) (update-Yields db after ns (erase k es) v h)

  -- What the changed bucket holds.
  pub Holds-self :
      (db : Db) (ns : Bytes) (es : List Entry) (after : Db)
      → Holds db ns es after
      → bucket after ns ≡ some es
  Holds-self db ns es after h = ground (arith, h ns, eqb_refl ns)

  module _ (ns : Bytes) (n : ℕ) (key value : Bytes) (walk : List Entry) (s : List Bytes) (count : ℕ)
      (db : Db) where
    retrieve_loop_full :
        n ≡ count → retrieve_loop bolt ns n ((key, value) ∷ walk) s count db ≡ ok (s, count, db)
    unfolding retrieve_loop
    retrieve_loop_full e = ground arith

    retrieve_loop_round :
        (after : Db)
        → count < n
        → bucket_delete db ns key ≡ ok after
        → retrieve_loop bolt ns n ((key, value) ∷ walk) s count db
          ≡ retrieve_loop bolt ns n walk (s ++ value ∷ []) (count + 1) after
    unfolding retrieve_loop
    retrieve_loop_round after lt e = ground arith

  retrieved_one_more :
      (s t : List Bytes) (v : Bytes) (count l : ℕ) (db : Db)
      → ◌≡◌ {A = Result (List Bytes × ℕ × Db)}
          (ok ((s ++ v ∷ []) ++ t, count + 1 + l, db))
          (ok (s ++ v ∷ t, count + suc l, db))
  retrieved_one_more s t v count l db =
      let e : count + 1 + l ≡ count + suc l = omega arith in rw (append_assoc, e)

  -- The loop deletes and returns pairs from the front until it has `n`.
  retrieve_loop-drop :
      (ns : Bytes) (n left : ℕ) (walk : List Entry) (s : List Bytes) (count : ℕ) (db : Db)
      → bucket db ns ≡ some walk
      → n ≡ count + left
      → (after : Db) × (retrieve_loop bolt ns n walk s count db
          ≡ ok (s ++ map values (take left walk), count + length (take left walk), after))
        × Holds db ns (drop left walk) after
  unfolding retrieve_loop
  retrieve_loop-drop ns n zero [] s count db here e =
      (db, rw (append-nil, add-zero), λ m. ground (arith, eqb_iff ns m))
  retrieve_loop-drop ns n (suc left) [] s count db here e =
      (db, rw (append-nil, add-zero), λ m. ground (arith, eqb_iff ns m))
  retrieve_loop-drop ns n zero ((key, value) ∷ walk) s count db here e = (
    db,
    retrieve_loop_full ns n key value walk s count db (omega arith) ∙ rw (append-nil, add-zero),
    λ m. ground (arith, eqb_iff ns m),
  )
  retrieve_loop-drop ns n (suc left) ((key, value) ∷ walk) s count db here e =
      let (mid, deleted, changed) = bucket_delete_lem db ns key ((key, value) ∷ walk) here in
      let front : Holds db ns walk mid =
        λ m. unfold erase in ground (arith, changed m, eqb_refl key) in
      let (after, rest, left_over) =
        retrieve_loop-drop ns n left walk (s ++ value ∷ []) (count + 1) mid
          (Holds-self db ns walk mid front) (omega arith) in
      (
        after,
        retrieve_loop_round ns n key value walk s count db mid (omega arith) deleted
            ∙ (rest
                ∙ retrieved_one_more s (map values (take left walk)) value count
                    (length (take left walk)) after),
        λ m. ground (arith, left_over m, front m),
      )

  module _ (ns : Bytes) (n : ℕ) (db : Db) where
    retrieve_body_found :
        (es : List Entry) (s : List Bytes) (count : ℕ) (after : Db)
        → bucket db ns ≡ some es
        → retrieve_loop bolt ns n es [] 0 db ≡ ok (s, count, after)
        → 0 < count
        → retrieve_body bolt ns n db ≡ ok (s, after)
    unfolding retrieve_body
    retrieve_body_found es s count after here run lt = rw (here, retrieve_body, run) (ground arith)

    -- The first `n` values are returned and their pairs deleted, or nothing changes.
    pub Yields-retrieve :
        (e : Entry) (es : List Entry)
        → bucket db ns ≡ some (e ∷ es)
        → 0 < n
        → Yields db ns
            (drop n (e ∷ es))
            (map values (take n (e ∷ es)))
            (retrieve_and_delete_n_keys_from_first bolt ns n db)
    unfolding retrieve_and_delete_n_keys_from_first
    Yields-retrieve e es here lt =
        let (after, run, left_over) =
          retrieve_loop-drop ns n n (e ∷ es) [] 0 db here (omega arith) in
        rw
          (retrieve_body_found (e ∷ es) (map values (take n (e ∷ es)))
            (0 + length (take n (e ∷ es))) after here run (take_some n e es lt))
          (update-Yields db after ns (drop n (e ∷ es)) (map values (take n (e ∷ es))) left_over)

    -- An empty bucket is an error, and nothing changes.
    pub retrieve_empty :
        bucket db ns ≡ some []
        → retrieve_and_delete_n_keys_from_first bolt ns n db
          ≡ (err (message (codes "empty bucket: " ++ ns)), db)
    unfolding retrieve_and_delete_n_keys_from_first
    retrieve_empty here = rw (here, retrieve_body, retrieve_loop, update_returning, update_err)

  -- No commit fails.
  abbrev pub Commits : Type 0
  Commits = (db after : Db) → update db (ok after) ≡ (ok tt, after)

  pub batch_delete_commits :
      (ns k : Bytes) (db : Db) (es : List Entry)
      → Commits
      → bucket db ns ≡ some es
      → Holds db ns (erase k es) (batch_delete bolt ns k db).1
  unfolding batch_delete
  batch_delete_commits ns k db es commits here =
      let (after, e, h) = bucket_delete_lem db ns k es here in
      let left : (batch_delete bolt ns k db).1 ≡ after =
        rw (batch_delete, here, delete_body, e, commits db after) in
      λ m. rw left (h m)

  pub Holds-unchanged :
      (db : Db) (ns : Bytes) (es : List Entry) → bucket db ns ≡ some es → Holds db ns es db
  Holds-unchanged db ns es here = λ m. ground (arith, eqb_iff ns m)

  pub Holds-trans :
      (db mid after : Db) (ns : Bytes) (es fs : List Entry)
      → Holds db ns es mid
      → Holds mid ns fs after
      → Holds db ns fs after
  Holds-trans db mid after ns es fs h k = λ m. ground (arith, h m, k m)

pub erase_head : (k v : Bytes) (es : List Entry) → erase k ((k, v) ∷ es) ≡ es
unfolding erase
erase_head k v es = rw eqb_refl

module _ (bolt : Bolt) where
  open bolt use {Db, bucket, bucket_get, bucket_get_lem, bucket_put_lem, bucket_delete_lem}

  pub put_commits :
      (ns k v : Bytes) (db : Db) (es : List Entry)
      → Commits bolt
      → bucket db ns ≡ some es
      → IsKey k
      → IsStorable v
      → (after : Db) × (put bolt ns k v db ≡ (ok tt, after))
        × Holds bolt db ns (insert k v es) after
  unfolding put
  put_commits ns k v db es commits here fits small =
      let (after, e, h) = bucket_put_lem db ns k v es here fits small in
      (after, rw (here, put, put_body, e, commits db after), h)

  pub get_and_delete_commits :
      (ns k v : Bytes) (db : Db) (es : List Entry)
      → Commits bolt
      → bucket db ns ≡ some es
      → lookup k es ≡ some v
      → (after : Db) × (get_and_delete bolt ns k db ≡ (ok v, after))
        × Holds bolt db ns (erase k es) after
  unfolding get_and_delete
  get_and_delete_commits ns k v db es commits here found =
      let (after, e, h) = bucket_delete_lem db ns k es here in
      let stored : bucket_get db ns k ≡ some v = bucket_get_lem db ns k es here ∙ found in
      (after, rw (here, get_and_delete_body, stored, e, update_returning, commits db after), h)

module _ (bolt : Bolt) where
  open bolt use {Db, bucket}

  pub retrieve_commits :
      (ns : Bytes) (n : ℕ) (db : Db) (e : Entry) (es : List Entry)
      → Commits bolt
      → bucket db ns ≡ some (e ∷ es)
      → 0 < n
      → (after : Db) × (retrieve_and_delete_n_keys_from_first bolt ns n db
          ≡ (ok (map values (take n (e ∷ es))), after))
        × Holds bolt db ns (drop n (e ∷ es)) after
  unfolding retrieve_and_delete_n_keys_from_first
  retrieve_commits ns n db e es commits here lt =
      let (after, run, held) = retrieve_loop-drop bolt ns n n (e ∷ es) [] 0 db here (omega arith) in
      let body : retrieve_body bolt ns n db ≡ ok (map values (take n (e ∷ es)), after) =
        retrieve_body_found bolt ns n db (e ∷ es) (map values (take n (e ∷ es)))
          (0 + length (take n (e ∷ es))) after here run (take_some n e es lt) in
      (after, rw (body, update_returning, commits db after), held)

pub lookup-insert :
    (k j v : Bytes) (es : List Entry)
    → lookup j (insert k v es) ≡ (if eqb k j then some v else lookup j es)
unfolding lookup insert
lookup-insert k j v [] = refl
lookup-insert k j v ((i, w) ∷ es) =
    ground (arith, eqb_iff k j, eqb_iff i k, eqb_iff i j, lookup-insert k j v es)
