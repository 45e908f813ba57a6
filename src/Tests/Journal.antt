-- ===== src/Tests/Journal.antt =====
-- A concrete store that meets the interface of bbolt: the list of the writes, the newest first.
-- No write and no commit fails.
use mathlib.Core.Path.{subst}
use verulink.Base.{
  ◌≡◌, inl, refl, Bool, true, false, List, [], ◌∷◌, Option, none, some, Bytes, eqb, eqb_iff, Result,
  ok, err, panics, arith, if◌then◌else◌, or_empty, lookup,
}
use verulink.Store.Key.BigEndian.{bytes_lt}
use verulink.Store.Bolt.{Bolt}
use verulink.Store.Bolt.Entries.{Entry, insert, erase, IsSorted}

bytes_lt_trans : (r s t : Bytes) → bytes_lt r s ≡ true → bytes_lt s t ≡ true → bytes_lt r t ≡ true
unfolding bytes_lt
bytes_lt_trans [] [] t h k = cc
bytes_lt_trans [] (b ∷ s) [] h k = cc
bytes_lt_trans [] (b ∷ s) (c ∷ t) h k = refl
bytes_lt_trans (a ∷ r) [] t h k = cc
bytes_lt_trans (a ∷ r) (b ∷ s) [] h k = cc
bytes_lt_trans (a ∷ r) (b ∷ s) (c ∷ t) h k = ground (arith, bytes_lt_trans r s t)

bytes_lt-total : (s t : Bytes) → bytes_lt s t ≡ false → eqb t s ≡ false → bytes_lt t s ≡ true
unfolding bytes_lt eqb
bytes_lt-total [] [] h k = cc
bytes_lt-total [] (b ∷ t) h k = cc
bytes_lt-total (a ∷ s) [] h k = refl
bytes_lt-total (a ∷ s) (b ∷ t) h k = ground (arith, bytes_lt-total s t)

IsSorted-insert : (k v : Bytes) (es : List Entry) → IsSorted es → IsSorted (insert k v es)
unfolding insert
IsSorted-insert k v [] h = tt
IsSorted-insert k v ((j, w) ∷ []) h = ground (arith, bytes_lt-total k j)
IsSorted-insert k v ((j, w) ∷ (i, u) ∷ es) h =
    ground (arith, bytes_lt-total k j, IsSorted-insert k v ((i, u) ∷ es) h.1, eqb_iff j k)

IsSorted-erase : (k : Bytes) (es : List Entry) → IsSorted es → IsSorted (erase k es)
unfolding erase
IsSorted-erase k [] h = tt
IsSorted-erase k ((j, w) ∷ []) h = ground arith
IsSorted-erase k ((j, w) ∷ (i, u) ∷ []) h = ground arith
IsSorted-erase k ((j, w) ∷ (i, u) ∷ (g, x) ∷ es) h =
    ground (arith, IsSorted-erase k ((i, u) ∷ (g, x) ∷ es) h.1, bytes_lt_trans j i g)

pub data Write : Type 0 where
  created : Bytes → Write
  stored : Bytes → Bytes → Bytes → Write
  deleted : Bytes → Bytes → Write

abbrev pub contents : List Write → Bytes → Option (List Entry)
contents [] ns = none
contents (created m ∷ d) ns =
    let rest = contents d ns in if eqb m ns then some (or_empty rest) else rest
contents (stored m k v ∷ d) ns =
    let rest = contents d ns in if eqb m ns then some (insert k v (or_empty rest)) else rest
contents (deleted m k ∷ d) ns =
    let rest = contents d ns in if eqb m ns then some (erase k (or_empty rest)) else rest

or_empty-IsSorted :
    (o : Option (List Entry))
    → ((es : List Entry) → o ≡ some es → IsSorted es)
    → IsSorted (or_empty o)
or_empty-IsSorted none h = tt
or_empty-IsSorted (some es) h = h es refl

changed-IsSorted :
    (b : Bool) (xs es : List Entry) (rest : Option (List Entry))
    → IsSorted xs
    → (rest ≡ some es → IsSorted es)
    → (if b then some xs else rest) ≡ some es
    → IsSorted es
changed-IsSorted true xs es rest s old h = let e : xs ≡ es = cc in subst (λ l. IsSorted l) e s
changed-IsSorted false xs es rest s old h = old h

pub contents-IsSorted :
    (d : List Write) (ns : Bytes) (es : List Entry) → contents d ns ≡ some es → IsSorted es
contents-IsSorted [] ns es h = cc
contents-IsSorted (created m ∷ d) ns es h =
    let old : IsSorted (or_empty (contents d ns)) =
      or_empty-IsSorted (contents d ns) (contents-IsSorted d ns) in
    changed-IsSorted (eqb m ns) (or_empty (contents d ns)) es (contents d ns) old
      (contents-IsSorted d ns es) h
contents-IsSorted (stored m k v ∷ d) ns es h =
    let old : IsSorted (or_empty (contents d ns)) =
      or_empty-IsSorted (contents d ns) (contents-IsSorted d ns) in
    changed-IsSorted (eqb m ns) (insert k v (or_empty (contents d ns))) es (contents d ns)
      (IsSorted-insert k v (or_empty (contents d ns)) old) (contents-IsSorted d ns es) h
contents-IsSorted (deleted m k ∷ d) ns es h =
    let old : IsSorted (or_empty (contents d ns)) =
      or_empty-IsSorted (contents d ns) (contents-IsSorted d ns) in
    changed-IsSorted (eqb m ns) (erase k (or_empty (contents d ns))) es (contents d ns)
      (IsSorted-erase k (or_empty (contents d ns)) old) (contents-IsSorted d ns es) h

abbrev pub settle : List Write → Result (List Write) → Result (Unit {0}) × List Write
settle db (ok after) = (ok tt, after)
settle db (err e) = (err e, db)
settle db panics = (panics, db)

pub get_lem :
    (db : List Write) (ns k : Bytes) (es : List Entry)
    → contents db ns ≡ some es
    → lookup k (or_empty (contents db ns)) ≡ lookup k es
get_lem db ns k es h = rw h

pub put_lem :
    (db : List Write) (ns k v : Bytes) (es : List Entry)
    → contents db ns ≡ some es
    → (m : Bytes)
    → contents (stored ns k v ∷ db) m ≡ (if eqb ns m then some (insert k v es) else contents db m)
put_lem db ns k v es h m = ground (arith, eqb_iff ns m)

pub delete_lem :
    (db : List Write) (ns k : Bytes) (es : List Entry)
    → contents db ns ≡ some es
    → (m : Bytes)
    → contents (deleted ns k ∷ db) m ≡ (if eqb ns m then some (erase k es) else contents db m)
delete_lem db ns k es h m = ground (arith, eqb_iff ns m)

pub create_lem :
    (db : List Write) (ns : Bytes) (m : Bytes)
    → contents (created ns ∷ db) m
      ≡ (if eqb ns m then some (or_empty (contents db ns)) else contents db m)
create_lem db ns m = ground (arith, eqb_iff ns m)

abbrev pub journal : Bolt
journal = record {
  Db = List Write;
  bucket = contents;
  bucket_get = λ db ns k. lookup k (or_empty (contents db ns));
  bucket_put = λ db ns k v. ok (stored ns k v ∷ db);
  bucket_delete = λ db ns k. ok (deleted ns k ∷ db);
  create_bucket_if_not_exists = λ db ns. ok (created ns ∷ db);
  update = settle;
  bucket_sorted = contents-IsSorted;
  bucket_get_lem = get_lem;
  bucket_put_lem = λ db ns k v es h fits small. (stored ns k v ∷ db, refl, put_lem db ns k v es h);
  bucket_delete_lem = λ db ns k es h. (deleted ns k ∷ db, refl, delete_lem db ns k es h);
  create_bucket_lem = λ db ns fits. (created ns ∷ db, refl, create_lem db ns);
  update_err = λ db e. refl;
  update_panics = λ db. refl;
  update_ok = λ db after. inl refl;
}
