-- ===== src/Store/BaseSeq/Refinement.antt =====
-- The operations of the store on a base-sequence-number namespace implement those of the view.
use verulink.Base.{
  ℕ, zero, suc, ◌+◌, ◌^◌, ◌%◌, ◌<◌, ◌≡◌, ◌≢◌, ◌⊎◌, inl, inr, refl, ap, ◌∙◌, false, List, [], ◌∷◌,
  map, some, Bytes, eqb, ◌==◌, Error, ok, err, arith, if◌then◌else◌, All, ◌>>=◌,
}
use verulink.Store.Key.{put_uint64, uint64, get_key_byte_for_key_constraint}
use verulink.Store.Key.Laws.{IsWord, length-put_uint64}
use verulink.Store.Bolt.{Bolt, IsKey}
use verulink.Store.Bolt.Entries.{insert}
use verulink.Store.Ops.{last_pair, get_last_key_value}
use verulink.Store.Ops.Laws.{Settles-put, Holds-self}
use verulink.Store.Db.{store_base_seq_num, get_starting_seq_num_and_height, next_number}
use verulink.Store.BaseSeq.Encoding.{
  encode_height-IsStorable, SeqHeight, encode, encode_height, AreWords, IsAscending, HasSeq,
  insert_seq, insert-map-encode, All-insert_seq, IsAscending-insert_seq, next_number-put_uint64,
}

-- The bucket holds exactly these numbers and heights.
pub record IsBase (bolt : Bolt) (db : bolt.Db) (ns : Bytes) (l : List SeqHeight) : Type 0 where
  pub stored : bolt.bucket db ns ≡ some (map encode l)
  pub words : All AreWords l
  pub ascending : IsAscending l

value_of_height :
    (h : ℕ) → (if h == 0 then [] else get_key_byte_for_key_constraint (uint64 h)) ≡ encode_height h
unfolding encode_height get_key_byte_for_key_constraint
value_of_height zero = refl
value_of_height (suc h) = ground arith

-- The next number to ask for, and the next height; height 0 counts as none.
abbrev pub start_after : List SeqHeight → ℕ × ℕ
start_after [] = (0, 0)
start_after ((s, zero) ∷ []) = ((s + 1) % 2 ^ 64, 0)
start_after ((s, suc h) ∷ []) = ((s + 1) % 2 ^ 64, (suc h + 1) % 2 ^ 64)
start_after (p ∷ q ∷ l) = start_after (q ∷ l)

start_after_last :
    (l : List SeqHeight)
    → All AreWords l
    → (do
      s ← next_number (last_pair (map encode l)).0
      h ← next_number (last_pair (map encode l)).1
      ok (s, h))
      ≡ ok (start_after l)
unfolding encode_height
start_after_last [] w = unfold next_number in refl
start_after_last ((s, zero) ∷ []) w =
    rw (next_number-put_uint64 s w.0.0) (unfold next_number in refl)
start_after_last ((s, suc h) ∷ []) w =
    rw (next_number-put_uint64 s w.0.0, next_number-put_uint64 (suc h) w.0.1)
start_after_last (p ∷ q ∷ l) w = start_after_last (q ∷ l) w.1

-- Every recorded number is below the start, but where the last one is the greatest word.
pub HasSeq-lt-start :
    (l : List SeqHeight) (n : ℕ)
    → IsAscending l
    → All AreWords l
    → (start_after l).0 ≢ 0
    → HasSeq n l
    → n < (start_after l).0
HasSeq-lt-start [] n asc w h m = absurd m
HasSeq-lt-start ((s, zero) ∷ []) n asc w h m = omega arith
HasSeq-lt-start ((s, suc g) ∷ []) n asc w h m = omega arith
HasSeq-lt-start (p ∷ q ∷ l) n asc w h (inl e) =
    omega (arith, HasSeq-lt-start (q ∷ l) q.0 asc.1 w.1 h (inl refl))
HasSeq-lt-start (p ∷ q ∷ l) n asc w h (inr m) = HasSeq-lt-start (q ∷ l) n asc.1 w.1 h m

module _ (bolt : Bolt) (db : bolt.Db) (ns : Bytes) (l : List SeqHeight)
    (base : IsBase bolt db ns l) where
  -- In a namespace with an ascending list of numbers and heights, storing a delivered packet
  -- inserts its number and height into the list and leaves every other bucket, or returns an error
  -- and changes nothing.
  pub store_base_seq_num_refines :
      (s h : ℕ)
      → IsWord s
      → IsWord h
      → ((after : bolt.Db) × (store_base_seq_num bolt ns s h db ≡ (ok tt, after))
          × IsBase bolt after ns (insert_seq s h l)
          × ((m : Bytes) → eqb ns m ≡ false → bolt.bucket after m ≡ bolt.bucket db m))
        ⊎ ((e : Error) × (store_base_seq_num bolt ns s h db ≡ (err e, db)))
  unfolding store_base_seq_num
  store_base_seq_num_refines s h ws wh =
      let key : IsKey (put_uint64 s) = omega (arith, length-put_uint64 s) in
      let placed : insert (put_uint64 s) (encode_height h) (map encode l)
          ≡ map encode (insert_seq s h l) =
        insert-map-encode s h l ws base.words in
      elim (Settles-put bolt ns db (map encode l) base.stored (put_uint64 s) (encode_height h) key
        (encode_height-IsStorable h)) [
          | inl (after, e, held) ↦ inl (
            after,
            rw value_of_height (unfold get_key_byte_for_key_constraint in e),
            record {
              stored = Holds-self bolt db ns _ after held ∙ ap some placed;
              words = All-insert_seq s h l (ws, wh) base.words;
              ascending = IsAscending-insert_seq s h l base.ascending;
            },
            λ m ne. ground (arith, held m),
          )
          | inr (x, e) ↦ inr (x, rw value_of_height (unfold get_key_byte_for_key_constraint in e))
        ]

  -- In a namespace with an ascending list of numbers and heights, the feed resumes with the number
  -- behind the last one and the height behind its height, in uint64; with nothing stored, and for
  -- a height 0, with 0.
  pub get_starting_refines : get_starting_seq_num_and_height bolt ns db ≡ ok (start_after l)
  unfolding get_starting_seq_num_and_height get_last_key_value
  get_starting_refines = rw base.stored (start_after_last l base.words)
