-- ===== src/Store/BaseSeq/DeleteOrder.antt =====
-- `PruneBaseSeqNum` (attestor/chainService/store/db.go) deletes each key in a goroutine of its own:
-- the order in which they run does not matter.
use mathlib.Core.List.{Perm, Permᴰ}
use mathlib.Core.Logic.{∥∥₁_elim}
use verulink.Base.{
  ◌≡◌, refl, sym, ap, ◌∙◌, List, [], ◌∷◌, Bytes, eqb, eqb_iff, some, arith, if◌then◌else◌,
}
use verulink.Store.Bolt.{Bolt}
use verulink.Store.Bolt.Entries.{Entry, erase}
use verulink.Store.Ops.{batch_delete}
use verulink.Store.Ops.Laws.{
  Holds, Holds-unchanged, Holds-trans, Holds-self, Commits, batch_delete_commits,
}
use verulink.Store.Db.{delete_keys}

erase-swap : (a b : Bytes) (es : List Entry) → erase a (erase b es) ≡ erase b (erase a es)
unfolding erase
erase-swap a b [] = refl
erase-swap a b ((j, w) ∷ es) = ground (arith, eqb_iff j a, eqb_iff j b, erase-swap a b es)

-- The pairs that are left when every key is deleted.
unfoldable erase_all : List Bytes → List Entry → List Entry
erase_all [] es = es
erase_all (k ∷ ks) es = erase_all ks (erase k es)

erase_all-Permᴰ :
    {ks js : List Bytes} (p : Permᴰ ks js) (es : List Entry) → erase_all ks es ≡ erase_all js es
unfolding erase_all
erase_all-Permᴰ Permᴰ.nil es = refl
erase_all-Permᴰ (Permᴰ.cons {l₂ = js} e p) es =
    erase_all-Permᴰ p _ ∙ ap (λ (k : Bytes). erase_all js (erase k es)) e
erase_all-Permᴰ (Permᴰ.swap {a = a} {b = b} {l = l} e f) es =
    rw (sym e, sym f) (ap (erase_all l) (erase-swap b a es))
erase_all-Permᴰ (Permᴰ.trans p q) es = erase_all-Permᴰ p es ∙ erase_all-Permᴰ q es

entries_set : IsSet (List Entry)
entries_set = hlevel

erase_all-Perm :
    {ks js : List Bytes} → Perm ks js → (es : List Entry) → erase_all ks es ≡ erase_all js es
erase_all-Perm {ks} {js} p es = ∥∥₁_elim p (entries_set _ _) (λ d. erase_all-Permᴰ d es)

module _ (bolt : Bolt) (ns : Bytes) (commits : Commits bolt) where
  open bolt use {Db, bucket}

  Holds-delete_keys :
      (ks : List Bytes) (es : List Entry) (db : Db)
      → bucket db ns ≡ some es
      → Holds bolt db ns (erase_all ks es) (delete_keys bolt ns ks db)
  unfolding delete_keys erase_all
  Holds-delete_keys [] es db here = Holds-unchanged bolt db ns es here
  Holds-delete_keys (k ∷ ks) es db here =
      let mid : Db = (batch_delete bolt ns k db).1 in
      let first : Holds bolt db ns (erase k es) mid =
        batch_delete_commits bolt ns k db es commits here in
      Holds-trans bolt db mid _ ns (erase k es) _ first
        (Holds-delete_keys ks (erase k es) mid (Holds-self bolt db ns _ mid first))

  -- If commits succeed and the namespace exists, deleting keys in any other order leaves the same
  -- pairs in every bucket.
  pub delete_keys-Perm :
      (ks js : List Bytes) (es : List Entry) (db : Db)
      → bucket db ns ≡ some es
      → Perm ks js
      → (m : Bytes) → bucket (delete_keys bolt ns ks db) m ≡ bucket (delete_keys bolt ns js db) m
  delete_keys-Perm ks js es db here p m =
      Holds-delete_keys ks es db here m
      ∙ ap (λ (l : List Entry). if eqb ns m then some l else bucket db m) (erase_all-Perm p es)
      ∙ sym (Holds-delete_keys js es db here m)
