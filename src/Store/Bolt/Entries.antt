-- ===== src/Store/Bolt/Entries.antt =====
-- A bucket's pairs in the order of their keys.
use verulink.Base.{◌≡◌, true, List, [], ◌∷◌, Bytes, eqb, if◌then◌else◌}
use verulink.Store.Key.BigEndian.{bytes_lt}

abbrev pub Entry : Type 0
Entry = Bytes × Bytes

unfoldable pub insert : Bytes → Bytes → List Entry → List Entry
insert k v [] = (k, v) ∷ []
insert k v ((j, w) ∷ es) =
    if bytes_lt k j
    then (k, v) ∷ (j, w) ∷ es
    else if eqb j k
    then (k, v) ∷ es
    else (j, w) ∷ insert k v es

unfoldable pub erase : Bytes → List Entry → List Entry
erase k [] = []
erase k ((j, w) ∷ es) = if eqb j k then es else (j, w) ∷ erase k es

-- Every key is below the next.
abbrev pub IsSorted : List Entry → Type 0
IsSorted [] = Unit
IsSorted ((j, w) ∷ []) = Unit
IsSorted ((j, w) ∷ (k, v) ∷ es) = (bytes_lt j k ≡ true) × IsSorted ((k, v) ∷ es)
