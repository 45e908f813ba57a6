-- ===== src/Store/Key.antt =====
-- Keys and values of the store (attestor/chainService/store/constraint.go) and the fixed-width
-- big-endian numbers that they and the hashed packets are made of.
pub mod BigEndian
pub mod Laws
use verulink.Base.{ℕ, ◌^◌, ◌%◌, List, [], ◌∷◌, Bytes, Result, ok, panics, or_panic, ◌>>=◌}
use BigEndian.{be, of_be, first_bytes}

-- The type parameter of the generic functions, with its value. The last two are the types that are
-- defined on `string` and on `[]byte`, which `keyConstraint` admits as well.
pub data Key : Type 0 where
  int64 uint64 : ℕ → Key
  text : Bytes → Key
  bytes : Bytes → Key
  defined_text : Bytes → Key
  defined_bytes : Bytes → Key

-- `binary.BigEndian.PutUint64` into eight new bytes.
unfoldable pub put_uint64 : ℕ → Bytes
put_uint64 v = be 8 v

-- `binary.BigEndian.Uint64`, which panics on fewer than eight bytes.
unfoldable pub get_uint64 : Bytes → Result ℕ
get_uint64 b = do eight ← or_panic (first_bytes 8 b); ok (of_be eight)

-- An `int64` is the pattern of its 64 bits. No case of the switch takes a defined type.
unfoldable pub get_key_byte_for_key_constraint : Key → Bytes
unfolding put_uint64
get_key_byte_for_key_constraint (int64 v) = put_uint64 (v % 2 ^ 64)
get_key_byte_for_key_constraint (uint64 v) = put_uint64 v
get_key_byte_for_key_constraint (text v) = v
get_key_byte_for_key_constraint (bytes v) = v
get_key_byte_for_key_constraint (defined_text v) = []
get_key_byte_for_key_constraint (defined_bytes v) = []

-- The value of the first argument only chooses the type; for a defined one the
-- assertion of the type fails.
unfoldable pub convert_type : Key → Bytes → Result Key
unfolding get_uint64
convert_type (int64 _) b = do v ← get_uint64 b; ok (int64 v)
convert_type (uint64 _) b = do v ← get_uint64 b; ok (uint64 v)
convert_type (text _) b = ok (text b)
convert_type (bytes _) b = ok (bytes b)
convert_type (defined_text _) b = panics
convert_type (defined_bytes _) b = panics
