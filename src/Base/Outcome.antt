-- ===== src/Base/Outcome.antt =====
-- Results of fallible code: a value, a returned Go `error`, or a run-time panic.
use mathlib.Core.Path.{◌≡◌, refl}
use mathlib.Core.Path.{◌≡◌, refl}
use mathlib.Core.Logic.{◌⊎◌, inl, inr}
use mathlib.Core.Option.{Option, none, some}
use mathlib.Core.List.{List}
use Prim.Native.Nat.{ℕ}
use verulink.Base.Text.{Bytes}

-- `attestor/chainService/common/errors.go` has the first four; the others carry their text.
pub data Error : Type 0 where
  time_out : Error
  invalid_signature : Bytes → Bytes → Error
  already_relayed : Error
  packet_not_found : ℕ → Bytes → Bytes → ℕ → Error
  message : Bytes → Error
  joined : List Bytes → Error

pub data Result {ℓ} (A : Type ℓ) : Type ℓ where
  ok : A → Result A
  err : Error → Result A
  panics : Result A

infixl 5 ◌>>=◌
abbrev pub ◌>>=◌ {ℓ κ} : {A : Type ℓ} {B : Type κ} → Result A → (A → Result B) → Result B
ok a >>= f = f a
err e >>= f = err e
panics >>= f = panics

-- The reading of `v, ok := m[k]` and of the like by an error.
abbrev pub or_err {ℓ} : {A : Type ℓ} → Option A → Error → Result A
or_err none e = err e
or_err (some a) e = ok a

-- A use of a value that panics where it is missing (a nil pointer, an index out of range).
abbrev pub or_panic {ℓ} : {A : Type ℓ} → Option A → Result A
or_panic none = panics
or_panic (some a) = ok a

pub Result-cases {ℓ} :
    {A : Type ℓ} (r : Result A)
    → ((a : A) × (r ≡ ok a)) ⊎ (((e : Error) × (r ≡ err e)) ⊎ (r ≡ panics))
Result-cases (ok a) = inl (a, refl)
Result-cases (err e) = inr (inl (e, refl))
Result-cases panics = inr (inr refl)

-- A block that returns has had every step return.
pub bind_ok {ℓ κ} :
    {A : Type ℓ} {B : Type κ} (r : Result A) (f : A → Result B) (b : B)
    → (r >>= f) ≡ ok b
    → (a : A) × (r ≡ ok a) × (f a ≡ ok b)
bind_ok (ok a) f b e = (a, refl, e)
bind_ok (err x) f b e = cc
bind_ok panics f b e = cc

pub bind_or_err {ℓ κ} :
    {A : Type ℓ} {B : Type κ} (o : Option A) (x : Error) (f : A → Result B) (b : B)
    → (or_err o x >>= f) ≡ ok b
    → (a : A) × (o ≡ some a) × (f a ≡ ok b)
bind_or_err (some a) x f b e = (a, refl, e)
bind_or_err none x f b e = cc

pub ok-injective {ℓ} : {A : Type ℓ} {x y : A} → ok x ≡ ok y → x ≡ y
ok-injective e = cc
