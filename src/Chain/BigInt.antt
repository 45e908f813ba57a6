-- ===== src/Chain/BigInt.antt =====
-- What the program uses of Go's `math/big` and `strconv` for integers: printing and reading decimals.
mod RoundTrip
pub use RoundTrip.*
mod Defs
pub use Defs.{ℤ, pos, negsuc}
unfoldable pub use Defs.{
  digit, itoa, emit, scan, atoi, big_string, set_string, negate, positive, eqb_ℤ,
}
