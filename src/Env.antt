-- ===== src/Env.antt =====
-- What the program takes from outside its sources: the crates `atoi` and `bytes`,
-- the Unicode case tables, and the build.
-- Each law states documented behaviour of the crate.
use redis_demo.Base.{
  ℕ, ◌+◌, ◌-◌, ◌^◌, ◌≤◌, ◌<◌, ◌≡◌, ◌≢◌, Bool, Option, some, [], Bytes, ltb, length, get_or, drop,
  All, map, lower, upper,
}
use redis_demo.Std.Utf8.{IsAscii}
use redis_demo.Std.Decimal.{IsDigit, value}

-- `std::io::Cursor<&[u8]>`.
pub record Cursor : Type 0 where
  pub get_ref : Bytes
  pub position : ℕ

pub record Env : Type 0 where
  -- whether `+` on `usize` panics on overflow (a debug build) or wraps around
  pub overflow_checks : Bool
  -- the largest capacity for which `Vec::<Frame>::with_capacity` does not panic
  pub max_capacity : ℕ
  -- `atoi::atoi::<u64>`: the number at the front of a slice
  pub atoi : Bytes → Option ℕ
  pub atoi_lt : (s : Bytes) (n : ℕ) → atoi s ≡ some n → n < 2 ^ 64
  pub atoi_digits :
      (s : Bytes) → s ≢ [] → All IsDigit s → value 0 s < 2 ^ 64 → atoi s ≡ some (value 0 s)
  -- `bytes::Buf` of a cursor
  pub remaining : Cursor → ℕ
  pub remaining_lem : (c : Cursor) → remaining c ≡ length c.get_ref - c.position
  pub has_remaining : Cursor → Bool
  pub has_remaining_lem : (c : Cursor) → has_remaining c ≡ ltb 0 (remaining c)
  pub chunk : Cursor → Bytes
  pub chunk_lem : (c : Cursor) → chunk c ≡ drop c.position c.get_ref
  pub advance : Cursor → ℕ → Cursor
  pub advance_lem :
      (c : Cursor) (n : ℕ)
      → n ≤ remaining c
      → advance c n ≡ record { get_ref = c.get_ref; position = c.position + n }
  pub get_u8 : Cursor → ℕ × Cursor
  pub get_u8_lem :
      (c : Cursor)
      → 0 < remaining c
      → get_u8 c
        ≡ (get_or c.get_ref c.position 0, record { get_ref = c.get_ref; position = c.position + 1 })
  -- `bytes::Buf::advance` of a `BytesMut`
  pub advance_buf : Bytes → ℕ → Bytes
  pub advance_buf_lem : (s : Bytes) (n : ℕ) → n ≤ length s → advance_buf s n ≡ drop n s
  -- `str::to_lowercase` and `str::to_uppercase`, whose tables are Unicode's
  pub to_lowercase : Bytes → Bytes
  pub to_lowercase-ascii : (s : Bytes) → IsAscii s → to_lowercase s ≡ map lower s
  pub to_uppercase : Bytes → Bytes
  pub to_uppercase-ascii : (s : Bytes) → IsAscii s → to_uppercase s ≡ map upper s
  -- the `Debug` text of `bytes::Bytes`
  pub debug_bytes : Bytes → Bytes
  -- the last instant that the platform's clock can hold, in nanoseconds
  pub max_instant : ℕ
