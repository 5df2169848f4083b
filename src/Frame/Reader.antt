-- ===== src/Frame/Reader.antt =====
-- redis-lib/src/frame.rs, the functions that read from the cursor: `peek_u8`, `get_u8`, `skip`,
-- `get_line`, `get_decimal`. A read returns its value and the cursor behind it; where a read fails
-- the caller drops the cursor, so an error carries none.
pub mod Plain
pub mod At
pub mod Position
pub mod Extension
use redis_demo.Base.{
  ℕ, zero, suc, ◌+◌, ◌-◌, ◌^◌, ◌%◌, ◌≡◌, Bool, ◌&&◌, Option, none, some, [], ◌∷◌, Bytes, ltb, ◌==◌,
  if◌then◌else◌, length, get_or, take, drop, Outcome, ok, err, panic, ◌>>=◌,
}
use redis_demo.Env.{Env, Cursor}
use redis_demo.Frame.{Error, incomplete, other, invalid_format}

abbrev pub cr : ℕ
cr = b'\r'

abbrev pub lf : ℕ
lf = b'\n'

-- The first `i` of the `k` positions from `i` on where "\r\n" stands.
unfoldable pub find_crlf : ℕ → ℕ → Bytes → Option ℕ
find_crlf zero i s = none
find_crlf (suc k) i s =
    let later = find_crlf k (suc i) s in
    if get_or s i 0 == cr && get_or s (suc i) 0 == lf then some i else later

-- `&s[start..end]`
abbrev pub slice : ℕ → ℕ → Bytes → Bytes
slice start end s = take (end - start) (drop start s)

-- `len - 1` panics on an empty slice, or wraps around, and then the first index is out of bounds.
unfoldable pub get_line : Cursor → Outcome Error (Bytes × Cursor)
unfolding find_crlf
get_line c =
    if length c.get_ref == 0
    then panic
    else elim (find_crlf (length c.get_ref - 1 - c.position) c.position c.get_ref) [
      | none ↦ err incomplete
      | some i ↦ ok (slice c.position i c.get_ref, record { get_ref = c.get_ref; position = i + 2 })
    ]

-- `a + b` in `usize`, 64 bits wide.
unfoldable pub add_usize : Env → ℕ → ℕ → Outcome Error ℕ
add_usize x a b =
    if ltb (a + b) (2 ^ 64)
    then ok (a + b)
    else if x.overflow_checks
    then panic
    else ok ((a + b) % 2 ^ 64)

-- `s[0]`
abbrev first : Bytes → Outcome Error ℕ
first [] = panic
first (b ∷ s) = ok b

module _ (x : Env) where
  unfoldable pub peek_u8 : Cursor → Outcome Error ℕ
  peek_u8 c = if x.has_remaining c then first (x.chunk c) else err incomplete

  unfoldable pub get_u8 : Cursor → Outcome Error (ℕ × Cursor)
  get_u8 c = if x.has_remaining c then ok (x.get_u8 c) else err incomplete

  unfoldable pub skip : Cursor → ℕ → Outcome Error Cursor
  skip c n = if ltb (x.remaining c) n then err incomplete else ok (x.advance c n)

  abbrev pub number : Option ℕ → Cursor → Outcome Error (ℕ × Cursor)
  number none c = err (other invalid_format)
  number (some n) c = ok (n, c)

  unfoldable pub get_decimal : Cursor → Outcome Error (ℕ × Cursor)
  get_decimal c = do (line, c') ← get_line c; number (x.atoi line) c'
