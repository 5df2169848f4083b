-- ===== src/Frame/Decoder/Ending.antt =====
-- `Frame::parse` (redis-lib/src/frame.rs) never uses up its fuel, on any bytes: like `Frame::check`, it
-- reads a byte before it calls itself.
use redis_demo.Base.{
  ℕ, zero, suc, ◌-◌, ◌<◌, ap, ◌==◌, ◌is◌, Bytes, codes, ltb, length, Outcome, ◌>>=◌, arith, Ensures,
  returned, failed, panicked, Ensures-bind, Ensures-if, Ensures-weaken,
}
use redis_demo.Std.Utf8.{is_utf8}
use redis_demo.Env.{Env, Cursor}
use redis_demo.Frame.{Frame, Error, simple, error}
use redis_demo.Frame.Reader.{get_line}
use redis_demo.Frame.Decoder.{
  collect, text_frame, front, parse_null, parse_bulk, parse_array, parse_arm, parse_fuel, parse,
}
use redis_demo.Frame.Decoder.Progress.{
  IsOnward, IsOnward-refl, IsOnward-trans, IsOnward-of_behind, IsBehind, IsBehind-trans,
  get_line-Ensures, get_decimal-Ensures, get_u8-Ensures, skip-Ensures, peek_u8-Ensures,
  add_usize-Ensures,
}

-- It has read something and stands further on.
abbrev MovesOn {ℓ} : {A : Type ℓ} → Cursor → A × Cursor → Type 0
MovesOn c r = IsOnward c r.1

-- A parser that moves on and stays within its fuel wherever fewer than `k` bytes are left.
abbrev Parses : ℕ → (Cursor → Outcome Error (Frame × Cursor)) → Type 0
Parses k q = (c : Cursor) → length c.get_ref - c.position < k → Ensures (MovesOn c) (q c)

text_frame-Ensures :
    (tag : Bytes → Frame) (line : Bytes) (c d : Cursor)
    → IsOnward c d
    → Ensures (MovesOn c) (text_frame tag line d)
text_frame-Ensures tag line c d on = Ensures-if (is_utf8 line) (returned _ on) (failed _)

parse_null-Ensures : (x : Env) (c : Cursor) → Ensures (MovesOn c) (parse_null c)
unfolding parse_null
parse_null-Ensures x c =
    Ensures-bind (get_line-Ensures x c)
      λ (line, d) on. Ensures-if (line is codes "-1") (returned _ on) (failed _)

front-Ensures : (n : ℕ) (s : Bytes) → Ensures {E = Error} (λ _. Unit {0}) (front n s)
unfolding front
front-Ensures n s = Ensures-if (ltb (length s) n) panicked (returned _ tt)

collect-Ensures :
    (k : ℕ) (q : Cursor → Outcome Error (Frame × Cursor))
    → Parses k q
    → (n : ℕ) (c : Cursor) → length c.get_ref - c.position < k
    → Ensures (MovesOn c) (collect n q c)
unfolding collect
collect-Ensures k q s zero c h = returned _ (IsOnward-refl c)
collect-Ensures k q s (suc n) c h = Ensures-bind (s c h) λ (f, d) on.
    Ensures-bind (collect-Ensures k q s n d (let o = on.onward in omega (arith, ap length on.same)))
      λ (fs, e) on'. returned _ (IsOnward-trans c d e on on')

module _ (x : Env) where
  line-Ensures :
      (tag : Bytes → Frame) (c : Cursor)
      → Ensures (MovesOn c) (do (line, d) ← get_line c; text_frame tag line d)
  line-Ensures tag c =
      Ensures-bind (get_line-Ensures x c) λ (line, d) on. text_frame-Ensures tag line c d on

  parse_bulk-Ensures : (c : Cursor) → Ensures (MovesOn c) (parse_bulk x c)
  unfolding parse_bulk
  parse_bulk-Ensures c = Ensures-bind (get_decimal-Ensures x c) λ (n, d) on.
      Ensures-bind (add_usize-Ensures x n 2) λ total _.
        Ensures-if (ltb (x.remaining d) total) (failed _) (
          Ensures-bind (front-Ensures n (x.chunk d)) λ bytes _.
            Ensures-bind (skip-Ensures x d total) λ e on'. returned _ (IsOnward-trans c d e on on'))

  module _ (k : ℕ) (q : Cursor → Outcome Error (Frame × Cursor)) (s : Parses k q) where
    parse_array-Ensures : Parses k (parse_array x q)
    unfolding parse_array
    parse_array-Ensures c h = Ensures-bind (get_decimal-Ensures x c) λ (n, d) on.
        Ensures-if (ltb x.max_capacity n) panicked (
          Ensures-bind
            (collect-Ensures k q s n d (let o = on.onward in omega (arith, ap length on.same)))
            λ (fs, e) on'. returned _ (IsOnward-trans c d e on on'))

    parse_arm-Ensures : (b : ℕ) → Parses k (parse_arm x q b)
    unfolding parse_arm
    parse_arm-Ensures b c h = Ensures-if (b == b'+') (line-Ensures simple c) (
        Ensures-if (b == b'-') (line-Ensures error c) (
          Ensures-if (b == b':') (Ensures-bind (get_decimal-Ensures x c) λ (n, d) on. returned _ on)
            (Ensures-if (b == b'$')
              (Ensures-bind (peek_u8-Ensures x c)
                λ p _. Ensures-if (p == b'-') (parse_null-Ensures x c) (parse_bulk-Ensures c))
              (Ensures-if (b == b'*') (parse_array-Ensures c h) panicked))))

  parse_fuel-Ensures :
      (k : ℕ) (c : Cursor)
      → length c.get_ref - c.position < k
      → Ensures (λ r. IsBehind c r.1) (parse_fuel x k c)
  unfolding parse_fuel
  parse_fuel-Ensures zero c h = absurd (omega arith)
  parse_fuel-Ensures (suc k) c h = Ensures-bind (get_u8-Ensures x c) λ (b, d) behind.
      Ensures-weaken
        (parse_arm-Ensures k (parse_fuel x k)
          (λ e l. Ensures-weaken (parse_fuel-Ensures k e l) λ r. IsOnward-of_behind e r.1) b d
          (omega (arith, ap length behind.0)))
        λ r. IsBehind-trans c d r.1 behind

-- `parse` never uses up its fuel: it returns, fails or panics. Where it returns, the cursor has moved
-- at least one byte forward in the same buffer, and not past its end.
pub parse-Ensures : (x : Env) (c : Cursor) → Ensures (λ r. IsBehind c r.1) (parse x c)
unfolding parse
parse-Ensures x c = parse_fuel-Ensures x (suc (length c.get_ref)) c (omega arith)
