-- ===== src/Frame/Decoder/Size.antt =====
-- What `Frame::parse` (redis-lib/src/frame.rs) can return: values of their Rust types, and no more of
-- them than the bytes that were read.
use redis_demo.Base.{
  ℕ, zero, suc, ◌+◌, ◌-◌, ◌^◌, ◌≤◌, ◌<◌, ◌≡◌, refl, ap, subst, ltb, ◌==◌, if◌then◌else◌, length,
  Outcome, ok, ◌>>=◌, >>=-eq-ok, Bool-cases, inl, inr, arith, Ensures-ok, ok_of_if,
}
use redis_demo.Env.{Env, Cursor}
use redis_demo.Frame.{Frame, Frames, Error, simple, error, array, nil, cons, len}
use redis_demo.Frame.Reader.{peek_u8, get_u8, get_decimal}
use redis_demo.Frame.Reader.Position.{get_u8-position, get_decimal-line}
use redis_demo.Frame.Decoder.{
  collect, parse_null, parse_bulk, parse_array, parse_arm, parse_fuel, parse,
}
use redis_demo.Frame.Decoder.Agreement.{check_fuel_of_parse}
use redis_demo.Frame.Decoder.Progress.{IsBehind, check_fuel-Ensures}
use redis_demo.Frame.Decoder.Weights.{
  weight, weights, IsTyped, AreTyped, Weighs, line_moves, returned-Weighs, line-Weighs,
  number-Weighs, null-Weighs, bulk-Weighs,
}

module _ (x : Env) (k : ℕ) (p : Cursor → Outcome Error (Frame × Cursor))
    (weighs : (c : Cursor) (f : Frame) (c' : Cursor)
      → length c.get_ref < 2 ^ 63
      → length c.get_ref - c.position < k
      → p c ≡ ok (f, c')
      → Weighs 0 f c c')
    (behind : (c : Cursor) (f : Frame) (c' : Cursor)
      → length c.get_ref - c.position < k
      → p c ≡ ok (f, c')
      → IsBehind c c') where
  collect-Weighs :
      (n : ℕ) (c : Cursor) (fs : Frames) (c' : Cursor)
      → length c.get_ref < 2 ^ 63
      → length c.get_ref - c.position < k
      → collect n p c ≡ ok (fs, c')
      → AreTyped fs × (weights fs + c.position ≤ c'.position) × (len fs ≡ n)
  unfolding collect
  collect-Weighs zero c fs c' small room h =
      subst
        (λ (q : Frames × Cursor).
          AreTyped q.0 × (weights q.0 + c.position ≤ q.1.position) × (len q.0 ≡ 0))
        {x = (nil, c)} {y = (fs, c')} (cc) (tt, omega arith, refl)
  collect-Weighs (suc n) c fs c' small room h =
      let ((f, d), e, h') = >>=-eq-ok (p c) _ h in
      let ((gs, d'), e', h'') = >>=-eq-ok (collect n p d) (λ (gs, d'). ok (cons f gs, d')) h' in
      let (typed, heavy) = weighs c f d small room e in
      let (same, moved, inside) = behind c f d room e in
      let (all_typed, all_heavy, count) =
        collect-Weighs n d gs d' (omega (arith, ap length same)) (omega (arith, ap length same))
          e' in
      subst
        (λ (q : Frames × Cursor).
          AreTyped q.0 × (weights q.0 + c.position ≤ q.1.position) × (len q.0 ≡ suc n))
        {x = (cons f gs, d')} {y = (fs, c')} (cc) ((typed, all_typed), omega arith, ap suc count)

  array-Weighs :
      (c : Cursor) (f : Frame) (c' : Cursor)
      → length c.get_ref < 2 ^ 63
      → length c.get_ref - c.position < k
      → parse_array x p c ≡ ok (f, c')
      → Weighs 1 f c c'
  unfolding parse_array
  array-Weighs c f c' small room h =
      let ((n, d), e, h') = >>=-eq-ok (get_decimal x c) _ h in
      let (line, on_line, value) = get_decimal-line x c n d e in
      let (moved, same, inside) = line_moves c line d on_line in
      elim (Bool-cases (ltb x.max_capacity n)) [
        | inl big ↦ cc (rw big at h')
        | inr fits ↦
            let ((fs, d'), e', h'') =
              >>=-eq-ok (collect n p d) (λ (fs, d'). ok (array fs, d')) (rw fits at h') in
            let (typed, heavy, count) =
              collect-Weighs n d fs d' (omega (arith, ap length same))
                (omega (arith, ap length same)) e' in
            returned-Weighs x c f c' (array fs) d' (omega (arith, x.atoi_lt line n value), typed)
              (omega arith) h''
      ]

  arm-Weighs :
      (b : ℕ) (c : Cursor) (f : Frame) (c' : Cursor)
      → length c.get_ref < 2 ^ 63
      → length c.get_ref - c.position < k
      → parse_arm x p b c ≡ ok (f, c')
      → Weighs 1 f c c'
  unfolding parse_arm
  arm-Weighs b c f c' small room =
      ok_of_if (b == b'+') (line-Weighs x c f c' simple (λ s h. h) (λ s. refl)) (
        ok_of_if (b == b'-') (line-Weighs x c f c' error (λ s h. h) (λ s. refl)) (
          ok_of_if (b == b':') (number-Weighs x c f c') (
            ok_of_if (b == b'$') dollar-Weighs
              (ok_of_if (b == b'*') (array-Weighs c f c' small room) (λ e. cc)))))
    where
      dollar-Weighs :
          (do p ← peek_u8 x c; if p == b'-' then parse_null c else parse_bulk x c) ≡ ok (f, c')
          → Weighs 1 f c c'
      dollar-Weighs h =
          let (p, e, h') = >>=-eq-ok (peek_u8 x c) _ h in
          ok_of_if (p == b'-') (null-Weighs x c f c') (bulk-Weighs x c f c' small) h'

fuel-Weighs :
    (x : Env) (k : ℕ) (c : Cursor) (f : Frame) (c' : Cursor)
    → length c.get_ref < 2 ^ 63
    → length c.get_ref - c.position < k
    → parse_fuel x k c ≡ ok (f, c')
    → Weighs 0 f c c'
unfolding parse_fuel
fuel-Weighs x zero c f c' small room h = cc
fuel-Weighs x (suc k) c f c' small room h =
    let ((b, d), e, h') = >>=-eq-ok (get_u8 x c) _ h in
    let (moved, more) = get_u8-position x c b d e in
    let position = ap (λ (d : Cursor). d.position) moved in
    let same = ap (λ (d : Cursor). length d.get_ref) moved in
    let (typed, heavy) =
      arm-Weighs x k (parse_fuel x k) (λ c f c' small room h. fuel-Weighs x k c f c' small room h)
        (λ c f c' room h.
          Ensures-ok (check_fuel-Ensures x k c room) (check_fuel_of_parse x k c f c' h))
        b d f c' (omega arith) (omega arith) h' in
    (typed, omega arith)

-- A frame that `parse` returns, from a buffer of less than 2 ^ 63 bytes, holds values of its Rust
-- types: its texts are UTF-8, and its integers and lengths are below 2 ^ 64. It takes no more than the
-- bytes that were read: its texts and a few bytes for each element fit between the cursors.
pub parse-IsTyped :
    (x : Env) (c : Cursor) (f : Frame) (c' : Cursor)
    → length c.get_ref < 2 ^ 63
    → parse x c ≡ ok (f, c')
    → IsTyped f × (weight f + c.position ≤ c'.position)
unfolding parse
parse-IsTyped x c f c' small h =
    let (typed, heavy) = fuel-Weighs x (suc (length c.get_ref)) c f c' small (omega arith) h in
    (typed, omega arith)
