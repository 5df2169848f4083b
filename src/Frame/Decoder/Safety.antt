-- ===== src/Frame/Decoder/Safety.antt =====
-- `Frame::parse` (redis-lib/src/frame.rs) on a buffer that `Frame::check` has accepted: none of the
-- panics of `parse` is met, among them `unimplemented!()`, the slice and `Vec::with_capacity`.
use redis_demo.Base.{
  ℕ, zero, suc, ◌-◌, ◌≤◌, ◌<◌, ◌≡◌, subst, sym, ◌∙◌, ap, true, ◌==◌, length, Outcome, ok, >>=-eq-ok,
  arith, le→ltb, Ensures, Ensures-ok,
}
use redis_demo.Env.{Env, Cursor}
use redis_demo.Frame.{Frame, Error, simple, error}
use redis_demo.Frame.Reader.{get_u8, get_decimal}
use redis_demo.Frame.Decoder.{
  repeat, collect, check_array, check_arm, check_fuel, check, parse_array, parse_arm, parse_fuel,
  parse,
}
use redis_demo.Frame.Decoder.Agreement.{check_fuel_of_parse}
use redis_demo.Frame.Decoder.Progress.{
  IsBehind, check_fuel-Ensures, get_decimal-Ensures, get_u8-Ensures,
}
use redis_demo.Frame.Decoder.Calm.{
  ok_eq, Calm, Calm-bind, Calm-if, line-Calm, number-Calm, dollar-Calm, returns,
}

module _ (x : Env) (k : ℕ) (p : Cursor → Outcome Error (Frame × Cursor))
    (q : Cursor → Outcome Error Cursor)
    (behind : (c : Cursor) → length c.get_ref - c.position < k → Ensures (IsBehind c) (q c))
    (accepts : (c : Cursor) (f : Frame) (c' : Cursor) → p c ≡ ok (f, c') → q c ≡ ok c')
    (calm : (c c' : Cursor)
      → length c.get_ref ≤ x.max_capacity
      → length c.get_ref - c.position < k
      → q c ≡ ok c'
      → Calm (p c)) where
  repeat-le :
      (n : ℕ) (c c' : Cursor)
      → length c.get_ref - c.position < k
      → repeat n q c ≡ ok c'
      → n ≤ length c.get_ref - c.position
  unfolding repeat
  repeat-le zero c c' room h = omega arith
  repeat-le (suc n) c c' room h =
      let (d, e, h') = >>=-eq-ok (q c) (repeat n q) h in
      let (same, moved, inside) = Ensures-ok (behind c room) e in
      let rest = repeat-le n d c' (omega (arith, ap length same)) h' in
      omega (arith, ap length same)

  collect-Calm :
      (n : ℕ) (c c' : Cursor)
      → length c.get_ref ≤ x.max_capacity
      → length c.get_ref - c.position < k
      → repeat n q c ≡ ok c'
      → Calm (collect n p c)
  unfolding repeat collect
  collect-Calm zero c c' small room h = returns _
  collect-Calm (suc n) c c' small room h =
      let (d, e, h') = >>=-eq-ok (q c) (repeat n q) h in
      let (same, moved, inside) = Ensures-ok (behind c room) e in
      Calm-bind (p c) (calm c d small room e) λ (f, d') e'.
        let at_d : d' ≡ d = ok_eq (sym (accepts c f d' e') ∙ e) in
        let rest =
          subst (λ d. Calm (collect n p d)) (sym at_d)
            (collect-Calm n d c' (omega (arith, ap length same)) (omega (arith, ap length same))
              h') in
        Calm-bind (collect n p d') rest λ _ _. returns _

  parse_array-Calm :
      (c c' : Cursor)
      → length c.get_ref ≤ x.max_capacity
      → length c.get_ref - c.position < k
      → check_array x q c ≡ ok c'
      → Calm (parse_array x p c)
  unfolding check_array parse_array
  parse_array-Calm c c' small room h =
      let ((n, d), e, h') = >>=-eq-ok (get_decimal x c) (λ (n, d). repeat n q d) h in
      let onward = Ensures-ok (get_decimal-Ensures x c) e in
      let same = onward.same in
      let further = onward.onward in
      let fits = repeat-le n d c' (omega (arith, ap length same)) h' in
      let calm_rest =
        collect-Calm n d c' (omega (arith, ap length same)) (omega (arith, ap length same)) h' in
      rw (e, le→ltb x.max_capacity n (omega (arith, ap length same)))
        (Calm-bind (collect n p d) calm_rest λ _ _. returns _)

  parse_arm-Calm :
      x.overflow_checks ≡ true
      → (b : ℕ) (c c' : Cursor) → length c.get_ref ≤ x.max_capacity
      → length c.get_ref - c.position < k
      → check_arm x q b c ≡ ok c'
      → Calm (parse_arm x p b c)
  unfolding check_arm parse_arm
  parse_arm-Calm checked b c c' small room = Calm-if (b == b'+') (line-Calm x checked c c' simple) (
      Calm-if (b == b'-') (line-Calm x checked c c' error) (
        Calm-if (b == b':') (number-Calm x checked c c') (
          Calm-if (b == b'$') (dollar-Calm x checked c c')
            (Calm-if (b == b'*') (parse_array-Calm c c' small room) (λ e. cc)))))

parse_fuel-Calm :
    (x : Env) (k : ℕ) (c c' : Cursor)
    → x.overflow_checks ≡ true
    → length c.get_ref ≤ x.max_capacity
    → length c.get_ref - c.position < k
    → check_fuel x k c ≡ ok c'
    → Calm (parse_fuel x k c)
unfolding check_fuel parse_fuel
parse_fuel-Calm x zero c c' checked small room h = cc
parse_fuel-Calm x (suc k) c c' checked small room h =
    let ((b, d), e, h') = >>=-eq-ok (get_u8 x c) (λ (b, d). check_arm x (check_fuel x k) b d) h in
    let (same, moved, inside) = Ensures-ok (get_u8-Ensures x c) e in
    rw e (
      parse_arm-Calm x k (parse_fuel x k) (check_fuel x k) (λ c room. check_fuel-Ensures x k c room)
        (check_fuel_of_parse x k)
        (λ c c' small room h. parse_fuel-Calm x k c c' checked small room h) checked b d c'
        (omega (arith, ap length same)) (omega (arith, ap length same)) h')

-- In a build with overflow checks, on a buffer no longer than the largest capacity of a vector:
-- where `check` accepts, `parse` returns a frame or fails with an error; it does not panic.
pub parse-Calm :
    (x : Env) (c c' : Cursor)
    → x.overflow_checks ≡ true
    → length c.get_ref ≤ x.max_capacity
    → check x c ≡ ok c'
    → Calm (parse x c)
unfolding check parse
parse-Calm x c c' checked small h =
    parse_fuel-Calm x (suc (length c.get_ref)) c c' checked small (omega arith) h
