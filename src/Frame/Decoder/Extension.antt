-- ===== src/Frame/Decoder/Extension.antt =====
-- More bytes at the end of the buffer change no verdict of `Frame::check`
-- (redis-lib/src/frame.rs) but `Incomplete`: frames may arrive in any pieces.
use redis_demo.Base.{
  ℕ, zero, suc, ◌≤◌, ◌<◌, ◌≡◌, ◌≢◌, refl, ◌++◌, Bytes, ltb, ◌==◌, length, get_or, Outcome, ok, err,
  panic, out_of_fuel, Bool-cases, inl, inr, arith, tests, length-append, Ensures-ne-out_of_fuel,
}
use redis_demo.Env.{Env, Cursor}
use redis_demo.Frame.{Error, incomplete}
use redis_demo.Frame.Reader.{add_usize}
use redis_demo.Frame.Reader.Plain.{forward, get_u8_eq}
use redis_demo.Frame.Decoder.{repeat, check_bulk, check_array, check_arm, check_fuel, check}
use redis_demo.Frame.Decoder.Progress.{check-Ensures}
use redis_demo.Frame.Reader.Extension.{
  grow, Settled, returned, refused, panicked, waits, starves, Settled-bind, Settled-if,
  Settled-same, get_line-Settled, get_decimal-Settled, get_u8-grow, peek_u8-Settled, skip-Settled,
}

module _ (more : Bytes) where
  -- Two readers of an item, the second with at least the fuel of the first.
  module _ (x : Env) where
    check_bulk-Settled :
        (c : Cursor)
        → 0 < length c.get_ref
        → Settled (grow more) (check_bulk x c) (check_bulk x (grow more c))
    unfolding check_bulk
    check_bulk-Settled c pos = Settled-bind _ _ (get_decimal-Settled more x c pos) λ (n, d).
        Settled-bind _ _ (Settled-same (add_usize x n 2)) λ total. skip-Settled more x d total

  module _ (q q' : Cursor → Outcome Error Cursor)
      (s : (c : Cursor) → Settled (grow more) (q c) (q' (grow more c))) where
    repeat-Settled :
        (n : ℕ) (c : Cursor) → Settled (grow more) (repeat n q c) (repeat n q' (grow more c))
    unfolding repeat
    repeat-Settled zero c = returned c refl
    repeat-Settled (suc n) c = Settled-bind _ _ (s c) λ d. repeat-Settled n d

    check_arm-Settled :
        (x : Env) (b : ℕ) (c : Cursor)
        → 0 < length c.get_ref
        → Settled (grow more) (check_arm x q b c) (check_arm x q' b (grow more c))
    unfolding check_arm check_array
    check_arm-Settled x b c pos =
        let line = Settled-bind _ _ (get_line-Settled more c pos) λ (_, d). returned d refl in
        let number =
          Settled-bind _ _ (get_decimal-Settled more x c pos) λ (_, d). returned d refl in
        let dollar =
          Settled-bind _ _ (peek_u8-Settled more x c)
            λ p. Settled-if (p == b'-') (skip-Settled more x c 4) (check_bulk-Settled x c pos) in
        let items =
          Settled-bind _ _ (get_decimal-Settled more x c pos) λ (n, d). repeat-Settled n d in
        Settled-if (b == b'+') line (
          Settled-if (b == b'-') line (
            Settled-if (b == b':') number
              (Settled-if (b == b'$') dollar (Settled-if (b == b'*') items (refused _ refl)))))

  check_fuel-Settled :
      (x : Env) (k l : ℕ) (c : Cursor)
      → k ≤ l
      → Settled (grow more) (check_fuel x k c) (check_fuel x l (grow more c))
  unfolding check_fuel
  check_fuel-Settled x zero l c kl = starves
  check_fuel-Settled x (suc k) zero c kl = absurd (omega arith)
  check_fuel-Settled x (suc k) (suc l) c kl =
      elim (Bool-cases (ltb c.position (length c.get_ref))) [
        | inl there ↦
            rw (get_u8_eq x c, there, get_u8-grow more x c there)
              (check_arm-Settled (check_fuel x k) (check_fuel x l)
                (λ d. check_fuel-Settled x k l d (omega arith)) x (get_or c.get_ref c.position 0)
                (forward c 1) (omega tests))
        | inr done ↦ rw (get_u8_eq x c, done) waits
      ]

-- What a run returned, over the longer buffer.
abbrev pub grown : Bytes → Outcome Error Cursor → Outcome Error Cursor
grown more (ok c) = ok (grow more c)
grown more (err e) = err e
grown more panic = panic
grown more out_of_fuel = out_of_fuel

Settled-grown :
    (more : Bytes) {r r' : Outcome Error Cursor}
    → Settled (grow more) r r'
    → r ≢ err incomplete
    → r ≢ out_of_fuel
    → r' ≡ grown more r
Settled-grown more (returned c h) ne fuel = h
Settled-grown more (refused e h) ne fuel = h
Settled-grown more (panicked h) ne fuel = h
Settled-grown more waits ne fuel = absurd (ne refl)
Settled-grown more starves ne fuel = absurd (fuel refl)

-- Every verdict of `check` but `Incomplete`, whether it accepts, refuses or panics, stands when
-- more bytes arrive behind the buffer.
pub check-append :
    (x : Env) (c : Cursor) (more : Bytes)
    → check x c ≢ err incomplete
    → check x (grow more c) ≡ grown more (check x c)
unfolding check
check-append x c more ne =
    Settled-grown more
      (check_fuel-Settled more x (suc (length c.get_ref)) (suc (length (c.get_ref ++ more))) c
        (omega (arith, length-append c.get_ref more)))
      ne (Ensures-ne-out_of_fuel (check-Ensures x c))
