-- ===== src/Frame/Decoder/Arms.antt =====
-- The arms of Frame::parse (redis-lib/src/frame.rs), each on the wire form of its frames.
use redis_demo.Base.{
  ℕ, suc, ◌+◌, ◌^◌, ◌≤◌, ◌<◌, ◌≡◌, refl, ◌∙◌, ap, [], ◌∷◌, ◌++◌, Bytes, ◌==◌, length, Outcome, ok,
  false, arith, lt→ltb, le→ltb, length-append, All, ◌≢◌, append_assoc, take-append_self,
  drop-append_self, sym,
}
use redis_demo.Std.Decimal.{to_decimal, to_decimal-digits, to_decimal-ne-nil, IsDigit}
use redis_demo.Env.{Env, Cursor}
use redis_demo.Frame.{Frame, Frames, Error, simple, error, integer, bulk, null, array, len}
use redis_demo.Frame.Wire.{IsLine}
use redis_demo.Frame.Reader.{cr, lf, add_usize, peek_u8, skip}
use redis_demo.Frame.Reader.At.{
  at, crlf, get_u8-at, peek_u8-at, skip-at, get_line-at, get_decimal-at,
}
use redis_demo.Frame.Decoder.{
  collect, front, parse_bulk, parse_null, parse_array, parse_arm, parse_fuel,
}

module _ (x : Env) where
  remaining-at : (pre tail : Bytes) → x.remaining (at pre tail) ≡ length tail
  remaining-at pre tail = x.remaining_lem (at pre tail) ∙ omega (arith, length-append pre tail)

  chunk-at : (pre tail : Bytes) → x.chunk (at pre tail) ≡ tail
  chunk-at pre tail = x.chunk_lem (at pre tail) ∙ drop-append_self pre tail

  front_lem : (s t : Bytes) → front (length s) (s ++ t) ≡ ok s
  unfolding front
  front_lem s t =
      rw (
        le→ltb (length (s ++ t)) (length s) (omega (arith, length-append s t)),
        take-append_self s t,
      )

  skip_line-at :
      (pre tail s : Bytes)
      → skip x (at pre (s ++ cr ∷ lf ∷ tail)) (length s + 2) ≡ ok (at (pre ++ (s ++ crlf)) tail)
  skip_line-at pre tail s =
      ap (λ t. skip x (at pre t) (length s + 2)) (sym (append_assoc s crlf tail))
      ∙ ap (skip x (at pre ((s ++ crlf) ++ tail))) (sym (length-append s crlf))
      ∙ skip-at pre tail x (s ++ crlf)

  parse_bulk-at :
      (pre tail s : Bytes)
      → length s + 2 < 2 ^ 64
      → parse_bulk x (at pre (to_decimal (length s) ++ cr ∷ lf ∷ (s ++ cr ∷ lf ∷ tail)))
        ≡ ok (bulk s, at ((pre ++ (to_decimal (length s) ++ crlf)) ++ (s ++ crlf)) tail)
  unfolding parse_bulk add_usize
  parse_bulk-at pre tail s h = rw (
    get_decimal-at x pre (s ++ cr ∷ lf ∷ tail) (length s) (omega arith),
    lt→ltb _ _ h,
    remaining-at,
    chunk-at,
    le→ltb (length (s ++ cr ∷ lf ∷ tail)) (length s + 2)
        (omega (arith, length-append s (cr ∷ lf ∷ tail))),
    front_lem s (cr ∷ lf ∷ tail),
    skip_line-at (pre ++ (to_decimal (length s) ++ crlf)) tail s,
  )

  -- A frame that starts with the byte `b` and goes on with `body`.
  module _ (k : ℕ) (b : ℕ) (pre body rest : Bytes) where
    pub reads_of_arm :
        (f : Frame) (t : Bytes)
        → body ++ rest ≡ t
        → parse_arm x (parse_fuel x k) b (at (pre ++ b ∷ []) t)
          ≡ ok (f, at ((pre ++ b ∷ []) ++ body) rest)
        → parse_fuel x (suc k) (at pre (b ∷ (body ++ rest))) ≡ ok (f, at (pre ++ b ∷ body) rest)
    unfolding parse_fuel
    reads_of_arm f t e arm =
        ap (λ u. parse_fuel x (suc k) (at pre (b ∷ u))) e
        ∙ rw (get_u8-at pre t x b) arm
        ∙ ap (λ u. ok (f, at u rest)) (append_assoc pre (b ∷ []) body)

  module _ (again : Cursor → Outcome Error (Frame × Cursor)) (pre tail : Bytes) where
    pub parse_arm-simple :
        (s : Bytes)
        → IsLine s
        → parse_arm x again b'+' (at pre (s ++ cr ∷ lf ∷ tail))
          ≡ ok (simple s, at (pre ++ (s ++ crlf)) tail)
    unfolding parse_arm
    parse_arm-simple s h = rw (get_line-at pre s tail h.1, h.0)

    pub parse_arm-error :
        (s : Bytes)
        → IsLine s
        → parse_arm x again b'-' (at pre (s ++ cr ∷ lf ∷ tail))
          ≡ ok (error s, at (pre ++ (s ++ crlf)) tail)
    unfolding parse_arm
    parse_arm-error s h = rw (get_line-at pre s tail h.1, h.0)

    pub parse_arm-integer :
        (n : ℕ)
        → n < 2 ^ 64
        → parse_arm x again b':' (at pre (to_decimal n ++ cr ∷ lf ∷ tail))
          ≡ ok (integer n, at (pre ++ (to_decimal n ++ crlf)) tail)
    unfolding parse_arm
    parse_arm-integer n h = rw (get_decimal-at x pre tail n h)

    pub parse_arm-null :
        parse_arm x again b'$' (at pre (b'-' ∷ b'1' ∷ cr ∷ lf ∷ tail))
        ≡ ok (null, at (pre ++ (b'-' ∷ b'1' ∷ crlf)) tail)
    unfolding parse_arm parse_null
    parse_arm-null = rw (
      peek_u8-at pre (b'1' ∷ cr ∷ lf ∷ tail) x b'-',
      get_line-at pre (b'-' ∷ b'1' ∷ []) tail (refl, tt),
    )

    -- A decimal number does not look like "-1".
    peek_digits :
        (s t : Bytes)
        → All IsDigit s
        → s ≢ []
        → (b : ℕ) × (peek_u8 x (at pre (s ++ t)) ≡ ok b) × ((b == b'-') ≡ false)
    peek_digits [] t h ne = absurd (ne refl)
    peek_digits (b ∷ s) t h ne = (b, peek_u8-at pre (s ++ t) x b, ground (arith, h.0))

    pub parse_arm-bulk :
        (s : Bytes)
        → length s + 2 < 2 ^ 64
        → parse_arm x again b'$' (at pre (to_decimal (length s) ++ cr ∷ lf ∷ (s ++ cr ∷ lf ∷ tail)))
          ≡ ok (bulk s, at ((pre ++ (to_decimal (length s) ++ crlf)) ++ (s ++ crlf)) tail)
    unfolding parse_arm
    parse_arm-bulk s h =
        let (b, e, ne) =
          peek_digits (to_decimal (length s)) (cr ∷ lf ∷ (s ++ cr ∷ lf ∷ tail))
            (to_decimal-digits (length s)) (to_decimal-ne-nil (length s)) in
        rw (e, ne) (parse_bulk-at pre tail s h)

    pub parse_arm-array :
        (fs : Frames) {c : Cursor}
        → len fs ≤ x.max_capacity
        → len fs < 2 ^ 64
        → collect (len fs) again (at (pre ++ (to_decimal (len fs) ++ crlf)) tail) ≡ ok (fs, c)
        → parse_arm x again b'*' (at pre (to_decimal (len fs) ++ cr ∷ lf ∷ tail)) ≡ ok (array fs, c)
    unfolding parse_arm parse_array
    parse_arm-array fs fits small e =
        rw (get_decimal-at x pre tail (len fs) small, le→ltb x.max_capacity (len fs) fits, e)
