-- ===== src/Frame/Decoder/RoundTrip.antt =====
-- Frame::parse (redis-lib/src/frame.rs) reads the wire form of a frame back.
use redis_demo.Base.{
  ℕ, zero, suc, ◌+◌, ◌≤◌, ◌<◌, ◌≡◌, refl, ◌∙◌, ap, [], ◌∷◌, ◌++◌, Bytes, length, ok, arith,
  length-append, append_assoc, append-nil, sym,
}
use redis_demo.Std.Decimal.{to_decimal}
use redis_demo.Env.{Env}
use redis_demo.Frame.{Frame, Frames, simple, error, integer, bulk, null, array, nil, cons, len}
use redis_demo.Frame.Wire.{encode, encode_items, IsWire, AreWire}
use redis_demo.Frame.Reader.{cr, lf}
use redis_demo.Frame.Reader.At.{at, crlf}
use redis_demo.Frame.Decoder.{collect, parse_fuel, parse}
use redis_demo.Frame.Decoder.Arms.{
  reads_of_arm, parse_arm-simple, parse_arm-error, parse_arm-integer, parse_arm-null,
  parse_arm-bulk, parse_arm-array,
}

length-encode_pos : (f : Frame) → 0 < length (encode f)
unfolding encode
length-encode_pos (simple s) = omega arith
length-encode_pos _ = omega arith

length-encode_bytes : (s t : Bytes) → length (s ++ t) ≡ length s + length t
length-encode_bytes = length-append

module _ (x : Env) where
  mutual
    unfolding encode collect

    reads :
        (f : Frame) (k : ℕ) (pre rest : Bytes)
        → IsWire x.max_capacity f
        → length (encode f) ≤ k
        → parse_fuel x k (at pre (encode f ++ rest)) ≡ ok (f, at (pre ++ encode f) rest)
    reads f zero pre rest w h = absurd (omega (arith, length-encode_pos f))
    reads (simple s) (suc k) pre rest w h =
        reads_of_arm x k b'+' pre (s ++ crlf) rest (simple s) _ (append_assoc s crlf rest)
          (parse_arm-simple x _ (pre ++ b'+' ∷ []) rest s w)
    reads (error s) (suc k) pre rest w h =
        reads_of_arm x k b'-' pre (s ++ crlf) rest (error s) _ (append_assoc s crlf rest)
          (parse_arm-error x _ (pre ++ b'-' ∷ []) rest s w)
    reads (integer n) (suc k) pre rest w h =
        reads_of_arm x k b':' pre (to_decimal n ++ crlf) rest (integer n) _
          (append_assoc (to_decimal n) crlf rest)
          (parse_arm-integer x _ (pre ++ b':' ∷ []) rest n w)
    reads (bulk s) (suc k) pre rest w h =
        reads_of_arm x k b'$' pre _ rest (bulk s)
          (to_decimal (length s) ++ cr ∷ lf ∷ (s ++ cr ∷ lf ∷ rest)) (simp append_assoc)
          (parse_arm-bulk x _ (pre ++ b'$' ∷ []) rest s w
            ∙ ap (λ u. ok (bulk s, at u rest)) (simp append_assoc))
    reads null (suc k) pre rest w h =
        reads_of_arm x k b'$' pre (b'-' ∷ b'1' ∷ crlf) rest null _ refl
          (parse_arm-null x _ (pre ++ b'$' ∷ []) rest)
    reads (array fs) (suc k) pre rest w h =
        reads_of_arm x k b'*' pre _ rest (array fs)
          (to_decimal (len fs) ++ cr ∷ lf ∷ (encode_items fs ++ rest)) (simp append_assoc)
          (parse_arm-array x _ (pre ++ b'*' ∷ []) (encode_items fs ++ rest) fs w.0 w.1 (
              reads_items fs k _ rest w.2 (
                omega
                  (arith, length-encode_bytes (to_decimal (len fs)) (cr ∷ lf ∷ encode_items fs))))
            ∙ ap (λ u. ok (array fs, at u rest)) (simp append_assoc))

    reads_items :
        (fs : Frames) (k : ℕ) (pre rest : Bytes)
        → AreWire x.max_capacity fs
        → length (encode_items fs) ≤ k
        → collect (len fs) (parse_fuel x k) (at pre (encode_items fs ++ rest))
          ≡ ok (fs, at (pre ++ encode_items fs) rest)
    reads_items nil k pre rest w h = ap (λ u. ok (nil, at u rest)) (sym (append-nil pre))
    reads_items (cons f fs) k pre rest w h =
        ap (λ t. collect (suc (len fs)) (parse_fuel x k) (at pre t))
          (append_assoc (encode f) (encode_items fs) rest)
        ∙ rw
            (
              reads f k pre (encode_items fs ++ rest) w.0
                  (omega (arith, length-encode_bytes (encode f) (encode_items fs))),
              reads_items fs k (pre ++ encode f) rest w.1
                  (omega (arith, length-encode_bytes (encode f) (encode_items fs))),
            )
            (ap (λ u. ok (cons f fs, at u rest)) (append_assoc pre (encode f) (encode_items fs)))

-- `parse` reads the wire form of any frame that has one off the front of its input, whatever bytes
-- stand before and behind it, and leaves the cursor behind the frame.
pub parse-encode :
    (x : Env) (f : Frame) (pre rest : Bytes)
    → IsWire x.max_capacity f
    → parse x (at pre (encode f ++ rest)) ≡ ok (f, at (pre ++ encode f) rest)
unfolding parse
parse-encode x f pre rest w =
    reads x f _ pre rest w (
      omega
        (arith, length-encode_bytes pre (encode f ++ rest), length-encode_bytes (encode f) rest))
