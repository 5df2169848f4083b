-- ===== src/Frame/Decoder/Agreement.antt =====
-- `Frame::check` accepts whatever `Frame::parse` reads (redis-lib/src/frame.rs), and stops at the
-- same byte: the caller drops from its buffer the bytes that `check` counted.
use redis_demo.Base.{
  ◌is◌, is→eq, ℕ, zero, suc, ◌+◌, ◌-◌, ◌≡◌, sym, ◌∙◌, ap, Bytes, ltb, if◌then◌else◌, length,
  Outcome, ok, panic, Bool-cases, inl, inr, arith, le→ltb, >>=-eq-ok, ok-pair_eq, ◌>>=◌, codes,
}
use redis_demo.Env.{Env, Cursor}
use redis_demo.Frame.{Frame, Frames, Error, array}
use redis_demo.Frame.Reader.{get_line, get_u8, skip, get_decimal}
use redis_demo.Frame.Reader.Plain.{forward, skip_eq}
use redis_demo.Frame.Reader.Position.{get_line-IsAfterLine}
use redis_demo.Frame.Decoder.{
  repeat, collect, check_arm, check_fuel, check, front, parse_bulk, parse_null, parse_array,
  null_frame, check_bulk, check_array, parse_arm, parse_fuel, parse,
}

-- What a successful run of `p` read, `q` accepts.
abbrev Accepts :
    (Cursor → Outcome Error (Frame × Cursor)) → (Cursor → Outcome Error Cursor) → Type 0
Accepts p q = (c : Cursor) (f : Frame) (c' : Cursor) → p c ≡ ok (f, c') → q c ≡ ok c'

repeat_of_collect :
    (p : Cursor → Outcome Error (Frame × Cursor)) (q : Cursor → Outcome Error Cursor)
    → Accepts p q
    → (n : ℕ) (c : Cursor) (fs : Frames) (c' : Cursor) → collect n p c ≡ ok (fs, c')
    → repeat n q c ≡ ok c'
unfolding collect repeat
repeat_of_collect p q a zero c fs c' h = ground arith
repeat_of_collect p q a (suc n) c fs c' h =
    let ((f, d), e, h') = >>=-eq-ok (p c) _ h in
    let ((gs, d'), e', h'') = >>=-eq-ok (collect n p d) _ h' in
    rw (a c f d e) (repeat_of_collect p q a n d gs d' e' ∙ ap ok (ok-pair_eq h'').1)

module _ (x : Env) (c : Cursor) (f : Frame) (c' : Cursor) where
  check_null : parse_null c ≡ ok (f, c') → skip x c 4 ≡ ok c'
  unfolding parse_null
  check_null h =
      let ((line, d), e, h') = >>=-eq-ok (get_line c) (λ (l, d). null_frame l d) h in
      elim (Bool-cases (line is codes "-1")) [
        | inl minus ↦
            let after = get_line-IsAfterLine c line d e in
            skip_eq x c 4
            ∙ rw
                (le→ltb (length c.get_ref - c.position) 4 (
                  let w = after.within in omega (arith, ap length (is→eq line (codes "-1") minus))))
                (ap ok (
                  ap (λ (l : Bytes). forward c (length l + 2)) (sym (is→eq line (codes "-1") minus))
                  ∙ sym after.moved
                  ∙ (ok-pair_eq (rw minus at h')).1))
        | inr different ↦ absurd (ground arith)
      ]

  check_bulk_of_parse : parse_bulk x c ≡ ok (f, c') → check_bulk x c ≡ ok c'
  unfolding parse_bulk check_bulk front
  check_bulk_of_parse h = ground arith

module _ (x : Env) (p : Cursor → Outcome Error (Frame × Cursor)) (q : Cursor → Outcome Error Cursor)
    (a : Accepts p q) (c : Cursor) (f : Frame) (c' : Cursor) where
  check_array_of_parse : parse_array x p c ≡ ok (f, c') → check_array x q c ≡ ok c'
  unfolding parse_array check_array
  check_array_of_parse h =
      let ((n, d), e, h') = >>=-eq-ok (get_decimal x c) (λ (n, d). elements n d) h in
      elim (Bool-cases (ltb x.max_capacity n)) [
        | inl big ↦ cc (rw big at h')
        | inr fits ↦
            let ((fs, d'), e', h'') =
              >>=-eq-ok (collect n p d) (λ (fs, d'). ok (array fs, d')) (rw fits at h') in
            rw e (repeat_of_collect p q a n d fs d' e' ∙ ap ok (ok-pair_eq h'').1)
      ]
    where
      elements : ℕ → Cursor → Outcome Error (Frame × Cursor)
      elements n d =
          if ltb x.max_capacity n then panic else (do (fs, d') ← collect n p d; ok (array fs, d'))

  check_arm_of_parse : (b : ℕ) → parse_arm x p b c ≡ ok (f, c') → check_arm x q b c ≡ ok c'
  unfolding parse_arm check_arm
  check_arm_of_parse b h =
      ground (arith, check_null x c f c', check_bulk_of_parse x c f c', check_array_of_parse)

pub check_fuel_of_parse : (x : Env) (k : ℕ) → Accepts (parse_fuel x k) (check_fuel x k)
unfolding parse_fuel check_fuel
check_fuel_of_parse x zero c f c' h = cc
check_fuel_of_parse x (suc k) c f c' h =
    let ((b, d), e, h') = >>=-eq-ok (get_u8 x c) (λ (b, d). parse_arm x (parse_fuel x k) b d) h in
    rw e
      (check_arm_of_parse x (parse_fuel x k) (check_fuel x k) (check_fuel_of_parse x k) d f c' b h')

-- Where `parse` returns a frame, `check` returns too, and both leave the cursor at the same byte:
-- the bytes that the connection drops are those of the frame it returns.
pub check-parse :
    (x : Env) (c : Cursor) (f : Frame) (c' : Cursor) → parse x c ≡ ok (f, c') → check x c ≡ ok c'
unfolding parse check
check-parse x c f c' h = check_fuel_of_parse x _ c f c' h
