-- ===== src/Frame/Decoder/Calm.antt =====
-- Where `Frame::parse` (redis-lib/src/frame.rs) does not panic on a frame that is no array.
use redis_demo.Base.{
  ℕ, ◌+◌, ◌-◌, ◌≤◌, ◌<◌, ◌≡◌, refl, ap, Bool, true, false, Bytes, ltb, ◌==◌, if◌then◌else◌, length,
  length-drop, Outcome, ok, err, ◌>>=◌, >>=-eq-ok, Bool-cases, inl, inr, arith, le→ltb, ltb→le,
  Option, none, some, ◌is◌, codes,
}
use redis_demo.Std.Utf8.{is_utf8}
use redis_demo.Env.{Env, Cursor}
use redis_demo.Frame.{Frame, Error, integer, incomplete}
use redis_demo.Frame.Reader.{find_crlf, slice, get_line, add_usize, peek_u8, skip, get_decimal}
use redis_demo.Frame.Reader.Plain.{peek_u8_eq}
use redis_demo.Frame.Decoder.{check_bulk, text_frame, front, null_frame, parse_null, parse_bulk}

-- The run returned or failed.
pub data Calm {ℓ} {A : Type ℓ} : Outcome Error A → Type ℓ where
  returns : (a : A) → Calm (ok a)
  refuses : (e : Error) → Calm (err e)

module _ {ℓ κ} {A : Type ℓ} {B : Type κ} where
  pub Calm-bind :
      (m : Outcome Error A) {f : A → Outcome Error B}
      → Calm m
      → ((a : A) → m ≡ ok a → Calm (f a))
      → Calm (m >>= f)
  Calm-bind m (returns a) k = k a refl
  Calm-bind m (refuses e) k = refuses e

module _ {ℓ κ} {A : Type ℓ} {B : Type κ} {d : B} where
  -- Code that branches as the code that returned `d` does.
  pub Calm-if :
      (t : Bool) {r r' : Outcome Error B} {s s' : Outcome Error A}
      → (r ≡ ok d → Calm s)
      → (r' ≡ ok d → Calm s')
      → (if t then r else r') ≡ ok d
      → Calm (if t then s else s')
  Calm-if true h k e = h e
  Calm-if false h k e = k e

pub ok_eq {ℓ} : {A : Type ℓ} {a b : A} → ◌≡◌ {A = Outcome Error A} (ok a) (ok b) → a ≡ b
ok_eq e = cc

Calm-ok {ℓ} : {A : Type ℓ} {r : Outcome Error A} {a : A} → r ≡ ok a → Calm r
Calm-ok {a} e = rw e (returns a)

pub text_frame-Calm :
    (tag : Bytes → Frame) (line : Bytes) (c : Cursor) → Calm (text_frame tag line c)
text_frame-Calm tag line c = elim (Bool-cases (is_utf8 line)) [
  | inl text ↦ rw text (returns _)
  | inr broken ↦ rw broken (refuses _)
]

null_frame-Calm : (line : Bytes) (c : Cursor) → Calm (null_frame line c)
null_frame-Calm line c = elim (Bool-cases (line is codes "-1")) [
  | inl minus ↦ rw minus (returns _)
  | inr different ↦ rw different (refuses _)
]

module _ (x : Env) (checked : x.overflow_checks ≡ true) (c c' : Cursor) where
  pub line-Calm :
      (tag : Bytes → Frame)
      → (do (_, d) ← get_line c; ok d) ≡ ok c'
      → Calm (do (line, d) ← get_line c; text_frame tag line d)
  line-Calm tag h =
      let ((line, d), e, h') = >>=-eq-ok (get_line c) (λ (_, d). ok d) h in
      Calm-bind (get_line c) (Calm-ok e) λ (l, d') _. text_frame-Calm tag l d'

  pub number-Calm :
      (do (_, d) ← get_decimal x c; ok d) ≡ ok c'
      → Calm {A = Frame × Cursor} (do (n, d) ← get_decimal x c; ok (integer n, d))
  number-Calm h =
      let (r, e, h') = >>=-eq-ok (get_decimal x c) (λ (_, d). ok d) h in
      Calm-bind (get_decimal x c) (Calm-ok e) λ _ _. returns _

  add_usize-value : (a b total : ℕ) → add_usize x a b ≡ ok total → total ≡ a + b
  unfolding add_usize
  add_usize-value a b total h = ground arith

  pub get_line-Calm : 0 < length c.get_ref → Calm (get_line c)
  unfolding get_line
  get_line-Calm h =
      rw (not_empty (length c.get_ref) h)
        (go (find_crlf (length c.get_ref - 1 - c.position) c.position c.get_ref))
    where
      not_empty : (n : ℕ) → 0 < n → (n == 0) ≡ false
      not_empty n h = ground arith

      go :
          (o : Option ℕ)
          → Calm {A = Bytes × Cursor} (elim o [
            | none ↦ err incomplete
            | some i ↦
                ok (slice c.position i c.get_ref, record { get_ref = c.get_ref; position = i + 2 })
          ])
      go none = refuses _
      go (some i) = returns _

  pub parse_null-Calm : 0 < length c.get_ref → Calm (parse_null c)
  unfolding parse_null
  parse_null-Calm h = Calm-bind (get_line c) (get_line-Calm h) λ (l, d) _. null_frame-Calm l d

  chunk_fits :
      (n : ℕ) (d : Cursor) (total : ℕ)
      → total ≡ n + 2
      → total ≤ x.remaining d
      → n ≤ length (x.chunk d)
  chunk_fits n d total e h =
      omega (arith, x.remaining_lem d, ap length (x.chunk_lem d), length-drop d.position d.get_ref)

  pub parse_bulk-Calm : check_bulk x c ≡ ok c' → Calm (parse_bulk x c)
  unfolding check_bulk parse_bulk front
  parse_bulk-Calm h =
      let ((n, d), e, h') =
        >>=-eq-ok (get_decimal x c) (λ (n, d). do total ← add_usize x n 2; skip x d total) h in
      let (total, e', h'') = >>=-eq-ok (add_usize x n 2) (λ total. skip x d total) h' in
      rw (e, e')
        (elim (Bool-cases (ltb (x.remaining d) total)) [
          | inl short ↦ rw short (refuses _)
          | inr enough ↦
              rw
                (
                  enough,
                  le→ltb (length (x.chunk d)) n
                      (chunk_fits n d total (add_usize-value n 2 total e') (ltb→le _ _ enough)),
                  h'',
                )
                (returns _)
        ])

  -- A byte could be peeked at, so the buffer is not empty.
  pub dollar-Calm :
      (do p ← peek_u8 x c; if p == b'-' then skip x c 4 else check_bulk x c) ≡ ok c'
      → Calm (do p ← peek_u8 x c; if p == b'-' then parse_null c else parse_bulk x c)
  dollar-Calm h =
      let (p, e, h') =
        >>=-eq-ok (peek_u8 x c) (λ p. if p == b'-' then skip x c 4 else check_bulk x c) h in
      rw e (Calm-if (p == b'-') (λ _. parse_null-Calm (peeked p e)) parse_bulk-Calm h')
    where
      peeked : (p : ℕ) → peek_u8 x c ≡ ok p → 0 < length c.get_ref
      peeked p e = ground (arith, peek_u8_eq x c)

-- The calls for the elements of an array, with `k` the fuel that is left.
