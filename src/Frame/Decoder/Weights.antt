-- ===== src/Frame/Decoder/Weights.antt =====
-- The bytes that `Frame::parse` (redis-lib/src/frame.rs) reads for a frame that is no array.
use redis_demo.Base.{
  ℕ, ◌+◌, ◌^◌, ◌≤◌, ◌<◌, ◌≡◌, ap, subst, true, Bytes, ltb, length, length-take, length-drop, take,
  Outcome, ok, ◌>>=◌, >>=-eq-ok, Bool-cases, inl, inr, ◌is◌, codes, arith,
}
use redis_demo.Std.Utf8.{is_utf8}
use redis_demo.Env.{Env, Cursor}
use redis_demo.Frame.{
  Frame, Frames, Error, simple, error, integer, bulk, null, array, nil, cons, len,
}
use redis_demo.Frame.Reader.{get_line, add_usize, skip, get_decimal}
use redis_demo.Frame.Reader.Position.{skip-position, get_decimal-line, get_line-IsAfterLine}
use redis_demo.Frame.Decoder.{text_frame, front, null_frame, parse_null, parse_bulk}

-- The bytes that the wire form of a frame takes at least.
abbrev mutual
  pub weight : Frame → ℕ
  weight (simple s) = length s + 3
  weight (error s) = length s + 3
  weight (integer n) = 3
  weight (bulk s) = length s + 5
  weight null = 3
  weight (array fs) = weights fs + 3

  pub weights : Frames → ℕ
  weights nil = 0
  weights (cons f fs) = weight f + weights fs

-- The frame holds values of its Rust types: `String`, `u64` and, for a length, `usize`.
abbrev mutual
  pub IsTyped : Frame → Type 0
  IsTyped (simple s) = is_utf8 s ≡ true
  IsTyped (error s) = is_utf8 s ≡ true
  IsTyped (integer n) = n < 2 ^ 64
  IsTyped (bulk s) = length s < 2 ^ 64
  IsTyped null = Unit {0}
  IsTyped (array fs) = (len fs < 2 ^ 64) × AreTyped fs

  pub AreTyped : Frames → Type 0
  AreTyped nil = Unit {0}
  AreTyped (cons f fs) = IsTyped f × AreTyped fs

-- The frame is typed and no heavier than the bytes between the cursors, and `n` bytes before.
abbrev pub Weighs : ℕ → Frame → Cursor → Cursor → Type 0
Weighs n f c c' = IsTyped f × (weight f + c.position ≤ c'.position + n)

pub line_moves :
    (c : Cursor) (line : Bytes) (c' : Cursor)
    → get_line c ≡ ok (line, c')
    → (c'.position ≡ c.position + (length line + 2))
      × (c'.get_ref ≡ c.get_ref)
      × (c'.position ≤ length c.get_ref)
line_moves c line c' h =
    let after = get_line-IsAfterLine c line c' h in
    let w = after.within in
    (
      ap (λ (d : Cursor). d.position) after.moved,
      ap (λ (d : Cursor). d.get_ref) after.moved,
      omega (arith, ap (λ (d : Cursor). d.position) after.moved),
    )

add_usize_small :
    (x : Env) (n total : ℕ) → n + 2 < 2 ^ 64 → add_usize x n 2 ≡ ok total → total ≡ n + 2
unfolding add_usize
add_usize_small x n total h e = ground arith

front_value : (n : ℕ) (s b : Bytes) → front n s ≡ ok b → (b ≡ take n s) × (n ≤ length s)
unfolding front
front_value n s b h = ground arith

module _ (x : Env) (c : Cursor) (f : Frame) (c' : Cursor) where
  pub returned-Weighs :
      (g : Frame) (d : Cursor)
      → IsTyped g
      → weight g + c.position ≤ d.position + 1
      → ◌≡◌ {A = Outcome Error (Frame × Cursor)} (ok (g, d)) (ok (f, c'))
      → Weighs 1 f c c'
  returned-Weighs g d typed w h =
      subst (λ (q : Frame × Cursor). Weighs 1 q.0 c q.1) {x = (g, d)} {y = (f, c')} (cc) (typed, w)

  pub line-Weighs :
      (tag : Bytes → Frame)
      → ((s : Bytes) → is_utf8 s ≡ true → IsTyped (tag s))
      → ((s : Bytes) → weight (tag s) ≡ length s + 3)
      → (do (line, d) ← get_line c; text_frame tag line d) ≡ ok (f, c')
      → Weighs 1 f c c'
  line-Weighs tag typed heavy h =
      let ((line, d), e, h') = >>=-eq-ok (get_line c) (λ (line, d). text_frame tag line d) h in
      let (moved, same, inside) = line_moves c line d e in
      elim (Bool-cases (is_utf8 line)) [
        | inl text ↦
            returned-Weighs (tag line) d (typed line text) (omega (arith, heavy line))
              (rw text at h')
        | inr broken ↦ cc (rw broken at h')
      ]

  pub number-Weighs :
      ◌≡◌ {A = Outcome Error (Frame × Cursor)}
        (do (n, d) ← get_decimal x c; ok (integer n, d))
        (ok (f, c'))
      → Weighs 1 f c c'
  number-Weighs h =
      let ((n, d), e, h') = >>=-eq-ok (get_decimal x c) (λ (n, d). ok (integer n, d)) h in
      let (line, on_line, value) = get_decimal-line x c n d e in
      let (moved, same, inside) = line_moves c line d on_line in
      returned-Weighs (integer n) d (x.atoi_lt line n value) (omega arith) h'

  pub null-Weighs : parse_null c ≡ ok (f, c') → Weighs 1 f c c'
  unfolding parse_null
  null-Weighs h =
      let ((line, d), e, h') = >>=-eq-ok (get_line c) (λ (line, d). null_frame line d) h in
      let (moved, same, inside) = line_moves c line d e in
      elim (Bool-cases (line is codes "-1")) [
        | inl minus ↦ returned-Weighs null d tt (omega arith) (rw minus at h')
        | inr different ↦ cc (rw different at h')
      ]

  pub bulk-Weighs : length c.get_ref < 2 ^ 63 → parse_bulk x c ≡ ok (f, c') → Weighs 1 f c c'
  unfolding parse_bulk
  bulk-Weighs small h =
      let ((n, d), e, h') = >>=-eq-ok (get_decimal x c) _ h in
      let (line, on_line, value) = get_decimal-line x c n d e in
      let (moved, same, inside) = line_moves c line d on_line in
      let (total, e', h'') = >>=-eq-ok (add_usize x n 2) _ h' in
      elim (Bool-cases (ltb (x.remaining d) total)) [
        | inl short ↦ cc (rw short at h'')
        | inr enough ↦
            let (bytes, e₁, h₁) = >>=-eq-ok (front n (x.chunk d)) _ (rw enough at h'') in
            let (d', e₂, h₂) = >>=-eq-ok (skip x d total) (λ d'. ok (bulk bytes, d')) h₁ in
            let (content, fits) = front_value n (x.chunk d) bytes e₁ in
            let (further, room) = skip-position x d total d' e₂ in
            let whole : n + 2 < 2 ^ 64 = omega (
              arith,
              ap length (x.chunk_lem d),
              length-drop d.position d.get_ref,
              ap length same,
            ) in
            let sum = add_usize_small x n total whole e' in
            let size : length bytes ≡ n =
              omega (arith, ap length content, length-take n (x.chunk d)) in
            returned-Weighs (bulk bytes) d' (small_size n bytes size (x.atoi_lt line n value))
              (heavy line n total bytes d d' size sum moved
                (ap (λ (c : Cursor). c.position) further))
              h₂
      ]
    where
      small_size : (n : ℕ) (bytes : Bytes) → length bytes ≡ n → n < 2 ^ 64 → length bytes < 2 ^ 64
      small_size n bytes e h = omega arith

      heavy :
          (line : Bytes) (n total : ℕ) (bytes : Bytes) (d d' : Cursor)
          → length bytes ≡ n
          → total ≡ n + 2
          → d.position ≡ c.position + (length line + 2)
          → d'.position ≡ d.position + total
          → (length bytes + 5) + c.position ≤ d'.position + 1
      heavy line n total bytes d d' e t m k = omega arith

-- The calls for the elements of an array, with `k` the fuel that is left.
