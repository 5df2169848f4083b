-- ===== src/Frame/Reader/At.antt =====
-- The reads of redis-lib/src/frame.rs at a cursor that stands between a known front and a known
-- rest: each reads the item that is written there, and stands behind it.
use redis_demo.Base.{
  ℕ, zero, suc, ◌+◌, ◌-◌, ◌^◌, ◌<◌, ◌≡◌, sym, ◌∙◌, ap, [], ◌∷◌, ◌++◌, Bytes, ◌==◌, ◌&&◌, length,
  drop, take, ok, err, none, some, false, arith, lt→ltb, le→ltb, length-append, append_assoc,
  get_or-length, get_or-drop, drop-suc, All, drop-append_self, take-append_self,
}
use redis_demo.Std.Decimal.{
  to_decimal, IsDigit, value-to_decimal, to_decimal-digits, to_decimal-ne-nil,
}
use redis_demo.Env.{Env, Cursor}
use redis_demo.Frame.{incomplete}
use redis_demo.Frame.Reader.{cr, lf, find_crlf, slice, get_line, peek_u8, get_u8, skip, get_decimal}
use redis_demo.Frame.Reader.Plain.{forward, get_u8_eq, peek_u8_eq, skip_eq}

-- The cursor over `pre ++ tail` that stands at `tail`.
abbrev pub at : Bytes → Bytes → Cursor
at pre tail = record { get_ref = pre ++ tail; position = length pre }

abbrev pub crlf : Bytes
crlf = cr ∷ lf ∷ []

-- No "\r\n" stands in the text.
abbrev pub NoCrlf : Bytes → Type 0
NoCrlf [] = Unit
NoCrlf (a ∷ []) = Unit
NoCrlf (a ∷ b ∷ s) = ((a == cr && b == lf) ≡ false) × NoCrlf (b ∷ s)

pub digits-NoCrlf : (s : Bytes) → All IsDigit s → NoCrlf s
digits-NoCrlf [] h = tt
digits-NoCrlf (a ∷ []) h = tt
digits-NoCrlf (a ∷ b ∷ s) h = (ground (arith, h.0), digits-NoCrlf (b ∷ s) h.1)

module _ (pre tail : Bytes) where
  at_step : (u : Bytes) → forward (at pre (u ++ tail)) (length u) ≡ at (pre ++ u) tail
  at_step u = λ i. record {
    get_ref = sym (append_assoc pre u tail) i;
    position = sym (length-append pre u) i;
  }

  pub get_u8-at : (x : Env) (b : ℕ) → get_u8 x (at pre (b ∷ tail)) ≡ ok (b, at (pre ++ b ∷ []) tail)
  get_u8-at x b =
      get_u8_eq x (at pre (b ∷ tail))
      ∙ rw
          (
            lt→ltb (length pre) (length (pre ++ b ∷ tail))
                (omega (arith, length-append pre (b ∷ tail))),
            get_or-length pre b tail 0,
          )
          (ap (λ c. ok (b, c)) (at_step (b ∷ [])))

  pub peek_u8-at : (x : Env) (b : ℕ) → peek_u8 x (at pre (b ∷ tail)) ≡ ok b
  peek_u8-at x b =
      peek_u8_eq x (at pre (b ∷ tail))
      ∙ rw (
        lt→ltb (length pre) (length (pre ++ b ∷ tail))
            (omega (arith, length-append pre (b ∷ tail))),
        get_or-length pre b tail 0,
      )

  pub skip-at :
      (x : Env) (u : Bytes) → skip x (at pre (u ++ tail)) (length u) ≡ ok (at (pre ++ u) tail)
  skip-at x u =
      skip_eq x (at pre (u ++ tail)) (length u)
      ∙ rw
          (le→ltb (length (pre ++ (u ++ tail)) - length pre) (length u)
            (omega (arith, length-append pre (u ++ tail), length-append u tail)))
          (ap ok (at_step u))

-- The first "\r\n" behind a text without one.
find_crlf_behind :
    (line t : Bytes) (k i : ℕ) (s : Bytes)
    → drop i s ≡ line ++ cr ∷ lf ∷ t
    → NoCrlf line
    → length line < k
    → find_crlf k i s ≡ some (i + length line)
unfolding find_crlf
find_crlf_behind line t zero i s e h lt = absurd (omega arith)
find_crlf_behind [] t (suc k) i s e h lt =
    rw (get_or-drop i s 0, get_or-drop (suc i) s 0, drop-suc i s, e) (ap some (omega arith))
find_crlf_behind (a ∷ []) t (suc k) i s e h lt =
    rw (get_or-drop i s 0, get_or-drop (suc i) s 0, drop-suc i s, e)
      (ground
        (arith, find_crlf_behind [] t k (suc i) s (drop-suc i s ∙ ap (drop 1) e) tt (omega arith)))
find_crlf_behind (a ∷ b ∷ line) t (suc k) i s e h lt =
    rw (get_or-drop i s 0, get_or-drop (suc i) s 0, drop-suc i s, e, h.0)
      (find_crlf_behind (b ∷ line) t k (suc i) s (drop-suc i s ∙ ap (drop 1) e) h.1 (omega arith)
        ∙ ap some (omega arith))

ne_zero : (n : ℕ) → 0 < n → (n == 0) ≡ false
ne_zero n h = ground arith

pub get_line_missing :
    (c : Cursor)
    → 0 < length c.get_ref
    → find_crlf (length c.get_ref - 1 - c.position) c.position c.get_ref ≡ none
    → get_line c ≡ err incomplete
unfolding get_line
get_line_missing c h e = rw (ne_zero (length c.get_ref) h, e)

pub get_line_found :
    (c : Cursor) (i : ℕ)
    → 0 < length c.get_ref
    → find_crlf (length c.get_ref - 1 - c.position) c.position c.get_ref ≡ some i
    → get_line c
      ≡ ok (slice c.position i c.get_ref, record { get_ref = c.get_ref; position = i + 2 })
unfolding get_line
get_line_found c i h e = rw (ne_zero (length c.get_ref) h, e)

module _ (pre line tail : Bytes) where
  line_length :
      length (pre ++ (line ++ cr ∷ lf ∷ tail)) ≡ length pre + length line + 2 + length tail
  line_length =
      omega (arith, length-append pre (line ++ cr ∷ lf ∷ tail), length-append line (cr ∷ lf ∷ tail))

  line_slice :
      slice (length pre) (length pre + length line) (pre ++ (line ++ cr ∷ lf ∷ tail)) ≡ line
  line_slice = rw (drop-append_self pre (line ++ cr ∷ lf ∷ tail)) (
      ap (λ n. take n (line ++ cr ∷ lf ∷ tail)) (omega arith)
      ∙ take-append_self line (cr ∷ lf ∷ tail))

  line_cursor :
      ◌≡◌ {A = Cursor}
        (record {
          get_ref = pre ++ (line ++ cr ∷ lf ∷ tail);
          position = length pre + length line + 2;
        })
        (at (pre ++ (line ++ crlf)) tail)
  line_cursor = λ i. record { get_ref = same i; position = place i }
    where
      same : pre ++ (line ++ cr ∷ lf ∷ tail) ≡ (pre ++ (line ++ crlf)) ++ tail
      same = simp append_assoc

      place : length pre + length line + 2 ≡ length (pre ++ (line ++ crlf))
      place = omega (arith, length-append pre (line ++ crlf), length-append line crlf)

  pub get_line-at :
      NoCrlf line
      → get_line (at pre (line ++ cr ∷ lf ∷ tail)) ≡ ok (line, at (pre ++ (line ++ crlf)) tail)
  get_line-at h =
      get_line_found (at pre (line ++ cr ∷ lf ∷ tail)) (length pre + length line)
        (omega (arith, line_length))
        (find_crlf_behind line tail _ (length pre) _ (drop-append_self pre (line ++ cr ∷ lf ∷ tail))
          h (omega (arith, line_length)))
      ∙ λ i. ok (line_slice i, line_cursor i)

-- The decimal print of a `u64` on a line is read back.
pub get_decimal-at :
    (x : Env) (pre tail : Bytes) (n : ℕ)
    → n < 2 ^ 64
    → get_decimal x (at pre (to_decimal n ++ cr ∷ lf ∷ tail))
      ≡ ok (n, at (pre ++ (to_decimal n ++ crlf)) tail)
unfolding get_decimal
get_decimal-at x pre tail n h = rw (
  get_line-at pre (to_decimal n) tail (digits-NoCrlf _ (to_decimal-digits n)),
  x.atoi_digits (to_decimal n) (to_decimal-ne-nil n) (to_decimal-digits n)
      (rw (value-to_decimal n h) h),
  value-to_decimal n h,
)
