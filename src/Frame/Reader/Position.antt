-- ===== src/Frame/Reader/Position.antt =====
-- How far the reads of redis-lib/src/frame.rs move the cursor: never past the end, and `get_line`
-- by its line and "\r\n".
use redis_demo.Base.{
  ℕ, zero, suc, ◌+◌, ◌-◌, ◌≤◌, ◌<◌, ◌≡◌, refl, sym, ◌∙◌, ap, Bytes, ltb, length, drop, ok, none,
  some, Option, Bool-cases, inl, inr, arith, ltb→lt, length-take, length-drop, >>=-eq-ok,
  ok-pair_eq,
}
use redis_demo.Env.{Env, Cursor}
use redis_demo.Frame.Reader.{find_crlf, slice, get_line, get_u8, skip, get_decimal, number}
use redis_demo.Frame.Reader.At.{get_line_found}
use redis_demo.Frame.Reader.Plain.{forward, get_u8_eq, skip_eq}

pub find_crlf_bounds :
    (k i : ℕ) (s : Bytes) (j : ℕ) → find_crlf k i s ≡ some j → (i ≤ j) × (j < i + k)
unfolding find_crlf
find_crlf_bounds zero i s j h = cc
find_crlf_bounds (suc k) i s j h = ground (arith, find_crlf_bounds k (suc i) s j)

length-slice : (a b : ℕ) (s : Bytes) → b ≤ length s → length (slice a b s) ≡ b - a
length-slice a b s h = omega (arith, length-take (b - a) (drop a s), length-drop a s)

-- What a line that was read says of the cursor.
pub record IsAfterLine (c : Cursor) (line : Bytes) (c' : Cursor) : Type 0 where
  pub moved : c' ≡ forward c (length line + 2)
  pub within : c.position + (length line + 2) ≤ length c.get_ref

get_line-cases :
    (c : Cursor) (o : Option ℕ) (line : Bytes) (c' : Cursor)
    → find_crlf (length c.get_ref - 1 - c.position) c.position c.get_ref ≡ o
    → get_line c ≡ ok (line, c')
    → IsAfterLine c line c'
unfolding get_line
get_line-cases c none line c' e h = ground arith
get_line-cases c (some i) line c' e h =
    let inside = find_crlf_bounds _ c.position c.get_ref i e in
    let (on_line, behind) = ok-pair_eq (sym (get_line_found c i (omega arith) e) ∙ h) in
    let size = sym (ap length on_line) ∙ length-slice c.position i c.get_ref (omega arith) in
    record {
      moved = sym behind ∙ (λ j. record {
        get_ref = c.get_ref;
        position = advanced (length line) size inside.0 j;
      });
      within = omega arith;
    }
  where
    advanced : (n : ℕ) → n ≡ i - c.position → c.position ≤ i → i + 2 ≡ c.position + (n + 2)
    advanced n e h = omega arith

pub get_line-IsAfterLine :
    (c : Cursor) (line : Bytes) (c' : Cursor) → get_line c ≡ ok (line, c') → IsAfterLine c line c'
get_line-IsAfterLine c line c' h = get_line-cases c _ line c' refl h

module _ (x : Env) (c : Cursor) where
  pub get_u8-position :
      (b : ℕ) (c' : Cursor)
      → get_u8 x c ≡ ok (b, c')
      → (c' ≡ forward c 1) × (c.position < length c.get_ref)
  get_u8-position b c' h = elim (Bool-cases (ltb c.position (length c.get_ref))) [
    | inl more ↦ (sym (ok-pair_eq (sym (rw more at (get_u8_eq x c)) ∙ h)).1, ltb→lt _ _ more)
    | inr done ↦ ground (arith, get_u8_eq x c)
  ]

  pub skip-position :
      (n : ℕ) (c' : Cursor)
      → skip x c n ≡ ok c'
      → (c' ≡ forward c n) × (n ≤ length c.get_ref - c.position)
  skip-position n c' h = ground (arith, skip_eq x c n)

  -- A number is read off a line.
  pub get_decimal-line :
      (n : ℕ) (c' : Cursor)
      → get_decimal x c ≡ ok (n, c')
      → (line : Bytes) × (get_line c ≡ ok (line, c')) × (x.atoi line ≡ some n)
  unfolding get_decimal
  get_decimal-line n c' h =
      let ((line, c''), e, e') = >>=-eq-ok (get_line c) (λ (l, d). number x (x.atoi l) d) h in
      (line, e ∙ ap (λ d. ok (line, d)) (ground arith), ground arith)
