-- ===== src/Frame/Reader/Plain.antt =====
-- The reads of redis-lib/src/frame.rs with the calls of the `bytes` crate replaced by what its laws
-- say of them, at any cursor.
use redis_demo.Base.{
  ℕ, zero, suc, ◌+◌, ◌-◌, ◌<◌, ◌≡◌, refl, ◌∙◌, ap, [], ◌∷◌, Bytes, ltb, if◌then◌else◌, length,
  get_or, drop, ok, err, Bool-cases, inl, inr, arith, ltb→lt, ltb→le,
}
use redis_demo.Env.{Env, Cursor}
use redis_demo.Frame.{incomplete}
use redis_demo.Frame.Reader.{peek_u8, get_u8, skip, first}

-- The cursor `n` bytes further on.
abbrev pub forward : Cursor → ℕ → Cursor
forward c n = record { get_ref = c.get_ref; position = c.position + n }

first-drop : (n : ℕ) (s : Bytes) → n < length s → first (drop n s) ≡ ok (get_or s n 0)
first-drop n [] h = absurd (omega arith)
first-drop zero (b ∷ s) h = refl
first-drop (suc n) (b ∷ s) h = first-drop n s (omega arith)

module _ (x : Env) (c : Cursor) where
  left_eq : x.has_remaining c ≡ ltb c.position (length c.get_ref)
  left_eq = x.has_remaining_lem c ∙ rw (x.remaining_lem c) (ground arith)

  left_pos : c.position < length c.get_ref → 0 < x.remaining c
  left_pos h = rw (x.remaining_lem c) (omega arith)

  pub get_u8_eq : get_u8 x c ≡ (
      if ltb c.position (length c.get_ref)
      then ok (get_or c.get_ref c.position 0, forward c 1)
      else err incomplete)
  unfolding get_u8
  get_u8_eq = elim (Bool-cases (ltb c.position (length c.get_ref))) [
    | inl more ↦ rw (left_eq, more) (ap ok (x.get_u8_lem c (left_pos (ltb→lt _ _ more))))
    | inr done ↦ rw (left_eq, done)
  ]

  pub peek_u8_eq : peek_u8 x c ≡ (
      if ltb c.position (length c.get_ref)
      then ok (get_or c.get_ref c.position 0)
      else err incomplete)
  unfolding peek_u8
  peek_u8_eq = elim (Bool-cases (ltb c.position (length c.get_ref))) [
    | inl more ↦ rw (left_eq, more, x.chunk_lem c) (first-drop _ _ (ltb→lt _ _ more))
    | inr done ↦ rw (left_eq, done)
  ]

  pub skip_eq :
      (n : ℕ)
      → skip x c n
        ≡ (if ltb (length c.get_ref - c.position) n then err incomplete else ok (forward c n))
  unfolding skip
  skip_eq n = elim (Bool-cases (ltb (length c.get_ref - c.position) n)) [
    | inl short ↦ rw (x.remaining_lem c, short)
    | inr enough ↦
        rw (x.remaining_lem c, enough)
          (ap ok (x.advance_lem c n (rw (x.remaining_lem c) (ltb→le _ _ enough))))
  ]
