-- ===== src/Cli/Durations.antt =====
-- `duration_from` (redis-bin/src/bin/cli.rs) reads a number of milliseconds.
use redis_demo.Base.{
  ℕ, ◌+◌, ◌-◌, ◌*◌, ◌^◌, ◌≤◌, ◌<◌, ◌≡◌, ◌≢◌, refl, sym, ◌∙◌, ap, Bool-cases, inl, inr, true, false,
  Bytes, [], ◌∷◌, All, ltb, leb, ◌&&◌, ◌==◌, if◌then◌else◌, Outcome, ok, err, panic, out_of_fuel,
  ◌>>=◌, arith, lt→ltb, le→ltb, ltb→lt, ltb→le,
}
use redis_demo.Std.Decimal.{value, IsDigit}
use redis_demo.Command.{from_millis}
use redis_demo.Cli.{ParseIntError, pos_overflow, within, parse_digits, parse_u64, duration_from}

value_le : (a : ℕ) (s : Bytes) → a ≤ value a s
value_le a [] = omega arith
value_le a (c ∷ s) = omega (arith, value_le (a * 10 + (c - 48)) s)

within_small : (n : ℕ) → n < 2 ^ 64 → within n ≡ ok n
within_small n small = rw (lt→ltb n (2 ^ 64) small) refl

within_big : (n : ℕ) → 2 ^ 64 ≤ n → within n ≡ err pos_overflow
within_big n big = rw (le→ltb n (2 ^ 64) big) refl

is_digit : (c : ℕ) → IsDigit c → (leb 48 c && leb c 57) ≡ true
is_digit c (low, high) = ground arith

is_no_plus : (c : ℕ) → IsDigit c → (c == 43) ≡ false
is_no_plus c (low, high) = ground arith

add_digit :
    (a c : ℕ) → (do mul ← within (a * 10); within (mul + (c - 48))) ≡ within (a * 10 + (c - 48))
add_digit a c = elim (Bool-cases (ltb (a * 10) (2 ^ 64))) [
  | inl small ↦ rw (within_small (a * 10) (ltb→lt (a * 10) (2 ^ 64) small)) refl
  | inr big ↦
      let le = ltb→le (a * 10) (2 ^ 64) big in
      rw (within_big (a * 10) le, within_big (a * 10 + (c - 48)) (omega (arith, le))) refl
]

bind_assoc :
    (m : Outcome ParseIntError ℕ) (f g : ℕ → Outcome ParseIntError ℕ)
    → (m >>= (λ a. f a >>= g)) ≡ ((m >>= f) >>= g)
bind_assoc (ok a) f g = refl
bind_assoc (err e) f g = refl
bind_assoc panic f g = refl
bind_assoc out_of_fuel f g = refl

parse_digits_next :
    (a c : ℕ) (s : Bytes)
    → IsDigit c
    → parse_digits a (c ∷ s) ≡ (do sum ← within (a * 10 + (c - 48)); parse_digits sum s)
unfolding parse_digits
parse_digits_next a c s digit = rw (is_digit c digit) (
    bind_assoc (within (a * 10)) (λ mul. within (mul + (c - 48))) (λ sum. parse_digits sum s)
    ∙ ap (λ m. m >>= (λ sum. parse_digits sum s)) (add_digit a c))

parse_digits-within :
    (a : ℕ) (s : Bytes) → a < 2 ^ 64 → All IsDigit s → parse_digits a s ≡ within (value a s)
unfolding parse_digits
parse_digits-within a [] small digits = sym (within_small a small)
parse_digits-within a (c ∷ s) small (digit, digits) =
    elim (Bool-cases (ltb (a * 10 + (c - 48)) (2 ^ 64))) [
      | inl less ↦
          let lt = ltb→lt (a * 10 + (c - 48)) (2 ^ 64) less in
          parse_digits_next a c s digit
          ∙ ap (λ m. m >>= (λ sum. parse_digits sum s)) (within_small (a * 10 + (c - 48)) lt)
          ∙ parse_digits-within (a * 10 + (c - 48)) s lt digits
      | inr more ↦
          let le = ltb→le (a * 10 + (c - 48)) (2 ^ 64) more in
          parse_digits_next a c s digit
          ∙ ap (λ m. m >>= (λ sum. parse_digits sum s)) (within_big (a * 10 + (c - 48)) le)
          ∙ sym (
              within_big (value (a * 10 + (c - 48)) s)
                (omega (arith, le, value_le (a * 10 + (c - 48)) s)))
    ]

parse_u64-within : (s : Bytes) → s ≢ [] → All IsDigit s → parse_u64 s ≡ within (value 0 s)
unfolding parse_u64
parse_u64-within [] some_digit digits = absurd (some_digit refl)
parse_u64-within (c ∷ []) some_digit digits =
    rw (is_no_plus c digits.0) (parse_digits-within 0 (c ∷ []) (omega arith) digits)
parse_u64-within (c ∷ (d ∷ s)) some_digit digits =
    rw (is_no_plus c digits.0) (parse_digits-within 0 (c ∷ (d ∷ s)) (omega arith) digits)

in_millis :
    (n : ℕ)
    → (do ms ← within n; ok (from_millis ms))
      ≡ (if ltb n (2 ^ 64) then ok (from_millis n) else err pos_overflow)
in_millis n = elim (Bool-cases (ltb n (2 ^ 64))) [
  | inl small ↦ rw small refl
  | inr big ↦ rw big refl
]

-- Digits, at least one, are read as the number that they spell, in milliseconds; if it does not fit
-- into 64 bits, the error is the overflow.
pub duration_from-digits :
    (s : Bytes)
    → s ≢ []
    → All IsDigit s
    → duration_from s
      ≡ (if ltb (value 0 s) (2 ^ 64) then ok (from_millis (value 0 s)) else err pos_overflow)
unfolding duration_from
duration_from-digits s some_digit digits =
    ap (λ m. m >>= (λ ms. ok (from_millis ms))) (parse_u64-within s some_digit digits)
    ∙ in_millis (value 0 s)
