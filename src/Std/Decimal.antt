-- ===== src/Std/Decimal.antt =====
-- `write!(buf, "{}", n)` of a `u64`: its decimal digits, at most twenty of them.
use native.Mathlib.Nat.{pow-suc}
use mathlib.Core.List.{concat-ne-nil}
use redis_demo.Base.{
  ℕ, zero, suc, ◌+◌, ◌-◌, ◌*◌, ◌/◌, ◌%◌, ◌^◌, ◌≤◌, ◌<◌, ◌≡◌, refl, ◌≢◌, ◌∙◌, [], ◌∷◌, ◌++◌, arith,
  Bytes, ltb, if◌then◌else◌, length, length-append, All, All-append, Bool-cases, inl, inr, ltb→lt,
}

-- The digits of `n`, at most `k` of them.
unfoldable pub digits : ℕ → ℕ → Bytes
digits zero n = []
digits (suc k) n =
    let front = digits k (n / 10) in if ltb n 10 then (48 + n) ∷ [] else front ++ (48 + n % 10) ∷ []

-- Twenty digits are enough below 2 ^ 64.
unfoldable pub to_decimal : ℕ → Bytes
unfolding digits
to_decimal n = digits 20 n

abbrev pub IsDigit : ℕ → Type 0
IsDigit c = (48 ≤ c) × (c ≤ 57)

-- The number that digits spell.
abbrev pub value : ℕ → Bytes → ℕ
value a [] = a
value a (c ∷ s) = value (a * 10 + (c - 48)) s

pub value-append : (a : ℕ) (s t : Bytes) → value a (s ++ t) ≡ value (value a s) t
value-append a [] t = refl
value-append a (c ∷ s) t = value-append (a * 10 + (c - 48)) s t

pow_step : (k n : ℕ) → n < 10 ^ suc k → n / 10 < 10 ^ k
pow_step k n h = omega (arith, pow-suc 10 k)

value-digits : (k n : ℕ) → n < 10 ^ k → value 0 (digits k n) ≡ n
unfolding digits
value-digits zero n h = omega arith
value-digits (suc k) n h = elim (Bool-cases (ltb n 10)) [
  | inl small ↦ rw small (omega arith)
  | inr big ↦ rw big (
      value-append 0 (digits k (n / 10)) ((48 + n % 10) ∷ [])
      ∙ rw (value-digits k (n / 10) (pow_step k n h)) (omega arith))
]

digits-digits : (k n : ℕ) → All IsDigit (digits k n)
unfolding digits
digits-digits zero n = tt
digits-digits (suc k) n = elim (Bool-cases (ltb n 10)) [
  | inl small ↦ rw small (omega (arith, ltb→lt n 10))
  | inr big ↦ rw big (All-append IsDigit _ _ (digits-digits k (n / 10)) (omega arith))
]

digits-ne-nil : (k n : ℕ) → digits (suc k) n ≢ []
unfolding digits
digits-ne-nil k n = elim (Bool-cases (ltb n 10)) [
  | inl small ↦ rw small cc
  | inr big ↦ rw big (concat-ne-nil (48 + n % 10) (digits k (n / 10)))
]

length-digits : (k n : ℕ) → length (digits k n) ≤ k
unfolding digits
length-digits zero n = omega arith
length-digits (suc k) n = elim (Bool-cases (ltb n 10)) [
  | inl small ↦ rw small (omega arith)
  | inr big ↦ rw big (
      rw (length-append (digits k (n / 10)) ((48 + n % 10) ∷ []))
        (omega (arith, length-digits k (n / 10))))
]

module _ (n : ℕ) where
  pub value-to_decimal : n < 2 ^ 64 → value 0 (to_decimal n) ≡ n
  unfolding to_decimal
  value-to_decimal h = value-digits 20 n (omega arith)

  pub to_decimal-digits : All IsDigit (to_decimal n)
  unfolding to_decimal
  to_decimal-digits = digits-digits 20 n

  pub to_decimal-ne-nil : to_decimal n ≢ []
  unfolding to_decimal
  to_decimal-ne-nil = digits-ne-nil 19 n

  pub length-to_decimal : length (to_decimal n) ≤ 20
  unfolding to_decimal
  length-to_decimal = length-digits 20 n
