-- ===== src/Std/Utf8.antt =====
-- `std::str::from_utf8`, `String::from_utf8`: the well-formed byte sequences of UTF-8. A state is
-- how many continuation bytes are due and the range of the next one.
use redis_demo.Base.{
  ℕ, zero, suc, ◌<◌, ◌≡◌, Bool, true, false, Option, none, some, [], ◌∷◌, ◌++◌, arith, Bytes, leb,
  ltb, ◌==◌, ◌&&◌, if◌then◌else◌, All,
}

pub record Utf8State : Type 0 where
  pub pending : ℕ
  pub lo : ℕ
  pub hi : ℕ

abbrev pub boundary : Utf8State
boundary = record { pending = 0; lo = 0x80; hi = 0xBF }

abbrev due : ℕ → ℕ → ℕ → Option Utf8State
due n l h = some (record { pending = n; lo = l; hi = h })

utf8_lead : ℕ → Option Utf8State
utf8_lead c =
    if ltb c 0x80
    then some boundary
    else if ltb c 0xC2
    then none
    else if ltb c 0xE0
    then due 1 0x80 0xBF
    else if c == 0xE0
    then due 2 0xA0 0xBF
    else if c == 0xED
    then due 2 0x80 0x9F
    else if ltb c 0xF0
    then due 2 0x80 0xBF
    else if c == 0xF0
    then due 3 0x90 0xBF
    else if ltb c 0xF4
    then due 3 0x80 0xBF
    else if c == 0xF4
    then due 3 0x80 0x8F
    else none

utf8_step : ℕ → Utf8State → ℕ → Option Utf8State
unfolding utf8_lead
utf8_step zero s c = utf8_lead c
utf8_step (suc n) s c = if leb s.lo c && leb c s.hi then due n 0x80 0xBF else none

utf8_run : Utf8State → Bytes → Bool
unfolding utf8_step
utf8_run s [] = s.pending == 0
utf8_run s (c ∷ cs) = elim (utf8_step s.pending s c) [ none ↦ false | some s' ↦ utf8_run s' cs ]

unfoldable pub is_utf8 : Bytes → Bool
unfolding utf8_run
is_utf8 s = utf8_run boundary s

abbrev pub IsAscii : Bytes → Type 0
IsAscii = All (λ c. c < 128)

utf8_lead-ascii : (c : ℕ) → c < 128 → utf8_lead c ≡ some boundary
unfolding utf8_lead
utf8_lead-ascii c h = ground arith

-- An ASCII text is UTF-8, whatever UTF-8 follows it.
pub is_utf8-ascii_append : (s t : Bytes) → IsAscii s → is_utf8 t ≡ true → is_utf8 (s ++ t) ≡ true
unfolding is_utf8
is_utf8-ascii_append [] t h ht = ht
is_utf8-ascii_append (c ∷ s) t h ht =
    rw (utf8_lead-ascii c h.0, utf8_run, utf8_step) (is_utf8-ascii_append s t h.1 ht)
