-- ===== src/Examples/World.antt =====
-- Concrete functions for the code outside the repository.
use redis_demo.Base.{
  some_eq, codes, ℕ, ◌+◌, ◌-◌, ◌^◌, ◌<◌, ◌≡◌, ◌≢◌, refl, true, ◌&&◌, Bytes, [], ◌∷◌, ◌++◌, Option,
  none, some, map, leb, ltb, length, get_or, drop, All, lower, upper, if◌then◌else◌, arith, ap,
  subst, ◌∙◌,
}
use redis_demo.Std.Decimal.{IsDigit, value}
use redis_demo.Env.{Env}
use redis_demo.Db.{Broadcast}
use redis_demo.Connection.{Stream, Connection}

-- The digits at the front of a text.
unfoldable pub digits_of : Bytes → Bytes
digits_of [] = []
digits_of (c ∷ s) = let rest = digits_of s in if leb 48 c && leb c 57 then c ∷ rest else []

digits_of-All : (s : Bytes) → All IsDigit s → digits_of s ≡ s
unfolding digits_of
digits_of-All [] h = refl
digits_of-All (c ∷ s) h = ground (arith, digits_of-All s)

abbrev in_64 : ℕ → Option ℕ
in_64 n = if ltb n (2 ^ 64) then some n else none

abbrev number_of : Bytes → Option ℕ
number_of [] = none
number_of (c ∷ s) = in_64 (value 0 (c ∷ s))

unfoldable pub atoi : Bytes → Option ℕ
unfolding digits_of
atoi s = number_of (digits_of s)

in_64_lt : (m n : ℕ) → in_64 m ≡ some n → n < 2 ^ 64
in_64_lt m n h = ground arith

number_of_lt : (s : Bytes) (n : ℕ) → number_of s ≡ some n → n < 2 ^ 64
number_of_lt [] n h = cc
number_of_lt (c ∷ s) n h = in_64_lt _ n h

pub atoi_lt : (s : Bytes) (n : ℕ) → atoi s ≡ some n → n < 2 ^ 64
unfolding atoi
atoi_lt s n h = number_of_lt (digits_of s) n h

in_64_small : (n : ℕ) → n < 2 ^ 64 → in_64 n ≡ some n
in_64_small n h = ground arith

number_of_digits : (s : Bytes) → s ≢ [] → value 0 s < 2 ^ 64 → number_of s ≡ some (value 0 s)
number_of_digits [] ne lt = absurd (ne refl)
number_of_digits (c ∷ s) ne lt = in_64_small _ lt

pub atoi_digits :
    (s : Bytes) → s ≢ [] → All IsDigit s → value 0 s < 2 ^ 64 → atoi s ≡ some (value 0 s)
unfolding atoi
atoi_digits s ne ds lt = ap number_of (digits_of-All s ds) ∙ number_of_digits s ne lt

-- A debug build with arrays of at most a thousand elements.
abbrev pub env : Env
env = record {
  overflow_checks = true;
  max_capacity = 1000;
  atoi = atoi;
  atoi_lt = atoi_lt;
  atoi_digits = atoi_digits;
  remaining = λ c. length c.get_ref - c.position;
  remaining_lem = λ c. refl;
  has_remaining = λ c. ltb 0 (length c.get_ref - c.position);
  has_remaining_lem = λ c. refl;
  chunk = λ c. drop c.position c.get_ref;
  chunk_lem = λ c. refl;
  advance = λ c n. record { get_ref = c.get_ref; position = c.position + n };
  advance_lem = λ c n h. refl;
  get_u8 = λ c.
      (get_or c.get_ref c.position 0, record { get_ref = c.get_ref; position = c.position + 1 });
  get_u8_lem = λ c h. refl;
  advance_buf = λ s n. drop n s;
  advance_buf_lem = λ s n h. refl;
  to_lowercase = map lower;
  to_lowercase-ascii = λ s h. refl;
  to_uppercase = map upper;
  to_uppercase-ascii = λ s h. refl;
  debug_bytes = λ s. codes "b\"" ++ (s ++ codes "\"");
  max_instant = 10 ^ 18;
}

-- A sender that only counts its receivers.
abbrev pub counter : Broadcast ℕ (Unit {0})
counter = record {
  receivers = λ t. t;
  channel = λ n. (1, tt);
  channel_lem = λ n. refl;
  subscribe = λ t. (t + 1, tt);
  subscribe_lem = λ t. refl;
  send = λ t m. (t, if ltb 0 t then some t else none);
  send_lem = λ t m. refl;
  send_keeps = λ t m. refl;
  leave = λ t. t - 1;
  leave_lem = λ t. refl;
}

-- A socket that delivers at most two bytes at a time.
pub record Socket : Type 0 where
  pub coming : Bytes
  pub buffered : Bytes
  pub sent : Bytes

-- A connection to a peer that sends `b`.
abbrev pub coming : Bytes → Connection Socket
coming b = record { stream = record { coming = b; buffered = []; sent = [] }; read_buf = [] }

abbrev deliver : Bytes → Bytes × Bytes
deliver [] = ([], [])
deliver (a ∷ []) = (a ∷ [], [])
deliver (a ∷ b ∷ s) = (a ∷ b ∷ [], s)

pub deliver-append : (s : Bytes) → s ≡ (deliver s).0 ++ (deliver s).1
deliver-append [] = refl
deliver-append (a ∷ []) = refl
deliver-append (a ∷ b ∷ s) = refl

pub deliver_end : (s : Bytes) → (deliver s).0 ≡ [] → s ≡ []
deliver_end [] h = refl
deliver_end (a ∷ []) h = cc
deliver_end (a ∷ b ∷ s) h = cc

abbrev after_read : Socket → Bytes × Socket
after_read s = (
  (deliver s.coming).0,
  record { coming = (deliver s.coming).1; buffered = s.buffered; sent = s.sent },
)

abbrev pub socket : Stream Socket
socket = record {
  written = λ s. s.buffered;
  flushed = λ s. s.sent;
  arriving = λ s. s.coming;
  write_all = λ s b. some (record { coming = s.coming; buffered = s.buffered ++ b; sent = s.sent });
  write_all_lem = λ s s' b h.
      subst (λ (u : Socket). (u.buffered ≡ s.buffered ++ b) × (u.coming ≡ s.coming)) (some_eq h)
        (refl, refl);
  flush = λ s. some (record { coming = s.coming; buffered = s.buffered; sent = s.buffered });
  flush_lem = λ s s' h.
      subst
        (λ (u : Socket). (u.sent ≡ s.buffered) × (u.buffered ≡ s.buffered) × (u.coming ≡ s.coming))
        (some_eq h) (refl, refl, refl);
  read_buf = λ s. some (after_read s);
  read_buf_lem = λ s s' b h.
      subst
        (λ (p : Bytes × Socket).
          (s.coming ≡ p.0 ++ p.1.coming) × (p.1.buffered ≡ s.buffered) × (p.1.sent ≡ s.sent))
        (some_eq h) (deliver-append s.coming, refl, refl);
  read_buf_end = λ s s' h. deliver_end s.coming (ap (λ p. p.0) (some_eq h));
}
