-- ===== src/Frame/Decoder/Progress.antt =====
-- `Frame::check` (redis-lib/src/frame.rs) only moves forward, stays inside the buffer, and never
-- uses up its fuel: every call reads a byte before it calls itself.
use redis_demo.Base.{
  ℕ, zero, suc, ◌+◌, ◌-◌, ◌≤◌, ◌<◌, ◌≡◌, refl, ◌∙◌, ap, ◌==◌, length, Outcome, none, some, Option,
  arith, Ensures, returned, failed, panicked, Ensures-of_ok, Ensures-bind, Ensures-if,
  Ensures-weaken,
}
use redis_demo.Env.{Env, Cursor}
use redis_demo.Frame.{Error}
use redis_demo.Frame.Reader.{get_line, add_usize, peek_u8, get_u8, skip, get_decimal, number}
use redis_demo.Frame.Reader.Plain.{forward, peek_u8_eq}
use redis_demo.Frame.Reader.Position.{get_line-IsAfterLine, get_u8-position, skip-position}
use redis_demo.Frame.Decoder.{repeat, check_bulk, check_array, check_arm, check_fuel, check}

-- `c'` is `c` moved forward in the same buffer, and not past its end.
pub record IsOnward (c c' : Cursor) : Type 0 where
  pub same : c'.get_ref ≡ c.get_ref
  pub onward : c.position ≤ c'.position
  pub within : c.position ≤ length c.get_ref → c'.position ≤ length c.get_ref

pub IsOnward-refl : (c : Cursor) → IsOnward c c
IsOnward-refl c = record { same = refl; onward = omega arith; within = λ h. h }

pub IsOnward-trans : (c d e : Cursor) → IsOnward c d → IsOnward d e → IsOnward c e
IsOnward-trans c d e h k = record {
  same = k.same ∙ h.same;
  onward = let a = h.onward in let b = k.onward in omega arith;
  within = λ p.
      let q = k.within (let s = h.within p in omega (arith, ap length h.same)) in
      omega (arith, ap length h.same);
}

IsOnward-forward :
    (c c' : Cursor) (n : ℕ) → c' ≡ forward c n → c.position + n ≤ length c.get_ref → IsOnward c c'
IsOnward-forward c c' n e h = record {
  same = ap (λ (d : Cursor). d.get_ref) e;
  onward = omega (arith, ap (λ (d : Cursor). d.position) e);
  within = λ p. omega (arith, ap (λ (d : Cursor). d.position) e);
}

-- `c'` stands at least one byte behind `c`, in the same buffer.
abbrev pub IsBehind : Cursor → Cursor → Type 0
IsBehind c c' =
    (c'.get_ref ≡ c.get_ref) × (c.position < c'.position) × (c'.position ≤ length c.get_ref)

pub IsOnward-of_behind : (c d : Cursor) → IsBehind c d → IsOnward c d
IsOnward-of_behind c d (same, moved, inside) = record {
  same = same;
  onward = omega arith;
  within = λ _. inside;
}

pub IsBehind-trans : (c d e : Cursor) → IsBehind c d → IsOnward d e → IsBehind c e
IsBehind-trans c d e (same, moved, inside) on =
    let fits = on.within (omega (arith, ap length same)) in
    let onward = on.onward in (on.same ∙ same, omega arith, omega (arith, ap length same))

module _ (x : Env) (c : Cursor) where
  pub get_line-Ensures : Ensures (λ (_, d). IsOnward c d) (get_line c)
  get_line-Ensures = Ensures-of_ok (get_line c) (unfold get_line in ground arith) λ (line, d) h.
      let after = get_line-IsAfterLine c line d h in
      IsOnward-forward c d (length line + 2) after.moved after.within

  number-Ensures :
      (o : Option ℕ) (d : Cursor) → IsOnward c d → Ensures (λ (_, d'). IsOnward c d') (number x o d)
  number-Ensures none d h = failed _
  number-Ensures (some n) d h = returned _ h

  pub get_decimal-Ensures : Ensures (λ (_, d). IsOnward c d) (get_decimal x c)
  unfolding get_decimal
  get_decimal-Ensures =
      Ensures-bind get_line-Ensures λ (line, d) h. number-Ensures (x.atoi line) d h

  pub skip-Ensures : (n : ℕ) → Ensures (IsOnward c) (skip x c n)
  skip-Ensures n = Ensures-of_ok (skip x c n) (unfold skip in ground arith) λ d h.
      let (moved, fits) = skip-position x c n d h in
      record {
        same = ap (λ (e : Cursor). e.get_ref) moved;
        onward = omega (arith, ap (λ (e : Cursor). e.position) moved);
        within = λ p. omega (arith, ap (λ (e : Cursor). e.position) moved);
      }

  pub get_u8-Ensures : Ensures (λ (_, d). IsBehind c d) (get_u8 x c)
  get_u8-Ensures = Ensures-of_ok (get_u8 x c) (unfold get_u8 in ground arith) λ (b, d) h.
      let (moved, more) = get_u8-position x c b d h in
      (
        ap (λ (e : Cursor). e.get_ref) moved,
        omega (arith, ap (λ (e : Cursor). e.position) moved),
        omega (arith, ap (λ (e : Cursor). e.position) moved),
      )

  pub peek_u8-Ensures : Ensures (λ _. Unit {0}) (peek_u8 x c)
  peek_u8-Ensures = rw (peek_u8_eq x c) (Ensures-if _ (returned _ tt) (failed _))

pub add_usize-Ensures : (x : Env) (a b : ℕ) → Ensures (λ _. Unit {0}) (add_usize x a b)
unfolding add_usize
add_usize-Ensures x a b = Ensures-if _ (returned _ tt) (Ensures-if _ panicked (returned _ tt))

-- A step that moves on and stays within its fuel wherever fewer than `k` bytes are left.
abbrev Steps : ℕ → (Cursor → Outcome Error Cursor) → Type 0
Steps k q = (c : Cursor) → length c.get_ref - c.position < k → Ensures (IsOnward c) (q c)

repeat-Ensures :
    (k : ℕ) (q : Cursor → Outcome Error Cursor) → Steps k q → (n : ℕ) → Steps k (repeat n q)
unfolding repeat
repeat-Ensures k q s zero c h = returned c (IsOnward-refl c)
repeat-Ensures k q s (suc n) c h = Ensures-bind (s c h) λ d on.
    Ensures-weaken
      (repeat-Ensures k q s n d (let o = on.onward in omega (arith, ap length on.same)))
      λ e. IsOnward-trans c d e on

module _ (x : Env) where
  check_bulk-Ensures : (c : Cursor) → Ensures (IsOnward c) (check_bulk x c)
  unfolding check_bulk
  check_bulk-Ensures c = Ensures-bind (get_decimal-Ensures x c) λ (n, d) on.
      Ensures-bind (add_usize-Ensures x n 2)
        λ total _. Ensures-weaken (skip-Ensures x d total) λ e. IsOnward-trans c d e on

  module _ (k : ℕ) (q : Cursor → Outcome Error Cursor) (s : Steps k q) where
    check_array-Ensures : Steps k (check_array x q)
    unfolding check_array
    check_array-Ensures c h = Ensures-bind (get_decimal-Ensures x c) λ (n, d) on.
        Ensures-weaken
          (repeat-Ensures k q s n d (let o = on.onward in omega (arith, ap length on.same)))
          λ e. IsOnward-trans c d e on

    check_arm-Ensures : (b : ℕ) → Steps k (check_arm x q b)
    unfolding check_arm
    check_arm-Ensures b c h =
        let line = Ensures-bind (get_line-Ensures x c) λ (_, d) on. returned d on in
        let number = Ensures-bind (get_decimal-Ensures x c) λ (_, d) on. returned d on in
        let dollar =
          Ensures-bind (peek_u8-Ensures x c)
            λ p _. Ensures-if (p == b'-') (skip-Ensures x c 4) (check_bulk-Ensures c) in
        Ensures-if (b == b'+') line (
          Ensures-if (b == b'-') line (
            Ensures-if (b == b':') number (
              Ensures-if (b == b'$') dollar
                (Ensures-if (b == b'*') (check_array-Ensures c h) (failed _)))))

  pub check_fuel-Ensures :
      (k : ℕ) (c : Cursor)
      → length c.get_ref - c.position < k
      → Ensures (IsBehind c) (check_fuel x k c)
  unfolding check_fuel
  check_fuel-Ensures zero c h = absurd (omega arith)
  check_fuel-Ensures (suc k) c h = Ensures-bind (get_u8-Ensures x c) λ (b, d) behind.
      Ensures-weaken
        (check_arm-Ensures k (check_fuel x k)
          (λ e l. Ensures-weaken (check_fuel-Ensures k e l) λ e'. IsOnward-of_behind e e') b d
          (omega (arith, ap length behind.0)))
        λ e. IsBehind-trans c d e behind

-- `check` never uses up its fuel: it returns, fails or panics. Where it returns, the cursor has
-- moved at least one byte forward in the same buffer, and not past its end.
pub check-Ensures : (x : Env) (c : Cursor) → Ensures (IsBehind c) (check x c)
unfolding check
check-Ensures x c = check_fuel-Ensures x (suc (length c.get_ref)) c (omega arith)
