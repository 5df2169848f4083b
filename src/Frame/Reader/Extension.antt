-- ===== src/Frame/Reader/Extension.antt =====
-- The reads of redis-lib/src/frame.rs when more bytes stand at the end of the buffer: what they
-- returned they still return.
use redis_demo.Base.{
  ℕ, zero, suc, ◌+◌, ◌-◌, ◌≤◌, ◌<◌, ◌≡◌, refl, ◌∙◌, ap, ◌++◌, Bytes, ltb, if◌then◌else◌, length,
  get_or, drop, Outcome, ok, err, panic, out_of_fuel, none, some, Option, Bool, Bool-cases, inl,
  inr, true, false, arith, tests, lt→ltb, le→ltb, ◌>>=◌, length-append, get_or-append, drop-append,
  take-append, length-drop,
}
use redis_demo.Env.{Env, Cursor}
use redis_demo.Frame.{Fault, Error, incomplete, other, invalid_format}
use redis_demo.Frame.Reader.{find_crlf, slice, get_line, peek_u8, get_u8, skip, get_decimal, number}
use redis_demo.Frame.Reader.At.{get_line_found, get_line_missing}
use redis_demo.Frame.Reader.Plain.{forward, get_u8_eq, peek_u8_eq, skip_eq}
use redis_demo.Frame.Reader.Position.{find_crlf_bounds}

-- The cursor over the buffer with `more` behind it.
abbrev pub grow : Bytes → Cursor → Cursor
grow more c = record { get_ref = c.get_ref ++ more; position = c.position }

-- `r'` is what becomes of the run `r` once its results are carried over by `g`, unless `r` asks for
-- more bytes or more fuel.
pub data Settled {ℓ} {A : Type ℓ} (g : A → A) : Outcome Error A → Outcome Error A → Type ℓ where
  returned : (a : A) {r : Outcome Error A} → r ≡ ok (g a) → Settled g (ok a) r
  refused : (e : Fault) {r : Outcome Error A} → r ≡ err (other e) → Settled g (err (other e)) r
  panicked : {r : Outcome Error A} → r ≡ panic → Settled g panic r
  waits : {r : Outcome Error A} → Settled g (err incomplete) r
  starves : {r : Outcome Error A} → Settled g out_of_fuel r

pub Settled-bind {ℓ κ} :
    {A : Type ℓ} {B : Type κ} {g : A → A} {g' : B → B} {m m' : Outcome Error A}
    (f f' : A → Outcome Error B)
    → Settled g m m'
    → ((a : A) → Settled g' (f a) (f' (g a)))
    → Settled g' (m >>= f) (m' >>= f')
Settled-bind f f' (returned a h) k = rw h (k a)
Settled-bind f f' (refused e h) k = rw h (refused e refl)
Settled-bind f f' (panicked h) k = rw h (panicked refl)
Settled-bind f f' waits k = waits
Settled-bind f f' starves k = starves

pub Settled-if {ℓ} :
    {A : Type ℓ} {g : A → A} (b : Bool) {m m' n n' : Outcome Error A}
    → Settled g m m'
    → Settled g n n'
    → Settled g (if b then m else n) (if b then m' else n')
Settled-if true h k = h
Settled-if false h k = k

pub Settled-same {ℓ} : {A : Type ℓ} (m : Outcome Error A) → Settled (λ a. a) m m
Settled-same (ok a) = returned a refl
Settled-same (err incomplete) = waits
Settled-same (err (other e)) = refused e refl
Settled-same panic = panicked refl
Settled-same out_of_fuel = starves

module _ (more : Bytes) where
  find_crlf-append :
      (k l i : ℕ) (s : Bytes) (j : ℕ)
      → i + k < length s
      → k ≤ l
      → find_crlf k i s ≡ some j
      → find_crlf l i (s ++ more) ≡ some j
  unfolding find_crlf
  find_crlf-append zero l i s j h kl e = cc
  find_crlf-append (suc k) zero i s j h kl e = absurd (omega arith)
  find_crlf-append (suc k) (suc l) i s j h kl e =
      rw (get_or-append s more i 0 (omega arith), get_or-append s more (suc i) 0 (omega arith))
        (ground (arith, find_crlf-append k l (suc i) s j))

  slice-append : (a b : ℕ) (s : Bytes) → b ≤ length s → a ≤ b → slice a b (s ++ more) ≡ slice a b s
  slice-append a b s h ab =
      rw (drop-append a s more (omega arith))
        (take-append (b - a) (drop a s) more (omega (arith, length-drop a s)))

  abbrev pub grow_pair : Bytes × Cursor → Bytes × Cursor
  grow_pair (l, d) = (l, grow more d)

  abbrev pub grow_number : ℕ × Cursor → ℕ × Cursor
  grow_number (n, d) = (n, grow more d)

  module _ (c : Cursor) where
    pub get_line-Settled :
        0 < length c.get_ref → Settled grow_pair (get_line c) (get_line (grow more c))
    get_line-Settled pos =
        go (find_crlf (length c.get_ref - 1 - c.position) c.position c.get_ref) refl
      where
        go :
            (o : Option ℕ)
            → find_crlf (length c.get_ref - 1 - c.position) c.position c.get_ref ≡ o
            → Settled grow_pair (get_line c) (get_line (grow more c))
        go none e = rw (get_line_missing c pos e) waits
        go (some i) e =
            let size = length-append c.get_ref more in
            let inside = find_crlf_bounds _ c.position c.get_ref i e in
            rw (get_line_found c i pos e) (
              returned _ (
                get_line_found (grow more c) i (omega arith)
                  (find_crlf-append _ _ c.position c.get_ref i (omega arith) (omega arith) e)
                ∙ ap (λ l. ok (l, record { get_ref = c.get_ref ++ more; position = i + 2 }))
                    (slice-append c.position i c.get_ref (omega arith) inside.0)))

  module _ (x : Env) (c : Cursor) where
    number-Settled : (o : Option ℕ) → Settled grow_number (number x o c) (number x o (grow more c))
    number-Settled none = refused invalid_format refl
    number-Settled (some n) = returned _ refl

  module _ (x : Env) (c : Cursor) where
    pub get_decimal-Settled :
        0 < length c.get_ref → Settled grow_number (get_decimal x c) (get_decimal x (grow more c))
    unfolding get_decimal
    get_decimal-Settled pos =
        Settled-bind _ _ (get_line-Settled c pos) λ (l, d). number-Settled x d (x.atoi l)

    pub get_u8-grow :
        ltb c.position (length c.get_ref) ≡ true
        → get_u8 x (grow more c) ≡ ok (get_or c.get_ref c.position 0, grow more (forward c 1))
    get_u8-grow there =
        get_u8_eq x (grow more c)
        ∙ rw (
          lt→ltb c.position (length (c.get_ref ++ more))
              (omega (tests, length-append c.get_ref more)),
          get_or-append c.get_ref more c.position 0 (omega tests),
        )

    pub peek_u8-Settled : Settled (λ b. b) (peek_u8 x c) (peek_u8 x (grow more c))
    peek_u8-Settled = elim (Bool-cases (ltb c.position (length c.get_ref))) [
      | inl there ↦
          rw (peek_u8_eq x c, there)
            (returned _ (
              peek_u8_eq x (grow more c)
              ∙ rw (
                lt→ltb c.position (length (c.get_ref ++ more))
                    (omega (tests, length-append c.get_ref more)),
                get_or-append c.get_ref more c.position 0 (omega tests),
              )))
      | inr done ↦ rw (peek_u8_eq x c, done) waits
    ]

    pub skip-Settled : (n : ℕ) → Settled (grow more) (skip x c n) (skip x (grow more c) n)
    skip-Settled n = elim (Bool-cases (ltb (length c.get_ref - c.position) n)) [
      | inl short ↦ rw (skip_eq x c n, short) waits
      | inr enough ↦
          rw (skip_eq x c n, enough)
            (returned _ (
              skip_eq x (grow more c) n
              ∙ rw (
                  le→ltb (length (c.get_ref ++ more) - c.position) n
                    (omega (tests, length-append c.get_ref more)))))
    ]
