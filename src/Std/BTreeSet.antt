-- ===== src/Std/BTreeSet.antt =====
-- `std::collections::BTreeSet<(Instant, String)>` as the list of its elements in ascending order.
-- An `Instant` is a number of nanoseconds.
use redis_demo.Base.{
  ℕ, ◌≤◌, ◌≡◌, ◌↔◌, refl, Bool, true, false, ◌&&◌, ◌||◌, Bytes, List, [], ◌∷◌, ◌is◌, is_iff, ltb,
  ◌==◌, if◌then◌else◌, arith, All, Bool-cases, inl, inr, subst, length,
}

abbrev pub Instant : Type 0
Instant = ℕ

-- The order of `String`.
unfoldable pub text_ltb : Bytes → Bytes → Bool
text_ltb s [] = false
text_ltb [] (b ∷ t) = true
text_ltb (a ∷ s) (b ∷ t) = if a == b then text_ltb s t else ltb a b

unfoldable pub before : Instant × Bytes → Instant × Bytes → Bool
before (t, s) (u, r) = if t == u then text_ltb s r else ltb t u

infix 50 ◌same◌
abbrev pub ◌same◌ : Instant × Bytes → Instant × Bytes → Bool
(t, s) same (u, r) = t == u && s is r

unfoldable pub insert : Instant × Bytes → List (Instant × Bytes) → List (Instant × Bytes)
insert p [] = p ∷ []
insert p (q ∷ s) = if q same p then q ∷ s else if before p q then p ∷ q ∷ s else q ∷ insert p s

unfoldable pub remove : Instant × Bytes → List (Instant × Bytes) → List (Instant × Bytes)
remove p [] = []
remove p (q ∷ s) = if q same p then remove p s else q ∷ remove p s

-- `contains`
unfoldable pub has : Instant × Bytes → List (Instant × Bytes) → Bool
has p [] = false
has p (q ∷ s) = q same p || has p s

same_iff : (p q : Instant × Bytes) → ((p same q) ≡ true) ↔ (p ≡ q)
same_iff (t, s) (u, r) = ground (arith, is_iff s r)

pub has-insert :
    (p q : Instant × Bytes) (s : List (Instant × Bytes))
    → has q (insert p s) ≡ (p same q || has q s)
unfolding has insert
has-insert p q [] = refl
has-insert p q (r ∷ s) = ground (arith, same_iff p q, same_iff r p, same_iff r q, has-insert p q s)

pub has-remove :
    (p q : Instant × Bytes) (s : List (Instant × Bytes))
    → has q (remove p s) ≡ (if p same q then false else has q s)
unfolding has remove
has-remove p q [] = ground arith
has-remove p q (r ∷ s) = ground (arith, same_iff p q, same_iff r p, same_iff r q, has-remove p q s)

-- The elements stand in the order of their instants.
abbrev pub IsSorted : List (Instant × Bytes) → Type 0
IsSorted [] = Unit
IsSorted (p ∷ s) = All (λ q. p.0 ≤ q.0) s × IsSorted s

module _ (P : Instant × Bytes → Type 0) where
  pub All-insert :
      (p : Instant × Bytes) (s : List (Instant × Bytes)) → P p → All P s → All P (insert p s)
  unfolding insert
  All-insert p [] h hs = (h, tt)
  All-insert p (q ∷ s) h hs = elim (Bool-cases (q same p)) [
    | inl e ↦ rw e hs
    | inr e ↦ elim (Bool-cases (before p q)) [
      | inl l ↦ rw (e, l) (h, hs)
      | inr l ↦ rw (e, l) (hs.0, All-insert p s h hs.1)
    ]
  ]

  pub All-remove : (p : Instant × Bytes) (s : List (Instant × Bytes)) → All P s → All P (remove p s)
  unfolding remove
  All-remove p [] hs = tt
  All-remove p (q ∷ s) hs = elim (Bool-cases (q same p)) [
    | inl e ↦ rw e (All-remove p s hs.1)
    | inr e ↦ rw e (hs.0, All-remove p s hs.1)
  ]

All-later :
    (t u : Instant) (s : List (Instant × Bytes))
    → t ≤ u
    → All (λ q. u ≤ q.0) s
    → All (λ q. t ≤ q.0) s
All-later t u [] h hs = tt
All-later t u (q ∷ s) h hs = (omega (arith, hs.0), All-later t u s h hs.1)

before→le : (p q : Instant × Bytes) → before p q ≡ true → p.0 ≤ q.0
unfolding before
before→le (t, k) (u, l) h = ground arith

before→ge : (p q : Instant × Bytes) → before p q ≡ false → q.0 ≤ p.0
unfolding before
before→ge (t, k) (u, l) h = ground arith

pub insert-IsSorted :
    (p : Instant × Bytes) (s : List (Instant × Bytes)) → IsSorted s → IsSorted (insert p s)
unfolding insert
insert-IsSorted p [] h = (tt, tt)
insert-IsSorted p (q ∷ s) h = elim (Bool-cases (q same p)) [
  | inl e ↦ rw e h
  | inr e ↦ elim (Bool-cases (before p q)) [
    | inl l ↦ rw (e, l) ((before→le p q l, All-later p.0 q.0 s (before→le p q l) h.0), h)
    | inr l ↦
        rw (e, l) (All-insert (λ r. q.0 ≤ r.0) p s (before→ge p q l) h.0, insert-IsSorted p s h.1)
  ]
]

pub remove-IsSorted :
    (p : Instant × Bytes) (s : List (Instant × Bytes)) → IsSorted s → IsSorted (remove p s)
unfolding remove
remove-IsSorted p [] h = tt
remove-IsSorted p (q ∷ s) h = elim (Bool-cases (q same p)) [
  | inl e ↦ rw e (remove-IsSorted p s h.1)
  | inr e ↦ rw e (All-remove (λ r. q.0 ≤ r.0) p s h.0, remove-IsSorted p s h.1)
]

-- What a set holds meets what holds of all its elements.
pub has-All :
    (P : Instant × Bytes → Type 0) (p : Instant × Bytes) (s : List (Instant × Bytes))
    → All P s
    → has p s ≡ true
    → P p
unfolding has
has-All P p [] hs h = cc
has-All P p (q ∷ s) hs h = elim (Bool-cases (q same p)) [
  | inl e ↦ subst P ((same_iff q p).0 e) hs.0
  | inr e ↦ has-All P p s hs.1 (rw e at h)
]

length-remove : (p : Instant × Bytes) (s : List (Instant × Bytes)) → length (remove p s) ≤ length s
unfolding remove
length-remove p [] = omega arith
length-remove p (q ∷ s) = ground (arith, length-remove p s)

-- The first element taken out leaves a shorter set.
pub length-remove_first :
    (p : Instant × Bytes) (s : List (Instant × Bytes)) → length (remove p (p ∷ s)) ≤ length s
unfolding remove
length-remove_first p s = rw ((same_iff p p).1 refl) (length-remove p s)

pub has_first : (p : Instant × Bytes) (s : List (Instant × Bytes)) → has p (p ∷ s) ≡ true
unfolding has
has_first p s = rw ((same_iff p p).1 refl)
