-- ===== src/Pcap/Outcome/Below.antt =====
-- Two runs of which the second succeeds wherever the first does, with related values.
use flowsketch.Base.{
  ℕ, zero, suc, ◌+◌, ◌-◌, ◌≤◌, ◌≡◌, refl, ap, List, [], ◌∷◌, ◌++◌, length, take, drop,
  length-append, Bool, true, false, ltb, ◌||◌, if◌then◌else◌, arith, Bool-cases, length-drop, inl,
  inr,
}
use flowsketch.Pcap.Outcome.{
  Outcome, panicked, rejected, parsed, ◌>>=◌, ◌>>◌, reject_if, at, slice, slice_from, get_slice,
  be16,
}

pub data Below {A : Type 0} (R : A → A → Type 0) : Outcome A → Outcome A → Type 0 where
  below_panicked : {n : Outcome A} → Below R panicked n
  below_rejected : {n : Outcome A} → Below R rejected n
  below_parsed : {a b : A} → R a b → Below R (parsed a) (parsed b)

-- The second succeeds with the same value.
pub data Same {A : Type 0} (a : A) : A → Type 0 where
  same : Same a a

abbrev pub Keeps : {A : Type 0} → Outcome A → Outcome A → Type 0
Keeps = Below Same

module _ {A : Type 0} {R : A → A → Type 0} where
  pub bind-Below :
      {B : Type 0} {S : B → B → Type 0} (m n : Outcome B) (f g : B → Outcome A)
      → Below S m n
      → ((a b : B) → S a b → Below R (f a) (g b))
      → Below R (m >>= f) (n >>= g)
  bind-Below panicked n f g h k = below_panicked
  bind-Below rejected n f g h k = below_rejected
  bind-Below (parsed a) panicked f g h k = elim h [ ]
  bind-Below (parsed a) rejected f g h k = elim h [ ]
  bind-Below (parsed a) (parsed b) f g (below_parsed h) k = k a b h

  pub bind-Keeps :
      {B : Type 0} (m n : Outcome B) (f g : B → Outcome A)
      → Keeps m n
      → ((a : B) → Below R (f a) (g a))
      → Below R (m >>= f) (n >>= g)
  bind-Keeps panicked n f g h k = below_panicked
  bind-Keeps rejected n f g h k = below_rejected
  bind-Keeps (parsed a) panicked f g h k = elim h [ ]
  bind-Keeps (parsed a) rejected f g h k = elim h [ ]
  bind-Keeps (parsed a) (parsed b) f g (below_parsed same) k = k a

  pub reject_if-Below :
      (p q : Bool) (k l : Outcome A)
      → (q ≡ true → p ≡ true)
      → (p ≡ false → Below R k l)
      → Below R (reject_if p >> k) (reject_if q >> l)
  reject_if-Below true q k l h r = below_rejected
  reject_if-Below false true k l h r = cc (h refl)
  reject_if-Below false false k l h r = r refl

  pub if-Below :
      (b : Bool) (x y z w : Outcome A)
      → Below R x z
      → Below R y w
      → Below R (if b then x else y) (if b then z else w)
  if-Below true x y z w h k = h
  if-Below false x y z w h k = k

pub Keeps-refl : {A : Type 0} (m : Outcome A) → Keeps m m
Keeps-refl panicked = below_panicked
Keeps-refl rejected = below_rejected
Keeps-refl (parsed a) = below_parsed same

pub Keeps-parsed : {A : Type 0} (m n : Outcome A) {a : A} → Keeps m n → m ≡ parsed a → n ≡ parsed a
Keeps-parsed panicked n h e = cc
Keeps-parsed rejected n h e = cc
Keeps-parsed (parsed b) panicked h e = elim h [ ]
Keeps-parsed (parsed b) rejected h e = elim h [ ]
Keeps-parsed (parsed b) (parsed c) (below_parsed same) e = e

-- `xs` is what was captured of `ys`.
abbrev pub Prefix : List ℕ → List ℕ → Type 0
Prefix xs ys = (zs : List ℕ) × (ys ≡ xs ++ zs)

at-Keeps_append : (xs zs : List ℕ) (i : ℕ) → Keeps (at xs i) (at (xs ++ zs) i)
at-Keeps_append [] zs i = below_panicked
at-Keeps_append (x ∷ xs) zs zero = below_parsed same
at-Keeps_append (x ∷ xs) zs (suc i) = at-Keeps_append xs zs i

pub at-Keeps : (xs ys : List ℕ) (i : ℕ) → Prefix xs ys → Keeps (at xs i) (at ys i)
at-Keeps xs ys i (zs, e) = rw e (at-Keeps_append xs zs i)

pub be16-Keeps : (xs ys : List ℕ) (i : ℕ) → Prefix xs ys → Keeps (be16 xs i) (be16 ys i)
unfolding be16
be16-Keeps xs ys i p =
    bind-Keeps _ _ _ _ (at-Keeps xs ys i p)
      (λ high. bind-Keeps _ _ _ _ (at-Keeps xs ys (i + 1) p) (λ low. below_parsed same))

pub length-Prefix : (xs ys : List ℕ) → Prefix xs ys → length xs ≤ length ys
length-Prefix xs ys (zs, e) = omega (arith, length-append xs zs, ap length e)

drop-Prefix_append : (n : ℕ) (xs zs : List ℕ) → n ≤ length xs → drop n (xs ++ zs) ≡ drop n xs ++ zs
drop-Prefix_append zero xs zs h = refl
drop-Prefix_append (suc n) [] zs h = absurd (omega arith)
drop-Prefix_append (suc n) (x ∷ xs) zs h = drop-Prefix_append n xs zs (omega arith)

pub drop-Prefix :
    (n : ℕ) (xs ys : List ℕ) → n ≤ length xs → Prefix xs ys → Prefix (drop n xs) (drop n ys)
drop-Prefix n xs ys h (zs, e) = (zs, rw e (drop-Prefix_append n xs zs h))

take-Prefix_append : (m n : ℕ) (xs zs : List ℕ) → m ≤ n → Prefix (take m xs) (take n (xs ++ zs))
take-Prefix_append zero n xs zs h = (_, refl)
take-Prefix_append (suc m) zero xs zs h = absurd (omega arith)
take-Prefix_append (suc m) (suc n) [] zs h = (_, refl)
take-Prefix_append (suc m) (suc n) (x ∷ xs) zs h =
    let r = take-Prefix_append m n xs zs (omega arith) in (r.0, ap (λ l. x ∷ l) r.1)

pub take-Prefix : (m n : ℕ) (xs ys : List ℕ) → m ≤ n → Prefix xs ys → Prefix (take m xs) (take n ys)
take-Prefix m n xs ys h (zs, e) = rw e (take-Prefix_append m n xs zs h)

ltb-length :
    (xs ys : List ℕ) (n : ℕ) → ltb (length xs) n ≡ false → Prefix xs ys → ltb (length ys) n ≡ false
ltb-length xs ys n e p = ground (arith, length-Prefix xs ys p)

part-Prefix :
    (xs ys : List ℕ) (first m n : ℕ)
    → first ≤ m
    → m ≤ length xs
    → m ≤ n
    → Prefix xs ys
    → Prefix (take (m - first) (drop first xs)) (take (n - first) (drop first ys))
part-Prefix xs ys first m n hf hm h p =
    take-Prefix (m - first) (n - first) (drop first xs) (drop first ys) (omega arith)
      (drop-Prefix first xs ys (omega arith) p)

-- A slice that ends where its capture ends, or sooner.
module _ (xs ys : List ℕ) (first m n : ℕ) (h : m ≤ n) (hn : n ≤ length ys) (p : Prefix xs ys) where
  fits : (ltb m first || ltb (length xs) m) ≡ false → (ltb n first || ltb (length ys) n) ≡ false
  fits e = ground arith

  pub slice-Below : Below Prefix (slice xs first m) (slice ys first n)
  unfolding slice
  slice-Below = elim (Bool-cases (ltb m first || ltb (length xs) m)) [
    | inl e ↦ rw e below_panicked
    | inr e ↦
        rw (e, fits e)
          (below_parsed (part-Prefix xs ys first m n (ground arith) (ground arith) h p))
  ]

  pub get_slice-Below : Below Prefix (get_slice xs first m) (get_slice ys first n)
  unfolding get_slice
  get_slice-Below = elim (Bool-cases (ltb m first || ltb (length xs) m)) [
    | inl e ↦ rw e below_rejected
    | inr e ↦
        rw (e, fits e)
          (below_parsed (part-Prefix xs ys first m n (ground arith) (ground arith) h p))
  ]

pub slice_from-Below :
    (xs ys : List ℕ) (first : ℕ)
    → Prefix xs ys
    → Below Prefix (slice_from xs first) (slice_from ys first)
unfolding slice_from
slice_from-Below xs ys first p = elim (Bool-cases (ltb (length xs) first)) [
  | inl e ↦ rw e below_panicked
  | inr e ↦
      rw (e, ltb-length xs ys first e p) (below_parsed (drop-Prefix first xs ys (ground arith) p))
]

take_Prefix_eq : (n : ℕ) (xs zs : List ℕ) → n ≤ length xs → take n (xs ++ zs) ≡ take n xs
take_Prefix_eq zero xs zs h = refl
take_Prefix_eq (suc n) [] zs h = absurd (omega arith)
take_Prefix_eq (suc n) (x ∷ xs) zs h = ap (λ l. x ∷ l) (take_Prefix_eq n xs zs (omega arith))

-- A slice within the capture.
pub slice-Keeps :
    (xs ys : List ℕ) (first last : ℕ)
    → last ≤ length xs
    → Prefix xs ys
    → Keeps (slice xs first last) (slice ys first last)
unfolding slice
slice-Keeps xs ys first last h (zs, e) =
    elim (Bool-cases (ltb last first || ltb (length xs) last)) [
      | inl t ↦ rw t below_panicked
      | inr t ↦
          rw
            (
              t,
              fits xs ys first last last (omega arith) (omega (arith, length-Prefix xs ys (zs, e)))
                  (zs, e) t,
              e,
              drop-Prefix_append first xs zs (ground arith),
              take_Prefix_eq (last - first) (drop first xs) zs
                  (ground (arith, length-drop first xs)),
            )
            (below_parsed same)
    ]
