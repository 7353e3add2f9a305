-- ===== src/Core/Sketch.antt =====
-- crates/flowsketch-core/src/sketch.rs: what must agree before two sketches merge.
use Prim.Native.String.{String}
use text.Mathlib.Text.{◌==◌ as str_eq}
use text.Mathlib.TextEquality.{eq_iff}
use text.Mathlib.TextPositions.{eq_refl}
use flowsketch.Base.{
  arith, ◌≢◌, ◌⊎◌, inl, inr, Bool-cases, false, sym, ap, ◌∙◌, ℕ, Bool, ◌&&◌, ◌==◌, ==_refl, refl,
  if◌then◌else◌, ◌≡◌, true,
}
use mathlib.Core.Bool.{true≢false}
use flowsketch.Core.Error.{incompatible_merge, Result, ok, err}
use flowsketch.Core.Hash.{HashFamily, fsk1, HashSpec}

pub record SketchCompatibility : Type 0 where
  pub algorithm : String
  pub version : ℕ
  pub hash : HashSpec
  pub params_hash : ℕ

-- The derived equality of `HashFamily` (one constructor), `HashSpec` and `SketchCompatibility`.
family_eq : HashFamily → HashFamily → Bool
family_eq fsk1 fsk1 = true

pub spec_eq : HashSpec → HashSpec → Bool
unfolding family_eq
spec_eq a b = family_eq a.family b.family && (a.seed == b.seed && a.version == b.version)

pub spec_eq_refl : (a : HashSpec) → spec_eq a a ≡ true
unfolding spec_eq
spec_eq_refl a = rw (family_refl a.family, ==_refl a.seed, ==_refl a.version)
  where
    family_refl : (f : HashFamily) → family_eq f f ≡ true
    family_refl fsk1 = refl

pub compatibility_eq : SketchCompatibility → SketchCompatibility → Bool
unfolding spec_eq
compatibility_eq a b =
    str_eq a.algorithm b.algorithm
    && (a.version == b.version && (spec_eq a.hash b.hash && a.params_hash == b.params_hash))

unfoldable pub ensure_matches : SketchCompatibility → SketchCompatibility → Result (Unit {0})
unfolding compatibility_eq
ensure_matches a b =
    if compatibility_eq a b
    then ok tt
    else err (incompatible_merge "sketches are not merge-compatible")

compatibility_eq_refl : (c : SketchCompatibility) → compatibility_eq c c ≡ true
unfolding compatibility_eq
compatibility_eq_refl c =
    rw (eq_refl c.algorithm, ==_refl c.version, spec_eq_refl c.hash, ==_refl c.params_hash)

-- A sketch that agrees with another in everything that is compared may merge with it.
pub ensure_matches_refl : (c : SketchCompatibility) → ensure_matches c c ≡ ok tt
unfolding ensure_matches
ensure_matches_refl c = rw (compatibility_eq_refl c)

family_equal : (f g : HashFamily) → f ≡ g
family_equal fsk1 fsk1 = refl

equal_text : (a b : SketchCompatibility) → compatibility_eq a b ≡ true → a.algorithm ≡ b.algorithm
unfolding compatibility_eq
equal_text a b h = (eq_iff a.algorithm b.algorithm).0 (ground arith)

compatibility_equal : (a b : SketchCompatibility) → compatibility_eq a b ≡ true → a ≡ b
unfolding compatibility_eq spec_eq
compatibility_equal a b h =
    let text : a.algorithm ≡ b.algorithm = equal_text a b h in
    let version : a.version ≡ b.version = ground arith in
    let seed : a.hash.seed ≡ b.hash.seed = ground arith in
    let hash_version : a.hash.version ≡ b.hash.version = ground arith in
    let params : a.params_hash ≡ b.params_hash = ground arith in
    let family : a.hash.family ≡ b.hash.family = family_equal a.hash.family b.hash.family in
    λ i. record {
      algorithm = text i;
      version = version i;
      hash = record { family = family i; seed = seed i; version = hash_version i };
      params_hash = params i;
    }

differ : (a b : SketchCompatibility) → compatibility_eq a b ≡ false → a ≢ b
differ a b e same =
    true≢false (sym (compatibility_eq_refl b) ∙ sym (ap (λ x. compatibility_eq x b) same) ∙ e)

-- Two sketches may merge if they agree in the algorithm, the version, the hash and the hash of their
-- parameters; all others are refused with the merge error.
pub ensure_matches_cases :
    (a b : SketchCompatibility)
    → ((a ≡ b) × (ensure_matches a b ≡ ok tt))
      ⊎ ((a ≢ b)
          × (ensure_matches a b ≡ err (incompatible_merge "sketches are not merge-compatible")))
ensure_matches_cases a b = elim (Bool-cases (compatibility_eq a b)) [
  | inl e ↦
      let same : a ≡ b = compatibility_equal a b e in inl (same, rw same (ensure_matches_refl b))
  | inr e ↦ inr (differ a b e, unfold ensure_matches in rw e)
]
