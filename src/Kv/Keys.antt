-- ===== src/Kv/Keys.antt =====
-- Numbers as keys, in base one: it shows that what the proofs ask of strconv.FormatUint can be met.
use singlecloud.Base.{ℕ, zero, suc, String, ◌≡◌, refl, sym, ◌∙◌, ap}
use Prim.Native.String.{[], ◌∷◌}

abbrev pub tally : ℕ → String
tally zero = []
tally (suc n) = "x" ∷ tally n

abbrev strokes : String → ℕ
strokes [] = zero
strokes (c ∷ s) = suc (strokes s)

strokes-tally : (n : ℕ) → strokes (tally n) ≡ n
strokes-tally zero = refl
strokes-tally (suc n) = ap suc (strokes-tally n)

pub tally_one_to_one : (a b : ℕ) → tally a ≡ tally b → a ≡ b
tally_one_to_one a b e = sym (strokes-tally a) ∙ (ap strokes e ∙ strokes-tally b)
