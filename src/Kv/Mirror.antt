-- ===== src/Kv/Mirror.antt =====
-- A map in memory that follows a table: what the caches over the store share.
use singlecloud.Base.{
  String, Bool, true, false, List, Option, none, some, ◌≡◌, sym, ◌∙◌, arith, assign, lookup, insert,
  remove, lookup-insert, lookup-remove, if◌then◌else◌,
}

module _ {A : Type 0} where
  abbrev pub Mirrors : List (String × A) → (String → Option A) → Type 0
  Mirrors m f = (k : String) → lookup k m ≡ f k

  -- A write that changes the map only if the table was changed.
  pub Mirrors-insert :
      (name : String) (u : A) (m : List (String × A)) (f g : String → Option A) (b : Bool)
      → Mirrors m f
      → ((k : String) → g k ≡ (if b then assign name (some u) f k else f k))
      → Mirrors (if b then insert name u m else m) g
  Mirrors-insert name u m f g true s h k = ground (arith, lookup-insert name k u m, s k, h k)
  Mirrors-insert name u m f g false s h k = s k ∙ sym (h k)

  pub Mirrors-remove :
      (name : String) (m : List (String × A)) (f g : String → Option A) (b : Bool)
      → Mirrors m f
      → ((k : String) → g k ≡ (if b then assign name none f k else f k))
      → Mirrors (if b then remove name m else m) g
  Mirrors-remove name m f g true s h k = ground (arith, lookup-remove name k m, s k, h k)
  Mirrors-remove name m f g false s h k = s k ∙ sym (h k)
