-- ===== src/Zke/Samples/Sets.antt =====
-- A set of strings as a list without repeats.
use singlecloud.Base.{
  suc, String, Bool, true, ◌||◌, ◌&&◌, List, [], ◌∷◌, ◌≡◌, refl, sym, ◌∙◌, ◌↔◌, arith, str_eq,
  eq_iff, eq_refl, any, length, if◌then◌else◌, Bool-cases, inl, inr,
}
use singlecloud.Zke.Validation.Util.{StringSet}

abbrev member : List String → String → Bool
member s k = any (λ x. str_eq x k) s

abbrev add : List String → String → List String
add s k = if member s k then s else k ∷ s

abbrev within : List String → List String → Bool
within [] t = true
within (x ∷ s) t = member t x && within s t

abbrev equal : List String → List String → Bool
equal s t = within s t && within t s

pub member-add : (s : List String) (j k : String) → member (add s j) k ≡ (str_eq j k || member s k)
member-add s j k = elim (Bool-cases (str_eq j k)) [
  | inl e ↦ rw ((eq_iff j k).0 e) (member-add_same s k)
  | inr e ↦ ground arith
]
  where
    member-add_same :
        (s : List String) (k : String) → member (add s k) k ≡ (str_eq k k || member s k)
    member-add_same s k = ground (arith, eq_refl k)

within_sound :
    (s t : List String) (k : String) → within s t ≡ true → member s k ≡ true → member t k ≡ true
within_sound [] t k h m = cc
within_sound (x ∷ s) t k h m = elim (Bool-cases (str_eq x k)) [
  | inl e ↦ rw (sym ((eq_iff x k).0 e)) (ground arith)
  | inr e ↦ within_sound s t k (ground arith) (ground arith)
]

within_complete :
    (s t : List String) → ((k : String) → member s k ≡ true → member t k ≡ true) → within s t ≡ true
within_complete [] t f = refl
within_complete (x ∷ s) t f =
    ground (arith, f x (ground (arith, eq_refl x)), within_complete s t (λ k m. f k (ground arith)))

pub equal_iff : (s t : List String) → (equal s t ≡ true) ↔ ((k : String) → member s k ≡ member t k)
equal_iff s t = (
  (λ h k.
      both (member s k) (member t k) (within_sound s t k (ground arith))
        (within_sound t s k (ground arith))),
  λ f.
      ground
        (arith, within_complete s t (λ k m. sym (f k) ∙ m), within_complete t s (λ k m. f k ∙ m)),
)
  where
    both : (a b : Bool) → (a ≡ true → b ≡ true) → (b ≡ true → a ≡ true) → a ≡ b
    both a b f g = ground (arith, f, g)

pub size-add :
    (s : List String) (k : String)
    → length (add s k) ≡ (if member s k then length s else suc (length s))
size-add s k = ground arith

abbrev pub list_set : StringSet
list_set = record {
  Elems = List String;
  new = [];
  add = add;
  member = member;
  equal = equal;
  size = length;
  member-new = λ k. refl;
  member-add = member-add;
  equal_iff = equal_iff;
  size-new = refl;
  size-add = size-add;
}
