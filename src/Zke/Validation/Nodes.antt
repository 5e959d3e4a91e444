-- ===== src/Zke/Validation/Nodes.antt =====
-- `validateDuplicateNodes` against a description of it, and the two loops of `for_each`.
use singlecloud.Base.{
  List, [], ◌∷◌, ◌++◌, ℕ, suc, ◌+◌, ◌<◌, ◌≡◌, refl, sym, ◌≢◌, ◌↔◌, length, Option, none, inl, inr,
  length-append, arith, All, eq_iff, Option-cases, ◌∙◌,
}
use mathlib.Core.List.{append_assoc}
use singlecloud.Zke.Types.{Node, ScCluster}
use singlecloud.Zke.Validation.{
  Invalid, for_each, duplicates_of, duplicates_from, validate_duplicate_nodes,
}

pub for_each-none {ℓ} :
    {A : Type ℓ} (f : A → Option Invalid) (xs : List A)
    → for_each f xs ≡ none
    → All (λ x. f x ≡ none) xs
for_each-none f [] h = tt
for_each-none f (x ∷ xs) h = elim (Option-cases (f x)) [
  | inl e ↦ (e, for_each-none f xs (ground arith))
  | inr (v, e) ↦ ground arith
]

abbrev pub Differs : Node → Node → Type 0
Differs a b = (a.address ≢ b.address) × (a.name ≢ b.name)

abbrev pub Distinct : List Node → Type 0
Distinct [] = Unit
Distinct (n ∷ ns) = All (Differs n) ns × Distinct ns

duplicates_of-after :
    (i j : ℕ) (a : Node) (l : List Node)
    → i < j
    → (duplicates_of i a j l ≡ none) ↔ All (Differs a) l
unfolding duplicates_of
duplicates_of-after i j a [] h = ground arith
duplicates_of-after i j a (b ∷ l) h = ground (
  arith,
  duplicates_of-after i (suc j) a l (omega arith),
  eq_iff a.address b.address,
  eq_iff a.name b.name,
)

duplicates_of-split :
    (i j : ℕ) (a : Node) (pre rest : List Node)
    → i ≡ j + length pre
    → (duplicates_of i a j (pre ++ a ∷ rest) ≡ none) ↔ (All (Differs a) pre × All (Differs a) rest)
unfolding duplicates_of
duplicates_of-split i j a [] rest h =
    ground (arith, duplicates_of-after i (suc j) a rest (omega arith))
duplicates_of-split i j a (b ∷ pre) rest h = ground (
  arith,
  duplicates_of-split i (suc j) a pre rest (omega arith),
  eq_iff a.address b.address,
  eq_iff a.name b.name,
)

Differs-symm : (a b : Node) → Differs a b → Differs b a
Differs-symm a b d = (λ e. d.0 (sym e), λ e. d.1 (sym e))

All-snoc :
    (b a : Node) (pre : List Node)
    → All (Differs b) pre
    → Differs b a
    → All (Differs b) (pre ++ a ∷ [])
All-snoc b a [] h d = (d, tt)
All-snoc b a (c ∷ pre) h d = (h.0, All-snoc b a pre h.1 d)

-- No node of the second list is like one of the first.
abbrev Apart : List Node → List Node → Type 0
Apart pre = All (λ b. All (Differs b) pre)

Apart-snoc :
    (a : Node) (pre rest : List Node)
    → Apart pre rest
    → All (Differs a) rest
    → Apart (pre ++ a ∷ []) rest
Apart-snoc a pre [] h d = tt
Apart-snoc a pre (b ∷ rest) h d =
    (All-snoc b a pre h.0 (Differs-symm a b d.0), Apart-snoc a pre rest h.1 d.1)

duplicates_from-cons :
    (nodes pre rest : List Node) (a : Node) (i : ℕ)
    → nodes ≡ pre ++ a ∷ rest
    → i ≡ length pre
    → Apart pre (a ∷ rest)
    → (All (Differs a) rest → (duplicates_from nodes (suc i) rest ≡ none) ↔ Distinct rest)
    → (duplicates_from nodes i (a ∷ rest) ≡ none) ↔ Distinct (a ∷ rest)
unfolding duplicates_from
duplicates_from-cons nodes pre rest a i e h p next = (forth, back)
  where
    one : (duplicates_of i a 0 nodes ≡ none) ↔ (All (Differs a) pre × All (Differs a) rest)
    one = rw e (duplicates_of-split i 0 a pre rest (omega arith))

    forth : duplicates_from nodes i (a ∷ rest) ≡ none → Distinct (a ∷ rest)
    forth z = elim (Option-cases (duplicates_of i a 0 nodes)) [
      | inl n ↦ ((one.0 n).1, (next (one.0 n).1).0 (ground arith))
      | inr (v, n) ↦ ground arith
    ]

    back : Distinct (a ∷ rest) → duplicates_from nodes i (a ∷ rest) ≡ none
    back d = let n = one.1 (p.0, d.0) in let later = (next d.0).1 d.1 in ground arith

duplicates_from_iff :
    (nodes pre rest : List Node) (i : ℕ)
    → nodes ≡ pre ++ rest
    → i ≡ length pre
    → Apart pre rest
    → (duplicates_from nodes i rest ≡ none) ↔ Distinct rest
unfolding duplicates_from
duplicates_from_iff nodes pre [] i e h p = ground arith
duplicates_from_iff nodes pre (a ∷ rest) i e h p =
    duplicates_from-cons nodes pre rest a i e h p λ d.
      duplicates_from_iff nodes (pre ++ a ∷ []) rest (suc i)
        (e ∙ sym (append_assoc pre (a ∷ []) rest)) (omega (arith, length-append pre (a ∷ [])))
        (Apart-snoc a pre rest p.1 d)

Apart-nil : (rest : List Node) → Apart [] rest
Apart-nil [] = tt
Apart-nil (a ∷ rest) = (tt, Apart-nil rest)

-- The check for duplicate nodes passes exactly when no two nodes of the cluster share an address
-- and no two share a name.
pub validate_duplicate_nodes_iff :
    (c : ScCluster) → (validate_duplicate_nodes c ≡ none) ↔ Distinct c.nodes
unfolding validate_duplicate_nodes
validate_duplicate_nodes_iff c =
    duplicates_from_iff c.nodes [] c.nodes 0 refl refl (Apart-nil c.nodes)
