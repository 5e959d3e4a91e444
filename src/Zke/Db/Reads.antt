-- ===== src/Zke/Db/Reads.antt =====
-- About the loop of `getClustersFromDB` of pkg/zke/db.go, and the lists that it reads.
use singlecloud.Base.{
  String, List, [], ◌∷◌, none, some, ◌≡◌, ◌≢◌, sym, ap, subst, inl, inr, arith, All, lookup, eq_iff,
  eq_refl, Option-cases, Bool-cases, str_eq, ◌∙◌,
}
use singlecloud.Kv.{Kv, Codec}
use singlecloud.Zke.World.{ClusterState}
use singlecloud.Zke.Db.{read_all}

-- Each key once.
abbrev pub IsKeyed : {A : Type 0} → List (String × A) → Type 0
IsKeyed [] = Unit
IsKeyed ((k, v) ∷ m) = All (λ e. k ≢ e.0) m × IsKeyed m

pub All-map :
    {A : Type 0} (P Q : A → Type 0) → ((a : A) → P a → Q a) → (l : List A) → All P l → All Q l
All-map P Q f [] h = tt
All-map P Q f (a ∷ l) h = (f a h.0, All-map P Q f l h.1)

pub All-zip :
    {A : Type 0} (P Q : A → Type 0) (l : List A) → All P l → All Q l → All (λ a. P a × Q a) l
All-zip P Q [] p q = tt
All-zip P Q (a ∷ l) p q = ((p.0, q.0), All-zip P Q l p.1 q.1)

pub some_lem : {A : Type 0} {a b : A} → some a ≡ some b → a ≡ b
some_lem {a = a} e = ap (λ o. elim o [ none ↦ a | some c ↦ c ]) e

pub All-any : {A : Type 0} (P : A → Type 0) → ((a : A) → P a) → (l : List A) → All P l
All-any P f [] = tt
All-any P f (a ∷ l) = (f a, All-any P f l)

pub All-lookup :
    {A : Type 0} (m : List (String × A)) → IsKeyed m → All (λ e. lookup e.0 m ≡ some e.1) m
All-lookup [] h = tt
All-lookup ((k, v) ∷ m) h = (
  ground (arith, eq_refl k),
  All-map _ _ (λ e p. ground (arith, p.0, p.1, eq_iff k e.0)) m
      (All-zip (λ e. k ≢ e.0) (λ e. lookup e.0 m ≡ some e.1) m h.0 (All-lookup m h.1)),
)

module _ {F V : Type 0} (kv : Kv V) (json : Codec (ClusterState F) V) where
  -- The first entry and the rest.
  read_all-cons :
      (k : String) (v : V) (m : List (String × V)) (states : List (String × ClusterState F))
      → read_all kv json ((k, v) ∷ m) ≡ some states
      → (s : ClusterState F) × (rest : List (String × ClusterState F)) × (json.unmarshal v ≡ some s)
        × (read_all kv json m ≡ some rest)
        × (states ≡ (k, s) ∷ rest)
  unfolding read_all
  read_all-cons k v m states e = elim (Option-cases (json.unmarshal v)) [
    | inl n ↦ ground (arith, e, n)
    | inr (s, n) ↦ elim (Option-cases (read_all kv json m)) [
      | inl r ↦ ground (arith, e, n, r)
      | inr (rest, r) ↦ (s, rest, n, r, ground (arith, e, n, r))
    ]
  ]

  -- What holds of all values holds of what is read of them.
  pub read_all-All :
      (R : String → V → Type 0) (P : String → ClusterState F → Type 0)
      → ((k : String) (v : V) (s : ClusterState F) → R k v → json.unmarshal v ≡ some s → P k s)
      → (m : List (String × V)) (states : List (String × ClusterState F)) → All (λ e. R e.0 e.1) m
      → read_all kv json m ≡ some states
      → All (λ e. P e.0 e.1) states
  unfolding read_all
  read_all-All R P f [] states h e =
      subst (All (λ x. P x.0 x.1)) {x = []} {y = states} (ground (arith, e)) tt
  read_all-All R P f ((k, v) ∷ m) states h e =
      let (s, rest, n, r, q) = read_all-cons k v m states e in
      subst (All (λ x. P x.0 x.1)) (sym q) (f k v s h.0 n, read_all-All R P f m rest h.1 r)

  pub read_all-IsKeyed :
      (m : List (String × V)) (states : List (String × ClusterState F))
      → IsKeyed m
      → read_all kv json m ≡ some states
      → IsKeyed states
  unfolding read_all
  read_all-IsKeyed [] states h e = subst IsKeyed {x = []} {y = states} (ground (arith, e)) tt
  read_all-IsKeyed ((k, v) ∷ m) states h e =
      let (s, rest, n, r, q) = read_all-cons k v m states e in
      subst IsKeyed (sym q) (
        read_all-All (λ j w. k ≢ j) (λ j w. k ≢ j) (λ j w t a b. a) m rest h.0 r,
        read_all-IsKeyed m rest h.1 r,
      )

  -- What holds of all that was read holds of a state that a key has.
  pub read_all-lookup :
      (P : String × ClusterState F → Type 0) (m : List (String × V))
      (states : List (String × ClusterState F)) (k : String) (v : V) (s : ClusterState F)
      → read_all kv json m ≡ some states
      → lookup k m ≡ some v
      → json.unmarshal v ≡ some s
      → All P states
      → P (k, s)
  read_all-lookup P [] states k v s e h u a = cc
  read_all-lookup P ((j, x) ∷ m) states k v s e h u a =
      let (t, rest, n, r, q) = read_all-cons j x m states e in
      let b : P (j, t) × All P rest = subst (All P) q a in
      elim (Bool-cases (str_eq j k)) [
        | inl i ↦
            let value : x ≡ v = some_lem (ground (arith, h, i)) in
            let same : t ≡ s = some_lem (sym n ∙ (ap json.unmarshal value ∙ u)) in
            subst (λ y. P (y, s)) ((eq_iff j k).0 i) (subst (λ y. P (j, y)) same b.0)
        | inr i ↦ read_all-lookup P m rest k v s r (ground (arith, h, i)) u b.1
      ]
