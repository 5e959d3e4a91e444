-- ===== src/Kv.antt =====
-- The key-value store that the managers keep their state in (github.com/zdnscloud/kvzoo, which is
-- not part of this repository), as a parameter: tables, transactions and what their calls promise.
-- `contents` and `staged` are what a table and a transaction hold, key by key.
use singlecloud.Base.{
  String, ◌≡◌, refl, ap, ◌⊎◌, inl, inr, Bool, true, false, Option, none, some, List, arith, lookup,
  assign, bind, if◌then◌else◌, Option-cases,
}
pub mod Memory
pub mod Reliable
pub mod Keys
pub mod Mirror

pub record Kv (V : Type 0) : Type 1 where
  pub Table : Type 0
  pub Tx : Type 0
  -- `inl`: the call returns an error, and leaves that table
  pub begin : Table → Table ⊎ Tx
  -- `none`: the call returns an error
  pub get : Tx → String → Option V
  pub list : Tx → Option (List (String × V))
  pub add : Tx → String → V → Option Tx
  pub update : Tx → String → V → Option Tx
  pub delete : Tx → String → Option Tx
  -- `false`: the call returns an error
  pub commit : Tx → Table × Bool
  pub rollback : Tx → Table
  pub contents : Table → String → Option V
  pub staged : Tx → String → Option V
  pub begin-inl : (t t' : Table) → begin t ≡ inl t' → contents t' ≡ contents t
  pub begin-inr :
      (t : Table) (x : Tx)
      → begin t ≡ inr x
      → (staged x ≡ contents t) × (contents (rollback x) ≡ contents t)
  pub get_lem : (x : Tx) (k : String) → (get x k ≡ staged x k) ⊎ (get x k ≡ none)
  pub list_lem :
      (x : Tx) (m : List (String × V)) → list x ≡ some m → (k : String) → lookup k m ≡ staged x k
  pub add_lem :
      (x y : Tx) (k : String) (v : V)
      → add x k v ≡ some y
      → (staged y ≡ assign k (some v) (staged x)) × (contents (rollback y) ≡ contents (rollback x))
  pub update_lem :
      (x y : Tx) (k : String) (v : V)
      → update x k v ≡ some y
      → (staged y ≡ assign k (some v) (staged x)) × (contents (rollback y) ≡ contents (rollback x))
  pub delete_lem :
      (x y : Tx) (k : String)
      → delete x k ≡ some y
      → (staged y ≡ assign k none (staged x)) × (contents (rollback y) ≡ contents (rollback x))
  pub commit_lem :
      (x : Tx) → contents (commit x).0 ≡ (if (commit x).1 then staged x else contents (rollback x))

-- encoding/json at one type, as a parameter: what it writes it reads back.
pub record Codec (A V : Type 0) : Type 0 where
  pub marshal : A → Option V
  pub unmarshal : V → Option A
  pub unmarshal-marshal : (a : A) (v : V) → marshal a ≡ some v → unmarshal v ≡ some a

module _ {V : Type 0} (kv : Kv V) where
  open kv use {
    Table, Tx, begin, add, update, delete, commit, rollback, contents, staged, begin-inl, begin-inr,
    add_lem, update_lem, delete_lem, commit_lem,
  }

  -- The shape of every writing helper: begin, one change, commit, and a deferred rollback. The
  -- flag is whether `nil` is returned.
  unfoldable pub transact : Table → (Tx → Option Tx) → Table × Bool
  transact t change = elim (begin t) [
    | inl t' ↦ (t', false)
    | inr x ↦ elim (change x) [ none ↦ (rollback x, false) | some y ↦ commit y ]
  ]

  -- A change of a transaction that has the effect `f`, and is undone by a rollback.
  abbrev pub Changes : (Tx → Option Tx) → ((String → Option V) → String → Option V) → Type 0
  Changes change f =
      (x y : Tx)
      → change x ≡ some y
      → (staged y ≡ f (staged x)) × (contents (rollback y) ≡ contents (rollback x))

  -- All or nothing: a transaction that returns an error leaves the table as it was.
  pub contents-transact :
      (t : Table) (change : Tx → Option Tx) (f : (String → Option V) → String → Option V)
      → Changes change f
      → contents (transact t change).0
        ≡ (if (transact t change).1 then f (contents t) else contents t)
  unfolding transact
  contents-transact t change f h = go (begin t) refl
    where
      opened :
          (x : Tx) (o : Option Tx)
          → begin t ≡ inr x
          → change x ≡ o
          → contents (transact t change).0
            ≡ (if (transact t change).1 then f (contents t) else contents t)
      opened x none b c = ground (arith, begin-inr t x b)
      opened x (some y) b c = ground (arith, begin-inr t x b, h x y c, commit_lem y)

      go :
          (r : Table ⊎ Tx)
          → begin t ≡ r
          → contents (transact t change).0
            ≡ (if (transact t change).1 then f (contents t) else contents t)
      go (inl t') b = ground (arith, begin-inl t t' b)
      go (inr x) b = opened x (change x) b refl

  -- Two changes to one key: write it, and take it away.
  abbrev pub Puts : (Tx → String → V → Option Tx) → Type 0
  Puts op = (k : String) (v : V) → Changes (λ x. op x k v) (assign k (some v))

  pub add-Puts : Puts add
  add-Puts k v x y e = add_lem x y k v e

  pub update-Puts : Puts update
  update-Puts k v x y e = update_lem x y k v e

  pub delete-Changes : (k : String) → Changes (λ x. delete x k) (assign k none)
  delete-Changes k x y e = delete_lem x y k e

module _ {A V : Type 0} (kv : Kv V) (json : Codec A V) where
  open kv use {Table, Tx, delete, contents}
  open json use {marshal, unmarshal, unmarshal-marshal}

  -- What the table holds, read back.
  abbrev pub stored : Table → String → Option A
  stored t k = bind (contents t k) unmarshal

  -- `json.Marshal`, then `tx.Add` or `tx.Update`.
  abbrev pub encoded : (Tx → String → V → Option Tx) → String → A → Tx → Option Tx
  encoded op k a x = bind (marshal a) (op x k)

  Changes-none :
      (op : Tx → String → V → Option Tx) (k : String) (a : A)
      (f : (String → Option V) → String → Option V)
      → marshal a ≡ none
      → Changes kv (encoded op k a) f
  Changes-none op k a f m x y e = ground arith

  Changes-some :
      (op : Tx → String → V → Option Tx)
      → Puts kv op
      → (k : String) (a : A) (v : V) → marshal a ≡ some v
      → Changes kv (encoded op k a) (assign k (some v))
  Changes-some op p k a v m x y e = p k v x y (ground arith)

  refused :
      (op : Tx → String → V → Option Tx) (t : Table) (k : String) (a : A)
      → marshal a ≡ none
      → (transact kv t (encoded op k a)).1 ≡ false
  unfolding transact
  refused op t k a m = ground arith

  -- A written value is read back; a failed write changes nothing.
  pub stored-encoded :
      (op : Tx → String → V → Option Tx)
      → Puts kv op
      → (t : Table) (k j : String) (a : A)
      → stored (transact kv t (encoded op k a)).0 j ≡ (
          if (transact kv t (encoded op k a)).1 then assign k (some a) (stored t) j else stored t j)
  stored-encoded op p t k j a = elim (Option-cases (marshal a)) [
    | inl m ↦ ground (
      arith,
      ap (λ (g : String → Option V). g j)
          (contents-transact kv t (encoded op k a) (λ g. assign k none g)
            (Changes-none op k a (λ g. assign k none g) m)),
      refused op t k a m,
    )
    | inr (v, m) ↦ ground (
      arith,
      ap (λ (g : String → Option V). g j)
          (contents-transact kv t (encoded op k a) (assign k (some v)) (Changes-some op p k a v m)),
      unmarshal-marshal a v m,
    )
  ]

  pub stored-delete :
      (t : Table) (k j : String)
      → stored (transact kv t (λ x. delete x k)).0 j
        ≡ (if (transact kv t (λ x. delete x k)).1 then assign k none (stored t) j else stored t j)
  stored-delete t k j = ground (
    arith,
    ap (λ (g : String → Option V). g j)
        (contents-transact kv t (λ x. delete x k) (assign k none) (delete-Changes kv k)),
  )

  -- `json.Marshal`, and then a transaction that writes.
  unfoldable pub marshal_first : (Tx → String → V → Option Tx) → String → A → Table → Table × Bool
  marshal_first op k a t = elim (marshal a) [
    | none ↦ (t, false)
    | some v ↦ transact kv t (λ x. op x k v)
  ]

  pub stored-marshal_first :
      (op : Tx → String → V → Option Tx)
      → Puts kv op
      → (t : Table) (k j : String) (a : A)
      → stored (marshal_first op k a t).0 j
        ≡ (if (marshal_first op k a t).1 then assign k (some a) (stored t) j else stored t j)
  unfolding marshal_first
  stored-marshal_first op p t k j a = elim (Option-cases (marshal a)) [
    | inl m ↦ ground (arith, m)
    | inr (v, m) ↦ ground (
      arith,
      m,
      ap (λ (g : String → Option V). g j)
          (contents-transact kv t (λ x. op x k v) (assign k (some v)) (p k v)),
      unmarshal-marshal a v m,
    )
  ]
