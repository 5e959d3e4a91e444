-- ===== src/Kv/Memory.antt =====
-- A store in memory: it shows that what `Kv` asks can be met, and it runs in the tests. Each
-- transaction takes one item off a list that says whether it can begin.
use singlecloud.Base.{
  String, ◌≡◌, refl, ◌⊎◌, inl, inr, Bool, true, false, Option, none, some, List, [], ◌∷◌, arith,
  sym, lookup, insert, remove, assign, lookup-insert, lookup-remove, fun_ext,
}
use singlecloud.Kv.{Kv, Codec}

module _ (V : Type 0) where
  pub record Db : Type 0 where
    pub fates : List Bool
    pub entries : List (String × V)

  pub record Tx : Type 0 where
    pub before : Db
    pub now : List (String × V)

  abbrev pub start : Db → Tx
  start d = record { before = d; now = d.entries }

  abbrev pub begin_with : List Bool → List (String × V) → Db ⊎ Tx
  begin_with [] m = inr (start (record { fates = []; entries = m }))
  begin_with (true ∷ r) m = inr (start (record { fates = r; entries = m }))
  begin_with (false ∷ r) m = inl (record { fates = r; entries = m })

  abbrev pub begin : Db → Db ⊎ Tx
  begin d = begin_with d.fates d.entries

  -- A new key only.
  abbrev pub add : Tx → String → V → Option Tx
  add x k v = elim (lookup k x.now) [
    | none ↦ some (record x { now = insert k v x.now })
    | some w ↦ none
  ]

  -- A key that is there only.
  abbrev pub update : Tx → String → V → Option Tx
  update x k v = elim (lookup k x.now) [
    | none ↦ none
    | some w ↦ some (record x { now = insert k v x.now })
  ]

  abbrev pub held : List (String × V) → String → Option V
  held m k = lookup k m

  pub held-insert :
      (k : String) (v : V) (m : List (String × V))
      → held (insert k v m) ≡ assign k (some v) (held m)
  held-insert k v m = fun_ext λ j. lookup-insert k j v m

  held-remove : (k : String) (m : List (String × V)) → held (remove k m) ≡ assign k none (held m)
  held-remove k m = fun_ext λ j. lookup-remove k j m

  pub begin_with-inl :
      (f : List Bool) (m : List (String × V)) (d : Db)
      → begin_with f m ≡ inl d
      → held d.entries ≡ held m
  begin_with-inl [] m d e = cc
  begin_with-inl (true ∷ r) m d e = cc
  begin_with-inl (false ∷ r) m d e = ground arith

  pub begin_with-inr :
      (f : List Bool) (m : List (String × V)) (x : Tx)
      → begin_with f m ≡ inr x
      → (held x.now ≡ held m) × (held x.before.entries ≡ held m)
  begin_with-inr [] m x e = ground arith
  begin_with-inr (true ∷ r) m x e = ground arith
  begin_with-inr (false ∷ r) m x e = cc

  pub add_lem :
      (x y : Tx) (k : String) (v : V)
      → add x k v ≡ some y
      → (held y.now ≡ assign k (some v) (held x.now))
        × (held y.before.entries ≡ held x.before.entries)
  add_lem x y k v e = ground (arith, held-insert k v x.now)

  pub update_lem :
      (x y : Tx) (k : String) (v : V)
      → update x k v ≡ some y
      → (held y.now ≡ assign k (some v) (held x.now))
        × (held y.before.entries ≡ held x.before.entries)
  update_lem x y k v e = ground (arith, held-insert k v x.now)

  pub delete_lem :
      (x y : Tx) (k : String)
      → some (record x { now = remove k x.now }) ≡ some y
      → (held y.now ≡ assign k none (held x.now)) × (held y.before.entries ≡ held x.before.entries)
  delete_lem x y k e = ground (arith, held-remove k x.now)

  pub list_lem :
      (x : Tx) (m : List (String × V))
      → some x.now ≡ some m
      → (k : String) → lookup k m ≡ held x.now k
  list_lem x m e k = ground arith

  abbrev pub memory : Kv V
  memory = record {
    Table = Db;
    Tx = Tx;
    begin = begin;
    get = λ x k. lookup k x.now;
    list = λ x. some x.now;
    add = add;
    update = update;
    delete = λ x k. some (record x { now = remove k x.now });
    commit = λ x. (record { fates = x.before.fates; entries = x.now }, true);
    rollback = λ x. x.before;
    contents = λ d. held d.entries;
    staged = λ x. held x.now;
    begin-inl = λ t. begin_with-inl t.fates t.entries;
    begin-inr = λ t. begin_with-inr t.fates t.entries;
    get_lem = λ x k. inl refl;
    list_lem = list_lem;
    add_lem = add_lem;
    update_lem = update_lem;
    delete_lem = delete_lem;
    commit_lem = λ x. refl;
  }

-- A value written as it is.
abbrev pub plain : (A : Type 0) → Codec A A
plain A = record {
  marshal = λ a. some a;
  unmarshal = λ a. some a;
  unmarshal-marshal = λ a v e. sym e;
}
