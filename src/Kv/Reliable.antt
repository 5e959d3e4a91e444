-- ===== src/Kv/Reliable.antt =====
-- A store none of whose calls fails: what the proofs about saved states suppose where the program
-- only logs an error of the store.
use singlecloud.Base.{
  String, ◌≡◌, refl, ◌⊎◌, inl, inr, true, none, some, arith, lookup, insert, remove,
}
use singlecloud.Kv.{Kv, Codec}
use singlecloud.Kv.Memory.{
  Db, Tx as MemoryTx, memory, start, held, add as add_new, update as update_old, plain,
}

pub record IsReliable {A V : Type 0} (kv : Kv V) (json : Codec A V) : Type 0 where
  pub begins : (t : kv.Table) → (x : kv.Tx) × (kv.begin t ≡ inr x)
  pub gets : (x : kv.Tx) (k : String) → kv.get x k ≡ kv.staged x k
  pub adds :
      (x : kv.Tx) (k : String) (v : V)
      → kv.staged x k ≡ none
      → (y : kv.Tx) × (kv.add x k v ≡ some y)
  pub updates :
      (x : kv.Tx) (k : String) (v w : V)
      → kv.staged x k ≡ some w
      → (y : kv.Tx) × (kv.update x k v ≡ some y)
  pub deletes : (x : kv.Tx) (k : String) → (y : kv.Tx) × (kv.delete x k ≡ some y)
  pub commits : (x : kv.Tx) → (kv.commit x).1 ≡ true
  pub marshals : (a : A) → (v : V) × (json.marshal a ≡ some v)

module _ (V : Type 0) where
  abbrev pub begin_steady : Db V → Db V ⊎ MemoryTx V
  begin_steady t = inr (start V t)

  pub begin_steady-inl :
      (t t' : Db V) → begin_steady t ≡ inl t' → held V t'.entries ≡ held V t.entries
  begin_steady-inl t t' e = cc

  pub begin_steady-inr :
      (t : Db V) (x : MemoryTx V)
      → begin_steady t ≡ inr x
      → (held V x.now ≡ held V t.entries) × (held V x.before.entries ≡ held V t.entries)
  begin_steady-inr t x e = ground arith

  -- The store in memory, with transactions that always begin.
  abbrev pub steady : Kv V
  steady = record (memory V) {
    begin = begin_steady;
    begin-inl = begin_steady-inl;
    begin-inr = begin_steady-inr;
  }

  adds_new :
      (x : MemoryTx V) (k : String) (v : V)
      → lookup k x.now ≡ none
      → (y : MemoryTx V) × (add_new V x k v ≡ some y)
  adds_new x k v e = (record x { now = insert k v x.now }, ground arith)

  updates_old :
      (x : MemoryTx V) (k : String) (v w : V)
      → lookup k x.now ≡ some w
      → (y : MemoryTx V) × (update_old V x k v ≡ some y)
  updates_old x k v w e = (record x { now = insert k v x.now }, ground arith)

  pub steady-IsReliable : IsReliable steady (plain V)
  steady-IsReliable = record {
    begins = λ t. (start V t, refl);
    gets = λ x k. refl;
    adds = adds_new;
    updates = updates_old;
    deletes = λ x k. (record x { now = remove k x.now }, refl);
    commits = λ x. refl;
    marshals = λ a. (a, refl);
  }
