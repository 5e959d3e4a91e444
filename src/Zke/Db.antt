-- ===== src/Zke/Db.antt =====
-- pkg/zke/db.go: the table of cluster states.
pub mod Saves
pub mod Reads
use singlecloud.Base.{
  String, Bool, true, false, List, [], ◌∷◌, Option, none, some, inl, inr, bind, arith, ◌≡◌, refl,
  ap, ◌⊎◌, assign, lookup, if◌then◌else◌, Option-cases, eq_iff,
}
use singlecloud.Kv.{Kv, Codec, transact, encoded, stored, Puts, stored-encoded, stored-delete}
use singlecloud.Zke.World.{ClusterState}

module _ {F V : Type 0} (kv : Kv V) (json : Codec (ClusterState F) V) where
  open kv use {
    Table, Tx, begin, get, list, add, update, delete, commit, contents, staged, rollback, begin-inl,
    begin-inr, get_lem, add_lem, update_lem, commit_lem,
  }
  open json use {unmarshal}

  -- `readClusterJson` is `unmarshal`: encoding/json, and the pki library's change of the
  -- certificates, which are part of the full state.
  unfoldable pub get_cluster_from_db : String → Table → Table × Option (ClusterState F)
  get_cluster_from_db id t = elim (begin t) [
    | inl t' ↦ (t', none)
    | inr x ↦ ((commit x).0, bind (get x id) unmarshal)
  ]

  -- `tx.Get`, then `tx.Add` or `tx.Update`.
  abbrev pub add_or_update : Tx → String → V → Option Tx
  add_or_update x k v = elim (get x k) [ none ↦ add x k v | some old ↦ update x k v ]

  unfoldable pub create_or_update_cluster_from_db : String → ClusterState F → Table → Table × Bool
  create_or_update_cluster_from_db id s t = transact kv t (encoded kv json add_or_update id s)

  unfoldable pub delete_cluster_from_db : String → Table → Table × Bool
  delete_cluster_from_db id t = transact kv t (λ x. delete x id)

  -- The loop of `getClustersFromDB`.
  unfoldable pub read_all : List (String × V) → Option (List (String × ClusterState F))
  read_all [] = some []
  read_all ((k, v) ∷ m) =
      let rest = read_all m in
      bind (unmarshal v) λ state. bind rest λ states. some ((k, state) ∷ states)

  unfoldable pub get_clusters_from_db : Table → Table × Option (List (String × ClusterState F))
  unfolding read_all
  get_clusters_from_db t = elim (begin t) [
    | inl t' ↦ (t', none)
    | inr x ↦ ((commit x).0, bind (list x) read_all)
  ]

  add_or_update-Puts : Puts kv add_or_update
  add_or_update-Puts k v x y e = elim (Option-cases (get x k)) [
    | inl n ↦ add_lem x y k v (ground arith)
    | inr (w, n) ↦ update_lem x y k v (ground arith)
  ]

  -- A state that was saved is what is stored under its name, the others are as they were; a
  -- save that fails changes nothing.
  pub stored-create_or_update :
      (id j : String) (s : ClusterState F) (t : Table)
      → stored kv json (create_or_update_cluster_from_db id s t).0 j ≡ (
          if (create_or_update_cluster_from_db id s t).1
          then assign id (some s) (stored kv json t) j
          else stored kv json t j)
  unfolding create_or_update_cluster_from_db
  stored-create_or_update id j s t =
      stored-encoded kv json add_or_update add_or_update-Puts t id j s

  pub stored-delete_cluster :
      (id j : String) (t : Table)
      → stored kv json (delete_cluster_from_db id t).0 j ≡ (
          if (delete_cluster_from_db id t).1
          then assign id none (stored kv json t) j
          else stored kv json t j)
  unfolding delete_cluster_from_db
  stored-delete_cluster id j t = stored-delete kv json t id j

  -- A read leaves the table as it was, and finds what is stored or fails.
  pub get_cluster_from_db_lem :
      (id : String) (t : Table)
      → ((j : String) → stored kv json (get_cluster_from_db id t).0 j ≡ stored kv json t j)
        × (((get_cluster_from_db id t).1 ≡ stored kv json t id)
            ⊎ ((get_cluster_from_db id t).1 ≡ none))
  unfolding get_cluster_from_db
  get_cluster_from_db_lem id t = go (begin t) refl
    where
      go :
          (r : Table ⊎ Tx)
          → begin t ≡ r
          → ((j : String) → stored kv json (get_cluster_from_db id t).0 j ≡ stored kv json t j)
            × (((get_cluster_from_db id t).1 ≡ stored kv json t id)
                ⊎ ((get_cluster_from_db id t).1 ≡ none))
      go (inl t') b = (
        (λ j. ground (arith, ap (λ (g : String → Option V). g j) (begin-inl t t' b))),
        inr (ground arith),
      )
      go (inr x) b = (
        (λ j. ground (
          arith,
          ap (λ (g : String → Option V). g j) (begin-inr t x b).0,
          ap (λ (g : String → Option V). g j) (begin-inr t x b).1,
          ap (λ (g : String → Option V). g j) (commit_lem x),
        )),
        ground (arith, get_lem x id, ap (λ (g : String → Option V). g id) (begin-inr t x b).0),
      )
