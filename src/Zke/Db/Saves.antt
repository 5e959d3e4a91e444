-- ===== src/Zke/Db/Saves.antt =====
-- The table of cluster states over a store none of whose calls fails.
use singlecloud.Base.{
  String, true, Option, none, some, inl, inr, ◌≡◌, ap, arith, assign, Option-cases, ◌∙◌, str_eq,
  if◌then◌else◌,
}
use singlecloud.Kv.{Kv, Codec, transact, stored}
use singlecloud.Kv.Reliable.{IsReliable}
use singlecloud.Zke.World.{ClusterState}
use singlecloud.Zke.Db.{
  add_or_update, create_or_update_cluster_from_db, delete_cluster_from_db, get_cluster_from_db,
  stored-create_or_update, stored-delete_cluster,
}

module _ {F V : Type 0} (kv : Kv V) (json : Codec (ClusterState F) V)
    (sure : IsReliable kv json) where
  open sure use {begins, gets, adds, updates, deletes, commits, marshals}

  add_or_update_total :
      (x : kv.Tx) (k : String) (v : V) → (y : kv.Tx) × (add_or_update kv json x k v ≡ some y)
  add_or_update_total x k v = elim (Option-cases (kv.staged x k)) [
    | inl e ↦ let (y, a) = adds x k v e in (y, ground (arith, gets x k))
    | inr (w, e) ↦ let (y, a) = updates x k v w e in (y, ground (arith, gets x k))
  ]

  pub create_or_update-true :
      (id : String) (s : ClusterState F) (t : kv.Table)
      → (create_or_update_cluster_from_db kv json id s t).1 ≡ true
  unfolding create_or_update_cluster_from_db transact
  create_or_update-true id s t =
      let (x, b) = begins t in
      let (v, m) = marshals s in
      let (y, a) = add_or_update_total x id v in ground (arith, commits y)

  pub delete-true : (id : String) (t : kv.Table) → (delete_cluster_from_db kv json id t).1 ≡ true
  unfolding delete_cluster_from_db transact
  delete-true id t = let (x, b) = begins t in let (y, a) = deletes x id in ground (arith, commits y)

  pub get-stored :
      (id : String) (t : kv.Table) → (get_cluster_from_db kv json id t).1 ≡ stored kv json t id
  unfolding get_cluster_from_db
  get-stored id t =
      let (x, b) = begins t in
      ground (arith, gets x id, ap (λ (g : String → Option V). g id) (kv.begin-inr t x b).0)

  -- A saved state is stored under its name.
  pub stored-saved :
      (id j : String) (s : ClusterState F) (t : kv.Table)
      → stored kv json (create_or_update_cluster_from_db kv json id s t).0 j
        ≡ assign id (some s) (stored kv json t) j
  stored-saved id j s t =
      ground (arith, stored-create_or_update kv json id j s t, create_or_update-true id s t)

  pub stored-erased :
      (id j : String) (t : kv.Table)
      → stored kv json (delete_cluster_from_db kv json id t).0 j
        ≡ assign id none (stored kv json t) j
  stored-erased id j t = ground (arith, stored-delete_cluster kv json id j t, delete-true id t)

  -- With a store that does not fail, saving a state succeeds, whether one was stored under the name
  -- or not, and reading any name afterwards gives the new state for that name and what reading gave
  -- before for every other.
  pub get-create_or_update :
      (id j : String) (s : ClusterState F) (t : kv.Table)
      → ((create_or_update_cluster_from_db kv json id s t).1 ≡ true)
        × ((get_cluster_from_db kv json j (create_or_update_cluster_from_db kv json id s t).0).1
            ≡ (if str_eq id j then some s else (get_cluster_from_db kv json j t).1))
  get-create_or_update id j s t = (
    create_or_update-true id s t,
    get-stored j (create_or_update_cluster_from_db kv json id s t).0
        ∙ (stored-saved id j s t ∙ ground (arith, get-stored j t)),
  )
