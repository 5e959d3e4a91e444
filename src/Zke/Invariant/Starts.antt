-- ===== src/Zke/Invariant/Starts.antt =====
-- About the start of the manager: `newZKEManager` and `loadDB` of pkg/zke/manager.go.
use singlecloud.Base.{
  String, Bool, true, false, List, [], ◌∷◌, Option, none, some, ◌≡◌, ◌≢◌, refl, sym, ◌∙◌, ap, subst,
  ◌⊎◌, inl, inr, arith, All, lookup, bind, if◌then◌else◌, Bool-cases, Option-cases,
}
use singlecloud.Kv.{Kv, Codec, stored}
use singlecloud.Zke.Types.{cs_running, cs_create_failed}
use singlecloud.Zke.Fsm.{Fsm}
use singlecloud.Zke.World.{
  resource_create, to_sc_cluster, ClusterState, open_ch, Cluster, World, Env,
}
use singlecloud.Zke.Db.{read_all, get_clusters_from_db}
use singlecloud.Zke.Db.Reads.{
  IsKeyed, All-map, All-zip, All-any, some_lem, All-lookup, read_all-All, read_all-IsKeyed,
  read_all-lookup,
}
use singlecloud.Zke.Lifecycle.{publish}
use singlecloud.Zke.Manager.{new_cluster, add, load_cluster, load_all, started, new_zke_manager}
use singlecloud.Zke.Invariant.{In, HasNames, saved_state, Inv}
use singlecloud.Zke.Invariant.Loads.{
  load-Adds, shown-Adds, IsFresh, Loads, Loads-Inv, Loads-IsFresh, IsPresent, Loaded, Loads-keeps,
  Loads-IsPresent,
}

module _ {F V : Type 0} (kv : Kv V) (json : Codec (ClusterState F) V) where
  module _ (fsm : Fsm (World F kv.Table)) (env : Env F) where
    abbrev connected : String → ClusterState F → Cluster F
    connected k s = record (new_cluster k cs_running s) {
      kube_client = true;
      stop_ch = open_ch;
      watched = true;
    }

    connected-Loads :
        (b : Bool) (k : String) (s : ClusterState F) (w : World F kv.Table)
        → saved_state kv json w k ≡ some s
        → s.created ≡ true
        → Loads kv json b k s w
            (publish (resource_create (to_sc_cluster (connected k s))) (add (connected k s) w))
    unfolding new_cluster publish add
    connected-Loads b k s w h c = (
      refl,
      inr (
        connected k s,
        (
          shown-Adds kv json (connected k s) s w (resource_create (to_sc_cluster (connected k s)))
              h,
          ((c, refl, refl, (refl, refl)), (refl, sym (rw (c) refl))),
        ),
      ),
    )

    failed-Loads :
        (b : Bool) (k : String) (s : ClusterState F) (w : World F kv.Table)
        → saved_state kv json w k ≡ some s
        → s.created ≡ false
        → Loads kv json b k s w (add (new_cluster k cs_create_failed s) w)
    unfolding new_cluster add
    failed-Loads b k s w h c = (
      refl,
      inr (
        new_cluster k cs_create_failed s,
        (
          load-Adds kv json (new_cluster k cs_create_failed s) s w h,
          ((c, refl, refl), (refl, sym (rw (c) refl))),
        ),
      ),
    )

    load_cluster-Loads :
        (k : String) (s : ClusterState F) (inited : Bool) (w : World F kv.Table)
        → saved_state kv json w k ≡ some s
        → Loads kv json inited k s w (load_cluster kv json fsm env k s inited w)
    unfolding load_cluster
    load_cluster-Loads k s true w h = elim (Bool-cases s.created) [
      | inl c ↦
          subst (Loads kv json true k s w) (sym (rw (load_cluster, c) refl))
            (connected-Loads true k s w h c)
      | inr c ↦
          subst (Loads kv json true k s w) (sym (rw (load_cluster, c) refl))
            (failed-Loads true k s w h c)
    ]
    load_cluster-Loads k s false w h = elim (Bool-cases s.created) [
      | inl c ↦
          subst (Loads kv json false k s w) {x = w} (sym (rw (load_cluster, c) refl))
            (refl, inl (refl, (c, refl)))
      | inr c ↦
          subst (Loads kv json false k s w) (sym (rw (load_cluster, c) refl))
            (failed-Loads false k s w h c)
    ]

    load_all-Loaded :
        (inits : String → Bool) (m : List (String × ClusterState F)) (w : World F kv.Table)
        → Inv kv json w
        → IsKeyed m
        → All (λ e. saved_state kv json w e.0 ≡ some e.1) m
        → All (λ e. IsFresh kv json w e.0) m
        → Loaded kv json inits m w (load_all kv json fsm env inits m w)
    unfolding load_all
    load_all-Loaded inits [] w inv d h f = record { inv = inv; keeps = λ e i. i; all = tt }
    load_all-Loaded inits ((k, s) ∷ m) w inv d h f =
        let next = load_cluster kv json fsm env k s (inits k) w in
        let loads = load_cluster-Loads k s (inits k) w h.0 in
        let rest =
          load_all-Loaded inits m next (Loads-Inv kv json (inits k) k s w next inv f.0 loads) d.1
            (All-map _ _ (λ e p. ap (λ t. stored kv json t e.0) loads.0 ∙ p) m h.1)
            (All-map _ _ (λ e p. Loads-IsFresh kv json (inits k) k e.0 s w next inv p.0 loads p.1) m
              (All-zip (λ e. k ≢ e.0) (λ e. IsFresh kv json w e.0) m d.0 f.1)) in
        record {
          inv = rest.inv;
          keeps = λ e i. rest.keeps e (Loads-keeps kv json inits k s w next inv loads e i);
          all = (rest.keeps (k, s) (Loads-IsPresent kv json inits k s w next loads), rest.all);
        }

    empty-Inv :
        (w : World F kv.Table)
        → w.clusters ≡ []
        → w.crashed ≡ false
        → w.overlapped ≡ false
        → Inv kv json w
    empty-Inv w e c o = record {
      no_crash = c;
      no_overlap = o;
      old = λ q i. absurd (subst (In q) e i);
      names = subst (HasNames w.heap) (sym e) tt;
      good = λ q i. absurd (subst (In q) e i);
    }

    -- A read leaves the table.
    contents-commit :
        (t : kv.Table) (x : kv.Tx) → kv.begin t ≡ inr x → kv.contents (kv.commit x).0 ≡ kv.staged x
    contents-commit t x b = by (kv.commit x).1 (kv.commit_lem x)
      where
        by :
            (done : Bool)
            → kv.contents (kv.commit x).0
              ≡ (if done then kv.staged x else kv.contents (kv.rollback x))
            → kv.contents (kv.commit x).0 ≡ kv.staged x
        by true e = e
        by false e = e ∙ ((kv.begin-inr t x b).1 ∙ sym (kv.begin-inr t x b).0)

    module _ (blank : Cluster F) (sc_version : String) (inits : String → Bool) (table : kv.Table)
        (each_once : (x : kv.Tx) (m : List (String × V))
          → kv.begin table ≡ inr x
          → kv.list x ≡ some m
          → IsKeyed m) where
      abbrev manager_at : kv.Table → World F kv.Table
      manager_at t = record {
        clusters = [];
        heap = λ p. blank;
        next = 0;
        db_table = t;
        sc_version = sc_version;
        logs = λ k. false;
        published = [];
        crashed = false;
        overlapped = false;
      }

      -- The manager has the cluster of a name, and the invariant holds.
      abbrev IsStarted : String → ClusterState F → World F kv.Table → Type 0
      IsStarted k s w = Inv kv json w × IsPresent kv json inits w (k, s)

      listed_at :
          (x : kv.Tx) (m : List (String × V)) (k : String)
          → kv.begin table ≡ inr x
          → kv.list x ≡ some m
          → bind (lookup k m) json.unmarshal ≡ stored kv json table k
      listed_at x m k b l =
          ap (λ o. bind o json.unmarshal)
            (kv.list_lem x m l k ∙ ap (λ (g : String → Option V). g k) (kv.begin-inr table x b).0)

      found_in :
          (P : String × ClusterState F → Type 0) (m : List (String × V))
          (states : List (String × ClusterState F)) (k : String) (s : ClusterState F)
          → read_all kv json m ≡ some states
          → bind (lookup k m) json.unmarshal ≡ some s
          → All P states
          → P (k, s)
      found_in P m states k s r h a = elim (Option-cases (lookup k m)) [
        | inl e ↦ ground (arith, h, e)
        | inr (v, e) ↦ read_all-lookup kv json P m states k v s r e (ground (arith, h, e)) a
      ]

      loaded-IsStarted :
          (x : kv.Tx) (m : List (String × V)) (states : List (String × ClusterState F)) (k : String)
          (s : ClusterState F)
          → kv.begin table ≡ inr x
          → kv.list x ≡ some m
          → read_all kv json m ≡ some states
          → stored kv json table k ≡ some s
          → IsStarted k s (load_all kv json fsm env inits states (manager_at (kv.commit x).0))
      loaded-IsStarted x m states k s b l r h =
          let keyed = each_once x m b l in
          let loaded =
            load_all-Loaded inits states (manager_at (kv.commit x).0) (empty-Inv _ refl refl refl)
              (read_all-IsKeyed kv json m states keyed r)
              (read_all-All kv json (λ k v. kv.contents (kv.commit x).0 k ≡ some v)
                (λ k s. stored kv json (kv.commit x).0 k ≡ some s)
                (λ k v s h u. ap (λ o. bind o json.unmarshal) h ∙ u) m states
                (All-map _ _
                  (λ e p.
                    ap (λ (g : String → Option V). g e.0) (contents-commit table x b)
                    ∙ (sym (kv.list_lem x m l e.0) ∙ p))
                  m (All-lookup m keyed))
                r)
              (All-any (λ e. IsFresh kv json (manager_at (kv.commit x).0) e.0) (λ e q i. absurd i)
                states) in
          (loaded.inv, found_in _ m states k s r (listed_at x m k b l ∙ h) loaded.all)

      -- When the manager has started, the invariant holds, and each cluster of the table is in the
      -- manager under its name, as running if it was created and as failed if it was not, unless it
      -- was created and no connection to it could be made. The table lists each name once; its
      -- calls may fail.
      pub new_zke_manager-IsPresent :
          (k : String) (s : ClusterState F) (w : World F kv.Table)
          → stored kv json table k ≡ some s
          → new_zke_manager kv json fsm env blank sc_version inits table ≡ some w
          → Inv kv json w × IsPresent kv json inits w (k, s)
      unfolding new_zke_manager started get_clusters_from_db
      new_zke_manager-IsPresent k s w h e = begun (kv.begin table) refl
        where
          no_start :
              (t : kv.Table) → get_clusters_from_db kv json table ≡ (t, none) → IsStarted k s w
          no_start t g = cc (ap (started kv json fsm env blank sc_version inits) (sym g) ∙ e)

          read :
              (x : kv.Tx) (m : List (String × V)) (o : Option (List (String × ClusterState F)))
              → kv.begin table ≡ inr x
              → kv.list x ≡ some m
              → read_all kv json m ≡ o
              → (get_clusters_from_db kv json table ≡ ((kv.commit x).0, o))
              → IsStarted k s w
          read x m none b l r g = no_start (kv.commit x).0 g
          read x m (some states) b l r g =
              subst (IsStarted k s)
                (some_lem (ap (started kv json fsm env blank sc_version inits) (sym g) ∙ e))
                (loaded-IsStarted x m states k s b l r h)

          begun : (o : kv.Table ⊎ kv.Tx) → kv.begin table ≡ o → IsStarted k s w
          begun (inl t) b = no_start t (rw (get_clusters_from_db, b) refl)
          begun (inr x) b = elim (Option-cases (kv.list x)) [
            | inl l ↦ no_start (kv.commit x).0 (rw (get_clusters_from_db, b, l) refl)
            | inr (m, l) ↦
                read x m (read_all kv json m) b l refl (rw (get_clusters_from_db, b, l) refl)
          ]
