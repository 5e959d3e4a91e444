-- ===== src/Zke/Invariant/Loads.antt =====
-- About a round of the loop of `loadDB` of pkg/zke/manager.go: what it adds to the manager.
use singlecloud.Base.{
  ℕ, String, Bool, true, false, List, [], ◌∷◌, ◌++◌, some, ◌≡◌, ◌≢◌, refl, sym, ◌∙◌, ap, subst, ◌⊎◌,
  inl, inr, arith, All, if◌then◌else◌,
}
use singlecloud.Kv.{Kv, Codec}
use singlecloud.Zke.Types.{ClusterStatus, cs_running, cs_create_failed}
use singlecloud.Zke.World.{Published, ClusterState, Cluster, World}
use singlecloud.Zke.Lifecycle.{publish}
use singlecloud.Zke.Manager.{add}
use singlecloud.Zke.Invariant.{In, IsGoodAt, saved_state, Inv}
use singlecloud.Zke.Invariant.Events.{set_cluster-heap}
use singlecloud.Zke.Invariant.Creates.{Adds, Adds-Inv, In-snoc}

module _ {F V : Type 0} (kv : Kv V) (json : Codec (ClusterState F) V) where
  -- A cluster of the table is added with the state that is stored.
  pub load-Adds :
      (c : Cluster F) (s : ClusterState F) (w : World F kv.Table)
      → saved_state kv json w c.name ≡ some s
      → Adds kv json c s w (add c w)
  unfolding add
  load-Adds c s w h = record {
    new_clusters = refl;
    new_next = refl;
    same_crashed = refl;
    same_overlapped = refl;
    new_heap = set_cluster-heap kv json w.next c w;
    same_heap = λ q n. ground (arith, n);
    new_saved = h;
    same_saved = λ k n. refl;
  }

  pub shown-Adds :
      (c : Cluster F) (s : ClusterState F) (w : World F kv.Table) (e : Published)
      → saved_state kv json w c.name ≡ some s
      → Adds kv json c s w (publish e (add c w))
  unfolding publish add
  shown-Adds c s w e h =
      let a = load-Adds c s w h in
      record {
        new_clusters = refl;
        new_next = refl;
        same_crashed = refl;
        same_overlapped = refl;
        new_heap = a.new_heap;
        same_heap = a.same_heap;
        new_saved = h;
        same_saved = λ k n. refl;
      }

  -- The names of the manager are not among those still to come.
  abbrev pub IsFresh : World F kv.Table → String → Type 0
  IsFresh w k = (q : ℕ) → In q w.clusters → (w.heap q).name ≢ k

  pub Adds-IsFresh :
      (c : Cluster F) (s : ClusterState F) (w w' : World F kv.Table) (j : String)
      → Inv kv json w
      → Adds kv json c s w w'
      → c.name ≢ j
      → IsFresh w j
      → IsFresh w' j
  Adds-IsFresh c s w w' j inv a n f q i =
      by (In-snoc q w.next w.clusters (subst (In q) a.new_clusters i))
    where
      by : In q w.clusters ⊎ (q ≡ w.next) → (w'.heap q).name ≢ j
      by (inl h) =
          subst (λ (x : Cluster F). x.name ≢ j)
            (sym (a.same_heap q (λ e. ground (arith, e, inv.old q h)))) (f q h)
      by (inr e) = subst (λ (x : Cluster F). x.name ≢ j) (sym (ap w'.heap e ∙ a.new_heap)) n

  -- The status of a stored cluster at the start.
  abbrev pub first_status : ClusterState F → ClusterStatus
  first_status s = if s.created then cs_running else cs_create_failed

  -- What the round for a cluster of the table does; the Boolean is whether it can be reached.
  abbrev pub Loads : Bool → String → ClusterState F → World F kv.Table → World F kv.Table → Type 0
  Loads inited k s w w' =
      (w'.db_table ≡ w.db_table)
      × (((w' ≡ w) × ((s.created ≡ true) × (inited ≡ false)))
          ⊎ ((c : Cluster F) × (Adds kv json c s w w'
                × (IsGoodAt c.status c s × ((c.name ≡ k) × (c.status ≡ first_status s))))))

  pub Loads-Inv :
      (b : Bool) (k : String) (s : ClusterState F) (w w' : World F kv.Table)
      → Inv kv json w
      → IsFresh w k
      → Loads b k s w w'
      → Inv kv json w'
  Loads-Inv b k s w w' inv f (t, inl (e, r)) = subst (Inv kv json) (sym e) inv
  Loads-Inv b k s w w' inv f (t, inr (c, (a, (g, (n, z))))) =
      Adds-Inv kv json c s w w' inv (λ q i. subst (λ x. (w.heap q).name ≢ x) (sym n) (f q i)) a g

  pub Loads-IsFresh :
      (b : Bool) (k j : String) (s : ClusterState F) (w w' : World F kv.Table)
      → Inv kv json w
      → k ≢ j
      → Loads b k s w w'
      → IsFresh w j
      → IsFresh w' j
  Loads-IsFresh b k j s w w' inv d (t, inl (e, r)) f = subst (λ x. IsFresh x j) (sym e) f
  Loads-IsFresh b k j s w w' inv d (t, inr (c, (a, (g, (n, z))))) f =
      Adds-IsFresh c s w w' j inv a (subst (λ x. x ≢ j) (sym n) d) f

  -- A cluster of the table is in the manager, unless it was created and cannot be reached.
  abbrev pub IsPresent : (String → Bool) → World F kv.Table → String × ClusterState F → Type 0
  IsPresent inits w e =
      ((e.1.created ≡ true) × (inits e.0 ≡ false))
      ⊎ ((p : ℕ) × (In p w.clusters
            × (((w.heap p).name ≡ e.0) × ((w.heap p).status ≡ first_status e.1))))

  pub record Loaded (inits : String → Bool) (m : List (String × ClusterState F))
      (w w' : World F kv.Table) : Type 0 where
    pub inv : Inv kv json w'
    pub keeps : (e : String × ClusterState F) → IsPresent inits w e → IsPresent inits w' e
    pub all : All (IsPresent inits w') m

  pub Adds-In :
      (c : Cluster F) (s : ClusterState F) (w w' : World F kv.Table) (q : ℕ)
      → Adds kv json c s w w'
      → In q w.clusters ⊎ (q ≡ w.next)
      → In q w'.clusters
  Adds-In c s w w' q a i = subst (In q) (sym a.new_clusters) (at_end w.clusters i)
    where
      at_end : (l : List ℕ) → In q l ⊎ (q ≡ w.next) → In q (l ++ w.next ∷ [])
      at_end [] (inl h) = absurd h
      at_end [] (inr e) = inl e
      at_end (x ∷ l) (inl (inl e)) = inl e
      at_end (x ∷ l) (inl (inr h)) = inr (at_end l (inl h))
      at_end (x ∷ l) (inr e) = inr (at_end l (inr e))

  pub Loads-keeps :
      (inits : String → Bool) (k : String) (s : ClusterState F) (w w' : World F kv.Table)
      → Inv kv json w
      → Loads (inits k) k s w w'
      → (e : String × ClusterState F) → IsPresent inits w e
      → IsPresent inits w' e
  Loads-keeps inits k s w w' inv l e (inl h) = inl h
  Loads-keeps inits k s w w' inv (t, inl (same, r)) e (inr h) =
      subst (λ x. IsPresent inits x e) (sym same) (inr h)
  Loads-keeps inits k s w w' inv (t, inr (c, (a, z))) e (inr (p, (i, (n, st)))) =
      let kept : w'.heap p ≡ w.heap p = a.same_heap p (λ q. ground (arith, q, inv.old p i)) in
      inr (
        p,
        (
          Adds-In c s w w' p a (inl i),
          (ap (λ (x : Cluster F). x.name) kept ∙ n, ap (λ (x : Cluster F). x.status) kept ∙ st),
        ),
      )

  pub Loads-IsPresent :
      (inits : String → Bool) (k : String) (s : ClusterState F) (w w' : World F kv.Table)
      → Loads (inits k) k s w w'
      → IsPresent inits w' (k, s)
  Loads-IsPresent inits k s w w' (t, inl (same, r)) = inl r
  Loads-IsPresent inits k s w w' (t, inr (c, (a, (g, (n, st))))) = inr (
    w.next,
    (
      Adds-In c s w w' w.next a (inr refl),
      (
        ap (λ (x : Cluster F). x.name) a.new_heap ∙ n,
        ap (λ (x : Cluster F). x.status) a.new_heap ∙ st,
      ),
    ),
  )
