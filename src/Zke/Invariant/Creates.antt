-- ===== src/Zke/Invariant/Creates.antt =====
-- About `Create` of pkg/zke/manager.go.
use singlecloud.Base.{
  ℕ, suc, ◌<◌, String, false, not, List, [], ◌∷◌, ◌++◌, Option, none, some, ◌≡◌, refl, sym, ◌∙◌, ap,
  subst, ◌≢◌, ◌⊎◌, inl, inr, arith, Bool-cases, All, str_eq, eq_iff,
}
use singlecloud.Kv.{Kv, Codec}
use singlecloud.Kv.Reliable.{IsReliable}
use singlecloud.Zke.Types.{ScCluster, cs_creating, trim_field_space}
use singlecloud.Zke.Validation.{Invalid}
use singlecloud.Zke.Fsm.{Fsm}
use singlecloud.Zke.World.{ClusterState, Cluster, World, Env, creating}
use singlecloud.Zke.Db.{create_or_update_cluster_from_db}
use singlecloud.Zke.Db.Saves.{create_or_update-true, stored-saved}
use singlecloud.Zke.Lifecycle.{save}
use singlecloud.Zke.Manager.{
  get, find_named, new_cluster, add, set_cancel, start, fresh_state, create_written, create_checked,
  create_of, create_cluster,
}
use singlecloud.Zke.Invariant.{IsGood, IsGoodAt, In, HasNames, saved_state, Inv}
use singlecloud.Zke.Invariant.Events.{set_cluster-heap, saved-save}
use singlecloud.Zke.Invariant.Requests.{Inv-if_pair}

pub In-snoc : (q n : ℕ) (ps : List ℕ) → In q (ps ++ n ∷ []) → In q ps ⊎ (q ≡ n)
In-snoc q n [] (inl e) = inr e
In-snoc q n [] (inr i) = absurd i
In-snoc q n (p ∷ ps) (inl e) = inl (inl e)
In-snoc q n (p ∷ ps) (inr i) = elim (In-snoc q n ps i) [ inl j ↦ inl (inr j) | inr e ↦ inr e ]

module _ {F : Type 0} (heap other : ℕ → Cluster F) (n : ℕ) where
  abbrev Agree : List ℕ → Type 0
  Agree ps = (q : ℕ) → In q ps → other q ≡ heap q

  All-names_snoc :
      (x : String) (ps : List ℕ)
      → Agree ps
      → All (λ q. x ≢ (heap q).name) ps
      → x ≢ (other n).name
      → All (λ q. x ≢ (other q).name) (ps ++ n ∷ [])
  All-names_snoc x [] a h e = (e, tt)
  All-names_snoc x (p ∷ ps) a h e = (
    (λ k. h.0 (k ∙ ap (λ c. c.name) (a p (inl refl)))),
    All-names_snoc x ps (λ q i. a q (inr i)) h.1 e,
  )

  -- A new name at the end of a list.
  HasNames-snoc :
      (ps : List ℕ)
      → HasNames heap ps
      → Agree ps
      → ((q : ℕ) → In q ps → (heap q).name ≢ (other n).name)
      → HasNames other (ps ++ n ∷ [])
  HasNames-snoc [] h a f = (tt, tt)
  HasNames-snoc (p ∷ ps) h a f =
      let same : (other p).name ≡ (heap p).name = ap (λ c. c.name) (a p (inl refl)) in
      (
        subst (λ x. All (λ q. x ≢ (other q).name) (ps ++ n ∷ [])) (sym same)
            (All-names_snoc (heap p).name ps (λ q i. a q (inr i)) h.0 (f p (inl refl))),
        HasNames-snoc ps h.1 (λ q i. a q (inr i)) (λ q i. f q (inr i)),
      )

-- If `get` finds no cluster, none has the name.
find_named-none :
    {F : Type 0} (heap : ℕ → Cluster F) (id : String) (ps : List ℕ)
    → find_named heap id ps ≡ none
    → (q : ℕ) → In q ps
    → (heap q).name ≢ id
unfolding find_named
find_named-none heap id [] e q i = absurd i
find_named-none heap id (p ∷ ps) e q (inl h) =
    λ k. ground (arith, e, (eq_iff (heap p).name id).1 (ap (λ r. (heap r).name) (sym h) ∙ k))
find_named-none heap id (p ∷ ps) e q (inr i) = elim (Bool-cases (str_eq (heap p).name id)) [
  | inl h ↦ ground (arith, e, h)
  | inr h ↦ find_named-none heap id ps (ground (arith, e, h)) q i
]

module _ {F V : Type 0} (kv : Kv V) (json : Codec (ClusterState F) V) where
  -- A step that adds an object to the manager, and the state stored under its name.
  pub record Adds (c : Cluster F) (s : ClusterState F) (w w' : World F kv.Table) : Type 0 where
    pub new_clusters : w'.clusters ≡ w.clusters ++ w.next ∷ []
    pub new_next : w'.next ≡ suc w.next
    pub same_crashed : w'.crashed ≡ w.crashed
    pub same_overlapped : w'.overlapped ≡ w.overlapped
    pub new_heap : w'.heap w.next ≡ c
    pub same_heap : (q : ℕ) → q ≢ w.next → w'.heap q ≡ w.heap q
    pub new_saved : saved_state kv json w' c.name ≡ some s
    pub same_saved : (k : String) → k ≢ c.name → saved_state kv json w' k ≡ saved_state kv json w k

  pub Adds-Inv :
      (c : Cluster F) (s : ClusterState F) (w w' : World F kv.Table)
      → Inv kv json w
      → ((q : ℕ) → In q w.clusters → (w.heap q).name ≢ c.name)
      → Adds c s w w'
      → IsGoodAt c.status c s
      → Inv kv json w'
  Adds-Inv c s w w' inv f a g = record {
    no_crash = a.same_crashed ∙ inv.no_crash;
    no_overlap = a.same_overlapped ∙ inv.no_overlap;
    old = λ q i. older q (In-snoc q w.next w.clusters (subst (In q) a.new_clusters i));
    names = subst (HasNames w'.heap) (sym a.new_clusters) (
        HasNames-snoc w.heap w'.heap w.next w.clusters inv.names agree
          (λ q i. subst (λ x. (w.heap q).name ≢ x.name) (sym a.new_heap) (f q i)));
    good = λ q i. good_at q (In-snoc q w.next w.clusters (subst (In q) a.new_clusters i));
  }
    where
      agree : (q : ℕ) → In q w.clusters → w'.heap q ≡ w.heap q
      agree q i = a.same_heap q (λ e. ground (arith, e, inv.old q i))

      older : (q : ℕ) → In q w.clusters ⊎ (q ≡ w.next) → q < w'.next
      older q (inl i) = omega (arith, inv.old q i, a.new_next)
      older q (inr e) = omega (arith, e, a.new_next)

      good_at :
          (q : ℕ)
          → In q w.clusters ⊎ (q ≡ w.next)
          → IsGood (w'.heap q) (saved_state kv json w' (w'.heap q).name)
      good_at q (inl i) =
          subst (λ x. IsGood x (saved_state kv json w' x.name)) (sym (agree q i))
            (subst (IsGood (w.heap q)) (sym (a.same_saved (w.heap q).name (f q i))) (inv.good q i))
      good_at q (inr e) =
          subst (λ x. IsGood x (saved_state kv json w' x.name)) (sym (ap w'.heap e ∙ a.new_heap))
            (subst (IsGood c) (sym a.new_saved) g)

  module _ (sure : IsReliable kv json) (fsm : Fsm (World F kv.Table)) (env : Env F) where
    abbrev begun : String → ClusterState F → Cluster F
    begun name s = record (new_cluster name cs_creating s) {
      cancel = some false;
      task = some (creating s);
    }

    create_written-Adds :
        (name : String) (s : ClusterState F) (w : World F kv.Table)
        → Adds (begun name s) s w (
            start w.next
              (creating s)
              (set_cancel w.next (add (new_cluster name cs_creating s) (save kv json name s w))))
    unfolding start set_cancel add new_cluster save
    create_written-Adds name s w = record {
      new_clusters = refl;
      new_next = refl;
      same_crashed = refl;
      same_overlapped = rw (start, ap (λ (x : Cluster F). x.task) canceled);
      new_heap =
          set_cluster-heap kv json w.next _ (set_cancel w.next added)
          ∙ ap (λ (x : Cluster F). busy x) canceled;
      same_heap = λ q n. ground (arith, n);
      new_saved = saved-save kv json sure name s w;
      same_saved =
          λ k n. ground (arith, n, stored-saved kv json sure name k s w.db_table, eq_iff name k);
    }
      where
        fresh : Cluster F
        fresh = new_cluster name cs_creating s

        added : World F kv.Table
        added = add fresh (save kv json name s w)

        busy : Cluster F → Cluster F
        busy x = record x { task = some (creating s) }

        cancelable : Cluster F → Cluster F
        cancelable x = record x { cancel = some false }

        canceled : (set_cancel w.next added).heap w.next ≡ cancelable fresh
        canceled =
            set_cluster-heap kv json w.next _ added
            ∙ ap (λ (x : Cluster F). cancelable x)
                (set_cluster-heap kv json w.next fresh (save kv json name s w))

    create_written-Inv :
        (name : String) (s : ClusterState F) (w : World F kv.Table)
        → Inv kv json w
        → ((q : ℕ) → In q w.clusters → (w.heap q).name ≢ name)
        → s.created ≡ false
        → Inv kv json
            (create_written kv json fsm env name s
              (create_or_update_cluster_from_db kv json name s w.db_table)
              w).0
    unfolding create_written save new_cluster
    create_written-Inv name s w inv f n =
        Inv-if_pair kv json sure fsm env _ _
          (not (create_or_update_cluster_from_db kv json name s w.db_table).1)
          (λ h. ground (arith, h, create_or_update-true kv json sure name s w.db_table))
          (λ h.
            Adds-Inv (begun name s) s w _ inv f (create_written-Adds name s w)
              (n, (refl, n), λ e. cc))

    create_checked-Inv :
        (c : ScCluster) (now : ℕ) (o : Option Invalid) (w : World F kv.Table)
        → Inv kv json w
        → ((q : ℕ) → In q w.clusters → (w.heap q).name ≢ c.name)
        → Inv kv json (create_checked kv json fsm env c now o w).0
    unfolding create_checked fresh_state
    create_checked-Inv c now (some e) w inv f = inv
    create_checked-Inv c now none w inv f = create_written-Inv c.name _ w inv f refl

    create_of-Inv :
        (c : ScCluster) (now : ℕ) (o : Option ℕ) (w : World F kv.Table)
        → Inv kv json w
        → get c.name w ≡ o
        → Inv kv json (create_of kv json fsm env c now o w).0
    unfolding create_of get
    create_of-Inv c now (some p) w inv e = inv
    create_of-Inv c now none w inv e =
        create_checked-Inv c now _ w inv (find_named-none w.heap c.name w.clusters e)

    -- `Create` keeps the invariant, whatever the request and the time: a cluster that it adds is
    -- new by its name and its object, has its state stored, and has one goroutine. The store does
    -- not fail.
    pub create_cluster-Inv :
        (request : ScCluster) (now : ℕ) (w : World F kv.Table)
        → Inv kv json w
        → Inv kv json (create_cluster kv json fsm env request now w).0
    unfolding create_cluster
    create_cluster-Inv request now w inv =
        let c = trim_field_space env.trim_space request in
        create_of-Inv c now (get c.name w) w inv refl
