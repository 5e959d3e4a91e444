-- ===== src/Zke/Invariant/Destroys.antt =====
-- About the goroutine `Destroy` of pkg/zke/cluster.go and `Remove` of pkg/zke/manager.go.
use singlecloud.Base.{
  ℕ, ◌<◌, String, Bool, true, false, List, [], ◌∷◌, Option, none, some, ◌≡◌, refl, sym, ◌∙◌, ap,
  subst, ◌≢◌, ◌⊎◌, inl, inr, arith, if◌then◌else◌, Bool-cases, All, str_eq, eq_iff, assign,
}
use singlecloud.Kv.{Kv, Codec}
use singlecloud.Kv.Reliable.{IsReliable}
use singlecloud.Zke.Types.{cs_deleting, cs_deleted}
use singlecloud.Zke.Fsm.{delete_completed, delete_failed, Fsm}
use singlecloud.Zke.Fsm.Diagram.{transition, outcome, event-transition}
use singlecloud.Zke.World.{
  ClusterState, Task, creating, updating, destroying, Cluster, World, Env, set_cluster,
}
use singlecloud.Zke.Db.Saves.{stored-erased}
use singlecloud.Zke.Lifecycle.{
  UpResult, CacheResult, RemoveResult, removed, not_removed, remove_panicked, remove, remove_named,
  erase, callback, event, get_status, set_status, destroy,
}
use singlecloud.Zke.Manager.{run_task, finish_task}
use singlecloud.Zke.Invariant.{IsGood, In, HasNames, saved_state, Inv, Local}
use singlecloud.Zke.Invariant.Frame.{All-In, HasNames-same, Local-trans, Local-name}
use singlecloud.Zke.Invariant.Events.{set_cluster-Local, set_cluster-heap, alarm-Local}
use singlecloud.Zke.Invariant.Tasks.{Returns}
use singlecloud.Zke.Invariant.Steps.{destroying_at, IsGood-some, idle, idle-Local, finish_task-Inv}

In-if :
    (q p : ℕ) (b : Bool) (ps rest : List ℕ)
    → (In q rest → In q ps)
    → In q (if b then ps else p ∷ rest)
    → In q (p ∷ ps)
In-if q p true ps rest f i = inr i
In-if q p false ps rest f (inl e) = inl e
In-if q p false ps rest f (inr i) = inr (f i)

All-if :
    (P : ℕ → Type 0) (p : ℕ) (b : Bool) (ps rest : List ℕ)
    → P p
    → All P ps
    → All P rest
    → All P (if b then ps else p ∷ rest)
All-if P p true ps rest h hs hr = hs
All-if P p false ps rest h hs hr = (h, hr)

module _ {F : Type 0} (heap : ℕ → Cluster F) (name : String) where
  remove_named-In : (q : ℕ) (ps : List ℕ) → In q (remove_named heap name ps) → In q ps
  unfolding remove_named
  remove_named-In q [] i = i
  remove_named-In q (p ∷ ps) i =
      In-if q p (str_eq (heap p).name name) ps (remove_named heap name ps) (remove_named-In q ps) i

  All-remove_named : (P : ℕ → Type 0) (ps : List ℕ) → All P ps → All P (remove_named heap name ps)
  unfolding remove_named
  All-remove_named P [] h = tt
  All-remove_named P (p ∷ ps) h =
      All-if P p (str_eq (heap p).name name) ps (remove_named heap name ps) h.0 h.1
        (All-remove_named P ps h.1)

  HasNames-if :
      (p : ℕ) (b : Bool) (ps rest : List ℕ)
      → HasNames heap ps
      → HasNames heap rest
      → All (λ q. (heap p).name ≢ (heap q).name) rest
      → HasNames heap (if b then ps else p ∷ rest)
  HasNames-if p true ps rest h r a = h
  HasNames-if p false ps rest h r a = (a, r)

  HasNames-remove_named :
      (ps : List ℕ) → HasNames heap ps → HasNames heap (remove_named heap name ps)
  unfolding remove_named
  HasNames-remove_named [] h = tt
  HasNames-remove_named (p ∷ ps) h =
      HasNames-if p (str_eq (heap p).name name) ps (remove_named heap name ps) h.1
        (HasNames-remove_named ps h.1)
        (All-remove_named (λ q. (heap p).name ≢ (heap q).name) ps h.0)

  ne-if :
      (q p : ℕ) (b : Bool) (ps rest : List ℕ)
      → ((heap p).name ≡ name) ⊎ (b ≡ false)
      → (b ≡ false → (heap p).name ≢ name)
      → All (λ r. (heap p).name ≢ (heap r).name) ps
      → (In q rest → (heap q).name ≢ name)
      → In q (if b then ps else p ∷ rest)
      → (heap q).name ≢ name
  ne-if q p true ps rest (inl s) d a f i =
      λ e. All-In (λ r. (heap p).name ≢ (heap r).name) q ps i a (s ∙ sym e)
  ne-if q p true ps rest (inr s) d a f i = cc
  ne-if q p false ps rest s d a f (inl e) = λ k. d refl (ap (λ r. (heap r).name) (sym e) ∙ k)
  ne-if q p false ps rest s d a f (inr i) = f i

  -- When the names differ, the name is gone.
  remove_named-ne :
      (q : ℕ) (ps : List ℕ)
      → HasNames heap ps
      → In q (remove_named heap name ps)
      → (heap q).name ≢ name
  unfolding remove_named
  remove_named-ne q [] h i = absurd i
  remove_named-ne q (p ∷ ps) h i =
      ne-if q p (str_eq (heap p).name name) ps (remove_named heap name ps)
        (elim (Bool-cases (str_eq (heap p).name name)) [
          | inl e ↦ inl ((eq_iff (heap p).name name).0 e)
          | inr e ↦ inr e
        ])
        (λ e k. ground (arith, e, (eq_iff (heap p).name name).1 k)) h.0 (remove_named-ne q ps h.1) i

module _ {F V : Type 0} (kv : Kv V) (json : Codec (ClusterState F) V)
    (sure : IsReliable kv json) where
  erased_removed-Inv :
      (p : ℕ) (name : String) (w x : World F kv.Table)
      → Inv kv json w
      → In p w.clusters
      → Local kv json p w x
      → name ≡ (w.heap p).name
      → Inv kv json (erase kv json name (remove p x))
  unfolding erase remove
  erased_removed-Inv p name w x inv i l n = record {
    no_crash = l.same_crashed ∙ inv.no_crash;
    no_overlap = l.same_overlapped ∙ inv.no_overlap;
    old = λ q j. subst (λ k. q < k) (sym l.same_next) (inv.old q (was q j));
    names = HasNames-remove_named x.heap (x.heap p).name x.clusters named;
    good = λ q j.
        let other = remove_named-ne x.heap (x.heap p).name q x.clusters named j in
        let kept : x.heap q ≡ w.heap q = l.same_heap q (λ e. other (ap (λ r. (x.heap r).name) e)) in
        let apart : (x.heap q).name ≢ (w.heap p).name = λ e. other (e ∙ sym l.same_name) in
        subst (IsGood (x.heap q))
          (sym (
            stored-erased kv json sure name (x.heap q).name x.db_table
            ∙ (unassigned (x.heap q).name (λ e. apart (sym e ∙ n))
                ∙ l.same_saved (x.heap q).name apart)))
          (subst (λ (c : Cluster F). IsGood c (saved_state kv json w c.name)) (sym kept)
            (inv.good q (was q j)));
  }
    where
      named : HasNames x.heap x.clusters
      named =
          subst (HasNames x.heap) (sym l.same_clusters)
            (HasNames-same w.heap x.heap (Local-name kv json p w x l) w.clusters inv.names)

      was : (q : ℕ) → In q (remove_named x.heap (x.heap p).name x.clusters) → In q w.clusters
      was q j = subst (In q) l.same_clusters (remove_named-In x.heap (x.heap p).name q x.clusters j)

      unassigned :
          (k : String)
          → name ≢ k
          → assign name none (saved_state kv json x) k ≡ saved_state kv json x k
      unassigned k e = ground (arith, e, eq_iff name k)

  module _ (fsm : Fsm (World F kv.Table)) (env : Env F) (p : ℕ) (w : World F kv.Table)
      (inv : Inv kv json w) (i : In p w.clusters) where
    abbrev freed : World F kv.Table
    freed = set_cluster p (idle (w.heap p)) w

    gone-Inv :
        (s : ClusterState F) (m : String)
        → (w.heap p).status ≡ cs_deleting
        → Inv kv json (event kv json fsm p delete_completed s m freed)
    unfolding event callback transition
    gone-Inv s m e =
        subst (λ (r : World F kv.Table × Bool). Inv kv json r.0)
          (sym (
            (event-transition fsm (get_status kv json p) (set_status kv json p)
              (callback kv json p (record { state = s; err_message = m })) delete_completed freed).0
            ∙ ap
                (λ t.
                  outcome fsm (set_status kv json p)
                    (callback kv json p (record { state = s; err_message = m })) delete_completed
                    freed (transition t delete_completed))
                (ap (λ (x : Cluster F). x.status) (set_cluster-heap kv json p _ w) ∙ e)))
          (erased_removed-Inv p (marked.heap p).name w _ inv i
            (Local-trans kv json p w marked _ near
              (alarm-Local kv json p (marked.heap p).name delete_failed m marked))
            near.same_name)
      where
        marked : World F kv.Table
        marked = set_status kv json p cs_deleted freed

        near : Local kv json p w marked
        near =
            Local-trans kv json p w freed _ (idle-Local kv json p w)
              (set_cluster-Local kv json p _ freed refl)

    destroy-Inv :
        (s : ClusterState F) (rm : RemoveResult)
        → (w.heap p).status ≡ cs_deleting
        → Inv kv json (destroy kv json fsm s p rm freed)
    unfolding destroy
    destroy-Inv s removed e = gone-Inv s "" e
    destroy-Inv s (not_removed m) e = gone-Inv s m e
    destroy-Inv s (remove_panicked m) e = gone-Inv s m e

    run_destroy-Inv :
        (up : UpResult F) (conn : CacheResult) (rm : RemoveResult) (t : Option (Task F))
        → t ≡ some destroying
        → (w.heap p).status ≡ cs_deleting
        → Inv kv json (run_task kv json fsm env p up conn rm t freed)
    unfolding run_task
    run_destroy-Inv up conn rm none e h = cc
    run_destroy-Inv up conn rm (some (creating s)) e h = cc
    run_destroy-Inv up conn rm (some (updating s)) e h = cc
    run_destroy-Inv up conn rm (some destroying) e h = destroy-Inv _ rm h

    end_by :
        (up : UpResult F) (conn : CacheResult) (rm : RemoveResult) (t : Option (Task F))
        → Returns up
        → (w.heap p).task ≡ t
        → Inv kv json (finish_task kv json fsm env p up conn rm w)
    unfolding finish_task
    end_by up conn rm (some destroying) r e =
        let (s, g) = IsGood-some (w.heap p) _ (inv.good p i) in
        run_destroy-Inv up conn rm (w.heap p).task e
          (destroying_at (w.heap p) (w.heap p).status s g e)
    end_by up conn rm none r e =
        finish_task-Inv kv json sure fsm env p w up conn rm inv i r (λ k. cc (e, k))
    end_by up conn rm (some (creating s)) r e =
        finish_task-Inv kv json sure fsm env p w up conn rm inv i r (λ k. cc (e, k))
    end_by up conn rm (some (updating s)) r e =
        finish_task-Inv kv json sure fsm env p w up conn rm inv i r (λ k. cc (e, k))

    -- When the goroutine of a cluster ends, whichever it is, the invariant holds again, with any
    -- results of the zke library, of `setCache` and of the removal, canceled or not, as long as
    -- the zke library does not panic while it brings the cluster up. The store does not fail.
    pub finish_any_task-Inv :
        (up : UpResult F) (conn : CacheResult) (rm : RemoveResult)
        → Returns up
        → Inv kv json (finish_task kv json fsm env p up conn rm w)
    finish_any_task-Inv up conn rm r = end_by up conn rm (w.heap p).task r refl
