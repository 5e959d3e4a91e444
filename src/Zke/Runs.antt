-- ===== src/Zke/Runs.antt =====
-- Runs of the cluster manager of pkg/zke: requests, rounds of the connection check and ends of
-- goroutines, in any order and over any number of clusters. A request holds the manager's lock and
-- is one step; the work of a goroutine is one step too, so what happens between two of its
-- statements is outside these runs.
use singlecloud.Base.{
  ℕ, String, Bool, true, false, List, [], ◌∷◌, Option, none, some, ◌≡◌, ◌⊎◌, refl, inl, inr, arith,
  if◌then◌else◌, Bool-cases, All, any, ◌==◌,
}
use singlecloud.Kv.{Kv, Codec}
use singlecloud.Kv.Reliable.{IsReliable}
use singlecloud.Zke.Types.{ClusterStatus, cs_running, cs_unreachable, ScCluster}
use singlecloud.Zke.Fsm.{Fsm}
use singlecloud.Zke.World.{ClusterState, Cluster, World, Env}
use singlecloud.Zke.Lifecycle.{UpResult, CacheResult, RemoveResult}
use singlecloud.Zke.Manager.{
  create_cluster, update_request, delete_cluster, cancel_cluster, check_connection, finish_task,
  list_ready, ready_among, is_ready, is_ready_status,
}
use singlecloud.Zke.Invariant.{IsConnected, In, IsGood, IsGoodAt, saved_state, Inv}
use singlecloud.Zke.Invariant.Tasks.{Returns}
use singlecloud.Zke.Invariant.Requests.{check_connection-Inv, cancel_cluster-Inv}
use singlecloud.Zke.Invariant.Updates.{update_request-Inv}
use singlecloud.Zke.Invariant.Deletes.{delete_cluster-Inv}
use singlecloud.Zke.Invariant.Creates.{create_cluster-Inv}
use singlecloud.Zke.Invariant.Destroys.{finish_any_task-Inv}

pub data Action (F : Type 0) : Type 0 where
  -- the request, and the time
  to_create : ScCluster → ℕ → Action F
  -- the request, and what the storage listener answers
  to_update : ScCluster → (String → Option Bool) → Action F
  to_delete : String → ℕ → Action F
  to_cancel : String → Action F
  -- a round of the loop of a cluster, and whether it was answered
  to_check : ℕ → Bool → Action F
  -- the goroutine of a cluster ends, with these results
  to_finish : ℕ → UpResult F → CacheResult → RemoveResult → Action F

-- The zke library does not panic while it brings a cluster up.
abbrev pub IsQuiet : {F : Type 0} → Action F → Type 0
IsQuiet (to_finish p up conn rm) = Returns up
IsQuiet (to_create request now) = Unit
IsQuiet _ = Unit

abbrev pub listed : ℕ → List ℕ → Bool
listed p = any (λ q. p == q)

listed-In : (p : ℕ) (ps : List ℕ) → listed p ps ≡ true → In p ps
listed-In p [] h = cc
listed-In p (q ∷ ps) h = elim (Bool-cases (p == q)) [
  | inl e ↦ inl (ground (arith, e))
  | inr e ↦ inr (listed-In p ps (ground (arith, e, h)))
]

module _ {F V : Type 0} (kv : Kv V) (json : Codec (ClusterState F) V) (fsm : Fsm (World F kv.Table))
    (env : Env F) where
  unfoldable pub step : Action F → World F kv.Table → World F kv.Table
  step (to_create request now) w = (create_cluster kv json fsm env request now w).0
  step (to_update request f) w = (update_request kv json fsm env request f w).0
  step (to_delete id now) w = (delete_cluster kv json fsm env id now w).0
  step (to_cancel id) w = (cancel_cluster id w).0
  step (to_check p answered) w =
      if listed p w.clusters then check_connection kv json fsm env p answered w else w
  step (to_finish p up conn rm) w =
      if listed p w.clusters then finish_task kv json fsm env p up conn rm w else w

  unfoldable pub run : List (Action F) → World F kv.Table → World F kv.Table
  unfolding step
  run [] w = w
  run (a ∷ actions) w = run actions (step a w)

  module _ (sure : IsReliable kv json) where
    Inv-listed :
        (p : ℕ) (w x : World F kv.Table)
        → Inv kv json w
        → (In p w.clusters → Inv kv json x)
        → Inv kv json (if listed p w.clusters then x else w)
    Inv-listed p w x inv f = go (listed p w.clusters) (listed-In p w.clusters)
      where
        go : (b : Bool) → (b ≡ true → In p w.clusters) → Inv kv json (if b then x else w)
        go true h = f (h refl)
        go false h = inv

    step-Inv :
        (a : Action F) (w : World F kv.Table) → Inv kv json w → IsQuiet a → Inv kv json (step a w)
    unfolding step
    step-Inv (to_create request now) w inv q =
        create_cluster-Inv kv json sure fsm env request now w inv
    step-Inv (to_update request f) w inv q = update_request-Inv kv json sure fsm env request f w inv
    step-Inv (to_delete id now) w inv q = delete_cluster-Inv kv json sure fsm env id now w inv
    step-Inv (to_cancel id) w inv q = cancel_cluster-Inv kv json sure fsm env id w inv
    step-Inv (to_check p answered) w inv q =
        Inv-listed p w _ inv (λ i. check_connection-Inv kv json sure fsm env p answered w inv i)
    step-Inv (to_finish p up conn rm) w inv q =
        Inv-listed p w _ inv (λ i. finish_any_task-Inv kv json sure fsm env p w inv i up conn rm q)

    -- The invariant of the manager holds after every run from a world where it holds: whatever is
    -- asked for, canceled, answered or finished in whatever order, no handler panics, no cluster
    -- has two goroutines, no two clusters have one name, and every cluster fits its stored state.
    -- The zke library does not panic while it brings a cluster up, and the store does not fail.
    pub run-Inv :
        (actions : List (Action F)) (w : World F kv.Table)
        → Inv kv json w
        → All IsQuiet actions
        → Inv kv json (run actions w)
    unfolding run
    run-Inv [] w inv q = inv
    run-Inv (a ∷ actions) w inv q = run-Inv actions (step a w) (step-Inv a w inv q.0) q.1

  -- What `ListReady` promises of a cluster.
  pub record IsServing (w : World F kv.Table) (p : ℕ) : Type 0 where
    pub managed : In p w.clusters
    pub ready : ((w.heap p).status ≡ cs_running) ⊎ ((w.heap p).status ≡ cs_unreachable)
    pub idle : (w.heap p).task ≡ none
    pub connected : IsConnected (w.heap p)
    pub stored_created :
        (s : ClusterState F) × (saved_state kv json w (w.heap p).name ≡ some s) × (s.created ≡ true)

  ready_at :
      (t : ClusterStatus) (c : Cluster F) (s : ClusterState F)
      → IsGoodAt t c s
      → is_ready_status t ≡ true
      → (s.created ≡ true)
        × (c.task ≡ none)
        × IsConnected c
        × ((t ≡ cs_running) ⊎ (t ≡ cs_unreachable))
  ready_at cs_running c s g h = (g.0, g.1, g.3, inl refl)
  ready_at cs_unreachable c s g h = (g.0, g.1, g.3, inr refl)
  ready_at _ c s g h = cc

  ready-IsServing :
      (w : World F kv.Table) (p : ℕ) (o : Option (ClusterState F))
      → saved_state kv json w (w.heap p).name ≡ o
      → IsGood (w.heap p) o
      → In p w.clusters
      → is_ready (w.heap p) ≡ true
      → IsServing w p
  unfolding is_ready
  ready-IsServing w p none e g i h = absurd g
  ready-IsServing w p (some s) e g i h =
      let (made, idle, channel, at) = ready_at (w.heap p).status (w.heap p) s g h in
      record {
        managed = i;
        ready = at;
        idle = idle;
        connected = channel;
        stored_created = (s, e, made);
      }

  All-ready :
      (P : ℕ → Type 0) (heap : ℕ → Cluster F) (ps : List ℕ)
      → ((p : ℕ) → In p ps → is_ready (heap p) ≡ true → P p)
      → All P (ready_among heap ps)
  unfolding ready_among
  All-ready P heap [] f = tt
  All-ready P heap (p ∷ ps) f =
      go (is_ready (heap p)) (f p (inl refl)) (All-ready P heap ps (λ q i. f q (inr i)))
    where
      go :
          (b : Bool)
          → (b ≡ true → P p)
          → All P (ready_among heap ps)
          → All P (if b then p ∷ ready_among heap ps else ready_among heap ps)
      go true h r = (h refl, r)
      go false h r = r

  -- After every run from a world where the invariant holds, each cluster that `ListReady` shows
  -- belongs to the manager, is running or unreachable, was created according to its stored state, has a client of its
  -- Kubernetes and a stop channel that can be closed, and no goroutine brings it up or removes it.
  -- The zke library does not panic while it brings a cluster up, and the store does not fail.
  pub list_ready-IsServing :
      IsReliable kv json
      → (actions : List (Action F)) (w : World F kv.Table) → Inv kv json w
      → All IsQuiet actions
      → All (IsServing (run actions w)) (list_ready (run actions w))
  unfolding list_ready
  list_ready-IsServing sure actions w inv q =
      let after = run-Inv sure actions w inv q in
      All-ready (IsServing (run actions w)) (run actions w).heap (run actions w).clusters
        (λ p i h. ready-IsServing (run actions w) p _ refl (after.good p i) i h)
