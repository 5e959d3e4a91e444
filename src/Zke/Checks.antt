-- ===== src/Zke/Checks.antt =====
-- About a round of `connectionCheckLoop` of pkg/zke/cluster.go: what it makes of the status.
use singlecloud.Base.{
  ℕ, Bool, true, false, ◌==◌, ◌≡◌, ◌≢◌, refl, ◌∙◌, ap, ◌⊎◌, inl, inr, if◌then◌else◌, Bool-cases,
}
use singlecloud.Kv.{Kv, Codec}
use singlecloud.Zke.Types.{ClusterStatus, cs_running, cs_unreachable}
use singlecloud.Zke.Fsm.{Fsm, ClusterEvent, get_info_failed, get_info_succeed}
use singlecloud.Zke.Fsm.Diagram.{transition, outcome}
use singlecloud.Zke.World.{ClusterState, World, Env, StopCh, open_ch, nil_ch, closed_ch}
use singlecloud.Zke.Lifecycle.{set_status, callback_no_args, send}
use singlecloud.Zke.Manager.{check_connection, is_destroyable}
use singlecloud.Zke.Invariant.Events.{send_lem}

-- What a round makes of a world, by the answer of the cluster's Kubernetes.
pub data Round {F T : Type 0} (p : ℕ) (w w' : World F T) : Bool → Type 0 where
  -- the loop does not run, or has ended
  no_loop :
      {b : Bool}
      → ((w.heap p).watched ≡ false) ⊎ ((w.heap p).stop_ch ≢ open_ch)
      → w' ≡ w
      → Round p w w' b
  lost :
      ((w.heap p).watched ≡ true) × ((w.heap p).stop_ch ≡ open_ch)
      → (w.heap p).status ≡ cs_running
      → w' ≡ record w {
        heap = λ q. if p == q then record (w.heap p) { status = cs_unreachable } else w.heap q;
      }
      → Round p w w' false
  still_lost : (w.heap p).status ≢ cs_running → w' ≡ w → Round p w w' false
  back :
      ((w.heap p).watched ≡ true) × ((w.heap p).stop_ch ≡ open_ch)
      → (w.heap p).status ≡ cs_unreachable
      → w' ≡ record w {
        heap = λ q. if p == q then record (w.heap p) { status = cs_running } else w.heap q;
      }
      → Round p w w' true
  still_there : (w.heap p).status ≢ cs_unreachable → w' ≡ w → Round p w w' true

module _ {F V : Type 0} (kv : Kv V) (json : Codec (ClusterState F) V) (fsm : Fsm (World F kv.Table))
    (env : Env F) where
  abbrev Sent : Bool → ℕ → World F kv.Table → World F kv.Table
  Sent b p w = (send kv json fsm p (if b then get_info_succeed else get_info_failed) w).0

  to_send :
      (e : ClusterEvent) (p : ℕ) (w : World F kv.Table) (s : ClusterStatus)
      → (w.heap p).status ≡ s
      → (send kv json fsm p e w).0
        ≡ (outcome fsm (set_status kv json p) (callback_no_args kv json) e w (transition s e)).0
  to_send e p w s h =
      ap (λ (r : World F kv.Table × Bool). r.0) (send_lem kv json fsm p e w)
      ∙ ap
          (λ t.
            (outcome fsm (set_status kv json p) (callback_no_args kv json) e w (transition t e)).0)
          h

  sent-Round :
      (b : Bool) (p : ℕ) (w : World F kv.Table) (s : ClusterStatus)
      → ((w.heap p).watched ≡ true) × ((w.heap p).stop_ch ≡ open_ch)
      → (w.heap p).status ≡ s
      → Round p w (Sent b p w) b
  unfolding transition callback_no_args
  sent-Round true p w cs_unreachable on h =
      back on h (to_send get_info_succeed p w cs_unreachable h)
  sent-Round true p w s on h = still_there (λ e. cc (h, e)) (to_send get_info_succeed p w s h)
  sent-Round false p w cs_running on h = lost on h (to_send get_info_failed p w cs_running h)
  sent-Round false p w s on h = still_lost (λ e. cc (h, e)) (to_send get_info_failed p w s h)

  closed : (c : StopCh) → is_destroyable c ≡ false → c ≢ open_ch
  unfolding is_destroyable
  closed open_ch h e = cc
  closed nil_ch h e = cc
  closed closed_ch h e = cc

  opened : (c : StopCh) → is_destroyable c ≡ true → c ≡ open_ch
  unfolding is_destroyable
  opened open_ch h = refl
  opened nil_ch h = cc
  opened closed_ch h = cc

  -- A round of the connection check does nothing unless the loop runs and its stop channel is open;
  -- then it makes a running cluster unreachable that does not answer, and an unreachable one running
  -- that answers, and it changes nothing else, of this cluster or another.
  pub check_connection-Round :
      (p : ℕ) (answered : Bool) (w : World F kv.Table)
      → Round p w (check_connection kv json fsm env p answered w) answered
  unfolding check_connection
  check_connection-Round p answered w = elim (Bool-cases (w.heap p).watched) [
    | inr e ↦ no_loop (inl e) (rw (check_connection, e) refl)
    | inl e ↦ elim (Bool-cases (is_destroyable (w.heap p).stop_ch)) [
      | inr c ↦ no_loop (inr (closed _ c)) (rw (check_connection, e, c) refl)
      | inl c ↦
          rw (check_connection, e, c)
            (sent-Round answered p w (w.heap p).status (e, opened _ c) refl)
    ]
  ]
