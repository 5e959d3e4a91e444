-- ===== src/Zke/Invariant/Frame.antt =====
-- About steps of the manager of pkg/zke/manager.go that touch one cluster.
use singlecloud.Base.{ℕ, ◌<◌, List, [], ◌∷◌, ◌≡◌, refl, sym, ap, subst, ◌∙◌, ◌≢◌, inl, inr, All}
use native.Mathlib.Decide.{ℕ_discrete}
use singlecloud.Kv.{Kv, Codec}
use singlecloud.Zke.World.{ClusterState, Cluster, World}
use singlecloud.Zke.Invariant.{IsGood, In, HasNames, saved_state, Inv, Local}

pub All-In : (P : ℕ → Type 0) (p : ℕ) (ps : List ℕ) → In p ps → All P ps → P p
All-In P p [] i h = absurd i
All-In P p (q ∷ qs) (inl e) h = subst P (sym e) h.0
All-In P p (q ∷ qs) (inr i) h = All-In P p qs i h.1

module _ {F : Type 0} (heap : ℕ → Cluster F) where
  -- Two members with one name are one member.
  pub HasNames-ne :
      (p q : ℕ) (ps : List ℕ)
      → HasNames heap ps
      → In p ps
      → In q ps
      → q ≢ p
      → (heap q).name ≢ (heap p).name
  HasNames-ne p q [] h i j n e = absurd i
  HasNames-ne p q (r ∷ ps) h (inl a) (inl b) n e = n (b ∙ sym a)
  HasNames-ne p q (r ∷ ps) h (inl a) (inr j) n e =
      All-In (λ k. (heap r).name ≢ (heap k).name) q ps j h.0 (sym (e ∙ ap (λ k. (heap k).name) a))
  HasNames-ne p q (r ∷ ps) h (inr i) (inl b) n e =
      All-In (λ k. (heap r).name ≢ (heap k).name) p ps i h.0 (sym (ap (λ k. (heap k).name) b) ∙ e)
  HasNames-ne p q (r ∷ ps) h (inr i) (inr j) n e = HasNames-ne p q ps h.1 i j n e

  All-names :
      (other : ℕ → Cluster F)
      → ((q : ℕ) → (other q).name ≡ (heap q).name)
      → (p : ℕ) (ps : List ℕ) → All (λ q. (heap p).name ≢ (heap q).name) ps
      → All (λ q. (other p).name ≢ (other q).name) ps
  All-names other f p [] h = tt
  All-names other f p (q ∷ ps) h = ((λ e. h.0 (sym (f p) ∙ (e ∙ f q))), All-names other f p ps h.1)

  pub HasNames-same :
      (other : ℕ → Cluster F)
      → ((q : ℕ) → (other q).name ≡ (heap q).name)
      → (ps : List ℕ) → HasNames heap ps
      → HasNames other ps
  HasNames-same other f [] h = tt
  HasNames-same other f (p ∷ ps) h = (All-names other f p ps h.0, HasNames-same other f ps h.1)

module _ {F V : Type 0} (kv : Kv V) (json : Codec (ClusterState F) V) where
  pub Local-refl : (p : ℕ) (w : World F kv.Table) → Local kv json p w w
  Local-refl p w = record {
    same_clusters = refl;
    same_next = refl;
    same_crashed = refl;
    same_overlapped = refl;
    same_name = refl;
    same_heap = λ q n. refl;
    same_saved = λ k n. refl;
  }

  pub Local-trans :
      (p : ℕ) (u v w : World F kv.Table)
      → Local kv json p u v
      → Local kv json p v w
      → Local kv json p u w
  Local-trans p u v w a b = record {
    same_clusters = b.same_clusters ∙ a.same_clusters;
    same_next = b.same_next ∙ a.same_next;
    same_crashed = b.same_crashed ∙ a.same_crashed;
    same_overlapped = b.same_overlapped ∙ a.same_overlapped;
    same_name = b.same_name ∙ a.same_name;
    same_heap = λ q n. b.same_heap q n ∙ a.same_heap q n;
    same_saved = λ k n. b.same_saved k (λ e. n (e ∙ a.same_name)) ∙ a.same_saved k n;
  }

  pub Local-name :
      (p : ℕ) (w w' : World F kv.Table)
      → Local kv json p w w'
      → (q : ℕ) → (w'.heap q).name ≡ (w.heap q).name
  Local-name p w w' l q = elim (ℕ_discrete q p) [
    | yes e ↦ subst (λ r. (w'.heap r).name ≡ (w.heap r).name) (sym e) l.same_name
    | no n ↦ ap (λ c. c.name) (l.same_heap q n)
  ]

  pub Local-Inv :
      (p : ℕ) (w w' : World F kv.Table)
      → Inv kv json w
      → Local kv json p w w'
      → In p w.clusters
      → IsGood (w'.heap p) (saved_state kv json w' (w.heap p).name)
      → Inv kv json w'
  Local-Inv p w w' inv l i g = record {
    no_crash = l.same_crashed ∙ inv.no_crash;
    no_overlap = l.same_overlapped ∙ inv.no_overlap;
    old = λ q j. subst (λ n. q < n) (sym l.same_next) (inv.old q (subst (In q) l.same_clusters j));
    names =
        subst (HasNames w'.heap) (sym l.same_clusters)
          (HasNames-same w.heap w'.heap (Local-name p w w' l) w.clusters inv.names);
    good = λ q j. good_at q (subst (In q) l.same_clusters j) (ℕ_discrete q p);
  }
    where
      good_at :
          (q : ℕ)
          → In q w.clusters
          → Dec (q ≡ p)
          → IsGood (w'.heap q) (saved_state kv json w' (w'.heap q).name)
      good_at q j (yes e) =
          subst (λ r. IsGood (w'.heap r) (saved_state kv json w' (w'.heap r).name)) (sym e)
            (subst (λ n. IsGood (w'.heap p) (saved_state kv json w' n)) (sym l.same_name) g)
      good_at q j (no n) =
          let ne = HasNames-ne w.heap p q w.clusters inv.names i j n in
          subst (λ c. IsGood c (saved_state kv json w' c.name)) (sym (l.same_heap q n))
            (subst (IsGood (w.heap q)) (sym (l.same_saved (w.heap q).name ne)) (inv.good q j))
