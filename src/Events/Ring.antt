-- ===== src/Events/Ring.antt =====
-- About `add` of pkg/k8seventwatcher/eventwatcher.go.
use singlecloud.Base.{
  ℕ, suc, ◌+◌, ◌≤◌, ◌<◌, ◌%◌, Bool, true, false, List, [], ◌∷◌, ◌++◌, ◌≡◌, refl, sym, ◌∙◌, ltb,
  length, length-append, if◌then◌else◌, arith,
}
use native.Mathlib.Nat.{mod-eq_of_lt}
use singlecloud.Events.{Event, EventWatcher, max_uint64, add, without_front}
use singlecloud.Events.Newer.{IsConsecutive}

module _ {E : Type 0} where
  -- The ids count up from `first` to the last id given out, and there are no more events than the
  -- watcher may hold.
  pub record IsWell (ew : EventWatcher E) : Type 0 where
    pub first : ℕ
    pub ids : IsConsecutive first ew.event_list
    pub up_to : first + length ew.event_list ≡ suc ew.event_id
    pub bound : length ew.event_list ≤ ew.max_size

  IsConsecutive-snoc :
      (n : ℕ) (e : Event E) (l : List (Event E))
      → IsConsecutive n l
      → e.id ≡ n + length l
      → IsConsecutive n (l ++ e ∷ [])
  IsConsecutive-snoc n e [] c h = (omega (arith, h), tt)
  IsConsecutive-snoc n e (f ∷ l) c h = (c.0, IsConsecutive-snoc (suc n) e l c.1 (omega (arith, h)))

  -- The list after the element at its front was removed, if it was too long.
  cut : Bool → List (Event E) → List (Event E)
  cut b l = if b then without_front l else l

  cut-IsWell :
      (n : ℕ) (ew : EventWatcher E) (id : ℕ) (e : Event E)
      → IsConsecutive n (ew.event_list ++ e ∷ [])
      → n + length (ew.event_list ++ e ∷ []) ≡ suc id
      → length ew.event_list ≤ ew.max_size
      → (b : Bool) → ltb ew.max_size (length (ew.event_list ++ e ∷ [])) ≡ b
      → IsWell (record ew { event_id = id; event_list = cut b (ew.event_list ++ e ∷ []) })
  unfolding cut without_front
  cut-IsWell n ew id e c u s false h = record {
    first = n;
    ids = c;
    up_to = u;
    bound = ground (arith, h);
  }
  cut-IsWell n ew id e c u s true h =
      front (ew.event_list ++ e ∷ []) c u (omega (arith, s, length-append ew.event_list (e ∷ [])))
    where
      front :
          (l : List (Event E))
          → IsConsecutive n l
          → n + length l ≡ suc id
          → length l ≤ suc ew.max_size
          → IsWell (record ew { event_id = id; event_list = without_front l })
      front [] c u s = record { first = suc id; ids = tt; up_to = omega arith; bound = omega arith }
      front (f ∷ l) c u s = record {
        first = suc n;
        ids = c.1;
        up_to = omega (arith, u);
        bound = omega (arith, s);
      }

  -- `add` keeps the events in a row: the ids in the list count up to the last id given out, and
  -- the list is not longer than the size of the watcher, as long as the counter does not wrap.
  pub add-IsWell :
      (event : E) (ew : EventWatcher E)
      → IsWell ew
      → suc ew.event_id < max_uint64
      → IsWell (add event ew)
  unfolding add cut
  add-IsWell event ew w h =
      let plain : (ew.event_id + 1) % max_uint64 ≡ suc ew.event_id =
        mod-eq_of_lt (omega (arith, h)) ∙ omega arith in
      let e : Event E = record { id = (ew.event_id + 1) % max_uint64; k8s_event = event } in
      cut-IsWell w.first ew ((ew.event_id + 1) % max_uint64) e
        (IsConsecutive-snoc w.first e ew.event_list w.ids (plain ∙ sym w.up_to))
        (omega (arith, plain, w.up_to, length-append ew.event_list (e ∷ []))) w.bound _ refl
