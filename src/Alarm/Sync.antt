-- ===== src/Alarm/Sync.antt =====
-- About the list of alarms and the table of pkg/alarm/alarmcache.go.
use singlecloud.Base.{
  ℕ, zero, suc, ◌+◌, ◌%◌, ◌≤◌, ◌<◌, String, Bool, true, false, ◌&&◌, List, [], ◌∷◌, ◌++◌, none,
  some, ◌≡◌, refl, sym, ◌∙◌, ap, subst, ◌⊎◌, inl, inr, arith, assign, ltb, ◌==◌, str_eq, eq_iff,
  if◌then◌else◌, Bool-cases, All, length, length-append,
}
use native.Mathlib.Decide.{ℕ_discrete}
use singlecloud.Kv.{Kv, Codec, stored, stored-marshal_first, stored-delete, add-Puts}
use singlecloud.Alarm.{
  max_uint64, max_alarm_count, Alarm, AlarmCache, get_alarm_from_outdated, outdated, repeats_last,
  add_to_db, delete_from_db, delete_rounds, delete_oldest, added, add_new, add, delete_each,
  delete_alarm_for_cluster,
}
use singlecloud.Alarm.Find.{IsIncreasing, find-later}

-- The uids count up by one.
abbrev pub IsRow : ℕ → List Alarm → Type 0
IsRow n [] = Unit
IsRow n (a ∷ l) = (a.uid ≡ n) × IsRow (suc n) l

find-snoc :
    (k : ℕ) (l : List Alarm) (x : Alarm)
    → All (λ a. a.uid < x.uid) l
    → get_alarm_from_outdated k (l ++ x ∷ [])
      ≡ (if x.uid == k then some x else get_alarm_from_outdated k l)
unfolding get_alarm_from_outdated
find-snoc k [] x h = refl
find-snoc k (a ∷ l) x h = ground (arith, h.0, find-snoc k l x h.1)

All-snoc : (P : Alarm → Type 0) (l : List Alarm) (x : Alarm) → All P l → P x → All P (l ++ x ∷ [])
All-snoc P [] x h p = (p, tt)
All-snoc P (a ∷ l) x h p = (h.0, All-snoc P l x h.1 p)

IsIncreasing-snoc :
    (l : List Alarm) (x : Alarm)
    → IsIncreasing l
    → All (λ a. a.uid < x.uid) l
    → IsIncreasing (l ++ x ∷ [])
IsIncreasing-snoc [] x h b = (tt, tt)
IsIncreasing-snoc (a ∷ l) x h b =
    (All-snoc (λ c. a.uid < c.uid) l x h.0 b.0, IsIncreasing-snoc l x h.1 b.1)

IsRow-snoc :
    (n : ℕ) (l : List Alarm) (x : Alarm) → IsRow n l → x.uid ≡ n + length l → IsRow n (l ++ x ∷ [])
IsRow-snoc n [] x r e = (omega (arith, e), tt)
IsRow-snoc n (a ∷ l) x r e = (r.0, IsRow-snoc (suc n) l x r.1 (omega (arith, e)))

All-weaken : (m n : ℕ) (l : List Alarm) → m ≤ n → All (λ a. a.uid ≤ m) l → All (λ a. a.uid ≤ n) l
All-weaken m n [] h b = tt
All-weaken m n (a ∷ l) h b = (omega (arith, b.0, h), All-weaken m n l h b.1)

All-below : (m : ℕ) (l : List Alarm) → All (λ a. a.uid ≤ m) l → All (λ a. a.uid < suc m) l
All-below m [] b = tt
All-below m (a ∷ l) b = (omega (arith, b.0), All-below m l b.1)

module _ {V : Type 0} (kv : Kv V) (json : Codec Alarm V) (uint_to_str : ℕ → String)
    (one_to_one : (a b : ℕ) → uint_to_str a ≡ uint_to_str b → a ≡ b) where
  -- The table holds the alarms of the list, each under its uid, and nothing under other uids.
  abbrev pub Agrees : kv.Table → List Alarm → Type 0
  Agrees t l = (k : ℕ) → stored kv json t (uint_to_str k) ≡ get_alarm_from_outdated k l

  pub record IsSynced (ac : AlarmCache kv.Table) : Type 0 where
    pub increasing : IsIncreasing ac.alarm_list
    pub below : All (λ a. a.uid ≤ ac.event_id) ac.alarm_list
    pub agrees : Agrees ac.alarms_table ac.alarm_list

  -- Of the table and the list that a loop leaves.
  record Kept (m : ℕ) (r : kv.Table × List Alarm) : Type 0 where
    increasing : IsIncreasing r.1
    below : All (λ a. a.uid ≤ m) r.1
    agrees : Agrees r.0 r.1

  Kept-if :
      (m : ℕ) (x y : kv.Table × List Alarm) (b : Bool)
      → (b ≡ true → Kept m x)
      → (b ≡ false → Kept m y)
      → Kept m (if b then x else y)
  Kept-if m x y true f g = f refl
  Kept-if m x y false f g = g refl

  -- A deletion from the table.
  deleted_lem :
      (key k : ℕ) (t : kv.Table)
      → stored kv json (delete_from_db kv json uint_to_str (uint_to_str key) t).0 (uint_to_str k)
        ≡ (if (delete_from_db kv json uint_to_str (uint_to_str key) t).1 && key == k
            then none
            else stored kv json t (uint_to_str k))
  unfolding delete_from_db
  deleted_lem key k t = elim (ℕ_discrete key k) [
    | yes e ↦ ground (
      arith,
      e,
      stored-delete kv json t (uint_to_str key) (uint_to_str k),
      ap uint_to_str e,
      eq_iff (uint_to_str key) (uint_to_str k),
    )
    | no n ↦ ground (
      arith,
      n,
      stored-delete kv json t (uint_to_str key) (uint_to_str k),
      eq_iff (uint_to_str key) (uint_to_str k),
      λ (q : uint_to_str key ≡ uint_to_str k). n (one_to_one key k q),
    )
  ]

  -- The front of the list goes from the table too.
  front_gone :
      (a : Alarm) (t : kv.Table) (l : List Alarm)
      → IsIncreasing (a ∷ l)
      → Agrees t (a ∷ l)
      → (delete_from_db kv json uint_to_str (uint_to_str a.uid) t).1 ≡ true
      → Agrees (delete_from_db kv json uint_to_str (uint_to_str a.uid) t).0 l
  unfolding get_alarm_from_outdated
  front_gone a t l h g d k = elim (ℕ_discrete a.uid k) [
    | yes e ↦ ground (
      arith,
      d,
      e,
      deleted_lem a.uid k t,
      find-later k l (subst (λ n. All (λ b. n < b.uid) l) e h.0),
    )
    | no n ↦ ground (arith, d, n, deleted_lem a.uid k t, g k)
  ]

  not_deleted :
      (key : ℕ) (t : kv.Table) (l : List Alarm)
      → Agrees t l
      → (delete_from_db kv json uint_to_str (uint_to_str key) t).1 ≡ false
      → Agrees (delete_from_db kv json uint_to_str (uint_to_str key) t).0 l
  not_deleted key t l g d k = ground (arith, d, deleted_lem key k t, g k)

  delete_rounds-Kept :
      (n i first_id m : ℕ) (t : kv.Table) (l : List Alarm)
      → IsRow (i + first_id) l
      → i + first_id + length l ≤ max_uint64
      → IsIncreasing l
      → All (λ a. a.uid ≤ m) l
      → Agrees t l
      → Kept m (delete_rounds kv json uint_to_str n i first_id t l)
  unfolding delete_rounds
  delete_rounds-Kept zero i first_id m t l r u h b g = record {
    increasing = h;
    below = b;
    agrees = g;
  }
  delete_rounds-Kept (suc n) i first_id m t [] r u h b g = record {
    increasing = h;
    below = b;
    agrees = g;
  }
  delete_rounds-Kept (suc n) i first_id m t (a ∷ l) r u h b g =
      subst
        (λ key. Kept m (
          let (t', deleted) = delete_from_db kv json uint_to_str (uint_to_str key) t in
          if deleted
          then delete_rounds kv json uint_to_str n (suc i) first_id t' l
          else (t', a ∷ l)))
        (sym (mod_lem (omega (arith, u))))
        (Kept-if m _ _ _
          (λ d.
            delete_rounds-Kept n (suc i) first_id m _ l (next r.1) (omega (arith, u)) h.1 b.1
              (front_gone a t l h g d))
          (λ d. record { increasing = h; below = b; agrees = not_deleted a.uid t (a ∷ l) g d }))
    where
      mod_lem : i + first_id < max_uint64 → (i + first_id) % max_uint64 ≡ a.uid
      mod_lem k = omega (arith, k, r.0)

      next : IsRow (suc (i + first_id)) l → IsRow (suc i + first_id) l
      next = subst (λ n. IsRow n l) (omega arith)

  delete_oldest-Kept :
      (month_ago n m : ℕ) (t : kv.Table) (l : List Alarm)
      → IsRow n l
      → n + length l ≤ max_uint64
      → IsIncreasing l
      → All (λ a. a.uid ≤ m) l
      → Agrees t l
      → Kept m (delete_oldest kv json uint_to_str month_ago t l)
  unfolding delete_oldest
  delete_oldest-Kept month_ago n m t [] r u h b g = record { increasing = h; below = b; agrees = g }
  delete_oldest-Kept month_ago n m t (a ∷ l) r u h b g =
      delete_rounds-Kept (suc (outdated month_ago l)) 0 a.uid m t (a ∷ l)
        (subst (λ k. IsRow k (a ∷ l)) (sym r.0 ∙ omega arith) r) (omega (arith, u, r.0)) h b g

  module _ (month_ago : ℕ) (alarm : Alarm) (ac : AlarmCache kv.Table) (s : IsSynced ac)
      (h : suc ac.event_id < max_uint64)
      (c : (length ac.alarm_list < max_alarm_count)
        ⊎ ((n : ℕ) × IsRow n ac.alarm_list × (n + length ac.alarm_list ≡ suc ac.event_id))) where
    abbrev longer : List Alarm
    longer = ac.alarm_list ++ alarm ∷ []

    trimmed-Kept :
        (t : kv.Table)
        → alarm.uid ≡ suc ac.event_id
        → IsIncreasing longer
        → All (λ a. a.uid ≤ suc ac.event_id) longer
        → Agrees t longer
        → (length ac.alarm_list < max_alarm_count)
          ⊎ ((n : ℕ) × IsRow n ac.alarm_list × (n + length ac.alarm_list ≡ suc ac.event_id))
        → Kept (suc ac.event_id) (
            if ltb max_alarm_count (length longer)
            then delete_oldest kv json uint_to_str month_ago t longer
            else (t, longer))
    trimmed-Kept t e i b g (inl q) =
        Kept-if (suc ac.event_id) (delete_oldest kv json uint_to_str month_ago t longer) (t, longer)
          (ltb max_alarm_count (length longer))
          (λ k. ground (arith, k, q, length-append ac.alarm_list (alarm ∷ [])))
          (λ k. record { increasing = i; below = b; agrees = g })
    trimmed-Kept t e i b g (inr (n, r, u)) =
        Kept-if (suc ac.event_id) _ _ _
          (λ k.
            delete_oldest-Kept month_ago n (suc ac.event_id) t longer
              (IsRow-snoc n ac.alarm_list alarm r (e ∙ sym u))
              (omega (arith, length-append ac.alarm_list (alarm ∷ []), u, h)) i b g)
          (λ k. record { increasing = i; below = b; agrees = g })

    added-IsSynced :
        (t : kv.Table) (b : Bool)
        → alarm.uid ≡ suc ac.event_id
        → ((j : String)
            → stored kv json t j ≡ (
                if b
                then assign (uint_to_str alarm.uid) (some alarm) (stored kv json ac.alarms_table) j
                else stored kv json ac.alarms_table j))
        → IsSynced (added kv json uint_to_str month_ago alarm (t, b) ac)
    unfolding added
    added-IsSynced t false e p = record {
      increasing = s.increasing;
      below = s.below;
      agrees = λ k. p (uint_to_str k) ∙ s.agrees k;
    }
    added-IsSynced t true e p =
        let next : (ac.event_id + 1) % max_uint64 ≡ suc ac.event_id = omega (arith, h) in
        let under : All (λ a. a.uid < alarm.uid) ac.alarm_list =
          subst (λ n. All (λ a. a.uid < n) ac.alarm_list) (sym e)
            (All-below ac.event_id ac.alarm_list s.below) in
        let kept =
          trimmed-Kept t e (IsIncreasing-snoc ac.alarm_list alarm s.increasing under)
            (All-snoc (λ a. a.uid ≤ suc ac.event_id) ac.alarm_list alarm
              (All-weaken ac.event_id (suc ac.event_id) ac.alarm_list (omega arith) s.below)
              (omega (arith, e)))
            (λ k. pushed k ∙ sym (find-snoc k ac.alarm_list alarm under)) c in
        record {
          increasing = kept.increasing;
          below =
              subst
                (λ m.
                  All (λ (a : Alarm). a.uid ≤ m)
                    (if ltb max_alarm_count (length longer)
                      then delete_oldest kv json uint_to_str month_ago t longer
                      else (t, longer)).1)
                (sym next) kept.below;
          agrees = kept.agrees;
        }
      where
        pushed :
            (k : ℕ)
            → stored kv json t (uint_to_str k)
              ≡ (if alarm.uid == k then some alarm else get_alarm_from_outdated k ac.alarm_list)
        pushed k = elim (ℕ_discrete alarm.uid k) [
          | yes q ↦ ground (
            arith,
            q,
            p (uint_to_str k),
            ap uint_to_str q,
            eq_iff (uint_to_str alarm.uid) (uint_to_str k),
          )
          | no n ↦ ground (
            arith,
            n,
            p (uint_to_str k),
            s.agrees k,
            eq_iff (uint_to_str alarm.uid) (uint_to_str k),
            λ (q : uint_to_str alarm.uid ≡ uint_to_str k). n (one_to_one alarm.uid k q),
          )
        ]

    add_new-if :
        (b : Bool)
        → alarm.uid ≡ suc ac.event_id
        → IsSynced (
            if b
            then ac
            else added kv json uint_to_str month_ago alarm
                (add_to_db kv json uint_to_str alarm ac.alarms_table)
                ac)
    unfolding add_to_db
    add_new-if true e = s
    add_new-if false e = added-IsSynced _ _ e (λ j.
        stored-marshal_first kv json kv.add (add-Puts kv) ac.alarms_table (uint_to_str alarm.uid) j
          alarm)

  -- `Add` keeps the list of alarms and the table in agreement, uid by uid, whatever the alarm and
  -- also when any call of the store fails, as long as the list is not full, or its uids count up by
  -- one to the last uid given out. The counter does not wrap.
  pub add-IsSynced :
      (month_ago : ℕ) (is_cluster_kind : Bool) (alarm : Alarm) (ac : AlarmCache kv.Table)
      → IsSynced ac
      → suc ac.event_id < max_uint64
      → (length ac.alarm_list < max_alarm_count)
        ⊎ ((n : ℕ) × IsRow n ac.alarm_list × (n + length ac.alarm_list ≡ suc ac.event_id))
      → IsSynced (add kv json uint_to_str month_ago is_cluster_kind alarm ac)
  unfolding add add_new
  add-IsSynced month_ago is_cluster_kind alarm ac s h c =
      let uid = (ac.event_id + 1) % max_uint64 in
      let plain = if is_cluster_kind then record alarm { namespace = "" } else alarm in
      add_new-if month_ago (record plain { uid = uid; id = uint_to_str uid }) ac s h c
        (repeats_last ac.alarm_list plain) (omega (arith, h))

  All-if :
      (P : Alarm → Type 0) (a : Alarm) (b : Bool) (l : List Alarm)
      → P a
      → All P l
      → All P (if b then l else a ∷ l)
  All-if P a true l p h = h
  All-if P a false l p h = (p, h)

  -- The table after the round for an alarm.
  abbrev after : String → Alarm → kv.Table → kv.Table
  after cluster a t =
      if str_eq a.cluster cluster
      then (delete_from_db kv json uint_to_str (uint_to_str a.uid) t).0
      else t

  All-delete_each :
      (P : Alarm → Type 0) (cluster : String) (t : kv.Table) (l : List Alarm)
      → All P l
      → All P (delete_each kv json uint_to_str cluster t l).1
  unfolding delete_each
  All-delete_each P cluster t [] h = tt
  All-delete_each P cluster t (a ∷ l) h =
      All-if P a _ _ h.0 (All-delete_each P cluster (after cluster a t) l h.1)

  IsIncreasing-if :
      (a : Alarm) (b : Bool) (l : List Alarm)
      → IsIncreasing l
      → All (λ c. a.uid < c.uid) l
      → IsIncreasing (if b then l else a ∷ l)
  IsIncreasing-if a true l i h = i
  IsIncreasing-if a false l i h = (h, i)

  IsIncreasing-delete_each :
      (cluster : String) (t : kv.Table) (l : List Alarm)
      → IsIncreasing l
      → IsIncreasing (delete_each kv json uint_to_str cluster t l).1
  unfolding delete_each
  IsIncreasing-delete_each cluster t [] i = tt
  IsIncreasing-delete_each cluster t (a ∷ l) i =
      IsIncreasing-if a _ _ (IsIncreasing-delete_each cluster (after cluster a t) l i.1)
        (All-delete_each (λ c. a.uid < c.uid) cluster (after cluster a t) l i.0)

  abbrev is_gone : String → Alarm → kv.Table → Bool
  is_gone cluster a t =
      str_eq a.cluster cluster && (delete_from_db kv json uint_to_str (uint_to_str a.uid) t).1

  stored-after :
      (cluster : String) (a : Alarm) (t : kv.Table) (k : ℕ)
      → stored kv json (after cluster a t) (uint_to_str k)
        ≡ (if is_gone cluster a t && a.uid == k then none else stored kv json t (uint_to_str k))
  stored-after cluster a t k = elim (Bool-cases (str_eq a.cluster cluster)) [
    | inl e ↦ ground (arith, e, deleted_lem a.uid k t)
    | inr e ↦ ground (arith, e)
  ]

  -- The loop does nothing at a uid that none of its alarms has.
  delete_each-other :
      (cluster : String) (t : kv.Table) (l : List Alarm) (k : ℕ)
      → get_alarm_from_outdated k l ≡ none
      → (stored kv json (delete_each kv json uint_to_str cluster t l).0 (uint_to_str k)
          ≡ stored kv json t (uint_to_str k))
        × (get_alarm_from_outdated k (delete_each kv json uint_to_str cluster t l).1 ≡ none)
  unfolding delete_each get_alarm_from_outdated
  delete_each-other cluster t [] k e = (refl, refl)
  delete_each-other cluster t (a ∷ l) k e = elim (Bool-cases (a.uid == k)) [
    | inl q ↦ ground (arith, e, q)
    | inr q ↦
        let (same, gone) =
          delete_each-other cluster (after cluster a t) l k (ground (arith, e, q)) in
        (same ∙ ground (arith, q, stored-after cluster a t k), ground (arith, gone, q))
  ]

  delete_each-agrees :
      (cluster : String) (t : kv.Table) (l : List Alarm) (k : ℕ)
      → IsIncreasing l
      → stored kv json t (uint_to_str k) ≡ get_alarm_from_outdated k l
      → stored kv json (delete_each kv json uint_to_str cluster t l).0 (uint_to_str k)
        ≡ get_alarm_from_outdated k (delete_each kv json uint_to_str cluster t l).1
  unfolding delete_each get_alarm_from_outdated
  delete_each-agrees cluster t [] k i g = g
  delete_each-agrees cluster t (a ∷ l) k i g = elim (Bool-cases (a.uid == k)) [
    | inl q ↦
        let later : get_alarm_from_outdated k l ≡ none =
          find-later k l (subst (λ n. All (λ b. n < b.uid) l) (ground (arith, q)) i.0) in
        let (same, gone) = delete_each-other cluster (after cluster a t) l k later in
        same ∙ ground (arith, q, g, gone, stored-after cluster a t k)
    | inr q ↦
        delete_each-agrees cluster (after cluster a t) l k i.1
          (stored-after cluster a t k ∙ ground (arith, q, g))
        ∙ ground (arith, q)
  ]

  -- `deleteAlarmForCluster` keeps the list of alarms and the table in agreement, uid by uid: an
  -- alarm whose deletion fails stays in both.
  pub delete_alarm_for_cluster-IsSynced :
      (cluster : String) (ac : AlarmCache kv.Table)
      → IsSynced ac
      → IsSynced (delete_alarm_for_cluster kv json uint_to_str cluster ac)
  unfolding delete_alarm_for_cluster
  delete_alarm_for_cluster-IsSynced cluster ac s = record {
    increasing = IsIncreasing-delete_each cluster ac.alarms_table ac.alarm_list s.increasing;
    below =
        All-delete_each (λ a. a.uid ≤ ac.event_id) cluster ac.alarms_table ac.alarm_list s.below;
    agrees =
        λ k. delete_each-agrees cluster ac.alarms_table ac.alarm_list k s.increasing (s.agrees k);
  }
