-- ===== src/Events/Newer.antt =====
-- About `getEventsAfterID` of pkg/k8seventwatcher/eventwatcher.go.
use singlecloud.Base.{
  ℕ, zero, suc, ◌+◌, ◌-◌, ◌%◌, length, map, ◌≤◌, ◌<◌, Bool, true, false, List, [], ◌∷◌, ◌++◌,
  Option, some, ◌≡◌, refl, sym, ◌∙◌, ap, subst, ltb, leb, ◌==◌, if◌then◌else◌, arith, All,
  Bool-cases, inl, inr,
}
use singlecloud.Events.{
  max_uint64, fill, Event, get_events_from_elem, get_events_from_outdated, walk_back, backwards,
  get_events_from_latest, end_id, get_events_after_id,
}

module _ {E : Type 0} where
  -- The ids count up by one.
  abbrev pub IsConsecutive : ℕ → List (Event E) → Type 0
  IsConsecutive n [] = Unit
  IsConsecutive n (e ∷ l) = (e.id ≡ n) × IsConsecutive (suc n) l

  -- The events newer than an id.
  pub newer : ℕ → List (Event E) → List (Event E)
  newer id [] = []
  newer id (e ∷ l) = let rest = newer id l in if leb e.id id then rest else e ∷ l

  -- The events of the elements from one on.
  read_elem : ℕ → List (Event E) → Option (ℕ × List E)
  read_elem batch [] = some (0, [])
  read_elem batch (e ∷ l) = get_events_from_elem batch (e ∷ l)

  -- The first events of a list, at most so many.
  pub take : ℕ → List (Event E) → List (Event E)
  take zero l = []
  take (suc n) [] = []
  take (suc n) (e ∷ l) = e ∷ take n l

  pub last_id : List (Event E) → ℕ
  last_id [] = 0
  last_id (e ∷ []) = e.id
  last_id (e ∷ f ∷ l) = last_id (f ∷ l)

  -- Some events, with the id to read on from.
  abbrev pub batch_of : List (Event E) → Option (ℕ × List E)
  batch_of l = some (last_id l, map (λ e. e.k8s_event) l)

  newer-old :
      (id : ℕ) (e : Event E) (l : List (Event E)) → e.id ≤ id → newer id (e ∷ l) ≡ newer id l
  unfolding newer
  newer-old id e l h = ground (arith, h)

  newer-new : (id : ℕ) (e : Event E) (l : List (Event E)) → id < e.id → newer id (e ∷ l) ≡ e ∷ l
  unfolding newer
  newer-new id e l h = ground (arith, h)

  append_nil : (l : List (Event E)) → l ++ [] ≡ l
  append_nil [] = refl
  append_nil (e ∷ l) = ap (λ r. e ∷ r) (append_nil l)

  outdated_lem :
      (id batch : ℕ) (l : List (Event E))
      → get_events_from_outdated id batch l ≡ get_events_from_elem batch (newer id l)
  unfolding get_events_from_outdated get_events_from_elem newer
  outdated_lem id batch [] = refl
  outdated_lem id batch (e ∷ l) = elim (Bool-cases (leb e.id id)) [
    | inl h ↦ rw (h, get_events_from_outdated, newer) (outdated_lem id batch l)
    | inr h ↦ rw (h, get_events_from_outdated, newer) refl
  ]

  All-later : (id n : ℕ) (l : List (Event E)) → id < n → IsConsecutive n l → All (λ e. id < e.id) l
  All-later id n [] h c = tt
  All-later id n (e ∷ l) h c = (omega (arith, c.0), All-later id (suc n) l (omega arith) c.1)

  walk_back-later :
      (id batch : ℕ) (l r passed : List (Event E))
      → All (λ e. id < e.id) l
      → walk_back id batch (backwards l r) passed ≡ walk_back id batch r (l ++ passed)
  unfolding walk_back
  walk_back-later id batch [] r passed a = refl
  walk_back-later id batch (e ∷ l) r passed a =
      walk_back-later id batch l (e ∷ r) passed a.1 ∙ ground (arith, a.0)

  walk_back-seen :
      (id batch : ℕ) (e : Event E) (r passed : List (Event E))
      → e.id ≤ id
      → walk_back id batch (e ∷ r) passed ≡ get_events_from_elem batch passed
  unfolding walk_back
  walk_back-seen id batch e r passed h = ground (arith, h)

  walk_back_lem :
      (id batch : ℕ) (e : Event E) (l r : List (Event E))
      → e.id ≤ id
      → IsConsecutive (suc e.id) l
      → walk_back id batch (backwards l (e ∷ r)) [] ≡ get_events_from_elem batch (newer id l)
  unfolding newer
  walk_back_lem id batch e [] r h c = walk_back-seen id batch e r [] h
  walk_back_lem id batch e (f ∷ l) r h c = elim (Bool-cases (leb f.id id)) [
    | inl k ↦
        walk_back_lem id batch f l (e ∷ r) (ground (arith, k))
          (subst (λ n. IsConsecutive (suc n) l) (sym c.0) c.1)
        ∙ ap (get_events_from_elem batch) (sym (newer-old id f l (ground (arith, k))))
    | inr k ↦
        let new_ : id < f.id = ground (arith, k) in
        walk_back-later id batch (f ∷ l) (e ∷ r) []
          (new_, All-later id (suc (suc e.id)) l (omega (arith, c.0)) c.1)
        ∙ (walk_back-seen id batch e r ((f ∷ l) ++ []) h
            ∙ ap (get_events_from_elem batch) (append_nil (f ∷ l) ∙ sym (newer-new id f l new_)))
  ]

  end_id-ge : (n d : ℕ) (l : List (Event E)) → IsConsecutive (suc d) l → d ≤ end_id d l
  unfolding end_id
  end_id-ge n d [] c = omega arith
  end_id-ge n d (e ∷ l) c =
      omega (arith, c.0, end_id-ge n e.id l (subst (λ k. IsConsecutive (suc k) l) (sym c.0) c.1))

  newer-end :
      (id d : ℕ) (l : List (Event E)) → IsConsecutive (suc d) l → id ≡ end_id d l → newer id l ≡ []
  unfolding end_id newer
  newer-end id d [] c h = refl
  newer-end id d (e ∷ l) c h =
      let c' : IsConsecutive (suc e.id) l = subst (λ k. IsConsecutive (suc k) l) (sym c.0) c.1 in
      newer-old id e l (omega (arith, h, end_id-ge 0 e.id l c')) ∙ newer-end id e.id l c' h

  read_elem-cons :
      (batch : ℕ) (e : Event E) (l r : List (Event E))
      → r ≡ e ∷ l
      → get_events_from_elem batch r ≡ read_elem batch r
  unfolding read_elem
  read_elem-cons batch e l r h = ap (get_events_from_elem batch) h ∙ sym (ap (read_elem batch) h)

  read_elem-newer :
      (id batch d : ℕ) (l : List (Event E))
      → IsConsecutive (suc d) l
      → d ≤ id
      → id < end_id d l
      → get_events_from_elem batch (newer id l) ≡ read_elem batch (newer id l)
  unfolding end_id
  read_elem-newer id batch d [] c h k = ground (arith, h, k)
  read_elem-newer id batch d (e ∷ l) c h k = elim (Bool-cases (leb e.id id)) [
    | inl t ↦
        let old = newer-old id e l (ground (arith, t)) in
        ap (get_events_from_elem batch) old
        ∙ (read_elem-newer id batch e.id l (subst (λ n. IsConsecutive (suc n) l) (sym c.0) c.1)
              (ground (arith, t)) k
            ∙ sym (ap (read_elem batch) old))
    | inr t ↦ read_elem-cons batch e l (newer id (e ∷ l)) (newer-new id e l (ground (arith, t)))
  ]

  if-both : (b : Bool) (x y z : Option (ℕ × List E)) → x ≡ z → y ≡ z → (if b then x else y) ≡ z
  if-both true x y z p q = p
  if-both false x y z p q = q

  get_events_after_id-elem :
      (n id batch : ℕ) (l : List (Event E))
      → IsConsecutive n l
      → id ≤ end_id id l
      → get_events_after_id id batch l ≡ read_elem batch (newer id l)
  unfolding get_events_after_id get_events_from_latest end_id newer read_elem
  get_events_after_id-elem n id batch [] c h = refl
  get_events_after_id-elem n id batch (e ∷ l) c h = elim (Bool-cases (ltb id e.id)) [
    | inl t ↦
        rw (t, get_events_after_id)
          (outdated_lem id batch (e ∷ l)
            ∙ read_elem-cons batch e l (newer id (e ∷ l)) (newer-new id e l (ground (arith, t))))
    | inr t ↦
        let seen : e.id ≤ id = ground (arith, t) in
        let later : IsConsecutive (suc e.id) l =
          subst (λ k. IsConsecutive (suc k) l) (sym c.0) c.1 in
        elim (Bool-cases (id == end_id e.id l)) [
          | inl k ↦
              rw (t, k, get_events_after_id)
                (sym (
                  ap (read_elem batch)
                    (newer-old id e l seen ∙ newer-end id e.id l later (ground (arith, k)))))
          | inr k ↦
              let rest =
                read_elem-newer id batch e.id l later seen (ground (arith, k, h))
                ∙ sym (ap (read_elem batch) (newer-old id e l seen)) in
              rw (t, k, get_events_after_id)
                (if-both _ _ _ _
                  (outdated_lem id batch (e ∷ l)
                    ∙ (ap (get_events_from_elem batch) (newer-old id e l seen) ∙ rest))
                  (walk_back_lem id batch e l [] seen later ∙ rest))
        ]
  ]

  fill-take :
      (batch : ℕ) (l : List (Event E)) → fill batch l ≡ map (λ e. e.k8s_event) (take batch l)
  unfolding fill take
  fill-take zero l = refl
  fill-take (suc batch) [] = refl
  fill-take (suc batch) (e ∷ l) = ap (λ r. e.k8s_event ∷ r) (fill-take batch l)

  -- The last id of the first elements, by their number.
  last_id-take :
      (n batch : ℕ) (e : Event E) (l : List (Event E))
      → IsConsecutive n (e ∷ l)
      → (last_id (take (suc batch) (e ∷ l)) + 1 ≡ e.id + length (fill (suc batch) (e ∷ l)))
        × (last_id (take (suc batch) (e ∷ l)) ≤ end_id e.id l)
  unfolding fill take last_id end_id
  last_id-take n zero e l c =
      (refl, end_id-ge 0 e.id l (subst (λ k. IsConsecutive (suc k) l) (sym c.0) c.1))
  last_id-take n (suc batch) e [] c = (refl, omega arith)
  last_id-take n (suc batch) e (f ∷ l) c =
      let (ih, le) = last_id-take (suc n) batch f l c.1 in (omega (arith, ih, c.0, c.1.0), le)

  read_elem-take :
      (n batch : ℕ) (l : List (Event E))
      → IsConsecutive n l
      → 0 < batch
      → end_id 0 l < max_uint64
      → read_elem batch l ≡ batch_of (take batch l)
  unfolding read_elem get_events_from_elem take end_id last_id
  read_elem-take n zero l c b m = absurd (omega (arith, b))
  read_elem-take n (suc batch) [] c b m = refl
  read_elem-take n (suc batch) (e ∷ l) c b m =
      let (ih, le) = last_id-take n batch e l c in
      let id = e.id + (length (fill (suc batch) (e ∷ l)) + (max_uint64 - 1)) in
      let at : id % max_uint64 ≡ last_id (take (suc batch) (e ∷ l)) = omega (arith, ih, le, m) in
      ap (λ i. some (i, fill (suc batch) (e ∷ l))) at
      ∙ ap (λ r. some (last_id (take (suc batch) (e ∷ l)), r)) (fill-take (suc batch) (e ∷ l))

  -- What is newer is the end of the list.
  newer-IsConsecutive :
      (n id : ℕ) (l : List (Event E)) → IsConsecutive n l → (k : ℕ) × IsConsecutive k (newer id l)
  unfolding newer
  newer-IsConsecutive n id [] c = (n, tt)
  newer-IsConsecutive n id (e ∷ l) c = elim (Bool-cases (leb e.id id)) [
    | inl h ↦ rw (newer, h) (newer-IsConsecutive (suc n) id l c.1)
    | inr h ↦ rw (newer, h) (n, c)
  ]

  end_id-newer : (id d : ℕ) (l : List (Event E)) → end_id 0 (newer id l) ≤ end_id d l
  unfolding newer end_id
  end_id-newer id d [] = omega arith
  end_id-newer id d (e ∷ l) = elim (Bool-cases (leb e.id id)) [
    | inl h ↦ rw (newer, h) (end_id-newer id e.id l)
    | inr h ↦ rw (newer, h) (omega arith)
  ]

  -- When the ids in the list count up by one and do not reach the end of the 64-bit numbers, and
  -- the buffer holds at least one event, reading on from an id that is not beyond the last one never
  -- dereferences a nil element, and gives the newer events in their order, the first ones, as many
  -- as the buffer holds, with the id of the last of these; if there is no newer event it gives none
  -- and the id 0. It makes no difference from which end the list is searched.
  pub get_events_after_id-newer :
      (n id batch : ℕ) (l : List (Event E))
      → IsConsecutive n l
      → id ≤ end_id id l
      → 0 < batch
      → end_id 0 l < max_uint64
      → get_events_after_id id batch l ≡ batch_of (take batch (newer id l))
  get_events_after_id-newer n id batch l c h b m =
      let (k, d) = newer-IsConsecutive n id l c in
      get_events_after_id-elem n id batch l c h
      ∙ read_elem-take k batch (newer id l) d b (omega (arith, m, end_id-newer id 0 l))
