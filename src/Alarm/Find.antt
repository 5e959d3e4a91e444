-- ===== src/Alarm/Find.antt =====
-- About the searches of pkg/alarm/alarmcache.go in the list of alarms.
use singlecloud.Base.{
  ℕ, ◌<◌, Bool, true, false, List, [], ◌∷◌, Option, none, some, ◌≡◌, refl, sym, ◌∙◌, ap, subst, ◌⊎◌,
  inl, inr, ◌↔◌, arith, ltb, ◌≤◌, ◌==◌, if◌then◌else◌, Bool-cases, All, Mem,
}
use singlecloud.Alarm.{
  Alarm, backwards, get_alarm_from_outdated, get_alarm_from_latest, get_alarm_from_list,
  collect_after, get_alarms_after_id,
}

-- The uids go up.
abbrev pub IsIncreasing : List Alarm → Type 0
IsIncreasing [] = Unit
IsIncreasing (a ∷ l) = All (λ b. a.uid < b.uid) l × IsIncreasing l

abbrev IsDecreasing : List Alarm → Type 0
IsDecreasing [] = Unit
IsDecreasing (a ∷ l) = All (λ b. b.uid < a.uid) l × IsDecreasing l

pub find-later :
    (id : ℕ) (l : List Alarm) → All (λ b. id < b.uid) l → get_alarm_from_outdated id l ≡ none
unfolding get_alarm_from_outdated
find-later id [] h = refl
find-later id (a ∷ l) h = ground (arith, h.0, find-later id l h.1)

abbrev or_else : Option Alarm → Option Alarm → Option Alarm
or_else none o = o
or_else (some a) o = some a

find-backwards :
    (id : ℕ) (l r : List Alarm)
    → IsIncreasing l
    → get_alarm_from_outdated id (backwards l r)
      ≡ or_else (get_alarm_from_outdated id l) (get_alarm_from_outdated id r)
unfolding get_alarm_from_outdated
find-backwards id [] r h = refl
find-backwards id (a ∷ l) r h = elim (Bool-cases (a.uid == id)) [
  | inl e ↦ ground (
    arith,
    e,
    find-backwards id l (a ∷ r) h.1,
    find-later id l (subst (λ n. All (λ b. n < b.uid) l) (ground (arith, e)) h.0),
  )
  | inr e ↦ ground (arith, e, find-backwards id l (a ∷ r) h.1)
]

or_else-none : (o : Option Alarm) → or_else o none ≡ o
or_else-none none = refl
or_else-none (some a) = refl

latest_lem :
    (id : ℕ) (l : List Alarm)
    → IsIncreasing l
    → get_alarm_from_latest id l ≡ get_alarm_from_outdated id l
unfolding get_alarm_from_latest get_alarm_from_outdated
latest_lem id l h = find-backwards id l [] h ∙ or_else-none (get_alarm_from_outdated id l)

same_if : (b : Bool) (x y : Option Alarm) → y ≡ x → (if b then x else y) ≡ x
same_if true x y e = refl
same_if false x y e = e

-- When the uids go up and the list is not empty, the search for an alarm finds the one of that uid
-- or finds that there is none, from whichever end it starts, also where the subtractions that
-- choose the end wrap round.
pub get_alarm_from_list-find :
    (id : ℕ) (a : Alarm) (l : List Alarm)
    → IsIncreasing (a ∷ l)
    → get_alarm_from_list id (a ∷ l) ≡ some (get_alarm_from_outdated id (a ∷ l))
unfolding get_alarm_from_list
get_alarm_from_list-find id a l h = ap some (same_if _ _ _ (latest_lem id (a ∷ l) h))

All-both : (P Q : Alarm → Type 0) (l : List Alarm) → All P l → All Q l → All (λ x. P x × Q x) l
All-both P Q [] p q = tt
All-both P Q (x ∷ l) p q = ((p.0, q.0), All-both P Q l p.1 q.1)

All-none : (Q : Alarm → Alarm → Type 0) (l : List Alarm) → All (λ b. All (Q b) []) l
All-none Q [] = tt
All-none Q (x ∷ l) = (tt, All-none Q l)

backwards-IsDecreasing :
    (l r : List Alarm)
    → IsIncreasing l
    → IsDecreasing r
    → All (λ b. All (λ x. x.uid < b.uid) r) l
    → IsDecreasing (backwards l r)
backwards-IsDecreasing [] r h d c = d
backwards-IsDecreasing (a ∷ l) r h d c =
    backwards-IsDecreasing l (a ∷ r) h.1 (c.0, d)
      (All-both (λ b. a.uid < b.uid) (λ b. All (λ x. x.uid < b.uid) r) l h.0 c.1)

Mem-backwards : (x : Alarm) (l r : List Alarm) → Mem x (backwards l r) ↔ (Mem x l ⊎ Mem x r)
Mem-backwards x [] r = (inr, λ h. elim h [ inl e ↦ absurd e | inr e ↦ e ])
Mem-backwards x (a ∷ l) r =
    ((λ m. forth ((Mem-backwards x l (a ∷ r)).0 m)), λ m. (Mem-backwards x l (a ∷ r)).1 (back m))
  where
    forth : Mem x l ⊎ Mem x (a ∷ r) → Mem x (a ∷ l) ⊎ Mem x r
    forth (inl m) = inl (inr m)
    forth (inr (inl e)) = inl (inl e)
    forth (inr (inr m)) = inr m

    back : Mem x (a ∷ l) ⊎ Mem x r → Mem x l ⊎ Mem x (a ∷ r)
    back (inl (inl e)) = inr (inl e)
    back (inl (inr m)) = inl m
    back (inr m) = inr (inr m)

All-Mem : (P : Alarm → Type 0) (x : Alarm) (l : List Alarm) → All P l → Mem x l → P x
All-Mem P x [] h m = absurd m
All-Mem P x (a ∷ l) h (inl e) = subst P (sym e) h.0
All-Mem P x (a ∷ l) h (inr m) = All-Mem P x l h.1 m

Mem-collect_after :
    (id : ℕ) (l : List Alarm) (x : Alarm)
    → IsDecreasing l
    → Mem x (collect_after id l) ↔ (Mem x l × (id < x.uid))
unfolding collect_after
Mem-collect_after id [] x d = ((λ i. absurd i), λ h. h.0)
Mem-collect_after id (a ∷ l) x d =
    go (ltb id a.uid) (λ h. ground (arith, h)) (λ h. ground (arith, h))
      (Mem-collect_after id l x d.1)
  where
    go :
        (b : Bool)
        → (b ≡ true → id < a.uid)
        → (b ≡ false → a.uid ≤ id)
        → Mem x (collect_after id l) ↔ (Mem x l × (id < x.uid))
        → Mem x (if b then a ∷ collect_after id l else []) ↔ (Mem x (a ∷ l) × (id < x.uid))
    go true h k ih = (forth, back)
      where
        forth : Mem x (a ∷ collect_after id l) → Mem x (a ∷ l) × (id < x.uid)
        forth (inl e) = (inl e, subst (λ y. id < y.uid) (sym e) (h refl))
        forth (inr m) = (inr (ih.0 m).0, (ih.0 m).1)

        back : Mem x (a ∷ l) × (id < x.uid) → Mem x (a ∷ collect_after id l)
        back (inl e, q) = inl e
        back (inr m, q) = inr (ih.1 (m, q))
    go false h k ih = ((λ i. absurd i), λ p. older p.0 p.1)
      where
        older : Mem x (a ∷ l) → id < x.uid → ⊥
        older (inl e) q = omega (arith, q, k refl, ap (λ (y : Alarm). y.uid) e)
        older (inr m) q = omega (arith, q, k refl, All-Mem (λ b. b.uid < a.uid) x l d.0 m)

-- When the uids in the list go up, `getAlarmsAfterID` gives exactly the alarms of the list whose uid
-- is higher than the one it is asked for. The sort keeps the members of a list.
pub get_alarms_after_id_iff :
    (sort : List Alarm → List Alarm)
    (same : (l : List Alarm) (x : Alarm) → Mem x (sort l) ↔ Mem x l) (id : ℕ) (l : List Alarm)
    (x : Alarm)
    → IsIncreasing l
    → Mem x (get_alarms_after_id sort id l) ↔ (Mem x l × (id < x.uid))
unfolding get_alarms_after_id
get_alarms_after_id_iff sort same id l x h = (
  (λ m.
      let (i, q) = after.0 ((same (collect_after id (backwards l [])) x).0 m) in
      (here ((Mem-backwards x l []).0 i), q)),
  λ p.
      (same (collect_after id (backwards l [])) x).1
        (after.1 ((Mem-backwards x l []).1 (inl p.0), p.1)),
)
  where
    after : Mem x (collect_after id (backwards l [])) ↔ (Mem x (backwards l []) × (id < x.uid))
    after =
        Mem-collect_after id (backwards l []) x
          (backwards-IsDecreasing l [] h tt (All-none (λ b x. x.uid < b.uid) l))

    here : Mem x l ⊎ ⊥ → Mem x l
    here (inl m) = m
    here (inr e) = absurd e
