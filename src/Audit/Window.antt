-- ===== src/Audit/Window.antt =====
-- About `Add` of pkg/auditlog/storage/storage.go.
use singlecloud.Base.{
  ℕ, suc, ◌+◌, ◌-◌, ◌%◌, ◌≤◌, ◌<◌, String, Bool, true, false, none, some, ◌≡◌, ◌≢◌, refl, sym, ◌∙◌,
  ap, ◌⊎◌, inl, inr, arith, assign, ltb, eq_iff, if◌then◌else◌, ◌==◌,
}
use native.Mathlib.Decide.{ℕ_discrete}
use singlecloud.Kv.{Kv, Codec, stored, stored-marshal_first, stored-delete, add-Puts}
use singlecloud.Audit.{
  max_uint64, AuditLog, DefaultDriver, is_full, add_to_db, delete_from_db, appended, append,
  removed_first, add,
}

-- The lowest id in use.
abbrev pub lowest : {T : Type 0} → DefaultDriver T → ℕ
lowest d = if d.first_id == 0 then 1 else d.first_id

module _ {V : Type 0} (kv : Kv V) (json : Codec AuditLog V) (uint_to_str : ℕ → String)
    (one_to_one : (a b : ℕ) → uint_to_str a ≡ uint_to_str b → a ≡ b) where
  -- Exactly the ids from the lowest to the current one are stored, each with its own record, and
  -- there are no more of them than the driver may hold.
  pub record IsWindow (d : DefaultDriver kv.Table) : Type 0 where
    pub some_room : 2 ≤ d.max_record_count
    pub room_fits : d.max_record_count < max_uint64
    pub in_order : d.first_id ≤ d.current_id
    pub bound : suc d.current_id ≤ d.max_record_count + d.first_id
    pub inside :
        (k : ℕ)
        → lowest d ≤ k
        → k ≤ d.current_id
        → (log : AuditLog) × (stored kv json d.table (uint_to_str k) ≡ some log) × (log.uid ≡ k)
    pub outside :
        (k : ℕ)
        → (k < lowest d) ⊎ (d.current_id < k)
        → stored kv json d.table (uint_to_str k) ≡ none

  wrap_sub : (a b : ℕ) → a < max_uint64 → b ≤ a → (a + (max_uint64 - b)) % max_uint64 ≡ a - b
  wrap_sub a b h k = omega (arith, h, k)

  wrap_suc : (a : ℕ) → suc a < max_uint64 → (a + 1) % max_uint64 ≡ suc a
  wrap_suc a h = omega (arith, h)

  is_full_lem :
      (d : DefaultDriver kv.Table)
      → IsWindow d
      → d.current_id < max_uint64
      → is_full d ≡ ltb (d.max_record_count - 2) (d.current_id - d.first_id)
  unfolding is_full
  is_full_lem d w h =
      rw
        (
          wrap_sub d.max_record_count 2 w.room_fits w.some_room,
          wrap_sub d.current_id d.first_id h w.in_order,
        )
        refl

  module _ (a : AuditLog) (d : DefaultDriver kv.Table) (w : IsWindow d)
      (h : suc d.current_id < max_uint64)
      (r : suc (suc d.current_id) ≤ d.max_record_count + d.first_id) where
    abbrev numbered : ℕ → AuditLog
    numbered uid = record a { uid = uid; id = uint_to_str uid }

    appended-IsWindow :
        (uid : ℕ) (t : kv.Table) (b : Bool)
        → uid ≡ suc d.current_id
        → ((j : String)
            → stored kv json t j ≡ (
                if b
                then assign (uint_to_str uid) (some (numbered uid)) (stored kv json d.table) j
                else stored kv json d.table j))
        → IsWindow (appended kv json uint_to_str uid (t, b) d).0
    unfolding appended
    appended-IsWindow uid t false e s = record {
      some_room = w.some_room;
      room_fits = w.room_fits;
      in_order = w.in_order;
      bound = w.bound;
      inside = λ k l u. let (log, p, q) = w.inside k l u in (log, s (uint_to_str k) ∙ p, q);
      outside = λ k o. s (uint_to_str k) ∙ w.outside k o;
    }
    appended-IsWindow uid t true e s = record {
      some_room = w.some_room;
      room_fits = w.room_fits;
      in_order = omega (arith, e, w.in_order);
      bound = omega (arith, e, r);
      inside = λ k l u. elim (ℕ_discrete k uid) [
        | yes q ↦ (
          numbered uid,
          ground (
            arith,
            s (uint_to_str k),
            ap uint_to_str q,
            eq_iff (uint_to_str uid) (uint_to_str k),
          ),
          sym q,
        )
        | no n ↦ let (log, p, q) = w.inside k l (omega (arith, u, n, e)) in (log, other k n ∙ p, q)
      ];
      outside = λ k o. other k (apart k o) ∙ w.outside k (still k o);
    }
      where
        other :
            (k : ℕ)
            → k ≢ uid
            → stored kv json t (uint_to_str k) ≡ stored kv json d.table (uint_to_str k)
        other k n = ground (
          arith,
          s (uint_to_str k),
          eq_iff (uint_to_str uid) (uint_to_str k),
          λ (q : uint_to_str uid ≡ uint_to_str k). n (sym (one_to_one uid k q)),
        )

        apart : (k : ℕ) → (k < lowest d) ⊎ (uid < k) → k ≢ uid
        apart k (inl l) q = ground (arith, l, q, e, w.in_order)
        apart k (inr l) q = omega (arith, l, q)

        still : (k : ℕ) → (k < lowest d) ⊎ (uid < k) → (k < lowest d) ⊎ (d.current_id < k)
        still k (inl l) = inl l
        still k (inr l) = inr (omega (arith, l, e))

    append-IsWindow : IsWindow (append kv json uint_to_str a d).0
    unfolding append add_to_db
    append-IsWindow =
        appended-IsWindow ((d.current_id + 1) % max_uint64) _ _ (wrap_suc d.current_id h)
          (λ j. stored-marshal_first kv json kv.add (add-Puts kv) d.table _ j _)

  -- The oldest record is gone.
  removed-IsWindow :
      (d : DefaultDriver kv.Table) (t : kv.Table)
      → IsWindow d
      → suc d.current_id < max_uint64
      → d.max_record_count - 2 < d.current_id - d.first_id
      → ((j : String)
          → stored kv json t j ≡ assign (uint_to_str d.first_id) none (stored kv json d.table) j)
      → IsWindow (record d { table = t; first_id = (d.first_id + 1) % max_uint64 })
  removed-IsWindow d t w h f s = record {
    some_room = w.some_room;
    room_fits = w.room_fits;
    in_order = omega (arith, next, f, w.some_room);
    bound = omega (arith, next, w.bound);
    inside = λ k l u.
        let past : d.first_id < k = ground (arith, l, next) in
        let (log, p, q) = w.inside k (ground (arith, past)) u in
        (log, keep k (λ e. ground (arith, past, e)) ∙ p, q);
    outside = λ k o. elim (ℕ_discrete k d.first_id) [
      | yes e ↦ ground (
        arith,
        s (uint_to_str k),
        ap uint_to_str e,
        eq_iff (uint_to_str d.first_id) (uint_to_str k),
      )
      | no n ↦ keep k n ∙ w.outside k (before k n o)
    ];
  }
    where
      next : (d.first_id + 1) % max_uint64 ≡ suc d.first_id
      next = wrap_suc d.first_id (omega (arith, h, w.in_order, f))

      keep :
          (k : ℕ)
          → k ≢ d.first_id
          → stored kv json t (uint_to_str k) ≡ stored kv json d.table (uint_to_str k)
      keep k n = ground (
        arith,
        s (uint_to_str k),
        eq_iff (uint_to_str d.first_id) (uint_to_str k),
        λ (q : uint_to_str d.first_id ≡ uint_to_str k). n (sym (one_to_one d.first_id k q)),
      )

      before :
          (k : ℕ)
          → k ≢ d.first_id
          → (k < (if (d.first_id + 1) % max_uint64 == 0 then 1 else (d.first_id + 1) % max_uint64))
            ⊎ (d.current_id < k)
          → (k < lowest d) ⊎ (d.current_id < k)
      before k n (inl l) = inl (ground (arith, l, next, n))
      before k n (inr l) = inr l

  module _ (a : AuditLog) (d : DefaultDriver kv.Table) (w : IsWindow d)
      (h : suc d.current_id < max_uint64) where
    removed_first-IsWindow :
        (t : kv.Table) (b : Bool)
        → d.max_record_count - 2 < d.current_id - d.first_id
        → ((j : String)
            → stored kv json t j ≡ (
                if b
                then assign (uint_to_str d.first_id) none (stored kv json d.table) j
                else stored kv json d.table j))
        → IsWindow (removed_first kv json uint_to_str a (t, b) d).0
    unfolding removed_first
    removed_first-IsWindow t true f s =
        append-IsWindow a _ (removed-IsWindow d t w h f s) h
          (omega (arith, w.bound, wrap_suc d.first_id (omega (arith, h, w.in_order, f))))
    removed_first-IsWindow t false f s = record {
      some_room = w.some_room;
      room_fits = w.room_fits;
      in_order = w.in_order;
      bound = w.bound;
      inside = λ k l u. let (log, p, q) = w.inside k l u in (log, s (uint_to_str k) ∙ p, q);
      outside = λ k o. s (uint_to_str k) ∙ w.outside k o;
    }

    add-if :
        (b : Bool)
        → is_full d ≡ b
        → IsWindow
            (if b
              then removed_first kv json uint_to_str a
                  (delete_from_db kv json (uint_to_str d.first_id) d.table)
                  d
              else append kv json uint_to_str a d).0
    unfolding delete_from_db
    add-if true e =
        removed_first-IsWindow _ _ (ground (arith, e, is_full_lem d w (omega (arith, h))))
          (λ j. stored-delete kv json d.table (uint_to_str d.first_id) j)
    add-if false e =
        append-IsWindow a d w h
          (ground (arith, e, is_full_lem d w (omega (arith, h)), w.bound, w.in_order, w.some_room))

    -- `Add` keeps the table a window of the last records: exactly the ids from the lowest to the
    -- current one are stored, and at most as many as the driver may hold, also when any call of
    -- the store fails. The counter does not wrap, and the driver may hold two records at least.
    pub add-IsWindow : IsWindow (add kv json uint_to_str a d).0
    unfolding add
    add-IsWindow = add-if (is_full d) refl
