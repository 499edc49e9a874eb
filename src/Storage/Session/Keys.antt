-- ===== src/Storage/Session/Keys.antt =====
-- pkg/storage/table.go and tx.go: the keys under which the rows of a table are stored, and that a
-- transaction stages every row under a key of its own table.
use pizzasql.Prelude.{
  ℕ, Bool, false, ◌&&◌, ◌||◌, some, List, [], ◌∷◌, ◌++◌, ◌≡◌, refl, ◌∙◌, arith, ◌==◌, leb, length,
  Bool-cases, Option-cases, inl, inr,
}
use mathlib.Core.List.{append_assoc}
use pizzasql.Prelude.Bytes.{Bytes, bytes, bytes_eq, bytes_equal, bytes_equal_iff}
use pizzasql.Prelude.Map.{
  Map, lookup, insert, remove, Distinct, lookup-insert, lookup-remove, insert-Distinct,
  remove-Distinct,
}
use pizzasql.Storage.Session.{
  OverlayEntry, Overlay, TxMutation, Session, to_lower, data_key, staged_rows, staged, set_entry,
  stage, undo, undo_from, rollback_log, rollback_to, new_session,
}
use pizzasql.Storage.Session.Overlay.{staged-set_entry, staged-undo}

-- The name holds a colon.
abbrev pub has_colon : Bytes → Bool
has_colon [] = false
has_colon (c ∷ cs) = c == b':' || has_colon cs

has_colon-to_lower : (t : Bytes) → has_colon (to_lower t) ≡ has_colon t
has_colon-to_lower [] = refl
has_colon-to_lower (c ∷ cs) = ground (arith, has_colon-to_lower cs)

-- The end of a key, behind the part that all tables share.
abbrev row_suffix : Bytes → Bytes → Bytes
row_suffix t pk = t ++ (bytes ":" ++ pk)

to_lower_twice : (t : Bytes) → to_lower (to_lower t) ≡ to_lower t
to_lower_twice [] = refl
to_lower_twice (c ∷ cs) = ground (arith, to_lower_twice cs)

row_suffix_inj :
    (t u p q : Bytes)
    → has_colon t ≡ false
    → has_colon u ≡ false
    → row_suffix t p ≡ row_suffix u q
    → (t ≡ u) × (p ≡ q)
row_suffix_inj [] [] p q h k e = ground arith
row_suffix_inj [] (c ∷ u) p q h k e = ground arith
row_suffix_inj (c ∷ t) [] p q h k e = ground arith
row_suffix_inj (c ∷ t) (d ∷ u) p q h k e = ground (arith, row_suffix_inj t u p q)

prefix_inj : (p a b : Bytes) → p ++ a ≡ p ++ b → a ≡ b
prefix_inj [] a b e = e
prefix_inj (x ∷ p) a b e = prefix_inj p a b (ground arith)

-- Two rows have different keys where their tables have different names, apart from the case of
-- letters, or they have different primary keys: provided that neither name holds a colon.
pub data_key_inj :
    (database t u p q : Bytes)
    → has_colon t ≡ false
    → has_colon u ≡ false
    → data_key database t p ≡ data_key database u q
    → (to_lower t ≡ to_lower u) × (p ≡ q)
data_key_inj database t u p q h k e =
    row_suffix_inj (to_lower t) (to_lower u) p q (has_colon-to_lower t ∙ h)
      (has_colon-to_lower u ∙ k)
      (prefix_inj (bytes ":_data:") (row_suffix (to_lower t) p) (row_suffix (to_lower u) q)
        (prefix_inj database _ _ e))

to_lower-append : (a b : Bytes) → to_lower (a ++ b) ≡ to_lower a ++ to_lower b
to_lower-append [] b = refl
to_lower-append (c ∷ a) b = ground (arith, to_lower-append a b)

-- With a colon in a name, rows of two tables share a key: the row `p` of the table `t:u`, and the
-- row `u:p` of the table `t`, for a name `u` in small letters.
pub data_key_shared :
    (database t u p : Bytes)
    → to_lower u ≡ u
    → data_key database (t ++ (bytes ":" ++ u)) p ≡ data_key database t (u ++ (bytes ":" ++ p))
data_key_shared database t u p low = simp (to_lower-append t (bytes ":" ++ u), low, append_assoc)

-- A row of the table may stand under the key.
abbrev pub IsRowKey : Bytes → Bytes → Bytes → Type 0
IsRowKey database t k =
    (pk : Bytes) × (k ≡ data_key database t pk) × (to_lower t ≡ t) × (has_colon t ≡ false)

-- No table and no key stands twice.
pub record IsTidy {R : Type 0} (o : Overlay R) : Type 0 where
  pub tables : Distinct o
  pub rows :
      (t : Bytes) (entries : Map Bytes (OverlayEntry R))
      → lookup t o ≡ some entries
      → Distinct entries

module _ {R : Type 0} where
  insert-IsTidy :
      (t : Bytes) (entries : Map Bytes (OverlayEntry R)) (o : Overlay R)
      → Distinct entries
      → IsTidy o
      → IsTidy (insert t entries o)
  insert-IsTidy t entries o d w = record {
    tables = insert-Distinct t entries o w.tables;
    rows = λ u es h. elim (Bool-cases (bytes_equal t u)) [
      | inl same ↦
          let x : es ≡ entries = ground (arith, lookup-insert t u entries o, same) in rw x d
      | inr other ↦ w.rows u es (ground (arith, lookup-insert t u entries o, other))
    ];
  }

  remove-IsTidy : (t : Bytes) (o : Overlay R) → IsTidy o → IsTidy (remove t o)
  remove-IsTidy t o w = record {
    tables = remove-Distinct t o w.tables;
    rows = λ u es h. w.rows u es (ground (arith, lookup-remove t u o));
  }

  staged_rows-Distinct : (o : Overlay R) (t : Bytes) → IsTidy o → Distinct (staged_rows o t)
  staged_rows-Distinct o t w = elim (Option-cases (lookup t o)) [
    | inl (entries, e) ↦ rw (staged_rows, e) (w.rows t entries e)
    | inr e ↦ rw (staged_rows, e) tt
  ]

  set_entry-IsTidy :
      (o : Overlay R) (t k : Bytes) (e : OverlayEntry R) → IsTidy o → IsTidy (set_entry o t k e)
  set_entry-IsTidy o t k e w =
      insert-IsTidy t (insert k e (staged_rows o t)) o
        (insert-Distinct k e (staged_rows o t) (staged_rows-Distinct o t w)) w

  undo-IsTidy : (m : TxMutation R) (o : Overlay R) → IsTidy o → IsTidy (undo m o)
  unfolding undo
  undo-IsTidy m o w =
      let left = remove m.key (staged_rows o m.table) in
      elim (Option-cases m.prev) [
        | inl (prev, e) ↦ rw (undo, e) (set_entry-IsTidy o m.table m.key prev w)
        | inr e ↦ elim (Bool-cases (length left == 0)) [
          | inl none_left ↦ rw (undo, e, none_left) (remove-IsTidy m.table o w)
          | inr more ↦
              rw (undo, e, more)
                (insert-IsTidy m.table left o
                  (remove-Distinct m.key (staged_rows o m.table) (staged_rows-Distinct o m.table w))
                  w)
        ]
      ]

-- Every staged row stands under a key of its own table, whose name is in small letters and holds
-- no colon.
pub record IsKeyed {R : Type 0} (database : Bytes) (o : Overlay R) : Type 0 where
  pub tidy : IsTidy o
  pub keyed : (t k : Bytes) (e : OverlayEntry R) → staged o t k ≡ some e → IsRowKey database t k

-- The log can be undone.
abbrev pub LogIsKeyed : {R : Type 0} → Bytes → List (TxMutation R) → Type 0
LogIsKeyed database [] = Unit {0}
LogIsKeyed database (m ∷ log) = IsRowKey database m.table m.key × LogIsKeyed database log

module _ {R : Type 0} (database : Bytes) where
  -- A key is staged for one table at most.
  pub IsKeyed-unique :
      (o : Overlay R) (t u k : Bytes) (e f : OverlayEntry R)
      → IsKeyed database o
      → staged o t k ≡ some e
      → staged o u k ≡ some f
      → t ≡ u
  IsKeyed-unique o t u k e f w a b =
      let (p, kp, lt, ct) = w.keyed t k e a in
      let (q, kq, lu, cu) = w.keyed u k f b in
      let (same, _) = data_key_inj database t u p q ct cu (cc (kp, kq)) in cc (same, lt, lu)

  pub IsKeyed-new_session : IsKeyed database (new_session {R = R}).overlay
  unfolding lookup
  IsKeyed-new_session = record {
    tidy = record { tables = tt; rows = λ t es h. absurd (cc h) };
    keyed = λ t k e h. absurd (cc h);
  }

  set_entry-IsKeyed :
      (o : Overlay R) (t k : Bytes) (e : OverlayEntry R)
      → IsRowKey database t k
      → IsKeyed database o
      → IsKeyed database (set_entry o t k e)
  set_entry-IsKeyed o t k e r w = record {
    tidy = set_entry-IsTidy o t k e w.tidy;
    keyed = λ u j f h. elim (Bool-cases (bytes_equal t u && bytes_equal k j)) [
      | inl same ↦
          let (x, y) : (t ≡ u) × (k ≡ j) =
            ground (arith, bytes_equal_iff t u, bytes_equal_iff k j) in
          rw (← x, ← y) r
      | inr other ↦ w.keyed u j f (ground (arith, staged-set_entry o t k e u j, other))
    ];
  }

  undo-IsKeyed :
      (m : TxMutation R) (o : Overlay R)
      → IsRowKey database m.table m.key
      → IsKeyed database o
      → IsKeyed database (undo m o)
  undo-IsKeyed m o r w = record {
    tidy = undo-IsTidy m o w.tidy;
    keyed = λ u j f h. elim (Bool-cases (bytes_equal m.table u && bytes_equal m.key j)) [
      | inl same ↦
          let (x, y) : (m.table ≡ u) × (m.key ≡ j) =
            ground (arith, bytes_equal_iff m.table u, bytes_equal_iff m.key j) in
          rw (← x, ← y) r
      | inr other ↦ w.keyed u j f (ground (arith, staged-undo m o u j, other))
    ];
  }

  undo_from-IsKeyed :
      (pos : ℕ) (log : List (TxMutation R)) (o : Overlay R)
      → LogIsKeyed database log
      → IsKeyed database o
      → IsKeyed database (undo_from pos log o).1 × LogIsKeyed database (undo_from pos log o).0
  unfolding undo_from
  undo_from-IsKeyed pos [] o l w = (w, l)
  undo_from-IsKeyed pos (m ∷ log) o (r, l) w = elim (Bool-cases (leb pos (length log))) [
    | inl on ↦ rw on (undo_from-IsKeyed pos log (undo m o) l (undo-IsKeyed m o r w))
    | inr stop ↦ rw stop (w, (r, l))
  ]

  -- The staged rows of a session and its log.
  pub record SessionIsKeyed (s : Session R) : Type 0 where
    pub overlay : IsKeyed database s.overlay
    pub log : LogIsKeyed database s.log

  pub stage-SessionIsKeyed :
      (s : Session R) (table pk : Bytes) (e : OverlayEntry R)
      → has_colon table ≡ false
      → SessionIsKeyed s
      → SessionIsKeyed (stage s table (data_key database table pk) e)
  unfolding stage
  stage-SessionIsKeyed s table pk e c w =
      let r : IsRowKey database (to_lower table) (data_key database table pk) =
        (pk, rw to_lower_twice, to_lower_twice table, has_colon-to_lower table ∙ c) in
      record {
        overlay =
            set_entry-IsKeyed s.overlay (to_lower table) (data_key database table pk) e r w.overlay;
        log = (r, w.log);
      }

  pub rollback_to-SessionIsKeyed :
      (s : Session R) (pos : ℕ) → SessionIsKeyed s → SessionIsKeyed (rollback_to s pos)
  unfolding rollback_to rollback_log
  rollback_to-SessionIsKeyed s pos w =
      let (o, l) = undo_from-IsKeyed pos s.log s.overlay w.log w.overlay in
      record { overlay = o; log = l }
