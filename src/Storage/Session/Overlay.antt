-- ===== src/Storage/Session/Overlay.antt =====
-- pkg/storage/tx.go: what the staged rows are, after staging and after undoing.
use pizzasql.Prelude.{
  ℕ, ◌≤◌, true, ◌&&◌, none, some, List, [], ◌∷◌, ◌≡◌, refl, ap, ◌∙◌, arith, ◌==◌, leb,
  if◌then◌else◌, length, Bool-cases, Option-cases, inl, inr,
}
use pizzasql.Prelude.Bytes.{Bytes, bytes_eq, bytes_equal, bytes_equal_iff}
use pizzasql.Prelude.Map.{Map, lookup, insert, remove, lookup-insert, lookup-remove}
use pizzasql.Storage.Session.{
  OverlayEntry, Overlay, TxMutation, Session, to_lower, staged_rows, staged, set_entry, stage, undo,
  undo_from, rollback_log, rollback_to, snapshot,
}

module _ {R : Type 0} where
  no_rows : (m : Map Bytes (OverlayEntry R)) (k : Bytes) → length m ≡ 0 → lookup k m ≡ none
  unfolding lookup
  no_rows [] k h = refl
  no_rows (_ ∷ _) k h = absurd (omega (arith, h))

  pub staged-set_entry :
      (o : Overlay R) (t k : Bytes) (e : OverlayEntry R) (u j : Bytes)
      → staged (set_entry o t k e) u j
        ≡ (if bytes_equal t u && bytes_equal k j then some e else staged o u j)
  staged-set_entry o t k e u j = ground (
    arith,
    lookup-insert t u (insert k e (staged_rows o t)) o,
    lookup-insert k j e (staged_rows o t),
    bytes_equal_iff t u,
    bytes_equal_iff k j,
  )

  pub staged-undo :
      (m : TxMutation R) (o : Overlay R) (u j : Bytes)
      → staged (undo m o) u j
        ≡ (if bytes_equal m.table u && bytes_equal m.key j then m.prev else staged o u j)
  unfolding undo
  staged-undo m o u j = elim (Option-cases m.prev) [
    | inl (prev, e) ↦ rw (undo, e) (ground (arith, e, staged-set_entry o m.table m.key prev u j))
    | inr e ↦
        let entries = remove m.key (staged_rows o m.table) in
        (elim (Bool-cases (length entries == 0)) [
          | inl none_left ↦
              rw (undo, e, none_left)
                (ground (
                  arith,
                  e,
                  lookup-remove m.table u o,
                  lookup-remove m.key j (staged_rows o m.table),
                  no_rows entries j,
                  no_rows [] j refl,
                  bytes_equal_iff m.table u,
                  bytes_equal_iff m.key j,
                ))
          | inr some_left ↦
              rw (undo, e, some_left)
                (ground (
                  arith,
                  e,
                  lookup-insert m.table u entries o,
                  lookup-remove m.key j (staged_rows o m.table),
                  bytes_equal_iff m.table u,
                  bytes_equal_iff m.key j,
                ))
        ])
  ]

  -- Two overlays stage the same rows.
  abbrev pub SameRows : Overlay R → Overlay R → Type 0
  SameRows o p = (u j : Bytes) → staged o u j ≡ staged p u j

  undo-SameRows :
      (m : TxMutation R) (o p : Overlay R) → SameRows o p → SameRows (undo m o) (undo m p)
  undo-SameRows m o p h u j = ground (arith, staged-undo m o u j, staged-undo m p u j, h u j)

  undo_from-SameRows :
      (pos : ℕ) (log : List (TxMutation R)) (o p : Overlay R)
      → SameRows o p
      → SameRows (undo_from pos log o).1 (undo_from pos log p).1
  unfolding undo_from
  undo_from-SameRows pos [] o p h = h
  undo_from-SameRows pos (m ∷ log) o p h = elim (Bool-cases (leb pos (length log))) [
    | inl on ↦ rw on (undo_from-SameRows pos log (undo m o) (undo m p) (undo-SameRows m o p h))
    | inr stop ↦ rw stop h
  ]

  -- The log that is left does not depend on the overlay.
  undo_from-log :
      (pos : ℕ) (log : List (TxMutation R)) (o p : Overlay R)
      → (undo_from pos log o).0 ≡ (undo_from pos log p).0
  unfolding undo_from
  undo_from-log pos [] o p = refl
  undo_from-log pos (m ∷ log) o p = ground (arith, undo_from-log pos log (undo m o) (undo m p))

  undo_from-short :
      (pos : ℕ) (log : List (TxMutation R)) (o : Overlay R)
      → length log ≤ pos
      → undo_from pos log o ≡ (log, o)
  unfolding undo_from
  undo_from-short pos [] o h = refl
  undo_from-short pos (m ∷ log) o h = ground arith

  -- To undo down to `q` and then down to `pos` is to undo down to `pos`.
  undo_from-twice :
      (pos q : ℕ) (log : List (TxMutation R)) (o : Overlay R)
      → pos ≤ q
      → undo_from pos (undo_from q log o).0 (undo_from q log o).1 ≡ undo_from pos log o
  unfolding undo_from
  undo_from-twice pos q [] o h = refl
  undo_from-twice pos q (m ∷ log) o h = elim (Bool-cases (leb q (length log))) [
    | inl on ↦ ground (arith, on, undo_from-twice pos q log (undo m o) h)
    | inr stop ↦ rw stop refl
  ]

  -- `t` has come from `s` by staging rows, by reading, and by rolling back to positions that are
  -- not before that of `s`.
  pub data Since (s : Session R) : Session R → Type 0 where
    start : Since s s
    staging :
        (t : Session R) (table key : Bytes) (e : OverlayEntry R)
        → Since s t
        → Since s (stage t table key e)
    reading : (t u : Session R) → u.overlay ≡ t.overlay → u.log ≡ t.log → Since s t → Since s u
    rolling :
        (t : Session R) (pos : ℕ) → length s.log ≤ pos → Since s t → Since s (rollback_to t pos)

  record Restores (s t : Session R) : Type 0 where
    log : (undo_from (length s.log) t.log t.overlay).0 ≡ s.log
    rows : SameRows (undo_from (length s.log) t.log t.overlay).1 s.overlay
    long : length s.log ≤ length t.log

  -- The undoing of what was just staged leaves the rows that were staged before.
  undo-stage :
      (o : Overlay R) (table key : Bytes) (e : OverlayEntry R)
      → SameRows
          (undo
            (record { table = table; key = key; prev = staged o table key })
            (set_entry o table key e))
          o
  undo-stage o table key e u j =
      let m : TxMutation R = record { table = table; key = key; prev = staged o table key } in
      ground (
        arith,
        staged-undo m (set_entry o table key e) u j,
        staged-set_entry o table key e u j,
        bytes_equal_iff table u,
        bytes_equal_iff key j,
      )

  stage-Restores :
      (s t : Session R) (table key : Bytes) (e : OverlayEntry R)
      → Restores s t
      → Restores s (stage t table key e)
  unfolding stage undo_from
  stage-Restores s t table key e r =
      let tl = to_lower table in
      let m : TxMutation R = record { table = tl; key = key; prev = staged t.overlay tl key } in
      let o = undo m (set_entry t.overlay tl key e) in
      let on : leb (length s.log) (length t.log) ≡ true = ground (arith, r.long) in
      record {
        log = rw on (undo_from-log (length s.log) t.log o t.overlay ∙ r.log);
        rows = λ u j. rw on (
            undo_from-SameRows (length s.log) t.log o t.overlay (undo-stage t.overlay tl key e) u j
            ∙ r.rows u j);
        long = omega (arith, r.long);
      }

  undo_from-long :
      (pos n : ℕ) (log : List (TxMutation R)) (o : Overlay R)
      → n ≤ pos
      → n ≤ length log
      → n ≤ length (undo_from pos log o).0
  unfolding undo_from
  undo_from-long pos n [] o le h = h
  undo_from-long pos n (m ∷ log) o le h = ground (arith, undo_from-long pos n log (undo m o))

  rows_kept :
      (s : Session R) (log : List (TxMutation R)) (o : Overlay R) (l : List (TxMutation R))
      (p : Overlay R)
      → l ≡ log
      → p ≡ o
      → SameRows (undo_from (length s.log) log o).1 s.overlay
      → SameRows (undo_from (length s.log) l p).1 s.overlay
  rows_kept s log o l p e f h = rw (e, f) h

  Since-Restores : (s t : Session R) → Since s t → Restores s t
  unfolding rollback_to rollback_log
  Since-Restores s _ start =
      let e = undo_from-short (length s.log) s.log s.overlay (omega arith) in
      record { log = rw e; rows = λ u j. rw e; long = omega arith }
  Since-Restores s _ (staging t table key e d) =
      stage-Restores s t table key e (Since-Restores s t d)
  Since-Restores s u (reading t _ o l d) =
      let r = Since-Restores s t d in
      record {
        log = cc (r.log, o, l);
        rows = rows_kept s t.log t.overlay u.log u.overlay l o r.rows;
        long = omega (arith, r.long, ap length l);
      }
  Since-Restores s _ (rolling t pos h d) =
      let r = Since-Restores s t d in
      let e = undo_from-twice (length s.log) pos t.log t.overlay h in
      record {
        log = rw e r.log;
        rows = λ u j. rw e (r.rows u j);
        long = undo_from-long pos (length s.log) t.log t.overlay h r.long;
      }

  -- Whatever a transaction stages and reads after a position of its log was taken, and whatever it
  -- undoes down to later positions, a rollback to the position leaves the log of that time, and
  -- every key of every table has the staged row of that time, or none where it had none.
  pub rollback_to-snapshot :
      (s t : Session R)
      → Since s t
      → ((rollback_to t (snapshot s)).log ≡ s.log)
        × ((u j : Bytes) → staged (rollback_to t (snapshot s)).overlay u j ≡ staged s.overlay u j)
  unfolding rollback_to rollback_log
  rollback_to-snapshot s t d = let r = Since-Restores s t d in (r.log, r.rows)
