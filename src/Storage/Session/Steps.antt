-- ===== src/Storage/Session/Steps.antt =====
-- pkg/storage/tx.go: every point write is the point read of its row, and then at most one staged
-- row under the key that was read.
use pizzasql.Prelude.{
  true, false, Option, [], ◌∷◌, ◌++◌, ◌≡◌, ◌⊎◌, refl, arith, length, drop, Bool-cases, Option-cases,
  inl, inr,
}
use mathlib.Core.List.{append_assoc}
use pizzasql.Prelude.Bytes.{Bytes, bytes_eq, has_prefix}
use pizzasql.Storage.Session.{OverlayEntry, Session, to_lower, data_prefix, data_key, staged, stage}
use pizzasql.Storage.Session.Manager.{RowFormat, Manager, get_key_with_lsn, KeyRead-cases}
use pizzasql.Storage.Session.Reads.{
  RowRead, row_found, row_not_found, read_failed, trim_prefix, get_by_pk, insert_prepared,
  delete_read, delete_by_pk, update_read, update_by_pk,
}

drop-prefix : (p s : Bytes) → (has_prefix (p ++ s) p ≡ true) × (drop (length p) (p ++ s) ≡ s)
drop-prefix [] s = (refl, refl)
drop-prefix (c ∷ p) s = ground (arith, drop-prefix p s)

data_key-prefix :
    (database table pk : Bytes) → data_key database table pk ≡ data_prefix database table ++ pk
data_key-prefix database table pk = simp append_assoc

-- The primary key of a row comes back from the row's key.
trim_prefix-data_key :
    (database table pk : Bytes)
    → trim_prefix (data_key database table pk) (data_prefix database table) ≡ pk
unfolding trim_prefix
trim_prefix-data_key database table pk =
    let p = data_prefix database table in
    let (a, b) = drop-prefix p pk in rw data_key-prefix (rw a b)

-- The session `t` is `s`, or `s` with one more row staged.
abbrev pub StagedFrom : {R : Type 0} → Session R → Bytes → Bytes → Session R → Type 0
StagedFrom {R} s table key t = (t ≡ s) ⊎ ((e : OverlayEntry R) × (t ≡ stage s table key e))

module _ {R : Type 0} (format : RowFormat R) where
  delete_read-StagedFrom :
      (m : Manager) (table pk : Bytes) (got : Session R × RowRead R)
      → StagedFrom got.0 table (data_key m.database table pk) (delete_read format m table pk got).0
  unfolding delete_read
  delete_read-StagedFrom m table pk (s, row_found row) =
      inr (record { row = row; absent = true }, refl)
  delete_read-StagedFrom m table pk (s, row_not_found) = inl refl
  delete_read-StagedFrom m table pk (s, read_failed) = inl refl

  pub delete_by_pk-StagedFrom :
      (m : Manager) (s : Session R) (table pk : Bytes)
      → StagedFrom
          (get_by_pk format true m s table pk).0
          table
          (data_key m.database table pk)
          (delete_by_pk format m s table pk).0
  unfolding delete_by_pk
  delete_by_pk-StagedFrom m s table pk =
      delete_read-StagedFrom m table pk (get_by_pk format true m s table pk)

  update_read-StagedFrom :
      (change : R → Option R) (m : Manager) (table pk : Bytes) (got : Session R × RowRead R)
      → StagedFrom got.0 table
          (data_key m.database table pk)
          (update_read format change m table pk got).0
  unfolding update_read
  update_read-StagedFrom change m table pk (s, row_found row) = elim (Option-cases (change row)) [
    | inl (row', e) ↦ rw (update_read, e) (inr (record { row = row'; absent = false }, refl))
    | inr e ↦ rw (update_read, e) (inl refl)
  ]
  update_read-StagedFrom change m table pk (s, row_not_found) = inl refl
  update_read-StagedFrom change m table pk (s, read_failed) = inl refl

  pub update_by_pk-StagedFrom :
      (change : R → Option R) (m : Manager) (s : Session R) (table pk : Bytes)
      → StagedFrom
          (get_by_pk format true m s table pk).0
          table
          (data_key m.database table pk)
          (update_by_pk format change m s table pk).0
  unfolding update_by_pk
  update_by_pk-StagedFrom change m s table pk =
      update_read-StagedFrom change m table pk (get_by_pk format true m s table pk)

  pub insert_prepared-StagedFrom :
      (m : Manager) (s : Session R) (table pk : Bytes) (row : R)
      → StagedFrom
          (get_by_pk format true m s table pk).0
          table
          (data_key m.database table pk)
          (insert_prepared format m s table (data_key m.database table pk) row).0
  unfolding insert_prepared get_by_pk
  insert_prepared-StagedFrom m s table pk row =
      let key = data_key m.database table pk in
      let back = trim_prefix-data_key m.database table pk in
      let new : OverlayEntry R = record { row = row; absent = false } in
      elim (Option-cases (staged s.overlay (to_lower table) key)) [
        | inl (e, st) ↦ elim (Bool-cases e.absent) [
          | inl gone ↦ rw (insert_prepared, get_by_pk, st, gone) (inr (new, refl))
          | inr here ↦ rw (insert_prepared, get_by_pk, st, here) (inl refl)
        ]
        | inr st ↦ elim (KeyRead-cases (get_key_with_lsn format m key)) [
          | inl (old, n, e) ↦ rw (insert_prepared, get_by_pk, st, back, e, back) (inl refl)
          | inr (inl e) ↦ rw (insert_prepared, get_by_pk, st, back, e, back) (inr (new, refl))
          | inr (inr e) ↦ rw (insert_prepared, get_by_pk, st, back, e) (inl refl)
        ]
      ]
