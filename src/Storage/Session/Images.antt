-- ===== src/Storage/Session/Images.antt =====
-- pkg/storage/tx.go: the batch that a commit builds from its overlay, key by key.
use pizzasql.Prelude.{
  ℕ, ◌+◌, true, false, Option, none, some, List, [], ◌∷◌, ◌++◌, ◌≡◌, ◌≢◌, ◌⊎◌, refl, sym, ap, ◌∙◌,
  arith, if◌then◌else◌, Bool-cases, Option-cases, inl, inr,
}
use pizzasql.Prelude.Bytes.{Bytes, bytes_eq, bytes_equal, bytes_equal_iff}
use pizzasql.Prelude.Map.{Map, lookup, Distinct}
use pizzasql.Storage.Store.{Kv, BatchOp, batch_put, batch_delete}
use pizzasql.Storage.Session.{OverlayEntry, Overlay, Session, staged, staged_rows}
use pizzasql.Storage.Session.Manager.{RowFormat, Manager}
use pizzasql.Storage.Session.Batch.{op_key, overlay_ops, entry_ops, sort_by}
use pizzasql.Storage.Session.Commit.{Constraints, final_entries, final_overlay}
use pizzasql.Storage.Session.Effects.{last_op, after_op, contents-apply_ops, last_op-sort_by}
use pizzasql.Storage.Session.Keys.{IsTidy}
use pizzasql.Storage.Session.Publication.{IsPublished}

last_op-append :
    (key : Bytes) (ops more : List BatchOp)
    → last_op key (ops ++ more)
      ≡ (elim (last_op key more) [ some op ↦ some op | none ↦ last_op key ops ])
unfolding last_op
last_op-append key [] more = ground arith
last_op-append key (op ∷ ops) more = ground (arith, last_op-append key ops more)

pick-none : (x y : Option BatchOp) → y ≡ none → (elim x [ some op ↦ some op | none ↦ y ]) ≡ x
pick-none x y h = ground arith

last_op-skip :
    (key : Bytes) (op : BatchOp) (ops : List BatchOp)
    → bytes_equal (op_key op) key ≡ false
    → last_op key (op ∷ ops) ≡ last_op key ops
unfolding last_op
last_op-skip key op ops h = ground arith

last_op-hit :
    (key : Bytes) (op : BatchOp) (ops : List BatchOp)
    → last_op key ops ≡ none
    → bytes_equal (op_key op) key ≡ true
    → last_op key (op ∷ ops) ≡ some op
unfolding last_op
last_op-hit key op ops h k = ground arith

module _ {R : Type 0} (format : RowFormat R) (c : Constraints R) where
  -- What a staged row becomes in the store: nothing if it is deleted, and else its final image,
  -- encoded.
  abbrev pub stored_row : Bytes → OverlayEntry R → Option Bytes
  stored_row table e =
      if e.absent
      then none
      else (elim (c.final_row table e.row) [ none ↦ none | some row ↦ format.encode row ])

  -- The operation for it.
  abbrev pub op_for : Bytes → Bytes → OverlayEntry R → Option BatchOp
  op_for table key e =
      if e.absent
      then some (batch_delete key)
      else (elim (stored_row table e) [ none ↦ none | some value ↦ some (batch_put key value) ])

  op_for-cons :
      (table key : Bytes) (e : OverlayEntry R) (es fs : Map Bytes (OverlayEntry R))
      (ops : List BatchOp)
      → final_entries c table ((key, e) ∷ es) ≡ some fs
      → entry_ops format fs ≡ some ops
      → (gs : Map Bytes (OverlayEntry R)) × (rest : List BatchOp) × (op : BatchOp) × (final_entries
            c table es
          ≡ some gs)
        × (entry_ops format gs ≡ some rest)
        × (ops ≡ op ∷ rest)
        × (op_for table key e ≡ some op)
        × (op_key op ≡ key)
  unfolding final_entries entry_ops
  op_for-cons table key e es fs ops f o = elim (Option-cases (final_entries c table es)) [
    | inr g ↦ absurd (ground (arith, g))
    | inl (gs, g) ↦ elim (Bool-cases e.absent) [
      | inl gone ↦
          let x : fs ≡ (key, e) ∷ gs = ground (arith, g, gone) in
          let o' : entry_ops format ((key, e) ∷ gs) ≡ some ops =
            ap (entry_ops format) (sym x) ∙ o in
          elim (Option-cases (entry_ops format gs)) [
            | inr r ↦ absurd (ground (arith, r))
            | inl (rest, r) ↦
                (gs, rest, batch_delete key, g, r, ground (arith, r), ground arith, refl)
          ]
      | inr here ↦ elim (Option-cases (c.final_row table e.row)) [
        | inr r ↦ absurd (ground (arith, g, here, r))
        | inl (row, fr) ↦
            let new : OverlayEntry R = record { row = row; absent = false } in
            let x : fs ≡ (key, new) ∷ gs = ground (arith, g, here, fr) in
            let o' : entry_ops format ((key, new) ∷ gs) ≡ some ops =
              ap (entry_ops format) (sym x) ∙ o in
            elim (Option-cases (entry_ops format gs)) [
              | inr r ↦ absurd (ground (arith, r))
              | inl (rest, r) ↦ elim (Option-cases (format.encode row)) [
                | inr enc ↦ absurd (ground (arith, r, enc))
                | inl (value, enc) ↦ (
                  gs,
                  rest,
                  batch_put key value,
                  g,
                  r,
                  ground (arith, r, enc),
                  ground (arith, here, fr, enc),
                  refl,
                )
              ]
            ]
      ]
    ]
  ]

  last_op-entries :
      (table key : Bytes) (es fs : Map Bytes (OverlayEntry R)) (ops : List BatchOp)
      → Distinct es
      → final_entries c table es ≡ some fs
      → entry_ops format fs ≡ some ops
      → last_op key ops ≡ (elim (lookup key es) [ none ↦ none | some e ↦ op_for table key e ])
  unfolding last_op lookup final_entries entry_ops
  last_op-entries table key [] fs ops d f o =
      let x : fs ≡ [] = ground arith in
      let y : entry_ops format [] ≡ some ops = ap (entry_ops format) (sym x) ∙ o in
      let z : ops ≡ [] = ground arith in rw z refl
  last_op-entries table key ((k, e) ∷ es) fs ops d f o =
      let (gs, rest, op, f', o', eq, is, at) = op_for-cons table k e es fs ops f o in
      let ih = last_op-entries table key es gs rest d.1 f' o' in
      elim (Bool-cases (bytes_equal k key)) [
        | inl same ↦
            let x : k ≡ key = (bytes_equal_iff k key).0 same in
            let gone : lookup key es ≡ none = ap (λ j. lookup j es) (sym x) ∙ d.0 in
            let left : last_op key rest ≡ none = ih ∙ rw gone refl in
            let hit : bytes_equal (op_key op) key ≡ true = rw at same in
            ap (last_op key) eq
            ∙ last_op-hit key op rest left hit
            ∙ rw same (sym is ∙ ap (λ j. op_for table j e) x)
        | inr other ↦
            let miss : bytes_equal (op_key op) key ≡ false = rw at other in
            ap (last_op key) eq ∙ rw other (last_op-skip key op rest miss ∙ ih)
      ]

  overlay_ops-cons :
      (table : Bytes) (es : Map Bytes (OverlayEntry R)) (o f : Overlay R) (ops : List BatchOp)
      → final_overlay c ((table, es) ∷ o) ≡ some f
      → overlay_ops format f ≡ some ops
      → (fs : Map Bytes (OverlayEntry R)) × (g : Overlay R) × (a : List BatchOp) × (b : List
          BatchOp)
        × (final_entries c table es ≡ some fs)
        × (entry_ops format fs ≡ some a)
        × (final_overlay c o ≡ some g)
        × (overlay_ops format g ≡ some b)
        × (ops ≡ a ++ b)
  unfolding final_overlay overlay_ops
  overlay_ops-cons table es o f ops h k = elim (Option-cases (final_entries c table es)) [
    | inr e ↦ absurd (ground (arith, e))
    | inl (fs, e) ↦ elim (Option-cases (final_overlay c o)) [
      | inr q ↦ absurd (ground (arith, e, q))
      | inl (g, q) ↦
          let x : f ≡ (table, fs) ∷ g = ground (arith, e, q) in
          let k' : overlay_ops format ((table, fs) ∷ g) ≡ some ops =
            ap (overlay_ops format) (sym x) ∙ k in
          elim (Option-cases (entry_ops format fs)) [
            | inr u ↦ absurd (ground (arith, u))
            | inl (a, u) ↦ elim (Option-cases (overlay_ops format g)) [
              | inr v ↦ absurd (ground (arith, u, v))
              | inl (b, v) ↦ (fs, g, a, b, e, u, q, v, ground (arith, u, v))
            ]
          ]
    ]
  ]

  staged-missing :
      (u : Bytes) (o : Overlay R) (key : Bytes) → lookup u o ≡ none → staged o u key ≡ none
  unfolding lookup
  staged-missing u o key h = ground (arith, h)

  -- A table that the rest does not have: what the rest stages, the whole does.
  staged-tail :
      (table : Bytes) (es : Map Bytes (OverlayEntry R)) (o : Overlay R) (u key : Bytes)
      → lookup table o ≡ none
      → (staged ((table, es) ∷ o) u key ≡ staged o u key) ⊎ (staged o u key ≡ none)
  unfolding lookup
  staged-tail table es o u key fresh = elim (Bool-cases (bytes_equal table u)) [
    | inl same ↦ inr (
        ap (λ j. staged o j key) (sym ((bytes_equal_iff table u).0 same))
        ∙ staged-missing table o key fresh)
    | inr other ↦ inl (rw (staged, staged_rows, lookup, other) refl)
  ]

  tail_none :
      (table : Bytes) (es : Map Bytes (OverlayEntry R)) (o : Overlay R) (u key : Bytes)
      → lookup table o ≡ none
      → staged ((table, es) ∷ o) u key ≡ none
      → staged o u key ≡ none
  tail_none table es o u key fresh h = elim (staged-tail table es o u key fresh) [
    | inl same ↦ sym same ∙ h
    | inr gone ↦ gone
  ]

  tail_some :
      (table : Bytes) (es : Map Bytes (OverlayEntry R)) (o : Overlay R) (u key : Bytes)
      (x : OverlayEntry R)
      → lookup table o ≡ none
      → staged o u key ≡ some x
      → staged ((table, es) ∷ o) u key ≡ some x
  tail_some table es o u key x fresh h = elim (staged-tail table es o u key fresh) [
    | inl same ↦ same ∙ h
    | inr gone ↦ absurd (cc (gone, h))
  ]

  staged-other :
      (table : Bytes) (es : Map Bytes (OverlayEntry R)) (o : Overlay R) (u key : Bytes)
      → bytes_equal table u ≡ false
      → staged ((table, es) ∷ o) u key ≡ staged o u key
  unfolding lookup
  staged-other table es o u key other = rw (staged, staged_rows, lookup, other) refl

  -- The rows of the first table.
  staged-head :
      (table : Bytes) (es : Map Bytes (OverlayEntry R)) (o : Overlay R) (key : Bytes)
      → staged ((table, es) ∷ o) table key ≡ lookup key es
  unfolding lookup
  staged-head table es o key = ground (arith, bytes_equal_iff table table)

  IsTidy-cons :
      (table : Bytes) (es : Map Bytes (OverlayEntry R)) (o : Overlay R)
      → IsTidy ((table, es) ∷ o)
      → Distinct es × (lookup table o ≡ none) × IsTidy o
  unfolding lookup
  IsTidy-cons table es o w = (
    w.rows table es (ground (arith, bytes_equal_iff table table)),
    w.tables.0,
    record {
      tables = w.tables.1;
      rows = λ t fs h. w.rows t fs (ground (arith, bytes_equal_iff table t, w.tables.0));
    },
  )

  pub last_op-overlay_none :
      (key : Bytes) (o f : Overlay R) (ops : List BatchOp)
      → IsTidy o
      → final_overlay c o ≡ some f
      → overlay_ops format f ≡ some ops
      → ((u : Bytes) → staged o u key ≡ none)
      → last_op key ops ≡ none
  unfolding final_overlay overlay_ops last_op
  last_op-overlay_none key [] f ops w h k none_staged =
      let x : f ≡ [] = ground arith in
      let y : overlay_ops format [] ≡ some ops = ap (overlay_ops format) (sym x) ∙ k in
      let z : ops ≡ [] = ground arith in rw z refl
  last_op-overlay_none key ((table, es) ∷ o) f ops w h k none_staged =
      let (fs, g, a, b, fe, ea, fo, ob, eq) = overlay_ops-cons table es o f ops h k in
      let (d, fresh, w') = IsTidy-cons table es o w in
      let here : lookup key es ≡ none = sym (staged-head table es o key) ∙ none_staged table in
      let first : last_op key a ≡ none = last_op-entries table key es fs a d fe ea ∙ rw here refl in
      let rest : last_op key b ≡ none =
        last_op-overlay_none key o g b w' fo ob
          λ u. tail_none table es o u key fresh (none_staged u) in
      ap (last_op key) eq ∙ last_op-append key a b ∙ rw rest first

  pub last_op-overlay :
      (key t : Bytes) (e : OverlayEntry R) (o f : Overlay R) (ops : List BatchOp)
      → IsTidy o
      → final_overlay c o ≡ some f
      → overlay_ops format f ≡ some ops
      → staged o t key ≡ some e
      → ((u : Bytes) (x : OverlayEntry R) → staged o u key ≡ some x → u ≡ t)
      → last_op key ops ≡ op_for t key e
  unfolding lookup
  last_op-overlay key t e [] f ops w h k st only = absurd (cc st)
  last_op-overlay key t e ((table, es) ∷ o) f ops w h k st only =
      let (fs, g, a, b, fe, ea, fo, ob, eq) = overlay_ops-cons table es o f ops h k in
      let (d, fresh, w') = IsTidy-cons table es o w in
      let first = last_op-entries table key es fs a d fe ea in
      elim (Bool-cases (bytes_equal table t)) [
        | inl same ↦
            let x : table ≡ t = (bytes_equal_iff table t).0 same in
            let here : lookup key es ≡ some e =
              sym (staged-head table es o key) ∙ ap (λ j. staged ((table, es) ∷ o) j key) x ∙ st in
            let rest : last_op key b ≡ none = last_op-overlay_none key o g b w' fo ob λ u.
              elim (Option-cases (staged o u key)) [
                | inl (y, hy) ↦
                    let at : u ≡ table = only u y (tail_some table es o u key y fresh hy) ∙ sym x in
                    ap (λ j. staged o j key) at ∙ staged-missing table o key fresh
                | inr hn ↦ hn
              ] in
            ap (last_op key) eq
            ∙ last_op-append key a b
            ∙ rw rest (first ∙ rw here (ap (λ j. op_for j key e) x))
        | inr other ↦
            let st' : staged o t key ≡ some e = ground (arith, staged-other table es o t key) in
            let here : lookup key es ≡ none = elim (Option-cases (lookup key es)) [
              | inl (y, hy) ↦
                  let at : table ≡ t = only table y (staged-head table es o key ∙ hy) in
                  absurd (ground (arith, bytes_equal_iff table t))
              | inr hn ↦ hn
            ] in
            let rest : last_op key b ≡ op_for t key e =
              last_op-overlay key t e o g b w' fo ob st'
                λ u y hy. only u y (tail_some table es o u key y fresh hy) in
            ap (last_op key) eq
            ∙ last_op-append key a b
            ∙ pick-none (last_op key b) (last_op key a) (first ∙ rw here refl)
            ∙ rest
      ]

  op_for-entries :
      (table key : Bytes) (e : OverlayEntry R) (es fs : Map Bytes (OverlayEntry R))
      (ops : List BatchOp)
      → final_entries c table es ≡ some fs
      → entry_ops format fs ≡ some ops
      → lookup key es ≡ some e
      → op_for table key e ≢ none
  unfolding lookup
  op_for-entries table key e [] fs ops f o st = absurd (cc st)
  op_for-entries table key e ((k, x) ∷ es) fs ops f o st =
      let (gs, rest, op, f', o', eq, is, at) = op_for-cons table k x es fs ops f o in
      elim (Bool-cases (bytes_equal k key)) [
        | inl same ↦
            let y : x ≡ e = ground (arith, same) in
            let z : k ≡ key = (bytes_equal_iff k key).0 same in
            λ none_left. cc (none_left, is, y, z)
        | inr other ↦ op_for-entries table key e es gs rest f' o' (ground (arith, other))
      ]

  pub op_for-overlay :
      (t key : Bytes) (e : OverlayEntry R) (o f : Overlay R) (ops : List BatchOp)
      → final_overlay c o ≡ some f
      → overlay_ops format f ≡ some ops
      → staged o t key ≡ some e
      → op_for t key e ≢ none
  unfolding lookup
  op_for-overlay t key e [] f ops h k st = absurd (cc st)
  op_for-overlay t key e ((table, es) ∷ o) f ops h k st =
      let (fs, g, a, b, fe, ea, fo, ob, eq) = overlay_ops-cons table es o f ops h k in
      elim (Bool-cases (bytes_equal table t)) [
        | inl same ↦
            let x : table ≡ t = (bytes_equal_iff table t).0 same in
            let here : lookup key es ≡ some e =
              sym (staged-head table es o key) ∙ ap (λ j. staged ((table, es) ∷ o) j key) x ∙ st in
            rw (← x) (op_for-entries table key e es fs a fe ea here)
        | inr other ↦
            op_for-overlay t key e o g b fo ob (sym (staged-other table es o t key other) ∙ st)
      ]

  -- What the operation for a staged row leaves.
  pub left_by-op_for :
      (table key : Bytes) (e : OverlayEntry R) (old : Option Bytes)
      → op_for table key e ≢ none
      → (after_op (op_for table key e) old ≡ stored_row table e)
        × (e.absent ≡ false → stored_row table e ≢ none)
  left_by-op_for table key e old h =
      (ground (arith, h), λ here. λ gone. h (ground (arith, here, gone)))

  -- What the commit leaves under a key.
  pub contents-IsPublished :
      (m m' : Manager) (s : Session R) (n : ℕ) (p : IsPublished format c m m' s n) (key : Bytes)
      → lookup key m'.kv.contents ≡ after_op (last_op key p.ops) (lookup key m.kv.contents)
  contents-IsPublished m m' s n p key =
      ap (λ (kv : Kv). lookup key kv.contents) p.stored
      ∙ contents-apply_ops (record m.kv { next_lsn = m.kv.next_lsn + 1 }) (m.kv.next_lsn + 1)
          (sort_by op_key p.ops) key
      ∙ rw (last_op-sort_by key p.ops) refl
