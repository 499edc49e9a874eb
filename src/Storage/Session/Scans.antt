-- ===== src/Storage/Session/Scans.antt =====
-- pkg/storage/tx.go: the rows that a scan of a table returns inside a transaction.
use pizzasql.Prelude.{
  Bool, true, false, Option, none, some, List, [], ◌∷◌, ◌++◌, ◌≡◌, ◌⊎◌, refl, sym, ap, ◌∙◌, arith,
  if◌then◌else◌, Bool-cases, Option-cases, inl, inr,
}
use pizzasql.Prelude.Bytes.{Bytes, bytes_eq, has_prefix}
use pizzasql.Prelude.Map.{Map}
use pizzasql.Storage.Store.{lsn_of}
use pizzasql.Storage.Session.{
  OverlayEntry, Session, to_lower, data_prefix, data_key, staged, staged_rows, note_read,
}
use pizzasql.Storage.Session.Manager.{RowFormat, Manager}
use pizzasql.Storage.Session.Reads.{
  scan_durable, scan_staged, select_locked, locking_table_is, note_scan,
}

-- The list has the element.
abbrev pub StandsIn : {A : Type 0} → A → List A → Type 0
StandsIn x [] = ⊥
StandsIn x (y ∷ ys) = (y ≡ x) ⊎ StandsIn x ys

append_left : {A : Type 0} (x : A) (xs ys : List A) → StandsIn x xs → StandsIn x (xs ++ ys)
append_left x (y ∷ xs) ys (inl e) = inl e
append_left x (y ∷ xs) ys (inr h) = inr (append_left x xs ys h)
append_left x [] ys h = absurd h

append_right : {A : Type 0} (x : A) (xs ys : List A) → StandsIn x ys → StandsIn x (xs ++ ys)
append_right x [] ys h = h
append_right x (y ∷ xs) ys h = inr (append_right x xs ys h)

append_split :
    {A : Type 0} (x : A) (xs ys : List A) → StandsIn x (xs ++ ys) → StandsIn x xs ⊎ StandsIn x ys
append_split x [] ys h = inr h
append_split x (y ∷ xs) ys (inl e) = inl (inl e)
append_split x (y ∷ xs) ys (inr h) = elim (append_split x xs ys h) [
  | inl a ↦ inl (inr a)
  | inr b ↦ inr b
]

-- A list with one more element at its head, on a condition.
cond_split :
    {A : Type 0} (b : Bool) (x y : A) (rest xs : List A)
    → xs ≡ (if b then y ∷ rest else rest)
    → StandsIn x xs
    → ((y ≡ x) × (b ≡ true)) ⊎ StandsIn x rest
cond_split true x y rest xs e h = elim (rw e at h) [
  | inl same ↦ inl (same, refl)
  | inr later ↦ inr later
]
cond_split false x y rest xs e h = inr (rw e at h)

cond_rest :
    {A : Type 0} (b : Bool) (x y : A) (rest xs : List A)
    → xs ≡ (if b then y ∷ rest else rest)
    → StandsIn x rest
    → StandsIn x xs
cond_rest true x y rest xs e h = rw e (inr h)
cond_rest false x y rest xs e h = rw e h

cond_head :
    {A : Type 0} (b : Bool) (x y : A) (rest xs : List A)
    → xs ≡ (if b then y ∷ rest else rest)
    → b ≡ true
    → y ≡ x
    → StandsIn x xs
cond_head true x y rest xs e h same = rw e (inl same)
cond_head false x y rest xs e h same = absurd (cc h)

module _ {R : Type 0} (format : RowFormat R) (pk_of : R → Option Bytes) (keep : R → Bool)
    (m : Manager) (table : Bytes) where
  -- The pair of the store is a row of the table that no staged row takes the place of.
  pub record IsUnstaged (s : Session R) (key value : Bytes) (row : R) : Type 0 where
    pub pk : Bytes
    pub prefixed : has_prefix key (data_prefix m.database table) ≡ true
    pub decoded : format.decode value ≡ some row
    pub keyed : pk_of row ≡ some pk
    pub unstaged : staged s.overlay (to_lower table) (data_key m.database table pk) ≡ none

  -- The session after the scan has met the pair.
  abbrev after_row : Session R → Bytes → Session R
  after_row s key = if locking_table_is s table then s else note_read s key (lsn_of m.kv key)

  -- What the scan does with the first pair: it passes it over, or takes it.
  record IsPassed (s : Session R) (key value : Bytes) : Type 0 where
    apply : (row : R) → IsUnstaged s key value row → ⊥

  scan_durable-cons :
      (key value : Bytes) (pairs : Map Bytes Bytes) (s t : Session R) (rows : List R)
      → scan_durable format pk_of keep m table ((key, value) ∷ pairs) s ≡ some (t, rows)
      → (IsPassed s key value × (scan_durable format pk_of keep m table pairs s ≡ some (t, rows)))
        ⊎ ((row : R) × (rest : List R) × IsUnstaged s key value row
            × (scan_durable format pk_of keep m table pairs (after_row s key) ≡ some (t, rest))
            × (rows ≡ (if keep row then row ∷ rest else rest)))
  unfolding scan_durable
  scan_durable-cons key value pairs s t rows h =
      elim (Bool-cases (has_prefix key (data_prefix m.database table))) [
        | inr no_prefix ↦
            inl (record { apply = λ row u. cc (u.prefixed, no_prefix) }, ground (arith, no_prefix))
        | inl pre ↦ elim (Option-cases (format.decode value)) [
          | inr d ↦ absurd (ground (arith, pre, d))
          | inl (row, d) ↦ elim (Option-cases (pk_of row)) [
            | inr k ↦ absurd (ground (arith, pre, d, k))
            | inl (pk, k) ↦
                elim (Option-cases
                  (staged s.overlay (to_lower table) (data_key m.database table pk))) [
                    | inl (e, st) ↦ inl (
                      record {
                        apply = λ r u.
                            let x : u.pk ≡ pk = ground (arith, d, k, u.decoded, u.keyed) in
                            let y : staged s.overlay (to_lower table) (data_key m.database table pk)
                                ≡ none =
                              ap
                                (λ (p : Bytes).
                                  staged s.overlay (to_lower table) (data_key m.database table p))
                                (sym x)
                              ∙ u.unstaged in
                            cc (y, st);
                      },
                      ground (arith, pre, d, k, st),
                    )
                    | inr st ↦
                        elim (Option-cases
                          (scan_durable format pk_of keep m table pairs (after_row s key))) [
                            | inr r ↦ absurd (ground (arith, pre, d, k, st, r))
                            | inl ((t', rest), r) ↦
                                let (x, y) : (t' ≡ t)
                                    × (rows ≡ (if keep row then row ∷ rest else rest)) =
                                  ground (arith, pre, d, k, st, r) in
                                inr (
                                  row,
                                  rest,
                                  record {
                                    pk = pk;
                                    prefixed = pre;
                                    decoded = d;
                                    keyed = k;
                                    unstaged = st;
                                  },
                                  r ∙ ap (λ (q : Session R). some (q, rest)) x,
                                  y,
                                )
                          ]
                  ]
          ]
        ]
      ]

  overlay-IsUnstaged :
      (s t : Session R) (key value : Bytes) (row : R)
      → t.overlay ≡ s.overlay
      → IsUnstaged t key value row
      → IsUnstaged s key value row
  overlay-IsUnstaged s t key value row e u = record {
    pk = u.pk;
    prefixed = u.prefixed;
    decoded = u.decoded;
    keyed = u.keyed;
    unstaged = rw (← e) u.unstaged;
  }

  -- The next session stages the same rows.
  after_row-IsUnstaged :
      (s : Session R) (k key value : Bytes) (row : R)
      → (IsUnstaged s key value row → IsUnstaged (after_row s k) key value row)
        × (IsUnstaged (after_row s k) key value row → IsUnstaged s key value row)
  after_row-IsUnstaged s k key value row =
      let e : (after_row s k).overlay ≡ s.overlay = ground arith in
      (
        overlay-IsUnstaged (after_row s k) s key value row (sym e),
        overlay-IsUnstaged s (after_row s k) key value row e,
      )

  -- Every row that the scan returns comes from the store.
  scan_durable_sound :
      (pairs : Map Bytes Bytes) (s t : Session R) (rows : List R) (row : R)
      → scan_durable format pk_of keep m table pairs s ≡ some (t, rows)
      → StandsIn row rows
      → (key : Bytes) × (value : Bytes) × StandsIn (key, value) pairs
        × IsUnstaged s key value row
        × (keep row ≡ true)
  unfolding scan_durable
  scan_durable_sound [] s t rows row h i = let x : rows ≡ [] = ground arith in absurd (rw x at i)
  scan_durable_sound ((key, value) ∷ pairs) s t rows row h i =
      elim (scan_durable-cons key value pairs s t rows h) [
        | inl (_, h') ↦
            let (k, v, at, u, kept) = scan_durable_sound pairs s t rows row h' i in
            (k, v, inr at, u, kept)
        | inr (r, rest, u, h', e) ↦ elim (cond_split (keep r) row r rest rows e i) [
          | inl (same, kept) ↦ (key, value, inl refl, rw (← same) u, rw (← same) kept)
          | inr later ↦
              let (k, v, at, w, kept) =
                scan_durable_sound pairs (after_row s key) t rest row h' later in
              (k, v, inr at, (after_row-IsUnstaged s key k v row).1 w, kept)
        ]
      ]

  scan_durable_complete :
      (pairs : Map Bytes Bytes) (s t : Session R) (rows : List R) (key value : Bytes) (row : R)
      → scan_durable format pk_of keep m table pairs s ≡ some (t, rows)
      → StandsIn (key, value) pairs
      → IsUnstaged s key value row
      → keep row ≡ true
      → StandsIn row rows
  unfolding scan_durable
  scan_durable_complete [] s t rows key value row h i u kept = absurd i
  scan_durable_complete ((k, v) ∷ pairs) s t rows key value row h i u kept =
      elim (scan_durable-cons k v pairs s t rows h) [
        | inl (passed, h') ↦ elim i [
          | inl same ↦
              let (x, y) : (k ≡ key) × (v ≡ value) = ground arith in
              absurd (passed.apply row (rw (x, y) u))
          | inr later ↦ scan_durable_complete pairs s t rows key value row h' later u kept
        ]
        | inr (r, rest, w, h', e) ↦ elim i [
          | inl same ↦
              let (x, y) : (k ≡ key) × (v ≡ value) = ground arith in
              let z : r ≡ row = ground (arith, w.decoded, u.decoded, x, y) in
              cond_head (keep r) row r rest rows e (rw z kept) z
          | inr later ↦ cond_rest (keep r) row r rest rows e (
              scan_durable_complete pairs (after_row s k) t rest key value row h' later
                ((after_row-IsUnstaged s k key value row).0 u) kept)
        ]
      ]

  -- The rows that the transaction has staged and not deleted.
  scan_staged_sound :
      (es : Map Bytes (OverlayEntry R)) (row : R)
      → StandsIn row (scan_staged format keep es)
      → (key : Bytes) × (e : OverlayEntry R) × StandsIn (key, e) es
        × (e.absent ≡ false)
        × (e.row ≡ row)
        × (keep row ≡ true)
  unfolding scan_staged
  scan_staged_sound [] row h = absurd h
  scan_staged_sound ((k, e) ∷ es) row h =
      let rest = scan_staged format keep es in
      elim (Bool-cases e.absent) [
        | inl gone ↦
            let (j, x, at, a, r, kept) = scan_staged_sound es row (rw gone at h) in
            (j, x, inr at, a, r, kept)
        | inr here ↦
            elim (cond_split (keep e.row) row e.row rest (if keep e.row then e.row ∷ rest else rest)
              refl (rw here at h)) [
                | inl (same, kept) ↦ (k, e, inl refl, here, same, rw (← same) kept)
                | inr later ↦
                    let (j, x, at, a, r, kept) = scan_staged_sound es row later in
                    (j, x, inr at, a, r, kept)
              ]
      ]

  scan_staged_complete :
      (es : Map Bytes (OverlayEntry R)) (key : Bytes) (e : OverlayEntry R)
      → StandsIn (key, e) es
      → e.absent ≡ false
      → keep e.row ≡ true
      → StandsIn e.row (scan_staged format keep es)
  unfolding scan_staged
  scan_staged_complete ((k, x) ∷ es) key e (inl same) a kept =
      let y : x ≡ e = ground arith in rw y (rw (a, kept) (inl refl))
  scan_staged_complete ((k, x) ∷ es) key e (inr later) a kept =
      let rest = scan_staged format keep es in
      let ih : StandsIn e.row rest = scan_staged_complete es key e later a kept in
      elim (Bool-cases x.absent) [
        | inl gone ↦ rw gone ih
        | inr here ↦ rw here (
            cond_rest (keep x.row) e.row x.row rest (if keep x.row then x.row ∷ rest else rest) refl
              ih)
      ]
  scan_staged_complete [] key e h a kept = absurd h

  -- A row that the transaction sees: a row of the store that no staged row takes the place of, or a
  -- staged row that is not deleted.
  abbrev pub IsVisible : Session R → R → Type 0
  IsVisible s row =
      ((key : Bytes) × (value : Bytes) × StandsIn (key, value) m.kv.contents
        × IsUnstaged s key value row)
      ⊎ ((key : Bytes) × (e : OverlayEntry R) × StandsIn (key, e)
            (staged_rows s.overlay (to_lower table))
          × (e.absent ≡ false)
          × (e.row ≡ row))

  -- A scan inside a transaction returns exactly the rows that the transaction sees and that the
  -- filter keeps.
  pub select_locked-IsVisible :
      (s t : Session R) (rows : List R)
      → select_locked format pk_of keep m s table ≡ some (t, rows)
      → (row : R)
      → (StandsIn row rows → IsVisible s row × (keep row ≡ true))
        × (IsVisible s row → keep row ≡ true → StandsIn row rows)
  unfolding select_locked
  select_locked-IsVisible s t rows h row =
      let s' = if locking_table_is s table then s else note_scan m s (to_lower table) in
      let o : s'.overlay ≡ s.overlay = ground arith in
      elim (Option-cases (scan_durable format pk_of keep m table m.kv.contents s')) [
        | inr e ↦ absurd (ground (arith, e))
        | inl ((u, durable), e) ↦
            let es = staged_rows s.overlay (to_lower table) in
            let r : rows ≡ durable ++ scan_staged format keep es = ground (arith, e) in
            (
              λ i. elim (append_split row durable (scan_staged format keep es) (rw r at i)) [
                | inl a ↦
                    let (k, v, at, w, kept) =
                      scan_durable_sound m.kv.contents s' u durable row e a in
                    (inl (k, v, at, overlay-IsUnstaged s s' k v row o w), kept)
                | inr b ↦
                    let (k, x, at, here, same, kept) = scan_staged_sound es row b in
                    (inr (k, x, at, here, same), kept)
              ],
              λ i kept. rw r (elim i [
                | inl (k, v, at, w) ↦ append_left row durable (scan_staged format keep es) (
                    scan_durable_complete m.kv.contents s' u durable k v row e at
                      (overlay-IsUnstaged s' s k v row (sym o) w) kept)
                | inr (k, x, at, here, same) ↦
                    append_right row durable (scan_staged format keep es)
                      (rw (← same) (scan_staged_complete es k x at here (rw same kept)))
              ]),
            )
      ]
