-- ===== src/Storage/Session/Validation.antt =====
-- pkg/storage/tx.go and pkg/testkv/testkv.go: the compare set of a commit against what the
-- transaction has read.
use pizzasql.Prelude.{
  Bool, List, ap, ℕ, ◌≤◌, true, Option, none, some, [], ◌∷◌, ◌≡◌, refl, arith, Bool-cases,
  Option-cases, inl, inr, ◌∙◌,
}
use pizzasql.Prelude.Bytes.{has_prefix, Bytes, bytes_eq, bytes_equal, bytes_equal_iff}
use pizzasql.Prelude.Map.{Map, lookup, insert, lookup-insert}
use pizzasql.Storage.Store.{Kv, check_holds, checks_hold, lsn_of}
use pizzasql.Storage.Store.Versions.{IsNumbered, IsLater}
use pizzasql.Storage.Session.{Session, note_read, data_prefix, to_lower, data_key, staged, note_key}
use pizzasql.Storage.Session.Manager.{
  RowFormat, Manager, key_found, key_not_found, get_key_with_lsn, KeyRead-cases,
}
use pizzasql.Storage.Session.Reads.{
  scan_start, select_locked, scan_durable, locking_table_is, get_by_pk,
}
use pizzasql.Storage.Session.Batch.{read_checks}
use pizzasql.Storage.Session.Runs.{observe_scan, Seen, World, observe}

-- The number `n` speaks for the value `v` under the key: while the store has `n` there, it holds
-- `v`; and 0 speaks for the absence of a value.
pub record SpeaksFor (kv : Kv) (key : Bytes) (n : ℕ) (v : Option Bytes) : Type 0 where
  pub given : n ≤ kv.next_lsn
  pub nothing : n ≡ 0 → v ≡ none
  pub same : lookup key kv.lsns ≡ some n → lookup key kv.contents ≡ v

-- For all that the transaction has seen it holds a number that speaks for it.
abbrev pub Vouches : Kv → Map Bytes ℕ → Seen → Type 0
Vouches kv reads seen =
    (key : Bytes) (v : Option Bytes)
    → lookup key seen ≡ some v
    → (n : ℕ) × (lookup key reads ≡ some n) × SpeaksFor kv key n v

pub Write-SpeaksFor :
    (kv kv' : Kv) (key : Bytes) (n : ℕ) (v : Option Bytes)
    → IsLater kv kv'
    → SpeaksFor kv key n v
    → SpeaksFor kv' key n v
Write-SpeaksFor kv kv' key n v l s = record {
  given = omega (arith, l.grows, s.given);
  nothing = s.nothing;
  same = λ h. let (e, f) = l.keeps key n h s.given in f ∙ s.same e;
}

pub note_key-Vouches :
    (kv : Kv) (reads : Map Bytes ℕ) (seen : Seen) (key : Bytes)
    → Vouches kv reads seen
    → Vouches kv (note_key reads key) seen
note_key-Vouches kv reads seen key h = elim (Option-cases (lookup key reads)) [
  | inl (n, e) ↦ rw (note_key, e) h
  | inr e ↦
      rw (note_key, e)
        λ k v f.
          let (n, g, sp) = h k v f in
          (n, ground (arith, lookup-insert key k 0 reads, bytes_equal_iff key k, e, g), sp)
]

-- A read of the store, whose number is noted.
pub read-Vouches :
    (kv : Kv) (reads : Map Bytes ℕ) (seen : Seen) (key : Bytes) (n : ℕ)
    → SpeaksFor kv key n (lookup key kv.contents)
    → Vouches kv reads seen
    → Vouches kv (insert key n reads) (insert key (lookup key kv.contents) seen)
read-Vouches kv reads seen key n sp h k v f = elim (Bool-cases (bytes_equal key k)) [
  | inl same ↦
      let (x, y) : (key ≡ k) × (lookup key kv.contents ≡ v) =
        ground (arith, lookup-insert key k (lookup key kv.contents) seen, bytes_equal_iff key k) in
      (n, ground (arith, lookup-insert key k n reads), rw (← y, ← x) sp)
  | inr other ↦
      let (i, g, si) =
        h k v (ground (arith, lookup-insert key k (lookup key kv.contents) seen, other)) in
      (i, ground (arith, lookup-insert key k n reads, other, g), si)
]

-- A check that holds and a number that speaks for a value: the store holds the value.
pub check-SpeaksFor :
    (kv : Kv) (key : Bytes) (n : ℕ) (v : Option Bytes)
    → SpeaksFor kv key n v
    → check_holds kv (record { key = key; lsn = n }) ≡ true
    → lookup key kv.contents ≡ v
check-SpeaksFor kv key n v sp h = ground (arith, sp.nothing, sp.same)

pub checks_hold-read_checks :
    (kv : Kv) (reads : Map Bytes ℕ) (key : Bytes) (n : ℕ)
    → checks_hold kv (read_checks reads) ≡ true
    → lookup key reads ≡ some n
    → check_holds kv (record { key = key; lsn = n }) ≡ true
unfolding checks_hold lookup
checks_hold-read_checks kv [] key n h e = absurd (cc e)
checks_hold-read_checks kv ((k, i) ∷ reads) key n h e = elim (Bool-cases (bytes_equal k key)) [
  | inl same ↦ ground (arith, bytes_equal_iff k key)
  | inr other ↦ checks_hold-read_checks kv reads key n (ground arith) (ground arith)
]

-- The number that the store has for a key speaks for what it holds there.
pub lsn_of-SpeaksFor :
    (kv : Kv) (key : Bytes)
    → IsNumbered kv
    → SpeaksFor kv key (lsn_of kv key) (lookup key kv.contents)
lsn_of-SpeaksFor kv key w = record {
  given = ground (arith, w.bounded key (lsn_of kv key));
  nothing = λ h. ground (arith, w.bounded key (lsn_of kv key), w.present key);
  same = λ h. refl;
}

module _ {R : Type 0} (format : RowFormat R) where
  get_key-found :
      (m : Manager) (key : Bytes) (row : R) (n : ℕ)
      → get_key_with_lsn format m key ≡ key_found row n
      → n ≡ lsn_of m.kv key
  unfolding get_key_with_lsn
  get_key-found m key row n h = ground arith

  get_key-not_found :
      (m : Manager) (key : Bytes)
      → IsNumbered m.kv
      → get_key_with_lsn format m key ≡ key_not_found
      → lsn_of m.kv key ≡ 0
  unfolding get_key_with_lsn
  get_key-not_found m key w h = ground (arith, w.absent key)

  pub get_by_pk-Vouches :
      (w : World R) (table pk : Bytes)
      → IsNumbered w.manager.kv
      → Vouches w.manager.kv w.session.reads w.seen
      → Vouches w.manager.kv
          (get_by_pk format true w.manager w.session table pk).0.reads
          (observe format w table pk)
  unfolding get_by_pk
  get_by_pk-Vouches w table pk num h =
      let key = data_key w.manager.database table pk in
      elim (Option-cases (staged w.session.overlay (to_lower table) key)) [
        | inl (e, st) ↦ rw (get_by_pk, observe, st) h
        | inr st ↦ elim (KeyRead-cases (get_key_with_lsn format w.manager key)) [
          | inl (row, n, e) ↦
              rw (get_by_pk, observe, st, e)
                (read-Vouches w.manager.kv w.session.reads w.seen key n
                  (rw (get_key-found w.manager key row n e) (lsn_of-SpeaksFor w.manager.kv key num))
                  h)
          | inr (inl e) ↦
              rw (get_by_pk, observe, st, e)
                (read-Vouches w.manager.kv w.session.reads w.seen key 0
                  (rw (← get_key-not_found w.manager key num e)
                    (lsn_of-SpeaksFor w.manager.kv key num))
                  h)
          | inr (inr e) ↦ rw (get_by_pk, observe, st, e) h
        ]
      ]

  -- A scan leaves what is staged, and holds numbers that speak for all that it has seen.
  pub record Keeps (kv : Kv) (s t : Session R) (seen : Seen) : Type 0 where
    pub vouches : Vouches kv t.reads seen
    pub overlay : t.overlay ≡ s.overlay
    pub log : t.log ≡ s.log

  scan_durable-Vouches :
      (pk_of : R → Option Bytes) (keep : R → Bool) (m : Manager) (table : Bytes)
      (pairs : Map Bytes Bytes) (s t : Session R) (rows : List R) (seen : Seen)
      → IsNumbered m.kv
      → scan_durable format pk_of keep m table pairs s ≡ some (t, rows)
      → Vouches m.kv s.reads seen
      → Keeps m.kv s t (observe_scan format pk_of m table pairs s seen)
  unfolding scan_durable observe_scan
  scan_durable-Vouches pk_of keep m table [] s t rows seen num h v =
      let x : t ≡ s = ground arith in
      record {
        vouches = rw x v;
        overlay = ap (λ (q : Session R). q.overlay) x;
        log = ap (λ (q : Session R). q.log) x;
      }
  scan_durable-Vouches pk_of keep m table ((key, value) ∷ pairs) s t rows seen num h v =
      elim (Bool-cases (has_prefix key (data_prefix m.database table))) [
        | inr no_prefix ↦
            rw (observe_scan, no_prefix)
              (scan_durable-Vouches pk_of keep m table pairs s t rows seen num
                (ground (arith, no_prefix)) v)
        | inl pre ↦ elim (Option-cases (format.decode value)) [
          | inr d ↦ absurd (ground (arith, pre, d))
          | inl (row, d) ↦ elim (Option-cases (pk_of row)) [
            | inr k ↦ absurd (ground (arith, pre, d, k))
            | inl (pk, k) ↦
                elim (Option-cases
                  (staged s.overlay (to_lower table) (data_key m.database table pk))) [
                    | inl (e, st) ↦
                        rw (observe_scan, pre, d, k, st)
                          (scan_durable-Vouches pk_of keep m table pairs s t rows seen num
                            (ground (arith, pre, d, k, st)) v)
                    | inr st ↦ elim (Bool-cases (locking_table_is s table)) [
                      | inl locks ↦
                          elim (Option-cases (scan_durable format pk_of keep m table pairs s)) [
                            | inr r ↦ absurd (ground (arith, pre, d, k, st, locks, r))
                            | inl ((t', rest), r) ↦
                                let x : t' ≡ t = ground (arith, pre, d, k, st, locks, r) in
                                rw (observe_scan, pre, d, k, st, locks)
                                  (scan_durable-Vouches pk_of keep m table pairs s t rest seen num
                                    (r ∙ ap (λ (q : Session R). some (q, rest)) x) v)
                          ]
                      | inr reads ↦
                          let s' = note_read s key (lsn_of m.kv key) in
                          elim (Option-cases (scan_durable format pk_of keep m table pairs s')) [
                            | inr r ↦ absurd (ground (arith, pre, d, k, st, reads, r))
                            | inl ((t', rest), r) ↦
                                let x : t' ≡ t = ground (arith, pre, d, k, st, reads, r) in
                                let kept =
                                  scan_durable-Vouches pk_of keep m table pairs s' t rest
                                    (insert key (lookup key m.kv.contents) seen) num
                                    (r ∙ ap (λ (q : Session R). some (q, rest)) x)
                                    (read-Vouches m.kv s.reads seen key (lsn_of m.kv key)
                                      (lsn_of-SpeaksFor m.kv key num) v) in
                                rw (observe_scan, pre, d, k, st, reads)
                                  (record {
                                    vouches = kept.vouches;
                                    overlay = kept.overlay;
                                    log = kept.log;
                                  })
                          ]
                    ]
                  ]
          ]
        ]
      ]

  scan_start-Keeps :
      (m : Manager) (s : Session R) (table : Bytes)
      → ((scan_start m s table).reads ≡ s.reads)
        × ((scan_start m s table).overlay ≡ s.overlay)
        × ((scan_start m s table).log ≡ s.log)
  scan_start-Keeps m s table = ground arith

  pub select_locked-Vouches :
      (pk_of : R → Option Bytes) (keep : R → Bool) (m : Manager) (table : Bytes) (s t : Session R)
      (rows : List R) (seen : Seen)
      → IsNumbered m.kv
      → select_locked format pk_of keep m s table ≡ some (t, rows)
      → Vouches m.kv s.reads seen
      → Keeps m.kv s t (observe_scan format pk_of m table m.kv.contents (scan_start m s table) seen)
  unfolding select_locked
  select_locked-Vouches pk_of keep m table s t rows seen num h v =
      let s' = scan_start m s table in
      let (a, b, c) = scan_start-Keeps m s table in
      elim (Option-cases (scan_durable format pk_of keep m table m.kv.contents s')) [
        | inr r ↦ absurd (ground (arith, r))
        | inl ((t', rest), r) ↦
            let x : t' ≡ t = ground (arith, r) in
            let kept =
              scan_durable-Vouches pk_of keep m table m.kv.contents s' t rest seen num
                (r ∙ ap (λ (q : Session R). some (q, rest)) x) (rw a v) in
            record { vouches = kept.vouches; overlay = kept.overlay ∙ b; log = kept.log ∙ c }
      ]
