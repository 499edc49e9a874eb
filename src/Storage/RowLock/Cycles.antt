-- ===== src/Storage/RowLock/Cycles.antt =====
-- `hasCycleLocked` against the wait-for graph as a relation.
use pizzasql.Prelude.{
  ℕ, zero, suc, ◌+◌, ◌-◌, ◌≤◌, ◌<◌, Bool, true, false, Option, none, some, List, [], ◌∷◌, ◌≡◌, ◌≢◌,
  ◌↔◌, refl, sym, ◌∙◌, ap, arith, ◌==◌, ==_iff, if◌then◌else◌, length, Option-cases, Bool-cases,
  inl, inr,
}
use pizzasql.Prelude.Eq.{nat_eq}
use pizzasql.Prelude.Map.{Map, lookup, insert, lookup-insert}
use pizzasql.Storage.RowLock.{Session}
use pizzasql.Storage.RowLock.Waiting.{waits_for, contains, cycle_loop, has_cycle}

abbrev Graph : Type 0
Graph = Map Session (Option Session)

abbrev follow : Graph → Option Session → Option Session
follow waits none = none
follow waits (some s) = waits_for waits s

-- The session that `start` reaches over `n` edges, if the chain is that long.
abbrev pub steps : Graph → Session → ℕ → Option Session
steps waits start zero = some start
steps waits start (suc n) = follow waits (steps waits start n)

-- `start` waits, over one edge or more, for itself.
abbrev pub IsDeadlocked : Graph → Session → Type 0
IsDeadlocked waits start = (n : ℕ) × (1 ≤ n) × (steps waits start n ≡ some start)

-- The sessions seen are those at the earlier places of the chain.
abbrev Trail : Graph → Session → List Session → Type 0
Trail waits start [] = Unit
Trail waits start (s ∷ seen) = (steps waits start (length seen) ≡ some s) × Trail waits start seen

unseen : Graph → List Session → ℕ
unseen [] seen = 0
unseen ((k, _) ∷ waits) seen = (if contains k seen then 0 else 1) + unseen waits seen

unseen-nil : (waits : Graph) → unseen waits [] ≡ length waits
unfolding unseen contains
unseen-nil [] = refl
unseen-nil ((k, _) ∷ waits) = omega (arith, unseen-nil waits)

unseen-le :
    (waits : Graph) (c : Session) (seen : List Session)
    → unseen waits (c ∷ seen) ≤ unseen waits seen
unfolding unseen contains
unseen-le [] c seen = omega arith
unseen-le ((k, _) ∷ waits) c seen = ground (arith, unseen-le waits c seen)

unseen-lt :
    (waits : Graph) (c : Session) (seen : List Session) (d : Option Session)
    → lookup c waits ≡ some d
    → contains c seen ≡ false
    → unseen waits (c ∷ seen) < unseen waits seen
unfolding unseen contains lookup
unseen-lt [] c seen d h n = absurd (cc)
unseen-lt ((k, _) ∷ waits) c seen d h n =
    ground (arith, unseen-le waits c seen, unseen-lt waits c seen d)

zero-add : (n : ℕ) → 0 + n ≡ n
zero-add n = omega arith

suc-add : (k n : ℕ) → suc k + n ≡ suc (k + n)
suc-add k n = omega arith

shift_suc : (k n : ℕ) → k + suc n ≡ suc k + n
shift_suc k n = omega arith

minus_one : (n : ℕ) → 1 ≤ n → (n - 1) + 1 ≡ n
minus_one n h = omega arith

minus-plus : (m n : ℕ) → m ≤ n → (n - m) + m ≡ n
minus-plus m n h = omega arith

module _ (waits : Graph) (start : Session) where
  loop-ne-none :
      (fuel : ℕ) (c : Session) (seen : List Session)
      → unseen waits seen + 2 ≤ fuel
      → cycle_loop fuel waits start (some c) seen ≢ none
  unfolding cycle_loop
  loop-ne-none zero c seen h = absurd (omega arith)
  loop-ne-none (suc zero) c seen h = absurd (omega arith)
  loop-ne-none (suc (suc fuel)) c seen h = elim (Bool-cases (contains c seen)) [
    | inl old ↦ ground arith
    | inr new ↦ (elim (Option-cases (waits_for waits c)) [
      | inr end ↦ rw (new, end) (λ e. cc)
      | inl (d, next) ↦
          rw (new, next)
            (loop-ne-none (suc fuel) d (c ∷ seen) (ground (arith, unseen-lt waits c seen (some d))))
    ])
  ]

  contains-place :
      (c : Session) (seen : List Session)
      → Trail waits start seen
      → contains c seen ≡ true
      → (j : ℕ) × (j < length seen) × (steps waits start j ≡ some c)
  unfolding contains
  contains-place c [] t h = absurd (cc)
  contains-place c (s ∷ seen) t h = elim (Bool-cases (s == c)) [
    | inl same ↦ (length seen, omega arith, ground (arith, t.0))
    | inr other ↦ let (j, lt, at) = contains-place c seen t.1 (ground arith) in (j, omega arith, at)
  ]

  place-contains :
      (c : Session) (seen : List Session)
      → Trail waits start seen
      → (j : ℕ) → j < length seen
      → steps waits start j ≡ some c
      → contains c seen ≡ true
  unfolding contains
  place-contains c [] t j lt at = absurd (omega arith)
  place-contains c (s ∷ seen) t j lt at = elim (Bool-cases (j == length seen)) [
    | inl last ↦
        ground
          (arith, t.0, at, ap (λ (i : ℕ). steps waits start i) ((==_iff j (length seen)).0 last))
    | inr earlier ↦ ground (arith, place-contains c seen t.1 j)
  ]

  loop_sound :
      (fuel : ℕ) (cur : Option Session) (seen : List Session)
      → Trail waits start seen
      → steps waits start (length seen) ≡ cur
      → cycle_loop fuel waits start cur seen ≡ some true
      → IsDeadlocked waits start
  unfolding cycle_loop
  loop_sound zero cur seen t at h = absurd (cc)
  loop_sound (suc fuel) none seen t at h = absurd (cc)
  loop_sound (suc fuel) (some c) seen t at h = elim (Bool-cases (contains c seen)) [
    | inl old ↦
        let (j, lt, _) = contains-place c seen t old in (length seen, omega arith, ground arith)
    | inr new ↦ loop_sound fuel (waits_for waits c) (c ∷ seen) (at, t) (rw at refl) (ground arith)
  ]

  -- The chain does not go on behind its end, and goes on alike from equal places.
  steps_end : (i k : ℕ) → steps waits start i ≡ none → steps waits start (k + i) ≡ none
  steps_end i zero h = rw zero-add h
  steps_end i (suc k) h = rw (suc-add, steps_end i k h)

  steps_shift :
      (i j k : ℕ)
      → steps waits start i ≡ steps waits start j
      → steps waits start (k + i) ≡ steps waits start (k + j)
  steps_shift i j zero h = rw (zero-add, zero-add) h
  steps_shift i j (suc k) h = rw (suc-add, suc-add) (ap (follow waits) (steps_shift i j k h))

  -- The first return to `start`.
  record FirstReturn (n : ℕ) : Type 0 where
    positive : 1 ≤ n
    returns : steps waits start n ≡ some start
    first : (i : ℕ) → 1 ≤ i → i < n → steps waits start i ≢ some start

  is_start : Option Session → Bool
  is_start none = false
  is_start (some s) = s == start

  is_start_lem : (o : Option Session) → is_start o ≡ true → o ≡ some start
  unfolding is_start
  is_start_lem none h = absurd (cc)
  is_start_lem (some s) h = ground arith

  is_start_not : (o : Option Session) → is_start o ≡ false → o ≢ some start
  unfolding is_start
  is_start_not none h e = cc
  is_start_not (some s) h e = ground arith

  first_return :
      (k i : ℕ)
      → 1 ≤ i
      → steps waits start (k + i) ≡ some start
      → ((j : ℕ) → 1 ≤ j → j < i → steps waits start j ≢ some start)
      → (n : ℕ) × FirstReturn n
  first_return zero i pos at before =
      (i, record { positive = pos; returns = rw zero-add at at; first = before })
  first_return (suc k) i pos at before = elim (Bool-cases (is_start (steps waits start i))) [
    | inl here ↦ (
      i,
      record { positive = pos; returns = is_start_lem (steps waits start i) here; first = before },
    )
    | inr on ↦ first_return k (suc i) (omega arith) (rw shift_suc at) (λ j p lt.
        elim (Bool-cases (j == i)) [
          | inl same ↦ rw ((==_iff j i).0 same) (is_start_not (steps waits start i) on)
          | inr other ↦ before j p (ground arith)
        ])
  ]

  module _ (n : ℕ) (f : FirstReturn n) where
    on_cycle :
        (i : ℕ) (c : Session) (j : ℕ)
        → i ≤ n
        → steps waits start i ≡ some c
        → j < i
        → steps waits start j ≡ some c
        → c ≡ start
    on_cycle i c j le at lt before = elim (Bool-cases (i == n)) [
      | inl last ↦
          ground (arith, f.returns, ap (λ (m : ℕ). steps waits start m) ((==_iff i n).0 last))
      | inr earlier ↦ absurd (
          f.first ((n - i) + j) (ground arith) (ground arith)
            (sym (steps_shift i j (n - i) (at ∙ sym before)) ∙ rw (minus-plus i n le) f.returns))
    ]

    loop_complete :
        (fuel : ℕ) (cur : Option Session) (seen : List Session)
        → Trail waits start seen
        → steps waits start (length seen) ≡ cur
        → length seen ≤ n
        → cycle_loop fuel waits start cur seen ≢ some false
    unfolding cycle_loop
    loop_complete zero cur seen t at le = λ e. cc
    loop_complete (suc fuel) none seen t at le = absurd (
        ground (
          arith,
          steps_end (length seen) (n - length seen) at,
          f.returns,
          ap (λ (m : ℕ). steps waits start m) (minus-plus (length seen) n le),
        ))
    loop_complete (suc fuel) (some c) seen t at le = elim (Bool-cases (contains c seen)) [
      | inl old ↦
          let (j, lt, before) = contains-place c seen t old in
          ground (arith, on_cycle (length seen) c j le at lt before)
      | inr new ↦ (elim (Bool-cases (length seen == n)) [
        | inl last ↦ absurd (
            ground (
              arith,
              f.positive,
              place-contains c seen t 0,
              f.returns,
              ap (λ (m : ℕ). steps waits start m) ((==_iff (length seen) n).0 last),
            ))
        | inr earlier ↦
            rw new (
              loop_complete fuel (waits_for waits c) (c ∷ seen) (at, t) (rw at refl) (ground arith))
      ])
    ]

  -- The fuel of `has_cycle` is enough: the loop always comes to its `return`.
  pub has_cycle_terminates : cycle_loop (length waits + 2) waits start (some start) [] ≢ none
  has_cycle_terminates = loop-ne-none (length waits + 2) start [] (omega (arith, unseen-nil waits))

  -- `hasCycleLocked` returns, and answers true exactly if the session waits, over one edge or more,
  -- for itself.
  pub has_cycle_iff : (has_cycle waits start ≡ true) ↔ IsDeadlocked waits start
  unfolding has_cycle
  has_cycle_iff =
      let fuel : ℕ = length waits + 2 in
      (
        λ h. loop_sound fuel (some start) [] tt refl (ground arith),
        λ (n, pos, at).
            let (m, f) =
              first_return (n - 1) 1 (omega arith) (rw (minus_one n pos) at)
                (λ j p lt. absurd (omega arith)) in
            ground (
              arith,
              has_cycle_terminates,
              loop_complete m f fuel (some start) [] tt refl (omega arith),
            ),
      )

-- A session that waits for itself is in a cycle, whatever else the graph holds.
pub self_cycle : (waits : Graph) (a : Session) → has_cycle (insert a (some a) waits) a ≡ true
self_cycle waits a =
    (has_cycle_iff (insert a (some a) waits) a).1
      (1, omega arith, ground (arith, lookup-insert a a (some a) waits))
