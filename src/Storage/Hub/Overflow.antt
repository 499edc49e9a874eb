-- ===== src/Storage/Hub/Overflow.antt =====
-- pkg/storage/notify.go: `UnsubscribeAll`, and the listeners that `Publish` removes.
use pizzasql.Prelude.{
  ℕ, Bool, true, false, not, ◌&&◌, ◌||◌, none, some, List, [], ◌∷◌, ◌≡◌, refl, arith, ◌==◌, ltb,
  if◌then◌else◌, length, Bool-cases, inl, inr,
}
use pizzasql.Prelude.Eq.{nat_eq}
use pizzasql.Prelude.Bytes.{Bytes, bytes_eq, bytes_equal_iff}
use pizzasql.Prelude.Map.{Map, lookup, Distinct}
use pizzasql.Storage.Hub.{
  Notification, Hub, Members, members, has_member, unsubscribe, unsubscribe_range, unsubscribe_all,
  next_lsn, deliver, deliver_all, unsubscribe_each, publish,
}
use pizzasql.Storage.Hub.Members.{listens, listens-unsubscribe}
use pizzasql.Storage.Hub.Delivery.{heap-deliver}

abbrev has_channel : Bytes → Map Bytes Members → Bool
has_channel c range = elim (lookup c range) [ none ↦ false | some _ ↦ true ]

listens-unsubscribe_range :
    (h : Hub) (s p : ℕ) (c : Bytes) (range : Map Bytes Members)
    → listens (unsubscribe_range h s range) p c
      ≡ (if s == p && has_channel c range then false else listens h p c)
unfolding unsubscribe_range lookup
listens-unsubscribe_range h s p c [] = ground arith
listens-unsubscribe_range h s p c ((channel, subs) ∷ range) = ground (
  arith,
  listens-unsubscribe_range (unsubscribe h s channel) s p c range,
  listens-unsubscribe h s p channel c,
  bytes_equal_iff channel c,
)

nobody : (p : ℕ) (subs : Members) → length subs ≡ 0 → lookup p subs ≡ none
unfolding lookup
nobody p [] h = refl
nobody p (_ ∷ _) h = absurd (omega (arith, h))

listens_unheard :
    (h : Hub) (p : ℕ) (c : Bytes) → has_channel c h.channels ≡ false → listens h p c ≡ false
listens_unheard h p c e = ground (arith, e, nobody p [] refl)

-- `UnsubscribeAll` ends every subscription of the subscriber, and no other.
pub listens-unsubscribe_all :
    (h : Hub) (s p : ℕ) (c : Bytes)
    → listens (unsubscribe_all h s) p c ≡ (if s == p then false else listens h p c)
unfolding unsubscribe_all
listens-unsubscribe_all h s p c =
    ground (arith, listens-unsubscribe_range h s p c h.channels, listens_unheard h p c)

abbrev among : ℕ → List ℕ → Bool
among p [] = false
among p (s ∷ rest) = s == p || among p rest

listens-unsubscribe_each :
    (h : Hub) (rest : List ℕ) (p : ℕ) (c : Bytes)
    → listens (unsubscribe_each h rest) p c ≡ (if among p rest then false else listens h p c)
unfolding unsubscribe_each
listens-unsubscribe_each h [] p c = refl
listens-unsubscribe_each h (s ∷ rest) p c = ground (
  arith,
  listens-unsubscribe_each (unsubscribe_all h s) rest p c,
  listens-unsubscribe_all h s p c,
)

channels-deliver : (h : Hub) (n : Notification) (s : ℕ) → (deliver h n s).channels ≡ h.channels
unfolding deliver
channels-deliver h n s = ground arith

channels-deliver_all :
    (h : Hub) (n : Notification) (targets : Members)
    → (deliver_all h n targets).0.channels ≡ h.channels
unfolding deliver_all
channels-deliver_all h n [] = refl
channels-deliver_all h n ((s, _) ∷ targets) =
    ground (arith, channels-deliver_all (deliver h n s) n targets, channels-deliver h n s)

-- Whether the queue of the subscriber takes another notification.
abbrev pub has_room : Hub → ℕ → Bool
has_room h s = ltb (length (h.heap s).queue) (h.heap s).queue_size

has_room-deliver :
    (h : Hub) (n : Notification) (t s : ℕ)
    → (t == s) ≡ false
    → has_room (deliver h n t) s ≡ has_room h s
has_room-deliver h n t s other = ground (arith, other, heap-deliver h n t s)

among-deliver_all :
    (h : Hub) (n : Notification) (targets : Members) (p : ℕ)
    → Distinct targets
    → among p (deliver_all h n targets).1 ≡ (has_member p targets && not (has_room h p))
unfolding deliver_all lookup
among-deliver_all h n [] p d = refl
among-deliver_all h n ((t, _) ∷ targets) p d = elim (Bool-cases (t == p)) [
  | inl same ↦ ground (arith, same, d.0, among-deliver_all (deliver h n t) n targets p d.1)
  | inr other ↦
      ground
        (arith, other, among-deliver_all (deliver h n t) n targets p d.1, has_room-deliver h n t p)
]

-- `Publish` ends the subscriptions, to this channel and to every other one, of exactly the
-- listeners whose queue was full.
pub listens-publish :
    (h : Hub) (n : Notification) (p : ℕ) (c : Bytes)
    → (length n.channel == 0) ≡ false
    → Distinct (members h n.channel)
    → listens (publish h n) p c
      ≡ (if has_member p (members h n.channel) && not (has_room h p) then false else listens h p c)
unfolding publish
listens-publish h n p c named d =
    let h' = record h { last_lsn = next_lsn h.last_lsn n.lsn } in
    let numbered = record n { lsn = next_lsn h.last_lsn n.lsn } in
    let sent = deliver_all h' numbered (members h n.channel) in
    rw (publish, named)
      (ground (
        arith,
        listens-unsubscribe_each sent.0 sent.1 p c,
        among-deliver_all h' numbered (members h n.channel) p d,
        channels-deliver_all h' numbered (members h n.channel),
      ))
