-- ===== src/Storage/Hub/Delivery.antt =====
-- pkg/storage/notify.go: what `Publish` does to the subscribers.
use pizzasql.Prelude.{
  ℕ, true, false, List, [], ◌∷◌, ◌++◌, ◌≡◌, refl, ap, ◌∙◌, Option-cases, arith, ◌==◌, ==_iff, ltb,
  if◌then◌else◌, length, Bool-cases, inl, inr,
}
use pizzasql.Prelude.Eq.{nat_eq}
use pizzasql.Prelude.Bytes.{Bytes, bytes_eq}
use pizzasql.Prelude.Map.{Map, lookup, Distinct}
use pizzasql.Storage.Hub.{
  Notification, Subscriber, Hub, Members, members, has_member, unsubscribe, unsubscribe_range,
  unsubscribe_all, next_lsn, deliver, deliver_all, unsubscribe_each, publish,
}

-- A subscriber to whom a notification is sent: it is queued where there is room, and else the
-- subscriber is marked.
abbrev pub send : Notification → Subscriber → Subscriber
send n sub =
    if ltb (length sub.queue) sub.queue_size
    then record sub { queue = sub.queue ++ n ∷ [] }
    else record sub { overflow = true }

pub heap-deliver :
    (h : Hub) (n : Notification) (t s : ℕ)
    → (deliver h n t).heap s ≡ (if s == t then send n (h.heap s) else h.heap s)
unfolding deliver
heap-deliver h n t s = elim (Bool-cases (s == t)) [
  | inl same ↦ (elim (Bool-cases (ltb (length (h.heap t).queue) (h.heap t).queue_size)) [
    | inl room ↦ rw (same, (==_iff s t).0 same, room, (==_iff t t).1 refl) refl
    | inr full ↦ rw (same, (==_iff s t).0 same, full, (==_iff t t).1 refl) refl
  ])
  | inr other ↦ (elim (Bool-cases (ltb (length (h.heap t).queue) (h.heap t).queue_size)) [
    | inl room ↦ rw (other, room, other) refl
    | inr full ↦ rw (other, full, other) refl
  ])
]

heap-deliver_all :
    (h : Hub) (n : Notification) (targets : Members) (s : ℕ)
    → Distinct targets
    → (deliver_all h n targets).0.heap s
      ≡ (if has_member s targets then send n (h.heap s) else h.heap s)
unfolding deliver_all lookup
heap-deliver_all h n [] s d = refl
heap-deliver_all h n ((t, _) ∷ targets) s d = elim (Bool-cases (s == t)) [
  | inl same ↦
      ground (arith, d.0, heap-deliver_all (deliver h n t) n targets s d.1, heap-deliver h n t s)
  | inr other ↦
      ground (arith, heap-deliver_all (deliver h n t) n targets s d.1, heap-deliver h n t s)
]

heap-unsubscribe : (h : Hub) (s : ℕ) (channel : Bytes) → (unsubscribe h s channel).heap ≡ h.heap
unfolding unsubscribe
heap-unsubscribe h s channel = elim (Option-cases (lookup channel h.channels)) [
  | inl (subs, e) ↦ rw (unsubscribe, e) refl
  | inr e ↦ rw (unsubscribe, e) refl
]

heap-unsubscribe_range :
    (h : Hub) (s : ℕ) (range : Map Bytes Members) → (unsubscribe_range h s range).heap ≡ h.heap
unfolding unsubscribe_range
heap-unsubscribe_range h s [] = refl
heap-unsubscribe_range h s ((channel, _) ∷ rest) =
    heap-unsubscribe_range (unsubscribe h s channel) s rest ∙ heap-unsubscribe h s channel

heap-unsubscribe_each : (h : Hub) (rest : List ℕ) → (unsubscribe_each h rest).heap ≡ h.heap
unfolding unsubscribe_each unsubscribe_all
heap-unsubscribe_each h [] = refl
heap-unsubscribe_each h (s ∷ rest) =
    heap-unsubscribe_each (unsubscribe_all h s) rest ∙ heap-unsubscribe_range h s h.channels

-- `Publish` on a channel with a name sends the notification, numbered by `assignLSN`, to each
-- listener of the channel once: it comes last in the queue of a listener with room, a listener
-- without room is marked and loses nothing of its queue, and nobody else is touched.
pub heap-publish :
    (h : Hub) (n : Notification) (s : ℕ)
    → (length n.channel == 0) ≡ false
    → Distinct (members h n.channel)
    → (publish h n).heap s ≡ (
        if has_member s (members h n.channel)
        then send (record n { lsn = next_lsn h.last_lsn n.lsn }) (h.heap s)
        else h.heap s)
unfolding publish
heap-publish h n s named d =
    let numbered = record n { lsn = next_lsn h.last_lsn n.lsn } in
    let h' = record h { last_lsn = next_lsn h.last_lsn n.lsn } in
    let sent = deliver_all h' numbered (members h n.channel) in
    rw (publish, named)
      (ap (λ heap. heap s) (heap-unsubscribe_each sent.0 sent.1)
        ∙ heap-deliver_all h' numbered (members h n.channel) s d)
