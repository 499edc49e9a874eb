-- ===== src/Storage/Hub.antt =====
-- pkg/storage/notify.go: the hub of LISTEN and NOTIFY. A subscriber is the number of its object,
-- and the objects stand on a heap. Neither the hub nor a subscriber is nil.
pub mod Members
pub mod Delivery
pub mod Overflow
pub mod Order
mod Tests
use pizzasql.Prelude.{
  ℕ, ◌+◌, ◌%◌, ◌^◌, Bool, true, false, ◌||◌, Option, none, some, List, [], ◌∷◌, ◌++◌, ◌==◌, ltb,
  if◌then◌else◌, length,
}
use pizzasql.Prelude.Eq.{nat_eq}
use pizzasql.Prelude.Bytes.{Bytes, bytes_eq}
use pizzasql.Prelude.Map.{Map, lookup, insert, remove}

pub record Notification : Type 0 where
  pub pid : ℕ
  pub channel : Bytes
  pub payload : Bytes
  pub lsn : ℕ

-- `queue` is what the channel `notifications` buffers, and `overflow` whether that channel is closed.
pub record Subscriber : Type 0 where
  pub id : ℕ
  pub queue : List Notification
  pub queue_size : ℕ
  pub overflow : Bool

-- `map[*Subscriber]struct{}`
abbrev pub Members : Type 0
Members = Map ℕ Unit

pub record Hub : Type 0 where
  pub heap : ℕ → Subscriber
  pub channels : Map Bytes Members
  pub subscribers : Members
  pub published : ℕ
  pub dropped : ℕ
  pub last_lsn : ℕ

-- `NewSubscriber`; a size that is not positive is 0 here.
unfoldable pub new_subscriber : ℕ → ℕ → Subscriber
new_subscriber pid queue_size = record {
  id = pid;
  queue = [];
  queue_size = if queue_size == 0 then 128 else queue_size;
  overflow = false;
}

-- `NewHub`, over a heap of subscribers.
abbrev pub new_hub : (ℕ → Subscriber) → Hub
new_hub heap = record {
  heap = heap;
  channels = [];
  subscribers = [];
  published = 0;
  dropped = 0;
  last_lsn = 0;
}

-- `h.channels[channel]`, where a missing one is as good as an empty one.
abbrev pub members : Hub → Bytes → Members
members h channel = elim (lookup channel h.channels) [ some subs ↦ subs | none ↦ [] ]

abbrev pub has_member : ℕ → Members → Bool
has_member s subs = elim (lookup s subs) [ some _ ↦ true | none ↦ false ]

-- `Subscribe`
unfoldable pub subscribe : Hub → ℕ → Bytes → Hub
subscribe h s channel = if length channel == 0 then h else record h {
  channels = insert channel (insert s tt (members h channel)) h.channels;
  subscribers = insert s tt h.subscribers;
}

-- `remaining`
unfoldable pub listens_somewhere : ℕ → Map Bytes Members → Bool
listens_somewhere s [] = false
listens_somewhere s ((_, subs) ∷ rest) = has_member s subs || listens_somewhere s rest

abbrev pub drop_member : Hub → ℕ → Bytes → Members → Hub
drop_member h s channel subs =
    let channels' =
      if length (remove s subs) == 0
      then remove channel h.channels
      else insert channel (remove s subs) h.channels in
    record h {
      channels = channels';
      subscribers = if listens_somewhere s channels' then h.subscribers else remove s h.subscribers;
    }

-- `unsubscribeLocked`, which `Unsubscribe` calls.
unfoldable pub unsubscribe : Hub → ℕ → Bytes → Hub
unfolding listens_somewhere
unsubscribe h s channel = elim (lookup channel h.channels) [
  | none ↦ h
  | some subs ↦ drop_member h s channel subs
]

-- The range of `UnsubscribeAll`, over the channels there are at its start.
unfoldable pub unsubscribe_range : Hub → ℕ → Map Bytes Members → Hub
unfolding unsubscribe
unsubscribe_range h s [] = h
unsubscribe_range h s ((channel, _) ∷ rest) = unsubscribe_range (unsubscribe h s channel) s rest

-- `UnsubscribeAll`
unfoldable pub unsubscribe_all : Hub → ℕ → Hub
unfolding unsubscribe_range
unsubscribe_all h s =
    let h' = unsubscribe_range h s h.channels in record h' { subscribers = remove s h'.subscribers }

-- The number that `assignLSN` swaps in for `current`.
unfoldable pub next_lsn : ℕ → ℕ → ℕ
next_lsn current lsn = let next = (current + 1) % 2 ^ 64 in if ltb next lsn then lsn else next

-- `assignLSN`, where no other call comes between its load and its swap: the swap succeeds.
abbrev pub assign_lsn : Hub → ℕ → Hub × ℕ
assign_lsn h lsn = let next = next_lsn h.last_lsn lsn in (record h { last_lsn = next }, next)

abbrev pub write_subscriber : (ℕ → Subscriber) → ℕ → Subscriber → ℕ → Subscriber
write_subscriber heap s x r = if r == s then x else heap r

-- The send of `Publish` to one target: into its queue, or its overflow is marked.
unfoldable pub deliver : Hub → Notification → ℕ → Hub
deliver h n s =
    let sub = h.heap s in
    if ltb (length sub.queue) sub.queue_size
    then record h {
      heap = write_subscriber h.heap s (record sub { queue = sub.queue ++ n ∷ [] });
      published = (h.published + 1) % 2 ^ 64;
    }
    else record h {
      heap = write_subscriber h.heap s (record sub { overflow = true });
      dropped = (h.dropped + 1) % 2 ^ 64;
    }

-- The loop over the targets: the hub behind it, and `overflowed`.
unfoldable pub deliver_all : Hub → Notification → Members → Hub × List ℕ
unfolding deliver
deliver_all h n [] = (h, [])
deliver_all h n ((s, _) ∷ targets) =
    let (h', overflowed) = deliver_all (deliver h n s) n targets in
    (
      h',
      (if ltb (length (h.heap s).queue) (h.heap s).queue_size then overflowed else s ∷ overflowed),
    )

unfoldable pub unsubscribe_each : Hub → List ℕ → Hub
unfolding unsubscribe_all
unsubscribe_each h [] = h
unsubscribe_each h (s ∷ rest) = unsubscribe_each (unsubscribe_all h s) rest

abbrev pub remove_overflowed : Hub × List ℕ → Hub
remove_overflowed (h, overflowed) = unsubscribe_each h overflowed

-- `Publish`, run with no other operation in between.
unfoldable pub publish : Hub → Notification → Hub
unfolding next_lsn deliver_all unsubscribe_each
publish h n =
    let (h', lsn) = assign_lsn h n.lsn in
    if length n.channel == 0
    then h
    else remove_overflowed (deliver_all h' (record n { lsn = lsn }) (members h' n.channel))
