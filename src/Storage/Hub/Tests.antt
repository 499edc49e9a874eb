-- ===== src/Storage/Hub/Tests.antt =====
-- Runs of the hub, and the theorems about it at a concrete hub.
use pizzasql.Prelude.{true, false, [], ◌∷◌, ◌≡◌, refl}
use pizzasql.Prelude.Eq.{nat_eq}
use pizzasql.Prelude.Bytes.{Bytes, bytes, bytes_eq}
use pizzasql.Prelude.Map.{lookup, insert, remove}
use pizzasql.Storage.Hub.{
  Notification, Hub, new_hub, new_subscriber, subscribe, unsubscribe, listens_somewhere, next_lsn,
  deliver, deliver_all, unsubscribe_range, unsubscribe_all, unsubscribe_each, publish,
}
use pizzasql.Storage.Hub.Members.{listens, listens-subscribe, listens-unsubscribe}
use pizzasql.Storage.Hub.Overflow.{listens-unsubscribe_all, listens-publish}
use pizzasql.Storage.Hub.Delivery.{heap-publish, send}

-- Session 1 has room for one notification and session 2 for two.
abbrev empty_hub : Hub
empty_hub = new_hub (λ s. new_subscriber s s)

abbrev jobs : Bytes
jobs = bytes "jobs"

-- Both sessions listen to `jobs`.
abbrev hub : Hub
hub = record empty_hub {
  channels = (jobs, (1, tt) ∷ (2, tt) ∷ []) ∷ [];
  subscribers = (1, tt) ∷ (2, tt) ∷ [];
}

subscribed : subscribe (subscribe empty_hub 1 jobs) 2 jobs ≡ hub
unfolding subscribe insert lookup
subscribed = refl

abbrev note : Notification
note = record { pid = 7; channel = jobs; payload = bytes "go"; lsn = 40 }

-- The second notification drops session 1.
dropped_sender : (publish (publish hub note) note).channels ≡ (jobs, (2, tt) ∷ []) ∷ []
unfolding publish next_lsn deliver_all deliver new_subscriber unsubscribe_each unsubscribe_all
    unsubscribe_range unsubscribe listens_somewhere lookup insert remove
dropped_sender = refl

numbers : (publish (publish hub note) note).last_lsn ≡ 41
unfolding publish next_lsn deliver_all deliver new_subscriber unsubscribe_each unsubscribe_all
    unsubscribe_range unsubscribe listens_somewhere lookup insert remove
numbers = refl

-- The hub has given number 40 to the notification that both queues hold, if they have room.
abbrev published : Hub
published = publish hub note

heap-publish_example :
    (publish hub note).heap 2 ≡ send (record note { lsn = next_lsn 0 40 }) (new_subscriber 2 2)
unfolding lookup
heap-publish_example = heap-publish hub note 2 refl (refl, (refl, tt))

listens-subscribe_example : listens (subscribe hub 3 (bytes "news")) 3 (bytes "news") ≡ true
listens-subscribe_example = listens-subscribe hub 3 3 (bytes "news") (bytes "news") refl

listens-unsubscribe_example : listens (unsubscribe hub 1 jobs) 2 jobs ≡ true
unfolding lookup
listens-unsubscribe_example = listens-unsubscribe hub 1 2 jobs jobs

listens-unsubscribe_all_example : listens (unsubscribe_all hub 1) 1 jobs ≡ false
listens-unsubscribe_all_example = listens-unsubscribe_all hub 1 1 jobs

-- The queue of every session holds one notification, so that session 1 has no room.
abbrev crowded : Hub
crowded = record hub {
  heap = λ s. record { id = s; queue = note ∷ []; queue_size = s; overflow = false };
}

listens-publish_example : listens (publish crowded note) 1 jobs ≡ false
unfolding lookup
listens-publish_example = listens-publish crowded note 1 jobs refl (refl, (refl, tt))
