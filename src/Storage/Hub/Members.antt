-- ===== src/Storage/Hub/Members.antt =====
-- pkg/storage/notify.go: who listens where, after `Subscribe` and `Unsubscribe`.
use pizzasql.Prelude.{
  ℕ, Bool, true, false, ◌&&◌, none, some, [], ◌∷◌, ◌≡◌, refl, arith, ◌==◌, if◌then◌else◌, length,
  Option-cases, Bool-cases, inl, inr,
}
use pizzasql.Prelude.Eq.{nat_eq}
use pizzasql.Prelude.Bytes.{Bytes, bytes_eq, bytes_equal, bytes_equal_iff}
use pizzasql.Prelude.Map.{lookup, insert, remove, lookup-insert, lookup-remove}
use pizzasql.Storage.Hub.{Hub, Members, members, has_member, subscribe, unsubscribe, drop_member}

-- Whether the subscriber listens to the channel.
abbrev pub listens : Hub → ℕ → Bytes → Bool
listens h s channel = has_member s (members h channel)

no_members : (subs : Members) (s : ℕ) → length subs ≡ 0 → lookup s subs ≡ none
unfolding lookup
no_members [] s h = refl
no_members (_ ∷ _) s h = absurd (omega (arith, h))

-- After `Subscribe` to a channel with a name the subscriber listens to it, and who listens to what
-- else is as before.
pub listens-subscribe :
    (h : Hub) (s p : ℕ) (channel c : Bytes)
    → (length channel == 0) ≡ false
    → listens (subscribe h s channel) p c
      ≡ (if s == p && bytes_equal channel c then true else listens h p c)
unfolding subscribe
listens-subscribe h s p channel c named = ground (
  arith,
  named,
  lookup-insert channel c (insert s tt (members h channel)) h.channels,
  lookup-insert s p tt (members h channel),
  bytes_equal_iff channel c,
)

listens-drop_member :
    (h : Hub) (s p : ℕ) (channel c : Bytes) (subs : Members)
    → lookup channel h.channels ≡ some subs
    → listens (drop_member h s channel subs) p c
      ≡ (if s == p && bytes_equal channel c then false else listens h p c)
listens-drop_member h s p channel c subs e = elim (Bool-cases (length (remove s subs) == 0)) [
  | inl none_left ↦ rw none_left (
      ground (
        arith,
        e,
        lookup-remove channel c h.channels,
        lookup-remove s p subs,
        no_members (remove s subs) p,
        no_members [] p refl,
        bytes_equal_iff channel c,
      ))
  | inr some_left ↦ rw some_left (
      ground (
        arith,
        e,
        lookup-insert channel c (remove s subs) h.channels,
        lookup-remove s p subs,
        bytes_equal_iff channel c,
      ))
]

-- After `Unsubscribe` the subscriber does not listen to the channel, and who listens to what else
-- is as before.
pub listens-unsubscribe :
    (h : Hub) (s p : ℕ) (channel c : Bytes)
    → listens (unsubscribe h s channel) p c
      ≡ (if s == p && bytes_equal channel c then false else listens h p c)
unfolding unsubscribe
listens-unsubscribe h s p channel c = elim (Option-cases (lookup channel h.channels)) [
  | inr e ↦ rw (unsubscribe, e) (ground (arith, e, no_members [] p refl, bytes_equal_iff channel c))
  | inl (subs, e) ↦ rw (unsubscribe, e) (listens-drop_member h s p channel c subs e)
]
