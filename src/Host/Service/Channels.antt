-- ===== src/Host/Service/Channels.antt =====
-- src/Blun.Mq.Host/src/grpc.rs, `channel_for`: the cache of channels to the peers.
use blun_mq.Base.{
  ℕ, ◌≡◌, ◌∙◌, sym, refl, ap, Bool, true, false, Option, none, some, Text, nat_eq, Outcome, ok, err,
  panic, ◌==◌, if◌then◌else◌, eq_of_==, ◌⊎◌, inl, inr, Option-cases,
}
use blun_mq.Base.BTreeMap
use blun_mq.Base.BTreeMap.{BTreeMap}
use blun_mq.Base.HashMap.{HashMap, get, insert}
use blun_mq.Base.HashMap.Laws.{get-insert}
use blun_mq.Proto.{internal, Status}
use blun_mq.Host.Service.{Tonic, Shared, channel_for, cached, opened}

chosen :
    {C : Type 0} {x y : C} (b : Bool) (found : Option C)
    → (if b then some x else found) ≡ some y
    → ((b ≡ true) × (x ≡ y)) ⊎ ((b ≡ false) × (found ≡ some y))
chosen true found p = inl (refl, cc)
chosen false found p = inr (refl, p)

module _ {W : Type 0} (t : Tonic W) where
  -- A new channel to an address, or the status that an invalid address gets.
  abbrev pub connected : Outcome t.InvalidUri t.Endpoint → Outcome Status t.Channel
  connected (ok endpoint) = ok (t.connect_lazy endpoint)
  connected (err e) = err (record { code = internal; message = t.display e })
  connected panic = panic

  module _ (peers : BTreeMap Text) where
    -- Each cached channel is one to its peer's address.
    abbrev pub IsCache : HashMap ℕ t.Channel → Type 0
    IsCache channels =
        (id : ℕ) (ch : t.Channel)
        → get id channels ≡ some ch
        → (addr : Text) × (BTreeMap.get id peers ≡ some addr)
          × (connected (t.from_shared addr) ≡ ok ch)

    insert-IsCache :
        (id : ℕ) (addr : Text) (ch : t.Channel) (channels : HashMap ℕ t.Channel)
        → BTreeMap.get id peers ≡ some addr
        → connected (t.from_shared addr) ≡ ok ch
        → IsCache channels
        → IsCache (insert id ch channels)
    insert-IsCache id addr ch channels here good cache j dh found =
        elim (chosen (id == j) _ (sym (get-insert id j ch channels) ∙ found)) [
          | inl (e, p) ↦ let same = eq_of_== id j e in (addr, cc, cc)
          | inr (e, p) ↦ cache j dh p
        ]

    module _ (id : ℕ) (addr : Text) (here : BTreeMap.get id peers ≡ some addr) where
      opened-connected :
          (s : Shared t.Channel W) (result : Outcome t.InvalidUri t.Endpoint)
          → t.from_shared addr ≡ result
          → IsCache s.forward_channels
          → ((opened t id result s).0 ≡ connected (t.from_shared addr))
            × IsCache (opened t id result s).1.forward_channels
      unfolding opened
      opened-connected s (ok endpoint) e cache = (
        ap connected (sym e),
        insert-IsCache id addr (t.connect_lazy endpoint) s.forward_channels here (ap connected e)
            cache,
      )
      opened-connected s (err x) e cache = (ap connected (sym e), cache)
      opened-connected s panic e cache = (ap connected (sym e), cache)

      cached-connected :
          (s : Shared t.Channel W) (hit : Option t.Channel)
          → get id s.forward_channels ≡ hit
          → IsCache s.forward_channels
          → ((cached t id addr hit s).0 ≡ connected (t.from_shared addr))
            × IsCache (cached t id addr hit s).1.forward_channels
      unfolding cached
      cached-connected s none e cache = opened-connected s (t.from_shared addr) refl cache
      cached-connected s (some ch) e cache = let (addr', here', good) = cache id ch e in (cc, cache)

    -- While each cached channel is one to its peer's address in MQ_PEERS, the channel for a peer is
    -- the one that a new connection to the peer's address would be, or the same refusal, and the
    -- cache keeps that property.
    pub channel_for-connected :
        (id : ℕ) (addr : Text) (s : Shared t.Channel W)
        → BTreeMap.get id peers ≡ some addr
        → IsCache s.forward_channels
        → ((channel_for t id addr s).0 ≡ connected (t.from_shared addr))
          × IsCache (channel_for t id addr s).1.forward_channels
    unfolding channel_for
    channel_for-connected id addr s here cache =
        cached-connected id addr here s (get id s.forward_channels) refl cache

  opened-world :
      (id : ℕ) (s : Shared t.Channel W) (result : Outcome t.InvalidUri t.Endpoint)
      → (opened t id result s).1.world ≡ s.world
  unfolding opened
  opened-world id s (ok endpoint) = refl
  opened-world id s (err x) = refl
  opened-world id s panic = refl

  pub channel_for-world :
      (id : ℕ) (addr : Text) (s : Shared t.Channel W) → (channel_for t id addr s).1.world ≡ s.world
  unfolding channel_for cached
  channel_for-world id addr s = elim (Option-cases (get id s.forward_channels)) [
    | inl e ↦ rw e (opened-world id s (t.from_shared addr))
    | inr (ch, e) ↦ rw e
  ]
