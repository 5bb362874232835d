-- ===== src/Host/Service/Consume/Connected.antt =====
-- src/Blun.Mq.Host/src/grpc.rs, `consume` on the leader: the workers of a stream whose client is there.
use blun_mq.Base.{
  ℕ, zero, suc, ◌≡◌, ◌⊎◌, inl, inr, refl, Bool, true, false, ◌&&◌, List, [], ◌∷◌, ◌++◌, Option,
  none, some, Text, Bool-cases, arith,
}
use blun_mq.Raft.Types.{pop}
use blun_mq.Raft.Queue.{Message, apply}
use blun_mq.Host.Service.{MqServiceImpl}
use blun_mq.Host.Service.Leading.{IsLeading}
use blun_mq.Host.Service.Consume.{pop_concurrency, popped, Outbound, Host, fetch, send, hand_over}
use blun_mq.Host.Service.Consume.Fleet.{
  Worker, idle, holding, ended, after_fetch, after_turn, Fleet, Step, fetches, sends, publishes,
  disconnects, Steps, done, next, fetch-IsLeading, replicate, takes, start,
}

abbrev is_live : Worker → Bool
is_live idle = true
is_live (holding m) = true
is_live (ended m) = false

abbrev pub all_live : List Worker → Bool
all_live [] = true
all_live (worker ∷ workers) = is_live worker && all_live workers

replaced-live :
    (before : List Worker) (old new : Worker) (after : List Worker)
    → is_live new ≡ true
    → all_live (before ++ old ∷ after) ≡ true
    → all_live (before ++ new ∷ after) ≡ true
replaced-live [] old new after h k = ground (arith, h, k)
replaced-live (first ∷ before) old new after h k =
    let ih = replaced-live before old new after h in ground (arith, ih)

fetched-live : (m : Option Message) → is_live (after_fetch (popped m)) ≡ true
fetched-live none = refl
fetched-live (some m) = refl

idle-live : (n : ℕ) → all_live (replicate n) ≡ true
idle-live zero = refl
idle-live (suc n) = idle-live n

-- A send that leaves the client connected leaves the worker running.
sent-live :
    (m : Message) (out : Outbound)
    → (out.disconnected ≡ true)
      ⊎ (is_live (after_turn m (hand_over (popped (some m)) out).0) ≡ true)
unfolding hand_over send
sent-live m out = elim (Bool-cases out.disconnected) [ inl e ↦ inl e | inr e ↦ inr (rw e) ]

gone-stays :
    (m : Message) (out : Outbound)
    → out.disconnected ≡ true
    → (hand_over (popped (some m)) out).1.disconnected ≡ true
unfolding hand_over send
gone-stays m out e = rw e

module _ {W : Type 0} (node : MqServiceImpl W) (leads : IsLeading node) (queue : Text) where
  abbrev IsServed : Fleet node queue → Type 0
  IsServed a = (a.out.disconnected ≡ true) ⊎ (all_live a.workers ≡ true)

  fetch-live : (s : Host node) → is_live (after_fetch (fetch node queue s).0) ≡ true
  fetch-live s =
      rw (fetch-IsLeading node queue s leads).0
        (fetched-live (apply (node.locked_state s.world) (pop queue)).1.popped)

  Step-IsServed :
      {ms : List Message} {a b : Fleet node queue}
      → Step node queue ms a b
      → IsServed a
      → IsServed b
  Step-IsServed (fetches s before after out) (inl gone) = inl gone
  Step-IsServed (fetches s before after out) (inr live) =
      inr (replaced-live before idle _ after (fetch-live s) live)
  Step-IsServed (sends s before m after out room) (inl gone) = inl (gone-stays m out gone)
  Step-IsServed (sends s before m after out room) (inr live) = elim (sent-live m out) [
    | inl gone ↦ inl (gone-stays m out gone)
    | inr kept ↦ inr (replaced-live before (holding m) _ after kept live)
  ]
  Step-IsServed (publishes s workers out name payload) h = h
  Step-IsServed (takes s workers r rest taken) h = h
  Step-IsServed (disconnects s workers out) h = inl refl

  Steps-IsServed :
      {ms : List Message} {a b : Fleet node queue}
      → Steps node queue ms a b
      → IsServed a
      → IsServed b
  Steps-IsServed (done a) h = h
  Steps-IsServed (next step steps) h = Steps-IsServed steps (Step-IsServed step h)

  -- On a node that leads, whatever the order of the steps, as long as the client is connected
  -- every one of the stream's workers is running, so no message is with a worker that has ended.
  pub connected-all_live :
      (s : Host node) {ms : List Message} {a : Fleet node queue}
      → Steps node queue ms (start node queue s) a
      → a.out.disconnected ≡ false
      → all_live a.workers ≡ true
  connected-all_live s steps connected =
      elim (Steps-IsServed steps (inr (idle-live pop_concurrency))) [
        | inl gone ↦ cc
        | inr live ↦ live
      ]
