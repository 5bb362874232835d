-- ===== src/Host/Service/Consume/Relayed.antt =====
-- src/Blun.Mq.Host/src/grpc.rs, `pop_via_forward`: what becomes of the messages when the caller takes
-- one from the leader's stream and drops the stream.
use blun_mq.Base.{
  inl, inr, arith, ◌≡◌, refl, subst, Bool, true, false, List, [], ◌∷◌, ◌++◌, some, Text, text_eq,
}
use blun_mq.Proto.{ConsumeResponse}
use blun_mq.Raft.Queue.{Message}
use blun_mq.Host.Service.{MqServiceImpl}
use blun_mq.Host.Service.Leading.{IsLeading, waiting}
use blun_mq.Host.Service.Consume.{opening, Fetched, Outbound, Host, fetch, send, hand_over}
use blun_mq.Host.Service.Consume.Fleet.{
  Worker, idle, holding, ended, after_fetch, as_messages, Fleet, Step, fetches, sends, disconnects,
  Steps, done, next, fetch-waiting, replicate, start, takes,
}

module _ {W : Type 0} (node : MqServiceImpl W) (leads : IsLeading node) (queue : Text) where
  abbrev fleet : Host node → List Worker → Outbound → Fleet node queue
  fleet s workers out = record { host = s; workers = workers; out = out }

  fetch-Step :
      (s : Host node) (before after : List Worker) (out : Outbound) (m : Message)
      (rest : List Message)
      → waiting node queue s.world ≡ m ∷ rest
      → (t : Host node) × Step node queue []
          (fleet s (before ++ idle ∷ after) out)
          (fleet t (before ++ holding m ∷ after) out)
        × (waiting node queue t.world ≡ rest)
  fetch-Step s before after out m rest h =
      let (gets, leaves) = fetch-waiting node leads queue s m rest h in
      (
        (fetch node queue s).1,
        subst
            (λ (got : Fetched).
              Step node queue [] (fleet s (before ++ idle ∷ after) out)
                (fleet (fetch node queue s).1 (before ++ after_fetch got ∷ after) out))
            gets (fetches s before after out),
        leaves,
      )

  abbrev response : Message → ConsumeResponse
  response m = record { offset = m.0; payload = m.1 }

  abbrev one_sent : Message → Outbound
  one_sent m = record { buffered = response m ∷ []; taken = []; disconnected = false }

  abbrev one_taken : Message → Bool → Outbound
  one_taken m gone = record { buffered = []; taken = response m ∷ []; disconnected = gone }

  -- If a queue of a node that leads has two messages or more, there is an order of the steps of a
  -- stream in which the first is taken for the caller, who drops the stream, the second is with a worker
  -- that has ended, and only the rest is still in the queue: the second message reaches nobody.
  pub dropped_stream_loses :
      (s : Host node) (m n : Message) (rest : List Message)
      → waiting node queue s.world ≡ m ∷ n ∷ rest
      → (a : Fleet node queue) × Steps node queue [] (start node queue s) a
        × (as_messages a.out.taken ≡ m ∷ [])
        × (a.workers ≡ idle ∷ ended (some n) ∷ replicate 30)
        × (waiting node queue a.host.world ≡ rest)
  unfolding hand_over send
  dropped_stream_loses s m n rest h =
      let (t, first, left) = fetch-Step s [] (replicate 31) opening m (n ∷ rest) h in
      let (u, second, remains) = fetch-Step t (holding m ∷ []) (replicate 30) opening n rest left in
      (
        fleet u (idle ∷ ended (some n) ∷ replicate 30) (one_taken m true),
        next first (
            next second (
              next (sends u [] m (holding n ∷ replicate 30) opening (inr (omega arith))) (
                next (takes u (idle ∷ holding n ∷ replicate 30) (response m) [] []) (
                  next (disconnects u (idle ∷ holding n ∷ replicate 30) (one_taken m false)) (
                    next (sends u (idle ∷ []) n (replicate 30) (one_taken m true) (inl refl))
                      (done _)))))),
        refl,
        refl,
        remains,
      )
