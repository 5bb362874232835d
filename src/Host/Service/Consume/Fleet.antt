-- ===== src/Host/Service/Consume/Fleet.antt =====
-- src/Blun.Mq.Host/src/grpc.rs, `consume` on the leader: the workers of one stream, a publisher and the
-- stream's receiver, whose steps come in any order.
use blun_mq.Base.{
  Outcome, ok, ◌>>=◌, sum, ap, ◌∙◌, length, ◌<◌, ◌⊎◌, false, ℕ, zero, suc, ◌+◌, true, List, [], ◌∷◌,
  ◌++◌, map, Option, none, some, Text, Bytes, text_eq, ◌≡◌, refl,
}
use blun_mq.Proto.{ConsumeRequest, ConsumeResponse, Status}
use blun_mq.Raft.Types.{publish, pop}
use blun_mq.Raft.Queue.{Message, apply}
use blun_mq.Raft.Queue.Fifo.{pending, published_by, to_list}
use blun_mq.Raft.Queue.Pop.{pop-pending, pop-empty}
use blun_mq.Host.Service.{MqServiceImpl}
use blun_mq.Host.Service.Leading.{IsLeading, waiting}
use blun_mq.Host.Service.Consume.{
  subscribed, capacity, opening, pop_concurrency, sent, Fetched, fetched, popped, failed, panicked,
  Outbound, Turn, slept, continued, stopped, Host, fetch, hand_over,
}

-- A worker waits for its Pop's answer next, holds a message that it sends next, or has ended, with the
-- message that it could not send.
pub data Worker : Type 0 where
  idle : Worker
  holding : Message → Worker
  ended : Option Message → Worker

abbrev pub after_fetch : Fetched → Worker
after_fetch (popped none) = idle
after_fetch (popped (some m)) = holding m
after_fetch failed = idle
after_fetch panicked = ended none

abbrev pub after_turn : Message → Turn → Worker
after_turn m (slept ms) = idle
after_turn m continued = idle
after_turn m stopped = ended (some m)

abbrev pub carried_by : Worker → List Message
carried_by idle = []
carried_by (holding m) = m ∷ []
carried_by (ended m) = to_list m

abbrev pub carried : List Worker → List Message
carried [] = []
carried (worker ∷ workers) = carried_by worker ++ carried workers

abbrev pub as_messages : List ConsumeResponse → List Message
as_messages = map (λ r. (r.offset, r.payload))

-- A send goes on when there is room in the channel, and fails at once when the receiver is gone.
abbrev pub Admits : Outbound → Type 0
Admits out = (out.disconnected ≡ true) ⊎ (length out.buffered < capacity)

module _ {W : Type 0} (node : MqServiceImpl W) (queue : Text) where
  pub record Fleet : Type 0 where
    pub host : Host node
    pub workers : List Worker
    pub out : Outbound

  -- One step, with the messages that the queue accepts in it: a worker's Pop, a worker's send, a
  -- publish by anyone, an answer that is taken for the client, or the stream's end.
  pub data Step : List Message → Fleet → Fleet → Type 0 where
    fetches :
        (s : Host node) (before after : List Worker) (out : Outbound)
        → Step []
            (record { host = s; workers = before ++ idle ∷ after; out = out })
            (record {
              host = (fetch node queue s).1;
              workers = before ++ after_fetch (fetch node queue s).0 ∷ after;
              out = out;
            })
    sends :
        (s : Host node) (before : List Worker) (m : Message) (after : List Worker) (out : Outbound)
        → Admits out
        → Step []
            (record { host = s; workers = before ++ holding m ∷ after; out = out })
            (record {
              host = s;
              workers = before ++ after_turn m (hand_over (popped (some m)) out).0 ∷ after;
              out = (hand_over (popped (some m)) out).1;
            })
    publishes :
        (s : Host node) (workers : List Worker) (out : Outbound) (name : Text) (payload : Bytes)
        → Step
            (published_by queue
              (publish name payload)
              (apply (node.locked_state s.world) (publish name payload)).1)
            (record { host = s; workers = workers; out = out })
            (record {
              host = record s { world = (node.raft.client_write (publish name payload) s.world).1 };
              workers = workers;
              out = out;
            })
    takes :
        (s : Host node) (workers : List Worker) (r : ConsumeResponse)
        (rest taken : List ConsumeResponse)
        → Step []
            (record {
              host = s;
              workers = workers;
              out = record { buffered = r ∷ rest; taken = taken; disconnected = false };
            })
            (record {
              host = s;
              workers = workers;
              out = record { buffered = rest; taken = taken ++ r ∷ []; disconnected = false };
            })
    disconnects :
        (s : Host node) (workers : List Worker) (out : Outbound)
        → Step []
            (record { host = s; workers = workers; out = out })
            (record { host = s; workers = workers; out = record out { disconnected = true } })

  pub data Steps : List Message → Fleet → Fleet → Type 0 where
    done : (a : Fleet) → Steps [] a a
    next :
        {ms ns : List Message} {a b c : Fleet} → Step ms a b → Steps ns b c → Steps (ms ++ ns) a c

  -- The messages in the queue, with a worker, or on the stream.
  abbrev pub total : (Message → ℕ) → Fleet → ℕ
  total f a =
      sum f (waiting node queue a.host.world)
      + sum f (carried a.workers)
      + sum f (as_messages (sent a.out))

abbrev pub replicate : ℕ → List Worker
replicate zero = []
replicate (suc n) = idle ∷ replicate n

-- The stream that `consume` has just opened.
abbrev pub start :
    {W : Type 0} (node : MqServiceImpl W) (queue : Text) → Host node → Fleet node queue
start node queue s = record { host = s; workers = replicate pop_concurrency; out = opening }

-- The handler: the queue of the first message, and the stream that it opens for it.
unfoldable pub consume :
    {W : Type 0} (node : MqServiceImpl W)
    → Option (Outcome Status ConsumeRequest)
    → Host node
    → Outcome Status ((queue : Text) × Fleet node queue)
unfolding subscribed
consume node first s = do queue ← subscribed first; ok (queue, start node queue s)

-- On the leader a Pop gets what the state machine answers.
pub fetch-IsLeading :
    {W : Type 0} (node : MqServiceImpl W) (queue : Text) (s : Host node)
    → IsLeading node
    → ((fetch node queue s).0 ≡ popped (apply (node.locked_state s.world) (pop queue)).1.popped)
      × (node.locked_state (fetch node queue s).1.world
          ≡ (apply (node.locked_state s.world) (pop queue)).0)
unfolding fetch fetched
fetch-IsLeading node queue s leads =
    rw (leads.answers (pop queue) s.world) (refl, leads.applies (pop queue) s.world)

-- What a worker on the leader gets, by what waits in the queue.
module _ {W : Type 0} (node : MqServiceImpl W) (leads : IsLeading node) (queue : Text)
    (s : Host node) where
  pub fetch-waiting :
      (m : Message) (rest : List Message)
      → waiting node queue s.world ≡ m ∷ rest
      → ((fetch node queue s).0 ≡ popped (some m))
        × (waiting node queue (fetch node queue s).1.world ≡ rest)
  fetch-waiting m rest h =
      let (answer, leaves) = pop-pending queue (node.locked_state s.world) m rest h in
      let (gets, state) = fetch-IsLeading node queue s leads in
      (gets ∙ ap (λ o. popped o) answer, ap (λ w. pending w queue) state ∙ leaves)

  pub fetch-empty :
      waiting node queue s.world ≡ []
      → ((fetch node queue s).0 ≡ popped none)
        × (waiting node queue (fetch node queue s).1.world ≡ [])
  fetch-empty h =
      let (answer, leaves) = pop-empty queue (node.locked_state s.world) h in
      let (gets, state) = fetch-IsLeading node queue s leads in
      (gets ∙ ap (λ o. popped o) answer, ap (λ w. pending w queue) state ∙ leaves)
