-- ===== src/Host/Service/Consume.antt =====
-- src/Blun.Mq.Host/src/grpc.rs, `consume`: the first message of a stream, and the workers that feed the
-- stream of answers.
pub mod First
pub mod Fleet
pub mod Delivery
pub mod Connected
pub mod Relayed
pub mod Bounds
pub mod Rounds
pub mod Forwarded
pub mod Drains
use blun_mq.Base.{
  ℕ, ◌*◌, Bool, true, false, List, [], ◌∷◌, ◌++◌, Option, none, some, Text, text, Outcome, ok, err,
  panic, if◌then◌else◌,
}
use blun_mq.Base.BTreeMap
use blun_mq.Proto.{Kind, subscribe, ack, ConsumeRequest, ConsumeResponse, invalid_argument, Status}
use blun_mq.Raft.Types.{pop, QueueResponse}
use blun_mq.Raft.Queue.{Message}
use blun_mq.Host.Service.{
  WriteError, forward_to_leader, other, MqServiceImpl, Shared, pop_via_forward,
}

-- The argument is what `inbound.next()` yields; the result is the queue's name.
unfoldable pub subscribed : Option (Outcome Status ConsumeRequest) → Outcome Status Text
subscribed none =
    err (record { code = invalid_argument; message = text "expected Subscribe as first message" })
subscribed (some panic) = panic
subscribed (some (err status)) = err status
subscribed (some (ok first)) = elim first.kind [
  | some (subscribe queue) ↦ ok queue
  | _ ↦ err (record { code = invalid_argument; message = text "first message must be Subscribe" })
]

-- What a worker got from one Pop: an answer, a failure after which it tries again, or a panic.
pub data Fetched : Type 0 where
  popped : Option Message → Fetched
  failed : Fetched
  panicked : Fetched

abbrev pub pop_concurrency : ℕ
pop_concurrency = 32

-- The channel between the workers and the stream of answers: what stands in it, what the server has
-- taken out of it to send it to the client, and whether its receiver is gone. What tonic and the
-- network hold on the way from there is not looked at.
pub record Outbound : Type 0 where
  pub buffered : List ConsumeResponse
  pub taken : List ConsumeResponse
  pub disconnected : Bool

-- `tokio::sync::mpsc::channel(POP_CONCURRENCY * 4)`
abbrev pub capacity : ℕ
capacity = pop_concurrency * 4

abbrev pub opening : Outbound
opening = record { buffered = []; taken = []; disconnected = false }

-- Everything that was sent, in its order.
abbrev pub sent : Outbound → List ConsumeResponse
sent out = out.taken ++ out.buffered

-- How a turn of a worker's loop ends: with a sleep in milliseconds, at once, or with the worker's end.
pub data Turn : Type 0 where
  slept : ℕ → Turn
  continued : Turn
  stopped : Turn

abbrev pub Host : {W : Type 0} → MqServiceImpl W → Type 0
Host {W} node = Shared node.tonic.Channel W

module _ {W : Type 0} (node : MqServiceImpl W) (queue : Text) where
  -- A refusal of the leader counts as a failure.
  relayed : Outcome Status (Option Message) × Host node → Fetched × Host node
  relayed (ok message, s) = (popped message, s)
  relayed (err status, s) = (failed, s)
  relayed (panic, s) = (panicked, s)

  forwarded : ℕ → Option Text → Host node → Fetched × Host node
  unfolding relayed
  forwarded id none s = (failed, s)
  forwarded id (some addr) s = relayed (pop_via_forward node.tonic id addr queue s)

  pub fetched :
      Outcome (WriteError node.raft.RaftError) QueueResponse → Host node → Fetched × Host node
  unfolding forwarded BTreeMap.get
  fetched (ok resp) s = (popped resp.popped, s)
  fetched (err (forward_to_leader none)) s = (failed, s)
  fetched (err (forward_to_leader (some id))) s = forwarded id (BTreeMap.get id node.peers) s
  fetched (err (other e)) s = (failed, s)
  fetched panic s = (panicked, s)

  -- The first half of a turn: one Pop.
  unfoldable pub fetch : Host node → Fetched × Host node
  unfolding fetched
  fetch s =
      let (result, w) = node.raft.client_write (pop queue) s.world in
      fetched result (record s { world = w })

-- `tx.send(...).await`, which fails when the receiver is gone. It waits while the channel is full, so
-- it stands for the end of that wait.
unfoldable pub send : Message → Outbound → Bool × Outbound
send (offset, payload) out = if out.disconnected then (false, out) else (
  true,
  record out { buffered = out.buffered ++ record { offset = offset; payload = payload } ∷ [] },
)

-- The second half: the message goes into the channel.
unfoldable pub hand_over : Fetched → Outbound → Turn × Outbound
unfolding send
hand_over (popped (some message)) out =
    let (accepted, out') = send message out in ((if accepted then continued else stopped), out')
hand_over (popped none) out = (slept 150, out)
hand_over failed out = (slept 200, out)
hand_over panicked out = (stopped, out)

module _ {W : Type 0} (node : MqServiceImpl W) (queue : Text) where
  -- The body of a worker's loop.
  unfoldable pub turn : Host node × Outbound → Turn × (Host node × Outbound)
  unfolding fetch hand_over
  turn (s, out) =
      let (got, s') = fetch node queue s in let (end, out') = hand_over got out in (end, (s', out'))
