-- ===== src/Tests/DemoTests.antt =====
-- The producer and the consumer on a cluster of one leader.
use blun_mq.Base.{
  ℕ, ◌≡◌, ◌+◌, ◌/◌, ◌%◌, List, Outcome, ok, Bytes, sum, length, Every, refl, [], ◌∷◌, text, text_eq,
  nat_eq, arith,
}
use blun_mq.Raft.Queue.{QueueState, empty}
use blun_mq.Client.{MqClient}
use blun_mq.Client
use blun_mq.Client.{Failure}
use blun_mq.Proto.{ConsumeResponse, Status}
use blun_mq.Raft.Queue.{Message}
use blun_mq.Raft.Queue.Fifo.{pending}
use blun_mq.Host.Service.{handle_publish}
use blun_mq.Demo.Throughput.{log}
use blun_mq.Demo.Consumer
use blun_mq.Demo.Consumer.{Consumer, receiving, open_stream, after_open, receive, opens, receives}
use blun_mq.Demo.Consumer.Counts.{Counts, consumer-Counts}
use blun_mq.Bench
use blun_mq.Bench.{
  payload, range, bench, publishing, spawned, after_connect, after_publish, connects, publishes,
}
use blun_mq.Bench.Published.{IsRunning, remaining, bench-Published}
use blun_mq.Demo.Producer
use blun_mq.Demo.Producer.{
  logs, settle, starting, ticking, acquiring, Producer, finish, ticks, acquires, finishes, Steps,
  done, next,
}
use blun_mq.Demo.Producer.Counts.{Accounts, producer-Accounts}
use blun_mq.Tests.Cluster.{wires, serve, node_1, node_1-IsLeading, spam}

abbrev client : MqClient (wires serve)
client = record { inner = text "a" }

abbrev ticked : Producer
ticked = record starting { stage = acquiring; counter = 1 }

abbrev flying : Producer
flying = record ticked { stage = ticking; in_flight = 1 ∷ [] }

abbrev landed : Producer × QueueState
landed = finish (wires serve) client spam 2 1 [] flying empty

abbrev logged : Producer
logged = record landed.0 { throughput = log landed.0.sent landed.0.throughput }

steps : Producer.Steps (wires serve) client spam 2 (starting, empty) (logged, landed.1)
steps = next (ticks starting empty refl) (
    next (acquires ticked empty refl (omega arith)) (
      next (finishes flying empty [] 1 [] refl)
        (next (logs landed.0 landed.1) (done (logged, landed.1)))))

producer-Accounts_example : Accounts node_1 spam 2 empty logged landed.1
producer-Accounts_example =
    producer-Accounts node_1 node_1-IsLeading (wires serve) [] client (λ r w. refl) spam 2 empty
      steps

-- Each stream yields one message.
abbrev items : ℕ → List (Outcome Status ConsumeResponse)
items inbound = ok (record { offset = 0; payload = 7 ∷ [] }) ∷ []

abbrev opened : Outcome (Failure (wires serve)) (List Message) × QueueState
opened = open_stream (wires serve) items (text "a") spam empty

abbrev one : Consumer
one = record (Consumer.starting 1) { workers = receiving ((0, 7 ∷ []) ∷ []) ∷ [] }

the_stream_opens :
    Consumer.Step
      (wires serve)
      items
      (text "a")
      spam
      ((0, 7 ∷ []) ∷ [])
      (Consumer.starting 1, empty)
      (one, empty)
unfolding open_stream after_open Client.connect Client.consume
the_stream_opens = opens (Consumer.starting 1) empty [] [] refl

abbrev counted : Consumer
counted = receive one (receiving [] ∷ [])

consumed :
    Consumer.Steps
      (wires serve)
      items
      (text "a")
      spam
      ((0, 7 ∷ []) ∷ [])
      (Consumer.starting 1, empty)
      (counted, empty)
consumed =
    Consumer.next the_stream_opens (
      Consumer.next (receives one empty [] (0, 7 ∷ []) [] [] refl) (Consumer.done (counted, empty)))

consumer-Counts_example : Counts 1 1 counted
consumer-Counts_example = consumer-Counts (wires serve) items (text "a") spam 1 empty consumed

-- A probe of one message.
connection : Client.connect (wires serve) (text "a") ≡ ok client
unfolding Client.connect
connection = refl

abbrev published : QueueState
published = (Client.publish (wires serve) client spam (payload 0 0) empty).1

abbrev finished : List (Bench.Task (wires serve))
finished = publishing client 0 [] ∷ []

probed :
    Bench.Steps
      (wires serve)
      (text "a")
      spam
      (1 / 1)
      (spawned (wires serve) (range 0 1), empty)
      (finished, published)
unfolding after_connect after_publish Client.connect Client.publish handle_publish
probed =
    Bench.next (connects [] 0 [] empty)
      (Bench.next (publishes [] client 0 0 [] [] empty) (Bench.done (finished, published)))

bench-Published_example :
    (messages : List (ℕ × ℕ)) × (sent : ℕ) × (bench 1 1 ≡ ok (messages, sent))
    × (length messages ≡ sent)
    × (sent + 1 % 1 ≡ 1)
    × Every (IsRunning (wires serve) (1 / 1) client) finished
    × (Every (λ x. remaining (wires serve) (1 / 1) x ≡ []) finished
        → (g : Bytes → ℕ)
        → sum (λ (m : Message). g m.1) (pending published spam)
          ≡ sum (λ (m : Message). g m.1) (pending empty spam)
            + sum (λ (k : ℕ × ℕ). g (payload k.0 k.1)) messages)
bench-Published_example =
    bench-Published node_1 node_1-IsLeading (wires serve) [] client (λ r w. refl) (text "a") spam
      connection 1 1 empty finished published (omega arith) probed
