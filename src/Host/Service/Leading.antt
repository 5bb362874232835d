-- ===== src/Host/Service/Leading.antt =====
-- src/Blun.Mq.Host/src/grpc.rs on the node that leads the data group: what its calls rely on of openraft.
use blun_mq.Base.{◌≡◌, List, Text, ok}
use blun_mq.Raft.Types.{QueueRequest}
use blun_mq.Raft.Queue.{Message, apply}
use blun_mq.Raft.Queue.Fifo.{pending}
use blun_mq.Host.Service.{MqServiceImpl}

module _ {W : Type 0} (node : MqServiceImpl W) where
  -- A write on the leader is committed and applied to the node's state machine, whose response it
  -- answers.
  pub record IsLeading : Type 0 where
    pub answers :
        (req : QueueRequest) (w : W)
        → (node.raft.client_write req w).0 ≡ ok (apply (node.locked_state w) req).1
    pub applies :
        (req : QueueRequest) (w : W)
        → node.locked_state (node.raft.client_write req w).1 ≡ (apply (node.locked_state w) req).0

  -- The messages in the queue.
  abbrev pub waiting : Text → W → List Message
  waiting queue w = pending (node.locked_state w) queue
