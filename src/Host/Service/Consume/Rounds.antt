-- ===== src/Host/Service/Consume/Rounds.antt =====
-- src/Blun.Mq.Host/src/grpc.rs, `consume` on the leader: the loop of one worker, where what it sends is
-- taken.
use blun_mq.Base.{ℕ, zero, suc, ◌≡◌, refl, false, List, [], Text}
use blun_mq.Proto.{ConsumeResponse}
use blun_mq.Raft.Queue.{Message}
use blun_mq.Host.Service.{MqServiceImpl}
use blun_mq.Host.Service.Leading.{IsLeading, waiting}
use blun_mq.Host.Service.Consume.{Outbound, slept, Host, hand_over, turn, sent}
use blun_mq.Host.Service.Consume.Fleet.{fetch-empty}

abbrev pub take_all : Outbound → Outbound
take_all out = record out { buffered = []; taken = sent out }

abbrev pub response : Message → ConsumeResponse
response m = record { offset = m.0; payload = m.1 }

-- The channel of a stream that is there, with everything taken.
abbrev pub attentive : List ConsumeResponse → Outbound
attentive taken = record { buffered = []; taken = taken; disconnected = false }

module _ {W : Type 0} (node : MqServiceImpl W) (queue : Text) where
  -- A turn of the worker, after which the answer is taken.
  unfoldable pub round : Host node × Outbound → Host node × Outbound
  unfolding turn
  round (s, out) = let (end, (s', out')) = turn node queue (s, out) in (s', take_all out')

  unfoldable pub rounds : ℕ → Host node × Outbound → Host node × Outbound
  unfolding round
  rounds zero x = x
  rounds (suc n) x = rounds n (round x)

  module _ (leads : IsLeading node) where
    -- A worker that finds the queue empty sends nothing and sleeps.
    pub turn-empty :
        (s : Host node) (out : Outbound)
        → waiting node queue s.world ≡ []
        → ((turn node queue (s, out)).0 ≡ slept 150)
          × ((turn node queue (s, out)).1.1 ≡ out)
          × (waiting node queue (turn node queue (s, out)).1.0.world ≡ [])
    unfolding turn hand_over
    turn-empty s out h =
        let (gets, leaves) = fetch-empty node leads queue s h in rw gets (refl, refl, leaves)
