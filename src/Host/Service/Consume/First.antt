-- ===== src/Host/Service/Consume/First.antt =====
-- src/Blun.Mq.Host/src/grpc.rs, `consume`: which streams it accepts.
use blun_mq.Base.{◌≡◌, ◌↔◌, refl, ap, Option, none, some, Text, Outcome, ok, err, panic}
use blun_mq.Proto.{Kind, subscribe, ack, ConsumeRequest, Status}
use blun_mq.Host.Service.Consume.{subscribed}

subscribed-kind :
    (kind : Option Kind) (queue : Text)
    → subscribed (some (ok (record { kind = kind }))) ≡ ok queue
    → kind ≡ some (subscribe queue)
unfolding subscribed
subscribed-kind none queue h = cc
subscribed-kind (some (ack n)) queue h = cc
subscribed-kind (some (subscribe q)) queue h = cc

subscribed_first :
    (inbound : Option (Outcome Status ConsumeRequest)) (queue : Text)
    → subscribed inbound ≡ ok queue
    → inbound ≡ some (ok (record { kind = some (subscribe queue) }))
unfolding subscribed
subscribed_first none queue h = cc
subscribed_first (some panic) queue h = cc
subscribed_first (some (err status)) queue h = cc
subscribed_first (some (ok first)) queue h =
    ap (λ k. some (ok (record { kind = k }))) (subscribed-kind first.kind queue h)

-- A stream is accepted for a queue exactly if its first message is there, is no error and is a
-- Subscribe to that queue.
pub subscribed_lem :
    (inbound : Option (Outcome Status ConsumeRequest)) (queue : Text)
    → (subscribed inbound ≡ ok queue)
      ↔ (inbound ≡ some (ok (record { kind = some (subscribe queue) })))
unfolding subscribed
subscribed_lem inbound queue = (subscribed_first inbound queue, λ e. rw e refl)
