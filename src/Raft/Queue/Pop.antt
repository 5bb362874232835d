-- ===== src/Raft/Queue/Pop.antt =====
-- `QueueState::apply` at a Pop, by what waits in the queue.
use blun_mq.Base.{◌≡◌, ap, ◌∙◌, List, [], ◌∷◌, none, some, Text, text_eq, ==-refl}
use blun_mq.Raft.Types.{QueueResponse, pop}
use blun_mq.Raft.Queue.{Message, QueueState, apply}
use blun_mq.Raft.Queue.View.{Channel, step, apply-refines-step}
use blun_mq.Raft.Queue.Fifo.{pending}

module _ (queue : Text) (w : QueueState) where
  pub pop-pending :
      (m : Message) (rest : List Message)
      → pending w queue ≡ m ∷ rest
      → ((apply w (pop queue)).1.popped ≡ some m) × (pending (apply w (pop queue)).0 queue ≡ rest)
  unfolding step
  pop-pending m rest h =
      let (views, answers) = apply-refines-step w (pop queue) in
      (
        ap (λ (r : QueueResponse). r.popped) answers ∙ rw h,
        ap (λ (c : Channel). c.pending) (views queue) ∙ rw (==-refl queue, h),
      )

  pub pop-empty :
      pending w queue ≡ []
      → ((apply w (pop queue)).1.popped ≡ none) × (pending (apply w (pop queue)).0 queue ≡ [])
  unfolding step
  pop-empty h =
      let (views, answers) = apply-refines-step w (pop queue) in
      (
        ap (λ (r : QueueResponse). r.popped) answers ∙ rw h,
        ap (λ (c : Channel). c.pending) (views queue) ∙ rw (==-refl queue, h),
      )
