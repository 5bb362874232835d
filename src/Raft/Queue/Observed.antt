-- ===== src/Raft/Queue/Observed.antt =====
-- What the answers to requests tell apart of the queues: what the channels of View hold, and nothing
-- else. The depths also tell a queue that is known and empty from one that is not known.
use blun_mq.Base.{◌≡◌, ◌↔◌, refl, sym, ◌∙◌, ap, ap₂, List, [], ◌∷◌, fun_ext, Text, text_eq}
use mathlib.Core.List.{head-eq_of_cons-eq, tail-eq_of_cons-eq}
use blun_mq.Raft.Types.{QueueRequest, publish, pop, QueueResponse}
use blun_mq.Raft.Queue.{Message, QueueState, apply, run}
use blun_mq.Raft.Queue.View.{Channel, view, step, apply-refines-step}
use blun_mq.Raft.Queue.Fifo.{pending}
use blun_mq.Raft.Queue.Pop.{pop-pending, pop-empty}

-- Whatever log of requests comes, the answers are the same.
pub AnswerAlike : QueueState → QueueState → Type 0
AnswerAlike s t = (rs : List QueueRequest) → (run s rs).1 ≡ (run t rs).1

abbrev pub SameView : QueueState → QueueState → Type 0
SameView s t = (queue : Text) → view s queue ≡ view t queue

apply-SameView :
    (s t : QueueState) (r : QueueRequest)
    → SameView s t
    → SameView (apply s r).0 (apply t r).0 × ((apply s r).1 ≡ (apply t r).1)
apply-SameView s t r h =
    let (views, answers) = apply-refines-step s r in
    let (views', answers') = apply-refines-step t r in
    let same : view s ≡ view t = fun_ext h in
    (
      λ queue. views queue ∙ ap (λ cs. (step cs r).0 queue) same ∙ sym (views' queue),
      answers ∙ ap (λ cs. (step cs r).1) same ∙ sym answers',
    )

run-SameView : (s t : QueueState) → SameView s t → AnswerAlike s t
unfolding run AnswerAlike
run-SameView s t h [] = refl
run-SameView s t h (r ∷ rs) =
    let (same, x) = apply-SameView s t r h in
    ap₂ ◌∷◌ x (run-SameView (apply s r).0 (apply t r).0 same rs)

module _ (s t : QueueState) (alike : AnswerAlike s t) where
  pub first_answer : (r : QueueRequest) → (apply s r).1 ≡ (apply t r).1
  unfolding AnswerAlike run
  first_answer r = head-eq_of_cons-eq (alike (r ∷ []))

  pub later_answers : (r : QueueRequest) → AnswerAlike (apply s r).0 (apply t r).0
  unfolding AnswerAlike run
  later_answers r rs = tail-eq_of_cons-eq (alike (r ∷ rs))

  same_next : (queue : Text) → (view s queue).next ≡ (view t queue).next
  unfolding apply view
  same_next queue =
      let offsets =
        ap (λ (x : QueueResponse). x.published_offset) (first_answer (publish queue [])) in
      cc

  same_popped : (queue : Text) → (apply s (pop queue)).1.popped ≡ (apply t (pop queue)).1.popped
  same_popped queue = ap (λ (x : QueueResponse). x.popped) (first_answer (pop queue))

-- Popped one after the other, the messages of the two are the same.
same_pending :
    (queue : Text) (ms ns : List Message) (s t : QueueState)
    → AnswerAlike s t
    → pending s queue ≡ ms
    → pending t queue ≡ ns
    → ms ≡ ns
same_pending queue [] [] s t alike h k = refl
same_pending queue [] (n ∷ ns) s t alike h k =
    let (none_there, _) = pop-empty queue s h in
    let (some_there, _) = pop-pending queue t n ns k in let same = same_popped s t alike queue in cc
same_pending queue (m ∷ ms) [] s t alike h k =
    let (some_there, _) = pop-pending queue s m ms h in
    let (none_there, _) = pop-empty queue t k in let same = same_popped s t alike queue in cc
same_pending queue (m ∷ ms) (n ∷ ns) s t alike h k =
    let (pops, rest) = pop-pending queue s m ms h in
    let (pops', rest') = pop-pending queue t n ns k in
    let same = same_popped s t alike queue in
    let first : m ≡ n = cc in
    ap₂ ◌∷◌ first (
      same_pending queue ms ns (apply s (pop queue)).0 (apply t (pop queue)).0
        (later_answers s t alike (pop queue)) rest rest')

-- Two states answer every log of requests alike exactly if their channels are the same: the same
-- messages wait in every queue, and the next offsets are the same.
pub alike-iff-SameView : (s t : QueueState) → AnswerAlike s t ↔ SameView s t
alike-iff-SameView s t = (
  λ alike queue.
      ap₂ (λ ms n. let c : Channel = record { pending = ms; next = n } in c)
        (same_pending queue (pending s queue) (pending t queue) s t alike refl refl)
        (same_next s t alike queue),
  run-SameView s t,
)
