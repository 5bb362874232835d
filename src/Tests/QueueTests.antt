-- ===== src/Tests/QueueTests.antt =====
-- The queues at a short log.
use blun_mq.Base.{◌≡◌, ◌↔◌, refl, List, [], ◌∷◌, ◌++◌, length, Text, text, text_eq, arith}
use blun_mq.Base.HashMap.{get, insert, collect}
use blun_mq.Raft.Types.{QueueRequest, publish, pop, QueueResponse}
use blun_mq.Raft.Queue.{QueueState, empty, depths, apply, run}
use blun_mq.Raft.Queue.View.{view, step, apply-refines-step}
use blun_mq.Raft.Queue.Observed.{AnswerAlike, SameView, alike-iff-SameView}
use blun_mq.Raft.Queue.Fifo.{delivered, payloads, number, pending, delivered-pending-eq-number}

abbrev spam : Text
spam = text "spam"

abbrev other : Text
other = text "other"

-- Two messages and one more for another queue, with three pops of which the last finds nothing.
abbrev log : List QueueRequest
log =
    publish spam (7 ∷ [])
    ∷ publish other (8 ∷ [])
    ∷ pop spam
    ∷ publish spam (9 ∷ [])
    ∷ pop spam
    ∷ pop spam
    ∷ publish spam (5 ∷ [])
    ∷ []

abbrev after : QueueState
after = (run empty log).0

abbrev responses : List QueueResponse
responses = (run empty log).1

delivered_test : delivered spam log responses ≡ (0, 7 ∷ []) ∷ (1, 9 ∷ []) ∷ []
unfolding run apply delivered get insert text_eq
delivered_test = refl

pending_test : pending after spam ≡ (2, 5 ∷ []) ∷ []
unfolding run apply view get insert text_eq
pending_test = refl

depths_test : depths after ≡ (spam, 1) ∷ (other, 1) ∷ []
unfolding run apply depths collect get insert text_eq
depths_test = refl

log_fits : length (payloads spam log) ≡ 3
unfolding payloads text_eq
log_fits = refl

delivered-pending-eq-number_example :
    delivered spam log responses ++ pending after spam ≡ number 0 (payloads spam log)
delivered-pending-eq-number_example = delivered-pending-eq-number spam log (omega (arith, log_fits))

apply-refines-step_example :
    ((queue : Text)
      → view (apply after (pop spam)).0 queue ≡ (step (view after) (pop spam)).0 queue)
    × ((apply after (pop spam)).1 ≡ (step (view after) (pop spam)).1)
apply-refines-step_example = apply-refines-step after (pop spam)

-- A queue that is known and empty, in another map.
abbrev known : QueueState
known = record { queues = (spam, []) ∷ []; next_offset = (spam, 0) ∷ [] }

alike-iff-SameView_example : AnswerAlike empty known ↔ SameView empty known
alike-iff-SameView_example = alike-iff-SameView empty known
