-- ===== src/Host/Service/Consume/Drains.antt =====
-- src/Blun.Mq.Host/src/grpc.rs, `consume` on the leader: a stream whose client is there can always go on
-- until everything is delivered.
use blun_mq.Base.{
  ℕ, ◌+◌, ◌≡◌, ◌∙◌, refl, sym, ap, subst, inr, true, false, List, [], ◌∷◌, ◌++◌, map, append_assoc,
  append-nil, length, sum, Text, arith,
}
use blun_mq.Proto.{ConsumeResponse}
use blun_mq.Raft.Queue.{Message}
use blun_mq.Host.Service.{MqServiceImpl}
use blun_mq.Host.Service.Leading.{IsLeading, waiting}
use blun_mq.Host.Service.Consume.{pop_concurrency, Outbound, Host, fetch, send, hand_over, sent}
use blun_mq.Host.Service.Consume.Rounds.{attentive, response}
use blun_mq.Host.Service.Consume.Fleet.{
  Worker, idle, holding, ended, after_fetch, carried, as_messages, Fleet, fetches, sends, takes,
  Steps, done, next, start, fetch-waiting,
}
use blun_mq.Host.Service.Consume.Connected.{all_live, connected-all_live}
use blun_mq.Host.Service.Consume.Bounds.{length-workers}
use blun_mq.Host.Service.Consume.Delivery.{consume_conserves}

module _ {W : Type 0} (node : MqServiceImpl W) (queue : Text) where
  Steps-append :
      {ms ns : List Message} {a b c : Fleet node queue}
      → Steps node queue ms a b
      → Steps node queue ns b c
      → Steps node queue (ms ++ ns) a c
  Steps-append (done a) more = more
  Steps-append {ns = ns} {c = c} (next {ms = ks} {ns = ls} {a = a} step steps) more =
      subst (λ l. Steps node queue l a c) (sym (append_assoc ks ls ns))
        (next step (Steps-append steps more))

  abbrev fleet : Host node → List Worker → Outbound → Fleet node queue
  fleet s workers out = record { host = s; workers = workers; out = out }

  -- What stands in the channel is taken.
  takes_all :
      (s : Host node) (workers : List Worker) (buffered taken : List ConsumeResponse)
      → Steps node queue []
          (fleet s workers (record { buffered = buffered; taken = taken; disconnected = false }))
          (fleet s workers (attentive (taken ++ buffered)))
  takes_all s workers [] taken =
      subst
        (λ r.
          Steps node queue [] (fleet s workers (attentive taken)) (fleet s workers (attentive r)))
        (sym (append-nil taken)) (done _)
  takes_all s workers (r ∷ rest) taken = next (takes s workers r rest taken) (
      subst
        (λ l.
          Steps node queue []
            (fleet s workers
              (record { buffered = rest; taken = taken ++ r ∷ []; disconnected = false }))
            (fleet s workers (attentive l)))
        (append_assoc taken (r ∷ []) rest) (takes_all s workers rest (taken ++ r ∷ [])))

  takes_channel :
      (s : Host node) (workers : List Worker) (out : Outbound)
      → out.disconnected ≡ false
      → Steps node queue [] (fleet s workers out) (fleet s workers (attentive (sent out)))
  takes_channel s workers out connected =
      subst
        (λ d.
          Steps node queue []
            (fleet s workers
              (record { buffered = out.buffered; taken = out.taken; disconnected = d }))
            (fleet s workers (attentive (sent out))))
        (sym connected) (takes_all s workers out.buffered out.taken)

  -- A worker that has a message sends it, and it is taken.
  delivers :
      (s : Host node) (before : List Worker) (m : Message) (after : List Worker)
      (taken : List ConsumeResponse)
      → Steps node queue []
          (fleet s (before ++ holding m ∷ after) (attentive taken))
          (fleet s (before ++ idle ∷ after) (attentive (taken ++ response m ∷ [])))
  unfolding hand_over send
  delivers s before m after taken =
      next (sends s before m after (attentive taken) (inr (omega arith)))
        (next (takes s (before ++ idle ∷ after) (response m) [] taken) (done _))

  -- As many workers, all of them waiting.
  abbrev at_rest : List Worker → List Worker
  at_rest = map (λ worker. idle)

  carried-at_rest : (workers : List Worker) → carried (at_rest workers) ≡ []
  carried-at_rest [] = refl
  carried-at_rest (worker ∷ workers) = carried-at_rest workers

  -- The same steps, with one worker more in front of the others.
  regroup :
      {s t : Host node} (before : List Worker) (w v : Worker) (ws vs : List Worker) {o p : Outbound}
      → Steps node queue []
          (fleet s ((before ++ w ∷ []) ++ ws) o)
          (fleet t ((before ++ v ∷ []) ++ vs) p)
      → Steps node queue [] (fleet s (before ++ w ∷ ws) o) (fleet t (before ++ v ∷ vs) p)
  regroup {s = s} {t = t} before w v ws vs {o = o} {p = p} steps =
      subst (λ l. Steps node queue [] (fleet s l o) (fleet t (before ++ v ∷ vs) p))
        (append_assoc before (w ∷ []) ws)
        (subst (λ l. Steps node queue [] (fleet s ((before ++ w ∷ []) ++ ws) o) (fleet t l p))
          (append_assoc before (v ∷ []) vs) steps)

  -- The workers of a stream send what they have.
  rests :
      (s : Host node) (before workers : List Worker) (taken : List ConsumeResponse)
      → all_live workers ≡ true
      → (taken' : List ConsumeResponse) × Steps node queue []
          (fleet s (before ++ workers) (attentive taken))
          (fleet s (before ++ at_rest workers) (attentive taken'))
  rests s before [] taken live = (taken, done _)
  rests s before (idle ∷ workers) taken live =
      let (taken', steps) = rests s (before ++ idle ∷ []) workers taken live in
      (taken', regroup before idle idle workers (at_rest workers) steps)
  rests s before (holding m ∷ workers) taken live =
      let (taken', steps) = rests s (before ++ idle ∷ []) workers (taken ++ response m ∷ []) live in
      (
        taken',
        Steps-append (delivers s before m workers taken)
            (regroup before idle idle workers (at_rest workers) steps),
      )
  rests s before (ended m ∷ workers) taken live = cc

  module _ (leads : IsLeading node) where
    -- A worker that waits fetches the next message and sends it, and it is taken.
    delivers_next :
        (s : Host node) (others : List Worker) (taken : List ConsumeResponse) (m : Message)
        (rest : List Message)
        → waiting node queue s.world ≡ m ∷ rest
        → (t : Host node) × (waiting node queue t.world ≡ rest)
          × Steps node queue []
              (fleet s (idle ∷ others) (attentive taken))
              (fleet t (idle ∷ others) (attentive (taken ++ response m ∷ [])))
    delivers_next s others taken m rest h =
        let (gets, leaves) = fetch-waiting node leads queue s m rest h in
        let t = (fetch node queue s).1 in
        (
          t,
          leaves,
          next (fetches s [] others (attentive taken)) (
              subst
                (λ w.
                  Steps node queue [] (fleet t (after_fetch w ∷ others) (attentive taken))
                    (fleet t (idle ∷ others) (attentive (taken ++ response m ∷ []))))
                (sym gets) (delivers t [] m others taken)),
        )

    empties :
        (ms : List Message) (s : Host node) (others : List Worker) (taken : List ConsumeResponse)
        → waiting node queue s.world ≡ ms
        → (t : Host node) × (taken' : List ConsumeResponse) × (waiting node queue t.world ≡ [])
          × Steps node queue []
              (fleet s (idle ∷ others) (attentive taken))
              (fleet t (idle ∷ others) (attentive taken'))
    empties [] s others taken h = (s, taken, h, done _)
    empties (m ∷ ms) s others taken h =
        let (t, leaves, steps) = delivers_next s others taken m ms h in
        let (end, taken', empty, more) = empties ms t others (taken ++ response m ∷ []) leaves in
        (end, taken', empty, Steps-append steps more)

    finishes :
        (s : Host node) (workers : List Worker) (taken : List ConsumeResponse)
        → length workers ≡ pop_concurrency
        → all_live workers ≡ true
        → (t : Host node) × (taken' : List ConsumeResponse) × (waiting node queue t.world ≡ [])
          × Steps node queue []
              (fleet s workers (attentive taken))
              (fleet t (at_rest workers) (attentive taken'))
    finishes s [] taken full live = cc
    finishes s (worker ∷ workers) taken full live =
        let (sent', steps) = rests s [] (worker ∷ workers) taken live in
        let (t, taken', empty, more) =
          empties (waiting node queue s.world) s (at_rest workers) sent' refl in
        (t, taken', empty, Steps-append steps more)

    -- What was taken of a stream with nothing under way.
    drained_takes :
        (f : Message → ℕ) (s : Host node) {ms : List Message} (b : Fleet node queue)
        → Steps node queue ms (start node queue s) b
        → waiting node queue b.host.world ≡ []
        → carried b.workers ≡ []
        → b.out.buffered ≡ []
        → sum f (as_messages b.out.taken) ≡ sum f (waiting node queue s.world) + sum f ms
    drained_takes f s b steps empty none_carried none_buffered = omega (
      arith,
      consume_conserves node leads queue f s steps,
      ap (λ l. sum f l) empty,
      ap (λ l. sum f l) none_carried,
      ap (λ l. sum f (as_messages (b.out.taken ++ l))) none_buffered,
      ap (λ l. sum f (as_messages l)) (append-nil b.out.taken),
    )

    -- On a node that leads, whatever the order of the steps, a stream that is connected can go
    -- on, with no publish in between, until the queue and the channel are empty and no worker has a
    -- message: all messages that were in the queue or were accepted since have then been taken out of
    -- the channel to be sent, each as often.
    pub stream_drains :
        (s : Host node) {ms : List Message} {a : Fleet node queue}
        → Steps node queue ms (start node queue s) a
        → a.out.disconnected ≡ false
        → (b : Fleet node queue) × Steps node queue [] a b
          × (waiting node queue b.host.world ≡ [])
          × (carried b.workers ≡ [])
          × (b.out.buffered ≡ [])
          × ((f : Message → ℕ)
              → sum f (as_messages b.out.taken) ≡ sum f (waiting node queue s.world) + sum f ms)
    stream_drains s {ms = ms} {a = a} steps connected =
        let live = connected-all_live node leads queue s steps connected in
        let full = length-workers node queue s steps in
        let (t, taken, empty, more) = finishes a.host a.workers (sent a.out) full live in
        let to_end = Steps-append (takes_channel a.host a.workers a.out connected) more in
        let b = fleet t (at_rest a.workers) (attentive taken) in
        (
          b,
          to_end,
          empty,
          carried-at_rest a.workers,
          refl,
          λ f.
              drained_takes f s b (Steps-append steps to_end) empty (carried-at_rest a.workers) refl
              ∙ ap (λ l. sum f (waiting node queue s.world) + sum f l) (append-nil ms),
        )
