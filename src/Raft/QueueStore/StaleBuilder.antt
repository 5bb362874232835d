-- ===== src/Raft/QueueStore/StaleBuilder.antt =====
-- A builder keeps the last applied id of the moment it was made but reads the live state: entries
-- applied in between are in the snapshot's data and not in its log id.
use blun_mq.Base.{
  ℕ, ◌+◌, ◌%◌, ◌≡◌, sym, ◌∙◌, ap, [], ◌∷◌, ◌++◌, append_assoc, Text, Bytes, ok, ==-refl, text_eq,
  arith,
}
use blun_mq.Base.HashMap.{NodupKeys}
use blun_mq.Base.Cells.{Cells, write_self}
use blun_mq.Raft.Openraft.{Openraft, Entry, normal, Snapshot}
use blun_mq.Raft.Serde.{Serde, IsFaithful}
use blun_mq.Raft.Types.{QueueRequest, publish, u64_mod}
use blun_mq.Raft.Queue.{Message, QueueState}
use blun_mq.Raft.Queue
use blun_mq.Raft.Queue.View.{Channel, view, step, apply-refines-step}
use blun_mq.Raft.Queue.Same.{SameState}
use blun_mq.Raft.Queue.Fifo.{pending}
use blun_mq.Raft.Queue.Depths.{apply-NodupKeys}
use blun_mq.Raft.Store.{Store, apply, get_snapshot_builder, build_snapshot, install_snapshot}
use blun_mq.Raft.Store.CatchUp.{build_snapshot-ok, install_snapshot-ok}
use blun_mq.Raft.QueueStore.{queue_machine, SnapshotPayload, load}
use blun_mq.Raft.QueueStore.Laws.{SamePayload, load-dump}

pub view-SameState : (s t : QueueState) (queue : Text) → SameState s t → view s queue ≡ view t queue
unfolding view
view-SameState s t queue h = ground (arith, h.queues queue, h.next_offset queue)

-- A publish on its own queue's channel.
abbrev published : Bytes → Channel → Channel
published payload c = record {
  pending = c.pending ++ (c.next, payload) ∷ [];
  next = (c.next + 1) % u64_mod;
}

view-publish_self :
    (s : QueueState) (queue : Text) (payload : Bytes)
    → view (Queue.apply s (publish queue payload)).0 queue ≡ published payload (view s queue)
unfolding step
view-publish_self s queue payload =
    (apply-refines-step s (publish queue payload)).0 queue ∙ rw (==-refl queue)

module _ (o : Openraft) where
  abbrev pub publish_entry : o.LogId → Text → Bytes → Entry o QueueRequest
  publish_entry log_id queue payload = record {
    log_id = log_id;
    payload = normal (publish queue payload);
  }

  module _ (c : Cells QueueState) (st : Store o) (log_id : o.LogId) (queue : Text)
      (payload : Bytes) where
    state-publish :
        (apply o queue_machine c st (publish_entry log_id queue payload ∷ [])).1 st.state
        ≡ (Queue.apply (c st.state) (publish queue payload)).0
    unfolding apply
    state-publish = write_self st.state (Queue.apply (c st.state) (publish queue payload)).0 c

    view-publish_entry :
        view
          ((apply o queue_machine c st (publish_entry log_id queue payload ∷ [])).1 st.state)
          queue
        ≡ published payload (view (c st.state) queue)
    view-publish_entry =
        ap (λ s. view s queue) state-publish ∙ view-publish_self (c st.state) queue payload

    publish_entry-NodupKeys :
        NodupKeys (c st.state).queues
        → NodupKeys
            ((apply o queue_machine c st (publish_entry log_id queue payload ∷ [])).1
              st.state).queues
    publish_entry-NodupKeys v =
        rw state-publish (apply-NodupKeys (c st.state) (publish queue payload) v)

module _ {E : Type 0} (o : Openraft) (json : Serde E SnapshotPayload)
    (faithful : IsFaithful SamePayload json) where
  -- If a publish is applied between the making of a builder and its build, the snapshot carries the
  -- older log id, and a node that installs it and applies the entries after that id, as Raft tells
  -- it to, holds the message twice.
  pub stale_builder_doubles :
      (now : ℕ) (c : Cells QueueState) (st : Store o) (log_id : o.LogId) (queue : Text)
      (payload : Bytes) (snap : Snapshot o) (built : Store o) (c' : Cells QueueState)
      (st' : Store o)
      → NodupKeys (c st.state).queues
      → build_snapshot o queue_machine json now
          (apply o queue_machine c st (publish_entry o log_id queue payload ∷ [])).1
          (get_snapshot_builder o st)
        ≡ ok (snap, built)
      → let channel = view (c st.state) queue in
        (n : Cells QueueState × Store o) × (install_snapshot o queue_machine json c' st' snap.meta
            snap.snapshot
          ≡ ok n)
        × (n.1.last_applied ≡ st.last_applied)
        × (pending
              ((apply o queue_machine n.0 n.1 (publish_entry o log_id queue payload ∷ [])).1
                n.1.state)
              queue
            ≡ channel.pending
              ++ (channel.next, payload) ∷ ((channel.next + 1) % u64_mod, payload) ∷ [])
  unfolding get_snapshot_builder
  stale_builder_doubles now c st log_id queue payload snap built c' st' v h =
      let e = publish_entry o log_id queue payload in
      let c₁ = (apply o queue_machine c st (e ∷ [])).1 in
      let (encoded, applied, stored) =
        build_snapshot-ok o queue_machine json now c₁ (get_snapshot_builder o st) snap built h in
      let (p, decoded, like) = faithful.decode _ snap.snapshot encoded in
      let restored =
        load-dump (c₁ st.state) (c' st'.state) p
          (publish_entry-NodupKeys o c st log_id queue payload v) like in
      let channel = view (c st.state) queue in
      let after = published payload in
      (
        _,
        install_snapshot-ok o queue_machine json c' st' snap.meta snap.snapshot p decoded,
        applied,
        ap (λ (x : Channel). x.pending)
              (view-publish_entry o _ _ log_id queue payload
                ∙ ap after (
                    ap (λ s. view s queue) (write_self st'.state (load p (c' st'.state)) c')
                    ∙ sym (view-SameState (c₁ st.state) _ queue restored)
                    ∙ view-publish_entry o c st log_id queue payload))
            ∙ append_assoc channel.pending _ _,
      )
