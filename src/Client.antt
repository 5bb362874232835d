-- ===== src/Client.antt =====
-- src/Blun.Mq.Client/src/lib.rs: the client library, over the same tonic that the service uses.
pub mod Served
use blun_mq.Base.{
  ℕ, List, [], ◌∷◌, map, Option, none, some, Text, Bytes, Outcome, ok, err, panic, ◌>>=◌, map_err,
}
use blun_mq.Proto.{
  PublishRequest, PublishResponse, Kind, subscribe, ConsumeRequest, ConsumeResponse, Status,
}
use blun_mq.Raft.Queue.{Message}
use blun_mq.Host.Service.{Tonic}

pub data MqClientError (U : Type 0) : Type 0 where
  invalid_address : U → MqClientError U
  rpc : Status → MqClientError U
  channel_closed : MqClientError U

-- `item.ok().map(|r| (r.offset, r.payload))`
abbrev message_of : Outcome Status ConsumeResponse → Option Message
message_of (ok r) = some (r.offset, r.payload)
message_of (err status) = none
message_of panic = none

abbrev add : Option Message → List Message → List Message
add none ms = ms
add (some m) ms = m ∷ ms

-- The `filter_map` over the items of a stream.
unfoldable pub messages : List (Outcome Status ConsumeResponse) → List Message
messages [] = []
messages (item ∷ items) = add (message_of item) (messages items)

module _ {W : Type 0} (t : Tonic W) where
  pub record MqClient : Type 0 where
    pub inner : t.Channel

  abbrev pub Failure : Type 0
  Failure = MqClientError t.InvalidUri

  unfoldable pub connect : Text → Outcome Failure MqClient
  connect addr = do
    endpoint ← map_err invalid_address (t.from_shared addr)
    ok (record { inner = t.connect_lazy endpoint })

  offset_of : Outcome Status PublishResponse → Outcome Failure ℕ
  offset_of answer = do resp ← map_err rpc answer; ok resp.offset

  unfoldable pub publish : MqClient → Text → Bytes → W → Outcome Failure ℕ × W
  unfolding offset_of
  publish client queue payload w =
      let (answer, w') = t.publish client.inner (record { queue = queue; payload = payload }) w in
      (offset_of answer, w')

  -- The argument `items` is what comes out of a stream over time. The request's channel is new, so
  -- the send into it does not fail.
  unfoldable pub consume :
      (t.Inbound → List (Outcome Status ConsumeResponse))
      → MqClient
      → Text
      → W
      → Outcome Failure (List Message) × W
  unfolding messages
  consume items client queue w =
      let (answer, w') = t.consume client.inner (record { kind = some (subscribe queue) }) w in
      (map_err rpc answer >>= λ inbound. ok (messages (items inbound)), w')
