-- ===== src/Tests/ServiceTests.antt =====
-- Publishing in a cluster of a leader and a follower.
use blun_mq.Base.{◌≡◌, refl, [], some, text, text_eq, nat_eq}
use blun_mq.Base.BTreeMap
use blun_mq.Base.BTreeMap.{BTreeMap}
use blun_mq.Base.HashMap
use blun_mq.Raft.Queue.{empty}
use blun_mq.Host.Service.{handle_publish}
use blun_mq.Client.{MqClient}
use blun_mq.Host.Service.Channels.{IsCache}
use blun_mq.Host.Service.Routes.{handle_publish-forwarded}
use blun_mq.Tests.Cluster.{peers, wires, serve, node_2, request, fresh}

empty-IsCache : IsCache (wires serve) peers []
unfolding HashMap.get
empty-IsCache id ch found = cc

here : BTreeMap.get 1 peers ≡ some (text "a")
unfolding BTreeMap.get nat_eq
here = refl

handle_publish-forwarded_example :
    ((handle_publish node_2 request fresh).0 ≡ (serve request empty).0)
    × ((handle_publish node_2 request fresh).1.world ≡ (serve request empty).1)
    × IsCache (wires serve) peers (handle_publish node_2 request fresh).1.forward_channels
handle_publish-forwarded_example =
    handle_publish-forwarded node_2 1 (text "a") (text "a") here refl serve (λ r w. refl) request
      fresh empty empty-IsCache refl

abbrev client : MqClient (wires serve)
client = record { inner = text "a" }
