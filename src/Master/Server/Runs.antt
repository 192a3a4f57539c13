-- ===== src/Master/Server/Runs.antt =====
-- Concrete runs of the server, and its theorems at concrete inputs. Whole numbers stand for the
-- floating-point ones.
use cupidmq.Common.{
  ◌==◌, All, u64_mod, Bytes, ℕ, ◌+◌, ◌*◌, ◌/◌, ◌≤◌, ◌<◌, ◌≡◌, refl, Bool, true, List, [], ◌∷◌,
  arith,
}
use cupidmq.Protocol.Wire.{err, end_of_stream, read_exact_async}
use cupidmq.Protocol.Control.{ReadyRequest, ProducerHeartbeat, DeliveryReport}
use cupidmq.Master.Producers
use cupidmq.Master.Producers.Counters.{ready_in, busy_in}
use cupidmq.Master.Consumers.{Floats}
use cupidmq.Master.Consumers.Assignments.{IsIndexed}
use cupidmq.Master.Consumers.Reachable.{IsTag}
use cupidmq.Master.Matchmaker.{Relay, done}
use cupidmq.Master.Matchmaker.Matching.{try_match}
use cupidmq.Master.Matchmaker.Rounds.{Settled}
use cupidmq.Master.Matchmaker.Queued.{queued}
use cupidmq.Master.Server.{ProducerFrame, prdy, hbrp, delv, new}
use cupidmq.Master.Server.Frames.{read_producer_frame, IsFrame}
use cupidmq.Master.Server.Sessions.{World, handle_control}
use cupidmq.Master.Server.Streams.{stream, producer_session, handle_control-stream}
use cupidmq.Master.Server.Requests.{Written}
use cupidmq.Master.Server.Events.{
  producer_connects, producer_sends, consumer_connects, consumer_sends, step, Reaches, started,
  stepped,
}
use cupidmq.Master.Server.Reachable.{Reaches-Settled, Reaches-queue, Reaches-registries}
use cupidmq.Master.Server.Asked.{Reaches-asked_once}
use cupidmq.Master.Store
use cupidmq.Master.Matchmaker.Matching.{match_loop, round}
use cupidmq.Master.Matchmaker
use cupidmq.Master.Matchmaker.Events.{enqueue_consumer, enqueue}
use cupidmq.Master.Server.{connect_consumer, on_consumer_ready}
use cupidmq.Master.Consumers

abbrev keep : Bytes → Bytes
keep text = text

abbrev whole : Floats ℕ
whole = record {
  zero_f64 = 0;
  as_f64 = λ n. n;
  at_most_zero = λ n. n == 0;
  smooth = λ ema sample. (ema * 4 + sample) / 5;
}

abbrev name : ℕ → Bytes
name id = b'c' ∷ []

name-IsTag : (id : ℕ) → IsTag (name id)
name-IsTag id = omega arith

abbrev host : Bytes
host = b'h' ∷ b':' ∷ b'9' ∷ []

abbrev beat : ProducerHeartbeat
beat = record {
  pending_messages = 2;
  pending_bytes = 100;
  ring_messages = 3;
  ring_bytes = 500;
  drops_total = 0;
}

abbrev report : DeliveryReport
report = record { msg_count = 3; batch_bytes = 500 }

abbrev request : ReadyRequest
request = record { max_items = 32; consumer_tag = b'c' ∷ b'1' ∷ [] }

abbrev all_take : ℕ → Bytes → Bool
all_take id frame = true

abbrev world : World ℕ
world = record {
  floats = whole;
  from_utf8_lossy = keep;
  send = all_take;
  clock = λ n. n;
  closing = 99;
  others = λ n s. s;
  tag = name;
}

heartbeat-IsFrame : IsFrame keep (hbrp beat)
heartbeat-IsFrame = omega arith

-- A producer announces itself, reports a backlog and then a delivery, and goes away.
abbrev frames : List ProducerFrame
frames = hbrp beat ∷ delv report ∷ []

frames-IsFrame : All (IsFrame keep) (prdy ∷ frames)
frames-IsFrame = (tt, (heartbeat-IsFrame, ((omega arith, omega arith), tt)))

nothing_left : read_producer_frame keep [] ≡ err end_of_stream
unfolding read_producer_frame read_exact_async
nothing_left = refl

handle_control-stream_example :
    handle_control world host (stream (prdy ∷ frames) []) new
    ≡ producer_session world host (prdy ∷ frames) end_of_stream new
handle_control-stream_example =
    handle_control-stream world host prdy frames [] end_of_stream new frames-IsFrame nothing_left

abbrev written : Written
written = record {
  request = request;
  frame = b'C' ∷ b'R' ∷ b'D' ∷ b'Y' ∷ 32 ∷ 0 ∷ 2 ∷ 0 ∷ b'c' ∷ b'1' ∷ [];
}

abbrev register_frame : Bytes
register_frame = b'R' ∷ b'E' ∷ b'G' ∷ b'!' ∷ 3 ∷ 0 ∷ b'h' ∷ b':' ∷ b'9' ∷ []

-- A producer connects and reports a backlog; a consumer connects and asks for a batch, which the
-- producer is assigned to, and goes away.
abbrev s1 : Relay ℕ
s1 = step whole name (producer_connects host 1) new

abbrev s2 : Relay ℕ
s2 = step whole name (producer_sends all_take 2 1 (hbrp beat)) s1

abbrev s3 : Relay ℕ
s3 = step whole name (consumer_connects host host 3) s2

abbrev s4 : Relay ℕ
s4 = step whole name (consumer_sends all_take 4 1 host request) s3

room : (new {F = ℕ}).producers.next_id + 1 < u64_mod
unfolding new Producers.new
room = omega arith

s4-Reaches : Reaches whole name s4
s4-Reaches =
    stepped
      (stepped
        (stepped (stepped started (producer_connects host 1) room)
          (producer_sends all_take 2 1 (hbrp beat)) tt)
        (consumer_connects host host 3) (omega arith))
      (consumer_sends all_take 4 1 host request) (omega arith)

Reaches-Settled_example : Settled s4.matcher
Reaches-Settled_example = Reaches-Settled whole name name-IsTag s4-Reaches

Reaches-queue_example :
    ((id : ℕ) → queued id s4.matcher.waiting ≤ 1)
    × ((send : ℕ → Bytes → Bool) (now : ℕ) → (try_match send now s4).0 ≡ done)
Reaches-queue_example = Reaches-queue whole name name-IsTag s4-Reaches

Reaches-registries_example :
    (s4.producers.ready_count ≡ ready_in s4.producers.inner)
    × (s4.producers.busy_count ≡ busy_in s4.producers.inner)
    × IsIndexed s4.consumers
Reaches-registries_example = Reaches-registries whole name name-IsTag s4-Reaches

-- With no producer, a consumer that asked for a batch waits.
abbrev s5 : Relay ℕ
s5 = step whole name (consumer_connects host host 3) new

abbrev s6 : Relay ℕ
s6 = step whole name (consumer_sends all_take 4 1 host request) s5

s6-Reaches : Reaches whole name s6
s6-Reaches =
    stepped (stepped started (consumer_connects host host 3) (omega arith))
      (consumer_sends all_take 4 1 host request) (omega arith)

Reaches-asked_once_example : queued 1 s6.matcher.waiting ≡ 1
unfolding step new Consumers.new Matchmaker.new_matcher Producers.new connect_consumer
    Consumers.register Store.insert Store.remove on_consumer_ready enqueue_consumer enqueue
    Consumers.begin_cycle Store.alter Store.get Consumers.state_of try_match match_loop round
    Matchmaker.push_waiting Matchmaker.retain_others
Reaches-asked_once_example = Reaches-asked_once whole name name-IsTag 1 s6-Reaches refl
