-- ===== src/Master/Server/Events.antt =====
-- master/src/server.rs: the steps that the tasks of the master take on its state, and the states that it
-- reaches by them, in any order and with any sockets.
use cupidmq.Common.{Bytes, ℕ, Bool}
use cupidmq.Protocol.Control.{ReadyRequest}
use cupidmq.Master.Producers.Reachable.{registers, Room}
use cupidmq.Master.Consumers.{Floats}
use cupidmq.Master.Consumers.Reachable.{IsTag, IsDataAddr}
use cupidmq.Master.Matchmaker.{Relay}
use cupidmq.Master.Matchmaker.Events.{on_producer_disconnect}
use cupidmq.Master.Server.{
  ProducerFrame, new, process_producer_frame, connect_producer, connect_consumer, on_consumer_ready,
  disconnect_consumer, match_tick,
}

pub data Event : Type 0 where
  producer_connects : Bytes → ℕ → Event
  producer_sends : (ℕ → Bytes → Bool) → ℕ → ℕ → ProducerFrame → Event
  producer_leaves : (ℕ → Bytes → Bool) → ℕ → ℕ → Event
  consumer_connects : Bytes → Bytes → ℕ → Event
  consumer_sends : (ℕ → Bytes → Bool) → ℕ → ℕ → Bytes → ReadyRequest → Event
  consumer_leaves : (ℕ → Bytes → Bool) → ℕ → ℕ → Event
  ticks : (ℕ → Bytes → Bool) → ℕ → Event

module _ {F : Type 0} where
  unfoldable pub step : Floats F → (ℕ → Bytes) → Event → Relay F → Relay F
  step fl tag (producer_connects addr now) s = (connect_producer addr now s).1
  step fl tag (producer_sends send now id frame) s =
      (process_producer_frame fl send now id frame s).1
  step fl tag (producer_leaves send now id) s = on_producer_disconnect send now id s
  step fl tag (consumer_connects addr data_addr now) s =
      (connect_consumer fl tag addr data_addr now s).1
  step fl tag (consumer_sends send now id data_addr request) s =
      on_consumer_ready fl send now id data_addr request s
  step fl tag (consumer_leaves send now id) s = disconnect_consumer send now id s
  step fl tag (ticks send now) s = match_tick send now s

  -- There is an id left for a producer that connects, and the texts of a consumer fit an ASGN.
  abbrev pub Allowed : Event → Relay F → Type 0
  Allowed (producer_connects addr now) s = Room (registers addr now) s.producers
  Allowed (consumer_connects addr data_addr now) s = IsDataAddr data_addr
  Allowed (consumer_sends send now id data_addr request) s =
      IsDataAddr data_addr × IsTag request.consumer_tag
  Allowed _ s = Unit

  -- The states that the master reaches.
  pub data Reaches (fl : Floats F) (tag : ℕ → Bytes) : Relay F → Type 0 where
    started : Reaches fl tag new
    stepped :
        {s : Relay F}
        → Reaches fl tag s
        → (ev : Event) → Allowed ev s
        → Reaches fl tag (step fl tag ev s)
