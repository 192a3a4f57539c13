-- ===== src/Master/Server/Requests.antt =====
-- The connection of a consumer, whose bytes are its REG! and its requests one after the other, does what
-- its requests do in their order.
use cupidmq.Common.{u16_mod, Bytes, ℕ, suc, ◌<◌, ◌≡◌, some, List, [], ◌∷◌, ◌++◌}
use cupidmq.Protocol.Wire.{Error, ok}
use cupidmq.Protocol.Control.{ReadyRequest, encode_consumer_ready}
use cupidmq.Protocol.Control.RoundTrip.{IsText}
use cupidmq.Master.Matchmaker.{Relay}
use cupidmq.Master.Server.{connect_consumer, on_consumer_ready, disconnect_consumer}
use cupidmq.Master.Server.Sessions.{World, Ended}

-- A request and the frame that `encode_consumer_ready` makes of it.
pub record Written : Type 0 where
  pub request : ReadyRequest
  pub frame : Bytes

pub record IsWritten (lossy : Bytes → Bytes) (w : Written) : Type 0 where
  pub max_items : w.request.max_items < u16_mod
  pub tag : IsText lossy w.request.consumer_tag
  pub made : encode_consumer_ready w.request.max_items w.request.consumer_tag ≡ ok w.frame

pub request_stream : List Written → Bytes → Bytes
request_stream [] tail = tail
request_stream (r ∷ requests) tail = r.frame ++ request_stream requests tail

module _ {F : Type 0} (w : World F) where
  pub handle_requests : ℕ → ℕ → Bytes → List Written → Error → Relay F → Ended F
  handle_requests id n data_addr [] e s = (some e, w.others n s)
  handle_requests id n data_addr (r ∷ requests) e s =
      handle_requests id (suc n) data_addr requests e
        (on_consumer_ready w.floats w.send (w.clock n) id data_addr r.request (w.others n s))

  pub consumer_session : Bytes → Bytes → List Written → Error → Relay F → Ended F
  consumer_session addr data_addr requests e s =
      let (id, registered) =
        connect_consumer w.floats w.tag addr data_addr (w.clock 0) (w.others 0 s) in
      let (reason, left) = handle_requests id 1 data_addr requests e registered in
      (reason, disconnect_consumer w.send w.closing id left)
