-- ===== src/Bus.antt =====
-- src/bus/kafka.rs: what is sent downstream.
use xorc_gateway.Base.{Option, some, none, List, [], ◌∷◌, ◌++◌, Text, text, map_option}
use xorc_gateway.Context.{Context}
use xorc_gateway.Error.{GatewayError, service_unavailable}
use xorc_gateway.Results.{Result, ok, err}

-- `FutureRecord`, with the fields that the source sets.
pub record Message : Type 0 where
  pub topic : Text
  pub payload : Text
  pub key : Option Text

-- The two delivery reports of `FutureProducer`, `Ok((partition, offset))` and `Err((error, message))`.
pub data Delivery : Type 0 where
  stored undelivered : Delivery

-- A message that the producer took, with the report on it.
pub record Report : Type 0 where
  pub message : Message
  pub delivery : Delivery

-- The producer of `rdkafka`: what its future comes to for a message, after those that it has reported
-- on. `none` is the outer error, `Canceled`; otherwise the future succeeds, with the report, which says
-- of a message that was not delivered that it was not.
pub record Producer : Type 0 where
  pub send : List Report → Message → Option Delivery

-- `Kafka::routing_key`
unfoldable pub routing_key : Context → Option Text
routing_key c = map_option (λ id. c.app_id ++ (text "|" ++ id.cleartext.value)) c.device_id

-- `Kafka::publish`, after the reports on earlier messages. `Ok(_)` is matched by both reports.
unfoldable pub publish :
    Producer → Text → Text → Context → List Report → Result GatewayError (Unit {0}) × List Report
unfolding routing_key
publish producer topic payload c sent =
    let message : Message = record { topic = topic; payload = payload; key = routing_key c } in
    elim (producer.send sent message) [
      | some delivery ↦ (ok tt, sent ++ record { message = message; delivery = delivery } ∷ [])
      | none ↦ (err (service_unavailable (text "Could not send to kafka")), sent)
    ]
