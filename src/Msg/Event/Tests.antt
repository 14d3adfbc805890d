-- ===== src/Msg/Event/Tests.antt =====
-- A word of an event.
use bztsrc_osz.Prelude.{◌≡◌, arith}
use bztsrc_osz.Msg.Event.{parts_of}
use bztsrc_osz.Msg.Event.Parts.{EventOf, EventOf-unique}

EventOf-unique_example :
    (x : EventOf 0x12345c007) × ((x.0 ≡ parts_of 0x12345c007) × ((y : EventOf 0x12345c007) → x ≡ y))
EventOf-unique_example = EventOf-unique 0x12345c007 (omega arith)
