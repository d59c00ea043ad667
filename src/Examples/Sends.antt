-- ===== src/Examples/Sends.antt =====
-- What is sent, at concrete inputs.
use netrex_rak_net.Prelude.{◌++◌, none, if◌then◌else◌}
use netrex_rak_net.Prelude.Table.{get, contains_key}
use netrex_rak_net.Ack
use netrex_rak_net.Ack.{Ack, Record, single, range}
use netrex_rak_net.Ack.Codec.{IsAck}
use netrex_rak_net.OrderedQueue.Missing.{elem}
use netrex_rak_net.Acknowledge.{handle_nack, handle_ack}
use netrex_rak_net.Acknowledge.Mentioned.{mentioned}
use netrex_rak_net.Acknowledge.Resent.{datagrams, to, handle_nack_lem}
use netrex_rak_net.Acknowledge.Forgotten.{handle_ack_lem}
use netrex_rak_net.Prelude.{ℕ, Always, some, ◌≡◌, refl, false, List, [], ◌∷◌, arith, ok, Result}
use netrex_rak_net.Wire.Reference.{reference, reference-IsByteOrder}
use netrex_rak_net.Reliability.{reliable_ord}
use netrex_rak_net.Cache.{add}
use netrex_rak_net.FramePacket
use netrex_rak_net.Frame.Carrier.{wire}
use netrex_rak_net.Server
use netrex_rak_net.State
use netrex_rak_net.Motd
use netrex_rak_net.Queue.{empty as empty_queue}
use netrex_rak_net.Meta
use netrex_rak_net.Connection.{Connection}
use netrex_rak_net.Frame.{Frame, init}
use netrex_rak_net.Send.{send_framed, send_frames}
use netrex_rak_net.Send.Whole.{carrier}
use netrex_rak_net.Send.Delivered.{CountersFit, send_framed_delivers}
use netrex_rak_net.Send.Oversize.{SendsEmpty, send_frames_oversize}

-- A connection behind its handshake, whose datagrams may have 80 bytes.
abbrev pub client : Connection
client = record {
  address = "10.0.0.1:19132";
  state = State.connected;
  mtu = 80;
  recv_time = 500;
  start_time = 0;
  raknet_version = Server.v10;
  motd = Motd.new 1 "19132";
  server_guid = 1;
  queue = empty_queue;
  sent = [];
  event_dispatch = [];
  rakhandler = record Meta.new { send_seq = 6 };
  ensure_disconnect = false;
}

pub client-CountersFit : CountersFit client.rakhandler
unfolding Meta.new
client-CountersFit = record {
  message_fits = omega arith;
  order_fits = omega arith;
  sequence_fits = omega arith;
}

-- `fparse` where no error is met.
abbrev pub unwrapped : Result (List ℕ) → Result (List ℕ)
unwrapped r = r

abbrev greeting : List ℕ
greeting = 0xfe ∷ 1 ∷ 2 ∷ []

send_framed_delivers_example :
    (bytes : List ℕ) × (c' : Connection) × (send_framed reference unwrapped 600 client greeting
        reliable_ord
      ≡ ok c')
    × (c'.sent ≡ ("10.0.0.1:19132", bytes) ∷ [])
    × (FramePacket.compose reference bytes 0
        ≡ ok (record FramePacket.new {
          sequence = 7;
          frames = wire (carrier client.rakhandler greeting) ∷ [];
        }))
    × (c'.rakhandler.ack ≡ add client.rakhandler.ack 7 600 bytes)
    × (c'.rakhandler.send_seq ≡ 7)
send_framed_delivers_example =
    send_framed_delivers reference unwrapped 600 client greeting reference-IsByteOrder (λ bs. refl)
      client-CountersFit (omega arith) (omega arith) (omega arith)

abbrev speech : List ℕ
speech = 0xfe ∷ 1 ∷ 2 ∷ 3 ∷ 4 ∷ 5 ∷ 6 ∷ 7 ∷ 8 ∷ 9 ∷ 10 ∷ []

-- A fragment of 20 bytes, for datagrams of 80.
abbrev full : ℕ → Frame
full index = record init {
  body =
      1 ∷ 2 ∷ 3 ∷ 4 ∷ 5 ∷ 6 ∷ 7 ∷ 8 ∷ 9 ∷ 10 ∷ 11 ∷ 12 ∷ 13 ∷ 14 ∷ 15 ∷ 16 ∷ 17 ∷ 18 ∷ 19 ∷ 20 ∷ [];
  fragment_meta = some (record { size = 2; id = 0; index = index });
}

send_frames_oversize_example :
    Always
      (λ d. SendsEmpty reference unwrapped 600 client d)
      (send_frames reference unwrapped 600 client (full 0 ∷ full 1 ∷ []) reliable_ord)
send_frames_oversize_example =
    send_frames_oversize reference unwrapped 600 (λ m bs e. e) client (full 0 ∷ full 1 ∷ [])
      reliable_ord (omega arith, (omega arith, tt))

-- A client with two datagrams that wait for an ACK, and numbers in both sets.
abbrev waiting : Connection
waiting = record client {
  rakhandler = record Meta.new {
    ack = record { store = (4, (100, (1 ∷ 2 ∷ []) ∷ [])) ∷ (9, (110, (3 ∷ []) ∷ [])) ∷ [] };
    nack = (6, tt) ∷ (9, tt) ∷ [];
  };
}

abbrev records : List Record
records = single (record { sequence = 4 }) ∷ range (record { start = 9; end = 6 }) ∷ []

abbrev nacked : Ack
nacked = record { id = 0xa0; count = 2; records = records }

nacked-IsAck : IsAck nacked
nacked-IsAck = record {
  counted = refl;
  count_fits = omega arith;
  records_fit = (omega arith, ((omega arith, omega arith), tt));
}

abbrev acked : Ack
acked = record { id = 0xc0; count = 2; records = records }

acked-IsAck : IsAck acked
acked-IsAck = record {
  counted = refl;
  count_fits = omega arith;
  records_fit = (omega arith, ((omega arith, omega arith), tt));
}

handle_nack_example :
    let store = waiting.rakhandler.ack.store in
    let numbers = mentioned records in
    (bytes : List ℕ) × (c' : Connection) × (Ack.parse reference nacked ≡ ok bytes)
    × (handle_nack reference waiting (bytes ++ []) ≡ ok c')
    × (c'.sent ≡ to "10.0.0.1:19132" (datagrams numbers store))
    × ((j : ℕ) → get j c'.rakhandler.ack.store ≡ (if elem j numbers then none else get j store))
handle_nack_example =
    handle_nack_lem reference waiting nacked [] reference-IsByteOrder nacked-IsAck
      (refl, (refl, tt))

handle_ack_example :
    let nack = waiting.rakhandler.nack in
    let numbers = mentioned records in
    (bytes : List ℕ) × (c' : Connection) × (Ack.parse reference acked ≡ ok bytes)
    × (handle_ack reference waiting (bytes ++ []) ≡ ok c')
    × (c'
        ≡ record waiting { rakhandler = record (waiting.rakhandler) { nack = c'.rakhandler.nack } })
    × ((j : ℕ)
        → contains_key j c'.rakhandler.nack
          ≡ (if elem j numbers then false else contains_key j nack))
handle_ack_example =
    handle_ack_lem reference waiting acked [] reference-IsByteOrder acked-IsAck (refl, (refl, tt))

-- The datagram under the upper end of the range is not sent again.
sent_again :
    to "10.0.0.1:19132" (datagrams (mentioned records) waiting.rakhandler.ack.store)
    ≡ ("10.0.0.1:19132", 1 ∷ 2 ∷ []) ∷ []
unfolding Ack.fix Meta.new
sent_again = refl
