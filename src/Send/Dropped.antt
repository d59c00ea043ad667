-- ===== src/Send/Dropped.antt =====
-- A payload that `send_framed` neither splits nor fits in a datagram.
use netrex_rak_net.Prelude.{ℕ, ◌+◌, ◌%◌, ◌^◌, ◌<◌, List, Result}
use netrex_rak_net.Wire.{ByteOrder}
use netrex_rak_net.Cache.{add}
use netrex_rak_net.FramePacket
use netrex_rak_net.FramePacket.{FramePacket}
use netrex_rak_net.Meta.{RakConnHandlerMeta, index_at}
use netrex_rak_net.Connection.{Connection, send_immediate}
use netrex_rak_net.Send.Whole.{numbered}

-- The next two sequence numbers, and the indexes of channel 0, have 24 bits.
pub record TwoFit (m : RakConnHandlerMeta) : Type 0 where
  pub message_fits : index_at 0 m.message_index < 2 ^ 24
  pub order_fits : index_at 0 m.order_index < 2 ^ 24
  pub sequence_fits : m.send_seq + 2 < 2 ^ 24

module _ (b : ByteOrder) (fparse : Result (List ℕ) → Result (List ℕ)) (now : ℕ) where
  -- The connection behind the first of the two datagrams.
  after : Connection → List ℕ → Connection
  after c first =
      send_immediate
        (record c {
          rakhandler = record (numbered c.rakhandler) {
            ack = add c.rakhandler.ack ((c.rakhandler.send_seq + 1) % 2 ^ 32) now first;
          };
        })
        first
