-- ===== src/Tick/Queued.antt =====
-- What a tick does with the packets of the queue: each goes out as the only fragment of its own datagram.
use netrex_rak_net.Prelude.{
  ℕ, suc, ◌+◌, ◌%◌, ◌^◌, ◌<◌, ◌≤◌, ◌≡◌, refl, sym, ◌∙◌, true, false, Bool, true, false,
  if◌then◌else◌, List, [], ◌∷◌, ◌++◌, length, Result, ok, if◌then◌else◌, arith, append_assoc,
  append-nil, All,
}
use netrex_rak_net.Wire.{ByteOrder, IsByteOrder}
use netrex_rak_net.Reliability.{reliable_ord}
use netrex_rak_net.State.{is_connected}
use netrex_rak_net.Queue
use netrex_rak_net.Frame.{partition}
use netrex_rak_net.Frame.Carrier.{wire, fragment_frame}
use netrex_rak_net.Frame.Partition.{labelled, partition_one}
use netrex_rak_net.FramePacket
use netrex_rak_net.FramePacket.Fields.{parse-header}
use netrex_rak_net.Meta.{
  index_at, next_seq, next_order_index, next_reliable_index, free_fragment_id,
}
use netrex_rak_net.Meta.Counters.{
  HasRoom, HasRoom-fewer, index_at-next_order_index, index_at-next_reliable_index,
}
use netrex_rak_net.Connection.{Connection, send_immediate}
use netrex_rak_net.Connection.Core.{core}
use netrex_rak_net.Acknowledge.Resent.{to}
use netrex_rak_net.Send.{send_frames, room}
use netrex_rak_net.Send.Delivered.{CountersFit}
use netrex_rak_net.Send.Single.{after_fragment, send_frames_written}
use netrex_rak_net.Tick.Idle.{IsRecent, IsRecent-now, AreRecent-add, IsIdle, tick-IsIdle}
use netrex_rak_net.Tick.{set_id, queue_loop, tick}

-- Bytes that are a datagram of one frame, which is the only fragment of the payload under the id, with an
-- order index from `start` on.
pub data CarriesFragment (b : ByteOrder) (start id : ℕ) (bytes payload : List ℕ) : Type 0 where
  fragment_carried :
      (rest : List ℕ) (q message order : ℕ)
      → bytes ≡ 0x80 ∷ rest
      → FramePacket.compose b bytes 0
        ≡ ok (record FramePacket.new {
          sequence = q;
          frames = wire (fragment_frame id message order payload) ∷ [];
        })
      → start ≤ order
      → CarriesFragment b start id bytes payload

-- Each datagram carries the payload in its place, under the ids from `id` on.
abbrev pub AllCarryFragments : ByteOrder → ℕ → ℕ → List (List ℕ) → List (List ℕ) → Type 0
AllCarryFragments b start id [] [] = Unit
AllCarryFragments b start id (bytes ∷ rest) (payload ∷ payloads) =
    CarriesFragment b start id bytes payload × AllCarryFragments b start (id + 1) rest payloads
AllCarryFragments b start id _ _ = ⊥

-- A payload that fits a datagram as its only fragment.
abbrev pub FitsOne : ℕ → List ℕ → Type 0
FitsOne mtu payload = (0 < length payload) × (length payload + 80 ≤ mtu) × (length payload < 8192)

-- The next tick's conditions after a fragment was sent.
after_fragment-HasRoom :
    (c : Connection) (now id n : ℕ) (bytes : List ℕ)
    → HasRoom (suc n) c.rakhandler
    → HasRoom n (after_fragment c now id bytes).rakhandler
unfolding send_immediate next_seq next_order_index next_reliable_index free_fragment_id
after_fragment-HasRoom c now id n bytes room = record {
  message_fits = omega (
    arith,
    room.message_fits,
    index_at-next_reliable_index c.rakhandler 0 (omega (arith, room.message_fits)),
  );
  order_fits = omega (
    arith,
    room.order_fits,
    index_at-next_order_index c.rakhandler 0 (omega (arith, room.order_fits)),
  );
  sequence_fits = omega (arith, room.sequence_fits);
}

after_fragment-IsIdle :
    (c : Connection) (now later id : ℕ) (bytes : List ℕ)
    → IsRecent later now
    → IsIdle later c.rakhandler
    → IsIdle later (after_fragment c now id bytes).rakhandler
unfolding send_immediate next_seq next_order_index next_reliable_index free_fragment_id
after_fragment-IsIdle c now later id bytes recent idle = record {
  nothing_missing = idle.nothing_missing;
  nothing_received = idle.nothing_received;
  nothing_overdue = AreRecent-add later _ now c.rakhandler.ack bytes idle.nothing_overdue recent;
}

pub CarriesFragment-later :
    (b : ByteOrder) (start later id : ℕ) (bytes payload : List ℕ)
    → start ≤ later
    → CarriesFragment b later id bytes payload
    → CarriesFragment b start id bytes payload
CarriesFragment-later b start later id bytes payload h (fragment_carried rest q m o e c w) =
    fragment_carried rest q m o e c (omega arith)

pub AllCarryFragments-later :
    (b : ByteOrder) (start later id : ℕ) (datagrams payloads : List (List ℕ))
    → start ≤ later
    → AllCarryFragments b later id datagrams payloads
    → AllCarryFragments b start id datagrams payloads
AllCarryFragments-later b start later id [] [] h all = tt
AllCarryFragments-later b start later id [] (payload ∷ payloads) h all = absurd all
AllCarryFragments-later b start later id (bytes ∷ rest) [] h all = absurd all
AllCarryFragments-later b start later id (bytes ∷ rest) (payload ∷ payloads) h (is, all) = (
  CarriesFragment-later b start later id bytes payload h is,
  AllCarryFragments-later b start later (id + 1) rest payloads h all,
)

-- How a connection is after a loop over the queue that leaves room for `n` payloads more.
pub record Emptied (n now : ℕ) (c d : Connection) : Type 0 where
  pub same_core : core d ≡ core c
  pub has_room : HasRoom n d.rakhandler
  pub idle_stays : (t : ℕ) → IsRecent t now → IsIdle t c.rakhandler → IsIdle t d.rakhandler
  pub order_grows : index_at 0 c.rakhandler.order_index ≤ index_at 0 d.rakhandler.order_index

if-both :
    (t : Bool) (m : Result Connection) (d : Connection) → m ≡ ok d → (if t then m else ok d) ≡ ok d
if-both true m d e = e
if-both false m d e = refl

module _ (b : ByteOrder) (fparse : Result (List ℕ) → Result (List ℕ)) (now : ℕ)
    (laws : IsByteOrder b) (unwraps : (bs : List ℕ) → fparse (ok bs) ≡ ok bs) where
  send_frames_carries :
      (c : Connection) (id n : ℕ) (payload : List ℕ)
      → HasRoom (suc n) c.rakhandler
      → id < 2 ^ 16
      → c.mtu < 2 ^ 16
      → FitsOne c.mtu payload
      → (bytes : List ℕ) × (send_frames b fparse now c (labelled 1 id 0 (payload ∷ [])) reliable_ord
          ≡ ok (after_fragment c now id bytes))
        × CarriesFragment b (index_at 0 c.rakhandler.order_index) id bytes payload
  send_frames_carries c id n payload fit named small (some_bytes, room, body_fits) =
      let counters : CountersFit c.rakhandler = record {
        message_fits = omega (arith, fit.message_fits);
        order_fits = omega (arith, fit.order_fits);
        sequence_fits = omega (arith, fit.sequence_fits);
      } in
      let (bytes, e, sends, composed) =
        send_frames_written b fparse now c id payload laws unwraps counters named room small
          body_fits in
      let (rest, header) = parse-header b _ bytes e in
      (bytes, sends, fragment_carried rest _ _ _ header composed (omega arith))

  queue_loop-cons :
      (id : ℕ) (payload : List ℕ) (payloads : List (List ℕ)) (c c' : Connection)
      → partition payload id (room b fparse now c) ≡ ok (labelled 1 id 0 (payload ∷ []))
      → send_frames b fparse now c (labelled 1 id 0 (payload ∷ [])) reliable_ord ≡ ok c'
      → id + 1 < 2 ^ 16
      → queue_loop b fparse now id (payload ∷ payloads) c
        ≡ queue_loop b fparse now (id + 1) payloads c'
  unfolding queue_loop set_id
  queue_loop-cons id payload payloads c c' cut sends small =
      let next : (id + 1) % 2 ^ 16 ≡ id + 1 = omega arith in rw (cut, sends, next) refl

  -- The loop over the queue.
  queue_loop-carries :
      (payloads : List (List ℕ)) (id n : ℕ) (c : Connection)
      → HasRoom (length payloads + n) c.rakhandler
      → id + length payloads < 2 ^ 16
      → c.mtu < 2 ^ 16
      → All (FitsOne c.mtu) payloads
      → (datagrams : List (List ℕ)) × (d : Connection) × (queue_loop b fparse now id payloads c
          ≡ ok d)
        × (d.sent ≡ c.sent ++ to c.address datagrams)
        × AllCarryFragments b (index_at 0 c.rakhandler.order_index) id datagrams payloads
        × Emptied n now c d
  unfolding queue_loop send_immediate next_seq next_order_index next_reliable_index free_fragment_id
  queue_loop-carries [] id n c fits named small fit = (
    [],
    c,
    refl,
    sym (append-nil c.sent),
    tt,
    record {
      same_core = refl;
      has_room = HasRoom-fewer n (0 + n) c.rakhandler (omega arith) fits;
      idle_stays = λ t recent idle. idle;
      order_grows = omega arith;
    },
  )
  queue_loop-carries (payload ∷ payloads) id n c fits named small ((some_bytes, holds, body), fit) =
      let more =
        HasRoom-fewer (suc (length payloads + n)) (length (payload ∷ payloads) + n) c.rakhandler
          (omega arith) fits in
      let (bytes, sends, carries) =
        send_frames_carries c id (length payloads + n) payload more (omega arith) small
          (some_bytes, holds, body) in
      let c' = after_fragment c now id bytes in
      let (datagrams, d, run, out, all, emptied) =
        queue_loop-carries payloads (id + 1) n c'
          (after_fragment-HasRoom c now id (length payloads + n) bytes more) (omega arith) small
          fit in
      let cut =
        partition_one payload id (room b fparse now c) some_bytes (omega arith) (omega arith) in
      let order = index_at-next_order_index c.rakhandler 0 (omega (arith, fits.order_fits)) in
      (
        bytes ∷ datagrams,
        d,
        queue_loop-cons id payload payloads c c' cut sends (omega arith) ∙ run,
        out ∙ append_assoc c.sent ((c.address, bytes) ∷ []) (to c.address datagrams),
        (
          carries,
          AllCarryFragments-later b _ _ (id + 1) datagrams payloads (omega (arith, order)) all,
        ),
        record {
          same_core = emptied.same_core;
          has_room = emptied.has_room;
          idle_stays = λ t recent idle.
              emptied.idle_stays t recent (after_fragment-IsIdle c now t id bytes recent idle);
          order_grows = omega (arith, order, emptied.order_grows);
        },
      )

  -- A tick with nothing to do but to send the queue.
  pub tick-carries :
      (c : Connection) (n : ℕ)
      → HasRoom (length (c.queue.normal ++ c.queue.low) + n) c.rakhandler
      → IsIdle now c.rakhandler
      → length (c.queue.normal ++ c.queue.low) < 2 ^ 16
      → c.mtu < 2 ^ 16
      → All (FitsOne c.mtu) (c.queue.normal ++ c.queue.low)
      → (datagrams : List (List ℕ)) × (d : Connection) × (tick b fparse now c ≡ ok d)
        × (d.sent ≡ c.sent ++ to c.address datagrams)
        × AllCarryFragments b
            (index_at 0 c.rakhandler.order_index)
            0
            datagrams
            (c.queue.normal ++ c.queue.low)
        × Emptied n now (record c { queue = (Queue.flush c.queue).0 }) d
  unfolding tick Queue.flush
  tick-carries c n fits idle few small fit =
      let payloads = c.queue.normal ++ c.queue.low in
      let opened : Connection = record c { queue = (Queue.flush c.queue).0 } in
      let (datagrams, d, run, out, all, emptied) =
        queue_loop-carries payloads 0 n opened fits (omega (arith, few)) small fit in
      let rest = tick-IsIdle b fparse now d (emptied.idle_stays now (IsRecent-now now) idle) in
      (datagrams, d, rw run (if-both (is_connected d.state) _ d rest), out, all, emptied)
