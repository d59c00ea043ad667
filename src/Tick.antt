-- ===== src/Tick.antt =====
-- src/internal/handler.rs, `RakConnHandler::tick`: the queue is sent, then, on a connected connection, what
-- is missing is asked for, what came is acknowledged, and what was not acknowledged is sent again.
pub mod Core
pub mod Asks
pub mod Acknowledges
pub mod Overdue
pub mod Connected
pub mod Idle
pub mod Queued
use netrex_rak_net.Prelude.{
  ℕ, ◌+◌, ◌-◌, ◌/◌, ◌%◌, ◌^◌, Bool, true, false, List, [], ◌∷◌, Option, none, some, length, map,
  ltb, if◌then◌else◌, Result, ok, panic, unwrap, ◌>>=◌, ◌>>◌,
}
use netrex_rak_net.Wire.{ByteOrder}
use netrex_rak_net.Reliability.{reliable_ord}
use netrex_rak_net.State.{is_connected}
use netrex_rak_net.Queue
use netrex_rak_net.Cache.{flush_key}
use netrex_rak_net.OrderedQueue.{flush_missing}
use netrex_rak_net.Ack
use netrex_rak_net.Ack.{Ack, from_missing, push_record}
use netrex_rak_net.Frame.{Frame, partition}
use netrex_rak_net.Meta.{NumberSet}
use netrex_rak_net.Connection.{Connection, send, send_immediate}
use netrex_rak_net.Send.{send_frames, room}

-- `meta.id = current_frame_id`.
set_id : ℕ → Frame → Frame
set_id id f = record f {
  fragment_meta = elim f.fragment_meta [ none ↦ none | some meta ↦ some (record meta { id = id }) ];
}

-- `for id in connection.rakhandler.ack_counts.iter()`.
push_ids : Ack → NumberSet → Ack
push_ids a [] = a
push_ids a ((id, _) ∷ ids) = push_ids (push_record a id) ids

-- `queue.0.elapsed().unwrap().as_secs() > 5`, with times in milliseconds.
abbrev pub is_overdue : ℕ → ℕ → Bool
is_overdue now time = ltb 5 ((now - time) / 1000)

-- The numbers that go into `needs_cleared`. `elapsed().unwrap()` panics on a time that is still to come.
overdue : ℕ → List (ℕ × (ℕ × List (List ℕ))) → Result (List ℕ)
overdue now [] = ok []
overdue now ((id, (time, buffers)) ∷ t) =
    let rest = overdue now t in
    if ltb now time
    then panic
    else (rest >>= λ ids. ok (if is_overdue now time then id ∷ ids else ids))

immediate_all : Connection → List (List ℕ) → Connection
immediate_all c [] = c
immediate_all c (packet ∷ packets) = immediate_all (send_immediate c packet) packets

-- `for id in needs_cleared`.
clear_ids : Connection → List ℕ → Result Connection
unfolding immediate_all
clear_ids c [] = ok c
clear_ids c (id ∷ ids) =
    let m = c.rakhandler in
    let (store, packets) = flush_key m.ack id in
    unwrap packets >>= λ held.
    clear_ids (immediate_all (record c { rakhandler = record m { ack = store } }) held.1) ids

module _ (b : ByteOrder) (fparse : Result (List ℕ) → Result (List ℕ)) (now : ℕ) where
  -- `for packet in packets`, from the given `current_frame_id` on.
  queue_loop : ℕ → List (List ℕ) → Connection → Result Connection
  unfolding set_id
  queue_loop id [] c = ok c
  queue_loop id (packet ∷ packets) c = partition packet id (room b fparse now c) >>= λ frames.
      send_frames b fparse now c (map (set_id id) frames) reliable_ord >>= λ c'.
      queue_loop ((id + 1) % 2 ^ 16) packets c'

  -- A NACK is sent if anything is missing.
  ask : Connection → List ℕ → Result Connection
  ask c [] = ok c
  ask c (m ∷ ms) = from_missing (m ∷ ms) >>= λ nack.
      fparse (Ack.parse b nack) >>= λ bytes. ok (send c bytes true)

  unfoldable pub ask_missing : Connection → Result Connection
  unfolding ask
  ask_missing c =
      let m = c.rakhandler in
      let (channels, missing) = flush_missing m.ordered_channels in
      ask (record c { rakhandler = record m { ordered_channels = channels } }) missing

  -- An ACK of all numbers in `ack_counts`, if there are any.
  acknowledge_with : Connection → Ack → Result Connection
  acknowledge_with c ack =
      let m = c.rakhandler in
      let cleared = record c { rakhandler = record m { ack_counts = [] } } in
      elim ack.records [
        | [] ↦ ok c
        | r ∷ rs ↦ fparse (Ack.parse b ack) >>= λ bytes. ok (send cleared bytes true)
      ]

  unfoldable pub acknowledge : Connection → Result Connection
  unfolding push_ids acknowledge_with
  acknowledge c =
      let ids = c.rakhandler.ack_counts in
      acknowledge_with c (push_ids (Ack.new (length ids % 2 ^ 16) false) ids)

  unfoldable pub resend_overdue : Connection → Result Connection
  unfolding overdue clear_ids
  resend_overdue c = overdue now c.rakhandler.ack.store >>= λ ids. clear_ids c ids

  unfoldable pub tick : Connection → Result Connection
  unfolding queue_loop
  tick c =
      let (queue, packets) = Queue.flush c.queue in
      queue_loop 0 packets (record c { queue = queue }) >>= λ c'.
      if is_connected c'.state
      then (ask_missing c' >>= λ c''. acknowledge c'' >>= λ c'''. resend_overdue c''')
      else ok c'
