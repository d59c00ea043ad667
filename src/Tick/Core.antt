-- ===== src/Tick/Core.antt =====
-- `RakConnHandler::tick` changes the handler, what is sent and the queue only, and the queue is flushed.
use netrex_rak_net.Prelude.{
  ℕ, ◌+◌, ◌%◌, ◌^◌, ◌≡◌, refl, ◌∙◌, List, [], ◌∷◌, map, unwrap, Result, Always, Always-ok,
  Always-behind, Always->>=, Always-if, Always-weaken,
}
use netrex_rak_net.Wire.{ByteOrder}
use netrex_rak_net.Reliability.{reliable_ord}
use netrex_rak_net.State.{is_connected}
use netrex_rak_net.Queue
use netrex_rak_net.Cache.{flush_key}
use netrex_rak_net.OrderedQueue.{flush_missing}
use netrex_rak_net.Ack
use netrex_rak_net.Ack.{Ack, from_missing}
use netrex_rak_net.Frame.{partition}
use netrex_rak_net.Connection.{Connection, send_immediate}
use netrex_rak_net.Connection.Core.{core, Keeps, core-send}
use netrex_rak_net.Send.{send_frames, room}
use netrex_rak_net.Send.Core.{send_frames-Keeps}
use netrex_rak_net.Tick.{
  set_id, overdue, immediate_all, clear_ids, queue_loop, ask, ask_missing, acknowledge_with,
  acknowledge, resend_overdue, tick,
}

Always-list :
    {A B : Type 0} {P : B → Type 0} {x : Result B} {f : A → List A → Result B} (l : List A)
    → Always P x
    → ((a : A) (rest : List A) → Always P (f a rest))
    → Always P (elim l [ [] ↦ x | a ∷ rest ↦ f a rest ])
Always-list [] h g = h
Always-list (a ∷ rest) h g = g a rest

core-immediate_all :
    (c : Connection) (packets : List (List ℕ)) → core (immediate_all c packets) ≡ core c
unfolding immediate_all send_immediate
core-immediate_all c [] = refl
core-immediate_all c (packet ∷ packets) = core-immediate_all (send_immediate c packet) packets

clear_ids-Keeps : (c : Connection) (ids : List ℕ) → Keeps c (clear_ids c ids)
unfolding clear_ids
clear_ids-Keeps c [] = Always-ok refl
clear_ids-Keeps c (id ∷ ids) =
    let (store, packets) = flush_key c.rakhandler.ack id in
    Always-behind (unwrap packets) λ held.
      let d = record c { rakhandler = record (c.rakhandler) { ack = store } } in
      Always-weaken (clear_ids-Keeps (immediate_all d held.1) ids)
        λ e same. same ∙ core-immediate_all d held.1

module _ (b : ByteOrder) (fparse : Result (List ℕ) → Result (List ℕ)) (now : ℕ) where
  queue_loop-Keeps :
      (id : ℕ) (packets : List (List ℕ)) (c : Connection)
      → Keeps c (queue_loop b fparse now id packets c)
  unfolding queue_loop
  queue_loop-Keeps id [] c = Always-ok refl
  queue_loop-Keeps id (packet ∷ packets) c =
      Always-behind (partition packet id (room b fparse now c)) λ frames.
        Always->>= (send_frames b fparse now c (map (set_id id) frames) reliable_ord)
          (send_frames-Keeps b fparse now c (map (set_id id) frames) reliable_ord)
          λ c' e. Always-weaken (queue_loop-Keeps ((id + 1) % 2 ^ 16) packets c') λ d same. same ∙ e

  ask-Keeps : (c : Connection) (missing : List ℕ) → Keeps c (ask b fparse now c missing)
  unfolding ask
  ask-Keeps c [] = Always-ok refl
  ask-Keeps c (m ∷ ms) =
      Always-behind (from_missing (m ∷ ms))
        λ nack. Always-behind (fparse (Ack.parse b nack)) λ bytes. Always-ok (core-send c bytes)

  ask_missing-Keeps : (c : Connection) → Keeps c (ask_missing b fparse now c)
  unfolding ask_missing
  ask_missing-Keeps c =
      let (channels, missing) = flush_missing c.rakhandler.ordered_channels in
      ask-Keeps (record c { rakhandler = record (c.rakhandler) { ordered_channels = channels } })
        missing

  acknowledge_with-Keeps :
      (c : Connection) (ack : Ack) → Keeps c (acknowledge_with b fparse now c ack)
  unfolding acknowledge_with
  acknowledge_with-Keeps c ack = Always-list ack.records (Always-ok refl) λ r rs.
      Always-behind (fparse (Ack.parse b ack)) λ bytes.
        Always-ok
          (core-send (record c { rakhandler = record (c.rakhandler) { ack_counts = [] } }) bytes)

  pub tick-Keeps :
      (c : Connection) → Keeps (record c { queue = (Queue.flush c.queue).0 }) (tick b fparse now c)
  unfolding tick acknowledge resend_overdue
  tick-Keeps c =
      let (queue, packets) = Queue.flush c.queue in
      Always->>= (queue_loop b fparse now 0 packets (record c { queue = queue }))
        (queue_loop-Keeps 0 packets (record c { queue = queue }))
        λ c' e.
          Always-if (is_connected c'.state)
            (Always->>= (ask_missing b fparse now c') (ask_missing-Keeps c') λ c'' e'.
              Always->>= (acknowledge b fparse now c'') (acknowledge_with-Keeps c'' _) λ c''' e''.
                Always-behind (overdue now c'''.rakhandler.ack.store)
                  λ ids. Always-weaken (clear_ids-Keeps c''' ids) λ d e'''. e''' ∙ e'' ∙ e' ∙ e)
            (Always-ok e)
