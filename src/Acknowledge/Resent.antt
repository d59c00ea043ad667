-- ===== src/Acknowledge/Resent.antt =====
-- What a NACK does to the store of sent datagrams, and what it sends again.
use netrex_rak_net.Prelude.{
  ℕ, zero, suc, ◌+◌, ◌-◌, ◌≡◌, refl, sym, ap, ◌∙◌, String, List, [], ◌∷◌, ◌++◌, Option, none, some,
  append_assoc, append-nil, if◌then◌else◌, ok,
}
use netrex_rak_net.Prelude.Table.{get, remove, Distinct, contains_key-get}
use netrex_rak_net.Wire.{ByteOrder, IsByteOrder}
use netrex_rak_net.Cache.{flush_key, has}
use netrex_rak_net.Ack
use netrex_rak_net.Ack.{Ack, Record, single, range, fix}
use netrex_rak_net.Ack.Codec.{IsAck, compose_ack-parse}
use netrex_rak_net.Ack.Nack.{count_up}
use netrex_rak_net.OrderedQueue.Missing.{elem}
use netrex_rak_net.Connection.{Connection, send, send_immediate}
use netrex_rak_net.Acknowledge.{
  resend_all, resend, resend_range, resend_record, resend_records, handle_nack,
}
use netrex_rak_net.Acknowledge.Mentioned.{
  mentioned, without, without-append, get-without, remove-absent,
}

abbrev pub Store : Type 0
Store = List (ℕ × (ℕ × List (List ℕ)))

abbrev held : Option (ℕ × List (List ℕ)) → List (List ℕ)
held none = []
held (some (time, buffers)) = buffers

-- The datagrams that a store holds under the numbers, each once, in the order of the numbers.
abbrev pub datagrams : List ℕ → Store → List (List ℕ)
datagrams [] t = []
datagrams (n ∷ ns) t = held (get n t) ++ datagrams ns (remove n t)

-- What is sent to an address.
abbrev pub to : String → List (List ℕ) → List (String × List ℕ)
to address [] = []
to address (p ∷ ps) = (address, p) ∷ to address ps

pub to-append : (a : String) (ps qs : List (List ℕ)) → to a (ps ++ qs) ≡ to a ps ++ to a qs
to-append a [] qs = refl
to-append a (p ∷ ps) qs = rw (to-append a ps qs) refl

resend_all_lem :
    (c : Connection) (ps : List (List ℕ))
    → resend_all c ps ≡ record c { sent = c.sent ++ to c.address ps }
unfolding resend_all send send_immediate
resend_all_lem c [] = ap (λ s. record c { sent = s }) (sym (append-nil c.sent))
resend_all_lem c (p ∷ ps) =
    resend_all_lem (send_immediate c p) ps
    ∙ ap (λ s. record c { sent = s }) (append_assoc c.sent ((c.address, p) ∷ []) (to c.address ps))

-- From one connection to the other, the datagrams under the numbers are taken out and sent again.
record Resends (ns : List ℕ) (c c' : Connection) : Type 0 where
  address : c'.address ≡ c.address
  store : c'.rakhandler.ack.store ≡ without ns c.rakhandler.ack.store
  sends : c'.sent ≡ c.sent ++ to c.address (datagrams ns c.rakhandler.ack.store)

-- `resend` of a number that is not held.
resend_absent : (c : Connection) (n : ℕ) → get n c.rakhandler.ack.store ≡ none → resend c n ≡ c
unfolding resend has
resend_absent c n h = rw (contains_key-get n c.rakhandler.ack.store, h) refl

-- `resend` of a number under which datagrams are held.
resend_present :
    (c : Connection) (n time : ℕ) (buffers : List (List ℕ))
    → get n c.rakhandler.ack.store ≡ some (time, buffers)
    → let m = c.rakhandler in
      resend c n ≡ record c {
        sent = c.sent ++ to c.address buffers;
        rakhandler = record m {
          ack = record { store = remove n m.ack.store };
          ack_counts = remove n m.ack_counts;
        };
      }
unfolding resend has flush_key
resend_present c n time buffers h =
    let m = c.rakhandler in
    rw (contains_key-get n m.ack.store, h)
      (ap
        (λ (s : Connection). record s {
          rakhandler = record (s.rakhandler) { ack_counts = remove n s.rakhandler.ack_counts };
        })
        (resend_all_lem
          (record c { rakhandler = record m { ack = record { store = remove n m.ack.store } } })
          buffers))

resend-Resends :
    (c : Connection) (n : ℕ) (o : Option (ℕ × List (List ℕ)))
    → get n c.rakhandler.ack.store ≡ o
    → Resends (n ∷ []) c (resend c n)
resend-Resends c n none h =
    let t = c.rakhandler.ack.store in
    rw (resend_absent c n h) (record {
      address = refl;
      store = sym (remove-absent n t (contains_key-get n t ∙ rw h refl));
      sends = rw h (sym (append-nil c.sent));
    })
resend-Resends c n (some (time, buffers)) h = rw (resend_present c n time buffers h) (record {
  address = refl;
  store = refl;
  sends = rw h (ap (λ ps. c.sent ++ to c.address ps) (sym (append-nil buffers)));
})

datagrams-append :
    (ns ms : List ℕ) (t : Store)
    → datagrams (ns ++ ms) t ≡ datagrams ns t ++ datagrams ms (without ns t)
datagrams-append [] ms t = refl
datagrams-append (n ∷ ns) ms t =
    rw (datagrams-append ns ms (remove n t)) (sym (append_assoc (held (get n t)) _ _))

Resends-nil : (c : Connection) → Resends [] c c
Resends-nil c = record { address = refl; store = refl; sends = sym (append-nil c.sent) }

-- One round behind another.
Resends-append :
    (ns ms : List ℕ) (c c' c'' : Connection)
    → Resends ns c c'
    → Resends ms c' c''
    → Resends (ns ++ ms) c c''
Resends-append ns ms c c' c'' r r' =
    let t = c.rakhandler.ack.store in
    record {
      address = r'.address ∙ r.address;
      store = r'.store ∙ (ap (without ms) r.store ∙ sym (without-append ns ms t));
      sends =
          rw
            (
              r'.sends,
              r.sends,
              r.address,
              r.store,
              datagrams-append ns ms t,
              to-append c.address (datagrams ns t) (datagrams ms (without ns t)),
            )
            (append_assoc c.sent _ _);
    }

resend_range-Resends : (n i : ℕ) (c : Connection) → Resends (count_up i n) c (resend_range n i c)
unfolding resend_range
resend_range-Resends zero i c = Resends-nil c
resend_range-Resends (suc n) i c =
    Resends-append (i ∷ []) (count_up (i + 1) n) c (resend c i) _ (resend-Resends c i _ refl)
      (resend_range-Resends n (i + 1) (resend c i))

resend_records-Resends :
    (rs : List Record) (c : Connection) → Resends (mentioned rs) c (resend_records c rs)
unfolding resend_records resend_record
resend_records-Resends [] c = Resends-nil c
resend_records-Resends (single r ∷ rs) c =
    Resends-append (r.sequence ∷ []) (mentioned rs) c (resend c r.sequence) _
      (resend-Resends c r.sequence _ refl) (resend_records-Resends rs (resend c r.sequence))
resend_records-Resends (range r ∷ rs) c =
    let lower = (fix r).start in
    let rounds = (fix r).end - lower in
    Resends-append (count_up lower rounds) (mentioned rs) c (resend_range rounds lower c) _
      (resend_range-Resends rounds lower c)
      (resend_records-Resends rs (resend_range rounds lower c))

module _ (b : ByteOrder) where
  -- A NACK that is written as `parse` does, with anything behind it, is handled without an error. What
  -- the store holds under the numbers that its records mention is sent again to the connection's
  -- address, each datagram once, in the order of the numbers, and is taken out of the store; what
  -- it holds under any other number stays. A range mentions the numbers below its upper end only.
  pub handle_nack_lem :
      (c : Connection) (a : Ack) (rest : List ℕ)
      → IsByteOrder b
      → IsAck a
      → Distinct c.rakhandler.ack.store
      → let numbers = mentioned a.records in
        (bytes : List ℕ) × (c' : Connection) × (Ack.parse b a ≡ ok bytes)
        × (handle_nack b c (bytes ++ rest) ≡ ok c')
        × (c'.sent ≡ c.sent ++ to c.address (datagrams numbers c.rakhandler.ack.store))
        × ((j : ℕ)
            → get j c'.rakhandler.ack.store
              ≡ (if elem j numbers then none else get j c.rakhandler.ack.store))
  unfolding handle_nack
  handle_nack_lem c a rest laws is distinct =
      let (bytes, e, read) = compose_ack-parse b laws a rest 0 is in
      let r = resend_records-Resends a.records c in
      (
        bytes,
        resend_records c a.records,
        e,
        rw read refl,
        r.sends,
        λ j.
            ap (get j) r.store
            ∙ get-without (mentioned a.records) j c.rakhandler.ack.store distinct,
      )
