-- ===== src/Tick/Overdue.antt =====
-- The last step of a tick: the datagrams that were not acknowledged.
use netrex_rak_net.Prelude.{
  ℕ, ◌≤◌, ◌≡◌, refl, sym, ap, ◌∙◌, true, false, List, [], ◌∷◌, ◌++◌, Option, none, some, arith,
  append_assoc, append-nil, le→ltb, ◌==◌, ==_refl, if◌then◌else◌, Bool-cases, inl, inr, Result, ok,
}
use netrex_rak_net.Prelude.Table.{get, contains_key, remove, Distinct, contains_key-get}
use netrex_rak_net.Wire.{ByteOrder}
use netrex_rak_net.Cache.{flush_key}
use netrex_rak_net.OrderedQueue.Missing.{elem}
use netrex_rak_net.Connection.{Connection, send_immediate}
use netrex_rak_net.Acknowledge.Mentioned.{without, get-without}
use netrex_rak_net.Acknowledge.Resent.{Store, datagrams, to, to-append}
use netrex_rak_net.Tick.{is_overdue, overdue, immediate_all, clear_ids, resend_overdue}

-- The numbers of the entries that are overdue.
late : ℕ → Store → List ℕ
late now [] = []
late now ((id, (time, buffers)) ∷ t) = if is_overdue now time then id ∷ late now t else late now t

-- The buffers of the entries that are overdue, in their order.
abbrev pub late_buffers : ℕ → Store → List (List ℕ)
late_buffers now [] = []
late_buffers now ((id, (time, buffers)) ∷ t) =
    if is_overdue now time then buffers ++ late_buffers now t else late_buffers now t

-- An entry that is not overdue.
abbrev pub kept : ℕ → Option (ℕ × List (List ℕ)) → Option (ℕ × List (List ℕ))
kept now none = none
kept now (some (time, buffers)) = if is_overdue now time then none else some (time, buffers)

-- No datagram is from the future.
abbrev pub IsPast : ℕ → Store → Type 0
IsPast now [] = Unit
IsPast now ((id, (time, buffers)) ∷ t) = (time ≤ now) × IsPast now t

overdue_lem : (now : ℕ) (t : Store) → IsPast now t → overdue now t ≡ ok (late now t)
unfolding overdue late
overdue_lem now [] past = refl
overdue_lem now ((id, (time, buffers)) ∷ t) past =
    rw (le→ltb now time past.0, overdue_lem now t past.1) refl

-- The numbers are held, each still when those before it are taken out.
Held : List ℕ → Store → Type 0
Held [] t = Unit
Held (n ∷ ns) t = (contains_key n t ≡ true) × Held ns (remove n t)

elem-late_absent : (now j : ℕ) (t : Store) → contains_key j t ≡ false → elem j (late now t) ≡ false
unfolding late
elem-late_absent now j [] h = refl
elem-late_absent now j ((id, (time, buffers)) ∷ t) h = ground (arith, elem-late_absent now j t)

elem-cons :
    (id n : ℕ) (ns : List ℕ) → elem id (n ∷ ns) ≡ false → ((id == n) ≡ false) × (elem id ns ≡ false)
elem-cons id n ns h = (ground arith, ground arith)

-- An entry whose number is not among the numbers is passed over.
Held-other :
    (ns : List ℕ) (id : ℕ) (v : ℕ × List (List ℕ)) (t : Store)
    → elem id ns ≡ false
    → Held ns t
    → Held ns ((id, v) ∷ t) × (datagrams ns ((id, v) ∷ t) ≡ datagrams ns t)
unfolding Held
Held-other [] id v t h held = (tt, refl)
Held-other (n ∷ ns) id v t h held =
    let (ne, h') = elem-cons id n ns h in
    let (held', same) = Held-other ns id v (remove n t) h' held.1 in
    (rw ne (held.0, held'), rw (ne, same) refl)

-- The overdue entries are held, and hold the overdue buffers.
Held-late :
    (now : ℕ) (t : Store)
    → Distinct t
    → Held (late now t) t × (datagrams (late now t) t ≡ late_buffers now t)
unfolding late Held
Held-late now [] d = (tt, refl)
Held-late now ((id, (time, buffers)) ∷ t) d =
    let (held, same) = Held-late now t d.1 in
    let passed =
      Held-other (late now t) id (time, buffers) t (elem-late_absent now id t d.0) held in
    elim (Bool-cases (is_overdue now time)) [
      | inl is ↦ rw (is, ==_refl id) ((refl, held), ap (◌++◌ buffers) same)
      | inr not ↦ rw not (passed.0, passed.1 ∙ same)
    ]

kept-late :
    (now j : ℕ) (t : Store)
    → Distinct t
    → (if elem j (late now t) then none else get j t) ≡ kept now (get j t)
unfolding late
kept-late now j [] d = refl
kept-late now j ((id, (time, buffers)) ∷ t) d = elim (Bool-cases (id == j)) [
  | inl same ↦
      let e : id ≡ j = ground arith in
      let absent : elem j (late now t) ≡ false = rw (sym e) (elem-late_absent now id t d.0) in
      elim (Bool-cases (is_overdue now time)) [
        | inl is ↦ rw (same, is, same) refl
        | inr not ↦ rw (same, not, absent) refl
      ]
  | inr other ↦ elim (Bool-cases (is_overdue now time)) [
    | inl is ↦ rw (other, is, other) (kept-late now j t d.1)
    | inr not ↦ rw (other, not) (kept-late now j t d.1)
  ]
]

immediate_all_lem :
    (c : Connection) (ps : List (List ℕ))
    → immediate_all c ps ≡ record c { sent = c.sent ++ to c.address ps }
unfolding immediate_all send_immediate
immediate_all_lem c [] = ap (λ s. record c { sent = s }) (sym (append-nil c.sent))
immediate_all_lem c (p ∷ ps) =
    immediate_all_lem (send_immediate c p) ps
    ∙ ap (λ s. record c { sent = s }) (append_assoc c.sent ((c.address, p) ∷ []) (to c.address ps))

-- The connection after the datagrams under the numbers were taken out and sent again.
abbrev pub resent : List ℕ → Connection → Connection
resent ns c =
    let m = c.rakhandler in
    record c {
      sent = c.sent ++ to c.address (datagrams ns m.ack.store);
      rakhandler = record m { ack = record { store = without ns m.ack.store } };
    }

-- One round, on a number that is held.
clear_ids_next :
    (ns : List ℕ) (n : ℕ) (c : Connection) (o : Option (ℕ × List (List ℕ)))
    → get n c.rakhandler.ack.store ≡ o
    → contains_key n c.rakhandler.ack.store ≡ true
    → clear_ids c (n ∷ ns) ≡ clear_ids (resent (n ∷ []) c) ns
unfolding clear_ids flush_key
clear_ids_next ns n c none h held =
    let no : false ≡ true = sym (contains_key-get n c.rakhandler.ack.store ∙ rw h refl) ∙ held in cc
clear_ids_next ns n c (some (time, buffers)) h held =
    let m = c.rakhandler in
    let taken = record c {
      rakhandler = record m { ack = record { store = remove n m.ack.store } };
    } in
    rw h (
      ap (λ d. clear_ids d ns)
        (immediate_all_lem taken buffers
          ∙ ap (λ ps. record taken { sent = c.sent ++ to c.address ps })
              (sym (append-nil buffers))))

resent-cons :
    (ns : List ℕ) (n : ℕ) (c : Connection) → resent ns (resent (n ∷ []) c) ≡ resent (n ∷ ns) c
resent-cons ns n c =
    let t = c.rakhandler.ack.store in
    ap (λ s. record (resent (n ∷ ns) c) { sent = s })
      (append_assoc c.sent (to c.address (datagrams (n ∷ []) t)) _
        ∙ ap (◌++◌ c.sent) (
            sym (to-append c.address (datagrams (n ∷ []) t) (datagrams ns (remove n t)))
            ∙ ap (to c.address) (append_assoc _ [] (datagrams ns (remove n t)))))

clear_ids_lem :
    (ns : List ℕ) (c : Connection)
    → Held ns c.rakhandler.ack.store
    → clear_ids c ns ≡ ok (resent ns c)
unfolding Held
clear_ids_lem [] c held =
    unfold clear_ids in ap (λ s. ok (record c { sent = s })) (sym (append-nil c.sent))
clear_ids_lem (n ∷ ns) c held =
    clear_ids_next ns n c _ refl held.0
    ∙ (clear_ids_lem ns (resent (n ∷ []) c) held.1 ∙ ap ok (resent-cons ns n c))

-- The last step sends every datagram of the store that is six seconds old or more to the connection's
-- address, in the order of the store, and takes it out of the store. All other entries stay. (For a
-- store with one entry a number, none from the future.)
pub resend_overdue_lem :
    (b : ByteOrder) (fparse : Result (List ℕ) → Result (List ℕ)) (now : ℕ) (c : Connection)
    → Distinct c.rakhandler.ack.store
    → IsPast now c.rakhandler.ack.store
    → let t = c.rakhandler.ack.store in
      (c' : Connection) × (resend_overdue b fparse now c ≡ ok c')
      × (c'.sent ≡ c.sent ++ to c.address (late_buffers now t))
      × ((j : ℕ) → get j c'.rakhandler.ack.store ≡ kept now (get j t))
      × (c' ≡ record c {
        sent = c'.sent;
        rakhandler = record (c.rakhandler) { ack = c'.rakhandler.ack };
      })
unfolding resend_overdue
resend_overdue_lem b fparse now c distinct past =
    let t = c.rakhandler.ack.store in
    let (held, same) = Held-late now t distinct in
    (
      resent (late now t) c,
      rw (overdue_lem now t past) (clear_ids_lem (late now t) c held),
      ap (λ ps. c.sent ++ to c.address ps) same,
      λ j. get-without (late now t) j t distinct ∙ kept-late now j t distinct,
      refl,
    )
