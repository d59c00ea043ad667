-- ===== src/Acknowledge/Mentioned.antt =====
-- The sequence numbers that the records of a packet mention, and tables without them.
use netrex_rak_net.Prelude.{
  ℕ, ◌-◌, ◌≡◌, refl, false, List, [], ◌∷◌, ◌++◌, none, arith, if◌then◌else◌,
}
use netrex_rak_net.Prelude.Table.{get, contains_key, remove, Distinct, Distinct-remove, get-remove}
use netrex_rak_net.Ack.{Record, single, range, fix}
use netrex_rak_net.Ack.Nack.{count_up}
use netrex_rak_net.OrderedQueue.Missing.{elem}

-- A single record mentions its number, a range the numbers from its lower end on that are below its
-- upper end.
abbrev pub mentioned : List Record → List ℕ
mentioned [] = []
mentioned (single r ∷ rs) = r.sequence ∷ mentioned rs
mentioned (range r ∷ rs) = count_up (fix r).start ((fix r).end - (fix r).start) ++ mentioned rs

module _ {ℓ} {V : Type ℓ} where
  -- The table without the entries under the numbers.
  abbrev pub without : List ℕ → List (ℕ × V) → List (ℕ × V)
  without [] t = t
  without (n ∷ ns) t = without ns (remove n t)

  pub without-append :
      (ns ms : List ℕ) (t : List (ℕ × V)) → without (ns ++ ms) t ≡ without ms (without ns t)
  without-append [] ms t = refl
  without-append (n ∷ ns) ms t = without-append ns ms (remove n t)

  pub get-without :
      (ns : List ℕ) (j : ℕ) (t : List (ℕ × V))
      → Distinct t
      → get j (without ns t) ≡ (if elem j ns then none else get j t)
  get-without [] j t d = refl
  get-without (n ∷ ns) j t d =
      ground (arith, get-without ns j (remove n t) (Distinct-remove n t d), get-remove n j t d)

  pub remove-absent : (n : ℕ) (t : List (ℕ × V)) → contains_key n t ≡ false → remove n t ≡ t
  remove-absent n [] h = refl
  remove-absent n ((j, v) ∷ t) h = ground (arith, remove-absent n t)
