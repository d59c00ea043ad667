-- ===== src/Motd/Text/RoundTrip.antt =====
-- The text of a message of the day is split into its parts again.
use Prim.Native.Char.{Char, code}
use Prim.Native.String
use Prim.Native.String.append
use Prim.Native.String.{String}
use netrex_rak_net.Prelude.{
  ℕ, Bool, false, ◌-◌, ◌^◌, ◌<◌, ◌≡◌, refl, sym, ap, ◌∙◌, true, false, List, [], ◌∷◌, ◌==◌,
  if◌then◌else◌, All, ok, arith,
}
use netrex_rak_net.Wire.Reads.{Reads}
use netrex_rak_net.Decimal.{to_string, parse-to_string, to_string_one}
use netrex_rak_net.Decimal.Digits.{Digits, to_string-Digits}
use netrex_rak_net.Packet.Codecs.{Codec}
use netrex_rak_net.Packet.Codecs.RoundTrip.{Written}
use netrex_rak_net.Motd.{Motd, Gamemode, survival, creative}
use netrex_rak_net.Motd.Text.{
  as_str, props, join, split, prepend, write, part, number, of_parts, compose, parse,
}

unfoldable pub is_plain : String → Bool
is_plain String.[] = true
is_plain (String.◌∷◌ c s) = let rest = is_plain s in if code c == 59 then false else rest

-- A text without a semicolon.
abbrev pub IsPlain : String → Type 0
IsPlain s = is_plain s ≡ true

IsPlain-tail :
    (c : Char) (s : String) → IsPlain (String.◌∷◌ c s) → ((code c == 59) ≡ false) × IsPlain s
unfolding is_plain
IsPlain-tail c s h = go (code c == 59) h
  where
    go : (t : Bool) → (if t then false else is_plain s) ≡ true → (t ≡ false) × IsPlain s
    go true e = absurd (cc)
    go false e = (refl, e)

Digits-IsPlain : (s : String) → Digits s → IsPlain s
unfolding Digits is_plain
Digits-IsPlain String.[] h = refl
Digits-IsPlain (String.◌∷◌ c s) h = ground (arith, h.0, h.1, Digits-IsPlain s h.2)

split_plain : (w : String) → IsPlain w → split w ≡ w ∷ []
unfolding split prepend
split_plain String.[] h = refl
split_plain (String.◌∷◌ c s) h =
    let (other, plain) = IsPlain-tail c s h in rw (split_plain s plain, other) refl

split-append : (w t : String) → IsPlain w → split (String.◌++◌ w (String.◌∷◌ ";" t)) ≡ w ∷ split t
unfolding split prepend
split-append String.[] t h = rw (append.nil (String.◌∷◌ ";" t)) refl
split-append (String.◌∷◌ c s) t h =
    let (other, plain) = IsPlain-tail c s h in
    rw (append.cons c s (String.◌∷◌ ";" t), split-append s t plain, other) refl

split-join : (w : String) (ws : List String) → All IsPlain (w ∷ ws) → split (join (w ∷ ws)) ≡ w ∷ ws
unfolding join
split-join w [] h = split_plain w h.0
split-join w (v ∷ ws) h = split-append w (join (v ∷ ws)) h.0 ∙ ap (◌∷◌ w) (split-join v ws h.1)

to_string-IsPlain : (n : ℕ) → IsPlain (to_string n)
to_string-IsPlain n = Digits-IsPlain (to_string n) (to_string-Digits n)

as_str-IsPlain : (g : Gamemode) → IsPlain (as_str g)
unfolding is_plain
as_str-IsPlain survival = refl
as_str-IsPlain _ = refl

-- The texts have no semicolon, and the numbers fit their types.
abbrev pub IsWritable : Motd → Type 0
IsWritable m =
    (IsPlain m.name × IsPlain m.version × IsPlain m.port × IsPlain m.ipv6_port)
    × (m.protocol < 2 ^ 16)
    × (m.player_count < 2 ^ 16)
    × (m.player_max < 2 ^ 16)
    × (m.server_guid < 2 ^ 64)

read_number : (bound n : ℕ) → n < bound → number (bound - 1) (to_string n) ≡ ok n
unfolding number
read_number bound n h = rw (parse-to_string (bound - 1) n (omega arith)) refl

props-IsPlain : (m : Motd) → IsWritable m → All IsPlain (props m)
unfolding is_plain
props-IsPlain m ((name, version, port, ipv6), protocol, small, few, fits) =
    let last : All IsPlain ("Netrex" ∷ as_str m.gamemode ∷ "1" ∷ m.port ∷ m.ipv6_port ∷ []) =
      (refl, (as_str-IsPlain m.gamemode, (refl, (port, (ipv6, tt))))) in
    let count = to_string-IsPlain m.player_count in
    let max = to_string-IsPlain m.player_max in
    let guid = to_string-IsPlain m.server_guid in
    (refl, (name, (to_string-IsPlain m.protocol, (version, (count, (max, (guid, last)))))))

read_one : number (2 ^ 8 - 1) "1" ≡ ok 1
read_one = ap (number 255) (sym to_string_one) ∙ read_number (2 ^ 8) 1 (omega arith)

-- `compose` on the parts that `write` joins.
of_parts-props :
    (m : Motd) → IsWritable m → of_parts (props m) ≡ ok (record m { gamemode = creative })
unfolding of_parts part
of_parts-props m (texts, protocol, count, max, guid) =
    rw
      (
        read_number (2 ^ 16) m.protocol protocol,
        read_number (2 ^ 16) m.player_count count,
        read_number (2 ^ 16) m.player_max max,
        read_number (2 ^ 64) m.server_guid guid,
        read_one,
      )
      refl

-- A message of the day has numbers that fit their types and texts without a semicolon, and
-- the text that `write` makes of it is read back from its bytes. Then `parse` writes the message without an
-- error, and `compose` reads it back with all its fields but the gamemode, which is creative.
pub compose_motd-parse_motd :
    (text : Codec String) (m : Motd)
    → IsWritable m
    → Written text (write m)
    → (bs : List ℕ) × (parse text m ≡ ok bs)
      × Reads (compose text) bs (record m { gamemode = creative })
unfolding parse compose write
compose_motd-parse_motd text m h (bs, e, reads) = (
  bs,
  e,
  record {
    run = λ source rest position there within.
        rw
          (
            reads.run source rest position there within,
            split-join "MCPE" _ (props-IsPlain m h),
            of_parts-props m h,
          )
          refl;
  },
)
