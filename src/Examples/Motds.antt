-- ===== src/Examples/Motds.antt =====
-- A message of the day that is written as a text, and read.
use Prim.Native.Nat.{Ordering, compare}
use Prim.Native.Char.{Char, char, code, nul}
use Prim.Native.String.{String}
use netrex_rak_net.Prelude.{ℕ, ◌≡◌, refl, subst, List, [], ◌∷◌, length, ok, arith}
use netrex_rak_net.Wire.{read_u8, read_exact, ◌>>=◌, done}
use netrex_rak_net.Wire.Reads.{Reads, Reads->>=, Reads->>=_done, Reads-read_u8, Reads-read_exact}
use netrex_rak_net.Packet.Codecs.{Codec}
use netrex_rak_net.Packet.Codecs.RoundTrip.{Written}
use netrex_rak_net.Decimal.{to_string, print_loop, digit}
use netrex_rak_net.Motd
use netrex_rak_net.Motd.{Motd, adventure, creative}
use netrex_rak_net.Motd.Text
use netrex_rak_net.Motd.Text.{write}
use netrex_rak_net.Motd.Text.RoundTrip.{compose_motd-parse_motd, is_plain}

-- The character of a number, for the low ones.
low_char : (n : ℕ) (o : Ordering) → compare n 55296 ≡ o → Char
low_char n Ordering.lt e = char n (rw e tt)
low_char n _ e = nul

codes : String → List ℕ
codes String.[] = []
codes (String.◌∷◌ c s) = code c ∷ codes s

of_codes : List ℕ → String
unfolding low_char
of_codes [] = ""
of_codes (n ∷ ns) = String.◌∷◌ (low_char n (compare n 55296) refl) (of_codes ns)

-- A text as its length and its characters.
plain_text : Codec String
unfolding codes of_codes
plain_text = record {
  compose = read_u8 >>= λ n. read_exact n >>= λ bytes. done (of_codes bytes);
  parse = λ s. ok (length (codes s) ∷ codes s);
}

abbrev message : Motd
message = record (Motd.new 7 "19132") { gamemode = adventure }

same_text : of_codes (codes (write message)) ≡ write message
unfolding codes of_codes low_char write Text.join to_string print_loop digit Motd.new
same_text = refl

message-Written : Written plain_text (write message)
unfolding plain_text
message-Written =
    let bytes = codes (write message) in
    (
      length bytes ∷ bytes,
      refl,
      subst (λ s. Reads (plain_text.compose) (length bytes ∷ bytes) s) same_text
          (Reads->>= (λ n. read_exact n >>= λ bs. done (of_codes bs)) (Reads-read_u8 (length bytes))
            (Reads->>=_done of_codes (Reads-read_exact (length bytes) bytes refl))),
    )

compose_motd-parse_motd_example :
    (bs : List ℕ) × (Text.parse plain_text message ≡ ok bs)
    × Reads (Text.compose plain_text) bs (record message { gamemode = creative })
unfolding Motd.new is_plain
compose_motd-parse_motd_example =
    compose_motd-parse_motd plain_text message
      ((refl, refl, refl, refl), omega arith, omega arith, omega arith, omega arith) message-Written
