-- ===== src/Frame.antt =====
-- src/internal/frame/mod.rs and fragment.rs: frames, the split of a payload into fragments, and the bytes
-- of a frame. `try_into` from a `u32` to a `u32` cannot fail.
pub mod Partition
pub mod Codec
pub mod Overrun
pub mod Wraps
pub mod Longer
pub mod Ends
pub mod Carrier
use Prim.Native.Nat.{bit_and, bit_or}
use netrex_rak_net.Prelude
use netrex_rak_net.Prelude.{
  ℕ, zero, suc, ◌+◌, ◌*◌, ◌/◌, ◌%◌, ◌^◌, Bool, true, false, List, [], ◌∷◌, ◌++◌, map, length, take,
  drop, ltb, if◌then◌else◌, Option, none, some, Result, ok, stuck, unwrap,
}
use netrex_rak_net.Wire.{
  ByteOrder, Reader, ◌>>=◌, ◌>>◌, done, read_u8, read_u16_be, read_u24_le, read_u32_be, read_slice,
}
use netrex_rak_net.Reliability
use netrex_rak_net.Reliability.{
  Reliability, from_flags, to_flags, is_reliable, is_sequenced_or_ordered,
}

pub record FragmentMeta : Type 0 where
  pub size : ℕ
  pub id : ℕ
  pub index : ℕ

pub record Frame : Type 0 where
  pub flags : ℕ
  pub size : ℕ
  pub reliable_index : Option ℕ
  pub sequence_index : Option ℕ
  pub order_index : Option ℕ
  pub order_channel : Option ℕ
  pub fragment_meta : Option FragmentMeta
  pub reliability : Reliability
  pub body : List ℕ

-- `Frame::init`.
abbrev pub init : Frame
init = record {
  flags = 0;
  size = 0;
  reliable_index = none;
  sequence_index = none;
  order_index = none;
  order_channel = none;
  fragment_meta = none;
  reliability = Reliability.unreliable;
  body = [];
}

abbrev pub is_some : {A : Type 0} → Option A → Bool
is_some none = false
is_some (some a) = true

unfoldable pub is_fragmented : Frame → Bool
is_fragmented f = is_some f.fragment_meta

unfoldable pub is_sequenced : Frame → Bool
is_sequenced f = Reliability.is_sequenced f.reliability

-- The frame of one round of `partition`, whose size is not known yet.
unfoldable pub fragment : ℕ → ℕ → List ℕ → Frame
fragment id index body = record init {
  body = body;
  fragment_meta = some (record { size = 0; id = id; index = index });
}

-- The `while` loop of `partition`, on fuel.
unfoldable pub partition_loop : ℕ → List ℕ → ℕ → ℕ → ℕ → ℕ → List Frame → Result (List Frame)
partition_loop zero stream id frag_size position index frames = stuck
partition_loop (suc fuel) stream id frag_size position index frames =
    let rest = drop position stream in
    let split =
      partition_loop fuel stream id frag_size (position + frag_size) ((index + 1) % 2 ^ 32)
        (frames ++ (fragment id index (take frag_size rest) ∷ [])) in
    if ltb position (length stream)
    then (if ltb (length rest) frag_size
        then ok (frames ++ (fragment id index rest ∷ []))
        else split)
    else ok frames

unfoldable pub set_size : ℕ → Frame → Frame
set_size n f = record f {
  fragment_meta = elim f.fragment_meta [
    | none ↦ none
    | some meta ↦ some (record meta { size = n })
  ];
}

-- A round takes `frag_size` bytes, so where that is not 0 the fuel is enough.
unfoldable pub partition : List ℕ → ℕ → ℕ → Result (List Frame)
unfolding partition_loop set_size fragment
partition stream id frag_size =
    Prelude.◌>>=◌ (partition_loop (length stream + 1) stream id frag_size 0 0 [])
      λ frames. ok (map (set_size (length frames % 2 ^ 32)) frames)

-- `if test { ... self.index.unwrap() ... }`.
parse_if : Bool → Option ℕ → (ℕ → Option (List ℕ)) → Result (List ℕ)
parse_if false index write = ok []
parse_if true index write = Prelude.◌>>=◌ (unwrap index) λ i. unwrap (write i)

compose_if : {A : Type 0} → Bool → Reader A → Reader (Option A)
compose_if false m = done none
compose_if true m = m >>= λ a. done (some a)

order_of : Option (ℕ × ℕ) → Option ℕ
order_of none = none
order_of (some (i, c)) = some i

channel_of : Option (ℕ × ℕ) → Option ℕ
channel_of none = none
channel_of (some (i, c)) = some c

unfoldable pub flags_of : Frame → ℕ
flags_of f =
    if is_some f.fragment_meta then bit_or (to_flags f.reliability) 0x10 else to_flags f.reliability

module _ (b : ByteOrder) where
  parse_meta : Option FragmentMeta → List ℕ
  parse_meta none = []
  parse_meta (some meta) =
      b.put_u32_be meta.size ++ (b.put_u16_be meta.id ++ b.put_u32_be meta.index)

  -- All that is written before the body. The length in bits is a `u16`, and wraps.
  unfoldable pub parse_head : Frame → Result (List ℕ)
  unfolding parse_if parse_meta flags_of
  parse_head f =
      let size = length f.body % 2 ^ 16 in
      let ordered = is_sequenced_or_ordered f.reliability in
      let bits = b.put_u16_be (size * 8 % 2 ^ 16) in
      Prelude.◌>>=◌ (parse_if (is_reliable f.reliability) f.reliable_index b.put_u24_le) λ reliable.
        Prelude.◌>>=◌
          (parse_if (Reliability.is_sequenced f.reliability) f.sequence_index b.put_u24_le)
          λ sequence. Prelude.◌>>=◌ (parse_if ordered f.order_index b.put_u24_le) λ order.
            Prelude.◌>>=◌ (parse_if ordered f.order_channel (λ c. some (c ∷ []))) λ channel. ok (
              flags_of f
              ∷ (bits
                  ++ (reliable
                      ++ (sequence ++ ((order ++ channel) ++ parse_meta f.fragment_meta)))))

  unfoldable pub parse : Frame → Result (List ℕ)
  unfolding parse_head
  parse f = Prelude.◌>>=◌ (parse_head f) λ head. ok (head ++ f.body)

  compose_order : Reader (ℕ × ℕ)
  compose_order = read_u24_le b >>= λ i. read_u8 >>= λ c. done (i, c)

  compose_meta : Reader FragmentMeta
  compose_meta = read_u32_be b >>= λ size. read_u16_be b >>= λ id.
      read_u32_be b >>= λ index. done (record { size = size; id = id; index = index })

  -- What is read between the flags and the body, by the reliability and the fragment bit of the flags.
  compose_fields : ℕ → Reliability → Bool → Reader Frame
  unfolding compose_if compose_order compose_meta order_of channel_of
  compose_fields flags reliability fragmented = do
    bits ← read_u16_be b
    reliable ← compose_if (is_reliable reliability) (read_u24_le b)
    sequence ← compose_if (Reliability.is_sequenced reliability) (read_u24_le b)
    order ← compose_if (is_sequenced_or_ordered reliability) compose_order
    meta ← compose_if fragmented compose_meta
    done (record {
      flags = flags;
      size = bits / 8;
      reliable_index = reliable;
      sequence_index = sequence;
      order_index = order_of order;
      order_channel = channel_of order;
      fragment_meta = meta;
      reliability = reliability;
      body = [];
    })

  unfoldable pub compose_head : Reader Frame
  unfolding compose_fields
  compose_head = do
    flags ← read_u8
    compose_fields flags (from_flags flags) (ltb 0 (bit_and flags 0x10))

  unfoldable pub compose : Reader Frame
  compose = compose_head >>= λ f. read_slice f.size >>= λ body. done (record f { body = body })
