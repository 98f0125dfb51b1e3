-- ===== src/Fillp/Packet.antt =====
-- The packets of pkg/fillp/connection.go and their encoding. A byte is a number below 256.
pub mod Codec
use go_kitbox.Prelude.{
  ℕ, ◌+◌, ◌-◌, ◌*◌, ◌/◌, ◌%◌, List, [], ◌∷◌, ◌++◌, length, get_or, take, drop, ltb, if◌then◌else◌,
}
use go_kitbox.Prelude.Run.{Run, ok, err, panic, ◌>>=◌, load}

-- uint32ToBytes: the shifts are divisions, and the conversions to byte keep the low eight bits.
unfoldable pub uint32_to_bytes : ℕ → List ℕ
uint32_to_bytes n = (n / 16777216) % 256 ∷ (n / 65536) % 256 ∷ (n / 256) % 256 ∷ n % 256 ∷ []

pub data PacketError : Type 0 where
  packet_too_small : PacketError

-- bytesToUint32: the four shifted bytes share no bit, so `|` adds them.
unfoldable pub bytes_to_uint32 : List ℕ → Run PacketError ℕ
bytes_to_uint32 b = do
  b0 ← load 0 b 0
  b1 ← load 0 b 1
  b2 ← load 0 b 2
  b3 ← load 0 b 3
  ok (b0 * 16777216 + b1 * 65536 + b2 * 256 + b3)

pub record Packet : Type 0 where
  pub type : ℕ
  pub flags : ℕ
  pub sequence : ℕ
  pub ack : ℕ
  pub window : ℕ
  pub timestamp : ℕ
  pub payload : List ℕ
  pub checksum : ℕ

-- The copies fill the buffer from left to right, without a gap.
unfoldable pub encode_packet : Packet → List ℕ
unfolding uint32_to_bytes
encode_packet p =
    p.type
    ∷ p.flags
    ∷ (uint32_to_bytes p.sequence
        ++ uint32_to_bytes p.ack
        ++ uint32_to_bytes p.window
        ++ uint32_to_bytes p.timestamp
        ++ uint32_to_bytes p.checksum
        ++ p.payload)

-- `data[i:j]`
abbrev pub slice : ℕ → ℕ → List ℕ → List ℕ
slice i j xs = take (j - i) (drop i xs)

unfoldable pub decode_packet : List ℕ → Run PacketError Packet
unfolding bytes_to_uint32
decode_packet bytes =
    if ltb (length bytes) 22
    then err packet_too_small
    else (load 0 bytes 0 >>= λ type. load 0 bytes 1 >>= λ flags.
        bytes_to_uint32 (slice 2 6 bytes) >>= λ sequence.
        bytes_to_uint32 (slice 6 10 bytes) >>= λ ack.
        bytes_to_uint32 (slice 10 14 bytes) >>= λ window.
        bytes_to_uint32 (slice 14 18 bytes) >>= λ timestamp.
        bytes_to_uint32 (slice 18 22 bytes) >>= λ checksum. ok (record {
          type = type;
          flags = flags;
          sequence = sequence;
          ack = ack;
          window = window;
          timestamp = timestamp;
          payload = drop 22 bytes;
          checksum = checksum;
        }))
