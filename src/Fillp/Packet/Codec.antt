-- ===== src/Fillp/Packet/Codec.antt =====
-- decodePacket undoes encodePacket.
use go_kitbox.Prelude.{
  ℕ, suc, ◌+◌, ◌*◌, ◌/◌, ◌%◌, ◌<◌, ◌≡◌, refl, true, false, ap, length, arith, ltb,
}
use go_kitbox.Prelude.Run.{ok}
use go_kitbox.Fillp.Packet.{Packet, uint32_to_bytes, bytes_to_uint32, encode_packet, decode_packet}

pub record Fits (p : Packet) : Type 0 where
  pub sequence_fits : p.sequence < 4294967296
  pub ack_fits : p.ack < 4294967296
  pub window_fits : p.window < 4294967296
  pub timestamp_fits : p.timestamp < 4294967296
  pub checksum_fits : p.checksum < 4294967296

digits :
    (n : ℕ)
    → n < 4294967296
    → (n / 16777216) % 256 * 16777216 + (n / 65536) % 256 * 65536 + (n / 256) % 256 * 256 + n % 256
      ≡ n
digits n h = omega arith

pub bytes_to_uint32-uint32_to_bytes :
    (n : ℕ) → n < 4294967296 → bytes_to_uint32 (uint32_to_bytes n) ≡ ok n
unfolding bytes_to_uint32 uint32_to_bytes
bytes_to_uint32-uint32_to_bytes n h = ap ok (digits n h)

-- What the tests on the length of an encoded packet answer.
abbrev past_header : ℕ → ℕ
past_header n =
    (suc (
      suc (
        suc (
          suc (
            suc (
              suc (
                suc (
                  suc (
                    suc (
                      suc (
                        suc (
                          suc (
                            suc (suc (suc (suc (suc (suc (suc (suc (suc (suc n))))))))))))))))))))))

long : (n : ℕ) → ltb (past_header n) 22 ≡ false
long n = ground arith

some_bytes : (n : ℕ) → ltb 0 (past_header n) ≡ true
some_bytes n = ground arith

two_bytes : (n : ℕ) → ltb 1 (past_header n) ≡ true
two_bytes n = ground arith

-- Decoding the encoding of a packet whose numbers fit in 32 bits gives the packet back.
pub decode-encode : (p : Packet) → Fits p → decode_packet (encode_packet p) ≡ ok p
unfolding decode_packet encode_packet
decode-encode p h =
    rw
      (
        long (length p.payload),
        some_bytes (length p.payload),
        two_bytes (length p.payload),
        digits p.sequence h.sequence_fits,
        digits p.ack h.ack_fits,
        digits p.window h.window_fits,
        digits p.timestamp h.timestamp_fits,
        digits p.checksum h.checksum_fits,
      )
      refl
