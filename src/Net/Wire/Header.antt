-- ===== src/Net/Wire/Header.antt =====
-- The header of a frame: what is encoded is decoded, and what is decoded has been checked.
use Prim.Native.Nat.{bit_and}
use rtdb_common.Common.{ℕ, ◌≤◌, ◌<◌, ◌^◌, ◌≡◌, arith, refl, length, All}
use rtdb_common.Types.{Bytes, ok}
use rtdb_common.Infra.Crc32.{IsByte}
use rtdb_common.Net.Wire.{
  FrameHeader, encode_frame_header, decode_frame_header, proto_version, frame_header_bytes,
}

-- Every field is in the range of its C++ type.
pub record HeaderInRange (h : FrameHeader) : Type 0 where
  pub ver : h.ver < 2 ^ 8
  pub flags : h.flags < 2 ^ 8
  pub session : h.session < 2 ^ 32
  pub func : h.func < 2 ^ 16
  pub payload_len : h.payload_len < 2 ^ 32
  pub crc : h.crc < 2 ^ 32

pub length-encode_frame_header :
    (h : FrameHeader) → length (encode_frame_header h) ≡ frame_header_bytes
unfolding encode_frame_header
length-encode_frame_header h = refl

pub encode_frame_header-IsByte :
    (h : FrameHeader) → HeaderInRange h → All IsByte (encode_frame_header h)
unfolding encode_frame_header
encode_frame_header-IsByte h r = omega arith

-- A header in range, with the version, a clear compression bit and a payload within the limit, is
-- decoded to itself.
pub decode-encode :
    (h : FrameHeader) (max_payload : ℕ)
    → HeaderInRange h
    → h.ver ≡ proto_version
    → bit_and h.flags 2 ≡ 0
    → h.payload_len ≤ max_payload
    → decode_frame_header (encode_frame_header h) max_payload ≡ ok h
unfolding encode_frame_header decode_frame_header
decode-encode h m r v c l = ground arith

pub decode_checked :
    (inp : Bytes) (max_payload : ℕ) (h : FrameHeader)
    → decode_frame_header inp max_payload ≡ ok h
    → (h.ver ≡ proto_version) × (bit_and h.flags 2 ≡ 0) × (h.payload_len ≤ max_payload)
unfolding decode_frame_header
decode_checked inp m h e = ground arith
