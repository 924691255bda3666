-- ===== src/Net/Wire.antt =====
-- Frames of the network protocol (src/net/wire.cpp): a header of 20 bytes and a payload, with a
-- CRC32 over the header, its checksum field zero, and the payload.
pub mod Header
pub mod Frame
use Prim.Native.Nat.{bit_and}
use rtdb_common.Common.{
  ℕ, ◌+◌, ◌*◌, ◌/◌, ◌%◌, ◌^◌, List, [], ◌∷◌, ◌++◌, Bool, true, false, not, ◌&&◌, ◌||◌, ℤ, pos,
  length, take, get_or, leb, ltb, ◌==◌, if◌then◌else◌, Option, none, some,
}
use rtdb_common.Types.{
  Bytes, Err, k_ok, k_invalid_argument, k_protocol_error, err_code, Result, ok, err, ◌>>=◌, ◌>>◌,
  guard,
}
use rtdb_common.Infra.Crc32.{crc32_update}
use rtdb_common.Net.Writer
use rtdb_common.Net.Reader
use rtdb_common.Net.Reader.{Reader}

abbrev pub frame_header_bytes : ℕ
frame_header_bytes = 20

abbrev pub proto_version : ℕ
proto_version = 1

abbrev pub default_max_payload_bytes : ℕ
default_max_payload_bytes = 4 * 1024 * 1024

pub record FrameHeader : Type 0 where
  pub ver : ℕ
  pub flags : ℕ
  pub session : ℕ
  pub func : ℕ
  pub payload_len : ℕ
  pub crc : ℕ

-- `PutU16`, `PutU32`: the bytes from `p` on, in front of what is written behind them.
unfoldable pub put_u16 : ℕ → Bytes → Bytes
put_u16 v behind = (v % 256) ∷ (v / 2 ^ 8 % 256) ∷ behind

unfoldable pub put_u32 : ℕ → Bytes → Bytes
put_u32 v behind = (v % 256) ∷ (v / 2 ^ 8 % 256) ∷ (v / 2 ^ 16 % 256) ∷ (v / 2 ^ 24 % 256) ∷ behind

unfoldable pub get_u16 : Bytes → ℕ → ℕ
get_u16 inp p = get_or inp p 0 + get_or inp (p + 1) 0 * 2 ^ 8

unfoldable pub get_u32 : Bytes → ℕ → ℕ
get_u32 inp p =
    get_or inp p 0
    + get_or inp (p + 1) 0 * 2 ^ 8
    + get_or inp (p + 2) 0 * 2 ^ 16
    + get_or inp (p + 3) 0 * 2 ^ 24

unfoldable pub encode_frame_header : FrameHeader → Bytes
unfolding put_u16 put_u32
encode_frame_header h =
    b'R'
    ∷ b'T'
    ∷ b'D'
    ∷ b'B'
    ∷ h.ver
    ∷ h.flags
    ∷ put_u32 h.session (put_u16 h.func (put_u32 h.payload_len (put_u32 h.crc [])))

-- The header is given as the 20 bytes that were read; the null pointers have no counterpart.
unfoldable pub decode_frame_header : Bytes → ℕ → Result FrameHeader
unfolding get_u16 get_u32
decode_frame_header inp max_payload =
    let magic =
      get_or inp 0 0 == b'R'
      && get_or inp 1 0 == b'T'
      && get_or inp 2 0 == b'D'
      && get_or inp 3 0 == b'B' in
    let h : FrameHeader = record {
      ver = get_or inp 4 0;
      flags = get_or inp 5 0;
      session = get_u32 inp 6;
      func = get_u16 inp 10;
      payload_len = get_u32 inp 12;
      crc = get_u32 inp 16;
    } in
    if not magic
    then err k_protocol_error
    else if not (h.ver == proto_version)
    then err k_protocol_error
    else if not (bit_and h.flags 2 == 0)
    then err k_protocol_error
    else if ltb max_payload h.payload_len
    then err k_protocol_error
    else ok h

-- A payload pointer; `none` is the null pointer, and `payload_len` bytes are read from it.
unfoldable pub compute_frame_crc : FrameHeader → Option Bytes → ℕ
compute_frame_crc h payload =
    let zeroed : FrameHeader = record h { ver = proto_version; crc = 0 } in
    let crc = crc32_update 0 (encode_frame_header zeroed) in
    elim payload [
      | none ↦ crc
      | some p ↦
          if ltb 0 zeroed.payload_len then crc32_update crc (take zeroed.payload_len p) else crc
    ]

-- The socket of src/platform, which the operating system implements: sending all of a buffer and
-- receiving exactly so many bytes, each of which may fail.
pub record Transport : Type 1 where
  pub Socket : Type 0
  pub send_all : Socket → Bytes → Result Socket
  pub recv_exact : Socket → ℕ → Result (Bytes × Socket)

-- `max_payload == 0 || max_payload > kDefaultMaxPayloadBytes`
unfoldable pub payload_limit : ℕ → ℕ
payload_limit max_payload =
    if max_payload == 0 || ltb default_max_payload_bytes max_payload
    then default_max_payload_bytes
    else max_payload

-- `payload->empty() ? nullptr : payload->data()`
abbrev pub body_of : Bytes → Option Bytes
body_of [] = none
body_of (b ∷ p) = some (b ∷ p)

module _ (t : Transport) where
  open t use {Socket, send_all, recv_exact}

  unfoldable pub write_frame : Socket → FrameHeader → Option Bytes → Result Socket
  write_frame sock h payload = do
    guard (leb h.payload_len default_max_payload_bytes) k_invalid_argument
    guard (not (ltb 0 h.payload_len && elim payload [ none ↦ true | some p ↦ false ]))
        k_invalid_argument
    let h1 : FrameHeader = record h { ver = proto_version }
    let h2 : FrameHeader = record h1 { crc = compute_frame_crc h1 payload }
    sock1 ← send_all sock (encode_frame_header h2)
    if ltb 0 h.payload_len
        then send_all sock1 (elim payload [ none ↦ [] | some p ↦ take h.payload_len p ])
        else ok sock1

  unfoldable pub read_frame : Socket → ℕ → Result (FrameHeader × Bytes × Socket)
  read_frame sock max_payload = do
    (hdr, sock1) ← recv_exact sock frame_header_bytes
    h ← decode_frame_header hdr (payload_limit max_payload)
    (payload, sock2) ←
        if ltb 0 h.payload_len then recv_exact sock1 h.payload_len else ok ([], sock1)
    guard (compute_frame_crc h (body_of payload) == h.crc) k_protocol_error
    ok (h, payload, sock2)

-- The first field of every response, and the text behind it if it is an error. `message` is the
-- table `ErrorMessage` of src/infra/err.cpp.
unfoldable pub write_response_prologue : (Err → Bytes) → Bytes → Err → Bytes → Bytes
write_response_prologue message w e msg =
    let w1 = Writer.i16 w (pos (err_code e)) in
    let m = (if length msg == 0 then message e else msg) in
    let m' = (if ltb 0xFFFF (length m) then take 0xFFFF m else m) in
    if err_code e == 0 then w1 else Writer.str w1 m'

abbrev is_zero : ℤ → Bool
is_zero (pos n) = n == 0
is_zero _ = false

-- The code of the response with its text, if it has one; a number that is no enumerator is passed
-- on as it is.
unfoldable pub read_response_prologue : Reader → (ℤ × Option Bytes) × Reader
read_response_prologue r =
    let (code, r1) = Reader.i16 r in
    let (text, r2) = Reader.str r1 in
    if not r1.ok
    then ((pos (err_code k_protocol_error), none), r1)
    else if is_zero code
    then ((code, none), r1)
    else if not r2.ok
    then ((pos (err_code k_protocol_error), none), r2)
    else ((code, text), r2)
