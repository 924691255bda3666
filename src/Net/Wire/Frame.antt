-- ===== src/Net/Wire/Frame.antt =====
-- Whole frames over a transport: what is sent is received, and what is received has been checked.
use Prim.Native.Nat.{bit_and}
use rtdb_common.Common.{
  ℕ, ◌≤◌, ◌<◌, ◌^◌, ◌≡◌, ◌⊎◌, arith, refl, ◌∙◌, length, All, [], ◌∷◌, ◌++◌, take_all, Option, none,
  some, if◌then◌else◌, append-nil, append_assoc, Bool-cases, inl, inr, ltb,
}
use rtdb_common.Types.{Bytes, ok, Result-cases}
use rtdb_common.Infra.Crc32.{IsByte, crc32_update, crc32_update-lt}
use rtdb_common.Net.Wire.{
  FrameHeader, encode_frame_header, decode_frame_header, proto_version, frame_header_bytes,
  compute_frame_crc, default_max_payload_bytes, payload_limit, body_of, Transport, write_frame,
  read_frame,
}
use rtdb_common.Net.Wire.Header.{
  HeaderInRange, decode-encode, decode_checked, encode_frame_header-IsByte,
  length-encode_frame_header,
}

-- What is documented of a stream socket: `sent` is what has been handed to it, `pending` what is
-- still to be received from it.
pub record Stream (t : Transport) : Type 0 where
  pub sent : t.Socket → Bytes
  pub pending : t.Socket → Bytes
  -- A successful send hands over the whole buffer.
  pub send_law : (s s' : t.Socket) (b : Bytes) → t.send_all s b ≡ ok s' → sent s' ≡ sent s ++ b
  -- Bytes that have arrived can be received, in order.
  pub recv_law :
      (s : t.Socket) (b rest : Bytes)
      → pending s ≡ b ++ rest
      → (s' : t.Socket) × (t.recv_exact s (length b) ≡ ok (b, s')) × (pending s' ≡ rest)
  -- A successful receive fills the buffer.
  pub recv_length :
      (s s' : t.Socket) (n : ℕ) (b : Bytes) → t.recv_exact s n ≡ ok (b, s') → length b ≡ n

-- The header as `WriteFrame` sends it.
abbrev pub sealed : FrameHeader → Option Bytes → FrameHeader
sealed h payload = record h {
  ver = proto_version;
  crc = compute_frame_crc (record h { ver = proto_version }) payload;
}

-- A payload in a list, with the pointer to it.
pub record PayloadOf (h : FrameHeader) (p : Bytes) : Type 0 where
  pub bytes : All IsByte p
  pub long : length p ≡ h.payload_len

header_crc :
    (h : FrameHeader)
    → HeaderInRange h
    → crc32_update 0 (encode_frame_header (record h { ver = proto_version; crc = 0 })) < 2 ^ 32
header_crc h r = crc32_update-lt 0 _ (omega arith) (
    encode_frame_header-IsByte (record h { ver = proto_version; crc = 0 })
      (record {
        ver = omega arith;
        flags = r.flags;
        session = r.session;
        func = r.func;
        payload_len = r.payload_len;
        crc = omega arith;
      }))

crc_range :
    (h : FrameHeader) (p : Bytes)
    → HeaderInRange h
    → PayloadOf h p
    → compute_frame_crc h (body_of p) < 2 ^ 32
unfolding compute_frame_crc
crc_range h [] r q = header_crc h r
crc_range h (b ∷ p) r q = elim (Bool-cases (ltb 0 h.payload_len)) [
  | inl e ↦ rw e (
      rw (take_all h.payload_len (b ∷ p) (omega (arith, q.long)))
        (crc32_update-lt _ (b ∷ p) (header_crc h r) q.bytes))
  | inr e ↦ rw e (header_crc h r)
]

sealed-HeaderInRange :
    (h : FrameHeader) (p : Bytes)
    → HeaderInRange h
    → PayloadOf h p
    → HeaderInRange (sealed h (body_of p))
sealed-HeaderInRange h p r q = record {
  ver = omega arith;
  flags = r.flags;
  session = r.session;
  func = r.func;
  payload_len = r.payload_len;
  crc =
      crc_range (record h { ver = proto_version }) p
        (record {
          ver = omega arith;
          flags = r.flags;
          session = r.session;
          func = r.func;
          payload_len = r.payload_len;
          crc = r.crc;
        })
        (record { bytes = q.bytes; long = q.long });
}

-- Sealing a header does not change the checksum that is computed for it.
crc-sealed :
    (h : FrameHeader) (o : Option Bytes)
    → compute_frame_crc (sealed h o) o ≡ compute_frame_crc (record h { ver = proto_version }) o
unfolding compute_frame_crc
crc-sealed h none = refl
crc-sealed h (some p) = refl

module _ (t : Transport) (x : Stream t) where
  open t use {Socket, send_all, recv_exact}
  open x use {sent, pending, send_law, recv_law, recv_length}

  -- A successful write has sent the sealed header and the payload, and nothing else.
  pub write_frame_sends :
      (s s' : Socket) (h : FrameHeader) (p : Bytes)
      → length p ≡ h.payload_len
      → write_frame t s h (body_of p) ≡ ok s'
      → sent s' ≡ sent s ++ (encode_frame_header (sealed h (body_of p)) ++ p)
  unfolding write_frame
  write_frame_sends s s' h [] l e =
      elim (Result-cases (send_all s (encode_frame_header (sealed h none)))) [
        | inl (s1, q) ↦ rw append-nil (ground (arith, send_law s s1 _ q))
        | inr (y, q) ↦ ground (arith, q)
      ]
  write_frame_sends s s' h (b ∷ p) l e =
      let hdr = encode_frame_header (sealed h (some (b ∷ p))) in
      elim (Result-cases (send_all s hdr)) [
        | inl (s1, q) ↦ ground (
          arith,
          q,
          take_all h.payload_len (b ∷ p),
          send_law s s1 hdr q,
          send_law s1 s' (b ∷ p),
          append_assoc (sent s) hdr (b ∷ p),
        )
        | inr (y, q) ↦ ground (arith, q)
      ]

  -- Whatever arrives, a frame that is accepted has the version, a clear compression bit, a payload
  -- of the announced length, within the default limit and within the caller's where that is not 0, and
  -- the checksum of its header and payload.
  pub read_frame_checked :
      (s s' : Socket) (m : ℕ) (h : FrameHeader) (p : Bytes)
      → read_frame t s m ≡ ok (h, p, s')
      → (h.ver ≡ proto_version)
        × (bit_and h.flags 2 ≡ 0)
        × (h.payload_len ≤ default_max_payload_bytes)
        × ((m ≡ 0) ⊎ (h.payload_len ≤ m))
        × (length p ≡ h.payload_len)
        × (compute_frame_crc h (body_of p) ≡ h.crc)
  unfolding read_frame payload_limit
  read_frame_checked s s' m h p e = elim (Result-cases (recv_exact s frame_header_bytes)) [
    | inl ((hdr, s1), q) ↦ elim (Result-cases (decode_frame_header hdr (payload_limit m))) [
      | inl (h1, d) ↦ elim (Result-cases (recv_exact s1 h1.payload_len)) [
        | inl ((p1, s2), w) ↦
            ground
              (arith, q, d, w, decode_checked hdr (payload_limit m) h1 d, recv_length s1 s2 _ p1 w)
        | inr (y, w) ↦ ground (arith, q, d, w, decode_checked hdr (payload_limit m) h1 d)
      ]
      | inr (y, d) ↦ ground (arith, q, d)
    ]
    | inr (y, q) ↦ ground (arith, q)
  ]

  read_frame_steps :
      (s s1 s2 : Socket) (m : ℕ) (hdr : Bytes) (h : FrameHeader) (p : Bytes)
      → recv_exact s frame_header_bytes ≡ ok (hdr, s1)
      → decode_frame_header hdr (payload_limit m) ≡ ok h
      → (if ltb 0 h.payload_len then recv_exact s1 h.payload_len else ok ([], s1)) ≡ ok (p, s2)
      → compute_frame_crc h (body_of p) ≡ h.crc
      → read_frame t s m ≡ ok (h, p, s2)
  unfolding read_frame
  read_frame_steps s s1 s2 m hdr h p e d w c = rw (e, d) (rw w (ground arith))

  receive_payload :
      (s1 : Socket) (h : FrameHeader) (p rest : Bytes)
      → length p ≡ h.payload_len
      → pending s1 ≡ p ++ rest
      → (s2 : Socket) × ((if ltb 0 h.payload_len then recv_exact s1 h.payload_len else ok ([], s1))
          ≡ ok (p, s2))
        × (pending s2 ≡ rest)
  receive_payload s1 h [] rest l e = (s1, ground arith, e)
  receive_payload s1 h (b ∷ p) rest l e =
      let (s2, got, left) = recv_law s1 (b ∷ p) rest e in (s2, ground (arith, got), left)

  -- A sealed frame whose bytes arrive is accepted with its payload, and nothing behind it is taken.
  pub read_frame-arrived :
      (s : Socket) (m : ℕ) (h : FrameHeader) (p rest : Bytes)
      → HeaderInRange h
      → PayloadOf h p
      → bit_and h.flags 2 ≡ 0
      → h.payload_len ≤ payload_limit m
      → pending s ≡ (encode_frame_header (sealed h (body_of p)) ++ p) ++ rest
      → (s' : Socket) × (read_frame t s m ≡ ok (sealed h (body_of p), p, s')) × (pending s' ≡ rest)
  read_frame-arrived s m h p rest r q c l e =
      let h' : FrameHeader = sealed h (body_of p) in
      let hdr = encode_frame_header h' in
      let (s1, got, left) = recv_law s hdr (p ++ rest) (e ∙ append_assoc hdr p rest) in
      let (s2, got', left') = receive_payload s1 h' p rest q.long left in
      let whole : recv_exact s frame_header_bytes ≡ ok (hdr, s1) =
        rw (length-encode_frame_header h') at got in
      (
        s2,
        read_frame_steps s s1 s2 m hdr h' p whole
            (decode-encode h' (payload_limit m) (sealed-HeaderInRange h p r q) refl c l) got'
            (crc-sealed h (body_of p)),
        left',
      )
