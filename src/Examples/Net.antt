-- ===== src/Examples/Net.antt =====
-- Instances for the network protocol of src/net.
use Prim.Native.Nat.{bit_and}
use rtdb_common.Common.{
  ◌⊎◌, inl, inr, ℕ, ◌≤◌, ◌≡◌, refl, arith, List, [], ◌∷◌, ◌++◌, negsuc, length, take, drop, leb,
  if◌then◌else◌, some, length-append, length-take, take-length-append, drop-length-append,
}
use rtdb_common.Types.{
  k_float64, Bytes, ok, err, k_network_error, DataType, k_int32, k_utf8_var, ColumnValue, int_value,
  text_value, null_value,
}
use rtdb_common.Net.Writer
use rtdb_common.Net.Reader
use rtdb_common.Net.Reader.{open_reader}
use rtdb_common.Net.RoundTrip.{str-str}
use rtdb_common.Net.Values.{write_row, read_row}
use rtdb_common.Net.Values.RoundTrip.{FitsColumn, as_columns, read_row-write_row}
use rtdb_common.Net.Wire.{
  FrameHeader, Transport, encode_frame_header, decode_frame_header, compute_frame_crc,
  payload_limit, write_frame, read_frame, proto_version, default_max_payload_bytes,
}
use rtdb_common.Net.Wire.Header.{HeaderInRange, decode-encode}
use rtdb_common.Net.Wire.Frame.{
  Stream, sealed, PayloadOf, write_frame_sends, read_frame_checked, read_frame-arrived,
}

-- A socket as what was sent on it and what is still to come.
abbrev loopback : Transport
loopback = record {
  Socket = Bytes × Bytes;
  send_all = λ s b. ok (s.0 ++ b, s.1);
  recv_exact =
      λ s n. if leb n (length s.1) then ok (take n s.1, (s.0, drop n s.1)) else err k_network_error;
}

receive_law :
    (s : loopback.Socket) (b rest : Bytes)
    → s.1 ≡ b ++ rest
    → (s' : loopback.Socket) × (loopback.recv_exact s (length b) ≡ ok (b, s')) × (s'.1 ≡ rest)
receive_law (s, p) b rest e = (
  (s, rest),
  rw e (
      rw (take-length-append b rest, drop-length-append b rest)
        (ground (arith, length-append b rest))),
  refl,
)

send_law : (s s' : loopback.Socket) (b : Bytes) → loopback.send_all s b ≡ ok s' → s'.0 ≡ s.0 ++ b
send_law (s, p) (s', p') b e = ground (arith, e)

receive_length :
    (s s' : loopback.Socket) (n : ℕ) (b : Bytes)
    → loopback.recv_exact s n ≡ ok (b, s')
    → length b ≡ n
receive_length (s, p) (s', p') n b e = ground (arith, e, length-take n p)

abbrev loopback-Stream : Stream loopback
loopback-Stream = record {
  sent = λ s. s.0;
  pending = λ s. s.1;
  send_law = send_law;
  recv_law = receive_law;
  recv_length = receive_length;
}

abbrev header : FrameHeader
header = record { ver = 1; flags = 0; session = 77; func = 258; payload_len = 3; crc = 0 }

abbrev body : Bytes
body = 10 ∷ 20 ∷ 30 ∷ []

header-InRange : HeaderInRange header
header-InRange = record {
  ver = omega arith;
  flags = omega arith;
  session = omega arith;
  func = omega arith;
  payload_len = omega arith;
  crc = omega arith;
}

decode-encode_example : decode_frame_header (encode_frame_header header) 100 ≡ ok header
decode-encode_example = decode-encode header 100 header-InRange refl refl (omega arith)

abbrev frame : Bytes
frame = encode_frame_header (sealed header (some body)) ++ body

write_frame_ok : write_frame loopback ([], []) header (some body) ≡ ok (frame, [])
unfolding write_frame
write_frame_ok = refl

write_frame_sends_example : frame ≡ [] ++ (encode_frame_header (sealed header (some body)) ++ body)
write_frame_sends_example =
    write_frame_sends loopback loopback-Stream ([], []) (frame, []) header body refl write_frame_ok

within : 3 ≤ payload_limit 0
unfolding payload_limit
within = omega arith

body-PayloadOf : PayloadOf header body
body-PayloadOf = record { bytes = (omega arith, (omega arith, (omega arith, tt))); long = refl }

abbrev Received : Type 0
Received =
    (s' : Bytes × Bytes) × (read_frame loopback ([], frame ++ (5 ∷ [])) 0
      ≡ ok (sealed header (some body), body, s'))
    × (s'.1 ≡ 5 ∷ [])

received : Received
received =
    read_frame-arrived loopback loopback-Stream ([], frame ++ (5 ∷ [])) 0 header body (5 ∷ [])
      header-InRange body-PayloadOf refl within refl

read_frame-arrived_example : Received
read_frame-arrived_example =
    read_frame-arrived loopback loopback-Stream ([], frame ++ (5 ∷ [])) 0 header body (5 ∷ [])
      header-InRange body-PayloadOf refl within refl

within_four : 3 ≤ payload_limit 4
unfolding payload_limit
within_four = omega arith

abbrev Limited : Type 0
Limited =
    (s' : Bytes × Bytes) × (read_frame loopback ([], frame ++ (5 ∷ [])) 4
      ≡ ok (sealed header (some body), body, s'))
    × (s'.1 ≡ 5 ∷ [])

limited : Limited
limited =
    read_frame-arrived loopback loopback-Stream ([], frame ++ (5 ∷ [])) 4 header body (5 ∷ [])
      header-InRange body-PayloadOf refl within_four refl

read_frame_checked_example :
    (proto_version ≡ proto_version)
    × (bit_and 0 2 ≡ 0)
    × (3 ≤ default_max_payload_bytes)
    × (◌≡◌ {A = ℕ} 4 0 ⊎ (3 ≤ 4))
    × (length body ≡ 3)
    × (compute_frame_crc (sealed header (some body)) (some body) ≡ (sealed header (some body)).crc)
read_frame_checked_example =
    read_frame_checked loopback loopback-Stream ([], frame ++ (5 ∷ [])) limited.0 4
      (sealed header (some body)) body limited.1

str-str_example :
    Reader.str (open_reader (Writer.str [] (b'o' ∷ b'k' ∷ []) ++ (9 ∷ [])))
    ≡ (some (b'o' ∷ b'k' ∷ []), open_reader (9 ∷ []))
str-str_example = str-str (b'o' ∷ b'k' ∷ []) (9 ∷ []) (omega arith)

abbrev row : List ColumnValue
row = int_value (negsuc 4) ∷ text_value (b'a' ∷ []) ∷ null_value ∷ null_value ∷ []

abbrev types : List DataType
types = k_int32 ∷ k_utf8_var ∷ k_utf8_var ∷ k_float64 ∷ []

read_row-write_row_example :
    read_row (open_reader (write_row [] row ++ (1 ∷ []))) types
    ≡ (as_columns types row, open_reader (1 ∷ []))
read_row-write_row_example =
    read_row-write_row types row (1 ∷ []) (inr number, (inr text, (inl refl, (inl refl, tt))))
  where
    number : FitsColumn k_int32 (int_value (negsuc 4))
    number = record {
      float_class = refl;
      var_class = refl;
      int_range = omega arith;
      real_range = omega arith;
      bytes_range = omega arith;
    }

    text : FitsColumn k_utf8_var (text_value (b'a' ∷ []))
    text = record {
      float_class = refl;
      var_class = refl;
      int_range = omega arith;
      real_range = omega arith;
      bytes_range = omega arith;
    }
