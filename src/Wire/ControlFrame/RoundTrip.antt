-- ===== src/Wire/ControlFrame/RoundTrip.antt =====
-- Parsing gives back the small frames that were written.
use mathlib.Core.List.{append_assoc}
use native.Mathlib.Nat.{mod-eq_of_lt}
use mpquic_latency.Base.{
  ℕ, zero, suc, ◌*◌, ◌%◌, ◌-◌, ◌^◌, ◌≤◌, ◌<◌, ◌≡◌, ap, ◌∙◌, false, ltb, leb, ◌==◌, List, [], ◌∷◌,
  ◌++◌, length, length-append, ℤ, arith, sub64, ◌⊎◌,
}
use mpquic_latency.Wire.Frame.{
  RstStreamFrame, WindowUpdateFrame, BlockedFrame, GoawayFrame, ConnectionCloseFrame,
  StopWaitingFrame,
}
use mpquic_latency.Wire.StreamFrame.{max_packet_size}
use mpquic_latency.Utils.Buffer.{Reader, parsed, Written, written, read_full-append}
use mpquic_latency.Utils.ByteOrder.{
  ByteOrder, get_byte_order, write_uint32, write_uint16, write_uint48,
}
use mpquic_latency.Utils.ByteOrder.RoundTrip.{
  encoded, length-encoded, read_uint_n-encoded, read_uint16-encoded, read_uint32-encoded,
  read_uint64-encoded, write_uint64-encoded, write_uint48-encoded, write_uint32-encoded,
  write_uint16-encoded,
}
use mpquic_latency.Wire.ControlFrame.{
  write_window_update_frame, parse_window_update_frame, write_rst_stream_frame,
  parse_rst_stream_frame, write_blocked_frame, parse_blocked_frame, write_goaway_frame,
  parse_goaway_frame, write_connection_close_frame, parse_connection_close_frame,
  write_least_unacked_delta, write_stop_waiting_frame, parse_stop_waiting_frame,
  window_update_min_length, rst_stream_min_length, blocked_min_length, goaway_min_length,
  connection_close_min_length, stop_waiting_min_length,
}

-- What is written has the length, and parsing gives the frame back and leaves what follows.
abbrev pub RoundTrips : {A : Type 0} → Written → ℕ → Reader A → A → List ℕ → Type 0
RoundTrips {A} w n parse a rest =
    (bytes : List ℕ) × (w ≡ written bytes)
    × (length bytes ≡ n)
    × (parse (bytes ++ rest) ≡ parsed a rest)

write_word :
    (o : ByteOrder) (v : ℕ) → v < 2 ^ 32 → write_uint32 o (v % 2 ^ 32) ≡ written (encoded o 4 v)
write_word o v h = ap (write_uint32 o) (mod-eq_of_lt h) ∙ write_uint32-encoded o v h

write_half :
    (o : ByteOrder) (v : ℕ) → v < 2 ^ 16 → write_uint16 o (v % 2 ^ 16) ≡ written (encoded o 2 v)
write_half o v h = ap (write_uint16 o) (mod-eq_of_lt h) ∙ write_uint16-encoded o v h

phrase_fits : (n : ℕ) → n ≤ max_packet_size → ltb max_packet_size n ≡ false
phrase_fits n h = ground arith

phrase_writable : (n : ℕ) → n ≤ max_packet_size → ltb (2 ^ 16 - 1) n ≡ false
phrase_writable n h = ground arith

module _ (version : ℤ) (rest : List ℕ) where
  pub blocked_frame_round_trip :
      (f : BlockedFrame)
      → f.stream_id < 2 ^ 32
      → RoundTrips
          (write_blocked_frame f version)
          blocked_min_length
          (parse_blocked_frame version)
          f
          rest
  unfolding write_blocked_frame parse_blocked_frame
  blocked_frame_round_trip f hs = (
    0x05 ∷ ids,
    rw (write_word (get_byte_order version) f.stream_id hs),
    omega (arith, length-encoded (get_byte_order version) 4 f.stream_id),
    rw (read_uint32-encoded f.stream_id rest (get_byte_order version) hs),
  )
    where
      ids : List ℕ
      ids = encoded (get_byte_order version) 4 f.stream_id

  pub window_update_frame_round_trip :
      (f : WindowUpdateFrame)
      → f.stream_id < 2 ^ 32
      → f.byte_offset < 2 ^ 64
      → RoundTrips
          (write_window_update_frame f version)
          window_update_min_length
          (parse_window_update_frame version)
          f
          rest
  unfolding write_window_update_frame parse_window_update_frame
  window_update_frame_round_trip f hs ho = (
    0x04 ∷ (ids ++ offsets),
    rw (
      write_word (get_byte_order version) f.stream_id hs,
      write_uint64-encoded (get_byte_order version) f.byte_offset ho,
    ),
    omega (
      arith,
      length-append ids offsets,
      length-encoded (get_byte_order version) 4 f.stream_id,
      length-encoded (get_byte_order version) 8 f.byte_offset,
    ),
    rw (
      append_assoc ids offsets rest,
      read_uint32-encoded f.stream_id (offsets ++ rest) (get_byte_order version) hs,
      read_uint64-encoded f.byte_offset rest (get_byte_order version) ho,
    ),
  )
    where
      ids : List ℕ
      ids = encoded (get_byte_order version) 4 f.stream_id

      offsets : List ℕ
      offsets = encoded (get_byte_order version) 8 f.byte_offset

  pub rst_stream_frame_round_trip :
      (f : RstStreamFrame)
      → f.stream_id < 2 ^ 32
      → f.byte_offset < 2 ^ 64
      → f.error_code < 2 ^ 32
      → RoundTrips
          (write_rst_stream_frame f version)
          rst_stream_min_length
          (parse_rst_stream_frame version)
          f
          rest
  unfolding write_rst_stream_frame parse_rst_stream_frame
  rst_stream_frame_round_trip f hs ho he = (
    0x01 ∷ (ids ++ (offsets ++ codes)),
    rw (
      write_word (get_byte_order version) f.stream_id hs,
      write_uint64-encoded (get_byte_order version) f.byte_offset ho,
      write_uint32-encoded (get_byte_order version) f.error_code he,
    ),
    omega (
      arith,
      length-append ids (offsets ++ codes),
      length-encoded (get_byte_order version) 4 f.stream_id,
      length-append offsets codes,
      length-encoded (get_byte_order version) 8 f.byte_offset,
      length-encoded (get_byte_order version) 4 f.error_code,
    ),
    rw (
      append_assoc ids (offsets ++ codes) rest,
      append_assoc offsets codes rest,
      read_uint32-encoded f.stream_id (offsets ++ (codes ++ rest)) (get_byte_order version) hs,
      read_uint64-encoded f.byte_offset (codes ++ rest) (get_byte_order version) ho,
      read_uint32-encoded f.error_code rest (get_byte_order version) he,
    ),
  )
    where
      ids : List ℕ
      ids = encoded (get_byte_order version) 4 f.stream_id

      offsets : List ℕ
      offsets = encoded (get_byte_order version) 8 f.byte_offset

      codes : List ℕ
      codes = encoded (get_byte_order version) 4 f.error_code

  pub goaway_frame_round_trip :
      (f : GoawayFrame)
      → f.error_code < 2 ^ 32
      → f.last_good_stream < 2 ^ 32
      → length f.reason_phrase ≤ max_packet_size
      → RoundTrips
          (write_goaway_frame f version)
          (goaway_min_length f)
          (parse_goaway_frame version)
          f
          rest
  unfolding write_goaway_frame parse_goaway_frame
  goaway_frame_round_trip f he hs short = (
    0x03 ∷ (codes ++ (ids ++ (lens ++ phrase))),
    rw (
      write_word (get_byte_order version) f.error_code he,
      write_word (get_byte_order version) f.last_good_stream hs,
      write_half (get_byte_order version) (length f.reason_phrase) (omega (arith, short)),
    ),
    omega (
      arith,
      length-append codes (ids ++ (lens ++ phrase)),
      length-encoded (get_byte_order version) 4 f.error_code,
      length-append ids (lens ++ phrase),
      length-encoded (get_byte_order version) 4 f.last_good_stream,
      length-append lens phrase,
      length-encoded (get_byte_order version) 2 (length f.reason_phrase),
    ),
    rw (
      append_assoc codes (ids ++ (lens ++ phrase)) rest,
      append_assoc ids (lens ++ phrase) rest,
      append_assoc lens phrase rest,
      read_uint32-encoded f.error_code (ids ++ (lens ++ (phrase ++ rest))) (get_byte_order version)
          he,
      read_uint32-encoded f.last_good_stream (lens ++ (phrase ++ rest)) (get_byte_order version) hs,
      read_uint16-encoded (length f.reason_phrase) (phrase ++ rest) (get_byte_order version)
          (omega (arith, short)),
      phrase_fits (length f.reason_phrase) short,
      read_full-append f.reason_phrase rest,
    ),
  )
    where
      codes : List ℕ
      codes = encoded (get_byte_order version) 4 f.error_code

      ids : List ℕ
      ids = encoded (get_byte_order version) 4 f.last_good_stream

      lens : List ℕ
      lens = encoded (get_byte_order version) 2 (length f.reason_phrase)

      phrase : List ℕ
      phrase = f.reason_phrase

  pub connection_close_frame_round_trip :
      (f : ConnectionCloseFrame)
      → f.error_code < 2 ^ 32
      → length f.reason_phrase ≤ max_packet_size
      → RoundTrips
          (write_connection_close_frame f version)
          (connection_close_min_length f)
          (parse_connection_close_frame version)
          f
          rest
  unfolding write_connection_close_frame parse_connection_close_frame
  connection_close_frame_round_trip f he short = (
    0x02 ∷ (codes ++ (lens ++ phrase)),
    rw (
      phrase_writable (length f.reason_phrase) short,
      write_word (get_byte_order version) f.error_code he,
      write_half (get_byte_order version) (length f.reason_phrase) (omega (arith, short)),
    ),
    omega (
      arith,
      length-append codes (lens ++ phrase),
      length-encoded (get_byte_order version) 4 f.error_code,
      length-append lens phrase,
      length-encoded (get_byte_order version) 2 (length f.reason_phrase),
    ),
    rw (
      append_assoc codes (lens ++ phrase) rest,
      append_assoc lens phrase rest,
      read_uint32-encoded f.error_code (lens ++ (phrase ++ rest)) (get_byte_order version) he,
      read_uint16-encoded (length f.reason_phrase) (phrase ++ rest) (get_byte_order version)
          (omega (arith, short)),
      phrase_fits (length f.reason_phrase) short,
      read_full-append f.reason_phrase rest,
    ),
  )
    where
      codes : List ℕ
      codes = encoded (get_byte_order version) 4 f.error_code

      lens : List ℕ
      lens = encoded (get_byte_order version) 2 (length f.reason_phrase)

      phrase : List ℕ
      phrase = f.reason_phrase

abbrev pub IsPacketNumberLen : ℕ → Type 0
IsPacketNumberLen len = (len ≡ 1) ⊎ (len ≡ 2) ⊎ (len ≡ 4) ⊎ (len ≡ 6)

one_byte_delta :
    (o : ByteOrder) (v : ℕ) → v < 2 ^ 8 → written (v % 2 ^ 8 ∷ []) ≡ written (encoded o 1 v)
unfolding encoded
one_byte_delta o v h = ground arith

write_least_unacked_delta-encoded :
    (o : ByteOrder) (len delta : ℕ)
    → IsPacketNumberLen len
    → delta < 2 ^ (len * 8)
    → write_least_unacked_delta o len delta ≡ written (encoded o len delta)
unfolding write_least_unacked_delta
write_least_unacked_delta-encoded o zero delta l h = absurd (ground arith)
write_least_unacked_delta-encoded o (suc zero) delta l h = one_byte_delta o delta h
write_least_unacked_delta-encoded o (suc (suc zero)) delta l h =
    ap (write_uint16 o) (mod-eq_of_lt h) ∙ write_uint16-encoded o delta h
write_least_unacked_delta-encoded o (suc (suc (suc zero))) delta l h = absurd (ground arith)
write_least_unacked_delta-encoded o (suc (suc (suc (suc zero)))) delta l h =
    ap (write_uint32 o) (mod-eq_of_lt h) ∙ write_uint32-encoded o delta h
write_least_unacked_delta-encoded o (suc (suc (suc (suc (suc zero))))) delta l h =
    absurd (ground arith)
write_least_unacked_delta-encoded o (suc (suc (suc (suc (suc (suc zero)))))) delta l h =
    ap (write_uint48 o) (mod-eq_of_lt h) ∙ write_uint48-encoded o delta h
write_least_unacked_delta-encoded o (suc (suc (suc (suc (suc (suc (suc k))))))) delta l h =
    absurd (ground arith)

distance : (a b : ℕ) → a < 2 ^ 64 → b ≤ a → sub64 a b ≡ a - b
distance a b h le = omega arith

-- A STOP_WAITING frame whose distance to the packet's own number fits into the length of that
-- number is written without an error in as many bytes as MinLength says. Parsing them with the
-- number and the length of the packet gives the least unacked packet number, when it is not 0.
pub stop_waiting_frame_round_trip :
    (f : StopWaitingFrame) (version : ℤ) (rest : List ℕ)
    → IsPacketNumberLen f.packet_number_len
    → f.packet_number < 2 ^ 64
    → 0 < f.least_unacked
    → f.least_unacked ≤ f.packet_number
    → f.packet_number - f.least_unacked < 2 ^ (f.packet_number_len * 8)
    → RoundTrips
        (write_stop_waiting_frame f version)
        (stop_waiting_min_length f).0
        (parse_stop_waiting_frame f.packet_number f.packet_number_len version)
        (record { least_unacked = f.least_unacked; packet_number_len = 0; packet_number = 0 })
        rest
unfolding write_stop_waiting_frame parse_stop_waiting_frame
stop_waiting_frame_round_trip f version rest l fits above le near = (
  0x06 ∷ encoded (get_byte_order version) f.packet_number_len (f.packet_number - f.least_unacked),
  rw (
    number_set,
    in_order,
    distance f.packet_number f.least_unacked fits le,
    write_least_unacked_delta-encoded (get_byte_order version) f.packet_number_len
        (f.packet_number - f.least_unacked) l near,
  ),
  ground (
    arith,
    length-encoded (get_byte_order version) f.packet_number_len (f.packet_number - f.least_unacked),
  ),
  rw (
    read_uint_n-encoded (get_byte_order version) f.packet_number_len
        (f.packet_number - f.least_unacked) rest (ground arith) near,
    delta_smaller,
    least_again,
  ),
)
  where
    number_set : (f.packet_number == 0) ≡ false
    number_set = ground arith

    in_order : ltb f.packet_number f.least_unacked ≡ false
    in_order = ground arith

    delta_smaller : leb f.packet_number (f.packet_number - f.least_unacked) ≡ false
    delta_smaller = ground arith

    least_again : sub64 f.packet_number (f.packet_number - f.least_unacked) ≡ f.least_unacked
    least_again = omega arith
