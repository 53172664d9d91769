-- ===== src/Wire/StreamFrame/RoundTrip.antt =====
-- Parsing gives back the STREAM frame that was written.
use mpquic_latency.Base.{
  ℕ, ◌+◌, ◌^◌, ◌≤◌, ◌<◌, ◌≡◌, refl, ap, ◌∙◌, Bool, true, false, ltb, if◌then◌else◌, List, [], ◌∷◌,
  ◌++◌, length, length-append, ℤ, arith, ◌⊎◌, inl, inr,
}
use mathlib.Core.List.{append_assoc}
use mpquic_latency.Wire.Frame.{StreamFrame}
use mpquic_latency.Utils.Buffer.{parsed, written, read_full-append}
use mpquic_latency.Utils.ByteOrder.{ByteOrder, little_endian, get_byte_order}
use mpquic_latency.Utils.ByteOrder.RoundTrip.{
  length-encoded, read_uint_n-encoded, read_uint16-encoded,
}
use mpquic_latency.Wire.StreamFrame.{
  read_data_len, the_data_len, read_data, max_packet_size, checked, parse_data, parse_stream_frame,
  calculate_stream_id_length, get_offset_length, write_stream_frame, stream_frame_min_length,
}
use mpquic_latency.Wire.StreamFrame.Bytes.{
  IsSendable, data_len_bytes, header_byte, id_bytes, offset_bytes, id_range, offset_range,
  header_byte_reads_back, length-data_len_bytes, modulo, write_stream_frame_bytes,
}

module _ (f : StreamFrame) where
  data_len_read :
      (o : ByteOrder) (present : Bool) (rest : List ℕ)
      → length f.payload ≤ max_packet_size
      → read_data_len o present (data_len_bytes f o present ++ rest)
        ≡ parsed (if present then length f.payload else 0) rest
  data_len_read o true rest h = read_uint16-encoded (length f.payload) rest o (omega arith)
  data_len_read o false rest h = refl

short_enough :
    (present : Bool) (n : ℕ)
    → n ≤ max_packet_size
    → ltb max_packet_size (if present then n else 0) ≡ false
short_enough present n h = ground arith

the_data_len_lem :
    (present : Bool) (bs rest : List ℕ)
    → (present ≡ true) ⊎ (rest ≡ [])
    → length bs < 2 ^ 16
    → the_data_len present (if present then length bs else 0) (bs ++ rest)
      ≡ parsed (length bs) (bs ++ rest)
the_data_len_lem true bs rest h lt = refl
the_data_len_lem false bs rest (inl e) lt = absurd cc
the_data_len_lem false bs rest (inr e) lt =
    ap (λ n. parsed n (bs ++ rest)) (omega (arith, length-append bs rest, ap length e))

read_data-append : (bs rest : List ℕ) → read_data (length bs) (bs ++ rest) ≡ parsed bs rest
read_data-append [] rest = refl
read_data-append (b ∷ bs) rest = ground (arith, read_full-append (b ∷ bs) rest)

module _ (f : StreamFrame) (s : IsSendable f) (version : ℤ) where
  parse_header :
      (rest : List ℕ)
      → parse_stream_frame version (
          header_byte f ∷ id_bytes f (get_byte_order version)
          ++ (offset_bytes f (get_byte_order version)
              ++ (data_len_bytes f (get_byte_order version) f.data_len_present ++ rest)))
        ≡ parse_data
            (header_byte f)
            f.stream_id
            f.offset
            (if f.data_len_present then length f.payload else 0)
            rest
  unfolding parse_stream_frame
  parse_header rest = rw (
    (header_byte_reads_back f s).3,
    read_uint_n-encoded (get_byte_order version) (calculate_stream_id_length f) f.stream_id
        (offset_bytes f (get_byte_order version)
          ++ (data_len_bytes f (get_byte_order version) f.data_len_present ++ rest))
        (omega (arith, (id_range f s))) (id_range f s).2,
    (header_byte_reads_back f s).2,
    read_uint_n-encoded (get_byte_order version) (get_offset_length f) f.offset
        (data_len_bytes f (get_byte_order version) f.data_len_present ++ rest) (offset_range f s).1
        (offset_range f s).2,
    (header_byte_reads_back f s).1,
    data_len_read f (get_byte_order version) f.data_len_present rest s.data_short,
  )

  checked_lem : (rest : List ℕ) → checked f rest ≡ parsed f rest
  unfolding checked
  checked_lem rest = ground (arith, s.data_fits, s.something)

  parse_rest :
      (rest : List ℕ)
      → (f.data_len_present ≡ true) ⊎ (rest ≡ [])
      → parse_data
          (header_byte f)
          f.stream_id
          f.offset
          (if f.data_len_present then length f.payload else 0)
          (f.payload ++ rest)
        ≡ parsed f rest
  unfolding parse_data
  parse_rest rest h = rw (
    short_enough f.data_len_present (length f.payload) s.data_short,
    (header_byte_reads_back f s).1,
    the_data_len_lem f.data_len_present f.payload rest h (omega (arith, s.data_short)),
    read_data-append f.payload rest,
    (header_byte_reads_back f s).0,
    modulo little_endian f.stream_id (2 ^ 32) s.stream_id_fits,
    checked_lem rest,
  )

  -- A frame that can be sent is written without an error, in as many bytes as its header and
  -- its data have. Parsing those bytes gives the frame back and leaves what follows them. When
  -- the frame does not say how long its data is, nothing may follow.
  pub parse_stream_frame-write_stream_frame :
      (rest : List ℕ)
      → (f.data_len_present ≡ true) ⊎ (rest ≡ [])
      → (bytes : List ℕ) × (write_stream_frame f version ≡ written bytes)
        × (length bytes ≡ stream_frame_min_length f + length f.payload)
        × (parse_stream_frame version (bytes ++ rest) ≡ parsed f rest)
  unfolding stream_frame_min_length
  parse_stream_frame-write_stream_frame rest h = (
    header_byte f ∷ ids ++ (offsets ++ (lens ++ f.payload)),
    write_stream_frame_bytes f s version,
    ground (
      arith,
      length-append ids (offsets ++ (lens ++ f.payload)),
      length-append offsets (lens ++ f.payload),
      length-append lens f.payload,
      length-encoded (get_byte_order version) (calculate_stream_id_length f) f.stream_id,
      length-encoded (get_byte_order version) (get_offset_length f) f.offset,
      length-data_len_bytes f (get_byte_order version) f.data_len_present,
    ),
    ap (λ bs. parse_stream_frame version (header_byte f ∷ bs))
          (append_assoc ids (offsets ++ (lens ++ f.payload)) rest
            ∙ ap (λ bs. ids ++ bs)
                (append_assoc offsets (lens ++ f.payload) rest
                  ∙ ap (λ bs. offsets ++ bs) (append_assoc lens f.payload rest)))
        ∙ parse_header (f.payload ++ rest)
        ∙ parse_rest rest h,
  )
    where
      ids : List ℕ
      ids = id_bytes f (get_byte_order version)

      offsets : List ℕ
      offsets = offset_bytes f (get_byte_order version)

      lens : List ℕ
      lens = data_len_bytes f (get_byte_order version) f.data_len_present
