-- ===== src/Wire/StreamFrame/Bytes.antt =====
-- The bytes that a STREAM frame is written as.
use mpquic_latency.Base.{
  ℕ, zero, suc, ◌+◌, ◌*◌, ◌%◌, ◌^◌, ◌≤◌, ◌<◌, ◌≡◌, ◌≢◌, refl, ap, ◌∙◌, Bool, true, false, not, ◌&&◌,
  if◌then◌else◌, ◌==◌, ==_iff, List, [], ◌∷◌, ◌++◌, length, ℤ, arith,
}
use native.Mathlib.Nat.{mod-eq_of_lt}
use mpquic_latency.Wire.Frame.{StreamFrame}
use mpquic_latency.Utils.Buffer.{written}
use mpquic_latency.Utils.ByteOrder.{
  ByteOrder, get_byte_order, write_uint32, write_uint24, write_uint16,
}
use mpquic_latency.Utils.ByteOrder.RoundTrip.{
  encoded, length-encoded, write_uint64-encoded, write_uint56-encoded, write_uint48-encoded,
  write_uint40-encoded, write_uint32-encoded, write_uint24-encoded, write_uint16-encoded,
}
use mpquic_latency.Wire.StreamFrame.{
  has_fin_bit, has_data_len, offset_len, stream_id_len, max_packet_size, calculate_stream_id_length,
  get_offset_length, type_byte_of, write_stream_id, write_offset, write_data_len,
  write_stream_frame,
}
use mpquic_latency.Wire.StreamFrame.TypeByte.{reads_back, reads_back_holds, same_eq}

module _ (o : ByteOrder) (v : ℕ) where
  one_byte : v < 2 ^ 8 → written (v % 2 ^ 8 ∷ []) ≡ written (encoded o 1 v)
  unfolding encoded
  one_byte h = ground arith

  pub modulo : (m : ℕ) → v < m → v % m ≡ v
  modulo m h = mod-eq_of_lt h

  write_stream_id-encoded :
      (k : ℕ) → 1 ≤ k → k ≤ 4 → v < 2 ^ (k * 8) → write_stream_id o k v ≡ written (encoded o k v)
  unfolding write_stream_id
  write_stream_id-encoded zero lo hi h = absurd (omega arith)
  write_stream_id-encoded (suc zero) lo hi h = one_byte h
  write_stream_id-encoded (suc (suc zero)) lo hi h =
      ap (write_uint16 o) (modulo (2 ^ 16) h) ∙ write_uint16-encoded o v h
  write_stream_id-encoded (suc (suc (suc zero))) lo hi h =
      ap (write_uint24 o) (modulo (2 ^ 32) (omega arith)) ∙ write_uint24-encoded o v h
  write_stream_id-encoded (suc (suc (suc (suc zero)))) lo hi h =
      ap (write_uint32 o) (modulo (2 ^ 32) h) ∙ write_uint32-encoded o v h
  write_stream_id-encoded (suc (suc (suc (suc (suc k))))) lo hi h = absurd (omega arith)

  write_offset-encoded :
      (k : ℕ) → k ≢ 1 → k ≤ 8 → v < 2 ^ (k * 8) → write_offset o k v ≡ written (encoded o k v)
  unfolding write_offset encoded
  write_offset-encoded zero ne hi h = refl
  write_offset-encoded (suc zero) ne hi h = absurd (ne refl)
  write_offset-encoded (suc (suc zero)) ne hi h =
      ap (write_uint16 o) (modulo (2 ^ 16) h) ∙ write_uint16-encoded o v h
  write_offset-encoded (suc (suc (suc zero))) ne hi h =
      ap (write_uint24 o) (modulo (2 ^ 32) (omega arith)) ∙ write_uint24-encoded o v h
  write_offset-encoded (suc (suc (suc (suc zero)))) ne hi h =
      ap (write_uint32 o) (modulo (2 ^ 32) h) ∙ write_uint32-encoded o v h
  write_offset-encoded (suc (suc (suc (suc (suc zero))))) ne hi h = write_uint40-encoded o v h
  write_offset-encoded (suc (suc (suc (suc (suc (suc zero)))))) ne hi h = write_uint48-encoded o v h
  write_offset-encoded (suc (suc (suc (suc (suc (suc (suc zero))))))) ne hi h =
      write_uint56-encoded o v h
  write_offset-encoded (suc (suc (suc (suc (suc (suc (suc (suc zero)))))))) ne hi h =
      write_uint64-encoded o v h
  write_offset-encoded (suc (suc (suc (suc (suc (suc (suc (suc (suc k))))))))) ne hi h =
      absurd (omega arith)

module _ (f : StreamFrame) where
  id_length_range :
      f.stream_id < 2 ^ 32
      → (1 ≤ calculate_stream_id_length f)
        × (calculate_stream_id_length f ≤ 4)
        × (f.stream_id < 2 ^ (calculate_stream_id_length f * 8))
  unfolding calculate_stream_id_length
  id_length_range h = ground arith

  offset_length_range :
      f.offset < 2 ^ 64
      → (get_offset_length f ≢ 1)
        × (get_offset_length f ≤ 8)
        × (f.offset < 2 ^ (get_offset_length f * 8))
  unfolding get_offset_length
  offset_length_range h = ground arith

  -- The bytes of the frame.
  abbrev pub data_len_bytes : ByteOrder → Bool → List ℕ
  data_len_bytes o true = encoded o 2 (length f.payload)
  data_len_bytes o false = []

  abbrev pub header_byte : ℕ
  header_byte =
      type_byte_of f.fin_bit f.data_len_present (get_offset_length f) (calculate_stream_id_length f)

  abbrev pub id_bytes : ByteOrder → List ℕ
  id_bytes o = encoded o (calculate_stream_id_length f) f.stream_id

  abbrev pub offset_bytes : ByteOrder → List ℕ
  offset_bytes o = encoded o (get_offset_length f) f.offset

  data_len_written :
      (o : ByteOrder) (present : Bool)
      → length f.payload ≤ max_packet_size
      → write_data_len o present (length f.payload) ≡ written (data_len_bytes o present)
  data_len_written o true h =
      ap (write_uint16 o) (modulo o (length f.payload) (2 ^ 16) (omega arith))
      ∙ write_uint16-encoded o (length f.payload) (omega arith)
  data_len_written o false h = refl

  pub length-data_len_bytes :
      (o : ByteOrder) (present : Bool)
      → length (data_len_bytes o present) ≡ (if present then 2 else 0)
  length-data_len_bytes o true = length-encoded o 2 (length f.payload)
  length-data_len_bytes o false = refl

-- A frame that can be written and read back: the numbers have their Go types, the data does not go
-- beyond the largest offset, and there is data or the FIN bit.
pub record IsSendable (f : StreamFrame) : Type 0 where
  pub stream_id_fits : f.stream_id < 2 ^ 32
  pub data_fits : f.offset + length f.payload < 2 ^ 64
  pub data_short : length f.payload ≤ max_packet_size
  pub something : (length f.payload == 0) && not f.fin_bit ≡ false

module _ (f : StreamFrame) (s : IsSendable f) where
  pub id_range :
      (1 ≤ calculate_stream_id_length f)
      × (calculate_stream_id_length f ≤ 4)
      × (f.stream_id < 2 ^ (calculate_stream_id_length f * 8))
  id_range = id_length_range f s.stream_id_fits

  pub offset_range :
      (get_offset_length f ≢ 1)
      × (get_offset_length f ≤ 8)
      × (f.offset < 2 ^ (get_offset_length f * 8))
  offset_range = offset_length_range f (omega (arith, s.data_fits))

  pub header_byte_reads_back :
      (has_fin_bit (header_byte f) ≡ f.fin_bit)
      × (has_data_len (header_byte f) ≡ f.data_len_present)
      × (offset_len (header_byte f) ≡ get_offset_length f)
      × (stream_id_len (header_byte f) ≡ calculate_stream_id_length f)
  unfolding reads_back
  header_byte_reads_back = grind (
    arith,
    reads_back_holds f.fin_bit f.data_len_present (get_offset_length f)
        (calculate_stream_id_length f) (omega (arith, offset_range)) offset_range.0 id_range.0
        id_range.1,
    same_eq,
    ==_iff,
  )

  module _ (version : ℤ) where
    pub write_stream_frame_bytes :
        write_stream_frame f version
        ≡ written (
            header_byte f ∷ id_bytes f (get_byte_order version)
            ++ (offset_bytes f (get_byte_order version)
                ++ (data_len_bytes f (get_byte_order version) f.data_len_present ++ f.payload)))
    unfolding write_stream_frame
    write_stream_frame_bytes = rw (
      s.something,
      write_stream_id-encoded (get_byte_order version) f.stream_id (calculate_stream_id_length f)
          id_range.0 id_range.1 id_range.2,
      write_offset-encoded (get_byte_order version) f.offset (get_offset_length f) offset_range.0
          offset_range.1 offset_range.2,
      data_len_written f (get_byte_order version) f.data_len_present s.data_short,
    )
