-- ===== src/Utils/Buffer.antt =====
-- Readers and buffers of bytes. A bytes.Reader is the list of the bytes that are left, a byte a
-- number below 256, and a bytes.Buffer the list of the bytes that were written so far.
use mpquic_latency.Base.{ℕ, zero, suc, ◌≡◌, refl, ap, List, [], ◌∷◌, ◌++◌, length}

-- The errors of reading and writing bytes (io.EOF, io.ErrUnexpectedEOF) and of the frames.
pub data WireError : Type 0 where
  eof : WireError
  unexpected_eof : WireError
  invalid_stream_data_len_too_large : WireError
  invalid_stream_data_overflow : WireError
  empty_stream_frame_no_fin : WireError
  writing_empty_stream_frame_no_fin : WireError
  invalid_stream_id_len : WireError
  invalid_offset_len : WireError
  invalid_goaway_data : WireError
  invalid_connection_close_data : WireError
  connection_close_reason_phrase_too_long : WireError
  packet_number_not_set : WireError
  least_unacked_higher_than_packet_number : WireError
  packet_number_len_not_set : WireError
  invalid_stop_waiting_data : WireError
  too_many_paths : WireError
  paths_number : WireError
  missing_rtt : WireError
  invalid_ack_ranges : WireError
  invalid_first_ack_range : WireError
  unknown_ip_version : WireError

pub data Parsed {ℓ} (A : Type ℓ) : Type ℓ where
  parsed : A → List ℕ → Parsed A
  failed : WireError → Parsed A

abbrev pub Reader {ℓ} : Type ℓ → Type ℓ
Reader A = List ℕ → Parsed A

abbrev pub and_then {ℓ κ} : {A : Type ℓ} {B : Type κ} → Parsed A → (A → Reader B) → Parsed B
and_then (parsed a rest) f = f a rest
and_then (failed e) f = failed e

infixl 5 ◌>>=◌ ◌>>◌
abbrev pub ◌>>=◌ {ℓ κ} : {A : Type ℓ} {B : Type κ} → Reader A → (A → Reader B) → Reader B
◌>>=◌ m f bytes = and_then (m bytes) f

abbrev pub ◌>>◌ {ℓ κ} : {A : Type ℓ} {B : Type κ} → Reader A → Reader B → Reader B
◌>>◌ m k bytes = and_then (m bytes) (λ _. k)

abbrev pub give {ℓ} : {A : Type ℓ} → A → Reader A
give a bytes = parsed a bytes

abbrev pub throw {ℓ} : {A : Type ℓ} → WireError → Reader A
throw e bytes = failed e

-- bytes.Reader: ReadByte, Len, and io.ReadFull of n bytes.
abbrev pub read_byte : Reader ℕ
read_byte [] = failed eof
read_byte (b ∷ bytes) = parsed b bytes

abbrev pub bytes_left : Reader ℕ
bytes_left bytes = parsed (length bytes) bytes

-- The bytes to be read, on those that have been: no byte at all is the end of the file.
abbrev pub prepend : ℕ → Parsed (List ℕ) → Parsed (List ℕ)
prepend b (parsed bs rest) = parsed (b ∷ bs) rest
prepend b (failed _) = failed unexpected_eof

abbrev pub read_full : ℕ → Reader (List ℕ)
read_full zero bytes = parsed [] bytes
read_full (suc n) [] = failed eof
read_full (suc n) (b ∷ bytes) = prepend b (read_full n bytes)

-- What writing appends to the buffer: bytes, or some bytes and then an error or a panic.
pub data Written : Type 0 where
  written : List ℕ → Written
  refused : WireError → List ℕ → Written
  overflowed : List ℕ → Written

abbrev pub after_bytes : List ℕ → Written → Written
after_bytes bs (written cs) = written (bs ++ cs)
after_bytes bs (refused e cs) = refused e (bs ++ cs)
after_bytes bs (overflowed cs) = overflowed (bs ++ cs)

infixr 5 ◌then_write◌
abbrev pub ◌then_write◌ : Written → Written → Written
written bs then_write w = after_bytes bs w
refused e bs then_write w = refused e bs
overflowed bs then_write w = overflowed bs

pub read_full-append : (bs rest : List ℕ) → read_full (length bs) (bs ++ rest) ≡ parsed bs rest
read_full-append [] rest = refl
read_full-append (b ∷ bs) rest = ap (prepend b) (read_full-append bs rest)
