-- ===== src/Session/PacketUnpacker/Frames.antt =====
-- The parsers of internal/wire read at least the type byte.
use Prim.Native.Nat.{bit_and}
use mpquic_latency.Base.{
  ℕ, ◌*◌, none, zero, suc, ◌%◌, ◌^◌, Bool, true, false, not, ◌&&◌, ltb, ◌==◌, List, ℤ,
}
use mpquic_latency.Wire.Frame.{StreamFrame}
use mpquic_latency.Wire.StreamFrame.{
  parse_stream_frame, parse_data, checked, the_data_len, read_data_len, read_data, has_fin_bit,
  has_data_len,
}
use mpquic_latency.Wire.ControlFrame.{
  parse_rst_stream_frame, parse_connection_close_frame, parse_goaway_frame,
  parse_window_update_frame, parse_blocked_frame, parse_stop_waiting_frame, parse_ping_frame,
}
use mpquic_latency.Wire.AckFrame.{validate_ack_ranges}
use mpquic_latency.Wire.AckBytes.{
  largest_acked_len, block_length_len, check, read_blocks, Blocks, read_ranges, read_num_blocks,
  read_acked, read_delay, read_path_id, read_more_timestamps, read_timestamps, parse_ack_frame,
  parse_close_path_frame,
}
use mpquic_latency.Wire.PathFrame.{
  read_bytes_one_by_one, read_ip, parse_add_address_frame, read_paths, parse_paths_frame,
}
use mpquic_latency.Utils.Buffer.{WireError}
use mpquic_latency.Utils.ByteOrder.{ByteOrder, get_byte_order}
use mpquic_latency.Session.PacketUnpacker.Consumes.{
  Shrinks, bind-Shrinks, then-Shrinks, give-Shrinks, throw-Shrinks, if-Shrinks, read_byte-Shrinks,
  read_full-Shrinks, bytes_left-Shrinks, read_uint_n-Shrinks, read_uint16-Shrinks,
  read_uint32-Shrinks, read_uint64-Shrinks, Consumes, byte_then-Consumes,
}

checked-Shrinks : (f : StreamFrame) → Shrinks (checked f)
unfolding checked
checked-Shrinks f = search (if-Shrinks, throw-Shrinks, give-Shrinks)

read_data_len-Shrinks : (o : ByteOrder) (present : Bool) → Shrinks (read_data_len o present)
read_data_len-Shrinks o true = read_uint16-Shrinks o
read_data_len-Shrinks o false = give-Shrinks 0

the_data_len-Shrinks : (present : Bool) (n : ℕ) → Shrinks (the_data_len present n)
the_data_len-Shrinks true n = give-Shrinks n
the_data_len-Shrinks false n = bind-Shrinks _ _ bytes_left-Shrinks (λ m. give-Shrinks (m % 2 ^ 16))

parse_data-Shrinks : (type_byte sid offset n : ℕ) → Shrinks (parse_data type_byte sid offset n)
unfolding parse_data
parse_data-Shrinks type_byte sid offset n = if-Shrinks _ _ _ (throw-Shrinks _) (
    bind-Shrinks _ _ (the_data_len-Shrinks (has_data_len type_byte) n) (λ m.
      bind-Shrinks (read_data m) _ (if-Shrinks _ _ _ (give-Shrinks _) (read_full-Shrinks m)) (λ bs.
        checked-Shrinks (record {
          stream_id = sid % 2 ^ 32;
          fin_bit = has_fin_bit type_byte;
          data_len_present = has_data_len type_byte;
          offset = offset;
          payload = bs;
        }))))

pub parse_stream_frame-Consumes : (version : ℤ) → Consumes (parse_stream_frame version)
unfolding parse_stream_frame
parse_stream_frame-Consumes version = byte_then-Consumes _ (λ b.
    bind-Shrinks _ _ (read_uint_n-Shrinks _ _) (λ sid.
      bind-Shrinks _ _ (read_uint_n-Shrinks _ _) (λ offset.
        bind-Shrinks _ _ (read_data_len-Shrinks _ _) (λ n. parse_data-Shrinks b sid offset n))))

pub parse_window_update_frame-Consumes :
    (version : ℤ) → Consumes (parse_window_update_frame version)
unfolding parse_window_update_frame
parse_window_update_frame-Consumes version = byte_then-Consumes _ (λ b.
    bind-Shrinks _ _ (read_uint32-Shrinks _)
      (λ sid. bind-Shrinks _ _ (read_uint64-Shrinks _) (λ offset. give-Shrinks _)))

pub parse_rst_stream_frame-Consumes : (version : ℤ) → Consumes (parse_rst_stream_frame version)
unfolding parse_rst_stream_frame
parse_rst_stream_frame-Consumes version = byte_then-Consumes _ (λ b.
    bind-Shrinks _ _ (read_uint32-Shrinks _) (λ sid.
      bind-Shrinks _ _ (read_uint64-Shrinks _)
        (λ offset. bind-Shrinks _ _ (read_uint32-Shrinks _) (λ e. give-Shrinks _))))

pub parse_blocked_frame-Consumes : (version : ℤ) → Consumes (parse_blocked_frame version)
unfolding parse_blocked_frame
parse_blocked_frame-Consumes version =
    byte_then-Consumes _ (λ b. bind-Shrinks _ _ (read_uint32-Shrinks _) (λ sid. give-Shrinks _))

pub parse_ping_frame-Consumes : (version : ℤ) → Consumes (parse_ping_frame version)
parse_ping_frame-Consumes version = byte_then-Consumes _ (λ b. give-Shrinks tt)

pub parse_goaway_frame-Consumes : (version : ℤ) → Consumes (parse_goaway_frame version)
unfolding parse_goaway_frame
parse_goaway_frame-Consumes version = byte_then-Consumes _ (λ b.
    bind-Shrinks _ _ (read_uint32-Shrinks _) (λ e. bind-Shrinks _ _ (read_uint32-Shrinks _) (λ last.
      bind-Shrinks _ _ (read_uint16-Shrinks _) (λ n.
        if-Shrinks _ _ _ (throw-Shrinks _)
          (bind-Shrinks _ _ (read_full-Shrinks n) (λ bs. give-Shrinks _))))))

pub parse_connection_close_frame-Consumes :
    (version : ℤ) → Consumes (parse_connection_close_frame version)
unfolding parse_connection_close_frame
parse_connection_close_frame-Consumes version = byte_then-Consumes _ (λ b.
    bind-Shrinks _ _ (read_uint32-Shrinks _) (λ e. bind-Shrinks _ _ (read_uint16-Shrinks _) (λ n.
      if-Shrinks _ _ _ (throw-Shrinks _)
        (bind-Shrinks _ _ (read_full-Shrinks n) (λ bs. give-Shrinks _)))))

pub parse_stop_waiting_frame-Consumes :
    (packet_number packet_number_len : ℕ) (version : ℤ)
    → Consumes (parse_stop_waiting_frame packet_number packet_number_len version)
unfolding parse_stop_waiting_frame
parse_stop_waiting_frame-Consumes packet_number packet_number_len version =
    byte_then-Consumes _ (λ b.
      bind-Shrinks _ _ (read_uint_n-Shrinks _ _)
        (λ d. if-Shrinks _ _ _ (throw-Shrinks _) (give-Shrinks _)))

check-Shrinks : (ok : Bool) (e : WireError) → Shrinks (check ok e)
check-Shrinks ok e = if-Shrinks ok _ _ (give-Shrinks tt) (throw-Shrinks e)

read_blocks-Shrinks : (o : ByteOrder) (len n : ℕ) (b : Blocks) → Shrinks (read_blocks o len n b)
unfolding read_blocks
read_blocks-Shrinks o len zero b = give-Shrinks b
read_blocks-Shrinks o len (suc n) b =
    bind-Shrinks _ _ read_byte-Shrinks
      (λ gap. bind-Shrinks _ _ (read_uint_n-Shrinks o len) (λ l. read_blocks-Shrinks o len n _))

read_ranges-Shrinks :
    (o : ByteOrder) (len : ℕ) (missing : Bool) (num largest l : ℕ)
    → Shrinks (read_ranges o len missing num largest l)
read_ranges-Shrinks o len true num largest l =
    bind-Shrinks _ _ (read_blocks-Shrinks o len num _) (λ b. give-Shrinks _)
read_ranges-Shrinks o len false num largest l = give-Shrinks _

read_num_blocks-Shrinks : (missing : Bool) → Shrinks (read_num_blocks missing)
read_num_blocks-Shrinks true = read_byte-Shrinks
read_num_blocks-Shrinks false = give-Shrinks 0

read_path_id-Shrinks : (present : Bool) → Shrinks (read_path_id present)
read_path_id-Shrinks true = read_byte-Shrinks
read_path_id-Shrinks false = give-Shrinks 0

read_acked-Shrinks :
    (o : ByteOrder) (len : ℕ) (missing : Bool) (num largest : ℕ)
    → Shrinks (read_acked o len missing num largest)
unfolding read_acked
read_acked-Shrinks o len missing num largest = bind-Shrinks _ _ (read_uint_n-Shrinks o len) (λ l.
    then-Shrinks _ _
      (check-Shrinks (not (ltb 0 largest && ltb l 1)) WireError.invalid_first_ack_range)
      (then-Shrinks _ _ (check-Shrinks (not (ltb largest l)) WireError.invalid_ack_ranges) (
        bind-Shrinks _ _ (read_ranges-Shrinks o len missing num largest l) (λ acked.
          then-Shrinks _ _
            (check-Shrinks (validate_ack_ranges largest acked.1) WireError.invalid_ack_ranges)
            (give-Shrinks acked)))))

read_delay-Shrinks : (o : ByteOrder) → Shrinks (read_delay o)
read_delay-Shrinks o = bind-Shrinks _ _ (read_uint16-Shrinks o) (λ v. give-Shrinks _)

read_more_timestamps-Shrinks : (o : ByteOrder) (n : ℕ) → Shrinks (read_more_timestamps o n)
unfolding read_more_timestamps
read_more_timestamps-Shrinks o zero = give-Shrinks tt
read_more_timestamps-Shrinks o (suc n) =
    then-Shrinks _ _ read_byte-Shrinks
      (then-Shrinks _ _ (read_uint16-Shrinks o) (read_more_timestamps-Shrinks o n))

read_timestamps-Shrinks : (o : ByteOrder) (n : ℕ) → Shrinks (read_timestamps o n)
read_timestamps-Shrinks o zero = give-Shrinks tt
read_timestamps-Shrinks o (suc n) =
    then-Shrinks _ _ read_byte-Shrinks
      (then-Shrinks _ _ (read_uint32-Shrinks o) (read_more_timestamps-Shrinks o n))

pub parse_ack_frame-Consumes : (version : ℤ) → Consumes (parse_ack_frame version)
unfolding parse_ack_frame
parse_ack_frame-Consumes version =
    let o = get_byte_order version in
    byte_then-Consumes _ (λ b.
      let missing : Bool = bit_and b 0x20 == 0x20 in
      bind-Shrinks _ _ (read_path_id-Shrinks (bit_and b 0x10 == 0x10)) (λ path.
        bind-Shrinks _ _ (read_uint_n-Shrinks o (largest_acked_len b)) (λ largest.
          bind-Shrinks _ _ (read_delay-Shrinks o) (λ delay.
            bind-Shrinks _ _ (read_num_blocks-Shrinks missing) (λ num.
              then-Shrinks _ _
                (check-Shrinks (not (missing && (num == 0))) WireError.invalid_ack_ranges)
                (bind-Shrinks _ _ (read_acked-Shrinks o (block_length_len b) missing num largest)
                  (λ acked. bind-Shrinks _ _ read_byte-Shrinks (λ n.
                    then-Shrinks _ _ (read_timestamps-Shrinks o n) (
                      give-Shrinks (record {
                        path_id = path;
                        largest_acked = largest;
                        lowest_acked = acked.0;
                        ack_ranges = acked.1;
                        packet_received_time = none;
                        delay_time = delay * 1000;
                      }))))))))))

pub parse_close_path_frame-Consumes : (version : ℤ) → Consumes (parse_close_path_frame version)
unfolding parse_close_path_frame
parse_close_path_frame-Consumes version =
    let o = get_byte_order version in
    byte_then-Consumes _ (λ b. bind-Shrinks _ _ read_byte-Shrinks (λ path.
      bind-Shrinks _ _ read_byte-Shrinks (λ flags.
        let missing : Bool = bit_and flags 0x10 == 0x10 in
        bind-Shrinks _ _ (read_num_blocks-Shrinks missing) (λ num.
          then-Shrinks _ _
            (check-Shrinks (not (missing && (num == 0))) WireError.invalid_ack_ranges)
            (bind-Shrinks _ _ (read_uint_n-Shrinks o (largest_acked_len flags)) (λ largest.
              bind-Shrinks _ _ (read_acked-Shrinks o (block_length_len flags) missing num largest)
                (λ acked. give-Shrinks (record {
                  path_id = path;
                  largest_acked = largest;
                  lowest_acked = acked.0;
                  ack_ranges = acked.1;
                }))))))))

read_bytes_one_by_one-Shrinks : (n : ℕ) → Shrinks (read_bytes_one_by_one n)
unfolding read_bytes_one_by_one
read_bytes_one_by_one-Shrinks zero = give-Shrinks _
read_bytes_one_by_one-Shrinks (suc n) =
    bind-Shrinks _ _ read_byte-Shrinks
      (λ b. bind-Shrinks _ _ (read_bytes_one_by_one-Shrinks n) (λ bs. give-Shrinks _))

read_ip-Shrinks : (ipv4 : ℕ → ℕ → ℕ → ℕ → List ℕ) (v : ℕ) → Shrinks (read_ip ipv4 v)
read_ip-Shrinks ipv4 v =
    if-Shrinks _ _ _
      (bind-Shrinks _ _ read_byte-Shrinks (λ a. bind-Shrinks _ _ read_byte-Shrinks (λ b.
        bind-Shrinks _ _ read_byte-Shrinks
          (λ c. bind-Shrinks _ _ read_byte-Shrinks (λ d. give-Shrinks _)))))
      (if-Shrinks _ _ _ (read_bytes_one_by_one-Shrinks 16) (throw-Shrinks _))

pub parse_add_address_frame-Consumes :
    (ipv4 : ℕ → ℕ → ℕ → ℕ → List ℕ) (version : ℤ) → Consumes (parse_add_address_frame ipv4 version)
unfolding parse_add_address_frame
parse_add_address_frame-Consumes ipv4 version = byte_then-Consumes _ (λ b.
    bind-Shrinks _ _ read_byte-Shrinks (λ v.
      bind-Shrinks _ _ (read_ip-Shrinks ipv4 v)
        (λ ip. bind-Shrinks _ _ (read_uint16-Shrinks _) (λ port. give-Shrinks _))))

read_paths-Shrinks : (o : ByteOrder) (n : ℕ) → Shrinks (read_paths o n)
unfolding read_paths
read_paths-Shrinks o zero = give-Shrinks _
read_paths-Shrinks o (suc n) = bind-Shrinks _ _ read_byte-Shrinks (λ path.
    bind-Shrinks _ _ (read_delay-Shrinks o)
      (λ rtt. bind-Shrinks _ _ (read_paths-Shrinks o n) (λ paths. give-Shrinks _)))

pub parse_paths_frame-Consumes : (version : ℤ) → Consumes (parse_paths_frame version)
unfolding parse_paths_frame
parse_paths_frame-Consumes version = byte_then-Consumes _ (λ b.
    bind-Shrinks _ _ read_byte-Shrinks (λ max_num. bind-Shrinks _ _ read_byte-Shrinks (λ num.
      if-Shrinks _ _ _ (throw-Shrinks _)
        (bind-Shrinks _ _ (read_paths-Shrinks _ num) (λ paths. give-Shrinks _)))))
