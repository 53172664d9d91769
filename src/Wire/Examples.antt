-- ===== src/Wire/Examples.antt =====
-- Concrete frames, written and parsed.
use mpquic_latency.Base.{ℕ, ◌+◌, ◌≡◌, refl, true, List, [], ◌∷◌, ◌++◌, length, pos, inl, inr, arith}
use mpquic_latency.Wire.Frame.{StreamFrame, StopWaitingFrame}
use mpquic_latency.Utils.Buffer.{parsed, written}
use mpquic_latency.Wire.StreamFrame.{
  parse_stream_frame, write_stream_frame, stream_frame_min_length,
}
use mpquic_latency.Wire.StreamFrame.Bytes.{IsSendable}
use mpquic_latency.Wire.StreamFrame.RoundTrip.{parse_stream_frame-write_stream_frame}
use mpquic_latency.Wire.ControlFrame.{
  write_stop_waiting_frame, parse_stop_waiting_frame, stop_waiting_min_length,
}
use mpquic_latency.Wire.ControlFrame.RoundTrip.{RoundTrips, stop_waiting_frame_round_trip}

abbrev hello : StreamFrame
hello = record {
  stream_id = 5;
  fin_bit = true;
  data_len_present = true;
  offset = 70000;
  payload = 104 ∷ 105 ∷ [];
}

hello-IsSendable : IsSendable hello
hello-IsSendable = record {
  stream_id_fits = omega arith;
  data_fits = omega arith;
  data_short = omega arith;
  something = refl;
}

parse_stream_frame-write_stream_frame_example :
    (bytes : List ℕ) × (write_stream_frame hello (pos 39) ≡ written bytes)
    × (length bytes ≡ stream_frame_min_length hello + length hello.payload)
    × (parse_stream_frame (pos 39) (bytes ++ (7 ∷ [])) ≡ parsed hello (7 ∷ []))
parse_stream_frame-write_stream_frame_example =
    parse_stream_frame-write_stream_frame hello hello-IsSendable (pos 39) (7 ∷ []) (inl refl)

abbrev waiting : StopWaitingFrame
waiting = record { least_unacked = 10; packet_number_len = 2; packet_number = 1000 }

stop_waiting_frame_round_trip_example :
    RoundTrips
      (write_stop_waiting_frame waiting (pos 39))
      (stop_waiting_min_length waiting).0
      (parse_stop_waiting_frame 1000 2 (pos 39))
      (record { least_unacked = 10; packet_number_len = 0; packet_number = 0 })
      []
stop_waiting_frame_round_trip_example =
    stop_waiting_frame_round_trip waiting (pos 39) [] (inr (inl refl)) (omega arith) (omega arith)
      (omega arith) (omega arith)
