-- ===== src/Session/Examples.antt =====
-- Concrete runs of the session's parts.
use mpquic_latency.Base.{ℕ, ◌≡◌, List, [], ◌∷◌, Option, none, some, arith}
use mpquic_latency.Session.PacketNumberGenerator.{pops, new_packet_number_generator}
use mpquic_latency.Session.PacketNumberGenerator.Skips.{count_from, pops_never_skip}
use mpquic_latency.Base.{◌+◌, refl, true, false, inl, inr}
use mpquic_latency.Session.StreamsMap.{
  server, StreamsMap, new_streams_map, find_stream, open_stream,
}
use mpquic_latency.Session.StreamsMap.Ids.{has, count_parity}
use mpquic_latency.Session.StreamsMap.Inv.{IsValid}
use mpquic_latency.Session.StreamsMap.Calls.{
  Call, get_or_open, accept, open_one, remove, close, run, run-IsValid,
}
use mpquic_latency.Session.StreamsMap.Opens.{open_stream_opens_new}
use mpquic_latency.Base.{◌++◌, ◌≤◌, All}
use mpquic_latency.Wire.Frame.{StreamFrame}
use mpquic_latency.Flowcontrol.Controller.{FlowController}
use mpquic_latency.Flowcontrol.Manager.{FlowControlManager}
use mpquic_latency.Session.StreamFramer.{maybe_pop_frames_for_retransmission}
use mpquic_latency.Session.StreamFramer.Content.{contents, wire_length, Fits}
use mpquic_latency.Session.StreamFramer.Pops.{maybe_pop_frames_for_retransmission_conserves}

abbrev randoms : List (Option ℕ)
randoms = some 4711 ∷ none ∷ some 65535 ∷ []

pops_never_skip_example : (pops randoms (new_packet_number_generator 500)).0 ≡ count_from 1 randoms
pops_never_skip_example = pops_never_skip 500 randoms (omega arith)

-- A stream that is its id.
abbrev id_stream : ℕ → ℕ
id_stream id = id

abbrev calls : List Call
calls = get_or_open 100 5 ∷ accept ∷ open_one 100 ∷ remove 3 ∷ close 9 ∷ []

run-IsValid_example : IsValid (run id_stream id_stream id_stream calls (new_streams_map server))
run-IsValid_example =
    run-IsValid id_stream id_stream id_stream (λ id. refl) server calls (omega arith)

abbrev with_one : StreamsMap ℕ
with_one = record {
  perspective = server;
  streams = (2, 2) ∷ [];
  open_streams = 2 ∷ [];
  round_robin_index = 0;
  next_stream = 4;
  highest_stream_opened_by_peer = 0;
  close_err = none;
  next_stream_to_accept = 1;
  num_outgoing_streams = 1;
  num_incoming_streams = 0;
}

with_one-IsValid : IsValid with_one
unfolding count_parity
with_one-IsValid = record {
  ids = refl;
  distinct = (refl, tt);
  opened = (((λ _. omega arith), (λ ne. absurd (ne refl))), tt);
  outgoing = refl;
  incoming = refl;
  next_parity = refl;
  highest_parity = inl refl;
}

open_stream_opens_new_example :
    (m' : StreamsMap ℕ) × (open_stream id_stream id_stream 100 with_one ≡ (inr 4, m'))
    × (has 4 with_one.open_streams ≡ false)
    × (find_stream 4 m'.streams ≡ some 4)
    × ((j : ℕ)
        → has j with_one.open_streams ≡ true
        → find_stream j m'.streams ≡ find_stream j with_one.streams)
    × IsValid m'
    × (m'.next_stream ≡ 4 + 2)
open_stream_opens_new_example =
    open_stream_opens_new id_stream id_stream (λ id. refl) with_one 100 with_one-IsValid refl
      (omega arith) (omega arith)

abbrev resent : StreamFrame
resent = record {
  stream_id = 5;
  fin_bit = true;
  data_len_present = false;
  offset = 1000;
  payload = 1 ∷ 2 ∷ 3 ∷ 4 ∷ 5 ∷ [];
}

abbrev idle_connection : FlowController
idle_connection = record {
  stream_id = 0;
  contributes_to_connection = false;
  bytes_sent = 0;
  send_window = 0;
  bytes_retrans = 0;
  last_window_update_time = none;
  bytes_read = 0;
  highest_received = 0;
  receive_window = 100;
  receive_window_increment = 100;
  max_receive_window_increment = 400;
}

abbrev no_streams : FlowControlManager
no_streams = record { conn_flow_controller = idle_connection; stream_flow_controller = [] }

maybe_pop_frames_for_retransmission_conserves_example :
    ((maybe_pop_frames_for_retransmission 9 (resent ∷ []) no_streams).current_len
      ≡ wire_length (maybe_pop_frames_for_retransmission 9 (resent ∷ []) no_streams).res)
    × ((maybe_pop_frames_for_retransmission 9 (resent ∷ []) no_streams).current_len ≤ 9)
    × All
        (λ f. f.data_len_present ≡ true)
        (maybe_pop_frames_for_retransmission 9 (resent ∷ []) no_streams).res
    × (contents (maybe_pop_frames_for_retransmission 9 (resent ∷ []) no_streams).res
          ++ contents
              (maybe_pop_frames_for_retransmission 9 (resent ∷ []) no_streams).retransmission_queue
        ≡ contents (resent ∷ []))
    × All Fits (maybe_pop_frames_for_retransmission 9 (resent ∷ []) no_streams).retransmission_queue
maybe_pop_frames_for_retransmission_conserves_example =
    maybe_pop_frames_for_retransmission_conserves 9 (resent ∷ []) no_streams (omega arith)
      (omega arith, tt)
