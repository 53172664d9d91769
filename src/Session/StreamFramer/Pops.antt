-- ===== src/Session/StreamFramer/Pops.antt =====
-- Popping frames for retransmission loses nothing and fits.
use mathlib.Core.List.{append-nil, append_assoc}
use mpquic_latency.Base.{
  ℕ, ◌+◌, ◌^◌, ◌≤◌, ◌<◌, leb, le→leb, leb→le, ◌≡◌, refl, sym, ap, ◌∙◌, u64, sub64, true, false,
  Bool-cases, List, [], ◌∷◌, ◌++◌, length, All, inl, inr, arith,
}
use mpquic_latency.Wire.Frame.{StreamFrame}
use mpquic_latency.Wire.StreamFrame.{
  stream_frame_min_length, calculate_stream_id_length, get_offset_length,
}
use mpquic_latency.Flowcontrol.Manager.{FlowControlManager}
use mpquic_latency.Session.StreamFramer.{
  take, maybe_split_off_frame, Popped, count_retrans, pop_or_split, with_data_len, pop_frames,
  maybe_pop_frames_for_retransmission,
}
use mpquic_latency.Session.StreamFramer.Content.{
  content, contents, wire_length, Fits, length-take, front_part, left_part, split_at, content-parts,
  split_min_length, left_part-Fits,
}

-- What is popped from a queue, when the length was so much before.
record Conserves (max_len current_len : ℕ) (queue : List StreamFrame) (r : Popped) : Type 0 where
  counted : r.current_len ≡ current_len + wire_length r.res
  within : r.current_len ≤ max_len
  kept : contents r.res ++ contents r.retransmission_queue ≡ contents queue
  sized : All (λ f. f.data_len_present ≡ true) r.res
  still_fits : All Fits r.retransmission_queue

min_length_small : (f : StreamFrame) → stream_frame_min_length f ≤ 15
unfolding stream_frame_min_length calculate_stream_id_length get_offset_length
min_length_small f = ground arith

module _ (max_len : ℕ) (small : max_len < 2 ^ 32) where
  module _ (frame : StreamFrame) (queue : List StreamFrame) (current_len : ℕ)
      (m : FlowControlManager) (rest : Popped) (fits : Fits frame) (all_fit : All Fits queue)
      (le : current_len ≤ max_len)
      (lt : current_len + stream_frame_min_length (with_data_len frame) < max_len) where
    abbrev header_len : ℕ
    header_len = u64 (current_len + stream_frame_min_length (with_data_len frame))

    whole-Conserves :
        length frame.payload ≤ sub64 max_len header_len
        → Conserves max_len (u64 (header_len + length frame.payload)) queue rest
        → Conserves max_len current_len (frame ∷ queue) (
            pop_or_split
              (maybe_split_off_frame (with_data_len frame) (sub64 max_len header_len))
              header_len
              queue
              m
              rest)
    unfolding maybe_split_off_frame
    whole-Conserves short c =
        rw (le→leb (length frame.payload) (sub64 max_len header_len) short) (record {
          counted = omega (arith, c.counted);
          within = c.within;
          kept =
              append_assoc (content frame) (contents rest.res) (contents rest.retransmission_queue)
              ∙ ap (λ items. content frame ++ items) c.kept;
          sized = (refl, c.sized);
          still_fits = c.still_fits;
        })

    split-Conserves :
        sub64 max_len header_len < length frame.payload
        → Conserves max_len current_len (frame ∷ queue) (
            pop_or_split
              (maybe_split_off_frame (with_data_len frame) (sub64 max_len header_len))
              header_len
              queue
              m
              rest)
    split-Conserves long =
        rw (split_at (with_data_len frame) (sub64 max_len header_len) long fits) (record {
          counted = omega (
            arith,
            taken,
            split_min_length (with_data_len frame) (sub64 max_len header_len) long fits,
          );
          within = omega (arith, taken);
          kept =
              ap
                (λ items.
                  items
                  ++ contents (
                      left_part (with_data_len frame) (sub64 max_len header_len) long fits ∷ queue))
                (append-nil
                  (content (front_part (with_data_len frame) (sub64 max_len header_len) long fits)))
              ∙ sym (
                  append_assoc
                    (content
                      (front_part (with_data_len frame) (sub64 max_len header_len) long fits))
                    (content (left_part (with_data_len frame) (sub64 max_len header_len) long fits))
                    (contents queue))
              ∙ ap (λ items. items ++ contents queue)
                  (content-parts (with_data_len frame) (sub64 max_len header_len) long fits);
          sized = (refl, tt);
          still_fits =
              (left_part-Fits (with_data_len frame) (sub64 max_len header_len) long fits, all_fit);
        })
      where
        taken : length (take (sub64 max_len header_len) frame.payload) ≡ sub64 max_len header_len
        taken = length-take (sub64 max_len header_len) frame.payload (omega arith)

  pop_frames-Conserves :
      (queue : List StreamFrame) (current_len : ℕ) (m : FlowControlManager)
      → All Fits queue
      → current_len ≤ max_len
      → Conserves max_len current_len queue (pop_frames max_len queue current_len m)
  unfolding pop_frames
  pop_frames-Conserves [] current_len m fit le = record {
    counted = omega arith;
    within = le;
    kept = refl;
    sized = tt;
    still_fits = tt;
  }
  pop_frames-Conserves (frame ∷ queue) current_len m fit le =
      elim (Bool-cases
        (leb max_len (u64 (current_len + stream_frame_min_length (with_data_len frame))))) [
          | inl e ↦ rw e (record {
            counted = omega arith;
            within = le;
            kept = refl;
            sized = tt;
            still_fits = fit;
          })
          | inr e ↦ rw e (elim (Bool-cases (leb (length frame.payload) (sub64 max_len header))) [
            | inl w ↦
                whole-Conserves frame queue current_len m rest fit.0 fit.1 le (room e)
                  (leb→le (length frame.payload) (sub64 max_len header) w)
                  (pop_frames-Conserves queue (u64 (header + length frame.payload))
                    (count_retrans (with_data_len frame) m) fit.1
                    (fitting (room e) (leb→le (length frame.payload) (sub64 max_len header) w)))
            | inr s ↦
                split-Conserves frame queue current_len m rest fit.0 fit.1 le (room e)
                  (ground (arith, s))
          ])
        ]
    where
      header : ℕ
      header = u64 (current_len + stream_frame_min_length (with_data_len frame))

      rest : Popped
      rest =
          pop_frames max_len queue (u64 (header + length frame.payload))
            (count_retrans (with_data_len frame) m)

      room :
          leb max_len header ≡ false
          → current_len + stream_frame_min_length (with_data_len frame) < max_len
      room e = ground (arith, min_length_small (with_data_len frame))

      fitting :
          current_len + stream_frame_min_length (with_data_len frame) < max_len
          → length frame.payload ≤ sub64 max_len header
          → u64 (header + length frame.payload) ≤ max_len
      fitting lt w = omega arith

-- For a maximum below 2 ^ 32 and queued frames whose data does not go beyond the largest offset:
-- the popped frames with their headers take the length that is returned, which is at most the
-- maximum; each says how long its data is; and their bytes and stream ends, each at its place,
-- followed by those left in the queue are those of the queue before, in the same order.
pub maybe_pop_frames_for_retransmission_conserves :
    (max_len : ℕ) (queue : List StreamFrame) (m : FlowControlManager)
    → max_len < 2 ^ 32
    → All Fits queue
    → ((maybe_pop_frames_for_retransmission max_len queue m).current_len
        ≡ wire_length (maybe_pop_frames_for_retransmission max_len queue m).res)
      × ((maybe_pop_frames_for_retransmission max_len queue m).current_len ≤ max_len)
      × All
          (λ f. f.data_len_present ≡ true)
          (maybe_pop_frames_for_retransmission max_len queue m).res
      × (contents (maybe_pop_frames_for_retransmission max_len queue m).res
            ++ contents (maybe_pop_frames_for_retransmission max_len queue m).retransmission_queue
          ≡ contents queue)
      × All Fits (maybe_pop_frames_for_retransmission max_len queue m).retransmission_queue
unfolding maybe_pop_frames_for_retransmission
maybe_pop_frames_for_retransmission_conserves max_len queue m small fit =
    let c : Conserves max_len 0 queue (pop_frames max_len queue 0 m) =
      pop_frames-Conserves max_len small queue 0 m fit (omega arith) in
    (omega (arith, c.counted), c.within, c.sized, c.kept, c.still_fits)
