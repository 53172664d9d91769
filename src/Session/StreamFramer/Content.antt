-- ===== src/Session/StreamFramer/Content.antt =====
-- What STREAM frames carry, and that splitting a frame loses nothing of it.
use mathlib.Core.List.{append-nil, append_assoc}
use mpquic_latency.Base.{
  ℕ, zero, suc, ◌+◌, ◌^◌, ◌≤◌, ◌<◌, leb, ◌≡◌, refl, sym, ap, ◌∙◌, u64, Bool, true, false, some,
  List, [], ◌∷◌, ◌++◌, length, drop, arith,
}
use mpquic_latency.Wire.Frame.{StreamFrame}
use mpquic_latency.Wire.StreamFrame.{
  stream_frame_min_length, calculate_stream_id_length, get_offset_length,
}
use mpquic_latency.Session.StreamFramer.{take, maybe_split_off_frame}

-- What a frame carries: each byte with its place in the stream, and the end of the stream.
pub data Item : Type 0 where
  byte_at : ℕ → ℕ → ℕ → Item
  end_at : ℕ → ℕ → Item

abbrev pub bytes_from : ℕ → ℕ → List ℕ → List Item
bytes_from id offset [] = []
bytes_from id offset (b ∷ bs) = byte_at id offset b ∷ bytes_from id (offset + 1) bs

abbrev pub end_of : Bool → ℕ → ℕ → List Item
end_of true id offset = end_at id offset ∷ []
end_of false id offset = []

abbrev pub content : StreamFrame → List Item
content f =
    bytes_from f.stream_id f.offset f.payload
    ++ end_of f.fin_bit f.stream_id (f.offset + length f.payload)

abbrev pub contents : List StreamFrame → List Item
contents [] = []
contents (f ∷ frames) = content f ++ contents frames

-- The bytes that the frames take on the wire.
abbrev pub wire_length : List StreamFrame → ℕ
wire_length [] = 0
wire_length (f ∷ frames) = stream_frame_min_length f + length f.payload + wire_length frames

-- The data does not go beyond the largest offset.
abbrev pub Fits : StreamFrame → Type 0
Fits f = f.offset + length f.payload < 2 ^ 64

bytes_from-split :
    (id offset n : ℕ) (bs : List ℕ)
    → n ≤ length bs
    → bytes_from id offset bs
      ≡ bytes_from id offset (take n bs) ++ bytes_from id (offset + n) (drop n bs)
bytes_from-split id offset zero bs le = ap (λ o. bytes_from id o bs) (omega arith)
bytes_from-split id offset (suc n) [] le = absurd (omega arith)
bytes_from-split id offset (suc n) (b ∷ bs) le =
    ap (λ items. byte_at id offset b ∷ items)
      (bytes_from-split id (offset + 1) n bs (omega arith)
        ∙ ap (λ o. bytes_from id (offset + 1) (take n bs) ++ bytes_from id o (drop n bs))
            (omega arith))

pub length-take : (n : ℕ) (bs : List ℕ) → n ≤ length bs → length (take n bs) ≡ n
length-take zero bs le = refl
length-take (suc n) [] le = absurd (omega arith)
length-take (suc n) (b ∷ bs) le = omega (arith, length-take n bs (omega arith))

length-drop : (n : ℕ) (bs : List ℕ) → n ≤ length bs → n + length (drop n bs) ≡ length bs
length-drop zero bs le = omega arith
length-drop (suc n) [] le = absurd (omega arith)
length-drop (suc n) (b ∷ bs) le = omega (arith, length-drop n bs (omega arith))

-- A frame that is split at n < its length.
module _ (f : StreamFrame) (n : ℕ) (lt : n < length f.payload) (fits : Fits f) where
  abbrev pub front_part : StreamFrame
  front_part = record f { fin_bit = false; payload = take n f.payload }

  abbrev pub left_part : StreamFrame
  left_part = record f { payload = drop n f.payload; offset = u64 (f.offset + n) }

  pub split_at : maybe_split_off_frame f n ≡ (some front_part, left_part)
  unfolding maybe_split_off_frame
  split_at = rw (longer (length f.payload) n lt) refl
    where
      longer : (a b : ℕ) → b < a → leb a b ≡ false
      longer a b h = ground arith

  pub content-parts : content front_part ++ content left_part ≡ content f
  content-parts =
      ap (λ items. items ++ content left_part) (append-nil first)
      ∙ ap
          (λ o.
            first
            ++ (bytes_from f.stream_id o (drop n f.payload)
                ++ end_of f.fin_bit f.stream_id (o + length (drop n f.payload))))
          no_wrap
      ∙ sym (
          append_assoc first second
            (end_of f.fin_bit f.stream_id (f.offset + n + length (drop n f.payload))))
      ∙ ap (λ o. (first ++ second) ++ end_of f.fin_bit f.stream_id o) same_end
      ∙ ap (λ items. items ++ end_of f.fin_bit f.stream_id (f.offset + length f.payload))
          (sym (bytes_from-split f.stream_id f.offset n f.payload (omega arith)))
    where
      first : List Item
      first = bytes_from f.stream_id f.offset (take n f.payload)

      second : List Item
      second = bytes_from f.stream_id (f.offset + n) (drop n f.payload)

      no_wrap : u64 (f.offset + n) ≡ f.offset + n
      no_wrap = omega arith

      same_end : f.offset + n + length (drop n f.payload) ≡ f.offset + length f.payload
      same_end = omega (arith, length-drop n f.payload (omega arith))

  pub split_min_length : stream_frame_min_length front_part ≡ stream_frame_min_length f
  unfolding stream_frame_min_length calculate_stream_id_length get_offset_length
  split_min_length = refl

  pub left_part-Fits : Fits left_part
  left_part-Fits = omega (arith, length-drop n f.payload (omega arith))
