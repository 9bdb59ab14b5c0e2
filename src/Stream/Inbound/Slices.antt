-- ===== src/Stream/Inbound/Slices.antt =====
-- How `update_inbound_stream` cuts its buffer into slices.
use mathlib.Core.List.{append-nil, append_assoc}
use native.Mathlib.Numerals.{towards_suc}
use libp2p_transport_veilid.Prelude.{
  ℕ, zero, suc, ◌+◌, ◌/◌, ◌%◌, ◌≤◌, ◌<◌, ◌^◌, ◌≡◌, refl, sym, ap, ◌∙◌, Bool, true, false, List, [],
  ◌∷◌, ◌++◌, u32, length, take, drop, arith, length-append, take-append, drop-append, flatten,
  is_empty, if◌then◌else◌, ◌||◌,
}
use libp2p_transport_veilid.External.{External, Bytes}
use libp2p_transport_veilid.Stream.Frames.{
  from_le_bytes, frame, frames, Fits, IsIncomplete, is_short_header, frames-cons, length-frame,
}
use libp2p_transport_veilid.Stream.{VeilidStream, Effect, wake_to_read}
use libp2p_transport_veilid.Stream.Inbound.{collect_slices, update_inbound_stream}

take_four : (n a b c d : ℕ) (xs : Bytes) → drop 4 (take (n + 4) (a ∷ b ∷ c ∷ d ∷ xs)) ≡ take n xs
take_four n a b c d xs = simp towards_suc

drop_four : (n a b c d : ℕ) (xs : Bytes) → drop (n + 4) (a ∷ b ∷ c ∷ d ∷ xs) ≡ drop n xs
drop_four n a b c d xs = simp towards_suc

-- A round on a buffer whose first slice is whole.
collect_round :
    (fuel a b c d : ℕ) (xs : Bytes) (slices : List Bytes)
    → from_le_bytes a b c d ≤ length xs
    → collect_slices (suc fuel) (a ∷ b ∷ c ∷ d ∷ xs) slices
      ≡ collect_slices fuel
          (drop (from_le_bytes a b c d) xs)
          (slices ++ take (from_le_bytes a b c d) xs ∷ [])
unfolding collect_slices
collect_round fuel a b c d xs slices h =
    let n : ℕ = from_le_bytes a b c d in
    ground (arith, take_four n a b c d xs, drop_four n a b c d xs)

collect_frame :
    (fuel : ℕ) (bytes rest : Bytes) (slices : List Bytes)
    → length bytes < 2 ^ 32
    → collect_slices (suc fuel) (frame bytes ++ rest) slices
      ≡ collect_slices fuel rest (slices ++ bytes ∷ [])
unfolding frame
collect_frame fuel bytes rest slices h =
    let size = u32 (length bytes) in
    let announced : from_le_bytes (size % 256) (size / 256 % 256) (size / 65536 % 256)
          (size / 16777216 % 256)
        ≡ length bytes =
      omega arith in
    collect_round fuel _ _ _ _ (bytes ++ rest) slices (omega (arith, length-append bytes rest))
    ∙ ap
        (λ (k : ℕ).
          collect_slices fuel (drop k (bytes ++ rest)) (slices ++ take k (bytes ++ rest) ∷ []))
        announced
    ∙ rw (drop-append bytes rest, take-append bytes rest)

-- Only an empty list of slices leaves a text with no whole slice at its front.
pub IsIncomplete-frames :
    (slices : List Bytes) → Fits slices → IsIncomplete (frames slices) → slices ≡ []
unfolding frames
IsIncomplete-frames [] fits h = refl
IsIncomplete-frames (bytes ∷ slices) fits h =
    absurd (omega (arith, length-append bytes (frames slices)))

collect_stop :
    (fuel : ℕ) (rest : Bytes) (slices : List Bytes)
    → IsIncomplete rest
    → length rest ≤ fuel
    → collect_slices fuel rest slices
      ≡ record { buffer = rest; complete_slices = slices; returned = is_short_header rest }
unfolding collect_slices
collect_stop zero [] slices h f = refl
collect_stop zero (a ∷ xs) slices h f = elim f [ ]
collect_stop (suc fuel) [] slices h f = refl
collect_stop (suc fuel) (a ∷ []) slices h f = refl
collect_stop (suc fuel) (a ∷ b ∷ []) slices h f = refl
collect_stop (suc fuel) (a ∷ b ∷ c ∷ []) slices h f = refl
collect_stop (suc fuel) (a ∷ b ∷ c ∷ d ∷ xs) slices h f = ground arith

-- The loop takes exactly the whole slices at the front.
pub collect_slices-frames :
    (fuel : ℕ) (whole : List Bytes) (rest : Bytes) (slices : List Bytes)
    → Fits whole
    → IsIncomplete rest
    → length (frames whole ++ rest) ≤ fuel
    → collect_slices fuel (frames whole ++ rest) slices
      ≡ record { buffer = rest; complete_slices = slices ++ whole; returned = is_short_header rest }
unfolding frames
collect_slices-frames fuel [] rest slices fits h f =
    rw (append-nil slices) (collect_stop fuel rest slices h f)
collect_slices-frames zero (bytes ∷ whole) rest slices fits h f = absurd (
    omega (
      arith,
      ap length (frames-cons bytes whole rest),
      length-append (frame bytes) (frames whole ++ rest),
      length-frame bytes,
    ))
collect_slices-frames (suc fuel) (bytes ∷ whole) rest slices fits h f =
    let size = length-append (frame bytes) (frames whole ++ rest) in
    let split = frames-cons bytes whole rest in
    rw split (
      collect_frame fuel bytes (frames whole ++ rest) slices fits.0
      ∙ collect_slices-frames fuel whole rest (slices ++ bytes ∷ []) fits.1 h
          (omega (arith, ap length split, size, length-frame bytes))
      ∙ rw (append_assoc slices (bytes ∷ []) whole))

module _ {X : External} where
  slices_published :
      (s : VeilidStream X) (rest : Bytes) (whole : List Bytes) (short : Bool)
      → ◌≡◌ {A = VeilidStream X × List (Effect X)}
          (if short
            then (record s { inbound_buffer = rest }, [])
            else if is_empty whole
            then (record s { inbound_buffer = rest }, [])
            else (
              record s {
                inbound_buffer = rest;
                inbound_stream = s.inbound_stream ++ flatten whole;
              },
              wake_to_read s,
            ))
          (
            record s {
              inbound_buffer = rest;
              inbound_stream =
                  if short then s.inbound_stream else s.inbound_stream ++ flatten whole;
            },
            if short || is_empty whole then [] else wake_to_read s,
          )
  unfolding flatten
  slices_published s rest whole true = refl
  slices_published s rest [] false = λ i.
      (record s { inbound_buffer = rest; inbound_stream = sym (append-nil s.inbound_stream) i }, [])
  slices_published s rest (bytes ∷ whole) false = refl

  -- A buffer of whole slices and an incomplete rest keeps the rest. The slices' data becomes
  -- readable, and the reader is woken if there is any, unless the rest is part of a header: then
  -- the slices leave the buffer and the data of none of them becomes readable.
  pub update_inbound_stream-frames :
      (s : VeilidStream X) (whole : List Bytes) (rest : Bytes)
      → s.inbound_buffer ≡ frames whole ++ rest
      → Fits whole
      → IsIncomplete rest
      → update_inbound_stream s ≡ (
        record s {
          inbound_buffer = rest;
          inbound_stream =
              if is_short_header rest then s.inbound_stream else s.inbound_stream ++ flatten whole;
        },
        if is_short_header rest || is_empty whole then [] else wake_to_read s,
      )
  unfolding update_inbound_stream flatten
  update_inbound_stream-frames s whole rest split fits h =
      let buffer = s.inbound_buffer in
      let cut : collect_slices (length buffer) buffer []
          ≡ record { buffer = rest; complete_slices = whole; returned = is_short_header rest } =
        ap (λ bytes. collect_slices (length buffer) bytes []) split
        ∙ collect_slices-frames (length buffer) whole rest [] fits h
            (omega (arith, ap length split)) in
      rw cut (slices_published s rest whole (is_short_header rest))
