-- ===== src/Wire/Stream/Arrives.antt =====
-- Frames arrive whole, however the stream is cut into reads.
use sovereign.Prelude.{
  ℕ, zero, suc, ◌+◌, ◌<◌, ◌≤◌, ◌≡◌, refl, ap, ◌∙◌, List, [], ◌∷◌, ◌++◌, Option, none, some, Bool,
  true, false, inl, inr, Bool-cases, length, length-append, drop, leb, arith,
}
use sovereign.Bytes.{be_bytes, be_value, be_value-be_bytes, length-be_bytes as len, All}
use sovereign.Wire.Fields.{slice, field_at, behind}
use sovereign.Wire.Relay.{length_prefix_frame}
use sovereign.Wire.Stream.{
  Reads, filled, fill, frame, frame_too_large, read_failed, read_blocks, read_body, read_frame,
  max_frame_size,
}

-- The bytes that the reads bring, none of which comes with an error.
abbrev pub bytes_of : Reads → List ℕ
bytes_of [] = []
bytes_of ((bytes, failed) ∷ reads) = bytes ++ bytes_of reads

abbrev pub NoneFails : Reads → Type 0
NoneFails reads = All (λ (r : List ℕ × Bool). r.1 ≡ false) reads

append_assoc : (xs ys zs : List ℕ) → (xs ++ ys) ++ zs ≡ xs ++ (ys ++ zs)
append_assoc [] ys zs = refl
append_assoc (x ∷ xs) ys zs = ap (λ (t : List ℕ). x ∷ t) (append_assoc xs ys zs)

append_nil : (xs : List ℕ) → xs ++ [] ≡ xs
append_nil [] = refl
append_nil (x ∷ xs) = ap (λ (t : List ℕ). x ∷ t) (append_nil xs)

-- `fill` reaches a target that the stream has bytes for, and loses none of them.
fill-reaches :
    (target : ℕ) (buf : List ℕ) (reads : Reads)
    → NoneFails reads
    → target ≤ length (buf ++ bytes_of reads)
    → (buf' : List ℕ) × ((reads' : Reads) × (fill target buf reads ≡ filled buf' reads')
        × (target ≤ length buf')
        × (buf' ++ bytes_of reads' ≡ buf ++ bytes_of reads)
        × NoneFails reads')
unfolding fill
fill-reaches target buf [] ok h =
    let there : target ≤ length buf = omega (arith, h, ap length (append_nil buf)) in
    (buf, ([], ground arith, there, refl, tt))
fill-reaches target buf ((bytes, failed) ∷ reads) ok h =
    elim (Bool-cases (leb target (length buf))) [
      | inl e ↦ (buf, ((bytes, failed) ∷ reads, rw e refl, ground arith, refl, ok))
      | inr e ↦
          let (buf', (reads', same, long, kept, ok')) =
            fill-reaches target (buf ++ bytes) reads ok.1
              (rw (append_assoc buf bytes (bytes_of reads)) h) in
          (
            buf',
            (reads', rw (e, ok.0) same, long, kept ∙ append_assoc buf bytes (bytes_of reads), ok'),
          )
    ]

-- A list that begins with what another does.
split_prefix :
    (ps qs xs ys : List ℕ)
    → xs ++ ys ≡ ps ++ qs
    → length ps ≤ length xs
    → (t : List ℕ) × (xs ≡ ps ++ t) × (t ++ ys ≡ qs)
split_prefix [] qs xs ys h l = (xs, refl, h)
split_prefix (p ∷ ps) qs [] ys h l = absurd (omega (arith, l))
split_prefix (p ∷ ps) qs (x ∷ xs) ys h l =
    let shorter : length ps ≤ length xs = omega arith in
    let tails : xs ++ ys ≡ ps ++ qs = cc in
    let (t, e, r) = split_prefix ps qs xs ys tails shorter in
    let same : x ≡ p = cc in (t, rw (e, same) refl, r)

prefix : List ℕ → List ℕ
prefix f = be_bytes 4 (length f)

read_frame-filled :
    (n : ℕ) (buf b : List ℕ) (reads r : Reads)
    → fill 4 buf reads ≡ filled b r
    → be_value (slice 0 4 b) ≡ n
    → 0 < n
    → n ≤ max_frame_size
    → read_frame buf reads ≡ read_body n b r
unfolding read_frame
read_frame-filled n buf b reads r same value pos small = rw (same, read_frame, value) (ground arith)

read_body-filled :
    (f u buf b : List ℕ) (reads r : Reads)
    → fill (4 + length f) buf reads ≡ filled b r
    → slice 4 (length f) b ≡ f
    → drop (4 + length f) b ≡ u
    → read_body (length f) buf reads ≡ frame f u r
unfolding read_body
read_body-filled f u buf b reads r same body rest = rw (same, read_body, body, rest) refl

-- The first half of `ReadFrame` finds the length, and no byte is lost.
read_frame-body :
    (f rest buf : List ℕ) (reads : Reads)
    → NoneFails reads
    → 0 < length f
    → length f ≤ max_frame_size
    → buf ++ bytes_of reads ≡ prefix f ++ (f ++ rest)
    → (buf' : List ℕ) × ((reads' : Reads) × (read_frame buf reads
          ≡ read_body (length f) buf' reads')
        × (buf' ++ bytes_of reads' ≡ prefix f ++ (f ++ rest))
        × NoneFails reads')
unfolding prefix
read_frame-body f rest buf reads ok pos small h =
    let (buf', (reads', same, long, kept, ok')) =
      fill-reaches 4 buf reads ok
        (omega (arith, ap length h, length-append (prefix f) (f ++ rest), len 4 (length f))) in
    let (t, e, r) =
      split_prefix (prefix f) (f ++ rest) buf' (bytes_of reads') (kept ∙ h)
        (omega (arith, long, len 4 (length f))) in
    let value : be_value (slice 0 4 buf') ≡ length f = rw e (
      ap be_value (field_at [] (be_bytes 4 (length f)) t 0 4 refl (len 4 (length f)))
      ∙ be_value-be_bytes 4 (length f) (omega (arith, small))) in
    (
      buf',
      (
        reads',
        read_frame-filled (length f) buf buf' reads reads' same value pos small,
        kept ∙ h,
        ok',
      ),
    )

read_body-frame :
    (f rest buf : List ℕ) (reads : Reads)
    → NoneFails reads
    → buf ++ bytes_of reads ≡ prefix f ++ (f ++ rest)
    → (buf' : List ℕ) × ((reads' : Reads) × (read_body (length f) buf reads ≡ frame f buf' reads')
        × (buf' ++ bytes_of reads' ≡ rest)
        × NoneFails reads')
unfolding prefix
read_body-frame f rest buf reads ok h =
    let p = be_bytes 4 (length f) in
    let (buf', (reads', same, long, kept, ok')) = fill-reaches (4 + length f) buf reads ok (
      omega (
        arith,
        ap length h,
        length-append p (f ++ rest),
        length-append f rest,
        len 4 (length f),
      )) in
    let (t, e, r) =
      split_prefix p (f ++ rest) buf' (bytes_of reads') (kept ∙ h)
        (omega (arith, long, len 4 (length f))) in
    let (u, g, s) =
      split_prefix f rest t (bytes_of reads') r
        (omega (arith, long, ap length e, length-append p t, len 4 (length f))) in
    let all : buf' ≡ p ++ (f ++ u) = e ∙ ap (λ (x : List ℕ). p ++ x) g in
    let whole = ap (slice 4 (length f)) all in
    let left = ap (drop (4 + length f)) all in
    (
      u,
      (
        reads',
        read_body-filled f u buf buf' reads reads' same
            (whole ∙ field_at (p ∷ []) f u 4 (length f) (omega (arith, len 4 (length f))) refl)
            (left ∙ behind (p ∷ f ∷ []) u (4 + length f) (omega (arith, len 4 (length f)))),
        s,
        ok',
      ),
    )

-- The frame that stands first in the stream is read, whatever the reads that bring it, and what stands
-- behind it is left to be read.
read_frame-first :
    (f rest buf : List ℕ) (reads : Reads)
    → NoneFails reads
    → 0 < length f
    → length f ≤ max_frame_size
    → buf ++ bytes_of reads ≡ length_prefix_frame f ++ rest
    → (buf' : List ℕ) × ((reads' : Reads) × (read_frame buf reads ≡ frame f buf' reads')
        × (buf' ++ bytes_of reads' ≡ rest)
        × NoneFails reads')
unfolding length_prefix_frame prefix
read_frame-first f rest buf reads ok pos small h =
    let (b, (r, first, same, ok1)) =
      read_frame-body f rest buf reads ok pos small
        (h ∙ append_assoc (be_bytes 4 (length f)) f rest) in
    let (b', (r', second, left, ok2)) = read_body-frame f rest b r ok1 same in
    (b', (r', first ∙ second, left, ok2))

-- So many calls of `ReadFrame`, and the frames that they return, where each returns one.
unfoldable pub read_frames : ℕ → List ℕ → Reads → Option (List (List ℕ))
read_frames zero buf reads = some []
read_frames (suc n) buf reads = elim (read_frame buf reads) [
  | frame f buf' reads' ↦ elim (read_frames n buf' reads') [ none ↦ none | some fs ↦ some (f ∷ fs) ]
  | frame_too_large buf' reads' ↦ none
  | read_failed buf' reads' ↦ none
  | read_blocks buf' ↦ none
]

abbrev pub framed : List (List ℕ) → List ℕ
framed [] = []
framed (f ∷ fs) = length_prefix_frame f ++ framed fs

abbrev pub IsFrame : List ℕ → Type 0
IsFrame f = (0 < length f) × (length f ≤ max_frame_size)

-- Frames of admissible length that were written one after the other are read one after the other, in
-- that order and whole, however the reads cut the stream, where none of these comes with an error.
pub read_frames-framed :
    (fs : List (List ℕ)) (buf : List ℕ) (reads : Reads)
    → All IsFrame fs
    → NoneFails reads
    → buf ++ bytes_of reads ≡ framed fs
    → read_frames (length fs) buf reads ≡ some fs
unfolding read_frames
read_frames-framed [] buf reads a ok h = refl
read_frames-framed (f ∷ fs) buf reads ((pos, small), a) ok h =
    let (b, (r, first, left, ok')) = read_frame-first f (framed fs) buf reads ok pos small h in
    rw (first, read_frames, read_frames-framed fs b r a ok' left) refl

-- A frame that one read brings whole, together with an error, is not returned by that call of
-- `ReadFrame`, which returns the error; only a further call would find it in the buffer.
read_frame-with_error :
    (f : List ℕ) (reads : Reads)
    → IsFrame f
    → (read_frame [] ((length_prefix_frame f, true) ∷ reads)
        ≡ read_failed (length_prefix_frame f) reads)
      × ((buf' : List ℕ) × ((reads' : Reads) × (read_frame (length_prefix_frame f) []
              ≡ frame f buf' reads')))
unfolding read_frame fill
read_frame-with_error f reads (pos, small) =
    let (b, (r, h, _, _)) = read_frame-first f [] (length_prefix_frame f) [] tt pos small refl in
    (refl, (b, (r, h)))
