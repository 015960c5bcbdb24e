-- ===== src/Wire/Stream.antt =====
-- The reassembly of frames from a stream, `FrameReader` of pkg/receive/receiver.go. The reader behind
-- it is the list of what its calls of `Read` return: the bytes, and whether an error comes with them;
-- behind the last of them it blocks. The buffer's capacity bounds only how much one call may return.
pub mod Arrives
use sovereign.Prelude.{
  ℕ, ◌+◌, ◌-◌, ◌*◌, List, [], ◌∷◌, ◌++◌, Bool, ◌||◌, length, drop, ltb, leb, ◌==◌, if◌then◌else◌,
}
use sovereign.Bytes.{be_value}
use sovereign.Wire.Fields.{slice}

abbrev pub frame_len_prefix_size : ℕ
frame_len_prefix_size = 4

abbrev pub max_frame_size : ℕ
max_frame_size = 16777216

abbrev pub Reads : Type 0
Reads = List (List ℕ × Bool)

-- The result of `fill`: the buffer with the target reached and the calls to come, the reader's error,
-- or a call that blocks.
pub data Filled : Type 0 where
  filled : List ℕ → Reads → Filled
  fill_failed : List ℕ → Reads → Filled
  fill_blocks : List ℕ → Filled

-- `fill`
unfoldable pub fill : ℕ → List ℕ → Reads → Filled
fill target buf [] = if leb target (length buf) then filled buf [] else fill_blocks buf
fill target buf ((bytes, failed) ∷ reads) =
    let more = fill target (buf ++ bytes) reads in
    if leb target (length buf)
    then filled buf ((bytes, failed) ∷ reads)
    else if failed
    then fill_failed (buf ++ bytes) reads
    else more

-- The result of `ReadFrame`: the frame with the buffer and the calls that are left, `ErrFrameTooLarge`,
-- the reader's error, or a call that blocks.
pub data ReadResult : Type 0 where
  frame : List ℕ → List ℕ → Reads → ReadResult
  frame_too_large : List ℕ → Reads → ReadResult
  read_failed : List ℕ → Reads → ReadResult
  read_blocks : List ℕ → ReadResult

-- The second half of `ReadFrame`, which knows the length of the frame.
unfoldable pub read_body : ℕ → List ℕ → Reads → ReadResult
unfolding fill
read_body frame_len buf reads =
    let need = frame_len_prefix_size + frame_len in
    elim (fill need buf reads) [
      | filled buf' reads' ↦
          frame (slice frame_len_prefix_size frame_len buf') (drop need buf') reads'
      | fill_failed buf' reads' ↦ read_failed buf' reads'
      | fill_blocks buf' ↦ read_blocks buf'
    ]

-- `ReadFrame`; its loop around `fill` runs once at most, since `fill` reaches the target or fails.
unfoldable pub read_frame : List ℕ → Reads → ReadResult
unfolding fill read_body
read_frame buf reads = elim (fill frame_len_prefix_size buf reads) [
  | filled buf' reads' ↦
      let frame_len = be_value (slice 0 frame_len_prefix_size buf') in
      if (frame_len == 0) || ltb max_frame_size frame_len
      then frame_too_large buf' reads'
      else read_body frame_len buf' reads'
  | fill_failed buf' reads' ↦ read_failed buf' reads'
  | fill_blocks buf' ↦ read_blocks buf'
]
