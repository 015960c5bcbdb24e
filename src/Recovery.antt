-- ===== src/Recovery.antt =====
-- The recovery of an engine, RecoverEngineWithSnapshot of pkg/durability/recovery.go: which image is
-- used, and the calls that rebuild the engine from it and from the log. The checks of the engine's
-- state between these calls and the witness are left out.
pub mod Joined
pub mod Complete
pub mod Clock
pub mod Durable
use sovereign.Prelude.{
  ℕ, ◌+◌, ◌%◌, ◌^◌, List, [], ◌∷◌, ◌++◌, Bool, true, false, not, ◌&&◌, ◌||◌, Option, none, some,
  length, ltb, leb, ◌==◌, if◌then◌else◌,
}
use sovereign.Entry.{CrdtEntry, IncomingEntry}
use sovereign.EntryMap.{same_key}
use sovereign.Wire.Fields.{is_zero}
use sovereign.Wal.{WalMutation}
use sovereign.Wal.Replay.{Replayed, WalRecord, mutation_record, advance_record}

-- `maxPlausibleCounter`
abbrev max_plausible_counter : ℕ
max_plausible_counter = 1152921504606846976

abbrev pub replay_chunk_size : ℕ
replay_chunk_size = 2048

-- `SnapshotImage`; its records are entities with their entries.
pub record SnapshotImage : Type 0 where
  pub records : List IncomingEntry
  pub merkle_root : List ℕ
  pub lamport_high : ℕ
  pub cut_seq : ℕ

-- What the store answers for the checkpoint's key: nothing is wired, the probe fails, there is none, it
-- cannot be loaded, or an image.
pub data StoreAnswer : Type 0 where
  no_store probe_failed no_image load_failed : StoreAnswer
  loaded : SnapshotImage → StoreAnswer

-- `restoreEntry`
unfoldable pub restore_entry : WalMutation → List ℕ → CrdtEntry
restore_entry m node_id = if not m.legacy then m.full else record {
  payload_digest = m.entry.payload_digest;
  origin_node_id = node_id;
  dot_node_id = m.node_id;
  dot_counter = m.counter;
  system_time = m.entry.system_time;
  valid_time_start = 0;
  valid_time_end = 0;
  assertion_time = 0;
  decision_time = 0;
  h3_index = 0;
}

-- `checkMutationRecord`
unfoldable pub check_mutation_record : WalMutation → List ℕ → Bool
check_mutation_record m node_id =
    not (length m.entity_id == 0)
    && not (is_zero m.node_id || (m.counter == 0))
    && same_key m.node_id node_id
    && leb m.counter max_plausible_counter
    && (m.legacy
        || (same_key m.full.dot_node_id m.node_id
            && (m.full.dot_counter == m.counter)
            && same_key m.full.origin_node_id node_id))

-- The image is that of the final checkpoint.
unfoldable pub is_anchored : Replayed → SnapshotImage → Bool
is_anchored rep img =
    (img.lamport_high == rep.final_checkpt.lamport_high)
    && (not rep.final_checkpt.has_cut_seq
        || ((img.cut_seq == rep.final_checkpt.cut_seq)
            && same_key img.merkle_root rep.final_checkpt.merkle_root))

-- A key of `localDots` and of `inImage`
unfoldable pub same_dot : List ℕ → ℕ → List ℕ → ℕ → Bool
same_dot a i b j = same_key a b && (i == j)

unfoldable pub has_mutation : List WalMutation → CrdtEntry → Bool
has_mutation [] e = false
has_mutation (m ∷ ms) e =
    same_dot m.node_id m.counter e.dot_node_id e.dot_counter || has_mutation ms e

-- An entry of the node itself that the log does not have is a phantom.
unfoldable pub has_phantom : List ℕ → List WalMutation → List IncomingEntry → Bool
has_phantom node_id ms [] = false
has_phantom node_id ms (r ∷ records) =
    (same_key r.entry.dot_node_id node_id && not (has_mutation ms r.entry))
    || has_phantom node_id ms records

-- The image that is used
unfoldable pub choose_image : List ℕ → Replayed → StoreAnswer → Option SnapshotImage
choose_image node_id rep (loaded img) =
    if rep.has_checkpoint
      && is_anchored rep img
      && not (has_phantom node_id rep.mutations img.records)
    then some img
    else none
choose_image node_id rep _ = none

-- `rebuiltInitial`
unfoldable pub rebuilt_initial : Replayed → ℕ
rebuilt_initial rep =
    if rep.has_checkpoint && ltb rep.lamport_high rep.final_checkpt.clock_high
    then rep.final_checkpt.clock_high
    else rep.lamport_high

-- `cutFrom`
unfoldable pub cut_from : Replayed → ℕ
cut_from rep =
    if rep.has_checkpoint && rep.final_checkpt.has_cut_seq
    then rep.final_checkpt.cut_seq
    else (rep.final_checkpt_seq + 1) % 2 ^ 64

abbrev seq_of_record : WalRecord → ℕ
seq_of_record (mutation_record t m seq) = seq
seq_of_record (advance_record a seq) = seq

-- The calls on the engine
pub data EngineCall : Type 0 where
  join_records : List IncomingEntry → EngineCall
  advance_to : ℕ → EngineCall

-- `flushChunk`
unfoldable pub flush_chunk : List IncomingEntry → List EngineCall
flush_chunk [] = []
flush_chunk (r ∷ chunk) = join_records (r ∷ chunk) ∷ []

-- A record is added to the chunk, which is flushed when it is full: the calls, and the chunk then.
unfoldable pub add_to_chunk :
    List IncomingEntry → IncomingEntry → List EngineCall × List IncomingEntry
add_to_chunk chunk r =
    let more = chunk ++ r ∷ [] in
    if leb replay_chunk_size (length more) then (flush_chunk more, []) else ([], more)

abbrev pub restored : List ℕ → WalMutation → IncomingEntry
restored node_id m = record { entity_id = m.entity_id; entry = restore_entry m node_id }

-- The loop over the records of the log, with what it skips: the calls, or none where a mutation is
-- refused. The last chunk is flushed behind it.
unfoldable pub restore_loop :
    List ℕ → (WalRecord → Bool) → List IncomingEntry → List WalRecord → Option (List EngineCall)
restore_loop node_id skipped chunk [] = some (flush_chunk chunk)
restore_loop node_id skipped chunk (mutation_record t m seq ∷ recs) =
    let (calls, chunk') = add_to_chunk chunk (restored node_id m) in
    let rest = restore_loop node_id skipped chunk' recs in
    let same = restore_loop node_id skipped chunk recs in
    if skipped (mutation_record t m seq)
    then same
    else if not (check_mutation_record m node_id)
    then none
    else elim rest [ none ↦ none | some cs ↦ some (calls ++ cs) ]
restore_loop node_id skipped chunk (advance_record a seq ∷ recs) =
    let rest = restore_loop node_id skipped chunk recs in
    if skipped (advance_record a seq)
    then rest
    else elim rest [ none ↦ none | some cs ↦ some (advance_to a ∷ cs) ]

-- The tail: what stands below the cut is skipped where an image is used.
unfoldable pub skips_tail : Bool → ℕ → WalRecord → Bool
skips_tail use_snapshot cut rec = use_snapshot && ltb (seq_of_record rec) cut

unfoldable pub in_image : List IncomingEntry → WalMutation → Bool
in_image [] m = false
in_image (r ∷ records) m =
    same_dot r.entry.dot_node_id r.entry.dot_counter m.node_id m.counter || in_image records m

-- The repair of holes: the mutations below the cut that the image does not have.
unfoldable pub skips_hole : ℕ → List IncomingEntry → WalRecord → Bool
skips_hole cut records (mutation_record t m seq) = leb cut seq || in_image records m
skips_hole cut records (advance_record a seq) = true

abbrev pub both : Option (List EngineCall) → Option (List EngineCall) → Option (List EngineCall)
both none y = none
both (some xs) none = none
both (some xs) (some ys) = some (xs ++ ys)

-- The calls that bring the image, the tail of the log and the holes
unfoldable pub restore_calls : List ℕ → Replayed → StoreAnswer → Option (List EngineCall)
restore_calls node_id rep answer = elim (choose_image node_id rep answer) [
  | none ↦ restore_loop node_id (skips_tail false (cut_from rep)) [] rep.ordered
  | some img ↦ both (some (join_records img.records ∷ [])) (
      both (restore_loop node_id (skips_tail true (cut_from rep)) [] rep.ordered)
        (restore_loop node_id (skips_hole (cut_from rep) img.records) [] rep.ordered))
]

-- The calls that rebuild the engine, up to the last one of its clock
unfoldable pub recover_calls : List ℕ → Replayed → StoreAnswer → Option (List EngineCall)
recover_calls node_id rep answer =
    both (restore_calls node_id rep answer) (some (advance_to (rebuilt_initial rep) ∷ []))
