-- ===== src/Tests/ReceiveTests.antt =====
-- The receiver at concrete frames, with a message decoder that knows one event and a digest that
-- repeats the payload.
use sovereign.Prelude.{
  ℕ, ◌≤◌, ◌≡◌, ◌≢◌, ◌⊎◌, refl, List, [], ◌∷◌, Option, none, some, Bool, true, false, replicate,
  arith,
}
use Prim.Native.Nat.{max}
use sovereign.Prelude.Int.{pos}
use sovereign.Engine.Join.{join}
use sovereign.Bytes.{le_bytes, le_value}
use sovereign.Entry.{compare_bytes}
use sovereign.EntryMap.{EntryMap}
use sovereign.Skew.{max_uint64, max_acceptable_dot_counter}
use sovereign.Lamport.{advance_lamport_to, new_clock, start_counter, recover_lamport}
use sovereign.WallClock.{is_late_enough, admit}
use sovereign.Reconstruct.{
  WireEvent, ReconstructedEntry, checked, reconstruct_entry, reconstruct_entry_with_skew_bound,
  with_fields, IsVouched, reconstruct_entry-IsVouched,
}
use sovereign.Engine.Defs.{new_engine}
use sovereign.Wire.Relay.{
  marshal, unmarshal_relay_envelope, open_envelope, new_signed_relay_envelope_v3,
}
use sovereign.Wire.Relay.RoundTrip.{EnvelopeFits}
use sovereign.Receive.{accepted, drop_verify, Receiver, snapshot_of, handle_frame}
use sovereign.Receive.Skewed.{admit-defeats_skew}
use sovereign.Receive.Gates.{Delivered, handle_frame_lem}
use sovereign.Receive.Forged.{handle_frame-moves_clock}
use sovereign.Trie.Fills.{trie_map}
use sovereign.Tests.Models.{test_float, test_hash}
use sovereign.Tests.Sorting.{insertion_sorter}

abbrev maps : EntryMap
maps = trie_map test_hash

abbrev event : WireEvent
event = record {
  version = 1;
  entity_id = some (1 ∷ []);
  payload_digest = some (replicate 32 3);
  payload_bytes = some (replicate 32 3);
  origin_node_id = some (replicate 16 7);
  dot_node_id = some (replicate 16 7);
  dot_counter = 900000;
  h3_index = 0;
  system_time = 1;
  valid_time_start = 2;
  valid_time_end = 3;
  assertion_time = 4;
  decision_time = 5;
}

abbrev test_decode : List ℕ → Option WireEvent
test_decode inner = some event

abbrev test_digest : List ℕ → List ℕ
test_digest payload = payload

abbrev any_signature : List ℕ → List ℕ → List ℕ → Bool
any_signature key msg sig = true

abbrev key_of : List ℕ → Option (List ℕ)
key_of origin = some origin

abbrev nobody : List ℕ → Option (List ℕ)
nobody origin = none

abbrev node : Receiver test_float maps test_hash
node = record {
  bucket = [];
  engine = new_engine test_float maps test_hash (7 ∷ []) 0 none;
  max_hops = 15;
  hybrid_verify = false;
  skew_horizon_seconds = 10;
  skew_absolute_slack = 100;
  clock_advances = [];
  relayed = [];
}

abbrev rebuilt : ReconstructedEntry
rebuilt = record {
  entity_id = 1 ∷ [];
  payload = replicate 32 3;
  entry = record {
    payload_digest = replicate 32 3;
    origin_node_id = replicate 16 7;
    dot_node_id = replicate 16 7;
    dot_counter = 900000;
    system_time = 1;
    valid_time_start = 2;
    valid_time_end = 3;
    assertion_time = 4;
    decision_time = 5;
    h3_index = 0;
  };
}

event-rebuilt : reconstruct_entry test_digest event ≡ checked rebuilt
unfolding reconstruct_entry with_fields compare_bytes
event-rebuilt = refl

reconstruct_entry-IsVouched_example : IsVouched test_digest event rebuilt
reconstruct_entry-IsVouched_example =
    reconstruct_entry-IsVouched test_digest event rebuilt event-rebuilt

clock_fits : node.engine.clock.lamport_counter ≤ max_uint64
unfolding new_engine new_clock start_counter recover_lamport
clock_fits = omega arith

on_time : is_late_enough (pos 5000) (pos 5001) ≡ true
unfolding is_late_enough
on_time = refl

gate_open : (admit test_float (pos 5000) (pos 5001) event.dot_counter node.engine.clock).0 ≡ true
unfolding admit is_late_enough
gate_open = refl

admit-defeats_skew_example :
    let clock' = (admit test_float (pos 5000) (pos 5001) event.dot_counter node.engine.clock).1 in
    reconstruct_entry_with_skew_bound test_digest test_float event (
      snapshot_of test_float maps test_hash
        (record node { engine = record node.engine { clock = clock' } }))
    ≡ reconstruct_entry test_digest event
admit-defeats_skew_example =
    admit-defeats_skew test_float maps test_hash test_digest event (pos 5000) (pos 5001) node
      (omega arith) clock_fits gate_open

abbrev wire : List ℕ
wire =
    marshal (new_signed_relay_envelope_v3 (1 ∷ 2 ∷ []) (replicate 64 6) 900000 (replicate 16 7) [])

handle_frame_lem_example :
    let o =
      handle_frame test_float maps test_hash insertion_sorter any_signature key_of test_decode
        test_digest
        (pos 5001)
        (pos 5000)
        wire
        node in
    ((o.0 ≢ accepted) × (o.1.engine.shards ≡ node.engine.shards))
    ⊎ ((o.0 ≡ accepted)
        × Delivered test_float maps test_hash insertion_sorter any_signature key_of test_decode
            test_digest
            (pos 5001)
            (pos 5000)
            wire
            node
            o.1.engine)
handle_frame_lem_example =
    handle_frame_lem test_float maps test_hash insertion_sorter any_signature key_of test_decode
      test_digest (pos 5001) (pos 5000) wire node

wire_fits :
    EnvelopeFits
      (new_signed_relay_envelope_v3 (1 ∷ 2 ∷ []) (replicate 64 6) 900000 (replicate 16 7) [])
unfolding new_signed_relay_envelope_v3
wire_fits = record {
  hops_lt = omega arith;
  inner_lt = omega arith;
  sig_len = refl;
  counter_lt = omega arith;
  id_len = refl;
  hops_fit = tt;
}

handle_frame-moves_clock_example :
    let o =
      handle_frame test_float maps test_hash insertion_sorter any_signature nobody test_decode
        test_digest
        (pos 5001)
        (pos 5000)
        wire
        node in
    (o.0 ≡ drop_verify)
    × (o.1.engine.clock.lamport_counter ≡ max 900000 node.engine.clock.lamport_counter)
handle_frame-moves_clock_example =
    handle_frame-moves_clock test_float maps test_hash insertion_sorter any_signature nobody
      test_decode test_digest (pos 5001) (pos 5000) (1 ∷ 2 ∷ []) (replicate 64 6) 900000
      (replicate 16 7) node wire_fits refl on_time

-- The signed frame is accepted.
accepts_signed :
    (handle_frame test_float maps test_hash insertion_sorter any_signature key_of test_decode
      test_digest
      (pos 5001)
      (pos 5000)
      wire
      node).0
    ≡ accepted
unfolding handle_frame unmarshal_relay_envelope marshal le_bytes new_signed_relay_envelope_v3
    le_value admit open_envelope compare_bytes reconstruct_entry_with_skew_bound
    max_acceptable_dot_counter advance_lamport_to new_engine new_clock start_counter recover_lamport
    join
accepts_signed = refl
