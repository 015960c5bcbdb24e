-- ===== src/Tests/EngineTests.antt =====
-- The engine at concrete deltas.
use sovereign.Prelude.{
  ◌+◌, ◌<◌, ℕ, ◌≡◌, refl, List, [], ◌∷◌, Option, none, some, false, length, if◌then◌else◌, arith,
}
use sovereign.Entry.{CausalDot, CrdtEntry, IncomingEntry}
use sovereign.EntryMap.{EntryMap, same_key}
use sovereign.Merge.Find.{find, or_else}
use sovereign.Lamport.{u64_mod, save_step, new_clock, start_counter, recover_lamport}
use sovereign.Engine.Defs.{
  Engine, done, point_get, insert_local, new_engine, set_shard_count, stamp,
}
use sovereign.Engine.Join.{join}
use sovereign.Engine.Picks.{Picks}
use sovereign.Engine.Valid.{IsValid, HasRoom}
use sovereign.Engine.JoinLaws.{join_lem}
use sovereign.Engine.Insert.{insert_local_lem, fresh_dot}
use sovereign.Engine.Start.{new_engine-IsValid}
use sovereign.Trie.Fills.{trie_map}
use sovereign.Engine.Routed.{IsRouted}
use sovereign.Engine.Runs.{Step, Reach, Reach-IsRouted}
use sovereign.Engine.ShardCount.{set_shard_count_lem}
use sovereign.Tests.Models.{test_float, test_hash, incoming_at, entry_at}
use sovereign.Tests.Sorting.{insertion_sorter}

abbrev shard_map : EntryMap
shard_map = trie_map test_hash

abbrev start : Engine test_float shard_map test_hash
start = new_engine test_float shard_map test_hash (7 ∷ []) 0 none

start-IsValid : IsValid test_float shard_map test_hash start
start-IsValid =
    (new_engine-IsValid test_float shard_map test_hash (7 ∷ []) 0 none (omega arith) tt).0

is_open : start.closing ≡ false
unfolding new_engine
is_open = refl

abbrev delta : List IncomingEntry
delta = incoming_at 1 2 5 ∷ incoming_at 1 2 4 ∷ incoming_at 3 2 6 ∷ []

has_room : HasRoom test_float shard_map test_hash delta
has_room = (omega arith, (omega arith, (omega arith, tt)))

join_lem_example :
    (e' : Engine test_float shard_map test_hash) × (join test_float shard_map test_hash
        insertion_sorter
        (some delta)
        start
      ≡ done e')
    × IsValid test_float shard_map test_hash e'
    × (e'.closing ≡ false)
    × ((k : List ℕ) (d : CausalDot)
        → (o : Option CrdtEntry) × (find d (point_get test_float shard_map test_hash e' k)
            ≡ or_else (find d (point_get test_float shard_map test_hash start k)) o)
          × Picks k d delta o)
join_lem_example =
    join_lem test_float shard_map test_hash insertion_sorter delta start is_open has_room
      start-IsValid

clock_room : start.clock.lamport_counter + 1 + save_step < u64_mod
unfolding new_engine new_clock start_counter recover_lamport
clock_room = omega arith

insert_local_lem_example :
    (e' : Engine test_float shard_map test_hash) × (insert_local test_float shard_map test_hash
        (1 ∷ [])
        (entry_at 0 0)
        start
      ≡ done (fresh_dot test_float shard_map test_hash start, e'))
    × IsValid test_float shard_map test_hash e'
    × (find
          (fresh_dot test_float shard_map test_hash start)
          (point_get test_float shard_map test_hash start (1 ∷ []))
        ≡ none)
    × ((j : List ℕ) (c : CausalDot)
        → find c (point_get test_float shard_map test_hash e' j)
          ≡ or_else (find c (point_get test_float shard_map test_hash start j)) (
              if same_key (1 ∷ []) j
              then find c (
                  stamp test_float shard_map test_hash start
                    (fresh_dot test_float shard_map test_hash start)
                    (entry_at 0 0)
                  ∷ [])
              else none))
insert_local_lem_example =
    insert_local_lem test_float shard_map test_hash (1 ∷ []) (entry_at 0 0) start is_open clock_room
      start-IsValid

-- One engine receives two deltas, the other the same entries the other way round, one of them twice.
abbrev first : IncomingEntry
first = incoming_at 1 2 5

abbrev second : IncomingEntry
second = incoming_at 3 2 6

abbrev forth : List (List IncomingEntry)
forth = (first ∷ []) ∷ (second ∷ []) ∷ []

abbrev back : List (List IncomingEntry)
back = (second ∷ first ∷ []) ∷ (second ∷ []) ∷ []

-- An engine with one entry.
inserted_engine :
    (e' : Engine test_float shard_map test_hash) × (insert_local test_float shard_map test_hash
        (1 ∷ [])
        (entry_at 0 0)
        start
      ≡ done (fresh_dot test_float shard_map test_hash start, e'))
    × IsValid test_float shard_map test_hash e'
inserted_engine =
    let (e', h, v, _, _) =
      insert_local_lem test_float shard_map test_hash (1 ∷ []) (entry_at 0 0) start is_open
        clock_room start-IsValid in
    (e', h, v)

abbrev after : Engine test_float shard_map test_hash
after = inserted_engine.0

abbrev run : Reach test_float shard_map test_hash insertion_sorter (7 ∷ []) 0 none after
run = Reach.next (Reach.starts) (
    Step.inserts (1 ∷ []) (entry_at 0 0) (fresh_dot test_float shard_map test_hash start) start
      after inserted_engine.1)

Reach-IsRouted_example : IsRouted test_float shard_map test_hash after.shards
Reach-IsRouted_example =
    Reach-IsRouted test_float shard_map test_hash insertion_sorter (7 ∷ []) 0 none after run

set_shard_count_lem_example :
    (e' : Engine test_float shard_map test_hash) × (set_shard_count test_float shard_map test_hash 4
        after
      ≡ done e')
    × (length e'.shards ≡ 4)
    × IsValid test_float shard_map test_hash e'
    × IsRouted test_float shard_map test_hash e'.shards
    × ((k : List ℕ)
        → point_get test_float shard_map test_hash e' k
          ≡ point_get test_float shard_map test_hash after k)
set_shard_count_lem_example =
    set_shard_count_lem test_float shard_map test_hash 4 after (omega arith) refl inserted_engine.2
      (Reach-IsRouted test_float shard_map test_hash insertion_sorter (7 ∷ []) 0 none after run)
