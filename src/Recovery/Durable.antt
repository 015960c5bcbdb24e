-- ===== src/Recovery/Durable.antt =====
-- From the append of a mutation to its recovery.
use sovereign.Prelude.{
  ℕ, ◌+◌, ◌≡◌, arith, refl, sym, ap, ◌∙◌, inl, inr, List, [], ◌∷◌, some, ltb, Bool-cases,
}
use sovereign.Prelude.Members.{Mem, Mem-append}
use sovereign.Entry.{IncomingEntry}
use sovereign.Wal.{WalMutation, max_credible_clock_high}
use sovereign.Wal.Append.{Wal}
use sovereign.Wal.Encode.{wal_rec_mutation_v2}
use sovereign.Wal.Payloads.{recorded_mutation, recorded_checkpoint_v2}
use sovereign.Wal.Replay.{
  Replayed, WalRecord, mutation_record, advance_record, replayed, replay_wal, nothing_replayed,
  count_record, replay_mutation, replay_advance, replay_checkpoint, replay_checkpoint_v2,
}
use sovereign.Wal.Ops.{
  WalOp, put_mutation, put_checkpoint, put_advance, absorb, absorb_all, HasWidth32,
}
use sovereign.Wal.Recovers.{replay_wal-log}
use sovereign.Wal.Holds.{Holds}
use sovereign.Recovery.{
  SnapshotImage, StoreAnswer, EngineCall, restore_entry, choose_image, recover_calls, no_store,
  probe_failed, no_image, load_failed, loaded,
}
use sovereign.Recovery.Joined.{joined_of}
use sovereign.Recovery.Complete.{recover_calls_complete}

-- What the stream of records has stays in it.
Mem-absorb :
    (x : WalRecord) (seq : ℕ) (op : WalOp) (out : Replayed)
    → Mem x out.ordered
    → Mem x (absorb seq op out).ordered
unfolding absorb count_record replay_mutation replay_advance replay_checkpoint replay_checkpoint_v2
    recorded_checkpoint_v2
Mem-absorb x seq (put_mutation m) out k =
    Mem-append x out.ordered (mutation_record wal_rec_mutation_v2 (recorded_mutation m) seq ∷ [])
      (inl k)
Mem-absorb x seq (put_advance a) out k =
    Mem-append x out.ordered (advance_record a seq ∷ []) (inl k)
Mem-absorb x seq (put_checkpoint c) out k = elim (Bool-cases c.has_cut_seq) [
  | inr e ↦ rw e k
  | inl e ↦ elim (Bool-cases (ltb max_credible_clock_high c.clock_high)) [
    | inl f ↦ simp (e, f) k
    | inr f ↦ simp (e, f) k
  ]
]

Mem-absorb_all :
    (x : WalRecord) (seq : ℕ) (ops : List WalOp) (out : Replayed)
    → Mem x out.ordered
    → Mem x (absorb_all seq ops out).ordered
unfolding absorb_all
Mem-absorb_all x seq [] out k = k
Mem-absorb_all x seq (op ∷ ops) out k =
    Mem-absorb_all x (seq + 1) ops (absorb seq op out) (Mem-absorb x seq op out k)

put_here :
    (seq : ℕ) (m : WalMutation) (out : Replayed)
    → Mem
        (mutation_record wal_rec_mutation_v2 (recorded_mutation m) seq)
        (absorb seq (put_mutation m) out).ordered
unfolding absorb count_record replay_mutation
put_here seq m out =
    let x = mutation_record wal_rec_mutation_v2 (recorded_mutation m) seq in
    Mem-append x out.ordered (x ∷ []) (inr (inl refl))

put_somewhere :
    (m : WalMutation) (seq : ℕ) (ops : List WalOp) (out : Replayed)
    → Mem (put_mutation m) ops
    → (at : ℕ) × Mem
        (mutation_record wal_rec_mutation_v2 (recorded_mutation m) at)
        (absorb_all seq ops out).ordered
unfolding absorb_all
put_somewhere m seq [] out k = elim k [ ]
put_somewhere m seq (op ∷ ops) out (inl e) = (
  seq,
  Mem-absorb_all (mutation_record wal_rec_mutation_v2 (recorded_mutation m) seq) (seq + 1) ops
      (absorb seq op out) (rw (← e) (put_here seq m out)),
)
put_somewhere m seq (op ∷ ops) out (inr k) = put_somewhere m (seq + 1) ops (absorb seq op out) k

-- What the store loads has, at the mutation's dot, no entry but the mutation's own.
abbrev pub IsFaithful : StoreAnswer → WalMutation → Type 0
IsFaithful answer m =
    (img : SnapshotImage) (r : IncomingEntry)
    → answer ≡ loaded img
    → Mem r img.records
    → r.entry.dot_node_id ≡ m.node_id
    → r.entry.dot_counter ≡ m.counter
    → r ≡ record { entity_id = m.entity_id; entry = m.full }

chosen_loaded :
    (node_id : List ℕ) (rep : Replayed) (answer : StoreAnswer) (img : SnapshotImage)
    → choose_image node_id rep answer ≡ some img
    → answer ≡ loaded img
unfolding choose_image
chosen_loaded node_id rep (loaded i) img h = ground arith
chosen_loaded node_id rep no_store img h = absurd cc
chosen_loaded node_id rep probe_failed img h = absurd cc
chosen_loaded node_id rep no_image img h = absurd cc
chosen_loaded node_id rep load_failed img h = absurd cc

-- A mutation that is among the entries of a log is recovered: where the log's file is replayed and the
-- recovery from that goes through, a call joins the entity and the whole entry that were appended,
-- whether from the log or from the image. The log's file and its next number are those of its entries,
-- the checksum has 32 bits, and an image that the store loads has no other entry at the mutation's dot.
pub recover_calls_durable :
    (crc32c : List ℕ → ℕ) (ops : List WalOp) (w : Wal) (m : WalMutation) (node_id : List ℕ)
    (rep : Replayed) (answer : StoreAnswer) (calls : List EngineCall)
    → HasWidth32 crc32c
    → Holds crc32c ops w
    → Mem (put_mutation m) ops
    → IsFaithful answer m
    → replay_wal crc32c w.file ≡ replayed rep
    → recover_calls node_id rep answer ≡ some calls
    → Mem (record { entity_id = m.entity_id; entry = m.full }) (joined_of calls)
unfolding restore_entry recorded_mutation
recover_calls_durable crc32c ops w m node_id rep answer calls wide h k faithful again r =
    let (at, there) = put_somewhere m 0 ops nothing_replayed k in
    let both : replayed rep ≡ replayed (absorb_all 0 ops nothing_replayed) =
      sym again ∙ (ap (replay_wal crc32c) h.file_is ∙ replay_wal-log crc32c ops wide h.fit h.few) in
    let same : rep ≡ absorb_all 0 ops nothing_replayed = cc in
    elim (recover_calls_complete node_id rep answer calls wal_rec_mutation_v2 (recorded_mutation m)
      at r (rw same there)) [
        | inl joins ↦ joins
        | inr (img, x, e, mem, joins, f, g) ↦
            rw (← faithful img x (chosen_loaded node_id rep answer img e) mem f g) joins
      ]
