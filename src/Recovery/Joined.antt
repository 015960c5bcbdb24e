-- ===== src/Recovery/Joined.antt =====
-- What the calls of a recovery join.
use sovereign.Prelude.{
  ℕ, ◌≡◌, refl, sym, ap, ◌∙◌, inl, inr, List, [], ◌∷◌, ◌++◌, Bool, some, length, leb, if◌then◌else◌,
  Bool-cases, Option-cases,
}
use mathlib.Core.List.{append_assoc, append-nil}
use sovereign.Entry.{IncomingEntry}
use sovereign.Wal.Replay.{WalRecord, mutation_record, advance_record}
use sovereign.Recovery.{
  EngineCall, join_records, advance_to, flush_chunk, add_to_chunk, restored, restore_loop,
  replay_chunk_size, check_mutation_record,
}

-- All that the calls join, in their order
abbrev pub joined_of : List EngineCall → List IncomingEntry
joined_of [] = []
joined_of (join_records records ∷ calls) = records ++ joined_of calls
joined_of (advance_to a ∷ calls) = joined_of calls

-- The mutations of the log that are not skipped, as they are restored
unfoldable pub kept : List ℕ → (WalRecord → Bool) → List WalRecord → List IncomingEntry
kept node_id skipped [] = []
kept node_id skipped (mutation_record t m seq ∷ recs) =
    let rest = kept node_id skipped recs in
    if skipped (mutation_record t m seq) then rest else restored node_id m ∷ rest
kept node_id skipped (advance_record a seq ∷ recs) = kept node_id skipped recs

pub joined_of-append :
    (xs ys : List EngineCall) → joined_of (xs ++ ys) ≡ joined_of xs ++ joined_of ys
joined_of-append [] ys = refl
joined_of-append (join_records records ∷ xs) ys =
    ap (λ (t : List IncomingEntry). records ++ t) (joined_of-append xs ys)
    ∙ sym (append_assoc records (joined_of xs) (joined_of ys))
joined_of-append (advance_to a ∷ xs) ys = joined_of-append xs ys

joined_of-flush_chunk : (chunk : List IncomingEntry) → joined_of (flush_chunk chunk) ≡ chunk
unfolding flush_chunk
joined_of-flush_chunk [] = refl
joined_of-flush_chunk (r ∷ chunk) = append-nil (r ∷ chunk)

joined_of-add_to_chunk :
    (chunk : List IncomingEntry) (r : IncomingEntry)
    → joined_of (add_to_chunk chunk r).0 ++ (add_to_chunk chunk r).1 ≡ chunk ++ r ∷ []
unfolding add_to_chunk
joined_of-add_to_chunk chunk r =
    elim (Bool-cases (leb replay_chunk_size (length (chunk ++ r ∷ [])))) [
      | inl e ↦ rw e (
          append-nil (joined_of (flush_chunk (chunk ++ r ∷ [])))
          ∙ joined_of-flush_chunk (chunk ++ r ∷ []))
      | inr e ↦ rw e refl
    ]

pub some_injective : {A : Type 0} (x y : A) → some x ≡ some y → x ≡ y
some_injective x y e = cc

-- The loop joins its chunk and then what it does not skip.
pub joined_of-restore_loop :
    (node_id : List ℕ) (skipped : WalRecord → Bool) (chunk : List IncomingEntry)
    (recs : List WalRecord) (calls : List EngineCall)
    → restore_loop node_id skipped chunk recs ≡ some calls
    → joined_of calls ≡ chunk ++ kept node_id skipped recs
unfolding restore_loop kept
joined_of-restore_loop node_id skipped chunk [] calls h =
    ap joined_of (sym (some_injective (flush_chunk chunk) calls h))
    ∙ (joined_of-flush_chunk chunk ∙ sym (append-nil chunk))
joined_of-restore_loop node_id skipped chunk (mutation_record t m seq ∷ recs) calls h =
    let added = add_to_chunk chunk (restored node_id m) in
    elim (Bool-cases (skipped (mutation_record t m seq))) [
      | inl e ↦ rw e (joined_of-restore_loop node_id skipped chunk recs calls (rw e at h))
      | inr e ↦ elim (Bool-cases (check_mutation_record m node_id)) [
        | inr bad ↦ absurd (let k = rw (e, bad) at h in cc)
        | inl good ↦ elim (Option-cases (restore_loop node_id skipped added.1 recs)) [
          | inl stop ↦ absurd (let k = rw (e, good, stop) at h in cc)
          | inr (cs, go) ↦
              let same : added.0 ++ cs ≡ calls =
                some_injective (added.0 ++ cs) calls (rw (e, good, go) at h) in
              rw e (
                ap joined_of (sym same)
                ∙ (joined_of-append added.0 cs
                    ∙ (ap (λ (x : List IncomingEntry). joined_of added.0 ++ x)
                          (joined_of-restore_loop node_id skipped added.1 recs cs go)
                        ∙ (sym
                              (append_assoc (joined_of added.0) added.1 (kept node_id skipped recs))
                            ∙ (ap (λ (x : List IncomingEntry). x ++ kept node_id skipped recs)
                                  (joined_of-add_to_chunk chunk (restored node_id m))
                                ∙ append_assoc chunk (restored node_id m ∷ [])
                                    (kept node_id skipped recs))))))
        ]
      ]
    ]
joined_of-restore_loop node_id skipped chunk (advance_record a seq ∷ recs) calls h =
    elim (Bool-cases (skipped (advance_record a seq))) [
      | inl e ↦ joined_of-restore_loop node_id skipped chunk recs calls (rw e at h)
      | inr e ↦ elim (Option-cases (restore_loop node_id skipped chunk recs)) [
        | inl stop ↦ absurd (let k = rw (e, stop) at h in cc)
        | inr (cs, go) ↦
            let same : advance_to a ∷ cs ≡ calls =
              some_injective (advance_to a ∷ cs) calls (rw (e, go) at h) in
            ap joined_of (sym same) ∙ joined_of-restore_loop node_id skipped chunk recs cs go
      ]
    ]
