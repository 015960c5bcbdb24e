-- ===== src/Entry.antt =====
-- The CRDT's data (pkg/sync/hamt.go) and the orders on it (pkg/sync/crdt.go).
-- A byte array and a Go string are lists of bytes; an int64 field is kept xs its 64-bit pattern.
pub mod Order
use sovereign.Prelude.{ℕ, List, [], ◌∷◌, compare, Ordering}

pub record CausalDot : Type 0 where
  pub node_id : List ℕ
  pub counter : ℕ

pub record CrdtEntry : Type 0 where
  pub payload_digest : List ℕ
  pub origin_node_id : List ℕ
  pub dot_node_id : List ℕ
  pub dot_counter : ℕ
  pub system_time : ℕ
  pub valid_time_start : ℕ
  pub valid_time_end : ℕ
  pub assertion_time : ℕ
  pub decision_time : ℕ
  pub h3_index : ℕ

-- `CRDTEntry.Dot`
abbrev pub dot : CrdtEntry → CausalDot
dot e = record { node_id = e.dot_node_id; counter = e.dot_counter }

-- Byte by byte, and a proper prefix is the smaller: Go's `<` on strings, and on two arrays of one
-- length the loop of `compareDots` over the node ids, which then never meets the uneven clauses.
unfoldable pub compare_bytes : List ℕ → List ℕ → Ordering
compare_bytes [] [] = Ordering.eq
compare_bytes [] (b ∷ ys) = Ordering.lt
compare_bytes (a ∷ xs) [] = Ordering.gt
compare_bytes (a ∷ xs) (b ∷ ys) = elim (compare a b) [
  | Ordering.lt ↦ Ordering.lt
  | Ordering.gt ↦ Ordering.gt
  | Ordering.eq ↦ compare_bytes xs ys
]

-- `compareDots`: -1, 0 and 1 are `lt`, `eq` and `gt`.
unfoldable pub compare_dots : CausalDot → CausalDot → Ordering
compare_dots a b = elim (compare_bytes a.node_id b.node_id) [
  | Ordering.lt ↦ Ordering.lt
  | Ordering.gt ↦ Ordering.gt
  | Ordering.eq ↦ compare a.counter b.counter
]

pub record IncomingEntry : Type 0 where
  pub entity_id : List ℕ
  pub entry : CrdtEntry

-- `cmpIncomingEntries`: by entity, then by dot.
unfoldable pub cmp_incoming_entries : IncomingEntry → IncomingEntry → Ordering
cmp_incoming_entries a b = elim (compare_bytes a.entity_id b.entity_id) [
  | Ordering.lt ↦ Ordering.lt
  | Ordering.gt ↦ Ordering.gt
  | Ordering.eq ↦ compare_dots (dot a.entry) (dot b.entry)
]
