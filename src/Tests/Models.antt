-- ===== src/Tests/Models.antt =====
-- Numbers for float64, which shows that the law asked of it can hold, and test data.
use sovereign.Prelude.{ℕ, ◌+◌, ◌*◌, ◌^◌, ◌<◌, ◌≡◌, List, [], ◌∷◌, leb, ltb, false, arith, length}
use sovereign.Float64.{Float64}
use sovereign.Entry.{CrdtEntry, IncomingEntry}

pub below_huge : (n : ℕ) → leb (2 ^ 64) n ≡ false → n < 2 ^ 64
below_huge n h = ground arith

abbrev pub test_float : Float64
test_float = record {
  Float = ℕ;
  zero_float = 0;
  tenth = 1;
  nine_tenths = 9;
  from_u64 = λ n. n;
  add = λ a b. a + b;
  mul = λ a b. a * b;
  ceil = λ a. a;
  positive = λ a. ltb 0 a;
  is_huge = λ a. leb (2 ^ 64) a;
  to_u64 = λ a. a;
  to_u64-lt = λ a p h. below_huge a h;
}

abbrev pub test_hash : List ℕ → ℕ
test_hash k = length k

-- An entry of node `n` with the counter `c`.
abbrev pub entry_at : ℕ → ℕ → CrdtEntry
entry_at n c = record {
  payload_digest = [];
  origin_node_id = n ∷ [];
  dot_node_id = n ∷ [];
  dot_counter = c;
  system_time = 0;
  valid_time_start = 0;
  valid_time_end = 0;
  assertion_time = 0;
  decision_time = 0;
  h3_index = 0;
}

abbrev pub incoming_at : ℕ → ℕ → ℕ → IncomingEntry
incoming_at k n c = record { entity_id = k ∷ []; entry = entry_at n c }
