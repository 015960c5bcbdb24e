-- ===== src/EntryMap.antt =====
-- What the engine (pkg/sync/crdt.go) uses of a shard's map, the persistent trie of
-- pkg/sync/hamt.go: `Get`, `Set` with a list that is not empty, and `ForEach`.
use sovereign.Prelude.{◌≡◌, List, [], ◌∷◌, Bool, true, false, ℕ, Ordering, arith, if◌then◌else◌}
use sovereign.Bytes.{All}
use sovereign.Entry.Order.{compare_bytes-eq, compare_bytes_refl, compare_bytes-flip}
use sovereign.Entry.{CrdtEntry, compare_bytes}

-- Go's `==` on strings.
abbrev pub same_key : List ℕ → List ℕ → Bool
same_key a b = elim (compare_bytes a b) [ Ordering.eq ↦ true | _ ↦ false ]

pub key_eq : (k j : List ℕ) → same_key k j ≡ true → j ≡ k
key_eq k j h = ground (arith, compare_bytes-eq k j)

pub same_key_refl : (k : List ℕ) → same_key k k ≡ true
same_key_refl k = ground (arith, compare_bytes_refl k)

pub same_key_comm : (k j : List ℕ) → same_key k j ≡ same_key j k
same_key_comm k j = ground (arith, compare_bytes-flip k j)

abbrev pub Pair : Type 0
Pair = List ℕ × List CrdtEntry

-- The entries of the first pair with the key, and nil where there is none.
abbrev pub entries_of : List ℕ → List Pair → List CrdtEntry
entries_of k [] = []
entries_of k ((j, es) ∷ rest) = let later = entries_of k rest in if same_key k j then es else later

pub record EntryMap : Type 1 where
  pub Map : Type 0
  -- `NewHAMT`
  pub empty : Map
  -- `Get`; nil is the empty list.
  pub get : Map → List ℕ → List CrdtEntry
  -- `Set`
  pub set : Map → List ℕ → List CrdtEntry → Map
  -- The pairs that `ForEach` visits, in its order.
  pub for_each : Map → List Pair
  pub get-empty : (k : List ℕ) → get empty k ≡ []
  pub get-set :
      (m : Map) (k j : List ℕ) (x : CrdtEntry) (xs : List CrdtEntry)
      → get (set m k (x ∷ xs)) j ≡ (if same_key k j then x ∷ xs else get m j)
  pub get-for_each : (m : Map) (k : List ℕ) → get m k ≡ entries_of k (for_each m)
  pub for_each-get : (m : Map) → All (λ (p : Pair). get m p.0 ≡ p.1) (for_each m)
