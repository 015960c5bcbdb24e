-- ===== src/Trie/Fills.antt =====
-- The trie fills the interface by which the engine uses the map of a shard.
use sovereign.Prelude.{ℕ, ◌≡◌, List, [], ◌∷◌, Option, none, some, if◌then◌else◌, arith}
use sovereign.Bytes.{All}
use sovereign.Entry.{CrdtEntry}
use sovereign.EntryMap.{EntryMap, Pair, same_key, entries_of, same_key_refl}
use sovereign.Trie.Defs.{Node, new_trie, node_pairs, trie_get, trie_set, node_get}
use sovereign.Trie.Valid.{IsWellFormed, new_trie-IsWellFormed}
use sovereign.Trie.Keeps.{PointerWellFormed}
use sovereign.Trie.Invariant.{trie_set-IsWellFormed}
use sovereign.Trie.GetSet.{trie_get-set}
use sovereign.Trie.ForEach.{node_visited, node_get-entries_of}

module _ (hash : List ℕ → ℕ) where
  -- A trie that is well formed.
  abbrev pub Trie : Type 0
  Trie = (t : Node) × IsWellFormed hash 0 t

  abbrev pub get : Trie → List ℕ → List CrdtEntry
  get m k = trie_get hash (some m.0) k

  -- The trie of a pointer; the pointer 0 comes only from a deletion, which the engine never makes,
  -- and leaves the trie that there was.
  abbrev pub trie_of : Trie → (o : Option Node) → PointerWellFormed hash 0 o → Trie
  trie_of m none w = m
  trie_of m (some t) w = (t, w)

  abbrev pub set : Trie → List ℕ → List CrdtEntry → Trie
  set m k es = trie_of m (trie_set hash (some m.0) k es) (trie_set-IsWellFormed hash m.0 k es m.1)

  set-get :
      (m : Trie) (o : Option Node) (w : PointerWellFormed hash 0 o) (k j : List ℕ) (x : CrdtEntry)
      (xs : List CrdtEntry)
      → ((i : List ℕ) → trie_get hash o i ≡ (if same_key k i then x ∷ xs else get m i))
      → get (trie_of m o w) j ≡ (if same_key k j then x ∷ xs else get m j)
  unfolding trie_get
  set-get m none w k j x xs f = absurd (ground (arith, f k, same_key_refl k))
  set-get m (some t) w k j x xs f = f j

  pub get-set :
      (m : Trie) (k j : List ℕ) (x : CrdtEntry) (xs : List CrdtEntry)
      → get (set m k (x ∷ xs)) j ≡ (if same_key k j then x ∷ xs else get m j)
  get-set m k j x xs =
      set-get m (trie_set hash (some m.0) k (x ∷ xs))
        (trie_set-IsWellFormed hash m.0 k (x ∷ xs) m.1) k j x xs
        (λ i. trie_get-set hash k i (x ∷ xs) m.0 m.1)

  pub get-empty : (k : List ℕ) → get (new_trie, new_trie-IsWellFormed hash) k ≡ []
  unfolding trie_get node_get
  get-empty k = ground arith

  pub get-for_each : (m : Trie) (k : List ℕ) → get m k ≡ entries_of k (node_pairs m.0)
  unfolding trie_get
  get-for_each m k = node_get-entries_of hash k 0 m.0 m.1

  pub for_each-get : (m : Trie) → All (λ (p : Pair). get m p.0 ≡ p.1) (node_pairs m.0)
  unfolding trie_get
  for_each-get m = node_visited hash 0 m.0 m.1

  -- The trie as the map of a shard.
  unfoldable pub trie_map : EntryMap
  trie_map = record {
    Map = Trie;
    empty = (new_trie, new_trie-IsWellFormed hash);
    get = get;
    set = set;
    for_each = λ m. node_pairs m.0;
    get-empty = get-empty;
    get-set = get-set;
    get-for_each = get-for_each;
    for_each-get = for_each-get;
  }
