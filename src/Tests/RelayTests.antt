-- ===== src/Tests/RelayTests.antt =====
-- The relay envelope and the stream of frames at concrete bytes, with a signature that repeats the key
-- and the message.
use sovereign.Prelude.{
  ℕ, ◌+◌, ◌<◌, ◌≤◌, ◌≡◌, ◌↔◌, refl, List, [], ◌∷◌, ◌++◌, Bool, false, none, some, length, take,
  get_elem?, replicate, arith,
}
use sovereign.EntryMap.{same_key, same_key_refl}
use sovereign.Bytes.{be_bytes, le_bytes}
use sovereign.Wire.Relay.{
  Hop, RelayEnvelope, opened, marshal, unmarshal_relay_envelope, envelope_version, open_envelope,
  verify_loop, forward_envelope, rebuild_preceding, length_prefix_frame,
}
use sovereign.Wire.Relay.RoundTrip.{
  EnvelopeFits, unmarshal_relay_envelope-marshal, unmarshal_relay_envelope-take,
}
use sovereign.Wire.Relay.Custody.{Signs, open_envelope-chain, forward_envelope-opens}
use sovereign.Wire.Stream.{Reads}
use sovereign.Wire.Stream.Arrives.{bytes_of, framed, read_frames, read_frames-framed}

abbrev test_verify : List ℕ → List ℕ → List ℕ → Bool
test_verify key msg sig = same_key (key ++ msg) sig

abbrev test_sign : List ℕ → List ℕ → List ℕ
test_sign key msg = key ++ msg

abbrev hop : Hop
hop = record { relay_pub = replicate 32 4; sig = replicate 64 5; wall_usec = 99 }

abbrev relayed : RelayEnvelope
relayed = record {
  inner_wire = 1 ∷ 2 ∷ 3 ∷ [];
  origin_sig = replicate 64 6;
  dot_counter = 17;
  origin_node_id = replicate 16 7;
  version = 0;
  hops = hop ∷ [];
}

relayed_fits : EnvelopeFits relayed
relayed_fits = record {
  hops_lt = omega arith;
  inner_lt = omega arith;
  sig_len = refl;
  counter_lt = omega arith;
  id_len = refl;
  hops_fit = (record { pub_len = refl; sig_len = refl; wall_lt = omega arith }, tt);
}

unmarshal_relay_envelope-marshal_example :
    unmarshal_relay_envelope (marshal relayed)
    ≡ some (record relayed { version = envelope_version })
unmarshal_relay_envelope-marshal_example = unmarshal_relay_envelope-marshal relayed relayed_fits

one_hop : 100 < length (marshal relayed)
unfolding marshal le_bytes
one_hop = omega arith

unmarshal_relay_envelope-take_example : unmarshal_relay_envelope (take 100 (marshal relayed)) ≡ none
unmarshal_relay_envelope-take_example =
    unmarshal_relay_envelope-take relayed relayed_fits 100 one_hop

open_envelope-chain_example :
    (open_envelope test_verify relayed 15 ≡ opened relayed.inner_wire (length relayed.hops)) ↔ (
      (length relayed.hops ≤ 15)
      × ((j : ℕ) (h : Hop)
          → get_elem? relayed.hops j ≡ some h
          → Signs test_verify relayed.inner_wire
              (rebuild_preceding relayed.inner_wire (take j relayed.hops))
              j
              h))
open_envelope-chain_example = open_envelope-chain test_verify relayed 15

-- An envelope that comes from its origin.
abbrev fresh : RelayEnvelope
fresh = record relayed { hops = [] }

fresh_opens : open_envelope test_verify fresh 15 ≡ opened (1 ∷ 2 ∷ 3 ∷ []) 0
unfolding open_envelope verify_loop
fresh_opens = refl

forward_envelope-opens_example :
    let sent =
      forward_envelope test_sign
        (replicate 32 4)
        (replicate 32 4)
        (1 ∷ 2 ∷ 3 ∷ [])
        (replicate 64 6)
        17
        (replicate 16 7)
        []
        0
        99 in
    open_envelope test_verify sent 15 ≡ opened (1 ∷ 2 ∷ 3 ∷ []) (0 + 1)
forward_envelope-opens_example =
    forward_envelope-opens test_verify test_sign (replicate 32 4) (replicate 32 4) fresh 15 15 99
      (1 ∷ 2 ∷ 3 ∷ []) 0 (λ msg. same_key_refl (replicate 32 4 ++ msg)) fresh_opens (omega arith)

-- Two frames, the second of which is cut by the reads.
abbrev cut : Reads
cut = (0 ∷ 0 ∷ 0 ∷ 2 ∷ 8 ∷ 9 ∷ 0 ∷ 0 ∷ [], false) ∷ (0 ∷ 1 ∷ [], false) ∷ (7 ∷ [], false) ∷ []

cut_bytes : [] ++ bytes_of cut ≡ framed ((8 ∷ 9 ∷ []) ∷ (7 ∷ []) ∷ [])
unfolding length_prefix_frame be_bytes
cut_bytes = refl

read_frames-framed_example : read_frames 2 [] cut ≡ some ((8 ∷ 9 ∷ []) ∷ (7 ∷ []) ∷ [])
read_frames-framed_example =
    read_frames-framed ((8 ∷ 9 ∷ []) ∷ (7 ∷ []) ∷ []) [] cut
      ((omega arith, omega arith), ((omega arith, omega arith), tt)) (refl, (refl, (refl, tt)))
      cut_bytes
