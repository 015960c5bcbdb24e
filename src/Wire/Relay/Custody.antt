-- ===== src/Wire/Relay/Custody.antt =====
-- The chain of custody: which envelopes `Open` accepts, and that a relay's hop keeps them accepted.
use sovereign.Prelude.{
  ◌⊎◌, ℕ, zero, suc, ◌+◌, ◌*◌, ◌<◌, ◌≤◌, ◌≡◌, ◌↔◌, refl, List, [], ◌∷◌, ◌++◌, none, some, Bool,
  true, inl, inr, Bool-cases, length, length-append, take, get_elem?, arith,
}
use mathlib.Core.Path.{subst}
use native.Mathlib.Nat.{div-add-mod, mod-lt}
use sovereign.Wire.Relay.{
  Hop, RelayEnvelope, opened, signed_material, preceding_loop, rebuild_preceding, verify_loop,
  open_envelope, sign_hop, forward_envelope, new_signed_relay_envelope_v3, max_hops_for_budget,
  verify_cost_per_hop32c,
}

module _ (verify : List ℕ → List ℕ → List ℕ → Bool) where
  -- The signature of a hop is of the material behind the hops before it.
  unfoldable pub Signs : List ℕ → List ℕ → ℕ → Hop → Type 0
  Signs inner_wire preceding i h =
      verify h.relay_pub (signed_material inner_wire preceding i h.wall_usec) h.sig ≡ true

  abbrev AllSign : List ℕ → ℕ → List ℕ → List Hop → Type 0
  AllSign inner i preceding hops =
      (j : ℕ) (h : Hop)
      → get_elem? hops j ≡ some h
      → Signs inner (preceding_loop inner i preceding (take j hops)) (i + j) h

  material : List ℕ → ℕ → List ℕ → Hop → List ℕ
  material inner i preceding x = signed_material inner preceding i x.wall_usec

  Signs-first :
      (inner : List ℕ) (i : ℕ) (preceding : List ℕ) (x : Hop) (hops : List Hop)
      → verify_loop verify inner i preceding (x ∷ hops) ≡ none
      → Signs inner preceding i x
        × (verify_loop verify inner (i + 1) (material inner i preceding x) hops ≡ none)
  unfolding verify_loop Signs material
  Signs-first inner i preceding x hops v =
      elim (Bool-cases (verify x.relay_pub (signed_material inner preceding i x.wall_usec) x.sig)) [
        | inl e ↦ (e, rw e at v)
        | inr e ↦ absurd (let no = rw e at v in cc)
      ]

  -- The same index, a step further.
  Signs-shift :
      (inner preceding : List ℕ) (i j : ℕ) (h : Hop)
      → Signs inner preceding (i + 1 + j) h
      → Signs inner preceding (i + suc j) h
  Signs-shift inner preceding i j h s = subst (λ (n : ℕ). Signs inner preceding n h) (omega arith) s

  Signs-back :
      (inner preceding : List ℕ) (i j : ℕ) (h : Hop)
      → Signs inner preceding (i + suc j) h
      → Signs inner preceding (i + 1 + j) h
  Signs-back inner preceding i j h s = subst (λ (n : ℕ). Signs inner preceding n h) (omega arith) s

  verify_loop-AllSign :
      (inner : List ℕ) (i : ℕ) (preceding : List ℕ) (hops : List Hop)
      → verify_loop verify inner i preceding hops ≡ none
      → AllSign inner i preceding hops
  unfolding preceding_loop material
  verify_loop-AllSign inner i preceding [] v j h e = cc
  verify_loop-AllSign inner i preceding (x ∷ hops) v zero h e =
      let same : x ≡ h = cc in
      subst (λ (n : ℕ). Signs inner preceding n h) (omega arith)
        (subst (Signs inner preceding i) same (Signs-first inner i preceding x hops v).0)
  verify_loop-AllSign inner i preceding (x ∷ hops) v (suc j) h e =
      Signs-shift inner (preceding_loop inner (i + 1) (material inner i preceding x) (take j hops))
        i j h
        (verify_loop-AllSign inner (i + 1) (material inner i preceding x) hops
          (Signs-first inner i preceding x hops v).1 j h e)

  verify_loop-step :
      (inner : List ℕ) (i : ℕ) (preceding : List ℕ) (x : Hop) (hops : List Hop)
      → Signs inner preceding i x
      → verify_loop verify inner (i + 1) (material inner i preceding x) hops ≡ none
      → verify_loop verify inner i preceding (x ∷ hops) ≡ none
  unfolding verify_loop Signs material
  verify_loop-step inner i preceding x hops s v = rw s v

  AllSign-verify_loop :
      (inner : List ℕ) (i : ℕ) (preceding : List ℕ) (hops : List Hop)
      → AllSign inner i preceding hops
      → verify_loop verify inner i preceding hops ≡ none
  unfolding preceding_loop material
  AllSign-verify_loop inner i preceding [] a = unfold verify_loop in refl
  AllSign-verify_loop inner i preceding (x ∷ hops) a =
      verify_loop-step inner i preceding x hops
        (subst (λ (n : ℕ). Signs inner preceding n x) (omega arith) (a 0 x refl))
        (AllSign-verify_loop inner (i + 1) (material inner i preceding x) hops
          (λ j h e. Signs-back inner _ i j h (a (suc j) h e)))

  verify_loop-append :
      (inner : List ℕ) (i : ℕ) (preceding : List ℕ) (hops : List Hop) (y : Hop)
      → verify_loop verify inner i preceding hops ≡ none
      → Signs inner (preceding_loop inner i preceding hops) (i + length hops) y
      → verify_loop verify inner i preceding (hops ++ (y ∷ [])) ≡ none
  unfolding preceding_loop material
  verify_loop-append inner i preceding [] y v s =
      verify_loop-step inner i preceding y []
        (subst (λ (n : ℕ). Signs inner preceding n y) (omega arith) s) (unfold verify_loop in refl)
  verify_loop-append inner i preceding (x ∷ hops) y v s =
      let (first, rest) = Signs-first inner i preceding x hops v in
      verify_loop-step inner i preceding x (hops ++ (y ∷ [])) first (
        verify_loop-append inner (i + 1) (material inner i preceding x) hops y rest
          (Signs-back inner _ i (length hops) y s))

  pub opened-verified :
      (e : RelayEnvelope) (max_hops : ℕ) (w : List ℕ) (n : ℕ)
      → open_envelope verify e max_hops ≡ opened w n
      → (length e.hops ≤ max_hops)
        × (verify_loop verify e.inner_wire 0 [] e.hops ≡ none)
        × (w ≡ e.inner_wire)
  unfolding open_envelope
  opened-verified e max_hops w n h = ground arith

  verified-opened :
      (e : RelayEnvelope) (max_hops : ℕ)
      → length e.hops ≤ max_hops
      → verify_loop verify e.inner_wire 0 [] e.hops ≡ none
      → open_envelope verify e max_hops ≡ opened e.inner_wire (length e.hops)
  unfolding open_envelope
  verified-opened e max_hops h v = rw v (ground arith)

  -- `Open` returns the inner wire and the number of hops just when the number is within the bound
  -- and each hop's signature verifies over the inner wire, what `rebuildPreceding` makes of the hops
  -- before it, its index and its timestamp.
  pub open_envelope-chain :
      (e : RelayEnvelope) (max_hops : ℕ)
      → (open_envelope verify e max_hops ≡ opened e.inner_wire (length e.hops)) ↔ (
          (length e.hops ≤ max_hops)
          × ((j : ℕ) (h : Hop)
              → get_elem? e.hops j ≡ some h
              → Signs e.inner_wire (rebuild_preceding e.inner_wire (take j e.hops)) j h))
  unfolding rebuild_preceding
  open_envelope-chain e max_hops = (
    λ o.
        let (small, v, _) = opened-verified e max_hops e.inner_wire (length e.hops) o in
        (
          small,
          λ j h f.
              subst
                (λ (n : ℕ).
                  Signs e.inner_wire (preceding_loop e.inner_wire 0 [] (take j e.hops)) n h)
                (omega arith) (verify_loop-AllSign e.inner_wire 0 [] e.hops v j h f),
        ),
    λ c. verified-opened e max_hops c.0 (
        AllSign-verify_loop e.inner_wire 0 [] e.hops (λ j h f.
          subst
            (λ (n : ℕ). Signs e.inner_wire (preceding_loop e.inner_wire 0 [] (take j e.hops)) n h)
            (omega arith) (c.1 j h f))),
  )

  signed :
      (sign : List ℕ → List ℕ → List ℕ) (priv relay_pub : List ℕ) (e : RelayEnvelope) (wall : ℕ)
      → ((msg : List ℕ) → verify relay_pub msg (sign priv msg) ≡ true)
      → Signs e.inner_wire (preceding_loop e.inner_wire 0 [] e.hops) (0 + length e.hops) (
          sign_hop sign priv relay_pub e.inner_wire
            (rebuild_preceding e.inner_wire e.hops)
            (length e.hops)
            wall)
  unfolding Signs sign_hop rebuild_preceding
  signed sign priv relay_pub e wall key =
      subst
        (λ (n : ℕ). Signs e.inner_wire (preceding_loop e.inner_wire 0 [] e.hops) n (
          sign_hop sign priv relay_pub e.inner_wire (preceding_loop e.inner_wire 0 [] e.hops)
            (length e.hops) wall))
        (omega arith) (key _)

  -- Where `Open` accepts an envelope and its relay's signatures verify, the envelope that the relay
  -- forwards opens, under every bound that has room for one more hop, to the same inner wire, with
  -- one hop more.
  pub forward_envelope-opens :
      (sign : List ℕ → List ℕ → List ℕ) (priv relay_pub : List ℕ) (e : RelayEnvelope)
      (max_hops bound wall : ℕ) (w : List ℕ) (n : ℕ)
      → ((msg : List ℕ) → verify relay_pub msg (sign priv msg) ≡ true)
      → open_envelope verify e max_hops ≡ opened w n
      → length e.hops + 1 ≤ bound
      → let sent =
          forward_envelope sign priv relay_pub e.inner_wire e.origin_sig e.dot_counter
            e.origin_node_id e.hops
            (length e.hops)
            wall in
        open_envelope verify sent bound ≡ opened w (length e.hops + 1)
  unfolding forward_envelope new_signed_relay_envelope_v3
  forward_envelope-opens sign priv relay_pub e max_hops bound wall w n key o room =
      let (_, v, same) = opened-verified e max_hops w n o in
      let y =
        sign_hop sign priv relay_pub e.inner_wire (rebuild_preceding e.inner_wire e.hops)
          (length e.hops) wall in
      let longer : length (e.hops ++ (y ∷ [])) ≡ length e.hops + 1 =
        omega (arith, length-append e.hops (y ∷ [])) in
      rw same (
        subst
          (λ (m : ℕ).
            open_envelope verify
              (forward_envelope sign priv relay_pub e.inner_wire e.origin_sig e.dot_counter
                e.origin_node_id e.hops (length e.hops) wall)
              bound
            ≡ opened e.inner_wire m)
          longer
          (verified-opened _ bound (omega (arith, longer)) (
            verify_loop-append e.inner_wire 0 [] e.hops y v
              (signed sign priv relay_pub e wall key))))

-- `MaxHopsForBudget` of a budget is the largest number of hops that, with the inner verification,
-- the budget pays for, and 0 where it pays for none.
max_hops_for_budget_bounds :
    (budget : ℕ)
    → let n = max_hops_for_budget budget in
      ((n ≡ 0) ⊎ ((n + 1) * verify_cost_per_hop32c ≤ budget))
      × (budget < (n + 2) * verify_cost_per_hop32c)
unfolding max_hops_for_budget
max_hops_for_budget_bounds budget =
    let q = div-add-mod budget 60211 in
    let positive : 0 < verify_cost_per_hop32c = omega arith in
    let r = mod-lt budget positive in (omega (arith, q, r), omega (arith, q, r))
