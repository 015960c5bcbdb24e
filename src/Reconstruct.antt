-- ===== src/Reconstruct.antt =====
-- The check of a wire event, `ReconstructEntry` of pkg/sync/crdt_reconstruct.go and
-- `ReconstructEntryWithSkewBound` of pkg/sync/crdt_reconstruct_skew.go. A `WireEvent` is what the
-- accessors of the generated message return, `none` where one returns an error; SHA-256 is a
-- parameter.
use sovereign.Prelude.{
  ℕ, ◌≡◌, refl, List, Option, none, some, Bool, true, false, inl, inr, Bool-cases, length, ltb,
  ◌==◌, ==_iff, if◌then◌else◌, ap, sym,
}
use mathlib.Core.Path.{subst}
use sovereign.Float64.{Float64}
use sovereign.Entry.{CrdtEntry}
use sovereign.EntryMap.{same_key, key_eq}
use sovereign.Skew.{LamportSnapshot, max_acceptable_dot_counter}

pub record WireEvent : Type 0 where
  pub version : ℕ
  pub entity_id : Option (List ℕ)
  pub payload_digest : Option (List ℕ)
  pub payload_bytes : Option (List ℕ)
  pub origin_node_id : Option (List ℕ)
  pub dot_node_id : Option (List ℕ)
  pub dot_counter : ℕ
  pub h3_index : ℕ
  pub system_time : ℕ
  pub valid_time_start : ℕ
  pub valid_time_end : ℕ
  pub assertion_time : ℕ
  pub decision_time : ℕ

pub data WireField : Type 0 where
  origin_field : WireField
  entity_field : WireField
  digest_field : WireField
  dot_field : WireField
  payload_field : WireField

-- `WireIntegrityErrorKind`
pub data WireIntegrityError : Type 0 where
  digest_mismatch : WireIntegrityError
  field_unread : WireField → WireIntegrityError
  dot_origin_mismatch : WireIntegrityError
  lamport_skew_poisoning : WireIntegrityError

pub data Checked {ℓ} (A : Type ℓ) : Type ℓ where
  checked : A → Checked A
  rejected : WireIntegrityError → Checked A

abbrev pub and_then {ℓ κ} : {A : Type ℓ} {B : Type κ} → Checked A → (A → Checked B) → Checked B
and_then (checked x) f = f x
and_then (rejected e) f = rejected e

-- A field that the accessor reads, and one that must have so many bytes too.
abbrev pub read_field : WireField → Option (List ℕ) → Checked (List ℕ)
read_field w none = rejected (field_unread w)
read_field w (some raw) = checked raw

abbrev pub read_sized : WireField → ℕ → Option (List ℕ) → Checked (List ℕ)
read_sized w n none = rejected (field_unread w)
read_sized w n (some raw) = if length raw == n then checked raw else rejected (field_unread w)

pub and_then-checked {ℓ κ} :
    {A : Type ℓ} {B : Type κ} (c : Checked A) (f : A → Checked B) (r : B)
    → and_then c f ≡ checked r
    → (x : A) × (c ≡ checked x) × (f x ≡ checked r)
and_then-checked (checked x) f r h = (x, refl, h)
and_then-checked (rejected e) f r h = cc

read_field-checked :
    (w : WireField) (o : Option (List ℕ)) (x : List ℕ) → read_field w o ≡ checked x → o ≡ some x
read_field-checked w none x h = cc
read_field-checked w (some raw) x h = cc

read_sized-checked :
    (w : WireField) (n : ℕ) (o : Option (List ℕ)) (x : List ℕ)
    → read_sized w n o ≡ checked x
    → (o ≡ some x) × (length x ≡ n)
read_sized-checked w n none x h = cc
read_sized-checked w n (some raw) x h = elim (Bool-cases (length raw == n)) [
  | inl e ↦
      let opened = rw e at h in
      let same : raw ≡ x = cc in
      let len : length raw ≡ n = (==_iff (length raw) n).0 e in
      (ap some same, subst (λ (t : List ℕ). length t ≡ n) same len)
  | inr e ↦ absurd (let opened = rw e at h in cc)
]

-- A test that a value passes.
guarded :
    {A : Type 0} (b : Bool) (c : Checked A) (e : WireIntegrityError) (r : A)
    → (if b then c else rejected e) ≡ checked r
    → (b ≡ true) × (c ≡ checked r)
guarded true c e r h = (refl, h)
guarded false c e r h = cc

pub record ReconstructedEntry : Type 0 where
  pub entity_id : List ℕ
  pub payload : List ℕ
  pub entry : CrdtEntry

module _ (sha256 : List ℕ → List ℕ) where
  -- The last part of `ReconstructEntry`, which has read the fields.
  unfoldable pub with_fields :
      WireEvent → List ℕ → List ℕ → List ℕ → List ℕ → Checked ReconstructedEntry
  with_fields ev origin entity digest dot =
      if same_key dot origin
      then and_then (read_field payload_field ev.payload_bytes) (λ payload.
        if same_key (sha256 payload) digest
        then checked record {
          entity_id = entity;
          payload = payload;
          entry = record {
            payload_digest = digest;
            origin_node_id = origin;
            dot_node_id = dot;
            dot_counter = ev.dot_counter;
            system_time = ev.system_time;
            valid_time_start = ev.valid_time_start;
            valid_time_end = ev.valid_time_end;
            assertion_time = ev.assertion_time;
            decision_time = ev.decision_time;
            h3_index = ev.h3_index;
          };
        }
        else rejected digest_mismatch)
      else rejected dot_origin_mismatch

  -- `ReconstructEntry`
  unfoldable pub reconstruct_entry : WireEvent → Checked ReconstructedEntry
  unfolding with_fields
  reconstruct_entry ev = and_then (read_sized origin_field 16 ev.origin_node_id) (λ origin.
      and_then (read_field entity_field ev.entity_id) (λ entity.
        and_then (read_sized digest_field 32 ev.payload_digest) (λ digest.
          and_then (read_sized dot_field 16 ev.dot_node_id)
            (λ dot. with_fields ev origin entity digest dot))))

  -- `ReconstructEntryWithSkewBound`
  unfoldable pub reconstruct_entry_with_skew_bound :
      (fl : Float64) → WireEvent → LamportSnapshot fl → Checked ReconstructedEntry
  unfolding reconstruct_entry
  reconstruct_entry_with_skew_bound fl ev snapshot = and_then (reconstruct_entry ev) (λ r.
      if ltb (max_acceptable_dot_counter fl snapshot) r.entry.dot_counter
      then rejected lamport_skew_poisoning
      else checked r)

  -- What the code vouches for in an entry that it accepts.
  pub record IsVouched (ev : WireEvent) (r : ReconstructedEntry) : Type 0 where
    pub digest : sha256 r.payload ≡ r.entry.payload_digest
    pub digest_len : length r.entry.payload_digest ≡ 32
    pub own_dot : r.entry.dot_node_id ≡ r.entry.origin_node_id
    pub origin : ev.origin_node_id ≡ some r.entry.origin_node_id
    pub entity : ev.entity_id ≡ some r.entity_id
    pub payload : ev.payload_bytes ≡ some r.payload
    pub counter : r.entry.dot_counter ≡ ev.dot_counter

  -- The entry that the last part makes.
  abbrev entry_of : WireEvent → List ℕ → List ℕ → List ℕ → CrdtEntry
  entry_of ev origin digest dot = record {
    payload_digest = digest;
    origin_node_id = origin;
    dot_node_id = dot;
    dot_counter = ev.dot_counter;
    system_time = ev.system_time;
    valid_time_start = ev.valid_time_start;
    valid_time_end = ev.valid_time_end;
    assertion_time = ev.assertion_time;
    decision_time = ev.decision_time;
    h3_index = ev.h3_index;
  }

  with_fields-checked :
      (ev : WireEvent) (origin entity digest dot : List ℕ) (r : ReconstructedEntry)
      → with_fields ev origin entity digest dot ≡ checked r
      → (payload : List ℕ) × (ev.payload_bytes ≡ some payload)
        × (sha256 payload ≡ digest)
        × (dot ≡ origin)
        × (record { entity_id = entity; payload = payload; entry = entry_of ev origin digest dot }
            ≡ r)
  unfolding with_fields
  with_fields-checked ev origin entity digest dot r h =
      let (own, rest) = guarded (same_key dot origin) _ dot_origin_mismatch r h in
      let (payload, read, last) =
        and_then-checked (read_field payload_field ev.payload_bytes) _ r rest in
      let (good, same) = guarded (same_key (sha256 payload) digest) _ digest_mismatch r last in
      (
        payload,
        read_field-checked payload_field ev.payload_bytes payload read,
        sym (key_eq (sha256 payload) digest good),
        sym (key_eq dot origin own),
        cc,
      )

  -- An entry that `ReconstructEntry` returns has the SHA-256 digest of its payload, a dot of its own
  -- origin, and the origin, entity, payload and counter that the event carries.
  pub reconstruct_entry-IsVouched :
      (ev : WireEvent) (r : ReconstructedEntry) → reconstruct_entry ev ≡ checked r → IsVouched ev r
  unfolding reconstruct_entry
  reconstruct_entry-IsVouched ev r h =
      let (origin, o, h1) = and_then-checked (read_sized origin_field 16 ev.origin_node_id) _ r h in
      let (entity, n, h2) = and_then-checked (read_field entity_field ev.entity_id) _ r h1 in
      let (digest, g, h3) =
        and_then-checked (read_sized digest_field 32 ev.payload_digest) _ r h2 in
      let (dot, d, h4) = and_then-checked (read_sized dot_field 16 ev.dot_node_id) _ r h3 in
      let (payload, p, good, own, same) = with_fields-checked ev origin entity digest dot r h4 in
      subst (IsVouched ev) same record {
        digest = good;
        digest_len = (read_sized-checked digest_field 32 ev.payload_digest digest g).1;
        own_dot = own;
        origin = (read_sized-checked origin_field 16 ev.origin_node_id origin o).0;
        entity = read_field-checked entity_field ev.entity_id entity n;
        payload = p;
        counter = refl;
      }
