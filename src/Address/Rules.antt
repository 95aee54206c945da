-- ===== src/Address/Rules.antt =====
-- Which sources are eligible, which prefixes may be attested, and how the two rules agree.
use swornmail.Prelude.{ℕ, ◌/◌, ◌%◌, ◌^◌, ◌≤◌, ◌≡◌, ◌≢◌, ◌∙◌, ◌↔◌, true, arith}
use swornmail.Address.{
  IsAddr, Ipv6Prefix, IsPrefix, segments, is_canonical, contains, global_unicast, teredo,
  six_to_four, is_attestable, is_eligible_source,
}
use swornmail.Address.Mask.{block}
use swornmail.Address.Ranges.{
  contains_iff, contains_self, is_canonical_iff, overlaps_iff, network_mono, Inside, Meet,
}

module _ {a : ℕ} (fits : IsAddr a) where
  in_range :
      (base n : ℕ)
      → IsAddr base
      → n ≤ 128
      → (contains (record { addr = base; len = n }) a ≡ true) ↔ (a / block n ≡ base / block n)
  in_range base n h k =
      contains_iff {p = record { addr = base; len = n }} (record { addr_fits = h; len_le = k }) a
        fits

  pub global_unicast_iff : (contains global_unicast a ≡ true) ↔ (a / 2 ^ 125 ≡ 1)
  global_unicast_iff = in_range (segments 0x2000 0 0 0 0 0 0 0) 3 (omega arith) (omega arith)

  pub teredo_iff : (contains teredo a ≡ true) ↔ (a / 2 ^ 96 ≡ 0x20010000)
  teredo_iff = in_range (segments 0x2001 0 0 0 0 0 0 0) 32 (omega arith) (omega arith)

  pub six_to_four_iff : (contains six_to_four a ≡ true) ↔ (a / 2 ^ 112 ≡ 0x2002)
  six_to_four_iff = in_range (segments 0x2002 0 0 0 0 0 0 0) 16 (omega arith) (omega arith)

  -- A 128-bit address is an eligible source exactly when it is in 2000::/3 and neither in 2001::/32
  -- nor in 2002::/16: the other four listed ranges add nothing.
  pub is_eligible_source_iff :
      (is_eligible_source a ≡ true)
      ↔ ((a / 2 ^ 125 ≡ 1) × (a / 2 ^ 96 ≢ 0x20010000) × (a / 2 ^ 112 ≢ 0x2002))
  unfolding is_eligible_source
  is_eligible_source_iff =
      let mapped = in_range (segments 0 0 0 0 0 0xffff 0 0) 96 (omega arith) (omega arith) in
      let compatible = in_range (segments 0 0 0 0 0 0 0 0) 96 (omega arith) (omega arith) in
      let nat64 = in_range (segments 0x64 0xff9b 0 0 0 0 0 0) 96 (omega arith) (omega arith) in
      let local_nat64 =
        in_range (segments 0x64 0xff9b 1 0 0 0 0 0) 48 (omega arith) (omega arith) in
      ground (
        arith, global_unicast_iff, teredo_iff, six_to_four_iff, mapped, compatible, nat64,
        local_nat64,
      )

teredo-IsPrefix : IsPrefix teredo
teredo-IsPrefix = omega arith

six_to_four-IsPrefix : IsPrefix six_to_four
six_to_four-IsPrefix = omega arith

-- The draft's constraints on an attested prefix.
pub record Attestable (p : Ipv6Prefix) : Type 0 where
  pub canonical : p.addr % block p.len ≡ 0
  pub long_enough : 32 ≤ p.len
  pub short_enough : p.len ≤ 64
  pub global : p.addr / 2 ^ 125 ≡ 1
  pub no_teredo : ¬ Meet p teredo
  pub no_six_to_four : ¬ Meet p six_to_four

module _ {p : Ipv6Prefix} (valid : IsPrefix p) where
  -- A valid prefix is attestable exactly when its host bits are zero, its length is from 32 to 64,
  -- its address starts with the bits 001, and it shares no address with the Teredo or the 6to4
  -- range.
  pub is_attestable_iff : (is_attestable p ≡ true) ↔ Attestable p
  unfolding is_attestable
  is_attestable_iff =
      let canonical = is_canonical_iff valid in
      let global = global_unicast_iff valid.addr_fits in
      let apart_teredo = overlaps_iff valid teredo-IsPrefix in
      let apart_six = overlaps_iff valid six_to_four-IsPrefix in
      (
        λ h. record {
          canonical = ground (arith, canonical);
          long_enough = ground arith;
          short_enough = ground arith;
          global = ground (arith, global);
          no_teredo = λ m. ground (arith, apart_teredo.1 m);
          no_six_to_four = λ m. ground (arith, apart_six.1 m);
        },
        λ a. ground (arith, canonical, global, apart_teredo, apart_six),
      )

  -- Every address of an attestable prefix may be a source.
  pub is_attestable-is_eligible_source :
      is_attestable p ≡ true → (a : ℕ) → Inside p a → is_eligible_source a ≡ true
  is_attestable-is_eligible_source h a (fits, inp) =
      let attested = is_attestable_iff.0 h in
      let global =
        network_mono 3 p.len (omega (arith, attested)) valid.len_le a p.addr
          ((contains_iff valid a fits).0 inp) in
      (is_eligible_source_iff fits).1 (
        global ∙ attested.global,
        λ e. attested.no_teredo (a, (fits, inp), (fits, (teredo_iff fits).1 e)),
        λ e. attested.no_six_to_four (a, (fits, inp), (fits, (six_to_four_iff fits).1 e)),
      )

  -- For a valid prefix, `is_attestable` holds exactly when the prefix is canonical, has 32 to 64
  -- bits, and every address in it passes `is_eligible_source`: the rule on prefixes and the rule on
  -- sources agree.
  pub is_attestable-eligible_iff : (is_attestable p ≡ true) ↔ (
      (is_canonical p ≡ true)
      × (32 ≤ p.len)
      × (p.len ≤ 64)
      × ((a : ℕ) → Inside p a → is_eligible_source a ≡ true))
  is_attestable-eligible_iff = (
    λ h.
        let attested = is_attestable_iff.0 h in
        (
          (is_canonical_iff valid).1 attested.canonical,
          attested.long_enough,
          attested.short_enough,
          is_attestable-is_eligible_source h,
        ),
    λ (canonical, lo, hi, eligible).
        let spec = λ (a : ℕ) (i : Inside p a). (is_eligible_source_iff i.0).0 (eligible a i) in
        is_attestable_iff.1 (record {
          canonical = (is_canonical_iff valid).0 canonical;
          long_enough = lo;
          short_enough = hi;
          global = (spec p.addr (valid.addr_fits, contains_self valid)).0;
          no_teredo = λ (a, inp, inq). (spec a inp).1 ((teredo_iff inp.0).0 inq.1);
          no_six_to_four = λ (a, inp, inq). (spec a inp).2 ((six_to_four_iff inp.0).0 inq.1);
        }),
  )
