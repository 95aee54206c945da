-- ===== src/Tests/Vectors/Records.antt =====
-- Record cases of the shared vectors, tests/testdata/v1.json.
use swornmail.Prelude.{String, Bool, true, false, List, [], ◌∷◌, ◌++◌}
use swornmail.Text.{Bytes, codes}
use swornmail.Conformance.{RecordKind, RecordCase, key_kind, policy_kind}

abbrev record_case : RecordKind → String → Bytes → Bool → RecordCase
record_case kind name txt accepted = record {
  name = codes name;
  kind = kind;
  txt = txt;
  accepted = accepted;
}

abbrev pub records : List RecordCase
records =
    (record_case key_kind "key_record"
      (codes "v=SWORN1; k=ed25519; pk=ebVWLo/mVPlAeLES6KmLp5AfhTrmlb7X4OORC60ElmQ=") true)
    ∷ (record_case key_kind "key_legacy_selector_ignored"
        (codes "v=SWORN1; k=ed25519; s=2026a; pk=ebVWLo/mVPlAeLES6KmLp5AfhTrmlb7X4OORC60ElmQ=")
        true)
    ∷ (record_case key_kind "key_v_not_first"
        (codes "k=ed25519; v=SWORN1; pk=ebVWLo/mVPlAeLES6KmLp5AfhTrmlb7X4OORC60ElmQ=") false)
    ∷ (record_case key_kind "key_unknown_version"
        (codes "v=SWORN9; k=ed25519; pk=ebVWLo/mVPlAeLES6KmLp5AfhTrmlb7X4OORC60ElmQ=") false)
    ∷ (record_case key_kind "key_unknown_algorithm"
        (codes "v=SWORN1; k=rsa; pk=ebVWLo/mVPlAeLES6KmLp5AfhTrmlb7X4OORC60ElmQ=") false)
    ∷ (record_case key_kind "key_garbage_key" (codes "v=SWORN1; k=ed25519; pk=notbase64!!") false)
    ∷ (record_case key_kind "key_duplicate_tag"
        (codes
          "v=SWORN1; k=ed25519; pk=ebVWLo/mVPlAeLES6KmLp5AfhTrmlb7X4OORC60ElmQ=; pk=ebVWLo/mVPlAeLES6KmLp5AfhTrmlb7X4OORC60ElmQ=")
        false)
    ∷ (record_case key_kind "key_missing_key" (codes "v=SWORN1; k=ed25519") false)
    ∷ (record_case policy_kind "policy_full"
        (codes "v=SWORN1; p=2001:db8:f00::/48; u=64; t=y; rua=mailto:a@b.example") true)
    ∷ (record_case policy_kind "policy_multi_prefix"
        (codes "v=SWORN1; p=2001:db8:f00::/48,2620:12a:8000::/48") true)
    ∷ (record_case policy_kind "policy_unit_over_64" (codes "v=SWORN1; p=2001:db8:f00::/48; u=128")
        false)
    ∷ (record_case policy_kind "policy_duplicate_tag" (codes "v=SWORN1; u=64; u=48") false)
    ∷ (record_case policy_kind "policy_prefix_out_of_range" (codes "v=SWORN1; p=2001:db8::/16")
        false)
    ∷ (record_case policy_kind "policy_v_not_first" (codes "u=64; v=SWORN1") false)
    ∷ (record_case policy_kind "policy_vertical_tab"
        (codes "v=SWORN1; p=2001:db8:f00::/48; x=a" ++ (11 ∷ []) ++ codes "b") false)
    ∷ (record_case policy_kind "policy_form_feed"
        (codes "v=SWORN1; p=2001:db8:f00::/48; x=a" ++ (12 ∷ []) ++ codes "b") false)
    ∷ (record_case policy_kind "policy_escape_byte"
        (codes "v=SWORN1; p=2001:db8:f00::/48; x=a" ++ (27 ∷ []) ++ codes "b") false)
    ∷ (record_case policy_kind "policy_no_break_space"
        (codes "v=SWORN1; p=2001:db8:f00::/48; x=a" ++ (194 ∷ 160 ∷ []) ++ codes "b") false)
    ∷ (record_case policy_kind "policy_ideographic_space"
        (codes "v=SWORN1; p=2001:db8:f00::/48; x=a" ++ (227 ∷ 128 ∷ 128 ∷ []) ++ codes "b") false)
    ∷ (record_case policy_kind "policy_trailing_no_break_space"
        (codes "v=SWORN1; p=2001:db8:f00::/48; u=64" ++ (194 ∷ 160 ∷ [])) false)
    ∷ (record_case policy_kind "policy_space_in_value"
        (codes "v=SWORN1; p=2001:db8:f00::/48; x=a b") false)
    ∷ (record_case policy_kind "policy_tab_in_value"
        (codes "v=SWORN1; p=2001:db8:f00::/48; x=a" ++ (9 ∷ []) ++ codes "b") false)
    ∷ (record_case policy_kind "policy_tab_between_tags"
        (codes "v=SWORN1;" ++ (9 ∷ []) ++ codes "p=2001:db8:f00::/48") true)
    ∷ (record_case policy_kind "policy_tab_around_value"
        (codes "v=SWORN1; p=" ++ (9 ∷ []) ++ codes "2001:db8:f00::/48" ++ (9 ∷ [])) true)
    ∷ (record_case policy_kind "policy_trailing_comma" (codes "v=SWORN1; p=2001:db8:f00::/48,")
        true)
    ∷ (record_case policy_kind "policy_leading_comma" (codes "v=SWORN1; p=,2001:db8:f00::/48") true)
    ∷ (record_case policy_kind "policy_double_comma"
        (codes "v=SWORN1; p=2001:db8:f00::/48,,2001:db8:f01::/48") true)
    ∷ (record_case key_kind "key_not_a_curve_point"
        (codes "v=SWORN1; k=ed25519; pk=AgAAAAAAAAAAAAAAAAAAAAAAAAAAAAAAAAAAAAAAAAA=") false)
    ∷ (record_case key_kind "key_noncanonical_y_accepted"
        (codes "v=SWORN1; k=ed25519; pk=8P///////////////////////////////////////38=") true)
    ∷ (record_case key_kind "key_x0_sign_bit_accepted"
        (codes "v=SWORN1; k=ed25519; pk=AQAAAAAAAAAAAAAAAAAAAAAAAAAAAAAAAAAAAAAAAIA=") true)
    ∷ (record_case policy_kind "policy_unit_plus_sign"
        (codes "v=SWORN1; p=2001:db8:f00::/48; u=+64") false)
    ∷ (record_case policy_kind "policy_unit_leading_zero"
        (codes "v=SWORN1; p=2001:db8:f00::/48; u=064") false)
    ∷ (record_case policy_kind "policy_prefix_len_leading_zero"
        (codes "v=SWORN1; p=2001:db8:f00::/048") false)
    ∷ (record_case policy_kind "policy_prefix_len_plus_sign"
        (codes "v=SWORN1; p=2001:db8:f00::/+48") false)
    ∷ (record_case policy_kind "policy_empty_tag_name" (codes "v=SWORN1; p=2001:db8:f00::/48; =x")
        false)
    ∷ (record_case policy_kind "policy_dotted_quad_before_gap"
        (codes "v=SWORN1; p=32.1.13.184::/32") false)
    ∷ (record_case policy_kind "policy_uppercase_hex_prefix" (codes "v=SWORN1; p=2001:DB8:F00::/48")
        true)
    ∷ (record_case policy_kind "policy_uncompressed_prefix"
        (codes "v=SWORN1; p=2001:db8:f00:0:0:0:0:0/48") true)
    ∷ (record_case key_kind "key_pk_noncanonical_base64"
        (codes "v=SWORN1; k=ed25519; pk=ebVWLo/mVPlAeLES6KmLp5AfhTrmlb7X4OORC60ElmR=") false)
    ∷ []
