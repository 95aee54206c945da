-- ===== src/Tests/Vectors/TokensC.antt =====
-- The tokens of the shared vectors, tests/testdata/v1.json.
use swornmail.Prelude.{[], ◌∷◌, ◌++◌}
use swornmail.Text.{Bytes}
use swornmail.Tests.Hex.{hex, repeat}

abbrev pub token_alg_ed25519_fully_specified_tampered : Bytes
token_alg_ed25519_fully_specified_tampered = hex (
    "d2845829a3013203781c6170706c69636174696f6e2f73776f726e2d746f6b656e2b63626f720445"
    ∷ "3230323661a0583ca601726d61696c65722e6578616d706c652e636f6d025120010db80f00000000"
    ∷ "0000000000000030031840041a6a78a400051a6a78b21006636d746158405b7324d1dfbc4dc78519"
    ∷ "558f9e20e8c1ad435f593cc1fe41a3f1f744349e9b9e4f85e559a0e2a56bbcbfab56c710cdb57db8"
    ∷ "df59cdac2989faa7265d6b6be4fa" ∷ [])

abbrev pub token_alg_es256_substituted : Bytes
token_alg_es256_substituted = hex (
    "d2845829a3012603781c6170706c69636174696f6e2f73776f726e2d746f6b656e2b63626f720445"
    ∷ "3230323661a0583ca601726d61696c65722e6578616d706c652e636f6d025120010db80f00000000"
    ∷ "0000000000000030031840041a6a78a400051a6a78b21006636d746158401a34da819d584186d7ec"
    ∷ "8f05906fa06dd54f468aa5c79c9ad90c9bf96ae296b95e8c2a9d57566d9daad44811394fe344c03f"
    ∷ "6002456aff78617096b61be6aa00" ∷ [])

abbrev pub token_small_order_public_key : Bytes
token_small_order_public_key = hex (
    "d2845829a3012703781c6170706c69636174696f6e2f73776f726e2d746f6b656e2b63626f720445"
    ∷ "3230323661a0583ca601726d61696c65722e6578616d706c652e636f6d025120010db80f00000000"
    ∷ "0000000000000030031840041a6a78a400051a6a78b21006636d7461584001000000000000000000"
    ∷ "00000000000000000000000000000000000000000000000000000000000000000000000000000000"
    ∷ "0000000000000000000000000000" ∷ [])

abbrev pub token_small_order_public_key_ordinary_r : Bytes
token_small_order_public_key_ordinary_r = hex (
    "d2845829a3012703781c6170706c69636174696f6e2f73776f726e2d746f6b656e2b63626f720445"
    ∷ "3230323661a0583ca601726d61696c65722e6578616d706c652e636f6d025120010db80f00000000"
    ∷ "0000000000000030031840041a6a78a400051a6a78b21006636d7461584058666666666666666666"
    ∷ "66666666666666666666666666666666666666666666010000000000000000000000000000000000"
    ∷ "0000000000000000000000000000" ∷ [])

abbrev pub token_small_order_r_component : Bytes
token_small_order_r_component = hex (
    "d2845829a3012703781c6170706c69636174696f6e2f73776f726e2d746f6b656e2b63626f720445"
    ∷ "3230323661a0583ca601726d61696c65722e6578616d706c652e636f6d025120010db80f00000000"
    ∷ "0000000000000030031840041a6a78a400051a6a78b21006636d7461584001000000000000000000"
    ∷ "000000000000000000000000000000000000000000005acf6002d2d3097fcb13030876d774dd7ef4"
    ∷ "e79c1b4cdd60581f53de50e0860d" ∷ [])

abbrev pub token_token_at_size_cap : Bytes
token_token_at_size_cap =
    (hex (
        "d2845829a3012703781c6170706c69636174696f6e2f73776f726e2d746f6b656e2b63626f720445"
        ∷ "3230323661a0590b8da701726d61696c65722e6578616d706c652e636f6d025120010db80f000000"
        ∷ "000000000000000030031840041a6a78a400051a6a78b21006636d74611863590b4c" ∷ [])
      ++ repeat 2892 0
      ++ hex (
          "58407eaddb479cb18a9e5e7495fb684636ca6c0f1f286af3383ab98169bef4732d50a64212a8e14a"
          ∷ "f78d785ad1cd2e054ea6be6adae1fe7f0bc4f6509e3923fd2609" ∷ []))

abbrev pub token_token_over_size_cap : Bytes
token_token_over_size_cap =
    (hex (
        "d2845829a3012703781c6170706c69636174696f6e2f73776f726e2d746f6b656e2b63626f720445"
        ∷ "3230323661a0590b8ea701726d61696c65722e6578616d706c652e636f6d025120010db80f000000"
        ∷ "000000000000000030031840041a6a78a400051a6a78b21006636d74611863590b4d" ∷ [])
      ++ repeat 2893 0
      ++ hex (
          "5840e7bac23037c5d4dffc88944292ab3ba8b895735c3f593ec0cb9190a21d33bbbe34c2a2a9d253"
          ∷ "92c50ddbe9ff40d70a5f8a385b0a3aa2c0e97db304920484d002" ∷ []))

abbrev pub token_operator_tagged : Bytes
token_operator_tagged = hex (
    "d2845829a3012703781c6170706c69636174696f6e2f73776f726e2d746f6b656e2b63626f720445"
    ∷ "3230323661a0583ea601d820726d61696c65722e6578616d706c652e636f6d025120010db80f0000"
    ∷ "00000000000000000030031840041a6a78a400051a6a78b21006636d746158405b6816ed8b16394d"
    ∷ "5394e8b160ef973d3a07328d95b53132c1681588a08760a2fc3c7006700734fc196a65a3cede8544"
    ∷ "237c3932c58eeece8b1c021f9c41ab07" ∷ [])

abbrev pub token_iat_tagged_epoch : Bytes
token_iat_tagged_epoch = hex (
    "d2845829a3012703781c6170706c69636174696f6e2f73776f726e2d746f6b656e2b63626f720445"
    ∷ "3230323661a0583da601726d61696c65722e6578616d706c652e636f6d025120010db80f00000000"
    ∷ "000000000000003003184004c11a6a78a400051a6a78b21006636d7461584062c437da56c986d9fa"
    ∷ "b88b88d830c160da0cd15cafffad5dbf302ba86232a5360b651a0d2030c8cd36652fc28dc2c692f2"
    ∷ "cb4e665d7764887ad9f9fc5063930b" ∷ [])

abbrev pub token_iat_bignum : Bytes
token_iat_bignum = hex (
    "d2845829a3012703781c6170706c69636174696f6e2f73776f726e2d746f6b656e2b63626f720445"
    ∷ "3230323661a0583da601726d61696c65722e6578616d706c652e636f6d025120010db80f00000000"
    ∷ "000000000000003003184004c2446a78a400051a6a78b21006636d746158409b54d79612f59e0e8a"
    ∷ "f250aeab9488760cb1cb61899ade983ffcde52f63a49da4189c188f39cbcf01c98ece01422a13b9e"
    ∷ "e78df1d7f2ff6f9c64f31f57064907" ∷ [])

abbrev pub token_unknown_key_tagged_ignored : Bytes
token_unknown_key_tagged_ignored = hex (
    "d2845829a3012703781c6170706c69636174696f6e2f73776f726e2d746f6b656e2b63626f720445"
    ∷ "3230323661a05841a701726d61696c65722e6578616d706c652e636f6d025120010db80f00000000"
    ∷ "0000000000000030031840041a6a78a400051a6a78b21006636d74611863c241015840e320c25886"
    ∷ "08760c6b6694156651a9db4a3d71085c37f09e911ef9dcdbe1958119dbcbef659f540b2d25edfce1"
    ∷ "2b31cc9fdfb4f864271c935b54242b6e899706" ∷ [])

abbrev pub token_iat_beyond_int64 : Bytes
token_iat_beyond_int64 = hex (
    "d2845829a3012703781c6170706c69636174696f6e2f73776f726e2d746f6b656e2b63626f720445"
    ∷ "3230323661a05844a601726d61696c65722e6578616d706c652e636f6d025120010db80f00000000"
    ∷ "0000000000000030031840041b8000000000000064051b8000000000000e7406636d74615840060a"
    ∷ "f98051607f358c8f46e35ba941a33dc86d220cb96046aac2f7f87644a4103184837a839433db1c38"
    ∷ "39b078510082d9dc3e5e242dd30ddb7219d3f8608207" ∷ [])

abbrev pub token_validity_straddles_int64 : Bytes
token_validity_straddles_int64 = hex (
    "d2845829a3012703781c6170706c69636174696f6e2f73776f726e2d746f6b656e2b63626f720445"
    ∷ "3230323661a05844a601726d61696c65722e6578616d706c652e636f6d025120010db80f00000000"
    ∷ "0000000000000030031840041b7ffffffffffff8f8051b800000000000070806636d74615840067b"
    ∷ "9672322f837b98b1a27c8015493a7dbd7f8e13f5806a960fba097eb0c0afcc80a8d9d8f04fd89034"
    ∷ "5a3ba334176b2aa9b64ef5df7cc83471c4badde3cd01" ∷ [])

abbrev pub token_coarse_declared_unit_does_not_widen_observed : Bytes
token_coarse_declared_unit_does_not_widen_observed = hex (
    "d2845829a3012703781c6170706c69636174696f6e2f73776f726e2d746f6b656e2b63626f720445"
    ∷ "3230323661a0583ca601726d61696c65722e6578616d706c652e636f6d025120010db80000000000"
    ∷ "0000000000000020031820041a6a78a400051a6a78b21006636d74615840460305b0180fe95fe373"
    ∷ "1fe34d84b436336b5327e865aaac6e12ebc6e6747d939651ef2856ca590373db7e5b2f8d2a0b1cb0"
    ∷ "4af9f324532ec531d4f5a2fd2208" ∷ [])
