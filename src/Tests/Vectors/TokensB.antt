-- ===== src/Tests/Vectors/TokensB.antt =====
-- The tokens of the shared vectors, tests/testdata/v1.json.
use swornmail.Prelude.{[], ◌∷◌}
use swornmail.Text.{Bytes}
use swornmail.Tests.Hex.{hex}

abbrev pub token_prefix_and_unit_too_long : Bytes
token_prefix_and_unit_too_long = hex (
    "d2845829a3012703781c6170706c69636174696f6e2f73776f726e2d746f6b656e2b63626f720445"
    ∷ "3230323661a0583ca601726d61696c65722e6578616d706c652e636f6d025120010db80f00000000"
    ∷ "0000000000000041031841041a6a78a400051a6a78b21006636d7461584028f89d9e4fb98e28814c"
    ∷ "f63c9d0da4a524f43810845e450a06cac6e5806f0d879ae948ab7e6974a15f4d8e353d82e4a19ce7"
    ∷ "9c2461db768c28c6c0bf5037e80e" ∷ [])

abbrev pub token_prefix_not_global_unicast : Bytes
token_prefix_not_global_unicast = hex (
    "d2845829a3012703781c6170706c69636174696f6e2f73776f726e2d746f6b656e2b63626f720445"
    ∷ "3230323661a0583ca601726d61696c65722e6578616d706c652e636f6d0251fc0000000000000000"
    ∷ "0000000000000030031840041a6a78a400051a6a78b21006636d7461584060a76ec11fce73a0bc1e"
    ∷ "2c2fa57e6211b668763995b74d91a38a760d729fc717357cb19dca1cfe639a3c09e95f4cdc364896"
    ∷ "eff8bbc27ece7c8bf64f6b11f40d" ∷ [])

abbrev pub token_attested_prefix_teredo : Bytes
token_attested_prefix_teredo = hex (
    "d2845829a3012703781c6170706c69636174696f6e2f73776f726e2d746f6b656e2b63626f720445"
    ∷ "3230323661a0583ca601726d61696c65722e6578616d706c652e636f6d0251200100000000000000"
    ∷ "0000000000000030031840041a6a78a400051a6a78b21006636d746158409750ec0eb8c183056d4f"
    ∷ "61512e9a1f330b41963cb9bf720872101d4786408bff265bbdd725fb5cb4c1ce15cc545b1674702b"
    ∷ "456dadb7d91febf8cc33e0808d07" ∷ [])

abbrev pub token_attested_prefix_6to4 : Bytes
token_attested_prefix_6to4 = hex (
    "d2845829a3012703781c6170706c69636174696f6e2f73776f726e2d746f6b656e2b63626f720445"
    ∷ "3230323661a0583ca601726d61696c65722e6578616d706c652e636f6d0251200200000000000000"
    ∷ "0000000000000030031840041a6a78a400051a6a78b21006636d746158407a4149b9975f0c28cbe5"
    ∷ "e6f0a9cfaacb281e9d6db5452bff50d2aca370131c2f01e42c1bec8a4369affe183151a69926f61a"
    ∷ "6aae7feb1ff1de73dc8858a5230e" ∷ [])

abbrev pub token_unit_lt_prefix : Bytes
token_unit_lt_prefix = hex (
    "d2845829a3012703781c6170706c69636174696f6e2f73776f726e2d746f6b656e2b63626f720445"
    ∷ "3230323661a0583ca601726d61696c65722e6578616d706c652e636f6d025120010db80f00000000"
    ∷ "0000000000000030031828041a6a78a400051a6a78b21006636d746158409a72d52bfc335b60fdf2"
    ∷ "23a70c4d120094bd020a2fbad31e178ef1db39539113f4ca448ac6313a3d228110889f74fd7f81ea"
    ∷ "27ba43380d382e15ca3dcdefdd0b" ∷ [])

abbrev pub token_unit_over_64 : Bytes
token_unit_over_64 = hex (
    "d2845829a3012703781c6170706c69636174696f6e2f73776f726e2d746f6b656e2b63626f720445"
    ∷ "3230323661a0583ca601726d61696c65722e6578616d706c652e636f6d025120010db80f00000000"
    ∷ "0000000000000030031860041a6a78a400051a6a78b21006636d746158405e23bad34a5d4313f667"
    ∷ "38a2a5de1879d237b2c446d867f0c97ce947ac3435ac81a4f21831ffe9d2a14d378f334aab614837"
    ∷ "fb1dc64b9ad72e5331a68d047306" ∷ [])

abbrev pub token_esp_tenant_unit_ne_prefix : Bytes
token_esp_tenant_unit_ne_prefix = hex (
    "d2845829a3012703781c6170706c69636174696f6e2f73776f726e2d746f6b656e2b63626f720445"
    ∷ "3230323661a05843a601726d61696c65722e6578616d706c652e636f6d025120010db80f00000000"
    ∷ "0000000000000030031840041a6a78a400051a6a78b210066a6573702d74656e616e745840084a0b"
    ∷ "e6765b4b9bf6e032bf1f5324be7e159b832c90c7894db2f5c7af055fab6c28ac06483529798094c3"
    ∷ "ccc245072b2d79d908dd2346920f243308813aba0b" ∷ [])

abbrev pub token_exp_before_iat : Bytes
token_exp_before_iat = hex (
    "d2845829a3012703781c6170706c69636174696f6e2f73776f726e2d746f6b656e2b63626f720445"
    ∷ "3230323661a0583ca601726d61696c65722e6578616d706c652e636f6d025120010db80f00000000"
    ∷ "0000000000000030031840041a6a78b210051a6a78a40006636d7461584066cb80b873074e5a4558"
    ∷ "f13b9b11c4a5d3a152c06bd423e9a968fe2de9438fd39b03c6faf00b6d21787b76d184540dda6533"
    ∷ "513dff08ec7fa984eaa0df6b130d" ∷ [])

abbrev pub token_lifetime_over_cap : Bytes
token_lifetime_over_cap = hex (
    "d2845829a3012703781c6170706c69636174696f6e2f73776f726e2d746f6b656e2b63626f720445"
    ∷ "3230323661a0583ca601726d61696c65722e6578616d706c652e636f6d025120010db80f00000000"
    ∷ "0000000000000030031840041a6a78a400051a6a79f58106636d746158404e1d74dd991bda7b1fe8"
    ∷ "6e2f8ac8ee55e95462339b7e064eef25e80e6c5780203fd71e1eacc8e63fd7c04af603245ee06cf6"
    ∷ "b4aa939891849f2247557d46c80c" ∷ [])

abbrev pub token_unknown_role : Bytes
token_unknown_role = hex (
    "d2845829a3012703781c6170706c69636174696f6e2f73776f726e2d746f6b656e2b63626f720445"
    ∷ "3230323661a0583fa601726d61696c65722e6578616d706c652e636f6d025120010db80f00000000"
    ∷ "0000000000000030031840041a6a78a400051a6a78b210066670697261746558407d62824c675ce8"
    ∷ "81424ff250d2c616ca75d5436844f860bd37406af45207bb0ff73bfd6d123c2cf2d3ad43f6bb3815"
    ∷ "06dd771b461addda1b4c625067818cbe02" ∷ [])

abbrev pub token_missing_role : Bytes
token_missing_role = hex (
    "d2845829a3012703781c6170706c69636174696f6e2f73776f726e2d746f6b656e2b63626f720445"
    ∷ "3230323661a05837a501726d61696c65722e6578616d706c652e636f6d025120010db80f00000000"
    ∷ "0000000000000030031840041a6a78a400051a6a78b2105840f2839ea993d1fee67975e74c848c51"
    ∷ "48a916840e06cd8db326763eecd2b953f9183edbc490be784c9fbf7a38a81f8b08a3d71e473af5ba"
    ∷ "3b3a44e0f45bfa8205" ∷ [])

abbrev pub token_operator_domain_crlf : Bytes
token_operator_domain_crlf = hex (
    "d2845829a3012703781c6170706c69636174696f6e2f73776f726e2d746f6b656e2b63626f720445"
    ∷ "3230323661a0583da60173782e6578616d706c652e636f6d0d0a51554954025120010db80f000000"
    ∷ "000000000000000030031840041a6a78a400051a6a78b21006636d74615840085944e9608154aeb5"
    ∷ "983dce3f2e15954146bda0db248ab2671b916a7aadb13cf38aac533389c578541845907f45ee37f8"
    ∷ "de9d5ddeb6902ec1d229c65eafbd0e" ∷ [])

abbrev pub token_operator_domain_empty_label : Bytes
token_operator_domain_empty_label = hex (
    "d2845829a3012703781c6170706c69636174696f6e2f73776f726e2d746f6b656e2b63626f720445"
    ∷ "3230323661a0583ca601726576696c2e6578616d706c652e636f6d2e2e025120010db80f00000000"
    ∷ "0000000000000030031840041a6a78a400051a6a78b21006636d746158408f1694513093d3b85225"
    ∷ "d691a5eda679b09f418c57709c07c49bc4c18b9ebb009ea1470966acdfadcc0a5afa6389061ffb16"
    ∷ "a845d868758a48b6b84554e0b302" ∷ [])

abbrev pub token_tstr_payload_key : Bytes
token_tstr_payload_key = hex (
    "d2845829a3012703781c6170706c69636174696f6e2f73776f726e2d746f6b656e2b63626f720445"
    ∷ "3230323661a05849a701726d61696c65722e6578616d706c652e636f6d025120010db80f00000000"
    ∷ "0000000000000030031840041a6a78a400051a6a78b21006636d7461666675747572656576616c75"
    ∷ "6558402284b40463e8b8b7afb2c8c6ab20e66e952a90aeb5453c65a85ed596507bdb3c1803030ac4"
    ∷ "f95c73d1230d029c9ce0cbad8c609d058a2e744e26aaa5c5055a0a" ∷ [])

abbrev pub token_duplicate_map_key : Bytes
token_duplicate_map_key = hex (
    "d2845829a3012703781c6170706c69636174696f6e2f73776f726e2d746f6b656e2b63626f720445"
    ∷ "3230323661a0584ca601726d61696c65722e6578616d706c652e636f6d025120010db80f00000000"
    ∷ "0000000000000030025120010db80f010000000000000000000030041a6a78a400051a6a78b21006"
    ∷ "636d746158407cd8d1160a7f965d53e8c61552e5659575160d2db7d9be347559a68075aa54b608ee"
    ∷ "20e81b938af8d83c1790ab41b53759d661b08a5c855f84e38838eff13e07" ∷ [])

abbrev pub token_alg_ed25519_fully_specified : Bytes
token_alg_ed25519_fully_specified = hex (
    "d2845829a3013203781c6170706c69636174696f6e2f73776f726e2d746f6b656e2b63626f720445"
    ∷ "3230323661a0583ca601726d61696c65722e6578616d706c652e636f6d025120010db80f00000000"
    ∷ "0000000000000030031840041a6a78a400051a6a78b21006636d746158405b7324d1dfbc4dc78519"
    ∷ "558f9e20e8c1ad435f593cc1fe41a3f1f744349e9b9e4f85e559a0e2a56bbcbfab56c710cdb57db8"
    ∷ "df59cdac2989faa7265d6b6be405" ∷ [])
