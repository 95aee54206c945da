-- ===== src/Tests/Vectors/TokensA.antt =====
-- The tokens of the shared vectors, tests/testdata/v1.json.
use swornmail.Prelude.{[], ◌∷◌}
use swornmail.Text.{Bytes}
use swornmail.Tests.Hex.{hex}

abbrev pub token_valid_in_prefix : Bytes
token_valid_in_prefix = hex (
    "d2845829a3012703781c6170706c69636174696f6e2f73776f726e2d746f6b656e2b63626f720445"
    ∷ "3230323661a0583ca601726d61696c65722e6578616d706c652e636f6d025120010db80f00000000"
    ∷ "0000000000000030031840041a6a78a400051a6a78b21006636d74615840f1a972ad7de76fde3ff9"
    ∷ "15542dca1b9eacecfa103d4c318e8a0b3ec02fd76fc8076f8ccb1a25d9becde96c33c74747ece0df"
    ∷ "acb3479a25a9ee7a75e594683004" ∷ [])

abbrev pub token_lifetime_exact_86400 : Bytes
token_lifetime_exact_86400 = hex (
    "d2845829a3012703781c6170706c69636174696f6e2f73776f726e2d746f6b656e2b63626f720445"
    ∷ "3230323661a0583ca601726d61696c65722e6578616d706c652e636f6d025120010db80f00000000"
    ∷ "0000000000000030031840041a6a78a400051a6a79f58006636d74615840088ff9aeb37b56debc88"
    ∷ "5cdeea367ccfd7f92cc4c60d93d0961522385276edee08bca9ce42f0e7caee99adfd24e9752c0522"
    ∷ "8fd8f06c508c31943753e1d4110d" ∷ [])

abbrev pub token_esp_tenant_valid : Bytes
token_esp_tenant_valid = hex (
    "d2845829a3012703781c6170706c69636174696f6e2f73776f726e2d746f6b656e2b63626f720445"
    ∷ "3230323661a05843a601726d61696c65722e6578616d706c652e636f6d025120010db80f00000000"
    ∷ "0000000000000040031840041a6a78a400051a6a78b210066a6573702d74656e616e745840fc2660"
    ∷ "6737a29c6e1c6029eec349e1a8a5b83d27b3c6710307194d86cc55e963673e9ed1a4dad2a7103121"
    ∷ "c7feec5413c64f5d9e3e49c29f2fb1e8f3e004a40f" ∷ [])

abbrev pub token_unknown_int_key_ignored : Bytes
token_unknown_int_key_ignored = hex (
    "d2845829a3012703781c6170706c69636174696f6e2f73776f726e2d746f6b656e2b63626f720445"
    ∷ "3230323661a05845a701726d61696c65722e6578616d706c652e636f6d025120010db80f00000000"
    ∷ "0000000000000030031840041a6a78a400051a6a78b21006636d7461186366667574757265584033"
    ∷ "91f31e9034ffcf2008f00fe4249c9cdd97cbc517f95c598cefa705b7065bf89d8e3ec0f22dda4485"
    ∷ "4b81f3564cea380176f7fc6c91d60a7fc02ec1fd7a830d" ∷ [])

abbrev pub token_unit_absent_defaults_64 : Bytes
token_unit_absent_defaults_64 = hex (
    "d2845829a3012703781c6170706c69636174696f6e2f73776f726e2d746f6b656e2b63626f720445"
    ∷ "3230323661a05839a501726d61696c65722e6578616d706c652e636f6d025120010db80f00000000"
    ∷ "0000000000000030041a6a78a400051a6a78b21006636d74615840abaa413c9d0f65ef723c6d2278"
    ∷ "e65a5795f727f004fa5fdded86e1422c3d359ee4861319b50644b9a6020a946b21b860443182d8b4"
    ∷ "8ac3f184994d8224c4d107" ∷ [])

abbrev pub token_tampered_signature : Bytes
token_tampered_signature = hex (
    "d2845829a3012703781c6170706c69636174696f6e2f73776f726e2d746f6b656e2b63626f720445"
    ∷ "3230323661a0583ca601726d61696c65722e6578616d706c652e636f6d025120010db80f00000000"
    ∷ "0000000000000030031840041a6a78a400051a6a78b21006636d74615840f1a972ad7de76fde3ff9"
    ∷ "15542dca1b9eacecfa103d4c318e8a0b3ec02fd76fc8076f8ccb1a25d9becde96c33c74747ece0df"
    ∷ "acb3479a25a9ee7a75e5946830fb" ∷ [])

abbrev pub token_untagged_cose : Bytes
token_untagged_cose = hex (
    "845829a3012703781c6170706c69636174696f6e2f73776f726e2d746f6b656e2b63626f72044532"
    ∷ "30323661a0583ca601726d61696c65722e6578616d706c652e636f6d025120010db80f0000000000"
    ∷ "00000000000030031840041a6a78a400051a6a78b21006636d74615840f1a972ad7de76fde3ff915"
    ∷ "542dca1b9eacecfa103d4c318e8a0b3ec02fd76fc8076f8ccb1a25d9becde96c33c74747ece0dfac"
    ∷ "b3479a25a9ee7a75e594683004" ∷ [])

abbrev pub token_wrong_content_type : Bytes
token_wrong_content_type = hex (
    "d284581ca3012703706170706c69636174696f6e2f6576696c04453230323661a0583ca601726d61"
    ∷ "696c65722e6578616d706c652e636f6d025120010db80f000000000000000000000030031840041a"
    ∷ "6a78a400051a6a78b21006636d746158409823ce106fd36c7303bddecc7b8a5a0393f46437e87e48"
    ∷ "6f146c4daf865d5890764cd14b92de05f51446f9647f8f0d153cf55d101cb284953c14e52c29e0c1" ∷ "02"
    ∷ [])

abbrev pub token_missing_content_type : Bytes
token_missing_content_type = hex (
    "d2844aa2012704453230323661a0583ca601726d61696c65722e6578616d706c652e636f6d025120"
    ∷ "010db80f000000000000000000000030031840041a6a78a400051a6a78b21006636d746158402731"
    ∷ "1f3c072ef8f533fe00445eda63dca8bb401547aaa4a0c8d912e931890844146cd686e9c08d1d32c8"
    ∷ "e34ddae7e0d0ec474bf40b81c9f10e4deba2f676a700" ∷ [])

abbrev pub token_missing_kid : Bytes
token_missing_kid = hex (
    "d2845822a2012703781c6170706c69636174696f6e2f73776f726e2d746f6b656e2b63626f72a058"
    ∷ "3ca601726d61696c65722e6578616d706c652e636f6d025120010db80f0000000000000000000000"
    ∷ "30031840041a6a78a400051a6a78b21006636d7461584039310eb48c508a506ff2caa326e67a5bcf"
    ∷ "a7f8c3524195129136bbbec643171bab6589a1e4d08d0d2d2fe8532d40154b2725db8692e3e4b124"
    ∷ "7890aeb8df3001" ∷ [])

abbrev pub token_empty_kid : Bytes
token_empty_kid = hex (
    "d2845824a3012703781c6170706c69636174696f6e2f73776f726e2d746f6b656e2b63626f720440"
    ∷ "a0583ca601726d61696c65722e6578616d706c652e636f6d025120010db80f000000000000000000"
    ∷ "000030031840041a6a78a400051a6a78b21006636d7461584048efcb111af153fcf507034d41b6c9"
    ∷ "f92de9abfa356b2ce6e998d17943d9def4428e9985a38a885269e8b84d6d76336b13f44dbb9e94ea"
    ∷ "7004cd7746d0b30f01" ∷ [])

abbrev pub token_kid_in_unprotected_only : Bytes
token_kid_in_unprotected_only = hex (
    "d2845822a2012703781c6170706c69636174696f6e2f73776f726e2d746f6b656e2b63626f72a104"
    ∷ "453230323661583ca601726d61696c65722e6578616d706c652e636f6d025120010db80f00000000"
    ∷ "0000000000000030031840041a6a78a400051a6a78b21006636d7461584039310eb48c508a506ff2"
    ∷ "caa326e67a5bcfa7f8c3524195129136bbbec643171bab6589a1e4d08d0d2d2fe8532d40154b2725"
    ∷ "db8692e3e4b1247890aeb8df3001" ∷ [])

abbrev pub token_shared_label_both_buckets : Bytes
token_shared_label_both_buckets = hex (
    "d2845835a4012703781c6170706c69636174696f6e2f73776f726e2d746f6b656e2b63626f720445"
    ∷ "323032366118636970726f746563746564a118636861747461636b6572583ca601726d61696c6572"
    ∷ "2e6578616d706c652e636f6d025120010db80f000000000000000000000030031840041a6a78a400"
    ∷ "051a6a78b21006636d74615840ac229ea62864a32e7530bacfa12b1d46be78b375661242542e816f"
    ∷ "8639bbb35f6f82bca8c8513c1f3c30b218848b2d13c68e43663f830cc46d4bb7602f4bcb00" ∷ [])

abbrev pub token_crit_present : Bytes
token_crit_present = hex (
    "d2845831a501270281186303781c6170706c69636174696f6e2f73776f726e2d746f6b656e2b6362"
    ∷ "6f720445323032366118636178a0583ca601726d61696c65722e6578616d706c652e636f6d025120"
    ∷ "010db80f000000000000000000000030031840041a6a78a400051a6a78b21006636d746158403bd4"
    ∷ "4f33d8e8699387b42b3dabb7f908935f972566bc8aaaec894c4cf3d486054bb5a9af6b6e284a78d5"
    ∷ "f948c525ed1719ae37f82d5f237333f8b63f88ecaa03" ∷ [])

abbrev pub token_non_canonical_prefix : Bytes
token_non_canonical_prefix = hex (
    "d2845829a3012703781c6170706c69636174696f6e2f73776f726e2d746f6b656e2b63626f720445"
    ∷ "3230323661a0583ca601726d61696c65722e6578616d706c652e636f6d025120010db80f00dead00"
    ∷ "0000000000000030031840041a6a78a400051a6a78b21006636d746158408f6fc2395c26fe1b6611"
    ∷ "d14a6ffe6d42f2c005b1eb5c0e5da80d17eeac10ab727f80f8af96bf0cb91b40725f4870c640ade9"
    ∷ "e070df365008cd4a02c8cb945308" ∷ [])

abbrev pub token_prefix_too_short : Bytes
token_prefix_too_short = hex (
    "d2845829a3012703781c6170706c69636174696f6e2f73776f726e2d746f6b656e2b63626f720445"
    ∷ "3230323661a0583ca601726d61696c65722e6578616d706c652e636f6d025120010db80000000000"
    ∷ "0000000000000010031840041a6a78a400051a6a78b21006636d74615840089c13db3fca2e83c8cb"
    ∷ "37a87a3572e80d9feff59f46109ab0f3cf69149b805684a196b891767bb450aeeb1b9b4863e43770"
    ∷ "53533a228982ef63da6dab62af09" ∷ [])
