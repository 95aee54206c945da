-- ===== src/Tests/Vectors/Signatures.antt =====
-- The signatures that the vectors expect to verify, as a signature crate that knows them.
use swornmail.Prelude.{◌&&◌, Option, none, some, List, [], ◌∷◌, ◌++◌, any, if◌then◌else◌}
use swornmail.Text.{Bytes, bytes_eq, codes}
use swornmail.Backend.{Dalek, Base64}
use swornmail.Tests.Hex.{hex, repeat}
use swornmail.Tests.Data.{key_octets}

abbrev signatures : List (Bytes × Bytes)
signatures =
    (
      hex (
          "846a5369676e6174757265315829a3012703781c6170706c69636174696f6e2f73776f726e2d746f"
          ∷ "6b656e2b63626f720445323032366140583ca601726d61696c65722e6578616d706c652e636f6d02"
          ∷ "5120010db80f000000000000000000000030031840041a6a78a400051a6a78b21006636d7461" ∷ []),
      hex (
          "f1a972ad7de76fde3ff915542dca1b9eacecfa103d4c318e8a0b3ec02fd76fc8076f8ccb1a25d9be"
          ∷ "cde96c33c74747ece0dfacb3479a25a9ee7a75e594683004" ∷ []),
    )
    ∷ (
      hex (
          "846a5369676e6174757265315829a3012703781c6170706c69636174696f6e2f73776f726e2d746f"
          ∷ "6b656e2b63626f720445323032366140583ca601726d61696c65722e6578616d706c652e636f6d02"
          ∷ "5120010db80f000000000000000000000030031840041a6a78a400051a6a79f58006636d7461" ∷ []),
      hex (
          "088ff9aeb37b56debc885cdeea367ccfd7f92cc4c60d93d0961522385276edee08bca9ce42f0e7ca"
          ∷ "ee99adfd24e9752c05228fd8f06c508c31943753e1d4110d" ∷ []),
    )
    ∷ (
      hex (
          "846a5369676e6174757265315829a3012703781c6170706c69636174696f6e2f73776f726e2d746f"
          ∷ "6b656e2b63626f7204453230323661405843a601726d61696c65722e6578616d706c652e636f6d02"
          ∷ "5120010db80f000000000000000000000040031840041a6a78a400051a6a78b210066a6573702d74"
          ∷ "656e616e74" ∷ []),
      hex (
          "fc26606737a29c6e1c6029eec349e1a8a5b83d27b3c6710307194d86cc55e963673e9ed1a4dad2a7"
          ∷ "103121c7feec5413c64f5d9e3e49c29f2fb1e8f3e004a40f" ∷ []),
    )
    ∷ (
      hex (
          "846a5369676e6174757265315829a3012703781c6170706c69636174696f6e2f73776f726e2d746f"
          ∷ "6b656e2b63626f7204453230323661405845a701726d61696c65722e6578616d706c652e636f6d02"
          ∷ "5120010db80f000000000000000000000030031840041a6a78a400051a6a78b21006636d74611863"
          ∷ "66667574757265" ∷ []),
      hex (
          "3391f31e9034ffcf2008f00fe4249c9cdd97cbc517f95c598cefa705b7065bf89d8e3ec0f22dda44"
          ∷ "854b81f3564cea380176f7fc6c91d60a7fc02ec1fd7a830d" ∷ []),
    )
    ∷ (
      hex (
          "846a5369676e6174757265315829a3012703781c6170706c69636174696f6e2f73776f726e2d746f"
          ∷ "6b656e2b63626f7204453230323661405839a501726d61696c65722e6578616d706c652e636f6d02"
          ∷ "5120010db80f000000000000000000000030041a6a78a400051a6a78b21006636d7461" ∷ []),
      hex (
          "abaa413c9d0f65ef723c6d2278e65a5795f727f004fa5fdded86e1422c3d359ee4861319b50644b9"
          ∷ "a6020a946b21b860443182d8b48ac3f184994d8224c4d107" ∷ []),
    )
    ∷ (
      hex (
          "846a5369676e6174757265315829a3013203781c6170706c69636174696f6e2f73776f726e2d746f"
          ∷ "6b656e2b63626f720445323032366140583ca601726d61696c65722e6578616d706c652e636f6d02"
          ∷ "5120010db80f000000000000000000000030031840041a6a78a400051a6a78b21006636d7461" ∷ []),
      hex (
          "5b7324d1dfbc4dc78519558f9e20e8c1ad435f593cc1fe41a3f1f744349e9b9e4f85e559a0e2a56b"
          ∷ "bcbfab56c710cdb57db8df59cdac2989faa7265d6b6be405" ∷ []),
    )
    ∷ (
      (hex (
            "846a5369676e6174757265315829a3012703781c6170706c69636174696f6e2f73776f726e2d746f"
            ∷ "6b656e2b63626f720445323032366140590b8da701726d61696c65722e6578616d706c652e636f6d"
            ∷ "025120010db80f000000000000000000000030031840041a6a78a400051a6a78b21006636d746118"
            ∷ "63590b4c" ∷ [])
          ++ repeat 2892 0
          ++ []),
      hex (
          "7eaddb479cb18a9e5e7495fb684636ca6c0f1f286af3383ab98169bef4732d50a64212a8e14af78d"
          ∷ "785ad1cd2e054ea6be6adae1fe7f0bc4f6509e3923fd2609" ∷ []),
    )
    ∷ (
      hex (
          "846a5369676e6174757265315829a3012703781c6170706c69636174696f6e2f73776f726e2d746f"
          ∷ "6b656e2b63626f7204453230323661405841a701726d61696c65722e6578616d706c652e636f6d02"
          ∷ "5120010db80f000000000000000000000030031840041a6a78a400051a6a78b21006636d74611863"
          ∷ "c24101" ∷ []),
      hex (
          "e320c2588608760c6b6694156651a9db4a3d71085c37f09e911ef9dcdbe1958119dbcbef659f540b"
          ∷ "2d25edfce12b31cc9fdfb4f864271c935b54242b6e899706" ∷ []),
    )
    ∷ (
      hex (
          "846a5369676e6174757265315829a3012703781c6170706c69636174696f6e2f73776f726e2d746f"
          ∷ "6b656e2b63626f720445323032366140583ca601726d61696c65722e6578616d706c652e636f6d02"
          ∷ "5120010db800000000000000000000000020031820041a6a78a400051a6a78b21006636d7461" ∷ []),
      hex (
          "460305b0180fe95fe3731fe34d84b436336b5327e865aaac6e12ebc6e6747d939651ef2856ca5903"
          ∷ "73db7e5b2f8d2a0b1cb04af9f324532ec531d4f5a2fd2208" ∷ []),
    )
    ∷ []

-- What the crate takes as no point.
abbrev no_point : Bytes
no_point = hex ("0200000000000000000000000000000000000000000000000000000000000000" ∷ [])

abbrev pub recorded : Dalek
recorded = record {
  VerifyingKey = Bytes;
  from_bytes = λ raw. if bytes_eq raw no_point then none else some raw;
  to_bytes = λ key. key;
  verify_strict = λ key message signature.
      bytes_eq key key_octets
      && any (λ (m, s). bytes_eq message m && bytes_eq signature s) signatures;
}

-- The key texts of the record cases that are base64.
abbrev decoded : List (Bytes × Bytes)
decoded =
    (
      (codes "ebVWLo/mVPlAeLES6KmLp5AfhTrmlb7X4OORC60ElmQ="),
      hex ("79b5562e8fe654f94078b112e8a98ba7901f853ae695bed7e0e3910bad049664" ∷ []),
    )
    ∷ (
      (codes "AgAAAAAAAAAAAAAAAAAAAAAAAAAAAAAAAAAAAAAAAAA="),
      hex ("0200000000000000000000000000000000000000000000000000000000000000" ∷ []),
    )
    ∷ (
      (codes "8P///////////////////////////////////////38="),
      hex ("f0ffffffffffffffffffffffffffffffffffffffffffffffffffffffffffff7f" ∷ []),
    )
    ∷ (
      (codes "AQAAAAAAAAAAAAAAAAAAAAAAAAAAAAAAAAAAAAAAAIA="),
      hex ("0100000000000000000000000000000000000000000000000000000000000080" ∷ []),
    )
    ∷ []

abbrev look_up : Bytes → List (Bytes × Bytes) → Option Bytes
look_up text [] = none
look_up text ((t, raw) ∷ rest) = if bytes_eq text t then some raw else look_up text rest

abbrev pub recorded_base64 : Base64
recorded_base64 text = look_up text decoded
