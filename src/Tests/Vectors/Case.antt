-- ===== src/Tests/Vectors/Case.antt =====
-- Token cases of the shared vectors, by the members that they have.
use swornmail.Prelude.{ℕ, String, none, some, ◌∷◌}
use swornmail.Prelude.Int.{pos}
use swornmail.Text.{Bytes, codes}
use swornmail.Conformance.{TokenCase, Expectation}
use swornmail.Tests.Hex.{repeat}

abbrev pub case : String → Bytes → String → ℕ → Expectation → TokenCase
case name token source_ip now_unix expectation = record {
  name = codes name;
  token = token;
  source_ip = codes source_ip;
  now_unix = pos now_unix;
  expectation = expectation;
  operator = none;
  unit = none;
  public_key = none;
}

abbrev pub naming : String → String → TokenCase → TokenCase
naming operator unit c = record c { operator = some (codes operator); unit = some (codes unit) }

-- `public_key_hex` of the two cases that have it
abbrev pub under_small_order : TokenCase → TokenCase
under_small_order c = record c { public_key = some (1 ∷ repeat 31 0) }
