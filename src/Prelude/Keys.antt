-- ===== src/Prelude/Keys.antt =====
-- Equality tests as an interface, with the instances that the program's keys need.
use Prim.Native.Nat.{ℕ}
use Prim.Native.String.{String}
use mathlib.Core.Path.{◌≡◌, refl}
use mathlib.Core.Logic.{◌↔◌}
use mathlib.Core.Bool.{Bool, true, ◌&&◌}
use native.Mathlib.Omega.{arith}
use text.Mathlib.Text.{◌==◌ as str_eq}
use text.Mathlib.TextEquality.{eq_iff}
use astrbot_plugin_webchat_g.Prelude.Tests.{nat_beq, nat_beq_iff}

-- A type whose values can be keys of a dictionary or of a table.
pub record Key {ℓ} (K : Type ℓ) : Type ℓ where
  pub same : K → K → Bool
  pub same_iff : (j k : K) → (same j k ≡ true) ↔ (j ≡ k)

-- The test of whatever key type is at hand.
infix 50 ◌==◌
abbrev pub ◌==◌ {ℓ} : {K : Type ℓ} ⦃key : Key K⦄ → K → K → Bool
◌==◌ ⦃key⦄ = key.same

instance abbrev pub number_key : Key ℕ
number_key = record { same = nat_beq; same_iff = nat_beq_iff }

instance abbrev pub text_key : Key String
text_key = record { same = str_eq; same_iff = eq_iff }

pub pair_iff {ℓ κ} :
    {A : Type ℓ} {B : Type κ} (e : Key A) (f : Key B) (p q : A × B)
    → ((e.same p.0 q.0 && f.same p.1 q.1) ≡ true) ↔ (p ≡ q)
pair_iff e f p q = ground (arith, e.same_iff p.0 q.0, f.same_iff p.1 q.1)

-- A key of two columns.
instance abbrev pub pair_key {ℓ κ} : {A : Type ℓ} {B : Type κ} ⦃e : Key A⦄ ⦃f : Key B⦄ → Key (A × B)
pair_key ⦃e⦄ ⦃f⦄ = record {
  same = λ p q. e.same p.0 q.0 && f.same p.1 q.1;
  same_iff = pair_iff e f;
}

module _ {ℓ} {A : Type ℓ} ⦃e : Key A⦄ where
  pub ==_refl : (a : A) → (a == a) ≡ true
  ==_refl a = (e.same_iff a a).1 refl
