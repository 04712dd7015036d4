-- ===== src/Prelude/Choice.antt =====
-- `ite` on a decision, compared branch by branch.
use mathlib.Core.Path.{◌≡◌, refl}
use mathlib.Core.Logic.{ite}

module _ {P : Type 0} {A : Type 0} where
  pub ite-cong :
      (d : Dec P) {a a' b b' : A} → (P → a ≡ a') → (¬ P → b ≡ b') → ite d a b ≡ ite d a' b'
  ite-cong (yes p) same other = same p
  ite-cong (no p) same other = other p

  pub ite-join : (d : Dec P) {a b c : A} → (P → a ≡ c) → (¬ P → b ≡ c) → ite d a b ≡ c
  ite-join (yes p) same other = same p
  ite-join (no p) same other = other p

  pub ite-ap : {B : Type 0} (f : A → B) (d : Dec P) (a b : A) → f (ite d a b) ≡ ite d (f a) (f b)
  ite-ap f (yes p) a b = refl
  ite-ap f (no p) a b = refl

  pub ite-yes : (d : Dec P) (a b : A) → P → ite d a b ≡ a
  ite-yes d a b p = ite-join d (λ _. refl) (λ n. absurd (n p))

  pub ite-no : (d : Dec P) (a b : A) → ¬ P → ite d a b ≡ b
  ite-no d a b n = ite-join d (λ p. absurd (n p)) (λ _. refl)
