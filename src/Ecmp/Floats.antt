-- ===== src/Ecmp/Floats.antt =====
-- Natural numbers in the place of floats: an instance of what the choice of internal/ecmp relies on.
use Prim.Native.String.{String}
use corelink.Prelude.{ℕ, ◌+◌, ◌≡◌, ◌⊎◌, inl, inr, List, [], length, ltb, true, Bool-cases, arith}
use corelink.Ecmp.{FloatOps}
use corelink.Ecmp.Remap.{IsScoreOrder}

abbrev pub counts : FloatOps
counts = record {
  Float = ℕ;
  of_nat = λ n. n;
  add = λ a b. a + b;
  div = λ a b. a + b;
  neg = λ a. a;
  ln = λ a. a;
  gt = λ a b. ltb b a;
  neg_inf = 0;
  tiny = 1;
}

abbrev pub byte_count : List ℕ → ℕ
byte_count bytes = length bytes

abbrev pub no_bytes : String → List ℕ
no_bytes s = []

pub ltb_split : (a b c : ℕ) → ltb b a ≡ true → (ltb c a ≡ true) ⊎ (ltb b c ≡ true)
ltb_split a b c h = elim (Bool-cases (ltb c a)) [ inl e ↦ inl e | inr e ↦ inr (ground arith) ]

pub counts-IsScoreOrder : IsScoreOrder counts byte_count no_bytes
counts-IsScoreOrder = record {
  Nan = λ n. ⊥;
  gt_asym = λ a b h. ground arith;
  gt_split = λ a b c n h. ltb_split a b c h;
  score_number = λ key pid w h n. n;
  inf_number = λ n. n;
}
