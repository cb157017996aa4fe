-- ===== src/Ecmp.antt =====
-- internal/ecmp/ecmp.go: the weighted choice among next hops. The float64 operations, the 64-bit FNV-1a
-- hash of hash/fnv and the bytes of a string are parameters.
pub mod Choice
pub mod Remap
pub mod Best
pub mod Floats
mod Examples
use Prim.Native.String.{String}
use corelink.Prelude.{
  ℕ, zero, suc, ◌+◌, ◌*◌, ◌/◌, ◌%◌, ◌^◌, ◌-◌, bit_xor, Bool, true, false, not, ◌||◌, List, [], ◌∷◌,
  ◌++◌, length, ◌==◌, if◌then◌else◌, Option, none, some,
}

pub record FloatOps : Type 1 where
  pub Float : Type 0
  pub of_nat : ℕ → Float
  pub add : Float → Float → Float
  pub div : Float → Float → Float
  pub neg : Float → Float
  pub ln : Float → Float
  pub gt : Float → Float → Bool
  pub neg_inf : Float
  -- 1e-18
  pub tiny : Float

-- Multiplication and addition of uint64 wrap.
unfoldable pub splitmix64 : ℕ → ℕ
splitmix64 x =
    let a = bit_xor x (x / 2 ^ 30) in
    let b = (a * 0xbf58476d1ce4e5b9) % 2 ^ 64 in
    let c = bit_xor b (b / 2 ^ 27) in
    let d = (c * 0x94d049bb133111eb) % 2 ^ 64 in bit_xor d (d / 2 ^ 31)

module _ (F : FloatOps) (fnv64a : List ℕ → ℕ) (bytes_of : String → List ℕ) where
  unfoldable pub mix_hash : String → ℕ → ℕ
  mix_hash peer_id flow_key = splitmix64 ((fnv64a (bytes_of peer_id) + flow_key) % 2 ^ 64)

  unfoldable pub norm : ℕ → F.Float
  norm hash_val =
      let n = F.div (F.of_nat hash_val) (F.add (F.of_nat (2 ^ 64 - 1)) (F.of_nat 1)) in
      if F.gt F.tiny n then F.tiny else n

  unfoldable pub score : ℕ → String → ℕ → F.Float
  score flow_key pid w = F.div (F.neg (F.of_nat w)) (F.ln (norm (mix_hash pid flow_key)))

  -- The loop; `none` is -1. `weights[i]` is in range, for the lists are equally long.
  unfoldable pub scan_peers : ℕ → ℕ → Option ℕ → F.Float → List String → List ℕ → Option ℕ
  scan_peers flow_key i best best_score [] ws = best
  scan_peers flow_key i best best_score (pid ∷ pids) [] = best
  scan_peers flow_key i best best_score (pid ∷ pids) (w ∷ ws) =
      let s = score flow_key pid w in
      let skip = scan_peers flow_key (suc i) best best_score pids ws in
      let take = scan_peers flow_key (suc i) (some i) s pids ws in
      if w == 0 then skip else if F.gt s best_score then take else skip

  unfoldable pub rendezvous_select : List String → List ℕ → ℕ → Option ℕ
  rendezvous_select pids ws flow_key =
      if (length pids == 0) || not (length pids == length ws)
      then none
      else scan_peers flow_key 0 none F.neg_inf pids ws

-- The bytes are hashed in the order of the writes.
pub flow_hash : (List ℕ → ℕ) → List ℕ → List ℕ → ℕ → ℕ → ℕ → ℕ
flow_hash fnv64a src_ip dst_ip proto src_port dst_port = fnv64a (
    src_ip
    ++ dst_ip
    ++ proto ∷ src_port / 2 ^ 8 ∷ src_port % 2 ^ 8 ∷ dst_port / 2 ^ 8 ∷ dst_port % 2 ^ 8 ∷ [])
