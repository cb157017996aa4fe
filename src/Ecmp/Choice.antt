-- ===== src/Ecmp/Choice.antt =====
-- internal/ecmp/ecmp.go: the loop as a choice among pairs of a peer and a weight.
use Prim.Native.String.{String}
use corelink.Prelude.{
  ℕ, suc, ◌≡◌, refl, sym, ap, ◌∙◌, inl, inr, List, [], ◌∷◌, ◌++◌, length, length-append, get_elem?,
  ◌==◌, if◌then◌else◌, Option, none, some, Bool-cases, arith, append_assoc,
}
use corelink.Ecmp.{FloatOps, score, scan_peers, rendezvous_select}

-- The peer at an index.
abbrev pub peer_at : List String → Option ℕ → Option String
peer_at pids none = none
peer_at pids (some i) = get_elem? pids i

get_elem?-append :
    (xs : List String) (y : String) (ys : List String)
    → get_elem? (xs ++ (y ∷ ys)) (length xs) ≡ some y
get_elem?-append [] y ys = refl
get_elem?-append (x ∷ xs) y ys = get_elem?-append xs y ys

module _ (F : FloatOps) (fnv64a : List ℕ → ℕ) (bytes_of : String → List ℕ) (flow_key : ℕ) where
  abbrev points : String → ℕ → F.Float
  points = score F fnv64a bytes_of flow_key

  -- The loop with the best peer instead of its index.
  abbrev pub choose : Option String → F.Float → List String → List ℕ → Option String
  choose best best_score [] ws = best
  choose best best_score (pid ∷ pids) [] = best
  choose best best_score (pid ∷ pids) (w ∷ ws) =
      let skip = choose best best_score pids ws in
      let take = choose (some pid) (points pid w) pids ws in
      if w == 0 then skip else if F.gt (points pid w) best_score then take else skip

  peer_at-scan :
      (all before pids : List String) (i : ℕ) (ws : List ℕ) (best : Option ℕ) (best_score : F.Float)
      → all ≡ before ++ pids
      → i ≡ length before
      → peer_at all (scan_peers F fnv64a bytes_of flow_key i best best_score pids ws)
        ≡ choose (peer_at all best) best_score pids ws
  unfolding scan_peers
  peer_at-scan all before [] i ws best best_score q l = refl
  peer_at-scan all before (pid ∷ pids) i [] best best_score q l = refl
  peer_at-scan all before (pid ∷ pids) i (w ∷ ws) best best_score q l =
      let next = q ∙ sym (append_assoc before (pid ∷ []) pids) in
      let len : suc i ≡ length (before ++ (pid ∷ [])) =
        omega (arith, length-append before (pid ∷ [])) in
      let here : get_elem? all i ≡ some pid = rw (q, l) (get_elem?-append before pid pids) in
      let skip = peer_at-scan all (before ++ (pid ∷ [])) pids (suc i) ws best best_score next len in
      let take =
        peer_at-scan all (before ++ (pid ∷ [])) pids (suc i) ws (some i) (points pid w) next len in
      elim (Bool-cases (w == 0)) [
        | inl e ↦ rw (e) skip
        | inr e ↦ elim (Bool-cases (F.gt (points pid w) best_score)) [
          | inl g ↦ rw (e, g) (take ∙ ap (λ o. choose o (points pid w) pids ws) here)
          | inr g ↦ rw (e, g) skip
        ]
      ]

  -- The peer that is selected, for lists of equal length, is the one that the choice yields.
  pub peer_at-rendezvous_select :
      (pids : List String) (ws : List ℕ)
      → length pids ≡ length ws
      → peer_at pids (rendezvous_select F fnv64a bytes_of pids ws flow_key)
        ≡ choose none F.neg_inf pids ws
  unfolding rendezvous_select
  peer_at-rendezvous_select [] ws h = refl
  peer_at-rendezvous_select (p ∷ pids) ws h =
      ground (arith, peer_at-scan (p ∷ pids) [] (p ∷ pids) 0 ws none F.neg_inf refl refl)
