-- ===== src/Fib/Table/LongestMatch.antt =====
-- `Lookup` of internal/transport/fib/fib.go finds the longest match, in whatever order the map is
-- walked.
use corelink.Prelude.{
  ℕ, ◌≤◌, ◌≡◌, ◌⊎◌, inl, inr, refl, sym, ltb, true, false, List, [], ◌∷◌, none, some, All, arith,
  Bool-cases, Option-cases,
}
use corelink.Prelude.Assoc.{Assoc, lookup, IsMap}
use corelink.Wire.Addr.{Addr}
use corelink.Fib.Prefix.{Prefix, prefix_eq, bits, contains}
use corelink.Fib.Table.{NextHop, Fib, Best, visit, scan, lookup_addr}

abbrev Entries : Type 0
Entries = Assoc Prefix (List NextHop)

abbrev In : Prefix → List NextHop → Entries → Type 0
In p hs [] = ⊥
In p hs ((q, ks) ∷ m) = ((p ≡ q) × (hs ≡ ks)) ⊎ In p hs m

-- `n` bounds the matches among the entries, and the best so far.
abbrev Bounds : Addr → ℕ → Entries → Type 0
Bounds addr n [] = Unit {0}
Bounds addr n ((p, _) ∷ m) = (contains p addr ≡ true → bits p ≤ n) × Bounds addr n m

Bounds-mono : (addr : Addr) (k n : ℕ) (m : Entries) → k ≤ n → Bounds addr k m → Bounds addr n m
Bounds-mono addr k n [] h b = tt
Bounds-mono addr k n ((p, _) ∷ m) h b = (λ c. ground (arith, b.0 c), Bounds-mono addr k n m h b.1)

abbrev AtLeast : Best → ℕ → Type 0
AtLeast none n = Unit {0}
AtLeast (some (k, _)) n = k ≤ n

visit-AtLeast :
    (addr : Addr) (best : Best) (p : Prefix) (nhs : List NextHop) (n : ℕ)
    → AtLeast (visit addr best p nhs) n
    → AtLeast best n × (contains p addr ≡ true → bits p ≤ n)
unfolding visit
visit-AtLeast addr none p nhs n h = ground arith
visit-AtLeast addr (some (k, hs)) p nhs n h = ground arith

scan-Bounds :
    (addr : Addr) (best : Best) (m : Entries) (n : ℕ) (hs : List NextHop)
    → scan addr best m ≡ some (n, hs)
    → AtLeast best n × Bounds addr n m
unfolding scan
scan-Bounds addr best [] n hs h = rw h (omega arith, tt)
scan-Bounds addr best ((p, nhs) ∷ m) n hs h =
    let (b, rest) = scan-Bounds addr (visit addr best p nhs) m n hs h in
    let (b', own) = visit-AtLeast addr best p nhs n b in (b', (own, rest))

visit-chosen :
    (addr : Addr) (best : Best) (p : Prefix) (nhs : List NextHop) (n : ℕ) (hs : List NextHop)
    → visit addr best p nhs ≡ some (n, hs)
    → (best ≡ some (n, hs)) ⊎ ((hs ≡ nhs) × (contains p addr ≡ true) × (bits p ≡ n))
unfolding visit
visit-chosen addr none p nhs n hs h = ground arith
visit-chosen addr (some (k, ks)) p nhs n hs h = ground arith

scan-chosen :
    (addr : Addr) (best : Best) (m : Entries) (n : ℕ) (hs : List NextHop)
    → scan addr best m ≡ some (n, hs)
    → (best ≡ some (n, hs)) ⊎ ((p : Prefix) × In p hs m × (contains p addr ≡ true) × (bits p ≡ n))
unfolding scan
scan-chosen addr best [] n hs h = inl h
scan-chosen addr best ((p, nhs) ∷ m) n hs h =
    elim (scan-chosen addr (visit addr best p nhs) m n hs h) [
      | inl now ↦ elim (visit-chosen addr best p nhs n hs now) [
        | inl before ↦ inl before
        | inr (same, c, b) ↦ inr (p, inl (refl, same), c, b)
      ]
      | inr (q, within, c, b) ↦ inr (q, inr within, c, b)
    ]

scan-none :
    (addr : Addr) (best : Best) (m : Entries)
    → scan addr best m ≡ none
    → (best ≡ none) × All (λ e. contains e.0 addr ≡ false) m
unfolding scan
scan-none addr best [] h = (h, tt)
scan-none addr best ((p, nhs) ∷ m) h =
    let (v, rest) = scan-none addr (visit addr best p nhs) m h in
    let (b, c) = visit-none addr best p nhs v in (b, (c, rest))
  where
    visit-none :
        (addr : Addr) (best : Best) (p : Prefix) (nhs : List NextHop)
        → visit addr best p nhs ≡ none
        → (best ≡ none) × (contains p addr ≡ false)
    visit-none addr none p nhs h = unfold visit in ground arith
    visit-none addr (some (k, ks)) p nhs h = unfold visit in ground arith

lookup-In : (p : Prefix) (hs : List NextHop) (m : Entries) → lookup p m ≡ some hs → In p hs m
unfolding lookup
lookup-In p hs [] h = cc
lookup-In p hs ((q, ks) ∷ m) h = elim (Bool-cases (prefix_eq.beq q p)) [
  | inl same ↦ inl (sym ((prefix_eq.beq_iff q p).0 same), ground (arith, same))
  | inr other ↦ inr (lookup-In p hs m (ground (arith, other)))
]

In-lookup :
    (p : Prefix) (hs : List NextHop) (m : Entries) → IsMap m → In p hs m → lookup p m ≡ some hs
unfolding lookup
In-lookup p hs [] u h = absurd h
In-lookup p hs ((q, ks) ∷ m) u (inl (e, e')) = ground (arith, (prefix_eq.beq_iff q p).1 (sym e))
In-lookup p hs ((q, ks) ∷ m) u (inr h) = elim (Bool-cases (prefix_eq.beq q p)) [
  | inl same ↦
      absurd
        (ground (arith, u.0, In-lookup p hs m u.1 h, rw ((prefix_eq.beq_iff q p).0 same) at u.0))
  | inr other ↦ rw other (In-lookup p hs m u.1 h)
]

Bounds-In :
    (addr : Addr) (n : ℕ) (p : Prefix) (hs : List NextHop) (m : Entries)
    → Bounds addr n m
    → In p hs m
    → contains p addr ≡ true
    → bits p ≤ n
Bounds-In addr n p hs [] b h c = absurd h
Bounds-In addr n p hs ((q, ks) ∷ m) b (inl (e, _)) c = rw e (b.0 (rw e at c))
Bounds-In addr n p hs ((q, ks) ∷ m) b (inr h) c = Bounds-In addr n p hs m b.1 h c

none-In :
    (addr : Addr) (p : Prefix) (hs : List NextHop) (m : Entries)
    → All (λ e. contains e.0 addr ≡ false) m
    → In p hs m
    → contains p addr ≡ false
none-In addr p hs [] b h = absurd h
none-In addr p hs ((q, ks) ∷ m) b (inl (e, _)) = rw e b.0
none-In addr p hs ((q, ks) ∷ m) b (inr h) = none-In addr p hs m b.1 h

-- The entry of `p` holds the address, and no entry that holds it is longer.
pub record IsLongest (m : Assoc Prefix (List NextHop)) (addr : Addr) (p : Prefix)
    (hs : List NextHop) : Type 0 where
  pub present : lookup p m ≡ some hs
  pub holds : contains p addr ≡ true
  pub longest :
      (q : Prefix) (ks : List NextHop)
      → lookup q m ≡ some ks
      → contains q addr ≡ true
      → bits q ≤ bits p

-- What `Lookup` returns, on a table without repeated prefixes, are the next hops of a prefix that holds
-- the address and is at least as long as every other prefix that does.
pub lookup_addr-IsLongest :
    (f : Fib) (addr : Addr) (hs : List NextHop)
    → IsMap f.entries
    → lookup_addr f addr ≡ some hs
    → (p : Prefix) × IsLongest f.entries addr p hs
unfolding lookup_addr
lookup_addr-IsLongest f addr hs u h = elim (Option-cases (scan addr none f.entries)) [
  | inl e ↦ absurd (ground (arith, e))
  | inr ((n, ks), e) ↦ elim (scan-chosen addr none f.entries n ks e) [
    | inl before ↦ absurd (cc)
    | inr (p, within, c, b) ↦
        let same : ks ≡ hs = ground (arith, e) in
        (
          p,
          record {
            present = In-lookup p hs f.entries u (rw same at within);
            holds = c;
            longest = λ q qs look cq. rw b (
                Bounds-In addr n q qs f.entries (scan-Bounds addr none f.entries n ks e).1
                  (lookup-In q qs f.entries look) cq);
          },
        )
  ]
]

-- If `Lookup` finds nothing, no prefix of the table holds the address.
pub lookup_addr-none :
    (f : Fib) (addr : Addr) (q : Prefix) (ks : List NextHop)
    → lookup_addr f addr ≡ none
    → lookup q f.entries ≡ some ks
    → contains q addr ≡ false
unfolding lookup_addr
lookup_addr-none f addr q ks h look = elim (Option-cases (scan addr none f.entries)) [
  | inl e ↦
      none-In addr q ks f.entries (scan-none addr none f.entries e).1
        (lookup-In q ks f.entries look)
  | inr (r, e) ↦ absurd (ground (arith, e))
]

scan-stays :
    (addr : Addr) (n : ℕ) (hs : List NextHop) (m : Entries)
    → ((q : Prefix) (ks : List NextHop) → In q ks m → contains q addr ≡ true → bits q ≤ n)
    → scan addr (some (n, hs)) m ≡ some (n, hs)
unfolding scan visit
scan-stays addr n hs [] h = refl
scan-stays addr n hs ((q, ks) ∷ m) h =
    let rest = scan-stays addr n hs m (λ p js i. h p js (inr i)) in
    elim (Bool-cases (contains q addr)) [
      | inl c ↦
          let le = h q ks (inl (refl, refl)) c in
          let no : ltb n (bits q) ≡ false = ground (arith, le) in rw (scan, visit, c, no) rest
      | inr c ↦ rw (scan, visit, c) rest
    ]

-- The first entry of a walk is the answer if no other match is longer.
pub lookup_addr-front :
    (addr : Addr) (p : Prefix) (hs : List NextHop) (m : Assoc Prefix (List NextHop))
    → IsMap m
    → contains p addr ≡ true
    → ((q : Prefix) (ks : List NextHop)
        → lookup q m ≡ some ks
        → contains q addr ≡ true
        → bits q ≤ bits p)
    → lookup_addr (record { entries = (p, hs) ∷ m }) addr ≡ some hs
unfolding lookup_addr scan visit
lookup_addr-front addr p hs m u c h =
    let stays = scan-stays addr (bits p) hs m (λ q ks i d. h q ks (In-lookup q ks m u i) d) in
    rw (lookup_addr, scan, visit, c, stays) refl
