-- ===== src/LinkedHash/Revalue.antt =====
-- Entries with another value at one address.
use ani_vault.Base.{
  some_injective, ◌≡◌, refl, sym, ap, ◌∙◌, Bool, Option, some, List, [], ◌∷◌, ◌++◌, arith,
  if◌then◌else◌, ℕ, suc, ◌≤◌, ◌<◌, ◌==◌, ==_iff, Bool-cases, inl, inr,
}
use mathlib.Core.Path.{subst}
use ani_vault.LinkedHash.{Node, update}
use ani_vault.LinkedHash.Assoc.{lookup, insert}
use ani_vault.LinkedHash.Chains.{Entry, chain_of, single}
use ani_vault.LinkedHash.Buckets.{Bucket, ended, linked, Bucket-uncons, Bucket-ends}
use ani_vault.LinkedHash.Order.{IsOrder, uncons, entries, strip}
use ani_vault.LinkedHash.Replace.{replace}

module _ {ℓ} {K V : Type ℓ} where
  unfoldable pub revalue : ℕ → V → List (Entry K V) → List (Entry K V)
  revalue p v [] = []
  revalue p v ((k, (q, w)) ∷ es) = (k, (q, if p == q then v else w)) ∷ revalue p v es

  pub revalue-append :
      (p : ℕ) (v : V) (ds es : List (Entry K V))
      → revalue p v (ds ++ es) ≡ revalue p v ds ++ revalue p v es
  unfolding revalue
  revalue-append p v [] es = refl
  revalue-append p v ((k, (q, w)) ∷ ds) es =
      ap (λ rest. (k, (q, if p == q then v else w)) ∷ rest) (revalue-append p v ds es)

  pub chain_of-revalue :
      (index : K → ℕ) (i p : ℕ) (v : V) (es : List (Entry K V))
      → chain_of index i (revalue p v es) ≡ revalue p v (chain_of index i es)
  unfolding chain_of single revalue
  chain_of-revalue index i p v [] = refl
  chain_of-revalue index i p v ((k, (q, w)) ∷ es) =
      rw
        (
          chain_of-revalue index i p v es,
          revalue-append p v (chain_of index i es) (single index i (k, (q, w))),
        )
        (elim (Bool-cases (index k == i)) [
          | inl e ↦ rw (single, e) refl
          | inr e ↦ rw (single, e) refl
        ])

  pub entries-replace :
      (p : ℕ) (v : V) (ns : List (ℕ × Node K V))
      → entries (replace p v ns) ≡ revalue p v (entries ns)
  unfolding entries replace revalue
  entries-replace p v [] = refl
  entries-replace p v ((q, m) ∷ ns) =
      rw (entries-replace p v ns)
        (elim (Bool-cases (p == q)) [ inl e ↦ rw e refl | inr e ↦ rw e refl ])

  pub Bucket-revalue :
      (cell : ℕ → Option (Node K V)) (p : ℕ) (n : Node K V) (v : V)
      → cell p ≡ some n
      → (hi : ℕ) (es : List (Entry K V)) (start : Option ℕ) → Bucket cell hi es start
      → Bucket (update cell p (record n { value = v })) hi (revalue p v es) start
  unfolding revalue
  Bucket-revalue cell p n v here hi [] start h = rw (Bucket-ends cell hi start h) ended
  Bucket-revalue cell p n v here hi ((k, (q, w)) ∷ es) start h =
      let u = Bucket-uncons cell hi q k w es start h in
      let rest = Bucket-revalue cell p n v here q es u.node.next_in_bucket u.rest in
      elim (Bool-cases (p == q)) [
        | inl e ↦
            let p_is_q = (==_iff p q).0 e in
            let same_node : u.node ≡ n = some_injective (sym u.here ∙ (rw (sym p_is_q) here)) in
            rw (u.starts, e)
              (linked (record n { value = v }) u.below (rw e refl)
                (ap (λ (m : Node K V). m.key) (sym same_node) ∙ u.its_key) refl
                (subst
                  (λ (m : Node K V).
                    Bucket (update cell p (record n { value = v })) q (revalue p v es)
                      m.next_in_bucket)
                  same_node rest))
        | inr e ↦ rw (u.starts, e) (linked u.node u.below (rw e u.here) u.its_key u.its_value rest)
      ]

  revalue_below :
      (cell : ℕ → Option (Node K V)) (hi lo p : ℕ) (v : V) (ns : List (ℕ × Node K V))
      (prev start last : Option ℕ)
      → IsOrder cell hi lo ns prev start last
      → p < lo
      → revalue p v (entries ns) ≡ entries ns
  unfolding revalue entries
  revalue_below cell hi lo p v [] prev start last h lt = refl
  revalue_below cell hi lo p v ((q, m) ∷ ns) prev start last h lt =
      let u = uncons cell hi lo q m ns prev start last h in
      let above = u.above in
      let rest =
        revalue_below cell hi (suc q) p v ns (some q) m.next_in_order last u.next (omega arith) in
      elim (Bool-cases (p == q)) [
        | inl e ↦ let p_is_q = (==_iff p q).0 e in absurd (omega arith)
        | inr e ↦ rw (e, rest) refl
      ]

  module _ (same : K → K → Bool) where
    -- An entry that is found has an address of the order.
    pub found_above :
        (cell : ℕ → Option (Node K V)) (hi lo p : ℕ) (w : V) (key : K) (ns : List (ℕ × Node K V))
        (prev start last : Option ℕ)
        → IsOrder cell hi lo ns prev start last
        → lookup same key (entries ns) ≡ some (p, w)
        → lo ≤ p
    unfolding lookup entries
    found_above cell hi lo p w key [] prev start last h found = ground arith
    found_above cell hi lo p w key ((q, m) ∷ ns) prev start last h found =
        let u = uncons cell hi lo q m ns prev start last h in
        let above = u.above in
        elim (Bool-cases (same m.key key)) [
          | inl e ↦ ground arith
          | inr e ↦
              let rest =
                found_above cell hi (suc q) p w key ns (some q) m.next_in_order last u.next
                  (ground arith) in
              omega arith
        ]

    pub revalue-insert :
        (cell : ℕ → Option (Node K V)) (hi lo p : ℕ) (v w : V) (key : K) (ns : List (ℕ × Node K V))
        (prev start last : Option ℕ)
        → IsOrder cell hi lo ns prev start last
        → lookup same key (entries ns) ≡ some (p, w)
        → revalue p v (entries ns) ≡ insert same key (p, v) (entries ns)
    unfolding lookup entries insert revalue
    revalue-insert cell hi lo p v w key [] prev start last h found = ground arith
    revalue-insert cell hi lo p v w key ((q, m) ∷ ns) prev start last h found =
        let u = uncons cell hi lo q m ns prev start last h in
        elim (Bool-cases (same m.key key)) [
          | inl e ↦
              let q_is_p : q ≡ p = ground arith in
              let tail =
                revalue_below cell hi (suc q) p v ns (some q) m.next_in_order last u.next
                  (omega arith) in
              rw (e, (==_iff p q).1 (sym q_is_p), tail, q_is_p) refl
          | inr e ↦
              let left : lookup same key (entries ns) ≡ some (p, w) = ground arith in
              let above =
                found_above cell hi (suc q) p w key ns (some q) m.next_in_order last u.next left in
              let rest =
                revalue-insert cell hi (suc q) p v w key ns (some q) m.next_in_order last u.next
                  left in
              elim (Bool-cases (p == q)) [
                | inl e' ↦ let p_is_q = (==_iff p q).0 e' in absurd (omega arith)
                | inr e' ↦ rw (e, e', rest) refl
              ]
        ]

    pub strip-insert :
        (key : K) (p : ℕ) (v : V) (es : List (Entry K V))
        → strip (insert same key (p, v) es) ≡ insert same key v (strip es)
    unfolding strip insert
    strip-insert key p v [] = refl
    strip-insert key p v ((k, (q, w)) ∷ es) = elim (Bool-cases (same k key)) [
      | inl e ↦ rw e refl
      | inr e ↦ rw e (ap (λ rest. (k, w) ∷ rest) (strip-insert key p v es))
    ]
