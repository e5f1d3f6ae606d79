-- ===== src/AnthropicStream/Agreement.antt =====
-- A start, a delta and a stop keep the content blocks of the ledger and the state of the contract's
-- check in agreement.
use test2_freeclaudecode.Prelude.{
  ℕ, suc, ◌≤◌, ◌≡◌, true, false, some, ◌∷◌, nat_eq, nat_beq_iff, arith,
}
use test2_freeclaudecode.Prelude.Dict.{Dict, lookup, insert, remove, lookup-insert, lookup-remove}
use test2_freeclaudecode.AnthropicStream.{StreamBlockState}
use test2_freeclaudecode.AnthropicStream.Contract.{plain, Check}
use test2_freeclaudecode.AnthropicStream.Tracking.{Agrees}

module _ (blocks : Dict ℕ StreamBlockState) (next : ℕ) (c : Check) (h : Agrees blocks next c)
    (n : ℕ) where
  pub Agrees-start :
      (s : StreamBlockState)
      → next ≤ n
      → s.index ≡ n
      → s.is_open ≡ true
      → Agrees (insert n s blocks) (suc n) (record {
        open_blocks = insert n (plain s.kind) c.open_blocks;
        seen_blocks = n ∷ c.seen_blocks;
      })
  Agrees-start s fits own on = record {
    opens = λ i.
        rw (lookup-insert n i s blocks, lookup-insert n i (plain s.kind) c.open_blocks)
          (ground (arith, h.opens i, on));
    seen = λ i. rw (lookup-insert n i s blocks) (ground (arith, h.seen i));
    fresh = λ i far. rw (lookup-insert n i s blocks) (ground (arith, h.fresh i));
    indexed = λ i. rw (lookup-insert n i s blocks) (ground (arith, h.indexed i));
  }

  pub Agrees-delta :
      (s t : StreamBlockState)
      → lookup n blocks ≡ some s
      → t.index ≡ s.index
      → t.is_open ≡ s.is_open
      → t.kind ≡ s.kind
      → Agrees (insert n t blocks) next c
  Agrees-delta s t here own on same = record {
    opens = λ i. rw (lookup-insert n i t blocks) (ground (arith, h.opens i, nat_beq_iff n i));
    seen = λ i. rw (lookup-insert n i t blocks) (ground (arith, h.seen i, nat_beq_iff n i));
    fresh = λ i far. rw (lookup-insert n i t blocks) (ground (arith, h.fresh i, nat_beq_iff n i));
    indexed = λ i. rw (lookup-insert n i t blocks) (ground (arith, h.indexed i, nat_beq_iff n i));
  }

  pub Agrees-stop :
      (s t : StreamBlockState)
      → lookup n blocks ≡ some s
      → t.index ≡ s.index
      → t.is_open ≡ false
      → Agrees (insert n t blocks) next (record c { open_blocks = remove n c.open_blocks })
  Agrees-stop s t here own off = record {
    opens = λ i.
        rw (lookup-insert n i t blocks, lookup-remove n i c.open_blocks)
          (ground (arith, h.opens i, nat_beq_iff n i));
    seen = λ i. rw (lookup-insert n i t blocks) (ground (arith, h.seen i, nat_beq_iff n i));
    fresh = λ i far. rw (lookup-insert n i t blocks) (ground (arith, h.fresh i, nat_beq_iff n i));
    indexed = λ i. rw (lookup-insert n i t blocks) (ground (arith, h.indexed i, nat_beq_iff n i));
  }
