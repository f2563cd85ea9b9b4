-- ===== src/Lmdb/Links/Prefix.antt =====
-- Which links share a key prefix: the relation's id is cut to the byte that holds it.
use ob_dump.Base.{ℕ, ◌*◌, ◌%◌, ◌^◌, ◌<◌, ◌≡◌, ◌↔◌, arith, ap, Bytes, get_or, drop, sym, ◌∙◌}
use ob_dump.Base.Int.{pos, ◌*ℤ◌, ◌+ℤ◌}
use ob_dump.Lmdb.Keys.{read_uint32_be, read_uint32_be-write_uint32_be}
use ob_dump.Lmdb.Links.{link_prefix}

relation_byte : ℕ → ℕ → ℕ
relation_byte r s = get_or (link_prefix (pos r) s) 3 0

relation_byte_lem : (r s : ℕ) → relation_byte r s ≡ 4 * (r % 64)
unfolding relation_byte link_prefix ◌*ℤ◌ ◌+ℤ◌
relation_byte_lem r s = ground arith

source_of : Bytes → ℕ
source_of prefix = read_uint32_be (drop 4 prefix)

source_of-link_prefix : (r s : ℕ) → s < 2 ^ 32 → source_of (link_prefix (pos r) s) ≡ s
unfolding source_of link_prefix
source_of-link_prefix r s h = read_uint32_be-write_uint32_be s h

same_prefix : (r r' s : ℕ) → r % 64 ≡ r' % 64 → link_prefix (pos r) s ≡ link_prefix (pos r') s
unfolding link_prefix ◌*ℤ◌ ◌+ℤ◌
same_prefix r r' s h = ground arith

-- Two pairs of a relation's id, not negative, and a source below 2^32 share the key prefix of
-- their links exactly when the sources are the same and the ids agree modulo 64.
pub link_prefix_iff :
    (r r' s s' : ℕ)
    → s < 2 ^ 32
    → s' < 2 ^ 32
    → (link_prefix (pos r) s ≡ link_prefix (pos r') s') ↔ ((r % 64 ≡ r' % 64) × (s ≡ s'))
link_prefix_iff r r' s s' hs hs' = (
  λ e.
      let same : relation_byte r s ≡ relation_byte r' s' =
        unfold relation_byte in ap (λ (p : Bytes). get_or p 3 0) e in
      (
        omega (arith, relation_byte_lem r s, relation_byte_lem r' s', same),
        sym (source_of-link_prefix r s hs) ∙ ap source_of e ∙ source_of-link_prefix r' s' hs',
      ),
  λ (h, e). same_prefix r r' s h ∙ ap (link_prefix (pos r')) e,
)
