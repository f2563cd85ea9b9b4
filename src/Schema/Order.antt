-- ===== src/Schema/Order.antt =====
-- `Schema::all` of schema.cpp: the entities in the order of their ids.
use mathlib.Core.Path.{ap₂}
use mathlib.Core.HLevel.{¬_prop}
use mathlib.Core.Logic.Or
use mathlib.Core.List.{Perm, Mem, Pairwise, mem-cons, mem-cons_self, mem-cons_of_mem, not-mem-nil}
use mathlib.Core.List.Perm
use native.Mathlib.Bridge.{le_prop}
use native.Mathlib.Nat.{ℕ_set}
use ob_dump.Base.{List, [], ◌∷◌, false, ◌≡◌, ◌≢◌, sym, arith, if◌then◌else◌, Bool-cases, inl, inr}
use ob_dump.Base.Int.{ltb_ℤ, ◌<ℤ◌, ltb_ℤ→lt, ltb_ℤ-false, eqb_ℤ-false}
use ob_dump.Schema.{EntityDef}
use ob_dump.Schema.Parse.{Schema}

insert_by_id : EntityDef → List EntityDef → List EntityDef
insert_by_id e [] = e ∷ []
insert_by_id e (x ∷ xs) =
    if ltb_ℤ x.entity_id e.entity_id then x ∷ insert_by_id e xs else e ∷ x ∷ xs

sort_by_id : List EntityDef → List EntityDef
unfolding insert_by_id
sort_by_id [] = []
sort_by_id (e ∷ es) = insert_by_id e (sort_by_id es)

-- std::sort by `a->entityId < b->entityId`. The ids of a map are distinct, so one order fits.
unfoldable pub all : Schema → List EntityDef
unfolding sort_by_id
all schema = sort_by_id schema.entities_by_id

abbrev Precedes : EntityDef → EntityDef → Type 0
Precedes a b = a.entity_id <ℤ b.entity_id

abbrev pub IsAscending : List EntityDef → Type 0
IsAscending = Pairwise Precedes

abbrev pub IsDistinct : List EntityDef → Type 0
IsDistinct = Pairwise (λ a b. a.entity_id ≢ b.entity_id)

insert_by_id-perm : (e : EntityDef) (l : List EntityDef) → Perm (insert_by_id e l) (e ∷ l)
unfolding insert_by_id
insert_by_id-perm e [] = Perm.rfl
insert_by_id-perm e (x ∷ xs) = elim (Bool-cases (ltb_ℤ x.entity_id e.entity_id)) [
  | inl before ↦ rw before (Perm.trans (Perm.cons x (insert_by_id-perm e xs)) (Perm.swap e x xs))
  | inr behind ↦ rw behind Perm.rfl
]

sort_by_id-perm : (l : List EntityDef) → Perm (sort_by_id l) l
unfolding sort_by_id
sort_by_id-perm [] = Perm.rfl
sort_by_id-perm (e ∷ es) =
    Perm.trans (insert_by_id-perm e (sort_by_id es)) (Perm.cons e (sort_by_id-perm es))

-- Of two distinct ids the one that is not before is behind.
Precedes-other :
    (e x : EntityDef)
    → e.entity_id ≢ x.entity_id
    → ltb_ℤ x.entity_id e.entity_id ≡ false
    → Precedes e x
Precedes-other e x ne h =
    omega (arith, ltb_ℤ-false x.entity_id e.entity_id h, eqb_ℤ-false e.entity_id x.entity_id ne)

abbrev IsBelow : EntityDef → List EntityDef → Type 0
IsBelow x l = (y : EntityDef) → Mem y l → Precedes x y

IsBelow-cons :
    (x e : EntityDef) (l : List EntityDef) → Precedes x e → IsBelow x l → IsBelow x (e ∷ l)
IsBelow-cons x e l p h y m = Or.elim le_prop (mem-cons.0 m) (λ q. rw q p) (h y)

IsBelow-perm : (x : EntityDef) {l r : List EntityDef} → Perm l r → IsBelow x r → IsBelow x l
IsBelow-perm x p h y m = h y ((Perm.mem_iff p).0 m)

insert_by_id-IsAscending :
    (e : EntityDef) (l : List EntityDef)
    → ((x : EntityDef) → Mem x l → e.entity_id ≢ x.entity_id)
    → IsAscending l
    → IsAscending (insert_by_id e l)
unfolding insert_by_id
insert_by_id-IsAscending e [] new Pairwise.nil =
    Pairwise.cons (λ x m. absurd (not-mem-nil m)) Pairwise.nil
insert_by_id-IsAscending e (x ∷ xs) new (Pairwise.cons below sorted) =
    elim (Bool-cases (ltb_ℤ x.entity_id e.entity_id)) [
      | inl before ↦ rw before (
          Pairwise.cons
            (IsBelow-perm x (insert_by_id-perm e xs)
              (IsBelow-cons x e xs (ltb_ℤ→lt x.entity_id e.entity_id before) below))
            (insert_by_id-IsAscending e xs (λ y m. new y (mem-cons_of_mem x m)) sorted))
      | inr behind ↦
          let first = Precedes-other e x (new x mem-cons_self) behind in
          rw behind (
            Pairwise.cons (IsBelow-cons e x xs first (λ y m. omega (arith, first, below y m)))
              (Pairwise.cons below sorted))
    ]

sort_by_id-IsAscending : (l : List EntityDef) → IsDistinct l → IsAscending (sort_by_id l)
unfolding sort_by_id
sort_by_id-IsAscending [] Pairwise.nil = Pairwise.nil
sort_by_id-IsAscending (e ∷ es) (Pairwise.cons new distinct) =
    insert_by_id-IsAscending e (sort_by_id es)
      (λ x m. new x ((Perm.mem_iff (sort_by_id-perm es)).0 m)) (sort_by_id-IsAscending es distinct)

EntityDef-set : IsSet EntityDef
EntityDef-set = hlevel ℕ_set

heads_eq :
    (a b : EntityDef) {l r : List EntityDef}
    → IsBelow a l
    → IsBelow b r
    → Perm (a ∷ l) (b ∷ r)
    → a ≡ b
heads_eq a b {l} {r} below_a below_b p =
    Or.elim (EntityDef-set a b) (mem-cons.0 ((Perm.mem_iff p).0 mem-cons_self)) (λ e. e)
      λ m.
        Or.elim (EntityDef-set a b) (mem-cons.0 ((Perm.mem_iff (Perm.symm p)).0 mem-cons_self))
          (λ e. sym e) λ k. absurd (omega (arith, below_b a m, below_a b k))

-- Two ascending arrangements of the same entities are one list.
IsAscending-unique : (l r : List EntityDef) → IsAscending l → IsAscending r → Perm l r → l ≡ r
IsAscending-unique [] r sl sr p = Perm.nil-eq p
IsAscending-unique (a ∷ l) [] sl sr p = Perm.eq-nil p
IsAscending-unique (a ∷ l) (b ∷ r) (Pairwise.cons below_a sl) (Pairwise.cons below_b sr) p =
    let heads = heads_eq a b below_a below_b p in
    let tails = Perm.cons_inv (Perm.trans p (Perm.symm (Perm.cons' heads Perm.rfl))) in
    ap₂ ◌∷◌ heads (IsAscending-unique l r sl sr tails)

-- Of a map with distinct ids, `all` returns the entities, each once, in ascending order of their
-- ids.
pub all_correct :
    (schema : Schema)
    → IsDistinct schema.entities_by_id
    → IsAscending (all schema) × Perm (all schema) schema.entities_by_id
unfolding all
all_correct schema distinct =
    (sort_by_id-IsAscending schema.entities_by_id distinct, sort_by_id-perm schema.entities_by_id)

pub distinct_prop : (a b : EntityDef) → IsProp (a.entity_id ≢ b.entity_id)
distinct_prop a b = ¬_prop

IsDistinct-perm : (l r : List EntityDef) → Perm l r → IsDistinct l → IsDistinct r
IsDistinct-perm l r p h = (Perm.Pairwise-iff distinct_prop (λ x y ne e. ne (sym e)) p).0 h

-- Of two maps that hold the same entities, with distinct ids, in any two orders, `all` returns the
-- same list: it does not depend on the order in which the hash map is walked.
pub all-perm :
    (s t : Schema)
    → IsDistinct s.entities_by_id
    → Perm s.entities_by_id t.entities_by_id
    → all s ≡ all t
unfolding all
all-perm s t distinct p =
    IsAscending-unique (sort_by_id s.entities_by_id) (sort_by_id t.entities_by_id)
      (sort_by_id-IsAscending s.entities_by_id distinct)
      (sort_by_id-IsAscending t.entities_by_id (IsDistinct-perm _ _ p distinct))
      (Perm.trans (sort_by_id-perm s.entities_by_id)
        (Perm.trans p (Perm.symm (sort_by_id-perm t.entities_by_id))))
