-- ===== src/Tree/Collect.antt =====
-- Gather and scatter along the tree, src/cobo/cobo.c. A chunk stands for the `sendcount` bytes of a
-- rank, and a read of `sendcount * n` bytes for the first `n` chunks of what the peer wrote. Each
-- function runs for a rank and all that are under it, on fuel; `nprocs` rounds reach every rank.
use spindle.Prelude.{
  ℕ, zero, suc, ◌+◌, ◌-◌, ◌≤◌, ◌<◌, List, [], ◌∷◌, ◌++◌, ◌≡◌, refl, ap, ◌∙◌, sym, arith, take, drop,
  length, take_of_length-le, some, get_elem?,
}
use mathlib.Core.Path.{ap₂}
use native.Mathlib.Decide.{ℕ_discrete}
use spindle.Tree.{Child, midpoint, cobo_compute_children}
use spindle.Tree.Shape.{low_children, span, find_place-children, span_self}
use spindle.Tree.Family.{span_right, span_left}
use spindle.Tree.Spans.{span_le, span_inner, low_children_leaf, low_children_node, span_root}

module _ {A : Type 0} where
  -- The reads into the buffer, from the last child to the first.
  unfoldable pub read_children : (ℕ → List A) → List Child → List A
  read_children sent [] = []
  read_children sent (c ∷ cs) = read_children sent cs ++ take c.incl (sent c.rank)

  -- What a rank has in its buffer at the end, which all but rank 0 write to their parent.
  unfoldable pub cobo_gather_tree : ℕ → ℕ → (ℕ → A) → ℕ → List A
  unfolding read_children
  cobo_gather_tree zero nprocs own me = []
  cobo_gather_tree (suc fuel) nprocs own me =
      own me
      ∷ read_children (cobo_gather_tree fuel nprocs own) (cobo_compute_children nprocs me).children

  -- The writes from the buffer, from the first child to the last, and what comes of each.
  unfoldable pub write_children :
      {B : Type 0} → (ℕ → List A → List B) → List Child → List A → List B
  write_children then_do [] buffer = []
  write_children then_do (c ∷ cs) buffer =
      then_do c.rank (take c.incl buffer) ++ write_children then_do cs (drop c.incl buffer)

  -- The ranks at or under a rank, each with the chunk it copies to `recvbuf`, from a buffer.
  unfoldable pub cobo_scatter_tree : ℕ → ℕ → ℕ → List A → List (ℕ × A)
  unfolding write_children
  cobo_scatter_tree zero nprocs me buffer = []
  cobo_scatter_tree (suc fuel) nprocs me [] = []
  cobo_scatter_tree (suc fuel) nprocs me (mine ∷ buffer) =
      (me, mine)
      ∷ write_children (cobo_scatter_tree fuel nprocs) (cobo_compute_children nprocs me).children
          buffer

  -- The chunks of consecutive ranks.
  unfoldable pub chunks : (ℕ → A) → ℕ → ℕ → List A
  chunks own r zero = []
  chunks own r (suc n) = own r ∷ chunks own (suc r) n

  chunks-add :
      (own : ℕ → A) (r m n : ℕ) → chunks own r (m + n) ≡ chunks own r m ++ chunks own (r + m) n
  unfolding chunks
  chunks-add own r zero n = ap₂ (chunks own) (omega arith) (omega arith)
  chunks-add own r (suc m) n =
      let count : suc m + n ≡ suc (m + n) = omega arith in
      let place : suc r + m ≡ r + suc m = omega arith in
      ap (chunks own r) count
      ∙ ap (λ l. own r ∷ l)
          (chunks-add own (suc r) m n ∙ ap (λ k. chunks own (suc r) m ++ chunks own k n) place)

  length-chunks : (own : ℕ → A) (r n : ℕ) → length (chunks own r n) ≡ n
  unfolding chunks
  length-chunks own r zero = refl
  length-chunks own r (suc n) = ap suc (length-chunks own (suc r) n)

module _ {A : Type 0} (own : ℕ → A) (sent : ℕ → List A) (ends : ℕ → ℕ) where
  read_children_node :
      (f g low high : ℕ)
      → low < high
      → high - low < suc f
      → high - low < suc g
      → ((x : ℕ) → low < x → x ≤ high → ends x ≡ span (suc g) x low high)
      → ((x : ℕ) → low < x → x ≤ high → sent x ≡ chunks own x (ends x - x + 1))
      → read_children sent (low_children f low (midpoint low high - 1))
        ≡ chunks own (low + 1) (midpoint low high - 1 - low)
      → read_children sent (low_children (suc f) low high) ≡ chunks own (low + 1) (high - low)
  unfolding read_children
  read_children_node f zero low high l p q agree each rest = absurd (omega arith)
  read_children_node f (suc g) low high l p q agree each rest =
      let mid = midpoint low high in
      let before = mid - 1 - low in
      let after = high - mid + 1 in
      let last : ends mid ≡ high =
        agree mid (omega arith) (omega arith)
        ∙ span_right (suc g) mid low high (omega arith) (omega arith) (omega arith)
        ∙ span_self g mid high in
      let mine : sent mid ≡ chunks own mid after =
        each mid (omega arith) (omega arith) ∙ ap (λ k. chunks own mid (k - mid + 1)) last in
      let place : low + 1 + before ≡ mid = omega arith in
      let count : high - low ≡ before + after = omega arith in
      rw
        (
          low_children_node f low high l,
          rest,
          mine,
          take_of_length-le after (chunks own mid after)
              (omega (arith, length-chunks own mid after)),
        )
        (sym (
          ap (chunks own (low + 1)) count
          ∙ chunks-add own (low + 1) before after
          ∙ ap (λ k. chunks own (low + 1) before ++ chunks own k after) place))

  -- The children's buffers follow each other in the order of the ranks.
  read_children_low :
      (f g low high : ℕ)
      → low ≤ high
      → high - low < f
      → high - low < g
      → ((x : ℕ) → low < x → x ≤ high → ends x ≡ span g x low high)
      → ((x : ℕ) → low < x → x ≤ high → sent x ≡ chunks own x (ends x - x + 1))
      → read_children sent (low_children f low high) ≡ chunks own (low + 1) (high - low)
  unfolding read_children chunks
  read_children_low zero g low high l p q agree each = absurd (omega arith)
  read_children_low (suc f) zero low high l p q agree each = absurd (omega arith)
  read_children_low (suc f) (suc g) low high l p q agree each = elim (ℕ_discrete low high) [
    | yes e ↦
        let none_left : high - high ≡ 0 = omega arith in
        rw (e, low_children_leaf (suc f) high, none_left) refl
    | no n ↦ read_children_node f g low high (omega arith) p q agree each (
        read_children_low f g low (midpoint low high - 1) (omega arith) (omega arith) (omega arith)
          (λ x a b. agree x a (omega arith) ∙ span_left g x low high a (omega arith) (omega arith))
          (λ x a b. each x a (omega arith)))
  ]

module _ {A : Type 0} (own : ℕ → A) (nprocs : ℕ) where
  gather_span :
      (f me : ℕ)
      → me < nprocs
      → span nprocs me 0 (nprocs - 1) - me < f
      → cobo_gather_tree f nprocs own me ≡ chunks own me (span nprocs me 0 (nprocs - 1) - me + 1)
  unfolding cobo_gather_tree cobo_compute_children chunks
  gather_span zero me l h = absurd (omega arith)
  gather_span (suc f) me l h =
      let high = nprocs - 1 in
      let end = span nprocs me 0 high in
      let (mine, above, below) =
        find_place-children nprocs me 0 high 0 (omega arith) (omega arith) (omega arith) in
      let inner : (x : ℕ) → me < x → x ≤ end → span nprocs x 0 high ≡ span nprocs x me end =
        λ x a b.
          span_inner nprocs me x 0 high (omega arith) a (omega (arith, below)) b (omega arith) in
      let last : (x : ℕ) → me < x → x ≤ end → span nprocs x me end ≤ end =
        λ x a b. span_le nprocs x me end (omega arith) b (omega (arith, below)) in
      let rest =
        read_children_low own (cobo_gather_tree f nprocs own) (λ x. span nprocs x 0 high) nprocs
          nprocs me end above (omega (arith, below)) (omega (arith, below)) inner
          (λ x a b.
            gather_span f x (omega (arith, below)) (omega (arith, inner x a b, last x a b))) in
      let count : end - me + 1 ≡ suc (end - me) = omega arith in
      let next : me + 1 ≡ suc me = omega arith in rw (mine, rest, count, next) refl

  -- The gather leaves on rank 0 the chunk of every rank, in the order of the ranks.
  pub gather_chunks : 0 < nprocs → cobo_gather_tree nprocs nprocs own 0 ≡ chunks own 0 nprocs
  gather_chunks h =
      gather_span nprocs 0 h (omega (arith, span_root nprocs h))
      ∙ ap (chunks own 0) (omega (arith, span_root nprocs h))

  scatter_first :
      (f incl me : ℕ) (chunk : A) (others : List A) (rest : List (ℕ × A))
      → 0 < incl
      → get_elem? (cobo_scatter_tree (suc f) nprocs me (take incl (chunk ∷ others)) ++ rest) 0
        ≡ some (me, chunk)
  unfolding cobo_scatter_tree
  scatter_first f zero me chunk others rest h = absurd (omega arith)
  scatter_first f (suc incl) me chunk others rest h = refl

  root_children :
      0 < nprocs → (cobo_compute_children nprocs 0).children ≡ low_children nprocs 0 (nprocs - 1)
  unfolding cobo_compute_children
  root_children h =
      let (mine, above, below) =
        find_place-children nprocs 0 0 (nprocs - 1) 0 (omega arith) (omega arith) (omega arith) in
      mine ∙ ap (low_children nprocs 0) (span_root nprocs h)

-- The first child that rank 0 writes to, which is not rank 1 where there are more than three ranks,
-- gets the chunk of rank 1.
pub first_child_chunk :
    {A : Type 0}
    → (own : ℕ → A) (nprocs : ℕ) → 3 < nprocs
    → (get_elem? (cobo_scatter_tree nprocs nprocs 0 (chunks own 0 nprocs)) 1
        ≡ some (midpoint 0 (nprocs - 1), own 1))
      × (1 < midpoint 0 (nprocs - 1))
unfolding cobo_scatter_tree chunks write_children
first_child_chunk own zero h = absurd (omega arith)
first_child_chunk own (suc zero) h = absurd (omega arith)
first_child_chunk own (suc (suc k)) h =
    let n = suc (suc k) in
    let first =
      root_children own n (omega arith) ∙ low_children_node (suc k) 0 (n - 1) (omega arith) in
    let mid = midpoint 0 (n - 1) in
    (
      rw first
          (scatter_first own n k (n - 1 - mid + 1) mid (own 1) (chunks own 2 k) _ (omega arith)),
      omega arith,
    )
