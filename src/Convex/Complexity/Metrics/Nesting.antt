-- ===== src/Convex/Complexity/Metrics/Nesting.antt =====
-- `analyzeBlocks` on a balanced body is a recursion over the tree of its blocks.
use Prim.Native.Nat.{max}
use atdd_extensions.Base.{
  ℕ, suc, ◌+◌, ◌-◌, ◌≤◌, ◌≡◌, ◌≢◌, refl, sym, ap, ◌∙◌, Bool, List, [], ◌∷◌, ◌++◌, arith,
  append_assoc, append-nil, if◌then◌else◌, Text, length, length-append,
}
use atdd_extensions.Convex.Complexity.Brackets.Balance.{Balanced, nil, other, nest}
use atdd_extensions.Convex.Complexity.Metrics.{
  Brace, increment, Blocks, block_step, blocks_loop, no_blocks, analyze_blocks, classify_brace,
  count_operators,
}

abbrev pub Body : Text → Type 0
Body = Balanced b'{' b'}'

abbrev pub deeper : Brace → ℕ → ℕ
deeper info depth = if info.control then suc depth else depth

depth_back :
    (info : Brace) (d : ℕ) {e r : ℕ}
    → e ≡ deeper info d
    → r ≡ (if info.control then e - 1 else e)
    → r ≡ d
depth_back info d p q = ground arith

fits_after :
    (s s₁ e₁ s₂ : Blocks) (h x : ℕ)
    → s₂.control_depth ≡ s.control_depth
    → s₂.max_depth ≡ e₁.max_depth
    → e₁.max_depth ≡ max s₁.max_depth h
    → s₁.max_depth ≡ max s.max_depth x
    → s.control_depth ≤ s.max_depth
    → s₂.control_depth ≤ s₂.max_depth
fits_after s s₁ e₁ s₂ h x a b c d m = omega arith

max_after :
    (info : Brace) (d h k : ℕ) {m d₁ m₁ n₁ d₂ m₂ r : ℕ}
    → d ≤ m
    → d₁ ≡ deeper info d
    → m₁ ≡ max m (deeper info d)
    → n₁ ≡ max m₁ (d₁ + h)
    → m₂ ≡ n₁
    → d₂ ≡ d
    → r ≡ max m₂ (d₂ + k)
    → r ≡ max m (d + max (deeper info h) k)
max_after info d h k p a b c e f g = ground arith

module _ (classify : ℕ → Brace) where
  -- The most control blocks that enclose a place of the body, which begins at offset `i`.
  abbrev pub height : ℕ → {t : Text} → Body t → ℕ
  height i nil = 0
  height i (other p q h) = height (suc i) h
  height i (nest {inner} h k) =
      max (deeper (classify i) (height (suc i) h)) (height (suc (suc i + length inner)) k)

  -- The sum of what the blocks add, each at the number of control blocks around it.
  abbrev pub total : ℕ → ℕ → {t : Text} → Body t → ℕ
  total i depth nil = 0
  total i depth (other p q h) = total (suc i) depth h
  total i depth (nest {inner} h k) =
      increment (classify i) depth
      + total (suc i) (deeper (classify i) depth) h
      + total (suc (suc i + length inner)) depth k

  block_step-other : (i c : ℕ) (s : Blocks) → c ≢ b'{' → c ≢ b'}' → block_step classify i c s ≡ s
  unfolding block_step
  block_step-other i c s p q = ground arith

  block_step-open :
      (i : ℕ) (s : Blocks)
      → s.control_depth ≤ s.max_depth
      → ((block_step classify i b'{' s).stack ≡ (classify i).control ∷ s.stack)
        × ((block_step classify i b'{' s).control_depth ≡ deeper (classify i) s.control_depth)
        × ((block_step classify i b'{' s).max_depth
            ≡ max s.max_depth (deeper (classify i) s.control_depth))
        × ((block_step classify i b'{' s).cognitive
            ≡ s.cognitive + increment (classify i) s.control_depth)
        × ((block_step classify i b'{' s).control_depth ≤ (block_step classify i b'{' s).max_depth)
  unfolding block_step
  block_step-open i s m = ground arith

  block_step-close :
      (i : ℕ) (s : Blocks) (ctrl : Bool) (stack : List Bool)
      → s.stack ≡ ctrl ∷ stack
      → ((block_step classify i b'}' s).stack ≡ stack)
        × ((block_step classify i b'}' s).control_depth
            ≡ (if ctrl then s.control_depth - 1 else s.control_depth))
        × ((block_step classify i b'}' s).max_depth ≡ s.max_depth)
        × ((block_step classify i b'}' s).cognitive ≡ s.cognitive)
  unfolding block_step
  block_step-close i s ctrl stack e = ground arith

  -- A balanced text leaves the stack and the depth, and counts its own blocks.
  abbrev After : ℕ → {t : Text} → Body t → Blocks → Blocks → Type 0
  After i h s e =
      (e.stack ≡ s.stack)
      × (e.control_depth ≡ s.control_depth)
      × (e.max_depth ≡ max s.max_depth (s.control_depth + height i h))
      × (e.cognitive ≡ s.cognitive + total i s.control_depth h)

  run : (i : ℕ) {t : Text} → Body t → Blocks → Blocks
  run i nil s = s
  run i (other p q h) s = run (suc i) h s
  run i (nest {inner} h k) s = run (suc (suc i + length inner)) k (
      block_step classify (suc i + length inner) b'}'
        (run (suc i) h (block_step classify i b'{' s)))

  blocks_loop-run :
      (i j : ℕ) {t : Text} (rest : Text) (h : Body t) (s : Blocks)
      → j ≡ i + length t
      → blocks_loop classify i (t ++ rest) s ≡ blocks_loop classify j rest (run i h s)
  unfolding blocks_loop run
  blocks_loop-run i j rest nil s e = ap (λ n. blocks_loop classify n rest s) (omega arith)
  blocks_loop-run i j rest (other {c} {t} p q h) s e =
      ap (blocks_loop classify (suc i) (t ++ rest)) (block_step-other i c s p q)
      ∙ blocks_loop-run (suc i) j rest h s (omega arith)
  blocks_loop-run i j rest (nest {inner} {t} h k) s e = rw append_assoc (
      blocks_loop-run (suc i) (suc i + length inner) (b'}' ∷ (t ++ rest)) h _ refl
      ∙ blocks_loop-run (suc (suc i + length inner)) j rest k _
          (omega (arith, length-append inner (b'}' ∷ t))))

  run-After :
      (i : ℕ) {t : Text} (h : Body t) (s : Blocks)
      → s.control_depth ≤ s.max_depth
      → After i h s (run i h s)
  unfolding run
  run-After i nil s m = (refl, refl, omega arith, omega arith)
  run-After i (other p q h) s m = run-After (suc i) h s m
  run-After i (nest {inner} h k) s m =
      let s₁ = block_step classify i b'{' s in
      let e₁ = run (suc i) h s₁ in
      let s₂ = block_step classify (suc i + length inner) b'}' e₁ in
      let opened = block_step-open i s m in
      let inside = run-After (suc i) h s₁ opened.4 in
      let closed =
        block_step-close (suc i + length inner) e₁ (classify i).control s.stack
          (inside.0 ∙ opened.0) in
      let back = depth_back (classify i) s.control_depth (inside.1 ∙ opened.1) closed.1 in
      let fits = fits_after s s₁ e₁ s₂ _ _ back closed.2 inside.2 opened.2 m in
      let behind = run-After (suc (suc i + length inner)) k s₂ fits in
      let inner_total = ap (λ d. total (suc i) d h) opened.1 in
      let outer_total = ap (λ d. total (suc (suc i + length inner)) d k) back in
      (
        behind.0 ∙ closed.0,
        behind.1 ∙ back,
        max_after (classify i) s.control_depth (height (suc i) h)
            (height (suc (suc i + length inner)) k) m opened.1 opened.2 inside.2 closed.2 back
            behind.2,
        omega arith,
      )

whole :
    (classify : ℕ → Brace) {t : Text} (h : Body t) (s : Blocks)
    → blocks_loop classify 0 t s ≡ run classify 0 h s
whole classify {t} h s =
    ap (λ u. blocks_loop classify 0 u s) (sym (append-nil t))
    ∙ blocks_loop-run classify 0 (length t) [] h s (omega arith)
    ∙ unfold blocks_loop in refl

-- On a body whose braces are balanced, `analyzeBlocks` finds the height of the tree of its blocks,
-- and the sum over that tree of what each block adds, with the operators of the body.
pub analyze_blocks-Body :
    {b : Text} (h : Body b)
    → ((analyze_blocks b).max_nesting ≡ height (classify_brace b) 0 h)
      × ((analyze_blocks b).cognitive ≡ total (classify_brace b) 0 0 h + count_operators b)
unfolding analyze_blocks
analyze_blocks-Body {b} h =
    let end = whole (classify_brace b) h no_blocks in
    let after = run-After (classify_brace b) 0 h no_blocks (omega arith) in
    (
      ap (λ (s : Blocks). s.max_depth) end ∙ after.2 ∙ omega arith,
      omega (arith, ap (λ (s : Blocks). s.cognitive) end),
    )
