-- ===== src/Fragments/Wrapping/Every.antt =====
-- That docs/doxygen-awesome-fragment-copy-button.js wraps every fragment.
use com_client.Base.{
  ℕ, zero, suc, ◌+◌, ◌-◌, ◌≤◌, ◌<◌, ◌≡◌, refl, sym, ap, ◌∙◌, true, if◌then◌else◌, ltb, arith,
  Bool-cases, inl, inr,
}
use com_client.Fragments.Wrapping.{
  fragment, wrapper, copy_button, other, Node, Nodes, element, chars, nil, cons, is_fragment,
  fragments, fragments_in, wrap, wrap_at, wrap_in, loop, init,
}

-- Every fragment wrapped, in place.
unfoldable mutual
  pub wrap_every : Node → Node
  wrap_every (element k kids) =
      let inner = wrap_all kids in if is_fragment k then wrap (element k inner) else element k inner
  wrap_every (chars s) = chars s

  pub wrap_all : Nodes → Nodes
  wrap_all nil = nil
  wrap_all (cons n rest) = cons (wrap_every n) (wrap_all rest)

-- The first `m` fragments wrapped.
unfoldable mutual
  unfolding fragments

  wrap_first : ℕ → Node → Node
  wrap_first m (element k kids) =
      let below = first_in (m - 1) kids in
      let inner = first_in m kids in
      if is_fragment k
      then (if ltb 0 m then wrap (element k below) else element k kids)
      else element k inner
  wrap_first m (chars s) = chars s

  first_in : ℕ → Nodes → Nodes
  first_in m nil = nil
  first_in m (cons n rest) = cons (wrap_first m n) (first_in (m - fragments n) rest)

mutual
  unfolding wrap_first

  first-none : (n : Node) → wrap_first 0 n ≡ n
  first-none (element k kids) = ground (arith, first_in-none kids)
  first-none (chars s) = refl

  first_in-none : (ns : Nodes) → first_in 0 ns ≡ ns
  first_in-none nil = refl
  first_in-none (cons n rest) = ground (arith, first-none n, first_in-none rest)

mutual
  unfolding wrap_first wrap_every fragments

  first-all : (m : ℕ) (n : Node) → fragments n ≤ m → wrap_first m n ≡ wrap_every n
  first-all m (element k kids) h = ground (arith, first_in-all (m - 1) kids, first_in-all m kids)
  first-all m (chars s) h = refl

  first_in-all : (m : ℕ) (ns : Nodes) → fragments_in ns ≤ m → first_in m ns ≡ wrap_all ns
  first_in-all m nil h = refl
  first_in-all m (cons n rest) h =
      ground (arith, first-all m n, first_in-all (m - fragments n) rest)

mutual
  unfolding wrap_first fragments

  fragments-first : (m : ℕ) (n : Node) → fragments (wrap_first m n) ≡ fragments n
  fragments-first m (element k kids) =
      ground (arith, fragments_in-first (m - 1) kids, fragments_in-first m kids)
  fragments-first m (chars s) = refl

  fragments_in-first : (m : ℕ) (ns : Nodes) → fragments_in (first_in m ns) ≡ fragments_in ns
  fragments_in-first m nil = refl
  fragments_in-first m (cons n rest) =
      ground (arith, fragments-first m n, fragments_in-first (m - fragments n) rest)

mutual
  unfolding wrap_first fragments wrap_at

  wrap_at-first :
      (m : ℕ) (n : Node) → m < fragments n → wrap_at m (wrap_first m n) ≡ wrap_first (suc m) n
  wrap_at-first zero (element fragment kids) h = ground (arith, first_in-none kids)
  wrap_at-first (suc m) (element fragment kids) h =
      ground (arith, wrap_in-first m kids, fragments_in-first m kids)
  wrap_at-first zero (element wrapper kids) h = ground (arith, wrap_in-first 0 kids)
  wrap_at-first (suc m) (element wrapper kids) h = ground (arith, wrap_in-first (suc m) kids)
  wrap_at-first zero (element copy_button kids) h = ground (arith, wrap_in-first 0 kids)
  wrap_at-first (suc m) (element copy_button kids) h = ground (arith, wrap_in-first (suc m) kids)
  wrap_at-first zero (element other kids) h = ground (arith, wrap_in-first 0 kids)
  wrap_at-first (suc m) (element other kids) h = ground (arith, wrap_in-first (suc m) kids)
  wrap_at-first m (chars s) h = absurd (omega arith)

  wrap_in-first :
      (m : ℕ) (ns : Nodes) → m < fragments_in ns → wrap_in m (first_in m ns) ≡ first_in (suc m) ns
  wrap_in-first m nil h = absurd (omega arith)
  wrap_in-first m (cons n rest) h = ground (
    arith,
    fragments-first m n,
    wrap_at-first m n,
    first-all m n,
    first-all (suc m) n,
    first_in-none rest,
    wrap_in-first (m - fragments n) rest,
  )

loop-rest :
    (f m : ℕ) (page : Nodes)
    → m ≤ fragments_in page
    → fragments_in page ≤ f + m
    → loop f m (first_in m page) ≡ wrap_all page
unfolding loop
loop-rest zero m page h k = first_in-all m page (omega arith)
loop-rest (suc f) m page h k = elim (Bool-cases (ltb m (fragments_in page))) [
  | inl e ↦
      let more : m < fragments_in page = ground arith in
      ground (
        arith,
        fragments_in-first m page,
        wrap_in-first m page more,
        loop-rest f (suc m) page (omega arith) (omega arith),
      )
  | inr e ↦
      let done : fragments_in page ≤ m = ground arith in
      ground (arith, fragments_in-first m page, first_in-all m page done)
]

-- Where the browser has a clipboard, `init` wraps every fragment of the page once, those in other fragments
-- too, each in its place and with a button behind it, and changes nothing else; the loop over the live
-- collection ends within as many rounds as there are fragments at its start, so that it does the same on
-- any more rounds.
pub init-wraps :
    (page : Nodes) (more : ℕ)
    → (init true page ≡ wrap_all page) × (loop (fragments_in page + more) 0 page ≡ wrap_all page)
unfolding init
init-wraps page more =
    let start = first_in-none page in
    (
      ap (loop (fragments_in page) 0) (sym start)
          ∙ loop-rest (fragments_in page) 0 page (omega arith) (omega arith),
      ap (loop (fragments_in page + more) 0) (sym start)
          ∙ loop-rest (fragments_in page + more) 0 page (omega arith) (omega arith),
    )
