-- ===== src/Chain/Seg.antt =====
-- What a linked list stands for: the addresses of its nodes, each with what is seen of the node.
use pi_vision.Base.{
  ℕ, zero, suc, ◌<◌, ◌≤◌, ◌≡◌, refl, ◌≢◌, Bool, true, false, ◌||◌, some, List, [], ◌∷◌, ◌++◌, arith,
  ◌∙◌, ap, ◌==◌, length, ok, Returns, Bool-cases, inl, inr, sym,
}
use pi_vision.Chain.{Ptr, null, Store, Link, write, load, find_last, append}

-- Whether an address is among the nodes.
abbrev pub has : {D : Type 0} → Ptr → List (Ptr × D) → Bool
has a [] = false
has a ((p, _) ∷ xs) = (a == p) || has a xs

pub has-append :
    {D : Type 0} (a : Ptr) (xs ys : List (Ptr × D)) → has a (xs ++ ys) ≡ (has a xs || has a ys)
has-append a [] ys = refl
has-append a (x ∷ xs) ys = ground (arith, has-append a xs ys)

module _ {A D : Type 0} (link : Link A D) where
  -- From `p` the `next` pointers lead through the distinct nodes `xs` to NULL.
  pub data Seg (h : Store A) : Ptr → List (Ptr × D) → Type 0 where
    nil : Seg h null []
    cons :
        {p q : Ptr} {d : D} {xs : List (Ptr × D)} (a : A)
        → p ≢ null
        → h p ≡ some a
        → link.next a ≡ q
        → link.view a ≡ d
        → has p xs ≡ false
        → Seg h q xs
        → Seg h p ((p, d) ∷ xs)

  pub load-ok : (h : Store A) (p : Ptr) (a : A) → p ≢ null → h p ≡ some a → load h p ≡ ok a
  unfolding load
  load-ok h p a ne e = ground arith

  -- A list survives a change that spares its nodes.
  pub frame :
      {h g : Store A} {p : Ptr} {xs : List (Ptr × D)}
      → Seg h p xs
      → ((a : Ptr) → has a xs ≡ true → g a ≡ h a)
      → Seg g p xs
  frame nil same = nil
  frame {h} {g} (cons {p} a ne e nx v out s) same =
      cons a ne (same p (ground arith) ∙ e) nx v out (frame s λ b i. same b (ground arith))

  -- A node of the list is in the store.
  pub node :
      (b : Ptr) {h : Store A} {p : Ptr} {xs : List (Ptr × D)}
      → Seg h p xs
      → has b xs ≡ true
      → (a : A) × (b ≢ null) × (h b ≡ some a)
  node b nil i = absurd (ground (arith, i))
  node b {h} (cons {p} a ne e nx v out s) i = elim (Bool-cases (b == p)) [
    | inl same ↦ let e' : b ≡ p = ground arith in (a, (λ z. ne (sym e' ∙ z)), ap h e' ∙ e)
    | inr other ↦ node b s (ground (arith, i))
  ]

  -- The node that the walk stops at, with the list that has `x` linked behind it.
  record Linked (h : Store A) (k : ℕ) (p x : Ptr) (xs ys : List (Ptr × D)) : Type 0 where
    last : Ptr
    node : A
    found : find_last link k h p ≡ ok last
    held : load h last ≡ ok node
    inside : has last xs ≡ true
    seg : Seg (write h last (link.set_next x node)) p ys

  Linked-cons :
      {h : Store A} {k : ℕ} {p q x : Ptr} {d : D} {ys zs : List (Ptr × D)} (a : A)
      → p ≢ null
      → q ≢ null
      → h p ≡ some a
      → link.next a ≡ q
      → link.view a ≡ d
      → has p ys ≡ false
      → has p zs ≡ false
      → Linked h k q x ys zs
      → Linked h (suc k) p x ((p, d) ∷ ys) ((p, d) ∷ zs)
  unfolding find_last
  Linked-cons {h} {p} a ne ne-q e nx v out out' rest = record {
    last = rest.last;
    node = rest.node;
    found = rw (load-ok h p a ne e, nx) (ground (arith, rest.found));
    held = rest.held;
    inside = ground (arith, rest.inside);
    seg = cons a ne (ground (arith, rest.inside)) nx v out' rest.seg;
  }

  -- The list `xs` with the node `b` at `x` behind it, in a store changed at most at `xs`.
  abbrev pub Appended : Store A → Ptr → A → List (Ptr × D) → Ptr × Store A → Type 0
  Appended h x b xs (head, g) =
      Seg g head (xs ++ ((x, link.view b) ∷ [])) × ((a : Ptr) → has a xs ≡ false → g a ≡ h a)

  module _ {h : Store A} (x : Ptr) (b : A) (ne-x : x ≢ null) (at-x : h x ≡ some b) where
    find_last-Linked :
        (k : ℕ) {p q : Ptr} {d : D} {xs : List (Ptr × D)} (a : A)
        → p ≢ null
        → h p ≡ some a
        → link.next a ≡ q
        → link.view a ≡ d
        → has p xs ≡ false
        → Seg h q xs
        → link.next b ≡ null
        → has x ((p, d) ∷ xs) ≡ false
        → length xs < k
        → Linked h k p x ((p, d) ∷ xs) ((p, d) ∷ (xs ++ ((x, link.view b) ∷ [])))
    unfolding find_last
    find_last-Linked zero a ne e nx v out s end new fuel = absurd (omega arith)
    find_last-Linked (suc k) {p} a ne e nx v out nil end new fuel = record {
      last = p;
      node = a;
      found = rw (load-ok h p a ne e, nx);
      held = load-ok h p a ne e;
      inside = ground arith;
      seg =
          cons (link.set_next x a) ne (ground arith) (link.next-set_next x a)
            (link.view-set_next x a ∙ v) (ground arith)
            (cons b ne-x (ground arith) end refl refl nil);
    }
    find_last-Linked (suc k) {p} {d} a ne e nx v out
          (cons {p = q} {d = d'} {xs} a' ne' e' nx' v' out' s) end new fuel =
        Linked-cons a ne ne' e nx v out (ground (arith, has-append p xs ((x, link.view b) ∷ [])))
          (find_last-Linked k a' ne' e' nx' v' out' s end (ground arith) (omega arith))

    -- Appending a node that is not in the list puts it behind the others.
    pub append-Seg :
        (k : ℕ) {p : Ptr} {xs : List (Ptr × D)}
        → Seg h p xs
        → link.next b ≡ null
        → has x xs ≡ false
        → length xs ≤ k
        → Returns (Appended h x b xs) (append link k h p x)
    unfolding append
    append-Seg k nil end new fuel = (cons b ne-x at-x end refl refl nil, λ a o. refl)
    append-Seg k (cons {p} a ne e nx v out s) end new fuel =
        let l = find_last-Linked k a ne e nx v out s end new (omega arith) in
        let ne' : (p == null) ≡ false = ground arith in
        rw (ne', l.found, l.held) (l.seg, ground (arith, l.inside))

  -- The last node of a list may be changed in all but its `next`.
  pub write_last :
      {h : Store A} {x : Ptr} (d : D) (xs : List (Ptr × D)) (b b' : A) {p : Ptr}
      → Seg h p (xs ++ ((x, d) ∷ []))
      → has x xs ≡ false
      → h x ≡ some b
      → link.next b' ≡ link.next b
      → Seg (write h x b') p (xs ++ ((x, link.view b') ∷ []))
  write_last {h} {x} d [] b b' (cons a ne e nx v out s) new at same =
      let grown : link.next b ≡ link.next a = ap link.next (ground arith) in
      cons b' ne (ground arith) (same ∙ grown ∙ nx) refl refl (frame s λ i j. absurd (ground arith))
  write_last {h} {x} d ((p, d') ∷ xs) b b' (cons a ne e nx v out s) new at same =
      cons a ne (ground (arith, e)) nx v
        (ground (arith, has-append p xs ((x, d) ∷ []), has-append p xs ((x, link.view b') ∷ [])))
        (write_last d xs b b' s (ground arith) at same)
