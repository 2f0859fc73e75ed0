-- ===== src/Chain/Each.antt =====
-- A loop that updates each node of a linked list in turn, against a loop over what the nodes show.
use pi_vision.Base.{
  ℕ, zero, suc, ◌<◌, ◌≡◌, refl, ◌∙◌, ◌≢◌, false, List, [], ◌∷◌, arith, ◌==◌, length, Run, ok, exit,
  fault, out_of_fuel, ◌>>=◌, Returns, Returns-bind, Ends, Ends-bind, Ends-bind_eq, Ends-mono, ap₂,
}
use pi_vision.Chain.{Ptr, null, Store, Link, write, for_each}
use pi_vision.Chain.Seg
use pi_vision.Chain.Seg.{Seg, nil, cons, has}

-- Each item updated in turn.
pub each : {D T : Type 0} → (D → T → Run (D × T)) → List (Ptr × D) → T → Run (List (Ptr × D) × T)
each spec [] t = ok ([], t)
each spec ((p, d) ∷ xs) t =
    spec d t >>= λ (d', t'). each spec xs t' >>= λ (ys, t''). ok ((p, d') ∷ ys, t'')

module _ {A D : Type 0} (link : Link A D) where
  -- The loop over the store ends as the loop over the items does; where that is with a value, it
  -- leaves a list of the new items at the same addresses, and writes nowhere else.
  pub data Matches {T : Type 0} (h : Store A) (p : Ptr) (xs : List (Ptr × D))
      : Run (List (Ptr × D) × T) → Run (Store A × T) → Type 0 where
    done :
        {ys : List (Ptr × D)} {g : Store A} {t : T}
        → Seg link g p ys
        → ((a : Ptr) → has a ys ≡ has a xs)
        → ((a : Ptr) → has a xs ≡ false → g a ≡ h a)
        → Matches h p xs (ok (ys, t)) (ok (g, t))
    exited : {n : ℕ} → Matches h p xs (exit n) (exit n)
    faulted : Matches h p xs fault fault
    ran_out : Matches h p xs out_of_fuel out_of_fuel

  module _ {T : Type 0} where
    -- The body does to a node what `spec` does to what is seen of it, and leaves its `next` alone.
    pub data Agrees (a : A) : Run (A × T) → Run (D × T) → Type 0 where
      updates :
          (a' : A) {t : T}
          → link.next a' ≡ link.next a
          → Agrees a (ok (a', t)) (ok (link.view a', t))
      exits : {n : ℕ} → Agrees a (exit n) (exit n)
      faults : Agrees a fault fault
      runs_out : Agrees a out_of_fuel out_of_fuel

    Matches-cons :
        {h : Store A} {p q : Ptr} {d : D} {xs : List (Ptr × D)} {r : Run (List (Ptr × D) × T)}
        {r' : Run (Store A × T)} (a' : A)
        → p ≢ null
        → has p xs ≡ false
        → link.next a' ≡ q
        → Matches (write h p a') q xs r r'
        → Matches h p ((p, d) ∷ xs) (r >>= λ (ys, t). ok ((p, link.view a') ∷ ys, t)) r'
    Matches-cons {p} a' ne out nx (done s same kept) =
        done (cons a' ne (ground (arith, kept p)) nx refl (same p ∙ out) s)
          (λ b. ground (arith, same b)) (λ b o. ground (arith, kept b))
    Matches-cons a' ne out nx exited = exited
    Matches-cons a' ne out nx faulted = faulted
    Matches-cons a' ne out nx ran_out = ran_out

    module _ (body : A → T → Run (A × T)) (spec : D → T → Run (D × T)) where
      after_body :
          (k : ℕ) {h : Store A} {p : Ptr} {d : D} {xs : List (Ptr × D)} {a : A} {r : Run (A × T)}
          {r' : Run (D × T)}
          → p ≢ null
          → has p xs ≡ false
          → Agrees a r r'
          → ((a' : A) (t' : T)
              → link.next a' ≡ link.next a
              → Matches
                  (write h p a')
                  (link.next a')
                  xs
                  (each spec xs t')
                  (for_each link body k (write h p a') (link.next a') t'))
          → Matches h p
              ((p, d) ∷ xs)
              (r' >>= λ (d', t'). each spec xs t' >>= λ (ys, t''). ok ((p, d') ∷ ys, t''))
              (r >>= λ (a', t'). for_each link body k (write h p a') (link.next a') t')
      after_body k ne out (updates a' nx) rest = Matches-cons a' ne out refl (rest a' _ nx)
      after_body k ne out exits rest = exited
      after_body k ne out faults rest = faulted
      after_body k ne out runs_out rest = ran_out

      module _ (agrees : (a : A) (t : T) → Agrees a (body a t) (spec (link.view a) t)) where
        pub for_each-each :
            (k : ℕ) {h : Store A} {p : Ptr} {xs : List (Ptr × D)} (t : T)
            → Seg link h p xs
            → length xs < k
            → Matches h p xs (each spec xs t) (for_each link body k h p t)
        unfolding for_each each
        for_each-each zero t s enough = absurd (omega arith)
        for_each-each (suc k) t nil enough = done nil (λ a. refl) (λ a o. refl)
        for_each-each (suc k) {h} {p} t (cons {q} {xs} a ne e nx v out s) enough =
            let ne' : (p == null) ≡ false = ground arith in
            rw (ne', Seg.load-ok link h p a ne e, ← v)
              (after_body k ne out (agrees a t) λ a' t' nx'.
                rw (nx' ∙ nx)
                  (for_each-each k t' (Seg.frame link s (λ b i. ground arith)) (omega arith)))

  -- A postcondition of the loop over the items carries over to the loop over the store.
  abbrev pub Swept :
      {T : Type 0}
      → Store A
      → Ptr
      → List (Ptr × D)
      → (List (Ptr × D) × T → Type 0)
      → Store A × T
      → Type 0
  Swept {T} h p xs P (g, t) =
      (ys : List (Ptr × D)) × P (ys, t)
      × Seg link g p ys
      × ((a : Ptr) → has a xs ≡ false → g a ≡ h a)

  pub Matches-Returns :
      {T : Type 0} {h : Store A} {p : Ptr} {xs : List (Ptr × D)} {r : Run (List (Ptr × D) × T)}
      {r' : Run (Store A × T)} (P : List (Ptr × D) × T → Type 0)
      → Matches h p xs r r'
      → Returns P r
      → Returns (Swept h p xs P) r'
  Matches-Returns P (done {ys} s same kept) h = (ys, h, s, kept)
  Matches-Returns P exited h = h
  Matches-Returns P faulted h = h
  Matches-Returns P ran_out h = h

  pub Matches-Ends :
      {T : Type 0} {h : Store A} {p : Ptr} {xs : List (Ptr × D)} {r : Run (List (Ptr × D) × T)}
      {r' : Run (Store A × T)} (P : List (Ptr × D) × T → Type 0) (F : Type 0)
      → Matches h p xs r r'
      → Ends P F r
      → Ends (Swept h p xs P) F r'
  Matches-Ends P F (done {ys} s same kept) h = (ys, h, s, kept)
  Matches-Ends P F exited h = h
  Matches-Ends P F faulted h = h
  Matches-Ends P F ran_out h = h

-- On its way over the items the loop comes to one that is a hazard.
pub data MeetsAlong {D T : Type 0} (spec : D → T → Run (D × T)) (Hazard : D → T → Type 0)
    : List (Ptr × D) → T → Type 0 where
  here :
      {p : Ptr} {d : D} {xs : List (Ptr × D)} {t : T}
      → Hazard d t
      → MeetsAlong spec Hazard ((p, d) ∷ xs) t
  later :
      {p : Ptr} {d d' : D} {xs : List (Ptr × D)} {t t' : T}
      → spec d t ≡ ok (d', t')
      → MeetsAlong spec Hazard xs t'
      → MeetsAlong spec Hazard ((p, d) ∷ xs) t

module _ {D : Type 0} (R : D → D → Type 0) where
  -- The same addresses, each with an item related to the one before.
  abbrev pub Related : List (Ptr × D) → List (Ptr × D) → Type 0
  Related [] [] = Unit
  Related [] (_ ∷ _) = ⊥
  Related (_ ∷ _) [] = ⊥
  Related ((p, d) ∷ xs) ((q, d') ∷ ys) = (q ≡ p) × R d d' × Related xs ys

  pub each-Related :
      {T : Type 0} (spec : D → T → Run (D × T))
      → ((d : D) (t : T) → Returns (λ (d', t'). R d d') (spec d t))
      → (xs : List (Ptr × D)) (t : T) → Returns (λ (ys, t'). Related xs ys) (each spec xs t)
  unfolding each
  each-Related spec step [] t = tt
  each-Related {T} spec step ((p, d) ∷ xs) t =
      Returns-bind (λ (d', t'). R d d') (λ (ys, t'). Related ((p, d) ∷ xs) ys) (spec d t) _
        (step d t)
        λ (d', t') r.
          Returns-bind (λ (ys, t''). Related xs ys) (λ (ys, t''). Related ((p, d) ∷ xs) ys)
            (each spec xs t') _ (each-Related spec step xs t') λ (ys, t'') rs. (refl, r, rs)

  pub each-Ends :
      {T : Type 0} (spec : D → T → Run (D × T)) (Hazard : D → T → Type 0)
      → ((d : D) (t : T) → Ends (λ (d', t'). R d d') (Hazard d t) (spec d t))
      → (xs : List (Ptr × D)) (t : T)
      → Ends (λ (ys, t'). Related xs ys) (MeetsAlong spec Hazard xs t) (each spec xs t)
  unfolding each
  each-Ends spec Hazard step [] t = tt
  each-Ends spec Hazard step ((p, d) ∷ xs) t =
      Ends-bind_eq (λ (d', t'). R d d') (Hazard d t) (λ (ys, t'). Related ((p, d) ∷ xs) ys)
        (MeetsAlong spec Hazard ((p, d) ∷ xs) t) (spec d t) _ (step d t)
        (λ (d', t') r e.
          Ends-bind (λ (ys, t''). Related xs ys) (MeetsAlong spec Hazard ((p, d) ∷ xs) t)
            (λ (ys, t''). Related ((p, d) ∷ xs) ys) (each spec xs t') _
            (Ends-mono (λ (ys, t''). Related xs ys) (λ (ys, t''). Related xs ys)
              (MeetsAlong spec Hazard xs t') (MeetsAlong spec Hazard ((p, d) ∷ xs) t) _ (λ a k. k)
              (λ m. later e m) (each-Ends spec Hazard step xs t'))
            (λ (ys, t'') rs. (refl, r, rs)))
        (λ h. here h)

-- Items that are the same make the same list.
pub Related-eq : {D : Type 0} (xs ys : List (Ptr × D)) → Related (λ d d'. d' ≡ d) xs ys → ys ≡ xs
Related-eq [] [] h = refl
Related-eq [] (y ∷ ys) h = absurd h
Related-eq (x ∷ xs) [] h = absurd h
Related-eq ((p, d) ∷ xs) ((q, d') ∷ ys) (e, e', h) =
    ap₂ ◌∷◌ (ap₂ {A = Ptr} (λ a b. (a, b)) e e') (Related-eq xs ys h)
