-- ===== src/Chain.antt =====
-- Singly linked lists of statically allocated nodes, as the scheduler and the server keep them
-- (C/src/PiVisScheduler.c, C/src/PiVisServer.c): a store of nodes by address, the walk to the last
-- node, and the append that both files write out.
pub mod Each
pub mod Seg
use pi_vision.Base.{
  ℕ, zero, suc, ◌≡◌, Option, none, some, ◌==◌, if◌then◌else◌, Run, ok, fault, out_of_fuel, ◌>>=◌,
}

abbrev pub Ptr : Type 0
Ptr = ℕ

abbrev pub null : Ptr
null = 0

abbrev pub Store : Type 0 → Type 0
Store A = Ptr → Option A

-- The `next` field of a node type, and what of a node a client sees.
pub record Link (A D : Type 0) : Type 0 where
  pub next : A → Ptr
  pub set_next : Ptr → A → A
  pub view : A → D
  pub next-set_next : (p : Ptr) (a : A) → next (set_next p a) ≡ p
  pub view-set_next : (p : Ptr) (a : A) → view (set_next p a) ≡ view a

module _ {A : Type 0} where
  abbrev pub write : Store A → Ptr → A → Store A
  write h p a q = if q == p then some a else h q

  -- `*p`: a fault at NULL and at an address that holds no node
  unfoldable pub load : Store A → Ptr → Run A
  load h p = if p == null then fault else elim (h p) [ none ↦ fault | some a ↦ ok a ]

module _ {A D : Type 0} (link : Link A D) where
  -- while(last->next != 0) { last = last->next; }
  pub find_last : ℕ → Store A → Ptr → Run Ptr
  find_last zero h last = out_of_fuel
  find_last (suc k) h last = load h last >>= λ a.
      (let rest = find_last k h (link.next a) in if link.next a == null then ok last else rest)

  -- The new head, and the store in which the node at `p` stands behind the others.
  pub append : ℕ → Store A → Ptr → Ptr → Run (Ptr × Store A)
  append fuel h head p =
      if head == null
      then ok (p, h)
      else (find_last fuel h head >>= λ last.
          load h last >>= λ l. ok (head, write h last (link.set_next p l)))

  -- while(p != 0) { body of *p; p = p->next; }, where the body updates the node and a state.
  pub for_each : {T : Type 0} → (A → T → Run (A × T)) → ℕ → Store A → Ptr → T → Run (Store A × T)
  for_each body zero h p t = out_of_fuel
  for_each body (suc k) h p t =
      if p == null
      then ok (h, t)
      else (load h p >>= λ a.
          body a t >>= λ (a', t'). for_each body k (write h p a') (link.next a') t')
