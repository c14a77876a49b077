-- ===== src/Openssh/Snapshot/Best.antt =====
-- Which sockets an observation shows: for each port the reachable one with the least inode, and of
-- the ports the lowest.
use mathlib.Core.Path.{subst}
use ssh_forward.Core.Types.{direction_eq, key_eq, state_eq, target_eq}
use ssh_forward.Openssh.Snapshot.{
  SnapshotSocket, best_sockets, replaces, socket_eq, socket_reachable,
}
use ssh_forward.Prelude.{
  ==_refl, All, Bool-cases, Distinct, List, Map, Option, Str, Unique, [], ap, arith, bool_eq,
  contains, eq_of_==, has, if◌then◌else◌, inl, inr, insert, insert-Unique, lookup, lookup-insert,
  ltb, map, nat_eq, none, refl, some, str_eq, sym, true, values, ℕ, ◌&&◌, ◌==◌, ◌∙◌, ◌∷◌, ◌≡◌, ◌≤◌,
  ◌⊎◌,
}

module _ (self v6 : Str) (p : ℕ) where
  -- What a loop over the sockets makes of the entry of a port.
  pub record IsBest (start : Option SnapshotSocket) (sockets : List SnapshotSocket)
      (out : Option SnapshotSocket) : Type 0 where
    pub from :
        (s : SnapshotSocket)
        → out ≡ some s
        → (start ≡ some s)
          ⊎ ((contains sockets s ≡ true) × (socket_reachable s self v6 ≡ true) × (s.port ≡ p))
    pub least :
        (t : SnapshotSocket)
        → contains sockets t ≡ true
        → socket_reachable t self v6 ≡ true
        → t.port ≡ p
        → (s : SnapshotSocket) × (out ≡ some s) × (s.inode ≤ t.inode)
    pub least_start :
        (t : SnapshotSocket)
        → start ≡ some t
        → (s : SnapshotSocket) × (out ≡ some s) × (s.inode ≤ t.inode)

  -- The entry of the port after one socket.
  abbrev step : SnapshotSocket → Option SnapshotSocket → Option SnapshotSocket
  step socket start =
      if socket_reachable socket self v6 && socket.port == p && replaces socket start
      then some socket
      else start

  -- The entry holds a socket whose inode is at most this one.
  abbrev Reaches : Option SnapshotSocket → ℕ → Type 0
  Reaches o n = (s : SnapshotSocket) × (o ≡ some s) × (s.inode ≤ n)

  step_socket :
      (socket : SnapshotSocket) (start : Option SnapshotSocket)
      → socket_reachable socket self v6 ≡ true
      → socket.port ≡ p
      → Reaches (step socket start) socket.inode
  step_socket socket none r q = (socket, ground arith, omega arith)
  step_socket socket (some c) r q = elim (Bool-cases (ltb socket.inode c.inode)) [
    | inl t ↦ (socket, ground arith, omega arith)
    | inr f ↦ (c, ground arith, ground arith)
  ]

  step_start :
      (socket : SnapshotSocket) (start : Option SnapshotSocket) (t : SnapshotSocket)
      → start ≡ some t
      → Reaches (step socket start) t.inode
  step_start socket start t e =
      elim (Bool-cases
        (socket_reachable socket self v6 && socket.port == p && replaces socket start)) [
          | inl h ↦ (socket, ground arith, ground arith)
          | inr h ↦ (t, ground arith, omega arith)
        ]

  outcome-Reaches :
      (rest : List SnapshotSocket) (start out : Option SnapshotSocket) (n : ℕ)
      → IsBest start rest out
      → Reaches start n
      → Reaches out n
  outcome-Reaches rest start out n b (s, e, h) =
      let (s', e', h') = b.least_start s e in (s', e', omega arith)

  IsBest-cons :
      (socket : SnapshotSocket) (rest : List SnapshotSocket) (start out : Option SnapshotSocket)
      → IsBest (step socket start) rest out
      → IsBest start (socket ∷ rest) out
  unfolding contains
  IsBest-cons socket rest start out b = record {
    from = λ s e. elim (b.from s e) [
      | inl h ↦ ground (arith, ==_refl s)
      | inr h ↦ inr (ground arith, h.1, h.2)
    ];
    least = λ t c r q. elim (Bool-cases (socket == t)) [
      | inl same ↦
          let e = eq_of_== socket t same in
          subst (λ (u : SnapshotSocket). Reaches out u.inode) e
            (outcome-Reaches rest (step socket start) out socket.inode b (
              step_socket socket start
                (subst (λ (u : SnapshotSocket). socket_reachable u self v6 ≡ true) (sym e) r)
                (ap (λ (u : SnapshotSocket). u.port) e ∙ q)))
      | inr other ↦ b.least t (ground arith) r q
    ];
    least_start =
        λ t e. outcome-Reaches rest (step socket start) out t.inode b (step_start socket start t e);
  }

  lookup-step :
      (socket : SnapshotSocket) (best : Map ℕ SnapshotSocket)
      → lookup p (
          if socket_reachable socket self v6 && replaces socket (lookup socket.port best)
          then insert socket.port socket best
          else best)
        ≡ step socket (lookup p best)
  lookup-step socket best = ground (arith, lookup-insert socket.port p socket best)

  pub best_sockets-IsBest :
      (sockets : List SnapshotSocket) (best : Map ℕ SnapshotSocket)
      → IsBest (lookup p best) sockets (lookup p (best_sockets self v6 best sockets))
  unfolding best_sockets contains
  best_sockets-IsBest [] best = record {
    from = λ s h. inl h;
    least = λ t h. absurd (ground arith);
    least_start = λ t h. (t, h, omega arith);
  }
  best_sockets-IsBest (socket ∷ rest) best =
      let next =
        if socket_reachable socket self v6 && replaces socket (lookup socket.port best)
        then insert socket.port socket best
        else best in
      IsBest-cons socket rest (lookup p best) (lookup p (best_sockets self v6 next rest)) (
        subst
          (λ (o : Option SnapshotSocket). IsBest o rest (lookup p (best_sockets self v6 next rest)))
          (lookup-step socket best) (best_sockets-IsBest rest next))

-- The map has each socket under its port.
abbrev pub IsKeyed : Map ℕ SnapshotSocket → Type 0
IsKeyed = All (λ (e : ℕ × SnapshotSocket). e.1.port ≡ e.0)

insert-IsKeyed :
    (s : SnapshotSocket) (m : Map ℕ SnapshotSocket) → IsKeyed m → IsKeyed (insert s.port s m)
unfolding insert
insert-IsKeyed s [] k = (refl, tt)
insert-IsKeyed s ((j, t) ∷ m) k = ground (arith, insert-IsKeyed s m k.1)

pub best_sockets-IsKeyed :
    (self v6 : Str) (sockets : List SnapshotSocket) (best : Map ℕ SnapshotSocket)
    → IsKeyed best
    → Unique best
    → IsKeyed (best_sockets self v6 best sockets) × Unique (best_sockets self v6 best sockets)
unfolding best_sockets
best_sockets-IsKeyed self v6 [] best k u = (k, u)
best_sockets-IsKeyed self v6 (s ∷ rest) best k u =
    elim (Bool-cases (socket_reachable s self v6 && replaces s (lookup s.port best))) [
      | inl t ↦ rw t (
          best_sockets-IsKeyed self v6 rest (insert s.port s best) (insert-IsKeyed s best k)
            (insert-Unique s.port s best u))
      | inr f ↦ rw f (best_sockets-IsKeyed self v6 rest best k u)
    ]

-- The ports of the values are the keys.
pub ports_of_values :
    (m : Map ℕ SnapshotSocket)
    → IsKeyed m
    → (p : ℕ) → contains (map (λ (s : SnapshotSocket). s.port) (values m)) p ≡ has p m
unfolding contains lookup
ports_of_values [] k p = refl
ports_of_values ((j, s) ∷ m) k p = ground (arith, ports_of_values m k.1 p, k.0)

pub Distinct-values :
    (m : Map ℕ SnapshotSocket)
    → IsKeyed m
    → Unique m
    → Distinct (map (λ (s : SnapshotSocket). s.port) (values m))
Distinct-values [] k u = tt
Distinct-values ((j, s) ∷ m) k u =
    (ports_of_values m k.1 s.port ∙ ground (arith, k.0, u.0), Distinct-values m k.1 u.1)

-- What is true of the first entry of each key is true of all.
pub All-values :
    (P : SnapshotSocket → Type 0) (m : Map ℕ SnapshotSocket)
    → Unique m
    → ((p : ℕ) (s : SnapshotSocket) → lookup p m ≡ some s → P s)
    → All P (values m)
unfolding lookup
All-values P [] u f = tt
All-values P ((k, s) ∷ m) u f =
    (f k s (ground (arith, ==_refl k)), All-values P m u.1 (λ j t h. f j t (ground (arith, u.0))))
