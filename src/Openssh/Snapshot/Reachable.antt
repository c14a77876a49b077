-- ===== src/Openssh/Snapshot/Reachable.antt =====
-- The sockets that `classify` looks at.
use ssh_forward.Core.Types.{direction_eq, key_eq, state_eq, target_eq}
use ssh_forward.Openssh.Snapshot.{
  CapabilitySnapshot, SnapshotSocket, best_sockets, by_socket_port, first_items, reachable_sockets,
  socket_eq, socket_reachable,
}
use ssh_forward.Openssh.Snapshot.Best.{
  All-values, Distinct-values, best_sockets-IsBest, best_sockets-IsKeyed, ports_of_values,
}
use ssh_forward.Prelude.{
  All, All-sort_func, Bool, Bool-cases, Distinct-sort_func, Increasing, Increasing-of_Sorted, List,
  Map, [], ap, arith, bool_eq, by_number-IsOrder, contains, contains-sort_func, has, inl, inr,
  is_some, length, lookup, map, nat_eq, refl, some, sort_func, sort_func-Sorted, str_eq, suc, true,
  values, zero, ℕ, ◌<◌, ◌==◌, ◌∙◌, ◌∷◌, ◌≡◌, ◌≤◌, ◌⊎◌,
}

abbrev pub ports_of : List SnapshotSocket → List ℕ
ports_of = map (λ (s : SnapshotSocket). s.port)

module _ {T : Type 0} (number : T → ℕ) where
  All-first_items : (P : T → Type 0) (n : ℕ) (xs : List T) → All P xs → All P (first_items n xs)
  unfolding first_items
  All-first_items P zero xs a = tt
  All-first_items P (suc n) [] a = tt
  All-first_items P (suc n) (x ∷ xs) a = (a.0, All-first_items P n xs a.1)

  above_first_items :
      (P : ℕ → Type 0) (n : ℕ) (xs : List T)
      → All P (map number xs)
      → All P (map number (first_items n xs))
  unfolding first_items
  above_first_items P zero xs a = tt
  above_first_items P (suc n) [] a = tt
  above_first_items P (suc n) (x ∷ xs) a = (a.0, above_first_items P n xs a.1)

  Increasing-first_items :
      (n : ℕ) (xs : List T)
      → Increasing (map number xs)
      → Increasing (map number (first_items n xs))
  unfolding first_items
  Increasing-first_items zero xs i = tt
  Increasing-first_items (suc n) [] i = tt
  Increasing-first_items (suc n) (x ∷ xs) i =
      (above_first_items (λ m. number x < m) n xs i.0, Increasing-first_items n xs i.1)

  length-first_items : (n : ℕ) (xs : List T) → length (first_items n xs) ≤ n
  unfolding first_items
  length-first_items zero xs = omega arith
  length-first_items (suc n) [] = omega arith
  length-first_items (suc n) (x ∷ xs) = omega (arith, length-first_items n xs)

  first-All : (x p : ℕ) (ys : List ℕ) → All (λ y. x < y) ys → contains ys p ≡ true → x < p
  unfolding contains
  first-All x p [] a h = absurd (ground arith)
  first-All x p (y ∷ ys) a h = ground (arith, first-All x p ys a.1)

  -- A number of an increasing list is among the first, or these are as many as asked and below it.
  first_items_split :
      (n : ℕ) (xs : List T) (p : ℕ)
      → Increasing (map number xs)
      → contains (map number xs) p ≡ true
      → (contains (map number (first_items n xs)) p ≡ true)
        ⊎ ((length (first_items n xs) ≡ n) × All (λ m. m < p) (map number (first_items n xs)))
  unfolding first_items contains
  first_items_split zero xs p i h = inr (refl, tt)
  first_items_split (suc n) [] p i h = absurd (ground arith)
  first_items_split (suc n) (x ∷ xs) p i h = elim (Bool-cases (number x == p)) [
    | inl t ↦ inl (ground arith)
    | inr f ↦
        let there : contains (map number xs) p ≡ true = ground arith in
        elim (first_items_split n xs p i.1 there) [
          | inl found ↦ inl (ground arith)
          | inr (full, below) ↦
              inr (omega arith, (first-All (number x) p (map number xs) i.0 there, below))
        ]
  ]

module _ (snapshot : CapabilitySnapshot) where
  abbrev reachable : SnapshotSocket → Bool
  reachable s = socket_reachable s snapshot.uid snapshot.v6

  -- A socket of the observation that is reachable and has the least inode of its port.
  pub record IsShown (s : SnapshotSocket) : Type 0 where
    pub observed : contains snapshot.sockets s ≡ true
    pub reachable : socket_reachable s snapshot.uid snapshot.v6 ≡ true
    pub least :
        (t : SnapshotSocket)
        → contains snapshot.sockets t ≡ true
        → socket_reachable t snapshot.uid snapshot.v6 ≡ true
        → t.port ≡ s.port
        → s.inode ≤ t.inode

  abbrev best : Map ℕ SnapshotSocket
  best = best_sockets snapshot.uid snapshot.v6 [] snapshot.sockets

  best-IsShown : (p : ℕ) (s : SnapshotSocket) → lookup p best ≡ some s → IsShown s
  unfolding lookup
  best-IsShown p s h =
      let b = best_sockets-IsBest snapshot.uid snapshot.v6 p snapshot.sockets [] in
      elim (b.from s h) [
        | inl none_is_some ↦ absurd (ground arith)
        | inr (c, r, q) ↦ record {
          observed = c;
          reachable = r;
          least = λ t ct rt e. let (s', e', le) = b.least t ct rt (e ∙ q) in ground arith;
        }
      ]

  has-best :
      (t : SnapshotSocket)
      → contains snapshot.sockets t ≡ true
      → reachable t ≡ true
      → has t.port best ≡ true
  has-best t c r =
      let b = best_sockets-IsBest snapshot.uid snapshot.v6 t.port snapshot.sockets [] in
      let (s, e, h) = b.least t c r refl in ap is_some e

  -- `classify` looks at sockets in strictly ascending order of their ports, at most 256 of them; each
  -- is reachable and has the least inode of the reachable ones of its port; and the port of every
  -- reachable socket is among these, or they are 256 lower ones.
  pub reachable_sockets_lem :
      Increasing (ports_of (reachable_sockets snapshot))
      × (length (reachable_sockets snapshot) ≤ 256)
      × All IsShown (reachable_sockets snapshot)
      × ((t : SnapshotSocket)
          → contains snapshot.sockets t ≡ true
          → reachable t ≡ true
          → (contains (ports_of (reachable_sockets snapshot)) t.port ≡ true)
            ⊎ ((length (reachable_sockets snapshot) ≡ 256)
                × All (λ p. p < t.port) (ports_of (reachable_sockets snapshot))))
  unfolding reachable_sockets lookup
  reachable_sockets_lem =
      let port_of = λ (s : SnapshotSocket). s.port in
      let (keyed, unique) =
        best_sockets-IsKeyed snapshot.uid snapshot.v6 snapshot.sockets [] tt tt in
      let all = sort_func by_socket_port (values best) in
      let ascending : Increasing (ports_of all) =
        Increasing-of_Sorted port_of all
          (sort_func-Sorted by_socket_port (by_number-IsOrder port_of) (values best))
          (Distinct-sort_func by_socket_port port_of (values best)
            (Distinct-values best keyed unique)) in
      (
        Increasing-first_items port_of 256 all ascending,
        length-first_items port_of 256 all,
        All-first_items port_of IsShown 256 all (
            All-sort_func by_socket_port IsShown (values best)
              (All-values IsShown best unique best-IsShown)),
        λ t c r. first_items_split port_of 256 all t.port ascending (
            contains-sort_func by_socket_port port_of (values best) t.port
            ∙ ports_of_values best keyed t.port
            ∙ has-best t c r),
      )
