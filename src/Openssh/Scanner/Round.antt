-- ===== src/Openssh/Scanner/Round.antt =====
-- One round of the scanner, port by port.
use ssh_forward.Core.Types.{Listener, direction_eq, key_eq, state_eq, target_eq}
use ssh_forward.Openssh.Scanner.{
  Classified, add_listener, classify_socket, classify_sockets, hide_known, is_cached, learn_banners,
  listener_of, sshd,
}
use ssh_forward.Openssh.Snapshot.{
  CapabilitySnapshot, SnapshotBanner, SnapshotSocket, metadata, socket_eq,
}
use ssh_forward.Openssh.Snapshot.Reachable.{ports_of}
use ssh_forward.Prelude.{
  Bool, Distinct, List, Map, Option, Option-cases, Str, [], arith, bool_eq, bytes, contains,
  contains-append, false, has, has_prefix, if◌then◌else◌, inl, inr, insert, lookup, lookup-delete,
  lookup-insert, nat_eq, none, not, or_else, refl, some, str_eq, ℕ, ◌&&◌, ◌++◌, ◌==◌, ◌||◌, ◌∷◌,
  ◌≡◌,
}

-- The socket of a port.
unfoldable pub socket_at : ℕ → List SnapshotSocket → Option SnapshotSocket
socket_at p [] = none
socket_at p (s ∷ rest) = let later = socket_at p rest in if s.port == p then some s else later

-- Whether a listener of this port is in the list.
unfoldable pub listed : ℕ → List Listener → Bool
listed p [] = false
listed p (l ∷ rest) = l.port == p || listed p rest

listed-append : (p : ℕ) (xs ys : List Listener) → listed p (xs ++ ys) ≡ (listed p xs || listed p ys)
unfolding listed
listed-append p [] ys = refl
listed-append p (x ∷ xs) ys = ground (arith, listed-append p xs ys)

socket_at-absent :
    (p : ℕ) (ss : List SnapshotSocket) → contains (ports_of ss) p ≡ false → socket_at p ss ≡ none
unfolding socket_at contains
socket_at-absent p [] h = refl
socket_at-absent p (s ∷ ss) h = ground (arith, socket_at-absent p ss)

-- What a classification does to the entry of a port whose socket is given.
abbrev pub kept : Option SnapshotSocket → Option SnapshotSocket → Option SnapshotSocket
kept none cached = cached
kept (some s) cached = if is_cached cached s then cached else none

module _ (snapshot : CapabilitySnapshot) where
  abbrev pub app_of : SnapshotSocket → Str
  app_of s = (metadata snapshot s).0

  abbrev pub is_shown : Option SnapshotSocket → Option SnapshotSocket → Bool
  is_shown none cached = false
  is_shown (some s) cached = not (is_cached cached s) && not (app_of s == sshd)

  abbrev pub is_probed : Option SnapshotSocket → Option SnapshotSocket → Bool
  is_probed none cached = false
  is_probed (some s) cached = not (is_cached cached s) && app_of s == []

  -- The entry of a port after the sockets.
  pub record Tracks (p : ℕ) (found : Option SnapshotSocket) (c out : Classified) : Type 0 where
    pub present : lookup p out.present ≡ or_else found (lookup p c.present)
    pub known : lookup p out.known_ssh ≡ kept found (lookup p c.known_ssh)
    pub listeners :
        listed p out.listeners ≡ (listed p c.listeners || is_shown found (lookup p c.known_ssh))
    pub probe :
        contains out.probe p ≡ (contains c.probe p || is_probed found (lookup p c.known_ssh))

  Tracks-classify_socket :
      (p : ℕ) (s : SnapshotSocket) (c : Classified)
      → Tracks p (if s.port == p then some s else none) c (classify_socket snapshot s c)
  unfolding classify_socket add_listener listed contains
  Tracks-classify_socket p s c = record {
    present = ground (arith, lookup-insert s.port p s c.present);
    known = ground (arith, lookup-delete s.port p c.known_ssh);
    listeners = ground (
      arith,
      listed-append p c.listeners
          (listener_of s (metadata snapshot s).0 (metadata snapshot s).1 ∷ []),
    );
    probe = ground (arith, contains-append c.probe (s.port ∷ []) p);
  }

  pub classify_sockets-Tracks :
      (p : ℕ) (ss : List SnapshotSocket) (c : Classified)
      → Distinct (ports_of ss)
      → Tracks p (socket_at p ss) c (classify_sockets snapshot ss c)
  unfolding classify_sockets socket_at
  classify_sockets-Tracks p [] c d = record {
    present = refl;
    known = refl;
    listeners = ground arith;
    probe = ground arith;
  }
  classify_sockets-Tracks p (s ∷ ss) c d =
      let here = Tracks-classify_socket p s c in
      let later = classify_sockets-Tracks p ss (classify_socket snapshot s c) d.1 in
      record {
        present = ground (arith, here.present, later.present, socket_at-absent p ss, d.0);
        known = ground (arith, here.known, later.known, socket_at-absent p ss, d.0);
        listeners =
            ground (arith, here.known, here.listeners, later.listeners, socket_at-absent p ss, d.0);
        probe = ground (arith, here.known, here.probe, later.probe, socket_at-absent p ss, d.0);
      }

-- Whether a port has sent the banner of an SSH server.
unfoldable pub shows_ssh : ℕ → List SnapshotBanner → Bool
shows_ssh p [] = false
shows_ssh p (b ∷ rest) = b.port == p && has_prefix b.banner (bytes "SSH-") || shows_ssh p rest

pub lookup-learn_banners :
    (p : ℕ) (probe : List ℕ) (present : Map ℕ SnapshotSocket) (bs : List SnapshotBanner)
    (known : Map ℕ SnapshotSocket)
    → lookup p (learn_banners probe present bs known) ≡ (
        if contains probe p && shows_ssh p bs
        then or_else (lookup p present) (lookup p known)
        else lookup p known)
unfolding learn_banners shows_ssh
lookup-learn_banners p probe present [] known = ground arith
lookup-learn_banners p probe present (b ∷ bs) known = elim (Option-cases (lookup b.port present)) [
  | inl e ↦ ground (arith, lookup-learn_banners p probe present bs known)
  | inr (s, e) ↦ ground (
    arith,
    lookup-learn_banners p probe present bs known,
    lookup-learn_banners p probe present bs (insert b.port s known),
    lookup-insert b.port p s known,
  )
]

pub listed-hide_known :
    (p : ℕ) (known : Map ℕ SnapshotSocket) (ls : List Listener)
    → listed p (hide_known known ls) ≡ (listed p ls && not (has p known))
unfolding hide_known listed
listed-hide_known p known [] = refl
listed-hide_known p known (l ∷ ls) = ground (arith, listed-hide_known p known ls)
