-- ===== src/Openssh/Scanner/Known.antt =====
-- What a round of the scanner shows of each port, and what it remembers.
use ssh_forward.Core.Types.{direction_eq, key_eq, state_eq, target_eq}
use ssh_forward.Openssh.Scanner.{
  Classified, apply_banners, classify, classify_sockets, is_cached, is_gone, learn_banners,
  scan_round, sshd,
}
use ssh_forward.Openssh.Scanner.Round.{
  app_of, classify_sockets-Tracks, is_probed, is_shown, kept, listed, listed-hide_known,
  lookup-learn_banners, shows_ssh, socket_at,
}
use ssh_forward.Openssh.Snapshot.{
  CapabilitySnapshot, SnapshotBanner, SnapshotSocket, reachable_sockets, socket_eq,
}
use ssh_forward.Openssh.Snapshot.Reachable.{reachable_sockets_lem}
use ssh_forward.Prelude.{
  ==_refl, Bool, Distinct-of_Increasing, List, Map, Option, [], arith, bool_eq, contains, delete_if,
  false, if◌then◌else◌, is_some, lookup, lookup-delete_if, nat_eq, none, not, or_else, refl, some,
  str_eq, ℕ, ◌&&◌, ◌==◌, ◌||◌, ◌∙◌, ◌≡◌,
}

module _ (snapshot : CapabilitySnapshot) (banners : List SnapshotBanner)
    (known : Map ℕ SnapshotSocket) (p : ℕ) where
  -- The socket of the port was known to be an SSH server's, or its process is not, and it sent the
  -- banner of one.
  abbrev pub is_ssh : SnapshotSocket → Bool
  is_ssh s = is_cached (lookup p known) s || app_of snapshot s == [] && shows_ssh p banners

  abbrev pub known_after : Option SnapshotSocket → Option SnapshotSocket
  known_after none = none
  known_after (some s) = if is_ssh s then some s else none

  abbrev pub shown_after : Option SnapshotSocket → Bool
  shown_after none = false
  shown_after (some s) = not (is_ssh s) && not (app_of snapshot s == sshd)

  known_lem :
      (found learned present cached : Option SnapshotSocket)
      → present ≡ or_else found none
      → learned ≡ (
          if is_probed snapshot found cached && shows_ssh p banners
          then or_else present (kept found cached)
          else kept found cached)
      → cached ≡ lookup p known
      → (if is_gone learned present then none else learned) ≡ known_after found
  known_lem none learned present cached e1 e2 e3 = ground arith
  known_lem (some s) learned present none e1 e2 e3 = ground (arith, ==_refl s)
  known_lem (some s) learned present (some c) e1 e2 e3 = ground (arith, ==_refl s)

  shown_lem :
      (found : Option SnapshotSocket) (shown : Bool) (after : Option SnapshotSocket)
      → shown ≡ is_shown snapshot found (lookup p known)
      → after ≡ known_after found
      → (shown && not (is_some after)) ≡ shown_after found
  shown_lem none shown after e1 e2 = ground arith
  shown_lem (some s) shown after e1 e2 = ground arith

  -- Of a port a round remembers its reachable socket among those looked at, which are at most 256,
  -- exactly when this socket was remembered before or its process has no name and it sent the banner
  -- of an SSH server. It shows the port exactly when there is such a socket, it is not remembered, and
  -- its process is not named sshd.
  pub scan_round_lem :
      (lookup p (scan_round snapshot banners known).1
        ≡ known_after (socket_at p (reachable_sockets snapshot)))
      × (listed p (scan_round snapshot banners known).0
          ≡ shown_after (socket_at p (reachable_sockets snapshot)))
  unfolding scan_round classify apply_banners contains lookup listed
  scan_round_lem =
      let start : Classified = record {
        known_ssh = known;
        listeners = [];
        probe = [];
        present = [];
      } in
      let sockets = reachable_sockets snapshot in
      let c = classify_sockets snapshot sockets start in
      let tracks = classify_sockets-Tracks snapshot p sockets start (
        Distinct-of_Increasing (λ (s : SnapshotSocket). s.port) sockets
          (reachable_sockets_lem snapshot).0) in
      let learned = learn_banners c.probe c.present banners c.known_ssh in
      let cached = lookup p known in
      let found = socket_at p sockets in
      let gone = λ (j : ℕ). is_gone (lookup j learned) (lookup j c.present) in
      let probing : contains c.probe p ≡ is_probed snapshot found cached = tracks.probe in
      let after : lookup p (delete_if gone learned) ≡ known_after found =
        lookup-delete_if gone p learned
        ∙ known_lem found (lookup p learned) (lookup p c.present) cached tracks.present
            (lookup-learn_banners p c.probe c.present banners c.known_ssh
              ∙ rw (probing, tracks.known) refl)
            refl in
      (
        after,
        listed-hide_known p (delete_if gone learned) c.listeners
            ∙ shown_lem found (listed p c.listeners) (lookup p (delete_if gone learned))
                tracks.listeners after,
      )
