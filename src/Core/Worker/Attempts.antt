-- ===== src/Core/Worker/Attempts.antt =====
-- Which targets a round of a worker tries.
use mathlib.Core.Path.{subst}
use ssh_forward.Core.Types.{
  DesiredForward, Error, ForwardDirection, ForwardTarget, direction_eq, error_diagnostic, key_eq,
  state_eq, target_eq,
}
use ssh_forward.Core.Worker.{
  Surroundings, attempts, candidate_at, falls_back, forward_once, local_port_conflict,
  local_port_reserved_error, maximum_offset, maximum_tcp_port,
}
use ssh_forward.Prelude.{
  ==_refl, All, List, Option, [], arith, bool_eq, contains, false, if_intro, ltb, nat_eq, none, not,
  refl, some, str_eq, suc, sym, true, zero, ℕ, ℕ_discrete, ◌&&◌, ◌+◌, ◌<◌, ◌==◌, ◌∷◌, ◌≡◌, ◌≤◌, ◌⊎◌,
}

module _ (around : Surroundings) (d : DesiredForward) where
  -- A target that the round may try: the wanted one, but for a local port that is `i` higher, still is
  -- a port, and is not reserved when it is an import's.
  pub record IsAllowed (lowest beyond : ℕ) (t : ForwardTarget) : Type 0 where
    pub same_direction : t.direction ≡ d.preferred.direction
    pub same_remote : t.remote_port ≡ d.preferred.remote_port
    pub offset : ℕ
    pub from : lowest ≤ offset
    pub below : offset < beyond
    pub shifted : t.local_port ≡ d.preferred.local_port + offset
    pub a_port : t.local_port ≤ maximum_tcp_port
    pub free :
        (t.direction == ForwardDirection.remote_to_local && around.reserved offset t.local_port)
        ≡ false

  -- Each target's local port is above those before it.
  abbrev pub Climbs : List ForwardTarget → Type 0
  Climbs [] = Unit {0}
  Climbs (t ∷ ts) = All (λ (u : ForwardTarget). t.local_port < u.local_port) ts × Climbs ts

  here-IsAllowed :
      (rounds offset : ℕ)
      → ltb maximum_tcp_port (d.preferred.local_port + offset) ≡ false
      → (d.preferred.direction == ForwardDirection.remote_to_local
          && around.reserved offset (candidate_at d offset).local_port)
        ≡ false
      → IsAllowed offset (offset + suc rounds) (candidate_at d offset)
  unfolding candidate_at
  here-IsAllowed rounds offset h f = record {
    same_direction = refl;
    same_remote = refl;
    offset = offset;
    from = omega arith;
    below = omega arith;
    shifted = ground arith;
    a_port = ground arith;
    free = f;
  }

  later-IsAllowed :
      (rounds offset : ℕ) (ts : List ForwardTarget)
      → All (IsAllowed (offset + 1) (offset + 1 + rounds)) ts
      → All (IsAllowed offset (offset + suc rounds)) ts
  later-IsAllowed rounds offset [] a = tt
  later-IsAllowed rounds offset (t ∷ ts) a = (
    record {
      same_direction = a.0.same_direction;
      same_remote = a.0.same_remote;
      offset = a.0.offset;
      from = omega arith;
      below = omega arith;
      shifted = a.0.shifted;
      a_port = a.0.a_port;
      free = a.0.free;
    },
    later-IsAllowed rounds offset ts a.1,
  )

  above_here :
      (rounds offset : ℕ) (ts : List ForwardTarget)
      → ltb maximum_tcp_port (d.preferred.local_port + offset) ≡ false
      → All (IsAllowed (offset + 1) (offset + 1 + rounds)) ts
      → All (λ (u : ForwardTarget). (candidate_at d offset).local_port < u.local_port) ts
  unfolding candidate_at
  above_here rounds offset [] h a = tt
  above_here rounds offset (t ∷ ts) h a =
      (ground (arith, a.0.from, a.0.shifted), above_here rounds offset ts h a.1)

  abbrev Good : ℕ → ℕ → List ForwardTarget × Option Error → Type 0
  Good rounds offset r = All (IsAllowed offset (offset + rounds)) r.0 × Climbs r.0

  attempts-Good :
      (rounds offset : ℕ) (last : Option Error)
      → Good rounds offset (attempts around d rounds offset last)
  unfolding attempts
  attempts-Good zero offset last = (tt, tt)
  attempts-Good (suc rounds) offset last =
      let e = around.outcome offset (candidate_at d offset) in
      let skip = attempts-Good rounds (offset + 1) (some local_port_reserved_error) in
      let rest = attempts-Good rounds (offset + 1) e in
      if_intro (Good (suc rounds) offset) (ltb maximum_tcp_port (d.preferred.local_port + offset)) _
        _ (λ _. (tt, tt))
        (λ h.
          if_intro (Good (suc rounds) offset)
            (d.preferred.direction == ForwardDirection.remote_to_local
              && around.reserved offset (candidate_at d offset).local_port)
            _ _ (λ _. (later-IsAllowed rounds offset _ skip.0, skip.1))
            (λ f.
              let one = here-IsAllowed rounds offset h f in
              if_intro (Good (suc rounds) offset) (around.cancelled offset) _ _
                (λ _. ((one, tt), (tt, tt)))
                (λ _.
                  if_intro (Good (suc rounds) offset) (not (falls_back around d e)) _ _
                    (λ _. ((one, tt), (tt, tt)))
                    (λ _. (
                      (one, later-IsAllowed rounds offset _ rest.0),
                      (above_here rounds offset _ h rest.0, rest.1),
                    )))))

  maximum_offset-le : maximum_offset d ≤ 20
  unfolding maximum_offset
  maximum_offset-le = ground arith

  maximum_offset_import :
      d.allow_fallback ≡ true
      → d.preferred.direction ≡ ForwardDirection.remote_to_local
      → maximum_offset d ≡ 20
  unfolding maximum_offset
  maximum_offset_import h k = ground arith

  -- A round tries only targets that the wanted forward allows: the direction and the remote port are
  -- kept, the local port is above the preferred one by at most `maximum_offset`, never above 65535,
  -- and for an import it was not reserved when it was tried (a publication may be tried on a reserved
  -- port); the local ports climb from one attempt to the next. The offset is at most 20.
  pub forward_once-IsAllowed :
      All (IsAllowed 0 (maximum_offset d + 1)) (forward_once around d).0
      × Climbs (forward_once around d).0
      × (maximum_offset d ≤ 20)
  unfolding forward_once
  forward_once-IsAllowed =
      let r = attempts-Good (suc (maximum_offset d)) 0 none in
      (
        subst (λ b. All (IsAllowed 0 b) (forward_once around d).0) (omega arith) r.0,
        r.1,
        maximum_offset-le,
      )

  maximum_offset_zero :
      (d.preferred.direction == ForwardDirection.remote_to_local && d.allow_fallback) ≡ false
      → maximum_offset d ≡ 0
  unfolding maximum_offset
  maximum_offset_zero h = rw h

  candidate_at_zero : d.preferred.local_port ≤ maximum_tcp_port → candidate_at d 0 ≡ d.preferred
  unfolding candidate_at
  candidate_at_zero h = ground arith

  one_attempt :
      d.preferred.local_port ≤ maximum_tcp_port
      → (last : Option Error)
      → ((attempts around d 1 0 last).0 ≡ []) ⊎ ((attempts around d 1 0 last).0 ≡ d.preferred ∷ [])
  unfolding attempts
  one_attempt h last = ground (arith, candidate_at_zero h)

  -- A publication, or an import without fallback, is tried at its exact target or not at all.
  pub forward_once_strict :
      d.preferred.local_port ≤ maximum_tcp_port
      → (d.preferred.direction == ForwardDirection.remote_to_local && d.allow_fallback) ≡ false
      → ((forward_once around d).0 ≡ []) ⊎ ((forward_once around d).0 ≡ d.preferred ∷ [])
  unfolding forward_once
  forward_once_strict h strict = rw (maximum_offset_zero strict) (one_attempt h none)

  module _ (fallback : d.allow_fallback ≡ true) (running : (j : ℕ) → around.cancelled j ≡ false)
      (conflicts : (j : ℕ) (t : ForwardTarget)
        → error_diagnostic (around.outcome j t) ≡ local_port_conflict) where
    falls_back_here : (j : ℕ) (t : ForwardTarget) → falls_back around d (around.outcome j t) ≡ true
    unfolding falls_back
    falls_back_here j t = rw (fallback, conflicts j t) (==_refl local_port_conflict)

    -- A candidate that is a port and is not reserved is tried.
    tries_here :
        (rounds offset : ℕ) (last : Option Error)
        → ltb maximum_tcp_port (d.preferred.local_port + offset) ≡ false
        → (d.preferred.direction == ForwardDirection.remote_to_local
            && around.reserved offset (candidate_at d offset).local_port)
          ≡ false
        → contains (attempts around d (suc rounds) offset last).0 (candidate_at d offset) ≡ true
    unfolding attempts contains
    tries_here rounds offset last port free = ground (
      arith,
      running offset,
      falls_back_here offset (candidate_at d offset),
      ==_refl (candidate_at d offset),
    )

    -- The round goes on to the next offset, whatever the last error.
    tries_later :
        (rounds offset : ℕ) (last : Option Error) (t : ForwardTarget)
        → ltb maximum_tcp_port (d.preferred.local_port + offset) ≡ false
        → ((last' : Option Error)
            → contains (attempts around d rounds (offset + 1) last').0 t ≡ true)
        → contains (attempts around d (suc rounds) offset last).0 t ≡ true
    unfolding attempts contains
    tries_later rounds offset last t port rest = ground (
      arith,
      running offset,
      falls_back_here offset (candidate_at d offset),
      rest (some local_port_reserved_error),
      rest (around.outcome offset (candidate_at d offset)),
    )

    attempts_exhaustive :
        (rounds offset : ℕ) (last : Option Error) (i : ℕ)
        → offset ≤ i
        → i < offset + rounds
        → d.preferred.local_port + i ≤ maximum_tcp_port
        → (d.preferred.direction == ForwardDirection.remote_to_local
            && around.reserved i (candidate_at d i).local_port)
          ≡ false
        → contains (attempts around d rounds offset last).0 (candidate_at d i) ≡ true
    attempts_exhaustive zero offset last i from below port free = absurd (omega arith)
    attempts_exhaustive (suc rounds) offset last i from below port free =
        elim (ℕ_discrete offset i) [
          | yes here ↦
              subst
                (λ k. contains (attempts around d (suc rounds) k last).0 (candidate_at d i) ≡ true)
                (sym here) (tries_here rounds i last (ground arith) free)
          | no later ↦ tries_later rounds offset last (candidate_at d i) (ground arith) (λ last'.
              attempts_exhaustive rounds (offset + 1) last' i (omega arith) (omega arith) port free)
        ]

    -- While the worker runs and every target that it tries is in conflict, a round with fallback tries
    -- every port up to 20 above the preferred one that is a port and is not reserved.
    pub forward_once_exhaustive :
        (d.preferred.direction ≡ ForwardDirection.remote_to_local)
        → (i : ℕ) → i ≤ 20
        → d.preferred.local_port + i ≤ maximum_tcp_port
        → around.reserved i (candidate_at d i).local_port ≡ false
        → contains (forward_once around d).0 (candidate_at d i) ≡ true
    unfolding forward_once
    forward_once_exhaustive import' i below port free =
        attempts_exhaustive (suc (maximum_offset d)) 0 none i (omega arith)
          (omega (arith, maximum_offset_import fallback import')) port (ground arith)
