-- ===== src/Core/Normalize/Ports.antt =====
-- The normal forms of remembered and of published forwards.
use mathlib.Core.List.{Perm}
use ssh_forward.Core.Normalize.{
  normalize_published_forward, normalize_published_forwards, normalize_remembered_forward,
  normalize_remembered_forwards,
}
use ssh_forward.Core.Normalize.Laws.{
  IsCanonical, IsFilledBy, normalize-IsCanonical, normalize_complete, normalize_of_IsCanonical,
  normalize_sound,
}
use ssh_forward.Core.Normalize.Loop.{all_defaults}
use ssh_forward.Core.Types.{
  PublishedForward, RememberedForward, direction_eq, key_eq, published_with_defaults,
  remembered_with_defaults, state_eq, target_eq,
}
use ssh_forward.Prelude.{
  All, Distinct, List, [], arith, bool_eq, by_source, bytes, if◌then◌else◌, map, nat_eq, ok, refl,
  sort_func, sort_func-perm, str_eq, ℕ, ◌<◌, ◌==◌, ◌↔◌, ◌∷◌, ◌≡◌,
}

abbrev remote_of : RememberedForward → ℕ
remote_of f = f.remote_port

abbrev local_of : RememberedForward → ℕ
local_of f = f.local_port

-- The local port that a remembered forward stands for: its own, or the remote one where it has none.
abbrev pub effective_local : RememberedForward → ℕ
effective_local f = if f.local_port == 0 then f.remote_port else f.local_port

-- A remembered forward with its ports written out.
pub record IsExplicit (f : RememberedForward) : Type 0 where
  pub remote : 0 < f.remote_port
  pub local : 0 < f.local_port

remembered-IsFilledBy :
    IsFilledBy normalize_remembered_forward remote_of local_of
      (bytes "remote")
      (bytes "local")
      IsExplicit
unfolding normalize_remembered_forward remembered_with_defaults
remembered-IsFilledBy = record {
  filled = λ x y h. record { remote = ground arith; local = ground arith };
  kept = λ y v. ground (arith, v.remote, v.local);
}

-- Whatever `NormalizeRememberedForwards` accepts comes out with strictly increasing remote ports, no
-- local port twice, and every port written out.
pub normalize_remembered-IsCanonical :
    (fs out : List RememberedForward)
    → normalize_remembered_forwards fs ≡ ok out
    → IsCanonical remote_of local_of IsExplicit out
unfolding normalize_remembered_forwards
normalize_remembered-IsCanonical =
    normalize-IsCanonical normalize_remembered_forward remote_of local_of (bytes "remote")
      (bytes "local") IsExplicit remembered-IsFilledBy

-- Normalising again changes nothing.
pub normalize_remembered_idem :
    (fs out : List RememberedForward)
    → normalize_remembered_forwards fs ≡ ok out
    → normalize_remembered_forwards out ≡ ok out
unfolding normalize_remembered_forwards
normalize_remembered_idem fs out h =
    normalize_of_IsCanonical normalize_remembered_forward remote_of local_of (bytes "remote")
      (bytes "local") IsExplicit remembered-IsFilledBy out
      (normalize_remembered-IsCanonical fs out h)

abbrev pub AllPositive : List ℕ → Type 0
AllPositive = All (λ p. 0 < p)

all_defaults-remembered :
    (fs : List RememberedForward)
    → AllPositive (map remote_of fs)
    → all_defaults normalize_remembered_forward fs ≡ ok (map remembered_with_defaults fs)
unfolding all_defaults normalize_remembered_forward
all_defaults-remembered [] a = refl
all_defaults-remembered (f ∷ fs) a = ground (arith, all_defaults-remembered fs)

remembered_of_all_defaults :
    (fs ready : List RememberedForward)
    → all_defaults normalize_remembered_forward fs ≡ ok ready
    → AllPositive (map remote_of fs) × (ready ≡ map remembered_with_defaults fs)
unfolding all_defaults normalize_remembered_forward
remembered_of_all_defaults [] ready h = (tt, ground arith)
remembered_of_all_defaults (f ∷ fs) [] h = ground arith
remembered_of_all_defaults (f ∷ fs) (x ∷ ready) h =
    ground (arith, remembered_of_all_defaults fs ready)

remotes_kept :
    (fs : List RememberedForward)
    → map remote_of (map remembered_with_defaults fs) ≡ map remote_of fs
unfolding remembered_with_defaults
remotes_kept [] = refl
remotes_kept (f ∷ fs) = ground (arith, remotes_kept fs)

locals_filled :
    (fs : List RememberedForward)
    → map local_of (map remembered_with_defaults fs) ≡ map effective_local fs
unfolding remembered_with_defaults
locals_filled [] = refl
locals_filled (f ∷ fs) = ground (arith, locals_filled fs)

-- `NormalizeRememberedForwards` accepts a list exactly when every remote port is positive, no remote
-- port occurs twice, and no two forwards stand for the same local port; whatever it returns is a
-- permutation of the forwards with their defaults.
pub normalize_remembered_iff :
    (fs : List RememberedForward)
    → (((out : List RememberedForward) × (normalize_remembered_forwards fs ≡ ok out)) ↔ (
        AllPositive (map remote_of fs)
        × Distinct (map remote_of fs)
        × Distinct (map effective_local fs)))
      × ((out : List RememberedForward)
          → normalize_remembered_forwards fs ≡ ok out
          → Perm out (map remembered_with_defaults fs))
unfolding normalize_remembered_forwards
normalize_remembered_iff fs = (
  (
    λ (out, h).
        let (ready, c, _) =
          normalize_sound normalize_remembered_forward remote_of local_of (bytes "remote")
            (bytes "local") fs out h in
        let (positive, e) = remembered_of_all_defaults fs ready c.defaulted in
        (
          positive,
          rw (← remotes_kept fs, ← e) c.distinct_sources,
          rw (← locals_filled fs, ← e) c.distinct_targets,
        ),
    λ (positive, remotes, locals). (
      sort_func (by_source remote_of) (map remembered_with_defaults fs),
      normalize_complete normalize_remembered_forward remote_of local_of (bytes "remote")
          (bytes "local") fs _
          (record {
            defaulted = all_defaults-remembered fs positive;
            distinct_sources = rw (remotes_kept fs) remotes;
            distinct_targets = rw (locals_filled fs) locals;
          }),
    ),
  ),
  λ out h.
      let (ready, c, sorted) =
        normalize_sound normalize_remembered_forward remote_of local_of (bytes "remote")
          (bytes "local") fs out h in
      let (_, e) = remembered_of_all_defaults fs ready c.defaulted in
      rw (sorted, e) (sort_func-perm (by_source remote_of) (map remembered_with_defaults fs)),
)

abbrev service_of : PublishedForward → ℕ
service_of f = f.local_port

abbrev published_remote_of : PublishedForward → ℕ
published_remote_of f = f.remote_port

pub record IsExplicitPublication (f : PublishedForward) : Type 0 where
  pub local : 0 < f.local_port
  pub remote : 0 < f.remote_port

published-IsFilledBy :
    IsFilledBy normalize_published_forward service_of published_remote_of
      (bytes "published local")
      (bytes "published remote")
      IsExplicitPublication
unfolding normalize_published_forward published_with_defaults
published-IsFilledBy = record {
  filled = λ x y h. record { local = ground arith; remote = ground arith };
  kept = λ y v. ground (arith, v.remote, v.local);
}

-- Whatever `NormalizePublishedForwards` accepts comes out with strictly increasing local ports, no
-- remote port twice and every port written out, and is its own normal form.
pub normalize_published-IsCanonical :
    (fs out : List PublishedForward)
    → normalize_published_forwards fs ≡ ok out
    → IsCanonical service_of published_remote_of IsExplicitPublication out
      × (normalize_published_forwards out ≡ ok out)
unfolding normalize_published_forwards
normalize_published-IsCanonical fs out h =
    let c =
      normalize-IsCanonical normalize_published_forward service_of published_remote_of
        (bytes "published local") (bytes "published remote") IsExplicitPublication
        published-IsFilledBy fs out h in
    (
      c,
      normalize_of_IsCanonical normalize_published_forward service_of published_remote_of
          (bytes "published local") (bytes "published remote") IsExplicitPublication
          published-IsFilledBy out c,
    )
