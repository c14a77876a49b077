-- ===== src/Core/Desired/Selection.antt =====
-- What `buildDesiredForwards` selects, key by key.
use mathlib.Core.Option
use ssh_forward.Core.Desired.{
  DesiredMap, Doublestar, add_listeners, add_published, add_remembered, app_ignored,
  auto_candidates, build_desired_forwards, candidate_for, desired_automatic_forward,
  desired_published_forward, desired_remembered_forward, matches_working_directory,
  select_candidate,
}
use ssh_forward.Core.Types.{
  DesiredForward, ForwardDirection, ForwardDirection-discrete, ForwardKey, Listener,
  PublishedForward, RememberedForward, direction_eq, key, key_eq, state_eq, target_eq,
}
use ssh_forward.Prelude.{
  List, Map, Option, Option-cases, Str, Unique, [], arith, contains, find_first, find_first_number,
  find_last, if◌then◌else◌, inl, inr, insert, lookup, lookup-insert, map, nat_eq, none, not,
  or_else, refl, some, str_eq, true, ℕ, ◌&&◌, ◌==◌, ◌∙◌, ◌∷◌, ◌≡◌,
}

abbrev pub import_key : ℕ → ForwardKey
import_key p = record { direction = ForwardDirection.remote_to_local; service_port = p }

abbrev pub publish_key : ℕ → ForwardKey
publish_key p = record { direction = ForwardDirection.local_to_remote; service_port = p }

abbrev pub remembered_at : List RememberedForward → ℕ → Option RememberedForward
remembered_at fs p = find_last (λ (f : RememberedForward). f.remote_port) p fs

abbrev pub published_at : List PublishedForward → ℕ → Option PublishedForward
published_at fs p = find_last (λ (f : PublishedForward). f.local_port) p fs

abbrev pub auto_at : List RememberedForward → ℕ → Option RememberedForward
auto_at fs p = find_first (λ (f : RememberedForward). f.remote_port) p fs

key-desired_remembered_forward :
    (f : RememberedForward) → key (desired_remembered_forward f) ≡ import_key f.remote_port
unfolding key desired_remembered_forward ForwardDirection-discrete
key-desired_remembered_forward f = refl

key-desired_published_forward :
    (f : PublishedForward) → key (desired_published_forward f) ≡ publish_key f.local_port
unfolding key desired_published_forward ForwardDirection-discrete
key-desired_published_forward f = refl

import_at-add_remembered :
    (m : DesiredMap) (fs : List RememberedForward) (p : ℕ)
    → lookup (import_key p) (add_remembered m fs)
      ≡ or_else
          (Option.map desired_remembered_forward (remembered_at fs p))
          (lookup (import_key p) m)
unfolding add_remembered find_last
import_at-add_remembered m [] p = refl
import_at-add_remembered m (f ∷ fs) p = ground (
  arith,
  import_at-add_remembered
      (insert (key (desired_remembered_forward f)) (desired_remembered_forward f) m) fs p,
  lookup-insert (key (desired_remembered_forward f)) (import_key p) (desired_remembered_forward f)
      m,
  key-desired_remembered_forward f,
)

publish_at-add_remembered :
    (m : DesiredMap) (fs : List RememberedForward) (p : ℕ)
    → lookup (publish_key p) (add_remembered m fs) ≡ lookup (publish_key p) m
unfolding add_remembered
publish_at-add_remembered m [] p = refl
publish_at-add_remembered m (f ∷ fs) p = ground (
  arith,
  publish_at-add_remembered
      (insert (key (desired_remembered_forward f)) (desired_remembered_forward f) m) fs p,
  lookup-insert (key (desired_remembered_forward f)) (publish_key p) (desired_remembered_forward f)
      m,
  key-desired_remembered_forward f,
)

publish_at-add_published :
    (m : DesiredMap) (fs : List PublishedForward) (p : ℕ)
    → lookup (publish_key p) (add_published m fs)
      ≡ or_else
          (Option.map desired_published_forward (published_at fs p))
          (lookup (publish_key p) m)
unfolding add_published find_last
publish_at-add_published m [] p = refl
publish_at-add_published m (f ∷ fs) p = ground (
  arith,
  publish_at-add_published
      (insert (key (desired_published_forward f)) (desired_published_forward f) m) fs p,
  lookup-insert (key (desired_published_forward f)) (publish_key p) (desired_published_forward f) m,
  key-desired_published_forward f,
)

import_at-add_published :
    (m : DesiredMap) (fs : List PublishedForward) (p : ℕ)
    → lookup (import_key p) (add_published m fs) ≡ lookup (import_key p) m
unfolding add_published
import_at-add_published m [] p = refl
import_at-add_published m (f ∷ fs) p = ground (
  arith,
  import_at-add_published
      (insert (key (desired_published_forward f)) (desired_published_forward f) m) fs p,
  lookup-insert (key (desired_published_forward f)) (import_key p) (desired_published_forward f) m,
  key-desired_published_forward f,
)

lookup-auto_candidates :
    (m : Map ℕ DesiredForward) (fs : List RememberedForward) (p : ℕ)
    → lookup p (auto_candidates m fs)
      ≡ or_else (lookup p m) (Option.map desired_remembered_forward (auto_at fs p))
unfolding auto_candidates find_first
lookup-auto_candidates m [] p = ground arith
lookup-auto_candidates m (f ∷ fs) p = ground (
  arith,
  lookup-auto_candidates m fs p,
  lookup-auto_candidates (insert f.remote_port (desired_remembered_forward f) m) fs p,
  lookup-insert f.remote_port p (desired_remembered_forward f) m,
)

key-desired_automatic_forward : (p : ℕ) → key (desired_automatic_forward p) ≡ import_key p
unfolding key desired_automatic_forward ForwardDirection-discrete
key-desired_automatic_forward p = refl

abbrev as_automatic : DesiredForward → DesiredForward
as_automatic c = record c { automatic = true }

-- Every candidate that a map of rules offers for a port has that port's key.
abbrev IsKeyed : Map ℕ DesiredForward → Type 0
IsKeyed automatic =
    (p : ℕ) (c : DesiredForward) → lookup p automatic ≡ some c → key c ≡ import_key p

auto_candidates-IsKeyed : (fs : List RememberedForward) → IsKeyed (auto_candidates [] fs)
unfolding lookup
auto_candidates-IsKeyed fs p c h = elim (Option-cases (auto_at fs p)) [
  | inl e ↦ cc (lookup-auto_candidates [] fs p, e, h)
  | inr (f, e) ↦ ground (
    arith,
    lookup-auto_candidates [] fs p,
    key-desired_remembered_forward f,
    find_first_number (λ (f : RememberedForward). f.remote_port) p fs f e,
  )
]

module _ (glob : Doublestar) (automatic : Map ℕ DesiredForward) (rules ignored : List Str)
    (keyed : IsKeyed automatic) where
  key-candidate_for :
      (p : ℕ) (l : Listener) (c : DesiredForward)
      → candidate_for glob automatic rules ignored p l ≡ some c
      → key c ≡ import_key p
  unfolding candidate_for
  key-candidate_for p l c h = ground (arith, keyed p c, key-desired_automatic_forward p)

  import_at-select_candidate :
      (published : List ℕ) (port p : ℕ) (o : Option DesiredForward) (desired : DesiredMap)
      → ((c : DesiredForward) → o ≡ some c → key c ≡ import_key port)
      → lookup (import_key p) (select_candidate published port o desired)
        ≡ or_else
            (lookup (import_key p) desired)
            (if port == p && not (contains published p) then Option.map as_automatic o else none)
  unfolding select_candidate
  import_at-select_candidate published port p none desired k = ground arith
  import_at-select_candidate published port p (some c) desired k =
      ground (arith, k c refl, lookup-insert (key c) (import_key p) (as_automatic c) desired)

  publish_at-select_candidate :
      (published : List ℕ) (port p : ℕ) (o : Option DesiredForward) (desired : DesiredMap)
      → ((c : DesiredForward) → o ≡ some c → key c ≡ import_key port)
      → lookup (publish_key p) (select_candidate published port o desired)
        ≡ lookup (publish_key p) desired
  unfolding select_candidate
  publish_at-select_candidate published port p none desired k = refl
  publish_at-select_candidate published port p (some c) desired k =
      ground (arith, k c refl, lookup-insert (key c) (publish_key p) (as_automatic c) desired)

  publish_at-add_listeners :
      (published : List ℕ) (ls : Map ℕ Listener) (desired : DesiredMap) (p : ℕ)
      → lookup (publish_key p) (add_listeners glob automatic rules ignored published ls desired)
        ≡ lookup (publish_key p) desired
  unfolding add_listeners
  publish_at-add_listeners published [] desired p = refl
  publish_at-add_listeners published ((port, l) ∷ ls) desired p =
      publish_at-add_listeners published ls _ p
      ∙ publish_at-select_candidate published port p _ desired (key-candidate_for port l)

  abbrev automatic_at : List ℕ → Map ℕ Listener → ℕ → Option DesiredForward
  automatic_at published ls p = if contains published p then none else elim (lookup p ls) [
    | none ↦ none
    | some l ↦ Option.map as_automatic (candidate_for glob automatic rules ignored p l)
  ]

  import_at-add_listeners :
      (published : List ℕ) (ls : Map ℕ Listener) (desired : DesiredMap) (p : ℕ)
      → Unique ls
      → lookup (import_key p) (add_listeners glob automatic rules ignored published ls desired)
        ≡ or_else (lookup (import_key p) desired) (automatic_at published ls p)
  unfolding add_listeners lookup
  import_at-add_listeners published [] desired p u = ground arith
  import_at-add_listeners published ((port, l) ∷ ls) desired p u =
      let o = candidate_for glob automatic rules ignored port l in
      import_at-add_listeners published ls (select_candidate published port o desired) p u.1
      ∙ ground
          (arith, import_at-select_candidate published port p o desired (key-candidate_for port l))

module _ (glob : Doublestar) (remembered : List RememberedForward)
    (published : List PublishedForward) (listeners : Map ℕ Listener) (rules ignored : List Str)
    (autos : List RememberedForward) where
  -- What a listener is forwarded as when no remembered forward claims its port.
  abbrev pub expected_automatic : ℕ → Listener → Option DesiredForward
  expected_automatic p l = if app_ignored ignored l.app then none else elim (auto_at autos p) [
    | some f ↦ some (as_automatic (desired_remembered_forward f))
    | none ↦
        if matches_working_directory glob rules l.working_directory
        then some (desired_automatic_forward p)
        else none
  ]

  -- A remembered forward comes first, then a publication that holds the remote port excludes the
  -- port, then the listener decides.
  abbrev pub expected_import : ℕ → Option DesiredForward
  expected_import p = or_else (Option.map desired_remembered_forward (remembered_at remembered p)) (
      if contains (map (λ (f : PublishedForward). f.remote_port) published) p
      then none
      else elim (lookup p listeners) [ none ↦ none | some l ↦ expected_automatic p l ])

  candidate_for-eq-expected :
      (p : ℕ) (l : Listener)
      → Option.map as_automatic (candidate_for glob (auto_candidates [] autos) rules ignored p l)
        ≡ expected_automatic p l
  unfolding candidate_for lookup desired_automatic_forward
  candidate_for-eq-expected p l = ground (arith, lookup-auto_candidates [] autos p)

  expected_automatic_at :
      (p : ℕ) (o : Option Listener)
      → elim o [
        | none ↦ none
        | some l ↦
            Option.map as_automatic
              (candidate_for glob (auto_candidates [] autos) rules ignored p l)
      ]
        ≡ elim o [ none ↦ none | some l ↦ expected_automatic p l ]
  expected_automatic_at p none = refl
  expected_automatic_at p (some l) = candidate_for-eq-expected p l

  -- For every port, the import that `buildDesiredForwards` wants is exactly the one that the rules
  -- ask for, and so is the publication; the listeners are a map without repeated ports.
  pub lookup-build_desired_forwards :
      Unique listeners
      → (p : ℕ)
      → (lookup
            (import_key p)
            (build_desired_forwards glob remembered published listeners rules ignored autos)
          ≡ expected_import p)
        × (lookup
              (publish_key p)
              (build_desired_forwards glob remembered published listeners rules ignored autos)
            ≡ Option.map desired_published_forward (published_at published p))
  unfolding build_desired_forwards lookup
  lookup-build_desired_forwards u p =
      let automatic = auto_candidates [] autos in
      let explicit = add_published (add_remembered [] remembered) published in
      let ports = map (λ (f : PublishedForward). f.remote_port) published in
      let keyed = auto_candidates-IsKeyed autos in
      (
        ground (
          arith,
          import_at-add_listeners glob automatic rules ignored keyed ports listeners explicit p u,
          import_at-add_published (add_remembered [] remembered) published p,
          import_at-add_remembered [] remembered p,
          expected_automatic_at p (lookup p listeners),
        ),
        ground (
          arith,
          publish_at-add_listeners glob automatic rules ignored keyed ports listeners explicit p,
          publish_at-add_published (add_remembered [] remembered) published p,
          publish_at-add_remembered [] remembered p,
        ),
      )
