-- ===== src/Core/Desired/Keyed.antt =====
-- The map of wanted forwards holds each forward under its own key.
use ssh_forward.Core.Desired.{
  DesiredMap, Doublestar, add_listeners, add_published, add_remembered, build_desired_forwards,
  candidate_for, desired_published_forward, desired_remembered_forward, select_candidate,
}
use ssh_forward.Core.Types.{
  DesiredForward, ForwardKey, Listener, PublishedForward, RememberedForward, direction_eq, key,
  key_eq, state_eq, target_eq,
}
use ssh_forward.Prelude.{
  Bool-cases, List, Map, Option, Str, [], arith, bool_eq, contains, has, inl, inr, insert, lookup,
  lookup-insert, nat_eq, none, not, refl, some, str_eq, true, ℕ, ◌&&◌, ◌∷◌, ◌≡◌,
}

-- Every forward stands under its own key.
abbrev pub IsWellKeyed : DesiredMap → Type 0
IsWellKeyed desired = (k : ForwardKey) (d : DesiredForward) → lookup k desired ≡ some d → key d ≡ k

insert-IsWellKeyed :
    (d : DesiredForward) (m : DesiredMap) → IsWellKeyed m → IsWellKeyed (insert (key d) d m)
insert-IsWellKeyed d m keyed k x h = ground (arith, lookup-insert (key d) k d m, keyed k x)

add_remembered-IsWellKeyed :
    (m : DesiredMap) (fs : List RememberedForward)
    → IsWellKeyed m
    → IsWellKeyed (add_remembered m fs)
unfolding add_remembered
add_remembered-IsWellKeyed m [] keyed = keyed
add_remembered-IsWellKeyed m (f ∷ fs) keyed =
    add_remembered-IsWellKeyed
      (insert (key (desired_remembered_forward f)) (desired_remembered_forward f) m) fs
      (insert-IsWellKeyed (desired_remembered_forward f) m keyed)

add_published-IsWellKeyed :
    (m : DesiredMap) (fs : List PublishedForward) → IsWellKeyed m → IsWellKeyed (add_published m fs)
unfolding add_published
add_published-IsWellKeyed m [] keyed = keyed
add_published-IsWellKeyed m (f ∷ fs) keyed =
    add_published-IsWellKeyed
      (insert (key (desired_published_forward f)) (desired_published_forward f) m) fs
      (insert-IsWellKeyed (desired_published_forward f) m keyed)

key_of_automatic : (c : DesiredForward) → key (record c { automatic = true }) ≡ key c
unfolding key
key_of_automatic c = refl

insert_candidate-IsWellKeyed :
    (c : DesiredForward) (m : DesiredMap)
    → IsWellKeyed m
    → IsWellKeyed (insert (key c) (record c { automatic = true }) m)
insert_candidate-IsWellKeyed c m keyed k x h = ground (
  arith,
  lookup-insert (key c) k (record c { automatic = true }) m,
  keyed k x,
  key_of_automatic c,
)

select_candidate-IsWellKeyed :
    (published : List ℕ) (port : ℕ) (o : Option DesiredForward) (m : DesiredMap)
    → IsWellKeyed m
    → IsWellKeyed (select_candidate published port o m)
unfolding select_candidate
select_candidate-IsWellKeyed published port none m keyed = keyed
select_candidate-IsWellKeyed published port (some c) m keyed =
    elim (Bool-cases (not (has (key c) m) && not (contains published port))) [
      | inl e ↦ rw e (insert_candidate-IsWellKeyed c m keyed)
      | inr e ↦ rw e keyed
    ]

module _ (glob : Doublestar) where
  add_listeners-IsWellKeyed :
      (automatic : Map ℕ DesiredForward) (rules ignored : List Str) (published : List ℕ)
      (ls : Map ℕ Listener) (m : DesiredMap)
      → IsWellKeyed m
      → IsWellKeyed (add_listeners glob automatic rules ignored published ls m)
  unfolding add_listeners
  add_listeners-IsWellKeyed automatic rules ignored published [] m keyed = keyed
  add_listeners-IsWellKeyed automatic rules ignored published ((port, l) ∷ ls) m keyed =
      add_listeners-IsWellKeyed automatic rules ignored published ls
        (select_candidate published port (candidate_for glob automatic rules ignored port l) m)
        (select_candidate-IsWellKeyed published port _ m keyed)

  pub build_desired_forwards-IsWellKeyed :
      (remembered : List RememberedForward) (published : List PublishedForward)
      (listeners : Map ℕ Listener) (rules ignored : List Str) (autos : List RememberedForward)
      → IsWellKeyed (build_desired_forwards glob remembered published listeners rules ignored autos)
  unfolding build_desired_forwards lookup
  build_desired_forwards-IsWellKeyed remembered published listeners rules ignored autos =
      add_listeners-IsWellKeyed _ rules ignored _ listeners _ (
        add_published-IsWellKeyed _ published
          (add_remembered-IsWellKeyed [] remembered (λ k d h. cc)))
