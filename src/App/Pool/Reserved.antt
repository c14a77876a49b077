-- ===== src/App/Pool/Reserved.antt =====
-- The local ports that no host may import to, because some host publishes them.
use mathlib.Core.Path.{subst}
use ssh_forward.App.Config.{published_eq}
use ssh_forward.App.Pool.{by_value, collect_reserved, host_intent, published_ports, reserved_ports}
use ssh_forward.App.Targets.{HostTarget}
use ssh_forward.App.Wire.{Configuration, rules_at}
use ssh_forward.Core.Manager.{wanted}
use ssh_forward.Core.Types.{PublishedForward, direction_eq, key_eq, state_eq, target_eq}
use ssh_forward.Prelude.{
  ==_refl, Bool-cases, List, Map, Str, Str-discrete, [], ap, arith, bool_eq, contains,
  contains-append, contains-compact, contains-keys, contains-sorted, eq_of_==, has, inl, inr, keys,
  map, nat_eq, sort_func, str_eq, sym, true, ℕ, ℕ_discrete, ◌==◌, ◌↔◌, ◌∙◌, ◌∷◌, ◌≡◌,
}

contains-collect_reserved :
    (config : Configuration) (names : List Str) (port : ℕ)
    → contains (collect_reserved config names) port ≡ true
    → (name : Str) × (contains names name ≡ true)
      × (contains (published_ports config name) port ≡ true)
unfolding collect_reserved contains
contains-collect_reserved config [] port h = absurd (ground arith)
contains-collect_reserved config (name ∷ rest) port h =
    elim (Bool-cases (contains (published_ports config name) port)) [
      | inl here ↦ (name, ground (arith, ==_refl name), here)
      | inr not_here ↦
          let (other, listed, publishes) = contains-collect_reserved config rest port (
            ground (
              arith,
              not_here,
              contains-append (published_ports config name) (collect_reserved config rest) port,
            )) in
          (other, ground (arith, listed), publishes)
    ]

collect_reserved_all :
    (config : Configuration) (names : List Str) (port : ℕ) (name : Str)
    → contains names name ≡ true
    → contains (published_ports config name) port ≡ true
    → contains (collect_reserved config names) port ≡ true
unfolding collect_reserved contains
collect_reserved_all config [] port name c h = absurd (ground arith)
collect_reserved_all config (first ∷ rest) port name c h =
    let split =
      contains-append (published_ports config first) (collect_reserved config rest) port in
    elim (Str-discrete first name) [
      | yes same ↦
          ground (
            arith,
            split,
            subst (λ n. contains (published_ports config n) port ≡ true) (sym same) h,
          )
      | no other ↦
          ground (arith, split, collect_reserved_all config rest port name (ground arith) h)
    ]

contains-reserved_ports :
    (config : Configuration) (targets : Map Str HostTarget) (port : ℕ)
    → contains (reserved_ports config targets) port
      ≡ contains (collect_reserved config (keys targets)) port
unfolding reserved_ports
contains-reserved_ports config targets port =
    contains-compact (sort_func by_value (collect_reserved config (keys targets))) port
    ∙ contains-sorted by_value (collect_reserved config (keys targets)) port

is_published_at :
    (port : ℕ) (fs : List PublishedForward)
    → contains (map (λ (f : PublishedForward). f.local_port) fs) port ≡ true
    → (f : PublishedForward) × (contains fs f ≡ true) × (f.local_port ≡ port)
unfolding contains
is_published_at port [] h = absurd (ground arith)
is_published_at port (f ∷ fs) h = elim (ℕ_discrete f.local_port port) [
  | yes here ↦ (f, ground (arith, ==_refl f), here)
  | no elsewhere ↦
      let (g, listed, e) = is_published_at port fs (ground arith) in (g, ground (arith, listed), e)
]

contains-local_port :
    (f : PublishedForward) (fs : List PublishedForward)
    → contains fs f ≡ true
    → contains (map (λ (g : PublishedForward). g.local_port) fs) f.local_port ≡ true
unfolding contains
contains-local_port f [] h = absurd (ground arith)
contains-local_port f (g ∷ fs) h = elim (Bool-cases (g == f)) [
  | inl same ↦ ground (arith, ap (λ (x : PublishedForward). x.local_port) (eq_of_== g f same))
  | inr other ↦ ground (arith, contains-local_port f fs (ground arith))
]

-- The intent that a reload gives to a manager reserves a port exactly when the scope of some target
-- has a publication with this local port.
pub reserved_ports_lem :
    (config : Configuration) (targets : Map Str HostTarget) (host : Str) (port : ℕ)
    → ((contains (host_intent config (reserved_ports config targets) host).reserved_local_ports port
          ≡ true)
        ↔ ((name : Str) × (has name targets ≡ true)
            × (f : PublishedForward) × (contains (rules_at name config.rules).published f ≡ true)
            × (f.local_port ≡ port)))
unfolding host_intent
reserved_ports_lem config targets host port = (
  λ h.
      let (name, c, p) =
        contains-collect_reserved config (keys targets) port
          (sym (contains-reserved_ports config targets port) ∙ h) in
      let (f, listed, e) = is_published_at port (rules_at name config.rules).published p in
      (name, sym (contains-keys name targets) ∙ c, f, listed, e),
  λ (name, wanted, f, listed, here).
      contains-reserved_ports config targets port
      ∙ collect_reserved_all config (keys targets) port name (contains-keys name targets ∙ wanted) (
          subst (λ q. contains (published_ports config name) q ≡ true) here
            (contains-local_port f (rules_at name config.rules).published listed)),
)
