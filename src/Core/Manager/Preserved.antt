-- ===== src/Core/Manager/Preserved.antt =====
-- Every operation of the manager keeps the invariant.
use mathlib.Core.Path.{subst}
use ssh_forward.Core.Desired.{Doublestar}
use ssh_forward.Core.Intent.{normalize_intent}
use ssh_forward.Core.Manager.{Manager, initial_manager, new_manager, reconcile_forwards, wanted}
use ssh_forward.Core.Manager.Invariant.{Inv, IsSound, reconcile_forwards-Inv}
use ssh_forward.Core.Manager.Operations.{
  ManagerError, adopt_intent, close, collect_listeners, set_discovery, set_listeners, update_intent,
}
use ssh_forward.Core.Normalize.{IntentError}
use ssh_forward.Core.Types.{
  DiscoveryState, DiscoveryStatus, ForwardingIntent, Listener, direction_eq, key_eq, state_eq,
  target_eq,
}
use ssh_forward.Prelude.{
  >>=-eq-ok, Bool, Bool-cases, List, Map, Option, Result, Str, Unique, [], arith, bool_eq, err,
  if_intro, inl, inr, insert, insert-Unique, lookup, lookup-insert, nat_eq, ok, refl, some, str_eq,
  ℕ, ◌==◌, ◌∷◌, ◌≡◌,
}

empty-IsSound :
    (m : Manager) → m.listeners ≡ [] → m.states ≡ [] → m.forward_workers ≡ [] → IsSound m
unfolding lookup
empty-IsSound m el es ew = record {
  unique = rw el tt;
  ports = λ p l e. absurd (ground arith);
  worker_keys = λ k w e. absurd (ground arith);
  covered = λ k h. absurd (ground arith);
  status_keys = λ k s e. absurd (ground arith);
  fresh = record {
    below = λ k w e. absurd (ground arith);
    apart = λ j k v w e e' same. absurd (ground arith);
  };
}

-- A fresh manager satisfies the invariant.
pub new_manager-Inv :
    (glob : Doublestar) (host : Str) (raw : ForwardingIntent) (m : Manager)
    → new_manager glob host raw ≡ ok m
    → Inv glob m
unfolding new_manager
new_manager-Inv glob host raw m h =
    let (intent, e, made) = >>=-eq-ok (normalize_intent glob raw) _ h in
    subst (Inv glob) (ground arith) (
      reconcile_forwards-Inv glob (initial_manager host intent)
        (unfold initial_manager in empty-IsSound (initial_manager host intent) refl refl refl))

collect_listeners-Unique :
    (m : Map ℕ Listener) (ls : List Listener) → Unique m → Unique (collect_listeners m ls)
unfolding collect_listeners
collect_listeners-Unique m [] u = u
collect_listeners-Unique m (l ∷ ls) u = elim (Bool-cases (l.port == 0)) [
  | inl e ↦ rw e (collect_listeners-Unique m ls u)
  | inr e ↦ rw e (collect_listeners-Unique (insert l.port l m) ls (insert-Unique l.port l m u))
]

collect_listeners-ports :
    (m : Map ℕ Listener) (ls : List Listener)
    → ((p : ℕ) (l : Listener) → lookup p m ≡ some l → l.port ≡ p)
    → (p : ℕ) (l : Listener) → lookup p (collect_listeners m ls) ≡ some l
    → l.port ≡ p
unfolding collect_listeners
collect_listeners-ports m [] ok_ports = ok_ports
collect_listeners-ports m (l ∷ ls) ok_ports = elim (Bool-cases (l.port == 0)) [
  | inl e ↦ rw e (collect_listeners-ports m ls ok_ports)
  | inr e ↦ rw e (
      collect_listeners-ports (insert l.port l m) ls
        (λ p x h. ground (arith, lookup-insert l.port p l m, ok_ports p x)))
]

-- The soundness of the maps does not depend on the other fields.
with_listeners-IsSound :
    (m n : Manager)
    → IsSound m
    → Unique n.listeners
    → ((p : ℕ) (l : Listener) → lookup p n.listeners ≡ some l → l.port ≡ p)
    → n.states ≡ m.states
    → n.forward_workers ≡ m.forward_workers
    → n.next_worker ≡ m.next_worker
    → IsSound n
with_listeners-IsSound m n s u p es ew en = record {
  unique = u;
  ports = p;
  worker_keys = rw ew s.worker_keys;
  covered = rw (ew, es) s.covered;
  status_keys = rw es s.status_keys;
  fresh = rw (ew, en) s.fresh;
}

discovered-Inv :
    (glob : Doublestar) (m : Manager) (d : DiscoveryStatus)
    → Inv glob m
    → Inv glob (record m { discovery = d })
unfolding wanted
discovered-Inv glob m d v = record {
  sound = with_listeners-IsSound m _ v.sound v.sound.unique v.sound.ports refl refl refl;
  settled = λ open'.
      let s = v.settled open' in
      record { tracked = s.tracked; justified = s.justified; current = s.current };
}

pub set_listeners-Inv :
    (glob : Doublestar) (ls : List Listener) (m : Manager)
    → Inv glob m
    → Inv glob (set_listeners glob ls m)
unfolding set_listeners
set_listeners-Inv glob ls m v =
    if_intro (Inv glob) m.closed _ _ (λ _. v)
      (λ _. discovered-Inv glob _ _ (
        reconcile_forwards-Inv glob (record m { listeners = collect_listeners [] ls })
          (with_listeners-IsSound m _ v.sound (collect_listeners-Unique [] ls tt)
            (collect_listeners-ports [] ls (λ p l h. unfold lookup in absurd (ground arith))) refl
            refl refl)))

set_failed-Inv :
    (glob : Doublestar) (m : Manager)
    → Inv glob m
    → Inv glob (reconcile_forwards glob (record m { listeners = [] }))
unfolding lookup
set_failed-Inv glob m v =
    reconcile_forwards-Inv glob (record m { listeners = [] })
      (with_listeners-IsSound m _ v.sound tt (λ p l h. absurd (ground arith)) refl refl refl)

pub set_discovery-Inv :
    (glob : Doublestar) (state : DiscoveryState) (diagnostic : Str) (m : Manager)
    → Inv glob m
    → Inv glob (set_discovery glob state diagnostic m)
unfolding set_discovery
set_discovery-Inv glob DiscoveryState.failed diagnostic m v =
    if_intro (Inv glob) m.closed _ _ (λ _. v)
      (λ _. set_failed-Inv glob _ (discovered-Inv glob m _ v))
set_discovery-Inv glob DiscoveryState.unset diagnostic m v =
    if_intro (Inv glob) m.closed _ _ (λ _. v) (λ _. discovered-Inv glob m _ v)
set_discovery-Inv glob _ diagnostic m v =
    if_intro (Inv glob) m.closed _ _ (λ _. v) (λ _. discovered-Inv glob m _ v)

adopt_intent-Inv :
    (glob : Doublestar) (inside : Bool) (r : Result IntentError ForwardingIntent) (m : Manager)
    → Inv glob m
    → Inv glob (adopt_intent glob inside r m).0
unfolding adopt_intent
adopt_intent-Inv glob inside (err e) m v = v
adopt_intent-Inv glob inside (ok intent) m v =
    if_intro (λ (r : Manager × Option ManagerError). Inv glob r.0) inside _ _ (λ _. v)
      (λ _.
        if_intro (λ (r : Manager × Option ManagerError). Inv glob r.0) m.closed _ _ (λ _. v)
          (λ _.
            reconcile_forwards-Inv glob _
              (with_listeners-IsSound m _ v.sound v.sound.unique v.sound.ports refl refl refl)))

pub update_intent-Inv :
    (glob : Doublestar) (before inside : Bool) (raw : ForwardingIntent) (m : Manager)
    → Inv glob m
    → Inv glob (update_intent glob before inside raw m).0
unfolding update_intent
update_intent-Inv glob before inside raw m v =
    if_intro (λ (r : Manager × Option ManagerError). Inv glob r.0) before _ _ (λ _. v)
      (λ _. adopt_intent-Inv glob inside (normalize_intent glob raw) m v)

pub close-Inv : (glob : Doublestar) (m : Manager) → Inv glob m → Inv glob (close m)
unfolding close
close-Inv glob m v = record {
  sound = with_listeners-IsSound m _ v.sound v.sound.unique v.sound.ports refl refl refl;
  settled = λ open'. cc;
}
