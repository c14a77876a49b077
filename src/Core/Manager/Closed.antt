-- ===== src/Core/Manager/Closed.antt =====
-- What a closed manager may still do.
use ssh_forward.Core.Desired.{Doublestar}
use ssh_forward.Core.Intent.{normalize_intent}
use ssh_forward.Core.Manager.{Manager, Worker}
use ssh_forward.Core.Manager.Operations.{
  ManagerError, adopt_intent, close, forward_stopped, record_state, set_discovery,
  set_forward_state, set_listeners, update_intent, worker_gone,
}
use ssh_forward.Core.Manager.Runs.{
  Event, apply_event, closing, discovery_changed, intent_changed, reported, run_events, scanned,
  stopped,
}
use ssh_forward.Core.Normalize.{IntentError}
use ssh_forward.Core.Types.{
  ForwardKey, ForwardState, ForwardTarget, ForwardingIntent, direction_eq, key_eq, state_eq,
  target_eq,
}
use ssh_forward.Prelude.{
  Bool, List, Option, Result, Str, [], arith, bool_eq, err, false, if_intro, inr, lookup,
  lookup-delete, nat_eq, none, not, ok, refl, some, str_eq, true, ℕ, ◌==◌, ◌||◌, ◌∙◌, ◌∷◌, ◌≡◌, ◌⊎◌,
}

-- An entry of a map that was there before, or none.
abbrev pub KeptOrGone : {V : Type 0} → Option V → Option V → Type 0
KeptOrGone before after = (after ≡ none) ⊎ (after ≡ before)

-- What a closed manager may still do: forget.
pub record OnlyForgets (m n : Manager) : Type 0 where
  pub closed : n.closed ≡ true
  pub no_new_worker : n.next_worker ≡ m.next_worker
  pub discovery : n.discovery ≡ m.discovery
  pub workers :
      (k : ForwardKey) → KeptOrGone (lookup k m.forward_workers) (lookup k n.forward_workers)
  pub states : (k : ForwardKey) → KeptOrGone (lookup k m.states) (lookup k n.states)

OnlyForgets-refl : (m : Manager) → m.closed ≡ true → OnlyForgets m m
OnlyForgets-refl m c = record {
  closed = c;
  no_new_worker = refl;
  discovery = refl;
  workers = λ k. inr refl;
  states = λ k. inr refl;
}

OnlyForgets-trans : (l m n : Manager) → OnlyForgets l m → OnlyForgets m n → OnlyForgets l n
OnlyForgets-trans l m n f g = record {
  closed = g.closed;
  no_new_worker = g.no_new_worker ∙ f.no_new_worker;
  discovery = g.discovery ∙ f.discovery;
  workers = λ k. ground (arith, f.workers k, g.workers k);
  states = λ k. ground (arith, f.states k, g.states k);
}

still_open : (m : Manager) → m.closed ≡ true → m.closed ≡ false → ⊥
still_open m c e = cc

adopt_intent-OnlyForgets :
    (glob : Doublestar) (inside : Bool) (r : Result IntentError ForwardingIntent) (m : Manager)
    → m.closed ≡ true
    → OnlyForgets m (adopt_intent glob inside r m).0
unfolding adopt_intent
adopt_intent-OnlyForgets glob inside (err e) m c = OnlyForgets-refl m c
adopt_intent-OnlyForgets glob inside (ok intent) m c =
    if_intro (λ (r : Manager × Option ManagerError). OnlyForgets m r.0) inside _ _
      (λ _. OnlyForgets-refl m c)
      (λ _.
        if_intro (λ (r : Manager × Option ManagerError). OnlyForgets m r.0) m.closed _ _
          (λ _. OnlyForgets-refl m c) (λ e. absurd (still_open m c e)))

record_state-OnlyForgets :
    (o : Option Worker) (k : ForwardKey) (worker : ℕ) (state : ForwardState) (diagnostic : Str)
    (target : ForwardTarget) (m : Manager)
    → m.closed ≡ true
    → OnlyForgets m (record_state o k worker state diagnostic target m)
unfolding record_state
record_state-OnlyForgets none k worker state diagnostic target m c = OnlyForgets-refl m c
record_state-OnlyForgets (some w) k worker state diagnostic target m c =
    if_intro (OnlyForgets m) (m.closed || w.cancelled || not (w.id == worker)) _ _
      (λ _. OnlyForgets-refl m c) (λ e. absurd (ground arith))

worker_gone-OnlyForgets :
    (glob : Doublestar) (o : Option Worker) (k : ForwardKey) (worker : ℕ) (m : Manager)
    → m.closed ≡ true
    → OnlyForgets m (worker_gone glob o k worker m)
unfolding worker_gone
worker_gone-OnlyForgets glob none k worker m c = OnlyForgets-refl m c
worker_gone-OnlyForgets glob (some w) k worker m c =
    if_intro (OnlyForgets m) (not (w.id == worker)) _ _ (λ _. OnlyForgets-refl m c)
      (λ _.
        if_intro (OnlyForgets m) m.closed _ _
          (λ _. record {
            closed = c;
            no_new_worker = refl;
            discovery = refl;
            workers = λ j. ground (arith, lookup-delete k j m.forward_workers);
            states = λ j. ground (arith, lookup-delete k j m.states);
          })
          (λ e. absurd (still_open m c e)))

module _ (glob : Doublestar) where
  apply_event-OnlyForgets :
      (e : Event) (m : Manager) → m.closed ≡ true → OnlyForgets m (apply_event glob e m)
  unfolding apply_event set_listeners set_discovery update_intent set_forward_state forward_stopped
      close
  apply_event-OnlyForgets (scanned ls) m c =
      if_intro (OnlyForgets m) m.closed _ _ (λ _. OnlyForgets-refl m c)
        (λ e. absurd (still_open m c e))
  apply_event-OnlyForgets (discovery_changed state diagnostic) m c =
      if_intro (OnlyForgets m) m.closed _ _ (λ _. OnlyForgets-refl m c)
        (λ e. absurd (still_open m c e))
  apply_event-OnlyForgets (intent_changed before inside raw) m c =
      if_intro (λ (r : Manager × Option ManagerError). OnlyForgets m r.0) before _ _
        (λ _. OnlyForgets-refl m c)
        (λ _. adopt_intent-OnlyForgets glob inside (normalize_intent glob raw) m c)
  apply_event-OnlyForgets (reported k worker state diagnostic target) m c =
      record_state-OnlyForgets (lookup k m.forward_workers) k worker state diagnostic target m c
  apply_event-OnlyForgets (stopped k worker) m c =
      worker_gone-OnlyForgets glob (lookup k m.forward_workers) k worker m c
  apply_event-OnlyForgets closing m c = record {
    closed = refl;
    no_new_worker = refl;
    discovery = refl;
    workers = λ k. inr refl;
    states = λ k. inr refl;
  }

  -- Once it is closed, whatever is called, a manager stays closed, starts no worker, keeps its
  -- discovery status, and changes no worker and no status but by removing it.
  pub run_events-OnlyForgets :
      (es : List Event) (m : Manager) → m.closed ≡ true → OnlyForgets m (run_events glob es m)
  unfolding run_events
  run_events-OnlyForgets [] m c = OnlyForgets-refl m c
  run_events-OnlyForgets (e ∷ es) m c =
      let f = apply_event-OnlyForgets e m c in
      OnlyForgets-trans m (apply_event glob e m) _ f
        (run_events-OnlyForgets es (apply_event glob e m) f.closed)
