-- ===== src/Core/Normalize/Loop.antt =====
-- What the loop of `normalizeForwards` accepts, whatever the kind of forward.
use mathlib.Core.List.{append-nil, append_assoc}
use ssh_forward.App.Wire.Written.{seen}
use ssh_forward.Core.Normalize.{IntentError, normalize_loop}
use ssh_forward.Core.Types.{direction_eq, key_eq, state_eq, target_eq}
use ssh_forward.Prelude.{
  >>=-eq-ok, Bool, Distinct, List, Map, Result, Str, [], ap, arith, bool_eq, contains, false, has,
  insert, is_some, lookup, lookup-insert, map, nat_eq, none, ok, refl, str_eq, ℕ, ◌++◌, ◌==◌, ◌>>=◌,
  ◌||◌, ◌∙◌, ◌∷◌, ◌≡◌,
}

-- All items with their defaults, or the first error.
unfoldable pub all_defaults :
    {T : Type 0} → (T → Result IntentError T) → List T → Result IntentError (List T)
all_defaults defaults [] = ok []
all_defaults defaults (item ∷ rest) =
    defaults item >>= λ item'. all_defaults defaults rest >>= λ rest'. ok (item' ∷ rest')

-- None of the list is among the seen.
abbrev pub Avoids : (ℕ → Bool) → List ℕ → Type 0
Avoids seen [] = Unit {0}
Avoids seen (x ∷ xs) = (seen x ≡ false) × Avoids seen xs

module _ (x : ℕ) (before after : ℕ → Bool) (grows : (j : ℕ) → after j ≡ (x == j || before j)) where
  Avoids-cons : (xs : List ℕ) → contains xs x ≡ false → Avoids before xs → Avoids after xs
  unfolding contains
  Avoids-cons [] h a = tt
  Avoids-cons (y ∷ ys) h a = ground (arith, Avoids-cons ys, grows y)

  Avoids-uncons : (xs : List ℕ) → Avoids after xs → (contains xs x ≡ false) × Avoids before xs
  unfolding contains
  Avoids-uncons [] a = (refl, tt)
  Avoids-uncons (y ∷ ys) a = ground (arith, Avoids-uncons ys, grows y)

pub Avoids-none : (xs : List ℕ) → Avoids (λ _. false) xs
Avoids-none [] = tt
Avoids-none (x ∷ xs) = (refl, Avoids-none xs)

has-insert : (t s : ℕ) (b : Map ℕ ℕ) (j : ℕ) → has j (insert t s b) ≡ (t == j || has j b)
has-insert t s b j = ground (arith, lookup-insert t j s b)

contains-cons : (x : ℕ) (xs : List ℕ) (j : ℕ) → contains (x ∷ xs) j ≡ (x == j || contains xs j)
unfolding contains
contains-cons x xs j = refl

module _ {T : Type 0} (defaults : T → Result IntentError T) (source target : T → ℕ)
    (service bind : Str) where
  abbrev loop : List ℕ → Map ℕ ℕ → List T → List T → Result IntentError (List T)
  loop = normalize_loop defaults source target service bind

  -- The items have valid defaults, and no two of these share a source or a target port.
  pub record IsAccepted (services : ℕ → Bool) (bindings : ℕ → Bool) (items ready : List T)
      : Type 0 where
    pub defaulted : all_defaults defaults items ≡ ok ready
    pub new_sources : Avoids services (map source ready)
    pub new_targets : Avoids bindings (map target ready)
    pub sources : Distinct (map source ready)
    pub targets : Distinct (map target ready)

  -- One round of the loop that does not fail.
  loop_step :
      (services : List ℕ) (bindings : Map ℕ ℕ) (normalized : List T) (item : T) (rest out : List T)
      → loop services bindings normalized (item ∷ rest) ≡ ok out
      → (x : T) × (defaults item ≡ ok x)
        × (contains services (source x) ≡ false)
        × (lookup (target x) bindings ≡ none)
        × (loop
              (source x ∷ services)
              (insert (target x) (source x) bindings)
              (normalized ++ x ∷ [])
              rest
            ≡ ok out)
  unfolding normalize_loop
  loop_step services bindings normalized item rest out h =
      let (x, e, h') = >>=-eq-ok (defaults item) _ h in
      (x, e, ground arith, ground arith, ground arith)

  pub loop_sound :
      (services : List ℕ) (bindings : Map ℕ ℕ) (normalized items out : List T)
      → loop services bindings normalized items ≡ ok out
      → (ready : List T) × IsAccepted (contains services) (λ j. has j bindings) items ready
        × (out ≡ normalized ++ ready)
  unfolding all_defaults normalize_loop
  loop_sound services bindings normalized [] out h = (
    [],
    record { defaulted = refl; new_sources = tt; new_targets = tt; sources = tt; targets = tt },
    ground (arith, append-nil normalized),
  )
  loop_sound services bindings normalized (item ∷ rest) out h =
      let (x, e, free, unbound, h') = loop_step services bindings normalized item rest out h in
      let (ready, a, o) =
        loop_sound (source x ∷ services) (insert (target x) (source x) bindings)
          (normalized ++ x ∷ []) rest out h' in
      let (new_s, old_s) =
        Avoids-uncons (source x) (contains services) (contains (source x ∷ services))
          (contains-cons (source x) services) (map source ready) a.new_sources in
      let (new_t, old_t) =
        Avoids-uncons (target x) (λ j. has j bindings)
          (λ j. has j (insert (target x) (source x) bindings))
          (has-insert (target x) (source x) bindings) (map target ready) a.new_targets in
      (
        x ∷ ready,
        record {
          defaulted = rw (e, a.defaulted);
          new_sources = (free, old_s);
          new_targets = (ap is_some unbound, old_t);
          sources = (new_s, a.sources);
          targets = (new_t, a.targets);
        },
        o ∙ append_assoc normalized (x ∷ []) ready,
      )

  pub all_defaults-cons :
      (item : T) (rest : List T) (x : T) (ready : List T)
      → all_defaults defaults (item ∷ rest) ≡ ok (x ∷ ready)
      → (defaults item ≡ ok x) × (all_defaults defaults rest ≡ ok ready)
  unfolding all_defaults
  all_defaults-cons item rest x ready h = (ground arith, ground arith)

  pub all_defaults-ne-nil :
      (item : T) (rest : List T) → ¬ (all_defaults defaults (item ∷ rest) ≡ ok [])
  unfolding all_defaults
  all_defaults-ne-nil item rest h = ground arith

  loop_next :
      (services : List ℕ) (bindings : Map ℕ ℕ) (normalized : List T) (item : T) (rest : List T)
      (x : T)
      → defaults item ≡ ok x
      → contains services (source x) ≡ false
      → has (target x) bindings ≡ false
      → loop services bindings normalized (item ∷ rest)
        ≡ loop
            (source x ∷ services)
            (insert (target x) (source x) bindings)
            (normalized ++ x ∷ [])
            rest
  unfolding normalize_loop
  loop_next services bindings normalized item rest x e free unbound = ground arith

  pub loop_complete :
      (services : List ℕ) (bindings : Map ℕ ℕ) (normalized items ready : List T)
      → IsAccepted (contains services) (λ j. has j bindings) items ready
      → loop services bindings normalized items ≡ ok (normalized ++ ready)
  unfolding all_defaults normalize_loop
  loop_complete services bindings normalized [] ready a =
      ground (arith, append-nil normalized, a.defaulted)
  loop_complete services bindings normalized (item ∷ rest) [] a =
      absurd (all_defaults-ne-nil item rest a.defaulted)
  loop_complete services bindings normalized (item ∷ rest) (x ∷ ready) a =
      let (e, d) = all_defaults-cons item rest x ready a.defaulted in
      let after : ℕ → Bool = λ j. has j (insert (target x) (source x) bindings) in
      let ih =
        loop_complete (source x ∷ services) (insert (target x) (source x) bindings)
          (normalized ++ x ∷ []) rest ready
          (record {
            defaulted = d;
            new_sources =
                Avoids-cons (source x) (contains services) (contains (source x ∷ services))
                  (contains-cons (source x) services) (map source ready) a.sources.0
                  a.new_sources.1;
            new_targets =
                Avoids-cons (target x) (λ j. has j bindings) after
                  (has-insert (target x) (source x) bindings) (map target ready) a.targets.0
                  a.new_targets.1;
            sources = a.sources.1;
            targets = a.targets.1;
          }) in
      loop_next services bindings normalized item rest x e a.new_sources.0 a.new_targets.0
      ∙ ih
      ∙ ap ok (append_assoc normalized (x ∷ []) ready)
