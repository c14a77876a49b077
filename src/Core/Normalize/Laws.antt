-- ===== src/Core/Normalize/Laws.antt =====
-- What `normalizeForwards` returns, when it fails, and what it leaves alone.
use ssh_forward.Core.Normalize.{IntentError, normalize_forwards, normalize_loop}
use ssh_forward.Core.Normalize.Loop.{
  Avoids-none, IsAccepted, all_defaults, all_defaults-cons, loop_complete, loop_sound,
}
use ssh_forward.Core.Types.{direction_eq, key_eq, state_eq, target_eq}
use ssh_forward.Prelude.{
  >>=-eq-ok, All, All-sort_func, Distinct, Distinct-of_Increasing, Distinct-sort_func, Increasing,
  Increasing-of_Sorted, List, Map, Result, Sorted-of_Increasing, Str, [], ap, arith, bool_eq,
  by_number-IsOrder, by_source, contains, has, lookup, map, nat_eq, ok, refl, sort_func,
  sort_func-Sorted, sort_func_of_Sorted, str_eq, ℕ, ◌∙◌, ◌∷◌, ◌≡◌,
}

-- A list in its canonical form: in the order of the service ports, no service port and no bind port
-- twice, and `Valid` of every rule.
pub record IsCanonical {T : Type 0} (source target : T → ℕ) (Valid : T → Type 0) (out : List T)
    : Type 0 where
  pub ascending : Increasing (map source out)
  pub distinct_targets : Distinct (map target out)
  pub all_valid : All Valid out

module _ {T : Type 0} (defaults : T → Result IntentError T) (source target : T → ℕ)
    (service bind : Str) where
  abbrev normalize : List T → Result IntentError (List T)
  normalize = normalize_forwards defaults source target service bind

  -- The rules once defaults are filled in, whose service ports differ, as do their bind ports.
  pub record IsConsistent (items ready : List T) : Type 0 where
    pub defaulted : all_defaults defaults items ≡ ok ready
    pub distinct_sources : Distinct (map source ready)
    pub distinct_targets : Distinct (map target ready)

  IsConsistent-IsAccepted :
      (items ready : List T)
      → IsConsistent items ready
      → IsAccepted defaults source target service bind
          (contains [])
          (λ j. has j (let e : Map ℕ ℕ = [] in e))
          items
          ready
  unfolding contains lookup
  IsConsistent-IsAccepted items ready c = record {
    defaulted = c.defaulted;
    new_sources = Avoids-none (map source ready);
    new_targets = Avoids-none (map target ready);
    sources = c.distinct_sources;
    targets = c.distinct_targets;
  }

  -- Consistent rules are accepted, and come out sorted.
  pub normalize_complete :
      (items ready : List T)
      → IsConsistent items ready
      → normalize items ≡ ok (sort_func (by_source source) ready)
  unfolding normalize_forwards all_defaults
  normalize_complete [] ready c = ground (arith, c.defaulted)
  normalize_complete (item ∷ rest) ready c = rw (
      loop_complete defaults source target service bind [] [] [] (item ∷ rest) ready
        (IsConsistent-IsAccepted (item ∷ rest) ready c))

  -- What is accepted was consistent.
  pub normalize_sound :
      (items out : List T)
      → normalize items ≡ ok out
      → (ready : List T) × IsConsistent items ready × (out ≡ sort_func (by_source source) ready)
  unfolding normalize_forwards all_defaults
  normalize_sound [] out h =
      ([], record { defaulted = refl; distinct_sources = tt; distinct_targets = tt }, ground arith)
  normalize_sound (item ∷ rest) out h =
      let (ready', e, s) =
        >>=-eq-ok (normalize_loop defaults source target service bind [] [] [] (item ∷ rest)) _ h in
      let (ready, a, o) =
        loop_sound defaults source target service bind [] [] [] (item ∷ rest) ready' e in
      (
        ready,
        record {
          defaulted = a.defaulted;
          distinct_sources = a.sources;
          distinct_targets = a.targets;
        },
        ground arith,
      )

  -- `Valid` says of one rule that its defaults are filled in.
  pub record IsFilledBy (Valid : T → Type 0) : Type 0 where
    pub filled : (x y : T) → defaults x ≡ ok y → Valid y
    pub kept : (y : T) → Valid y → defaults y ≡ ok y

  module _ (Valid : T → Type 0) (laws : IsFilledBy Valid) where
    all_defaults-Valid :
        (items ready : List T) → all_defaults defaults items ≡ ok ready → All Valid ready
    unfolding all_defaults
    all_defaults-Valid items [] h = tt
    all_defaults-Valid [] (x ∷ ready) h = ground arith
    all_defaults-Valid (item ∷ rest) (x ∷ ready) h =
        let (e, d) = all_defaults-cons defaults source target service bind item rest x ready h in
        (laws.filled item x e, all_defaults-Valid rest ready d)

    all_defaults_of_Valid :
        (ready : List T) → All Valid ready → all_defaults defaults ready ≡ ok ready
    unfolding all_defaults
    all_defaults_of_Valid [] a = refl
    all_defaults_of_Valid (x ∷ ready) a = rw (laws.kept x a.0, all_defaults_of_Valid ready a.1)

    pub normalize-IsCanonical :
        (items out : List T) → normalize items ≡ ok out → IsCanonical source target Valid out
    normalize-IsCanonical items out h =
        let (ready, c, o) = normalize_sound items out h in
        rw o (record {
          ascending =
              Increasing-of_Sorted source (sort_func (by_source source) ready)
                (sort_func-Sorted (by_source source) (by_number-IsOrder source) ready)
                (Distinct-sort_func (by_source source) source ready c.distinct_sources);
          distinct_targets = Distinct-sort_func (by_source source) target ready c.distinct_targets;
          all_valid =
              All-sort_func (by_source source) Valid ready
                (all_defaults-Valid items ready c.defaulted);
        })

    pub normalize_of_IsCanonical :
        (out : List T) → IsCanonical source target Valid out → normalize out ≡ ok out
    normalize_of_IsCanonical out c =
        normalize_complete out out (record {
          defaulted = all_defaults_of_Valid out c.all_valid;
          distinct_sources = Distinct-of_Increasing source out c.ascending;
          distinct_targets = c.distinct_targets;
        })
        ∙ ap ok (
            sort_func_of_Sorted (by_source source) (by_number-IsOrder source) out
              (Sorted-of_Increasing source out c.ascending))
