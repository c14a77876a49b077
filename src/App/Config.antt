-- ===== src/App/Config.antt =====
-- The rules of the configuration file: `scopeRules` of `cli/internal/app/config.go`, their
-- normalisation in `config_normalize.go`, and `editRule` of `config_forwards.go` there.
pub mod Edited
pub mod Reserved
use ssh_forward.Core.Desired.{Doublestar}
use ssh_forward.Core.Names.{normalize_ignored_apps, normalize_working_directory_rules}
use ssh_forward.Core.Normalize.{
  IntentError, normalize_published_forwards, normalize_remembered_forwards,
}
use ssh_forward.Core.Types.{
  PublishedForward, RememberedForward, direction_eq, key_eq, state_eq, target_eq,
}
use ssh_forward.Prelude.{
  Bool, Bool-discrete, Eq, List, Option, Result, Str, [], bool_eq, contains, err, false,
  if◌then◌else◌, map, nat_eq, none, not, ok, some, str_eq, suc, true, zero, ℕ, ℕ_discrete, ◌&&◌,
  ◌++◌, ◌==◌, ◌>>=◌, ◌∷◌,
}

pub record ScopeRules : Type 0 where
  pub forwards : List RememberedForward
  pub published : List PublishedForward
  pub directories : List Str
  pub ignored_apps : List Str

-- Why the configuration refuses rules.
pub data ConfigError : Type 0 where
  invalid_rules : IntentError → ConfigError
  reserved_port : ℕ → ConfigError

-- `prefixConfig`
abbrev pub prefix_config : {T : Type 0} → Result IntentError T → Result ConfigError T
prefix_config (ok value) = ok value
prefix_config (err e) = err (invalid_rules e)

-- The second loop of `validateLocalPortReservations`; `reserved` is the set that the first one builds.
unfoldable pub first_reserved : List ℕ → List RememberedForward → Option ConfigError
first_reserved reserved [] = none
first_reserved reserved (f ∷ rest) =
    let later = first_reserved reserved rest in
    if contains reserved f.local_port && not f.allow_fallback
    then some (reserved_port f.local_port)
    else later

unfoldable pub validate_local_port_reservations :
    List RememberedForward → List PublishedForward → Option ConfigError
unfolding first_reserved
validate_local_port_reservations remembered published =
    first_reserved (map (λ (f : PublishedForward). f.local_port) published) remembered

-- `normalize` of `scopeRules`, as the rules that it leaves or its error.
unfoldable pub normalize_rules : Doublestar → ScopeRules → Result ConfigError ScopeRules
normalize_rules glob rules = do
  forwards ← prefix_config (normalize_remembered_forwards rules.forwards)
  published ← prefix_config (normalize_published_forwards rules.published)
  directories ← prefix_config (normalize_working_directory_rules glob rules.directories)
  ignored ← prefix_config (normalize_ignored_apps rules.ignored_apps)
  elim (validate_local_port_reservations forwards published) [
    | some e ↦ err e
    | none ↦ ok (record {
      forwards = forwards;
      published = published;
      directories = directories;
      ignored_apps = ignored;
    })
  ]

-- `==` on the rules that Go compares so.
unfoldable pub RememberedForward-discrete : Discrete RememberedForward
RememberedForward-discrete = hlevel (ℕ_discrete, Bool-discrete)

instance abbrev pub remembered_eq : Eq RememberedForward
remembered_eq = record { dec = RememberedForward-discrete }

unfoldable pub PublishedForward-discrete : Discrete PublishedForward
PublishedForward-discrete = hlevel (ℕ_discrete)

instance abbrev pub published_eq : Eq PublishedForward
published_eq = record { dec = PublishedForward-discrete }

-- `slices.IndexFunc`
unfoldable pub index_func : {T : Type 0} → (T → Bool) → List T → Option ℕ
index_func test [] = none
index_func test (x ∷ xs) =
    let later = index_func test xs in
    if test x then some 0 else elim later [ none ↦ none | some i ↦ some (suc i) ]

-- `items[i]`, for an index that is in range.
unfoldable pub item_at : {T : Type 0} → T → ℕ → List T → T
item_at default i [] = default
item_at default zero (x ∷ xs) = x
item_at default (suc i) (x ∷ xs) = item_at default i xs

-- `slices.Delete(items, i, i+1)`
unfoldable pub delete_at : {T : Type 0} → ℕ → List T → List T
delete_at i [] = []
delete_at zero (x ∷ xs) = xs
delete_at (suc i) (x ∷ xs) = x ∷ delete_at i xs

-- `items[i] = value`
unfoldable pub set_at : {T : Type 0} → ℕ → T → List T → List T
set_at i value [] = []
set_at zero value (x ∷ xs) = value ∷ xs
set_at (suc i) value (x ∷ xs) = x ∷ set_at i value xs

module _ {T K : Type 0} ⦃et : Eq T⦄ ⦃ek : Eq K⦄ (key_of : T → K) where
  abbrev pub index_of : K → List T → Option ℕ
  index_of k = index_func (λ existing. key_of existing == k)

  -- The items and the value that are left, and whether the edit changed anything.
  unfoldable pub edit_rule : List T → T → Bool → List T × T × Bool
  unfolding index_func item_at delete_at set_at
  edit_rule items value adding = elim (index_of (key_of value) items) [
    | none ↦ if adding then (items ++ value ∷ [], value, true) else (items, value, false)
    | some i ↦
        if not adding
        then (delete_at i items, item_at value i items, true)
        else if item_at value i items == value
        then (items, value, false)
        else (set_at i value items, value, true)
  ]
