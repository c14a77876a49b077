-- ===== src/Core/Normalize.antt =====
-- Canonical port rules: `normalizeForwards` of `cli/internal/core/desired.go` and its instances for
-- remembered and published forwards.
pub mod Loop
pub mod Laws
pub mod Ports
use ssh_forward.Core.Types.{
  PublishedForward, RememberedForward, direction_eq, key_eq, published_with_defaults,
  remembered_with_defaults, state_eq, target_eq,
}
use ssh_forward.Prelude.{
  List, Map, Result, Str, [], bool_eq, by_source, bytes, contains, err, if◌then◌else◌, insert,
  lookup, nat_eq, none, ok, some, sort_func, str_eq, ℕ, ◌++◌, ◌==◌, ◌>>=◌, ◌∷◌,
}

-- The errors of the normalisations; Go formats these as text.
pub data IntentError : Type 0 where
  remote_port_range local_port_range : IntentError
  duplicate_port : Str → ℕ → IntentError
  bind_conflict : Str → ℕ → Str → ℕ → ℕ → IntentError
  rule_not_absolute malformed_pattern invalid_app_name : IntentError

module _ {T : Type 0} (defaults : T → Result IntentError T) (source target : T → ℕ)
    (service bind : Str) where
  -- The loop: `services` and `bindings` are the maps, `normalized` the slice built so far.
  unfoldable pub normalize_loop : List ℕ → Map ℕ ℕ → List T → List T → Result IntentError (List T)
  normalize_loop services bindings normalized [] = ok normalized
  normalize_loop services bindings normalized (item ∷ rest) = defaults item >>= λ item'.
      let next =
        normalize_loop (source item' ∷ services) (insert (target item') (source item') bindings)
          (normalized ++ item' ∷ []) rest in
      if contains services (source item')
      then err (duplicate_port service (source item'))
      else elim (lookup (target item') bindings) [
        | some previous ↦ err (bind_conflict bind (target item') service previous (source item'))
        | none ↦ next
      ]

  unfoldable pub normalize_forwards : List T → Result IntentError (List T)
  unfolding normalize_loop sort_func
  normalize_forwards [] = ok []
  normalize_forwards (item ∷ rest) = normalize_loop [] [] [] (item ∷ rest) >>= λ normalized.
      ok (sort_func (by_source source) normalized)

unfoldable pub normalize_remembered_forward :
    RememberedForward → Result IntentError RememberedForward
normalize_remembered_forward forward =
    if forward.remote_port == 0
    then err IntentError.remote_port_range
    else ok (remembered_with_defaults forward)

unfoldable pub normalize_published_forward : PublishedForward → Result IntentError PublishedForward
normalize_published_forward forward =
    if forward.local_port == 0
    then err IntentError.local_port_range
    else ok (published_with_defaults forward)

unfoldable pub normalize_remembered_forwards :
    List RememberedForward → Result IntentError (List RememberedForward)
normalize_remembered_forwards =
    normalize_forwards normalize_remembered_forward (λ (f : RememberedForward). f.remote_port)
      (λ (f : RememberedForward). f.local_port) (bytes "remote") (bytes "local")

unfoldable pub normalize_published_forwards :
    List PublishedForward → Result IntentError (List PublishedForward)
normalize_published_forwards =
    normalize_forwards normalize_published_forward (λ (f : PublishedForward). f.local_port)
      (λ (f : PublishedForward). f.remote_port) (bytes "published local") (bytes "published remote")
