-- ===== src/Core/Intent.antt =====
-- `normalizeIntent` of `cli/internal/core/desired.go`.
pub mod Normal
use ssh_forward.Core.Desired.{Doublestar}
use ssh_forward.Core.Names.{normalize_ignored_apps, normalize_working_directory_rules}
use ssh_forward.Core.Normalize.{
  IntentError, normalize_published_forwards, normalize_remembered_forwards,
}
use ssh_forward.Core.Types.{ForwardingIntent, direction_eq, key_eq, state_eq, target_eq}
use ssh_forward.Prelude.{Result, nat_eq, ok, str_eq, ◌>>=◌}

unfoldable pub normalize_intent :
    Doublestar → ForwardingIntent → Result IntentError ForwardingIntent
normalize_intent glob intent = do
  autos ← normalize_remembered_forwards intent.auto_forwards
  remembered ← normalize_remembered_forwards intent.remembered_forwards
  published ← normalize_published_forwards intent.published_forwards
  rules ← normalize_working_directory_rules glob intent.working_directory_rules
  ignored ← normalize_ignored_apps intent.ignored_apps
  ok (record intent {
    auto_forwards = autos;
    remembered_forwards = remembered;
    published_forwards = published;
    working_directory_rules = rules;
    ignored_apps = ignored;
  })
