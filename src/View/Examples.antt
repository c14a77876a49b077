-- ===== src/View/Examples.antt =====
-- The theorems of the view at concrete inputs, and runs of its functions.
use ssh_forward.App.Config.{index_func, published_eq, remembered_eq}
use ssh_forward.Core.Types.{
  DiscoveryState, ForwardDirection, ForwardDirection-discrete, ForwardState, ForwardState-discrete,
  ForwardStatus, Listener, Status, direction_eq, key_eq, state_eq, target_eq, zero_status,
}
use ssh_forward.Prelude.{
  Bool, Bool-discrete, List, Str, Str-discrete, [], arith, bool_eq, bytes, contains, false,
  has_prefix, insert, leb, lookup, ltb, map, nat_eq, refl, some, split_at, str_eq, suc, true, zero,
  ℕ, ℕ_discrete, ◌||◌, ◌∷◌, ◌≡◌, ◌≤◌,
}
use ssh_forward.View.Columns.{render_total}
use ssh_forward.View.Diagnostics.{catalog, doctor_advice, doctor_fix_of, replace_all, trim_stop}
use ssh_forward.View.Fits.{IsMeasure}
use ssh_forward.View.Format.{
  clean_elements, forward_target, listener_columns, local_target, project_name,
  target_with_preferred,
}
use ssh_forward.View.Kinds.{count}
use ssh_forward.View.Render.{render}
use ssh_forward.View.Sections.{
  Section, available_listeners, available_section, forward_row, forward_section, forward_sections,
  forwarded_ports, listeners_by_port, section_forwards, tables,
}
use ssh_forward.View.Shown.{count_shown, rows_of}
use ssh_forward.View.Table.{Ansi, Options}

-- A byte that starts a character of UTF-8.
abbrev is_start : ℕ → Bool
is_start b = ltb b 128 || leb 192 b

-- The text without its first `n` characters.
unfoldable drop_characters : ℕ → Str → Str
drop_characters n [] = []
drop_characters zero (c ∷ rest) = c ∷ rest
drop_characters (suc n) (c ∷ rest) = elim (is_start c) [
  | true ↦ drop_characters n rest
  | false ↦ drop_characters (suc n) rest
]

-- Every character takes one column.
abbrev narrow : Ansi
narrow = record {
  string_width = count is_start;
  truncate_left = λ value n. drop_characters n value;
}

drop_all :
    (value : Str) (n : ℕ) → count is_start value ≤ n → count is_start (drop_characters n value) ≡ 0
unfolding count drop_characters
drop_all [] n h = refl
drop_all (c ∷ rest) zero h = ground arith
drop_all (c ∷ rest) (suc n) h = ground (arith, drop_all rest n, drop_all rest (suc n))

narrow-IsMeasure : IsMeasure narrow
unfolding count
narrow-IsMeasure = record {
  truncated = drop_all;
  ellipsis_alone = omega arith;
  ellipsis_before = λ tail. omega arith;
}

abbrev web_forward : ForwardStatus
web_forward = record zero_status {
  direction = ForwardDirection.remote_to_local;
  remote_port = 3000;
  local_port = 3001;
  preferred_local_port = 3000;
  state = ForwardState.active;
  automatic = true;
}

abbrev web_listener : Listener
web_listener = record { port = 3000; app = bytes "node"; working_directory = bytes "/srv/web/" }

abbrev db_listener : Listener
db_listener = record { port = 5432; app = []; working_directory = [] }

abbrev shown_status : Status
shown_status = record {
  host = bytes "dev";
  discovery = record { state = DiscoveryState.active; diagnostic = [] };
  listeners = web_listener ∷ db_listener ∷ [];
  forwards = web_forward ∷ [];
  working_directory_rules = [];
  ignored_apps = [];
}

view_code : Unit {0}
unfolding ℕ_discrete Str-discrete Bool-discrete ForwardDirection-discrete ForwardState-discrete
    contains lookup insert listeners_by_port forwarded_ports section_forwards available_listeners
    forward_row forward_section available_section forward_sections tables listener_columns
    project_name clean_elements split_at forward_target target_with_preferred local_target
    has_prefix
view_code = tt

table_code : Unit {0}
unfolding ℕ_discrete Str-discrete index_func
table_code = tt

advice_code : Unit {0}
unfolding ℕ_discrete Str-discrete lookup catalog replace_all trim_stop doctor_fix_of doctor_advice
    has_prefix
advice_code = tt

project_name_run : project_name (bytes "/srv/./web/../api/") ≡ bytes "api"
unfolding view_code
project_name_run = refl

titles :
    map (λ (s : Section). s.title) (tables false shown_status)
    ≡ bytes "FORWARDS" ∷ bytes "AVAILABLE" ∷ []
unfolding view_code
titles = refl

abbrev plain_options : Options
plain_options = record { width = 80; color = false; hyperlinks = false }

render_total_example : (text : Str) × (render narrow plain_options shown_status ≡ some text)
render_total_example = render_total narrow narrow-IsMeasure plain_options shown_status

abbrev two_headers : List Str
two_headers = bytes "PORT" ∷ bytes "WORKING DIRECTORY" ∷ []

count_shown_example : count (λ (row : List Str). true) (rows_of (tables true shown_status)) ≡ 2
unfolding view_code count
count_shown_example = count_shown true (λ (row : List Str). true) shown_status

advice_run : doctor_advice (bytes "host_key_failed") (bytes "dev") ≡ (
  bytes "SSH host key verification failed",
  bytes "Run ssh dev and review the host key warning.",
)
unfolding advice_code
advice_run = refl
