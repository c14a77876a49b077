-- ===== src/Core/Intent/Normal.antt =====
-- A normalised intent is its own normal form.
use ssh_forward.Core.Desired.{Doublestar}
use ssh_forward.Core.Intent.{normalize_intent}
use ssh_forward.Core.Names.{
  normalize_ignored_apps, normalize_rule_names, normalize_working_directory_rules,
  valid_ignored_app, valid_working_directory_rule,
}
use ssh_forward.Core.Names.Laws.{normalize_rule_names_idem}
use ssh_forward.Core.Normalize.{normalize_published_forwards, normalize_remembered_forwards}
use ssh_forward.Core.Normalize.Ports.{normalize_published-IsCanonical, normalize_remembered_idem}
use ssh_forward.Core.Types.{ForwardingIntent, direction_eq, key_eq, state_eq, target_eq}
use ssh_forward.Prelude.{>>=-eq-ok, arith, nat_eq, ok, str_eq, ◌≡◌}

-- Each of the five lists is its own normal form.
pub record IsNormal (glob : Doublestar) (i : ForwardingIntent) : Type 0 where
  pub autos : normalize_remembered_forwards i.auto_forwards ≡ ok i.auto_forwards
  pub remembered : normalize_remembered_forwards i.remembered_forwards ≡ ok i.remembered_forwards
  pub published : normalize_published_forwards i.published_forwards ≡ ok i.published_forwards
  pub rules :
      normalize_working_directory_rules glob i.working_directory_rules
      ≡ ok i.working_directory_rules
  pub ignored : normalize_ignored_apps i.ignored_apps ≡ ok i.ignored_apps

-- Whatever `normalizeIntent` returns consists of lists in normal form, and keeps the reserved ports.
pub normalize_intent-IsNormal :
    (glob : Doublestar) (i j : ForwardingIntent)
    → normalize_intent glob i ≡ ok j
    → IsNormal glob j × (j.reserved_local_ports ≡ i.reserved_local_ports)
unfolding normalize_intent normalize_working_directory_rules normalize_ignored_apps
normalize_intent-IsNormal glob i j h =
    let (autos, ea, h1) = >>=-eq-ok (normalize_remembered_forwards i.auto_forwards) _ h in
    let (remembered, er, h2) =
      >>=-eq-ok (normalize_remembered_forwards i.remembered_forwards) _ h1 in
    let (published, ep, h3) = >>=-eq-ok (normalize_published_forwards i.published_forwards) _ h2 in
    let (rules, ew, h4) =
      >>=-eq-ok (normalize_rule_names (valid_working_directory_rule glob) i.working_directory_rules)
        _ h3 in
    let (ignored, eg, h5) =
      >>=-eq-ok (normalize_rule_names valid_ignored_app i.ignored_apps) _ h4 in
    (
      record {
        autos = cc (normalize_remembered_idem i.auto_forwards autos ea, h5);
        remembered = cc (normalize_remembered_idem i.remembered_forwards remembered er, h5);
        published = cc ((normalize_published-IsCanonical i.published_forwards published ep).1, h5);
        rules = cc (
          normalize_rule_names_idem (valid_working_directory_rule glob) i.working_directory_rules
              rules ew,
          h5,
        );
        ignored = cc (normalize_rule_names_idem valid_ignored_app i.ignored_apps ignored eg, h5);
      },
      ground arith,
    )

-- A second normalisation returns the same intent.
pub normalize_intent_idem :
    (glob : Doublestar) (i j : ForwardingIntent)
    → normalize_intent glob i ≡ ok j
    → normalize_intent glob j ≡ ok j
unfolding normalize_intent
normalize_intent_idem glob i j h =
    let n = (normalize_intent-IsNormal glob i j h).0 in
    rw (n.autos, n.remembered, n.published, n.rules, n.ignored)
