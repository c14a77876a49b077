-- ===== src/App/Wire/Written.antt =====
-- What `wire` writes for each scope.
use ssh_forward.App.Config.{ScopeRules, remembered_eq}
use ssh_forward.App.Wire.{ConfigFile, global_rules, wire_scope, wire_scopes, write_list}
use ssh_forward.Core.Types.{direction_eq, key_eq, state_eq, target_eq}
use ssh_forward.Prelude.{
  ==_refl, All, Bool, Bool-cases, List, Map, Option, Str, Str-discrete, Unique, [], ap, arith,
  bool_eq, false, has, if◌then◌else◌, inl, inr, insert-Unique, length, lookup, lookup-insert, ltb,
  nat_eq, none, ok, refl, some, str_eq, sym, true, value_or, ◌&&◌, ◌==◌, ◌||◌, ◌∙◌, ◌∷◌, ◌≡◌, ◌≢◌,
}

-- The rules that the file holds for a host other than all.
abbrev pub file_at : Str → ConfigFile → ScopeRules
file_at host file = record {
  forwards = value_or (lookup host file.remembered_forwards) [];
  published = value_or (lookup host file.published_forwards) [];
  directories = value_or (lookup host file.working_directory_rules) [];
  ignored_apps = [];
}

-- The file form has a place for all of the rules: those of a host ignore no apps, and those of all
-- hosts publish nothing.
pub record IsWritable (host : Str) (r : ScopeRules) : Type 0 where
  pub global : host ≡ [] → r.published ≡ []
  pub named : host ≢ [] → r.ignored_apps ≡ []

lookup-write_list :
    {V : Type 0} (host k : Str) (vs : List V) (m : Map Str (List V))
    → lookup host m ≡ none
    → value_or (lookup k (write_list host vs m)) []
      ≡ (if host == k then vs else value_or (lookup k m) [])
unfolding write_list
lookup-write_list host k [] m h = ground arith
lookup-write_list host k (v ∷ vs) m h = ground (arith, lookup-insert host k (v ∷ vs) m)

-- A map of the file without a key that is still to come, nor the empty one.
pub record IsOpen {V : Type 0} (later : Str → Bool) (m : Map Str (List V)) : Type 0 where
  pub unique : Unique m
  pub unset : (k : Str) → (k == [] || later k) ≡ true → lookup k m ≡ none

module _ (host : Str) (later next : Str → Bool)
    (comes : (k : Str) → later k ≡ (host == k || next k)) where
  IsOpen-later : {V : Type 0} (m : Map Str (List V)) → IsOpen later m → IsOpen next m
  IsOpen-later m o = record {
    unique = o.unique;
    unset = λ k h. o.unset k (ground (arith, comes k));
  }

  write_list-IsOpen :
      {V : Type 0} (vs : List V) (m : Map Str (List V))
      → (host == []) ≡ false
      → next host ≡ false
      → IsOpen later m
      → IsOpen next (write_list host vs m)
  unfolding write_list
  write_list-IsOpen [] m named once o = IsOpen-later m o
  write_list-IsOpen (v ∷ vs) m named once o = record {
    unique = insert-Unique host (v ∷ vs) m o.unique;
    unset = λ k h. ground (arith, lookup-insert host k (v ∷ vs) m, o.unset k, comes k);
  }

-- All three maps.
pub record AreOpen (later : Str → Bool) (file : ConfigFile) : Type 0 where
  pub forwards : IsOpen later file.remembered_forwards
  pub published : IsOpen later file.published_forwards
  pub directories : IsOpen later file.working_directory_rules

-- The rules that the file holds for a scope.
abbrev pub seen : Str → ConfigFile → ScopeRules
seen k file = if k == [] then global_rules file else file_at k file

wire_scope-AreOpen :
    (host : Str) (r : ScopeRules) (later next : Str → Bool) (file : ConfigFile)
    → ((k : Str) → later k ≡ (host == k || next k))
    → next host ≡ false
    → AreOpen later file
    → AreOpen next (wire_scope host r file)
unfolding wire_scope
wire_scope-AreOpen host r later next file comes once o = elim (Bool-cases (host == [])) [
  | inl t ↦ rw t (record {
    forwards = IsOpen-later host later next comes file.remembered_forwards o.forwards;
    published = IsOpen-later host later next comes file.published_forwards o.published;
    directories = IsOpen-later host later next comes file.working_directory_rules o.directories;
  })
  | inr f ↦ rw f (record {
    forwards =
        write_list-IsOpen host later next comes r.forwards file.remembered_forwards f once
          o.forwards;
    published =
        write_list-IsOpen host later next comes r.published file.published_forwards f once
          o.published;
    directories =
        write_list-IsOpen host later next comes r.directories file.working_directory_rules f once
          o.directories;
  })
]

same_rules :
    (r s : ScopeRules)
    → r.forwards ≡ s.forwards
    → r.published ≡ s.published
    → r.directories ≡ s.directories
    → r.ignored_apps ≡ s.ignored_apps
    → r ≡ s
same_rules r s f p d g = cc

seen-wire_scope :
    (host k : Str) (r : ScopeRules) (later : Str → Bool) (file : ConfigFile)
    → IsWritable host r
    → later host ≡ true
    → AreOpen later file
    → seen k (wire_scope host r file) ≡ (if host == k then r else seen k file)
unfolding wire_scope Str-discrete
seen-wire_scope [] [] r later file w comes o = same_rules _ r refl (sym (w.global refl)) refl refl
seen-wire_scope [] (c ∷ k) r later file w comes o = refl
seen-wire_scope (c ∷ host) [] r later file w comes o = refl
seen-wire_scope (c ∷ host) (b ∷ k) r later file w comes o =
    let name = c ∷ host in
    let asked = b ∷ k in
    let f =
      lookup-write_list name asked r.forwards file.remembered_forwards
        (o.forwards.unset name comes) in
    let p =
      lookup-write_list name asked r.published file.published_forwards
        (o.published.unset name comes) in
    let d =
      lookup-write_list name asked r.directories file.working_directory_rules
        (o.directories.unset name comes) in
    elim (Bool-cases (name == asked)) [
      | inl t ↦ rw t (
          same_rules _ r (f ∙ rw t refl) (p ∙ rw t refl) (d ∙ rw t refl)
            (sym (w.named (λ e. ground arith))))
      | inr n ↦
          rw n
            (same_rules _ (file_at asked file) (f ∙ rw n refl) (p ∙ rw n refl) (d ∙ rw n refl) refl)
    ]

-- The rules of a scope after the loop, given those that the file held before.
abbrev pub written : Option (Option ScopeRules) → ScopeRules → ScopeRules
written (some (some r)) before = r
written _ before = before

-- Each scope that is present can be written.
abbrev pub AllWritable : Map Str (Option ScopeRules) → Type 0
AllWritable =
    All (λ (e : Str × Option ScopeRules). (r : ScopeRules) → e.1 ≡ some r → IsWritable e.0 r)

-- What the loop leaves of the file, but for the rules.
pub record SameHead (before after : ConfigFile) : Type 0 where
  pub hosts : after.hosts ≡ before.hosts
  pub ignored_hosts : after.ignored_hosts ≡ before.ignored_hosts
  pub schema_version : after.schema_version ≡ before.schema_version

wire_scope-SameHead :
    (host : Str) (r : ScopeRules) (file : ConfigFile) → SameHead file (wire_scope host r file)
unfolding wire_scope
wire_scope-SameHead host r file = elim (Bool-cases (host == [])) [
  | inl t ↦ rw t (record { hosts = refl; ignored_hosts = refl; schema_version = refl })
  | inr f ↦ rw f (record { hosts = refl; ignored_hosts = refl; schema_version = refl })
]

SameHead-trans : (a b c : ConfigFile) → SameHead a b → SameHead b c → SameHead a c
SameHead-trans a b c s t = record {
  hosts = t.hosts ∙ s.hosts;
  ignored_hosts = t.ignored_hosts ∙ s.ignored_hosts;
  schema_version = t.schema_version ∙ s.schema_version;
}

publishes_ok :
    (host : Str) (r : ScopeRules)
    → IsWritable host r
    → (host == [] && ltb 0 (length r.published)) ≡ false
publishes_ok host r w = ground (arith, w.global)

pub wire_scopes_lem :
    (scopes : Map Str (Option ScopeRules)) (file : ConfigFile)
    → Unique scopes
    → AllWritable scopes
    → AreOpen (λ k. has k scopes) file
    → (out : ConfigFile) × (wire_scopes scopes file ≡ ok out)
      × AreOpen (λ k. false) out
      × SameHead file out
      × ((k : Str) → seen k out ≡ written (lookup k scopes) (seen k file))
unfolding wire_scopes lookup
wire_scopes_lem [] file u w o =
    (file, refl, o, record { hosts = refl; ignored_hosts = refl; schema_version = refl }, λ k. refl)
wire_scopes_lem ((host, none) ∷ rest) file u w o =
    let o' : AreOpen (λ k. has k rest) file = record {
      forwards =
          IsOpen-later host (λ k. has k ((host, none) ∷ rest)) (λ k. has k rest) (λ k. ground arith)
            file.remembered_forwards o.forwards;
      published =
          IsOpen-later host (λ k. has k ((host, none) ∷ rest)) (λ k. has k rest) (λ k. ground arith)
            file.published_forwards o.published;
      directories =
          IsOpen-later host (λ k. has k ((host, none) ∷ rest)) (λ k. has k rest) (λ k. ground arith)
            file.working_directory_rules o.directories;
    } in
    let (out, e, p, h, s) = wire_scopes_lem rest file u.1 w.1 o' in
    (out, e, p, h, λ k. s k ∙ ground (arith, u.0))
wire_scopes_lem ((host, some r) ∷ rest) file u w o =
    let fits = w.0 r refl in
    let here = λ (k : Str). has k ((host, some r) ∷ rest) in
    let next = wire_scope host r file in
    let o' = wire_scope-AreOpen host r here (λ k. has k rest) file (λ k. ground arith) u.0 o in
    let (out, e, p, h, s) = wire_scopes_lem rest next u.1 w.1 o' in
    (
      out,
      rw (publishes_ok host r fits) e,
      p,
      SameHead-trans file next out (wire_scope-SameHead host r file) h,
      λ k.
          s k
          ∙ ap (written (lookup k rest))
              (seen-wire_scope host k r here file fits (ground (arith, ==_refl host)) o)
          ∙ ground (arith, u.0),
    )
