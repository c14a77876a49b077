-- ===== src/App/Edits/Stored.antt =====
-- The keys of what `wire` writes and of what is read back.
use mathlib.Core.Path.{subst}
use ssh_forward.App.Config.{ScopeRules, published_eq, remembered_eq}
use ssh_forward.App.Edits.Loadable.{AllKeys}
use ssh_forward.App.Wire.{
  ConfigFile, Configuration, WireError, assign_directories, assign_forwards, assign_published,
  assign_scopes, blank_file, configuration, empty_host_alias, update_scope, wire, wire_scope,
  wire_scopes, write_list,
}
use ssh_forward.Core.Types.{direction_eq, key_eq, state_eq, target_eq}
use ssh_forward.Prelude.{
  All-insert, Bool, Bool-cases, List, Map, Option, Result, Str, Unique, [], arith, bool_eq, err,
  false, if◌then◌else◌, inl, inr, insert, insert-Unique, lookup, nat_eq, none, ok, refl, some,
  str_eq, true, ◌==◌, ◌∷◌, ◌≡◌,
}

accepted_branch :
    (b : Bool) (read back : Configuration)
    → ◌≡◌ {A = Result WireError Configuration}
        (if b then err empty_host_alias else ok read)
        (ok back)
    → read ≡ back
accepted_branch true read back h = absurd (ground arith)
accepted_branch false read back h = ground arith

module _ (P : Str → Type 0) where
  pub record FileKeys (file : ConfigFile) : Type 0 where
    pub forwards : AllKeys P file.remembered_forwards
    pub published : AllKeys P file.published_forwards
    pub directories : AllKeys P file.working_directory_rules

  AllKeys-write_list :
      {V : Type 0} (host : Str) (vs : List V) (m : Map Str (List V))
      → P host
      → AllKeys P m
      → AllKeys P (write_list host vs m)
  unfolding write_list
  AllKeys-write_list host [] m p a = a
  AllKeys-write_list host (v ∷ vs) m p a = All-insert (λ e. P e.0) host (v ∷ vs) m p a

  FileKeys-wire_scope :
      (host : Str) (r : ScopeRules) (file : ConfigFile)
      → P host
      → FileKeys file
      → FileKeys (wire_scope host r file)
  unfolding wire_scope
  FileKeys-wire_scope host r file p k = elim (Bool-cases (host == [])) [
    | inl e ↦
        rw e
          (record { forwards = k.forwards; published = k.published; directories = k.directories })
    | inr e ↦ rw e (record {
      forwards = AllKeys-write_list host r.forwards file.remembered_forwards p k.forwards;
      published = AllKeys-write_list host r.published file.published_forwards p k.published;
      directories =
          AllKeys-write_list host r.directories file.working_directory_rules p k.directories;
    })
  ]

  FileKeys-wire_scopes :
      (rules : Map Str (Option ScopeRules)) (file out : ConfigFile)
      → AllKeys P rules
      → FileKeys file
      → wire_scopes rules file ≡ ok out
      → FileKeys out
  unfolding wire_scopes
  FileKeys-wire_scopes [] file out a k h = subst FileKeys (ground arith) k
  FileKeys-wire_scopes ((host, none) ∷ rest) file out a k h =
      FileKeys-wire_scopes rest file out a.1 k h
  FileKeys-wire_scopes ((host, some r) ∷ rest) file out a k h =
      FileKeys-wire_scopes rest (wire_scope host r file) out a.1
        (FileKeys-wire_scope host r file a.0 k) (ground (arith, h))

  pub FileKeys-wire :
      (c : Configuration) (out : ConfigFile) → AllKeys P c.rules → wire c ≡ ok out → FileKeys out
  unfolding wire
  FileKeys-wire c out a h =
      FileKeys-wire_scopes c.rules (blank_file c) out a
        (record { forwards = tt; published = tt; directories = tt }) h

  -- The keys of the rules have the property, and none occurs twice.
  abbrev pub HasKeys : Map Str (Option ScopeRules) → Type 0
  HasKeys rules = AllKeys P rules × Unique rules

  HasKeys-assign_scopes :
      {V : Type 0} (assign : V → ScopeRules → ScopeRules) (m : Map Str V)
      → (rules : Map Str (Option ScopeRules)) → AllKeys P m
      → HasKeys rules
      → HasKeys (assign_scopes assign m rules)
  unfolding assign_scopes update_scope
  HasKeys-assign_scopes assign [] rules a k = k
  HasKeys-assign_scopes assign ((host, v) ∷ rest) rules a k =
      HasKeys-assign_scopes assign rest (update_scope host (assign v) rules) a.1
        (All-insert (λ e. P e.0) host _ rules a.0 k.0, insert-Unique host _ rules k.1)

  pub HasKeys-configuration :
      (file : ConfigFile) (back : Configuration)
      → P []
      → FileKeys file
      → configuration file ≡ ok back
      → HasKeys back.rules
  unfolding configuration insert lookup
  HasKeys-configuration file back p k h =
      subst (λ (c : Configuration). HasKeys c.rules) (accepted_branch _ _ back h)
        (HasKeys-assign_scopes assign_directories file.working_directory_rules _ k.directories (
          HasKeys-assign_scopes assign_published file.published_forwards _ k.published (
            HasKeys-assign_scopes assign_forwards file.remembered_forwards _ k.forwards
              ((p, tt), (refl, tt)))))
