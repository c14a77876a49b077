-- ===== src/App/Equivalent/Order.antt =====
-- The preference between two targets of a group is a strict order.
use ssh_forward.App.Equivalent.{bare, beats, is_alias, prefer_host, str_less, target_of}
use ssh_forward.App.Equivalent.Choice.{IsStrictOrder}
use ssh_forward.App.Targets.{DiscoveredHost, HostIdentity, HostTarget}
use ssh_forward.Core.Types.{direction_eq, key_eq, state_eq, target_eq}
use ssh_forward.Prelude.{
  Bool, Bool-cases, List, Map, Option, Str, arith, bool_eq, false, has, if◌then◌else◌, inl, inr,
  leq, nat_eq, not, str_compare, str_compare-IsOrder, str_eq, str_leq_antisym, sym, true, ◌==◌, ◌∙◌,
  ◌≡◌,
}

-- One level of the preference: the first test decides if it differs, else the rest does.
abbrev tiered : Bool → Bool → Bool → Bool
tiered a b rest = if not (a == b) then a else rest

tiered_trans :
    (a b c p q r : Bool)
    → (p ≡ true → q ≡ true → r ≡ true)
    → tiered a b p ≡ true
    → tiered b c q ≡ true
    → tiered a c r ≡ true
tiered_trans a b c p q r h s t = ground arith

tiered_connected :
    (a b p q : Bool) → tiered a b p ≡ false → tiered b a q ≡ false → (p ≡ false) × (q ≡ false)
tiered_connected a b p q s t = (ground arith, ground arith)

tiered_irrefl : (a p : Bool) → p ≡ false → tiered a a p ≡ false
tiered_irrefl a p h = ground arith

str_less_irrefl : (a : Str) → str_less a a ≡ false
str_less_irrefl a = ground (arith, str_compare-IsOrder.total a a)

str_less_trans : (a b c : Str) → str_less a b ≡ true → str_less b c ≡ true → str_less a c ≡ true
str_less_trans a b c h k = elim (Bool-cases (leq str_compare c a)) [
  | inr f ↦ ground arith
  | inl t ↦
      let o = str_compare-IsOrder in ground (arith, o.trans c a b t (o.total b a (ground arith)))
]

str_less_connected : (a b : Str) → str_less a b ≡ false → str_less b a ≡ false → a ≡ b
str_less_connected a b h k = ground (arith, str_leq_antisym a b)

module _ (explicit : Map Str HostTarget) (aliases : List Str) where
  prefer_host_irrefl : (n : Str) (t : HostTarget) → prefer_host explicit aliases n t n t ≡ false
  unfolding prefer_host
  prefer_host_irrefl n t =
      tiered_irrefl (is_alias explicit aliases n t) _
        (tiered_irrefl (has n explicit) _ (tiered_irrefl (bare t) _ (str_less_irrefl n)))

  prefer_host_trans :
      (n : Str) (t : HostTarget) (m : Str) (u : HostTarget) (l : Str) (v : HostTarget)
      → prefer_host explicit aliases n t m u ≡ true
      → prefer_host explicit aliases m u l v ≡ true
      → prefer_host explicit aliases n t l v ≡ true
  unfolding prefer_host
  prefer_host_trans n t m u l v =
      tiered_trans (is_alias explicit aliases n t) (is_alias explicit aliases m u)
        (is_alias explicit aliases l v) _ _ _
        (tiered_trans (has n explicit) (has m explicit) (has l explicit) _ _ _
          (tiered_trans (bare t) (bare u) (bare v) _ _ _ (str_less_trans n m l)))

  prefer_host_connected :
      (n : Str) (t : HostTarget) (m : Str) (u : HostTarget)
      → prefer_host explicit aliases n t m u ≡ false
      → prefer_host explicit aliases m u n t ≡ false
      → n ≡ m
  unfolding prefer_host
  prefer_host_connected n t m u h k =
      let a = is_alias explicit aliases n t in
      let b = is_alias explicit aliases m u in
      let (h1, k1) = tiered_connected a b _ _ h k in
      let (h2, k2) = tiered_connected (has n explicit) (has m explicit) _ _ h1 k1 in
      let (h3, k3) = tiered_connected (bare t) (bare u) _ _ h2 k2 in str_less_connected n m h3 k3

module _ (resolve : Str → HostTarget → Option HostIdentity) (cached : Map Str HostIdentity)
    (targets explicit : Map Str HostTarget) (aliases : List Str)
    (resolved : Map Str DiscoveredHost) where
  abbrev test : Str → Str → Bool
  test = beats resolve cached targets explicit aliases resolved

  abbrev at : Str → HostTarget
  at = target_of resolve cached targets explicit aliases

  beats-eq-tiered :
      (a b : Str)
      → test a b
        ≡ tiered (has a resolved) (has b resolved) (prefer_host explicit aliases a (at a) b (at b))
  unfolding beats
  beats-eq-tiered a b = ground arith

  pub beats-IsStrictOrder : IsStrictOrder test
  beats-IsStrictOrder = record {
    irreflexive = λ a.
        beats-eq-tiered a a
        ∙ tiered_irrefl (has a resolved) _ (prefer_host_irrefl explicit aliases a (at a));
    transitive = λ a b c h k.
        beats-eq-tiered a c
        ∙ tiered_trans (has a resolved) (has b resolved) (has c resolved) _ _ _
            (prefer_host_trans explicit aliases a (at a) b (at b) c (at c))
            (sym (beats-eq-tiered a b) ∙ h) (sym (beats-eq-tiered b c) ∙ k);
    connected = λ a b h k.
        let (h1, k1) =
          tiered_connected (has a resolved) (has b resolved) _ _ (sym (beats-eq-tiered a b) ∙ h)
            (sym (beats-eq-tiered b a) ∙ k) in
        prefer_host_connected explicit aliases a (at a) b (at b) h1 k1;
  }
