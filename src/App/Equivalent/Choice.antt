-- ===== src/App/Equivalent/Choice.antt =====
-- The loop over a group picks its only unbeaten name.
use ssh_forward.App.Equivalent.{winner_of}
use ssh_forward.Core.Types.{direction_eq, key_eq, state_eq, target_eq}
use ssh_forward.Prelude.{
  Bool, Bool-cases, List, Str, [], arith, bool_eq, contains, false, inl, inr, nat_eq, refl, str_eq,
  true, ◌==◌, ◌||◌, ◌∷◌, ◌≡◌,
}

pub record IsStrictOrder (beats : Str → Str → Bool) : Type 0 where
  pub irreflexive : (a : Str) → beats a a ≡ false
  pub transitive : (a b c : Str) → beats a b ≡ true → beats b c ≡ true → beats a c ≡ true
  pub connected : (a b : Str) → beats a b ≡ false → beats b a ≡ false → a ≡ b

-- The name is in the group, and none of the group beats it.
pub record IsUnbeaten (beats : Str → Str → Bool) (names : List Str) (n : Str) : Type 0 where
  pub member : contains names n ≡ true
  pub best : (m : Str) → contains names m ≡ true → beats m n ≡ false

module _ (beats : Str → Str → Bool) (o : IsStrictOrder beats) where
  dropped_loses :
      (kept dropped winner : Str)
      → beats dropped kept ≡ false
      → beats kept winner ≡ false
      → beats dropped winner ≡ false
  dropped_loses kept dropped winner d k = elim (Bool-cases (beats dropped winner)) [
    | inr f ↦ f
    | inl t ↦ elim (Bool-cases (beats kept dropped)) [
      | inl t' ↦ ground (arith, o.transitive kept dropped winner t' t)
      | inr f' ↦ ground (arith, o.connected kept dropped f' d)
    ]
  ]

  asymmetric : (a b : Str) → beats a b ≡ true → beats b a ≡ false
  asymmetric a b h = elim (Bool-cases (beats b a)) [
    | inr f ↦ f
    | inl t ↦ ground (arith, o.transitive a b a h t, o.irreflexive a)
  ]

  -- A name that the winner keeps its place against may stand anywhere in the group.
  IsUnbeaten-cons :
      (kept dropped : Str) (rest names : List Str) (w : Str)
      → beats dropped kept ≡ false
      → ((m : Str) → contains names m ≡ (dropped == m || contains (kept ∷ rest) m))
      → IsUnbeaten beats (kept ∷ rest) w
      → IsUnbeaten beats names w
  unfolding contains
  IsUnbeaten-cons kept dropped rest names w d same u =
      let kept_loses = u.best kept (ground arith) in
      record {
        member = ground (arith, same w, u.member);
        best = λ m h. elim (Bool-cases (contains (kept ∷ rest) m)) [
          | inl t ↦ u.best m t
          | inr f ↦ ground (arith, same m, dropped_loses kept dropped w d kept_loses)
        ];
      }

  pub winner_of-IsUnbeaten :
      (winner : Str) (names : List Str)
      → IsUnbeaten beats (winner ∷ names) (winner_of beats winner names)
  unfolding winner_of contains
  winner_of-IsUnbeaten winner [] = record {
    member = ground arith;
    best = λ m h. ground (arith, o.irreflexive winner);
  }
  winner_of-IsUnbeaten winner (name ∷ rest) = elim (Bool-cases (beats name winner)) [
    | inl t ↦ rw t (
        IsUnbeaten-cons name winner rest (winner ∷ name ∷ rest) (winner_of beats name rest)
          (asymmetric name winner t) (λ m. refl) (winner_of-IsUnbeaten name rest))
    | inr f ↦ rw f (
        IsUnbeaten-cons winner name rest (winner ∷ name ∷ rest) (winner_of beats winner rest) f
          (λ m. ground arith) (winner_of-IsUnbeaten winner rest))
  ]

  pub IsUnbeaten-unique :
      (names : List Str) (n m : Str) → IsUnbeaten beats names n → IsUnbeaten beats names m → n ≡ m
  IsUnbeaten-unique names n m u v = o.connected n m (v.best n u.member) (u.best m v.member)
