-- ===== src/Openssh/Control/Buffer.antt =====
-- What the bounded buffer holds.
use mathlib.Core.List.{append-nil, append_assoc}
use ssh_forward.Core.Types.{direction_eq, key_eq, state_eq, target_eq}
use ssh_forward.Openssh.Control.{drop, write}
use ssh_forward.Prelude.{
  Bool-cases, List, Str, [], ap, arith, bool_eq, inl, inr, leb, length, length-append, nat_eq, refl,
  str_eq, suc, sym, zero, ℕ, ◌++◌, ◌+◌, ◌-◌, ◌<◌, ◌∙◌, ◌∷◌, ◌≡◌, ◌≤◌,
}

drop-append-below : (n : ℕ) (s t : Str) → n ≤ length s → drop n (s ++ t) ≡ drop n s ++ t
drop-append-below zero s t h = refl
drop-append-below (suc n) [] t h = absurd (omega (arith, h))
drop-append-below (suc n) (c ∷ s) t h = drop-append-below n s t (omega (arith, h))

drop_at : {m n : ℕ} (s : Str) → m ≡ n → drop m s ≡ drop n s
drop_at s h = ap (λ k. drop k s) h

drop-append-above : (n : ℕ) (s t : Str) → drop (length s + n) (s ++ t) ≡ drop n t
drop-append-above n [] t = drop_at t (omega arith)
drop-append-above n (c ∷ s) t =
    drop_at {n = suc (length s + n)} (c ∷ (s ++ t)) (omega arith) ∙ drop-append-above n s t

length-drop : (n : ℕ) (s : Str) → length (drop n s) ≡ length s - n
length-drop zero s = omega arith
length-drop (suc n) [] = omega arith
length-drop (suc n) (c ∷ s) = omega (arith, length-drop n s)

drop-nil : (n : ℕ) → drop n [] ≡ []
drop-nil zero = refl
drop-nil (suc n) = refl

drop-drop : (m n : ℕ) (s : Str) → drop m (drop n s) ≡ drop (n + m) s
drop-drop m zero s = drop_at s (omega arith)
drop-drop m (suc n) [] = drop-nil m ∙ sym (drop-nil (suc n + m))
drop-drop m (suc n) (c ∷ s) = drop-drop m n s ∙ drop_at {m = suc (n + m)} (c ∷ s) (omega arith)

-- The last bytes of a text.
abbrev pub tail_of : ℕ → Str → Str
tail_of limit s = drop (length s - limit) s

write-tail_of :
    (limit : ℕ) (s added : Str) → write limit (tail_of limit s) added ≡ tail_of limit (s ++ added)
unfolding write
write-tail_of limit s added = elim (Bool-cases (leb limit (length added))) [
  | inl long ↦
      let longer : limit ≤ length added = ground arith in
      rw long (
        sym (drop-append-above (length added - limit) s added)
        ∙ drop_at (s ++ added) (omega (arith, longer, length-append s added)))
  | inr short ↦
      let shorter : length added < limit = ground arith in
      let all = length s + length added - limit in
      rw short (
        ap (λ t. t ++ added)
          (drop-drop (length (tail_of limit s) + length added - limit) (length s - limit) s
            ∙ drop_at {n = all} s (omega (arith, shorter, length-drop (length s - limit) s)))
        ∙ sym (drop-append-below all s added (omega (arith, shorter)))
        ∙ drop_at (s ++ added) (omega (arith, length-append s added)))
]

-- The buffer after it was written to.
unfoldable pub write_all : ℕ → Str → List Str → Str
write_all limit buffered [] = buffered
write_all limit buffered (added ∷ rest) = write_all limit (write limit buffered added) rest

unfoldable pub concat : List Str → Str
concat [] = []
concat (s ∷ rest) = s ++ concat rest

write_all-tail_of :
    (limit : ℕ) (s : Str) (chunks : List Str)
    → write_all limit (tail_of limit s) chunks ≡ tail_of limit (s ++ concat chunks)
unfolding write_all concat
write_all-tail_of limit s [] = rw (append-nil s) refl
write_all-tail_of limit s (added ∷ rest) =
    rw (write-tail_of limit s added, ← append_assoc s added (concat rest))
      (write_all-tail_of limit (s ++ added) rest)

-- However the output is cut into writes, the bounded buffer holds the last bytes of all that was
-- written, as many as its limit, or all of it where that is less.
pub write_all_lem :
    (limit : ℕ) (chunks : List Str) → write_all limit [] chunks ≡ tail_of limit (concat chunks)
write_all_lem limit chunks =
    ap (λ b. write_all limit b chunks) (sym (drop-nil (0 - limit)))
    ∙ write_all-tail_of limit [] chunks
