-- ===== src/Common/Order.antt =====
-- `sort.Strings`: byte-lexicographic order, and the sorted list as the code's callers see it.
use mathlib.Core.List.{Perm, Mem, Memᴰ, mem-cons_self}
use mathlib.Core.List.Perm
use mathlib.Core.Path.{◌≡◌, refl}
use mathlib.Core.Bool.{Bool, true, false}
use mathlib.Core.List.{List, [], ◌∷◌}
use mathlib.Core.Logic.{inl, inr, ∥∥₁_elim}
use native.Mathlib.Omega.{arith}
use federation.Common.Tests.{◌==◌, ltb, if◌then◌else◌, Bool-cases}
use federation.Common.Texts.{Text}
use federation.Common.Lists.{All, All-at}

-- `a <= b` on strings.
unfoldable pub text_le : Text → Text → Bool
text_le [] t = true
text_le (x ∷ s) [] = false
text_le (x ∷ s) (y ∷ t) = if ltb x y then true else if x == y then text_le s t else false

pub text_le_total : (s t : Text) → text_le s t ≡ false → text_le t s ≡ true
unfolding text_le
text_le_total [] t h = cc
text_le_total (x ∷ s) [] h = refl
text_le_total (x ∷ s) (y ∷ t) h = ground (arith, text_le_total s t)

pub text_le_trans : (s t u : Text) → text_le s t ≡ true → text_le t u ≡ true → text_le s u ≡ true
unfolding text_le
text_le_trans [] t u h k = refl
text_le_trans (x ∷ s) [] u h k = cc
text_le_trans (x ∷ s) (y ∷ t) [] h k = cc
text_le_trans (x ∷ s) (y ∷ t) (z ∷ u) h k = ground (arith, text_le_trans s t u)

pub text_le_antisymm : (s t : Text) → text_le s t ≡ true → text_le t s ≡ true → s ≡ t
unfolding text_le
text_le_antisymm [] [] h k = refl
text_le_antisymm [] (y ∷ t) h k = cc
text_le_antisymm (x ∷ s) [] h k = cc
text_le_antisymm (x ∷ s) (y ∷ t) h k = ground (arith, text_le_antisymm s t)

insert_text : Text → List Text → List Text
insert_text s [] = s ∷ []
insert_text s (t ∷ ts) = if text_le s t then s ∷ t ∷ ts else t ∷ insert_text s ts

-- The sorted list is unique, so any sorting algorithm computes this function.
unfoldable pub sort_texts : List Text → List Text
unfolding insert_text
sort_texts [] = []
sort_texts (t ∷ ts) = insert_text t (sort_texts ts)

-- Each entry is at most every later one.
abbrev pub IsSorted : List Text → Type 0
IsSorted [] = Unit
IsSorted (t ∷ ts) = All (λ u. text_le t u ≡ true) ts × IsSorted ts

All-le_trans :
    (s t : Text) (ts : List Text)
    → text_le s t ≡ true
    → All (λ u. text_le t u ≡ true) ts
    → All (λ u. text_le s u ≡ true) ts
All-le_trans s t [] h a = tt
All-le_trans s t (u ∷ ts) h a = (text_le_trans s t u h a.0, All-le_trans s t ts h a.1)

All-insert_text :
    (r s : Text) (ts : List Text)
    → text_le r s ≡ true
    → All (λ u. text_le r u ≡ true) ts
    → All (λ u. text_le r u ≡ true) (insert_text s ts)
unfolding insert_text
All-insert_text r s [] h a = (h, tt)
All-insert_text r s (t ∷ ts) h a = elim (Bool-cases (text_le s t)) [
  | inl le ↦ rw le (h, a)
  | inr gt ↦ rw gt (a.0, All-insert_text r s ts h a.1)
]

insert_text-IsSorted : (s : Text) (ts : List Text) → IsSorted ts → IsSorted (insert_text s ts)
unfolding insert_text
insert_text-IsSorted s [] h = (tt, tt)
insert_text-IsSorted s (t ∷ ts) h = elim (Bool-cases (text_le s t)) [
  | inl le ↦ rw le ((le, All-le_trans s t ts le h.0), h)
  | inr gt ↦
      rw gt (All-insert_text t s ts (text_le_total s t gt) h.0, insert_text-IsSorted s ts h.1)
]

pub sort_texts-IsSorted : (ts : List Text) → IsSorted (sort_texts ts)
unfolding sort_texts
sort_texts-IsSorted [] = tt
sort_texts-IsSorted (t ∷ ts) = insert_text-IsSorted t (sort_texts ts) (sort_texts-IsSorted ts)

insert_text-perm : (s : Text) (ts : List Text) → Perm (insert_text s ts) (s ∷ ts)
unfolding insert_text
insert_text-perm s [] = Perm.refl (s ∷ [])
insert_text-perm s (t ∷ ts) = elim (Bool-cases (text_le s t)) [
  | inl le ↦ rw le (Perm.refl (s ∷ t ∷ ts))
  | inr gt ↦ rw gt (Perm.trans (Perm.cons t (insert_text-perm s ts)) (Perm.swap s t ts))
]

pub sort_texts-perm : (ts : List Text) → Perm (sort_texts ts) ts
unfolding sort_texts
sort_texts-perm [] = Perm.refl []
sort_texts-perm (t ∷ ts) =
    Perm.trans (insert_text-perm t (sort_texts ts)) (Perm.cons t (sort_texts-perm ts))

text_le_refl : (t : Text) → text_le t t ≡ true
unfolding text_le
text_le_refl [] = refl
text_le_refl (x ∷ t) = ground (arith, text_le_refl t)

Bool-set : IsSet Bool
Bool-set = hlevel

-- The head of a sorted list is at most each entry.
head_le : (t u : Text) (ts : List Text) → IsSorted (t ∷ ts) → Mem u (t ∷ ts) → text_le t u ≡ true
head_le t u ts h m =
    ∥∥₁_elim m (Bool-set _ _)
      (λ (d : Memᴰ u (t ∷ ts)). All-at (λ v. text_le t v ≡ true) (t ∷ ts) (text_le_refl t, h.0) d)

-- Two sorted lists with the same entries, as often, are one list.
pub IsSorted-eq_of_perm : (ss ts : List Text) → IsSorted ss → IsSorted ts → Perm ss ts → ss ≡ ts
IsSorted-eq_of_perm [] ts hs ht p = Perm.nil-eq p
IsSorted-eq_of_perm (s ∷ ss) [] hs ht p = Perm.eq-nil p
IsSorted-eq_of_perm (s ∷ ss) (t ∷ ts) hs ht p =
    let there = head_le s t ss hs ((Perm.mem_iff p).1 mem-cons_self) in
    let back = head_le t s ts ht ((Perm.mem_iff p).0 mem-cons_self) in
    let heads = text_le_antisymm s t there back in
    let tails = Perm.cons_inv (Perm.trans p (Perm.symm (Perm.cons' heads Perm.rfl))) in
    cc (heads, IsSorted-eq_of_perm ss ts hs.1 ht.1 tails)

-- The order in which the entries came does not show in the sorted list.
pub sort_texts-eq_of_perm : (ss ts : List Text) → Perm ss ts → sort_texts ss ≡ sort_texts ts
sort_texts-eq_of_perm ss ts p =
    IsSorted-eq_of_perm (sort_texts ss) (sort_texts ts) (sort_texts-IsSorted ss)
      (sort_texts-IsSorted ts)
      (Perm.trans (sort_texts-perm ss) (Perm.trans p (Perm.symm (sort_texts-perm ts))))
