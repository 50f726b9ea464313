-- ===== src/Common/Split.antt =====
-- `strings.Split` and `strings.Join` with one-byte separators.
use federation.Common.Texts.{Text}
use federation.Common.Tests.{◌==◌, ==_iff, if◌then◌else◌}
use federation.Common.Lists.{All}
use Prim.Native.Nat.{ℕ}
use mathlib.Core.Path.{◌≡◌, refl}
use mathlib.Core.Logic.{◌≢◌}
use mathlib.Core.List.{List, [], ◌∷◌, ◌++◌, map}
use native.Mathlib.Omega.{arith}

-- A byte in front of the first of the parts.
abbrev cons_head : ℕ → List Text → List Text
cons_head c [] = (c ∷ []) ∷ []
cons_head c (w ∷ ws) = (c ∷ w) ∷ ws

-- `strings.Split(s, sep)`: at least one part.
unfoldable pub split : ℕ → Text → List Text
split b [] = [] ∷ []
split b (c ∷ s) = let rest = split b s in if c == b then [] ∷ rest else cons_head c rest

-- `strings.Join(parts, sep)`.
unfoldable pub join : ℕ → List Text → Text
join b [] = []
join b (w ∷ []) = w
join b (w ∷ v ∷ ws) = w ++ (b ∷ join b (v ∷ ws))

-- No byte of the text is `b`.
abbrev pub Lacks : ℕ → Text → Type 0
Lacks b s = All (λ c. c ≢ b) s

-- The text up to the first separator is the first part.
pub split-append :
    (b : ℕ) (w rest : Text) → Lacks b w → split b (w ++ (b ∷ rest)) ≡ w ∷ split b rest
unfolding split
split-append b [] rest h = ground (arith, ==_iff b b)
split-append b (c ∷ w) rest (hc, hw) = rw (split-append b w rest hw) (ground (arith, ==_iff c b))

pub split_of_Lacks : (b : ℕ) (w : Text) → Lacks b w → split b w ≡ w ∷ []
unfolding split
split_of_Lacks b [] h = refl
split_of_Lacks b (c ∷ w) (hc, hw) = rw (split_of_Lacks b w hw) (ground (arith, ==_iff c b))

-- One byte for another, wherever it stands.
abbrev pub substitute : ℕ → ℕ → ℕ → ℕ
substitute b d c = if c == b then d else c

join-cons_head : (d c : ℕ) (ws : List Text) → join d (cons_head c ws) ≡ c ∷ join d ws
unfolding join
join-cons_head d c [] = refl
join-cons_head d c (w ∷ []) = refl
join-cons_head d c (w ∷ v ∷ ws) = refl

join-nil_cons : (d : ℕ) (ws : List Text) → ws ≢ [] → join d ([] ∷ ws) ≡ d ∷ join d ws
unfolding join
join-nil_cons d [] h = absurd (h refl)
join-nil_cons d (w ∷ ws) h = refl

split-ne-nil : (b : ℕ) (s : Text) → split b s ≢ []
unfolding split
split-ne-nil b [] e = cc
split-ne-nil b (c ∷ s) e = cons_head-ne-nil (split b s) (ground arith)
  where
    cons_head-ne-nil : (ws : List Text) → cons_head c ws ≡ [] → ⊥
    cons_head-ne-nil [] p = cc
    cons_head-ne-nil (w ∷ ws) p = cc

-- Splitting at one byte and joining with another replaces the byte everywhere.
pub join-split : (b d : ℕ) (s : Text) → join d (split b s) ≡ map (substitute b d) s
unfolding split
join-split b d [] = unfold join in refl
join-split b d (c ∷ s) = ground (
  arith,
  join-split b d s,
  join-nil_cons d (split b s) (split-ne-nil b s),
  join-cons_head d c (split b s),
)
