-- ===== src/Kube/Sync/Loops.antt =====
-- Rules for loops that may return early.
use mathlib.Core.List.{Memᴰ}
use federation.Common.{◌≡◌, refl, ap, ◌∙◌, sym, List, [], ◌∷◌}
use federation.Common.Outcomes.{Outcome, done, fail, panic}
use federation.Kube.Sync.{Step, and_then, for_each}

module _ {S : Type 0} where
  -- A sequence that ended well ran both of its parts.
  pub and_then_done :
      (r : S × Outcome (Unit {0})) (next : Step S)
      → (and_then r next).1 ≡ done tt
      → (r.1 ≡ done tt) × (and_then r next ≡ next r.0)
  and_then_done (s, done u) next h = (refl, refl)
  and_then_done (s, fail e) next h = absurd (cc)
  and_then_done (s, panic) next h = absurd (cc)

  pub and_then_keeps :
      (P : S → Type 0) (r : S × Outcome (Unit {0})) (next : Step S)
      → P r.0
      → ((s : S) → P s → P (next s).0)
      → P (and_then r next).0
  and_then_keeps P (s, done u) next p k = k s p
  and_then_keeps P (s, fail e) next p k = p
  and_then_keeps P (s, panic) next p k = p

module _ {A S : Type 0} (body : A → Step S) where
  -- What each round keeps, the loop keeps, however it ends.
  pub for_each_keeps :
      (P : S → Type 0) (es : List A)
      → ((a : A) → Memᴰ a es → (s : S) → P s → P (body a s).0)
      → (s : S) → P s
      → P (for_each body es s).0
  unfolding for_each
  for_each_keeps P [] k s p = p
  for_each_keeps P (a ∷ rest) k s p =
      and_then_keeps P (body a s) (for_each body rest) (k a (Memᴰ.head refl) s p)
        (for_each_keeps P rest (λ b m. k b (Memᴰ.tail m)))

  -- The same of rounds that end well, for a loop that ended well.
  pub for_each_done_keeps :
      (P : S → Type 0) (es : List A)
      → ((a : A) → Memᴰ a es → (s : S) → P s → (body a s).1 ≡ done tt → P (body a s).0)
      → (s : S) → P s
      → (for_each body es s).1 ≡ done tt
      → P (for_each body es s).0
  unfolding for_each
  for_each_done_keeps P [] k s p h = p
  for_each_done_keeps P (a ∷ rest) k s p h =
      let (here, e) = and_then_done (body a s) (for_each body rest) h in
      rw e (
        for_each_done_keeps P rest (λ b m. k b (Memᴰ.tail m)) (body a s).0
          (k a (Memᴰ.head refl) s p here) (ap (λ (r : S × Outcome (Unit {0})). r.1) (sym e) ∙ h))

  -- A loop that ended well has done what one of its rounds does, if the others keep that.
  pub for_each_does :
      (P Q : S → Type 0) (es : List A) (a : A)
      → Memᴰ a es
      → ((b : A) → Memᴰ b es → (s : S) → P s → (body b s).1 ≡ done tt → P (body b s).0)
      → ((s : S) → P s → (body a s).1 ≡ done tt → Q (body a s).0)
      → ((b : A) → Memᴰ b es → (s : S) → Q s → (body b s).1 ≡ done tt → Q (body b s).0)
      → (s : S) → P s
      → (for_each body es s).1 ≡ done tt
      → Q (for_each body es s).0
  unfolding for_each
  for_each_does P Q (b ∷ rest) a (Memᴰ.head e) kp does kq s p h =
      let (here, e') = and_then_done (body b s) (for_each body rest) h in
      let first : Q (body b s).0 = rw (sym e) (does s p (rw e here)) in
      rw e' (
        for_each_done_keeps Q rest (λ c m. kq c (Memᴰ.tail m)) (body b s).0 first
          (ap (λ (r : S × Outcome (Unit {0})). r.1) (sym e') ∙ h))
  for_each_does P Q (b ∷ rest) a (Memᴰ.tail m) kp does kq s p h =
      let (here, e') = and_then_done (body b s) (for_each body rest) h in
      rw e' (
        for_each_does P Q rest a m (λ c n. kp c (Memᴰ.tail n)) does (λ c n. kq c (Memᴰ.tail n))
          (body b s).0 (kp b (Memᴰ.head refl) s p here)
          (ap (λ (r : S × Outcome (Unit {0})). r.1) (sym e') ∙ h))
  for_each_does P Q [] a m kp does kq s p h = elim m [ ]
