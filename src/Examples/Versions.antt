-- ===== src/Examples/Versions.antt =====
-- A server of one object whose version is made from its contents.
use federation.Common.{
  ℕ, ◌≡◌, refl, sym, ap, ◌∙◌, ◌⊎◌, inl, inr, Bool, true, false, not, ◌&&◌, Bool-cases, Option, none,
  some, [], ◌∷◌, Text, text_eq, text_eq_iff, Error, conflict, not_found, Result, ok, err,
  if◌then◌else◌, arith,
}
use federation.Kube.Api.{NamespacedName, same_name, same_name_iff}
use federation.Controllers.{ObjectClient}
use federation.Controllers.Retry.Kept.{Versioned}
use federation.Examples.Kube.{place}

abbrev pub Contents : Type 0
Contents = Bool × Bool

-- Whether the object has the finalizer, and whether it is marked for deletion.
pub record Thing : Type 0 where
  pub held : Bool
  pub deleting : Bool
  pub version : Text

abbrev pub bit : Bool → ℕ
bit true = 1
bit false = 0

abbrev pub version_of : Contents → Text
version_of (h, d) = bit h ∷ bit d ∷ []

abbrev pub at : Contents → Thing
at c = record { held = c.0; deleting = c.1; version = version_of c }

abbrev pub view_at : Option Contents → Option Thing
view_at none = none
view_at (some c) = some (at c)

abbrev pub view : Option Contents → NamespacedName → Option Thing
view s k = if same_name place k then view_at s else none

abbrev pub found : Option Thing → Result Thing
found none = err not_found
found (some x) = ok x

abbrev pub write : Thing → Option Contents → Option Contents × Option Error
write o none = (none, some not_found)
write o (some c) =
    if text_eq o.version (version_of c)
    then (if o.deleting && not o.held then none else some (o.held, o.deleting), none)
    else (some c, some conflict)

abbrev pub client : ObjectClient (Option Contents) Thing
client = record {
  key_of = λ o. place;
  deep_copy = λ o. some o;
  get = λ k s. found (view s k);
  update = write;
  update_status = write;
}

bit_lem : (a b : Bool) → bit a ≡ bit b → a ≡ b
bit_lem true true e = refl
bit_lem false false e = refl
bit_lem true false e = cc
bit_lem false true e = cc

version_of_lem : (c d : Contents) → version_of c ≡ version_of d → c ≡ d
version_of_lem (h, d) (h', d') e =
    let held : bit h ≡ bit h' = cc in
    let deleting : bit d ≡ bit d' = cc in
    let same = bit_lem h h' held in let same' = bit_lem d d' deleting in cc

viewed_none : (b : Bool) (x : Thing) → (if b then none else none) ≡ some x → ⊥
viewed_none true x h = cc
viewed_none false x h = cc

pub viewed :
    (k : NamespacedName) (s : Option Contents) (x : Thing)
    → view s k ≡ some x
    → (place ≡ k) × (c : Contents) × (s ≡ some c) × (x ≡ at c)
viewed k none x h = absurd (viewed_none (same_name place k) x h)
viewed k (some c) x h = elim (Bool-cases (same_name place k)) [
  | inl here ↦ ((same_name_iff place k).0 here, c, refl, (let q = rw here at h in cc))
  | inr other ↦ absurd (let q = rw other at h in cc)
]

pub got : (o : Option Thing) (x : Thing) → found o ≡ ok x → o ≡ some x
got none x h = cc
got (some y) x h = cc

pub one_at :
    (k : NamespacedName) (s t : Option Contents) (x y : Thing)
    → view s k ≡ some x
    → view t k ≡ some y
    → x.version ≡ y.version
    → x ≡ y
one_at k s t x y h h' e =
    let (p, c, q, r) = viewed k s x h in
    let (p', c', q', r') = viewed k t y h' in
    let v : version_of c ≡ version_of c' =
      sym (ap (λ (z : Thing). z.version) r) ∙ e ∙ ap (λ (z : Thing). z.version) r' in
    r ∙ ap at (version_of_lem c c' v) ∙ sym r'

place_same : same_name place place ≡ true
place_same = (same_name_iff place place).1 refl

pub over_version :
    (o : Thing) (s : Option Contents)
    → (write o s).1 ≡ none
    → (x : Thing) × (view s place ≡ some x) × (x.version ≡ o.version)
over_version o none h = absurd (cc)
over_version o (some c) h = elim (Bool-cases (text_eq o.version (version_of c))) [
  | inl same ↦ (at c, rw place_same refl, sym ((text_eq_iff o.version (version_of c)).0 same))
  | inr other ↦ absurd (let q = rw other at h in cc)
]

pub stored :
    (o : Thing) (s : Option Contents)
    → (write o s).1 ≡ none
    → ((y : Thing) × (view (write o s).0 place ≡ some y)
        × ((y.held ≡ o.held) × (y.deleting ≡ o.deleting)))
      ⊎ ((view (write o s).0 place ≡ none) × ((o.deleting ≡ true) × (o.held ≡ false)))
stored o none h = absurd (cc)
stored o (some c) h = elim (Bool-cases (text_eq o.version (version_of c))) [
  | inl same ↦ elim (Bool-cases (o.deleting && not o.held)) [
    | inl leaves ↦ rw same (rw leaves (rw place_same (inr (refl, ground arith))))
    | inr stays ↦
        rw same (rw stays (rw place_same (inl (at (o.held, o.deleting), refl, (refl, refl)))))
  ]
  | inr other ↦ absurd (let q = rw other at h in cc)
]

abbrev pub versioned : Versioned client write
versioned = record {
  view = view;
  version = λ x. x.version;
  Same = λ x y. (x.held ≡ y.held) × (x.deleting ≡ y.deleting);
  Leaving = λ x. (x.deleting ≡ true) × (x.held ≡ false);
  got = λ k s x h. (s, got (view s k) x h);
  named = λ k s x h. (viewed k s x h).0;
  unchanged = one_at;
  over_version = over_version;
  stored = stored;
}
