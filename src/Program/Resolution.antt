-- ===== src/Program/Resolution.antt =====
-- `resolveRemoteIP` of cmd/federation-controller/main.go: a push request for the workload entries when
-- the addresses of the remotes resolve to other IPs. Each tick has the network as it is then.
use mathlib.Core.List.{Perm}
use mathlib.Core.List.Perm
use federation.Common.{
  ◌≡◌, ◌≢◌, refl, ap, sym, ◌∙◌, ◌↔◌, ◌⊎◌, inl, inr, Bool, true, false, ◌&&◌, Bool-cases, none, List,
  [], ◌∷◌, ◌++◌, Text, text_eq, text_eq_iff, if◌then◌else◌, arith,
}
use federation.Common.Order.{sort_texts, sort_texts-perm, sort_texts-eq_of_perm}
use federation.Common.Outcomes.{Outcome, done, fail, panic, ◌>>=◌}
use federation.Config.{Remote}
use federation.Networking.{Network, resolve, Gives, resolve-of_Gives}
use federation.Xds.{PushRequest, workload_entry_type_url}

-- `networking.Resolve(remote.Addresses[0])`: the index is out of range on an empty slice.
resolve_first : Network → List Text → Outcome (List Text)
resolve_first n [] = panic
resolve_first n (addr ∷ rest) = done (resolve n (addr ∷ []))

-- The loop over the remotes.
unfoldable pub resolve_remotes : Network → List Remote → Outcome (List Text)
unfolding resolve_first
resolve_remotes n [] = done []
resolve_remotes n (remote ∷ rest) = do
  ips ← resolve_first n remote.addresses
  others ← resolve_remotes n rest
  done (ips ++ others)

-- `slices.Equal`.
unfoldable pub texts_equal : List Text → List Text → Bool
texts_equal [] [] = true
texts_equal (s ∷ ss) (t ∷ ts) = text_eq s t && texts_equal ss ts
texts_equal _ _ = false

-- `prevIPs`, and what was sent on the channel.
pub record Resolver : Type 0 where
  pub prev_ips : List Text
  pub pushed : List PushRequest

abbrev pub workload_entry_request : PushRequest
workload_entry_request = record { type_url = workload_entry_type_url; resources = none }

-- The rest of `resolveIPs` after its loop.
compare_ips : List Text → Resolver → Resolver
compare_ips curr_ips s =
    if texts_equal s.prev_ips (sort_texts curr_ips)
    then s
    else record { prev_ips = sort_texts curr_ips; pushed = s.pushed ++ workload_entry_request ∷ [] }

unfoldable pub resolve_ips : List Remote → Network → Resolver → Outcome Resolver
unfolding compare_ips
resolve_ips remotes n s = do curr_ips ← resolve_remotes n remotes; done (compare_ips curr_ips s)

-- What is there before the first tick: the IPs in the order of the remotes.
unfoldable pub first_ips : List Remote → Network → Outcome Resolver
first_ips remotes n = do
  ips ← resolve_remotes n remotes
  done (record { prev_ips = ips; pushed = [] })

tick_all : List Remote → List Network → Resolver → Outcome Resolver
tick_all remotes [] s = done s
tick_all remotes (n ∷ ns) s = do t ← resolve_ips remotes n s; tick_all remotes ns t

-- The ticks until the context is done.
unfoldable pub resolve_remote_ip : List Remote → Network → List Network → Outcome Resolver
unfolding tick_all
resolve_remote_ip remotes n ticks = do s ← first_ips remotes n; tick_all remotes ticks s

texts_equal_iff : (ss ts : List Text) → (texts_equal ss ts ≡ true) ↔ (ss ≡ ts)
unfolding texts_equal
texts_equal_iff [] [] = (λ h. refl, λ h. refl)
texts_equal_iff [] (t ∷ ts) = (λ h. cc, λ h. cc)
texts_equal_iff (s ∷ ss) [] = (λ h. cc, λ h. cc)
texts_equal_iff (s ∷ ss) (t ∷ ts) = ground (arith, text_eq_iff s t, texts_equal_iff ss ts)

-- The IPs that a network gives the remotes: for each remote, in order, those of its first address.
pub data ResolvesTo (n : Network) : List Remote → List Text → Type 0 where
  no_remotes : ResolvesTo n [] []
  and_remote :
      (remote : Remote) (addr : Text) (addrs : List Text) (rest : List Remote)
      (ips others : List Text)
      → remote.addresses ≡ addr ∷ addrs
      → Gives n addr ips
      → ResolvesTo n rest others
      → ResolvesTo n (remote ∷ rest) (ips ++ others)

ResolvesTo-resolve_remotes :
    (n : Network) (remotes : List Remote) (ips : List Text)
    → ResolvesTo n remotes ips
    → resolve_remotes n remotes ≡ done ips
unfolding resolve_remotes resolve_first
ResolvesTo-resolve_remotes n remotes ips no_remotes = refl
ResolvesTo-resolve_remotes n remotes ips (and_remote remote addr addrs rest here others e g r) =
    let first : resolve_first n remote.addresses ≡ done here =
      ap (resolve_first n) e ∙ ap done (resolve-of_Gives n addr here g) in
    rw first (rw (ResolvesTo-resolve_remotes n rest others r) refl)

-- A tick leaves everything as it is if the sorted IPs are those that are kept, and else keeps them and
-- asks for the workload entries.
pub resolve_ips_cases :
    (remotes : List Remote) (n : Network) (ips : List Text) (s : Resolver)
    → ResolvesTo n remotes ips
    → ((s.prev_ips ≡ sort_texts ips) × (resolve_ips remotes n s ≡ done s))
      ⊎ ((s.prev_ips ≢ sort_texts ips)
          × (resolve_ips remotes n s
              ≡ done (record {
                prev_ips = sort_texts ips;
                pushed = s.pushed ++ workload_entry_request ∷ [];
              })))
unfolding resolve_ips
resolve_ips_cases remotes n ips s r =
    let e = ResolvesTo-resolve_remotes n remotes ips r in
    elim (Bool-cases (texts_equal s.prev_ips (sort_texts ips))) [
      | inl same ↦ inl ((texts_equal_iff s.prev_ips (sort_texts ips)).0 same, rw e (rw same refl))
      | inr other ↦ inr (
        λ q. let same = (texts_equal_iff s.prev_ips (sort_texts ips)).1 q in cc,
        rw e (rw other refl),
      )
    ]

-- After a tick the sorted IPs are kept.
kept_after :
    (remotes : List Remote) (n : Network) (ips : List Text) (s t : Resolver)
    → ResolvesTo n remotes ips
    → resolve_ips remotes n s ≡ done t
    → t.prev_ips ≡ sort_texts ips
kept_after remotes n ips s t e h = elim (resolve_ips_cases remotes n ips s e) [
  | inl (same, k) ↦ let q : s ≡ t = cc in ap (λ (r : Resolver). r.prev_ips) (sym q) ∙ same
  | inr (other, k) ↦ sym (ap prev_of (sym k ∙ h))
]
  where
    prev_of : Outcome Resolver → List Text
    prev_of (done r) = r.prev_ips
    prev_of (fail e) = sort_texts ips
    prev_of panic = sort_texts ips

-- Of two ticks in a row, the second asks for the workload entries, once, exactly when the remotes
-- resolve to other IPs than at the first, over the first addresses of all of them: the same IPs in another order do not count as others.
pub resolve_ips_pushes_iff :
    (remotes : List Remote) (n n' : Network) (ips ips' : List Text) (s t : Resolver)
    → ResolvesTo n remotes ips
    → ResolvesTo n' remotes ips'
    → resolve_ips remotes n s ≡ done t
    → (u : Resolver) × (resolve_ips remotes n' t ≡ done u)
      × ((Perm ips ips' × (u.pushed ≡ t.pushed))
          ⊎ ((¬ Perm ips ips') × (u.pushed ≡ t.pushed ++ workload_entry_request ∷ [])))
resolve_ips_pushes_iff remotes n n' ips ips' s t e e' h =
    let kept = kept_after remotes n ips s t e h in
    elim (resolve_ips_cases remotes n' ips' t e') [
      | inl (same, k) ↦ (t, k, inl (by_sorting (sym kept ∙ same), refl))
      | inr (other, k) ↦ (_, k, inr (λ p. other (kept ∙ sort_texts-eq_of_perm ips ips' p), refl))
    ]
  where
    by_sorting : sort_texts ips ≡ sort_texts ips' → Perm ips ips'
    by_sorting q = Perm.trans (Perm.symm (sort_texts-perm ips)) (rw q (sort_texts-perm ips'))

-- At the first tick the IPs that are kept are not sorted: a network that has not changed is asked
-- about again exactly when they were not in order by chance.
pub first_tick :
    (remotes : List Remote) (n : Network) (ips : List Text)
    → ResolvesTo n remotes ips
    → (u : Resolver) × (resolve_remote_ip remotes n (n ∷ []) ≡ done u)
      × (((ips ≡ sort_texts ips) × (u.pushed ≡ []))
          ⊎ ((ips ≢ sort_texts ips) × (u.pushed ≡ workload_entry_request ∷ [])))
unfolding resolve_remote_ip first_ips
first_tick remotes n ips r =
    let e = ResolvesTo-resolve_remotes n remotes ips r in
    let s : Resolver = record { prev_ips = ips; pushed = [] } in
    let asked : Resolver = record {
      prev_ips = sort_texts ips;
      pushed = workload_entry_request ∷ [];
    } in
    elim (resolve_ips_cases remotes n ips s r) [
      | inl (same, k) ↦ (s, rw e (rw k refl), inl (same, refl))
      | inr (other, k) ↦ (asked, rw e (rw k refl), inr (other, refl))
    ]
